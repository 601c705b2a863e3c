-- ===== src/Net/Asserts/Udp.antt =====
-- The failures of UdpSocket.
use cpp_core_systems.Prelude.{
  ℕ, Bool, true, false, ◌==◌, leb, if◌then◌else◌, Option, none, some, List, length, Bool-cases, inl,
  inr,
}
use cpp_core_systems.Net.SocketEndpoint.{SocketEndpoint}
use cpp_core_systems.Net.SocketEndpoint.Native.{to_native}
use cpp_core_systems.Net.SocketError.{
  Errors, SocketResult, success, failure, bad_file_descriptor, invalid_argument, message_size,
}
use cpp_core_systems.Net.SocketError.Classes.{IsErrors}
use cpp_core_systems.Net.System.{System, SetsErrno, invalid_handle}
use cpp_core_systems.Net.SocketHandle.{is_valid}
use cpp_core_systems.Net.SocketHelpers.{create_socket}
use cpp_core_systems.Net.SocketHelpers.Retry.{retry}
use cpp_core_systems.Net.SocketHelpers.Query.{read_endpoint}
use cpp_core_systems.Net.UdpSocket
use cpp_core_systems.Net.UdpSocket.Receive.{receive_from, received}
use cpp_core_systems.Net.Asserts.{
  Sound, SoundRun, made-Sound, retry-Sound, create_socket-Sound, attach-Sound,
}
use cpp_core_systems.Net.Asserts.Tcp.{read_endpoint-Sound}

-- The result of SendTo, which has the object's new m_handle with it.
abbrev pub SoundSend {ℓ} : {S : Type ℓ} → Option (SocketResult ℕ × ℕ × S) → Type 0
SoundSend none = Unit {0}
SoundSend (some r) = Sound r.0

module _ (sys : System) (std : Errors) (errors : IsErrors std) (sets : SetsErrno sys) where
  bind-Sound :
      (this : ℕ) (e : SocketEndpoint) (s : sys.State) → Sound (UdpSocket.bind sys std this e s).0
  unfolding UdpSocket.bind
  bind-Sound this e s = elim (Bool-cases (is_valid this)) [
    | inl held ↦ rw held (made-Sound sys std errors sets invalid_argument)
    | inr free ↦ rw free (
        attach-Sound sys std errors sets
          (create_socket sys std e.address.version sys.sock_dgram sys.ipproto_udp s) _ this
          (create_socket-Sound sys std errors sets e.address.version sys.sock_dgram sys.ipproto_udp
            s)
          (λ h t. sets.bind_sets h (to_native sys.headers e) t))
  ]

  finish_send-Sound :
      (this pending size : ℕ) (r : SocketResult ℕ × sys.State)
      → Sound r.0
      → Sound (UdpSocket.finish_send sys std this pending size r).0
  unfolding UdpSocket.finish_send
  finish_send-Sound this pending size (failure error, t) sound = sound
  finish_send-Sound this pending size (success count, t) sound = elim (Bool-cases (count == size)) [
    | inr part ↦ rw part (made-Sound sys std errors sets message_size)
    | inl whole ↦ elim (Bool-cases (is_valid pending)) [
      | inl new ↦ rw (whole, new) tt
      | inr old ↦ rw (whole, old) tt
    ]
  ]

  send_with-Sound :
      (fuel this pending : ℕ) (buffer : List ℕ) (destination : SocketEndpoint) (s : sys.State)
      → SoundSend (UdpSocket.send_with sys std fuel this pending buffer destination s)
  unfolding UdpSocket.send_with
  send_with-Sound fuel this pending buffer destination s =
      let handle = if is_valid this then this else pending in
      let call = sys.sendto handle buffer (to_native sys.headers destination) in
      ended (retry sys std call fuel s) (
        retry-Sound sys std errors sets call fuel s
          (sets.sendto_sets handle buffer (to_native sys.headers destination)))
    where
      ended :
          (o : Option (SocketResult ℕ × sys.State))
          → SoundRun sys std o
          → SoundSend (elim o [
            | none ↦ none
            | some r ↦ some (UdpSocket.finish_send sys std this pending (length buffer) r)
          ])
      ended none sound = tt
      ended (some r) sound = finish_send-Sound this pending (length buffer) r sound

  send_to-Sound :
      (fuel this : ℕ) (buffer : List ℕ) (destination : SocketEndpoint) (s : sys.State)
      → SoundSend (UdpSocket.send_to sys std fuel this buffer destination s)
  unfolding UdpSocket.send_to
  send_to-Sound fuel this buffer destination s =
      elim (Bool-cases (leb (length buffer) UdpSocket.max_transfer_length)) [
        | inr long ↦ rw long (made-Sound sys std errors sets message_size)
        | inl short ↦ elim (Bool-cases (is_valid this)) [
          | inl held ↦
              rw (short, held) (send_with-Sound fuel this invalid_handle buffer destination s)
          | inr free ↦
              rw (short, free)
                (created
                  (create_socket sys std destination.address.version sys.sock_dgram sys.ipproto_udp
                    s)
                  (create_socket-Sound sys std errors sets destination.address.version
                    sys.sock_dgram sys.ipproto_udp s))
        ]
      ]
    where
      created :
          (c : SocketResult ℕ × sys.State)
          → Sound c.0
          → SoundSend (elim c.0 [
            | failure error ↦ some (failure error, this, c.1)
            | success pending ↦ UdpSocket.send_with sys std fuel this pending buffer destination c.1
          ])
      created (failure error, t) sound = sound
      created (success pending, t) sound = send_with-Sound fuel this pending buffer destination t

  received-Sound :
      (r : SocketResult (List ℕ × Bool × (sys.headers.Storage × ℕ)) × sys.State)
      → Sound r.0
      → Sound (received sys std r).0
  unfolding received
  received-Sound (failure error, s) sound = sound
  received-Sound (success (bytes, true, from), s) sound =
      made-Sound sys std errors sets message_size
  received-Sound (success (bytes, false, from), s) sound =
      sender (read_endpoint sys std from) (read_endpoint-Sound sys std errors sets from)
    where
      sender :
          (e : SocketResult SocketEndpoint)
          → Sound e
          → Sound {A = List ℕ × SocketEndpoint}
              (elim e [ failure error ↦ failure error | success sender ↦ success (bytes, sender) ])
      sender (failure error) sound = sound
      sender (success from) sound = tt

  receive_from-Sound :
      (fuel this size : ℕ) (s : sys.State)
      → SoundRun sys std (receive_from sys std fuel this size s)
  unfolding receive_from
  receive_from-Sound fuel this size s = elim (Bool-cases (is_valid this)) [
    | inr invalid ↦ rw invalid (made-Sound sys std errors sets bad_file_descriptor)
    | inl valid ↦ elim (Bool-cases (leb size UdpSocket.max_transfer_length)) [
      | inr large ↦ rw (valid, large) (made-Sound sys std errors sets message_size)
      | inl small ↦
          rw (valid, small)
            (ended (retry sys std (sys.recvmsg this size) fuel s) (
              retry-Sound sys std errors sets (sys.recvmsg this size) fuel s
                (sets.recvmsg_sets this size)))
    ]
  ]
    where
      ended :
          (o : Option (SocketResult (List ℕ × Bool × (sys.headers.Storage × ℕ)) × sys.State))
          → SoundRun sys std o
          → SoundRun sys std {A = List ℕ × SocketEndpoint} {S = sys.State}
              (elim o [ none ↦ none | some r ↦ some (received sys std r) ])
      ended none sound = tt
      ended (some r) sound = received-Sound r sound

  -- Where a call that fails sets errno (SetsErrno), and std::errc is as IsErrors says, with no
  -- enumerator 0: whatever error Bind, SendTo and ReceiveFrom of a UdpSocket put into a failure,
  -- valid object or not, is not success.
  pub udp_socket-Sound :
      (fuel this size : ℕ) (buffer : List ℕ) (e : SocketEndpoint) (s : sys.State)
      → Sound (UdpSocket.bind sys std this e s).0
        × SoundSend (UdpSocket.send_to sys std fuel this buffer e s)
        × SoundRun sys std (receive_from sys std fuel this size s)
  udp_socket-Sound fuel this size buffer e s =
      (bind-Sound this e s, send_to-Sound fuel this buffer e s, receive_from-Sound fuel this size s)
