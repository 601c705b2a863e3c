-- ===== src/Net/Asserts/Tcp.antt =====
-- The failures of TcpSocket and TcpListener.
use cpp_core_systems.Prelude.{
  ℕ, ◌≡◌, ◌≢◌, refl, arith, Bool, true, false, ◌==◌, if◌then◌else◌, Option, none, some, List,
  length, Bool-cases, inl, inr,
}
use cpp_core_systems.Net.SocketEndpoint.{SocketEndpoint}
use cpp_core_systems.Net.SocketEndpoint.Native.{to_native, from_native}
use cpp_core_systems.Net.SocketError.{
  Errors, SocketResult, success, failure, make_error, already_connected, bad_file_descriptor,
  invalid_argument,
}
use cpp_core_systems.Net.SocketError.Classes.{IsErrors}
use cpp_core_systems.Net.System.{System, SetsErrno, invalid_handle}
use cpp_core_systems.Net.SocketHandle.{is_valid}
use cpp_core_systems.Net.SocketHelpers.{last_error, failed, configure_tcp_socket, create_tcp_socket}
use cpp_core_systems.Net.SocketHelpers.Retry.{retry}
use cpp_core_systems.Net.SocketHelpers.Query.{query_endpoint, read_endpoint}
use cpp_core_systems.Net.TcpSocket
use cpp_core_systems.Net.TcpListener
use cpp_core_systems.Net.Asserts.{
  Sound, SoundRun, SoundPair, last-Sound, made-Sound, retry-Sound, configure-Sound,
  create_tcp_socket-Sound, attach-Sound,
}

module _ (sys : System) (std : Errors) (errors : IsErrors std) (sets : SetsErrno sys) where
  connect-Sound :
      (this : ℕ) (e : SocketEndpoint) (s : sys.State) → Sound (TcpSocket.connect sys std this e s).0
  unfolding TcpSocket.connect
  connect-Sound this e s = elim (Bool-cases (is_valid this)) [
    | inl held ↦ rw held (made-Sound sys std errors sets already_connected)
    | inr free ↦ rw free (
        attach-Sound sys std errors sets (create_tcp_socket sys std e.address.version s) _ this
          (create_tcp_socket-Sound sys std errors sets e.address.version s)
          (λ h t. sets.connect_sets h (to_native sys.headers e) t))
  ]

  pub send-Sound :
      (fuel this : ℕ) (buffer : List ℕ) (s : sys.State)
      → SoundRun sys std (TcpSocket.send sys std fuel this buffer s)
  unfolding TcpSocket.send
  send-Sound fuel this buffer s = elim (Bool-cases (is_valid this)) [
    | inr free ↦ rw free (made-Sound sys std errors sets bad_file_descriptor)
    | inl held ↦ elim (Bool-cases (length buffer == 0)) [
      | inl empty ↦ rw (held, empty) tt
      | inr full ↦
          rw (held, full)
            (retry-Sound sys std errors sets
              (sys.send this buffer (TcpSocket.transfer_length (length buffer))) fuel s
              (sets.send_sets this buffer (TcpSocket.transfer_length (length buffer))))
    ]
  ]

  pub receive-Sound :
      (fuel this size : ℕ) (s : sys.State)
      → SoundRun sys std (TcpSocket.receive sys std fuel this size s)
  unfolding TcpSocket.receive
  receive-Sound fuel this size s = elim (Bool-cases (is_valid this)) [
    | inr free ↦ rw free (made-Sound sys std errors sets bad_file_descriptor)
    | inl held ↦ elim (Bool-cases (size == 0)) [
      | inl empty ↦ rw (held, empty) tt
      | inr full ↦
          rw (held, full)
            (retry-Sound sys std errors sets (sys.recv this (TcpSocket.transfer_length size)) fuel s
              (sets.recv_sets this (TcpSocket.transfer_length size)))
    ]
  ]

  shutdown-Sound :
      (this : ℕ) (direction : TcpSocket.SocketShutdown) (s : sys.State)
      → Sound (TcpSocket.shutdown sys std this direction s).0
  unfolding TcpSocket.shutdown
  shutdown-Sound this direction s = elim (Bool-cases (is_valid this)) [
    | inr free ↦ rw free (made-Sound sys std errors sets bad_file_descriptor)
    | inl held ↦ rw held (by_how (TcpSocket.how sys std direction))
  ]
    where
      by_how :
          (o : Option ℕ)
          → SoundPair sys std (Unit {0}) (elim o [
            | none ↦ (failure (make_error std invalid_argument), s)
            | some how ↦
                let (done, t) = sys.shutdown this how s in
                if done then (success tt, t) else (failure (last_error sys std t), t)
          ])
      by_how none = made-Sound sys std errors sets invalid_argument
      by_how (some how) = elim (Bool-cases (sys.shutdown this how s).0) [
        | inl done ↦ rw done tt
        | inr bad ↦ rw bad (last-Sound sys std _ (sets.shutdown_sets this how s bad))
      ]

  pub read_endpoint-Sound :
      (address : sys.headers.Storage × ℕ) → Sound (read_endpoint sys std address)
  unfolding read_endpoint
  read_endpoint-Sound (storage, size) = read (from_native sys.headers (some storage) size)
    where
      read :
          (o : Option SocketEndpoint)
          → Sound {A = SocketEndpoint}
              (elim o [ none ↦ failure (make_error std invalid_argument) | some e ↦ success e ])
      read none = made-Sound sys std errors sets invalid_argument
      read (some e) = tt

  query-Sound :
      (handle : ℕ) (peer : Bool) (s : sys.State) → Sound (query_endpoint sys std handle peer s).0
  unfolding query_endpoint
  query-Sound handle peer s = elim (Bool-cases (handle == invalid_handle)) [
    | inl invalid ↦ rw invalid (made-Sound sys std errors sets bad_file_descriptor)
    | inr valid ↦
        rw valid (
          answered (if peer then sys.getpeername handle s else sys.getsockname handle s) (set peer))
  ]
    where
      set :
          (peer : Bool)
          → (if peer then sys.getpeername handle s else sys.getsockname handle s).0 ≡ none
          → sys.errno (if peer then sys.getpeername handle s else sys.getsockname handle s).1 ≢ 0
      set true = sets.getpeername_sets handle s
      set false = sets.getsockname_sets handle s

      answered :
          (r : Option (sys.headers.Storage × ℕ) × sys.State)
          → (r.0 ≡ none → sys.errno r.1 ≢ 0)
          → Sound {A = SocketEndpoint} (elim r.0 [
            | none ↦ failure (last_error sys std r.1)
            | some address ↦ read_endpoint sys std address
          ])
      answered (none, t) e = last-Sound sys std t (e refl)
      answered (some address, t) e = read_endpoint-Sound address

  -- Where a call that fails sets errno (SetsErrno), and std::errc is as IsErrors says, with no
  -- enumerator 0: whatever error Connect, Send, Receive, Shutdown and QueryEndpoint put into a
  -- failure, valid object or not, is not success, so the assertion in SocketResult::Failure holds.
  pub tcp_socket-Sound :
      (fuel this size : ℕ) (buffer : List ℕ) (e : SocketEndpoint)
      (direction : TcpSocket.SocketShutdown) (peer : Bool) (s : sys.State)
      → Sound (TcpSocket.connect sys std this e s).0
        × SoundRun sys std (TcpSocket.send sys std fuel this buffer s)
        × SoundRun sys std (TcpSocket.receive sys std fuel this size s)
        × Sound (TcpSocket.shutdown sys std this direction s).0
        × Sound (query_endpoint sys std this peer s).0
  tcp_socket-Sound fuel this size buffer e direction peer s = (
    connect-Sound this e s,
    send-Sound fuel this buffer s,
    receive-Sound fuel this size s,
    shutdown-Sound this direction s,
    query-Sound this peer s,
  )

  bind-Sound :
      (this : ℕ) (e : SocketEndpoint) (s : sys.State) → Sound (TcpListener.bind sys std this e s).0
  unfolding TcpListener.bind
  bind-Sound this e s = elim (Bool-cases (is_valid this)) [
    | inl held ↦ rw held (made-Sound sys std errors sets invalid_argument)
    | inr free ↦ rw free (
        attach-Sound sys std errors sets (create_tcp_socket sys std e.address.version s) _ this
          (create_tcp_socket-Sound sys std errors sets e.address.version s)
          (λ h t. sets.bind_sets h (to_native sys.headers e) t))
  ]

  listen-Sound :
      (this backlog : ℕ) (s : sys.State) → Sound (TcpListener.listen sys std this backlog s).0
  unfolding TcpListener.listen
  listen-Sound this backlog s = elim (Bool-cases (is_valid this)) [
    | inr free ↦ rw free (made-Sound sys std errors sets bad_file_descriptor)
    | inl held ↦ elim (Bool-cases (backlog == 0)) [
      | inl wrong ↦ rw (held, wrong) (made-Sound sys std errors sets invalid_argument)
      | inr right ↦ elim (Bool-cases (sys.listen this backlog s).0) [
        | inl done ↦ rw (held, right, done) tt
        | inr bad ↦
            rw (held, right, bad) (last-Sound sys std _ (sets.listen_sets this backlog s bad))
      ]
    ]
  ]

  accepted-Sound :
      (r : SocketResult ℕ × sys.State) → Sound r.0 → Sound (TcpListener.accepted sys std r).0
  unfolding TcpListener.accepted
  accepted-Sound (failure error, t) sound = sound
  accepted-Sound (success handle, t) sound =
      configured (configure_tcp_socket sys std handle t)
        (configure-Sound sys std errors sets handle t)
    where
      configured :
          (r : SocketResult (Unit {0}) × sys.State)
          → Sound r.0
          → SoundPair sys std ℕ (elim r.0 [
            | failure error ↦ failed sys std error handle r.1
            | success _ ↦ (success handle, r.1)
          ])
      configured (failure error, u) sound = sound
      configured (success _, u) sound = tt

  accept-Sound :
      (fuel this : ℕ) (s : sys.State) → SoundRun sys std (TcpListener.accept sys std fuel this s)
  unfolding TcpListener.accept
  accept-Sound fuel this s = elim (Bool-cases (is_valid this)) [
    | inr free ↦ rw free (made-Sound sys std errors sets bad_file_descriptor)
    | inl held ↦ rw held (
        ended (retry sys std (TcpListener.accept_call sys std this) fuel s) (
          retry-Sound sys std errors sets (TcpListener.accept_call sys std this) fuel s
            (λ t e. sets.accept_sets this t (ground arith))))
  ]
    where
      ended :
          (o : Option (SocketResult ℕ × sys.State))
          → SoundRun sys std o
          → SoundRun sys std {A = ℕ} {S = sys.State}
              (elim o [ none ↦ none | some r ↦ some (TcpListener.accepted sys std r) ])
      ended none sound = tt
      ended (some r) sound = accepted-Sound r sound

  -- Where a call that fails sets errno (SetsErrno), and std::errc is as IsErrors says, with no
  -- enumerator 0: whatever error Bind, Listen and Accept of a TcpListener put into a failure, valid
  -- object or not, is not success.
  pub tcp_listener-Sound :
      (fuel this backlog : ℕ) (e : SocketEndpoint) (s : sys.State)
      → Sound (TcpListener.bind sys std this e s).0
        × Sound (TcpListener.listen sys std this backlog s).0
        × SoundRun sys std (TcpListener.accept sys std fuel this s)
  tcp_listener-Sound fuel this backlog e s =
      (bind-Sound this e s, listen-Sound this backlog s, accept-Sound fuel this s)
