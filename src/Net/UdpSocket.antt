-- ===== src/Net/UdpSocket.antt =====
-- include/net/udp_socket.hpp: Bind, SendTo and Close. A UdpSocket is its m_handle.
pub mod Receive
use cpp_core_systems.Prelude.{
  ℕ, ◌≡◌, refl, ◌⊎◌, arith, true, false, not, ◌&&◌, ◌==◌, leb, if◌then◌else◌, Option, none, some,
  List, length, Bool-cases, inl, inr, ◌∙◌,
}
use cpp_core_systems.Net.SocketEndpoint.{SocketEndpoint}
use cpp_core_systems.Net.SocketEndpoint.Native.{to_native}
use cpp_core_systems.Net.SocketError.{
  SocketError, Errors, message_size, make_error, SocketResult, success, failure,
}
use cpp_core_systems.Net.System.{System, IsSystem, invalid_handle, Kept, Gained}
use cpp_core_systems.Net.SocketHandle
use cpp_core_systems.Net.SocketHandle.{
  is_valid, undone, close_none, Gained-Kept, move_assign_handle_lem,
}
use cpp_core_systems.Net.SocketHelpers.{
  invalid_argument_error, create_socket, create_socket_lem, Created,
}
use cpp_core_systems.Net.SocketHelpers.Attach.{attach, Attached, attach_lem}
use cpp_core_systems.Net.SocketHelpers.Retry.{retry, retry_inv, retry-some, Settles}

-- MaxTransferLength.
abbrev pub max_transfer_length : ℕ
max_transfer_length = 2147483647

module _ (sys : System) (std : Errors) where
  abbrev pub message_size_error : SocketError
  message_size_error = make_error std message_size

  abbrev create_udp_socket : SocketEndpoint → sys.State → SocketResult ℕ × sys.State
  create_udp_socket e = create_socket sys std e.address.version sys.sock_dgram sys.ipproto_udp

  unfoldable pub bind : ℕ → SocketEndpoint → sys.State → SocketResult (Unit {0}) × ℕ × sys.State
  bind this e s =
      if is_valid this
      then (failure (invalid_argument_error sys std), this, s)
      else attach sys std (create_udp_socket e s) (λ h t. sys.bind h (to_native sys.headers e) t)
          this

  -- The end of SendTo, with what the loop has returned; `pending` is destroyed on every way out.
  unfoldable pub finish_send :
      (this pending size : ℕ) → SocketResult ℕ × sys.State → SocketResult ℕ × ℕ × sys.State
  finish_send this pending size (failure error, s) =
      (failure error, this, (SocketHandle.close sys pending s).1)
  finish_send this pending size (success count, s) =
      if not (count == size)
      then (failure message_size_error, this, (SocketHandle.close sys pending s).1)
      else if is_valid pending
      then (let (this, left, t) = SocketHandle.move_assign sys this pending s in
          (success count, this, (SocketHandle.close sys left t).1))
      else (success count, this, (SocketHandle.close sys pending s).1)

  unfoldable pub send_with :
      ℕ
      → (this pending : ℕ) → List ℕ
      → SocketEndpoint
      → sys.State
      → Option (SocketResult ℕ × ℕ × sys.State)
  unfolding finish_send
  send_with fuel this pending buffer destination s =
      let handle = if is_valid this then this else pending in
      elim (retry sys std (sys.sendto handle buffer (to_native sys.headers destination)) fuel s) [
        | none ↦ none
        | some r ↦ some (finish_send this pending (length buffer) r)
      ]

  unfoldable pub send_to :
      ℕ → ℕ → List ℕ → SocketEndpoint → sys.State → Option (SocketResult ℕ × ℕ × sys.State)
  unfolding send_with
  send_to fuel this buffer destination s =
      if not (leb (length buffer) max_transfer_length)
      then some (failure message_size_error, this, s)
      else if is_valid this
      then send_with fuel this invalid_handle buffer destination s
      else (let (created, t) = create_udp_socket destination s in
          elim created [
            | failure error ↦ some (failure error, this, t)
            | success pending ↦ send_with fuel this pending buffer destination t
          ])

  -- A failure changes neither the object nor the open descriptors. A success has sent the whole
  -- datagram; the object keeps its descriptor or, if it had none, has the only new one.
  abbrev pub Sent : sys.State → ℕ → (size : ℕ) → SocketResult ℕ × ℕ × sys.State → Type 0
  Sent s this size (failure error, this', t) = (this' ≡ this) × Kept sys s t
  Sent s this size (success count, this', t) =
      (count ≡ size)
      × (((this' ≡ this) × Kept sys s t) ⊎ ((this ≡ invalid_handle) × Gained sys this' s t))

  module _ (laws : IsSystem sys) where
    -- Bind of an object without a socket.
    pub bind_udp_lem :
        (this : ℕ) (e : SocketEndpoint) (s : sys.State)
        → this ≡ invalid_handle
        → Attached sys std s this (bind this e s)
    unfolding bind
    bind_udp_lem this e s free = rw free (
        attach_lem sys std laws s (create_udp_socket e s) _ invalid_handle refl
          (create_socket_lem sys std laws e.address.version sys.sock_dgram sys.ipproto_udp s)
          (λ h t. laws.bind_keeps h (to_native sys.headers e) t))

    -- The socket that SendTo works on: the object's, or a new one.
    abbrev Ready : sys.State → (this pending : ℕ) → sys.State → Type 0
    Ready s this pending t =
        ((pending ≡ invalid_handle) × Kept sys s t)
        ⊎ ((this ≡ invalid_handle) × Gained sys pending s t)

    dropped :
        (s : sys.State) (this pending : ℕ) (t : sys.State)
        → Ready s this pending t
        → Kept sys s (SocketHandle.close sys pending t).1
    dropped s this pending t (inl (e, kept)) = rw (close_none sys pending t e) kept
    dropped s this pending t (inr (e, new)) = undone sys laws pending s t new

    finish_send_lem :
        (s : sys.State) (this pending size : ℕ) (r : SocketResult ℕ × sys.State)
        → Ready s this pending r.1
        → Sent s this size (finish_send this pending size r)
    unfolding finish_send
    finish_send_lem s this pending size (failure error, t) ready =
        (refl, dropped s this pending t ready)
    finish_send_lem s this pending size (success count, t) ready =
        elim (Bool-cases (count == size)) [
          | inr part ↦ rw part (refl, dropped s this pending t ready)
          | inl whole ↦ elim ready [
            | inl (e, kept) ↦
                let test : (pending == invalid_handle) ≡ true = ground arith in
                rw (whole, test)
                  (ground arith, inl (refl, dropped s this pending t (inl (e, kept))))
            | inr (e, new) ↦
                let test : (pending == invalid_handle) ≡ false = ground (arith, new.0) in
                let moved = move_assign_handle_lem sys laws this pending t (λ same. e) in
                rw
                  (
                    whole,
                    test,
                    close_none sys (SocketHandle.move_assign sys this pending t).1
                        (SocketHandle.move_assign sys this pending t).2 moved.1,
                    moved.0,
                  )
                  (
                    ground arith,
                    inr (e, Gained-Kept sys pending s t _ new (λ d. moved.2 d ∙ nothing_held e d)),
                  )
          ]
        ]
      where
        nothing_held :
            this ≡ invalid_handle
            → (d : ℕ)
            → (if (d == this) && is_valid this then false else sys.opened t d) ≡ sys.opened t d
        nothing_held e d = rw e (ground arith)

    send_with_lem :
        (fuel : ℕ) (s : sys.State) (this pending : ℕ) (buffer : List ℕ)
        (destination : SocketEndpoint) (t : sys.State)
        → ((h : ℕ) (u : sys.State)
            → Settles sys std (sys.sendto h buffer (to_native sys.headers destination)) fuel u)
        → Ready s this pending t
        → (r : SocketResult ℕ × ℕ × sys.State) × (send_with fuel this pending buffer destination t
            ≡ some r)
          × Sent s this (length buffer) r
    unfolding send_with
    send_with_lem fuel s this pending buffer destination t settles ready =
        let handle = if is_valid this then this else pending in
        let call = sys.sendto handle buffer (to_native sys.headers destination) in
        let (q, found) = retry-some sys std call fuel t (settles handle t) in
        let still =
          retry_inv sys std call (Kept sys t) (λ r. Kept sys t r.1) fuel t (λ d. refl)
            (λ u kept e d.
              laws.sendto_keeps handle buffer (to_native sys.headers destination) u d ∙ kept d)
            (λ u kept e d.
              laws.sendto_keeps handle buffer (to_native sys.headers destination) u d ∙ kept d)
            (λ u x kept e d.
              laws.sendto_keeps handle buffer (to_native sys.headers destination) u d ∙ kept d)
            q found in
        (
          finish_send this pending (length buffer) q,
          rw (send_with, found) refl,
          finish_send_lem s this pending (length buffer) q (later q.1 still ready),
        )
      where
        later : (u : sys.State) → Kept sys t u → Ready s this pending t → Ready s this pending u
        later u kept (inl (e, same)) = inl (e, λ d. kept d ∙ same d)
        later u kept (inr (e, new)) = inr (e, Gained-Kept sys pending s t u new kept)

    -- On a system whose socket and close calls open and close one descriptor and whose sendto keeps
    -- all, and where sendto is interrupted fewer times in a row than there is fuel: SendTo ends, on
    -- an object with a socket or without; a failure changes neither the object nor the open
    -- descriptors, and a success has sent the whole datagram, while the object keeps its descriptor
    -- or, if it had none, has the only new one.
    pub send_to_lem :
        (fuel this : ℕ) (buffer : List ℕ) (destination : SocketEndpoint) (s : sys.State)
        → ((h : ℕ) (u : sys.State)
            → Settles sys std (sys.sendto h buffer (to_native sys.headers destination)) fuel u)
        → (r : SocketResult ℕ × ℕ × sys.State) × (send_to fuel this buffer destination s ≡ some r)
          × Sent s this (length buffer) r
    unfolding send_to
    send_to_lem fuel this buffer destination s settles =
        elim (Bool-cases (leb (length buffer) max_transfer_length)) [
          | inr long ↦ ((failure message_size_error, this, s), rw long refl, (refl, λ d. refl))
          | inl short ↦ elim (Bool-cases (this == invalid_handle)) [
            | inr held ↦
                let (r, found, sent) =
                  send_with_lem fuel s this invalid_handle buffer destination s settles
                    (inl (refl, λ d. refl)) in
                (r, rw (short, held) found, sent)
            | inl free ↦
                let (r, found, sent) =
                  after_created (create_udp_socket destination s)
                    (create_socket_lem sys std laws destination.address.version sys.sock_dgram
                      sys.ipproto_udp s)
                    (ground arith) in
                (r, rw (short, free) found, sent)
          ]
        ]
      where
        after_created :
            (c : SocketResult ℕ × sys.State)
            → Created sys std s c
            → this ≡ invalid_handle
            → (r : SocketResult ℕ × ℕ × sys.State) × (elim c.0 [
              | failure error ↦ some (failure error, this, c.1)
              | success pending ↦ send_with fuel this pending buffer destination c.1
            ]
                ≡ some r)
              × Sent s this (length buffer) r
        after_created (failure error, t) kept e = ((failure error, this, t), refl, (refl, kept))
        after_created (success pending, t) new e =
            send_with_lem fuel s this pending buffer destination t settles (inr (e, new))
