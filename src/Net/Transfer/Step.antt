-- ===== src/Net/Transfer/Step.antt =====
-- One Send and one Receive of a TcpSocket, and the bytes that they hand to the system and get back.
use cpp_core_systems.Prelude.{
  ℕ, ◌≤◌, ◌≡◌, ◌≢◌, refl, sym, ◌∙◌, arith, ◌==◌, Option, none, some, List, [], ◌++◌, length, take,
  append-nil, Bool-cases, inl, inr, subst, ap,
}
use cpp_core_systems.Net.SocketError.{Errors, SocketResult, success, failure}
use cpp_core_systems.Net.SocketError.Classes.{IsErrors}
use cpp_core_systems.Net.System.{System, IsSystem, SetsErrno}
use cpp_core_systems.Net.SocketHandle.{is_valid}
use cpp_core_systems.Net.SocketHelpers.{invalid_socket_error}
use cpp_core_systems.Net.SocketHelpers.Retry.{retry_inv, retry-some, Settles}
use cpp_core_systems.Net.TcpSocket.{send, receive, transfer_length}
use cpp_core_systems.Net.Asserts.{Sound, SoundRun}
use cpp_core_systems.Net.Asserts.Tcp.{send-Sound, receive-Sound}

-- send(2) and recv(2): the bytes taken from the process and given to it on each descriptor so far,
-- which shutdown(2) does not change.
pub record IsStream (sys : System) : Type 0 where
  pub taken : sys.State → ℕ → List ℕ
  pub given : sys.State → ℕ → List ℕ
  pub send_takes :
      (h : ℕ) (buffer : List ℕ) (n : ℕ) (s : sys.State) (count : ℕ)
      → (sys.send h buffer n s).0 ≡ some count
      → taken (sys.send h buffer n s).1 h ≡ taken s h ++ take count buffer
  pub send_fails :
      (h : ℕ) (buffer : List ℕ) (n : ℕ) (s : sys.State)
      → (sys.send h buffer n s).0 ≡ none
      → taken (sys.send h buffer n s).1 h ≡ taken s h
  pub send_gives :
      (h : ℕ) (buffer : List ℕ) (n : ℕ) (s : sys.State) (d : ℕ)
      → given (sys.send h buffer n s).1 d ≡ given s d
  pub recv_gives :
      (h n : ℕ) (s : sys.State) (bytes : List ℕ)
      → (sys.recv h n s).0 ≡ some bytes
      → (given (sys.recv h n s).1 h ≡ given s h ++ bytes) × (length bytes ≤ n)
  pub recv_fails :
      (h n : ℕ) (s : sys.State) → (sys.recv h n s).0 ≡ none → given (sys.recv h n s).1 h ≡ given s h
  pub recv_takes : (h n : ℕ) (s : sys.State) (d : ℕ) → taken (sys.recv h n s).1 d ≡ taken s d
  pub send_takes_here :
      (h : ℕ) (buffer : List ℕ) (n : ℕ) (s : sys.State) (d : ℕ)
      → d ≢ h
      → taken (sys.send h buffer n s).1 d ≡ taken s d
  pub recv_gives_here :
      (h n : ℕ) (s : sys.State) (d : ℕ) → d ≢ h → given (sys.recv h n s).1 d ≡ given s d
  pub shutdown_takes :
      (h how : ℕ) (s : sys.State) (d : ℕ) → taken (sys.shutdown h how s).1 d ≡ taken s d
  pub shutdown_gives :
      (h how : ℕ) (s : sys.State) (d : ℕ) → given (sys.shutdown h how s).1 d ≡ given s d

module _ (sys : System) (std : Errors) (stream : IsStream sys) where
  -- Neither call is interrupted `fuel` times in a row.
  abbrev pub Sends : ℕ → ℕ → Type 0
  Sends fuel this =
      (buffer : List ℕ) (s : sys.State)
      → Settles sys std (sys.send this buffer (transfer_length (length buffer))) fuel s

  abbrev pub Receives : ℕ → ℕ → Type 0
  Receives fuel this =
      (size : ℕ) (s : sys.State) → Settles sys std (sys.recv this (transfer_length size)) fuel s

  abbrev pub Moved : ℕ → List ℕ → sys.State → SocketResult ℕ × sys.State → Type 0
  Moved this buffer s (success count, t) =
      (count ≤ length buffer)
      × (stream.taken t this ≡ stream.taken s this ++ take count buffer)
      × ((d : ℕ) → stream.given t d ≡ stream.given s d)
  Moved this buffer s (failure error, t) =
      (stream.taken t this ≡ stream.taken s this) × ((d : ℕ) → stream.given t d ≡ stream.given s d)

  abbrev pub Stored : ℕ → ℕ → sys.State → SocketResult (List ℕ) × sys.State → Type 0
  Stored this size s (success bytes, t) =
      (length bytes ≤ size)
      × (stream.given t this ≡ stream.given s this ++ bytes)
      × ((d : ℕ) → stream.taken t d ≡ stream.taken s d)
  Stored this size s (failure error, t) =
      (stream.given t this ≡ stream.given s this) × ((d : ℕ) → stream.taken t d ≡ stream.taken s d)

  module _ (errors : IsErrors std) (sets : SetsErrno sys) (laws : IsSystem sys) where
    send_moves :
        (fuel this : ℕ) (buffer : List ℕ) (s : sys.State)
        → Sends fuel this
        → (r : SocketResult ℕ × sys.State) × (send sys std fuel this buffer s ≡ some r)
          × Moved this buffer s r
    unfolding send
    send_moves fuel this buffer s settles = elim (Bool-cases (is_valid this)) [
      | inr free ↦ ((failure (invalid_socket_error sys std), s), rw free refl, (refl, λ d. refl))
      | inl held ↦ elim (Bool-cases (length buffer == 0)) [
        | inl empty ↦ (
          (success 0, s),
          rw (held, empty) refl,
          (omega arith, sym (append-nil (stream.taken s this)), λ d. refl),
        )
        | inr full ↦
            let call = sys.send this buffer (transfer_length (length buffer)) in
            let (r, found) = retry-some sys std call fuel s (settles buffer s) in
            (
              r,
              rw (held, full) found,
              retry_inv sys std call (Same s) (Moved this buffer s) fuel s (refl, λ d. refl)
                  (λ t same e. fails t same e) (λ t same e. fails t same e)
                  (λ t x same e. takes t x same e) r found,
            )
      ]
    ]
      where
        Same : sys.State → sys.State → Type 0
        Same s t =
            (stream.taken t this ≡ stream.taken s this)
            × ((d : ℕ) → stream.given t d ≡ stream.given s d)

        fails :
            (t : sys.State)
            → Same s t
            → (sys.send this buffer (transfer_length (length buffer)) t).0 ≡ none
            → Same s (sys.send this buffer (transfer_length (length buffer)) t).1
        fails t (same, given) e = (
          stream.send_fails this buffer (transfer_length (length buffer)) t e ∙ same,
          λ d. stream.send_gives this buffer (transfer_length (length buffer)) t d ∙ given d,
        )

        takes :
            (t : sys.State) (x : ℕ)
            → Same s t
            → (sys.send this buffer (transfer_length (length buffer)) t).0 ≡ some x
            → Moved this buffer s
                (success x, (sys.send this buffer (transfer_length (length buffer)) t).1)
        takes t x (same, given) e =
            let n = transfer_length (length buffer) in
            let bound = laws.send_bound this buffer n t x e in
            (
              ground arith,
              stream.send_takes this buffer n t x e ∙ ap (λ us. us ++ take x buffer) same,
              λ d. stream.send_gives this buffer n t d ∙ given d,
            )

    receive_stores :
        (fuel this size : ℕ) (s : sys.State)
        → Receives fuel this
        → (r : SocketResult (List ℕ) × sys.State) × (receive sys std fuel this size s ≡ some r)
          × Stored this size s r
    unfolding receive
    receive_stores fuel this size s settles = elim (Bool-cases (is_valid this)) [
      | inr free ↦ ((failure (invalid_socket_error sys std), s), rw free refl, (refl, λ d. refl))
      | inl held ↦ elim (Bool-cases (size == 0)) [
        | inl empty ↦ (
          (success [], s),
          rw (held, empty) refl,
          (omega arith, sym (append-nil (stream.given s this)), λ d. refl),
        )
        | inr full ↦
            let call = sys.recv this (transfer_length size) in
            let (r, found) = retry-some sys std call fuel s (settles size s) in
            (
              r,
              rw (held, full) found,
              retry_inv sys std call (Same s) (Stored this size s) fuel s (refl, λ d. refl) fails
                  fails gives r found,
            )
      ]
    ]
      where
        Same : sys.State → sys.State → Type 0
        Same s t =
            (stream.given t this ≡ stream.given s this)
            × ((d : ℕ) → stream.taken t d ≡ stream.taken s d)

        fails :
            (t : sys.State)
            → Same s t
            → (sys.recv this (transfer_length size) t).0 ≡ none
            → Same s (sys.recv this (transfer_length size) t).1
        fails t (same, taken) e = (
          stream.recv_fails this (transfer_length size) t e ∙ same,
          λ d. stream.recv_takes this (transfer_length size) t d ∙ taken d,
        )

        gives :
            (t : sys.State) (bytes : List ℕ)
            → Same s t
            → (sys.recv this (transfer_length size) t).0 ≡ some bytes
            → Stored this size s (success bytes, (sys.recv this (transfer_length size) t).1)
        gives t bytes (same, taken) e =
            let (next, bound) = stream.recv_gives this (transfer_length size) t bytes e in
            (
              ground arith,
              next ∙ ap (λ us. us ++ bytes) same,
              λ d. stream.recv_takes this (transfer_length size) t d ∙ taken d,
            )

    sound :
        {A : Type 0} (o : Option (SocketResult A × sys.State)) (r : SocketResult A × sys.State)
        → SoundRun sys std o
        → o ≡ some r
        → Sound r.0
    sound o r all e = subst (SoundRun sys std) e all

    -- Send succeeds with a part of the buffer taken, or fails with an error and takes nothing.
    pub send_step :
        (fuel this : ℕ) (buffer : List ℕ) (s : sys.State)
        → Sends fuel this
        → (r : SocketResult ℕ × sys.State) × (send sys std fuel this buffer s ≡ some r)
          × Moved this buffer s r
          × Sound r.0
    send_step fuel this buffer s settles =
        let (r, found, moved) = send_moves fuel this buffer s settles in
        (r, found, moved, sound _ r (send-Sound sys std errors sets fuel this buffer s) found)

    -- Receive succeeds with what it is given next, or fails with an error and is given nothing.
    pub receive_step :
        (fuel this size : ℕ) (s : sys.State)
        → Receives fuel this
        → (r : SocketResult (List ℕ) × sys.State) × (receive sys std fuel this size s ≡ some r)
          × Stored this size s r
          × Sound r.0
    receive_step fuel this size s settles =
        let (r, found, stored) = receive_stores fuel this size s settles in
        (r, found, stored, sound _ r (receive-Sound sys std errors sets fuel this size s) found)
