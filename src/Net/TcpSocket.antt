-- ===== src/Net/TcpSocket.antt =====
-- include/net/tcp_socket.hpp. A TcpSocket is its m_handle. What
-- Receive stores in the caller's buffer is its result here.
use cpp_core_systems.Prelude.{
  ℕ, ◌≤◌, ◌≡◌, refl, ◌≢◌, ◌^◌, ◌-◌, arith, not, ◌==◌, leb, if◌then◌else◌, Option, none, some, List,
  [], ◌⊎◌, length, Bool-cases, inl, inr,
}
use cpp_core_systems.Net.SocketEndpoint.{SocketEndpoint}
use cpp_core_systems.Net.SocketEndpoint.Native.{to_native}
use cpp_core_systems.Net.SocketError.{
  Errors, already_connected, make_error, SocketResult, success, failure,
}
use cpp_core_systems.Net.System.{System, IsSystem, invalid_handle}
use cpp_core_systems.Net.SocketHandle.{is_valid}
use cpp_core_systems.Net.SocketHelpers.{
  invalid_socket_error, invalid_argument_error, last_error, create_tcp_socket,
  create_tcp_socket_lem,
}
use cpp_core_systems.Net.SocketHelpers.Attach.{attach, Attached, attach_lem}
use cpp_core_systems.Net.SocketHelpers.Retry.{retry, retry_inv, retry-some, Settles}

-- (std::numeric_limits<int>::max)().
abbrev pub max_int : ℕ
max_int = 2 ^ 31 - 1

-- TransferLength.
abbrev pub transfer_length : ℕ → ℕ
transfer_length n = if leb n max_int then n else max_int

-- SocketShutdown; an enumeration's variable may have any value of its type.
pub data SocketShutdown : Type 0 where
  receive_side : SocketShutdown
  send_side : SocketShutdown
  both : SocketShutdown
  outside : ℕ → SocketShutdown

module _ (sys : System) (std : Errors) where
  unfoldable pub connect : ℕ → SocketEndpoint → sys.State → SocketResult (Unit {0}) × ℕ × sys.State
  connect this e s =
      if is_valid this
      then (failure (make_error std already_connected), this, s)
      else attach sys std (create_tcp_socket sys std e.address.version s)
          (λ h t. sys.connect h (to_native sys.headers e) t) this

  unfoldable pub send : ℕ → ℕ → List ℕ → sys.State → Option (SocketResult ℕ × sys.State)
  send fuel this buffer s =
      if not (is_valid this)
      then some (failure (invalid_socket_error sys std), s)
      else if length buffer == 0
      then some (success 0, s)
      else retry sys std (sys.send this buffer (transfer_length (length buffer))) fuel s

  unfoldable pub receive :
      ℕ → ℕ → (size : ℕ) → sys.State → Option (SocketResult (List ℕ) × sys.State)
  receive fuel this size s =
      if not (is_valid this)
      then some (failure (invalid_socket_error sys std), s)
      else if size == 0
      then some (success [], s)
      else retry sys std (sys.recv this (transfer_length size)) fuel s

  -- The switch of Shutdown, `none` for its default.
  abbrev pub how : SocketShutdown → Option ℕ
  how receive_side = some sys.shut_rd
  how send_side = some sys.shut_wr
  how both = some sys.shut_rdwr
  how (outside n) = none

  unfoldable pub shutdown : ℕ → SocketShutdown → sys.State → SocketResult (Unit {0}) × sys.State
  shutdown this direction s =
      if not (is_valid this)
      then (failure (invalid_socket_error sys std), s)
      else elim (how direction) [
        | none ↦ (failure (invalid_argument_error sys std), s)
        | some how ↦
            let (done, t) = sys.shutdown this how s in
            if done then (success tt, t) else (failure (last_error sys std t), t)
      ]

  -- What Connect of an object leaves, valid before or not.
  abbrev pub Connected : sys.State → ℕ → SocketResult (Unit {0}) × ℕ × sys.State → Type 0
  Connected s this r =
      ((this ≢ invalid_handle) × (r ≡ (failure (make_error std already_connected), this, s)))
      ⊎ ((this ≡ invalid_handle) × Attached sys std s this r)

  -- What a successful Send may say.
  abbrev pub Bounded : ℕ → SocketResult ℕ × sys.State → Type 0
  Bounded n (success count, t) = (count ≤ n) × (count ≤ max_int)
  Bounded n (failure error, t) = Unit {0}

  module _ (laws : IsSystem sys) where
    -- On a system whose socket and close calls open and close one descriptor: Connect of a valid
    -- object fails and changes nothing; of an invalid one, it fails and leaves the object and the
    -- open descriptors as they were, or succeeds and the object has the only descriptor opened.
    pub connect_lem :
        (this : ℕ) (e : SocketEndpoint) (s : sys.State) → Connected s this (connect this e s)
    unfolding connect
    connect_lem this e s = elim (Bool-cases (this == invalid_handle)) [
      | inr held ↦ inl (ground arith, rw held refl)
      | inl free ↦ inr (
        ground arith,
        rw free (
            attach_lem sys std laws s (create_tcp_socket sys std e.address.version s) _ this
              (ground arith) (create_tcp_socket_lem sys std laws e.address.version s)
              (λ h t. laws.connect_keeps h (to_native sys.headers e) t)),
      )
    ]

    bounded_call :
        (this : ℕ) (buffer : List ℕ) (t : sys.State) (x : ℕ)
        → (sys.send this buffer (transfer_length (length buffer)) t).0 ≡ some x
        → (x ≤ length buffer) × (x ≤ max_int)
    bounded_call this buffer t x e =
        let b = laws.send_bound this buffer (transfer_length (length buffer)) t x e in
        (ground arith, ground arith)

    -- On a system whose send takes at most what it is given, and where it is interrupted fewer
    -- times in a row than there is fuel: Send ends, and if it succeeds, the count is at most the
    -- size of the buffer and at most the largest int.
    pub send_lem :
        (fuel this : ℕ) (buffer : List ℕ) (s : sys.State)
        → Settles sys std (sys.send this buffer (transfer_length (length buffer))) fuel s
        → (r : SocketResult ℕ × sys.State) × (send fuel this buffer s ≡ some r)
          × Bounded (length buffer) r
    unfolding send
    send_lem fuel this buffer s settles = elim (Bool-cases (is_valid this)) [
      | inr free ↦ ((failure (invalid_socket_error sys std), s), rw free refl, tt)
      | inl held ↦ elim (Bool-cases (length buffer == 0)) [
        | inl empty ↦ ((success 0, s), rw (held, empty) refl, (omega arith, omega arith))
        | inr full ↦
            let call = sys.send this buffer (transfer_length (length buffer)) in
            let (r, found) = retry-some sys std call fuel s settles in
            (
              r,
              rw (held, full) found,
              retry_inv sys std call (λ t. Unit {0}) (Bounded (length buffer)) fuel s tt
                  (λ t i e. tt) (λ t i e. tt) (λ t x i e. bounded_call this buffer t x e) r found,
            )
      ]
    ]
