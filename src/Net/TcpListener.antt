-- ===== src/Net/TcpListener.antt =====
-- include/net/tcp_listener.hpp: Bind, Listen, Accept and Close. A TcpListener is its m_handle, and
-- the TcpSocket that Accept returns is its m_handle too. The backlog is the int's value, or zero
-- for a negative one.
use cpp_core_systems.Prelude.{
  ℕ, ◌≡◌, refl, ◌≢◌, ◌⊎◌, arith, ap, sym, true, not, ◌==◌, if◌then◌else◌, Option, none, some,
  Bool-cases, inl, inr, subst, ◌∙◌,
}
use cpp_core_systems.Net.SocketEndpoint.{SocketEndpoint}
use cpp_core_systems.Net.SocketEndpoint.Native.{to_native}
use cpp_core_systems.Net.SocketError.{Errors, SocketResult, success, failure}
use cpp_core_systems.Net.System.{System, IsSystem, invalid_handle, Kept, Gained}
use cpp_core_systems.Net.SocketHandle.{is_valid, undone, Gained-Kept}
use cpp_core_systems.Net.SocketHelpers.{
  last_error, invalid_socket_error, invalid_argument_error, create_tcp_socket,
  create_tcp_socket_lem, configure_tcp_socket, configure_keeps, failed, Created,
}
use cpp_core_systems.Net.SocketHelpers.Attach.{attach, Attached, attach_lem}
use cpp_core_systems.Net.SocketHelpers.Retry.{retry, retry_inv, retry-some, Settles}

module _ (sys : System) (std : Errors) where
  unfoldable pub bind : ℕ → SocketEndpoint → sys.State → SocketResult (Unit {0}) × ℕ × sys.State
  bind this e s =
      if is_valid this
      then (failure (invalid_argument_error sys std), this, s)
      else attach sys std (create_tcp_socket sys std e.address.version s)
          (λ h t. sys.bind h (to_native sys.headers e) t) this

  unfoldable pub listen : ℕ → (backlog : ℕ) → sys.State → SocketResult (Unit {0}) × sys.State
  listen this backlog s =
      if not (is_valid this)
      then (failure (invalid_socket_error sys std), s)
      else if backlog == 0
      then (failure (invalid_argument_error sys std), s)
      else (let (done, t) = sys.listen this backlog s in
          if done then (success tt, t) else (failure (last_error sys std t), t))

  -- SocketHandle handle{ ::accept(…) }, `none` where the handle is invalid.
  abbrev pub accept_call : ℕ → sys.State → Option ℕ × sys.State
  accept_call this s =
      let (handle, t) = sys.accept this s in ((if is_valid handle then some handle else none), t)

  -- What Accept does with the result of its loop.
  unfoldable pub accepted : SocketResult ℕ × sys.State → SocketResult ℕ × sys.State
  accepted (failure error, s) = (failure error, s)
  accepted (success handle, s) =
      let (configured, t) = configure_tcp_socket sys std handle s in
      elim configured [
        | failure error ↦ failed sys std error handle t
        | success _ ↦ (success handle, t)
      ]

  unfoldable pub accept : ℕ → ℕ → sys.State → Option (SocketResult ℕ × sys.State)
  unfolding accepted
  accept fuel this s =
      if not (is_valid this)
      then some (failure (invalid_socket_error sys std), s)
      else elim (retry sys std (accept_call this) fuel s) [
        | none ↦ none
        | some r ↦ some (accepted r)
      ]

  -- What Bind of an object leaves, valid before or not.
  abbrev pub Bound : sys.State → ℕ → SocketResult (Unit {0}) × ℕ × sys.State → Type 0
  Bound s this r =
      ((this ≢ invalid_handle) × (r ≡ (failure (invalid_argument_error sys std), this, s)))
      ⊎ ((this ≡ invalid_handle) × Attached sys std s this r)

  module _ (laws : IsSystem sys) where
    pub listen_keeps : (h backlog : ℕ) (t : sys.State) → Kept sys t (listen h backlog t).1
    unfolding listen
    listen_keeps h backlog t d = ground (arith, laws.listen_keeps h backlog t d)

    -- On a system whose socket and close calls open and close one descriptor: Bind of a valid
    -- listener fails and changes nothing; of an invalid one, it fails and leaves the listener and
    -- the open descriptors as they were, or succeeds and the listener has the only descriptor
    -- opened.
    pub bind_lem : (this : ℕ) (e : SocketEndpoint) (s : sys.State) → Bound s this (bind this e s)
    unfolding bind
    bind_lem this e s = elim (Bool-cases (this == invalid_handle)) [
      | inr held ↦ inl (ground arith, rw held refl)
      | inl free ↦ inr (
        ground arith,
        rw free (
            attach_lem sys std laws s (create_tcp_socket sys std e.address.version s) _ this
              (ground arith) (create_tcp_socket_lem sys std laws e.address.version s)
              (λ h t. laws.bind_keeps h (to_native sys.headers e) t)),
      )
    ]

    accepted_lem :
        (s : sys.State) (r : SocketResult ℕ × sys.State)
        → Created sys std s r
        → Created sys std s (accepted r)
    unfolding accepted
    accepted_lem s (failure error, t) kept = kept
    accepted_lem s (success handle, t) new =
        after_configured (configure_tcp_socket sys std handle t)
          (configure_keeps sys std laws handle t)
      where
        after_configured :
            (r : SocketResult (Unit {0}) × sys.State)
            → Kept sys t r.1
            → Created sys std s (elim r.0 [
              | failure error ↦ failed sys std error handle r.1
              | success _ ↦ (success handle, r.1)
            ])
        after_configured (failure error, u) kept =
            undone sys laws handle s u (Gained-Kept sys handle s t u new kept)
        after_configured (success _, u) kept = Gained-Kept sys handle s t u new kept

    accept_call-none :
        (this : ℕ) (s t : sys.State)
        → Kept sys s t
        → (accept_call this t).0 ≡ none
        → Kept sys s (accept_call this t).1
    accept_call-none this s t kept e d = elim (laws.accept_makes this t) [
      | inl (bad, same) ↦ same d ∙ kept d
      | inr (good, unused, rest) ↦ absurd (ground arith)
    ]

    accept_call-some :
        (this : ℕ) (s t : sys.State) (handle : ℕ)
        → Kept sys s t
        → (accept_call this t).0 ≡ some handle
        → Gained sys handle s (accept_call this t).1
    accept_call-some this s t handle kept e = elim (laws.accept_makes this t) [
      | inl (bad, same) ↦ absurd (ground arith)
      | inr (good, unused, rest) ↦
          let same : (sys.accept this t).0 ≡ handle = ground arith in
          subst (λ h. Gained sys h s (accept_call this t).1) same
            (
              good,
              sym (kept _) ∙ unused,
              λ d. rest d ∙ ap (λ o. if d == (sys.accept this t).0 then true else o) (kept d),
            )
    ]

    -- Whatever the loop of Accept ends in.
    loop-Created :
        (fuel this : ℕ) (s : sys.State) (q : SocketResult ℕ × sys.State)
        → retry sys std (accept_call this) fuel s ≡ some q
        → Created sys std s q
    loop-Created fuel this s =
        retry_inv sys std (accept_call this) (Kept sys s) (Created sys std s) fuel s (λ d. refl)
          (accept_call-none this s) (accept_call-none this s)
          (λ t x kept e. accept_call-some this s t x kept e)

    -- On a system whose accept and close calls open and close one descriptor, and where accept is
    -- interrupted fewer times in a row than there is fuel: Accept ends, and a failure, one to
    -- configure the new socket included, leaves the open descriptors as they were, while a success
    -- has opened exactly the descriptor that it returns.
    pub accept_lem :
        (fuel this : ℕ) (s : sys.State)
        → Settles sys std (accept_call this) fuel s
        → (r : SocketResult ℕ × sys.State) × (accept fuel this s ≡ some r) × Created sys std s r
    unfolding accept
    accept_lem fuel this s settles = elim (Bool-cases (is_valid this)) [
      | inr free ↦ ((failure (invalid_socket_error sys std), s), rw free refl, (λ d. refl))
      | inl held ↦
          let (q, found) = retry-some sys std (accept_call this) fuel s settles in
          (accepted q, rw (held, found) refl, accepted_lem s q (loop-Created fuel this s q found))
    ]
