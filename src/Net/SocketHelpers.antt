-- ===== src/Net/SocketHelpers.antt =====
-- include/net/detail/socket_helpers.hpp, and include/net/detail/tcp_helpers.hpp.
pub mod Attach
pub mod Query
pub mod Retry
use cpp_core_systems.Prelude.{
  ℕ, ◌≡◌, refl, ◌≢◌, ◌⊎◌, inl, inr, ◌∙◌, sym, ap, arith, Bool, true, false, not, ◌&&◌, ◌==◌,
  if◌then◌else◌, Bool-cases,
}
use cpp_core_systems.Net.IpAddress.{IpVersion, ipv4, ipv6, same_version}
use cpp_core_systems.Net.SocketError.{
  SocketError, Errors, invalid_argument, bad_file_descriptor, from_code, make_error, SocketResult,
  success, failure,
}
use cpp_core_systems.Net.System.{System, IsSystem, invalid_handle, Kept, Gained}
use cpp_core_systems.Net.SocketHandle
use cpp_core_systems.Net.SocketHandle.{is_valid, undone, close_none, Gained-Kept}

module _ (sys : System) (std : Errors) where
  -- SocketError::Last().
  abbrev pub last_error : sys.State → SocketError
  last_error s = from_code (sys.errno s)

  abbrev pub invalid_socket_error : SocketError
  invalid_socket_error = make_error std bad_file_descriptor

  abbrev pub invalid_argument_error : SocketError
  invalid_argument_error = make_error std invalid_argument

  unfoldable pub create_socket :
      IpVersion → (type protocol : ℕ) → sys.State → SocketResult ℕ × sys.State
  create_socket version type protocol s =
      if not (same_version version ipv4) && not (same_version version ipv6)
      then (failure invalid_argument_error, s)
      else let family =
          if same_version version ipv4 then sys.headers.af_inet else sys.headers.af_inet6 in
        let (handle, t) = sys.socket family type protocol s in
        if not (is_valid handle)
        then (failure (last_error t), (SocketHandle.close sys handle t).1)
        else (success handle, t)

  -- `none` would be the result void; `true` is success.
  unfoldable pub configure_tcp_socket : ℕ → sys.State → SocketResult (Unit {0}) × sys.State
  configure_tcp_socket handle s =
      if sys.nosigpipe
      then (let (done, t) = sys.setsockopt handle sys.so_nosigpipe 1 s in
          if done then (success tt, t) else (failure (last_error t), t))
      else (success tt, s)

  -- The error is read before the destructor of `handle` closes it.
  abbrev pub failed {ℓ} :
      {A : Type ℓ} → SocketError → (handle : ℕ) → sys.State → SocketResult A × sys.State
  failed error handle s = (failure error, (SocketHandle.close sys handle s).1)

  unfoldable pub create_tcp_socket : IpVersion → sys.State → SocketResult ℕ × sys.State
  unfolding create_socket configure_tcp_socket
  create_tcp_socket version s =
      let (created, s₁) = create_socket version sys.sock_stream sys.ipproto_tcp s in
      elim created [
        | failure error ↦ (failure error, s₁)
        | success handle ↦
            let (configured, s₂) = configure_tcp_socket handle s₁ in
            elim configured [
              | failure error ↦ failed error handle s₂
              | success _ ↦ (success handle, s₂)
            ]
      ]

  -- What a function that makes a socket promises of its result and of the state after it: a failure
  -- leaves no descriptor behind, and a success exactly the one that it returns.
  abbrev pub Created : sys.State → SocketResult ℕ × sys.State → Type 0
  Created s (success handle, t) = Gained sys handle s t
  Created s (failure error, t) = Kept sys s t

  module _ (laws : IsSystem sys) where
    pub create_socket_lem :
        (version : IpVersion) (type protocol : ℕ) (s : sys.State)
        → Created s (create_socket version type protocol s)
    unfolding create_socket
    create_socket_lem version type protocol s =
        elim (Bool-cases (not (same_version version ipv4) && not (same_version version ipv6))) [
          | inl outside ↦ rw outside (λ d. refl)
          | inr known ↦ rw known (
              made
                (if same_version version ipv4 then sys.headers.af_inet else sys.headers.af_inet6))
        ]
      where
        made :
            (family : ℕ)
            → Created s (
                let (handle, t) = sys.socket family type protocol s in
                if not (is_valid handle)
                then (failure (last_error t), (SocketHandle.close sys handle t).1)
                else (success handle, t))
        made family = elim (laws.socket_makes family type protocol s) [
          | inl (bad, kept) ↦
              let test : ((sys.socket family type protocol s).0 == invalid_handle) ≡ true =
                ground arith in
              rw (test, close_none sys _ (sys.socket family type protocol s).1 bad) kept
          | inr new ↦
              let test : ((sys.socket family type protocol s).0 == invalid_handle) ≡ false =
                ground (arith, new.0) in
              rw test new
        ]

    pub configure_keeps : (h : ℕ) (s : sys.State) → Kept sys s (configure_tcp_socket h s).1
    unfolding configure_tcp_socket
    configure_keeps h s d = ground (arith, laws.setsockopt_keeps h sys.so_nosigpipe 1 s d)

    -- On a system whose socket and close calls open and close one descriptor: if CreateTcpSocket
    -- fails, at any step, the open descriptors are as they were, and if it succeeds, exactly the
    -- descriptor that it returns has been opened.
    pub create_tcp_socket_lem :
        (version : IpVersion) (s : sys.State) → Created s (create_tcp_socket version s)
    unfolding create_tcp_socket
    create_tcp_socket_lem version s =
        after_created (create_socket version sys.sock_stream sys.ipproto_tcp s)
          (create_socket_lem version sys.sock_stream sys.ipproto_tcp s)
      where
        after_created :
            (r : SocketResult ℕ × sys.State)
            → Created s r
            → Created s (elim r.0 [
              | failure error ↦ (failure error, r.1)
              | success handle ↦
                  let (configured, s₂) = configure_tcp_socket handle r.1 in
                  elim configured [
                    | failure error ↦ failed error handle s₂
                    | success _ ↦ (success handle, s₂)
                  ]
            ])
        after_created (failure error, t) kept = kept
        after_created (success handle, t) new =
            after_configured (configure_tcp_socket handle t) (configure_keeps handle t)
          where
            after_configured :
                (r : SocketResult (Unit {0}) × sys.State)
                → Kept sys t r.1
                → Created s (elim r.0 [
                  | failure error ↦ failed error handle r.1
                  | success _ ↦ (success handle, r.1)
                ])
            after_configured (failure error, u) kept =
                undone sys laws handle s u (Gained-Kept sys handle s t u new kept)
            after_configured (success _, u) kept = Gained-Kept sys handle s t u new kept
