-- ===== src/Net/Pair/Made.antt =====
-- What ConnectPair leaves open.
pub mod Tests
use cpp_core_systems.Prelude.{
  ℕ, ◌≡◌, ◌≢◌, refl, sym, ◌∙◌, ap, subst, arith, Bool, true, false, not, ◌&&◌, ◌==◌, if◌then◌else◌,
  List, [], ◌∷◌, Option, none, some, Bool-cases, inl, inr, ◌⊎◌,
}
use cpp_core_systems.Net.SocketEndpoint.{SocketEndpoint}
use cpp_core_systems.Net.SocketError.{
  SocketError, Errors, has_error, SocketResult, success, failure,
}
use cpp_core_systems.Net.System.{System, IsSystem, invalid_handle, Kept, Gained}
use cpp_core_systems.Net.SocketHandle
use cpp_core_systems.Net.SocketHandle.{is_valid, move_assign_handle_lem, Gained-Kept}
use cpp_core_systems.Net.SocketHelpers.{Created}
use cpp_core_systems.Net.SocketHelpers.Attach.{Attached}
use cpp_core_systems.Net.SocketHelpers.Retry.{Settles}
use cpp_core_systems.Net.SocketHelpers.Query.{query_endpoint, query_keeps}
use cpp_core_systems.Net.TcpSocket
use cpp_core_systems.Net.TcpSocket.{connect_lem}
use cpp_core_systems.Net.TcpListener
use cpp_core_systems.Net.TcpListener.{accept_call, accept_lem, bind_lem, listen_keeps}
use cpp_core_systems.Net.Pair.{
  any_port, configure, leave, configure_both, pair_accepted, pair_connected, pair_addressed,
  pair_listening, pair_bound, connect_pair,
}
use cpp_core_systems.Net.Pair.Extra.{
  Extra, Extra-keep, Extra-gain, Extra-close, Extra-close-none, Extra-close-last,
}

module _ (sys : System) (std : Errors) where
  -- A failure has left nothing open, and a success only the client and the server.
  abbrev pub Paired : sys.State → SocketResult (ℕ × ℕ) × sys.State → Type 0
  Paired s (success (client, server), t) = Extra sys (server ∷ client ∷ []) s t
  Paired s (failure error, t) = Extra sys [] s t

  abbrev pub PairedRun : sys.State → Option (SocketResult (ℕ × ℕ) × sys.State) → Type 0
  PairedRun s o = (r : SocketResult (ℕ × ℕ) × sys.State) × (o ≡ some r) × Paired s r

  module _ (laws : IsSystem sys) where
    configure_keeps :
        (h : ℕ) (no_delay : Bool) (s : sys.State) → Kept sys s (configure sys std h no_delay s).1
    unfolding configure
    configure_keeps h no_delay s d =
        let first = laws.setsockopt_keeps h sys.so_rcvtimeo 5 s d in
        let s₁ = (sys.setsockopt h sys.so_rcvtimeo 5 s).1 in
        let second = laws.setsockopt_keeps h sys.so_sndtimeo 5 s₁ d in
        let s₂ = (sys.setsockopt h sys.so_sndtimeo 5 s₁).1 in
        let third = laws.setsockopt_keeps h sys.tcp_nodelay (if no_delay then 1 else 0) s₂ d in
        elim (Bool-cases (sys.setsockopt h sys.so_rcvtimeo 5 s).0) [
          | inr bad ↦ rw bad first
          | inl set ↦ elim (Bool-cases (sys.setsockopt h sys.so_sndtimeo 5 s₁).0) [
            | inr bad ↦ rw (set, bad) (second ∙ first)
            | inl set' ↦
                elim (Bool-cases
                  (sys.setsockopt h sys.tcp_nodelay (if no_delay then 1 else 0) s₂).0) [
                    | inr bad ↦ rw (set, set', bad) (third ∙ second ∙ first)
                    | inl set'' ↦ rw (set, set', set'') (third ∙ second ∙ first)
                  ]
          ]
        ]

    left_three :
        (l c v : ℕ) (error : SocketError) (s t : sys.State)
        → Extra sys (v ∷ c ∷ l ∷ []) s t
        → Paired s (leave sys std l c v error t)
    unfolding leave
    left_three l c v error s t extra =
        Extra-close sys laws [] l s _
          (Extra-close sys laws (l ∷ []) c s _ (Extra-close sys laws (c ∷ l ∷ []) v s t extra))

    left_two :
        (l c : ℕ) (error : SocketError) (s t : sys.State)
        → Extra sys (c ∷ l ∷ []) s t
        → Paired s (leave sys std l c invalid_handle error t)
    unfolding leave
    left_two l c error s t extra =
        Extra-close sys laws [] l s _
          (Extra-close sys laws (l ∷ []) c s _ (Extra-close-none sys laws (c ∷ l ∷ []) s t extra))

    left_one :
        (l : ℕ) (error : SocketError) (s t : sys.State)
        → Extra sys (l ∷ []) s t
        → Paired s (leave sys std l invalid_handle invalid_handle error t)
    unfolding leave
    left_one l error s t extra =
        Extra-close sys laws [] l s _
          (Extra-close-none sys laws (l ∷ []) s _ (Extra-close-none sys laws (l ∷ []) s t extra))

    configure_both_lem :
        (l c v : ℕ) (no_delay : Bool) (s t : sys.State)
        → Extra sys (v ∷ c ∷ l ∷ []) s t
        → Paired s (configure_both sys std l c v no_delay t)
    unfolding configure_both
    configure_both_lem l c v no_delay s t extra =
        let t₁ = (configure sys std c no_delay t).1 in
        let first = Extra-keep sys (v ∷ c ∷ l ∷ []) s t t₁ extra (configure_keeps c no_delay t) in
        let t₂ = (configure sys std v no_delay t₁).1 in
        let second =
          Extra-keep sys (v ∷ c ∷ l ∷ []) s t₁ t₂ first (configure_keeps v no_delay t₁) in
        elim (Bool-cases (has_error (configure sys std c no_delay t).0)) [
          | inl bad ↦ rw bad (left_three l c v _ s t₁ first)
          | inr fine ↦ elim (Bool-cases (has_error (configure sys std v no_delay t₁).0)) [
            | inl bad ↦ rw (fine, bad) (left_three l c v _ s t₂ second)
            | inr fine' ↦ rw (fine, fine') (Extra-close-last sys laws l c v s t₂ second)
          ]
        ]

    moved_in :
        (handle : ℕ) (t : sys.State)
        → Kept sys t (SocketHandle.move_assign sys invalid_handle handle t).2
    moved_in handle t d =
        let (is, left, closed) =
          move_assign_handle_lem sys laws invalid_handle handle t (λ e. refl) in
        closed d ∙ ground arith

    pair_accepted_lem :
        (l c : ℕ) (no_delay : Bool) (s t : sys.State) (r : SocketResult ℕ × sys.State)
        → Extra sys (c ∷ l ∷ []) s t
        → Created sys std t r
        → Paired s (pair_accepted sys std l c no_delay r)
    unfolding pair_accepted
    pair_accepted_lem l c no_delay s t (failure error, u) extra kept =
        left_two l c error s u (Extra-keep sys (c ∷ l ∷ []) s t u extra kept)
    pair_accepted_lem l c no_delay s t (success handle, u) extra new =
        let (is, left, closed) =
          move_assign_handle_lem sys laws invalid_handle handle u (λ e. refl) in
        let moved = (SocketHandle.move_assign sys invalid_handle handle u).2 in
        let three =
          Extra-keep sys (handle ∷ c ∷ l ∷ []) s u moved
            (Extra-gain sys (c ∷ l ∷ []) handle s t u extra new) (moved_in handle u) in
        subst (λ v. Paired s (configure_both sys std l c v no_delay moved)) (sym is)
          (configure_both_lem l c handle no_delay s moved three)

    module _ (fuel : ℕ)
        (settles : (h : ℕ) (t : sys.State) → Settles sys std (accept_call sys std h) fuel t) where
      pair_connected_lem :
          (l : ℕ) (no_delay : Bool) (s t : sys.State) (r : SocketResult (Unit {0}) × ℕ × sys.State)
          → Extra sys (l ∷ []) s t
          → Attached sys std t invalid_handle r
          → PairedRun s (pair_connected sys std fuel l no_delay r)
      unfolding pair_connected
      pair_connected_lem l no_delay s t (failure error, c, u) extra (same, kept) = (
        _,
        refl,
        subst (λ h. Paired s (leave sys std l h invalid_handle error u)) (sym same)
            (left_one l error s u (Extra-keep sys (l ∷ []) s t u extra kept)),
      )
      pair_connected_lem l no_delay s t (success _, c, u) extra new =
          let (r, found, made) = accept_lem sys std laws fuel l u (settles l u) in
          (
            pair_accepted sys std l c no_delay r,
            rw (pair_connected, found) refl,
            pair_accepted_lem l c no_delay s u r (Extra-gain sys (l ∷ []) c s t u extra new) made,
          )

      attached :
          (e : SocketEndpoint) (t : sys.State)
          → Attached sys std t invalid_handle (TcpSocket.connect sys std invalid_handle e t)
      attached e t = elim (connect_lem sys std laws invalid_handle e t) [
        | inl (held, same) ↦ absurd (held refl)
        | inr (free, done) ↦ done
      ]

      pair_addressed_lem :
          (l : ℕ) (no_delay : Bool) (s t : sys.State) (r : SocketResult SocketEndpoint × sys.State)
          → Extra sys (l ∷ []) s t
          → Kept sys t r.1
          → PairedRun s (pair_addressed sys std fuel l no_delay r)
      unfolding pair_addressed
      pair_addressed_lem l no_delay s t (failure error, u) extra kept =
          (_, refl, left_one l error s u (Extra-keep sys (l ∷ []) s t u extra kept))
      pair_addressed_lem l no_delay s t (success e, u) extra kept =
          pair_connected_lem l no_delay s u (TcpSocket.connect sys std invalid_handle e u)
            (Extra-keep sys (l ∷ []) s t u extra kept) (attached e u)

      pair_listening_lem :
          (l : ℕ) (no_delay : Bool) (s t : sys.State) (r : SocketResult (Unit {0}) × sys.State)
          → Extra sys (l ∷ []) s t
          → Kept sys t r.1
          → PairedRun s (pair_listening sys std fuel l no_delay r)
      unfolding pair_listening
      pair_listening_lem l no_delay s t (failure error, u) extra kept =
          (_, refl, left_one l error s u (Extra-keep sys (l ∷ []) s t u extra kept))
      pair_listening_lem l no_delay s t (success _, u) extra kept =
          pair_addressed_lem l no_delay s u (query_endpoint sys std l false u)
            (Extra-keep sys (l ∷ []) s t u extra kept) (query_keeps sys std laws l u)

      pair_bound_lem :
          (no_delay : Bool) (s : sys.State) (r : SocketResult (Unit {0}) × ℕ × sys.State)
          → Attached sys std s invalid_handle r
          → PairedRun s (pair_bound sys std fuel no_delay r)
      unfolding pair_bound leave
      pair_bound_lem no_delay s (failure error, l, t) (same, kept) =
          let nothing = Extra-keep sys [] s s t (tt, λ d. refl) kept in
          (
            _,
            refl,
            subst (λ h. Paired s (leave sys std h invalid_handle invalid_handle error t)) (sym same)
                (Extra-close-none sys laws [] s _
                  (Extra-close-none sys laws [] s _ (Extra-close-none sys laws [] s t nothing))),
          )
      pair_bound_lem no_delay s (success _, l, t) new =
          pair_listening_lem l no_delay s t (TcpListener.listen sys std l sys.somaxconn t)
            (Extra-gain sys [] l s s t (tt, λ d. refl) new)
            (listen_keeps sys std laws l sys.somaxconn t)

      -- On a system with the laws IsSystem, whose socket, accept and close calls open and close one
      -- descriptor and whose other calls open and close none, and where accept is interrupted fewer
      -- times in a row than there is fuel: ConnectPair ends; on every failure, at any of its steps,
      -- the open descriptors are as they were, and after a success exactly two new ones are open,
      -- the client's and the server's, which differ.
      pub connect_pair_lem :
          (no_delay : Bool) (s : sys.State) → PairedRun s (connect_pair sys std fuel no_delay s)
      unfolding connect_pair
      connect_pair_lem no_delay s = elim (bind_lem sys std laws invalid_handle any_port s) [
        | inl (held, same) ↦ absurd (held refl)
        | inr (free, done) ↦
            pair_bound_lem no_delay s (TcpListener.bind sys std invalid_handle any_port s) done
      ]
