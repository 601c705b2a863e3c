-- ===== src/Net/HandleExample/Ends.antt =====
-- Every way out of main, and what it writes if it succeeds.
use cpp_core_systems.Prelude.{
  ℕ, ◌≡◌, ◌≢◌, refl, ◌∙◌, ap, arith, false, ◌==◌, List, ◌∷◌, Bool-cases, inl, inr, ◌⊎◌,
}
use cpp_core_systems.Net.SocketError.{Errors, Platform}
use cpp_core_systems.Net.System.{System, IsSystem, invalid_handle, Kept, Gained}
use cpp_core_systems.Net.SocketHandle
use cpp_core_systems.Net.SocketRuntime.{Startup, construct, destroy}
use cpp_core_systems.Net.SocketRuntime.Lifetimes.{IsStartup, Supported, balanced, broken_code}
use cpp_core_systems.Net.HandleExample.{
  Label, HandleLine, make_tcp_socket, handles_assigned, handles_created, handles, handles_main,
}
use cpp_core_systems.Net.HandleExample.Story.{
  story, later_story, made, closed, differ_lem, Told, assigned_lem,
}

module _ (sys : System) (std : Errors) (laws : IsSystem sys) where
  -- Behind the first socket.
  abbrev Happens : (a : ℕ) → sys.State → List HandleLine × ℕ × sys.State → Type 0
  Happens a s r =
      Kept sys s r.2
      × (((r.1 ≡ 0)
            × ((second : ℕ) × (third : ℕ) × ((second ≢ invalid_handle)
                  × (third ≢ invalid_handle)
                  × (second ≢ a))
                × (r.0
                    ≡ HandleLine.described Label.construct_source invalid_handle
                      ∷ HandleLine.described Label.construct_target a
                      ∷ later_story sys std laws a second third)))
          ⊎ (r.1 ≡ 1))

  created_lem :
      (s₀ s : sys.State) (a : ℕ)
      → Gained sys a s₀ s
      → Happens a s₀ (handles_created sys std a invalid_handle s)
  unfolding handles_created SocketHandle.close
  created_lem s₀ s a (valid, unused, rest) = elim (made sys std laws s) [
    | inl (bad, same) ↦
        let t = (make_tcp_socket sys std s).2 in
        let held : (a == invalid_handle) ≡ false = ground arith in
        rw (bad, held)
          (
            λ d.
                closed sys std laws s₀ s₀ t a d refl unused (same d ∙ rest d)
                  (laws.close_loses a t d),
            inr refl,
          )
    | inr (quiet, (valid', unused', rest')) ↦
        let b = (make_tcp_socket sys std s).1 in
        let t = (make_tcp_socket sys std s).2 in
        let held : (b == invalid_handle) ≡ false = ground arith in
        rw (held, quiet)
          (happens t b valid'
            (differ_lem sys std laws s₀ s t a b (valid, unused, rest) (valid', unused', rest'))
            (handles_assigned sys std b a invalid_handle invalid_handle t)
            (assigned_lem sys std laws s₀ s t a b (valid, unused, rest) (valid', unused', rest')))
  ]
    where
      happens :
          (t : sys.State) (b : ℕ)
          → b ≢ invalid_handle
          → b ≢ a
          → (r : List HandleLine × ℕ × sys.State)
          → Told sys std laws (later_story sys std laws a b) s₀ r
          → Happens a s₀ (
            HandleLine.described Label.construct_source invalid_handle
                ∷ HandleLine.described Label.construct_target a
                ∷ r.0,
            r.1,
            r.2,
          )
      happens t b good apart r (kept, inr failed) = (kept, inr failed)
      happens t b good apart r (kept, inl (zero_code, (third, valid, lines))) = (
        kept,
        inl (
          zero_code,
          (
            b,
            third,
            (good, valid, apart),
            ap
                (λ more.
                  HandleLine.described Label.construct_source invalid_handle
                  ∷ HandleLine.described Label.construct_target a
                  ∷ more)
                lines,
          ),
        ),
      )

  -- What main leaves of the system, and what it has written if it succeeds.
  abbrev Handled : sys.State → List HandleLine × ℕ × sys.State → Type 0
  Handled s r =
      Kept sys s r.2
      × (((r.1 ≡ 0)
            × ((first : ℕ) × (second : ℕ) × (third : ℕ) × ((first ≢ invalid_handle)
                  × (second ≢ invalid_handle)
                  × (third ≢ invalid_handle)
                  × (second ≢ first))
                × (r.0 ≡ story first second third)))
          ⊎ (r.1 ≡ 1))

  handles_lem : (s : sys.State) → Handled s (handles sys std s)
  unfolding handles SocketHandle.close
  handles_lem s = elim (made sys std laws s) [
    | inl (bad, same) ↦ rw bad (same, inr refl)
    | inr (quiet, (valid, unused, rest)) ↦
        let a = (make_tcp_socket sys std s).1 in
        let t = (make_tcp_socket sys std s).2 in
        let held : (a == invalid_handle) ≡ false = ground arith in
        rw (held, quiet)
          (handled a valid (handles_created sys std a invalid_handle t)
            (created_lem s t a (valid, unused, rest)))
  ]
    where
      handled :
          (a : ℕ)
          → a ≢ invalid_handle
          → (r : List HandleLine × ℕ × sys.State) → Happens a s r
          → Handled s (
            HandleLine.described Label.default_constructed invalid_handle
                ∷ HandleLine.described Label.freshly_created a
                ∷ r.0,
            r.1,
            r.2,
          )
      handled a good r (kept, inr failed) = (kept, inr failed)
      handled a good r (kept, inl (zero_code, (second, third, (valid, valid', apart), lines))) = (
        kept,
        inl (
          zero_code,
          (
            a,
            second,
            third,
            (good, valid, valid', apart),
            ap
                (λ more.
                  HandleLine.described Label.default_constructed invalid_handle
                  ∷ HandleLine.described Label.freshly_created a
                  ∷ more)
                lines,
          ),
        ),
      )

  module _ (dll : Startup) (startup : IsStartup dll) where
    -- What main leaves of the system and of the runtime's library, and what it has written if it
    -- succeeds.
    abbrev pub LeftHandles :
        sys.State → dll.State → List HandleLine × ℕ × sys.State × dll.State → Type 0
    LeftHandles s d r =
        Kept sys s r.2
        × (startup.started r.3 ≡ startup.started d)
        × (((r.1 ≡ 0)
              × ((first : ℕ) × (second : ℕ) × (third : ℕ) × ((first ≢ invalid_handle)
                    × (second ≢ invalid_handle)
                    × (third ≢ invalid_handle)
                    × (second ≢ first))
                  × (r.0 ≡ story first second third)))
            ⊎ (r.1 ≢ 0))

    -- On a system with the laws IsSystem, where WSAStartup and WSACleanup count (IsStartup) and
    -- WSAVERNOTSUPPORTED is an error: whichever way main of the handle example takes, with the
    -- sockets of POSIX and the runtime of POSIX or Windows, the open descriptors and the start-ups
    -- are those from before; if its result is 0, it has written that the handle of the first
    -- socket, which is not the second's, went from object to object, and that each object that gave
    -- it away or closed it is invalid.
    pub handles_main_lem :
        (platform : Platform) (s : sys.State) (d : dll.State)
        → Supported dll startup platform
        → LeftHandles s d (handles_main sys std dll platform (s, d))
    unfolding handles_main
    handles_main_lem platform s d supported =
        elim (Bool-cases ((construct dll platform d).0.initialized)) [
          | inr broken ↦ rw broken (
            λ h. refl,
            balanced dll startup platform d supported,
            inr (λ e. broken_code dll startup platform d supported broken e),
          )
          | inl works ↦ rw works (left (handles sys std s) (handles_lem s))
        ]
      where
        left :
            (r : List HandleLine × ℕ × sys.State)
            → Handled s r
            → LeftHandles s d (
              r.0,
              r.1,
              r.2,
              destroy dll platform (construct dll platform d).0 (construct dll platform d).1,
            )
        left r (kept, inl (zero_code, happened)) =
            (kept, balanced dll startup platform d supported, inl (zero_code, happened))
        left r (kept, inr failed) =
            (kept, balanced dll startup platform d supported, inr (λ e. omega arith))
