-- ===== src/Net/Loopback/Ends.antt =====
-- Every way out of main.
use cpp_core_systems.Prelude.{
  ℕ, ◌+◌, ◌^◌, ◌<◌, ◌≡◌, ◌≢◌, refl, sym, subst, arith, false, ◌==◌, Option, some, List, [], ◌∷◌,
  length, Bool-cases, inl, inr, ◌⊎◌,
}
use cpp_core_systems.Net.SocketEndpoint.{SocketEndpoint}
use cpp_core_systems.Net.SocketError.{Errors, Platform, SocketResult, success, failure}
use cpp_core_systems.Net.System.{System, IsSystem, invalid_handle, Kept}
use cpp_core_systems.Net.SocketHandle
use cpp_core_systems.Net.SocketHandle.{close}
use cpp_core_systems.Net.SocketHelpers.{Created}
use cpp_core_systems.Net.SocketHelpers.Attach.{Attached}
use cpp_core_systems.Net.SocketHelpers.Query.{query_endpoint, query_keeps}
use cpp_core_systems.Net.SocketRuntime.{Startup, construct}
use cpp_core_systems.Net.SocketRuntime.Lifetimes.{IsStartup, Supported, balanced}
use cpp_core_systems.Net.TcpSocket
use cpp_core_systems.Net.TcpSocket.{connect_lem}
use cpp_core_systems.Net.TcpListener
use cpp_core_systems.Net.TcpListener.{accept_lem, bind_lem, listen_keeps}
use cpp_core_systems.Net.Pair.{any_port}
use cpp_core_systems.Net.Pair.Extra.{
  Extra, Extra-keep, Extra-gain, Extra-close, Extra-close-none, Extra-close-last,
}
use cpp_core_systems.Net.Loopback.{
  TcpLine, Operation, Exit, leave_main, behind, main_accepted, main_connected, main_addressed,
  main_listening, main_bound, main_sockets, loopback_main,
}
use cpp_core_systems.Net.Loopback.Waits.{IsFinite, IsPatient}
use cpp_core_systems.Net.Loopback.Reading.{texts, Fine}
use cpp_core_systems.Net.Loopback.Echoing.{Ends, exchange-Ends}

-- What holds of a success holds, or the result is not 0.
pub decide_zero {ℓ} : {A : Type ℓ} (code : ℕ) → (code ≡ 0 → A) → ((code ≡ 0) × A) ⊎ (code ≢ 0)
decide_zero code then_so = elim (Bool-cases (code == 0)) [
  | inl zero_code ↦ let e : code ≡ 0 = ground arith in inl (e, then_so e)
  | inr other ↦ inr (λ e. absurd (ground arith))
]

module _ (sys : System) (std : Errors) (laws : IsSystem sys) (finite : IsFinite sys) (fuel : ℕ)
    (patient : IsPatient sys std fuel) (message : List ℕ) (fits : length message < 2 ^ 64) where
  -- A return with the listener, or with the listener and the client.
  failed_listener :
      (l : ℕ) (lines : List TcpLine) (s t : sys.State)
      → Extra sys (l ∷ []) s t
      → Fine sys std message s (leave_main sys std l invalid_handle invalid_handle 1 lines t)
  unfolding leave_main
  failed_listener l lines s t extra = (
    Extra-close sys laws [] l s _
        (Extra-close-none sys laws (l ∷ []) s _ (Extra-close-none sys laws (l ∷ []) s t extra)),
    λ e. absurd (omega arith),
  )

  failed_client :
      (l c : ℕ) (lines : List TcpLine) (s t : sys.State)
      → Extra sys (c ∷ l ∷ []) s t
      → Fine sys std message s (leave_main sys std l c invalid_handle 1 lines t)
  unfolding leave_main
  failed_client l c lines s t extra = (
    Extra-close sys laws [] l s _
        (Extra-close sys laws (l ∷ []) c s _ (Extra-close-none sys laws (c ∷ l ∷ []) s t extra)),
    λ e. absurd (omega arith),
  )

  failed_none :
      (lines : List TcpLine) (s t : sys.State)
      → Extra sys [] s t
      → Fine sys std message s
          (leave_main sys std invalid_handle invalid_handle invalid_handle 1 lines t)
  unfolding leave_main
  failed_none lines s t extra = (
    Extra-close-none sys laws [] s _
        (Extra-close-none sys laws [] s _ (Extra-close-none sys laws [] s t extra)),
    λ e. absurd (omega arith),
  )

  -- An exit at once.
  at_once :
      (s : sys.State) (r : Exit sys std)
      → Fine sys std message s r
      → Ends sys std message s (λ turns. some r)
  at_once s r fine = (0, λ turns enough. (r, refl, fine))

  main_accepted_lem :
      (l c : ℕ) (s t : sys.State) (r : SocketResult ℕ × sys.State)
      → Extra sys (c ∷ l ∷ []) s t
      → Created sys std t r
      → Ends sys std message s (λ turns. main_accepted sys std message fuel turns l c r)
  unfolding main_accepted
  main_accepted_lem l c s t (failure error, u) extra kept =
      at_once s _ (failed_client l c _ s u (Extra-keep sys (c ∷ l ∷ []) s t u extra kept))
  main_accepted_lem l c s t (success v, u) extra new =
      exchange-Ends sys std laws finite fuel patient message fits c v s
        (SocketHandle.close sys l u).1
        (Extra-close-last sys laws l c v s u (Extra-gain sys (c ∷ l ∷ []) v s t u extra new))

  main_connected_lem :
      (l : ℕ) (s t : sys.State) (r : SocketResult (Unit {0}) × ℕ × sys.State)
      → Extra sys (l ∷ []) s t
      → Attached sys std t invalid_handle r
      → Ends sys std message s (λ turns. main_connected sys std message fuel turns l r)
  unfolding main_connected
  main_connected_lem l s t (failure error, c, u) extra (same, kept) = at_once s _ (
      subst
        (λ h. Fine sys std message s (
          leave_main sys std l h invalid_handle 1
            (TcpLine.check_failed Operation.connecting error ∷ []) u))
        (sym same) (failed_listener l _ s u (Extra-keep sys (l ∷ []) s t u extra kept)))
  main_connected_lem l s t (success _, c, u) extra new =
      let (r, found, made) = accept_lem sys std laws fuel l u (patient.accepts l u) in
      let (n, ends) =
        main_accepted_lem l c s u r (Extra-gain sys (l ∷ []) c s t u extra new) made in
      (n, λ turns enough. rw (main_connected, found) (ends turns enough))

  attached :
      (e : SocketEndpoint) (t : sys.State)
      → Attached sys std t invalid_handle (TcpSocket.connect sys std invalid_handle e t)
  attached e t = elim (connect_lem sys std laws invalid_handle e t) [
    | inl (held, same) ↦ absurd (held refl)
    | inr (free, done) ↦ done
  ]

  -- A line that shows nothing of what the client has received.
  behind_listening :
      (e : SocketEndpoint) (s : sys.State) (run : ℕ → Option (Exit sys std))
      → Ends sys std message s run
      → Ends sys std message s (λ turns. behind sys std (TcpLine.listening_at e) (run turns))
  behind_listening e s run (n, ends) = (
    n,
    λ turns enough.
        let ((lines, code, u), found, fine) = ends turns enough in
        rw found ((TcpLine.listening_at e ∷ lines, code, u), refl, fine),
  )

  main_addressed_lem :
      (l : ℕ) (s t : sys.State) (r : SocketResult SocketEndpoint × sys.State)
      → Extra sys (l ∷ []) s t
      → Kept sys t r.1
      → Ends sys std message s (λ turns. main_addressed sys std message fuel turns l r)
  unfolding main_addressed
  main_addressed_lem l s t (failure error, u) extra kept =
      at_once s _ (failed_listener l _ s u (Extra-keep sys (l ∷ []) s t u extra kept))
  main_addressed_lem l s t (success e, u) extra kept = behind_listening e s _ (
      main_connected_lem l s u (TcpSocket.connect sys std invalid_handle e u)
        (Extra-keep sys (l ∷ []) s t u extra kept) (attached e u))

  main_listening_lem :
      (l : ℕ) (s t : sys.State) (r : SocketResult (Unit {0}) × sys.State)
      → Extra sys (l ∷ []) s t
      → Kept sys t r.1
      → Ends sys std message s (λ turns. main_listening sys std message fuel turns l r)
  unfolding main_listening
  main_listening_lem l s t (failure error, u) extra kept =
      at_once s _ (failed_listener l _ s u (Extra-keep sys (l ∷ []) s t u extra kept))
  main_listening_lem l s t (success _, u) extra kept =
      main_addressed_lem l s u (query_endpoint sys std l false u)
        (Extra-keep sys (l ∷ []) s t u extra kept) (query_keeps sys std laws l u)

  main_bound_lem :
      (s : sys.State) (r : SocketResult (Unit {0}) × ℕ × sys.State)
      → Attached sys std s invalid_handle r
      → Ends sys std message s (λ turns. main_bound sys std message fuel turns r)
  unfolding main_bound
  main_bound_lem s (failure error, l, t) (same, kept) = at_once s _ (
      subst
        (λ h. Fine sys std message s (
          leave_main sys std h invalid_handle invalid_handle 1
            (TcpLine.check_failed Operation.binding error ∷ []) t))
        (sym same) (failed_none _ s t (Extra-keep sys [] s s t (tt, λ d. refl) kept)))
  main_bound_lem s (success _, l, t) new =
      main_listening_lem l s t (TcpListener.listen sys std l sys.somaxconn t)
        (Extra-gain sys [] l s s t (tt, λ d. refl) new)
        (listen_keeps sys std laws l sys.somaxconn t)

  main_sockets_lem :
      (s : sys.State) → Ends sys std message s (λ turns. main_sockets sys std message fuel turns s)
  unfolding main_sockets
  main_sockets_lem s = elim (bind_lem sys std laws invalid_handle any_port s) [
    | inl (held, same) ↦ absurd (held refl)
    | inr (free, done) ↦ main_bound_lem s (TcpListener.bind sys std invalid_handle any_port s) done
  ]

  module _ (dll : Startup) (startup : IsStartup dll) where
    -- What main leaves of the system and of the runtime's library, and what it has written if it
    -- succeeds.
    abbrev pub Left : sys.State → dll.State → List TcpLine × ℕ × sys.State × dll.State → Type 0
    Left s d r =
        Kept sys s r.2
        × (startup.started r.3 ≡ startup.started d)
        × (((r.1 ≡ 0) × (texts r.0 ≡ message)) ⊎ (r.1 ≢ 0))

    -- On a system with the laws IsSystem, where only so many bytes can still arrive on a descriptor
    -- (IsFinite), where accept, send and recv are not interrupted `fuel` times in a row, where
    -- WSAStartup and WSACleanup count (IsStartup) and WSAVERNOTSUPPORTED is an error: main of the
    -- TCP example, with the sockets of POSIX and the runtime of POSIX or Windows and with any
    -- message shorter than 2^64 bytes, ends with every large enough number of turns for its two
    -- loops; whichever way it takes, the open descriptors and the start-ups are those from before,
    -- and if its result is 0, the chunks that the client has written out are together the message.
    pub loopback_main_lem :
        (platform : Platform) (s : sys.State) (d : dll.State)
        → Supported dll startup platform
        → (n : ℕ) × ((more : ℕ)
            → (r : List TcpLine × ℕ × sys.State × dll.State) × (loopback_main sys std message fuel
                  (n + more)
                  dll
                  platform
                  (s, d)
                ≡ some r)
              × Left s d r)
    unfolding loopback_main
    loopback_main_lem platform s d supported =
        elim (Bool-cases ((construct dll platform d).0.initialized)) [
          | inr broken ↦ (
            0,
            λ more. rw broken (
              _,
              refl,
              (λ h. refl, balanced dll startup platform d supported, inr (λ e. omega arith)),
            ),
          )
          | inl works ↦
              let (n, ends) = main_sockets_lem s in
              (
                n,
                λ more.
                    let ((lines, code, t), found, ((new, kept), reads)) =
                      ends (n + more) (omega arith) in
                    rw (works, found)
                      (
                        _,
                        refl,
                        (kept, balanced dll startup platform d supported, decide_zero code reads),
                      ),
              )
        ]
