-- ===== src/Net/Loopback/Echoing.antt =====
-- The exchange of the message: the request, the server's loop, and the response.
use cpp_core_systems.Prelude.{
  ℕ, zero, suc, ◌+◌, ◌^◌, ◌≤◌, ◌<◌, ◌≡◌, refl, arith, true, ◌==◌, Option, some, List, [], ◌∷◌,
  length, Bool-cases, inl, inr,
}
use cpp_core_systems.Net.SocketError.{Errors, SocketResult, success, failure}
use cpp_core_systems.Net.System.{System, IsSystem, Kept}
use cpp_core_systems.Net.SocketHandle.{is_valid}
use cpp_core_systems.Net.TcpSocket.{SocketShutdown, shutdown, receive}
use cpp_core_systems.Net.Pair.Extra.{Extra, Extra-keep}
use cpp_core_systems.Net.Loopback.{
  TcpLine, Exit, response_finished, echo_sent, server_got, server_loop, request_finished,
  request_sent, exchange,
}
use cpp_core_systems.Net.Loopback.Waits.{
  IsFinite, IsPatient, Still, Received, receive_waits, send_all_waits,
}
use cpp_core_systems.Net.Loopback.Reading.{Fine, failed_pair, client_loop_lem}

module _ (sys : System) (std : Errors) where
  -- With turns enough the program ends, and ends well.
  abbrev pub Ends : List ℕ → sys.State → (ℕ → Option (Exit sys std)) → Type 0
  Ends message s run =
      (n : ℕ) × ((turns : ℕ)
        → n ≤ turns
        → (r : Exit sys std) × (run turns ≡ some r) × Fine sys std message s r)

  module _ (laws : IsSystem sys) where
    pub shutdown-Kept :
        (this : ℕ) (s : sys.State) → Kept sys s (shutdown sys std this SocketShutdown.send_side s).1
    unfolding shutdown
    shutdown-Kept this s = elim (Bool-cases (is_valid this)) [
      | inr free ↦ rw free (λ d. refl)
      | inl held ↦ elim (Bool-cases (sys.shutdown this sys.shut_wr s).0) [
        | inl done ↦ rw (held, done) (λ d. laws.shutdown_keeps this sys.shut_wr s d)
        | inr bad ↦ rw (held, bad) (λ d. laws.shutdown_keeps this sys.shut_wr s d)
      ]
    ]

    module _ (finite : IsFinite sys) (fuel : ℕ) (patient : IsPatient sys std fuel)
        (message : List ℕ) (fits : length message < 2 ^ 64) (c v : ℕ) (s₀ : sys.State) where
      response_finished_lem :
          (s : sys.State) (r : SocketResult (Unit {0}) × sys.State)
          → Extra sys (v ∷ c ∷ []) s₀ s
          → Kept sys s r.1
          → Ends message s₀ (λ turns. response_finished sys std message fuel c v turns r)
      unfolding response_finished
      response_finished_lem s (failure error, t) extra kept = (
        0,
        λ turns enough. (
          _,
          refl,
          failed_pair sys std laws message c v _ s₀ t
              (Extra-keep sys (v ∷ c ∷ []) s₀ s t extra kept),
        ),
      )
      response_finished_lem s (success _, t) extra kept = (
        suc (finite.waiting t c),
        λ turns enough.
            let ((lines, code, u), found, (closed, reads)) =
              client_loop_lem sys std laws finite fuel patient message fits c v s₀
                (suc (finite.waiting t c)) true 0 t turns (omega arith) enough
                (Extra-keep sys (v ∷ c ∷ []) s₀ s t extra kept) in
            rw found ((TcpLine.client_heading ∷ lines, code, u), refl, (closed, λ e. (reads e).1)),
      )

      -- The server's loop ends.
      abbrev Echoes : (w : ℕ) → (ℕ → ℕ → Option (Exit sys std)) → Type 0
      Echoes w run =
          (n : ℕ) × ((echoes turns : ℕ)
            → w ≤ echoes
            → n ≤ turns
            → (r : Exit sys std) × (run echoes turns ≡ some r) × Fine sys std message s₀ r)

      echo_sent_lem :
          (w : ℕ) (s : sys.State) (r : SocketResult (Unit {0}) × sys.State)
          → Extra sys (v ∷ c ∷ []) s₀ s
          → finite.waiting s v < w
          → Still sys std finite v s r.1
          → ((t : sys.State)
              → finite.waiting t v < w
              → Extra sys (v ∷ c ∷ []) s₀ t
              → Echoes w (λ echoes turns. server_loop sys std message fuel c v echoes turns t))
          → Echoes w (λ echoes turns.
            echo_sent sys std message fuel c v
              (server_loop sys std message fuel c v echoes turns)
              r)
      echo_sent_lem w s (failure error, t) extra less (kept, few) rest = (
        0,
        λ echoes turns enough enough'. (
          _,
          refl,
          failed_pair sys std laws message c v _ s₀ t
              (Extra-keep sys (v ∷ c ∷ []) s₀ s t extra kept),
        ),
      )
      echo_sent_lem w s (success _, t) extra less (kept, few) rest =
          rest t (omega arith) (Extra-keep sys (v ∷ c ∷ []) s₀ s t extra kept)

      server_got_lem :
          (w : ℕ) (s : sys.State) (r : SocketResult (List ℕ) × sys.State)
          → Extra sys (v ∷ c ∷ []) s₀ s
          → finite.waiting s v < suc w
          → Received sys std finite v s r
          → ((t : sys.State)
              → finite.waiting t v < w
              → Extra sys (v ∷ c ∷ []) s₀ t
              → Echoes w (λ echoes turns. server_loop sys std message fuel c v echoes turns t))
          → Echoes w (λ echoes turns.
            server_got sys std message fuel c v turns
              (server_loop sys std message fuel c v echoes turns)
              r)
      server_got_lem w s (failure error, t) extra less kept rest = (
        0,
        λ echoes turns enough enough'. (
          _,
          refl,
          failed_pair sys std laws message c v _ s₀ t
              (Extra-keep sys (v ∷ c ∷ []) s₀ s t extra kept),
        ),
      )
      server_got_lem w s (success bytes, t) extra less (kept, few) rest =
          let extra' = Extra-keep sys (v ∷ c ∷ []) s₀ s t extra kept in
          elim (Bool-cases (length bytes == 0)) [
            | inl over ↦
                let (n, ends) =
                  response_finished_lem t (shutdown sys std v SocketShutdown.send_side t) extra'
                    (shutdown-Kept v t) in
                (n, λ echoes turns enough enough'. rw over (ends turns enough'))
            | inr more ↦
                let some_more : 0 < length bytes = ground arith in
                let (r, found, still) =
                  send_all_waits sys std finite laws fuel patient (length bytes) v bytes t
                    (omega arith) in
                let (n, ends) = echo_sent_lem w t r extra' (omega arith) still rest in
                (
                  n,
                  λ echoes turns enough enough'.
                      rw (more, found) (ends echoes turns enough enough'),
                )
          ]

      server_loop_lem :
          (w : ℕ) (s : sys.State)
          → finite.waiting s v < w
          → Extra sys (v ∷ c ∷ []) s₀ s
          → Echoes w (λ echoes turns. server_loop sys std message fuel c v echoes turns s)
      unfolding server_loop
      server_loop_lem zero s less extra = absurd (omega arith)
      server_loop_lem (suc w) s less extra =
          let (r, found, got) = receive_waits sys std finite laws fuel patient v 64 s in
          let (n, ends) = server_got_lem w s r extra less got (server_loop_lem w) in
          (n, one_more r found n ends)
        where
          one_more :
              (r : SocketResult (List ℕ) × sys.State)
              → receive sys std fuel v 64 s ≡ some r
              → (n : ℕ)
              → ((echoes turns : ℕ)
                  → w ≤ echoes
                  → n ≤ turns
                  → (q : Exit sys std) × (server_got sys std message fuel c v turns
                        (server_loop sys std message fuel c v echoes turns)
                        r
                      ≡ some q)
                    × Fine sys std message s₀ q)
              → (echoes turns : ℕ) → suc w ≤ echoes
              → n ≤ turns
              → (q : Exit sys std) × (server_loop sys std message fuel c v echoes turns s ≡ some q)
                × Fine sys std message s₀ q
          one_more r found n ends zero turns enough enough' = absurd (omega arith)
          one_more r found n ends (suc echoes) turns enough enough' =
              rw (server_loop, found) (ends echoes turns (omega arith) enough')

      request_finished_lem :
          (s : sys.State) (r : SocketResult (Unit {0}) × sys.State)
          → Extra sys (v ∷ c ∷ []) s₀ s
          → Kept sys s r.1
          → Ends message s₀ (λ turns. request_finished sys std message fuel c v turns r)
      unfolding request_finished
      request_finished_lem s (failure error, t) extra kept = (
        0,
        λ turns enough. (
          _,
          refl,
          failed_pair sys std laws message c v _ s₀ t
              (Extra-keep sys (v ∷ c ∷ []) s₀ s t extra kept),
        ),
      )
      request_finished_lem s (success _, t) extra kept =
          let (n, ends) =
            server_loop_lem (suc (finite.waiting t v)) t (omega arith)
              (Extra-keep sys (v ∷ c ∷ []) s₀ s t extra kept) in
          (
            n + suc (finite.waiting t v),
            λ turns enough. ends turns turns (omega arith) (omega arith),
          )

      request_sent_lem :
          (s : sys.State) (r : SocketResult (Unit {0}) × sys.State)
          → Extra sys (v ∷ c ∷ []) s₀ s
          → Kept sys s r.1
          → Ends message s₀ (λ turns. request_sent sys std message fuel c v turns r)
      unfolding request_sent
      request_sent_lem s (failure error, t) extra kept = (
        0,
        λ turns enough. (
          _,
          refl,
          failed_pair sys std laws message c v _ s₀ t
              (Extra-keep sys (v ∷ c ∷ []) s₀ s t extra kept),
        ),
      )
      request_sent_lem s (success _, t) extra kept =
          request_finished_lem t (shutdown sys std c SocketShutdown.send_side t)
            (Extra-keep sys (v ∷ c ∷ []) s₀ s t extra kept) (shutdown-Kept c t)

      -- From the message on, where the client's and the server's descriptors are open.
      pub exchange-Ends :
          (s : sys.State)
          → Extra sys (v ∷ c ∷ []) s₀ s
          → Ends message s₀ (λ turns. exchange sys std message fuel c v turns s)
      unfolding exchange
      exchange-Ends s extra =
          let (r, found, (kept, few)) =
            send_all_waits sys std finite laws fuel patient (length message) c message s
              (omega arith) in
          let (n, ends) = request_sent_lem s r extra kept in
          (n, λ turns enough. rw (exchange, found) (ends turns enough))
