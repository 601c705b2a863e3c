-- ===== src/Net/Benchmark/Trips/Finish.antt =====
-- How RoundTrips ends, in whatever order its threads are run.
use cpp_core_systems.Prelude.{
  ℕ, ◌+◌, ◌^◌, ◌%◌, ◌<◌, ◌≡◌, ◌≢◌, refl, sym, ◌∙◌, ap, arith, true, false, ltb, some, List, [], ◌∷◌,
  length, replicate, length-replicate, append-nil, Bool-cases, inl, inr, ◌⊎◌,
}
use cpp_core_systems.Net.SocketError.{SocketError, Errors, no_error, has_error}
use cpp_core_systems.Net.SocketError.Classes.{IsErrors}
use cpp_core_systems.Net.System.{System, IsSystem, SetsErrno}
use cpp_core_systems.Net.Transfer.Step.{IsStream, Sends, Receives}
use cpp_core_systems.Net.Transfer.Echo.{IsPipe, Drained}
use cpp_core_systems.Net.Loopback.{same_text}
use cpp_core_systems.Net.Benchmark.Threads.{report_errors}
use cpp_core_systems.Net.Benchmark.Trips.{
  TripClient, TripWorker, Trips, request, next_trip, next_echo, trips_verdict,
}
use cpp_core_systems.Net.Benchmark.Trips.Ways.{Way}
use cpp_core_systems.Net.Benchmark.Trips.Stands.{Asks, Answers, request-Same}
use cpp_core_systems.Net.Benchmark.Trips.Turns.{client-Asks, worker-Answers, next_echo-Answers}

same_text_refl : (bytes : List ℕ) → same_text bytes bytes ≡ true
same_text_refl [] = refl
same_text_refl (b ∷ bytes) = let rest = same_text_refl bytes in ground arith

-- Behind a client without an error that has the request back, no mismatch is reported.
no_payload_mismatch :
    (size : ℕ) (client server : SocketError) (reply : List ℕ)
    → (has_error client ≡ false → reply ≡ request size)
    → trips_verdict size client server reply ≡ report_errors client server
unfolding trips_verdict report_errors
no_payload_mismatch size client server reply all = elim (Bool-cases (has_error client)) [
  | inl bad ↦ elim (Bool-cases (has_error server)) [
    | inl bad' ↦ rw (bad, bad') refl
    | inr fine' ↦ rw (bad, fine') refl
  ]
  | inr fine ↦ elim (Bool-cases (has_error server)) [
    | inl bad' ↦ rw (fine, bad') refl
    | inr fine' ↦
        let same : same_text reply (request size) ≡ true =
          ap (λ us. same_text us (request size)) (all fine) ∙ same_text_refl (request size) in
        rw (fine, fine', same) refl
  ]
]

module _ (sys : System) (std : Errors) (stream : IsStream sys) (errors : IsErrors std)
    (sets : SetsErrno sys) (laws : IsSystem sys) (from to : ℕ) (apart : from ≢ to)
    (forth : IsPipe sys stream from to) (back : IsPipe sys stream to from) (fuel : ℕ)
    (sends : Sends sys std stream fuel from) (receives : Receives sys std stream fuel from)
    (sends' : Sends sys std stream fuel to) (receives' : Receives sys std stream fuel to) where
  -- The threads after some steps.
  abbrev Standing : (size : ℕ) → (out in_ : List ℕ) → TripClient → TripWorker → sys.State → Type 0
  Standing size out in_ c w s =
      Asks size c
      × Answers size w
      × Way sys std stream from to out s
      × Way sys std stream to from in_ s

  start-Standing :
      (size warmup rounds : ℕ) (s₀ : sys.State)
      → 0 < warmup
      → Drained sys std stream from to s₀
      → Drained sys std stream to from s₀
      → Standing size
          (stream.taken s₀ from)
          (stream.taken s₀ to)
          (next_trip size (some rounds) warmup 0 (replicate size 0))
          (next_echo size ((warmup + rounds) % 2 ^ 64) 0 (replicate size 0))
          s₀
  start-Standing size warmup rounds s₀ warm drained drained' =
      let more : ltb 0 warmup ≡ true = ground arith in
      let zeros : length {A = ℕ} (replicate size 0) ≡ size = length-replicate size 0 in
      (
        rw more (request-Same size, zeros),
        next_echo-Answers sys std stream errors sets laws size fuel to from (λ e. apart (sym e)) []
            [] forth sends' receives' ((warmup + rounds) % 2 ^ 64) 0 (replicate size 0) zeros,
        (
          0,
          [],
          sym (append-nil (stream.taken s₀ from)),
          drained ∙ sym (append-nil (stream.taken s₀ from)),
        ),
        (
          0,
          [],
          sym (append-nil (stream.taken s₀ to)),
          drained' ∙ sym (append-nil (stream.taken s₀ to)),
        ),
      )

  Trips-Standing :
      (size warmup rounds : ℕ) (s₀ : sys.State) {c : TripClient} {w : TripWorker} {s : sys.State}
      → 0 < warmup
      → Drained sys std stream from to s₀
      → Drained sys std stream to from s₀
      → Trips size sys std warmup rounds fuel from to s₀ c w s
      → Standing size (stream.taken s₀ from) (stream.taken s₀ to) c w s
  Trips-Standing size warmup rounds s₀ warm drained drained' Trips.at_start =
      start-Standing size warmup rounds s₀ warm drained drained'
  Trips-Standing size warmup rounds s₀ warm drained drained'
        (Trips.client {c} {c'} {w} {s} {t} before e) =
      let (asks, answers, out, in_) =
        Trips-Standing size warmup rounds s₀ warm drained drained' before in
      let (asks', (out', in')) =
        client-Asks sys std stream errors sets laws size fuel from to apart (stream.taken s₀ from)
          (stream.taken s₀ to) back sends receives w c s (c', t) asks (out, in_) e in
      (asks', answers, out', in')
  Trips-Standing size warmup rounds s₀ warm drained drained'
        (Trips.worker {c} {w} {w'} {s} {t} before e) =
      let (asks, answers, out, in_) =
        Trips-Standing size warmup rounds s₀ warm drained drained' before in
      let (answers', (in', out')) =
        worker-Answers sys std stream errors sets laws size fuel to from (λ i. apart (sym i))
          (stream.taken s₀ to) (stream.taken s₀ from) forth sends' receives'
          ((warmup + rounds) % 2 ^ 64) w s (w', t) answers (in_, out) e in
      (asks, answers', out', in')

  fine_reply :
      (size : ℕ) (error : SocketError) (reply : List ℕ)
      → ((error ≡ no_error) × (reply ≡ replicate size 90)) ⊎ (has_error error ≡ true)
      → has_error error ≡ false
      → reply ≡ request size
  fine_reply size error reply (inl (fine, whole)) ok = whole
  fine_reply size error reply (inr bad) ok = absurd (ground arith)

  -- On a system with the laws IsSystem, SetsErrno and IsStream, with std::errc as IsErrors says,
  -- with a byte stream each way between two different descriptors on which nothing is under way,
  -- and where neither send nor recv on them is interrupted `fuel` times in a row: in whatever order
  -- the two threads of RoundTrips are run, for any size of the message, any number of measured
  -- rounds and at least one round before them, once both have ended, the client has an error or its
  -- reply is the request; so what is reported are the errors, and never a mismatch of the payload.
  pub trips_verdict_lem :
      (size warmup rounds : ℕ) (s₀ : sys.State) (client server : SocketError) (reply : List ℕ)
      (s : sys.State)
      → 0 < warmup
      → Drained sys std stream from to s₀
      → Drained sys std stream to from s₀
      → Trips size sys std warmup rounds fuel from to s₀
          (TripClient.over client reply)
          (TripWorker.returned server)
          s
      → (trips_verdict size client server reply ≡ report_errors client server)
        × ((reply ≡ request size) ⊎ (has_error client ≡ true))
  trips_verdict_lem size warmup rounds s₀ client server reply s warm drained drained' run =
      let (why, answers, out, in_) =
        Trips-Standing size warmup rounds s₀ warm drained drained' run in
      (
        no_payload_mismatch size client server reply (fine_reply size client reply why),
        (elim why [ inl (fine, whole) ↦ inl whole | inr bad ↦ inr bad ]),
      )
