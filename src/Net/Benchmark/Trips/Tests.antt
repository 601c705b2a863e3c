-- ===== src/Net/Benchmark/Trips/Tests.antt =====
-- A run of RoundTrips' threads on the stand-in connection, with one round before and one to be
-- measured, of one byte.
use cpp_core_systems.Prelude.{
  ◌≡◌, refl, subst, arith, Bool, true, false, ◌⊎◌, Option, none, some, List, [], ◌∷◌, Option-cases,
  inl, inr,
}
use cpp_core_systems.Net.SocketError.{no_error, has_error, matches}
use cpp_core_systems.Net.SocketError.Tests.{codes, codes-IsErrors}
use cpp_core_systems.Net.TcpSocket.{send, receive}
use cpp_core_systems.Net.SocketHelpers.Retry.{retry, some-injective}
use cpp_core_systems.Net.Link.{
  Link, link, link-IsSystem, link-SetsErrno, link_stream, link_forth, link_back, four-Sends,
  four-Receives, five-Sends, five-Receives,
}
use cpp_core_systems.Net.Benchmark.Threads.{report_errors}
use cpp_core_systems.Net.Benchmark.Threads.Sending.{none-some}
use cpp_core_systems.Net.Benchmark.Trips.{
  TripClient, TripWorker, Trips, request, store_at, trips_verdict, trip_client_step,
  trip_worker_step,
}
use cpp_core_systems.Net.Benchmark.Trips.Finish.{trips_verdict_lem}

-- A schedule: `true` is a step of the client, and `false` one of the worker.
abbrev play : List Bool → TripClient × TripWorker × Link → Option (TripClient × TripWorker × Link)
play [] r = some r
play (true ∷ picks) (c, w, s) = elim (trip_client_step 1 link codes 1 4 w c s) [
  | none ↦ none
  | some (c', t) ↦ play picks (c', w, t)
]
play (false ∷ picks) (c, w, s) = elim (trip_worker_step 1 link codes 2 1 5 w s) [
  | none ↦ none
  | some (w', t) ↦ play picks (c, w', t)
]

played :
    (picks : List Bool) (s₀ : Link) (c : TripClient) (w : TripWorker) (s : Link)
    (r : TripClient × TripWorker × Link)
    → Trips 1 link codes 1 1 1 4 5 s₀ c w s
    → play picks (c, w, s) ≡ some r
    → Trips 1 link codes 1 1 1 4 5 s₀ r.0 r.1 r.2
played [] s₀ c w s r before e =
    subst (λ q. Trips 1 link codes 1 1 1 4 5 s₀ q.0 q.1 q.2) (some-injective (c, w, s) r e) before
played (true ∷ picks) s₀ c w s r before e =
    elim (Option-cases (trip_client_step 1 link codes 1 4 w c s)) [
      | inl stuck ↦ absurd (none-some r (rw (play, stuck) at e))
      | inr ((c', t), found) ↦
          played picks s₀ c' w t r (Trips.client before found) (rw (play, found) at e)
    ]
played (false ∷ picks) s₀ c w s r before e =
    elim (Option-cases (trip_worker_step 1 link codes 2 1 5 w s)) [
      | inl stuck ↦ absurd (none-some r (rw (play, stuck) at e))
      | inr ((w', t), found) ↦
          played picks s₀ c w' t r (Trips.worker before found) (rw (play, found) at e)
    ]

abbrev quiet_link : Link
quiet_link = record { at_five = []; to_five = []; at_four = []; to_four = []; errno = 0 }

abbrev busy_link : Link
busy_link = record {
  at_five = 90 ∷ 90 ∷ [];
  to_five = [];
  at_four = 90 ∷ 90 ∷ [];
  to_four = [];
  errno = 0;
}

abbrev one_trip : List Bool
one_trip = true ∷ true ∷ false ∷ false ∷ false ∷ false ∷ true ∷ true ∷ []

abbrev after_one : TripClient × TripWorker × Link
after_one = (
  TripClient.asking none 1 0 (90 ∷ []) (90 ∷ []),
  TripWorker.reading 1 0 (90 ∷ []),
  record { at_five = 90 ∷ []; to_five = []; at_four = 90 ∷ []; to_four = []; errno = 0 },
)

warmed_up : Trips 1 link codes 1 1 1 4 5 quiet_link after_one.0 after_one.1 after_one.2
unfolding trip_client_step trip_worker_step send receive retry matches store_at
warmed_up = played one_trip quiet_link _ _ quiet_link after_one Trips.at_start refl

whole_run :
    Trips 1 link codes 1 1 1 4 5 quiet_link
      (TripClient.over no_error (90 ∷ []))
      (TripWorker.returned no_error)
      busy_link
unfolding trip_client_step trip_worker_step send receive retry matches store_at
whole_run =
    played (true ∷ true ∷ false ∷ false ∷ false ∷ false ∷ true ∷ true ∷ true ∷ true ∷ []) quiet_link
      after_one.0 after_one.1 after_one.2
      (TripClient.over no_error (90 ∷ []), TripWorker.returned no_error, busy_link) warmed_up refl

trips_verdict_example :
    (trips_verdict 1 no_error no_error (90 ∷ []) ≡ report_errors no_error no_error)
    × ((90 ∷ [] ≡ request 1) ⊎ (has_error no_error ≡ true))
trips_verdict_example =
    trips_verdict_lem link codes link_stream codes-IsErrors link-SetsErrno link-IsSystem 4 5
      (λ e. omega arith) link_forth link_back 1 four-Sends four-Receives five-Sends five-Receives 1
      1 1 quiet_link no_error no_error (90 ∷ []) busy_link (omega arith) refl refl whole_run
