-- ===== src/Net/Benchmark/Trips/Turns.antt =====
-- The steps of the two threads of RoundTrips.
use cpp_core_systems.Prelude.{
  ℕ, ◌+◌, ◌-◌, ◌^◌, ◌%◌, ◌≡◌, ◌≢◌, sym, ◌∙◌, ap, subst, arith, ◌==◌, ltb, leb, Option, some, List,
  [], ◌∷◌, length, replicate, Bool-cases, inl, inr,
}
use cpp_core_systems.Net.SocketError.{Errors, has_error, io_error, SocketResult, success, failure}
use cpp_core_systems.Net.SocketError.Classes.{IsErrors}
use cpp_core_systems.Net.System.{System, IsSystem, SetsErrno}
use cpp_core_systems.Net.SocketHelpers.Retry.{some-injective}
use cpp_core_systems.Net.TcpSocket.{SocketShutdown, shutdown}
use cpp_core_systems.Net.Asserts.{Sound, made-Sound}
use cpp_core_systems.Net.Transfer.Step.{
  IsStream, Sends, Receives, Moved, Stored, send_step, receive_step,
}
use cpp_core_systems.Net.Transfer.Echo.{IsPipe}
use cpp_core_systems.Net.Benchmark.Threads.Sending.{shutdown-still, none-some, guarded}
use cpp_core_systems.Net.Benchmark.Trips.{
  TripClient, TripWorker, has_returned, next_trip, next_echo, asked, heard, trip_client_step,
  answered, been_read, trip_worker_step,
}
use cpp_core_systems.Net.Benchmark.Trips.Ways.{
  Same, Filled, store_at-Filled, Way, Way-same, Way-sent, Way-received, send_others, receive_others,
}
use cpp_core_systems.Net.Benchmark.Trips.Stands.{
  Asks, Answers, drop-Same, whole-Filled, next_trip-Asks, empty-Filled,
}

module _ (sys : System) (std : Errors) (stream : IsStream sys) (errors : IsErrors std)
    (sets : SetsErrno sys) (laws : IsSystem sys) (size fuel this other : ℕ) (apart : this ≢ other)
    (out : List ℕ) (in_ : List ℕ) (pipe : IsPipe sys stream other this)
    (sends : Sends sys std stream fuel this) (receives : Receives sys std stream fuel this) where
  -- Both ways, seen from one end.
  abbrev pub Both : sys.State → Type 0
  Both s = Way sys std stream this other out s × Way sys std stream other this in_ s

  Both-shutdown : (s : sys.State) → Both s → Both (shutdown sys std this SocketShutdown.both s).1
  Both-shutdown s (forth, back) =
      let still = shutdown-still sys std stream this s in
      (
        Way-same sys std stream this other out s _ forth (still this).0 (still other).1,
        Way-same sys std stream other this in_ s _ back (still other).0 (still this).1,
      )

  Both-sent :
      (bytes : List ℕ) (s : sys.State) (r : SocketResult ℕ × sys.State)
      → Both s
      → Same bytes
      → Moved sys std stream this bytes s r
      → stream.taken r.1 other ≡ stream.taken s other
      → Both r.1
  Both-sent bytes s (failure error, t) (forth, back) same (taken, given) others = (
    Way-same sys std stream this other out s t forth taken (given other),
    Way-same sys std stream other this in_ s t back others (given this),
  )
  Both-sent bytes s (success count, t) (forth, back) same (most, more, given) others = (
    Way-sent sys std stream this other out bytes count s t forth same most more (given other),
    Way-same sys std stream other this in_ s t back others (given this),
  )

  -- What has been received is 0x5a too.
  abbrev AllSame : SocketResult (List ℕ) → Type 0
  AllSame (failure error) = Unit {0}
  AllSame (success bytes) = Same bytes

  Both-received :
      (room : ℕ) (s : sys.State) (r : SocketResult (List ℕ) × sys.State)
      → Both s
      → Stored sys std stream this room s r
      → stream.given r.1 other ≡ stream.given s other
      → Both r.1 × AllSame r.0
  Both-received room s (failure error, t) (forth, back) (given, taken) others = (
    (
      Way-same sys std stream this other out s t forth (taken this) others,
      Way-same sys std stream other this in_ s t back (taken other) given,
    ),
    tt,
  )
  Both-received room s (success bytes, t) (forth, back) (most, more, taken) others =
      let (back', same) =
        Way-received sys std stream other this in_ bytes s t pipe back (taken other) more in
      ((Way-same sys std stream this other out s t forth (taken this) others, back'), same)

  asked-Asks :
      (later : Option ℕ) (count index b : ℕ) (bytes reply : List ℕ) (s : sys.State)
      (r : SocketResult ℕ × sys.State)
      → Same (b ∷ bytes)
      → length reply ≡ size
      → Sound r.0
      → Both r.1
      → Asks size (asked size sys std later count index (b ∷ bytes) reply r).0
        × Both (asked size sys std later count index (b ∷ bytes) reply r).1
  asked-Asks later count index b bytes reply s (failure error, t) same full sound both =
      (inr sound, both)
  asked-Asks later count index b bytes reply s (success n, t) same full sound both =
      elim (Bool-cases (n == 0)) [
        | inl stuck ↦ rw stuck (inr (made-Sound sys std errors sets io_error), both)
        | inr going ↦ rw going ((drop-Same n (b ∷ bytes) same, full), both)
      ]

  heard-Asks :
      (later : Option ℕ) (count index filled : ℕ) (reply : List ℕ) (s : sys.State)
      (r : SocketResult (List ℕ) × sys.State)
      → Filled size filled reply
      → Stored sys std stream this (size - filled) s r
      → AllSame r.0
      → Sound r.0
      → Both r.1
      → Asks size (heard size sys std later count index filled reply r).0
        × Both (heard size sys std later count index filled reply r).1
  heard-Asks later count index filled reply s (failure error, t) part stored same sound both =
      (inr sound, both)
  heard-Asks later count index filled reply s (success bytes, t) part (most, more, taken) same sound
        both =
      elim (Bool-cases (length bytes == 0)) [
        | inl stuck ↦ rw stuck (inr (made-Sound sys std errors sets io_error), both)
        | inr going ↦ rw going (store_at-Filled size filled bytes reply part same most, both)
      ]

  -- A step of the client at this end.
  pub client-Asks :
      (w : TripWorker) (c : TripClient) (s : sys.State) (r : TripClient × sys.State)
      → Asks size c
      → Both s
      → trip_client_step size sys std fuel this w c s ≡ some r
      → Asks size r.0 × Both r.1
  unfolding trip_client_step
  client-Asks w (TripClient.asking later count index [] reply) s r (same, full) both e =
      subst (λ q. Asks size q.0 × Both q.1) (some-injective _ r e)
        (empty-Filled size reply full, both)
  client-Asks w (TripClient.asking later count index (b ∷ bytes) reply) s r (same, full) both e =
      let (q, found, moved, sound) =
        send_step sys std stream errors sets laws fuel this (b ∷ bytes) s sends in
      let others =
        send_others sys std stream fuel this (b ∷ bytes) s other (λ i. apart (sym i)) q found in
      subst (λ q. Asks size q.0 × Both q.1)
        (some-injective (asked size sys std later count index (b ∷ bytes) reply q) r
          (rw (trip_client_step, found) at e))
        (asked-Asks later count index b bytes reply s q same full sound
          (Both-sent (b ∷ bytes) s q both same moved others))
  client-Asks w (TripClient.hearing later count index filled reply) s r part both e =
      elim (Bool-cases (leb size filled)) [
        | inl enough ↦
            subst (λ q. Asks size q.0 × Both q.1)
              (some-injective (next_trip size later count ((index + 1) % 2 ^ 64) reply, s) r
                (rw enough at e))
              (
                next_trip-Asks size later count ((index + 1) % 2 ^ 64) reply
                    (whole-Filled size filled reply part (ground arith)) part.1,
                both,
              )
        | inr short ↦
            let (q, found, stored, sound) =
              receive_step sys std stream errors sets laws fuel this (size - filled) s receives in
            let others =
              receive_others sys std stream fuel this (size - filled) s other (λ i. apart (sym i)) q
                found in
            let (both', same) = Both-received (size - filled) s q both stored others in
            subst (λ q. Asks size q.0 × Both q.1)
              (some-injective (heard size sys std later count index filled reply q) r
                (rw (trip_client_step, short, found) at e))
              (heard-Asks later count index filled reply s q part stored same sound both')
      ]
  client-Asks w (TripClient.halted error reply) s r why both e =
      elim (Bool-cases (has_error error)) [
        | inr fine ↦
            subst (λ q. Asks size q.0 × Both q.1)
              (some-injective (TripClient.joining error reply, s) r (rw fine at e)) (why, both)
        | inl bad ↦
            subst (λ q. Asks size q.0 × Both q.1)
              (some-injective
                (TripClient.joining error reply, (shutdown sys std this SocketShutdown.both s).1) r
                (rw bad at e))
              (why, Both-shutdown s both)
      ]
  client-Asks w (TripClient.joining error reply) s r why both e =
      subst (λ q. Asks size q.0 × Both q.1)
        (guarded (has_returned w) (TripClient.over error reply, s) r e) (why, both)
  client-Asks w (TripClient.over error reply) s r why both e = absurd (none-some r e)

  answered-Answers :
      (index b : ℕ) (bytes echo : List ℕ) (r : SocketResult ℕ × sys.State)
      → Same (b ∷ bytes)
      → length echo ≡ size
      → Both r.1
      → Answers size (answered size sys std index (b ∷ bytes) echo r).0
        × Both (answered size sys std index (b ∷ bytes) echo r).1
  answered-Answers index b bytes echo (failure error, t) same full both = (tt, both)
  answered-Answers index b bytes echo (success n, t) same full both = elim (Bool-cases (n == 0)) [
    | inl stuck ↦ rw stuck (tt, both)
    | inr going ↦ rw going ((drop-Same n (b ∷ bytes) same, full), both)
  ]

  been_read-Answers :
      (index filled : ℕ) (echo : List ℕ) (s : sys.State) (r : SocketResult (List ℕ) × sys.State)
      → Filled size filled echo
      → Stored sys std stream this (size - filled) s r
      → AllSame r.0
      → Both r.1
      → Answers size (been_read size sys std index filled echo r).0
        × Both (been_read size sys std index filled echo r).1
  been_read-Answers index filled echo s (failure error, t) part stored same both = (tt, both)
  been_read-Answers index filled echo s (success bytes, t) part (most, more, taken) same both =
      elim (Bool-cases (length bytes == 0)) [
        | inl stuck ↦ rw stuck (tt, both)
        | inr going ↦ rw going (store_at-Filled size filled bytes echo part same most, both)
      ]

  pub next_echo-Answers :
      (trips index : ℕ) (echo : List ℕ)
      → length echo ≡ size
      → Answers size (next_echo size trips index echo)
  next_echo-Answers trips index echo full = elim (Bool-cases (ltb index trips)) [
    | inl more ↦ rw more (empty-Filled size echo full)
    | inr done ↦ rw done tt
  ]

  -- A step of the worker at this end.
  pub worker-Answers :
      (trips : ℕ) (w : TripWorker) (s : sys.State) (r : TripWorker × sys.State)
      → Answers size w
      → Both s
      → trip_worker_step size sys std trips fuel this w s ≡ some r
      → Answers size r.0 × Both r.1
  unfolding trip_worker_step
  worker-Answers trips (TripWorker.reading index filled echo) s r part both e =
      elim (Bool-cases (leb size filled)) [
        | inl enough ↦
            let whole = whole-Filled size filled echo part (ground arith) in
            subst (λ q. Answers size q.0 × Both q.1)
              (some-injective (TripWorker.answering index echo echo, s) r (rw enough at e))
              ((whole ∙ ap (λ n. replicate n 90) (sym part.1), part.1), both)
        | inr short ↦
            let (q, found, stored, sound) =
              receive_step sys std stream errors sets laws fuel this (size - filled) s receives in
            let others =
              receive_others sys std stream fuel this (size - filled) s other (λ i. apart (sym i)) q
                found in
            let (both', same) = Both-received (size - filled) s q both stored others in
            subst (λ q. Answers size q.0 × Both q.1)
              (some-injective (been_read size sys std index filled echo q) r
                (rw (trip_worker_step, short, found) at e))
              (been_read-Answers index filled echo s q part stored same both')
      ]
  worker-Answers trips (TripWorker.answering index [] echo) s r (same, full) both e =
      subst (λ q. Answers size q.0 × Both q.1) (some-injective _ r e)
        (next_echo-Answers trips ((index + 1) % 2 ^ 64) echo full, both)
  worker-Answers trips (TripWorker.answering index (b ∷ bytes) echo) s r (same, full) both e =
      let (q, found, moved, sound) =
        send_step sys std stream errors sets laws fuel this (b ∷ bytes) s sends in
      let others =
        send_others sys std stream fuel this (b ∷ bytes) s other (λ i. apart (sym i)) q found in
      subst (λ q. Answers size q.0 × Both q.1)
        (some-injective (answered size sys std index (b ∷ bytes) echo q) r
          (rw (trip_worker_step, found) at e))
        (answered-Answers index b bytes echo q same full
          (Both-sent (b ∷ bytes) s q both same moved others))
  worker-Answers trips (TripWorker.broken error) s r why both e =
      subst (λ q. Answers size q.0 × Both q.1) (some-injective _ r e) (tt, Both-shutdown s both)
  worker-Answers trips (TripWorker.returned error) s r why both e = absurd (none-some r e)
