-- ===== src/Net/Benchmark/Threads/Receiving.antt =====
-- What the worker of Throughput has received, and the steps that it has left.
use cpp_core_systems.Prelude.{
  ℕ, ◌+◌, ◌-◌, ◌^◌, ◌≤◌, ◌<◌, ◌≡◌, refl, sym, ◌∙◌, ap, subst, arith, true, ◌==◌, ltb, some, List,
  ◌++◌, length, length-append, append_assoc, Bool-cases, inl, inr, ◌⊎◌,
}
use cpp_core_systems.Net.SocketError.{
  Errors, no_error, has_error, io_error, SocketResult, success, failure,
}
use cpp_core_systems.Net.SocketError.Classes.{IsErrors}
use cpp_core_systems.Net.System.{System, IsSystem, SetsErrno}
use cpp_core_systems.Net.SocketHelpers.Retry.{some-injective}
use cpp_core_systems.Net.TcpSocket.{SocketShutdown, shutdown}
use cpp_core_systems.Net.Asserts.{Sound, made-Sound}
use cpp_core_systems.Net.Transfer.Step.{IsStream, Receives, Stored, receive_step}
use cpp_core_systems.Net.Benchmark.Threads.{Worker, worker_received, worker_step}
use cpp_core_systems.Net.Benchmark.Threads.Sending.{shutdown-still, none-some}

-- Where the worker stands when it has been given `n` bytes and has at most `steps` steps left.
abbrev pub Listens : (total : ℕ) → Worker → (n steps : ℕ) → Type 0
Listens total Worker.starting n steps = (n ≡ 0) × (steps ≡ total + 3)
Listens total (Worker.receiving received) n steps = (received ≡ n) × (steps ≡ total - n + 2)
Listens total (Worker.left received error) n steps =
    (received ≡ n) × (((error ≡ no_error) × (total ≤ n)) ⊎ (has_error error ≡ true)) × (steps ≡ 1)
Listens total (Worker.ended received error) n steps =
    (received ≡ n) × (((error ≡ no_error) × (total ≤ n)) ⊎ (has_error error ≡ true)) × (steps ≡ 0)

module _ (sys : System) (std : Errors) (stream : IsStream sys) where
  -- The bytes that the process has been given on a descriptor since it had been given `base`.
  abbrev pub Given : ℕ → List ℕ → List ℕ → sys.State → Type 0
  Given this base got s = stream.given s this ≡ base ++ got

  -- What the worker and the system are like after a step: the system takes no byte.
  abbrev pub WorkerAfter :
      (total this : ℕ) → (base : List ℕ) → sys.State → (steps : ℕ) → Worker × sys.State → Type 0
  WorkerAfter total this base s steps r =
      (got : List ℕ) × (left : ℕ) × (left < steps)
      × Listens total r.0 (length got) left
      × Given this base got r.1
      × ((d : ℕ) → stream.taken r.1 d ≡ stream.taken s d)

  module _ (errors : IsErrors std) (sets : SetsErrno sys) (laws : IsSystem sys) where
    worker_received_lem :
        (chunk total this received : ℕ) (base got : List ℕ) (s : sys.State)
        → received ≡ length got
        → received < total
        → total < 2 ^ 64
        → Given this base got s
        → ((more : List ℕ) (t : sys.State)
            → ((d : ℕ) → stream.taken t d ≡ stream.taken s d)
            → Given this base more t
            → length more ≤ total)
        → (r : SocketResult (List ℕ) × sys.State) → Stored sys std stream this chunk s r
        → Sound r.0
        → WorkerAfter total this base s
            (total - length got + 2)
            (worker_received sys std chunk total received r)
    worker_received_lem chunk total this received base got s same going fits given bound
          (failure error, t) (nothing, taken) sound =
        (got, 1, omega arith, (same, inr sound, refl), nothing ∙ given, taken)
    worker_received_lem chunk total this received base got s same going fits given bound
          (success bytes, t) (most, next, taken) sound =
        let all : stream.given t this ≡ base ++ (got ++ bytes) =
          next ∙ ap (λ us. us ++ bytes) given ∙ append_assoc base got bytes in
        let size = length-append got bytes in
        let room = bound (got ++ bytes) t taken all in
        elim (Bool-cases (length bytes == 0)) [
          | inl over ↦
              let none_more : length bytes ≡ 0 = ground arith in
              rw over (
                got ++ bytes,
                1,
                omega arith,
                (omega arith, inr (made-Sound sys std errors sets io_error), refl),
                all,
                taken,
              )
          | inr more ↦
              let some_more : 0 < length bytes = ground arith in
              rw more (
                got ++ bytes,
                total - length (got ++ bytes) + 2,
                omega arith,
                (omega arith, refl),
                all,
                taken,
              )
        ]

    -- Where no more than `total` bytes can be given: a step of the worker counts what it is given,
    -- and leaves it fewer steps.
    pub worker_step_lem :
        (chunk total fuel this : ℕ) (base got : List ℕ) (w : Worker) (s : sys.State) (steps : ℕ)
        → Receives sys std stream fuel this
        → total < 2 ^ 64
        → Listens total w (length got) steps
        → Given this base got s
        → ((more : List ℕ) (t : sys.State)
            → ((d : ℕ) → stream.taken t d ≡ stream.taken s d)
            → Given this base more t
            → length more ≤ total)
        → (r : Worker × sys.State) → worker_step sys std chunk total fuel this w s ≡ some r
        → WorkerAfter total this base s steps r
    unfolding worker_step
    worker_step_lem chunk total fuel this base got Worker.starting s steps receives fits
          (none_yet, count) given bound r e =
        subst (WorkerAfter total this base s steps) (some-injective (Worker.receiving 0, s) r e)
          (got, total - length got + 2, omega arith, (omega arith, refl), given, λ d. refl)
    worker_step_lem chunk total fuel this base got (Worker.receiving received) s steps receives fits
          (same, count) given bound r e =
        elim (Bool-cases (ltb received total)) [
          | inr full ↦
              subst (WorkerAfter total this base s steps)
                (some-injective (Worker.left received no_error, s) r (rw full at e))
                (got, 1, omega arith, (same, inl (refl, ground arith), refl), given, λ d. refl)
          | inl going ↦
              let (q, found, stored, sound) =
                receive_step sys std stream errors sets laws fuel this chunk s receives in
              let is : some (worker_received sys std chunk total received q) ≡ some r =
                rw (worker_step, going, found) at e in
              subst (WorkerAfter total this base s steps) (some-injective _ r is) (
                subst
                  (λ k.
                    WorkerAfter total this base s k
                      (worker_received sys std chunk total received q))
                  (sym count)
                  (worker_received_lem chunk total this received base got s same (ground arith) fits
                    given bound q stored sound))
        ]
    worker_step_lem chunk total fuel this base got (Worker.left received error) s steps receives
          fits (same, why, count) given bound r e =
        elim (Bool-cases (has_error error)) [
          | inr fine ↦
              subst (WorkerAfter total this base s steps)
                (some-injective (Worker.ended received error, s) r (rw fine at e))
                (got, 0, omega arith, (same, why, refl), given, λ d. refl)
          | inl bad ↦
              let t = (shutdown sys std this SocketShutdown.both s).1 in
              subst (WorkerAfter total this base s steps)
                (some-injective (Worker.ended received error, t) r (rw bad at e))
                (
                  got,
                  0,
                  omega arith,
                  (same, why, refl),
                  (shutdown-still sys std stream this s this).1 ∙ given,
                  λ d. (shutdown-still sys std stream this s d).0,
                )
        ]
    worker_step_lem chunk total fuel this base got (Worker.ended received error) s steps receives
          fits listens given bound r e =
        absurd (none-some r e)
