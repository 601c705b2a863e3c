-- ===== src/Net/Benchmark/Threads/Sending.antt =====
-- What the main thread of Throughput has sent, and the steps that it has left.
use cpp_core_systems.Prelude.{
  ℕ, zero, suc, ◌+◌, ◌-◌, ◌*◌, ◌^◌, ◌%◌, ◌≤◌, ◌<◌, ◌≡◌, refl, sym, ◌∙◌, ap, subst, arith, Bool,
  true, false, ◌==◌, ltb, if◌then◌else◌, none, some, List, [], ◌∷◌, ◌++◌, length, take, drop,
  replicate, length-replicate, length-drop_sub, append_assoc, Bool-cases, inl, inr,
}
use cpp_core_systems.Net.SocketError.{Errors, has_error, SocketResult, success, failure}
use cpp_core_systems.Net.SocketError.Classes.{IsErrors}
use cpp_core_systems.Net.System.{System, IsSystem, SetsErrno}
use cpp_core_systems.Net.SocketHandle.{is_valid}
use cpp_core_systems.Net.SocketHelpers.Retry.{some-injective}
use cpp_core_systems.Net.TcpSocket.{SocketShutdown, shutdown}
use cpp_core_systems.Net.Transfer.Step.{IsStream, Sends, Moved, send_step}
use cpp_core_systems.Net.Benchmark.Stream.{replicate-plus, take-replicate}
use cpp_core_systems.Net.Benchmark.Threads.{
  Client, Worker, ready, finished, next_round, client_sent, client_step,
}

-- Where the client stands when it has sent `p` bytes and has at most `steps` steps left.
abbrev pub Stands : (chunk total : ℕ) → Client → (p steps : ℕ) → Type 0
Stands chunk total Client.unready p steps =
    (p ≡ 0) × ((chunks : ℕ) × (total ≡ chunks * chunk) × (steps ≡ chunks * (1 + chunk) + 3))
Stands chunk total (Client.sending sent bytes) p steps =
    (bytes ≡ replicate (length bytes) 90)
    × (p + length bytes ≡ sent + chunk)
    × ((chunks : ℕ) × (sent + chunk + chunks * chunk ≡ total)
        × (steps ≡ chunks * (1 + chunk) + length bytes + 3))
Stands chunk total (Client.stopped error) p steps = (p ≤ total) × (steps ≡ 2)
Stands chunk total (Client.waiting error) p steps = (p ≤ total) × (steps ≡ 1)
Stands chunk total (Client.joined error) p steps = (p ≤ total) × (steps ≡ 0)

pub Stands-bound :
    (chunk total : ℕ) (c : Client) (p steps : ℕ) → Stands chunk total c p steps → p ≤ total
Stands-bound chunk total Client.unready p steps (none_yet, _) = omega arith
Stands-bound chunk total (Client.sending sent bytes) p steps (all, so_far, (chunks, sum, _)) =
    let pos : 0 ≤ chunks * chunk = omega arith in omega arith
Stands-bound chunk total (Client.stopped error) p steps (most, _) = most
Stands-bound chunk total (Client.waiting error) p steps (most, _) = most
Stands-bound chunk total (Client.joined error) p steps (most, _) = most

pub drop-replicate :
    (k n v : ℕ) → drop k (replicate n v) ≡ replicate (length (drop k (replicate n v))) v
drop-replicate zero n v = ap (λ l. replicate l v) (sym (length-replicate n v))
drop-replicate (suc k) zero v = refl
drop-replicate (suc k) (suc n) v = drop-replicate k n v

pub none-some {ℓ} : {A : Type ℓ} (r : A) → none ≡ some r → ⊥
none-some r e = cc

pub guarded {ℓ} : {A : Type ℓ} (b : Bool) (x r : A) → (if b then some x else none) ≡ some r → x ≡ r
guarded true x r e = some-injective x r e
guarded false x r e = absurd (none-some r e)

module _ (sys : System) (std : Errors) (stream : IsStream sys) where
  -- The system has taken `p` bytes on a descriptor since it had taken `base`, all of them 0x5a.
  abbrev pub Taken : ℕ → List ℕ → ℕ → sys.State → Type 0
  Taken this base p s = stream.taken s this ≡ base ++ replicate p 90

  -- What the client and the system are like after a step: no byte is given to the process.
  abbrev pub ClientAfter :
      (chunk total this : ℕ)
      → (base : List ℕ) → sys.State
      → (steps : ℕ) → Client × sys.State
      → Type 0
  ClientAfter chunk total this base s steps r =
      (p : ℕ) × (left : ℕ) × (left < steps)
      × Stands chunk total r.0 p left
      × Taken this base p r.1
      × ((d : ℕ) → stream.given r.1 d ≡ stream.given s d)

  pub shutdown-still :
      (this : ℕ) (s : sys.State) (d : ℕ)
      → (stream.taken (shutdown sys std this SocketShutdown.both s).1 d ≡ stream.taken s d)
        × (stream.given (shutdown sys std this SocketShutdown.both s).1 d ≡ stream.given s d)
  unfolding shutdown
  shutdown-still this s d = elim (Bool-cases (is_valid this)) [
    | inr free ↦ rw free (refl, refl)
    | inl held ↦ elim (Bool-cases (sys.shutdown this sys.shut_rdwr s).0) [
      | inl done ↦
          rw (held, done)
            (
              stream.shutdown_takes this sys.shut_rdwr s d,
              stream.shutdown_gives this sys.shut_rdwr s d,
            )
      | inr bad ↦
          rw (held, bad)
            (
              stream.shutdown_takes this sys.shut_rdwr s d,
              stream.shutdown_gives this sys.shut_rdwr s d,
            )
    ]
  ]

  next_round_lem :
      (chunk total this : ℕ) (base : List ℕ) (s : sys.State) (p sent chunks : ℕ)
      → total < 2 ^ 64
      → 0 < chunk
      → p ≡ sent
      → sent + chunks * chunk ≡ total
      → Taken this base p s
      → ClientAfter chunk total this base s
          (chunks * (1 + chunk) + 3)
          (next_round sys std chunk total sent, s)
  next_round_lem chunk total this base s p sent zero fits pos same sum taken =
      let stop : ltb sent total ≡ false = ground arith in
      rw stop (p, 2, omega arith, (omega arith, refl), taken, λ d. refl)
  next_round_lem chunk total this base s p sent (suc k) fits pos same sum taken =
      let more : suc k * chunk ≡ chunk + k * chunk = omega arith in
      let go : ltb sent total ≡ true = ground arith in
      let size : length {A = ℕ} (replicate chunk 90) ≡ chunk = length-replicate chunk 90 in
      rw go (
        p,
        k * (1 + chunk) + chunk + 3,
        omega arith,
        (ap (λ l. replicate l 90) (sym size), omega arith, (k, omega arith, omega arith)),
        taken,
        λ d. refl,
      )

  module _ (errors : IsErrors std) (sets : SetsErrno sys) (laws : IsSystem sys) where
    client_sent_lem :
        (chunk total this : ℕ) (base : List ℕ) (s : sys.State) (p sent chunks b : ℕ)
        (bytes : List ℕ)
        → b ∷ bytes ≡ replicate (length (b ∷ bytes)) 90
        → p + length (b ∷ bytes) ≡ sent + chunk
        → sent + chunk + chunks * chunk ≡ total
        → Taken this base p s
        → (r : SocketResult ℕ × sys.State) → Moved sys std stream this (b ∷ bytes) s r
        → ClientAfter chunk total this base s
            (chunks * (1 + chunk) + length (b ∷ bytes) + 3)
            (client_sent sys std chunk total sent (b ∷ bytes) r)
    client_sent_lem chunk total this base s p sent chunks b bytes all so_far sum taken
          (failure error, t) (same, given) =
        (p, 2, omega arith, (omega arith, refl), same ∙ taken, given)
    client_sent_lem chunk total this base s p sent chunks b bytes all so_far sum taken
          (success count, t) (most, more, given) =
        let n = length (b ∷ bytes) in
        let sent_now : stream.taken t this ≡ base ++ replicate (p + count) 90 =
          more
          ∙ ap (λ us. us ++ take count (b ∷ bytes)) taken
          ∙ ap (λ us. (base ++ replicate p 90) ++ take count us) all
          ∙ ap (λ us. (base ++ replicate p 90) ++ us) (take-replicate count n 90 most)
          ∙ append_assoc base (replicate p 90) (replicate count 90)
          ∙ ap (λ us. base ++ us) (replicate-plus p count 90) in
        let size : length (drop count (b ∷ bytes)) ≡ n - count =
          length-drop_sub count (b ∷ bytes) in
        let rest : drop count (b ∷ bytes) ≡ replicate (length (drop count (b ∷ bytes))) 90 =
          ap (drop count) all
          ∙ drop-replicate count n 90
          ∙ ap (λ us. replicate (length (drop count us)) 90) (sym all) in
        elim (Bool-cases (count == 0)) [
          | inl nothing ↦
              rw nothing (p + count, 2, omega arith, (omega arith, refl), sent_now, given)
          | inr something ↦
              let some_sent : 0 < count = ground arith in
              rw something (
                p + count,
                chunks * (1 + chunk) + length (drop count (b ∷ bytes)) + 3,
                omega arith,
                (rest, omega arith, (chunks, sum, refl)),
                sent_now,
                given,
              )
        ]

    -- A step of the client sends 0x5a only, and leaves it fewer steps.
    pub client_step_lem :
        (chunk total fuel this : ℕ) (base : List ℕ) (w : Worker) (c : Client) (s : sys.State)
        (p steps : ℕ)
        → Sends sys std stream fuel this
        → total < 2 ^ 64
        → 0 < chunk
        → Stands chunk total c p steps
        → Taken this base p s
        → (r : Client × sys.State) → client_step sys std chunk total fuel this w c s ≡ some r
        → ClientAfter chunk total this base s steps r
    unfolding client_step
    client_step_lem chunk total fuel this base w Client.unready s p steps sends fits pos
          (none_yet, (chunks, sum, count)) taken r e =
        let after = ClientAfter chunk total this base s in
        subst (after steps) (guarded (ready w) (next_round sys std chunk total 0, s) r e) (
          subst (λ k. after k (next_round sys std chunk total 0, s)) (sym count)
            (next_round_lem chunk total this base s p 0 chunks fits pos none_yet (omega arith)
              taken))
    client_step_lem chunk total fuel this base w (Client.sending sent []) s p steps sends fits pos
          (all, so_far, (chunks, sum, count)) taken r e =
        let next : (sent + chunk) % 2 ^ 64 ≡ sent + chunk = omega arith in
        let (q, left, fewer, stands, took, given) =
          next_round_lem chunk total this base s p ((sent + chunk) % 2 ^ 64) chunks fits pos
            (omega arith) (omega arith) taken in
        subst (ClientAfter chunk total this base s steps) (some-injective _ r e)
          (q, left, omega arith, stands, took, given)
    client_step_lem chunk total fuel this base w (Client.sending sent (b ∷ bytes)) s p steps sends
          fits pos (all, so_far, (chunks, sum, count)) taken r e =
        let (q, found, moved, sound) =
          send_step sys std stream errors sets laws fuel this (b ∷ bytes) s sends in
        let is : some (client_sent sys std chunk total sent (b ∷ bytes) q) ≡ some r =
          rw (client_step, found) at e in
        subst (ClientAfter chunk total this base s steps) (some-injective _ r is) (
          subst
            (λ k.
              ClientAfter chunk total this base s k
                (client_sent sys std chunk total sent (b ∷ bytes) q))
            (sym count)
            (client_sent_lem chunk total this base s p sent chunks b bytes all so_far sum taken q
              moved))
    client_step_lem chunk total fuel this base w (Client.stopped error) s p steps sends fits pos
          (most, count) taken r e =
        elim (Bool-cases (has_error error)) [
          | inr fine ↦
              subst (ClientAfter chunk total this base s steps)
                (some-injective (Client.waiting error, s) r (rw fine at e))
                (p, 1, omega arith, (most, refl), taken, λ d. refl)
          | inl bad ↦
              let t = (shutdown sys std this SocketShutdown.both s).1 in
              subst (ClientAfter chunk total this base s steps)
                (some-injective (Client.waiting error, t) r (rw bad at e))
                (
                  p,
                  1,
                  omega arith,
                  (most, refl),
                  (shutdown-still this s this).0 ∙ taken,
                  λ d. (shutdown-still this s d).1,
                )
        ]
    client_step_lem chunk total fuel this base w (Client.waiting error) s p steps sends fits pos
          (most, count) taken r e =
        subst (ClientAfter chunk total this base s steps)
          (guarded (finished w) (Client.joined error, s) r e)
          (p, 0, omega arith, (most, refl), taken, λ d. refl)
    client_step_lem chunk total fuel this base w (Client.joined error) s p steps sends fits pos
          stands taken r e =
        absurd (none-some r e)
