-- ===== src/Net/Benchmark/Threads/Finish.antt =====
-- How Throughput ends, in whatever order its threads are run.
use cpp_core_systems.Prelude.{
  ℕ, zero, suc, ◌+◌, ◌*◌, ◌^◌, ◌≤◌, ◌<◌, ◌≡◌, refl, sym, ◌∙◌, ap, arith, true, false, ◌==◌, ltb,
  some, List, [], ◌∷◌, ◌++◌, length, replicate, append-nil, append_assoc, append_cancel, Bool-cases,
  inl, inr, ◌⊎◌,
}
use cpp_core_systems.Net.SocketError.{SocketError, Errors, no_error, has_error}
use cpp_core_systems.Net.SocketError.Classes.{IsErrors}
use cpp_core_systems.Net.System.{System, IsSystem, SetsErrno}
use cpp_core_systems.Net.Transfer.Step.{IsStream, Sends, Receives, send_step, receive_step}
use cpp_core_systems.Net.Transfer.Echo.{IsPipe, Drained}
use cpp_core_systems.Net.Benchmark.Threads.{
  Client, Worker, Interleaving, client_step, client_sent, worker_step, worker_received,
  report_errors, verdict,
}
use cpp_core_systems.Net.Benchmark.Threads.Sending.{Stands, Stands-bound, Taken, client_step_lem}
use cpp_core_systems.Net.Benchmark.Threads.Receiving.{Listens, Given, worker_step_lem}

-- A first part of equal bytes.
pub part_equal :
    (xs ys : List ℕ) (n v : ℕ)
    → xs ++ ys ≡ replicate n v
    → (length xs ≤ n) × (xs ≡ replicate (length xs) v)
part_equal [] ys n v e = (omega arith, refl)
part_equal (x ∷ xs) ys zero v e = absurd (cc)
part_equal (x ∷ xs) ys (suc n) v e =
    let first : x ≡ v = cc in
    let rest : xs ++ ys ≡ replicate n v = cc in
    let (most, all) = part_equal xs ys n v rest in
    (omega arith, ap (λ y. y ∷ xs) first ∙ ap (λ us. v ∷ us) all)

-- Behind a server without an error that has received everything, no mismatch is reported.
no_mismatch :
    (client server : SocketError) (received total : ℕ)
    → (has_error server ≡ false → received ≡ total)
    → verdict client server received total ≡ report_errors client server
unfolding verdict report_errors
no_mismatch client server received total all = elim (Bool-cases (has_error server)) [
  | inl bad ↦ elim (Bool-cases (has_error client)) [
    | inl bad' ↦ rw (bad, bad') refl
    | inr fine' ↦ rw (bad, fine') refl
  ]
  | inr fine ↦ elim (Bool-cases (has_error client)) [
    | inl bad' ↦ rw (fine, bad') refl
    | inr fine' ↦
        let same : (received == total) ≡ true = let is = all fine in ground arith in
        rw (fine, fine', same) refl
  ]
]

module _ (sys : System) (std : Errors) (stream : IsStream sys) (errors : IsErrors std)
    (sets : SetsErrno sys) (laws : IsSystem sys) (from to : ℕ) (pipe : IsPipe sys stream from to)
    (fuel : ℕ) (sends : Sends sys std stream fuel from)
    (receives : Receives sys std stream fuel to) where
  -- As many bytes are given at most as have been taken, and the same.
  within_sent :
      (base got : List ℕ) (p : ℕ) (s : sys.State)
      → Taken sys std stream from base p s
      → Given sys std stream to base got s
      → (length got ≤ p) × (got ≡ replicate (length got) 90)
  within_sent base got p s taken given =
      let (rest, order) = pipe s in
      part_equal got rest p 90 (
        append_cancel base (got ++ rest) (replicate p 90) (
          sym (append_assoc base got rest) ∙ ap (λ us. us ++ rest) (sym given) ∙ sym order ∙ taken))

  -- The threads after `n` steps.
  abbrev Underway : (chunk chunks : ℕ) → List ℕ → ℕ → Client → Worker → sys.State → Type 0
  Underway chunk chunks base n c w s =
      (p : ℕ) × (left : ℕ) × (got : List ℕ) × (left' : ℕ) × Stands chunk (chunks * chunk) c p left
      × Taken sys std stream from base p s
      × Listens (chunks * chunk) w (length got) left'
      × Given sys std stream to base got s
      × (n + left + left' ≤ chunks * (1 + chunk) + chunks * chunk + 6)

  interleaving-Underway :
      (chunk chunks : ℕ) (s₀ : sys.State) {n : ℕ} {c : Client} {w : Worker} {s : sys.State}
      → 0 < chunk
      → chunks * chunk < 2 ^ 64
      → Drained sys std stream from to s₀
      → Interleaving sys std chunk (chunks * chunk) fuel from to s₀ n c w s
      → Underway chunk chunks (stream.taken s₀ from) n c w s
  interleaving-Underway chunk chunks s₀ pos fits drained Interleaving.start = (
    0,
    chunks * (1 + chunk) + 3,
    [],
    chunks * chunk + 3,
    (refl, (chunks, refl, refl)),
    sym (append-nil (stream.taken s₀ from)),
    (refl, refl),
    drained ∙ sym (append-nil (stream.taken s₀ from)),
    omega arith,
  )
  interleaving-Underway chunk chunks s₀ {s = t} pos fits drained
        (Interleaving.client {n} {w = w} {s = s} before e) =
      let (p, left, got, left', stands, taken, listens, given, steps) =
        interleaving-Underway chunk chunks s₀ pos fits drained before in
      let (p', fewer, less, stands', taken', same) =
        client_step_lem sys std stream errors sets laws chunk (chunks * chunk) fuel from
          (stream.taken s₀ from) w _ s p left sends fits pos stands taken _ e in
      (p', fewer, got, left', stands', taken', listens, same to ∙ given, omega arith)
  interleaving-Underway chunk chunks s₀ {s = t} pos fits drained
        (Interleaving.worker {n} {c} {w} {s = s} before e) =
      let (p, left, got, left', stands, taken, listens, given, steps) =
        interleaving-Underway chunk chunks s₀ pos fits drained before in
      let most = Stands-bound chunk (chunks * chunk) c p left stands in
      let (got', fewer, less, listens', given', same) =
        worker_step_lem sys std stream errors sets laws chunk (chunks * chunk) fuel to
          (stream.taken s₀ from) got w s left' receives fits listens given
          (λ more u kept all.
            let few = (within_sent (stream.taken s₀ from) more p u (kept from ∙ taken) all).0 in
            omega arith)
          _ e in
      (p, left, got', fewer, stands, same from ∙ taken, listens', given', omega arith)

  -- Throughput is done, or one of the threads can go on.
  abbrev pub Goes : (chunk total : ℕ) → Client → Worker → sys.State → Type 0
  Goes chunk total c w s =
      (((error : SocketError) × (c ≡ Client.joined error))
        × ((received : ℕ) × (error : SocketError) × (w ≡ Worker.ended received error)))
      ⊎ (((r : Client × sys.State) × (client_step sys std chunk total fuel from w c s ≡ some r))
          ⊎ ((r : Worker × sys.State) × (worker_step sys std chunk total fuel to w s ≡ some r)))

  client-Goes :
      (chunk total received : ℕ) (error : SocketError) (c : Client) (s : sys.State)
      → Goes chunk total c (Worker.ended received error) s
  unfolding client_step
  client-Goes chunk total received error Client.unready s = inr (inl (_, refl))
  client-Goes chunk total received error (Client.sending sent []) s = inr (inl (_, refl))
  client-Goes chunk total received error (Client.sending sent (b ∷ bytes)) s =
      let (q, found, moved, sound) =
        send_step sys std stream errors sets laws fuel from (b ∷ bytes) s sends in
      inr (inl (client_sent sys std chunk total sent (b ∷ bytes) q, rw (client_step, found) refl))
  client-Goes chunk total received error (Client.stopped bad) s = inr (inl (_, refl))
  client-Goes chunk total received error (Client.waiting bad) s = inr (inl (_, refl))
  client-Goes chunk total received error (Client.joined bad) s =
      inl ((bad, refl), (received, error, refl))

  goes : (chunk total : ℕ) (c : Client) (w : Worker) (s : sys.State) → Goes chunk total c w s
  unfolding worker_step
  goes chunk total c Worker.starting s = inr (inr (_, refl))
  goes chunk total c (Worker.receiving received) s = elim (Bool-cases (ltb received total)) [
    | inr full ↦ inr (inr ((Worker.left received no_error, s), rw full refl))
    | inl going ↦
        let (q, found, moved, sound) =
          receive_step sys std stream errors sets laws fuel to chunk s receives in
        inr (
          inr (worker_received sys std chunk total received q, rw (worker_step, going, found) refl))
  ]
  goes chunk total c (Worker.left received error) s = inr (inr (_, refl))
  goes chunk total c (Worker.ended received error) s = client-Goes chunk total received error c s

  whole :
      (total p : ℕ) (received n : ℕ) (error : SocketError)
      → received ≡ n
      → ((error ≡ no_error) × (total ≤ n)) ⊎ (has_error error ≡ true)
      → n ≤ p
      → p ≤ total
      → has_error error ≡ false
      → received ≡ total
  whole total p received n error same (inl (fine, enough)) some_sent most ok = omega arith
  whole total p received n error same (inr bad) some_sent most ok = absurd (ground arith)

  -- On a system with the laws IsSystem, SetsErrno and IsStream, with std::errc as IsErrors says,
  -- with a byte stream from the client's descriptor to the server's on which nothing is under way,
  -- and where neither send nor recv is interrupted `fuel` times in a row: in whatever order the two
  -- threads of Throughput are run for a stream of whole chunks that 64 bits can count, once both
  -- have ended, the server has an error or has counted exactly the bytes of the stream, and each
  -- byte that it was given is 0x5a; so what is reported are the errors, and never a mismatch of the
  -- counts.
  pub verdict_lem :
      (chunk chunks : ℕ) (s₀ : sys.State) (n received : ℕ) (client server : SocketError)
      (s : sys.State)
      → 0 < chunk
      → chunks * chunk < 2 ^ 64
      → Drained sys std stream from to s₀
      → Interleaving sys std chunk
          (chunks * chunk)
          fuel
          from
          to
          s₀
          n
          (Client.joined client)
          (Worker.ended received server)
          s
      → (verdict client server received (chunks * chunk) ≡ report_errors client server)
        × ((received ≡ chunks * chunk) ⊎ (has_error server ≡ true))
        × (stream.given s to ≡ stream.given s₀ to ++ replicate received 90)
  verdict_lem chunk chunks s₀ n received client server s pos fits drained run =
      let (p, left, got, left', (most, zero_left), taken, (same, why, zero_left'), given, steps) =
        interleaving-Underway chunk chunks s₀ pos fits drained run in
      let (few, equal) = within_sent (stream.taken s₀ from) got p s taken given in
      let all = whole (chunks * chunk) p received (length got) server same why few most in
      (
        no_mismatch client server received (chunks * chunk) all,
        (elim (Bool-cases (has_error server)) [ inl bad ↦ inr bad | inr fine ↦ inl (all fine) ]),
        given
            ∙ ap (λ us. stream.taken s₀ from ++ us) (equal ∙ ap (λ l. replicate l 90) (sym same))
            ∙ ap (λ us. us ++ replicate received 90) (sym drained),
      )

  -- On a system with the laws IsSystem, SetsErrno and IsStream, with std::errc as IsErrors says,
  -- with a byte stream from the client's descriptor to the server's on which nothing is under way,
  -- and where neither send nor recv is interrupted `fuel` times in a row: for a stream of whole
  -- chunks that 64 bits can count, the threads of Throughput take no more than two steps for each
  -- byte, one for each chunk and six in whatever order they are run, and wherever they have come
  -- to, both have ended or one of them can go on, so that neither waits for ever on a latch.
  pub threads_end :
      (chunk chunks : ℕ) (s₀ : sys.State) (n : ℕ) (c : Client) (w : Worker) (s : sys.State)
      → 0 < chunk
      → chunks * chunk < 2 ^ 64
      → Drained sys std stream from to s₀
      → Interleaving sys std chunk (chunks * chunk) fuel from to s₀ n c w s
      → (n ≤ chunks * (1 + chunk) + chunks * chunk + 6) × Goes chunk (chunks * chunk) c w s
  threads_end chunk chunks s₀ n c w s pos fits drained run =
      let (p, left, got, left', stands, taken, listens, given, steps) =
        interleaving-Underway chunk chunks s₀ pos fits drained run in
      (omega arith, goes chunk (chunks * chunk) c w s)
