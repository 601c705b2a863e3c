-- ===== src/Net/Benchmark/Stream.antt =====
-- What Throughput sends.
use cpp_core_systems.Prelude.{
  ℕ, zero, suc, ◌+◌, ◌*◌, ◌^◌, ◌%◌, ◌≤◌, ◌<◌, ◌≡◌, refl, sym, ◌∙◌, ap, arith, true, false, ltb,
  some, List, ◌∷◌, ◌++◌, length, take, take-all, replicate, length-replicate, append-nil,
  append_assoc, inl, inr, ◌⊎◌,
}
use native.Mathlib.Nat.{zero-add, suc-add}
use cpp_core_systems.Net.SocketError.{SocketError, Errors, no_error, has_error}
use cpp_core_systems.Net.SocketError.Classes.{IsErrors}
use cpp_core_systems.Net.System.{System, IsSystem, SetsErrno}
use cpp_core_systems.Net.Transfer.Step.{IsStream, Sends}
use cpp_core_systems.Net.Transfer.Whole.{send_all_lem}
use cpp_core_systems.Net.Benchmark.{send_stream, arguments, chunk_bytes, total_bytes}
use cpp_core_systems.Net.Benchmark.Arguments.{arguments_lem}

pub replicate-plus : (m n v : ℕ) → replicate m v ++ replicate n v ≡ replicate (m + n) v
replicate-plus zero n v = rw zero-add refl
replicate-plus (suc m) n v = rw suc-add (ap (λ us. v ∷ us) (replicate-plus m n v))

pub take-replicate : (k n v : ℕ) → k ≤ n → take k (replicate n v) ≡ replicate k v
take-replicate zero n v b = refl
take-replicate (suc k) zero v b = absurd (omega arith)
take-replicate (suc k) (suc n) v b = ap (λ us. v ∷ us) (take-replicate k n v (omega arith))

length-buffer : (chunk : ℕ) → length {A = ℕ} (replicate chunk 90) ≡ chunk
length-buffer chunk = length-replicate chunk 90

fits_rounds : (chunk rounds : ℕ) → chunk ≤ rounds → length {A = ℕ} (replicate chunk 90) ≤ rounds
fits_rounds chunk rounds enough = omega (arith, length-buffer chunk)

module _ (sys : System) (std : Errors) (stream : IsStream sys) where
  -- The system has taken `n` bytes more, all of them 0x5a, and all that were to be sent exactly if
  -- there is no error.
  abbrev pub StreamSent : ℕ → (size : ℕ) → sys.State → SocketError × sys.State → Type 0
  StreamSent this size s r =
      (n : ℕ) × (stream.taken r.1 this ≡ stream.taken s this ++ replicate n 90)
      × (((r.0 ≡ no_error) × (n ≡ size)) ⊎ ((has_error r.0 ≡ true) × (n < size)))

  module _ (errors : IsErrors std) (sets : SetsErrno sys) (laws : IsSystem sys) where
    chunks_count :
        (error : SocketError) (n chunk left : ℕ)
        → ((error ≡ no_error) × (n ≡ left * chunk))
          ⊎ ((has_error error ≡ true) × (n < left * chunk))
        → ((error ≡ no_error) × (chunk + n ≡ suc left * chunk))
          ⊎ ((has_error error ≡ true) × (chunk + n < suc left * chunk))
    chunks_count error n chunk left (inl (fine, whole)) = inl (fine, omega arith)
    chunks_count error n chunk left (inr (bad, part)) = inr (bad, omega arith)

    pub send_stream_lem :
        (chunk chunks rounds fuel this total sent left : ℕ) (s : sys.State)
        → Sends sys std stream fuel this
        → 0 < chunk
        → chunk ≤ rounds
        → total < 2 ^ 64
        → sent + left * chunk ≡ total
        → left ≤ chunks
        → (r : SocketError × sys.State) × (send_stream sys std chunk chunks rounds fuel this total
              sent s
            ≡ some r)
          × StreamSent this (left * chunk) s r
    unfolding send_stream
    send_stream_lem chunk zero rounds fuel this total sent zero s sends pos enough fits sum most =
        let done : ltb sent total ≡ false = ground arith in
        (
          (no_error, s),
          rw done refl,
          (0, sym (append-nil (stream.taken s this)), inl (refl, omega arith)),
        )
    send_stream_lem chunk (suc k) rounds fuel this total sent zero s sends pos enough fits sum
          most =
        let done : ltb sent total ≡ false = ground arith in
        (
          (no_error, s),
          rw done refl,
          (0, sym (append-nil (stream.taken s this)), inl (refl, omega arith)),
        )
    send_stream_lem chunk zero rounds fuel this total sent (suc left) s sends pos enough fits sum
          most =
        absurd (omega arith)
    send_stream_lem chunk (suc k) rounds fuel this total sent (suc left) s sends pos enough fits sum
          most =
        let more : suc left * chunk ≡ chunk + left * chunk = omega arith in
        let going : ltb sent total ≡ true = ground arith in
        let next : (sent + chunk) % 2 ^ 64 ≡ sent + chunk = omega arith in
        let (r, found, (n, taken, given, ends)) =
          send_all_lem sys std stream errors sets laws rounds fuel this (replicate chunk 90) s sends
            (fits_rounds chunk rounds enough) in
        elim ends [
          | inr (bad, part) ↦ (
            r,
            rw (send_stream, going, found, bad) refl,
            (
              n,
              taken
                  ∙ ap (λ us. stream.taken s this ++ us)
                      (take-replicate n chunk 90 (omega (arith, length-buffer chunk))),
              inr (bad, omega (arith, length-buffer chunk)),
            ),
          )
          | inl (fine, whole) ↦
              let no_code : has_error r.0 ≡ false = ap has_error fine in
              let (q, found', (n', taken', ends')) =
                send_stream_lem chunk k rounds fuel this total ((sent + chunk) % 2 ^ 64) left r.1
                  sends pos enough fits (omega arith) (omega arith) in
              (
                q,
                rw (send_stream, going, found, no_code) found',
                (
                  chunk + n',
                  taken'
                      ∙ ap (λ us. us ++ replicate n' 90)
                          (taken
                            ∙ ap (λ us. stream.taken s this ++ us)
                                (take-all n (replicate chunk 90) (omega arith)))
                      ∙ append_assoc (stream.taken s this) (replicate chunk 90) (replicate n' 90)
                      ∙ ap (λ us. stream.taken s this ++ us) (replicate-plus chunk n' 90),
                  chunks_count q.0 n' chunk left ends',
                ),
              )
        ]

    -- On a system with the laws IsSystem, SetsErrno and IsStream, which says what send takes from
    -- the process, with std::errc as IsErrors says, and where send is not interrupted `fuel` times
    -- in a row: for arguments that the benchmark accepts, the sending loop of Throughput ends
    -- within 16 rounds for each MiB, with as many rounds of SendAll as a chunk has bytes; the
    -- system has taken bytes 0x5a only, and all of the stream exactly if there is no error.
    pub throughput_lem :
        (args : List (List ℕ)) (trips stream_mib rounds fuel this : ℕ) (s : sys.State)
        → arguments args ≡ some (trips, stream_mib)
        → Sends sys std stream fuel this
        → chunk_bytes ≤ rounds
        → (r : SocketError × sys.State) × (send_stream sys std chunk_bytes
              (stream_mib * 16)
              rounds
              fuel
              this
              (total_bytes stream_mib)
              0
              s
            ≡ some r)
          × StreamSent this (stream_mib * 16 * chunk_bytes) s r
    throughput_lem args trips stream_mib rounds fuel this s accepted sends enough =
        let (a, b, c, d, total) = arguments_lem args trips stream_mib accepted in
        send_stream_lem chunk_bytes (stream_mib * 16) rounds fuel this (total_bytes stream_mib) 0
          (stream_mib * 16) s sends (omega arith) enough (omega arith) (omega arith) (omega arith)
