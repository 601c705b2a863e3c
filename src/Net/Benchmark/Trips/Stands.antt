-- ===== src/Net/Benchmark/Trips/Stands.antt =====
-- Where the threads of RoundTrips stand.
use cpp_core_systems.Prelude.{
  ℕ, ◌≤◌, ◌≡◌, refl, sym, ◌∙◌, ap, arith, true, ltb, Option, none, some, List, length, drop,
  take-all, replicate, length-replicate, Bool-cases, inl, inr, ◌⊎◌,
}
use cpp_core_systems.Net.SocketError.{no_error, has_error}
use cpp_core_systems.Net.Benchmark.Threads.Sending.{drop-replicate}
use cpp_core_systems.Net.Benchmark.Trips.{
  TripClient, TripWorker, request, second_exchange, exchange_over, next_trip,
}
use cpp_core_systems.Net.Benchmark.Trips.Ways.{Same, Filled}

-- Where the client stands: it sends only 0x5a, and where it stops without an error the reply is
-- full of that.
abbrev pub Asks : (size : ℕ) → TripClient → Type 0
Asks size (TripClient.asking later count index bytes reply) = Same bytes × (length reply ≡ size)
Asks size (TripClient.hearing later count index filled reply) = Filled size filled reply
Asks size (TripClient.halted error reply) =
    ((error ≡ no_error) × (reply ≡ replicate size 90)) ⊎ (has_error error ≡ true)
Asks size (TripClient.joining error reply) =
    ((error ≡ no_error) × (reply ≡ replicate size 90)) ⊎ (has_error error ≡ true)
Asks size (TripClient.over error reply) =
    ((error ≡ no_error) × (reply ≡ replicate size 90)) ⊎ (has_error error ≡ true)

-- Where the worker stands: it sends only 0x5a.
abbrev pub Answers : (size : ℕ) → TripWorker → Type 0
Answers size (TripWorker.reading index filled echo) = Filled size filled echo
Answers size (TripWorker.answering index bytes echo) = Same bytes × (length echo ≡ size)
Answers size (TripWorker.broken error) = Unit {0}
Answers size (TripWorker.returned error) = Unit {0}

pub request-Same : (size : ℕ) → Same (request size)
request-Same size = ap (λ l. replicate l 90) (sym (length-replicate size 90))

pub drop-Same : (count : ℕ) (bytes : List ℕ) → Same bytes → Same (drop count bytes)
drop-Same count bytes same =
    ap (drop count) same
    ∙ drop-replicate count (length bytes) 90
    ∙ ap (λ us. replicate (length (drop count us)) 90) (sym same)

pub whole-Filled :
    (size filled : ℕ) (buffer : List ℕ)
    → Filled size filled buffer
    → size ≤ filled
    → buffer ≡ replicate size 90
whole-Filled size filled buffer (most, full, first) enough =
    let is : filled ≡ size = omega arith in
    sym (take-all filled buffer (omega arith)) ∙ first ∙ ap (λ n. replicate n 90) is

second-Asks :
    (size rounds : ℕ) (reply : List ℕ)
    → reply ≡ replicate size 90
    → length reply ≡ size
    → Asks size (second_exchange size rounds reply)
second-Asks size rounds reply whole full = elim (Bool-cases (ltb 0 rounds)) [
  | inl more ↦ rw more (request-Same size, full)
  | inr done ↦ rw done (inl (refl, whole))
]

exchange_over-Asks :
    (size : ℕ) (later : Option ℕ) (reply : List ℕ)
    → reply ≡ replicate size 90
    → length reply ≡ size
    → Asks size (exchange_over size later reply)
exchange_over-Asks size none reply whole full = inl (refl, whole)
exchange_over-Asks size (some rounds) reply whole full = second-Asks size rounds reply whole full

pub next_trip-Asks :
    (size : ℕ) (later : Option ℕ) (count index : ℕ) (reply : List ℕ)
    → reply ≡ replicate size 90
    → length reply ≡ size
    → Asks size (next_trip size later count index reply)
next_trip-Asks size later count index reply whole full = elim (Bool-cases (ltb index count)) [
  | inl more ↦ rw more (request-Same size, full)
  | inr done ↦ rw done (exchange_over-Asks size later reply whole full)
]

pub empty-Filled : (size : ℕ) (buffer : List ℕ) → length buffer ≡ size → Filled size 0 buffer
empty-Filled size buffer full = (omega arith, full, refl)
