-- ===== src/Net/Benchmark/Arguments.antt =====
-- Which arguments the benchmark accepts.
use cpp_core_systems.Prelude.{
  ℕ, ◌*◌, ◌≤◌, ◌<◌, ◌≡◌, refl, ap, subst, arith, true, ◌&&◌, ltb, leb, Option, none, some, List, [],
  ◌∷◌, Bool-cases, inl, inr,
}
use cpp_core_systems.Net.Text.{from_chars, parse_number, decimal}
use cpp_core_systems.Net.Text.Decimal.{parse_number-decimal}
use cpp_core_systems.Net.SocketHelpers.Retry.{some-injective}
use cpp_core_systems.Net.Benchmark.{
  max_uint64, counted, parse_count, arguments, chunk_bytes, total_bytes,
}

-- What is accepted is in range.
parse_count-bounds :
    (text : List ℕ) (maximum output : ℕ)
    → (parse_count text maximum output).0 ≡ true
    → (0 < (parse_count text maximum output).1) × ((parse_count text maximum output).1 ≤ maximum)
unfolding parse_count
parse_count-bounds text maximum output = by_read (from_chars max_uint64 text)
  where
    by_read :
        (o : Option (ℕ × List ℕ))
        → (counted maximum output o).0 ≡ true
        → (0 < (counted maximum output o).1) × ((counted maximum output o).1 ≤ maximum)
    by_read none ok = cc
    by_read (some (value, [])) ok = (ground arith, ground arith)
    by_read (some (value, c ∷ rest)) ok = cc

-- from_chars takes the whole text if parse_number does.
from_chars-parse :
    (limit n : ℕ) (text : List ℕ)
    → parse_number limit text ≡ some n
    → from_chars limit text ≡ some (n, [])
unfolding parse_number
from_chars-parse limit n text e = by_read (from_chars limit text) e
  where
    by_read :
        (o : Option (ℕ × List ℕ))
        → elim o [ none ↦ none | some (v, rest) ↦ elim rest [ [] ↦ some v | _ ∷ _ ↦ none ] ]
          ≡ some n
        → o ≡ some (n, [])
    by_read none e = cc
    by_read (some (v, [])) e = ap (λ k. some (k, [])) (some-injective v n e)
    by_read (some (v, c ∷ rest)) e = cc

parse_count-decimal :
    (n maximum output : ℕ)
    → 0 < n
    → n ≤ maximum
    → n ≤ max_uint64
    → parse_count (decimal n) maximum output ≡ (true, n)
unfolding parse_count
parse_count-decimal n maximum output pos most fits =
    let read = from_chars-parse max_uint64 n (decimal n) (parse_number-decimal max_uint64 n fits) in
    let within : (ltb 0 n && leb n maximum) ≡ true = ground arith in
    rw (parse_count, read) (ap (λ b. (b, n)) within)

-- The numbers are in range, and the size of the stream in bytes does not wrap round and is a number
-- of chunks.
abbrev pub Accepted : ℕ → ℕ → Type 0
Accepted rounds stream =
    (0 < rounds)
    × (rounds ≤ 1000000)
    × (0 < stream)
    × (stream ≤ 4096)
    × (total_bytes stream ≡ stream * 16 * chunk_bytes)

in_range :
    (rounds stream : ℕ)
    → 0 < rounds
    → rounds ≤ 1000000
    → 0 < stream
    → stream ≤ 4096
    → Accepted rounds stream
in_range rounds stream a b c d = (a, b, c, d, omega arith)

of_pair :
    (p : ℕ × ℕ) (rounds stream : ℕ)
    → some p ≡ some (rounds, stream)
    → Accepted p.0 p.1
    → Accepted rounds stream
of_pair p rounds stream e known =
    subst (λ q. Accepted q.0 q.1) (some-injective p (rounds, stream) e) known

-- Whatever arguments the benchmark accepts, the round trips are 1 to 1000000, the stream is 1 to
-- 4096 MiB, and its size in bytes does not wrap round in 64 bits and is 16 chunks for each MiB.
pub arguments_lem :
    (args : List (List ℕ)) (rounds stream : ℕ)
    → arguments args ≡ some (rounds, stream)
    → Accepted rounds stream
unfolding arguments
arguments_lem [] rounds stream e =
    of_pair (10000, 128) rounds stream e
      (in_range 10000 128 (omega arith) (omega arith) (omega arith) (omega arith))
arguments_lem (a ∷ []) rounds stream e = elim (Bool-cases (parse_count a 1000000 10000).0) [
  | inr bad ↦ absurd (ground arith)
  | inl ok ↦
      let (pos, most) = parse_count-bounds a 1000000 10000 ok in
      of_pair ((parse_count a 1000000 10000).1, 128) rounds stream (rw (arguments, ok) at e)
        (in_range (parse_count a 1000000 10000).1 128 pos most (omega arith) (omega arith))
]
arguments_lem (a ∷ b ∷ []) rounds stream e = elim (Bool-cases (parse_count a 1000000 10000).0) [
  | inr bad ↦ absurd (ground arith)
  | inl ok ↦ elim (Bool-cases (parse_count b 4096 128).0) [
    | inr bad ↦ absurd (ground arith)
    | inl ok' ↦
        let (pos, most) = parse_count-bounds a 1000000 10000 ok in
        let (pos', most') = parse_count-bounds b 4096 128 ok' in
        of_pair ((parse_count a 1000000 10000).1, (parse_count b 4096 128).1) rounds stream
          (rw (arguments, ok, ok') at e)
          (in_range (parse_count a 1000000 10000).1 (parse_count b 4096 128).1 pos most pos' most')
  ]
]
arguments_lem (a ∷ b ∷ c ∷ more) rounds stream e = cc

pub arguments-decimal :
    (rounds stream : ℕ)
    → 0 < rounds
    → rounds ≤ 1000000
    → 0 < stream
    → stream ≤ 4096
    → arguments (decimal rounds ∷ decimal stream ∷ []) ≡ some (rounds, stream)
unfolding arguments
arguments-decimal rounds stream r r' m m' =
    let first = parse_count-decimal rounds 1000000 10000 r r' (omega arith) in
    let second = parse_count-decimal stream 4096 128 m m' (omega arith) in
    rw (arguments, first, second) refl
