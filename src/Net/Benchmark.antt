-- ===== src/Net/Benchmark.antt =====
-- The arguments of benchmarks/net/bench_tcp.cpp, and the sending side of its Throughput.
pub mod Arguments
pub mod Stream
pub mod Threads
pub mod Trips
pub mod Tests
use cpp_core_systems.Prelude.{
  ℕ, zero, suc, ◌+◌, ◌-◌, ◌*◌, ◌^◌, ◌%◌, Bool, true, false, not, ◌&&◌, ◌==◌, ltb, leb,
  if◌then◌else◌, Option, none, some, List, [], ◌∷◌, replicate,
}
use cpp_core_systems.Net.SocketError.{SocketError, Errors, no_error, has_error}
use cpp_core_systems.Net.System.{System}
use cpp_core_systems.Net.Text.{from_chars}
use cpp_core_systems.Net.Transfer.{send_all}

-- A std::uint64_t.
abbrev pub max_uint64 : ℕ
max_uint64 = 2 ^ 64 - 1

-- What ParseCount makes of what from_chars has read: its result, and `output` after it.
abbrev pub counted : (maximum output : ℕ) → Option (ℕ × List ℕ) → Bool × ℕ
counted maximum output none = (false, output)
counted maximum output (some (value, [])) = (ltb 0 value && leb value maximum, value)
counted maximum output (some (value, c ∷ rest)) = (false, value)

unfoldable pub parse_count : List ℕ → (maximum output : ℕ) → Bool × ℕ
parse_count text maximum output = counted maximum output (from_chars max_uint64 text)

-- The arguments behind the program's name, where they are not --help alone: the rounds and the size
-- of the stream, or `none` for the exit with the usage.
unfoldable pub arguments : List (List ℕ) → Option (ℕ × ℕ)
arguments [] = some (10000, 128)
arguments (a ∷ []) =
    let (ok, rounds) = parse_count a 1000000 10000 in if not ok then none else some (rounds, 128)
arguments (a ∷ b ∷ []) =
    let (ok, rounds) = parse_count a 1000000 10000 in
    if not ok
    then none
    else (let (ok', stream) = parse_count b 4096 128 in
        if not ok' then none else some (rounds, stream))
arguments (a ∷ b ∷ c ∷ more) = none

abbrev pub mib : ℕ
mib = 1024 * 1024

abbrev pub chunk_bytes : ℕ
chunk_bytes = 64 * 1024

-- streamMiB * MiB, in a std::uint64_t.
abbrev pub total_bytes : ℕ → ℕ
total_bytes stream = (stream * mib) % 2 ^ 64

module _ (sys : System) (std : Errors) where
  -- for (std::uint64_t sent = 0; sent < total; sent += ChunkBytes), in `chunks` rounds at most. Here
  -- `chunk` is ChunkBytes, the size of the buffer.
  unfoldable pub send_stream :
      (chunk chunks rounds fuel this total sent : ℕ) → sys.State → Option (SocketError × sys.State)
  send_stream chunk zero rounds fuel this total sent s =
      if ltb sent total then none else some (no_error, s)
  send_stream chunk (suc chunks) rounds fuel this total sent s =
      if not (ltb sent total)
      then some (no_error, s)
      else elim (send_all sys std rounds fuel this (replicate chunk 90) s) [
        | none ↦ none
        | some (error, t) ↦
            let rest =
              send_stream chunk chunks rounds fuel this total ((sent + chunk) % 2 ^ 64) t in
            if has_error error then some (error, t) else rest
      ]
