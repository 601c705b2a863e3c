-- ===== src/Net/Benchmark/Tests.antt =====
-- The benchmark's arguments, and its sending side on the stand-in connection.
use cpp_core_systems.Prelude.{ℕ, ◌*◌, ◌≡◌, refl, arith, true, none, some, List, [], ◌∷◌}
use cpp_core_systems.Net.SocketError.{SocketError}
use cpp_core_systems.Net.SocketError.Tests.{codes, codes-IsErrors}
use cpp_core_systems.Net.Text.{from_chars, scan}
use cpp_core_systems.Net.Benchmark.{parse_count, arguments, send_stream, chunk_bytes, total_bytes}
use cpp_core_systems.Net.Benchmark.Arguments.{Accepted, arguments_lem}
use cpp_core_systems.Net.Benchmark.Stream.{StreamSent, throughput_lem}
use cpp_core_systems.Net.Wire.{Wire, wire, wire-IsSystem, wire-SetsErrno, wire_stream, wire-Sends}

abbrev begin_wire : Wire
begin_wire = record { arrived = []; under_way = []; signal = true; errno = 0 }

-- Zero rounds, and a number with something behind it.
refused : arguments ((b'0' ∷ []) ∷ []) ≡ none
unfolding arguments parse_count from_chars scan
refused = refl

refused_tail : arguments ((b'7' ∷ b'x' ∷ []) ∷ []) ≡ none
unfolding arguments parse_count from_chars scan
refused_tail = refl

abbrev args : List (List ℕ)
args = (b'2' ∷ b'5' ∷ []) ∷ (b'3' ∷ []) ∷ []

args_accepted : arguments args ≡ some (25, 3)
unfolding arguments parse_count from_chars scan
args_accepted = refl

arguments_example : Accepted 25 3
arguments_example = arguments_lem args 25 3 args_accepted

throughput_example :
    (r : SocketError × Wire) × (send_stream wire codes chunk_bytes
        (3 * 16)
        65536
        2
        4
        (total_bytes 3)
        0
        begin_wire
      ≡ some r)
    × StreamSent wire codes wire_stream 4 (3 * 16 * chunk_bytes) begin_wire r
throughput_example =
    throughput_lem wire codes wire_stream codes-IsErrors wire-SetsErrno wire-IsSystem args 25 3
      65536 2 4 begin_wire args_accepted wire-Sends (omega arith)
