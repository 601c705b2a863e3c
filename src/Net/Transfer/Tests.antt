-- ===== src/Net/Transfer/Tests.antt =====
-- SendAll and ReceiveExact on the stand-in connection.
use cpp_core_systems.Prelude.{ℕ, ◌≡◌, refl, arith, true, some, List, [], ◌∷◌}
use cpp_core_systems.Net.SocketError.{SocketError, generic_category, no_error, matches}
use cpp_core_systems.Net.SocketError.Tests.{codes, codes-IsErrors}
use cpp_core_systems.Net.TcpSocket.{send, receive}
use cpp_core_systems.Net.SocketHelpers.Retry.{retry}
use cpp_core_systems.Net.Transfer.{send_all, receive_exact}
use cpp_core_systems.Net.Transfer.Result.{send_all_result, as_result, send_all_result_lem}
use cpp_core_systems.Net.Transfer.Whole.{SentPart, ReceivedPart, send_all_lem, receive_exact_lem}
use cpp_core_systems.Net.Transfer.Echo.{Drained, exchange_lem}
use cpp_core_systems.Net.Wire.{
  Wire, wire, wire-IsSystem, wire-SetsErrno, wire_stream, wire-IsPipe, wire-Sends, wire-Receives,
}

abbrev quiet : Wire
quiet = record { arrived = 1 ∷ []; under_way = []; signal = true; errno = 0 }

abbrev message : List ℕ
message = 10 ∷ 20 ∷ 30 ∷ 40 ∷ []

-- The state behind the two parts that go through.
abbrev loaded : Wire
loaded = record { arrived = 1 ∷ []; under_way = message; signal = true; errno = 4 }

abbrev drained : Wire
drained = record { arrived = 1 ∷ message; under_way = []; signal = true; errno = 4 }

all_sent : send_all wire codes 4 2 4 message quiet ≡ some (no_error, loaded)
unfolding send_all send retry matches
all_sent = refl

all_received : receive_exact wire codes 4 2 5 4 loaded ≡ some (no_error, message, drained)
unfolding receive_exact receive retry matches
all_received = refl

-- The fourth byte never comes.
cut_short :
    receive_exact wire codes 5 2 5 5 loaded
    ≡ some (record { value = 5; category = generic_category }, message, drained)
unfolding receive_exact receive retry matches
cut_short = refl

send_all_example :
    (r : SocketError × Wire) × (send_all wire codes 4 2 4 message quiet ≡ some r)
    × SentPart wire codes wire_stream 4 message quiet r
send_all_example =
    send_all_lem wire codes wire_stream codes-IsErrors wire-SetsErrno wire-IsSystem 4 2 4 message
      quiet wire-Sends (omega arith)

receive_exact_example :
    (r : SocketError × List ℕ × Wire) × (receive_exact wire codes 4 2 5 4 loaded ≡ some r)
    × ReceivedPart wire codes wire_stream 5 4 loaded r
receive_exact_example =
    receive_exact_lem wire codes wire_stream codes-IsErrors wire-SetsErrno wire-IsSystem 4 2 5 4
      loaded wire-Receives (omega arith)

exchange_example : (message ≡ message) × Drained wire codes wire_stream 4 5 drained
exchange_example =
    exchange_lem wire codes wire_stream codes-IsErrors wire-SetsErrno wire-IsSystem 4 5 wire-IsPipe
      4 2 message message quiet loaded drained wire-Sends wire-Receives (omega arith) refl all_sent
      all_received

send_all_result_example :
    as_result wire codes (send_all wire codes 4 2 4 message quiet)
    ≡ send_all_result wire codes 4 2 4 message quiet
send_all_result_example =
    send_all_result_lem wire codes codes-IsErrors wire-SetsErrno 4 2 4 message quiet
