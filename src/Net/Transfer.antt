-- ===== src/Net/Transfer.antt =====
-- SendAll and ReceiveExact of benchmarks/net/bench_tcp.cpp: loops of Send and Receive of a TcpSocket
-- over a whole buffer.
pub mod Step
pub mod Whole
pub mod Echo
pub mod Result
pub mod Tests
use cpp_core_systems.Prelude.{
  ℕ, zero, suc, ◌-◌, ◌==◌, if◌then◌else◌, Option, none, some, List, [], ◌∷◌, ◌++◌, length, drop,
}
use cpp_core_systems.Net.SocketError.{
  SocketError, Errors, io_error, make_error, no_error, SocketResult, success, failure,
}
use cpp_core_systems.Net.System.{System}
use cpp_core_systems.Net.TcpSocket.{send, receive}

module _ (sys : System) (std : Errors) where
  -- A round of SendAll behind its Send; `again` is the rest of the loop.
  abbrev pub sent :
      (again : List ℕ → sys.State → Option (SocketError × sys.State))
      → List ℕ
      → SocketResult ℕ × sys.State
      → Option (SocketError × sys.State)
  sent again bytes (failure error, s) = some (error, s)
  sent again bytes (success count, s) =
      if count == 0 then some (make_error std io_error, s) else again (drop count bytes) s

  -- `rounds` bounds the loop over the buffer, and `fuel` the loop of each Send.
  unfoldable pub send_all :
      (rounds fuel this : ℕ) → List ℕ → sys.State → Option (SocketError × sys.State)
  send_all rounds fuel this [] s = some (no_error, s)
  send_all zero fuel this (b ∷ bytes) s = none
  send_all (suc rounds) fuel this (b ∷ bytes) s = elim (send sys std fuel this (b ∷ bytes) s) [
    | none ↦ none
    | some r ↦ sent (send_all rounds fuel this) (b ∷ bytes) r
  ]

  -- What is stored behind the bytes that a Receive has stored.
  abbrev pub stored_behind :
      List ℕ → Option (SocketError × List ℕ × sys.State) → Option (SocketError × List ℕ × sys.State)
  stored_behind bytes none = none
  stored_behind bytes (some (error, more, t)) = some (error, bytes ++ more, t)

  -- A round of ReceiveExact behind its Receive.
  abbrev pub got :
      (again : ℕ → sys.State → Option (SocketError × List ℕ × sys.State))
      → ℕ
      → SocketResult (List ℕ) × sys.State
      → Option (SocketError × List ℕ × sys.State)
  got again size (failure error, s) = some (error, [], s)
  got again size (success bytes, s) =
      if length bytes == 0
      then some (make_error std io_error, [], s)
      else stored_behind bytes (again (size - length bytes) s)

  -- For a buffer of `size` bytes; what it stores there is a part of its result.
  unfoldable pub receive_exact :
      (rounds fuel this size : ℕ) → sys.State → Option (SocketError × List ℕ × sys.State)
  receive_exact rounds fuel this zero s = some (no_error, [], s)
  receive_exact zero fuel this (suc n) s = none
  receive_exact (suc rounds) fuel this (suc n) s = elim (receive sys std fuel this (suc n) s) [
    | none ↦ none
    | some r ↦ got (receive_exact rounds fuel this) (suc n) r
  ]
