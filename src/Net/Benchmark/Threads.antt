-- ===== src/Net/Benchmark/Threads.antt =====
-- The two threads of Throughput in benchmarks/net/bench_tcp.cpp, behind ConnectPair, interleaved in
-- any order. A thread is where it stands in its code, with its live locals. A step of it is one
-- Send, one Receive or one Shutdown with what follows up to the next of them, or a latch. The
-- latches are open where the worker is past its count_down.
pub mod Sending
pub mod Receiving
pub mod Finish
pub mod Tests
use cpp_core_systems.Prelude.{
  ℕ, ◌+◌, ◌^◌, ◌%◌, ◌≡◌, Bool, true, false, not, ◌&&◌, ◌==◌, ltb, if◌then◌else◌, Option, none, some,
  List, [], ◌∷◌, ◌++◌, length, drop, replicate,
}
use cpp_core_systems.Net.SocketError.{
  SocketError, Errors, no_error, has_error, make_error, io_error, SocketResult, success, failure,
}
use cpp_core_systems.Net.System.{System}
use cpp_core_systems.Net.TcpSocket.{SocketShutdown, send, receive, shutdown}

-- The main thread, behind the start of the worker.
pub data Client : Type 0 where
  -- ready.wait().
  unready : Client
  -- In SendAll, in the round of `sent`, with the bytes that are left of the buffer.
  sending : (sent : ℕ) → (bytes : List ℕ) → Client
  -- Behind the loop, with clientError.
  stopped : SocketError → Client
  -- finished.wait(), and worker.join().
  waiting : SocketError → Client
  joined : SocketError → Client

pub data Worker : Type 0 where
  starting : Worker
  -- At the head of the loop, with `received`.
  receiving : ℕ → Worker
  -- Behind the loop, with `received` and serverError.
  left : ℕ → SocketError → Worker
  ended : ℕ → SocketError → Worker

-- The latches.
abbrev pub ready : Worker → Bool
ready starting = false
ready (receiving received) = true
ready (left received error) = true
ready (ended received error) = true

abbrev pub finished : Worker → Bool
finished starting = false
finished (receiving received) = false
finished (left received error) = false
finished (ended received error) = true

-- What is written to std::cerr behind the threads.
pub data ErrorLine : Type 0 where
  client_failed : SocketError → ErrorLine
  server_failed : SocketError → ErrorLine
  byte_count_mismatch : ErrorLine
  payload_mismatch : ErrorLine

-- ReportErrors.
unfoldable pub report_errors : (client server : SocketError) → List ErrorLine × Bool
report_errors client server = (
  (if has_error client then client_failed client ∷ [] else [])
      ++ (if has_error server then server_failed server ∷ [] else []),
  not (has_error client) && not (has_error server),
)

-- Behind worker.join(), up to the report: what is written to std::cerr, and the result.
unfoldable pub verdict :
    (client server : SocketError) → (received total : ℕ) → List ErrorLine × Bool
unfolding report_errors
verdict client server received total =
    let (lines, fine) = report_errors client server in
    if not fine
    then (lines, false)
    else if not (received == total)
    then (lines ++ (byte_count_mismatch ∷ []), false)
    else (lines, true)

module _ (sys : System) (std : Errors) where
  module _ (chunk total : ℕ) where
    -- The head of the client's loop.
    abbrev pub next_round : ℕ → Client
    next_round sent =
        if ltb sent total then Client.sending sent (replicate chunk 90) else Client.stopped no_error

    -- What SendAll does with the result of a Send.
    abbrev pub client_sent :
        (sent : ℕ) → (bytes : List ℕ) → SocketResult ℕ × sys.State → Client × sys.State
    client_sent sent bytes (failure error, s) = (Client.stopped error, s)
    client_sent sent bytes (success count, s) =
        if count == 0
        then (Client.stopped (make_error std io_error), s)
        else (Client.sending sent (drop count bytes), s)

    -- `none` where the thread waits or has ended.
    unfoldable pub client_step :
        (fuel this : ℕ) → Worker → Client → sys.State → Option (Client × sys.State)
    client_step fuel this worker Client.unready s =
        if ready worker then some (next_round 0, s) else none
    client_step fuel this worker (Client.sending sent []) s =
        some (next_round ((sent + chunk) % 2 ^ 64), s)
    client_step fuel this worker (Client.sending sent (b ∷ bytes)) s =
        elim (send sys std fuel this (b ∷ bytes) s) [
          | none ↦ none
          | some r ↦ some (client_sent sent (b ∷ bytes) r)
        ]
    client_step fuel this worker (Client.stopped error) s = some (
      Client.waiting error,
      (if has_error error then (shutdown sys std this SocketShutdown.both s).1 else s),
    )
    client_step fuel this worker (Client.waiting error) s =
        if finished worker then some (Client.joined error, s) else none
    client_step fuel this worker (Client.joined error) s = none

    -- What the worker does with the result of a Receive.
    abbrev pub worker_received :
        (received : ℕ) → SocketResult (List ℕ) × sys.State → Worker × sys.State
    worker_received received (failure error, s) = (Worker.left received error, s)
    worker_received received (success bytes, s) =
        if length bytes == 0
        then (Worker.left received (make_error std io_error), s)
        else (Worker.receiving ((received + length bytes) % 2 ^ 64), s)

    unfoldable pub worker_step : (fuel this : ℕ) → Worker → sys.State → Option (Worker × sys.State)
    worker_step fuel this Worker.starting s = some (Worker.receiving 0, s)
    worker_step fuel this (Worker.receiving received) s =
        if ltb received total
        then elim (receive sys std fuel this chunk s) [
          | none ↦ none
          | some r ↦ some (worker_received received r)
        ]
        else some (Worker.left received no_error, s)
    worker_step fuel this (Worker.left received error) s = some (
      Worker.ended received error,
      (if has_error error then (shutdown sys std this SocketShutdown.both s).1 else s),
    )
    worker_step fuel this (Worker.ended received error) s = none

    -- The threads and the system after a number of steps.
    pub data Interleaving (fuel client_socket server_socket : ℕ) (s₀ : sys.State)
        : ℕ → Client → Worker → sys.State → Type 0 where
      start : Interleaving fuel client_socket server_socket s₀ 0 Client.unready Worker.starting s₀
      client :
          {n : ℕ} {c c' : Client} {w : Worker} {s t : sys.State}
          → Interleaving fuel client_socket server_socket s₀ n c w s
          → client_step fuel client_socket w c s ≡ some (c', t)
          → Interleaving fuel client_socket server_socket s₀ (1 + n) c' w t
      worker :
          {n : ℕ} {c : Client} {w w' : Worker} {s t : sys.State}
          → Interleaving fuel client_socket server_socket s₀ n c w s
          → worker_step fuel server_socket w s ≡ some (w', t)
          → Interleaving fuel client_socket server_socket s₀ (1 + n) c w' t
