-- ===== src/Net/Benchmark/Trips.antt =====
-- The two threads of RoundTrips in benchmarks/net/bench_tcp.cpp, behind ConnectPair, interleaved in
-- any order. A thread is where it stands in its code, with its live locals. A step of it is one
-- Send, one Receive or one Shutdown with what follows up to the next of them, or the join.
pub mod Ways
pub mod Stands
pub mod Turns
pub mod Finish
pub mod Tests
use cpp_core_systems.Prelude.{
  ℕ, ◌+◌, ◌-◌, ◌^◌, ◌%◌, ◌≡◌, Bool, true, false, not, ◌==◌, ltb, leb, if◌then◌else◌, Option, none,
  some, List, [], ◌∷◌, ◌++◌, length, take, drop, replicate,
}
use cpp_core_systems.Net.SocketError.{
  SocketError, Errors, no_error, has_error, make_error, io_error, SocketResult, success, failure,
}
use cpp_core_systems.Net.System.{System}
use cpp_core_systems.Net.TcpSocket.{SocketShutdown, send, receive, shutdown}
use cpp_core_systems.Net.Loopback.{same_text}
use cpp_core_systems.Net.Benchmark.Threads.{ErrorLine, report_errors}

-- The main thread, in `exchange` of `count` rounds; `later` is the number of rounds of the call of
-- `exchange` that follows, if one does.
pub data TripClient : Type 0 where
  -- In SendAll, with the bytes that are left of the request.
  asking : (later : Option ℕ) → (count index : ℕ) → (bytes reply : List ℕ) → TripClient
  -- In ReceiveExact, with `filled` bytes of the reply stored.
  hearing : (later : Option ℕ) → (count index filled : ℕ) → (reply : List ℕ) → TripClient
  -- Behind the exchanges, with clientError; in worker.join(); and behind it.
  halted : SocketError → (reply : List ℕ) → TripClient
  joining : SocketError → (reply : List ℕ) → TripClient
  over : SocketError → (reply : List ℕ) → TripClient

pub data TripWorker : Type 0 where
  -- In ReceiveExact, and in SendAll.
  reading : (index filled : ℕ) → (echo : List ℕ) → TripWorker
  answering : (index : ℕ) → (bytes echo : List ℕ) → TripWorker
  -- With an error, before Shutdown; and behind the thread's end, with serverError.
  broken : SocketError → TripWorker
  returned : SocketError → TripWorker

abbrev pub has_returned : TripWorker → Bool
has_returned (reading index filled echo) = false
has_returned (answering index bytes echo) = false
has_returned (broken error) = false
has_returned (returned error) = true

-- A buffer with some bytes stored behind the first `filled`.
unfoldable pub store_at : (filled : ℕ) → (bytes buffer : List ℕ) → List ℕ
store_at filled bytes buffer = take filled buffer ++ (bytes ++ drop (filled + length bytes) buffer)

module _ (size : ℕ) where
  -- The request: `size` is MessageBytes.
  abbrev pub request : List ℕ
  request = replicate size 90

  -- Behind worker.join(), up to the report: what is written to std::cerr, and the result.
  unfoldable pub trips_verdict :
      (client server : SocketError) → (reply : List ℕ) → List ErrorLine × Bool
  unfolding report_errors
  trips_verdict client server reply =
      let (lines, fine) = report_errors client server in
      if not fine
      then (lines, false)
      else if not (same_text reply request)
      then (lines ++ (ErrorLine.payload_mismatch ∷ []), false)
      else (lines, true)

  -- The head of the loop of `exchange`, and what follows its return without an error.
  abbrev pub second_exchange : (rounds : ℕ) → List ℕ → TripClient
  second_exchange rounds reply =
      if ltb 0 rounds
      then TripClient.asking none rounds 0 request reply
      else TripClient.halted no_error reply

  abbrev pub exchange_over : (later : Option ℕ) → List ℕ → TripClient
  exchange_over none reply = TripClient.halted no_error reply
  exchange_over (some rounds) reply = second_exchange rounds reply

  abbrev pub next_trip : (later : Option ℕ) → (count index : ℕ) → List ℕ → TripClient
  next_trip later count index reply =
      if ltb index count
      then TripClient.asking later count index request reply
      else exchange_over later reply

  -- The head of the worker's loop, with `trips` for WarmupRounds + rounds.
  abbrev pub next_echo : (trips index : ℕ) → List ℕ → TripWorker
  next_echo trips index echo =
      if ltb index trips then TripWorker.reading index 0 echo else TripWorker.returned no_error

  module _ (sys : System) (std : Errors) where
    -- What SendAll does with the result of a Send.
    abbrev pub asked :
        (later : Option ℕ)
        → (count index : ℕ) → (bytes reply : List ℕ) → SocketResult ℕ × sys.State
        → TripClient × sys.State
    asked later count index bytes reply (failure error, s) = (TripClient.halted error reply, s)
    asked later count index bytes reply (success n, s) =
        if n == 0
        then (TripClient.halted (make_error std io_error) reply, s)
        else (TripClient.asking later count index (drop n bytes) reply, s)

    -- What ReceiveExact does with the result of a Receive.
    abbrev pub heard :
        (later : Option ℕ)
        → (count index filled : ℕ) → (reply : List ℕ) → SocketResult (List ℕ) × sys.State
        → TripClient × sys.State
    heard later count index filled reply (failure error, s) = (TripClient.halted error reply, s)
    heard later count index filled reply (success bytes, s) =
        if length bytes == 0 then (TripClient.halted (make_error std io_error) reply, s) else (
          TripClient.hearing later count index (filled + length bytes)
              (store_at filled bytes reply),
          s,
        )

    -- `none` where the thread waits or has ended.
    unfoldable pub trip_client_step :
        (fuel this : ℕ) → TripWorker → TripClient → sys.State → Option (TripClient × sys.State)
    trip_client_step fuel this w (TripClient.asking later count index [] reply) s =
        some (TripClient.hearing later count index 0 reply, s)
    trip_client_step fuel this w (TripClient.asking later count index (b ∷ bytes) reply) s =
        elim (send sys std fuel this (b ∷ bytes) s) [
          | none ↦ none
          | some r ↦ some (asked later count index (b ∷ bytes) reply r)
        ]
    trip_client_step fuel this w (TripClient.hearing later count index filled reply) s =
        if leb size filled
        then some (next_trip later count ((index + 1) % 2 ^ 64) reply, s)
        else elim (receive sys std fuel this (size - filled) s) [
          | none ↦ none
          | some r ↦ some (heard later count index filled reply r)
        ]
    trip_client_step fuel this w (TripClient.halted error reply) s = some (
      TripClient.joining error reply,
      (if has_error error then (shutdown sys std this SocketShutdown.both s).1 else s),
    )
    trip_client_step fuel this w (TripClient.joining error reply) s =
        if has_returned w then some (TripClient.over error reply, s) else none
    trip_client_step fuel this w (TripClient.over error reply) s = none

    -- The same two for the worker.
    abbrev pub answered :
        (index : ℕ) → (bytes echo : List ℕ) → SocketResult ℕ × sys.State → TripWorker × sys.State
    answered index bytes echo (failure error, s) = (TripWorker.broken error, s)
    answered index bytes echo (success n, s) =
        if n == 0
        then (TripWorker.broken (make_error std io_error), s)
        else (TripWorker.answering index (drop n bytes) echo, s)

    abbrev pub been_read :
        (index filled : ℕ)
        → (echo : List ℕ) → SocketResult (List ℕ) × sys.State
        → TripWorker × sys.State
    been_read index filled echo (failure error, s) = (TripWorker.broken error, s)
    been_read index filled echo (success bytes, s) =
        if length bytes == 0
        then (TripWorker.broken (make_error std io_error), s)
        else (TripWorker.reading index (filled + length bytes) (store_at filled bytes echo), s)

    unfoldable pub trip_worker_step :
        (trips fuel this : ℕ) → TripWorker → sys.State → Option (TripWorker × sys.State)
    trip_worker_step trips fuel this (TripWorker.reading index filled echo) s =
        if leb size filled
        then some (TripWorker.answering index echo echo, s)
        else elim (receive sys std fuel this (size - filled) s) [
          | none ↦ none
          | some r ↦ some (been_read index filled echo r)
        ]
    trip_worker_step trips fuel this (TripWorker.answering index [] echo) s =
        some (next_echo trips ((index + 1) % 2 ^ 64) echo, s)
    trip_worker_step trips fuel this (TripWorker.answering index (b ∷ bytes) echo) s =
        elim (send sys std fuel this (b ∷ bytes) s) [
          | none ↦ none
          | some r ↦ some (answered index (b ∷ bytes) echo r)
        ]
    trip_worker_step trips fuel this (TripWorker.broken error) s =
        some (TripWorker.returned error, (shutdown sys std this SocketShutdown.both s).1)
    trip_worker_step trips fuel this (TripWorker.returned error) s = none

    -- The threads and the system after some steps, from the buffers full of zeros.
    pub data Trips (warmup rounds fuel client_socket server_socket : ℕ) (s₀ : sys.State)
        : TripClient → TripWorker → sys.State → Type 0 where
      at_start :
          Trips warmup rounds fuel client_socket server_socket s₀
            (next_trip (some rounds) warmup 0 (replicate size 0))
            (next_echo ((warmup + rounds) % 2 ^ 64) 0 (replicate size 0))
            s₀
      client :
          {c c' : TripClient} {w : TripWorker} {s t : sys.State}
          → Trips warmup rounds fuel client_socket server_socket s₀ c w s
          → trip_client_step fuel client_socket w c s ≡ some (c', t)
          → Trips warmup rounds fuel client_socket server_socket s₀ c' w t
      worker :
          {c : TripClient} {w w' : TripWorker} {s t : sys.State}
          → Trips warmup rounds fuel client_socket server_socket s₀ c w s
          → trip_worker_step ((warmup + rounds) % 2 ^ 64) fuel server_socket w s ≡ some (w', t)
          → Trips warmup rounds fuel client_socket server_socket s₀ c w' t
