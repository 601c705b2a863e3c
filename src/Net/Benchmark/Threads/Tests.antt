-- ===== src/Net/Benchmark/Threads/Tests.antt =====
-- A run of Throughput's threads on the stand-in connection, with a stream of one chunk of two bytes.
use cpp_core_systems.Prelude.{
  ℕ, ◌+◌, ◌*◌, ◌≤◌, ◌≡◌, refl, arith, true, List, [], ◌∷◌, ◌++◌, replicate, ◌⊎◌,
}
use cpp_core_systems.Net.SocketError.{no_error, has_error, matches}
use cpp_core_systems.Net.SocketError.Tests.{codes, codes-IsErrors}
use cpp_core_systems.Net.TcpSocket.{send, receive}
use cpp_core_systems.Net.SocketHelpers.Retry.{retry}
use cpp_core_systems.Net.Wire.{
  Wire, wire, wire-IsSystem, wire-SetsErrno, wire_stream, wire-IsPipe, wire-Sends, wire-Receives,
}
use cpp_core_systems.Net.Benchmark.Threads.{
  Client, Worker, Interleaving, client_step, worker_step, report_errors, verdict,
}
use cpp_core_systems.Net.Benchmark.Threads.Finish.{verdict_lem, threads_end, Goes}

abbrev before : Wire
before = record { arrived = []; under_way = []; signal = true; errno = 0 }

abbrev half_way : Wire
half_way = record { arrived = []; under_way = 90 ∷ 90 ∷ []; signal = true; errno = 4 }

abbrev afterwards : Wire
afterwards = record { arrived = 90 ∷ 90 ∷ []; under_way = []; signal = true; errno = 4 }

-- The server is given what the client has just sent, before the client looks at its loop again.
delivered :
    Interleaving wire codes 2 2 2 4 5 before 4 (Client.sending 0 []) (Worker.receiving 2) afterwards
unfolding client_step worker_step send receive retry matches
delivered =
    Interleaving.worker
      (Interleaving.client {c = Client.sending 0 (90 ∷ 90 ∷ [])} {c' = Client.sending 0 []}
        {s = before} {t = half_way}
        (Interleaving.client {c = Client.unready} {s = before}
          (Interleaving.worker {s = before} Interleaving.start refl) refl)
        refl)
      refl

finished_run :
    Interleaving wire codes 2 2 2 4 5 before 9
      (Client.joined no_error)
      (Worker.ended 2 no_error)
      afterwards
unfolding client_step worker_step
finished_run =
    Interleaving.client {c = Client.waiting no_error} {s = afterwards}
      (Interleaving.worker {w = Worker.left 2 no_error} {s = afterwards}
        (Interleaving.client {c = Client.stopped no_error} {s = afterwards}
          (Interleaving.worker {w = Worker.receiving 2} {s = afterwards}
            (Interleaving.client {c = Client.sending 0 []} {s = afterwards} delivered refl) refl)
          refl)
        refl)
      refl

verdict_example :
    (verdict no_error no_error 2 2 ≡ report_errors no_error no_error)
    × ((2 ≡ 1 * 2) ⊎ (has_error no_error ≡ true))
    × (◌≡◌ {A = List ℕ} (90 ∷ 90 ∷ []) ([] ++ replicate 2 90))
verdict_example =
    verdict_lem wire codes wire_stream codes-IsErrors wire-SetsErrno wire-IsSystem 4 5 wire-IsPipe 2
      wire-Sends wire-Receives 2 1 before 9 2 no_error no_error afterwards (omega arith)
      (omega arith) refl finished_run

threads_end_example :
    (4 ≤ 1 * (1 + 2) + 1 * 2 + 6)
    × Goes wire codes wire_stream codes-IsErrors wire-SetsErrno wire-IsSystem 4 5 wire-IsPipe 2
        wire-Sends wire-Receives 2 2
        (Client.sending 0 [])
        (Worker.receiving 2)
        afterwards
threads_end_example =
    threads_end wire codes wire_stream codes-IsErrors wire-SetsErrno wire-IsSystem 4 5 wire-IsPipe 2
      wire-Sends wire-Receives 2 1 before 4 (Client.sending 0 []) (Worker.receiving 2) afterwards
      (omega arith) (omega arith) refl delivered
