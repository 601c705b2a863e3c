-- ===== src/Net/SocketRuntime/Lifetimes/Tests.antt =====
-- A stand-in for WSAStartup that has run out of start-ups after three.
use cpp_core_systems.Prelude.{ℕ, suc, ◌-◌, ◌≡◌, refl, ◌+◌, arith, leb, if◌then◌else◌, [], ◌∷◌}
use cpp_core_systems.Net.SocketError.{Winsock, windows}
use cpp_core_systems.Net.SocketRuntime.{Startup, SocketRuntime, construct, destroy}
use cpp_core_systems.Net.SocketRuntime.Lifetimes.{IsStartup, live, Reach, Step, reach_lem}

abbrev pub dll : Startup
dll = record {
  State = ℕ;
  wsastartup = λ v s. if leb 3 s then ((10067, 0), s) else ((0, 514), suc s);
  wsacleanup = λ s. s - 1;
}

abbrev pub wsa : Winsock
wsa = record {
  wsaewouldblock = 10035;
  wsaeintr = 10004;
  wsaeconnreset = 10054;
  wsaeconnrefused = 10061;
  wsaetimedout = 10060;
  wsaeaddrinuse = 10048;
  wsaeconnaborted = 10053;
  wsaenotconn = 10057;
  wsaemsgsize = 10040;
  wsavernotsupported = 10092;
}

abbrev pub dll-IsStartup : IsStartup dll
dll-IsStartup = record {
  started = λ s. s;
  startup_counts = λ v s e. ground arith;
  startup_fails = λ v s e. ground arith;
  cleanup_counts = λ s. refl;
}

-- Two runtimes, of which the older one is destroyed first.
abbrev made : SocketRuntime × ℕ
made = construct dll (windows wsa) 0

abbrev again : SocketRuntime × ℕ
again = construct dll (windows wsa) made.1

older_first : Reach dll wsa 0 (again.0 ∷ []) (destroy dll (windows wsa) made.0 again.1)
older_first =
    Reach.next
      (Reach.next (Reach.next Reach.start (Step.make [] 0)) (Step.make (made.0 ∷ []) made.1))
      (Step.drop (again.0 ∷ []) made.0 [] again.1)

reach_example : destroy dll (windows wsa) made.0 again.1 ≡ 0 + live (again.0 ∷ [])
reach_example = reach_lem dll wsa dll-IsStartup (λ e. omega arith) 0 older_first
