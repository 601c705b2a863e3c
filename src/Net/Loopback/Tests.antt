-- ===== src/Net/Loopback/Tests.antt =====
-- The example on the stand-in connection.
use cpp_core_systems.Prelude.{ℕ, ◌+◌, ◌^◌, ◌<◌, ◌≡◌, refl, arith, Option, none, some, List, length}
use cpp_core_systems.Net.SocketError.{windows, matches}
use cpp_core_systems.Net.SocketError.Tests.{codes}
use cpp_core_systems.Net.SocketHelpers.Retry.{retry}
use cpp_core_systems.Net.SocketRuntime.Lifetimes.Tests.{dll, wsa, dll-IsStartup}
use cpp_core_systems.Net.TcpListener.{accept_call}
use cpp_core_systems.Net.Channel.{
  Channel, channel, channel-IsSystem, channel-IsFinite, channel-IsPatient, before,
}
use cpp_core_systems.Net.Machine.{first_unused}
use cpp_core_systems.Net.SocketEndpoint.Native.{to_native, from_native}
use cpp_core_systems.Net.SocketHandle
use cpp_core_systems.Net.IpAddress.{loopback, from_bytes}
use cpp_core_systems.Net.SocketHelpers.{create_tcp_socket, create_socket, configure_tcp_socket}
use cpp_core_systems.Net.SocketHelpers.Attach.{attach}
use cpp_core_systems.Net.SocketHelpers.Query.{query_endpoint, read_endpoint}
use cpp_core_systems.Net.TcpListener
use cpp_core_systems.Net.TcpSocket
use cpp_core_systems.Net.Transfer.Result.{send_all_result}
use cpp_core_systems.Net.SocketRuntime.{construct, destroy}
use cpp_core_systems.Net.Loopback.Reading.{texts}
use cpp_core_systems.Net.Loopback.{
  hello, TcpLine, loopback_main, main_sockets, main_bound, main_listening, main_addressed,
  main_connected, main_accepted, exchange, request_sent, request_finished, server_loop,
  response_finished, client_loop, compared, leave_main, still_matches,
}
use cpp_core_systems.Net.Loopback.Ends.{Left, loopback_main_lem}

fits : length hello < 2 ^ 64
fits = omega arith

loopback_main_example :
    (n : ℕ) × ((more : ℕ)
      → (r : List TcpLine × ℕ × Channel × ℕ) × (loopback_main channel codes hello 1
            (n + more)
            dll
            (windows wsa)
            (before, 0)
          ≡ some r)
        × Left channel codes channel-IsSystem channel-IsFinite 1 channel-IsPatient hello fits dll
            dll-IsStartup before 0 r)
loopback_main_example =
    loopback_main_lem channel codes channel-IsSystem channel-IsFinite 1 channel-IsPatient hello fits
      dll dll-IsStartup (windows wsa) before 0 (λ e. omega arith)

-- What a run gives: the result of main, and how many start-ups are left.
abbrev outcome : Option (List TcpLine × ℕ × Channel × ℕ) → Option (ℕ × List ℕ × ℕ)
outcome none = none
outcome (some (lines, code, s, started)) = some (code, texts lines, started)

succeeds :
    outcome (loopback_main channel codes hello 1 4 dll (windows wsa) (before, 0))
    ≡ some (0, hello, 0)
unfolding loopback_main main_sockets main_bound main_listening main_addressed main_connected
    main_accepted exchange request_sent request_finished server_loop response_finished client_loop
    compared leave_main still_matches TcpListener.bind TcpListener.listen TcpListener.accept
    TcpListener.accepted TcpSocket.connect TcpSocket.send TcpSocket.receive TcpSocket.shutdown
    query_endpoint read_endpoint retry attach create_tcp_socket create_socket configure_tcp_socket
    SocketHandle.close send_all_result matches construct destroy first_unused from_native to_native
    loopback from_bytes SocketHandle.move_assign
succeeds = refl
