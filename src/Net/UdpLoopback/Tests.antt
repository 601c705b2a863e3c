-- ===== src/Net/UdpLoopback/Tests.antt =====
-- The example on the stand-in machine.
use cpp_core_systems.Prelude.{ℕ, ◌≡◌, refl, arith, none, some, Option, List}
use cpp_core_systems.Net.SocketEndpoint
use cpp_core_systems.Net.SocketEndpoint.Native.{to_native, from_native}
use cpp_core_systems.Net.IpAddress
use cpp_core_systems.Net.SocketError.{windows, matches}
use cpp_core_systems.Net.SocketError.Tests.{codes}
use cpp_core_systems.Net.SocketHandle
use cpp_core_systems.Net.SocketHelpers.{create_socket}
use cpp_core_systems.Net.SocketHelpers.Attach.{attach}
use cpp_core_systems.Net.SocketHelpers.Query.{query_endpoint, read_endpoint}
use cpp_core_systems.Net.SocketHelpers.Retry.{retry}
use cpp_core_systems.Net.SocketRuntime.{construct, destroy}
use cpp_core_systems.Net.SocketRuntime.Lifetimes.Tests.{dll, wsa, dll-IsStartup}
use cpp_core_systems.Net.UdpSocket
use cpp_core_systems.Net.UdpSocket.Receive.{receive_from, received}
use cpp_core_systems.Net.Machine.{first_unused}
use cpp_core_systems.Net.Channel.{Channel, channel, channel-IsSystem, before}
use cpp_core_systems.Net.UdpLoopback.{
  hello_udp, UdpLine, set_receive_timeout, leave_udp, udp_emptied, udp_sent_empty, udp_echoed,
  udp_replied, udp_received, udp_client_timed, udp_sent, udp_addressed, udp_server_timed, udp_bound,
  udp_sockets, udp_main,
}
use cpp_core_systems.Net.UdpLoopback.Opened.{shown, IsPatientUdp}
use cpp_core_systems.Net.UdpLoopback.Ends.{LeftUdp, udp_main_lem}

channel-IsPatientUdp : IsPatientUdp channel codes 1
channel-IsPatientUdp = record {
  sends = λ buffer a h s. (0, omega arith, tt, λ (e, again). cc);
  receives = λ h n s. (0, omega arith, tt, λ (e, again). cc);
}

udp_main_example :
    (r : List UdpLine × ℕ × Channel × ℕ) × (udp_main channel codes hello_udp 1 dll
        (windows wsa)
        (before, 0)
      ≡ some r)
    × LeftUdp channel codes channel-IsSystem 1 channel-IsPatientUdp hello_udp before dll
        dll-IsStartup 0 r
udp_main_example =
    udp_main_lem channel codes channel-IsSystem 1 channel-IsPatientUdp hello_udp before dll
      dll-IsStartup (windows wsa) 0 (λ e. omega arith)

abbrev outcome : Option (List UdpLine × ℕ × Channel × ℕ) → Option (ℕ × List ℕ × ℕ)
outcome none = none
outcome (some (lines, code, s, started)) = some (code, shown lines, started)

succeeds_udp :
    outcome (udp_main channel codes hello_udp 1 dll (windows wsa) (before, 0))
    ≡ some (0, hello_udp, 0)
unfolding udp_main udp_sockets udp_bound udp_server_timed udp_addressed udp_sent udp_client_timed
    udp_received udp_replied udp_echoed udp_sent_empty udp_emptied leave_udp set_receive_timeout
    UdpSocket.bind UdpSocket.send_to UdpSocket.send_with UdpSocket.finish_send receive_from received
    query_endpoint read_endpoint retry attach create_socket SocketHandle.close
    SocketHandle.move_assign matches construct destroy first_unused from_native to_native
    IpAddress.loopback IpAddress.from_bytes SocketEndpoint.equal IpAddress.equal
succeeds_udp = refl
