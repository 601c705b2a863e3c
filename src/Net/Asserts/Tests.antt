-- ===== src/Net/Asserts/Tests.antt =====
-- The results of the socket classes on the stand-in connection.
use cpp_core_systems.Prelude.{true, [], ◌∷◌}
use cpp_core_systems.Net.IpAddress.{any, ipv4}
use cpp_core_systems.Net.SocketEndpoint.{SocketEndpoint}
use cpp_core_systems.Net.SocketError.Tests.{codes, codes-IsErrors}
use cpp_core_systems.Net.SocketHelpers.Query.{query_endpoint}
use cpp_core_systems.Net.TcpSocket
use cpp_core_systems.Net.TcpListener
use cpp_core_systems.Net.UdpSocket
use cpp_core_systems.Net.UdpSocket.Receive.{receive_from}
use cpp_core_systems.Net.Asserts.{Sound, SoundRun}
use cpp_core_systems.Net.Asserts.Tcp.{tcp_socket-Sound, tcp_listener-Sound}
use cpp_core_systems.Net.Asserts.Udp.{SoundSend, udp_socket-Sound}
use cpp_core_systems.Net.SocketError.{SocketResult}
use cpp_core_systems.Net.Wire.{Wire, wire, wire-SetsErrno}
use cpp_core_systems.Net.System.{invalid_handle}

abbrev start : Wire
start = record { arrived = []; under_way = []; signal = true; errno = 0 }

abbrev nowhere : SocketEndpoint
nowhere = record { address = any ipv4; port = 80; scope_id = 0 }

-- The result of Connect of an object that is valid.
abbrev connected : SocketResult (Unit {0})
connected = (TcpSocket.connect wire codes 5 nowhere start).0

tcp_socket-Sound_example :
    Sound (TcpSocket.connect wire codes 5 nowhere start).0
    × SoundRun wire codes (TcpSocket.send wire codes 2 5 (7 ∷ []) start)
    × SoundRun wire codes (TcpSocket.receive wire codes 2 5 3 start)
    × Sound (TcpSocket.shutdown wire codes 5 (TcpSocket.SocketShutdown.outside 7) start).0
    × Sound (query_endpoint wire codes 5 true start).0
tcp_socket-Sound_example =
    tcp_socket-Sound wire codes codes-IsErrors wire-SetsErrno 2 5 3 (7 ∷ []) nowhere
      (TcpSocket.SocketShutdown.outside 7) true start

tcp_listener-Sound_example :
    Sound (TcpListener.bind wire codes invalid_handle nowhere start).0
    × Sound (TcpListener.listen wire codes invalid_handle 10 start).0
    × SoundRun wire codes (TcpListener.accept wire codes 2 invalid_handle start)
tcp_listener-Sound_example =
    tcp_listener-Sound wire codes codes-IsErrors wire-SetsErrno 2 invalid_handle 10 nowhere start

udp_socket-Sound_example :
    Sound (UdpSocket.bind wire codes 5 nowhere start).0
    × SoundSend (UdpSocket.send_to wire codes 2 5 (7 ∷ []) nowhere start)
    × SoundRun wire codes (receive_from wire codes 2 5 10 start)
udp_socket-Sound_example =
    udp_socket-Sound wire codes codes-IsErrors wire-SetsErrno 2 5 10 (7 ∷ []) nowhere start
