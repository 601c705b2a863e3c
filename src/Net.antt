-- ===== src/Net.antt =====
-- include/net.
pub mod Asserts
pub mod Benchmark
pub mod Channel
pub mod HandleExample
pub mod IpAddress
pub mod Link
pub mod Loopback
pub mod Machine
pub mod Pair
pub mod SocketEndpoint
pub mod SocketError
pub mod SocketHandle
pub mod SocketHelpers
pub mod SocketResult
pub mod SocketRuntime
pub mod StandIn
pub mod System
pub mod TcpListener
pub mod TcpSocket
pub mod Tests
pub mod Text
pub mod Transfer
pub mod UdpLoopback
pub mod UdpSocket
pub mod Wire
