-- ===== src/Net/SocketEndpoint/Accept.antt =====
-- The constructor of SocketEndpoint of include/net/socket_endpoint.hpp.
use cpp_core_systems.Prelude.{ℕ, ◌≤◌, arith}
use cpp_core_systems.Net.IpAddress.{IpAddress}
use cpp_core_systems.Net.IpAddress.Valid
use cpp_core_systems.Net.SocketEndpoint.{endpoint, uint16_max, uint32_max}
use cpp_core_systems.Net.SocketEndpoint.Text.{IsValid}

-- What the constructor makes of a valid address.
pub endpoint-IsValid :
    (a : IpAddress) (port scope_id : ℕ)
    → Valid.IsValid a
    → port ≤ uint16_max
    → scope_id ≤ uint32_max
    → IsValid (endpoint a port scope_id)
endpoint-IsValid a port scope_id v p s = record {
  address = v;
  port = p;
  scope = ground arith;
  unscoped = λ e. rw e;
}
