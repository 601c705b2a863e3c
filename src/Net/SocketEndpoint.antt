-- ===== src/Net/SocketEndpoint.antt =====
-- include/net/socket_endpoint.hpp: the endpoint, its text form, its order and its hash.
pub mod Accept
pub mod Grammar
pub mod Native
pub mod Order
pub mod Tests
pub mod Text
use Prim.Native.Nat.{bit_xor, compare, Ordering}
use cpp_core_systems.Prelude.{
  ℕ, zero, suc, ◌+◌, ◌-◌, ◌*◌, ◌%◌, ◌^◌, ◌<◌, ◌≡◌, Bool, true, false, not, ◌&&◌, ◌||◌, Option, none,
  some, List, [], ◌∷◌, ◌++◌, ◌==◌, leb, if◌then◌else◌, length, take, drop, get_or,
}
use cpp_core_systems.Net.Text.{find, rfind, substr, decimal, parse_number}
use cpp_core_systems.Net.IpAddress
use cpp_core_systems.Net.IpAddress.{
  IpVersion, ipv4, ipv6, same_version, IpAddress, Inet, hash_prime,
}

pub record SocketEndpoint : Type 0 where
  pub address : IpAddress
  pub port : ℕ
  pub scope_id : ℕ

-- SocketEndpoint(address, port, scopeId): only an IPv6 address keeps a scope.
abbrev pub endpoint : IpAddress → ℕ → ℕ → SocketEndpoint
endpoint a port scope_id = record {
  address = a;
  port = port;
  scope_id = if same_version a.version ipv6 then scope_id else 0;
}

-- SocketEndpoint().
unfoldable pub default_endpoint : SocketEndpoint
default_endpoint = record { address = IpAddress.any ipv4; port = 0; scope_id = 0 }

abbrev pub uint16_max : ℕ
uint16_max = 65535

abbrev pub uint32_max : ℕ
uint32_max = 4294967295

unfoldable pub scope_text : ℕ → List ℕ
scope_text scope_id = if scope_id == 0 then [] else b'%' ∷ decimal scope_id

unfoldable pub to_string : Inet → SocketEndpoint → List ℕ
unfolding scope_text
to_string net e =
    let ip = IpAddress.to_string net e.address in
    let port = decimal e.port in
    if same_version e.address.version ipv6
    then b'[' ∷ ((ip ++ scope_text e.scope_id) ++ (b']' ∷ b':' ∷ port))
    else ip ++ (b':' ∷ port)

-- The end of both branches of Parse: the address must have the version `v`.
unfoldable pub finish : Inet → IpVersion → List ℕ → List ℕ → ℕ → Option SocketEndpoint
finish net v ip_part port_part scope_id = elim (IpAddress.parse net ip_part) [
  | none ↦ none
  | some ip ↦
      if not (same_version ip.version v) then none else elim (parse_number uint16_max port_part) [
        | none ↦ none
        | some port ↦ some (endpoint ip port scope_id)
      ]
]

-- The text between the brackets: "address" or "address%scope".
unfoldable pub parse_scoped : Inet → List ℕ → List ℕ → Option SocketEndpoint
unfolding finish
parse_scoped net ip_part port_part = elim (find b'%' ip_part) [
  | none ↦ finish net ipv6 ip_part port_part 0
  | some percent ↦ elim (parse_number uint32_max (drop (percent + 1) ip_part)) [
    | none ↦ none
    | some scope_id ↦ finish net ipv6 (take percent ip_part) port_part scope_id
  ]
]

-- "[address]:port" and "[address%scope]:port".
unfoldable pub parse_bracketed : Inet → List ℕ → Option SocketEndpoint
parse_bracketed net str = elim (find b']' str) [
  | none ↦ none
  | some close ↦
      if leb (length str) (close + 1) || not (get_or str (close + 1) 0 == b':')
      then none
      else parse_scoped net (substr str 1 (close - 1)) (drop (close + 2) str)
]

-- "address:port".
unfoldable pub parse_plain : Inet → List ℕ → Option SocketEndpoint
parse_plain net str = elim (rfind b':' str) [
  | none ↦ none
  | some colon ↦
      if colon == 0 || leb (length str) (colon + 1)
      then none
      else finish net ipv4 (take colon str) (drop (colon + 1) str) 0
]

unfoldable pub parse : Inet → List ℕ → Option SocketEndpoint
parse net [] = none
parse net (c ∷ s) = if c == b'[' then parse_bracketed net (c ∷ s) else parse_plain net (c ∷ s)

unfoldable pub equal : SocketEndpoint → SocketEndpoint → Bool
equal l r =
    (IpAddress.equal l.address r.address && (l.port == r.port)) && (l.scope_id == r.scope_id)

unfoldable pub three_way : SocketEndpoint → SocketEndpoint → Ordering
three_way l r = elim (IpAddress.three_way l.address r.address) [
  | Ordering.lt ↦ Ordering.lt
  | Ordering.gt ↦ Ordering.gt
  | Ordering.eq ↦ elim (compare l.port r.port) [
    | Ordering.lt ↦ Ordering.lt
    | Ordering.gt ↦ Ordering.gt
    | Ordering.eq ↦ compare l.scope_id r.scope_id
  ]
]

unfoldable pub hash : SocketEndpoint → ℕ
hash e = IpAddress.hash_step (IpAddress.hash_step (IpAddress.hash e.address) e.port) e.scope_id
