-- ===== src/Net/SocketEndpoint/Native.antt =====
-- ToNative and FromNative, over the system's socket address structures.
pub mod RoundTrip
pub mod Reading
use cpp_core_systems.Prelude.{
  ℕ, ◌≤◌, ◌≡◌, refl, ◌≢◌, ◌⊎◌, inl, inr, ◌∙◌, sym, ap, subst, true, false, Bool, ◌&&◌, ◌||◌, Option,
  none, some, List, arith, length, take, All, ◌==◌, ltb, leb, if◌then◌else◌, Bool-cases,
}
use cpp_core_systems.Net.IpAddress
use cpp_core_systems.Net.IpAddress.{ipv4, ipv6, IpAddress, same_version}
use cpp_core_systems.Net.IpAddress.Valid
use cpp_core_systems.Net.IpAddress.Valid.{IsByte}
use cpp_core_systems.Net.SocketEndpoint.{SocketEndpoint, endpoint, uint16_max, uint32_max}
use cpp_core_systems.Net.SocketEndpoint.Text.{IsValid, version-cases, plain-eq, scoped-eq}
use cpp_core_systems.Net.SocketEndpoint.Accept.{endpoint-IsValid}

-- The fields of sockaddr_in and sockaddr_in6 that the code sets and reads.
pub record SockaddrIn : Type 0 where
  pub sin_family : ℕ
  pub sin_port : ℕ
  pub sin_addr : List ℕ

pub record SockaddrIn6 : Type 0 where
  pub sin6_family : ℕ
  pub sin6_port : ℕ
  pub sin6_addr : List ℕ
  pub sin6_scope_id : ℕ

-- The system's headers: sockaddr_storage with std::memcpy into and out of it, the constants, and
-- the byte order.
pub record Sockets : Type 1 where
  pub Storage : Type 0
  pub of_in : SockaddrIn → Storage
  pub of_in6 : SockaddrIn6 → Storage
  pub to_in : Storage → SockaddrIn
  pub to_in6 : Storage → SockaddrIn6
  pub sa_family : Storage → ℕ
  pub af_inet : ℕ
  pub af_inet6 : ℕ
  pub sizeof_sockaddr : ℕ
  pub sizeof_in : ℕ
  pub sizeof_in6 : ℕ
  pub htons : ℕ → ℕ
  pub ntohs : ℕ → ℕ

-- The fields have their widths.
abbrev pub IsIn : SockaddrIn → Type 0
IsIn a = (length a.sin_addr ≡ 4) × All IsByte a.sin_addr

abbrev pub IsIn6 : SockaddrIn6 → Type 0
IsIn6 a = (length a.sin6_addr ≡ 16) × All IsByte a.sin6_addr × (a.sin6_scope_id ≤ uint32_max)

-- What is copied in is copied out again, the family field is the same in all three structures, and
-- the fields have their widths.
pub record IsSockets (S : Sockets) : Type 0 where
  pub in_in : (a : SockaddrIn) → IsIn a → S.to_in (S.of_in a) ≡ a
  pub in6_in6 : (a : SockaddrIn6) → IsIn6 a → S.to_in6 (S.of_in6 a) ≡ a
  pub family_in : (a : SockaddrIn) → S.sa_family (S.of_in a) ≡ a.sin_family
  pub family_in6 : (a : SockaddrIn6) → S.sa_family (S.of_in6 a) ≡ a.sin6_family
  pub families : S.af_inet ≢ S.af_inet6
  pub smaller_in : S.sizeof_sockaddr ≤ S.sizeof_in
  pub smaller_in6 : S.sizeof_sockaddr ≤ S.sizeof_in6
  pub host_order : (p : ℕ) → p ≤ uint16_max → S.ntohs (S.htons p) ≡ p
  pub port_range : (p : ℕ) → S.ntohs p ≤ uint16_max
  pub in_addr_size : (s : S.Storage) → length (S.to_in s).sin_addr ≡ 4
  pub in_addr_bytes : (s : S.Storage) → All IsByte (S.to_in s).sin_addr
  pub in6_addr_size : (s : S.Storage) → length (S.to_in6 s).sin6_addr ≡ 16
  pub in6_addr_bytes : (s : S.Storage) → All IsByte (S.to_in6 s).sin6_addr
  pub scope_range : (s : S.Storage) → (S.to_in6 s).sin6_scope_id ≤ uint32_max

module _ (S : Sockets) where
  -- The storage and its length.
  unfoldable pub to_native : SocketEndpoint → S.Storage × ℕ
  to_native e =
      if same_version e.address.version ipv4
      then (
        S.of_in (record {
          sin_family = S.af_inet;
          sin_port = S.htons e.port;
          sin_addr = take 4 e.address.bytes;
        }),
        S.sizeof_in,
      )
      else (
        S.of_in6 (record {
          sin6_family = S.af_inet6;
          sin6_port = S.htons e.port;
          sin6_addr = take 16 e.address.bytes;
          sin6_scope_id = e.scope_id;
        }),
        S.sizeof_in6,
      )

  -- `none` is a null pointer.
  unfoldable pub from_native : Option S.Storage → ℕ → Option SocketEndpoint
  from_native none len = none
  from_native (some addr) len =
      if ltb len S.sizeof_sockaddr
      then none
      else if (S.sa_family addr == S.af_inet) && leb S.sizeof_in len
      then elim (IpAddress.from_bytes (S.to_in addr).sin_addr ipv4) [
        | none ↦ none
        | some ip ↦ some (endpoint ip (S.ntohs (S.to_in addr).sin_port) 0)
      ]
      else if (S.sa_family addr == S.af_inet6) && leb S.sizeof_in6 len
      then elim (IpAddress.from_bytes (S.to_in6 addr).sin6_addr ipv6) [
        | none ↦ none
        | some ip ↦
            some (endpoint ip (S.ntohs (S.to_in6 addr).sin6_port) (S.to_in6 addr).sin6_scope_id)
      ]
      else none
