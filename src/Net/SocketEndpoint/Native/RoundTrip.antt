-- ===== src/Net/SocketEndpoint/Native/RoundTrip.antt =====
-- ToNative and FromNative of include/net/socket_endpoint.hpp, one after the other.
use cpp_core_systems.Prelude.{
  ℕ, ◌≤◌, ◌≡◌, ◌⊎◌, inl, inr, ◌∙◌, sym, ap, ap₂, subst, if◌then◌else◌, true, false, some, List,
  arith, take, ◌==◌, Bool-cases, All, All-take, length-take, leb, ◌&&◌,
}
use cpp_core_systems.Net.IpAddress.{
  ipv4, ipv6, IpAddress, same_version, IpVersion, byte_count, span_bytes, from_bytes,
}
use cpp_core_systems.Net.IpAddress.Valid
use cpp_core_systems.Net.IpAddress.Valid.{from_bytes-span, from_bytes_lem}
use cpp_core_systems.Net.SocketEndpoint.{SocketEndpoint, endpoint}
use cpp_core_systems.Net.SocketEndpoint.Text.{IsValid, version-cases, plain-eq, scoped-eq}
use cpp_core_systems.Net.SocketEndpoint.Accept.{endpoint-IsValid}
use cpp_core_systems.Net.SocketEndpoint.Native.{
  IsIn, IsIn6, Sockets, IsSockets, SockaddrIn, SockaddrIn6, to_native, from_native,
}

from_bytes-IsValid :
    (bytes : List ℕ) (v : IpVersion) (a : IpAddress)
    → All Valid.IsByte bytes
    → from_bytes bytes v ≡ some a
    → Valid.IsValid a
from_bytes-IsValid bytes v a b h = elim (from_bytes_lem bytes v b) [
  | inl (failed, _) ↦ absurd (cc)
  | inr (c, made, fits, valid, _, _) ↦ subst Valid.IsValid (some-injective c a (sym made ∙ h)) valid
]
  where
    some-injective : (c a : IpAddress) → some c ≡ some a → c ≡ a
    some-injective c a e = cc

module _ (S : Sockets) (laws : IsSockets S) where
  pub from_in :
      (addr : S.Storage) (len : ℕ) (a : IpAddress)
      → S.sizeof_in ≤ len
      → S.sa_family addr ≡ S.af_inet
      → from_bytes (S.to_in addr).sin_addr ipv4 ≡ some a
      → from_native S (some addr) len ≡ some (endpoint a (S.ntohs (S.to_in addr).sin_port) 0)
  unfolding from_native
  from_in addr len a long family found = ground (arith, laws.smaller_in)

  pub from_in6 :
      (addr : S.Storage) (len : ℕ) (a : IpAddress)
      → S.sizeof_in6 ≤ len
      → S.sa_family addr ≡ S.af_inet6
      → from_bytes (S.to_in6 addr).sin6_addr ipv6 ≡ some a
      → from_native S (some addr) len
        ≡ some (endpoint a (S.ntohs (S.to_in6 addr).sin6_port) (S.to_in6 addr).sin6_scope_id)
  unfolding from_native
  from_in6 addr len a long family found = ground (arith, laws.smaller_in6, laws.families)

  module _ (e : SocketEndpoint) (v : IsValid e) where
    sin : SockaddrIn
    sin = record {
      sin_family = S.af_inet;
      sin_port = S.htons e.port;
      sin_addr = take 4 e.address.bytes;
    }

    sin6 : SockaddrIn6
    sin6 = record {
      sin6_family = S.af_inet6;
      sin6_port = S.htons e.port;
      sin6_addr = take 16 e.address.bytes;
      sin6_scope_id = e.scope_id;
    }

    sin-IsIn : IsIn sin
    unfolding sin
    sin-IsIn = (
      omega (arith, length-take 4 e.address.bytes, v.address.sixteen),
      All-take _ 4 e.address.bytes v.address.in_range,
    )

    sin6-IsIn6 : IsIn6 sin6
    unfolding sin6
    sin6-IsIn6 = (
      omega (arith, length-take 16 e.address.bytes, v.address.sixteen),
      All-take _ 16 e.address.bytes v.address.in_range,
      v.scope,
    )

    bytes_of :
        (w : IpVersion) (n : ℕ)
        → e.address.version ≡ w
        → byte_count e.address ≡ n
        → from_bytes (take n e.address.bytes) w ≡ some e.address
    unfolding span_bytes
    bytes_of w n same count =
        ap₂ (λ k u. from_bytes (take k e.address.bytes) u) (sym count) (sym same)
        ∙ from_bytes-span e.address v.address

    to_in : same_version e.address.version ipv4 ≡ true → to_native S e ≡ (S.of_in sin, S.sizeof_in)
    unfolding to_native sin
    to_in test = rw test

    to_in6 :
        same_version e.address.version ipv4 ≡ false → to_native S e ≡ (S.of_in6 sin6, S.sizeof_in6)
    unfolding to_native sin6
    to_in6 test = rw test

    round_in :
        e.address.version ≡ ipv4
        → from_native S (some (S.of_in sin)) S.sizeof_in ≡ some (endpoint e.address e.port 0)
    unfolding sin
    round_in v4 =
        let copied = laws.in_in sin sin-IsIn in
        let bytes : from_bytes (S.to_in (S.of_in sin)).sin_addr ipv4 ≡ some e.address =
          rw copied (bytes_of ipv4 4 v4 (ap (λ w. if same_version w ipv4 then 4 else 16) v4)) in
        from_in (S.of_in sin) S.sizeof_in e.address (omega arith) (laws.family_in sin) bytes
        ∙ ap (λ p. some (endpoint e.address p 0))
            (ap (λ a. S.ntohs a.sin_port) copied ∙ laws.host_order e.port v.port)

    round_in6 :
        e.address.version ≡ ipv6
        → from_native S (some (S.of_in6 sin6)) S.sizeof_in6
          ≡ some (endpoint e.address e.port e.scope_id)
    unfolding sin6
    round_in6 v6 =
        let copied = laws.in6_in6 sin6 sin6-IsIn6 in
        let bytes : from_bytes (S.to_in6 (S.of_in6 sin6)).sin6_addr ipv6 ≡ some e.address =
          rw copied (bytes_of ipv6 16 v6 (ap (λ w. if same_version w ipv4 then 4 else 16) v6)) in
        from_in6 (S.of_in6 sin6) S.sizeof_in6 e.address (omega arith) (laws.family_in6 sin6) bytes
        ∙ ap₂ (λ p s. some (endpoint e.address p s))
            (ap (λ a. S.ntohs a.sin6_port) copied ∙ laws.host_order e.port v.port)
            (ap (λ a. a.sin6_scope_id) copied)

    -- For socket address structures that give back what is copied into them, FromNative of what
    -- ToNative makes of a valid endpoint is that endpoint, scope included.
    pub from_native-to_native : from_native S (some (to_native S e).0) (to_native S e).1 ≡ some e
    from_native-to_native = elim (version-cases e.address v.address) [
      | inl v4 ↦
          rw (to_in (ap (λ w. same_version w ipv4) v4))
            (round_in v4 ∙ ap some (plain-eq e (v.unscoped v4)))
      | inr v6 ↦
          rw (to_in6 (ap (λ w. same_version w ipv4) v6))
            (round_in6 v6 ∙ ap some (scoped-eq e (ap (λ w. same_version w ipv6) v6)))
    ]

  found_family :
      (addr : S.Storage) (len : ℕ) (e : SocketEndpoint)
      → from_native S (some addr) len ≡ some e
      → ((a : IpAddress) × (from_bytes (S.to_in addr).sin_addr ipv4 ≡ some a)
          × (e ≡ endpoint a (S.ntohs (S.to_in addr).sin_port) 0))
        ⊎ ((a : IpAddress) × (from_bytes (S.to_in6 addr).sin6_addr ipv6 ≡ some a)
            × (e ≡ endpoint a (S.ntohs (S.to_in6 addr).sin6_port) (S.to_in6 addr).sin6_scope_id))
  unfolding from_native
  found_family addr len e h =
      elim (Bool-cases ((S.sa_family addr == S.af_inet) && leb S.sizeof_in len)) [
        | inl four ↦ inl (ground arith)
        | inr other ↦ inr (ground arith)
      ]

  -- For socket address structures whose fields have their widths, whatever storage and length
  -- FromNative accepts, the endpoint that it returns is valid.
  pub from_native-IsValid :
      (addr : S.Storage) (len : ℕ) (e : SocketEndpoint)
      → from_native S (some addr) len ≡ some e
      → IsValid e
  from_native-IsValid addr len e h = elim (found_family addr len e h) [
    | inl (a, made, is) ↦ rw is (
        endpoint-IsValid a (S.ntohs (S.to_in addr).sin_port) 0
          (from_bytes-IsValid (S.to_in addr).sin_addr ipv4 a (laws.in_addr_bytes addr) made)
          (laws.port_range (S.to_in addr).sin_port) (omega arith))
    | inr (a, made, is) ↦ rw is (
        endpoint-IsValid a (S.ntohs (S.to_in6 addr).sin6_port) (S.to_in6 addr).sin6_scope_id
          (from_bytes-IsValid (S.to_in6 addr).sin6_addr ipv6 a (laws.in6_addr_bytes addr) made)
          (laws.port_range (S.to_in6 addr).sin6_port) (laws.scope_range addr))
  ]
