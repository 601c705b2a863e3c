-- ===== src/Net/SocketEndpoint/Native/Reading.antt =====
-- FromNative of include/net/socket_endpoint.hpp on every storage and every length.
use cpp_core_systems.Prelude.{
  ℕ, ◌<◌, ◌≤◌, ◌≡◌, refl, ◌≢◌, ◌⊎◌, inl, inr, false, none, some, arith, leb, ◌==◌, ◌&&◌, List,
  Bool-cases, All,
}
use cpp_core_systems.Net.IpAddress.{IpVersion, ipv4, ipv6, IpAddress, span_bytes, from_bytes}
use cpp_core_systems.Net.IpAddress.Valid
use cpp_core_systems.Net.IpAddress.Valid.{from_bytes_lem, Fits}
use cpp_core_systems.Net.SocketEndpoint.{SocketEndpoint, endpoint}
use cpp_core_systems.Net.SocketEndpoint.Text.{IsValid}
use cpp_core_systems.Net.SocketEndpoint.Accept.{endpoint-IsValid}
use cpp_core_systems.Net.SocketEndpoint.Native.{Sockets, IsSockets, from_native}
use cpp_core_systems.Net.SocketEndpoint.Native.RoundTrip.{from_in, from_in6}

-- Enough bytes of a version make an address that shows them.
shown :
    (bytes : List ℕ) (v : IpVersion)
    → All Valid.IsByte bytes
    → Fits v bytes
    → (a : IpAddress) × (from_bytes bytes v ≡ some a)
      × Valid.IsValid a
      × (a.version ≡ v)
      × (span_bytes a ≡ bytes)
shown bytes v b fits = elim (from_bytes_lem bytes v b) [
  | inl (_, short) ↦ absurd (short fits)
  | inr (a, made, _, valid, version, span) ↦ (a, made, valid, version, span)
]

module _ (S : Sockets) where
  -- The storage holds a structure that lies within the length and says what the endpoint is.
  abbrev pub ReadsAs : S.Storage → ℕ → SocketEndpoint → Type 0
  ReadsAs addr len e =
      ((S.sa_family addr ≡ S.af_inet)
        × (S.sizeof_in ≤ len)
        × (e.address.version ≡ ipv4)
        × (span_bytes e.address ≡ (S.to_in addr).sin_addr)
        × (e.port ≡ S.ntohs (S.to_in addr).sin_port)
        × (e.scope_id ≡ 0))
      ⊎ ((S.sa_family addr ≡ S.af_inet6)
          × (S.sizeof_in6 ≤ len)
          × (e.address.version ≡ ipv6)
          × (span_bytes e.address ≡ (S.to_in6 addr).sin6_addr)
          × (e.port ≡ S.ntohs (S.to_in6 addr).sin6_port)
          × (e.scope_id ≡ (S.to_in6 addr).sin6_scope_id))

  -- Neither structure is there.
  abbrev pub Unreadable : S.Storage → ℕ → Type 0
  Unreadable addr len =
      ((S.sa_family addr ≢ S.af_inet) ⊎ (len < S.sizeof_in))
      × ((S.sa_family addr ≢ S.af_inet6) ⊎ (len < S.sizeof_in6))

  -- What FromNative makes of a storage and a length.
  abbrev pub Reading : S.Storage → ℕ → Type 0
  Reading addr len =
      ((e : SocketEndpoint) × (from_native S (some addr) len ≡ some e)
        × IsValid e
        × ReadsAs addr len e)
      ⊎ ((from_native S (some addr) len ≡ none) × Unreadable addr len)

  module _ (laws : IsSockets S) where
    found_in :
        (addr : S.Storage) (len : ℕ)
        → S.sa_family addr ≡ S.af_inet
        → S.sizeof_in ≤ len
        → Reading addr len
    found_in addr len family long =
        let bytes = (S.to_in addr).sin_addr in
        let port = S.ntohs (S.to_in addr).sin_port in
        let (a, made, valid, version, span) =
          shown bytes ipv4 (laws.in_addr_bytes addr) (laws.in_addr_size addr) in
        inl (
          endpoint a port 0,
          from_in S laws addr len a long family made,
          endpoint-IsValid a port 0 valid (laws.port_range (S.to_in addr).sin_port) (omega arith),
          inl (family, long, version, span, refl, ground arith),
        )

    found_in6 :
        (addr : S.Storage) (len : ℕ)
        → S.sa_family addr ≡ S.af_inet6
        → S.sizeof_in6 ≤ len
        → Reading addr len
    found_in6 addr len family long =
        let bytes = (S.to_in6 addr).sin6_addr in
        let port = S.ntohs (S.to_in6 addr).sin6_port in
        let scope = (S.to_in6 addr).sin6_scope_id in
        let (a, made, valid, version, span) =
          shown bytes ipv6 (laws.in6_addr_bytes addr) (laws.in6_addr_size addr) in
        inl (
          endpoint a port scope,
          from_in6 S laws addr len a long family made,
          endpoint-IsValid a port scope valid (laws.port_range (S.to_in6 addr).sin6_port)
              (laws.scope_range addr),
          inr (family, long, version, span, refl, rw version refl),
        )

    unread :
        (addr : S.Storage) (len : ℕ)
        → (S.sa_family addr == S.af_inet) && leb S.sizeof_in len ≡ false
        → (S.sa_family addr == S.af_inet6) && leb S.sizeof_in6 len ≡ false
        → Reading addr len
    unfolding from_native
    unread addr len four six = inr (ground arith, (ground arith, ground arith))

    -- On socket headers with the laws IsSockets, among them that the fields of the address
    -- structures have their widths: FromNative of any storage and any length gives an endpoint
    -- exactly where the family is AF_INET or AF_INET6 and the whole structure of that family lies
    -- within the length; the endpoint is then valid, and has the version of the family and the
    -- address, port and scope of the structure, with scope zero for AF_INET.
    pub from_native_lem : (addr : S.Storage) (len : ℕ) → Reading addr len
    from_native_lem addr len =
        elim (Bool-cases ((S.sa_family addr == S.af_inet) && leb S.sizeof_in len)) [
          | inl four ↦ found_in addr len (ground arith) (ground arith)
          | inr not_four ↦
              elim (Bool-cases ((S.sa_family addr == S.af_inet6) && leb S.sizeof_in6 len)) [
                | inl six ↦ found_in6 addr len (ground arith) (ground arith)
                | inr not_six ↦ unread addr len not_four not_six
              ]
        ]
