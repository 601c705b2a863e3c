-- ===== src/Net/SocketHelpers/Query.antt =====
-- QueryEndpoint of include/net/detail/socket_helpers.hpp, which GetLocalEndpoint and
-- GetPeerEndpoint of the socket classes are.
use cpp_core_systems.Prelude.{
  ℕ, ◌≡◌, refl, Bool, false, ◌==◌, if◌then◌else◌, Option, none, some, Bool-cases, inl, inr,
}
use cpp_core_systems.Net.SocketEndpoint.{SocketEndpoint}
use cpp_core_systems.Net.SocketEndpoint.Text.{IsValid}
use cpp_core_systems.Net.SocketEndpoint.Native.{from_native}
use cpp_core_systems.Net.SocketEndpoint.Native.RoundTrip.{from_native-IsValid}
use cpp_core_systems.Net.SocketError.{Errors, SocketResult, success, failure}
use cpp_core_systems.Net.System.{System, IsSystem, invalid_handle, Kept}
use cpp_core_systems.Net.SocketHelpers.{last_error, invalid_socket_error, invalid_argument_error}

-- What is known of a result.
abbrev pub IsValidResult : SocketResult SocketEndpoint → Type 0
IsValidResult (success e) = IsValid e
IsValidResult (failure error) = Unit {0}

module _ (sys : System) (std : Errors) where
  -- The end of QueryEndpoint, and of ReceiveFrom.
  unfoldable pub read_endpoint : sys.headers.Storage × ℕ → SocketResult SocketEndpoint
  read_endpoint (storage, length) = elim (from_native sys.headers (some storage) length) [
    | none ↦ failure (invalid_argument_error sys std)
    | some e ↦ success e
  ]

  unfoldable pub query_endpoint :
      ℕ → (peer : Bool) → sys.State → SocketResult SocketEndpoint × sys.State
  unfolding read_endpoint
  query_endpoint handle peer s =
      if handle == invalid_handle
      then (failure (invalid_socket_error sys std), s)
      else (let (found, t) = if peer then sys.getpeername handle s else sys.getsockname handle s in
          (
            elim found [
              | none ↦ failure (last_error sys std t)
              | some address ↦ read_endpoint address
            ],
            t,
          ))

  module _ (laws : IsSystem sys) where
    pub query_keeps : (h : ℕ) (t : sys.State) → Kept sys t (query_endpoint h false t).1
    unfolding query_endpoint
    query_keeps h t d = elim (Bool-cases (h == invalid_handle)) [
      | inl bad ↦ rw bad refl
      | inr good ↦ rw good (laws.getsockname_keeps h t d)
    ]

    pub read_endpoint_lem :
        (address : sys.headers.Storage × ℕ) → IsValidResult (read_endpoint address)
    unfolding read_endpoint
    read_endpoint_lem (storage, length) =
        by_result (from_native sys.headers (some storage) length) refl
      where
        by_result :
            (r : Option SocketEndpoint)
            → from_native sys.headers (some storage) length ≡ r
            → IsValidResult
                (elim r [ none ↦ failure (invalid_argument_error sys std) | some e ↦ success e ])
        by_result none e = tt
        by_result (some e) accepted =
            from_native-IsValid sys.headers laws.headers_laws storage length e accepted

    -- On a system whose address structures have their widths, for every handle, valid or not:
    -- whatever QueryEndpoint returns is a failure or a valid endpoint.
    pub query_endpoint_lem :
        (handle : ℕ) (peer : Bool) (s : sys.State) → IsValidResult (query_endpoint handle peer s).0
    unfolding query_endpoint
    query_endpoint_lem handle peer s = elim (Bool-cases (handle == invalid_handle)) [
      | inl invalid ↦ rw invalid tt
      | inr valid ↦
          rw valid (answered (if peer then sys.getpeername handle s else sys.getsockname handle s))
    ]
      where
        answered :
            (r : Option (sys.headers.Storage × ℕ) × sys.State)
            → IsValidResult (elim r.0 [
              | none ↦ failure (last_error sys std r.1)
              | some address ↦ read_endpoint address
            ])
        answered (none, t) = tt
        answered (some address, t) = read_endpoint_lem address
