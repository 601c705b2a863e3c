-- ===== src/Net/Asserts.antt =====
-- The assertion in SocketResult::Failure: which errors the functions of include/net hand to it.
pub mod Tests
pub mod Tcp
pub mod Udp
use cpp_core_systems.Prelude.{
  ℕ, zero, suc, ◌≡◌, ◌≢◌, refl, ◌∙◌, arith, Bool, true, false, not, ◌&&◌, ◌==◌, leb, if◌then◌else◌,
  Option, none, some, List, length, Bool-cases, Option-cases, inl, inr,
}
use cpp_core_systems.Net.IpAddress.{IpVersion, ipv4, ipv6, same_version}
use cpp_core_systems.Net.SocketEndpoint.{SocketEndpoint}
use cpp_core_systems.Net.SocketEndpoint.Native.{to_native, from_native}
use cpp_core_systems.Net.SocketError.{
  Errc, Errors, has_error, is_interrupted, SocketResult, success, failure, make_error, SocketError,
  already_connected, bad_file_descriptor, invalid_argument, message_size,
}
use cpp_core_systems.Net.SocketError.Classes.{IsErrors}
use cpp_core_systems.Net.System.{System, IsSystem, SetsErrno, invalid_handle}
use cpp_core_systems.Net.SocketHandle
use cpp_core_systems.Net.SocketHandle.{is_valid}
use cpp_core_systems.Net.SocketHelpers.{
  last_error, failed, create_socket, configure_tcp_socket, create_tcp_socket,
}
use cpp_core_systems.Net.SocketHelpers.Attach.{attach}
use cpp_core_systems.Net.SocketHelpers.Retry.{retry, some-injective}
use cpp_core_systems.Net.SocketHelpers.Query.{query_endpoint, read_endpoint}
use cpp_core_systems.Net.TcpSocket
use cpp_core_systems.Net.TcpListener
use cpp_core_systems.Net.UdpSocket
use cpp_core_systems.Net.UdpSocket.Receive.{receive_from, received}

-- A failure has an error that is not success.
abbrev pub Sound {ℓ} : {A : Type ℓ} → SocketResult A → Type 0
Sound (success x) = Unit {0}
Sound (failure error) = has_error error ≡ true

module _ (sys : System) (std : Errors) where
  -- The result of a function that returns the state with it.
  abbrev pub SoundPair {ℓ} : (A : Type ℓ) → SocketResult A × sys.State → Type 0
  SoundPair A r = Sound r.0

  -- The result of a loop, if there is fuel for it.
  abbrev pub SoundRun {ℓ κ} : {A : Type ℓ} {S : Type κ} → Option (SocketResult A × S) → Type 0
  SoundRun none = Unit {0}
  SoundRun (some r) = Sound r.0

  pub last-Sound : (s : sys.State) → sys.errno s ≢ 0 → has_error (last_error sys std s) ≡ true
  last-Sound s set = ground arith

  module _ (errors : IsErrors std) (sets : SetsErrno sys) where
    pub made-Sound : (c : Errc) → has_error (make_error std c) ≡ true
    made-Sound c = let nonzero = errors.nonzero c in ground arith

    pub retry-Sound {ℓ} :
        {A : Type ℓ} (call : sys.State → Option A × sys.State) (fuel : ℕ) (s : sys.State)
        → ((t : sys.State) → (call t).0 ≡ none → sys.errno (call t).1 ≢ 0)
        → SoundRun (retry sys std call fuel s)
    unfolding retry
    retry-Sound call zero s set = tt
    retry-Sound call (suc k) s set = elim (Option-cases (call s).0) [
      | inr (x, e) ↦ rw (retry, e) tt
      | inl e ↦ elim (Bool-cases (is_interrupted std (last_error sys std (call s).1))) [
        | inl stop ↦ rw (retry, e, stop) (retry-Sound call k (call s).1 set)
        | inr error ↦ rw (retry, e, error) (last-Sound (call s).1 (set s e))
      ]
    ]

    pub create_socket-Sound :
        (version : IpVersion) (type protocol : ℕ) (s : sys.State)
        → Sound (create_socket sys std version type protocol s).0
    unfolding create_socket
    create_socket-Sound version type protocol s =
        elim (Bool-cases (not (same_version version ipv4) && not (same_version version ipv6))) [
          | inl outside ↦ rw outside (made-Sound invalid_argument)
          | inr known ↦ rw known (
              opened
                (if same_version version ipv4 then sys.headers.af_inet else sys.headers.af_inet6))
        ]
      where
        opened :
            (family : ℕ)
            → SoundPair ℕ (
                let (handle, t) = sys.socket family type protocol s in
                if not (is_valid handle)
                then (failure (last_error sys std t), (SocketHandle.close sys handle t).1)
                else (success handle, t))
        opened family =
            elim (Bool-cases ((sys.socket family type protocol s).0 == invalid_handle)) [
              | inl bad ↦
                  rw bad (last-Sound _ (sets.socket_sets family type protocol s (ground arith)))
              | inr good ↦ rw good tt
            ]

    pub configure-Sound : (h : ℕ) (s : sys.State) → Sound (configure_tcp_socket sys std h s).0
    unfolding configure_tcp_socket
    configure-Sound h s = elim (Bool-cases sys.nosigpipe) [
      | inr none_needed ↦ rw none_needed tt
      | inl needed ↦ elim (Bool-cases (sys.setsockopt h sys.so_nosigpipe 1 s).0) [
        | inl done ↦ rw (needed, done) tt
        | inr bad ↦
            rw (needed, bad) (last-Sound _ (sets.setsockopt_sets h sys.so_nosigpipe 1 s bad))
      ]
    ]

    pub create_tcp_socket-Sound :
        (version : IpVersion) (s : sys.State) → Sound (create_tcp_socket sys std version s).0
    unfolding create_tcp_socket
    create_tcp_socket-Sound version s =
        after_created (create_socket sys std version sys.sock_stream sys.ipproto_tcp s)
          (create_socket-Sound version sys.sock_stream sys.ipproto_tcp s)
      where
        after_created :
            (r : SocketResult ℕ × sys.State)
            → Sound r.0
            → SoundPair ℕ (elim r.0 [
              | failure error ↦ (failure error, r.1)
              | success handle ↦
                  let (configured, s₂) = configure_tcp_socket sys std handle r.1 in
                  elim configured [
                    | failure error ↦ failed sys std error handle s₂
                    | success _ ↦ (success handle, s₂)
                  ]
            ])
        after_created (failure error, t) sound = sound
        after_created (success handle, t) sound =
            configured (configure_tcp_socket sys std handle t) (configure-Sound handle t)
          where
            configured :
                (r : SocketResult (Unit {0}) × sys.State)
                → Sound r.0
                → SoundPair ℕ (elim r.0 [
                  | failure error ↦ failed sys std error handle r.1
                  | success _ ↦ (success handle, r.1)
                ])
            configured (failure error, u) sound = sound
            configured (success _, u) sound = tt

    pub attach-Sound :
        (r : SocketResult ℕ × sys.State) (call : ℕ → sys.State → Bool × sys.State) (this : ℕ)
        → Sound r.0
        → ((h : ℕ) (t : sys.State) → (call h t).0 ≡ false → sys.errno (call h t).1 ≢ 0)
        → Sound (attach sys std r call this).0
    unfolding attach
    attach-Sound (failure error, s) call this sound set = sound
    attach-Sound (success handle, s) call this sound set = elim (Bool-cases (call handle s).0) [
      | inl done ↦ rw done tt
      | inr bad ↦ rw bad (last-Sound _ (set handle s bad))
    ]
