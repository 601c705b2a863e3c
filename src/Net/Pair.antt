-- ===== src/Net/Pair.antt =====
-- ConnectPair of benchmarks/net/bench_tcp.cpp: a listener, a client and a server of one process.
pub mod Extra
pub mod Made
use cpp_core_systems.Prelude.{ℕ, Bool, false, not, if◌then◌else◌, Option, none, some}
use cpp_core_systems.Net.IpAddress.{ipv4, loopback}
use cpp_core_systems.Net.SocketEndpoint.{SocketEndpoint}
use cpp_core_systems.Net.SocketError.{
  SocketError, Errors, no_error, has_error, SocketResult, success, failure,
}
use cpp_core_systems.Net.System.{System, invalid_handle}
use cpp_core_systems.Net.SocketHandle
use cpp_core_systems.Net.SocketHelpers.{last_error}
use cpp_core_systems.Net.SocketHelpers.Query.{query_endpoint}
use cpp_core_systems.Net.TcpSocket
use cpp_core_systems.Net.TcpListener

-- { IPAddress::Loopback(IPVersion::IPv4), 0 }.
abbrev pub any_port : SocketEndpoint
any_port = record { address = loopback ipv4; port = 0; scope_id = 0 }

module _ (sys : System) (std : Errors) where
  -- Configure.
  unfoldable pub configure : ℕ → (no_delay : Bool) → sys.State → SocketError × sys.State
  configure socket no_delay s =
      let (received, s₁) = sys.setsockopt socket sys.so_rcvtimeo 5 s in
      if not received
      then (last_error sys std s₁, s₁)
      else (let (sent, s₂) = sys.setsockopt socket sys.so_sndtimeo 5 s₁ in
          if not sent
          then (last_error sys std s₂, s₂)
          else (let (set, s₃) =
                sys.setsockopt socket sys.tcp_nodelay (if no_delay then 1 else 0) s₂ in
              if not set then (last_error sys std s₃, s₃) else (no_error, s₃)))

  -- A return with an error: the destructors of the server, the client and the listener.
  unfoldable pub leave :
      (listener client server : ℕ) → SocketError → sys.State → SocketResult (ℕ × ℕ) × sys.State
  leave listener client server error s =
      let (server, s₁) = SocketHandle.close sys server s in
      let (client, s₂) = SocketHandle.close sys client s₁ in
      let (listener, s₃) = SocketHandle.close sys listener s₂ in (failure error, s₃)

  -- The loop over both sockets, and the end. A result takes the pair over.
  unfoldable pub configure_both :
      (listener client server : ℕ)
      → (no_delay : Bool) → sys.State
      → SocketResult (ℕ × ℕ) × sys.State
  configure_both listener client server no_delay s =
      let (error, s₁) = configure client no_delay s in
      if has_error error
      then leave listener client server error s₁
      else (let (error, s₂) = configure server no_delay s₁ in
          if has_error error
          then leave listener client server error s₂
          else (success (client, server), (SocketHandle.close sys listener s₂).1))

  -- What is done with the result of Accept.
  unfoldable pub pair_accepted :
      (listener client : ℕ)
      → (no_delay : Bool) → SocketResult ℕ × sys.State
      → SocketResult (ℕ × ℕ) × sys.State
  pair_accepted listener client no_delay (failure error, s) =
      leave listener client invalid_handle error s
  pair_accepted listener client no_delay (success handle, s) =
      let (server, left, t) = SocketHandle.move_assign sys invalid_handle handle s in
      configure_both listener client server no_delay t

  -- What is done with the result of Connect.
  unfoldable pub pair_connected :
      (fuel listener : ℕ)
      → (no_delay : Bool) → SocketResult (Unit {0}) × ℕ × sys.State
      → Option (SocketResult (ℕ × ℕ) × sys.State)
  pair_connected fuel listener no_delay (failure error, client, s) =
      some (leave listener client invalid_handle error s)
  pair_connected fuel listener no_delay (success _, client, s) =
      elim (TcpListener.accept sys std fuel listener s) [
        | none ↦ none
        | some r ↦ some (pair_accepted listener client no_delay r)
      ]

  -- What is done with the result of GetLocalEndpoint.
  unfoldable pub pair_addressed :
      (fuel listener : ℕ)
      → (no_delay : Bool) → SocketResult SocketEndpoint × sys.State
      → Option (SocketResult (ℕ × ℕ) × sys.State)
  pair_addressed fuel listener no_delay (failure error, s) =
      some (leave listener invalid_handle invalid_handle error s)
  pair_addressed fuel listener no_delay (success endpoint, s) =
      pair_connected fuel listener no_delay (TcpSocket.connect sys std invalid_handle endpoint s)

  -- What is done with the result of Listen.
  unfoldable pub pair_listening :
      (fuel listener : ℕ)
      → (no_delay : Bool) → SocketResult (Unit {0}) × sys.State
      → Option (SocketResult (ℕ × ℕ) × sys.State)
  pair_listening fuel listener no_delay (failure error, s) =
      some (leave listener invalid_handle invalid_handle error s)
  pair_listening fuel listener no_delay (success _, s) =
      pair_addressed fuel listener no_delay (query_endpoint sys std listener false s)

  -- What is done with the result of Bind.
  unfoldable pub pair_bound :
      (fuel : ℕ)
      → (no_delay : Bool) → SocketResult (Unit {0}) × ℕ × sys.State
      → Option (SocketResult (ℕ × ℕ) × sys.State)
  pair_bound fuel no_delay (failure error, listener, s) =
      some (leave listener invalid_handle invalid_handle error s)
  pair_bound fuel no_delay (success _, listener, s) =
      pair_listening fuel listener no_delay (TcpListener.listen sys std listener sys.somaxconn s)

  unfoldable pub connect_pair :
      (fuel : ℕ) → (no_delay : Bool) → sys.State → Option (SocketResult (ℕ × ℕ) × sys.State)
  connect_pair fuel no_delay s =
      pair_bound fuel no_delay (TcpListener.bind sys std invalid_handle any_port s)
