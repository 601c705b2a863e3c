-- ===== src/Net/Tests.antt =====
-- The properties of the socket classes on the stand-in machine.
use cpp_core_systems.Prelude.{List, ℕ, ◌≡◌, refl, arith, none, some, [], ◌∷◌}
use cpp_core_systems.Net.SocketEndpoint.{SocketEndpoint}
use cpp_core_systems.Net.SocketError
use cpp_core_systems.Net.SocketError.{Errors, SocketResult}
use cpp_core_systems.Net.SocketError.Tests.{codes}
use cpp_core_systems.Net.System.{invalid_handle}
use cpp_core_systems.Net.SocketHelpers.Retry.{retry, Outcome, retry_lem}
use cpp_core_systems.Net.UdpSocket
use cpp_core_systems.Net.UdpSocket.{Sent, send_to_lem}
use cpp_core_systems.Net.UdpSocket.Receive.{receive_from, Received, receive_from_lem}
use cpp_core_systems.Net.Machine.{Machine, signalled, peer, machine, machine-IsSystem, start}

retry_example :
    Outcome machine codes
      (machine.send 3 (7 ∷ []) 1)
      (signalled (signalled start))
      (retry machine codes (machine.send 3 (7 ∷ []) 1) 3 start)
unfolding SocketError.matches
retry_example =
    retry_lem machine codes (machine.send 3 (7 ∷ []) 1) 2 3 start (omega arith)
      ((refl, refl), ((refl, refl), tt)) (λ e. cc)

none-some : (h : ℕ) → none ≡ some h → ⊥
none-some h e = cc

send_to_example :
    (r : SocketResult ℕ × ℕ × Machine) × (UdpSocket.send_to machine codes 1 invalid_handle
        (7 ∷ [])
        peer
        start
      ≡ some r)
    × Sent machine codes start invalid_handle 1 r
send_to_example =
    send_to_lem machine codes machine-IsSystem 1 invalid_handle (7 ∷ []) peer start
      (λ h u. (0, omega arith, tt, λ e. cc))

receive_from_example :
    (r : SocketResult (List ℕ × SocketEndpoint) × Machine) × (receive_from machine codes 3 3 10
        start
      ≡ some r)
    × Received machine codes 3 10 start r
unfolding SocketError.matches
receive_from_example =
    receive_from_lem machine codes machine-IsSystem 3 3 10 start
      (2, omega arith, ((refl, refl), ((refl, refl), tt)), λ e. cc)
