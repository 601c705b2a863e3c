-- ===== src/Net/UdpLoopback.antt =====
-- main of examples/net/example_udp_loopback.cpp: a server and a client of one process, a datagram
-- that is sent to the server and back, and an empty one.
pub mod Opened
pub mod Ends
pub mod Tests
use cpp_core_systems.Prelude.{
  ℕ, Bool, true, false, not, ◌||◌, ◌==◌, if◌then◌else◌, Option, none, some, List, [], ◌∷◌, length,
}
use cpp_core_systems.Net.SocketEndpoint
use cpp_core_systems.Net.SocketEndpoint.{SocketEndpoint}
use cpp_core_systems.Net.SocketError.{SocketError, Errors, Platform, SocketResult, success, failure}
use cpp_core_systems.Net.System.{System, invalid_handle}
use cpp_core_systems.Net.SocketHandle
use cpp_core_systems.Net.SocketHelpers.{last_error}
use cpp_core_systems.Net.SocketHelpers.Query.{query_endpoint}
use cpp_core_systems.Net.SocketRuntime.{Startup, construct, destroy}
use cpp_core_systems.Net.UdpSocket
use cpp_core_systems.Net.UdpSocket.Receive.{receive_from}
use cpp_core_systems.Net.Pair.{any_port}
use cpp_core_systems.Net.Loopback.{same_text}

-- What is written, to std::cout or to std::cerr.
pub data UdpLine : Type 0 where
  runtime_failed : SocketError → UdpLine
  bind_failed : SocketError → UdpLine
  timeout_failed : SocketError → UdpLine
  endpoint_failed : SocketError → UdpLine
  bound_at : SocketEndpoint → UdpLine
  send_failed : SocketError → UdpLine
  server_failed : SocketError → UdpLine
  received_from : ℕ → SocketEndpoint → UdpLine
  reply_failed : SocketError → UdpLine
  client_failed : SocketError → UdpLine
  no_match : UdpLine
  client_received : List ℕ → UdpLine
  empty_send_failed : SocketError → UdpLine
  empty_receive_failed : SocketError → UdpLine
  not_empty : UdpLine
  empty_received : UdpLine

-- "Hello from the UDP client!"
abbrev pub hello_udp : List ℕ
hello_udp =
    b'H' ∷ b'e' ∷ b'l' ∷ b'l' ∷ b'o' ∷ b' ' ∷ b'f' ∷ b'r' ∷ b'o' ∷ b'm' ∷ b' ' ∷ b't' ∷ b'h' ∷ b'e'
    ∷ b' ' ∷ b'U' ∷ b'D' ∷ b'P' ∷ b' ' ∷ b'c' ∷ b'l' ∷ b'i' ∷ b'e' ∷ b'n' ∷ b't' ∷ b'!' ∷ []

module _ (sys : System) (std : Errors) where
  -- What was written, main's result, and the state behind the destructors.
  abbrev pub UdpExit : Type 0
  UdpExit = List UdpLine × ℕ × sys.State

  -- SetReceiveTimeout: what it writes if it fails.
  unfoldable pub set_receive_timeout : ℕ → sys.State → Option UdpLine × sys.State
  set_receive_timeout socket s =
      let (set, t) = sys.setsockopt socket sys.so_rcvtimeo 5 s in
      if not set then (some (timeout_failed (last_error sys std t)), t) else (none, t)

  -- A return: the destructors of the client and the server.
  unfoldable pub leave_udp : (server client : ℕ) → (code : ℕ) → List UdpLine → sys.State → UdpExit
  leave_udp server client code lines s =
      let (client, s₁) = SocketHandle.close sys client s in
      let (server, s₂) = SocketHandle.close sys server s₁ in (lines, code, s₂)

  -- Something is written before the rest.
  abbrev pub after_line : UdpLine → Option UdpExit → Option UdpExit
  after_line line none = none
  after_line line (some (lines, code, s)) = some (line ∷ lines, code, s)

  module _ (message : List ℕ) (fuel : ℕ) where
    -- What is done with the result of the last ReceiveFrom.
    unfoldable pub udp_emptied :
        (server client : ℕ) → SocketResult (List ℕ × SocketEndpoint) × sys.State → Option UdpExit
    udp_emptied server client (failure error, s) =
        some (leave_udp server client 1 (empty_receive_failed error ∷ []) s)
    udp_emptied server client (success (bytes, sender), s) =
        if not (length bytes == 0)
        then some (leave_udp server client 1 (not_empty ∷ []) s)
        else some (leave_udp server client 0 (empty_received ∷ []) s)

    -- What is done with the result of the SendTo of nothing.
    unfoldable pub udp_sent_empty : (server : ℕ) → SocketResult ℕ × ℕ × sys.State → Option UdpExit
    udp_sent_empty server (failure error, client, s) =
        some (leave_udp server client 1 (empty_send_failed error ∷ []) s)
    udp_sent_empty server (success count, client, s) = elim (receive_from sys std fuel server 0 s) [
      | none ↦ none
      | some r ↦ udp_emptied server client r
    ]

    -- What is done with the result of the client's ReceiveFrom.
    unfoldable pub udp_echoed :
        (endpoint : SocketEndpoint)
        → (server client : ℕ) → SocketResult (List ℕ × SocketEndpoint) × sys.State
        → Option UdpExit
    udp_echoed endpoint server client (failure error, s) =
        some (leave_udp server client 1 (client_failed error ∷ []) s)
    udp_echoed endpoint server client (success (text, sender), s) =
        if not (same_text text message) || not (SocketEndpoint.equal sender endpoint)
        then some (leave_udp server client 1 (no_match ∷ []) s)
        else after_line (client_received text)
            (elim (UdpSocket.send_to sys std fuel client [] endpoint s) [
              | none ↦ none
              | some r ↦ udp_sent_empty server r
            ])

    -- What is done with the result of the reply.
    unfoldable pub udp_replied :
        (endpoint : SocketEndpoint) → (client : ℕ) → SocketResult ℕ × ℕ × sys.State → Option UdpExit
    udp_replied endpoint client (failure error, server, s) =
        some (leave_udp server client 1 (reply_failed error ∷ []) s)
    udp_replied endpoint client (success count, server, s) =
        elim (receive_from sys std fuel client 256 s) [
          | none ↦ none
          | some r ↦ udp_echoed endpoint server client r
        ]

    -- What is done with the result of the server's ReceiveFrom.
    unfoldable pub udp_received :
        (endpoint : SocketEndpoint)
        → (server client : ℕ) → SocketResult (List ℕ × SocketEndpoint) × sys.State
        → Option UdpExit
    udp_received endpoint server client (failure error, s) =
        some (leave_udp server client 1 (server_failed error ∷ []) s)
    udp_received endpoint server client (success (bytes, sender), s) =
        after_line (received_from (length bytes) sender)
          (elim (UdpSocket.send_to sys std fuel server bytes sender s) [
            | none ↦ none
            | some r ↦ udp_replied endpoint client r
          ])

    -- What is done behind SetReceiveTimeout of the client.
    unfoldable pub udp_client_timed :
        (endpoint : SocketEndpoint)
        → (server client : ℕ) → Option UdpLine × sys.State
        → Option UdpExit
    udp_client_timed endpoint server client (some line, s) =
        some (leave_udp server client 1 (line ∷ []) s)
    udp_client_timed endpoint server client (none, s) =
        elim (receive_from sys std fuel server 256 s) [
          | none ↦ none
          | some r ↦ udp_received endpoint server client r
        ]

    -- What is done with the result of the client's SendTo.
    unfoldable pub udp_sent :
        (endpoint : SocketEndpoint) → (server : ℕ) → SocketResult ℕ × ℕ × sys.State → Option UdpExit
    udp_sent endpoint server (failure error, client, s) =
        some (leave_udp server client 1 (send_failed error ∷ []) s)
    udp_sent endpoint server (success count, client, s) =
        udp_client_timed endpoint server client (set_receive_timeout client s)

    -- What is done with the result of GetLocalEndpoint.
    unfoldable pub udp_addressed :
        (server : ℕ) → SocketResult SocketEndpoint × sys.State → Option UdpExit
    udp_addressed server (failure error, s) =
        some (leave_udp server invalid_handle 1 (endpoint_failed error ∷ []) s)
    udp_addressed server (success endpoint, s) =
        after_line (bound_at endpoint)
          (elim (UdpSocket.send_to sys std fuel invalid_handle message endpoint s) [
            | none ↦ none
            | some r ↦ udp_sent endpoint server r
          ])

    -- What is done behind SetReceiveTimeout of the server.
    unfoldable pub udp_server_timed : (server : ℕ) → Option UdpLine × sys.State → Option UdpExit
    udp_server_timed server (some line, s) = some (leave_udp server invalid_handle 1 (line ∷ []) s)
    udp_server_timed server (none, s) = udp_addressed server (query_endpoint sys std server false s)

    -- What is done with the result of Bind.
    unfoldable pub udp_bound : SocketResult (Unit {0}) × ℕ × sys.State → Option UdpExit
    udp_bound (failure error, server, s) =
        some (leave_udp server invalid_handle 1 (bind_failed error ∷ []) s)
    udp_bound (success _, server, s) = udp_server_timed server (set_receive_timeout server s)

    -- From the server on.
    unfoldable pub udp_sockets : sys.State → Option UdpExit
    udp_sockets s = udp_bound (UdpSocket.bind sys std invalid_handle any_port s)

    -- main, with the state of the runtime's library. The runtime is destroyed last.
    unfoldable pub udp_main :
        (dll : Startup)
        → Platform
        → sys.State × dll.State
        → Option (List UdpLine × ℕ × sys.State × dll.State)
    udp_main dll platform (s, d) =
        let (runtime, d₁) = construct dll platform d in
        if not runtime.initialized
        then some (runtime_failed runtime.error ∷ [], 1, s, destroy dll platform runtime d₁)
        else elim (udp_sockets s) [
          | none ↦ none
          | some (lines, code, t) ↦ some (lines, code, t, destroy dll platform runtime d₁)
        ]
