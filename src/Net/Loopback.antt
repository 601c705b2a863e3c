-- ===== src/Net/Loopback.antt =====
-- main of examples/net/example_tcp_loopback.cpp: a listener, a client and a server of one process,
-- and a message that is sent to the server and back.
pub mod Waits
pub mod Reading
pub mod Echoing
pub mod Ends
pub mod Tests
use cpp_core_systems.Prelude.{
  ℕ, zero, suc, ◌+◌, ◌^◌, ◌%◌, Bool, true, false, not, ◌&&◌, ◌||◌, ◌==◌, leb, if◌then◌else◌, Option,
  none, some, List, [], ◌∷◌, ◌++◌, length, take, drop,
}
use cpp_core_systems.Net.SocketEndpoint.{SocketEndpoint}
use cpp_core_systems.Net.SocketError.{SocketError, Errors, Platform, SocketResult, success, failure}
use cpp_core_systems.Net.System.{System, invalid_handle}
use cpp_core_systems.Net.SocketHandle
use cpp_core_systems.Net.SocketHelpers.Query.{query_endpoint}
use cpp_core_systems.Net.SocketRuntime.{Startup, construct, destroy}
use cpp_core_systems.Net.TcpSocket
use cpp_core_systems.Net.TcpSocket.{SocketShutdown}
use cpp_core_systems.Net.TcpListener
use cpp_core_systems.Net.Pair.{any_port}
use cpp_core_systems.Net.Transfer.Result.{send_all_result}

-- The operations that Check names.
pub data Operation : Type 0 where
  binding : Operation
  listening : Operation
  connecting : Operation
  send_request : Operation
  finish_request : Operation
  echo_response : Operation
  finish_response : Operation

-- What is written, to std::cout or to std::cerr.
pub data TcpLine : Type 0 where
  runtime_failed : SocketError → TcpLine
  check_failed : Operation → SocketError → TcpLine
  endpoint_failed : SocketError → TcpLine
  listening_at : SocketEndpoint → TcpLine
  accept_failed : SocketError → TcpLine
  server_receive_failed : SocketError → TcpLine
  client_receive_failed : SocketError → TcpLine
  -- "Client received: ", a chunk, and the line's end.
  client_heading : TcpLine
  client_received : List ℕ → TcpLine
  line_end : TcpLine
  no_match : TcpLine

-- "Hello from the TCP client!"
abbrev pub hello : List ℕ
hello =
    b'H' ∷ b'e' ∷ b'l' ∷ b'l' ∷ b'o' ∷ b' ' ∷ b'f' ∷ b'r' ∷ b'o' ∷ b'm' ∷ b' ' ∷ b't' ∷ b'h' ∷ b'e'
    ∷ b' ' ∷ b'T' ∷ b'C' ∷ b'P' ∷ b' ' ∷ b'c' ∷ b'l' ∷ b'i' ∷ b'e' ∷ b'n' ∷ b't' ∷ b'!' ∷ []

-- operator== of two std::string_view.
abbrev pub same_text : List ℕ → List ℕ → Bool
same_text [] [] = true
same_text [] (c ∷ cs) = false
same_text (b ∷ bs) [] = false
same_text (b ∷ bs) (c ∷ cs) = (b == c) && same_text bs cs

-- The value of `matches` behind a chunk.
unfoldable pub still_matches : (message : List ℕ) → (matches : Bool) → ℕ → List ℕ → Bool
still_matches message matches echoed chunk =
    matches
    && leb echoed (length message)
    && same_text chunk (take (length chunk) (drop echoed message))

module _ (sys : System) (std : Errors) where
  -- What was written, main's result, and the state behind the destructors.
  abbrev pub Exit : Type 0
  Exit = List TcpLine × ℕ × sys.State

  -- A return: the destructors of the server, the client and the listener, of which those that do
  -- not exist yet have nothing to close.
  unfoldable pub leave_main :
      (listener client server : ℕ) → (code : ℕ) → List TcpLine → sys.State → Exit
  leave_main listener client server code lines s =
      let (server, s₁) = SocketHandle.close sys server s in
      let (client, s₂) = SocketHandle.close sys client s₁ in
      let (listener, s₃) = SocketHandle.close sys listener s₂ in (lines, code, s₃)

  -- Something is written before the rest.
  abbrev pub behind : TcpLine → Option Exit → Option Exit
  behind line none = none
  behind line (some (lines, code, s)) = some (line ∷ lines, code, s)

  module _ (message : List ℕ) (fuel client server : ℕ) where
    -- Behind the client's loop.
    unfoldable pub compared : (matches : Bool) → (echoed : ℕ) → sys.State → Exit
    unfolding leave_main
    compared matches echoed s =
        if not matches || not (echoed == length message)
        then leave_main invalid_handle client server 1 (line_end ∷ no_match ∷ []) s
        else leave_main invalid_handle client server 0 (line_end ∷ []) s

    -- What the client's loop does with the result of a Receive.
    abbrev pub client_got :
        (again : Bool → ℕ → sys.State → Option Exit)
        → (matches : Bool) → (echoed : ℕ) → SocketResult (List ℕ) × sys.State
        → Option Exit
    client_got again matches echoed (failure error, s) =
        some (leave_main invalid_handle client server 1 (client_receive_failed error ∷ []) s)
    client_got again matches echoed (success chunk, s) =
        if length chunk == 0
        then some (compared matches echoed s)
        else behind (client_received chunk) (
            again (still_matches message matches echoed chunk) ((echoed + length chunk) % 2 ^ 64) s)

    -- The client's loop, in fewer than `turns` turns.
    unfoldable pub client_loop :
        (turns : ℕ) → (matches : Bool) → (echoed : ℕ) → sys.State → Option Exit
    client_loop zero matches echoed s = none
    client_loop (suc turns) matches echoed s = elim (TcpSocket.receive sys std fuel client 64 s) [
      | none ↦ none
      | some r ↦ client_got (client_loop turns) matches echoed r
    ]

    -- What is done with the result of the server's Shutdown.
    unfoldable pub response_finished :
        (turns : ℕ) → SocketResult (Unit {0}) × sys.State → Option Exit
    response_finished turns (failure error, s) =
        some (leave_main invalid_handle client server 1 (check_failed finish_response error ∷ []) s)
    response_finished turns (success _, s) = behind client_heading (client_loop turns true 0 s)

    -- What the server's loop does with the result of its SendAll.
    abbrev pub echo_sent :
        (again : sys.State → Option Exit) → SocketResult (Unit {0}) × sys.State → Option Exit
    echo_sent again (failure error, s) =
        some (leave_main invalid_handle client server 1 (check_failed echo_response error ∷ []) s)
    echo_sent again (success _, s) = again s

    -- What it does with the result of a Receive. SendAll has a round for each byte.
    abbrev pub server_got :
        (turns : ℕ)
        → (again : sys.State → Option Exit) → SocketResult (List ℕ) × sys.State
        → Option Exit
    server_got turns again (failure error, s) =
        some (leave_main invalid_handle client server 1 (server_receive_failed error ∷ []) s)
    server_got turns again (success bytes, s) =
        if length bytes == 0
        then response_finished turns (TcpSocket.shutdown sys std server SocketShutdown.send_side s)
        else elim (send_all_result sys std (length bytes) fuel server bytes s) [
          | none ↦ none
          | some r ↦ echo_sent again r
        ]

    -- The server's loop, in fewer than `echoes` turns, and what follows, with `turns` for the
    -- client's.
    unfoldable pub server_loop : (echoes turns : ℕ) → sys.State → Option Exit
    server_loop zero turns s = none
    server_loop (suc echoes) turns s = elim (TcpSocket.receive sys std fuel server 64 s) [
      | none ↦ none
      | some r ↦ server_got turns (server_loop echoes turns) r
    ]

    -- What is done with the result of the client's Shutdown.
    unfoldable pub request_finished :
        (turns : ℕ) → SocketResult (Unit {0}) × sys.State → Option Exit
    request_finished turns (failure error, s) =
        some (leave_main invalid_handle client server 1 (check_failed finish_request error ∷ []) s)
    request_finished turns (success _, s) = server_loop turns turns s

    -- What is done with the result of the client's SendAll.
    unfoldable pub request_sent : (turns : ℕ) → SocketResult (Unit {0}) × sys.State → Option Exit
    request_sent turns (failure error, s) =
        some (leave_main invalid_handle client server 1 (check_failed send_request error ∷ []) s)
    request_sent turns (success _, s) =
        request_finished turns (TcpSocket.shutdown sys std client SocketShutdown.send_side s)

    -- From the message on.
    unfoldable pub exchange : (turns : ℕ) → sys.State → Option Exit
    exchange turns s = elim (send_all_result sys std (length message) fuel client message s) [
      | none ↦ none
      | some r ↦ request_sent turns r
    ]

  module _ (message : List ℕ) (fuel turns : ℕ) where
    -- What is done with the result of Accept.
    unfoldable pub main_accepted : (listener client : ℕ) → SocketResult ℕ × sys.State → Option Exit
    main_accepted listener client (failure error, s) =
        some (leave_main listener client invalid_handle 1 (accept_failed error ∷ []) s)
    main_accepted listener client (success server, s) =
        exchange message fuel client server turns (SocketHandle.close sys listener s).1

    -- What is done with the result of Connect.
    unfoldable pub main_connected :
        (listener : ℕ) → SocketResult (Unit {0}) × ℕ × sys.State → Option Exit
    main_connected listener (failure error, client, s) =
        some (leave_main listener client invalid_handle 1 (check_failed connecting error ∷ []) s)
    main_connected listener (success _, client, s) =
        elim (TcpListener.accept sys std fuel listener s) [
          | none ↦ none
          | some r ↦ main_accepted listener client r
        ]

    -- What is done with the result of GetLocalEndpoint.
    unfoldable pub main_addressed :
        (listener : ℕ) → SocketResult SocketEndpoint × sys.State → Option Exit
    main_addressed listener (failure error, s) =
        some (leave_main listener invalid_handle invalid_handle 1 (endpoint_failed error ∷ []) s)
    main_addressed listener (success endpoint, s) =
        behind (listening_at endpoint)
          (main_connected listener (TcpSocket.connect sys std invalid_handle endpoint s))

    -- What is done with the result of Listen.
    unfoldable pub main_listening :
        (listener : ℕ) → SocketResult (Unit {0}) × sys.State → Option Exit
    main_listening listener (failure error, s) =
        some (
          leave_main listener invalid_handle invalid_handle 1 (check_failed listening error ∷ []) s)
    main_listening listener (success _, s) =
        main_addressed listener (query_endpoint sys std listener false s)

    -- What is done with the result of Bind.
    unfoldable pub main_bound : SocketResult (Unit {0}) × ℕ × sys.State → Option Exit
    main_bound (failure error, listener, s) =
        some
          (leave_main listener invalid_handle invalid_handle 1 (check_failed binding error ∷ []) s)
    main_bound (success _, listener, s) =
        main_listening listener (TcpListener.listen sys std listener sys.somaxconn s)

    -- From the listener on.
    unfoldable pub main_sockets : sys.State → Option Exit
    main_sockets s = main_bound (TcpListener.bind sys std invalid_handle any_port s)

    -- main, with the state of the runtime's library. The runtime is destroyed last.
    unfoldable pub loopback_main :
        (dll : Startup)
        → Platform
        → sys.State × dll.State
        → Option (List TcpLine × ℕ × sys.State × dll.State)
    loopback_main dll platform (s, d) =
        let (runtime, d₁) = construct dll platform d in
        if not runtime.initialized
        then some (runtime_failed runtime.error ∷ [], 1, s, destroy dll platform runtime d₁)
        else elim (main_sockets s) [
          | none ↦ none
          | some (lines, code, t) ↦ some (lines, code, t, destroy dll platform runtime d₁)
        ]
