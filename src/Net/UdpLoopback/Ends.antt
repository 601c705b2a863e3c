-- ===== src/Net/UdpLoopback/Ends.antt =====
-- Every way out of main.
use cpp_core_systems.Prelude.{
  ℕ, ◌≡◌, ◌≢◌, refl, sym, ◌∙◌, ap, subst, arith, false, ◌==◌, Option, none, some, List, [], ◌∷◌,
  ◌++◌, append-nil, length, Bool-cases, ◌⊎◌, inl, inr,
}
use cpp_core_systems.Net.SocketEndpoint
use cpp_core_systems.Net.SocketEndpoint.{SocketEndpoint}
use cpp_core_systems.Net.SocketError.{Errors, Platform, SocketResult, success, failure}
use cpp_core_systems.Net.System.{System, IsSystem, invalid_handle, Kept}
use cpp_core_systems.Net.SocketHelpers.Attach.{Attached}
use cpp_core_systems.Net.SocketHelpers.Query.{query_endpoint, query_keeps}
use cpp_core_systems.Net.SocketRuntime.{Startup, construct}
use cpp_core_systems.Net.SocketRuntime.Lifetimes.{IsStartup, Supported, balanced}
use cpp_core_systems.Net.UdpSocket
use cpp_core_systems.Net.UdpSocket.{send_to_lem, bind_udp_lem, Sent}
use cpp_core_systems.Net.UdpSocket.Receive.{receive_from_keeps}
use cpp_core_systems.Net.Pair.{any_port}
use cpp_core_systems.Net.Pair.Extra.{Extra, Extra-keep, Extra-gain, Extra-close-none}
use cpp_core_systems.Net.Loopback.Ends.{decide_zero}
use cpp_core_systems.Net.Loopback.{same_text}
use cpp_core_systems.Net.Loopback.Reading.{same_text_lem}
use cpp_core_systems.Net.UdpLoopback.{
  UdpLine, UdpExit, set_receive_timeout, leave_udp, after_line, udp_emptied, udp_sent_empty,
  udp_echoed, udp_replied, udp_received, udp_client_timed, udp_sent, udp_addressed,
  udp_server_timed, udp_bound, udp_sockets, udp_main,
}
use cpp_core_systems.Net.UdpLoopback.Opened.{
  shown, IsPatientUdp, Open, Open-keep, Runs, left_udp, failed_udp, client_kept, server_kept,
  timeout_keeps,
}

module _ (sys : System) (std : Errors) (laws : IsSystem sys) (fuel : ℕ)
    (patient : IsPatientUdp sys std fuel) (message : List ℕ) (s₀ : sys.State) where
  emptied_lem :
      (v c : ℕ) (s : sys.State) (r : SocketResult (List ℕ × SocketEndpoint) × sys.State)
      → Open sys std laws s₀ v c s
      → Kept sys s r.1
      → Runs sys std laws s₀ [] (udp_emptied sys std message fuel v c r)
  unfolding udp_emptied leave_udp
  emptied_lem v c s (failure error, t) opened kept =
      failed_udp sys std laws s₀ [] v c _ t (Open-keep sys std laws s₀ v c s t opened kept)
  emptied_lem v c s (success (bytes, sender), t) opened kept =
      let opened' = Open-keep sys std laws s₀ v c s t opened kept in
      elim (Bool-cases (length bytes == 0)) [
        | inr more ↦ rw more (failed_udp sys std laws s₀ [] v c (UdpLine.not_empty ∷ []) t opened')
        | inl nothing ↦
            rw nothing (_, refl, (left_udp sys std laws s₀ v c 0 [] t opened', λ e. refl))
      ]

  sent_empty_lem :
      (v : ℕ) (r : SocketResult ℕ × ℕ × sys.State)
      → Open sys std laws s₀ v r.1 r.2
      → Runs sys std laws s₀ [] (udp_sent_empty sys std message fuel v r)
  unfolding udp_sent_empty
  sent_empty_lem v (failure error, c, s) opened = failed_udp sys std laws s₀ [] v c _ s opened
  sent_empty_lem v (success count, c, s) opened =
      let (r, found, kept) = receive_from_keeps sys std laws fuel v 0 s (patient.receives v 0 s) in
      rw (udp_sent_empty, found) (emptied_lem v c s r opened kept)

  -- A line that shows nothing of what the client has received, and the one that shows it.
  after_bound :
      (e : SocketEndpoint) (o : Option (UdpExit sys std))
      → Runs sys std laws s₀ message o
      → Runs sys std laws s₀ message (after_line sys std (UdpLine.bound_at e) o)
  after_bound e o ((lines, code, t), found, fine) =
      rw found ((UdpLine.bound_at e ∷ lines, code, t), refl, fine)

  after_received :
      (n : ℕ) (e : SocketEndpoint) (o : Option (UdpExit sys std))
      → Runs sys std laws s₀ message o
      → Runs sys std laws s₀ message (after_line sys std (UdpLine.received_from n e) o)
  after_received n e o ((lines, code, t), found, fine) =
      rw found ((UdpLine.received_from n e ∷ lines, code, t), refl, fine)

  after_text :
      (text : List ℕ) (o : Option (UdpExit sys std))
      → text ≡ message
      → Runs sys std laws s₀ [] o
      → Runs sys std laws s₀ message (after_line sys std (UdpLine.client_received text) o)
  after_text text o same ((lines, code, t), found, (closed, nothing)) = rw found (
    (UdpLine.client_received text ∷ lines, code, t),
    refl,
    (closed, λ e. ap (λ us. text ++ us) (nothing e) ∙ append-nil text ∙ same),
  )

  echoed_lem :
      (endpoint : SocketEndpoint) (v c : ℕ) (s : sys.State)
      (r : SocketResult (List ℕ × SocketEndpoint) × sys.State)
      → Open sys std laws s₀ v c s
      → Kept sys s r.1
      → Runs sys std laws s₀ message (udp_echoed sys std message fuel endpoint v c r)
  unfolding udp_echoed
  echoed_lem endpoint v c s (failure error, t) opened kept =
      failed_udp sys std laws s₀ message v c _ t (Open-keep sys std laws s₀ v c s t opened kept)
  echoed_lem endpoint v c s (success (text, sender), t) opened kept =
      let opened' = Open-keep sys std laws s₀ v c s t opened kept in
      elim (Bool-cases (same_text text message)) [
        | inr differ ↦
            rw differ (failed_udp sys std laws s₀ message v c (UdpLine.no_match ∷ []) t opened')
        | inl same ↦ elim (Bool-cases (SocketEndpoint.equal sender endpoint)) [
          | inr other ↦
              rw (same, other)
                (failed_udp sys std laws s₀ message v c (UdpLine.no_match ∷ []) t opened')
          | inl peer ↦
              let (r, found, sent) =
                send_to_lem sys std laws fuel c [] endpoint t (patient.sends [] endpoint) in
              rw (same, peer, found)
                (after_text text (udp_sent_empty sys std message fuel v r)
                  (same_text_lem text message same)
                  (sent_empty_lem v r (client_kept sys std laws s₀ v c 0 t r opened' sent)))
        ]
      ]

  replied_lem :
      (endpoint : SocketEndpoint) (c : ℕ) (r : SocketResult ℕ × ℕ × sys.State)
      → Open sys std laws s₀ r.1 c r.2
      → Runs sys std laws s₀ message (udp_replied sys std message fuel endpoint c r)
  unfolding udp_replied
  replied_lem endpoint c (failure error, v, s) opened =
      failed_udp sys std laws s₀ message v c _ s opened
  replied_lem endpoint c (success count, v, s) opened =
      let (r, found, kept) =
        receive_from_keeps sys std laws fuel c 256 s (patient.receives c 256 s) in
      rw (udp_replied, found) (echoed_lem endpoint v c s r opened kept)

  received_lem :
      (endpoint : SocketEndpoint) (v c : ℕ) (s : sys.State)
      (r : SocketResult (List ℕ × SocketEndpoint) × sys.State)
      → Open sys std laws s₀ v c s
      → Kept sys s r.1
      → Runs sys std laws s₀ message (udp_received sys std message fuel endpoint v c r)
  unfolding udp_received
  received_lem endpoint v c s (failure error, t) opened kept =
      failed_udp sys std laws s₀ message v c _ t (Open-keep sys std laws s₀ v c s t opened kept)
  received_lem endpoint v c s (success (bytes, sender), t) opened kept =
      let opened' = Open-keep sys std laws s₀ v c s t opened kept in
      let (r, found, sent) =
        send_to_lem sys std laws fuel v bytes sender t (patient.sends bytes sender) in
      rw (udp_received, found)
        (after_received (length bytes) sender (udp_replied sys std message fuel endpoint c r) (
          replied_lem endpoint c r
            (server_kept sys std laws s₀ v c (length bytes) t r opened' sent)))

  client_timed_lem :
      (endpoint : SocketEndpoint) (v c : ℕ) (s : sys.State) (r : Option UdpLine × sys.State)
      → Open sys std laws s₀ v c s
      → Kept sys s r.1
      → Runs sys std laws s₀ message (udp_client_timed sys std message fuel endpoint v c r)
  unfolding udp_client_timed
  client_timed_lem endpoint v c s (some line, t) opened kept =
      failed_udp sys std laws s₀ message v c _ t (Open-keep sys std laws s₀ v c s t opened kept)
  client_timed_lem endpoint v c s (none, t) opened kept =
      let (r, found, still) =
        receive_from_keeps sys std laws fuel v 256 t (patient.receives v 256 t) in
      rw (udp_client_timed, found)
        (received_lem endpoint v c t r (Open-keep sys std laws s₀ v c s t opened kept) still)

  sent_lem :
      (endpoint : SocketEndpoint) (v : ℕ) (r : SocketResult ℕ × ℕ × sys.State)
      → Open sys std laws s₀ v r.1 r.2
      → Runs sys std laws s₀ message (udp_sent sys std message fuel endpoint v r)
  unfolding udp_sent
  sent_lem endpoint v (failure error, c, s) opened =
      failed_udp sys std laws s₀ message v c _ s opened
  sent_lem endpoint v (success count, c, s) opened =
      client_timed_lem endpoint v c s (set_receive_timeout sys std c s) opened
        (timeout_keeps sys std laws s₀ c s)

  addressed_lem :
      (v : ℕ) (s : sys.State) (r : SocketResult SocketEndpoint × sys.State)
      → Open sys std laws s₀ v invalid_handle s
      → Kept sys s r.1
      → Runs sys std laws s₀ message (udp_addressed sys std message fuel v r)
  unfolding udp_addressed
  addressed_lem v s (failure error, t) opened kept =
      failed_udp sys std laws s₀ message v invalid_handle _ t
        (Open-keep sys std laws s₀ v invalid_handle s t opened kept)
  addressed_lem v s (success endpoint, t) opened kept =
      let opened' = Open-keep sys std laws s₀ v invalid_handle s t opened kept in
      let (r, found, sent) =
        send_to_lem sys std laws fuel invalid_handle message endpoint t
          (patient.sends message endpoint) in
      rw (udp_addressed, found)
        (after_bound endpoint (udp_sent sys std message fuel endpoint v r) (
          sent_lem endpoint v r
            (client_kept sys std laws s₀ v invalid_handle (length message) t r opened' sent)))

  server_timed_lem :
      (v : ℕ) (s : sys.State) (r : Option UdpLine × sys.State)
      → Open sys std laws s₀ v invalid_handle s
      → Kept sys s r.1
      → Runs sys std laws s₀ message (udp_server_timed sys std message fuel v r)
  unfolding udp_server_timed
  server_timed_lem v s (some line, t) opened kept =
      failed_udp sys std laws s₀ message v invalid_handle _ t
        (Open-keep sys std laws s₀ v invalid_handle s t opened kept)
  server_timed_lem v s (none, t) opened kept =
      addressed_lem v t (query_endpoint sys std v false t)
        (Open-keep sys std laws s₀ v invalid_handle s t opened kept) (query_keeps sys std laws v t)

  bound_lem :
      (r : SocketResult (Unit {0}) × ℕ × sys.State)
      → Attached sys std s₀ invalid_handle r
      → Runs sys std laws s₀ message (udp_bound sys std message fuel r)
  unfolding udp_bound leave_udp
  bound_lem (failure error, v, t) (same, kept) = (
    _,
    refl,
    (
      subst
          (λ h.
            Extra sys [] s₀
              (leave_udp sys std h invalid_handle 1 (UdpLine.bind_failed error ∷ []) t).2)
          (sym same)
          (Extra-close-none sys laws [] s₀ _
            (Extra-close-none sys laws [] s₀ t (Extra-keep sys [] s₀ s₀ t (tt, λ d. refl) kept))),
      λ e. absurd (omega arith),
    ),
  )
  bound_lem (success _, v, t) new =
      server_timed_lem v t (set_receive_timeout sys std v t)
        (inr (refl, Extra-gain sys [] v s₀ s₀ t (tt, λ d. refl) new))
        (timeout_keeps sys std laws s₀ v t)

  sockets_lem : Runs sys std laws s₀ message (udp_sockets sys std message fuel s₀)
  unfolding udp_sockets
  sockets_lem =
      bound_lem (UdpSocket.bind sys std invalid_handle any_port s₀)
        (bind_udp_lem sys std laws invalid_handle any_port s₀ refl)

  module _ (dll : Startup) (startup : IsStartup dll) where
    -- What main leaves of the system and of the runtime's library, and what it has shown if it
    -- succeeds.
    abbrev pub LeftUdp : dll.State → List UdpLine × ℕ × sys.State × dll.State → Type 0
    LeftUdp d r =
        Kept sys s₀ r.2
        × (startup.started r.3 ≡ startup.started d)
        × (((r.1 ≡ 0) × (shown r.0 ≡ message)) ⊎ (r.1 ≢ 0))

    -- On a system with the laws IsSystem, where sendto and recvmsg are not interrupted `fuel` times
    -- in a row, where WSAStartup and WSACleanup count (IsStartup) and WSAVERNOTSUPPORTED is an
    -- error: main of the UDP example, with the sockets of POSIX and the runtime of POSIX or Windows
    -- and with any message, ends; whichever way it takes, the open descriptors and the start-ups
    -- are those from before, and if its result is 0, what the client has written out is the
    -- message.
    pub udp_main_lem :
        (platform : Platform) (d : dll.State)
        → Supported dll startup platform
        → (r : List UdpLine × ℕ × sys.State × dll.State) × (udp_main sys std message fuel dll
              platform
              (s₀, d)
            ≡ some r)
          × LeftUdp d r
    unfolding udp_main
    udp_main_lem platform d supported =
        elim (Bool-cases ((construct dll platform d).0.initialized)) [
          | inr broken ↦ rw broken (
            _,
            refl,
            (λ h. refl, balanced dll startup platform d supported, inr (λ e. omega arith)),
          )
          | inl works ↦
              let ((lines, code, t), found, ((new, kept), reads)) = sockets_lem in
              rw (works, found)
                (_, refl, (kept, balanced dll startup platform d supported, decide_zero code reads))
        ]
