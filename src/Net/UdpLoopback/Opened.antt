-- ===== src/Net/UdpLoopback/Opened.antt =====
-- Which descriptors are open on the way through main, and what a success has shown.
use cpp_core_systems.Prelude.{
  ℕ, ◌≡◌, ◌≢◌, refl, sym, subst, arith, Option, some, List, [], ◌∷◌, ◌++◌, ◌⊎◌, inl, inr,
}
use cpp_core_systems.Net.SocketEndpoint.{SocketEndpoint}
use cpp_core_systems.Net.SocketEndpoint.Native.{to_native}
use cpp_core_systems.Net.SocketError.{Errors, SocketResult, success, failure}
use cpp_core_systems.Net.System.{System, IsSystem, invalid_handle, Kept}
use cpp_core_systems.Net.SocketHandle
use cpp_core_systems.Net.SocketHelpers.Retry.{Settles}
use cpp_core_systems.Net.UdpSocket.{Sent}
use cpp_core_systems.Net.Pair.Extra.{Extra, Extra-keep, Extra-gain, Extra-close, Extra-close-none}
use cpp_core_systems.Net.UdpLoopback.{UdpLine, UdpExit, set_receive_timeout, leave_udp}

-- The text that a line shows of what the client has received.
abbrev pub shown : List UdpLine → List ℕ
shown [] = []
shown (UdpLine.client_received text ∷ lines) = text ++ shown lines
shown (UdpLine.runtime_failed error ∷ lines) = shown lines
shown (UdpLine.bind_failed error ∷ lines) = shown lines
shown (UdpLine.timeout_failed error ∷ lines) = shown lines
shown (UdpLine.endpoint_failed error ∷ lines) = shown lines
shown (UdpLine.bound_at endpoint ∷ lines) = shown lines
shown (UdpLine.send_failed error ∷ lines) = shown lines
shown (UdpLine.server_failed error ∷ lines) = shown lines
shown (UdpLine.received_from count sender ∷ lines) = shown lines
shown (UdpLine.reply_failed error ∷ lines) = shown lines
shown (UdpLine.client_failed error ∷ lines) = shown lines
shown (UdpLine.no_match ∷ lines) = shown lines
shown (UdpLine.empty_send_failed error ∷ lines) = shown lines
shown (UdpLine.empty_receive_failed error ∷ lines) = shown lines
shown (UdpLine.not_empty ∷ lines) = shown lines
shown (UdpLine.empty_received ∷ lines) = shown lines

-- No call of sendto or recvmsg is interrupted `fuel` times in a row.
pub record IsPatientUdp (sys : System) (std : Errors) (fuel : ℕ) : Type 0 where
  pub sends :
      (buffer : List ℕ) (destination : SocketEndpoint) (h : ℕ) (s : sys.State)
      → Settles sys std (sys.sendto h buffer (to_native sys.headers destination)) fuel s
  pub receives : (h size : ℕ) (s : sys.State) → Settles sys std (sys.recvmsg h size) fuel s

module _ (sys : System) (std : Errors) (laws : IsSystem sys) (s₀ : sys.State) where
  -- The server's descriptor has been opened, and the client's if it has one.
  abbrev pub Open : (v c : ℕ) → sys.State → Type 0
  Open v c s = Extra sys (c ∷ v ∷ []) s₀ s ⊎ ((c ≡ invalid_handle) × Extra sys (v ∷ []) s₀ s)

  pub Open-keep : (v c : ℕ) (s t : sys.State) → Open v c s → Kept sys s t → Open v c t
  Open-keep v c s t (inl extra) kept = inl (Extra-keep sys (c ∷ v ∷ []) s₀ s t extra kept)
  Open-keep v c s t (inr (free, extra)) kept = inr (free, Extra-keep sys (v ∷ []) s₀ s t extra kept)

  -- What an exit leaves open, and what a success has shown.
  abbrev pub UdpFine : List ℕ → UdpExit sys std → Type 0
  UdpFine expected r = Extra sys [] s₀ r.2 × (r.1 ≡ 0 → shown r.0 ≡ expected)

  abbrev pub Runs : List ℕ → Option (UdpExit sys std) → Type 0
  Runs expected o = (r : UdpExit sys std) × (o ≡ some r) × UdpFine expected r

  pub left_udp :
      (v c code : ℕ) (lines : List UdpLine) (s : sys.State)
      → Open v c s
      → Extra sys [] s₀ (leave_udp sys std v c code lines s).2
  unfolding leave_udp
  left_udp v c code lines s (inl extra) =
      Extra-close sys laws [] v s₀ _ (Extra-close sys laws (v ∷ []) c s₀ s extra)
  left_udp v c code lines s (inr (free, extra)) = Extra-close sys laws [] v s₀ _ (
      subst (λ h. Extra sys (v ∷ []) s₀ (SocketHandle.close sys h s).1) (sym free)
        (Extra-close-none sys laws (v ∷ []) s₀ s extra))

  pub failed_udp :
      (expected : List ℕ) (v c : ℕ) (lines : List UdpLine) (s : sys.State)
      → Open v c s
      → Runs expected (some (leave_udp sys std v c 1 lines s))
  unfolding leave_udp
  failed_udp expected v c lines s opened =
      (_, refl, (left_udp v c 1 lines s opened, λ e. absurd (omega arith)))

  -- SendTo of the client, and of the server.
  pub client_kept :
      (v c size : ℕ) (s : sys.State) (r : SocketResult ℕ × ℕ × sys.State)
      → Open v c s
      → Sent sys std s c size r
      → Open v r.1 r.2
  client_kept v c size s (failure error, c', t) opened (same, kept) =
      subst (λ h. Open v h t) (sym same) (Open-keep v c s t opened kept)
  client_kept v c size s (success count, c', t) opened (whole, inl (same, kept)) =
      subst (λ h. Open v h t) (sym same) (Open-keep v c s t opened kept)
  client_kept v c size s (success count, c', t) (inl ((valid, unused, apart, rest), all))
        (whole, inr (free, more)) =
      absurd (valid free)
  client_kept v c size s (success count, c', t) (inr (none_held, extra)) (whole, inr (free, more)) =
      inl (Extra-gain sys (v ∷ []) c' s₀ s t extra more)

  server_valid : (v c : ℕ) (s : sys.State) → Open v c s → v ≢ invalid_handle
  server_valid v c s (inl ((valid, unused, apart, (valid', unused', apart', rest)), all)) = valid'
  server_valid v c s (inr (free, ((valid', unused, apart, rest), all))) = valid'

  pub server_kept :
      (v c size : ℕ) (s : sys.State) (r : SocketResult ℕ × ℕ × sys.State)
      → Open v c s
      → Sent sys std s v size r
      → Open r.1 c r.2
  server_kept v c size s (failure error, v', t) opened (same, kept) =
      subst (λ h. Open h c t) (sym same) (Open-keep v c s t opened kept)
  server_kept v c size s (success count, v', t) opened (whole, inl (same, kept)) =
      subst (λ h. Open h c t) (sym same) (Open-keep v c s t opened kept)
  server_kept v c size s (success count, v', t) opened (whole, inr (free, more)) =
      absurd (server_valid v c s opened free)

  pub timeout_keeps : (h : ℕ) (s : sys.State) → Kept sys s (set_receive_timeout sys std h s).1
  unfolding set_receive_timeout
  timeout_keeps h s d = ground (arith, laws.setsockopt_keeps h sys.so_rcvtimeo 5 s d)
