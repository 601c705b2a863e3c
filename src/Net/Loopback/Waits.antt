-- ===== src/Net/Loopback/Waits.antt =====
-- Receive and SendAll where only so many bytes can still arrive.
use cpp_core_systems.Prelude.{
  ℕ, zero, suc, ◌+◌, ◌≤◌, ◌≡◌, refl, ◌∙◌, arith, ◌==◌, Option, none, some, List, [], ◌∷◌, length,
  drop, length-drop_sub, Bool-cases, inl, inr,
}
use cpp_core_systems.Net.SocketError.{Errors, io_error, make_error, SocketResult, success, failure}
use cpp_core_systems.Net.System.{System, IsSystem, Kept}
use cpp_core_systems.Net.SocketHandle.{is_valid}
use cpp_core_systems.Net.SocketHelpers.{invalid_socket_error}
use cpp_core_systems.Net.SocketHelpers.Retry.{retry_inv, retry-some, Settles}
use cpp_core_systems.Net.TcpListener.{accept_call}
use cpp_core_systems.Net.TcpSocket.{send, receive, transfer_length}
use cpp_core_systems.Net.Transfer.Result.{send_all_result, sent_result}

-- How many bytes can still arrive on a descriptor: those received are fewer to come, and what is
-- sent on a descriptor does not arrive there.
pub record IsFinite (sys : System) : Type 0 where
  pub waiting : sys.State → ℕ → ℕ
  pub recv_takes :
      (h n : ℕ) (s : sys.State) (bytes : List ℕ)
      → (sys.recv h n s).0 ≡ some bytes
      → waiting (sys.recv h n s).1 h + length bytes ≤ waiting s h
  pub recv_fails :
      (h n : ℕ) (s : sys.State)
      → (sys.recv h n s).0 ≡ none
      → waiting (sys.recv h n s).1 h ≤ waiting s h
  pub send_waits :
      (h : ℕ) (buffer : List ℕ) (n : ℕ) (s : sys.State)
      → waiting (sys.send h buffer n s).1 h ≤ waiting s h

-- No call of accept, send or recv is interrupted `fuel` times in a row.
pub record IsPatient (sys : System) (std : Errors) (fuel : ℕ) : Type 0 where
  pub accepts : (h : ℕ) (s : sys.State) → Settles sys std (accept_call sys std h) fuel s
  pub sends :
      (h : ℕ) (buffer : List ℕ) (n : ℕ) (s : sys.State)
      → Settles sys std (sys.send h buffer n) fuel s
  pub receives : (h n : ℕ) (s : sys.State) → Settles sys std (sys.recv h n) fuel s

module _ (sys : System) (std : Errors) (finite : IsFinite sys) where
  -- The open descriptors are the same, and no more bytes can arrive.
  abbrev pub Still : ℕ → sys.State → sys.State → Type 0
  Still this s t = Kept sys s t × (finite.waiting t this ≤ finite.waiting s this)

  abbrev pub Received : ℕ → sys.State → SocketResult (List ℕ) × sys.State → Type 0
  Received this s (success bytes, t) =
      Kept sys s t × (finite.waiting t this + length bytes ≤ finite.waiting s this)
  Received this s (failure error, t) = Kept sys s t

  module _ (laws : IsSystem sys) (fuel : ℕ) (patient : IsPatient sys std fuel) where
    pub receive_waits :
        (this size : ℕ) (s : sys.State)
        → (r : SocketResult (List ℕ) × sys.State) × (receive sys std fuel this size s ≡ some r)
          × Received this s r
    unfolding receive
    receive_waits this size s = elim (Bool-cases (is_valid this)) [
      | inr free ↦ ((failure (invalid_socket_error sys std), s), rw free refl, λ d. refl)
      | inl held ↦ elim (Bool-cases (size == 0)) [
        | inl empty ↦ ((success [], s), rw (held, empty) refl, (λ d. refl, omega arith))
        | inr full ↦
            let n = transfer_length size in
            let call = sys.recv this n in
            let (r, found) = retry-some sys std call fuel s (patient.receives this n s) in
            (
              r,
              rw (held, full) found,
              retry_inv sys std call (Still this s) (Received this s) fuel s
                  (λ d. refl, omega arith)
                  (λ t (kept, few) e. (
                    λ d. laws.recv_keeps this n t d ∙ kept d,
                    let less = finite.recv_fails this n t e in omega arith,
                  ))
                  (λ t (kept, few) e d. laws.recv_keeps this n t d ∙ kept d)
                  (λ t bytes (kept, few) e. (
                    λ d. laws.recv_keeps this n t d ∙ kept d,
                    let less = finite.recv_takes this n t bytes e in omega arith,
                  ))
                  r found,
            )
      ]
    ]

    abbrev Sent : ℕ → sys.State → SocketResult ℕ × sys.State → Type 0
    Sent this s r = Still this s r.1

    send_waits :
        (this : ℕ) (buffer : List ℕ) (s : sys.State)
        → (r : SocketResult ℕ × sys.State) × (send sys std fuel this buffer s ≡ some r)
          × Sent this s r
    unfolding send
    send_waits this buffer s = elim (Bool-cases (is_valid this)) [
      | inr free ↦
          ((failure (invalid_socket_error sys std), s), rw free refl, (λ d. refl, omega arith))
      | inl held ↦ elim (Bool-cases (length buffer == 0)) [
        | inl empty ↦ ((success 0, s), rw (held, empty) refl, (λ d. refl, omega arith))
        | inr full ↦
            let n = transfer_length (length buffer) in
            let call = sys.send this buffer n in
            let (r, found) = retry-some sys std call fuel s (patient.sends this buffer n s) in
            (
              r,
              rw (held, full) found,
              retry_inv sys std call (Still this s) (Sent this s) fuel s (λ d. refl, omega arith)
                  (λ t still e. on n t still) (λ t still e. on n t still)
                  (λ t count still e. on n t still) r found,
            )
      ]
    ]
      where
        on : (n : ℕ) (t : sys.State) → Still this s t → Still this s (sys.send this buffer n t).1
        on n t (kept, few) = (
          λ d. laws.send_keeps this buffer n t d ∙ kept d,
          let less = finite.send_waits this buffer n t in omega arith,
        )

    abbrev AllSent : ℕ → sys.State → SocketResult (Unit {0}) × sys.State → Type 0
    AllSent this s r = Still this s r.1

    round_waits :
        (k this b : ℕ) (bytes : List ℕ) (s : sys.State)
        (again : List ℕ → sys.State → Option (SocketResult (Unit {0}) × sys.State))
        → ((rest : List ℕ) (t : sys.State)
            → length rest ≤ k
            → (q : SocketResult (Unit {0}) × sys.State) × (again rest t ≡ some q)
              × AllSent this t q)
        → length (b ∷ bytes) ≤ suc k
        → (r : SocketResult ℕ × sys.State) → Sent this s r
        → (q : SocketResult (Unit {0}) × sys.State) × (sent_result sys std again (b ∷ bytes) r
            ≡ some q)
          × AllSent this s q
    round_waits k this b bytes s again rest enough (failure error, t) still =
        ((failure error, t), refl, still)
    round_waits k this b bytes s again rest enough (success count, t) (kept, few) =
        elim (Bool-cases (count == 0)) [
          | inl zero_sent ↦ ((failure (make_error std io_error), t), rw zero_sent refl, (kept, few))
          | inr some_sent ↦
              let (q, found, (kept', few')) =
                rest (drop count (b ∷ bytes)) t
                  (ground (arith, length-drop_sub count (b ∷ bytes))) in
              (q, rw some_sent found, (λ d. kept' d ∙ kept d, omega arith))
        ]

    -- SendAll with a round for each byte ends.
    pub send_all_waits :
        (rounds this : ℕ) (bytes : List ℕ) (s : sys.State)
        → length bytes ≤ rounds
        → (r : SocketResult (Unit {0}) × sys.State) × (send_all_result sys std rounds fuel this
              bytes s
            ≡ some r)
          × AllSent this s r
    unfolding send_all_result
    send_all_waits rounds this [] s enough = ((success tt, s), refl, (λ d. refl, omega arith))
    send_all_waits zero this (b ∷ bytes) s enough = absurd (omega arith)
    send_all_waits (suc k) this (b ∷ bytes) s enough =
        let (r, found, still) = send_waits this (b ∷ bytes) s in
        rw (send_all_result, found)
          (round_waits k this b bytes s (send_all_result sys std k fuel this)
            (λ rest t few. send_all_waits k this rest t few) enough r still)
