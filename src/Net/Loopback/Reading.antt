-- ===== src/Net/Loopback/Reading.antt =====
-- The client's loop: what it reads, and what it finds of the message.
use cpp_core_systems.Prelude.{
  ℕ, zero, suc, ◌+◌, ◌^◌, ◌%◌, ◌≤◌, ◌<◌, ◌≡◌, refl, sym, ◌∙◌, ap, arith, Bool, true, not, ◌||◌,
  ◌==◌, Option, some, List, [], ◌∷◌, ◌++◌, length, take, drop, length-take, length-drop_sub,
  take-append-drop, Bool-cases, inl, inr,
}
use native.Mathlib.Nat.{zero-add, suc-add}
use cpp_core_systems.Net.SocketError.{Errors, SocketResult, success, failure}
use cpp_core_systems.Net.System.{System, IsSystem, invalid_handle}
use cpp_core_systems.Net.Pair.Extra.{Extra, Extra-keep, Extra-close, Extra-close-none}
use cpp_core_systems.Net.Loopback.{
  TcpLine, Exit, leave_main, same_text, still_matches, compared, client_got, client_loop,
}
use cpp_core_systems.Net.Loopback.Waits.{IsFinite, IsPatient, Received, receive_waits}

-- The bytes that a line shows of what the client has received.
abbrev pub text : TcpLine → List ℕ
text (TcpLine.runtime_failed error) = []
text (TcpLine.check_failed operation error) = []
text (TcpLine.endpoint_failed error) = []
text (TcpLine.listening_at endpoint) = []
text (TcpLine.accept_failed error) = []
text (TcpLine.server_receive_failed error) = []
text (TcpLine.client_receive_failed error) = []
text TcpLine.client_heading = []
text (TcpLine.client_received chunk) = chunk
text TcpLine.line_end = []
text TcpLine.no_match = []

abbrev pub texts : List TcpLine → List ℕ
texts [] = []
texts (line ∷ lines) = text line ++ texts lines

pub same_text_lem : (bs cs : List ℕ) → same_text bs cs ≡ true → bs ≡ cs
same_text_lem [] [] e = refl
same_text_lem [] (c ∷ cs) e = absurd (ground arith)
same_text_lem (b ∷ bs) [] e = absurd (ground arith)
same_text_lem (b ∷ bs) (c ∷ cs) e =
    let first : b ≡ c = ground arith in
    let rest : same_text bs cs ≡ true = ground arith in
    ap (λ x. x ∷ bs) first ∙ ap (λ us. c ∷ us) (same_text_lem bs cs rest)

drop-plus : (m n : ℕ) (xs : List ℕ) → drop (m + n) xs ≡ drop n (drop m xs)
drop-plus zero n xs = rw zero-add refl
drop-plus (suc m) zero [] = rw suc-add refl
drop-plus (suc m) (suc n) [] = rw suc-add refl
drop-plus (suc m) n (x ∷ xs) = rw suc-add (drop-plus m n xs)

nothing_left : (n : ℕ) (xs : List ℕ) → n ≡ length xs → drop n xs ≡ []
nothing_left n xs e = no_length (drop n xs) (omega (arith, length-drop_sub n xs))
  where
    no_length : (us : List ℕ) → length us ≡ 0 → us ≡ []
    no_length [] e = refl
    no_length (u ∷ us) e = absurd (omega arith)

-- A chunk that matches is the next part of the message.
still_matches_lem :
    (message : List ℕ) (matches : Bool) (echoed : ℕ) (chunk : List ℕ)
    → still_matches message matches echoed chunk ≡ true
    → (matches ≡ true)
      × (echoed + length chunk ≤ length message)
      × (chunk ++ drop (echoed + length chunk) message ≡ drop echoed message)
unfolding still_matches
still_matches_lem message matches echoed chunk e =
    let before : matches ≡ true = ground arith in
    let inside : echoed ≤ length message = ground arith in
    let same : same_text chunk (take (length chunk) (drop echoed message)) ≡ true = ground arith in
    let is = same_text_lem chunk (take (length chunk) (drop echoed message)) same in
    let size = ap length is ∙ length-take (length chunk) (drop echoed message) in
    let rest = length-drop_sub echoed message in
    (
      before,
      omega arith,
      ap (λ us. us ++ drop (echoed + length chunk) message) is
          ∙ ap (λ us. take (length chunk) (drop echoed message) ++ us)
              (drop-plus echoed (length chunk) message)
          ∙ take-append-drop (length chunk) (drop echoed message),
    )

module _ (sys : System) (std : Errors) where
  -- What an exit leaves open, and what a success has read.
  abbrev pub Fine : List ℕ → sys.State → Exit sys std → Type 0
  Fine message s r = Extra sys [] s r.2 × (r.1 ≡ 0 → texts r.0 ≡ message)

  -- What the client's loop still reads, if main is to succeed.
  abbrev pub Reads : List ℕ → Bool → ℕ → sys.State → Exit sys std → Type 0
  Reads message matches echoed s r =
      Extra sys [] s r.2 × (r.1 ≡ 0 → (matches ≡ true) × (texts r.0 ≡ drop echoed message))

  module _ (laws : IsSystem sys) where
    -- A return behind the listener's Close.
    pub leave_pair :
        (c v code : ℕ) (lines : List TcpLine) (s t : sys.State)
        → Extra sys (v ∷ c ∷ []) s t
        → Extra sys [] s (leave_main sys std invalid_handle c v code lines t).2
    unfolding leave_main
    leave_pair c v code lines s t extra =
        Extra-close-none sys laws [] s _
          (Extra-close sys laws [] c s _ (Extra-close sys laws (c ∷ []) v s t extra))

    failed_code :
        (c v : ℕ) (lines : List TcpLine) (t : sys.State)
        → (leave_main sys std invalid_handle c v 1 lines t).1 ≡ 0
        → ⊥
    unfolding leave_main
    failed_code c v lines t e = omega arith

    pub failed_pair :
        (message : List ℕ) (c v : ℕ) (lines : List TcpLine) (s t : sys.State)
        → Extra sys (v ∷ c ∷ []) s t
        → Fine message s (leave_main sys std invalid_handle c v 1 lines t)
    unfolding leave_main
    failed_pair message c v lines s t extra =
        (leave_pair c v 1 lines s t extra, λ e. absurd (omega arith))

    module _ (finite : IsFinite sys) (fuel : ℕ) (patient : IsPatient sys std fuel)
        (message : List ℕ) (fits : length message < 2 ^ 64) (c v : ℕ) (s₀ : sys.State) where
      compared_lem :
          (matches : Bool) (echoed : ℕ) (s : sys.State)
          → Extra sys (v ∷ c ∷ []) s₀ s
          → Reads message matches echoed s₀ (compared sys std message fuel c v matches echoed s)
      unfolding compared leave_main
      compared_lem matches echoed s extra =
          elim (Bool-cases (not matches || not (echoed == length message))) [
            | inl differ ↦ rw differ (leave_pair c v 1 [] s₀ s extra, λ e. absurd (omega arith))
            | inr same ↦
                let all : matches ≡ true = ground arith in
                let whole : echoed ≡ length message = ground arith in
                rw same (
                  leave_pair c v 0 [] s₀ s extra,
                  λ e. (all, sym (nothing_left echoed message whole)),
                )
          ]

      client_got_lem :
          (w : ℕ) (matches : Bool) (echoed : ℕ) (s : sys.State)
          (again : Bool → ℕ → sys.State → Option (Exit sys std))
          → Extra sys (v ∷ c ∷ []) s₀ s
          → ((matches' : Bool) (echoed' : ℕ) (t : sys.State)
              → finite.waiting t c < w
              → Extra sys (v ∷ c ∷ []) s₀ t
              → (q : Exit sys std) × (again matches' echoed' t ≡ some q)
                × Reads message matches' echoed' s₀ q)
          → finite.waiting s c < suc w
          → (r : SocketResult (List ℕ) × sys.State) → Received sys std finite c s r
          → (q : Exit sys std) × (client_got sys std message fuel c v again matches echoed r
              ≡ some q)
            × Reads message matches echoed s₀ q
      client_got_lem w matches echoed s again extra rest less (failure error, t) kept =
          let left =
            failed_pair message c v (TcpLine.client_receive_failed error ∷ []) s₀ t
              (Extra-keep sys (v ∷ c ∷ []) s₀ s t extra kept) in
          (_, refl, (left.0, λ e. absurd (failed_code c v _ t e)))
      client_got_lem w matches echoed s again extra rest less (success chunk, t) (kept, few) =
          let extra' = Extra-keep sys (v ∷ c ∷ []) s₀ s t extra kept in
          elim (Bool-cases (length chunk == 0)) [
            | inl over ↦ rw over (_, refl, compared_lem matches echoed t extra')
            | inr more ↦
                let some_more : 0 < length chunk = ground arith in
                let matches' = still_matches message matches echoed chunk in
                let echoed' = (echoed + length chunk) % 2 ^ 64 in
                let ((lines, code, u), found, (closed, reads)) =
                  rest matches' echoed' t (omega arith) extra' in
                rw (more, found)
                  (
                    (TcpLine.client_received chunk ∷ lines, code, u),
                    refl,
                    (
                      closed,
                      λ e.
                          let (all, read) = reads e in
                          let (before, inside, next) =
                            still_matches_lem message matches echoed chunk all in
                          let count : echoed' ≡ echoed + length chunk = omega arith in
                          (
                            before,
                            ap (λ us. chunk ++ us) (read ∙ ap (λ n. drop n message) count) ∙ next,
                          ),
                    ),
                  )
          ]

      -- The client's loop ends, with a turn for each byte that can arrive and one more.
      pub client_loop_lem :
          (w : ℕ) (matches : Bool) (echoed : ℕ) (s : sys.State) (turns : ℕ)
          → finite.waiting s c < w
          → w ≤ turns
          → Extra sys (v ∷ c ∷ []) s₀ s
          → (q : Exit sys std) × (client_loop sys std message fuel c v turns matches echoed s
              ≡ some q)
            × Reads message matches echoed s₀ q
      unfolding client_loop
      client_loop_lem zero matches echoed s turns less enough extra = absurd (omega arith)
      client_loop_lem (suc w) matches echoed s zero less enough extra = absurd (omega arith)
      client_loop_lem (suc w) matches echoed s (suc turns) less enough extra =
          let (r, found, got) = receive_waits sys std finite laws fuel patient c 64 s in
          rw (client_loop, found)
            (client_got_lem w matches echoed s (client_loop sys std message fuel c v turns) extra
              (λ m e t few also. client_loop_lem w m e t turns few (omega arith) also) less r got)
