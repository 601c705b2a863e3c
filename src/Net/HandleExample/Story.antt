-- ===== src/Net/HandleExample/Story.antt =====
-- The descriptors of main from the second socket on, and what it writes.
use cpp_core_systems.Prelude.{
  ℕ, ◌≡◌, ◌≢◌, refl, ◌∙◌, ap, subst, arith, true, false, ◌==◌, if◌then◌else◌, List, [], ◌∷◌, ◌++◌,
  Bool-cases, inl, inr, ◌⊎◌,
}
use cpp_core_systems.Net.SocketError.{Errors}
use cpp_core_systems.Net.System.{System, IsSystem, invalid_handle, Kept, Gained}
use cpp_core_systems.Net.SocketHandle
use cpp_core_systems.Net.HandleExample.{
  Label, HandleLine, make_tcp_socket, handles_scoped, handles_assigned,
}

-- What main writes if it succeeds: the handle of the first socket goes from object to object, and
-- each object that has given it away is invalid.
abbrev pub story : (first second third : ℕ) → List HandleLine
story first second third =
    HandleLine.described Label.default_constructed invalid_handle
    ∷ HandleLine.described Label.freshly_created first
    ∷ HandleLine.described Label.construct_source invalid_handle
    ∷ HandleLine.described Label.construct_target first
    ∷ HandleLine.described Label.target_before second
    ∷ HandleLine.described Label.target_after first
    ∷ HandleLine.described Label.source_after invalid_handle
    ∷ HandleLine.released first
    ∷ HandleLine.described Label.after_release invalid_handle
    ∷ HandleLine.described Label.after_reset first
    ∷ HandleLine.described Label.after_close invalid_handle
    ∷ HandleLine.described Label.scoped third
    ∷ HandleLine.scope_left
    ∷ []

module _ (sys : System) (std : Errors) (laws : IsSystem sys) where
  -- A new socket, or none.
  pub made :
      (s : sys.State)
      → (((make_tcp_socket sys std s).1 ≡ invalid_handle)
          × Kept sys s (make_tcp_socket sys std s).2)
        ⊎ (((make_tcp_socket sys std s).0 ≡ [])
            × Gained sys (make_tcp_socket sys std s).1 s (make_tcp_socket sys std s).2)
  unfolding make_tcp_socket
  made s = elim (laws.socket_makes sys.headers.af_inet sys.sock_stream sys.ipproto_tcp s) [
    | inl (bad, kept) ↦ rw bad (inl (refl, kept))
    | inr (valid, unused, rest) ↦
        let test : ((sys.socket sys.headers.af_inet sys.sock_stream sys.ipproto_tcp s).0
              == invalid_handle)
            ≡ false =
          ground arith in
        rw test (inr (refl, (valid, unused, rest)))
  ]

  -- A failure behind the lines `before`, or the end of the story.
  abbrev pub Told : (ℕ → List HandleLine) → sys.State → List HandleLine × ℕ × sys.State → Type 0
  Told expected s r =
      Kept sys s r.2
      × (((r.1 ≡ 0) × ((third : ℕ) × (third ≢ invalid_handle) × (r.0 ≡ expected third)))
          ⊎ (r.1 ≡ 1))

  Told-after :
      (before : List HandleLine) (expected : ℕ → List HandleLine) (s : sys.State)
      (r : List HandleLine × ℕ × sys.State)
      → Told expected s r
      → Told (λ third. before ++ expected third) s (before ++ r.0, r.1, r.2)
  Told-after before expected s r (kept, inr failed) = (kept, inr failed)
  Told-after before expected s r (kept, inl (zero_code, (third, valid, lines))) =
      (kept, inl (zero_code, (third, valid, ap (λ more. before ++ more) lines)))

  -- What is opened is closed again.
  pub closed :
      (s₀ s t : sys.State) (h d : ℕ)
      → sys.opened s d ≡ sys.opened s₀ d
      → sys.opened s h ≡ false
      → sys.opened t d ≡ (if d == h then true else sys.opened s d)
      → sys.opened (sys.close h t) d ≡ (if d == h then false else sys.opened t d)
      → sys.opened (sys.close h t) d ≡ sys.opened s₀ d
  closed s₀ s t h d kept unused gained lost = elim (Bool-cases (d == h)) [
    | inr off ↦ ground arith
    | inl at ↦
        let same : h ≡ d = ground arith in
        let free : sys.opened s d ≡ false = subst (λ k. sys.opened s k ≡ false) same unused in
        ground arith
  ]

  scoped_lem :
      (s₀ s : sys.State)
      → Kept sys s₀ s
      → Told
          (λ third. HandleLine.described Label.scoped third ∷ HandleLine.scope_left ∷ [])
          s₀
          (handles_scoped sys std invalid_handle invalid_handle invalid_handle invalid_handle s)
  unfolding handles_scoped SocketHandle.close
  scoped_lem s₀ s kept = elim (made s) [
    | inl (bad, same) ↦ rw bad (λ d. same d ∙ kept d, inr refl)
    | inr (quiet, (valid, unused, rest)) ↦
        let here = (make_tcp_socket sys std s).1 in
        let t = (make_tcp_socket sys std s).2 in
        let test : (here == invalid_handle) ≡ false = ground arith in
        rw (test, quiet)
          (
            λ d. closed s₀ s t here d (kept d) unused (rest d) (laws.close_loses here t d),
            inl (refl, (here, valid, refl)),
          )
  ]

  -- What is written behind the second socket.
  abbrev pub later_story : (first second third : ℕ) → List HandleLine
  later_story first second third =
      HandleLine.described Label.target_before second
      ∷ HandleLine.described Label.target_after first
      ∷ HandleLine.described Label.source_after invalid_handle
      ∷ HandleLine.released first
      ∷ HandleLine.described Label.after_release invalid_handle
      ∷ HandleLine.described Label.after_reset first
      ∷ HandleLine.described Label.after_close invalid_handle
      ∷ HandleLine.described Label.scoped third
      ∷ HandleLine.scope_left
      ∷ []

  pub differ_lem : (s₀ s t : sys.State) (a b : ℕ) → Gained sys a s₀ s → Gained sys b s t → b ≢ a
  differ_lem s₀ s t a b (valid, unused, rest) (valid', unused', rest') same =
      let open_a : sys.opened s a ≡ true = ground (arith, rest a) in
      let is : sys.opened s a ≡ false = subst (λ k. sys.opened s k ≡ false) same unused' in
      absurd (ground arith)

  pub assigned_lem :
      (s₀ s t : sys.State) (a b : ℕ)
      → Gained sys a s₀ s
      → Gained sys b s t
      → Told (later_story a b) s₀ (handles_assigned sys std b a invalid_handle invalid_handle t)
  unfolding handles_assigned SocketHandle.move_assign SocketHandle.reset SocketHandle.close
  assigned_lem s₀ s t a b (valid, unused, rest) (valid', unused', rest') =
      let apart = differ_lem s₀ s t a b (valid, unused, rest) (valid', unused', rest') in
      let differ : (b == a) ≡ false = ground arith in
      let held : (b == invalid_handle) ≡ false = ground arith in
      let fresh : (invalid_handle == a) ≡ false = ground arith in
      let held' : (a == invalid_handle) ≡ false = ground arith in
      let first = sys.close b t in
      let second = sys.close a first in
      let kept : Kept sys s₀ second = λ d.
        closed s₀ s₀ first a d refl unused
          (closed s s t b d refl unused' (rest' d) (laws.close_loses b t d) ∙ rest d)
          (laws.close_loses a first d) in
      rw (differ, held, fresh, held')
        (Told-after
          (HandleLine.described Label.target_before b
            ∷ HandleLine.described Label.target_after a
            ∷ HandleLine.described Label.source_after invalid_handle
            ∷ HandleLine.released a
            ∷ HandleLine.described Label.after_release invalid_handle
            ∷ HandleLine.described Label.after_reset a
            ∷ HandleLine.described Label.after_close invalid_handle
            ∷ [])
          _ s₀ _ (scoped_lem s₀ second kept))
