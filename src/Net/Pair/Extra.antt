-- ===== src/Net/Pair/Extra.antt =====
-- The descriptors that have been opened since a state.
use cpp_core_systems.Prelude.{
  ℕ, ◌≡◌, ◌≢◌, refl, ◌∙◌, subst, arith, Bool, false, ◌||◌, ◌==◌, if◌then◌else◌, List, [], ◌∷◌,
  Bool-cases, inl, inr,
}
use cpp_core_systems.Net.System.{System, IsSystem, invalid_handle, Kept, Gained}
use cpp_core_systems.Net.SocketHandle.{close, close_lem, close_none}

abbrev pub mem : ℕ → List ℕ → Bool
mem d [] = false
mem d (h ∷ hs) = (d == h) || mem d hs

module _ (sys : System) where
  -- Valid descriptors, different from one another and not open in a state.
  abbrev pub New : List ℕ → sys.State → Type 0
  New [] s = Unit {0}
  New (h ∷ hs) s = (h ≢ invalid_handle) × (sys.opened s h ≡ false) × (mem h hs ≡ false) × New hs s

  -- These are new since `s`, and nothing else has been opened or closed.
  abbrev pub Extra : List ℕ → sys.State → sys.State → Type 0
  Extra hs s t = New hs s × ((d : ℕ) → sys.opened t d ≡ (mem d hs || sys.opened s d))

  pub Extra-keep : (hs : List ℕ) (s t u : sys.State) → Extra hs s t → Kept sys t u → Extra hs s u
  Extra-keep hs s t u (new, all) kept = (new, λ d. kept d ∙ all d)

  pub Extra-gain :
      (hs : List ℕ) (h : ℕ) (s t u : sys.State)
      → Extra hs s t
      → Gained sys h t u
      → Extra (h ∷ hs) s u
  Extra-gain hs h s t u (new, all) (valid, unused, more) =
      let here = all h in
      ((valid, ground arith, ground arith, new), λ d. ground (arith, more d, all d))

  module _ (laws : IsSystem sys) where
    pub Extra-close :
        (hs : List ℕ) (h : ℕ) (s t : sys.State) → Extra (h ∷ hs) s t → Extra hs s (close sys h t).1
    Extra-close hs h s t ((valid, unused, apart, new), all) = elim (close_lem sys laws h t).1 [
      | inl (bad, kept) ↦ absurd (valid bad)
      | inr (good, lost) ↦ (new, λ d. closed d (lost d))
    ]
      where
        closed :
            (d : ℕ)
            → sys.opened (close sys h t).1 d ≡ (if d == h then false else sys.opened t d)
            → sys.opened (close sys h t).1 d ≡ (mem d hs || sys.opened s d)
        closed d lost = elim (Bool-cases (d == h)) [
          | inr off ↦ ground (arith, all d)
          | inl at ↦
              let same : h ≡ d = ground arith in
              let apart' : mem d hs ≡ false = subst (λ k. mem k hs ≡ false) same apart in
              let unused' : sys.opened s d ≡ false =
                subst (λ k. sys.opened s k ≡ false) same unused in
              ground arith
        ]

    -- Nothing is closed.
    pub Extra-close-none :
        (hs : List ℕ) (s t : sys.State) → Extra hs s t → Extra hs s (close sys invalid_handle t).1
    Extra-close-none hs s t extra = rw (close_none sys invalid_handle t refl) extra

    -- The oldest of three is closed.
    pub Extra-close-last :
        (l c v : ℕ) (s t : sys.State)
        → Extra (v ∷ c ∷ l ∷ []) s t
        → Extra (v ∷ c ∷ []) s (close sys l t).1
    Extra-close-last l c v s t
          (
            (valid, unused, apart, (valid', unused', apart', (valid'', unused'', apart'', u))),
            all,
          ) =
        Extra-close (v ∷ c ∷ []) l s t (
          (
            valid'',
            unused'',
            ground arith,
            (valid, unused, ground arith, (valid', unused', refl, tt)),
          ),
          λ d. ground (arith, all d),
        )
