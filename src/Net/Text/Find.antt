-- ===== src/Net/Text/Find.antt =====
-- find and rfind: where the text is known to hold the character, and what they have found.
use cpp_core_systems.Prelude.{
  ℕ, ◌≡◌, refl, ◌≢◌, some, none, List, [], ◌∷◌, ◌++◌, arith, length, All, ap, take, drop,
  Option-cases, Bool-cases, inl, inr, ◌==◌, suc,
}
use cpp_core_systems.Net.Text.{find, rfind}

-- `c` does not occur.
abbrev pub Lacks : ℕ → List ℕ → Type 0
Lacks c = All (λ x. x ≢ c)

pub find-first : (c : ℕ) (xs ys : List ℕ) → Lacks c xs → find c (xs ++ (c ∷ ys)) ≡ some (length xs)
unfolding find
find-first c [] ys h = ground arith
find-first c (x ∷ xs) ys h = ground (arith, find-first c xs ys h.1)

pub find-none : (c : ℕ) (xs : List ℕ) → Lacks c xs → find c xs ≡ none
unfolding find
find-none c [] h = refl
find-none c (x ∷ xs) h = ground (arith, find-none c xs h.1)

rfind-none : (c : ℕ) (xs : List ℕ) → Lacks c xs → rfind c xs ≡ none
unfolding rfind
rfind-none c [] h = refl
rfind-none c (x ∷ xs) h = ground (arith, rfind-none c xs h.1)

pub rfind-last : (c : ℕ) (xs ys : List ℕ) → Lacks c ys → rfind c (xs ++ (c ∷ ys)) ≡ some (length xs)
unfolding rfind
rfind-last c [] ys h = ground (arith, rfind-none c ys h)
rfind-last c (x ∷ xs) ys h = ground (arith, rfind-last c xs ys h)

-- The characters before and behind what find has found.
pub find_inv :
    (c : ℕ) (s : List ℕ) (i : ℕ)
    → find c s ≡ some i
    → (s ≡ take i s ++ (c ∷ drop (suc i) s)) × Lacks c (take i s)
unfolding find
find_inv c [] i h = cc
find_inv c (x ∷ s) i h = elim (Bool-cases (x == c)) [
  | inl here ↦ let first : i ≡ 0 = ground arith in rw first (ap (λ y. y ∷ s) (ground arith), tt)
  | inr other ↦ elim (Option-cases (find c s)) [
    | inl absent ↦ absurd (ground arith)
    | inr (j, found) ↦
        let next : i ≡ suc j = ground arith in
        let (split, lacks) = find_inv c s j found in
        rw next (ap (λ t. x ∷ t) split, (ground arith, lacks))
  ]
]

pub find-none-Lacks : (c : ℕ) (s : List ℕ) → find c s ≡ none → Lacks c s
unfolding find
find-none-Lacks c [] h = tt
find-none-Lacks c (x ∷ s) h = elim (Option-cases (find c s)) [
  | inl absent ↦ (ground arith, find-none-Lacks c s absent)
  | inr (j, found) ↦ absurd (ground arith)
]

rfind-none-Lacks : (c : ℕ) (s : List ℕ) → rfind c s ≡ none → Lacks c s
unfolding rfind
rfind-none-Lacks c [] h = tt
rfind-none-Lacks c (x ∷ s) h = elim (Option-cases (rfind c s)) [
  | inl absent ↦ (ground arith, rfind-none-Lacks c s absent)
  | inr (j, found) ↦ absurd (ground arith)
]

pub rfind_inv :
    (c : ℕ) (s : List ℕ) (i : ℕ)
    → rfind c s ≡ some i
    → (s ≡ take i s ++ (c ∷ drop (suc i) s)) × Lacks c (drop (suc i) s)
unfolding rfind
rfind_inv c [] i h = cc
rfind_inv c (x ∷ s) i h = elim (Option-cases (rfind c s)) [
  | inl absent ↦
      let first : i ≡ 0 = ground arith in
      let same : x ≡ c = ground arith in
      rw first (ap (λ y. y ∷ s) same, rfind-none-Lacks c s absent)
  | inr (j, found) ↦
      let next : i ≡ suc j = ground arith in
      let (split, lacks) = rfind_inv c s j found in rw next (ap (λ t. x ∷ t) split, lacks)
]
