-- ===== src/Containers/SList/Program/Sequences.antt =====
-- The plain calls and a list's cells: lengths, parts and values.
use cpp_core_systems.Prelude.{
  ℕ, zero, suc, ◌+◌, ◌<◌, ◌≤◌, ◌≡◌, refl, ◌∙◌, sym, ap, ◌||◌, List, [], ◌∷◌, ◌++◌, arith, length,
  length-append, take, drop, take-append-drop, ◌==◌,
}
use cpp_core_systems.Containers.Heap.{Ptr}
use cpp_core_systems.Containers.Heap.Linked.{Cells, values, has, has-append}
use cpp_core_systems.Containers.SList.Program.{Op, init, apply}

module _ {ℓ} {A : Type ℓ} where
  pub length-values : (xs : Cells A) → length (values xs) ≡ length xs
  length-values [] = refl
  length-values ((p, v) ∷ xs) = ap suc (length-values xs)

  pub values-take : (i : ℕ) (xs : Cells A) → values (take i xs) ≡ take i (values xs)
  values-take zero xs = refl
  values-take (suc i) [] = refl
  values-take (suc i) ((p, v) ∷ xs) = ap (λ vs. v ∷ vs) (values-take i xs)

  pub values-drop : (i : ℕ) (xs : Cells A) → values (drop i xs) ≡ drop i (values xs)
  values-drop zero xs = refl
  values-drop (suc i) [] = refl
  values-drop (suc i) ((p, v) ∷ xs) = values-drop i xs

  pub init-snoc : (vs : List A) (v : A) → init (vs ++ (v ∷ [])) ≡ vs
  init-snoc [] v = refl
  init-snoc (w ∷ []) v = refl
  init-snoc (w ∷ w' ∷ vs) v = ap (λ us. w ∷ us) (init-snoc (w' ∷ vs) v)

  -- The cell behind a position, where there is one.
  pub drop-cons :
      (i : ℕ) (xs : Cells A)
      → i < length xs
      → (p : Ptr) × (v : A) × (drop i xs ≡ (p, v) ∷ drop (suc i) xs)
  drop-cons i [] b = absurd (omega arith)
  drop-cons zero ((p, v) ∷ xs) b = (p, v, refl)
  drop-cons (suc i) (x ∷ xs) b = drop-cons i xs (omega arith)

  pub has-snoc :
      (a : Ptr) (us : Cells A) (t : Ptr) (w : A)
      → has a (us ++ ((t, w) ∷ [])) ≡ ((a == t) || has a us)
  has-snoc a us t w = ground (arith, has-append a us ((t, w) ∷ []))

  pub length-drop_one : (vs : List A) → length (drop 1 vs) ≤ length vs
  length-drop_one [] = omega arith
  length-drop_one (v ∷ vs) = omega arith

  pub length-init : (vs : List A) → length (init vs) ≤ length vs
  length-init [] = omega arith
  length-init (v ∷ []) = omega arith
  length-init (v ∷ w ∷ vs) = let rest = length-init (w ∷ vs) in omega arith

  pub length-drop : (i : ℕ) (vs : List A) → length (drop i vs) ≤ length vs
  length-drop zero vs = omega arith
  length-drop (suc i) [] = omega arith
  length-drop (suc i) (v ∷ vs) = let rest = length-drop i vs in omega arith

  pub length-split : (i : ℕ) (vs : List A) → length (take i vs) + length (drop i vs) ≡ length vs
  length-split i vs =
      sym (length-append (take i vs) (drop i vs)) ∙ ap length (take-append-drop i vs)

  pub drop-suc : (i : ℕ) (vs : List A) → length (drop (suc i) vs) ≤ length (drop i vs)
  drop-suc zero vs = length-drop_one vs
  drop-suc (suc i) [] = omega arith
  drop-suc (suc i) (v ∷ vs) = drop-suc i vs

  -- A call makes a sequence longer by one element at most.
  pub length-apply : (op : Op A) (vs : List A) → length (apply op vs) ≤ suc (length vs)
  length-apply (Op.push_front v) vs = omega arith
  length-apply (Op.push_back v) vs = omega (arith, length-append vs (v ∷ []))
  length-apply (Op.insert_after i v) vs =
      omega (arith, length-append (take i vs) (v ∷ drop i vs), length-split i vs)
  length-apply Op.pop_front vs = omega (arith, length-drop_one vs)
  length-apply Op.pop_back vs = omega (arith, length-init vs)
  length-apply (Op.erase_after i) vs =
      omega (arith, length-append (take i vs) (drop (suc i) vs), length-split i vs, drop-suc i vs)
  length-apply Op.clear vs = omega arith
