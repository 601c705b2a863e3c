-- ===== src/Containers/SList/Program/Holds.antt =====
-- What it is that a list object and the store hold a plain sequence, and what keeps it.
use cpp_core_systems.Prelude.{
  ℕ, zero, suc, ◌≤◌, ◌≡◌, refl, ◌∙◌, ap, subst, false, ◌||◌, none, List, [], ◌∷◌, ◌++◌, append-nil,
  append_assoc, arith, length, take, ◌==◌,
}
use cpp_core_systems.Containers.Heap.{Ptr, Heap, ok, write}
use cpp_core_systems.Containers.Heap.Linked.{Cells, values, has, last-snoc}
use cpp_core_systems.Containers.SList.{SList, at}
use cpp_core_systems.Containers.SList.Shape.{IsList, after, Inserted, Removed}
use cpp_core_systems.Containers.SList.Observe.{advance_lem}
use cpp_core_systems.Containers.SList.Program.{seek}

module _ {ℓ} {A : Type ℓ} where
  -- The list object stands for the values `vs`, and every live node of the store is in the list.
  pub record Holds (h : Heap A) (l : SList) (vs : List A) : Type ℓ where
    pub cells : Cells A
    pub is_list : IsList h l cells
    pub values_are : values cells ≡ vs
    pub nothing_else : (a : Ptr) → has a cells ≡ false → h a ≡ none

  pub only_freed :
      (h g : Heap A) (p a : Ptr) (v : A) (xs : Cells A)
      → (has a ((p, v) ∷ xs) ≡ false → h a ≡ none)
      → g ≡ write h p none
      → has a xs ≡ false
      → g a ≡ none
  unfolding write
  only_freed h g p a v xs all e o = let e' = ap (λ k. k a) e in ground (arith, e', all)

  module _ (h : Heap A) (l : SList) where
    pub inserted :
        (v : A) (ws xs ys : Cells A) (vs : List A) (p : Ptr) (l' : SList) (g : Heap A)
        → ((a : Ptr) → has a xs ≡ false → h a ≡ none)
        → Inserted h v ws ys p l' g
        → ((a : Ptr) → has a ys ≡ false → (has a xs ≡ false) × (has a ((p, v) ∷ ws) ≡ false))
        → values ys ≡ vs
        → Holds g l' vs
    inserted v ws xs ys vs p l' g all (is, unused, same) out e = record {
      cells = ys;
      is_list = is;
      values_are = e;
      nothing_else = λ a o. same a (out a o).1 ∙ all a (out a o).0;
    }

    pub removed :
        (xs ys : Cells A) (vs : List A) (p : Ptr) (v : A) (l' : SList) (g : Heap A)
        → ((a : Ptr) → has a xs ≡ false → h a ≡ none)
        → Removed h xs ys p l' g
        → ((a : Ptr) → has a xs ≡ ((a == p) || has a ys))
        → values ys ≡ vs
        → Holds g l' vs
    removed xs ys vs p v l' g all (is, freed, same) out e = record {
      cells = ys;
      is_list = is;
      values_are = e;
      nothing_else = λ a o. ground (arith, all a, same a, out a);
    }

  -- seek goes from any position to the one `i` cells on.
  pub seek_lem :
      (h : Heap A) (l : SList) (i : ℕ) (ys xs : Cells A)
      → IsList h l (ys ++ xs)
      → i ≤ length xs
      → seek i l (after ys) h ≡ ok (after (ys ++ take i xs)) h
  unfolding seek
  seek_lem h l zero ys xs is b = rw append-nil
  seek_lem h l (suc i) ys [] is b = absurd (omega arith)
  seek_lem h l (suc i) ys ((p, v) ∷ xs) is b =
      let (step, _, _) = advance_lem h l ys xs p v is in
      rw step (
        subst (λ it. seek i l it h ≡ ok (after (ys ++ take (suc i) ((p, v) ∷ xs))) h)
          (after-snoc ys p v)
          (seek_lem h l i (ys ++ ((p, v) ∷ [])) xs (rw append_assoc is) (omega arith)
            ∙ ap (λ cs. ok (after cs) h) (append_assoc ys ((p, v) ∷ []) (take i xs))))
    where
      after-snoc : (ys : Cells A) (p : Ptr) (v : A) → after (ys ++ ((p, v) ∷ [])) ≡ at p
      after-snoc [] p v = refl
      after-snoc ((q, w) ∷ ys) p v = ap at (last-snoc ys p q v)
