-- ===== src/Containers/SList/Clear.antt =====
-- clear, contains and the walk of an iterator: loops over the whole list.
use cpp_core_systems.Prelude.{
  ℕ, zero, suc, ◌+◌, ◌<◌, ◌∙◌, ◌≡◌, refl, Bool, ◌||◌, false, none, [], ◌∷◌, ◌++◌, arith, length,
  if◌then◌else◌, ap, Bool-cases, inl, inr, List,
}
use cpp_core_systems.Containers.Heap.{Ptr, null, node, Heap, write, ok, load}
use cpp_core_systems.Containers.Heap.Access.{load-ok, delete_node-ok, not_null}
use cpp_core_systems.Containers.Heap.Ends.{Ends, Never, returns, weaken, then_run}
use cpp_core_systems.Containers.Heap.Linked.{
  Cells, values, first, last, has, Linked-write, Linked-left, Linked-snoc, last-snoc, snoc-cases,
  Linked,
}
use cpp_core_systems.Containers.SList.{
  SList, empty_list, next_of, clear_loop, clear, contains_loop, contains,
}
use cpp_core_systems.Containers.SList.Shape.{IsList, after}

module _ {ℓ} {A : Type ℓ} where
  -- `g` is `h` less the nodes of `xs`.
  abbrev pub Without : Cells A → Heap A → Heap A → Type ℓ
  Without xs h g = (a : Ptr) → g a ≡ (if has a xs then none else h a)

  clear_loop-Without :
      (k : ℕ) (h : Heap A) (xs : Cells A)
      → Linked h null xs
      → length xs < k
      → Ends (λ _. Without xs h) Never (clear_loop k (first xs null) h)
  unfolding clear_loop write
  clear_loop-Without zero h xs l fuel = absurd (omega arith)
  clear_loop-Without (suc k) h [] l fuel = returns λ a. refl
  clear_loop-Without (suc k) h ((p, v) ∷ xs) (ne, at, out, l) fuel =
      rw
        (
          not_null p ne,
          load-ok h p (first xs null) v ne at,
          delete_node-ok h p (first xs null) v ne at,
        )
        (weaken
          (clear_loop-Without k (write h p none) xs (Linked-write h null p none xs l out)
            (omega arith))
          (λ _ g gone a. ground (arith, gone a)) (λ _ e. e))

  -- On a list, clear ends without a fault within `m_size` + 1 rounds: the list object is empty,
  -- exactly the nodes of the list are freed, and every other node is unchanged.
  pub clear_lem :
      (h : Heap A) (l : SList) (xs : Cells A)
      → IsList h l xs
      → Ends (λ l' g. (l' ≡ empty_list) × IsList g l' [] × Without xs h g) Never (clear l h)
  unfolding clear
  clear_lem h l xs is = rw is.head (
      then_run (clear_loop-Without (l.size + 1) h xs is.chain (omega (arith, is.size)))
        (λ _ g gone. returns (
          refl,
          record {
            chain = tt;
            head = refl;
            tail = refl;
            size = refl;
            before = refl;
            fits = omega arith;
          },
          gone,
        ))
        (λ _ e. e))

  module _ (eq : A → A → Bool) (v : A) where
    abbrev pub any_equal : List A → Bool
    any_equal [] = false
    any_equal (w ∷ ws) = eq w v || any_equal ws

    contains_loop_lem :
        (k : ℕ) (h : Heap A) (xs : Cells A)
        → Linked h null xs
        → length xs < k
        → contains_loop eq k (first xs null) v h ≡ ok (any_equal (values xs)) h
    unfolding contains_loop
    contains_loop_lem zero h xs l fuel = absurd (omega arith)
    contains_loop_lem (suc k) h [] l fuel = refl
    contains_loop_lem (suc k) h ((p, w) ∷ xs) (ne, at, out, l) fuel =
        rw (not_null p ne, load-ok h p (first xs null) w ne at)
          (elim (Bool-cases (eq w v)) [
            | inl hit ↦ rw hit
            | inr miss ↦ rw miss (contains_loop_lem k h xs l (omega arith))
          ])

    -- On a list, contains returns whether some value equals the given one, and changes nothing.
    pub contains_lem :
        (h : Heap A) (l : SList) (xs : Cells A)
        → IsList h l xs
        → contains eq l v h ≡ ok (any_equal (values xs)) h
    unfolding contains
    contains_lem h l xs is =
        rw is.head (contains_loop_lem (l.size + 1) h xs is.chain (omega (arith, is.size)))

  next_of_eq :
      (h : Heap A) (l : SList) (ys us zs : Cells A) (t : Ptr) (w : A)
      → ys ≡ us ++ ((t, w) ∷ [])
      → Linked h null (ys ++ zs)
      → load t h ≡ ok (node w (first zs null)) h
  next_of_eq h l ys us zs t w e c =
      let (ne, at) =
        Linked-snoc h (first zs null) us t w
          (Linked-left h null (us ++ ((t, w) ∷ [])) zs (rw e at c)) in
      load-ok h t (first zs null) w ne at

  -- The node behind the position `after ys`.
  pub next_of_lem :
      (h : Heap A) (l : SList) (ys zs : Cells A)
      → IsList h l (ys ++ zs)
      → next_of l (after ys) h ≡ ok (first zs null) h
  unfolding next_of
  next_of_lem h l [] zs is = rw is.before
  next_of_lem h l (y ∷ ys) zs is =
      let (us, t, w, e) = snoc-cases y ys in
      rw (ap (last null) e ∙ last-snoc us t null w, next_of_eq h l (y ∷ ys) us zs t w e is.chain)
