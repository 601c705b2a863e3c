-- ===== src/Containers/SList/Back.antt =====
-- emplace_back.
use cpp_core_systems.Prelude.{
  suc, ◌<◌, ◌∙◌, sym, subst, append-nil, ◌≡◌, refl, ◌≢◌, some, [], ◌∷◌, ◌++◌, arith, length,
}
use cpp_core_systems.Containers.Heap.{Ptr, null, node, Heap, write, New, IsFresh}
use cpp_core_systems.Containers.Heap.Access.{set_next-ok, not_null, new_node-Ends}
use cpp_core_systems.Containers.Heap.Ends.{Ends, returns, then_run}
use cpp_core_systems.Containers.Heap.Linked.{
  Cells, Linked-snoc, first-snoc-ne-null, last-snoc, snoc-cases,
}
use cpp_core_systems.Containers.SList.{SList, size_mod, emplace_back}
use cpp_core_systems.Containers.SList.Shape.{IsList, Inserted}
use cpp_core_systems.Containers.SList.Front.{push_first}
use cpp_core_systems.Containers.SList.Between.{after_new, insertion-IsList, insertion-SameOutside}

module _ {ℓ} {A : Type ℓ} (new : New A) (fresh : IsFresh new) (h : Heap A) (v : A) where
  -- emplace_back behind a last node.
  emplace_back_node :
      (l : SList) (us : Cells A) (t : Ptr) (w : A)
      → IsList h l (us ++ ((t, w) ∷ []))
      → suc (length (us ++ ((t, w) ∷ []))) < size_mod
      → Ends
          (λ l' g.
            (p : Ptr) × Inserted h v
              (us ++ ((t, w) ∷ []))
              ((us ++ ((t, w) ∷ [])) ++ ((p, v) ∷ []))
              p
              l'
              g)
          (λ g. g ≡ h)
          (emplace_back new l v h)
  unfolding emplace_back
  emplace_back_node l us t w is room =
      let xs = us ++ ((t, w) ∷ []) in
      let is' : IsList h l (xs ++ []) = subst (IsList h l) (sym (append-nil xs)) is in
      let room' : suc (length (xs ++ [])) < size_mod = rw (append-nil xs) room in
      let (ne_t, at_t) = Linked-snoc h null us t w is.chain in
      let head_ne : l.head ≢ null =
        λ z. first-snoc-ne-null h null us t w is.chain (sym is.head ∙ z) in
      let tail_is : l.tail ≡ t = is.tail ∙ last-snoc us t null w in
      then_run (new_node-Ends new fresh h v)
        (λ p g (ne, unused, e).
          rw
            (
              e,
              not_null l.head head_ne,
              tail_is,
              set_next-ok (write h p (some (node v null))) t null w ne_t
                  (after_new new fresh h v l us [] t w is' room' p ne unused null) p,
            )
            (returns (
              p,
              (
                insertion-IsList new fresh h v l us [] t w is' room' p ne unused p l.before_head
                    refl (is.before ∙ sym is.head),
                unused,
                rw (append-nil xs) at (insertion-SameOutside new fresh h v l us [] t w is' room' p),
              ),
            )))
        (λ g e. e)

  emplace_back_eq :
      (l : SList) (xs us : Cells A) (t : Ptr) (w : A)
      → xs ≡ us ++ ((t, w) ∷ [])
      → IsList h l xs
      → suc (length xs) < size_mod
      → Ends
          (λ l' g. (p : Ptr) × Inserted h v xs (xs ++ ((p, v) ∷ [])) p l' g)
          (λ g. g ≡ h)
          (emplace_back new l v h)
  emplace_back_eq l xs us t w e is room =
      rw e (emplace_back_node l us t w (rw e at is) (rw e at room))

  -- For an allocator that returns unused non-null addresses, and a list of fewer than 2^64 - 1
  -- cells, emplace_back ends: one new cell stands behind the others, and no node outside the list
  -- is written; or `new` throws and the store is unchanged.
  pub emplace_back_lem :
      (l : SList) (xs : Cells A)
      → IsList h l xs
      → suc (length xs) < size_mod
      → Ends
          (λ l' g. (p : Ptr) × Inserted h v xs (xs ++ ((p, v) ∷ [])) p l' g)
          (λ g. g ≡ h)
          (emplace_back new l v h)
  unfolding emplace_back write
  emplace_back_lem l [] is room =
      then_run (new_node-Ends new fresh h v)
        (λ p g (ne, unused, e).
          rw (e, is.head)
            (returns (
              p,
              (push_first new fresh h v l [] p is room ne unused p refl, unused, ground arith),
            )))
        (λ g e. e)
  emplace_back_lem l (x ∷ xs) is room =
      let (us, t, w, e) = snoc-cases x xs in emplace_back_eq l (x ∷ xs) us t w e is room
