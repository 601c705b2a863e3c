-- ===== src/Containers/SList/Front.antt =====
-- Insertion at the front: emplace_front, and emplace_after at before_begin().
use cpp_core_systems.Prelude.{
  suc, ◌<◌, sym, subst, ◌≡◌, refl, ◌≢◌, ◌||◌, true, none, some, [], ◌∷◌, arith, length, ◌==◌,
  if◌then◌else◌,
}
use cpp_core_systems.Containers.Heap.{Ptr, null, node, Heap, write, New, IsFresh}
use cpp_core_systems.Containers.Heap.Access.{
  set_next-ok, not_null, write-write, write_at, new_node-Ends,
}
use cpp_core_systems.Containers.Heap.Ends.{Ends, returns, then_run}
use cpp_core_systems.Containers.Heap.Linked.{
  Cells, first, last, has, Linked-write, has-last, ne-null_of_has, not-has_of_none, Linked,
}
use cpp_core_systems.Containers.SList.{
  SList, same_node, before, at, size_mod, incr, emplace_front, emplace_after,
}
use cpp_core_systems.Containers.SList.Shape.{IsList, Inserted}

-- The new m_tail of emplace_after at before_begin().
tail_front {ℓ} :
    {A : Type ℓ} (h : Heap A) (p : Ptr) (xs : Cells A) (tail : Ptr)
    → tail ≡ last null xs
    → Linked h null xs
    → (if same_node tail before || tail == null then p else tail) ≡ last p xs
tail_front h p [] tail e l = ground arith
tail_front h p ((q, w) ∷ zs) tail e l =
    let i : has tail ((q, w) ∷ zs) ≡ true =
      subst (λ a. has a ((q, w) ∷ zs) ≡ true) (sym e) (has-last q w zs) in
    rw (not_null tail (ne-null_of_has h null tail ((q, w) ∷ zs) l i)) e

module _ {ℓ} {A : Type ℓ} (new : New A) (fresh : IsFresh new) (h : Heap A) (v : A) where
  pub push_first :
      (l : SList) (xs : Cells A) (p : Ptr)
      → IsList h l xs
      → suc (length xs) < size_mod
      → p ≢ null
      → h p ≡ none
      → (t : Ptr) → t ≡ last p xs
      → IsList
          (write h p (some (node v (first xs null))))
          (record { before_head = p; head = p; tail = t; size = incr l.size })
          ((p, v) ∷ xs)
  unfolding write
  push_first l xs p is room ne unused t last_is =
      let out = not-has_of_none h null p xs is.chain unused in
      record {
        chain = (ne, ground arith, out, Linked-write h null p _ xs is.chain out);
        head = refl;
        tail = last_is;
        size = omega (arith, is.size);
        before = refl;
        fits = room;
      }

  -- For an allocator that returns unused non-null addresses, and a list of fewer than 2^64 - 1
  -- cells, emplace_front ends: one new cell stands in front of the others, and no node that was
  -- live before is written; or `new` throws and the store is unchanged.
  pub emplace_front_lem :
      (l : SList) (xs : Cells A)
      → IsList h l xs
      → suc (length xs) < size_mod
      → Ends
          (λ l' g. (p : Ptr) × Inserted h v [] ((p, v) ∷ xs) p l' g)
          (λ g. g ≡ h)
          (emplace_front new l v h)
  unfolding emplace_front write
  emplace_front_lem l [] is room =
      then_run (new_node-Ends new fresh h v)
        (λ p g (ne, unused, e).
          rw (is.head, e)
            (returns (p, (push_first l [] p is room ne unused p refl, unused, ground arith))))
        (λ g e. e)
  emplace_front_lem l ((q, w) ∷ xs) is room =
      then_run (new_node-Ends new fresh h v)
        (λ p g (ne, unused, e).
          rw
            (
              is.head,
              e,
              not_null q is.chain.0,
              set_next-ok (write h p (some (node v null))) p null v ne (ground arith) q,
              write-write h p (some (node v null)) (some (node v q)),
            )
            (returns (
              p,
              (push_first l ((q, w) ∷ xs) p is room ne unused l.tail is.tail, unused, ground arith),
            )))
        (λ g e. e)

  pub emplace_after_before :
      (l : SList) (xs : Cells A)
      → IsList h l xs
      → suc (length xs) < size_mod
      → Ends
          (λ (i, l') g. (p : Ptr) × (i ≡ at p) × Inserted h v xs ((p, v) ∷ xs) p l' g)
          (λ g. g ≡ h)
          (emplace_after new l before v h)
  unfolding emplace_after write
  emplace_after_before l xs is room =
      then_run (new_node-Ends new fresh h v)
        (λ p g (ne, unused, e).
          rw
            (
              e,
              is.before,
              set_next-ok (write h p (some (node v null))) p null v ne (write_at h p _)
                  (first xs null),
              write-write h p (some (node v null)) (some (node v (first xs null))),
            )
            (returns (
              p,
              refl,
              (
                push_first l xs p is room ne unused _ (tail_front h p xs l.tail is.tail is.chain),
                unused,
                ground arith,
              ),
            )))
        (λ g e. e)
