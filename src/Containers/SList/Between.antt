-- ===== src/Containers/SList/Between.antt =====
-- emplace_after behind a node, and at every position.
use cpp_core_systems.Prelude.{
  suc, ◌<◌, ◌∙◌, sym, subst, ap, ◌≡◌, refl, ◌≢◌, ◌||◌, true, false, none, some, [], ◌∷◌, ◌++◌,
  arith, length, ◌==◌, if◌then◌else◌,
}
use cpp_core_systems.Containers.Heap.{Ptr, null, node, Heap, write, New, IsFresh}
use cpp_core_systems.Containers.Heap.Access.{
  load-ok, set_next-ok, write-write, write_at, new_node-Ends,
}
use cpp_core_systems.Containers.Heap.Ends.{Ends, returns, then_run}
use cpp_core_systems.Containers.Heap.Linked.{
  Cells, first, last, has, has-append, SameOutside, Linked-left, Linked-right, Linked-Disjoint,
  Linked-insertion, insertion, first-upto, last-upto, length-upto, Linked-snoc, has-last,
  ne-null_of_has, has-snoc, last-snoc, snoc-cases, Linked,
}
use cpp_core_systems.Containers.SList.{SList, same_node, at, size_mod, incr, emplace_after}
use cpp_core_systems.Containers.SList.Shape.{IsList, Inserted, after}
use cpp_core_systems.Containers.SList.Front.{emplace_after_before}

tail_keep :
    (tail t p : Ptr)
    → tail ≢ t
    → tail ≢ null
    → (if same_node tail (at t) || tail == null then p else tail) ≡ tail
tail_keep tail t p apart ne = ground arith

-- The new m_tail of emplace_after.
tail_choice {ℓ} :
    {A : Type ℓ} (h : Heap A) (t p : Ptr) (zs : Cells A) (tail : Ptr)
    → tail ≡ last t zs
    → t ≢ null
    → has t zs ≡ false
    → Linked h null zs
    → (if same_node tail (at t) || tail == null then p else tail) ≡ last p zs
tail_choice h t p [] tail e ne out l = ground arith
tail_choice h t p ((q, w) ∷ zs) tail e ne out l =
    let i : has tail ((q, w) ∷ zs) ≡ true =
      subst (λ a. has a ((q, w) ∷ zs) ≡ true) (sym e) (has-last q w zs) in
    let apart : tail ≢ t = λ same. cc (subst (λ a. has a ((q, w) ∷ zs) ≡ true) same i, out) in
    tail_keep tail t p apart (ne-null_of_has h null tail ((q, w) ∷ zs) l i) ∙ e

module _ {ℓ} {A : Type ℓ} (new : New A) (fresh : IsFresh new) (h : Heap A) (v : A) where
  module _ (l : SList) (us zs : Cells A) (t : Ptr) (w : A)
      (is : IsList h l ((us ++ ((t, w) ∷ [])) ++ zs))
      (room : suc (length ((us ++ ((t, w) ∷ [])) ++ zs)) < size_mod) where
    abbrev upto : Cells A
    upto = us ++ ((t, w) ∷ [])

    at_t : (t ≢ null) × (h t ≡ some (node w (first zs null)))
    at_t = Linked-snoc h (first zs null) us t w (Linked-left h null upto zs is.chain)

    pub insertion-IsList :
        (p : Ptr)
        → p ≢ null
        → h p ≡ none
        → (tail start : Ptr) → tail ≡ last p zs
        → start ≡ l.head
        → IsList
            (insertion h v us zs t p w)
            (record { before_head = start; head = l.head; tail = tail; size = incr l.size })
            (upto ++ ((p, v) ∷ zs))
    insertion-IsList p ne unused tail start tail_is start_is =
        let same_first : l.head ≡ first (upto ++ ((p, v) ∷ zs)) null =
          is.head ∙ (first-upto us t w zs null ∙ sym (first-upto us t w ((p, v) ∷ zs) null)) in
        let same_length : length (upto ++ ((p, v) ∷ zs)) ≡ suc (length (upto ++ zs)) =
          omega (arith, length-upto us t w zs, length-upto us t w ((p, v) ∷ zs)) in
        record {
          chain = Linked-insertion h v us zs t p w is.chain ne unused;
          head = same_first;
          tail = tail_is ∙ sym (last-upto us t w ((p, v) ∷ zs) null);
          size = omega (arith, same_length, is.size);
          before = start_is ∙ same_first;
          fits = omega (arith, same_length);
        }

    pub insertion-SameOutside :
        (p : Ptr) → SameOutside ((p, v) ∷ (upto ++ zs)) h (insertion h v us zs t p w)
    unfolding write
    insertion-SameOutside p a o = ground (arith, has-append t upto zs, has-snoc us t w)

    pub after_new :
        (p : Ptr)
        → p ≢ null
        → h p ≡ none
        → (q : Ptr) → write h p (some (node v q)) t ≡ some (node w (first zs null))
    unfolding write
    after_new p ne unused q = ground (arith, at_t.1)

    tail_after :
        (p : Ptr) → (if same_node l.tail (at t) || l.tail == null then p else l.tail) ≡ last p zs
    tail_after p =
        tail_choice h t p zs l.tail (is.tail ∙ last-upto us t w zs null) at_t.0
          (Linked-Disjoint h null upto zs is.chain t (has-snoc us t w))
          (Linked-right h null upto zs is.chain)

    -- emplace_after behind a node.
    emplace_after_node :
        Ends
          (λ (i, l') g.
            (p : Ptr) × (i ≡ at p) × Inserted h v (upto ++ zs) (upto ++ ((p, v) ∷ zs)) p l' g)
          (λ g. g ≡ h)
          (emplace_after new l (at t) v h)
    unfolding emplace_after
    emplace_after_node =
        then_run (new_node-Ends new fresh h v)
          (λ p g (ne, unused, e).
            let q = first zs null in
            let g₁ : Heap A = write h p (some (node v null)) in
            let g₂ : Heap A = write h p (some (node v q)) in
            rw
              (
                e,
                load-ok g₁ t q w at_t.0 (after_new p ne unused null),
                set_next-ok g₁ p null v ne (write_at h p _) q,
                write-write h p (some (node v null)) (some (node v q)),
                set_next-ok g₂ t q w at_t.0 (after_new p ne unused q) p,
              )
              (returns (
                p,
                refl,
                (
                  insertion-IsList p ne unused _ _ (tail_after p) refl,
                  unused,
                  insertion-SameOutside p,
                ),
              )))
          (λ g e. e)

  emplace_after_eq :
      (l : SList) (ys us zs : Cells A) (t : Ptr) (w : A)
      → ys ≡ us ++ ((t, w) ∷ [])
      → IsList h l (ys ++ zs)
      → suc (length (ys ++ zs)) < size_mod
      → Ends
          (λ (i, l') g.
            (p : Ptr) × (i ≡ at p) × Inserted h v (ys ++ zs) (ys ++ ((p, v) ∷ zs)) p l' g)
          (λ g. g ≡ h)
          (emplace_after new l (at t) v h)
  emplace_after_eq l ys us zs t w e is room =
      rw e (emplace_after_node l us zs t w (rw e at is) (rw e at room))

  -- For an allocator that returns unused non-null addresses, and a list of fewer than 2^64 - 1
  -- cells, emplace_after behind any cells `ys` (none of them is before_begin()) ends: it returns
  -- the position of one new cell between `ys` and `zs`, the list invariant holds for the longer
  -- list, and no node outside the list is written; or `new` throws and the store is unchanged.
  pub emplace_after_lem :
      (l : SList) (ys zs : Cells A)
      → IsList h l (ys ++ zs)
      → suc (length (ys ++ zs)) < size_mod
      → Ends
          (λ (i, l') g.
            (p : Ptr) × (i ≡ at p) × Inserted h v (ys ++ zs) (ys ++ ((p, v) ∷ zs)) p l' g)
          (λ g. g ≡ h)
          (emplace_after new l (after ys) v h)
  emplace_after_lem l [] zs is room = emplace_after_before new fresh h v l zs is room
  emplace_after_lem l (y ∷ ys) zs is room =
      let (us, t, w, e) = snoc-cases y ys in
      rw (ap (last null) e ∙ last-snoc us t null w)
        (emplace_after_eq l (y ∷ ys) us zs t w e is room)
