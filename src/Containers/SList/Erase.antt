-- ===== src/Containers/SList/Erase.antt =====
-- Removal of one node: pop_front, and erase_after at every position.
use cpp_core_systems.Prelude.{
  suc, ◌∙◌, sym, subst, ap, ◌≡◌, refl, ◌≢◌, true, false, none, some, [], ◌∷◌, ◌++◌, arith, length,
  ◌==◌, if◌then◌else◌,
}
use cpp_core_systems.Containers.Heap.{Ptr, null, node, Heap, write}
use cpp_core_systems.Containers.Heap.Access.{
  load-ok, set_next-ok, delete_node-ok, not_null, eq_self,
}
use cpp_core_systems.Containers.Heap.Ends.{Ends, Never, returns}
use cpp_core_systems.Containers.Heap.Linked.{
  Cells, first, last, has, has-append, Linked-write, Linked-append, Linked-redirect, Linked-left,
  Linked-right, Linked-Disjoint, first-upto, last-upto, length-upto, Linked-snoc, has-last,
  has-first_snoc, has-snoc, last-snoc, snoc-cases, Linked,
}
use cpp_core_systems.Containers.SList.{SList, before, at, decr, pop_front, erase_after}
use cpp_core_systems.Containers.SList.Shape.{IsList, Removed, after}

-- The new m_tail, where `d` stands in front of the erased node.
tail_erase {ℓ} :
    {A : Type ℓ} (d p : Ptr) (zs : Cells A) (tail : Ptr)
    → tail ≡ last p zs
    → has p zs ≡ false
    → (if p == tail then d else tail) ≡ last d zs
tail_erase d p [] tail e out = ground arith
tail_erase d p ((q, w) ∷ zs) tail e out =
    let i : has tail ((q, w) ∷ zs) ≡ true =
      subst (λ a. has a ((q, w) ∷ zs) ≡ true) (sym e) (has-last q w zs) in
    let apart : tail ≢ p = λ same. cc (subst (λ a. has a ((q, w) ∷ zs) ≡ true) same i, out) in
    keep apart ∙ e
  where
    keep : tail ≢ p → (if p == tail then d else tail) ≡ tail
    keep apart = ground arith

module _ {ℓ} {A : Type ℓ} (h : Heap A) (l : SList) (p : Ptr) (v : A) (zs : Cells A)
    (is : IsList h l ((p, v) ∷ zs)) where
  first_removed :
      (tail : Ptr)
      → tail ≡ last null zs
      → IsList
          (write h p none)
          (record {
            before_head = first zs null;
            head = first zs null;
            tail = tail;
            size = decr l.size;
          })
          zs
  first_removed tail tail_is = record {
    chain = Linked-write h null p none zs is.chain.3 is.chain.2;
    head = refl;
    tail = tail_is;
    size = omega (arith, is.size, is.fits);
    before = refl;
    fits = omega (arith, is.fits);
  }

  -- On a list that begins with the cell at `p`, pop_front ends without a fault: the list has the
  -- cells behind it, and the only change to the store is that the node at `p` is freed.
  pub pop_front_lem : Ends (λ l' g. IsList g l' zs × (g ≡ write h p none)) Never (pop_front l h)
  unfolding pop_front
  pop_front_lem =
      rw
        (
          is.head,
          not_null p is.chain.0,
          load-ok h p (first zs null) v is.chain.0 is.chain.1,
          delete_node-ok h p (first zs null) v is.chain.0 is.chain.1,
        )
        (returns (first_removed _ (pop_tail zs l.tail is.tail is.chain.3), refl))
    where
      pop_tail :
          (zs : Cells A) (tail : Ptr)
          → tail ≡ last p zs
          → Linked h null zs
          → (if first zs null == null then null else tail) ≡ last null zs
      pop_tail [] tail e c = refl
      pop_tail ((q, w) ∷ zs) tail e c = rw (not_null q c.0) e

  erase_after_before :
      Ends
        (λ (i, l') g. (i ≡ at (first zs null)) × Removed h ((p, v) ∷ zs) zs p l' g)
        Never
        (erase_after l before h)
  unfolding erase_after write
  erase_after_before =
      rw
        (
          is.before,
          load-ok h p (first zs null) v is.chain.0 is.chain.1,
          delete_node-ok h p (first zs null) v is.chain.0 is.chain.1,
          is.head,
          eq_self p,
        )
        (returns (
          refl,
          (
            first_removed _ (tail_erase null p zs l.tail is.tail is.chain.2),
            ground arith,
            ground arith,
          ),
        ))

module _ {ℓ} {A : Type ℓ} (h : Heap A) (l : SList) (us zs : Cells A) (t : Ptr) (w : A) (p : Ptr)
    (v : A) (is : IsList h l ((us ++ ((t, w) ∷ [])) ++ ((p, v) ∷ zs))) where
  abbrev upto : Cells A
  upto = us ++ ((t, w) ∷ [])

  abbrev erasure : Heap A
  erasure = write (write h t (some (node w (first zs null)))) p none

  apart : has p upto ≡ false
  apart = ground (arith, Linked-Disjoint h null upto ((p, v) ∷ zs) is.chain p)

  at_t : (t ≢ null) × (h t ≡ some (node w p))
  at_t = Linked-snoc h p us t w (Linked-left h null upto ((p, v) ∷ zs) is.chain)

  at_p : (p ≢ null) × (h p ≡ some (node v (first zs null))) × (has p zs ≡ false) × Linked h null zs
  at_p = Linked-right h null upto ((p, v) ∷ zs) is.chain

  erasure-Linked : Linked erasure null (upto ++ zs)
  erasure-Linked =
      let disjoint = Linked-Disjoint h null upto ((p, v) ∷ zs) is.chain in
      let t_out : has t zs ≡ false = ground (arith, disjoint t, has-snoc us t w) in
      let g : Heap A = write h t (some (node w (first zs null))) in
      Linked-write g null p none (upto ++ zs)
        (Linked-append g null upto zs
          (Linked-redirect h p us t w (first zs null)
            (Linked-left h null upto ((p, v) ∷ zs) is.chain))
          (Linked-write h null t _ zs at_p.3 t_out) (λ a i. ground (arith, disjoint a)))
        (ground (arith, has-append p upto zs, apart, at_p.2))

  erasure-IsList :
      (tail : Ptr)
      → tail ≡ last t zs
      → IsList erasure
          (record { before_head = l.head; head = l.head; tail = tail; size = decr l.size })
          (upto ++ zs)
  erasure-IsList tail tail_is =
      let same_first : l.head ≡ first (upto ++ zs) null =
        is.head ∙ (first-upto us t w ((p, v) ∷ zs) null ∙ sym (first-upto us t w zs null)) in
      let same_length : length (upto ++ ((p, v) ∷ zs)) ≡ suc (length (upto ++ zs)) =
        omega (arith, length-upto us t w zs, length-upto us t w ((p, v) ∷ zs)) in
      record {
        chain = erasure-Linked;
        head = same_first;
        tail = tail_is ∙ sym (last-upto us t w zs null);
        size = omega (arith, same_length, is.size, is.fits);
        before = same_first;
        fits = omega (arith, same_length, is.fits);
      }

  head_kept : (q : Ptr) → (if p == l.head then q else l.head) ≡ l.head
  head_kept q = keep λ e. cc (apart, inside e)
    where
      inside : p ≡ l.head → has p upto ≡ true
      inside e = rw (e, is.head, first-upto us t w ((p, v) ∷ zs) null) (has-first_snoc us t w)

      keep : p ≢ l.head → (if p == l.head then q else l.head) ≡ l.head
      keep ne = ground arith

  erase_after_node :
      Ends
        (λ (i, l') g.
          (i ≡ at (first zs null)) × Removed h (upto ++ ((p, v) ∷ zs)) (upto ++ zs) p l' g)
        Never
        (erase_after l (at t) h)
  unfolding erase_after write
  erase_after_node =
      let g : Heap A = write h t (some (node w (first zs null))) in
      let same : g p ≡ some (node v (first zs null)) =
        ground (arith, apart, has-snoc us t w, at_p.1) in
      let tail_is = is.tail ∙ last-upto us t w ((p, v) ∷ zs) null in
      rw
        (
          load-ok h t p w at_t.0 at_t.1,
          load-ok h p (first zs null) v at_p.0 at_p.1,
          set_next-ok h t p w at_t.0 at_t.1 (first zs null),
          delete_node-ok g p (first zs null) v at_p.0 same,
          head_kept (first zs null),
        )
        (returns (
          refl,
          (
            erasure-IsList _ (tail_erase t p zs l.tail tail_is at_p.2),
            ground arith,
            λ a o. ground (
              arith,
              has-append a upto ((p, v) ∷ zs),
              has-append t upto ((p, v) ∷ zs),
              has-snoc us t w,
            ),
          ),
        ))

module _ {ℓ} {A : Type ℓ} (h : Heap A) (l : SList) where
  erase_after_eq :
      (ys us zs : Cells A) (t : Ptr) (w : A) (p : Ptr) (v : A)
      → ys ≡ us ++ ((t, w) ∷ [])
      → IsList h l (ys ++ ((p, v) ∷ zs))
      → Ends
          (λ (i, l') g.
            (i ≡ at (first zs null)) × Removed h (ys ++ ((p, v) ∷ zs)) (ys ++ zs) p l' g)
          Never
          (erase_after l (at t) h)
  erase_after_eq ys us zs t w p v e is = rw e (erase_after_node h l us zs t w p v (rw e at is))

  -- On a list with a cell at `p` behind the cells `ys`, which may be none, erase_after behind `ys`
  -- ends without a fault: exactly that cell is gone and its node is freed, the iterator returned
  -- stands at the next cell or at end(), and no node outside the list is written.
  pub erase_after_lem :
      (ys zs : Cells A) (p : Ptr) (v : A)
      → IsList h l (ys ++ ((p, v) ∷ zs))
      → Ends
          (λ (i, l') g.
            (i ≡ at (first zs null)) × Removed h (ys ++ ((p, v) ∷ zs)) (ys ++ zs) p l' g)
          Never
          (erase_after l (after ys) h)
  erase_after_lem [] zs p v is = erase_after_before h l p v zs is
  erase_after_lem (y ∷ ys) zs p v is =
      let (us, t, w, e) = snoc-cases y ys in
      rw (ap (last null) e ∙ last-snoc us t null w) (erase_after_eq (y ∷ ys) us zs t w p v e is)
