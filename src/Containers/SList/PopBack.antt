-- ===== src/Containers/SList/PopBack.antt =====
-- pop_back, which walks to the last but one node.
use cpp_core_systems.Prelude.{
  ℕ, zero, suc, ◌+◌, ◌<◌, ◌∙◌, sym, ap, ◌≡◌, refl, ◌≢◌, false, none, some, [], ◌∷◌, ◌++◌, arith,
  length, length-append, snoc-injective,
}
use cpp_core_systems.Containers.Heap.{
  Ptr, null, node, Heap, write, ok, pure, ◌>>◌, delete_node, set_next,
}
use cpp_core_systems.Containers.Heap.Access.{load-ok, set_next-ok, delete_node-ok, not_null}
use cpp_core_systems.Containers.Heap.Ends.{Ends, Never, returns}
use cpp_core_systems.Containers.Heap.Linked.{
  Cells, first, has, has-append, Linked-write, Linked-redirect, Linked-left, Linked-right,
  Linked-Disjoint, first-upto, first-append, Linked-snoc, has-snoc, last-snoc, Linked,
}
use cpp_core_systems.Containers.SList.{SList, pop_back_loop, pop_back, decr}
use cpp_core_systems.Containers.SList.Shape.{IsList, Removed}

module _ {ℓ} {A : Type ℓ} (h : Heap A) where
  -- The loop finds the last two cells.
  record Split (k : ℕ) (prev curr : Ptr) (xs : Cells A) : Type ℓ where
    us : Cells A
    t : Ptr
    w : A
    p : Ptr
    v : A
    whole : xs ≡ (us ++ ((t, w) ∷ [])) ++ ((p, v) ∷ [])
    found : pop_back_loop k prev curr h ≡ ok (t, p) h

  pop_back_loop-Split :
      (k : ℕ) (prev curr : Ptr) (w v : A) (zs : Cells A)
      → Linked h null ((prev, w) ∷ (curr, v) ∷ zs)
      → length zs < k
      → Split k prev curr ((prev, w) ∷ (curr, v) ∷ zs)
  unfolding pop_back_loop
  pop_back_loop-Split zero prev curr w v zs l fuel = absurd (omega arith)
  pop_back_loop-Split (suc k) prev curr w v [] (ne, at, out, (ne', at', out', l)) fuel = record {
    us = [];
    t = prev;
    w = w;
    p = curr;
    v = v;
    whole = refl;
    found = rw (load-ok h curr null v ne' at');
  }
  pop_back_loop-Split (suc k) prev curr w v ((q, u) ∷ zs) (ne, at, out, l) fuel =
      let rest = pop_back_loop-Split k curr q v u zs l (omega arith) in
      record {
        us = (prev, w) ∷ rest.us;
        t = rest.t;
        w = rest.w;
        p = rest.p;
        v = rest.v;
        whole = ap (λ xs. (prev, w) ∷ xs) rest.whole;
        found =
            rw (load-ok h curr q v l.0 l.1, not_null q l.3.0, load-ok h prev curr w ne at)
              rest.found;
      }

module _ {ℓ} {A : Type ℓ} (h : Heap A) (l : SList) (us : Cells A) (t : Ptr) (w : A) (p : Ptr)
    (v : A) (is : IsList h l ((us ++ ((t, w) ∷ [])) ++ ((p, v) ∷ []))) where
  abbrev upto : Cells A
  upto = us ++ ((t, w) ∷ [])

  apart : has p upto ≡ false
  apart = ground (arith, Linked-Disjoint h null upto ((p, v) ∷ []) is.chain p)

  at_t : (t ≢ null) × (h t ≡ some (node w p))
  at_t = Linked-snoc h p us t w (Linked-left h null upto ((p, v) ∷ []) is.chain)

  at_p : (p ≢ null) × (h p ≡ some (node v null))
  at_p = let c = Linked-right h null upto ((p, v) ∷ []) is.chain in (c.0, c.1)

  at_t_still : write h p none t ≡ some (node w p)
  unfolding write
  at_t_still = ground (arith, apart, has-snoc us t w, at_t.1)

  abbrev popped : Heap A
  popped = write (write h p none) t (some (node w null))

  popped-IsList :
      (start : Ptr)
      → start ≡ l.head
      → IsList popped
          (record { before_head = start; head = start; tail = t; size = decr l.size })
          upto
  popped-IsList start start_is =
      let pre = Linked-left h null upto ((p, v) ∷ []) is.chain in
      let same_first : start ≡ first upto null =
        start_is
        ∙ (is.head
            ∙ (first-upto us t w ((p, v) ∷ []) null ∙ sym (first-append us ((t, w) ∷ []) null))) in
      let longer = length-append upto ((p, v) ∷ []) in
      record {
        chain =
            Linked-redirect (write h p none) p us t w null (Linked-write h p p none upto pre apart);
        head = same_first;
        tail = sym (last-snoc us t null w);
        size = omega (arith, longer, is.size, is.fits);
        before = same_first;
        fits = omega (arith, longer, is.fits);
      }

  -- What pop_back does once it has found the last two nodes.
  unlink_lem :
      (start : Ptr)
      → start ≡ l.head
      → Ends (Removed h (upto ++ ((p, v) ∷ [])) upto p) Never (
          (do
            delete_node p
            set_next t null
            pure (record { before_head = start; head = start; tail = t; size = decr l.size }))
            h)
  unfolding write
  unlink_lem start e =
      rw
        (
          delete_node-ok h p null v at_p.0 at_p.1,
          set_next-ok (write h p none) t p w at_t.0 at_t_still null,
        )
        (returns (
          popped-IsList start e,
          ground (arith, apart, has-snoc us t w),
          λ a o. ground (
            arith,
            has-append a upto ((p, v) ∷ []),
            has-append t upto ((p, v) ∷ []),
            has-snoc us t w,
          ),
        ))

module _ {ℓ} {A : Type ℓ} (h : Heap A) (l : SList) where
  pop_back_eq :
      (p₀ q₀ : Ptr) (w₀ v₀ : A) (rest xs : Cells A) (p : Ptr) (v : A)
      → IsList h l ((p₀, w₀) ∷ (q₀, v₀) ∷ rest)
      → (p₀, w₀) ∷ (q₀, v₀) ∷ rest ≡ xs ++ ((p, v) ∷ [])
      → Split h (l.size + 1) p₀ q₀ ((p₀, w₀) ∷ (q₀, v₀) ∷ rest)
      → Ends (Removed h (xs ++ ((p, v) ∷ [])) xs p) Never (pop_back l h)
  unfolding pop_back
  pop_back_eq p₀ q₀ w₀ v₀ rest xs p v is whole s =
      let is' : IsList h l ((s.us ++ ((s.t, s.w) ∷ [])) ++ ((s.p, s.v) ∷ [])) = rw s.whole at is in
      let (cells, last_cell) =
        snoc-injective xs (s.us ++ ((s.t, s.w) ∷ [])) (p, v) (s.p, s.v) (sym whole ∙ s.whole) in
      rw
        (
          is.head,
          not_null p₀ is.chain.0,
          load-ok h p₀ q₀ w₀ is.chain.0 is.chain.1,
          not_null q₀ is.chain.3.0,
          s.found,
          cells,
          ap (λ c. c.0) last_cell,
          ap (λ c. c.1) last_cell,
        )
        (unlink_lem h l s.us s.t s.w s.p s.v is' p₀ (sym is.head))

  -- On a list that ends in the cell at `p`, pop_back ends without a fault, its walk needs at most
  -- `m_size` + 1 rounds, the list has the cells before `p`, the node at `p` is freed, and no node
  -- outside the list is written.
  pub pop_back_lem :
      (xs : Cells A) (p : Ptr) (v : A)
      → IsList h l (xs ++ ((p, v) ∷ []))
      → Ends (Removed h (xs ++ ((p, v) ∷ [])) xs p) Never (pop_back l h)
  unfolding pop_back write
  pop_back_lem [] p v is =
      rw
        (
          is.head,
          not_null p is.chain.0,
          load-ok h p null v is.chain.0 is.chain.1,
          delete_node-ok h p null v is.chain.0 is.chain.1,
        )
        (returns (
          record {
            chain = tt;
            head = refl;
            tail = refl;
            size = omega (arith, is.size);
            before = refl;
            fits = omega arith;
          },
          ground arith,
          ground arith,
        ))
  pop_back_lem ((q, w) ∷ []) p v is =
      pop_back_eq q p w v [] ((q, w) ∷ []) p v is refl
        (pop_back_loop-Split h (l.size + 1) q p w v [] is.chain (omega arith))
  pop_back_lem ((q, w) ∷ (q', w') ∷ xs) p v is =
      pop_back_eq q q' w w' (xs ++ ((p, v) ∷ [])) ((q, w) ∷ (q', w') ∷ xs) p v is refl (
        pop_back_loop-Split h (l.size + 1) q q' w w' (xs ++ ((p, v) ∷ [])) is.chain
          (omega (arith, is.size)))
