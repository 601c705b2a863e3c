-- ===== src/Containers/SList/Objects/Assign.antt =====
-- swap, move construction and the two assignments, with one list object or two.
use cpp_core_systems.Prelude.{
  ℕ, ◌≡◌, refl, ◌≢◌, true, false, none, [], ◌∷◌, arith, ◌∙◌, sym, if◌then◌else◌,
}
use cpp_core_systems.Containers.Heap.{Ptr, null, Heap, New, IsFresh}
use cpp_core_systems.Containers.Heap.Access.{eq_self}
use cpp_core_systems.Containers.Heap.Ends.{Ends, Never, returns, then_run}
use cpp_core_systems.Containers.Heap.Linked.{
  Cells, values, has, Disjoint, Linked, Linked-same, not-has_of_none,
}
use cpp_core_systems.Containers.SList.{SList}
use cpp_core_systems.Containers.SList.Shape.{IsList}
use cpp_core_systems.Containers.SList.Clear.{Without}
use cpp_core_systems.Containers.SList.Objects.{
  Objects, put, swap, move_from, copy_assign, move_assign,
}
use cpp_core_systems.Containers.SList.Objects.Filling.{Untouched, destroy_lem}
use cpp_core_systems.Containers.SList.Objects.Copy.{copy_lem}

put_ne : (o : Objects) (i j : ℕ) (l : SList) → j ≢ i → put o i l j ≡ o j
put_ne o i j l ne = ground arith

put_self : (o : Objects) (i : ℕ) (l : SList) → put o i l i ≡ l
put_self o i l = ground arith

module _ {ℓ} {A : Type ℓ} where
  IsList-same :
      (h g : Heap A) (l : SList) (xs : Cells A)
      → IsList h l xs
      → ((a : Ptr) → has a xs ≡ true → g a ≡ h a)
      → IsList g l xs
  IsList-same h g l xs is same = record {
    chain = Linked-same h null g xs is.chain same;
    head = is.head;
    tail = is.tail;
    size = is.size;
    before = is.before;
    fits = is.fits;
  }

  live_of_has :
      (h : Heap A) (xs : Cells A) (a : Ptr) → Linked h null xs → has a xs ≡ true → h a ≢ none
  live_of_has h [] a l i = cc
  live_of_has h ((p, v) ∷ xs) a (ne, live, out, l) i = ground (arith, live_of_has h xs a l)

  -- For two lists in one store, after swap each list object holds the list of the other.
  pub swap_lem :
      (h : Heap A) (a b : SList) (xs ys : Cells A)
      → IsList h a xs
      → IsList h b ys
      → IsList h (swap a b).0 ys × IsList h (swap a b).1 xs
  unfolding swap
  swap_lem h a b xs ys is is' = (synced is', synced is)
    where
      synced :
          {l : SList} {xs : Cells A}
          → IsList h l xs
          → IsList h
              (record { before_head = l.head; head = l.head; tail = l.tail; size = l.size })
              xs
      synced is = record {
        chain = is.chain;
        head = is.head;
        tail = is.tail;
        size = is.size;
        before = is.head;
        fits = is.fits;
      }

  -- A move hands the nodes over, and leaves an empty list behind.
  pub move_from_lem :
      (h : Heap A) (other : SList) (xs : Cells A)
      → IsList h other xs
      → IsList h (move_from other).0 xs × IsList h (move_from other).1 []
  unfolding move_from
  move_from_lem h other xs is = (
    record {
      chain = is.chain;
      head = is.head;
      tail = is.tail;
      size = is.size;
      before = is.head;
      fits = is.fits;
    },
    record { chain = tt; head = refl; tail = refl; size = refl; before = refl; fits = omega arith },
  )

  -- The list `this` has been given the values of `ys` in new nodes `zs`, and its old nodes are
  -- freed; nothing else has changed.
  pub record Assigned (this : ℕ) (o : Objects) (h : Heap A) (xs ys zs : Cells A) (o' : Objects)
      (g : Heap A) : Type ℓ where
    pub is_list : IsList g (o' this) zs
    pub same_values : values zs ≡ values ys
    pub fresh : (a : Ptr) → has a zs ≡ true → h a ≡ none
    pub rest : (a : Ptr) → has a zs ≡ false → g a ≡ (if has a xs then none else h a)
    pub others : (j : ℕ) → j ≢ this → o' j ≡ o j

  module _ (new : New A) (is_fresh : IsFresh new) (h : Heap A) (o : Objects) (this other : ℕ)
      (xs ys : Cells A) (is : IsList h (o this) xs) where
    -- For an allocator that returns unused non-null addresses, and two list objects that hold
    -- lists, which may be the same object, copy assignment ends: the target has the values of the
    -- source in new nodes, its old nodes are freed, and the other nodes and list objects are
    -- unchanged; or an allocation throws and the store is as it was before.
    pub copy_assign_lem :
        IsList h (o other) ys
        → Ends
            (λ o' g. (zs : Cells A) × Assigned this o h xs ys zs o' g)
            (Untouched h)
            (copy_assign new this other o h)
    unfolding copy_assign
    copy_assign_lem is_other =
        then_run (copy_lem h new is_fresh (o other) ys is_other)
          (λ temp g (zs, e, b).
            let old =
              IsList-same h g (o this) xs is
                (λ a i. ground (arith, b.same a, b.fresh a, live_of_has h xs a is.chain)) in
            let (new_is, old_is) = swap_lem g temp (o this) zs xs b.is_list old in
            then_run (destroy_lem g (swap temp (o this)).0 xs new_is)
              (λ _ g' gone. returns (
                zs,
                record {
                  is_list = rw (eq_self this) (
                      IsList-same g g' (swap temp (o this)).1 zs old_is
                        (λ a i. gone a ∙ rw (not-has_of_none h null a xs is.chain (b.fresh a i))));
                  same_values = e;
                  fresh = b.fresh;
                  rest = λ a out. ground (arith, gone a, b.same a);
                  others = λ j ne. ground arith;
                },
              ))
              (λ _ e. absurd e))
          (λ _ e. e)

  module _ (h : Heap A) (o : Objects) (this other : ℕ) (xs : Cells A)
      (is : IsList h (o this) xs) where
    -- For two different list objects whose lists have no node in common, move assignment ends
    -- without a fault: the target has the cells of the source, the source is empty, exactly the old
    -- nodes of the target are freed, and no other list object changes.
    pub move_assign_lem :
        (ys : Cells A)
        → IsList h (o other) ys
        → Disjoint ys xs
        → other ≢ this
        → Ends
            (λ o' g.
              IsList g (o' this) ys
              × IsList g (o' other) []
              × Without xs h g
              × ((j : ℕ) → j ≢ this → j ≢ other → o' j ≡ o j))
            Never
            (move_assign this other o h)
    unfolding move_assign
    move_assign_lem ys is_other apart ne =
        let (got, left) = move_from_lem h (o other) ys is_other in
        let (old, new_is) = swap_lem h (move_from (o other)).0 (o this) ys xs got is in
        rw (put_ne o other this (move_from (o other)).1 (λ e. ne (sym e))) (
          then_run (destroy_lem h (swap (move_from (o other)).0 (o this)).0 xs old)
            (λ _ g gone. returns (
              rw (put_self) (IsList-same h g _ ys new_is (λ a i. gone a ∙ rw (apart a i))),
              rw (put_ne _ this other _ ne, put_self) (IsList-same h g _ [] left (λ a i. cc)),
              gone,
              λ j ne₁ ne₂.
                  put_ne (put o other (move_from (o other)).1) this j _ ne₁
                  ∙ put_ne o other j (move_from (o other)).1 ne₂,
            ))
            (λ _ e. absurd e))

  -- Move assignment of a list object to itself ends without a fault and leaves its list, every node
  -- and every other list object as they were.
  pub move_assign_self :
      (h : Heap A) (o : Objects) (this : ℕ) (xs : Cells A)
      → IsList h (o this) xs
      → Ends
          (λ o' g. IsList g (o' this) xs × Untouched h g × ((j : ℕ) → j ≢ this → o' j ≡ o j))
          Never
          (move_assign this this o h)
  unfolding move_assign
  move_assign_self h o this xs is =
      let (got, left) = move_from_lem h (o this) xs is in
      let o₁ : Objects = put o this (move_from (o this)).1 in
      let emptied : IsList h (o₁ this) [] = rw (put_self o this (move_from (o this)).1) left in
      let (old, new_is) = swap_lem h (move_from (o this)).0 (o₁ this) xs [] got emptied in
      then_run (destroy_lem h (swap (move_from (o this)).0 (o₁ this)).0 [] old)
        (λ _ g gone. returns (
          rw put_self
              (IsList-same h g (swap (move_from (o this)).0 (o₁ this)).1 xs new_is (λ a i. gone a)),
          gone,
          λ j ne. put_ne o₁ this j _ ne ∙ put_ne o this j (move_from (o this)).1 ne,
        ))
        (λ _ e. absurd e)
