-- ===== src/Containers/Heap/Linked.antt =====
-- Chains of nodes: which cells a chain occupies, in order, and what a write does to it.
use cpp_core_systems.Prelude.{
  ◌+◌, ◌≡◌, refl, ◌≢◌, length, length-append, Bool, true, false, ◌||◌, Option, none, some, List, [],
  ◌∷◌, ◌++◌, arith, ◌==◌,
}
use cpp_core_systems.Containers.Heap.{Ptr, null, Node, node, Heap, write}

-- What a chain stands for: the address and the value of each node.
abbrev pub Cells {ℓ} : Type ℓ → Type ℓ
Cells A = List (Ptr × A)

module _ {ℓ} {A : Type ℓ} where
  abbrev pub values : Cells A → List A
  values [] = []
  values ((_, v) ∷ xs) = v ∷ values xs

  -- The address of the first cell, or where the chain ends.
  abbrev pub first : Cells A → Ptr → Ptr
  first [] stop = stop
  first ((p, _) ∷ _) stop = p

  -- The address of the last cell, or `before`.
  abbrev pub last : Ptr → Cells A → Ptr
  last before [] = before
  last before ((p, _) ∷ xs) = last p xs

  abbrev pub has : Ptr → Cells A → Bool
  has a [] = false
  has a ((p, _) ∷ xs) = (a == p) || has a xs

  abbrev pub Disjoint : Cells A → Cells A → Type 0
  Disjoint xs ys = (a : Ptr) → has a xs ≡ true → has a ys ≡ false

  -- `g` differs from `h` at most at the addresses of `xs`.
  abbrev pub SameOutside : Cells A → Heap A → Heap A → Type ℓ
  SameOutside xs h g = (a : Ptr) → has a xs ≡ false → g a ≡ h a

  -- The cells are live, distinct nodes, and each points to the next, the last one to `stop`.
  abbrev pub Linked : Heap A → Ptr → Cells A → Type ℓ
  Linked h stop [] = Unit {ℓ}
  Linked h stop ((p, v) ∷ xs) =
      (p ≢ null) × (h p ≡ some (node v (first xs stop))) × (has p xs ≡ false) × Linked h stop xs

module _ {ℓ} {A : Type ℓ} where
  pub has-append : (a : Ptr) (xs ys : Cells A) → has a (xs ++ ys) ≡ (has a xs || has a ys)
  has-append a [] ys = refl
  has-append a ((p, v) ∷ xs) ys = ground (arith, has-append a xs ys)

  pub first-append :
      (xs ys : Cells A) (stop : Ptr) → first (xs ++ ys) stop ≡ first xs (first ys stop)
  first-append [] ys stop = refl
  first-append (x ∷ xs) ys stop = refl

  pub last-append : (xs ys : Cells A) (p : Ptr) → last p (xs ++ ys) ≡ last (last p xs) ys
  last-append [] ys p = refl
  last-append ((q, v) ∷ xs) ys p = last-append xs ys q

  pub values-append : (xs ys : Cells A) → values (xs ++ ys) ≡ values xs ++ values ys
  values-append [] ys = refl
  values-append ((q, v) ∷ xs) ys = ground (arith, values-append xs ys)

  module _ (h : Heap A) (stop : Ptr) where
    -- A chain survives any change that spares its own cells.
    pub Linked-same :
        (g : Heap A) (xs : Cells A)
        → Linked h stop xs
        → ((a : Ptr) → has a xs ≡ true → g a ≡ h a)
        → Linked g stop xs
    Linked-same g [] l same = tt
    Linked-same g ((p, v) ∷ xs) (ne, at, out, l) same =
        (ne, ground (arith, same p), out, Linked-same g xs l λ a i. same a (ground arith))

    pub Linked-write :
        (p : Ptr) (c : Option (Node A)) (xs : Cells A)
        → Linked h stop xs
        → has p xs ≡ false
        → Linked (write h p c) stop xs
    unfolding write
    Linked-write p c xs l out = Linked-same _ xs l λ a i. ground arith

    pub not-has_of_none :
        (a : Ptr) (xs : Cells A) → Linked h stop xs → h a ≡ none → has a xs ≡ false
    not-has_of_none a [] l unused = refl
    not-has_of_none a ((p, v) ∷ xs) (ne, at, out, l) unused =
        ground (arith, not-has_of_none a xs l unused)

    pub Linked-append :
        (xs ys : Cells A)
        → Linked h (first ys stop) xs
        → Linked h stop ys
        → Disjoint xs ys
        → Linked h stop (xs ++ ys)
    Linked-append [] ys l m apart = m
    Linked-append ((p, v) ∷ xs) ys (ne, at, out, l) m apart = (
      ne,
      ground (arith, first-append xs ys stop),
      ground (arith, has-append p xs ys, apart p),
      Linked-append xs ys l m λ a i. apart a (ground arith),
    )

    pub Linked-left : (xs ys : Cells A) → Linked h stop (xs ++ ys) → Linked h (first ys stop) xs
    Linked-left [] ys l = tt
    Linked-left ((p, v) ∷ xs) ys (ne, at, out, l) = (
      ne,
      ground (arith, first-append xs ys stop),
      ground (arith, has-append p xs ys),
      Linked-left xs ys l,
    )

    pub Linked-right : (xs ys : Cells A) → Linked h stop (xs ++ ys) → Linked h stop ys
    Linked-right [] ys l = l
    Linked-right (x ∷ xs) ys (ne, at, out, l) = Linked-right xs ys l

    pub Linked-Disjoint : (xs ys : Cells A) → Linked h stop (xs ++ ys) → Disjoint xs ys
    Linked-Disjoint [] ys l a i = cc
    Linked-Disjoint ((p, v) ∷ xs) ys (ne, at, out, l) a i =
        ground (arith, Linked-Disjoint xs ys l a, has-append p xs ys)

    -- The last node of a chain is made to point elsewhere.
    pub Linked-redirect :
        (xs : Cells A) (p : Ptr) (v : A) (q : Ptr)
        → Linked h stop (xs ++ ((p, v) ∷ []))
        → Linked (write h p (some (node v q))) q (xs ++ ((p, v) ∷ []))
    unfolding write
    Linked-redirect [] p v q (ne, at, out, l) = (ne, ground arith, refl, tt)
    Linked-redirect ((a, w) ∷ xs) p v q (ne, at, out, l) = (
      ne,
      ground (
        arith,
        has-append a xs ((p, v) ∷ []),
        first-append xs ((p, v) ∷ []) stop,
        first-append xs ((p, v) ∷ []) q,
      ),
      out,
      Linked-redirect xs p v q l,
    )

module _ {ℓ} {A : Type ℓ} where
  -- Every cell list with a cell in it has a last one.
  pub snoc-cases :
      (x : Ptr × A) (xs : Cells A)
      → (us : Cells A) × (t : Ptr) × (w : A) × ((x ∷ xs) ≡ us ++ ((t, w) ∷ []))
  snoc-cases (t, w) [] = ([], t, w, refl)
  snoc-cases x (y ∷ xs) = let (us, t, w, e) = snoc-cases y xs in (x ∷ us, t, w, rw e)

  pub has-last : (q : Ptr) (w : A) (zs : Cells A) → has (last q zs) ((q, w) ∷ zs) ≡ true
  has-last q w [] = ground arith
  has-last q w ((p, v) ∷ zs) = ground (arith, has-last p v zs)

  pub has-snoc : (us : Cells A) (t : Ptr) (w : A) → has t (us ++ ((t, w) ∷ [])) ≡ true
  has-snoc us t w = ground (arith, has-append t us ((t, w) ∷ []))

  pub last-snoc : (us : Cells A) (t p : Ptr) (w : A) → last p (us ++ ((t, w) ∷ [])) ≡ t
  last-snoc us t p w = last-append us ((t, w) ∷ []) p

  module _ (h : Heap A) (v : A) (us zs : Cells A) (t p : Ptr) (w : A) where
    abbrev upto : Cells A
    upto = us ++ ((t, w) ∷ [])

    -- The store in which the unused `p` has been made the successor of `t`.
    abbrev pub insertion : Heap A
    insertion = write (write h p (some (node v (first zs null)))) t (some (node w p))

    pub Linked-insertion :
        Linked h null (upto ++ zs)
        → p ≢ null
        → h p ≡ none
        → Linked insertion null (upto ++ ((p, v) ∷ zs))
    unfolding write
    Linked-insertion l ne unused =
        let out = not-has_of_none h null p (upto ++ zs) l unused in
        let out_pre : has p upto ≡ false = ground (arith, has-append p upto zs) in
        let out_zs : has p zs ≡ false = ground (arith, has-append p upto zs) in
        let apart = Linked-Disjoint h null upto zs l in
        let t_out : has t zs ≡ false = apart t (has-snoc us t w) in
        let pre = Linked-write h _ p _ upto (Linked-left h null upto zs l) out_pre in
        let rest =
          Linked-write _ null t _ zs
            (Linked-write h null p _ zs (Linked-right h null upto zs l) out_zs) t_out in
        Linked-append insertion null upto ((p, v) ∷ zs) (Linked-redirect _ _ us t w p pre)
          (ne, ground (arith, has-snoc us t w), out_zs, rest) (λ a i. ground (arith, apart a))

module _ {ℓ} {A : Type ℓ} where
  pub Linked-snoc :
      (h : Heap A) (stop : Ptr) (us : Cells A) (t : Ptr) (w : A)
      → Linked h stop (us ++ ((t, w) ∷ []))
      → (t ≢ null) × (h t ≡ some (node w stop))
  Linked-snoc h stop [] t w (ne, at, out, l) = (ne, at)
  Linked-snoc h stop (x ∷ us) t w (ne, at, out, l) = Linked-snoc h stop us t w l

  module _ (us : Cells A) (t : Ptr) (w : A) (zs : Cells A) where
    pub first-upto : (stop : Ptr) → first ((us ++ ((t, w) ∷ [])) ++ zs) stop ≡ first us t
    first-upto stop = rw first-append (first-append us ((t, w) ∷ []) (first zs stop))

    pub last-upto : (d : Ptr) → last d ((us ++ ((t, w) ∷ [])) ++ zs) ≡ last t zs
    last-upto d = rw (last-append, last-snoc us t d w)

    pub length-upto : length ((us ++ ((t, w) ∷ [])) ++ zs) ≡ length us + 1 + length zs
    length-upto =
        omega (arith, length-append (us ++ ((t, w) ∷ [])) zs, length-append us ((t, w) ∷ []))

  pub ne-null_of_has :
      (h : Heap A) (stop a : Ptr) (xs : Cells A) → Linked h stop xs → has a xs ≡ true → a ≢ null
  ne-null_of_has h stop a [] l i = cc
  ne-null_of_has h stop a ((p, v) ∷ xs) (ne, at, out, l) i =
      ground (arith, ne-null_of_has h stop a xs l)

  pub first-snoc-ne-null :
      (h : Heap A) (stop : Ptr) (us : Cells A) (t : Ptr) (w : A)
      → Linked h stop (us ++ ((t, w) ∷ []))
      → first (us ++ ((t, w) ∷ [])) null ≢ null
  first-snoc-ne-null h stop [] t w l = l.0
  first-snoc-ne-null h stop (x ∷ us) t w l = l.0

  pub has-first_snoc :
      (us : Cells A) (t : Ptr) (w : A) → has (first us t) (us ++ ((t, w) ∷ [])) ≡ true
  has-first_snoc [] t w = ground arith
  has-first_snoc ((q, v) ∷ us) t w = ground arith
