-- ===== src/Containers/SList/Observe.antt =====
-- What a client sees of a list: size, empty, front, back, and the walk of an iterator.
use cpp_core_systems.Prelude.{subst, ◌≡◌, refl, [], ◌∷◌, ◌++◌, ◌==◌, length, ◌∙◌}
use cpp_core_systems.Containers.Heap.{Ptr, null, Heap, ok}
use cpp_core_systems.Containers.Heap.Access.{load-ok}
use cpp_core_systems.Containers.Heap.Linked.{Cells, first, last-snoc, Linked-snoc, Linked-right}
use cpp_core_systems.Containers.SList.{
  SList, at, begin, before_begin, size, empty, front, back, deref, advance,
}
use cpp_core_systems.Containers.SList.Shape.{IsList, after}
use cpp_core_systems.Containers.SList.Clear.{next_of_lem}

module _ {ℓ} {A : Type ℓ} (h : Heap A) (l : SList) where
  -- size counts the cells, and empty, begin and before_begin agree with it.
  pub size_lem :
      (xs : Cells A)
      → IsList h l xs
      → (size l ≡ length xs)
        × (empty l ≡ (length xs == 0))
        × (begin l ≡ at (first xs null))
        × (before_begin l ≡ after {A = A} [])
  unfolding size empty
  size_lem xs is = (is.size, rw is.size, rw is.head, refl)

  front_lem : (p : Ptr) (v : A) (xs : Cells A) → IsList h l ((p, v) ∷ xs) → front l h ≡ ok v h
  unfolding front
  front_lem p v xs is = rw (is.head, load-ok h p (first xs null) v is.chain.0 is.chain.1)

  back_lem : (xs : Cells A) (p : Ptr) (v : A) → IsList h l (xs ++ ((p, v) ∷ [])) → back l h ≡ ok v h
  unfolding back
  back_lem xs p v is =
      let (ne, live) = Linked-snoc h null xs p v is.chain in
      rw (is.tail ∙ last-snoc xs p null v, load-ok h p null v ne live)

  -- On a list whose first cell holds `v` and whose last cell holds `w`, front reads `v` and back
  -- reads `w`, and neither changes the store.
  pub ends_lem :
      (zs us : Cells A) (p q : Ptr) (v w : A)
      → IsList h l ((p, v) ∷ zs)
      → (p, v) ∷ zs ≡ us ++ ((q, w) ∷ [])
      → (front l h ≡ ok v h) × (back l h ≡ ok w h)
  ends_lem zs us p q v w is e = (front_lem p v zs is, back_lem us q w (subst (IsList h l) e is))

  -- On a list with a cell at `p` behind the cells `ys`, operator++ goes from behind `ys` to that
  -- cell, operator* there reads its value, and operator++ goes on to the next cell or to end(); no
  -- step changes the store.
  pub advance_lem :
      (ys zs : Cells A) (p : Ptr) (v : A)
      → IsList h l (ys ++ ((p, v) ∷ zs))
      → (advance l (after ys) h ≡ ok (at p) h)
        × (deref (at p) h ≡ ok v h)
        × (advance l (at p) h ≡ ok (at (first zs null)) h)
  unfolding advance deref
  advance_lem ys zs p v is =
      let here = Linked-right h null ys ((p, v) ∷ zs) is.chain in
      let found = load-ok h p (first zs null) v here.0 here.1 in
      (rw (next_of_lem h l ys ((p, v) ∷ zs) is), rw found, rw found)
