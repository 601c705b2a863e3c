-- ===== src/Containers/SList/Program/Calls.antt =====
-- Each call on a list against the same call on the plain sequence.
use cpp_core_systems.Prelude.{
  ℕ, suc, ◌<◌, ◌≤◌, ◌≡◌, refl, ◌∙◌, sym, ap, subst, true, false, none, List, [], ◌∷◌, ◌++◌, arith,
  length, take, drop, take-append-drop, ◌==◌,
}
use cpp_core_systems.Containers.Heap.{Ptr, null, Heap, Run, New, IsFresh}
use cpp_core_systems.Containers.Heap.Ends.{Ends, returns, weaken, then_run}
use cpp_core_systems.Containers.Heap.Linked.{
  Cells, values, values-append, has, has-append, snoc-cases,
}
use cpp_core_systems.Containers.SList.{
  SList, size_mod, emplace_after, erase_after, pop_front, pop_back,
}
use cpp_core_systems.Containers.SList.Shape.{IsList, after}
use cpp_core_systems.Containers.SList.Front.{emplace_front_lem}
use cpp_core_systems.Containers.SList.Between.{emplace_after_lem}
use cpp_core_systems.Containers.SList.Back.{emplace_back_lem}
use cpp_core_systems.Containers.SList.Erase.{pop_front_lem, erase_after_lem}
use cpp_core_systems.Containers.SList.PopBack.{pop_back_lem}
use cpp_core_systems.Containers.SList.Clear.{clear_lem}
use cpp_core_systems.Containers.SList.Program.{Op, call, init, apply, Allowed}
use cpp_core_systems.Containers.SList.Program.Sequences.{
  values-take, values-drop, init-snoc, drop-cons, has-snoc, length-values,
}
use cpp_core_systems.Containers.SList.Program.Holds.{Holds, inserted, removed, seek_lem, only_freed}

module _ {ℓ} {A : Type ℓ} where
  module _ (new : New A) (fresh : IsFresh new) (h : Heap A) (l : SList) (vs : List A)
      (holds : Holds h l vs) (room : suc (length vs) < size_mod) where
    -- What a call leaves: the values that the plain call gives; and if it throws, the store as it was.
    abbrev Applied : Op A → Run A SList → Type ℓ
    Applied op r = Ends (λ l' g. Holds g l' (apply op vs)) (λ g. g ≡ h) r

    room_cells : suc (length holds.cells) < size_mod
    room_cells = omega (arith, length-values holds.cells, ap length holds.values_are)

    pushed_front : (v : A) → Applied (Op.push_front v) (call new (Op.push_front v) l h)
    unfolding call
    pushed_front v =
        weaken (emplace_front_lem new fresh h v l holds.cells holds.is_list room_cells)
          (λ l' g (p, new_p).
            inserted h l v [] holds.cells ((p, v) ∷ holds.cells) (v ∷ vs) p l' g holds.nothing_else
              new_p (λ a o. (ground arith, ground arith)) (ap (λ ws. v ∷ ws) holds.values_are))
          (λ g e. e)

    pushed_back : (v : A) → Applied (Op.push_back v) (call new (Op.push_back v) l h)
    unfolding call
    pushed_back v =
        weaken (emplace_back_lem new fresh h v l holds.cells holds.is_list room_cells)
          (λ l' g (p, new_p).
            inserted h l v holds.cells holds.cells (holds.cells ++ ((p, v) ∷ [])) (vs ++ (v ∷ [])) p
              l' g holds.nothing_else new_p
              (λ a o. (
                ground (arith, has-append a holds.cells ((p, v) ∷ [])),
                ground (arith, has-append a holds.cells ((p, v) ∷ [])),
              ))
              (values-append holds.cells ((p, v) ∷ [])
                ∙ ap (λ ws. ws ++ (v ∷ [])) holds.values_are))
          (λ g e. e)

    cleared : Applied Op.clear (call new Op.clear l h)
    unfolding call
    cleared =
        weaken (clear_lem h l holds.cells holds.is_list)
          (λ l' g (e, is, gone). record {
            cells = [];
            is_list = is;
            values_are = refl;
            nothing_else = λ a o. ground (arith, gone a, holds.nothing_else a);
          })
          (λ g e. absurd e)

    pop_first :
        (xs : Cells A)
        → IsList h l xs
        → ((a : Ptr) → has a xs ≡ false → h a ≡ none)
        → Ends (λ l' g. Holds g l' (drop 1 (values xs))) (λ g. g ≡ h) (pop_front l h)
    unfolding pop_front
    pop_first [] is all =
        let empty : (l.head == null) ≡ true = ap (λ p. p == null) is.head in
        rw empty
          (returns (record { cells = []; is_list = is; values_are = refl; nothing_else = all }))
    pop_first ((p, v) ∷ xs) is all =
        weaken (pop_front_lem h l p v xs is)
          (λ l' g (is', e). record {
            cells = xs;
            is_list = is';
            values_are = refl;
            nothing_else = λ a o. only_freed h g p a v xs (all a) e o;
          })
          (λ g e. absurd e)

    pop_last :
        (xs : Cells A)
        → IsList h l xs
        → ((a : Ptr) → has a xs ≡ false → h a ≡ none)
        → Ends (λ l' g. Holds g l' (init (values xs))) (λ g. g ≡ h) (pop_back l h)
    unfolding pop_back
    pop_last [] is all =
        let empty : (l.head == null) ≡ true = ap (λ p. p == null) is.head in
        rw empty
          (returns (record { cells = []; is_list = is; values_are = refl; nothing_else = all }))
    pop_last (x ∷ xs) is all =
        let (us, t, w, e) = snoc-cases x xs in
        subst (λ cs. Ends (λ l' g. Holds g l' (init (values cs))) (λ g. g ≡ h) (pop_back l h))
          (sym e)
          (last_gone us t w (subst (IsList h l) e is)
            (λ a o. all a (subst (λ cs. has a cs ≡ false) (sym e) o)))
      where
        last_gone :
            (us : Cells A) (t : Ptr) (w : A)
            → IsList h l (us ++ ((t, w) ∷ []))
            → ((a : Ptr) → has a (us ++ ((t, w) ∷ [])) ≡ false → h a ≡ none)
            → Ends
                (λ l' g. Holds g l' (init (values (us ++ ((t, w) ∷ [])))))
                (λ g. g ≡ h)
                (pop_back l h)
        last_gone us t w is all =
            weaken (pop_back_lem h l us t w is)
              (λ l' g gone.
                removed h l (us ++ ((t, w) ∷ [])) us _ t w l' g all gone (λ a. has-snoc a us t w)
                  (sym (rw (values-append us ((t, w) ∷ [])) (init-snoc (values us) w))))
              (λ g e. absurd e)

    insert_between :
        (v : A) (ys zs : Cells A)
        → IsList h l (ys ++ zs)
        → ((a : Ptr) → has a (ys ++ zs) ≡ false → h a ≡ none)
        → suc (length (ys ++ zs)) < size_mod
        → Ends
            (λ (it, l') g. Holds g l' (values ys ++ (v ∷ values zs)))
            (λ g. g ≡ h)
            (emplace_after new l (after ys) v h)
    insert_between v ys zs is all fits =
        weaken (emplace_after_lem new fresh h v l ys zs is fits)
          (λ (it, l') g (p, it_is, new_p).
            inserted h l v (ys ++ zs) (ys ++ zs) (ys ++ ((p, v) ∷ zs)) _ p l' g all new_p
              (λ a o. (
                ground (arith, has-append a ys ((p, v) ∷ zs), has-append a ys zs),
                ground (arith, has-append a ys ((p, v) ∷ zs), has-append a ys zs),
              ))
              (values-append ys ((p, v) ∷ zs)))
          (λ g e. e)

    erase_between :
        (p : Ptr) (v : A) (ys zs : Cells A)
        → IsList h l (ys ++ ((p, v) ∷ zs))
        → ((a : Ptr) → has a (ys ++ ((p, v) ∷ zs)) ≡ false → h a ≡ none)
        → Ends
            (λ (it, l') g. Holds g l' (values ys ++ values zs))
            (λ g. g ≡ h)
            (erase_after l (after ys) h)
    erase_between p v ys zs is all =
        weaken (erase_after_lem h l ys zs p v is)
          (λ (it, l') g (it_is, gone).
            removed h l (ys ++ ((p, v) ∷ zs)) (ys ++ zs) _ p v l' g all gone
              (λ a. ground (arith, has-append a ys ((p, v) ∷ zs), has-append a ys zs))
              (values-append ys zs))
          (λ g e. absurd e)

    insert_at :
        (i : ℕ) (v : A)
        → i ≤ length vs
        → Applied (Op.insert_after i v) (call new (Op.insert_after i v) l h)
    unfolding call
    insert_at i v b =
        let xs = holds.cells in
        let split = sym (take-append-drop i xs) in
        let bound : i ≤ length xs = omega (arith, length-values xs, ap length holds.values_are) in
        let same : values (take i xs) ++ (v ∷ values (drop i xs)) ≡ take i vs ++ (v ∷ drop i vs) =
          rw (values-take, values-drop)
            (ap (λ us. take i us ++ (v ∷ drop i us)) holds.values_are) in
        rw (seek_lem h l i [] xs holds.is_list bound) (
          then_run
            (insert_between v (take i xs) (drop i xs) (subst (IsList h l) split holds.is_list)
              (λ a o. holds.nothing_else a (subst (λ cs. has a cs ≡ false) (sym split) o))
              (subst (λ cs. suc (length cs) < size_mod) split room_cells))
            (λ (it, l') g done. returns (subst (Holds g l') same done)) (λ g e. e))

    erase_at :
        (i : ℕ) → i < length vs → Applied (Op.erase_after i) (call new (Op.erase_after i) l h)
    unfolding call
    erase_at i b =
        let xs = holds.cells in
        let bound : i < length xs = omega (arith, length-values xs, ap length holds.values_are) in
        let (p, v, next) = drop-cons i xs bound in
        let split = sym (ap (λ cs. take i xs ++ cs) (sym next) ∙ take-append-drop i xs) in
        let same : values (take i xs) ++ values (drop (suc i) xs) ≡ take i vs ++ drop (suc i) vs =
          rw (values-take, values-drop)
            (ap (λ us. take i us ++ drop (suc i) us) holds.values_are) in
        rw (seek_lem h l i [] xs holds.is_list (omega arith)) (
          then_run
            (erase_between p v (take i xs) (drop (suc i) xs)
              (subst (IsList h l) split holds.is_list)
              (λ a o. holds.nothing_else a (subst (λ cs. has a cs ≡ false) (sym split) o)))
            (λ (it, l') g done. returns (subst (Holds g l') same done)) (λ g e. e))

    pub call_lem : (op : Op A) → Allowed op vs → Applied op (call new op l h)
    unfolding call
    call_lem (Op.push_front v) b = pushed_front v
    call_lem (Op.push_back v) b = pushed_back v
    call_lem (Op.insert_after i v) b = insert_at i v b
    call_lem Op.pop_front b =
        weaken (pop_first holds.cells holds.is_list holds.nothing_else)
          (λ l' g done. subst (λ us. Holds g l' (drop 1 us)) holds.values_are done) (λ g e. e)
    call_lem Op.pop_back b =
        weaken (pop_last holds.cells holds.is_list holds.nothing_else)
          (λ l' g done. subst (λ us. Holds g l' (init us)) holds.values_are done) (λ g e. e)
    call_lem (Op.erase_after i) b = erase_at i b
    call_lem Op.clear b = cleared
