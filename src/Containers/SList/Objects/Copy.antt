-- ===== src/Containers/SList/Objects/Copy.antt =====
-- The copy constructor.
use cpp_core_systems.Prelude.{
  ℕ, zero, suc, ◌+◌, ◌<◌, ◌≡◌, some, [], ◌∷◌, ◌++◌, arith, length, length-append, append-nil,
  append_assoc, sym, ◌∙◌,
}
use cpp_core_systems.Containers.Heap.{Ptr, null, node, Heap, New, IsFresh}
use cpp_core_systems.Containers.Heap.Access.{load-ok, not_null}
use cpp_core_systems.Containers.Heap.Ends.{Ends, returns, weaken, then_run}
use cpp_core_systems.Containers.Heap.Linked.{Cells, first, values, values-append, Linked}
use cpp_core_systems.Containers.SList.{SList, empty_list, size_mod}
use cpp_core_systems.Containers.SList.Shape.{IsList}
use cpp_core_systems.Containers.SList.Objects.{copy_loop, copy}
use cpp_core_systems.Containers.SList.Objects.Filling.{
  Built, Built-empty, Untouched, adopt_lem, push_or_unwind_lem,
}

module _ {ℓ} {A : Type ℓ} (h : Heap A) where
  -- A node that was live before is not among the new ones.
  Built-live :
      (ys : Cells A) (l : SList) (g : Heap A) (p q : Ptr) (v : A)
      → Built h ys l g
      → h p ≡ some (node v q)
      → g p ≡ some (node v q)
  Built-live ys l g p q v b live = ground (arith, b.fresh p, b.same p)

  module _ (new : New A) (is_fresh : IsFresh new) where
    copy_loop_lem :
        (k : ℕ) (xs ys : Cells A) (l : SList) (g : Heap A)
        → Linked h null xs
        → Built h ys l g
        → length ys + length xs < size_mod
        → length xs < k
        → Ends
            (λ l' g'. (zs : Cells A) × (values zs ≡ values ys ++ values xs) × Built h zs l' g')
            (Untouched h)
            (copy_loop new k (first xs null) l g)
    unfolding copy_loop
    copy_loop_lem zero xs ys l g c b room fuel = absurd (omega arith)
    copy_loop_lem (suc k) [] ys l g c b room fuel = returns (ys, sym (append-nil (values ys)), b)
    copy_loop_lem (suc k) ((q, v) ∷ xs) ys l g (ne, live, out, c) b room fuel =
        rw
          (
            not_null q ne,
            load-ok g q (first xs null) v ne (Built-live ys l g q (first xs null) v b live),
          )
          (then_run (push_or_unwind_lem h new is_fresh ys l g v b (omega arith))
            (λ l' g' (p, b').
              rw
                (load-ok g' q (first xs null) v ne
                  (Built-live (ys ++ ((p, v) ∷ [])) l' g' q (first xs null) v b' live))
                (weaken
                  (copy_loop_lem k xs (ys ++ ((p, v) ∷ [])) l' g' c b'
                    (omega (arith, length-append ys ((p, v) ∷ []))) (omega arith))
                  (λ l'' g'' (zs, e, b'').
                    (zs, e ∙ rw (values-append ys ((p, v) ∷ []), append_assoc), b''))
                  (λ _ e. e)))
            (λ _ e. e))

    -- For an allocator that returns unused non-null addresses, and a list, the copy constructor
    -- ends: it returns a list of new nodes with the values of the original and writes to no other
    -- node; or an allocation throws, and every node allocated on the way is freed again.
    pub copy_lem :
        (other : SList) (xs : Cells A)
        → IsList h other xs
        → Ends
            (λ l g. (zs : Cells A) × (values zs ≡ values xs) × Built h zs l g)
            (Untouched h)
            (copy new other h)
    unfolding copy
    copy_lem other xs is = rw is.head (
        then_run
          (copy_loop_lem (suc other.size) xs [] empty_list h is.chain (Built-empty h)
            (omega (arith, is.fits)) (omega (arith, is.size)))
          (λ l g (zs, e, b).
            weaken (adopt_lem h new zs l g b) (λ l' g' b'. (zs, e, b')) (λ _ e. absurd e))
          (λ _ e. e))
