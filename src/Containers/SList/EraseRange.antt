-- ===== src/Containers/SList/EraseRange.antt =====
-- erase_after of an open range.
use cpp_core_systems.Prelude.{
  ℕ, zero, suc, ◌+◌, ◌<◌, ◌≡◌, refl, true, false, none, [], ◌∷◌, ◌++◌, arith, length, length-append,
  ◌==◌,
}
use cpp_core_systems.Containers.Heap.{Ptr, null, Heap}
use cpp_core_systems.Containers.Heap.Access.{eq_self}
use cpp_core_systems.Containers.Heap.Ends.{Ends, Never, returns, weaken, then_run}
use cpp_core_systems.Containers.Heap.Linked.{
  Cells, first, has, has-append, SameOutside, Linked-right, Linked-Disjoint, Linked,
}
use cpp_core_systems.Containers.SList.{SList, at, erase_loop, erase_range}
use cpp_core_systems.Containers.SList.Shape.{IsList, after}
use cpp_core_systems.Containers.SList.Clear.{next_of_lem}
use cpp_core_systems.Containers.SList.Erase.{erase_after_lem}

module _ {ℓ} {A : Type ℓ} where
  -- The cells `ms` between `ys` and `zs` are gone and freed, and nothing outside the list is written.
  abbrev pub Cut : Heap A → Cells A → Cells A → Cells A → SList → Heap A → Type ℓ
  Cut h ys ms zs l' g =
      IsList g l' (ys ++ zs)
      × ((a : Ptr) → has a ms ≡ true → g a ≡ none)
      × SameOutside (ys ++ (ms ++ zs)) h g

  not_stop :
      (h : Heap A) (p : Ptr) (v : A) (ms zs : Cells A)
      → Linked h null ((p, v) ∷ (ms ++ zs))
      → (p == first zs null) ≡ false
  not_stop h p v ms [] (ne, holds, out, l) = ground arith
  not_stop h p v ms ((q, w) ∷ zs) (ne, holds, out, l) =
      ground (arith, has-append p ms ((q, w) ∷ zs))

  module _ (h : Heap A) (ys ms zs : Cells A) (p : Ptr) (v : A) (g g' : Heap A) where
    cut_gone :
        Linked h null (ys ++ ((p, v) ∷ (ms ++ zs)))
        → g p ≡ none
        → ((a : Ptr) → has a ms ≡ true → g' a ≡ none)
        → SameOutside (ys ++ (ms ++ zs)) g g'
        → (a : Ptr) → has a ((p, v) ∷ ms) ≡ true
        → g' a ≡ none
    cut_gone c freed gone same a i = ground (
      arith,
      gone a,
      same a,
      has-append a ys (ms ++ zs),
      Linked-Disjoint h null ys ((p, v) ∷ (ms ++ zs)) c a,
      (Linked-right h null ys ((p, v) ∷ (ms ++ zs)) c).2,
    )

    cut_same :
        SameOutside (ys ++ ((p, v) ∷ (ms ++ zs))) h g
        → SameOutside (ys ++ (ms ++ zs)) g g'
        → SameOutside (ys ++ ((p, v) ∷ (ms ++ zs))) h g'
    cut_same same same' a o =
        ground (
          arith,
          same a,
          same' a,
          has-append a ys (ms ++ zs),
          has-append a ys ((p, v) ∷ (ms ++ zs)),
        )

  erase_loop_lem :
      (k : ℕ) (h : Heap A) (l : SList) (ys ms zs : Cells A)
      → IsList h l (ys ++ (ms ++ zs))
      → length ms < k
      → Ends (Cut h ys ms zs) Never (erase_loop k l (after ys) (at (first zs null)) h)
  unfolding erase_loop
  erase_loop_lem zero h l ys ms zs is fuel = absurd (omega arith)
  erase_loop_lem (suc k) h l ys [] zs is fuel =
      rw (next_of_lem h l ys zs is, eq_self (first zs null)) (returns (is, λ a i. cc, λ a o. refl))
  erase_loop_lem (suc k) h l ys ((p, v) ∷ ms) zs is fuel =
      rw
        (
          next_of_lem h l ys ((p, v) ∷ (ms ++ zs)) is,
          not_stop h p v ms zs (Linked-right h null ys _ is.chain),
        )
        (then_run (erase_after_lem h l ys (ms ++ zs) p v is)
          (λ (i, l') g (i_is, (is', freed, same)).
            weaken (erase_loop_lem k g l' ys ms zs is' (omega arith))
              (λ l'' g' (is'', gone, same'). (
                is'',
                cut_gone h ys ms zs p v g g' is.chain freed gone same',
                cut_same h ys ms zs p v g g' same same',
              ))
              (λ _ e. e))
          (λ _ e. e))

  -- On a list of the cells `ys`, `ms` and `zs`, erase_after of the range from behind `ys` to the
  -- front of `zs` ends without a fault and returns the end of the range; the list then has the
  -- cells `ys` and `zs`, every node of `ms` is freed, and no node outside the list is written.
  pub erase_range_lem :
      (h : Heap A) (l : SList) (ys ms zs : Cells A)
      → IsList h l (ys ++ (ms ++ zs))
      → Ends
          (λ (i, l') g. (i ≡ at (first zs null)) × Cut h ys ms zs l' g)
          Never
          (erase_range l (after ys) (at (first zs null)) h)
  unfolding erase_range
  erase_range_lem h l ys ms zs is =
      then_run
        (erase_loop_lem (l.size + 1) h l ys ms zs is
          (omega (arith, is.size, length-append ys (ms ++ zs), length-append ms zs)))
        (λ l' g cut. returns (refl, cut)) (λ _ e. e)
