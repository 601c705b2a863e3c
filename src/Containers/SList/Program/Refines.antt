-- ===== src/Containers/SList/Program/Refines.antt =====
-- A sequence of calls on a list against the same calls on the plain sequence.
use cpp_core_systems.Prelude.{ℕ, suc, ◌+◌, ◌<◌, ◌≤◌, sym, subst, List, [], ◌∷◌, arith, length, take}
use cpp_core_systems.Containers.Heap.{Heap, New, IsFresh}
use cpp_core_systems.Containers.Heap.Ends.{Ends, returns, weaken, then_run}
use cpp_core_systems.Containers.SList.{SList, size_mod}
use cpp_core_systems.Containers.SList.Program.{Op, run, apply, apply_all, AllAllowed}
use cpp_core_systems.Containers.SList.Program.Sequences.{length-apply}
use cpp_core_systems.Containers.SList.Program.Holds.{Holds}
use cpp_core_systems.Containers.SList.Program.Calls.{call_lem}

module _ {ℓ} {A : Type ℓ} where
  -- The store after a call that throws: the calls before it are done, and nothing of it is left.
  abbrev pub Undone : List (Op A) → List A → Heap A → Type ℓ
  Undone ops vs g =
      (done : ℕ) × (l' : SList) × (done ≤ length ops) × Holds g l' (apply_all (take done ops) vs)

  -- For an allocator that returns unused non-null addresses, a list that holds the values `vs` with
  -- no other live node, and a sequence of calls that keep to the preconditions and cannot make the
  -- list longer than 2^64 - 1: the calls end without a fault, and the list holds exactly the values
  -- that the same calls on a plain sequence give, with no other live node; or an allocation throws,
  -- and the list holds the values after the calls that were done before.
  pub run_lem :
      (new : New A)
      → IsFresh new
      → (ops : List (Op A)) (h : Heap A) (l : SList) (vs : List A) → Holds h l vs
      → AllAllowed ops vs
      → length vs + length ops < size_mod
      → Ends (λ l' g. Holds g l' (apply_all ops vs)) (Undone ops vs) (run new ops l h)
  unfolding run
  run_lem new fresh [] h l vs holds allowed fits = returns holds
  run_lem new fresh (op ∷ ops) h l vs holds (now, later) fits =
      then_run (call_lem new fresh h l vs holds (omega arith) op now)
        (λ l' g held.
          weaken
            (run_lem new fresh ops g l' (apply op vs) held later
              (omega (arith, length-apply op vs)))
            (λ l'' g' h'. h') (λ g' (done, l'', most, h'). (suc done, l'', omega arith, h')))
        (λ g same. (0, l, omega arith, subst (λ k. Holds k l vs) (sym same) holds))
