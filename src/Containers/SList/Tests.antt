-- ===== src/Containers/SList/Tests.antt =====
-- Runs of SList on a small free store, and each property at a list of two numbers.
use cpp_core_systems.Prelude.{
  ℕ, zero, suc, ◌≤◌, ◌≡◌, refl, ◌≢◌, Bool, false, Option, none, some, List, [], ◌∷◌, arith, ◌==◌,
  if◌then◌else◌, Option-cases, inl, inr,
}
use cpp_core_systems.Containers.Heap.{
  Ptr, null, node, Heap, write, Run, ok, thrown, fault, out_of_fuel, New, IsFresh, and_then,
  new_node, set_next, load, delete_node,
}
use cpp_core_systems.Containers.Heap.Ends.{Ends, Never}
use cpp_core_systems.Containers.Heap.Linked.{Cells, values, Disjoint}
use cpp_core_systems.Containers.SList
use cpp_core_systems.Containers.SList.Shape.{IsList, Inserted, Removed}
use cpp_core_systems.Containers.SList.Between.{emplace_after_lem}
use cpp_core_systems.Containers.SList.Erase.{erase_after_lem}
use cpp_core_systems.Containers.SList.PopBack.{pop_back_lem}
use cpp_core_systems.Containers.SList.Clear.{Without, clear_lem}
use cpp_core_systems.Containers.SList.EraseRange.{Cut, erase_range_lem}
use cpp_core_systems.Containers.SList.Compare
use cpp_core_systems.Containers.SList.Compare.{all_equal, joined, equal_lem, print_lem}
use cpp_core_systems.Containers.SList.Objects
use cpp_core_systems.Containers.SList.Objects.{Objects}
use cpp_core_systems.Containers.SList.Objects.Filling.{Built, Untouched, from_values_lem}
use cpp_core_systems.Containers.SList.Objects.Copy.{copy_lem}
use cpp_core_systems.Containers.SList.Objects.Assign.{Assigned, copy_assign_lem, move_assign_lem}
use cpp_core_systems.Containers.SList.Program.{Op, run}
use cpp_core_systems.Containers.SList.Program.Holds.{Holds}
use cpp_core_systems.Containers.SList.Program.Refines.{Undone, run_lem}

-- An allocator of eight nodes: the first free address from 1 on.
first_free : ℕ → Ptr → Heap ℕ → Option Ptr
first_free zero p h = none
first_free (suc k) p h = elim (h p) [ none ↦ some p | some n ↦ first_free k (suc p) h ]

abbrev eight : New ℕ
eight h v = first_free 8 1 h

first_free_lem :
    (k : ℕ) (p : Ptr) (h : Heap ℕ) (q : Ptr) → first_free k p h ≡ some q → (h q ≡ none) × (p ≤ q)
unfolding first_free
first_free_lem zero p h q e = cc
first_free_lem (suc k) p h q e = elim (Option-cases (h p)) [
  | inl free ↦ ground arith
  | inr (n, live) ↦
      let (unused, above) = first_free_lem k (suc p) h q (ground arith) in (unused, omega arith)
]

eight-IsFresh : IsFresh eight
eight-IsFresh = record {
  ne_null = λ h v p e. let above = (first_free_lem 8 1 h p e).1 in omega arith;
  unused = λ h v p e. (first_free_lem 8 1 h p e).0;
}

-- Nodes 1 and 2 hold the list 10, 20, and node 3 the list 30.
abbrev store : Heap ℕ
store p =
    if p == 1
    then some (node 10 2)
    else if p == 2
    then some (node 20 null)
    else if p == 3
    then some (node 30 null)
    else none

abbrev cells : Cells ℕ
cells = (1, 10) ∷ (2, 20) ∷ []

abbrev tens : SList.SList
tens = record { before_head = 1; head = 1; tail = 2; size = 2 }

abbrev cells₃ : Cells ℕ
cells₃ = (3, 30) ∷ []

abbrev thirty : SList.SList
thirty = record { before_head = 3; head = 3; tail = 3; size = 1 }

abbrev objects : Objects
objects i = if i == 0 then tens else thirty

abbrev eq : ℕ → ℕ → Bool
eq a b = a == b

tens-IsList : IsList store tens cells
tens-IsList = record {
  chain = (omega arith, refl, refl, (omega arith, refl, refl, tt));
  head = refl;
  tail = refl;
  size = refl;
  before = refl;
  fits = omega arith;
}

thirty-IsList : IsList store thirty cells₃
thirty-IsList = record {
  chain = (omega arith, refl, refl, tt);
  head = refl;
  tail = refl;
  size = refl;
  before = refl;
  fits = omega arith;
}

cells₃-cells : Disjoint cells₃ cells
cells₃-cells a i = ground arith

-- What a walk along the list prints, if no step faults.
printed : Run ℕ SList.SList → Option (List ℕ)
printed (ok l h) = elim (Compare.print (λ v. v ∷ []) l [] h) [
  | ok text g ↦ some text
  | thrown g ↦ none
  | fault ↦ none
  | out_of_fuel ↦ none
]
printed (thrown h) = none
printed fault = none
printed out_of_fuel = none

-- Nine allocations: the ninth throws, and the temporary is gone with it.
ninth_throws :
    printed (Objects.from_values eight (1 ∷ 2 ∷ 3 ∷ 4 ∷ 5 ∷ 6 ∷ 7 ∷ 8 ∷ 9 ∷ []) (λ _. none)) ≡ none
unfolding printed Objects.from_values Objects.fill Objects.push_or_unwind SList.emplace_back
    first_free write Objects.destroy SList.clear SList.clear_loop new_node set_next load delete_node
ninth_throws = refl

pushed_both_ways :
    printed (and_then (SList.emplace_front eight tens 5 store) (λ l. SList.emplace_back eight l 25))
    ≡ some (5 ∷ b',' ∷ b' ' ∷ 10 ∷ b',' ∷ b' ' ∷ 20 ∷ b',' ∷ b' ' ∷ 25 ∷ [])
unfolding printed SList.emplace_front SList.emplace_back first_free write new_node set_next load
    Compare.print Compare.print_loop
pushed_both_ways = refl

emplace_after_example :
    Ends
      (λ (i, l') g.
        (p : Ptr) × (i ≡ SList.at p)
        × Inserted store 5 cells ((1, 10) ∷ (p, 5) ∷ (2, 20) ∷ []) p l' g)
      (λ g. g ≡ store)
      (SList.emplace_after eight tens (SList.at 1) 5 store)
emplace_after_example =
    emplace_after_lem eight eight-IsFresh store 5 tens ((1, 10) ∷ []) ((2, 20) ∷ []) tens-IsList
      (omega arith)

pop_back_example : Ends (Removed store cells ((1, 10) ∷ []) 2) Never (SList.pop_back tens store)
pop_back_example = pop_back_lem store tens ((1, 10) ∷ []) 2 20 tens-IsList

erase_after_example :
    Ends
      (λ (i, l') g. (i ≡ SList.at null) × Removed store cells ((1, 10) ∷ []) 2 l' g)
      Never
      (SList.erase_after tens (SList.at 1) store)
erase_after_example = erase_after_lem store tens ((1, 10) ∷ []) [] 2 20 tens-IsList

erase_range_example :
    Ends
      (λ (i, l') g. (i ≡ SList.at null) × Cut store [] cells [] l' g)
      Never
      (SList.erase_range tens SList.before (SList.at null) store)
erase_range_example = erase_range_lem store tens [] cells [] tens-IsList

clear_example :
    Ends
      (λ l' g. (l' ≡ SList.empty_list) × IsList g l' [] × Without cells store g)
      Never
      (SList.clear tens store)
clear_example = clear_lem store tens cells tens-IsList

equal_example : Compare.equal eq tens thirty store ≡ ok false store
equal_example = equal_lem eq store tens thirty cells cells₃ tens-IsList thirty-IsList

from_values_example :
    Ends
      (λ l g. (zs : Cells ℕ) × (values zs ≡ 7 ∷ 8 ∷ []) × Built store zs l g)
      (Untouched store)
      (Objects.from_values eight (7 ∷ 8 ∷ []) store)
from_values_example = from_values_lem store eight eight-IsFresh (7 ∷ 8 ∷ []) (omega arith)

copy_example :
    Ends
      (λ l g. (zs : Cells ℕ) × (values zs ≡ 10 ∷ 20 ∷ []) × Built store zs l g)
      (Untouched store)
      (Objects.copy eight tens store)
copy_example = copy_lem store eight eight-IsFresh tens cells tens-IsList

copy_assign_example :
    Ends
      (λ o' g. (zs : Cells ℕ) × Assigned 0 objects store cells cells₃ zs o' g)
      (Untouched store)
      (Objects.copy_assign eight 0 1 objects store)
copy_assign_example =
    copy_assign_lem eight eight-IsFresh store objects 0 1 cells cells₃ tens-IsList thirty-IsList

move_assign_example :
    Ends
      (λ o' g.
        IsList g (o' 0) cells₃
        × IsList g (o' 1) []
        × Without cells store g
        × ((j : ℕ) → j ≢ 0 → j ≢ 1 → o' j ≡ objects j))
      Never
      (Objects.move_assign 0 1 objects store)
move_assign_example =
    move_assign_lem store objects 0 1 cells tens-IsList cells₃ thirty-IsList cells₃-cells
      (omega arith)

abbrev nothing : Heap ℕ
nothing p = none

empty-Holds : Holds nothing SList.empty_list []
empty-Holds = record {
  cells = [];
  is_list = record {
    chain = tt;
    head = refl;
    tail = refl;
    size = refl;
    before = refl;
    fits = omega arith;
  };
  values_are = refl;
  nothing_else = λ a o. refl;
}

abbrev calls : List (Op ℕ)
calls =
    Op.push_back 1
    ∷ Op.push_front 2
    ∷ Op.insert_after 1 3
    ∷ Op.pop_back
    ∷ Op.erase_after 0
    ∷ Op.push_back 4
    ∷ []

run_example :
    Ends
      (λ l' g. Holds g l' (3 ∷ 4 ∷ []))
      (Undone calls [])
      (run eight calls SList.empty_list nothing)
run_example =
    run_lem eight eight-IsFresh calls nothing SList.empty_list [] empty-Holds
      (tt, (tt, (omega arith, (tt, (omega arith, (tt, tt)))))) (omega arith)
