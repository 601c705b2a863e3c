-- ===== src/Containers/SList/Program.antt =====
-- Calls of the member functions of include/containers/slist.hpp one after the other, and the same
-- calls on a plain sequence of values, which is what a client has in mind.
pub mod Sequences
pub mod Holds
pub mod Calls
pub mod Refines
use cpp_core_systems.Prelude.{ℕ, zero, suc, ◌<◌, ◌≤◌, List, [], ◌∷◌, ◌++◌, length, take, drop}
use cpp_core_systems.Containers.Heap.{Cmd, pure, ◌>>=◌, ◌>>◌, New}
use cpp_core_systems.Containers.SList.{
  SList, Iterator, before_begin, advance, emplace_front, emplace_back, emplace_after,
}
use cpp_core_systems.Containers.SList.{
  pop_front as pop_first, pop_back as pop_last, erase_after as erase_next, clear as clear_all,
}

-- A call. A position is given by the number of elements before it.
pub data Op {ℓ} (A : Type ℓ) : Type ℓ where
  push_front : A → Op A
  push_back : A → Op A
  insert_after : ℕ → A → Op A
  pop_front : Op A
  pop_back : Op A
  erase_after : ℕ → Op A
  clear : Op A

module _ {ℓ} {A : Type ℓ} where
  -- auto it = list.before_begin(); and `i` times ++it.
  unfoldable pub seek : ℕ → SList → Iterator → Cmd A Iterator
  unfolding advance
  seek zero l it = pure it
  seek (suc i) l it = do it ← advance l it; seek i l it

  module _ (new : New A) where
    unfoldable pub call : Op A → SList → Cmd A SList
    unfolding seek
    call (Op.push_front v) l = emplace_front new l v
    call (Op.push_back v) l = emplace_back new l v
    call (Op.insert_after i v) l = do
      it ← seek i l (before_begin l)
      (_, l) ← emplace_after new l it v
      pure l
    call Op.pop_front l = pop_first l
    call Op.pop_back l = pop_last l
    call (Op.erase_after i) l = do it ← seek i l (before_begin l); (_, l) ← erase_next l it; pure l
    call Op.clear l = clear_all l

    unfoldable pub run : List (Op A) → SList → Cmd A SList
    unfolding call
    run [] l = pure l
    run (op ∷ ops) l = do l ← call op l; run ops l

  -- All but the last value.
  abbrev pub init : List A → List A
  init [] = []
  init (v ∷ []) = []
  init (v ∷ w ∷ vs) = v ∷ init (w ∷ vs)

  abbrev pub apply : Op A → List A → List A
  apply (Op.push_front v) vs = v ∷ vs
  apply (Op.push_back v) vs = vs ++ (v ∷ [])
  apply (Op.insert_after i v) vs = take i vs ++ (v ∷ drop i vs)
  apply Op.pop_front vs = drop 1 vs
  apply Op.pop_back vs = init vs
  apply (Op.erase_after i) vs = take i vs ++ drop (suc i) vs
  apply Op.clear vs = []

  abbrev pub apply_all : List (Op A) → List A → List A
  apply_all [] vs = vs
  apply_all (op ∷ ops) vs = apply_all ops (apply op vs)

  -- The preconditions: a position of the list, and for a removal one with an element behind it.
  abbrev pub Allowed : Op A → List A → Type 0
  Allowed (Op.insert_after i v) vs = i ≤ length vs
  Allowed (Op.erase_after i) vs = i < length vs
  Allowed _ vs = Unit {0}

  abbrev pub AllAllowed : List (Op A) → List A → Type 0
  AllAllowed [] vs = Unit {0}
  AllAllowed (op ∷ ops) vs = Allowed op vs × AllAllowed ops (apply op vs)
