-- ===== src/Containers/SList/Shape.antt =====
-- What a list object stands for.
use cpp_core_systems.Prelude.{◌<◌, ◌≡◌, none, [], ◌∷◌, length}
use cpp_core_systems.Containers.Heap.{Ptr, null, Heap}
use cpp_core_systems.Containers.Heap.Linked.{Cells, first, last, SameOutside, Linked}
use cpp_core_systems.Containers.SList.{SList, NodeBasePtr, before, at, size_mod}

-- `l` owns the cells `xs`, in order, all its four fields agree with them, and their number can be
-- counted in a std::size_t.
pub record IsList {ℓ} {A : Type ℓ} (h : Heap A) (l : SList) (xs : Cells A) : Type ℓ where
  pub chain : Linked h null xs
  pub head : l.head ≡ first xs null
  pub tail : l.tail ≡ last null xs
  pub size : l.size ≡ length xs
  pub before : l.before_head ≡ first xs null
  pub fits : length xs < size_mod

module _ {ℓ} {A : Type ℓ} where
  -- The position behind the cells `ys`.
  abbrev pub after : Cells A → NodeBasePtr
  after [] = before
  after ((q, w) ∷ ys) = at (last q ys)

  -- What an insertion at `p` promises: the list now stands for `ys`, `p` was free, and no other
  -- node than those of `xs` is written.
  abbrev pub Inserted : Heap A → A → Cells A → Cells A → Ptr → SList → Heap A → Type ℓ
  Inserted h v xs ys p l' g = IsList g l' ys × (h p ≡ none) × SameOutside ((p, v) ∷ xs) h g

  -- What a removal of the node at `p` promises: the list now stands for `ys`, `p` is free, and no
  -- other node than those of `xs` is written.
  abbrev pub Removed : Heap A → Cells A → Cells A → Ptr → SList → Heap A → Type ℓ
  Removed h xs ys p l' g = IsList g l' ys × (g p ≡ none) × SameOutside xs h g
