-- ===== src/Containers/SList/Objects.antt =====
-- Construction, copy, move, swap and assignment of whole list objects. The named list objects of a
-- program are a function from names, so that an assignment of a list to itself is a case of the
-- same operations.
pub mod Filling
pub mod Copy
pub mod Assign
use cpp_core_systems.Prelude.{ℕ, zero, suc, List, [], ◌∷◌, ◌==◌, if◌then◌else◌}
use cpp_core_systems.Containers.Heap.{
  Ptr, null, Heap, out_of_fuel, Cmd, pure, and_then, ◌>>=◌, ◌>>◌, rethrow_after, New, new_node,
  load,
}
use cpp_core_systems.Containers.SList.{SList, empty_list, sync_before_head, emplace_back, clear}

-- std::swap of m_head, m_tail and m_size, and both m_before_head brought up to date.
unfoldable pub swap : SList → SList → SList × SList
swap a b = (
  sync_before_head (record a { head = b.head; tail = b.tail; size = b.size }),
  sync_before_head (record b { head = a.head; tail = a.tail; size = a.size }),
)

-- SList(SList&& other): the new list, and what is left in `other`.
unfoldable pub move_from : SList → SList × SList
move_from other = (
  sync_before_head
      (record { before_head = null; head = other.head; tail = other.tail; size = other.size }),
  sync_before_head (record other { head = null; tail = null; size = 0 }),
)

abbrev pub Objects : Type 0
Objects = ℕ → SList

abbrev pub put : Objects → ℕ → SList → Objects
put o i l j = if j == i then l else o j

module _ {ℓ} {A : Type ℓ} where
  -- ~SList().
  unfoldable pub destroy : SList → Cmd A SList
  unfolding clear
  destroy l = clear l

  module _ (new : New A) where
    -- SList(value_type val).
    unfoldable pub from_value : A → Cmd A SList
    from_value v = do
      p ← new_node new v
      pure (sync_before_head (record { before_head = null; head = p; tail = p; size = 1 }))

    -- temp.push_back(value); if it throws, `temp` is destroyed on the way out.
    unfoldable pub push_or_unwind : SList → A → Cmd A SList
    unfolding emplace_back destroy
    push_or_unwind temp v h = rethrow_after (emplace_back new temp v h) (destroy temp)

    -- for (const auto& value : values) temp.push_back(value);
    unfoldable pub fill : List A → SList → Cmd A SList
    unfolding push_or_unwind
    fill [] temp = pure temp
    fill (v ∷ vs) temp = do temp ← push_or_unwind temp v; fill vs temp

    -- swap(temp), and the end of the scope of `temp`.
    unfoldable pub adopt : SList → Cmd A SList
    unfolding swap destroy
    adopt temp = let (this, temp) = swap empty_list temp in destroy temp >> pure this

    -- SList(std::initializer_list<value_type> values).
    unfoldable pub from_values : List A → Cmd A SList
    unfolding fill adopt
    from_values vs = do temp ← fill vs empty_list; adopt temp

    -- for (const auto& value : other) temp.push_back(value);
    unfoldable pub copy_loop : ℕ → Ptr → SList → Cmd A SList
    unfolding push_or_unwind
    copy_loop zero p temp = λ _. out_of_fuel
    copy_loop (suc k) p temp =
        if p == null
        then pure temp
        else do n ← load p; temp ← push_or_unwind temp n.value; n ← load p; copy_loop k n.next temp

    -- SList(const SList& other).
    unfoldable pub copy : SList → Cmd A SList
    unfolding copy_loop adopt
    copy other = do temp ← copy_loop (suc other.size) other.head empty_list; adopt temp

    -- operator=(const SList& other).
    unfoldable pub copy_assign : (this other : ℕ) → Objects → Cmd A Objects
    unfolding copy swap destroy
    copy_assign this other o = do
      temp ← copy (o other)
      let (temp, l) = swap temp (o this)
      destroy temp
      pure (put o this l)

  -- operator=(SList&& other).
  unfoldable pub move_assign : (this other : ℕ) → Objects → Cmd A Objects
  unfolding move_from swap destroy
  move_assign this other o =
      let (temp, left) = move_from (o other) in
      let o₁ = put o other left in
      let (temp, l) = swap temp (o₁ this) in destroy temp >> pure (put o₁ this l)
