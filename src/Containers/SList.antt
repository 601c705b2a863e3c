-- ===== src/Containers/SList.antt =====
-- include/containers/slist.hpp: the list object and its operations, each a command on the free
-- store. A list object lives outside the store, so an operation that changes it returns the new
-- one. Loops run on fuel, `m_size` + 1 rounds.
pub mod Shape
pub mod Front
pub mod Between
pub mod Back
pub mod Erase
pub mod PopBack
pub mod Program
pub mod Clear
pub mod EraseRange
pub mod Observe
pub mod Compare
pub mod Objects
pub mod Tests
use cpp_core_systems.Prelude.{
  ℕ, zero, suc, ◌+◌, ◌-◌, ◌*◌, ◌/◌, ◌%◌, ◌^◌, ◌≡◌, Bool, true, false, not, ◌&&◌, ◌||◌, Option, none,
  some, List, [], ◌∷◌, ◌++◌, ◌==◌, if◌then◌else◌, length,
}
use cpp_core_systems.Containers.Heap.{
  Ptr, null, Node, node, Heap, Run, ok, thrown, fault, out_of_fuel, Cmd, pure, and_then, ◌>>=◌,
  ◌>>◌, rethrow_after, New, new_node, load, set_next, delete_node,
}
use cpp_core_systems.Containers.Heap.Linked.{Cells, values, first, last, has, Linked}

-- The values of a std::size_t.
abbrev pub size_mod : ℕ
size_mod = 2 ^ 64

pub record SList : Type 0 where
  pub before_head : Ptr
  pub head : Ptr
  pub tail : Ptr
  pub size : ℕ

-- SList().
abbrev pub empty_list : SList
empty_list = record { before_head = null; head = null; tail = null; size = 0 }

-- `NodeBase*`: the list's own m_before_head, or a node.
pub data NodeBasePtr : Type 0 where
  before : NodeBasePtr
  at : Ptr → NodeBasePtr

-- SListIterator, whose only field is m_current.
abbrev pub Iterator : Type 0
Iterator = NodeBasePtr

abbrev pub begin : SList → Iterator
begin l = at l.head

abbrev pub end : SList → Iterator
end l = at null

abbrev pub before_begin : SList → Iterator
before_begin l = before

-- `a == b` of a node and a node base.
abbrev pub same_node : Ptr → NodeBasePtr → Bool
same_node p before = false
same_node p (at q) = p == q

abbrev pub is_before : NodeBasePtr → Bool
is_before before = true
is_before (at q) = false

-- (current == &m_before_head) ? nullptr : static_cast<Node*>(current)
abbrev pub node_or_null : NodeBasePtr → Ptr
node_or_null before = null
node_or_null (at q) = q

abbrev pub same_base : NodeBasePtr → NodeBasePtr → Bool
same_base before i = is_before i
same_base (at p) i = same_node p i

abbrev pub sync_before_head : SList → SList
sync_before_head l = record l { before_head = l.head }

-- m_size++ and m_size--, modulo 2^64.
abbrev pub incr : ℕ → ℕ
incr n = (n + 1) % size_mod

abbrev pub decr : ℕ → ℕ
decr n = (n + size_mod - 1) % size_mod

unfoldable pub size : SList → ℕ
size l = l.size

unfoldable pub empty : SList → Bool
empty l = l.size == 0

-- `node_size` is sizeof(Node).
unfoldable pub max_size : ℕ → ℕ
max_size node_size = (size_mod - 1) / node_size

module _ {ℓ} {A : Type ℓ} where
  -- operator* and operator++ of an iterator.
  unfoldable pub deref : Iterator → Cmd A A
  deref before = λ _. fault
  deref (at p) = do n ← load p; pure n.value

  -- current->m_next.
  unfoldable pub next_of : SList → NodeBasePtr → Cmd A Ptr
  next_of l before = pure l.before_head
  next_of l (at p) = do n ← load p; pure n.next

  -- current->m_next = q.
  unfoldable pub set_next_of : SList → NodeBasePtr → Ptr → Cmd A SList
  set_next_of l before q = pure (record l { before_head = q })
  set_next_of l (at p) q = do set_next p q; pure l

  unfoldable pub advance : SList → Iterator → Cmd A Iterator
  unfolding next_of
  advance l i = do q ← next_of l i; pure (at q)

  unfoldable pub front : SList → Cmd A A
  front l = do n ← load l.head; pure n.value

  unfoldable pub back : SList → Cmd A A
  back l = do n ← load l.tail; pure n.value

  module _ (new : New A) where
    unfoldable pub emplace_back : SList → A → Cmd A SList
    emplace_back l v = do
      p ← new_node new v
      if l.head == null
          then pure
              (record (sync_before_head (record l { head = p; tail = p })) { size = incr l.size })
          else do set_next l.tail p; pure (record l { tail = p; size = incr l.size })

    unfoldable pub emplace_front : SList → A → Cmd A SList
    emplace_front l v = do
      p ← new_node new v
      l' ←
          if l.head == null
          then pure (record l { head = p; tail = p })
          else do set_next p l.head; pure (record l { head = p })
      pure (record (sync_before_head l') { size = incr l'.size })

    unfoldable pub emplace_after : SList → Iterator → A → Cmd A (Iterator × SList)
    unfolding next_of set_next_of
    emplace_after l current v = do
      p ← new_node new v
      q ← next_of l current
      set_next p q
      l ← set_next_of l current p
      let head = if is_before current then p else l.head
      let tail = if same_node l.tail current || l.tail == null then p else l.tail
      pure (at p, sync_before_head (record l { head = head; tail = tail; size = incr l.size }))

  -- while (curr->next()) { curr = curr->next(); prev = prev->next(); }
  unfoldable pub pop_back_loop : ℕ → (prev curr : Ptr) → Cmd A (Ptr × Ptr)
  pop_back_loop zero prev curr = λ _. out_of_fuel
  pop_back_loop (suc k) prev curr = do
    c ← load curr
    if c.next == null then pure (prev, curr) else do p ← load prev; pop_back_loop k p.next c.next

  unfoldable pub pop_back : SList → Cmd A SList
  unfolding pop_back_loop
  pop_back l = if l.head == null then pure l else do
    n ← load l.head
    if n.next == null
        then (do
          delete_node l.head
          pure (sync_before_head (record l { size = decr l.size; head = null; tail = null })))
        else do
          (prev, curr) ← pop_back_loop (l.size + 1) l.head n.next
          delete_node curr
          set_next prev null
          pure (sync_before_head (record l { tail = prev; size = decr l.size }))

  unfoldable pub pop_front : SList → Cmd A SList
  pop_front l = if l.head == null then pure l else do
    n ← load l.head
    delete_node l.head
    pure (
        sync_before_head (record l {
          head = n.next;
          size = decr l.size;
          tail = if n.next == null then null else l.tail;
        }))

  unfoldable pub erase_after : SList → Iterator → Cmd A (Iterator × SList)
  unfolding next_of set_next_of
  erase_after l current = do
    p ← next_of l current
    n ← load p
    l ← set_next_of l current n.next
    let head = if p == l.head then n.next else l.head
    let tail = if p == l.tail then node_or_null current else l.tail
    delete_node p
    pure (at n.next, sync_before_head (record l { head = head; tail = tail; size = decr l.size }))

  -- The overload for the open range between `from` and `to`.
  unfoldable pub erase_loop : ℕ → SList → (from to : Iterator) → Cmd A SList
  unfolding erase_after
  erase_loop zero l from to = λ _. out_of_fuel
  erase_loop (suc k) l from to = do
    q ← next_of l from
    if same_node q to then pure l else do (_, l) ← erase_after l from; erase_loop k l from to

  unfoldable pub erase_range : SList → (from to : Iterator) → Cmd A (Iterator × SList)
  unfolding erase_loop
  erase_range l from to = do l ← erase_loop (l.size + 1) l from to; pure (to, l)

  unfoldable pub clear_loop : ℕ → Ptr → Cmd A (Unit {0})
  clear_loop zero p = λ _. out_of_fuel
  clear_loop (suc k) p =
      if p == null then pure tt else do n ← load p; delete_node p; clear_loop k n.next

  unfoldable pub clear : SList → Cmd A SList
  unfolding clear_loop
  clear l = clear_loop (l.size + 1) l.head >> pure empty_list

  module _ (eq : A → A → Bool) where
    unfoldable pub contains_loop : ℕ → Ptr → A → Cmd A Bool
    contains_loop zero p v = λ _. out_of_fuel
    contains_loop (suc k) p v =
        if p == null
        then pure false
        else do n ← load p; if eq n.value v then pure true else contains_loop k n.next v

    unfoldable pub contains : SList → A → Cmd A Bool
    unfolding contains_loop
    contains l v = contains_loop (l.size + 1) l.head v
