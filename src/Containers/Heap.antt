-- ===== src/Containers/Heap.antt =====
-- The free store that SList's nodes live in, and commands that allocate, read, write and delete
-- nodes. `new` is the allocator, an argument: `none` stands for an allocation or a constructor of
-- the value that throws. An access through a null or a dangling pointer is a `fault`.
pub mod Access
pub mod Ends
pub mod Linked
use cpp_core_systems.Prelude.{ℕ, Bool, Option, none, some, ◌≡◌, ◌≢◌, ◌==◌, if◌then◌else◌}

abbrev pub Ptr : Type 0
Ptr = ℕ

abbrev pub null : Ptr
null = 0

-- SList<T>::Node with its NodeBase.
pub record Node {ℓ} (A : Type ℓ) : Type ℓ where
  pub value : A
  pub next : Ptr

abbrev pub node {ℓ} : {A : Type ℓ} → A → Ptr → Node A
node v q = record { value = v; next = q }

abbrev pub Heap {ℓ} : Type ℓ → Type ℓ
Heap A = Ptr → Option (Node A)

unfoldable pub write {ℓ} : {A : Type ℓ} → Heap A → Ptr → Option (Node A) → Heap A
write h p c a = if a == p then c else h a

-- How a command ends: `thrown` is an exception, with the store it leaves behind.
pub data Run {ℓ κ} (A : Type ℓ) (B : Type κ) : Type (ℓ ⊔ κ) where
  ok : B → Heap A → Run A B
  thrown : Heap A → Run A B
  fault : Run A B
  out_of_fuel : Run A B

abbrev pub Cmd {ℓ κ} : Type ℓ → Type κ → Type (ℓ ⊔ κ)
Cmd A B = Heap A → Run A B

abbrev pub pure {ℓ κ} : {A : Type ℓ} {B : Type κ} → B → Cmd A B
pure = ok

abbrev pub and_then {ℓ κ μ} :
    {A : Type ℓ} {B : Type κ} {C : Type μ} → Run A B → (B → Cmd A C) → Run A C
and_then (ok b h) k = k b h
and_then (thrown h) k = thrown h
and_then fault k = fault
and_then out_of_fuel k = out_of_fuel

infixl 5 ◌>>=◌ ◌>>◌
abbrev pub ◌>>=◌ {ℓ κ μ} :
    {A : Type ℓ} {B : Type κ} {C : Type μ} → Cmd A B → (B → Cmd A C) → Cmd A C
m >>= k = λ h. and_then (m h) k

abbrev pub ◌>>◌ {ℓ κ μ} : {A : Type ℓ} {B : Type κ} {C : Type μ} → Cmd A B → Cmd A C → Cmd A C
m >> n = m >>= λ _. n

-- Stack unwinding: if `m` throws, `cleanup` runs and the exception goes on.
abbrev pub rethrow_after {ℓ κ μ} :
    {A : Type ℓ} {B : Type κ} {C : Type μ} → Run A B → Cmd A C → Run A B
rethrow_after (ok b h) cleanup = ok b h
rethrow_after (thrown h) cleanup = and_then (cleanup h) (λ _. thrown)
rethrow_after fault cleanup = fault
rethrow_after out_of_fuel cleanup = out_of_fuel

-- `new Node(v)`: the address that it would return.
abbrev pub New {ℓ} : Type ℓ → Type ℓ
New A = Heap A → A → Option Ptr

-- A new node's address is not null, and no live node has it.
pub record IsFresh {ℓ} {A : Type ℓ} (new : New A) : Type ℓ where
  pub ne_null : (h : Heap A) (v : A) (p : Ptr) → new h v ≡ some p → p ≢ null
  pub unused : (h : Heap A) (v : A) (p : Ptr) → new h v ≡ some p → h p ≡ none

module _ {ℓ} {A : Type ℓ} where
  unfoldable pub new_node : New A → A → Cmd A Ptr
  new_node new v h = elim (new h v) [
    | none ↦ thrown h
    | some p ↦ ok p (write h p (some (node v null)))
  ]

  unfoldable pub load : Ptr → Cmd A (Node A)
  load p h = if p == null then fault else elim (h p) [ none ↦ fault | some n ↦ ok n h ]

  unfoldable pub set_next : Ptr → Ptr → Cmd A (Unit {0})
  set_next p q h = and_then (load p h) (λ n g. ok tt (write g p (some (record n { next = q }))))

  unfoldable pub delete_node : Ptr → Cmd A (Unit {0})
  delete_node p h = and_then (load p h) (λ _ g. ok tt (write g p none))
