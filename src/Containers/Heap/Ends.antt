-- ===== src/Containers/Heap/Ends.antt =====
-- Total correctness of a command: it does not fault, its fuel suffices, and it ends in one of two
-- ways, each with a postcondition.
use cpp_core_systems.Containers.Heap.{Heap, Run, ok, thrown, Cmd, and_then, rethrow_after}

pub data Ends {ℓ κ μ ν} {A : Type ℓ} {B : Type κ} (P : B → Heap A → Type μ) (E : Heap A → Type ν)
    : Run A B → Type (ℓ ⊔ κ ⊔ μ ⊔ ν) where
  returns : {b : B} {h : Heap A} → P b h → Ends P E (ok b h)
  throws : {h : Heap A} → E h → Ends P E (thrown h)

-- The exceptional postcondition of a command that never throws.
abbrev pub Never {ℓ} : {A : Type ℓ} → Heap A → Type 0
Never h = ⊥

module _ {ℓ κ μ ν} {A : Type ℓ} {B : Type κ} {P : B → Heap A → Type μ} {E : Heap A → Type ν} where
  pub then_run {ξ ρ σ} :
      {C : Type ξ} {Q : C → Heap A → Type ρ} {F : Heap A → Type σ} {r : Run A B} {k : B → Cmd A C}
      → Ends P E r
      → ((b : B) (h : Heap A) → P b h → Ends Q F (k b h))
      → ((h : Heap A) → E h → F h)
      → Ends Q F (and_then r k)
  then_run (returns p) next fail = next _ _ p
  then_run (throws e) next fail = throws (fail _ e)

  pub weaken {ξ ρ} :
      {Q : B → Heap A → Type ξ} {F : Heap A → Type ρ} {r : Run A B}
      → Ends P E r
      → ((b : B) (h : Heap A) → P b h → Q b h)
      → ((h : Heap A) → E h → F h)
      → Ends Q F r
  weaken (returns p) f g = returns (f _ _ p)
  weaken (throws e) f g = throws (g _ e)

  pub then_throw {ξ ρ} :
      {C : Type ξ} {G : C → Heap A → Type ρ} {r : Run A C}
      → Ends G Never r
      → ((c : C) (h : Heap A) → G c h → E h)
      → Ends P E (and_then r (λ _. thrown))
  then_throw (returns q) after = throws (after _ _ q)
  then_throw (throws e) after = absurd e

  -- A handler that itself never throws.
  pub unwind {ξ ρ σ} :
      {C : Type ξ} {G : C → Heap A → Type ρ} {F : Heap A → Type σ} {r : Run A B} {m : Cmd A C}
      → Ends P F r
      → ((h : Heap A) → F h → Ends G Never (m h))
      → ((c : C) (h : Heap A) → G c h → E h)
      → Ends P E (rethrow_after r m)
  unwind (returns p) clean after = returns p
  unwind (throws e) clean after = then_throw (clean _ e) after
