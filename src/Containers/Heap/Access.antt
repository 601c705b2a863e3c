-- ===== src/Containers/Heap/Access.antt =====
-- The primitive commands at a live node, and `new`.
use cpp_core_systems.Prelude.{
  ◌≡◌, refl, ◌≢◌, true, Option, none, some, arith, ◌==◌, false, Option-cases, inl, inr, fun_ext,
}
use cpp_core_systems.Containers.Heap.{
  Ptr, null, Node, node, Heap, write, ok, New, IsFresh, new_node, load, set_next, delete_node,
}
use cpp_core_systems.Containers.Heap.Ends.{Ends, returns, throws}

module _ {ℓ} {A : Type ℓ} (h : Heap A) (p q : Ptr) (v : A) (ne : p ≢ null)
    (at : h p ≡ some (node v q)) where
  pub load-ok : load p h ≡ ok (node v q) h
  unfolding load
  load-ok = ground arith

  pub set_next-ok : (r : Ptr) → set_next p r h ≡ ok tt (write h p (some (node v r)))
  unfolding set_next
  set_next-ok r = rw load-ok

  pub delete_node-ok : delete_node p h ≡ ok tt (write h p none)
  unfolding delete_node
  delete_node-ok = rw load-ok

module _ {ℓ} {A : Type ℓ} (new : New A) (fresh : IsFresh new) (h : Heap A) (v : A) where
  -- A fresh address and a new node there, or an exception and an unchanged store.
  pub new_node-Ends :
      Ends
        (λ p g. (p ≢ null) × (h p ≡ none) × (g ≡ write h p (some (node v null))))
        (λ g. g ≡ h)
        (new_node new v h)
  unfolding new_node
  new_node-Ends = elim (Option-cases (new h v)) [
    | inl none_left ↦ rw (none_left, new_node) (throws refl)
    | inr (p, e) ↦ rw (e, new_node) (returns (fresh.ne_null h v p e, fresh.unused h v p e, refl))
  ]

pub not_null : (p : Ptr) → p ≢ null → (p == null) ≡ false
not_null p ne = ground arith

pub write-write {ℓ} :
    {A : Type ℓ} (h : Heap A) (p : Ptr) (c d : Option (Node A))
    → write (write h p c) p d ≡ write h p d
unfolding write
write-write h p c d = fun_ext λ a. ground arith

pub write_at {ℓ} : {A : Type ℓ} (h : Heap A) (p : Ptr) (c : Option (Node A)) → write h p c p ≡ c
unfolding write
write_at h p c = ground arith

pub eq_self : (p : Ptr) → (p == p) ≡ true
eq_self p = ground arith
