-- ===== src/Net/SocketHandle/Owners/Moves.antt =====
-- What an exchange of two handles, a close and a new socket do to the ownership of descriptors.
use cpp_core_systems.Prelude.{
  ℕ, ◌≡◌, ◌≢◌, refl, sym, ◌∙◌, ap, subst, inl, inr, arith, Bool, true, false, ◌&&◌, ◌==◌,
  if◌then◌else◌, Bool-cases,
}
use cpp_core_systems.Net.System.{System, invalid_handle, Kept, Gained}
use cpp_core_systems.Net.SocketHandle.{is_valid}
use cpp_core_systems.Net.SocketHandle.Owners.{Handles, put, Owned}

module _ (sys : System) where
  abbrev pub swapped : (i j : ℕ) → ℕ → ℕ
  swapped i j a = if a == i then j else if a == j then i else a

  swapped-swapped : (i j a : ℕ) → swapped i j (swapped i j a) ≡ a
  swapped-swapped i j a = ground arith

  -- A handle is moved to an object that has been closed.
  pub put-swapped :
      (o : Handles) (i j a : ℕ)
      → (i == j) ≡ false
      → put (put o j invalid_handle) i (o j) a ≡ put o i invalid_handle (swapped i j a)
  put-swapped o i j a differ = elim (Bool-cases (a == i)) [
    | inl at_i ↦ let other : (j == i) ≡ false = ground arith in rw (at_i, other) refl
    | inr off_i ↦ elim (Bool-cases (a == j)) [
      | inl at_j ↦ ground arith
      | inr off_j ↦ rw (off_i, off_j, off_i) refl
    ]
  ]

  module _ (others : ℕ → Bool) where
    -- The same descriptors are open, and two objects have exchanged their handles.
    pub exchanged :
        (o o' : Handles) (s t : sys.State) (i j : ℕ)
        → ((a : ℕ) → o' a ≡ o (swapped i j a))
        → Kept sys s t
        → Owned sys others o s
        → Owned sys others o' t
    exchanged o o' s t i j place kept owned = record {
      apart = λ a b diff e.
          place a
          ∙ owned.apart (swapped i j a) (swapped i j b)
              (λ same.
                diff (sym (swapped-swapped i j a) ∙ ap (swapped i j) same ∙ swapped-swapped i j b))
              (sym (place a) ∙ e ∙ place b);
      opened = λ a valid.
          kept (o' a)
          ∙ subst (λ d. sys.opened s d ≡ true) (sym (place a))
              (owned.opened (swapped i j a) (λ e. valid (place a ∙ e)));
      foreign = λ a valid.
          subst (λ d. others d ≡ false) (sym (place a))
            (owned.foreign (swapped i j a) (λ e. valid (place a ∙ e)));
      others_open = λ d other. kept d ∙ owned.others_open d other;
      no_leak = λ d live. elim (owned.no_leak d (sym (kept d) ∙ live)) [
        | inl other ↦ inl other
        | inr (k, holds, valid) ↦
            inr (swapped i j k, place (swapped i j k) ∙ ap o (swapped-swapped i j k) ∙ holds, valid)
      ];
    }

    not_closed :
        (o : Handles) (i d : ℕ)
        → (o i ≢ invalid_handle → others (o i) ≡ false)
        → others d ≡ true
        → ((d == o i) && is_valid (o i)) ≡ false
    not_closed o i d foreign other = elim (Bool-cases (d == o i)) [
      | inr off ↦ rw off refl
      | inl at ↦
          let same : d ≡ o i = ground arith in
          let here : others (o i) ≡ true = subst (λ k. others k ≡ true) same other in
          ground (arith, foreign)
    ]

    -- An object is closed.
    pub dropped :
        (o : Handles) (s t : sys.State) (i : ℕ)
        → ((d : ℕ)
            → sys.opened t d ≡ (if (d == o i) && is_valid (o i) then false else sys.opened s d))
        → Owned sys others o s
        → Owned sys others (put o i invalid_handle) t
    dropped o s t i closed owned = record {
      apart = λ a b diff e. elim (Bool-cases (a == i)) [
        | inl at ↦ rw at refl
        | inr a_off ↦ elim (Bool-cases (b == i)) [
          | inl at ↦ ground arith
          | inr b_off ↦ rw a_off (owned.apart a b diff (rw (a_off, b_off) at e))
        ]
      ];
      opened = λ a valid. elim (Bool-cases (a == i)) [
        | inl at ↦ absurd (valid (rw at refl))
        | inr off ↦
            let held : o a ≢ invalid_handle = rw off at valid in
            let alone = owned.apart a i (λ e. ground arith) in
            let other : ((o a == o i) && is_valid (o i)) ≡ false = ground (arith, alone) in
            rw off (closed (o a) ∙ rw other (owned.opened a held))
      ];
      foreign = λ a valid. elim (Bool-cases (a == i)) [
        | inl at ↦ absurd (valid (rw at refl))
        | inr off ↦ rw off (owned.foreign a (rw off at valid))
      ];
      others_open = λ d other.
          let test : ((d == o i) && is_valid (o i)) ≡ false =
            not_closed o i d (owned.foreign i) other in
          closed d ∙ rw test (owned.others_open d other);
      no_leak = λ d live.
          let before : sys.opened s d ≡ true = ground (arith, closed d) in
          elim (owned.no_leak d before) [
            | inl other ↦ inl other
            | inr (k, holds, valid) ↦
                let off : (k == i) ≡ false = apart_from d k holds live valid in
                inr (k, rw off holds, valid)
          ];
    }
      where
        apart_from :
            (d k : ℕ) → o k ≡ d → sys.opened t d ≡ true → d ≢ invalid_handle → (k == i) ≡ false
        apart_from d k holds live valid = elim (Bool-cases (k == i)) [
          | inr off ↦ off
          | inl at ↦
              let same : o i ≡ d = subst (λ j. o j ≡ d) (ground arith) holds in
              absurd (ground (arith, closed d))
        ]

    -- A new descriptor is not held by an object yet.
    unheld :
        (o : Handles) (s : sys.State) (h b : ℕ)
        → Owned sys others o s
        → h ≢ invalid_handle
        → sys.opened s h ≡ false
        → h ≡ o b
        → ⊥
    unheld o s h b owned valid unused e =
        let live = owned.opened b (λ f. valid (e ∙ f)) in
        let here : sys.opened s h ≡ true = subst (λ d. sys.opened s d ≡ true) (sym e) live in
        ground arith

    -- An object that holds nothing gets a new descriptor.
    pub opened_one :
        (o : Handles) (s t : sys.State) (i h : ℕ)
        → o i ≡ invalid_handle
        → Gained sys h s t
        → Owned sys others o s
        → Owned sys others (put o i h) t
    opened_one o s t i h free (valid₀, unused, new) owned = record {
      apart = λ a b diff e. elim (Bool-cases (a == i)) [
        | inl at ↦ elim (Bool-cases (b == i)) [
          | inl at' ↦ absurd (diff (ground arith))
          | inr off ↦ absurd (unheld o s h b owned valid₀ unused (rw (at, off) at e))
        ]
        | inr a_off ↦ elim (Bool-cases (b == i)) [
          | inl at ↦ absurd (unheld o s h a owned valid₀ unused (sym (rw (a_off, at) at e)))
          | inr b_off ↦ rw a_off (owned.apart a b diff (rw (a_off, b_off) at e))
        ]
      ];
      opened = λ a valid. elim (Bool-cases (a == i)) [
        | inl at ↦ rw at (ground (arith, new h))
        | inr off ↦
            let before = owned.opened a (rw off at valid) in rw off (ground (arith, new (o a)))
      ];
      foreign = λ a valid. elim (Bool-cases (a == i)) [
        | inl at ↦ rw at (ground (arith, owned.others_open h))
        | inr off ↦ rw off (owned.foreign a (rw off at valid))
      ];
      others_open = λ d other. ground (arith, new d, owned.others_open d);
      no_leak = λ d live. elim (Bool-cases (d == h)) [
        | inl at ↦ inr (i, ground arith, ground arith)
        | inr old ↦ elim (owned.no_leak d (ground (arith, new d))) [
          | inl other ↦ inl other
          | inr (k, holds, valid) ↦ inr (k, ground arith, valid)
        ]
      ];
    }
