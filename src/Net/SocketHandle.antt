-- ===== src/Net/SocketHandle.antt =====
-- include/net/socket_handle.hpp: the owner of a descriptor, without the message that Close prints
-- in a debug build. A handle object is its m_handle.
pub mod Owners
use cpp_core_systems.Prelude.{
  ℕ, ◌≡◌, refl, ◌≢◌, ◌⊎◌, inl, inr, ◌∙◌, arith, Bool, false, not, ◌&&◌, ◌==◌, if◌then◌else◌,
  Bool-cases,
}
use cpp_core_systems.Net.System.{System, IsSystem, invalid_handle, Kept, Gained, Lost}

abbrev pub is_valid : ℕ → Bool
is_valid handle = not (handle == invalid_handle)

-- The old handle, and what is left in the object.
abbrev pub release : ℕ → ℕ × ℕ
release handle = (handle, invalid_handle)

-- SocketHandle(SocketHandle&&): m_handle of the new object and of the other.
abbrev pub move_construct : ℕ → ℕ × ℕ
move_construct other = release other

-- Swap: m_handle of both.
abbrev pub swap : ℕ → ℕ → ℕ × ℕ
swap m other = (other, m)

module _ (sys : System) where
  -- Close: m_handle and the state after it. The destructor is the same call.
  unfoldable pub close : ℕ → sys.State → ℕ × sys.State
  close m s = if not (is_valid m) then (m, s) else (invalid_handle, sys.close m s)

  unfoldable pub reset : ℕ → ℕ → sys.State → ℕ × sys.State
  unfolding close
  reset m handle s = if not (m == handle) then (handle, (close m s).1) else (m, s)

  -- operator=(SocketHandle&& other) of two objects: m_handle of both.
  unfoldable pub move_assign : ℕ → ℕ → sys.State → ℕ × ℕ × sys.State
  unfolding reset
  move_assign m other s =
      let (handle, other) = release other in let (m, s) = reset m handle s in (m, other, s)

  -- There is nothing to close.
  pub close_none : (m : ℕ) (s : sys.State) → m ≡ invalid_handle → close m s ≡ (m, s)
  unfolding close
  close_none m s e = rw e

  -- A call that opens and closes nothing, after one that has opened `h`.
  pub Gained-Kept : (h : ℕ) (s t u : sys.State) → Gained sys h s t → Kept sys t u → Gained sys h s u
  Gained-Kept h s t u (valid, unused, new) kept = (valid, unused, λ d. kept d ∙ new d)

  module _ (laws : IsSystem sys) where
    -- Close of a valid handle.
    pub close_lem :
        (m : ℕ) (s : sys.State)
        → ((close m s).0 ≡ invalid_handle)
          × (((m ≡ invalid_handle) × Kept sys s (close m s).1)
              ⊎ ((m ≢ invalid_handle) × Lost sys m s (close m s).1))
    unfolding close
    close_lem m s = elim (Bool-cases (m == invalid_handle)) [
      | inl none_held ↦ rw none_held (ground arith, inl (ground arith, λ d. refl))
      | inr held ↦ rw held (refl, inr (ground arith, laws.close_loses m s))
    ]

    -- A new descriptor that is closed again.
    pub undone : (h : ℕ) (s t : sys.State) → Gained sys h s t → Kept sys s (close h t).1
    unfolding close
    undone h s t (valid, unused, rest) d =
        let test : (h == invalid_handle) ≡ false = ground arith in
        rw test (ground (arith, laws.close_loses h t d, rest d))

    -- On a system whose close closes one descriptor, for two handle objects that do not hold the
    -- same descriptor: move assignment gives the target the handle of the other, which is left
    -- invalid, and closes exactly the old descriptor of the target, if it had one.
    pub move_assign_handle_lem :
        (m other : ℕ) (s : sys.State)
        → (m ≡ other → m ≡ invalid_handle)
        → ((move_assign m other s).0 ≡ other)
          × ((move_assign m other s).1 ≡ invalid_handle)
          × ((d : ℕ)
              → sys.opened (move_assign m other s).2 d
                ≡ (if (d == m) && is_valid m then false else sys.opened s d))
    unfolding move_assign reset close
    move_assign_handle_lem m other s apart = elim (Bool-cases (m == other)) [
      | inl same ↦ rw same (ground arith, refl, λ d. ground arith)
      | inr differ ↦ elim (Bool-cases (m == invalid_handle)) [
        | inl none_held ↦ rw (differ, none_held) (refl, refl, λ d. ground arith)
        | inr held ↦ rw (differ, held) (refl, refl, λ d. ground (arith, laws.close_loses m s d))
      ]
    ]
