-- ===== src/Net/SocketHandle/Owners.antt =====
-- Programs that own descriptors through SocketHandle objects, which are numbered.
pub mod Moves
pub mod Runs
pub mod Tests
use cpp_core_systems.Prelude.{
  ℕ, ◌≡◌, ◌≢◌, refl, sym, ◌∙◌, ap, subst, ◌⊎◌, inl, inr, arith, Bool, true, false, not, ◌&&◌, ◌==◌,
  if◌then◌else◌, Bool-cases,
}
use cpp_core_systems.Net.System.{System, IsSystem, invalid_handle, Kept, Gained, Lost, Makes}
use cpp_core_systems.Net.SocketHandle.{
  is_valid, move_construct, move_assign, swap, close, close_lem, move_assign_handle_lem,
}

-- The m_handle of each object; an object that does not exist yet has none.
abbrev pub Handles : Type 0
Handles = ℕ → ℕ

abbrev pub put : Handles → ℕ → ℕ → Handles
put o i m j = if j == i then m else o j

module _ (sys : System) where
  -- operator=(SocketHandle&&) of two objects, or of one to itself.
  abbrev pub assign : (i j : ℕ) → Handles → sys.State → Handles × sys.State
  assign i j o s =
      if not (i == j)
      then (let (m, other, t) = move_assign sys (o i) (o j) s in (put (put o j other) i m, t))
      else (o, s)

  pub data Step : Handles → sys.State → Handles → sys.State → Type 0 where
    -- SocketHandle handle{ ::socket(…) }.
    open_socket :
        (o : Handles) (s : sys.State) (i family type protocol : ℕ)
        → o i ≡ invalid_handle
        → Step o s
            (put o i (sys.socket family type protocol s).0)
            (sys.socket family type protocol s).1
    construct :
        (o : Handles) (s : sys.State) (i j : ℕ)
        → i ≢ j
        → o i ≡ invalid_handle
        → Step o s (put (put o j (move_construct (o j)).1) i (move_construct (o j)).0) s
    move : (o : Handles) (s : sys.State) (i j : ℕ) → Step o s (assign i j o s).0 (assign i j o s).1
    exchange :
        (o : Handles) (s : sys.State) (i j : ℕ)
        → i ≢ j
        → Step o s (put (put o j (swap (o i) (o j)).1) i (swap (o i) (o j)).0) s
    -- Close, or the destructor.
    drop :
        (o : Handles) (s : sys.State) (i : ℕ)
        → Step o s (put o i (close sys (o i) s).0) (close sys (o i) s).1

  pub data Reach (o₀ : Handles) (s₀ : sys.State) : Handles → sys.State → Type 0 where
    start : Reach o₀ s₀ o₀ s₀
    next :
        {o : Handles} {s : sys.State} {o' : Handles} {t : sys.State}
        → Reach o₀ s₀ o s
        → Step o s o' t
        → Reach o₀ s₀ o' t

  -- Beside the descriptors `others`, the open ones are exactly those that the objects hold, and no
  -- two objects hold the same one.
  pub record Owned (others : ℕ → Bool) (o : Handles) (s : sys.State) : Type 0 where
    pub apart : (i j : ℕ) → i ≢ j → o i ≡ o j → o i ≡ invalid_handle
    pub opened : (i : ℕ) → o i ≢ invalid_handle → sys.opened s (o i) ≡ true
    pub foreign : (i : ℕ) → o i ≢ invalid_handle → others (o i) ≡ false
    pub others_open : (d : ℕ) → others d ≡ true → sys.opened s d ≡ true
    pub no_leak :
        (d : ℕ)
        → sys.opened s d ≡ true
        → (others d ≡ true) ⊎ ((i : ℕ) × (o i ≡ d) × (d ≢ invalid_handle))
