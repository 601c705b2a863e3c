-- ===== src/Net/SocketHandle/Owners/Runs.antt =====
-- Every step keeps the ownership of descriptors, and so does every run.
use cpp_core_systems.Prelude.{
  ℕ, ◌≡◌, ◌≢◌, refl, sym, subst, ◌⊎◌, inl, inr, arith, Bool, false, ◌&&◌, ◌==◌, if◌then◌else◌,
  Bool-cases,
}
use cpp_core_systems.Net.System.{System, IsSystem, invalid_handle, Kept, Lost}
use cpp_core_systems.Net.SocketHandle.{
  is_valid, move_assign, close, close_lem, move_assign_handle_lem,
}
use cpp_core_systems.Net.SocketHandle.Owners.{Handles, put, Step, Reach, Owned}
use cpp_core_systems.Net.SocketHandle.Owners.Moves.{
  swapped, put-swapped, exchanged, dropped, opened_one,
}

module _ (sys : System) where
  module _ (laws : IsSystem sys) (others : ℕ → Bool) where
    step_lem :
        {o : Handles} {s : sys.State} {o' : Handles} {t : sys.State}
        → Step sys o s o' t
        → Owned sys others o s
        → Owned sys others o' t
    step_lem (Step.open_socket o s i family type protocol free) owned =
        elim (laws.socket_makes family type protocol s) [
          | inr new ↦ opened_one sys others o s _ i _ free new owned
          | inl (bad, kept) ↦ exchanged sys others o _ s _ i i (λ a. ground arith) kept owned
        ]
    step_lem (Step.construct o s i j ne free) owned =
        exchanged sys others o _ s s i j (λ a. ground arith) (λ d. refl) owned
    step_lem (Step.exchange o s i j ne) owned =
        exchanged sys others o _ s s i j (λ a. ground arith) (λ d. refl) owned
    step_lem (Step.drop o s i) owned =
        let (gone, which) = close_lem sys laws (o i) s in
        subst (λ m. Owned sys others (put o i m) (close sys (o i) s).1) (sym gone)
          (dropped sys others o s (close sys (o i) s).1 i (closed which) owned)
      where
        closed :
            ((o i ≡ invalid_handle) × Kept sys s (close sys (o i) s).1)
              ⊎ ((o i ≢ invalid_handle) × Lost sys (o i) s (close sys (o i) s).1)
            → (d : ℕ)
            → sys.opened (close sys (o i) s).1 d
              ≡ (if (d == o i) && is_valid (o i) then false else sys.opened s d)
        closed (inl (none_held, kept)) d = ground (arith, kept d)
        closed (inr (held, lost)) d = ground (arith, lost d)
    step_lem (Step.move o s i j) owned = elim (Bool-cases (i == j)) [
      | inl same ↦ rw same owned
      | inr differ ↦
          let ne : i ≢ j = ground arith in
          let (m_is, other_is, closed) =
            move_assign_handle_lem sys laws (o i) (o j) s (λ e. owned.apart i j ne e) in
          rw differ (
            exchanged sys others (put o i invalid_handle) _ (move_assign sys (o i) (o j) s).2 _ i j
              (λ a. placed a differ m_is other_is) (λ d. refl)
              (dropped sys others o s (move_assign sys (o i) (o j) s).2 i closed owned))
    ]
      where
        placed :
            (a : ℕ)
            → (i == j) ≡ false
            → (move_assign sys (o i) (o j) s).0 ≡ o j
            → (move_assign sys (o i) (o j) s).1 ≡ invalid_handle
            → put (put o j (move_assign sys (o i) (o j) s).1) i (move_assign sys (o i) (o j) s).0 a
              ≡ put o i invalid_handle (swapped sys i j a)
        placed a differ m_is other_is = rw (m_is, other_is) (put-swapped sys o i j a differ)

    -- On a system whose socket and close calls open and close one descriptor: let several handle
    -- objects hold different descriptors, those and certain others being all that are open. However
    -- sockets are then opened into objects that hold none, handles moved to new objects,
    -- move-assigned, also to themselves, exchanged and closed: the others stay open, the open
    -- descriptors beside them are exactly those that the objects hold, and no two objects hold the
    -- same one.
    pub reach-Owned :
        (o₀ : Handles) (s₀ : sys.State) {o : Handles} {t : sys.State}
        → Owned sys others o₀ s₀
        → Reach sys o₀ s₀ o t
        → Owned sys others o t
    reach-Owned o₀ s₀ owned Reach.start = owned
    reach-Owned o₀ s₀ owned (Reach.next before step) =
        step_lem step (reach-Owned o₀ s₀ owned before)
