-- ===== src/Net/SocketHelpers/Attach.antt =====
-- The common end of TcpSocket::Connect, TcpListener::Bind and UdpSocket::Bind: a new socket is
-- given to one system call and, if that succeeds, to the object.
use cpp_core_systems.Prelude.{
  ℕ, ◌≡◌, refl, ◌∙◌, arith, ◌&&◌, Bool, false, not, ◌==◌, if◌then◌else◌, Bool-cases, inl, inr,
}
use cpp_core_systems.Net.SocketError.{Errors, SocketResult, success, failure}
use cpp_core_systems.Net.System.{System, IsSystem, invalid_handle, Kept, Gained}
use cpp_core_systems.Net.SocketHandle
use cpp_core_systems.Net.SocketHandle.{undone, close_none, Gained-Kept, move_assign_handle_lem}
use cpp_core_systems.Net.SocketHelpers.{last_error, Created}

module _ (sys : System) (std : Errors) where
  -- The result, m_handle and the state.
  unfoldable pub attach :
      SocketResult ℕ × sys.State
      → (ℕ → sys.State → Bool × sys.State)
      → (this : ℕ) → SocketResult (Unit {0}) × ℕ × sys.State
  attach (failure error, s) call this = (failure error, this, s)
  attach (success handle, s) call this =
      let (done, t) = call handle s in
      if not done
      then (failure (last_error sys std t), this, (SocketHandle.close sys handle t).1)
      else (let (this, left, u) = SocketHandle.move_assign sys this handle t in
          (success tt, this, (SocketHandle.close sys left u).1))

  -- A failure leaves the object and the open descriptors as they were. After a success the object
  -- has a new descriptor, and no other has been opened or closed.
  abbrev pub Attached : sys.State → ℕ → SocketResult (Unit {0}) × ℕ × sys.State → Type 0
  Attached s this (success _, this', t) = Gained sys this' s t
  Attached s this (failure error, this', t) = (this' ≡ this) × Kept sys s t

  module _ (laws : IsSystem sys) where
    pub attach_lem :
        (s : sys.State) (r : SocketResult ℕ × sys.State) (call : ℕ → sys.State → Bool × sys.State)
        (this : ℕ)
        → this ≡ invalid_handle
        → Created sys std s r
        → ((h : ℕ) (t : sys.State) → Kept sys t (call h t).1)
        → Attached s this (attach r call this)
    unfolding attach
    attach_lem s (failure error, t) call this e kept keeps = (refl, kept)
    attach_lem s (success handle, t) call this e new keeps =
        let moved = move_assign_handle_lem sys laws this handle (call handle t).1 (λ same. e) in
        elim (Bool-cases (call handle t).0) [
          | inr failed ↦ rw failed (refl, undone sys laws handle s (call handle t).1 still)
          | inl done ↦
              rw
                (
                  done,
                  close_none sys (SocketHandle.move_assign sys this handle (call handle t).1).1
                      (SocketHandle.move_assign sys this handle (call handle t).1).2 moved.1,
                  moved.0,
                )
                (Gained-Kept sys handle s (call handle t).1 _ still
                  (λ d. moved.2 d ∙ nothing_held d))
        ]
      where
        still : Gained sys handle s (call handle t).1
        still = Gained-Kept sys handle s t (call handle t).1 new (keeps handle t)

        nothing_held :
            (d : ℕ)
            → (if (d == this) && SocketHandle.is_valid this
                then false
                else sys.opened (call handle t).1 d)
              ≡ sys.opened (call handle t).1 d
        nothing_held d = rw e (ground arith)
