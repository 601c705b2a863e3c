-- ===== src/Net/SocketError/Exclusive.antt =====
-- Which predicates of SocketError exclude one another.
use cpp_core_systems.Prelude.{
  ◌≡◌, refl, sym, ◌∙◌, ap, Bool, true, false, ◌&&◌, arith, Bool-cases, inl, inr,
}
use cpp_core_systems.Net.SocketError
use cpp_core_systems.Net.SocketError.Classes.{normal, IsErrors, Class, condition, is, matches_one}

module _ (std : SocketError.Errors) where
  module _ (laws : IsErrors std) where
    -- Some condition that holds of the error has the property.
    abbrev Some : SocketError.SocketError → (SocketError.Errc → Type 0) → Type 0
    Some e P = (c : SocketError.Errc) × (SocketError.matches std e c ≡ true) × P (normal c)

    either :
        (P : SocketError.Errc → Type 0) (c : SocketError.Errc) (e : SocketError.SocketError)
        → P (normal c)
        → (SocketError.matches std e c ≡ false → Some e P)
        → Some e P
    either P c e here other = elim (Bool-cases (SocketError.matches std e c)) [
      | inl it ↦ (c, it, here)
      | inr not_it ↦ other not_it
    ]

    is-Some :
        (a : Class) (e : SocketError.SocketError)
        → is std a e ≡ true
        → Some e (λ c. c ≡ condition a)
    is-Some Class.would_block e t =
        either (λ c. c ≡ SocketError.operation_would_block) SocketError.operation_would_block e refl
          (λ not_it. (SocketError.resource_unavailable_try_again, ground arith, refl))
    is-Some Class.interrupted e t = (_, t, refl)
    is-Some Class.connection_reset e t = (_, t, refl)
    is-Some Class.connection_refused e t = (_, t, refl)
    is-Some Class.timed_out e t = (_, t, refl)
    is-Some Class.address_in_use e t = (_, t, refl)
    is-Some Class.connection_aborted e t = (_, t, refl)

    class_of : SocketError.Errc → Class
    class_of SocketError.interrupted = Class.interrupted
    class_of SocketError.connection_reset = Class.connection_reset
    class_of SocketError.connection_refused = Class.connection_refused
    class_of SocketError.timed_out = Class.timed_out
    class_of SocketError.address_in_use = Class.address_in_use
    class_of SocketError.connection_aborted = Class.connection_aborted
    class_of _ = Class.would_block

    class_of-condition : (a : Class) → class_of (condition a) ≡ a
    unfolding class_of
    class_of-condition Class.would_block = refl
    class_of-condition Class.interrupted = refl
    class_of-condition Class.connection_reset = refl
    class_of-condition Class.connection_refused = refl
    class_of-condition Class.timed_out = refl
    class_of-condition Class.address_in_use = refl
    class_of-condition Class.connection_aborted = refl

    -- Where std::errc is as IsErrors says, so that two enumerators with one value are of one class,
    -- and an error code has one condition at most: on POSIX and on Windows, no two of IsWouldBlock,
    -- IsInterrupted, IsConnectionReset, IsConnectionRefused, IsTimedOut, IsAddressInUse and
    -- IsConnectionAborted hold of one error.
    pub exclusive :
        (a b : Class) (e : SocketError.SocketError) → is std a e ≡ true → is std b e ≡ true → a ≡ b
    exclusive a b e at_a at_b =
        let (c, holds_c, c_is) = is-Some a e at_a in
        let (d, holds_d, d_is) = is-Some b e at_b in
        sym (class_of-condition a)
        ∙ ap class_of (sym c_is ∙ matches_one std laws e c d holds_c holds_d ∙ d_is)
        ∙ class_of-condition b

    -- The conditions behind IsDisconnected.
    abbrev lost : SocketError.Errc → Bool
    lost SocketError.connection_reset = true
    lost SocketError.connection_aborted = true
    lost SocketError.broken_pipe = true
    lost SocketError.not_connected = true
    lost _ = false

    transient-Some :
        (e : SocketError.SocketError)
        → SocketError.is_transient std e ≡ true
        → Some e (λ c. lost c ≡ false)
    transient-Some e t = elim (Bool-cases (SocketError.is_would_block std e)) [
      | inl holding ↦
          let (c, holds, is_it) = is-Some Class.would_block e holding in (c, holds, ap lost is_it)
      | inr not_it ↦
          either (λ c. lost c ≡ false) SocketError.interrupted e refl
            (λ denied. (SocketError.timed_out, ground arith, refl))
    ]

    disconnected-Some :
        (e : SocketError.SocketError)
        → SocketError.is_disconnected std e ≡ true
        → Some e (λ c. lost c ≡ true)
    disconnected-Some e t =
        either (λ c. lost c ≡ true) SocketError.connection_reset e refl
          (λ r.
            either (λ c. lost c ≡ true) SocketError.connection_aborted e refl
              (λ a.
                either (λ c. lost c ≡ true) SocketError.broken_pipe e refl
                  (λ b. (SocketError.not_connected, ground arith, refl))))

    -- Where std::errc is as IsErrors says, so that two enumerators with one value are of one class,
    -- and an error code has one condition at most: IsTransient and IsDisconnected never hold of one
    -- error.
    pub transient_or_disconnected :
        (e : SocketError.SocketError)
        → (SocketError.is_transient std e && SocketError.is_disconnected std e) ≡ false
    transient_or_disconnected e = elim (Bool-cases (SocketError.is_transient std e)) [
      | inr not_it ↦ rw not_it refl
      | inl holding ↦ elim (Bool-cases (SocketError.is_disconnected std e)) [
        | inr not_it ↦ rw (holding, not_it) refl
        | inl gone ↦
            let (c, holds_c, c_is) = transient-Some e holding in
            let (d, holds_d, d_is) = disconnected-Some e gone in
            let same = ap lost (matches_one std laws e c d holds_c holds_d) in absurd (ground arith)
      ]
    ]
