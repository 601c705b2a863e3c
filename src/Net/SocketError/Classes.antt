-- ===== src/Net/SocketError/Classes.antt =====
-- The classes of errors that the predicates of SocketError ask for, whatever the platform.
use cpp_core_systems.Prelude.{
  ◌≡◌, ◌≢◌, refl, sym, ◌∙◌, Bool, true, false, ◌||◌, ◌==◌, if◌then◌else◌, arith, Bool-cases, inl,
  inr,
}
use cpp_core_systems.Net.SocketError

-- The class of a condition: EAGAIN and EWOULDBLOCK, the values of two enumerators, may be equal.
abbrev pub normal : SocketError.Errc → SocketError.Errc
normal SocketError.resource_unavailable_try_again = SocketError.operation_would_block
normal c = c

-- What std::error_code and std::errc promise.
pub record IsErrors (std : SocketError.Errors) : Type 0 where
  -- Two enumerators with one value are of one class, and no value is 0.
  pub distinct :
      (c d : SocketError.Errc) → std.errc_value c ≡ std.errc_value d → normal c ≡ normal d
  pub nonzero : (c : SocketError.Errc) → std.errc_value c ≢ 0
  -- An error code has one condition at most.
  pub one_condition :
      (e : SocketError.SocketError) (c d : SocketError.Errc)
      → std.equivalent e c ≡ true
      → std.equivalent e d ≡ true
      → std.errc_value c ≡ std.errc_value d
  pub makes : (c : SocketError.Errc) → std.equivalent (SocketError.make_error std c) c ≡ true

-- The predicates that ask for one class.
pub data Class : Type 0 where
  would_block : Class
  interrupted : Class
  connection_reset : Class
  connection_refused : Class
  timed_out : Class
  address_in_use : Class
  connection_aborted : Class

abbrev pub condition : Class → SocketError.Errc
condition Class.would_block = SocketError.operation_would_block
condition Class.interrupted = SocketError.interrupted
condition Class.connection_reset = SocketError.connection_reset
condition Class.connection_refused = SocketError.connection_refused
condition Class.timed_out = SocketError.timed_out
condition Class.address_in_use = SocketError.address_in_use
condition Class.connection_aborted = SocketError.connection_aborted

module _ (std : SocketError.Errors) where
  abbrev pub is : Class → SocketError.SocketError → Bool
  is Class.would_block e = SocketError.is_would_block std e
  is Class.interrupted e = SocketError.is_interrupted std e
  is Class.connection_reset e = SocketError.is_connection_reset std e
  is Class.connection_refused e = SocketError.is_connection_refused std e
  is Class.timed_out e = SocketError.is_timed_out std e
  is Class.address_in_use e = SocketError.is_address_in_use std e
  is Class.connection_aborted e = SocketError.is_connection_aborted std e

  -- The conditions that a test accepts are of one class.
  abbrev Single : (SocketError.Errc → Bool) → Type 0
  Single P = (c d : SocketError.Errc) → P c ≡ true → P d ≡ true → normal c ≡ normal d

  pick :
      (b : Bool) (P Q : SocketError.Errc → Bool)
      → Single P
      → Single Q
      → Single (λ c. if b then P c else Q c)
  pick true P Q p q = p
  pick false P Q p q = q

  module _ (laws : IsErrors std) where
    one : (x : SocketError.Errc) → Single (λ c. SocketError.same_errc std c x)
    one x c d e f = laws.distinct c d (ground arith)

    two :
        (x y : SocketError.Errc)
        → normal x ≡ normal y
        → Single (λ c. SocketError.same_errc std c x || SocketError.same_errc std c y)
    two x y same c d e f = of c e ∙ sym (of d f)
      where
        of :
            (c : SocketError.Errc)
            → (SocketError.same_errc std c x || SocketError.same_errc std c y) ≡ true
            → normal c ≡ normal x
        of c e = elim (Bool-cases (SocketError.same_errc std c x)) [
          | inl at_x ↦ laws.distinct c x (ground arith)
          | inr other ↦ laws.distinct c y (ground arith) ∙ sym same
        ]

    equivalents : (e : SocketError.SocketError) → Single (std.equivalent e)
    equivalents e c d at_c at_d = laws.distinct c d (laws.one_condition e c d at_c at_d)

    winsock_one :
        (wsa : SocketError.Winsock) (e : SocketError.SocketError)
        → Single (SocketError.winsock_matches std wsa e)
    winsock_one wsa e =
        pick (e.value == wsa.wsaewouldblock) _ _
          (two SocketError.operation_would_block SocketError.resource_unavailable_try_again refl)
          (pick (e.value == wsa.wsaeintr) _ _ (one SocketError.interrupted) (
            pick (e.value == wsa.wsaeconnreset) _ _ (one SocketError.connection_reset) (
              pick (e.value == wsa.wsaeconnrefused) _ _ (one SocketError.connection_refused) (
                pick (e.value == wsa.wsaetimedout) _ _ (one SocketError.timed_out) (
                  pick (e.value == wsa.wsaeaddrinuse) _ _ (one SocketError.address_in_use) (
                    pick (e.value == wsa.wsaeconnaborted) _ _ (one SocketError.connection_aborted) (
                      pick (e.value == wsa.wsaenotconn) _ _ (one SocketError.not_connected) (
                        pick (e.value == wsa.wsaemsgsize) _ _ (one SocketError.message_size)
                          (equivalents e)))))))))

    on_one :
        (p : SocketError.Platform) (e : SocketError.SocketError)
        → Single (SocketError.matches_on std p e)
    on_one SocketError.posix e = equivalents e
    on_one (SocketError.windows wsa) e =
        pick (SocketError.is_system e.category) _ _ (winsock_one wsa e) (equivalents e)

    pub matches_one : (e : SocketError.SocketError) → Single (SocketError.matches std e)
    unfolding SocketError.matches
    matches_one e = on_one std.platform e

    made_on :
        (p : SocketError.Platform) (c : SocketError.Errc)
        → SocketError.matches_on std p (SocketError.make_error std c) c ≡ true
    made_on SocketError.posix c = laws.makes c
    made_on (SocketError.windows wsa) c = laws.makes c

    -- Where enumerators of std::errc are not 0, those with one value are of one class, and an error
    -- code has one condition at most, its own if it is made of one: a SocketError made of an
    -- enumerator has an error and compares equal to that enumerator, and each enumerator that it
    -- compares equal to is of the same class.
    pub make_error_lem :
        (c d : SocketError.Errc)
        → SocketError.matches std (SocketError.make_error std c) d ≡ true
        → (SocketError.matches std (SocketError.make_error std c) c ≡ true)
          × (normal d ≡ normal c)
          × (SocketError.has_error (SocketError.make_error std c) ≡ true)
    unfolding SocketError.matches
    make_error_lem c d holds =
        let made = made_on std.platform c in
        let nonzero = laws.nonzero c in
        (made, matches_one (SocketError.make_error std c) d c holds made, ground arith)
