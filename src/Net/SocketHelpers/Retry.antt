-- ===== src/Net/SocketHelpers/Retry.antt =====
-- for (;;) around a system call that an arriving signal interrupts.
use cpp_core_systems.Prelude.{
  ℕ, zero, suc, ◌<◌, ◌≡◌, ◌⊎◌, inl, inr, subst, arith, true, Option, none, some, if◌then◌else◌,
  Bool-cases, Option-cases,
}
use cpp_core_systems.Net.SocketError.{Errors, is_interrupted, SocketResult, success, failure}
use cpp_core_systems.Net.System.{System}
use cpp_core_systems.Net.SocketHelpers.{last_error}

pub some-injective {ℓ} : {A : Type ℓ} (x y : A) → some x ≡ some y → x ≡ y
some-injective x y e = cc

module _ {ℓ} {A : Type ℓ} (sys : System) (std : Errors)
    (call : sys.State → Option A × sys.State) where
  -- `none` is out of fuel; `call` gives `none` where the source's test for a failure holds.
  unfoldable pub retry : ℕ → sys.State → Option (SocketResult A × sys.State)
  retry zero s = none
  retry (suc k) s =
      let again = retry k (call s).1 in
      elim (call s).0 [
        | some x ↦ some (success x, (call s).1)
        | none ↦
            if is_interrupted std (last_error sys std (call s).1)
            then again
            else some (failure (last_error sys std (call s).1), (call s).1)
      ]

  -- The state after `n` calls, all of them interrupted.
  abbrev pub after_calls : ℕ → sys.State → sys.State
  after_calls zero s = s
  after_calls (suc n) s = after_calls n (call s).1

  abbrev pub Interrupted : sys.State → Type ℓ
  Interrupted s = ((call s).0 ≡ none) × (is_interrupted std (last_error sys std (call s).1) ≡ true)

  abbrev pub AllInterrupted : ℕ → sys.State → Type ℓ
  AllInterrupted zero s = Unit {ℓ}
  AllInterrupted (suc n) s = Interrupted s × AllInterrupted n (call s).1

  -- What a call that is not interrupted makes of the whole loop.
  abbrev pub Outcome : sys.State → Option (SocketResult A × sys.State) → Type ℓ
  Outcome s r =
      ((x : A) × ((call s).0 ≡ some x) × (r ≡ some (success x, (call s).1)))
      ⊎ (((call s).0 ≡ none) × (r ≡ some (failure (last_error sys std (call s).1), (call s).1)))

  -- If the first `n` calls are interrupted and the next one is not, the loop ends within `n` + 1
  -- rounds with what that call gives: its value, or the error that it has set.
  pub retry_lem :
      (n k : ℕ) (s : sys.State)
      → n < k
      → AllInterrupted n s
      → (Interrupted (after_calls n s) → ⊥)
      → Outcome (after_calls n s) (retry k s)
  unfolding retry
  retry_lem n zero s fuel before here = absurd (omega arith)
  retry_lem zero (suc k) s fuel before here = elim (Option-cases (call s).0) [
    | inr (x, e) ↦ inl (x, e, rw (retry, e))
    | inl e ↦ elim (Bool-cases (is_interrupted std (last_error sys std (call s).1))) [
      | inl stop ↦ absurd (here (e, stop))
      | inr error ↦ inr (e, rw (retry, e, error))
    ]
  ]
  retry_lem (suc n) (suc k) s fuel ((e, stop), before) here =
      rw (retry, e, stop) (retry_lem n k (call s).1 (omega arith) before here)

  -- A call that is interrupted fewer than `k` times in a row, and then not.
  abbrev pub Settles : ℕ → sys.State → Type ℓ
  Settles k s = (n : ℕ) × (n < k) × AllInterrupted n s × (Interrupted (after_calls n s) → ⊥)

  pub retry-some :
      (k : ℕ) (s : sys.State)
      → Settles k s
      → (r : SocketResult A × sys.State) × (retry k s ≡ some r)
  retry-some k s (n, fuel, before, here) = elim (retry_lem n k s fuel before here) [
    | inl (x, e, found) ↦ (_, found)
    | inr (e, found) ↦ (_, found)
  ]

  -- A postcondition of every call that is not repeated holds of the loop.
  pub retry_inv {κ} :
      (I : sys.State → Type κ) (P : SocketResult A × sys.State → Type κ) (k : ℕ) (s : sys.State)
      → I s
      → ((t : sys.State) → I t → (call t).0 ≡ none → I (call t).1)
      → ((t : sys.State)
          → I t
          → (call t).0 ≡ none
          → P (failure (last_error sys std (call t).1), (call t).1))
      → ((t : sys.State) (x : A) → I t → (call t).0 ≡ some x → P (success x, (call t).1))
      → (r : SocketResult A × sys.State) → retry k s ≡ some r
      → P r
  unfolding retry
  retry_inv I P zero s i again fail done r h = cc
  retry_inv I P (suc k) s i again fail done r h = elim (Option-cases (call s).0) [
    | inr (x, e) ↦
        subst P (some-injective (success x, (call s).1) r (rw (retry, e) at h)) (done s x i e)
    | inl e ↦ elim (Bool-cases (is_interrupted std (last_error sys std (call s).1))) [
      | inl stop ↦
          retry_inv I P k (call s).1 (again s i e) again fail done r (rw (retry, e, stop) at h)
      | inr error ↦
          subst P
            (some-injective (failure (last_error sys std (call s).1), (call s).1) r
              (rw (retry, e, error) at h))
            (fail s i e)
    ]
  ]
