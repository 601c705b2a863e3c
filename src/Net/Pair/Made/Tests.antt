-- ===== src/Net/Pair/Made/Tests.antt =====
-- A pair on the stand-in machine, where two signals arrive.
use cpp_core_systems.Prelude.{ℕ, ◌≡◌, refl, ap, arith, true, false, inl, inr, Bool-cases, ◌==◌, leb}
use cpp_core_systems.Net.SocketError.{matches}
use cpp_core_systems.Net.SocketError.Tests.{codes}
use cpp_core_systems.Net.SocketHelpers.Retry.{Settles, Interrupted}
use cpp_core_systems.Net.TcpListener.{accept_call}
use cpp_core_systems.Net.Machine.{Machine, machine, machine-IsSystem, signalled, start}
use cpp_core_systems.Net.Pair.{connect_pair}
use cpp_core_systems.Net.Pair.Made.{PairedRun, connect_pair_lem}

quiet-not :
    (h : ℕ) (t : Machine)
    → (t.signals == 0) ≡ true
    → Interrupted machine codes (accept_call machine codes h) t
    → ⊥
unfolding matches
quiet-not h t quiet (e, stop) = ground arith

noisy :
    (h : ℕ) (t : Machine)
    → (t.signals == 0) ≡ false
    → Interrupted machine codes (accept_call machine codes h) t
unfolding matches
noisy h t loud = rw loud (refl, refl)

after_signal :
    (h : ℕ) (t : Machine)
    → (t.signals == 0) ≡ false
    → (accept_call machine codes h t).1 ≡ signalled t
after_signal h t loud = rw loud refl

machine-Settles : (h : ℕ) (t : Machine) → Settles machine codes (accept_call machine codes h) 3 t
machine-Settles h t = elim (Bool-cases (t.signals == 0)) [
  | inl quiet ↦ (0, omega arith, tt, quiet-not h t quiet)
  | inr loud ↦
      let t₁ = (accept_call machine codes h t).1 in
      let left = ap (λ u. u.signals) (after_signal h t loud) in
      elim (Bool-cases (leb 2 t.signals)) [
        | inr one ↦ (1, omega arith, (noisy h t loud, tt), quiet-not h t₁ (ground arith))
        | inl two ↦
            let loud₁ : (t₁.signals == 0) ≡ false = ground arith in
            let left₁ = ap (λ u. u.signals) (after_signal h t₁ loud₁) in
            (
              2,
              omega arith,
              (noisy h t loud, (noisy h t₁ loud₁, tt)),
              quiet-not h (accept_call machine codes h t₁).1 (ground arith),
            )
      ]
]

connect_pair_example : PairedRun machine codes start (connect_pair machine codes 3 true start)
connect_pair_example = connect_pair_lem machine codes machine-IsSystem 3 machine-Settles true start
