-- ===== src/Time/ScopeTimer.antt =====
-- include/time/scope_timer.hpp, and the scopes of examples/time/example_scope_timer.cpp. The clock,
-- the stream and the printing of a duration are the standard library's; `Library` is what the code
-- uses of them, as functions on the state of the process.
pub mod Scopes
pub mod Tests
use cpp_core_systems.Prelude.{ℕ, ◌-◌, Bool, true, false, if◌then◌else◌, List, [], ◌∷◌, ◌++◌}

-- std::ratio: the numerator and the denominator.
pub record Ratio : Type 0 where
  pub num : ℕ
  pub den : ℕ

pub record Library : Type 1 where
  pub State : Type 0
  -- Clock::now().
  pub now : State → ℕ × State
  -- The text of a duration<double, Ratio>, in a fresh stream with precision 15.
  pub show : Ratio → (ticks : ℕ) → List ℕ
  -- Whether building that text throws.
  pub throws : State → Bool
  -- os << text, `false` where it throws.
  pub insert : (os : ℕ) → List ℕ → State → Bool × State
  -- Other code, which throws nothing.
  pub work : ℕ → State → State

-- What a constructor gets.
pub record Declaration : Type 0 where
  pub ratio : Ratio
  pub label : List ℕ
  pub os : ℕ

-- ScopeTimer<Ratio>: m_label, m_os and m_start.
pub record Timer : Type 0 where
  pub ratio : Ratio
  pub label : List ℕ
  pub os : ℕ
  pub start : ℕ

-- std::cout.
abbrev pub cout : ℕ
cout = 1

-- SCOPE_TIMER_SEC, SCOPE_TIMER_MILLI, SCOPE_TIMER_MICRO and SCOPE_TIMER_NANO.
abbrev pub scope_timer_sec : List ℕ → Declaration
scope_timer_sec label = record { ratio = record { num = 1; den = 1 }; label = label; os = cout }

abbrev pub scope_timer_milli : List ℕ → Declaration
scope_timer_milli label = record {
  ratio = record { num = 1; den = 1000 };
  label = label;
  os = cout;
}

abbrev pub scope_timer_micro : List ℕ → Declaration
scope_timer_micro label = record {
  ratio = record { num = 1; den = 1000000 };
  label = label;
  os = cout;
}

abbrev pub scope_timer_nano : List ℕ → Declaration
scope_timer_nano label = record {
  ratio = record { num = 1; den = 1000000000 };
  label = label;
  os = cout;
}

-- Code with scopes. A timer lives until the end of the block that it is declared in.
pub data Code : Type 0 where
  done : Code
  act : ℕ → Code → Code
  block : Code → Code → Code
  declare : Declaration → Code → Code

module _ (lib : Library) where
  -- The constructor.
  unfoldable pub start_timer : Declaration → lib.State → Timer × lib.State
  start_timer d s =
      let (start, t) = lib.now s in
      (record { ratio = d.ratio; label = d.label; os = d.os; start = start }, t)

  -- m_label << ": " << duration << "\n".
  abbrev pub report : Timer → (end : ℕ) → List ℕ
  report timer end =
      timer.label ++ (b':' ∷ b' ' ∷ []) ++ lib.show timer.ratio (end - timer.start) ++ (b'\n' ∷ [])

  -- The destructor: whatever throws in it is caught.
  unfoldable pub end_timer : Timer → lib.State → lib.State
  end_timer timer s =
      let (end, t) = lib.now s in
      if lib.throws t then t else (lib.insert timer.os (report timer end) t).1

  unfoldable pub run : Code → lib.State → lib.State
  unfolding start_timer end_timer
  run Code.done s = s
  run (Code.act n rest) s = run rest (lib.work n s)
  run (Code.block inner rest) s = run rest (run inner s)
  run (Code.declare d rest) s = let (timer, t) = start_timer d s in end_timer timer (run rest t)

-- main of the example: `act 0` is what follows the last timer, and other work is a sleep of as
-- many milliseconds.
abbrev pub example_main : Code
example_main =
    Code.declare
      (scope_timer_milli (b'H' ∷ b'e' ∷ b'l' ∷ b'l' ∷ b'o' ∷ b'W' ∷ b'o' ∷ b'r' ∷ b'l' ∷ b'd' ∷ []))
      (Code.block
        (Code.declare
          (scope_timer_micro
            (b'S' ∷ b'l' ∷ b'e' ∷ b'e' ∷ b'p' ∷ b'_' ∷ b't' ∷ b'e' ∷ b's' ∷ b't' ∷ []))
          (Code.act 10 Code.done))
        (Code.block
          (Code.declare
            (scope_timer_sec
              (b'S' ∷ b't' ∷ b'r' ∷ b'i' ∷ b'n' ∷ b'g' ∷ b'_' ∷ b't' ∷ b'e' ∷ b's' ∷ b't' ∷ []))
            (Code.act 15 Code.done))
          (Code.block
            (Code.declare (scope_timer_nano (b'D' ∷ b'e' ∷ b'f' ∷ b'a' ∷ b'u' ∷ b'l' ∷ b't' ∷ []))
              (Code.act 15 Code.done))
            (Code.declare
              (record {
                ratio = record { num = 1; den = 60 };
                label = (b'c' ∷ b'u' ∷ b's' ∷ b't' ∷ b'o' ∷ b'm' ∷ []);
                os = cout;
              })
              (Code.act 0 Code.done)))))
