-- ===== src/Time/ScopeTimer/Tests.antt =====
-- The example's scopes with a clock that ticks at each reading.
use cpp_core_systems.Prelude.{
  ℕ, zero, suc, ◌+◌, ◌≡◌, refl, arith, true, false, List, [], ◌∷◌, ◌++◌, map,
}
use cpp_core_systems.Time.ScopeTimer.{Library, cout, run, start_timer, end_timer, example_main}
use cpp_core_systems.Time.ScopeTimer.Scopes.{Line, IsLibrary, Reports, run-Reports}

-- The time, and what has been written.
record Process : Type 0 where
  time : ℕ
  lines : List Line

-- The code behind the last timer prints; the sleeps print nothing.
abbrev printed : ℕ → List Line
printed zero = (cout, b'e' ∷ b'q' ∷ b'u' ∷ b'a' ∷ b'l' ∷ []) ∷ []
printed (suc n) = []

abbrev library : Library
library = record {
  State = Process;
  now = λ s. (s.time, record { time = suc s.time; lines = s.lines });
  show = λ ratio ticks. ticks ∷ [];
  throws = λ s. false;
  insert = λ os text s. (true, record { time = s.time; lines = s.lines ++ ((os, text) ∷ []) });
  work = λ n s. record { time = s.time + n; lines = s.lines ++ printed n };
}

abbrev library-IsLibrary : IsLibrary library
library-IsLibrary = record {
  time = λ s. s.time;
  written = λ s. s.lines;
  now_reads = λ s. (omega arith, omega arith);
  now_writes = λ s. refl;
  never_throws = λ s. refl;
  insert_writes = λ os text s. refl;
  insert_takes = λ os text s. omega arith;
  work_writes = λ n s. (printed n, refl);
  work_takes = λ n s. omega arith;
}

abbrev begin_process : Process
begin_process = record { time = 0; lines = [] }

-- A line by the first byte of its label.
abbrev first_byte : List ℕ → ℕ
first_byte [] = 0
first_byte (b ∷ bs) = b

-- Sleep_test, String_test, Default, what the code under `custom` prints, custom and HelloWorld.
scopes_end :
    map (λ l. first_byte l.1) (run library example_main begin_process).lines
    ≡ b'S' ∷ b'S' ∷ b'D' ∷ b'e' ∷ b'c' ∷ b'H' ∷ []
unfolding run start_timer end_timer
scopes_end = refl

run-Reports_example :
    (lines : List Line) × ((run library example_main begin_process).lines ≡ [] ++ lines)
    × Reports library example_main 0 (run library example_main begin_process).time lines
run-Reports_example = run-Reports library library-IsLibrary example_main begin_process
