-- ===== src/Time/ScopeTimer/Scopes.antt =====
-- What nested timers write.
use cpp_core_systems.Prelude.{
  ℕ, ◌+◌, ◌-◌, ◌≤◌, ◌≡◌, refl, sym, ◌∙◌, ap, arith, false, List, [], ◌∷◌, ◌++◌, append-nil,
  append_assoc,
}
use cpp_core_systems.Time.ScopeTimer.{Library, Code, start_timer, end_timer, report, run}

-- A line and the stream that it is inserted into.
abbrev pub Line : Type 0
Line = ℕ × List ℕ

-- A steady clock, and streams that do not throw; `written` is what all of them have been given.
pub record IsLibrary (lib : Library) : Type 0 where
  pub time : lib.State → ℕ
  pub written : lib.State → List Line
  pub now_reads : (s : lib.State) → (time s ≤ (lib.now s).0) × ((lib.now s).0 ≤ time (lib.now s).1)
  pub now_writes : (s : lib.State) → written (lib.now s).1 ≡ written s
  pub never_throws : (s : lib.State) → lib.throws s ≡ false
  pub insert_writes :
      (os : ℕ) (text : List ℕ) (s : lib.State)
      → written (lib.insert os text s).1 ≡ written s ++ ((os, text) ∷ [])
  pub insert_takes :
      (os : ℕ) (text : List ℕ) (s : lib.State) → time s ≤ time (lib.insert os text s).1
  pub work_writes :
      (n : ℕ) (s : lib.State)
      → (others : List Line) × (written (lib.work n s) ≡ written s ++ others)
  pub work_takes : (n : ℕ) (s : lib.State) → time s ≤ time (lib.work n s)

module _ (lib : Library) where
  -- What the timers of some code write between two times: one line for each, behind those of the
  -- timers within its scope, which measure parts of its own interval.
  abbrev pub Reports : Code → (from to : ℕ) → List Line → Type 0
  Reports Code.done from to lines = (from ≤ to) × (lines ≡ [])
  Reports (Code.act n rest) from to lines =
      (begin : ℕ) × (others : List Line) × (behind : List Line) × (from ≤ begin)
      × Reports rest begin to behind
      × (lines ≡ others ++ behind)
  Reports (Code.block inner rest) from to lines =
      (middle : ℕ) × (first : List Line) × (second : List Line) × Reports inner from middle first
      × Reports rest middle to second
      × (lines ≡ first ++ second)
  Reports (Code.declare d rest) from to lines =
      (start : ℕ) × (begin : ℕ) × (stop : ℕ) × (end : ℕ) × (ticks : ℕ) × (inner : List Line)
      × ((from ≤ start) × (start ≤ begin) × (begin ≤ stop) × (stop ≤ end) × (end ≤ to))
      × Reports rest begin stop inner
      × (start + ticks ≡ end)
      × (lines
          ≡ inner
            ++ ((d.os, d.label ++ (b':' ∷ b' ' ∷ []) ++ lib.show d.ratio ticks ++ (b'\n' ∷ []))
                ∷ []))

  -- What some code writes takes time.
  Reports-le : (c : Code) (from to : ℕ) (lines : List Line) → Reports c from to lines → from ≤ to
  Reports-le Code.done from to lines r = r.0
  Reports-le (Code.act n rest) from to lines (begin, others, behind, here, r, is) =
      omega (arith, Reports-le rest begin to behind r)
  Reports-le (Code.block inner rest) from to lines (middle, first, second, r, r', is) =
      omega (arith, Reports-le inner from middle first r, Reports-le rest middle to second r')
  Reports-le (Code.declare d rest) from to lines
        (start, begin, stop, end, ticks, inner, (a, b, c, d', e), r, sum, is) =
      omega arith

  module _ (laws : IsLibrary lib) where
    -- With a steady clock, where neither building a text nor a stream throws, and where other code
    -- only adds lines of its own to what has been written (IsLibrary): code with scopes and timers
    -- adds one line for each timer to the timer's stream, among the lines of the other code, in the
    -- order in which the timers go out of scope, the line of a timer behind all that is written
    -- within its scope. A line is the label, and the ticks that lead from a time read before the
    -- scope's code starts to one read after it has ended; both lie within the run, and around those
    -- of the timers within the scope.
    pub run-Reports :
        (c : Code) (s : lib.State)
        → (lines : List Line) × (laws.written (run lib c s) ≡ laws.written s ++ lines)
          × Reports c (laws.time s) (laws.time (run lib c s)) lines
    unfolding run start_timer end_timer
    run-Reports Code.done s = ([], sym (append-nil (laws.written s)), (omega arith, refl))
    run-Reports (Code.act n rest) s =
        let (behind, wrote, reports) = run-Reports rest (lib.work n s) in
        let (others, worked) = laws.work_writes n s in
        (
          others ++ behind,
          wrote ∙ ap (λ w. w ++ behind) worked ∙ append_assoc (laws.written s) others behind,
          (laws.time (lib.work n s), others, behind, laws.work_takes n s, reports, refl),
        )
    run-Reports (Code.block inner rest) s =
        let (first, wrote, reports) = run-Reports inner s in
        let (second, wrote', reports') = run-Reports rest (run lib inner s) in
        (
          first ++ second,
          wrote' ∙ ap (λ w. w ++ second) wrote ∙ append_assoc (laws.written s) first second,
          (laws.time (run lib inner s), first, second, reports, reports', refl),
        )
    run-Reports (Code.declare d rest) s =
        let (start, t) = lib.now s in
        let (timer, t') = start_timer lib d s in
        let (inner, wrote, reports) = run-Reports rest t in
        let u = run lib rest t in
        let (end, v) = lib.now u in
        let text = report lib timer end in
        let here = laws.now_reads s in
        let there = laws.now_reads u in
        let body = Reports-le rest (laws.time t) (laws.time u) inner reports in
        let later = laws.insert_takes d.os text v in
        rw (laws.never_throws v) (
          inner ++ ((d.os, text) ∷ []),
          laws.insert_writes d.os text v
              ∙ ap (λ w. w ++ ((d.os, text) ∷ []))
                  (laws.now_writes u ∙ wrote ∙ ap (λ w. w ++ inner) (laws.now_writes s))
              ∙ append_assoc (laws.written s) inner ((d.os, text) ∷ []),
          (
            start,
            laws.time t,
            laws.time u,
            end,
            end - start,
            inner,
            (here.0, here.1, body, there.0, omega arith),
            reports,
            omega arith,
            refl,
          ),
        )
