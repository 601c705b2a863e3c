-- ===== src/Net/SocketRuntime/Lifetimes.antt =====
-- Runtimes that are made and destroyed in any order, and how often Winsock is started up.
pub mod Tests
use cpp_core_systems.Prelude.{
  ℕ, suc, ◌+◌, ◌-◌, ◌≡◌, ◌≢◌, refl, ◌∙◌, ap, ◌⊎◌, inl, inr, arith, Bool, true, false, not, ◌||◌,
  ◌==◌, if◌then◌else◌, List, [], ◌∷◌, ◌++◌, Bool-cases,
}
use cpp_core_systems.Net.SocketError.{
  SocketError, Platform, posix, Winsock, windows, no_error, has_error,
}
use cpp_core_systems.Net.SocketRuntime.{
  Startup, SocketRuntime, lobyte, hibyte, makeword, construct, destroy,
}

-- What WSAStartup and WSACleanup do to the number of start-ups that are not undone yet.
pub record IsStartup (dll : Startup) : Type 0 where
  pub started : dll.State → ℕ
  pub startup_counts :
      (v : ℕ) (s : dll.State)
      → (dll.wsastartup v s).0.0 ≡ 0
      → started (dll.wsastartup v s).1 ≡ suc (started s)
  pub startup_fails :
      (v : ℕ) (s : dll.State)
      → (dll.wsastartup v s).0.0 ≢ 0
      → started (dll.wsastartup v s).1 ≡ started s
  pub cleanup_counts : (s : dll.State) → started (dll.wsacleanup s) ≡ started s - 1

abbrev pub live : List SocketRuntime → ℕ
live [] = 0
live (r ∷ rs) = (if r.initialized then 1 else 0) + live rs

live-append : (xs ys : List SocketRuntime) → live (xs ++ ys) ≡ live xs + live ys
live-append [] ys = omega arith
live-append (r ∷ xs) ys = omega (arith, live-append xs ys)

module _ (dll : Startup) (wsa : Winsock) where
  -- The program makes a runtime, or destroys one of those that it has.
  pub data Step : List SocketRuntime → dll.State → List SocketRuntime → dll.State → Type 0 where
    make :
        (rs : List SocketRuntime) (s : dll.State)
        → Step rs s ((construct dll (windows wsa) s).0 ∷ rs) (construct dll (windows wsa) s).1
    drop :
        (rs : List SocketRuntime) (r : SocketRuntime) (rs' : List SocketRuntime) (s : dll.State)
        → Step (rs ++ (r ∷ rs')) s (rs ++ rs') (destroy dll (windows wsa) r s)

  pub data Reach (s₀ : dll.State) : List SocketRuntime → dll.State → Type 0 where
    start : Reach s₀ [] s₀
    next :
        {rs : List SocketRuntime} {s : dll.State} {rs' : List SocketRuntime} {t : dll.State}
        → Reach s₀ rs s
        → Step rs s rs' t
        → Reach s₀ rs' t

  -- What the constructor leaves: a working runtime and one more start-up, or an error and none.
  abbrev pub Constructed : (dll.State → ℕ) → dll.State → SocketRuntime × dll.State → Type 0
  Constructed started s q =
      ((q.0.initialized ≡ true) × (q.0.error ≡ no_error) × (started q.1 ≡ suc (started s)))
      ⊎ ((q.0.initialized ≡ false) × (has_error q.0.error ≡ true) × (started q.1 ≡ started s))

  module _ (laws : IsStartup dll) (supported : wsa.wsavernotsupported ≢ 0) where
    -- Where WSAStartup counts up if it succeeds and only then, and WSACleanup counts down
    -- (IsStartup), and WSAVERNOTSUPPORTED is not 0: on Windows the constructor of SocketRuntime
    -- leaves an initialized runtime without an error and one more start-up, or one that is not
    -- initialized, with an error, and no more start-ups than before.
    pub construct_lem : (s : dll.State) → Constructed laws.started s (construct dll (windows wsa) s)
    unfolding construct
    construct_lem s = elim (Bool-cases ((dll.wsastartup (makeword 2 2) s).0.0 == 0)) [
      | inr failed ↦
          rw failed (inr (refl, ground arith, laws.startup_fails (makeword 2 2) s (ground arith)))
      | inl done ↦
          let count = laws.startup_counts (makeword 2 2) s (ground arith) in
          let version = (dll.wsastartup (makeword 2 2) s).0.1 in
          let undone = laws.cleanup_counts (dll.wsastartup (makeword 2 2) s).1 in
          elim (Bool-cases (not (lobyte version == 2) || not (hibyte version == 2))) [
            | inl other ↦ rw (done, other) (inr (refl, ground arith, omega arith))
            | inr right ↦ rw (done, right) (inl (refl, refl, count))
          ]
    ]

    step_lem :
        {rs : List SocketRuntime} {s : dll.State} {rs' : List SocketRuntime} {t : dll.State}
        (base : ℕ)
        → Step rs s rs' t
        → laws.started s ≡ base + live rs
        → laws.started t ≡ base + live rs'
    unfolding destroy
    step_lem base (make rs s) e = elim (construct_lem s) [
      | inl (is, fine, count) ↦ rw is (omega arith)
      | inr (is, error, count) ↦ rw is (omega arith)
    ]
    step_lem base (drop rs r rs' s) e =
        let before = live-append rs (r ∷ rs') in
        let after = live-append rs rs' in
        elim (Bool-cases r.initialized) [
          | inl is ↦ ground (arith, laws.cleanup_counts s)
          | inr not_it ↦ ground arith
        ]

    -- Where WSAStartup counts up if it succeeds and only then, and WSACleanup counts down
    -- (IsStartup), and WSAVERNOTSUPPORTED is not 0: however a program makes runtimes on Windows and
    -- destroys them, in any order, the start-ups that are not undone are those from before and one
    -- for each runtime alive that is initialized.
    pub reach_lem :
        (s₀ : dll.State) {rs : List SocketRuntime} {t : dll.State}
        → Reach s₀ rs t
        → laws.started t ≡ laws.started s₀ + live rs
    reach_lem s₀ start = omega arith
    reach_lem s₀ (next before step) = step_lem (laws.started s₀) step (reach_lem s₀ before)

module _ (dll : Startup) (startup : IsStartup dll) where
  -- WSAVERNOTSUPPORTED is an error.
  abbrev pub Supported : Platform → Type 0
  Supported posix = Unit {0}
  Supported (windows wsa) = wsa.wsavernotsupported ≢ 0

  -- A runtime that is made and destroyed undoes its start-up.
  pub balanced :
      (platform : Platform) (d : dll.State)
      → Supported platform
      → startup.started
          (destroy dll platform (construct dll platform d).0 (construct dll platform d).1)
        ≡ startup.started d
  unfolding construct destroy
  balanced posix d supported = refl
  balanced (windows wsa) d supported = elim (construct_lem dll wsa startup supported d) [
    | inl (works, fine, more) ↦
        let undone = startup.cleanup_counts (construct dll (windows wsa) d).1 in
        rw works (omega arith)
    | inr (broken, bad, same) ↦ rw broken same
  ]

  -- A runtime that is not initialized has an error.
  pub broken_code :
      (platform : Platform) (d : dll.State)
      → Supported platform
      → (construct dll platform d).0.initialized ≡ false
      → (construct dll platform d).0.error.value ≢ 0
  unfolding construct
  broken_code posix d supported broken code = absurd (ground arith)
  broken_code (windows wsa) d supported broken code =
      elim (construct_lem dll wsa startup supported d) [
        | inl (works, fine, more) ↦ absurd (ground arith)
        | inr (broken', bad, same) ↦ ground arith
      ]
