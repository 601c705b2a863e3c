-- ===== src/Net/Benchmark/Trips/Ways.antt =====
-- One way of the connection of RoundTrips, on which only 0x5a is sent.
use cpp_core_systems.Prelude.{
  ℕ, zero, suc, ◌+◌, ◌-◌, ◌≤◌, ◌≡◌, ◌≢◌, refl, sym, ◌∙◌, ap, arith, ◌==◌, some, List, [], ◌∷◌, ◌++◌,
  length, take, drop, replicate, length-replicate, length-append, length-take, length-drop_sub,
  take-append, append_assoc, append_cancel, Bool-cases, inl, inr,
}
use cpp_core_systems.Net.SocketError.{Errors, SocketResult}
use cpp_core_systems.Net.System.{System}
use cpp_core_systems.Net.SocketHandle.{is_valid}
use cpp_core_systems.Net.SocketHelpers.Retry.{retry_inv, some-injective}
use cpp_core_systems.Net.TcpSocket.{send, receive, transfer_length}
use cpp_core_systems.Net.Transfer.Step.{IsStream}
use cpp_core_systems.Net.Transfer.Echo.{IsPipe}
use cpp_core_systems.Net.Benchmark.Stream.{replicate-plus, take-replicate}
use cpp_core_systems.Net.Benchmark.Threads.Finish.{part_equal}
use cpp_core_systems.Net.Benchmark.Trips.{store_at}

-- Only 0x5a.
abbrev pub Same : List ℕ → Type 0
Same bytes = bytes ≡ replicate (length bytes) 90

-- The last part of equal bytes.
rest_equal : (xs ys : List ℕ) (n v : ℕ) → xs ++ ys ≡ replicate n v → ys ≡ replicate (length ys) v
rest_equal [] ys n v e = e ∙ ap (λ l. replicate l v) (sym (ap length e ∙ length-replicate n v))
rest_equal (x ∷ xs) ys zero v e = absurd (cc)
rest_equal (x ∷ xs) ys (suc n) v e =
    let rest : xs ++ ys ≡ replicate n v = cc in rest_equal xs ys n v rest

-- A buffer of `size` bytes of which the first `filled` are 0x5a.
abbrev pub Filled : (size filled : ℕ) → List ℕ → Type 0
Filled size filled buffer =
    (filled ≤ size) × (length buffer ≡ size) × (take filled buffer ≡ replicate filled 90)

pub store_at-Filled :
    (size filled : ℕ) (bytes buffer : List ℕ)
    → Filled size filled buffer
    → Same bytes
    → length bytes ≤ size - filled
    → Filled size (filled + length bytes) (store_at filled bytes buffer)
unfolding store_at
store_at-Filled size filled bytes buffer (most, full, first) same room =
    let front = take filled buffer ++ bytes in
    let rest = drop (filled + length bytes) buffer in
    let all : store_at filled bytes buffer ≡ front ++ rest =
      sym (append_assoc (take filled buffer) bytes rest) in
    let size_front : length front ≡ filled + length bytes =
      omega (arith, length-append (take filled buffer) bytes, length-take filled buffer) in
    let is : front ≡ replicate (filled + length bytes) 90 =
      ap (λ us. us ++ bytes) first
      ∙ ap (λ us. replicate filled 90 ++ us) same
      ∙ replicate-plus filled (length bytes) 90 in
    (
      omega arith,
      ap length all
          ∙ omega (arith, length-append front rest, length-drop_sub (filled + length bytes) buffer),
      ap (λ k. take k (store_at filled bytes buffer)) (sym size_front)
          ∙ ap (take (length front)) all
          ∙ take-append front rest
          ∙ is,
    )

module _ (sys : System) (std : Errors) (stream : IsStream sys) where
  -- What has been taken and given since the bytes `base`.
  abbrev pub Way : (from to : ℕ) → List ℕ → sys.State → Type 0
  Way from to base s =
      (p : ℕ) × (got : List ℕ) × (stream.taken s from ≡ base ++ replicate p 90)
      × (stream.given s to ≡ base ++ got)

  pub Way-same :
      (from to : ℕ) (base : List ℕ) (s t : sys.State)
      → Way from to base s
      → stream.taken t from ≡ stream.taken s from
      → stream.given t to ≡ stream.given s to
      → Way from to base t
  Way-same from to base s t (p, got, taken, given) same same' =
      (p, got, same ∙ taken, same' ∙ given)

  pub Way-sent :
      (from to : ℕ) (base bytes : List ℕ) (count : ℕ) (s t : sys.State)
      → Way from to base s
      → Same bytes
      → count ≤ length bytes
      → stream.taken t from ≡ stream.taken s from ++ take count bytes
      → stream.given t to ≡ stream.given s to
      → Way from to base t
  Way-sent from to base bytes count s t (p, got, taken, given) all most more same = (
    p + count,
    got,
    more
        ∙ ap (λ us. us ++ take count bytes) taken
        ∙ ap (λ us. (base ++ replicate p 90) ++ take count us) all
        ∙ ap (λ us. (base ++ replicate p 90) ++ us) (take-replicate count (length bytes) 90 most)
        ∙ append_assoc base (replicate p 90) (replicate count 90)
        ∙ ap (λ us. base ++ us) (replicate-plus p count 90),
    same ∙ given,
  )

  pub Way-received :
      (from to : ℕ) (base bytes : List ℕ) (s t : sys.State)
      → IsPipe sys stream from to
      → Way from to base s
      → stream.taken t from ≡ stream.taken s from
      → stream.given t to ≡ stream.given s to ++ bytes
      → Way from to base t × Same bytes
  Way-received from to base bytes s t pipe (p, got, taken, given) same more =
      let all : stream.given t to ≡ base ++ (got ++ bytes) =
        more ∙ ap (λ us. us ++ bytes) given ∙ append_assoc base got bytes in
      let (rest, order) = pipe t in
      let whole : (got ++ bytes) ++ rest ≡ replicate p 90 =
        append_cancel base ((got ++ bytes) ++ rest) (replicate p 90) (
          sym (append_assoc base (got ++ bytes) rest)
          ∙ ap (λ us. us ++ rest) (sym all)
          ∙ sym order
          ∙ same
          ∙ taken) in
      let (few, equal) = part_equal (got ++ bytes) rest p 90 whole in
      ((p, got ++ bytes, same ∙ taken, all), rest_equal got bytes (length (got ++ bytes)) 90 equal)

  -- Send takes from its own descriptor only, and Receive gives to its own only.
  pub send_others :
      (fuel this : ℕ) (buffer : List ℕ) (s : sys.State) (d : ℕ)
      → d ≢ this
      → (r : SocketResult ℕ × sys.State) → send sys std fuel this buffer s ≡ some r
      → stream.taken r.1 d ≡ stream.taken s d
  unfolding send
  send_others fuel this buffer s d other r e = elim (Bool-cases (is_valid this)) [
    | inr free ↦ ap (λ q. stream.taken q.1 d) (sym (some-injective _ r (rw free at e)))
    | inl held ↦ elim (Bool-cases (length buffer == 0)) [
      | inl empty ↦ ap (λ q. stream.taken q.1 d) (sym (some-injective _ r (rw (held, empty) at e)))
      | inr full ↦
          let n = transfer_length (length buffer) in
          let next : (t : sys.State)
              → stream.taken t d ≡ stream.taken s d
              → stream.taken (sys.send this buffer n t).1 d ≡ stream.taken s d =
            λ t same. stream.send_takes_here this buffer n t d other ∙ same in
          retry_inv sys std (sys.send this buffer n) (λ t. stream.taken t d ≡ stream.taken s d)
            (λ q. stream.taken q.1 d ≡ stream.taken s d) fuel s refl
            (λ t same no_count. next t same) (λ t same no_count. next t same)
            (λ t count same some_count. next t same) r (rw (held, full) at e)
    ]
  ]

  pub receive_others :
      (fuel this size : ℕ) (s : sys.State) (d : ℕ)
      → d ≢ this
      → (r : SocketResult (List ℕ) × sys.State) → receive sys std fuel this size s ≡ some r
      → stream.given r.1 d ≡ stream.given s d
  unfolding receive
  receive_others fuel this size s d other r e = elim (Bool-cases (is_valid this)) [
    | inr free ↦ ap (λ q. stream.given q.1 d) (sym (some-injective _ r (rw free at e)))
    | inl held ↦ elim (Bool-cases (size == 0)) [
      | inl empty ↦ ap (λ q. stream.given q.1 d) (sym (some-injective _ r (rw (held, empty) at e)))
      | inr full ↦
          let n = transfer_length size in
          let next : (t : sys.State)
              → stream.given t d ≡ stream.given s d
              → stream.given (sys.recv this n t).1 d ≡ stream.given s d =
            λ t same. stream.recv_gives_here this n t d other ∙ same in
          retry_inv sys std (sys.recv this n) (λ t. stream.given t d ≡ stream.given s d)
            (λ q. stream.given q.1 d ≡ stream.given s d) fuel s refl
            (λ t same no_bytes. next t same) (λ t same no_bytes. next t same)
            (λ t bytes same some_bytes. next t same) r (rw (held, full) at e)
    ]
  ]
