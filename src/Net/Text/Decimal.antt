-- ===== src/Net/Text/Decimal.antt =====
-- std::to_string and std::from_chars of a number.
use cpp_core_systems.Prelude.{
  ℕ, zero, suc, ◌+◌, ◌-◌, ◌*◌, ◌/◌, ◌%◌, ◌<◌, ◌≤◌, ◌≡◌, refl, some, List, [], ◌∷◌, ◌++◌, arith, All,
  All-append, ltb, ltb→lt, Bool-cases, length, inl, inr, subst, ap, ◌∙◌, if◌then◌else◌,
}
use cpp_core_systems.Net.Text.{digits, decimal, scan, parse_number}

abbrev pub IsDigits : List ℕ → Type 0
IsDigits = All (λ c. (b'0' ≤ c) × (c ≤ b'9'))

-- The number that digits stand for, behind `acc`.
value : ℕ → List ℕ → ℕ
value acc [] = acc
value acc (c ∷ s) = value (acc * 10 + (c - b'0')) s

value-snoc :
    (acc : ℕ) (s : List ℕ) (c : ℕ) → value acc (s ++ (c ∷ [])) ≡ value acc s * 10 + (c - b'0')
unfolding value
value-snoc acc [] c = refl
value-snoc acc (x ∷ s) c = value-snoc (acc * 10 + (x - b'0')) s c

scan-digits : (acc : ℕ) (s : List ℕ) → IsDigits s → scan acc s ≡ (value acc s, [])
unfolding scan value
scan-digits acc [] h = refl
scan-digits acc (c ∷ s) h = ground (arith, scan-digits (acc * 10 + (c - b'0')) s h.1)

digits-IsDigits : (k n : ℕ) → IsDigits (digits k n)
unfolding digits
digits-IsDigits zero n = tt
digits-IsDigits (suc k) n = elim (Bool-cases (ltb n 10)) [
  | inl small ↦ let below = ltb→lt n 10 small in rw small ((omega arith, omega arith), tt)
  | inr big ↦ rw big (
      All-append _ (digits k (n / 10)) _ (digits-IsDigits k (n / 10))
        ((omega arith, omega arith), tt))
]

value-digits : (k n : ℕ) → n < k → value 0 (digits k n) ≡ n
unfolding digits value
value-digits zero n h = absurd (omega arith)
value-digits (suc k) n h = elim (Bool-cases (ltb n 10)) [
  | inl small ↦ rw small (omega arith)
  | inr big ↦
      let above : 10 ≤ n = ground arith in
      rw (big, value-snoc 0 (digits k (n / 10)) (n % 10 + b'0'))
        (omega (arith, value-digits k (n / 10) (omega arith)))
]

-- At least one digit.
digits-cons : (k n : ℕ) → (c : ℕ) × (s : List ℕ) × (digits (suc k) n ≡ c ∷ s)
unfolding digits
digits-cons k n = elim (Bool-cases (ltb n 10)) [
  | inl small ↦ (n + b'0', [], rw small)
  | inr big ↦
      cons-append (digits k (n / 10)) (n % 10 + b'0')
        (if ltb n 10 then (n + b'0') ∷ [] else digits k (n / 10) ++ ((n % 10 + b'0') ∷ [])) (rw big)
]
  where
    cons-append :
        (s : List ℕ) (d : ℕ) (t : List ℕ) → t ≡ s ++ (d ∷ []) → (c : ℕ) × (r : List ℕ) × (t ≡ c ∷ r)
    cons-append [] d t e = (d, [], e)
    cons-append (x ∷ s) d t e = (x, s ++ (d ∷ []), e)

parse_number-digits :
    (limit : ℕ) (c : ℕ) (s : List ℕ)
    → IsDigits (c ∷ s)
    → value 0 (c ∷ s) ≤ limit
    → parse_number limit (c ∷ s) ≡ some (value 0 (c ∷ s))
unfolding parse_number value
parse_number-digits limit c s h bound = ground (arith, h.0, scan-digits (0 * 10 + (c - b'0')) s h.1)

-- Every number up to the limit is read back from its decimal form.
pub parse_number-decimal : (limit n : ℕ) → n ≤ limit → parse_number limit (decimal n) ≡ some n
unfolding decimal
parse_number-decimal limit n bound =
    let (c, s, e) = digits-cons n n in
    let is = subst IsDigits e (digits-IsDigits (suc n) n) in
    let v : value 0 (c ∷ s) ≡ n =
      subst (λ t. value 0 t ≡ n) e (value-digits (suc n) n (omega arith)) in
    rw e (parse_number-digits limit c s is (omega (arith, v)) ∙ ap some v)

pub decimal-IsDigits : (n : ℕ) → IsDigits (decimal n)
unfolding decimal
decimal-IsDigits n = digits-IsDigits (suc n) n

pub decimal-pos : (n : ℕ) → 0 < length (decimal n)
unfolding decimal
decimal-pos n = let (c, s, e) = digits-cons n n in omega (arith, ap length e)

-- What from_chars reads is in range.
pub parse_number-le : (limit : ℕ) (s : List ℕ) (v : ℕ) → parse_number limit s ≡ some v → v ≤ limit
unfolding parse_number
parse_number-le limit [] v h = cc
parse_number-le limit (c ∷ s) v h = ground arith
