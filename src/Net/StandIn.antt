-- ===== src/Net/StandIn.antt =====
-- A stand-in for inet_pton and inet_ntop that the tests run on: an IPv4 address is written as three
-- decimal digits a byte, an IPv6 address as two hexadecimal digits a byte.
use cpp_core_systems.Prelude.{
  ℕ, ◌+◌, ◌-◌, ◌*◌, ◌/◌, ◌%◌, ◌<◌, ◌≡◌, refl, inl, inr, ap, ap₂, subst, ◌≢◌, ◌&&◌, Option, none,
  some, List, [], ◌∷◌, arith, length, All, ◌==◌, ltb, if◌then◌else◌, Bool-cases,
}
use cpp_core_systems.Net.IpAddress.{Inet}
use cpp_core_systems.Net.IpAddress.Valid.{IsByte}
use cpp_core_systems.Net.IpAddress.Print.{IsInet, IsDigitOrDot, IsHexColonDot}

abbrev print_decimal : List ℕ → List ℕ
print_decimal [] = []
print_decimal (x ∷ xs) = (48 + x / 100) ∷ (48 + x / 10 % 10) ∷ (48 + x % 10) ∷ print_decimal xs

abbrev read_decimal : List ℕ → List ℕ
read_decimal (a ∷ b ∷ c ∷ s) = (((a - 48) * 100 + (b - 48) * 10 + (c - 48)) % 256) ∷ read_decimal s
read_decimal _ = []

abbrev hex_digit : ℕ → ℕ
hex_digit n = if ltb n 10 then 48 + n else 87 + n

abbrev hex_value : ℕ → ℕ
hex_value c = if ltb c 58 then c - 48 else c - 87

abbrev print_hex : List ℕ → List ℕ
print_hex [] = []
print_hex (x ∷ xs) = hex_digit (x / 16) ∷ hex_digit (x % 16) ∷ print_hex xs

abbrev read_hex : List ℕ → List ℕ
read_hex (a ∷ b ∷ s) = ((hex_value a * 16 + hex_value b) % 256) ∷ read_hex s
read_hex _ = []

-- A text of `n` characters that stands for `k` bytes.
abbrev sized : ℕ → ℕ → List ℕ → List ℕ → Option (List ℕ)
sized n k s bs = if (length s == n) && (length bs == k) then some bs else none

abbrev pub stand_in : Inet
stand_in = record {
  pton4 = λ s. sized 12 4 s (read_decimal s);
  pton6 = λ s. sized 32 16 s (read_hex s);
  ntop4 = λ bytes. some (print_decimal bytes);
  ntop6 = λ bytes. some (print_hex bytes);
}

read_decimal-IsByte : (s : List ℕ) → All IsByte (read_decimal s)
read_decimal-IsByte [] = tt
read_decimal-IsByte (a ∷ []) = tt
read_decimal-IsByte (a ∷ b ∷ []) = tt
read_decimal-IsByte (a ∷ b ∷ c ∷ s) = (omega arith, read_decimal-IsByte s)

read_hex-IsByte : (s : List ℕ) → All IsByte (read_hex s)
read_hex-IsByte [] = tt
read_hex-IsByte (a ∷ []) = tt
read_hex-IsByte (a ∷ b ∷ s) = (omega arith, read_hex-IsByte s)

decimal_back :
    (x : ℕ)
    → IsByte x
    → (((48 + x / 100) - 48) * 100 + ((48 + x / 10 % 10) - 48) * 10 + ((48 + x % 10) - 48)) % 256
      ≡ x
decimal_back x b = omega arith

hex_back : (n : ℕ) → n < 16 → hex_value (hex_digit n) ≡ n
hex_back n b = ground arith

hex_pair :
    (x : ℕ)
    → IsByte x
    → (hex_value (hex_digit (x / 16)) * 16 + hex_value (hex_digit (x % 16))) % 256 ≡ x
hex_pair x b = rw (hex_back (x / 16) (omega arith), hex_back (x % 16) (omega arith)) (omega arith)

read-print_decimal : (xs : List ℕ) → All IsByte xs → read_decimal (print_decimal xs) ≡ xs
read-print_decimal [] b = refl
read-print_decimal (x ∷ xs) (b, bs) =
    ap₂ (λ v vs. v ∷ vs) (decimal_back x b) (read-print_decimal xs bs)

read-print_hex : (xs : List ℕ) → All IsByte xs → read_hex (print_hex xs) ≡ xs
read-print_hex [] b = refl
read-print_hex (x ∷ xs) (b, bs) = ap₂ (λ v vs. v ∷ vs) (hex_pair x b) (read-print_hex xs bs)

length-print_decimal : (xs : List ℕ) → length (print_decimal xs) ≡ 3 * length xs
length-print_decimal [] = refl
length-print_decimal (x ∷ xs) = omega (arith, length-print_decimal xs)

length-print_hex : (xs : List ℕ) → length (print_hex xs) ≡ 2 * length xs
length-print_hex [] = refl
length-print_hex (x ∷ xs) = omega (arith, length-print_hex xs)

print_decimal-form : (xs : List ℕ) → All IsByte xs → All IsDigitOrDot (print_decimal xs)
print_decimal-form [] b = tt
print_decimal-form (x ∷ xs) (b, bs) =
    (inr (omega arith), (inr (omega arith), (inr (omega arith), print_decimal-form xs bs)))

hex_digit-form : (n : ℕ) → n < 16 → IsHexColonDot (hex_digit n)
hex_digit-form n b = elim (Bool-cases (ltb n 10)) [
  | inl low ↦ rw low (inr (inl (inr (ground arith))))
  | inr high ↦ rw high (inr (inr (ground arith)))
]

print_hex-form : (xs : List ℕ) → All IsByte xs → All IsHexColonDot (print_hex xs)
print_hex-form [] b = tt
print_hex-form (x ∷ xs) (b, bs) = (
  hex_digit-form (x / 16) (omega arith),
  (hex_digit-form (x % 16) (omega arith), print_hex-form xs bs),
)

sized_inv :
    (n k : ℕ) (s bs bytes : List ℕ)
    → sized n k s bs ≡ some bytes
    → All IsByte bs
    → (length bytes ≡ k) × All IsByte bytes
sized_inv n k s bs bytes e b =
    let both : (length bs ≡ k) × (bs ≡ bytes) = ground arith in
    (omega (arith, ap length both.1), subst (All IsByte) both.1 b)

sized-some :
    (n k : ℕ) (s bs bytes : List ℕ)
    → bs ≡ bytes
    → length s ≡ n
    → length bytes ≡ k
    → sized n k s bs ≡ some bytes
sized-some n k s bs bytes e l m = rw e (ground arith)

sized-none : (n k : ℕ) (s bs : List ℕ) → length s ≢ n → sized n k s bs ≡ none
sized-none n k s bs ne = ground arith

pub stand_in-IsInet : IsInet stand_in
stand_in-IsInet = record {
  pton4_bytes = λ s bytes e. sized_inv 12 4 s (read_decimal s) bytes e (read_decimal-IsByte s);
  pton6_bytes = λ s bytes e. sized_inv 32 16 s (read_hex s) bytes e (read_hex-IsByte s);
  ntop4_text = λ bytes n b. (
    print_decimal bytes,
    refl,
    sized-some 12 4 (print_decimal bytes) (read_decimal (print_decimal bytes)) bytes
        (read-print_decimal bytes b) (omega (arith, length-print_decimal bytes)) n,
    omega (arith, length-print_decimal bytes),
    omega (arith, length-print_decimal bytes),
    print_decimal-form bytes b,
  );
  ntop6_text = λ bytes n b. (
    print_hex bytes,
    refl,
    sized-some 32 16 (print_hex bytes) (read_hex (print_hex bytes)) bytes (read-print_hex bytes b)
        (omega (arith, length-print_hex bytes)) n,
    sized-none 12 4 (print_hex bytes) (read_decimal (print_hex bytes))
        (omega (arith, length-print_hex bytes)),
    omega (arith, length-print_hex bytes),
    omega (arith, length-print_hex bytes),
    print_hex-form bytes b,
  );
}
