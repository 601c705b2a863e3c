-- ===== src/Net/Text.antt =====
-- The parts of <string_view> and <charconv> that the parsers use, over lists of char codes:
-- find, rfind, substr, std::to_string and std::from_chars of unsigned integers in base ten.
pub mod Find
pub mod Decimal
use cpp_core_systems.Prelude.{
  ℕ, zero, suc, ◌+◌, ◌-◌, ◌*◌, ◌/◌, ◌%◌, Bool, true, false, ◌&&◌, Option, none, some, List, [], ◌∷◌,
  ◌++◌, ◌==◌, ltb, leb, if◌then◌else◌, take, drop,
}

-- `none` is npos.
unfoldable pub find : ℕ → List ℕ → Option ℕ
find c [] = none
find c (x ∷ xs) =
    let rest = find c xs in
    if x == c then some 0 else elim rest [ none ↦ none | some i ↦ some (suc i) ]

unfoldable pub rfind : ℕ → List ℕ → Option ℕ
rfind c [] = none
rfind c (x ∷ xs) = elim (rfind c xs) [
  | none ↦ if x == c then some 0 else none
  | some i ↦ some (suc i)
]

abbrev pub substr : List ℕ → ℕ → ℕ → List ℕ
substr s pos count = take count (drop pos s)

abbrev pub is_digit : ℕ → Bool
is_digit c = leb b'0' c && leb c b'9'

-- std::to_string; `k` bounds the number of digits.
unfoldable pub digits : ℕ → ℕ → List ℕ
digits zero n = []
digits (suc k) n =
    let rest = digits k (n / 10) in
    if ltb n 10 then (n + b'0') ∷ [] else rest ++ ((n % 10 + b'0') ∷ [])

unfoldable pub decimal : ℕ → List ℕ
unfolding digits
decimal n = digits (suc n) n

-- The longest prefix of digits, as a number behind `acc`, whether there was one, and the rest.
unfoldable pub scan : ℕ → List ℕ → ℕ × List ℕ
scan acc [] = (acc, [])
scan acc (c ∷ s) =
    let rest = scan (acc * 10 + (c - b'0')) s in if is_digit c then rest else (acc, c ∷ s)

-- std::from_chars into an unsigned type of values up to `limit`: the value and where it stopped,
-- or `none` where `ec` is set (no digit, or out of range).
unfoldable pub from_chars : ℕ → List ℕ → Option (ℕ × List ℕ)
unfolding scan
from_chars limit [] = none
from_chars limit (c ∷ s) =
    let (v, rest) = scan 0 (c ∷ s) in if is_digit c && leb v limit then some (v, rest) else none

-- from_chars over a whole view: `ec != std::errc{} || ptr != end` is a failure.
unfoldable pub parse_number : ℕ → List ℕ → Option ℕ
unfolding from_chars
parse_number limit s = elim (from_chars limit s) [
  | none ↦ none
  | some (v, rest) ↦ elim rest [ [] ↦ some v | _ ∷ _ ↦ none ]
]
