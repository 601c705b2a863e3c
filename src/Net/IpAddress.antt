-- ===== src/Net/IpAddress.antt =====
-- include/net/ip_address.hpp, over bytes as numbers and a 64-bit std::size_t. inet_pton and
-- inet_ntop are the fields of `Inet`.
pub mod Valid
pub mod Order
pub mod Print
pub mod Tests
use Prim.Native.Nat.{bit_xor, compare, Ordering}
use cpp_core_systems.Prelude.{
  ℕ, zero, suc, ◌+◌, ◌*◌, ◌%◌, ◌^◌, ◌≡◌, ◌≢◌, ◌<◌, ◌≤◌, Bool, true, false, not, ◌&&◌, ◌||◌, Option,
  none, some, List, [], ◌∷◌, ◌++◌, ◌==◌, ltb, leb, if◌then◌else◌, length, take, drop, replicate,
  set, All,
}
use cpp_core_systems.Net.Text.{find}

-- The enumerators, and the values that a cast from outside can give.
pub data IpVersion : Type 0 where
  ipv4 : IpVersion
  ipv6 : IpVersion
  outside : ℕ → IpVersion

-- The underlying value.
abbrev pub version_value : IpVersion → ℕ
version_value ipv4 = 0
version_value ipv6 = 1
version_value (outside n) = n + 2

abbrev pub same_version : IpVersion → IpVersion → Bool
same_version v w = version_value v == version_value w

pub record IpAddress : Type 0 where
  pub version : IpVersion
  pub bytes : List ℕ

abbrev pub ipv4_byte_count : ℕ
ipv4_byte_count = 4

abbrev pub ipv6_byte_count : ℕ
ipv6_byte_count = 16

-- IPAddress(), which is private.
abbrev pub blank : IpAddress
blank = record { version = ipv4; bytes = replicate ipv6_byte_count 0 }

-- std::copy and std::memcpy of `bytes` to the front of the array.
abbrev pub overwrite : List ℕ → List ℕ → List ℕ
overwrite bytes into = bytes ++ drop (length bytes) into

unfoldable pub from_bytes : List ℕ → IpVersion → Option IpAddress
from_bytes bytes version =
    if not (same_version version ipv4) && not (same_version version ipv6)
    then none
    else if not
        (length bytes == (if same_version version ipv4 then ipv4_byte_count else ipv6_byte_count))
    then none
    else some (record { version = version; bytes = overwrite bytes blank.bytes })

-- inet_pton for each family, from text to bytes in network order, and inet_ntop back.
pub record Inet : Type 0 where
  pub pton4 : List ℕ → Option (List ℕ)
  pub pton6 : List ℕ → Option (List ℕ)
  pub ntop4 : List ℕ → Option (List ℕ)
  pub ntop6 : List ℕ → Option (List ℕ)

abbrev pub inet6_addrstrlen : ℕ
inet6_addrstrlen = 46

unfoldable pub is_npos : Option ℕ → Bool
is_npos none = true
is_npos (some i) = false

unfoldable pub parse : Inet → List ℕ → Option IpAddress
unfolding is_npos
parse net address =
    if length address == 0 || leb inet6_addrstrlen (length address)
    then none
    else if not (is_npos (find 0 address))
    then none
    else elim (net.pton4 address) [
      | some ipv4_bytes ↦ some (record { version = ipv4; bytes = overwrite ipv4_bytes blank.bytes })
      | none ↦ elim (net.pton6 address) [
        | some ipv6_bytes ↦
            some (record { version = ipv6; bytes = overwrite ipv6_bytes blank.bytes })
        | none ↦ none
      ]
    ]

unfoldable pub loopback : IpVersion → IpAddress
loopback version =
    if same_version version ipv4
    then record { version = ipv4; bytes = set (set blank.bytes 0 127) 3 1 }
    else record { version = ipv6; bytes = set blank.bytes 15 1 }

unfoldable pub any : IpVersion → IpAddress
any version = record {
  version = if same_version version ipv4 then ipv4 else ipv6;
  bytes = blank.bytes;
}

abbrev pub byte_count : IpAddress → ℕ
byte_count a = if same_version a.version ipv4 then ipv4_byte_count else ipv6_byte_count

unfoldable pub span_bytes : IpAddress → List ℕ
span_bytes a = take (byte_count a) a.bytes

-- inet_ntop reads as many bytes as the family has; a failure gives the empty string.
unfoldable pub to_string : Inet → IpAddress → List ℕ
to_string net a =
    let text =
      if same_version a.version ipv4
      then net.ntop4 (take ipv4_byte_count a.bytes)
      else net.ntop6 (take ipv6_byte_count a.bytes) in
    elim text [ none ↦ [] | some s ↦ s ]

-- std::equal over the first `n` bytes.
abbrev pub equal_bytes : ℕ → List ℕ → List ℕ → Bool
equal_bytes zero xs ys = true
equal_bytes (suc n) (x ∷ xs) (y ∷ ys) = (x == y) && equal_bytes n xs ys
equal_bytes (suc n) xs ys = false

unfoldable pub equal : IpAddress → IpAddress → Bool
equal a b =
    if not (same_version a.version b.version)
    then false
    else equal_bytes (byte_count a) a.bytes b.bytes

-- std::lexicographical_compare_three_way.
abbrev pub compare_lists : List ℕ → List ℕ → Ordering
compare_lists [] [] = Ordering.eq
compare_lists [] (y ∷ ys) = Ordering.lt
compare_lists (x ∷ xs) [] = Ordering.gt
compare_lists (x ∷ xs) (y ∷ ys) = elim (compare x y) [
  | Ordering.eq ↦ compare_lists xs ys
  | Ordering.lt ↦ Ordering.lt
  | Ordering.gt ↦ Ordering.gt
]

-- operator<=>.
unfoldable pub three_way : IpAddress → IpAddress → Ordering
three_way a b = elim (compare (version_value a.version) (version_value b.version)) [
  | Ordering.lt ↦ Ordering.lt
  | Ordering.gt ↦ Ordering.gt
  | Ordering.eq ↦ compare_lists (take (byte_count a) a.bytes) (take (byte_count b) b.bytes)
]

abbrev pub hash_offset : ℕ
hash_offset = 14695981039346656037

abbrev pub hash_prime : ℕ
hash_prime = 1099511628211

-- hash ^= x; hash *= prime;
abbrev pub hash_step : ℕ → ℕ → ℕ
hash_step hash x = (bit_xor hash x * hash_prime) % 2 ^ 64

abbrev pub hash_bytes : ℕ → List ℕ → ℕ
hash_bytes hash [] = hash
hash_bytes hash (x ∷ xs) = hash_bytes (hash_step hash x) xs

unfoldable pub hash : IpAddress → ℕ
hash a = hash_bytes (hash_step hash_offset (version_value a.version)) (take (byte_count a) a.bytes)
