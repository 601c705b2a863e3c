-- ===== src/Net/IpAddress/Valid.antt =====
-- The class invariant of include/net/ip_address.hpp, and the factory functions.
use cpp_core_systems.Prelude.{
  ℕ, ℕ_discrete, ◌+◌, ◌<◌, ◌≡◌, refl, ◌⊎◌, inl, inr, ◌∙◌, ap, subst, false, none, some, List, [],
  ◌∷◌, ◌++◌, arith, length, length-append, length-take, take-append-drop, take-all, append-nil,
  take, drop, take-append, drop-append, replicate, All, All-append, All-take, ◌==◌,
}
use cpp_core_systems.Net.IpAddress.{
  IpVersion, ipv4, ipv6, outside, IpAddress, blank, overwrite, from_bytes, loopback, any,
  span_bytes, byte_count,
}

abbrev pub IsByte : ℕ → Type 0
IsByte x = x < 256

-- The bytes behind an IPv4 address are zero, and no address has a version from outside.
abbrev pub Padded : IpVersion → List ℕ → Type 0
Padded ipv4 bytes = drop 4 bytes ≡ replicate 12 0
Padded ipv6 bytes = Unit {0}
Padded (outside n) bytes = ⊥

pub record IsValid (a : IpAddress) : Type 0 where
  pub sixteen : length a.bytes ≡ 16
  pub in_range : All IsByte a.bytes
  pub padded : Padded a.version a.bytes

-- What a version's addresses hold.
abbrev pub Fits : IpVersion → List ℕ → Type 0
Fits ipv4 bytes = length bytes ≡ 4
Fits ipv6 bytes = length bytes ≡ 16
Fits (outside n) bytes = ⊥

abbrev pub padded_bytes : IpVersion → List ℕ → List ℕ
padded_bytes ipv4 bytes = bytes ++ replicate 12 0
padded_bytes _ bytes = bytes ++ []

abbrev pub made : IpVersion → List ℕ → IpAddress
made v bytes = record { version = v; bytes = padded_bytes v bytes }

pub overwrite-made :
    (v : IpVersion) (bytes : List ℕ)
    → Fits v bytes
    → record { version = v; bytes = overwrite bytes blank.bytes } ≡ made v bytes
overwrite-made ipv4 bytes e = rw e
overwrite-made ipv6 bytes e = rw e
overwrite-made (outside n) bytes e = absurd e

from_bytes-some :
    (bytes : List ℕ) (v : IpVersion) → Fits v bytes → from_bytes bytes v ≡ some (made v bytes)
unfolding from_bytes
from_bytes-some bytes ipv4 e = rw e
from_bytes-some bytes ipv6 e = rw e
from_bytes-some bytes (outside n) e = absurd e

from_bytes-none : (bytes : List ℕ) (v : IpVersion) → ¬ Fits v bytes → from_bytes bytes v ≡ none
unfolding from_bytes
from_bytes-none bytes ipv4 e = ground arith
from_bytes-none bytes ipv6 e = ground arith
from_bytes-none bytes (outside n) e = ground arith

Fits-dec : (v : IpVersion) (bytes : List ℕ) → Fits v bytes ⊎ (¬ Fits v bytes)
Fits-dec ipv4 bytes = elim (ℕ_discrete (length bytes) 4) [ yes e ↦ inl e | no n ↦ inr n ]
Fits-dec ipv6 bytes = elim (ℕ_discrete (length bytes) 16) [ yes e ↦ inl e | no n ↦ inr n ]
Fits-dec (outside n) bytes = inr (λ h. h)

pub span-made : (v : IpVersion) (bytes : List ℕ) → Fits v bytes → span_bytes (made v bytes) ≡ bytes
unfolding span_bytes
span-made ipv4 bytes e =
    subst (λ n. take n (bytes ++ replicate 12 0) ≡ bytes) e (take-append bytes _)
span-made ipv6 bytes e = subst (λ n. take n (bytes ++ []) ≡ bytes) e (take-append bytes _)
span-made (outside n) bytes e = absurd e

pub made-IsValid :
    (v : IpVersion) (bytes : List ℕ) → Fits v bytes → All IsByte bytes → IsValid (made v bytes)
made-IsValid ipv4 bytes e b = record {
  sixteen = omega (arith, length-append bytes (replicate 12 0));
  in_range = All-append IsByte bytes (replicate 12 0) b (omega arith);
  padded = subst (λ n. drop n (bytes ++ replicate 12 0) ≡ replicate 12 0) e (drop-append bytes _);
}
made-IsValid ipv6 bytes e b = record {
  sixteen = omega (arith, length-append bytes []);
  in_range = All-append IsByte bytes [] b tt;
  padded = tt;
}
made-IsValid (outside n) bytes e b = absurd e

-- For a sequence of bytes, FromBytes fails exactly where the version is neither IPv4 nor IPv6 or
-- the number of bytes is not that of the version; where it succeeds, the address is valid, has that
-- version and shows those bytes.
pub from_bytes_lem :
    (bytes : List ℕ) (v : IpVersion)
    → All IsByte bytes
    → ((from_bytes bytes v ≡ none) × (¬ Fits v bytes))
      ⊎ ((a : IpAddress) × (from_bytes bytes v ≡ some a)
          × Fits v bytes
          × IsValid a
          × (a.version ≡ v)
          × (span_bytes a ≡ bytes))
from_bytes_lem bytes v b = elim (Fits-dec v bytes) [
  | inl fits ↦ inr (
    made v bytes,
    from_bytes-some bytes v fits,
    fits,
    made-IsValid v bytes fits b,
    refl,
    span-made v bytes fits,
  )
  | inr not_fits ↦ inl (from_bytes-none bytes v not_fits, not_fits)
]

-- The invariant determines the padding, so an address is what its version and its span say.
pub made-span :
    (a : IpAddress)
    → IsValid a
    → Fits a.version (span_bytes a) × (made a.version (span_bytes a) ≡ a)
unfolding span_bytes
made-span a v = split a.version a.bytes v.sixteen v.padded
  where
    split :
        (w : IpVersion) (bytes : List ℕ)
        → length bytes ≡ 16
        → Padded w bytes
        → let span = take (byte_count (record { version = w; bytes = bytes })) bytes in
          Fits w span × (made w span ≡ record { version = w; bytes = bytes })
    split ipv4 bytes n p = (
      omega (arith, length-take 4 bytes),
      ap (λ bs. record { version = ipv4; bytes = bs }) (rw (← p) (take-append-drop 4 bytes)),
    )
    split ipv6 bytes n p = (
      omega (arith, length-take 16 bytes),
      ap (λ bs. record { version = ipv6; bytes = bs })
          (append-nil (take 16 bytes) ∙ take-all 16 bytes (omega arith)),
    )
    split (outside n) bytes e p = absurd p

-- FromBytes of the bytes and the version of a valid address is that address.
pub from_bytes-span : (a : IpAddress) → IsValid a → from_bytes (span_bytes a) a.version ≡ some a
from_bytes-span a v =
    let (fits, e) = made-span a v in from_bytes-some (span_bytes a) a.version fits ∙ ap some e

-- 127.0.0.1, and ::1 for every other version.
abbrev pub loopback_span : IpVersion → List ℕ
loopback_span ipv4 = 127 ∷ 0 ∷ 0 ∷ 1 ∷ []
loopback_span _ = replicate 15 0 ++ (1 ∷ [])

-- 0.0.0.0, and :: for every other version.
abbrev pub any_span : IpVersion → List ℕ
any_span ipv4 = replicate 4 0
any_span _ = replicate 16 0

abbrev pub IsSpecial : IpAddress → IpAddress → IpVersion → Type 0
IsSpecial l a v =
    IsValid l
    × IsValid a
    × (l.version ≡ a.version)
    × (span_bytes l ≡ loopback_span v)
    × (span_bytes a ≡ any_span v)

-- Loopback and Any give valid addresses of the same version for every version, one cast from
-- outside the enumeration included; their bytes are 127.0.0.1 and 0.0.0.0 for IPv4, and ::1 and ::
-- for everything else.
pub loopback_any_lem : (v : IpVersion) → IsSpecial (loopback v) (any v) v
unfolding any loopback span_bytes
loopback_any_lem ipv4 = (
  record { sixteen = refl; in_range = omega arith; padded = refl },
  record { sixteen = refl; in_range = omega arith; padded = refl },
  refl,
  refl,
  refl,
)
loopback_any_lem ipv6 = (
  record { sixteen = refl; in_range = omega arith; padded = tt },
  record { sixteen = refl; in_range = omega arith; padded = tt },
  refl,
  refl,
  refl,
)
loopback_any_lem (outside n) = rw outside_ne (
  record { sixteen = refl; in_range = omega arith; padded = tt },
  record { sixteen = refl; in_range = omega arith; padded = tt },
  refl,
  refl,
  refl,
)
  where
    outside_ne : (n + 2 == 0) ≡ false
    outside_ne = ground arith

pub span-IsByte : (a : IpAddress) → IsValid a → All IsByte (span_bytes a)
unfolding span_bytes
span-IsByte a v = All-take IsByte (byte_count a) a.bytes v.in_range
