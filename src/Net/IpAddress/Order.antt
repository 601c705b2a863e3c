-- ===== src/Net/IpAddress/Order.antt =====
-- operator==, operator<=> and Hash.
use Prim.Native.Nat.{Ordering}
use cpp_core_systems.Prelude.{
  ℕ, zero, suc, ◌≤◌, ◌≡◌, refl, ◌↔◌, ◌∙◌, sym, ap, ap₂, true, List, [], ◌∷◌, arith, length, take,
}
use cpp_core_systems.Net.IpAddress.{
  IpVersion, ipv4, ipv6, outside, version_value, IpAddress, byte_count, equal_bytes, equal,
  compare_lists, three_way, hash, span_bytes,
}
use cpp_core_systems.Net.IpAddress.Valid.{IsValid, made-span, made}

abbrev pub opposite : Ordering → Ordering
opposite Ordering.lt = Ordering.gt
opposite Ordering.eq = Ordering.eq
opposite Ordering.gt = Ordering.lt

-- Lists compared from the left.
pub compare_lists-opposite : (xs ys : List ℕ) → compare_lists ys xs ≡ opposite (compare_lists xs ys)
compare_lists-opposite [] [] = refl
compare_lists-opposite [] (y ∷ ys) = refl
compare_lists-opposite (x ∷ xs) [] = refl
compare_lists-opposite (x ∷ xs) (y ∷ ys) = ground (arith, compare_lists-opposite xs ys)

pub compare_lists-eq : (xs ys : List ℕ) → (compare_lists xs ys ≡ Ordering.eq) ↔ (xs ≡ ys)
compare_lists-eq [] [] = (λ e. refl, λ e. refl)
compare_lists-eq [] (y ∷ ys) = (λ e. cc, λ e. cc)
compare_lists-eq (x ∷ xs) [] = (λ e. cc, λ e. cc)
compare_lists-eq (x ∷ xs) (y ∷ ys) = ground (arith, compare_lists-eq xs ys)

pub compare_lists_trans :
    (xs ys zs : List ℕ)
    → compare_lists xs ys ≡ Ordering.lt
    → compare_lists ys zs ≡ Ordering.lt
    → compare_lists xs zs ≡ Ordering.lt
compare_lists_trans [] [] zs h k = cc
compare_lists_trans [] (y ∷ ys) [] h k = cc
compare_lists_trans [] (y ∷ ys) (z ∷ zs) h k = refl
compare_lists_trans (x ∷ xs) [] zs h k = cc
compare_lists_trans (x ∷ xs) (y ∷ ys) [] h k = cc
compare_lists_trans (x ∷ xs) (y ∷ ys) (z ∷ zs) h k = ground (arith, compare_lists_trans xs ys zs)

equal_bytes_iff :
    (n : ℕ) (xs ys : List ℕ)
    → n ≤ length xs
    → n ≤ length ys
    → (equal_bytes n xs ys ≡ true) ↔ (take n xs ≡ take n ys)
equal_bytes_iff zero xs ys h k = (λ e. refl, λ e. refl)
equal_bytes_iff (suc n) [] ys h k = absurd (omega arith)
equal_bytes_iff (suc n) (x ∷ xs) [] h k = absurd (omega arith)
equal_bytes_iff (suc n) (x ∷ xs) (y ∷ ys) h k =
    ground (arith, equal_bytes_iff n xs ys (omega arith) (omega arith))

version_value-injective : (v w : IpVersion) → version_value v ≡ version_value w → v ≡ w
version_value-injective ipv4 ipv4 e = refl
version_value-injective ipv4 ipv6 e = absurd (omega arith)
version_value-injective ipv4 (outside n) e = absurd (omega arith)
version_value-injective ipv6 ipv4 e = absurd (omega arith)
version_value-injective ipv6 ipv6 e = refl
version_value-injective ipv6 (outside n) e = absurd (omega arith)
version_value-injective (outside n) ipv4 e = absurd (omega arith)
version_value-injective (outside n) ipv6 e = absurd (omega arith)
version_value-injective (outside n) (outside m) e = ap outside (omega arith)

module _ (a b : IpAddress) (v : IsValid a) (w : IsValid b) where
  byte_count-le : (byte_count a ≤ length a.bytes) × (byte_count a ≤ length b.bytes)
  byte_count-le = (ground (arith, v.sixteen), ground (arith, w.sixteen))

  same_count : version_value a.version ≡ version_value b.version → byte_count b ≡ byte_count a
  same_count e = rw e

  bytes_iff :
      (equal_bytes (byte_count a) a.bytes b.bytes ≡ true)
      ↔ (take (byte_count a) a.bytes ≡ take (byte_count a) b.bytes)
  bytes_iff = equal_bytes_iff (byte_count a) a.bytes b.bytes byte_count-le.0 byte_count-le.1

  equal→span : equal a b ≡ true → (a.version ≡ b.version) × (span_bytes a ≡ span_bytes b)
  unfolding equal span_bytes
  equal→span h =
      let values : version_value a.version ≡ version_value b.version = ground arith in
      let bytes : equal_bytes (byte_count a) a.bytes b.bytes ≡ true = ground arith in
      (
        version_value-injective a.version b.version values,
        rw (same_count values) (bytes_iff.0 bytes),
      )

  span→equal : a.version ≡ b.version → span_bytes a ≡ span_bytes b → equal a b ≡ true
  unfolding equal span_bytes
  span→equal e spans =
      let values : version_value a.version ≡ version_value b.version = ap version_value e in
      let bytes = bytes_iff.1 (spans ∙ ap (λ n. take n b.bytes) (same_count values)) in ground arith

  -- On valid addresses operator== is identity, although it reads only the bytes of the family.
  pub equal_iff : (equal a b ≡ true) ↔ (a ≡ b)
  equal_iff = (
    λ h.
        let (versions, spans) = equal→span h in
        sym (made-span a v).1 ∙ (ap₂ made versions spans ∙ (made-span b w).1),
    λ e. span→equal (ap (λ c. c.version) e) (ap span_bytes e),
  )

  span→eq : a.version ≡ b.version → span_bytes a ≡ span_bytes b → three_way a b ≡ Ordering.eq
  unfolding three_way span_bytes
  span→eq e spans =
      let values : version_value a.version ≡ version_value b.version = ap version_value e in
      let bytes =
        (compare_lists-eq (take (byte_count a) a.bytes) (take (byte_count b) b.bytes)).1 spans in
      ground arith

  eq→span : three_way a b ≡ Ordering.eq → (a.version ≡ b.version) × (span_bytes a ≡ span_bytes b)
  unfolding three_way span_bytes
  eq→span h =
      let values : version_value a.version ≡ version_value b.version = ground arith in
      let bytes : compare_lists (take (byte_count a) a.bytes) (take (byte_count b) b.bytes)
          ≡ Ordering.eq =
        ground arith in
      (
        version_value-injective a.version b.version values,
        (compare_lists-eq (take (byte_count a) a.bytes) (take (byte_count b) b.bytes)).0 bytes,
      )

  -- On valid addresses operator<=> gives equal exactly where operator== holds.
  pub three_way-eq : (three_way a b ≡ Ordering.eq) ↔ (equal a b ≡ true)
  three_way-eq =
      (λ h. span→equal (eq→span h).0 (eq→span h).1, λ h. span→eq (equal→span h).0 (equal→span h).1)

  -- Valid addresses that operator== calls equal have the same hash.
  pub hash-equal : equal a b ≡ true → hash a ≡ hash b
  hash-equal h = ap hash (equal_iff.0 h)

-- operator<=> turns round with its arguments.
pub three_way-opposite : (a b : IpAddress) → three_way b a ≡ opposite (three_way a b)
unfolding three_way
three_way-opposite a b =
    ground
      (arith, compare_lists-opposite (take (byte_count a) a.bytes) (take (byte_count b) b.bytes))

-- If operator<=> puts one address before a second and the second before a third, it puts the first
-- before the third.
pub three_way_trans :
    (a b c : IpAddress)
    → three_way a b ≡ Ordering.lt
    → three_way b c ≡ Ordering.lt
    → three_way a c ≡ Ordering.lt
unfolding three_way
three_way_trans a b c h k = ground (
  arith,
  compare_lists_trans (take (byte_count a) a.bytes) (take (byte_count b) b.bytes)
      (take (byte_count c) c.bytes),
)
