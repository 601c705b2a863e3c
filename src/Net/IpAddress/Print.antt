-- ===== src/Net/IpAddress/Print.antt =====
-- Parse and ToString, over an inet_pton and an inet_ntop that undo one another.
use cpp_core_systems.Prelude.{
  ℕ, ◌<◌, ◌≤◌, ◌≡◌, ◌≢◌, ◌⊎◌, inl, inr, ◌∙◌, sym, ap, none, some, List, [], ◌++◌, arith, length,
  take, take-append, All, All-weaken, Option-cases, subst, replicate,
}
use cpp_core_systems.Net.Text.Find.{Lacks, find-none}
use cpp_core_systems.Net.IpAddress.{
  IpVersion, ipv4, ipv6, outside, IpAddress, blank, overwrite, Inet, parse, span_bytes, to_string,
  inet6_addrstrlen,
}
use cpp_core_systems.Net.IpAddress.Valid.{
  IsByte, IsValid, made, made-IsValid, made-span, span-made, span-IsByte, overwrite-made, Fits,
}

-- The characters of the two presentation formats.
abbrev pub IsDigitOrDot : ℕ → Type 0
IsDigitOrDot c = (c ≡ b'.') ⊎ ((b'0' ≤ c) × (c ≤ b'9'))

abbrev pub IsHexColonDot : ℕ → Type 0
IsHexColonDot c = (c ≡ b':') ⊎ (IsDigitOrDot c ⊎ ((b'a' ≤ c) × (c ≤ b'f')))

-- inet_pton(3) and inet_ntop(3): what is parsed is as many bytes as the family has, and every
-- address has a text of fewer than INET6_ADDRSTRLEN characters that is parsed back, in digits and
-- dots for IPv4, in hexadecimal digits, colons and dots for IPv6, which the IPv4 form excludes.
pub record IsInet (net : Inet) : Type 0 where
  pub pton4_bytes :
      (s bytes : List ℕ) → net.pton4 s ≡ some bytes → (length bytes ≡ 4) × All IsByte bytes
  pub pton6_bytes :
      (s bytes : List ℕ) → net.pton6 s ≡ some bytes → (length bytes ≡ 16) × All IsByte bytes
  pub ntop4_text :
      (bytes : List ℕ)
      → length bytes ≡ 4
      → All IsByte bytes
      → (s : List ℕ) × (net.ntop4 bytes ≡ some s)
        × (net.pton4 s ≡ some bytes)
        × (0 < length s)
        × (length s < inet6_addrstrlen)
        × All IsDigitOrDot s
  pub ntop6_text :
      (bytes : List ℕ)
      → length bytes ≡ 16
      → All IsByte bytes
      → (s : List ℕ) × (net.ntop6 bytes ≡ some s)
        × (net.pton6 s ≡ some bytes)
        × (net.pton4 s ≡ none)
        × (0 < length s)
        × (length s < inet6_addrstrlen)
        × All IsHexColonDot s

abbrev pub Form : IpVersion → List ℕ → Type 0
Form ipv4 = All IsDigitOrDot
Form _ = All IsHexColonDot

module _ (net : Inet) (laws : IsInet net) where
  parsed4 :
      (s bytes : List ℕ) (a : IpAddress)
      → net.pton4 s ≡ some bytes
      → parse net s ≡ some a
      → a ≡ made ipv4 bytes
  unfolding parse
  parsed4 s bytes a e h =
      let raw : a ≡ record { version = ipv4; bytes = overwrite bytes blank.bytes } = ground arith in
      raw ∙ overwrite-made ipv4 bytes (laws.pton4_bytes s bytes e).0

  parsed6 :
      (s bytes : List ℕ) (a : IpAddress)
      → net.pton4 s ≡ none
      → net.pton6 s ≡ some bytes
      → parse net s ≡ some a
      → a ≡ made ipv6 bytes
  unfolding parse
  parsed6 s bytes a none_4 e h =
      let raw : a ≡ record { version = ipv6; bytes = overwrite bytes blank.bytes } = ground arith in
      raw ∙ overwrite-made ipv6 bytes (laws.pton6_bytes s bytes e).0

  parsed_none :
      (s : List ℕ) (a : IpAddress) → net.pton4 s ≡ none → net.pton6 s ≡ none → parse net s ≢ some a
  unfolding parse
  parsed_none s a none_4 none_6 h = ground arith

  -- For an inet_pton that fills in as many bytes as the family has, whatever IPAddress::Parse
  -- accepts is a valid address, and its bytes are those that inet_pton has found for one of the two
  -- families.
  pub parse-IsValid :
      (s : List ℕ) (a : IpAddress)
      → parse net s ≡ some a
      → IsValid a × ((net.pton4 s ≡ some (span_bytes a)) ⊎ (net.pton6 s ≡ some (span_bytes a)))
  parse-IsValid s a h = elim (Option-cases (net.pton4 s)) [
    | inr (bytes, e) ↦
        let (n, b) = laws.pton4_bytes s bytes e in
        rw (parsed4 s bytes a e h)
          (made-IsValid ipv4 bytes n b, inl (e ∙ ap some (sym (span-made ipv4 bytes n))))
    | inl none_4 ↦ elim (Option-cases (net.pton6 s)) [
      | inr (bytes, e) ↦
          let (n, b) = laws.pton6_bytes s bytes e in
          rw (parsed6 s bytes a none_4 e h)
            (made-IsValid ipv6 bytes n b, inr (e ∙ ap some (sym (span-made ipv6 bytes n))))
      | inl none_6 ↦ absurd (parsed_none s a none_4 none_6 h)
    ]
  ]

  parse-some4 :
      (s bytes : List ℕ)
      → net.pton4 s ≡ some bytes
      → 0 < length s
      → length s < inet6_addrstrlen
      → Lacks 0 s
      → parse net s ≡ some (made ipv4 bytes)
  unfolding parse
  parse-some4 s bytes e pos short lacks =
      let raw : parse net s
          ≡ some (record { version = ipv4; bytes = overwrite bytes blank.bytes }) =
        ground (arith, find-none 0 s lacks) in
      raw ∙ ap some (overwrite-made ipv4 bytes (laws.pton4_bytes s bytes e).0)

  parse-some6 :
      (s bytes : List ℕ)
      → net.pton4 s ≡ none
      → net.pton6 s ≡ some bytes
      → 0 < length s
      → length s < inet6_addrstrlen
      → Lacks 0 s
      → parse net s ≡ some (made ipv6 bytes)
  unfolding parse
  parse-some6 s bytes none_4 e pos short lacks =
      let raw : parse net s
          ≡ some (record { version = ipv6; bytes = overwrite bytes blank.bytes }) =
        ground (arith, find-none 0 s lacks) in
      raw ∙ ap some (overwrite-made ipv6 bytes (laws.pton6_bytes s bytes e).0)

  -- For inet_pton and inet_ntop that undo one another, ToString of a valid address is a nonempty
  -- text in the form of its family, and Parse takes it back to that address.
  pub parse-to_string :
      (a : IpAddress)
      → IsValid a
      → (parse net (to_string net a) ≡ some a)
        × Form a.version (to_string net a)
        × (0 < length (to_string net a))
  unfolding to_string
  parse-to_string a v =
      let (fits, e) = made-span a v in
      subst
        (λ b.
          (parse net (to_string net b) ≡ some b)
          × Form b.version (to_string net b)
          × (0 < length (to_string net b)))
        e (printed a.version (span_bytes a) fits (span-IsByte a v))
    where
      printed :
          (w : IpVersion) (bytes : List ℕ)
          → Fits w bytes
          → All IsByte bytes
          → (parse net (to_string net (made w bytes)) ≡ some (made w bytes))
            × Form w (to_string net (made w bytes))
            × (0 < length (to_string net (made w bytes)))
      printed ipv4 bytes n b =
          let (s, to, from, pos, short, form) = laws.ntop4_text bytes n b in
          let shown : to_string net (made ipv4 bytes) ≡ s =
            rw
              (subst (λ n. take n (bytes ++ replicate 12 0) ≡ bytes) n (take-append bytes _), to) in
          let lacks = All-weaken IsDigitOrDot (λ c. c ≢ 0) s (λ c h. omega arith) form in
          rw shown (parse-some4 s bytes from pos short lacks, form, pos)
      printed ipv6 bytes n b =
          let (s, to, from, none_4, pos, short, form) = laws.ntop6_text bytes n b in
          let shown : to_string net (made ipv6 bytes) ≡ s =
            rw (subst (λ n. take n (bytes ++ []) ≡ bytes) n (take-append bytes _), to) in
          let lacks = All-weaken IsHexColonDot (λ c. c ≢ 0) s (λ c h. omega arith) form in
          rw shown (parse-some6 s bytes none_4 from pos short lacks, form, pos)
      printed (outside k) bytes n b = absurd n
