-- ===== src/Net/SocketEndpoint/Text.antt =====
-- ToString and Parse of include/net/socket_endpoint.hpp, and the class invariant.
use cpp_core_systems.Prelude.{
  ℕ, suc, ◌+◌, ◌-◌, ◌<◌, ◌≤◌, ◌≡◌, refl, ◌≢◌, ◌⊎◌, inl, inr, ◌∙◌, sym, ap, subst, true, false, some,
  List, [], ◌∷◌, ◌++◌, arith, length, length-append, take, take-append, drop_past, get_or_past,
  append-nil, All, All-append, All-weaken, ◌==◌, leb, Bool-cases,
}
use cpp_core_systems.Net.Text.{decimal}
use cpp_core_systems.Net.Text.Find.{Lacks, find-first, find-none, rfind-last}
use cpp_core_systems.Net.Text.Decimal.{decimal-IsDigits, decimal-pos, parse_number-decimal}
use cpp_core_systems.Net.IpAddress
use cpp_core_systems.Net.IpAddress.{IpVersion, ipv4, ipv6, outside, IpAddress, Inet, same_version}
use cpp_core_systems.Net.IpAddress.Valid
use cpp_core_systems.Net.IpAddress.Print
use cpp_core_systems.Net.IpAddress.Print.{IsInet, IsDigitOrDot, IsHexColonDot, Form}
use cpp_core_systems.Net.SocketEndpoint.{
  SocketEndpoint, endpoint, uint16_max, uint32_max, scope_text, to_string, finish, parse_scoped,
  parse_bracketed, parse_plain, parse,
}

-- Only an IPv6 address has a scope.
pub record IsValid (e : SocketEndpoint) : Type 0 where
  pub address : Valid.IsValid e.address
  pub port : e.port ≤ uint16_max
  pub scope : e.scope_id ≤ uint32_max
  pub unscoped : e.address.version ≡ ipv4 → e.scope_id ≡ 0

scope-Lacks : (scope_id : ℕ) → Lacks b']' (scope_text scope_id)
unfolding scope_text
scope-Lacks scope_id = elim (Bool-cases (scope_id == 0)) [
  | inl unscoped ↦ rw unscoped tt
  | inr scoped ↦ rw scoped (
    omega arith,
    All-weaken _ (λ x. x ≢ b']') (decimal scope_id) (λ x h. omega arith)
        (decimal-IsDigits scope_id),
  )
]

module _ (net : Inet) where
  -- Text without a bracket, between brackets, and a port.
  pub bracketed_at :
      (body port : List ℕ)
      → Lacks b']' body
      → 0 < length port
      → parse net (b'[' ∷ (body ++ (b']' ∷ b':' ∷ port))) ≡ parse_scoped net body port
  unfolding parse parse_bracketed
  bracketed_at body port lacks pos =
      let rest = b']' ∷ b':' ∷ port in
      let fits : leb (length (b'[' ∷ (body ++ rest))) (suc (length body) + 1) ≡ false =
        ground (arith, length-append body rest) in
      let inner : take (suc (length body) - 1) (body ++ rest) ≡ body =
        rw (one_less (length body)) (take-append body rest) in
      rw (
        find-first b']' (b'[' ∷ body) (b':' ∷ port) ((omega arith), lacks),
        parse_bracketed,
        fits,
        get_or_past 1 (b'[' ∷ body) rest 0,
        inner,
        drop_past 2 (b'[' ∷ body) rest,
      )
    where
      one_less : (n : ℕ) → suc n - 1 ≡ n
      one_less n = omega arith

  pub plain_at :
      (c : ℕ) (ip port : List ℕ)
      → Lacks b':' port
      → 0 < length port
      → c ≢ b'['
      → parse net (c ∷ (ip ++ (b':' ∷ port))) ≡ finish net ipv4 (c ∷ ip) port 0
  unfolding parse parse_plain
  plain_at c ip port lacks pos ne =
      let plain : (c == b'[') ≡ false = ground arith in
      let inside : (suc (length ip) == 0) ≡ false = ground arith in
      let fits : leb (length (c ∷ (ip ++ (b':' ∷ port)))) (suc (length ip) + 1) ≡ false =
        ground (arith, length-append ip (b':' ∷ port)) in
      rw (
        plain,
        rfind-last b':' (c ∷ ip) port lacks,
        parse_plain,
        inside,
        fits,
        take-append (c ∷ ip) (b':' ∷ port),
        drop_past 1 (c ∷ ip) (b':' ∷ port),
      )

  finish-some :
      (a : IpAddress) (v : IpVersion) (ip : List ℕ) (port scope_id : ℕ)
      → IpAddress.parse net ip ≡ some a
      → same_version a.version v ≡ true
      → port ≤ uint16_max
      → finish net v ip (decimal port) scope_id ≡ some (endpoint a port scope_id)
  unfolding finish
  finish-some a v ip port scope_id found same bound =
      ground (arith, parse_number-decimal uint16_max port bound)

  plain_endpoint :
      (a : IpAddress) (ip : List ℕ) (port : ℕ)
      → IpAddress.parse net ip ≡ some a
      → a.version ≡ ipv4
      → All IsDigitOrDot ip
      → 0 < length ip
      → port ≤ uint16_max
      → parse net (ip ++ (b':' ∷ decimal port)) ≡ some (endpoint a port 0)
  plain_endpoint a [] port found v4 form pos bound = absurd (omega arith)
  plain_endpoint a (c ∷ ip) port found v4 form pos bound =
      let lacks =
        All-weaken _ (λ x. x ≢ b':') (decimal port) (λ x h. omega arith) (decimal-IsDigits port) in
      plain_at c ip (decimal port) lacks (decimal-pos port) (dot_or_digit c form.0)
      ∙ finish-some a ipv4 (c ∷ ip) port 0 found (rw v4) bound
    where
      dot_or_digit : (c : ℕ) → IsDigitOrDot c → c ≢ b'['
      dot_or_digit c h = omega arith

  unscoped_text : (ip : List ℕ) (scope_id : ℕ) → scope_id ≡ 0 → ip ++ scope_text scope_id ≡ ip
  unfolding scope_text
  unscoped_text ip scope_id e = rw e (append-nil ip)

  scoped_text :
      (scope_id : ℕ) → (scope_id == 0) ≡ false → scope_text scope_id ≡ b'%' ∷ decimal scope_id
  unfolding scope_text
  scoped_text scope_id e = rw e

  scoped_endpoint :
      (a : IpAddress) (ip : List ℕ) (port scope_id : ℕ)
      → IpAddress.parse net ip ≡ some a
      → a.version ≡ ipv6
      → Lacks b'%' ip
      → port ≤ uint16_max
      → scope_id ≤ uint32_max
      → parse_scoped net (ip ++ scope_text scope_id) (decimal port)
        ≡ some (endpoint a port scope_id)
  unfolding parse_scoped scope_text
  scoped_endpoint a ip port scope_id found v6 lacks bound bound' =
      elim (Bool-cases (scope_id == 0)) [
        | inl unscoped ↦
            let e : scope_id ≡ 0 = ground arith in
            ap (λ t. parse_scoped net t (decimal port)) (unscoped_text ip scope_id e)
            ∙ (bare ∙ ap (λ s. some (endpoint a port s)) (sym e))
        | inr scoped ↦
            ap (λ t. parse_scoped net (ip ++ t) (decimal port)) (scoped_text scope_id scoped)
            ∙ marked
      ]
    where
      marked :
          parse_scoped net (ip ++ (b'%' ∷ decimal scope_id)) (decimal port)
          ≡ some (endpoint a port scope_id)
      marked =
          rw
            (
              find-first b'%' ip (decimal scope_id) lacks,
              parse_scoped,
              drop_past 1 ip (b'%' ∷ decimal scope_id),
              parse_number-decimal uint32_max scope_id bound',
              take-append ip (b'%' ∷ decimal scope_id),
            )
            (finish-some a ipv6 ip port scope_id found (rw v6) bound)

      bare : parse_scoped net ip (decimal port) ≡ some (endpoint a port 0)
      bare =
          rw (find-none b'%' ip lacks, parse_scoped)
            (finish-some a ipv6 ip port 0 found (rw v6) bound)

  bracketed_endpoint :
      (a : IpAddress) (ip : List ℕ) (port scope_id : ℕ)
      → IpAddress.parse net ip ≡ some a
      → a.version ≡ ipv6
      → All IsHexColonDot ip
      → port ≤ uint16_max
      → scope_id ≤ uint32_max
      → parse net (b'[' ∷ ((ip ++ scope_text scope_id) ++ (b']' ∷ b':' ∷ decimal port)))
        ≡ some (endpoint a port scope_id)
  bracketed_endpoint a ip port scope_id found v6 form bound bound' =
      bracketed_at (ip ++ scope_text scope_id) (decimal port)
        (All-append _ ip (scope_text scope_id)
          (All-weaken IsHexColonDot (λ x. x ≢ b']') ip (λ x h. omega arith) form)
          (scope-Lacks scope_id))
        (decimal-pos port)
      ∙ scoped_endpoint a ip port scope_id found v6
          (All-weaken IsHexColonDot (λ x. x ≢ b'%') ip (λ x h. omega arith) form) bound bound'

to_string-plain :
    (net : Inet) (e : SocketEndpoint)
    → same_version e.address.version ipv6 ≡ false
    → to_string net e ≡ IpAddress.to_string net e.address ++ (b':' ∷ decimal e.port)
unfolding to_string
to_string-plain net e test = rw test

to_string-bracketed :
    (net : Inet) (e : SocketEndpoint)
    → same_version e.address.version ipv6 ≡ true
    → to_string net e
      ≡ b'['
        ∷ ((IpAddress.to_string net e.address ++ scope_text e.scope_id)
            ++ (b']' ∷ b':' ∷ decimal e.port))
unfolding to_string
to_string-bracketed net e test = rw test

pub plain-eq : (e : SocketEndpoint) → e.scope_id ≡ 0 → endpoint e.address e.port 0 ≡ e
plain-eq e z = ground arith

pub scoped-eq :
    (e : SocketEndpoint)
    → same_version e.address.version ipv6 ≡ true
    → endpoint e.address e.port e.scope_id ≡ e
scoped-eq e test = rw test

pub version-cases : (a : IpAddress) → Valid.IsValid a → (a.version ≡ ipv4) ⊎ (a.version ≡ ipv6)
version-cases a v = split a.version v.padded
  where
    split : (w : IpVersion) → Valid.Padded w a.bytes → (w ≡ ipv4) ⊎ (w ≡ ipv6)
    split ipv4 p = inl refl
    split ipv6 p = inr refl
    split (outside n) p = absurd p

module _ (net : Inet) (laws : IsInet net) where
  -- For inet_pton and inet_ntop that undo one another, Parse of the text that ToString gives for a
  -- valid endpoint, with its scope, is that endpoint.
  pub parse_endpoint-to_string :
      (e : SocketEndpoint) → IsValid e → parse net (to_string net e) ≡ some e
  parse_endpoint-to_string e v =
      let (back, form, pos) = Print.parse-to_string net laws e.address v.address in
      elim (version-cases e.address v.address) [
        | inl v4 ↦
            let form_4 : All IsDigitOrDot (IpAddress.to_string net e.address) =
              subst (λ w. Form w (IpAddress.to_string net e.address)) v4 form in
            ap (parse net) (to_string-plain net e (rw v4))
            ∙ (plain_endpoint net e.address _ e.port back v4 form_4 pos v.port
                ∙ ap some (plain-eq e (v.unscoped v4)))
        | inr v6 ↦
            let form_6 : All IsHexColonDot (IpAddress.to_string net e.address) =
              subst (λ w. Form w (IpAddress.to_string net e.address)) v6 form in
            ap (parse net) (to_string-bracketed net e (rw v6))
            ∙ (bracketed_endpoint net e.address _ e.port e.scope_id back v6 form_6 v.port v.scope
                ∙ ap some (scoped-eq e (rw v6)))
      ]
