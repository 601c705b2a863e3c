-- ===== src/Net/SocketEndpoint/Grammar/Found.antt =====
-- What SocketEndpoint::Parse of include/net/socket_endpoint.hpp has accepted.
use cpp_core_systems.Prelude.{
  ℕ, zero, suc, ◌+◌, ◌-◌, ◌<◌, ◌≡◌, refl, ◌≢◌, ◌⊎◌, inl, inr, ◌∙◌, sym, ap, true, false, not, ◌||◌,
  some, List, [], ◌∷◌, ◌++◌, arith, length, take, drop, get_or, ◌==◌, leb, Option-cases, Bool-cases,
}
use cpp_core_systems.Net.Text.{find, rfind, parse_number}
use cpp_core_systems.Net.Text.Find.{Lacks, find_inv, find-none-Lacks, rfind_inv}
use cpp_core_systems.Net.IpAddress
use cpp_core_systems.Net.IpAddress.{IpVersion, ipv4, ipv6, outside, IpAddress, Inet, same_version}
use cpp_core_systems.Net.SocketEndpoint.{
  SocketEndpoint, endpoint, uint16_max, uint32_max, finish, parse_scoped, parse_bracketed,
  parse_plain, parse,
}
use cpp_core_systems.Net.SocketEndpoint.Grammar.{Scoped, Written}

same_version_eq : (v w : IpVersion) → same_version v w ≡ true → (w ≡ ipv4) ⊎ (w ≡ ipv6) → v ≡ w
same_version_eq ipv4 w h k = ground arith
same_version_eq ipv6 w h k = ground arith
same_version_eq (outside n) w h k = ground arith

next_char : (n x : ℕ) (t : List ℕ) → get_or t n 0 ≡ x → n < length t → drop n t ≡ x ∷ drop (suc n) t
next_char n x [] h bound = absurd (omega arith)
next_char zero x (y ∷ t) h bound = ap (λ z. z ∷ t) h
next_char (suc n) x (y ∷ t) h bound = next_char n x t h (omega arith)

module _ (net : Inet) where
  -- What a successful end of Parse has found.
  finish_inv :
      (v : IpVersion) (ip port : List ℕ) (scope_id : ℕ) (e : SocketEndpoint)
      → finish net v ip port scope_id ≡ some e
      → (a : IpAddress) × (p : ℕ) × (IpAddress.parse net ip ≡ some a)
        × (same_version a.version v ≡ true)
        × (parse_number uint16_max port ≡ some p)
        × (e ≡ endpoint a p scope_id)
  unfolding finish
  finish_inv v ip port scope_id e h = ground arith

  plain_parts :
      (c : ℕ) (t : List ℕ) (i : ℕ) (e : SocketEndpoint)
      → c ≢ b'['
      → rfind b':' (c ∷ t) ≡ some i
      → (i == 0) ≡ false
      → finish net ipv4 (take i (c ∷ t)) (drop (suc i) (c ∷ t)) 0 ≡ some e
      → Written net (c ∷ t) e
  plain_parts c t zero e ne found inside h = absurd (ground arith)
  plain_parts c t (suc j) e ne found inside h =
      let (split, lacks) = rfind_inv b':' (c ∷ t) (suc j) found in
      let (a, p, address, same, number, is) =
        finish_inv ipv4 (c ∷ take j t) (drop (suc j) t) 0 e h in
      let version = same_version_eq a.version ipv4 same (inl refl) in
      rw is (
        c ∷ take j t,
        drop (suc j) t,
        address,
        number,
        inl (c, take j t, version, rw version refl, refl, ne, split, lacks),
      )

  plain_found :
      (c : ℕ) (t : List ℕ) (e : SocketEndpoint)
      → c ≢ b'['
      → parse_plain net (c ∷ t) ≡ some e
      → Written net (c ∷ t) e
  unfolding parse_plain
  plain_found c t e ne h = elim (Option-cases (rfind b':' (c ∷ t))) [
    | inl absent ↦ absurd (ground arith)
    | inr (i, found) ↦
        let next : i + 1 ≡ suc i = omega arith in
        plain_parts c t i e ne found (ground arith)
          (ap (λ k. finish net ipv4 (take i (c ∷ t)) (drop k (c ∷ t)) 0) (sym next) ∙ ground arith)
  ]

  -- The end of Parse behind a bracket.
  bracketed_end :
      (s body ip port : List ℕ) (scope_id : ℕ) (e : SocketEndpoint)
      → s ≡ b'[' ∷ (body ++ (b']' ∷ b':' ∷ port))
      → Lacks b']' body
      → Scoped body ip scope_id
      → finish net ipv6 ip port scope_id ≡ some e
      → Written net s e
  bracketed_end s body ip port scope_id e split lacks scoped h =
      let (a, p, address, same, number, is) = finish_inv ipv6 ip port scope_id e h in
      let version = same_version_eq a.version ipv6 same (inr refl) in
      rw is (ip, port, address, number, inr (body, version, split, lacks, rw version scoped))

  bracketed_found :
      (s body port : List ℕ) (e : SocketEndpoint)
      → s ≡ b'[' ∷ (body ++ (b']' ∷ b':' ∷ port))
      → Lacks b']' body
      → parse_scoped net body port ≡ some e
      → Written net s e
  unfolding parse_scoped
  bracketed_found s body port e split lacks h = elim (Option-cases (find b'%' body)) [
    | inl absent ↦
        bracketed_end s body body port 0 e split lacks
          (find-none-Lacks b'%' body absent, inl (refl, refl)) (ground arith)
    | inr (i, found) ↦
        let next : i + 1 ≡ suc i = omega arith in
        let (parts, before) = find_inv b'%' body i found in
        elim (Option-cases (parse_number uint32_max (drop (i + 1) body))) [
          | inl bad ↦ absurd (ground arith)
          | inr (scope_id, number) ↦
              bracketed_end s body (take i body) port scope_id e split lacks
                (
                  before,
                  inr (
                    drop (suc i) body,
                    parts,
                    ap (λ k. parse_number uint32_max (drop k body)) (sym next) ∙ number,
                  ),
                )
                (ground arith)
        ]
  ]

  bracket_parts :
      (t : List ℕ) (i : ℕ) (e : SocketEndpoint)
      → find b']' (b'[' ∷ t) ≡ some i
      → i + 1 < length (b'[' ∷ t)
      → get_or (b'[' ∷ t) (i + 1) 0 ≡ b':'
      → parse_scoped net (take (i - 1) t) (drop (suc (suc i)) (b'[' ∷ t)) ≡ some e
      → Written net (b'[' ∷ t) e
  bracket_parts t zero e found inside colon h =
      absurd (omega (arith, ap (λ xs. get_or xs 0 0) (find_inv b']' (b'[' ∷ t) 0 found).0))
  bracket_parts t (suc j) e found inside colon h =
      let (split, before) = find_inv b']' (b'[' ∷ t) (suc j) found in
      let one : suc j + 1 ≡ suc (suc j) = omega arith in
      let less : suc j - 1 ≡ j = omega arith in
      let behind : drop (suc j) t ≡ b':' ∷ drop (suc (suc j)) t =
        next_char (suc j) b':' t (ap (λ k. get_or (b'[' ∷ t) k 0) (sym one) ∙ colon)
          (omega arith) in
      bracketed_found (b'[' ∷ t) (take j t) (drop (suc (suc j)) t) e
        (split ∙ ap (λ r. b'[' ∷ (take j t ++ (b']' ∷ r))) behind) before.1
        (ap (λ k. parse_scoped net (take k t) (drop (suc (suc j)) t)) (sym less) ∙ h)

  bracket_found :
      (t : List ℕ) (e : SocketEndpoint)
      → parse_bracketed net (b'[' ∷ t) ≡ some e
      → Written net (b'[' ∷ t) e
  unfolding parse_bracketed
  bracket_found t e h = elim (Option-cases (find b']' (b'[' ∷ t))) [
    | inl absent ↦ absurd (ground arith)
    | inr (i, found) ↦
        elim (Bool-cases
          (leb (length (b'[' ∷ t)) (i + 1) || not (get_or (b'[' ∷ t) (i + 1) 0 == b':'))) [
            | inl bad ↦ absurd (ground arith)
            | inr good ↦
                let next : i + 2 ≡ suc (suc i) = omega arith in
                bracket_parts t i e found (ground arith) (ground arith) (
                  ap (λ k. parse_scoped net (take (i - 1) t) (drop k (b'[' ∷ t))) (sym next)
                  ∙ ground arith)
          ]
  ]

  pub parse-Written : (s : List ℕ) (e : SocketEndpoint) → parse net s ≡ some e → Written net s e
  unfolding parse
  parse-Written [] e h = cc
  parse-Written (c ∷ t) e h = elim (Bool-cases (c == b'[')) [
    | inl bracket ↦
        let same : c ≡ b'[' = ground arith in
        rw same
          (bracket_found t e (ap (λ x. parse_bracketed net (x ∷ t)) (sym same) ∙ ground arith))
    | inr other ↦ plain_found c t e (ground arith) (ground arith)
  ]
