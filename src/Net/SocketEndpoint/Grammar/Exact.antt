-- ===== src/Net/SocketEndpoint/Grammar/Exact.antt =====
-- SocketEndpoint::Parse of include/net/socket_endpoint.hpp on the texts that it is for.
use cpp_core_systems.Prelude.{
  ℕ, ◌<◌, ◌≡◌, ◌↔◌, inl, inr, ◌∙◌, sym, ap, subst, true, some, List, [], ◌∷◌, ◌++◌, arith, length,
  take-append, drop_past,
}
use cpp_core_systems.Net.Text.{parse_number, from_chars}
use cpp_core_systems.Net.Text.Find.{find-first, find-none}
use cpp_core_systems.Net.Text.Decimal.{parse_number-le}
use cpp_core_systems.Net.IpAddress
use cpp_core_systems.Net.IpAddress.{IpVersion, ipv4, ipv6, outside, IpAddress, Inet, same_version}
use cpp_core_systems.Net.IpAddress.Print
use cpp_core_systems.Net.IpAddress.Print.{IsInet}
use cpp_core_systems.Net.SocketEndpoint.{
  SocketEndpoint, endpoint, uint16_max, uint32_max, finish, parse_scoped, parse,
}
use cpp_core_systems.Net.SocketEndpoint.Accept.{endpoint-IsValid}
use cpp_core_systems.Net.SocketEndpoint.Text.{IsValid, bracketed_at, plain_at, plain-eq, scoped-eq}
use cpp_core_systems.Net.SocketEndpoint.Grammar.{Scoped, Written}
use cpp_core_systems.Net.SocketEndpoint.Grammar.Found.{parse-Written}

number-pos : (limit n : ℕ) (text : List ℕ) → parse_number limit text ≡ some n → 0 < length text
unfolding parse_number from_chars
number-pos limit n [] h = cc
number-pos limit n (c ∷ text) h = omega arith

module _ (net : Inet) where
  finish_known :
      (v : IpVersion) (a : IpAddress) (p : ℕ) (ip port : List ℕ) (scope_id : ℕ)
      → IpAddress.parse net ip ≡ some a
      → same_version a.version v ≡ true
      → parse_number uint16_max port ≡ some p
      → finish net v ip port scope_id ≡ some (endpoint a p scope_id)
  unfolding finish
  finish_known v a p ip port scope_id found same number = ground arith

  parse_scoped-some :
      (body ip port : List ℕ) (a : IpAddress) (p scope_id : ℕ)
      → Scoped body ip scope_id
      → IpAddress.parse net ip ≡ some a
      → same_version a.version ipv6 ≡ true
      → parse_number uint16_max port ≡ some p
      → parse_scoped net body port ≡ some (endpoint a p scope_id)
  unfolding parse_scoped
  parse_scoped-some body ip port a p scope_id (lacks, inl (bare, none_given)) found same number =
      let without : parse_scoped net ip port ≡ some (endpoint a p 0) =
        rw (find-none b'%' ip lacks, parse_scoped)
          (finish_known ipv6 a p ip port 0 found same number) in
      ap (λ b. parse_scoped net b port) bare
      ∙ without
      ∙ ap (λ n. some (endpoint a p n)) (sym none_given)
  parse_scoped-some body ip port a p scope_id (lacks, inr (scope, marked, value)) found same
        number =
      let with_scope : parse_scoped net (ip ++ (b'%' ∷ scope)) port ≡ some (endpoint a p scope_id) =
        rw
          (
            find-first b'%' ip scope lacks,
            parse_scoped,
            drop_past 1 ip (b'%' ∷ scope),
            value,
            take-append ip (b'%' ∷ scope),
          )
          (finish_known ipv6 a p ip port scope_id found same number) in
      ap (λ b. parse_scoped net b port) marked ∙ with_scope

  Written-parse : (s : List ℕ) (e : SocketEndpoint) → Written net s e → parse net s ≡ some e
  Written-parse s e (ip, port, found, number, inl (c, rest, version, scope, is, ne, split, lacks)) =
      ap (parse net) (split ∙ ap (λ i. i ++ (b':' ∷ port)) is)
      ∙ plain_at net c rest port lacks (number-pos uint16_max e.port port number) ne
      ∙ finish_known ipv4 e.address e.port (c ∷ rest) port 0
          (ap (IpAddress.parse net) (sym is) ∙ found) (ap (λ v. same_version v ipv4) version) number
      ∙ ap some (plain-eq e scope)
  Written-parse s e (ip, port, found, number, inr (body, version, split, lacks, scoped)) =
      let six = ap (λ v. same_version v ipv6) version in
      ap (parse net) split
      ∙ bracketed_at net body port lacks (number-pos uint16_max e.port port number)
      ∙ parse_scoped-some body ip port e.address e.port e.scope_id scoped found six number
      ∙ ap some (scoped-eq e six)

  Written-IsValid : IsInet net → (s : List ℕ) (e : SocketEndpoint) → Written net s e → IsValid e
  Written-IsValid laws s e (ip, port, found, number, form) =
      let address = (Print.parse-IsValid net laws ip e.address found).0 in
      let bound = parse_number-le uint16_max port e.port number in
      elim form [
        | inl (c, rest, version, scope, _, _, _, _) ↦
            subst IsValid (plain-eq e scope)
              (endpoint-IsValid e.address e.port 0 address bound (omega arith))
        | inr (body, version, _, _, (_, inl (_, scope))) ↦
            subst IsValid (scoped-eq e (ap (λ v. same_version v ipv6) version))
              (endpoint-IsValid e.address e.port e.scope_id address bound (omega arith))
        | inr (body, version, _, _, (_, inr (text, _, value))) ↦
            subst IsValid (scoped-eq e (ap (λ v. same_version v ipv6) version)) (
              endpoint-IsValid e.address e.port e.scope_id address bound
                (parse_number-le uint32_max text e.scope_id value))
      ]

  -- With inet_pton and inet_ntop as IsInet says, among it that inet_pton fills in as many bytes as
  -- the family has: SocketEndpoint::Parse of a text gives an endpoint exactly where the endpoint is
  -- valid and the text is in one of three forms: the text of its IPv4 address, a colon and its
  -- port, with no bracket in front and no colon in the port; the text of its IPv6 address in
  -- brackets, a colon and its port; or the same with a percent sign and its scope in the brackets.
  -- Without a scope in the text its scope is zero; the text in the brackets has no closing bracket,
  -- and its address no percent sign.
  pub parse_endpoint_iff :
      IsInet net
      → (s : List ℕ) (e : SocketEndpoint) → (parse net s ≡ some e) ↔ (IsValid e × Written net s e)
  parse_endpoint_iff laws s e = (
    (λ h. (Written-IsValid laws s e (parse-Written net s e h), parse-Written net s e h)),
    (λ h. Written-parse s e h.1),
  )
