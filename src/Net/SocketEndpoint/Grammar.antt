-- ===== src/Net/SocketEndpoint/Grammar.antt =====
-- The texts that SocketEndpoint::Parse of include/net/socket_endpoint.hpp is for.
pub mod Found
pub mod Exact
use cpp_core_systems.Prelude.{ℕ, ◌≡◌, ◌≢◌, ◌⊎◌, some, List, ◌∷◌, ◌++◌}
use cpp_core_systems.Net.Text.{parse_number}
use cpp_core_systems.Net.Text.Find.{Lacks}
use cpp_core_systems.Net.IpAddress
use cpp_core_systems.Net.IpAddress.{ipv4, ipv6, Inet}
use cpp_core_systems.Net.SocketEndpoint.{SocketEndpoint, uint16_max, uint32_max}

-- "address:port", for an IPv4 address: the text does not start with a bracket, and the colon is the
-- last one.
abbrev pub Plain : List ℕ → (ip port : List ℕ) → SocketEndpoint → Type 0
Plain s ip port e =
    (c : ℕ) × (rest : List ℕ) × (e.address.version ≡ ipv4)
    × (e.scope_id ≡ 0)
    × (ip ≡ c ∷ rest)
    × (c ≢ b'[')
    × (s ≡ ip ++ (b':' ∷ port))
    × Lacks b':' port

-- What stands between the brackets: "address" or "address%scope".
abbrev pub Scoped : (body ip : List ℕ) → ℕ → Type 0
Scoped body ip scope_id =
    Lacks b'%' ip
    × (((body ≡ ip) × (scope_id ≡ 0))
        ⊎ ((scope : List ℕ) × (body ≡ ip ++ (b'%' ∷ scope))
            × (parse_number uint32_max scope ≡ some scope_id)))

-- "[address]:port" and "[address%scope]:port", for an IPv6 address.
abbrev pub Bracketed : List ℕ → (ip port : List ℕ) → SocketEndpoint → Type 0
Bracketed s ip port e =
    (body : List ℕ) × (e.address.version ≡ ipv6)
    × (s ≡ b'[' ∷ (body ++ (b']' ∷ b':' ∷ port)))
    × Lacks b']' body
    × Scoped body ip e.scope_id

-- The text of an endpoint, in one of the three forms.
abbrev pub Written : Inet → List ℕ → SocketEndpoint → Type 0
Written net s e =
    (ip : List ℕ) × (port : List ℕ) × (IpAddress.parse net ip ≡ some e.address)
    × (parse_number uint16_max port ≡ some e.port)
    × (Plain s ip port e ⊎ Bracketed s ip port e)
