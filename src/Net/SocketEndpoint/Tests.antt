-- ===== src/Net/SocketEndpoint/Tests.antt =====
-- Runs of SocketEndpoint over stand-ins for the system's calls, and each property at concrete
-- endpoints.
use cpp_core_systems.Prelude.{
  ℕ, zero, suc, ◌+◌, ◌%◌, ◌≡◌, refl, ◌↔◌, ap, ap₂, none, some, List, [], ◌∷◌, ◌++◌, arith, length,
  All,
}
use cpp_core_systems.Net.StandIn.{stand_in, stand_in-IsInet}
use cpp_core_systems.Net.IpAddress
use cpp_core_systems.Net.Text.{find}
use cpp_core_systems.Net.IpAddress.{ipv4, ipv6, IpAddress, from_bytes}
use cpp_core_systems.Net.IpAddress.Valid.{IsByte}
use cpp_core_systems.Net.SocketEndpoint.{
  SocketEndpoint, finish, parse_scoped, parse_bracketed, parse, to_string, uint16_max, uint32_max,
}
use cpp_core_systems.Net.SocketEndpoint.Text.{IsValid, parse_endpoint-to_string}
use cpp_core_systems.Net.SocketEndpoint.Grammar.{Written}
use cpp_core_systems.Net.SocketEndpoint.Grammar.Exact.{parse_endpoint_iff}
use cpp_core_systems.Net.SocketEndpoint.Native.{
  SockaddrIn6, IsIn6, Sockets, IsSockets, to_native, from_native,
}
use cpp_core_systems.Net.SocketEndpoint.Native.RoundTrip.{from_native-to_native}
use cpp_core_systems.Net.SocketEndpoint.Native.Reading.{Reading, from_native_lem}

-- A stand-in for the socket headers: one structure with the fields of both addresses, on a machine
-- whose byte order is the network's.
pub record Storage : Type 0 where
  family : ℕ
  port : ℕ
  addr : List ℕ
  scope : ℕ

-- `n` bytes.
abbrev sized : ℕ → List ℕ → List ℕ
sized zero xs = []
sized (suc n) [] = 0 ∷ sized n []
sized (suc n) (x ∷ xs) = (x % 256) ∷ sized n xs

sized_lem : (n : ℕ) (xs : List ℕ) → (length (sized n xs) ≡ n) × All IsByte (sized n xs)
sized_lem zero xs = (refl, tt)
sized_lem (suc n) [] = (omega (arith, (sized_lem n []).0), (omega arith, (sized_lem n []).1))
sized_lem (suc n) (x ∷ xs) = (omega (arith, (sized_lem n xs).0), (omega arith, (sized_lem n xs).1))

sized_same : (n : ℕ) (xs : List ℕ) → length xs ≡ n → All IsByte xs → sized n xs ≡ xs
sized_same zero [] e b = refl
sized_same zero (x ∷ xs) e b = absurd (omega arith)
sized_same (suc n) [] e b = absurd (omega arith)
sized_same (suc n) (x ∷ xs) e (b, bs) =
    ap₂ (λ v vs. v ∷ vs) (omega arith) (sized_same n xs (omega arith) bs)

abbrev pub headers : Sockets
headers = record {
  Storage = Storage;
  of_in = λ a. record { family = a.sin_family; port = a.sin_port; addr = a.sin_addr; scope = 0 };
  of_in6 = λ a. record {
    family = a.sin6_family;
    port = a.sin6_port;
    addr = a.sin6_addr;
    scope = a.sin6_scope_id;
  };
  to_in = λ s. record { sin_family = s.family; sin_port = s.port; sin_addr = sized 4 s.addr };
  to_in6 = λ s. record {
    sin6_family = s.family;
    sin6_port = s.port;
    sin6_addr = sized 16 s.addr;
    sin6_scope_id = s.scope % (uint32_max + 1);
  };
  sa_family = λ s. s.family;
  af_inet = 2;
  af_inet6 = 10;
  sizeof_sockaddr = 16;
  sizeof_in = 16;
  sizeof_in6 = 28;
  htons = λ p. p;
  ntohs = λ p. p % (uint16_max + 1);
}

in6_again :
    (a : SockaddrIn6)
    → IsIn6 a
    → record {
      sin6_family = a.sin6_family;
      sin6_port = a.sin6_port;
      sin6_addr = sized 16 a.sin6_addr;
      sin6_scope_id = a.sin6_scope_id % (uint32_max + 1);
    }
      ≡ a
in6_again a (l, b, s) =
    ap₂
      (λ bytes id. record {
        sin6_family = a.sin6_family;
        sin6_port = a.sin6_port;
        sin6_addr = bytes;
        sin6_scope_id = id;
      })
      (sized_same 16 a.sin6_addr l b) (omega arith)

pub headers-IsSockets : IsSockets headers
headers-IsSockets = record {
  in_in = λ a i.
      ap (λ bytes. record { sin_family = a.sin_family; sin_port = a.sin_port; sin_addr = bytes })
        (sized_same 4 a.sin_addr i.0 i.1);
  in6_in6 = in6_again;
  family_in = λ a. refl;
  family_in6 = λ a. refl;
  families = omega arith;
  smaller_in = omega arith;
  smaller_in6 = omega arith;
  host_order = λ p b. omega arith;
  port_range = λ p. omega arith;
  in_addr_size = λ s. (sized_lem 4 s.addr).0;
  in_addr_bytes = λ s. (sized_lem 4 s.addr).1;
  in6_addr_size = λ s. (sized_lem 16 s.addr).0;
  in6_addr_bytes = λ s. (sized_lem 16 s.addr).1;
  scope_range = λ s. omega arith;
}

abbrev home : IpAddress
home = record {
  version = ipv4;
  bytes = 127 ∷ 0 ∷ 0 ∷ 1 ∷ 0 ∷ 0 ∷ 0 ∷ 0 ∷ 0 ∷ 0 ∷ 0 ∷ 0 ∷ 0 ∷ 0 ∷ 0 ∷ 0 ∷ [];
}

abbrev home_6 : IpAddress
home_6 = record {
  version = ipv6;
  bytes = 0 ∷ 0 ∷ 0 ∷ 0 ∷ 0 ∷ 0 ∷ 0 ∷ 0 ∷ 0 ∷ 0 ∷ 0 ∷ 0 ∷ 0 ∷ 0 ∷ 0 ∷ 1 ∷ [];
}

abbrev web : SocketEndpoint
web = record { address = home; port = 80; scope_id = 0 }

abbrev web_alt : SocketEndpoint
web_alt = record { address = home; port = 8080; scope_id = 0 }

abbrev scoped : SocketEndpoint
scoped = record { address = home_6; port = 443; scope_id = 7 }

web-IsValid : IsValid web
web-IsValid = record {
  address = record { sixteen = refl; in_range = omega arith; padded = refl };
  port = omega arith;
  scope = omega arith;
  unscoped = λ e. refl;
}

web_alt-IsValid : IsValid web_alt
web_alt-IsValid = record {
  address = web-IsValid.address;
  port = omega arith;
  scope = omega arith;
  unscoped = λ e. refl;
}

scoped-IsValid : IsValid scoped
scoped-IsValid = record {
  address = record { sixteen = refl; in_range = omega arith; padded = tt };
  port = omega arith;
  scope = omega arith;
  unscoped = λ e. cc;
}

scoped_parses : parse stand_in (to_string stand_in scoped) ≡ some scoped
scoped_parses = parse_endpoint-to_string stand_in stand_in-IsInet scoped scoped-IsValid

parse_endpoint-to_string_example : parse stand_in (to_string stand_in scoped) ≡ some scoped
parse_endpoint-to_string_example =
    parse_endpoint-to_string stand_in stand_in-IsInet scoped scoped-IsValid

-- An IPv4 address in brackets is refused.
abbrev bracketed_home : List ℕ
bracketed_home = b'[' ∷ (IpAddress.to_string stand_in home ++ (b']' ∷ b':' ∷ b'8' ∷ b'0' ∷ []))

home_refused : parse stand_in bracketed_home ≡ none
unfolding parse parse_bracketed parse_scoped finish IpAddress.parse IpAddress.to_string find
home_refused = refl

parse_endpoint_iff_example :
    (parse stand_in (to_string stand_in scoped) ≡ some scoped)
    ↔ (IsValid scoped × Written stand_in (to_string stand_in scoped) scoped)
parse_endpoint_iff_example =
    parse_endpoint_iff stand_in stand_in-IsInet (to_string stand_in scoped) scoped

from_native-to_native_example :
    from_native headers (some (to_native headers scoped).0) (to_native headers scoped).1
    ≡ some scoped
from_native-to_native_example =
    from_native-to_native headers headers-IsSockets scoped scoped-IsValid

abbrev web_storage : Storage
web_storage = record { family = 2; port = 80; addr = 127 ∷ 0 ∷ 0 ∷ 1 ∷ []; scope = 0 }

-- As many bytes as the structure has, and one less.
web_read : from_native headers (some web_storage) 16 ≡ some web
unfolding from_native from_bytes
web_read = refl

web_cut : from_native headers (some web_storage) 15 ≡ none
unfolding from_native from_bytes
web_cut = refl

from_native_example : Reading headers web_storage 16
from_native_example = from_native_lem headers headers-IsSockets web_storage 16
