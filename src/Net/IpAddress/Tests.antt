-- ===== src/Net/IpAddress/Tests.antt =====
-- Runs of IPAddress, and each property at concrete addresses.
use cpp_core_systems.Prelude.{ℕ, ◌<◌, ◌≡◌, refl, ◌↔◌, true, some, List, [], ◌∷◌, arith, length}
use cpp_core_systems.Net.StandIn.{stand_in, stand_in-IsInet}
use cpp_core_systems.Net.IpAddress.{
  ipv4, ipv6, outside, IpAddress, parse, to_string, loopback, equal,
}
use cpp_core_systems.Net.IpAddress.Valid.{IsValid}
use cpp_core_systems.Net.IpAddress.Print.{Form, parse-to_string}
use cpp_core_systems.Net.IpAddress.Order.{equal_iff}

abbrev home : IpAddress
home = record {
  version = ipv4;
  bytes = 127 ∷ 0 ∷ 0 ∷ 1 ∷ 0 ∷ 0 ∷ 0 ∷ 0 ∷ 0 ∷ 0 ∷ 0 ∷ 0 ∷ 0 ∷ 0 ∷ 0 ∷ 0 ∷ [];
}

abbrev anywhere : IpAddress
anywhere = record {
  version = ipv4;
  bytes = 0 ∷ 0 ∷ 0 ∷ 0 ∷ 0 ∷ 0 ∷ 0 ∷ 0 ∷ 0 ∷ 0 ∷ 0 ∷ 0 ∷ 0 ∷ 0 ∷ 0 ∷ 0 ∷ [];
}

abbrev home_6 : IpAddress
home_6 = record {
  version = ipv6;
  bytes = 0 ∷ 0 ∷ 0 ∷ 0 ∷ 0 ∷ 0 ∷ 0 ∷ 0 ∷ 0 ∷ 0 ∷ 0 ∷ 0 ∷ 0 ∷ 0 ∷ 0 ∷ 1 ∷ [];
}

home-IsValid : IsValid home
home-IsValid = record { sixteen = refl; in_range = omega arith; padded = refl }

home_6-IsValid : IsValid home_6
home_6-IsValid = record { sixteen = refl; in_range = omega arith; padded = tt }

abbrev home_text : List ℕ
home_text = b'1' ∷ b'2' ∷ b'7' ∷ b'0' ∷ b'0' ∷ b'0' ∷ b'0' ∷ b'0' ∷ b'0' ∷ b'0' ∷ b'0' ∷ b'1' ∷ []

home_is_loopback : loopback ipv4 ≡ home
unfolding loopback
home_is_loopback = refl

other_version_is_ipv6 : loopback (outside 5) ≡ home_6
unfolding loopback
other_version_is_ipv6 = refl

parse-to_string_example :
    (parse stand_in (to_string stand_in home_6) ≡ some home_6)
    × Form ipv6 (to_string stand_in home_6)
    × (0 < length (to_string stand_in home_6))
parse-to_string_example = parse-to_string stand_in stand_in-IsInet home_6 home_6-IsValid

equal_iff_example : (equal home home_6 ≡ true) ↔ (home ≡ home_6)
equal_iff_example = equal_iff home home_6 home-IsValid home_6-IsValid
