-- ===== src/Net/SocketError.antt =====
-- include/net/socket_error.hpp, and the results of include/net/socket_result.hpp. std::error_code
-- and std::errc are the standard library's; `Errors` is what the code uses of them. An int is the
-- bit pattern of its 32 bits.
pub mod Classes
pub mod Exclusive
pub mod Tests
use cpp_core_systems.Prelude.{
  ℕ, ◌-◌, ◌^◌, Bool, true, false, not, ◌&&◌, ◌||◌, ◌==◌, ltb, if◌then◌else◌, List, [], ◌∷◌, ◌++◌,
}
use cpp_core_systems.Net.Text.{decimal}

-- The enumerators of std::errc that the code here names.
pub data Errc : Type 0 where
  operation_would_block : Errc
  resource_unavailable_try_again : Errc
  interrupted : Errc
  connection_reset : Errc
  connection_refused : Errc
  timed_out : Errc
  address_in_use : Errc
  connection_aborted : Errc
  broken_pipe : Errc
  not_connected : Errc
  message_size : Errc
  bad_file_descriptor : Errc
  invalid_argument : Errc
  already_connected : Errc
  io_error : Errc

pub data Category : Type 0 where
  system_category : Category
  generic_category : Category

abbrev pub is_system : Category → Bool
is_system system_category = true
is_system generic_category = false

-- std::error_code, which is all that a SocketError holds.
pub record SocketError : Type 0 where
  pub value : ℕ
  pub category : Category

-- The error codes of WinSock2.h that the code names.
pub record Winsock : Type 0 where
  pub wsaewouldblock : ℕ
  pub wsaeintr : ℕ
  pub wsaeconnreset : ℕ
  pub wsaeconnrefused : ℕ
  pub wsaetimedout : ℕ
  pub wsaeaddrinuse : ℕ
  pub wsaeconnaborted : ℕ
  pub wsaenotconn : ℕ
  pub wsaemsgsize : ℕ
  pub wsavernotsupported : ℕ

-- Whether _WIN32 is defined.
pub data Platform : Type 0 where
  posix : Platform
  windows : Winsock → Platform

-- static_cast<int>(errc), operator==(error_code, error_condition) and error_code::message.
pub record Errors : Type 0 where
  pub platform : Platform
  pub errc_value : Errc → ℕ
  pub equivalent : SocketError → Errc → Bool
  pub message : SocketError → List ℕ

-- SocketError::Success.
abbrev pub no_error : SocketError
no_error = record { value = 0; category = system_category }

-- SocketError(int).
abbrev pub from_code : ℕ → SocketError
from_code code = record { value = code; category = system_category }

-- operator bool of an error_code.
abbrev pub has_error : SocketError → Bool
has_error e = not (e.value == 0)

abbrev pub is_success : SocketError → Bool
is_success e = not (has_error e)

abbrev same_category : Category → Category → Bool
same_category c d = if is_system c then is_system d else not (is_system d)

-- operator== of two SocketErrors, and of a SocketError and an error_code.
unfoldable pub equal : SocketError → SocketError → Bool
equal e f = same_category e.category f.category && (e.value == f.value)

-- operator==(const SocketError&, int).
abbrev pub equal_code : SocketError → ℕ → Bool
equal_code e code = e.value == code

module _ (std : Errors) where
  -- SocketError{ std::make_error_code(c) }.
  abbrev pub make_error : Errc → SocketError
  make_error c = record { value = std.errc_value c; category = generic_category }

  -- condition == c.
  abbrev pub same_errc : Errc → Errc → Bool
  same_errc condition c = std.errc_value condition == std.errc_value c

  -- The switch of Matches.
  abbrev pub winsock_matches : Winsock → SocketError → Errc → Bool
  winsock_matches wsa e condition =
      if e.value == wsa.wsaewouldblock
      then same_errc condition operation_would_block
        || same_errc condition resource_unavailable_try_again
      else if e.value == wsa.wsaeintr
      then same_errc condition interrupted
      else if e.value == wsa.wsaeconnreset
      then same_errc condition connection_reset
      else if e.value == wsa.wsaeconnrefused
      then same_errc condition connection_refused
      else if e.value == wsa.wsaetimedout
      then same_errc condition timed_out
      else if e.value == wsa.wsaeaddrinuse
      then same_errc condition address_in_use
      else if e.value == wsa.wsaeconnaborted
      then same_errc condition connection_aborted
      else if e.value == wsa.wsaenotconn
      then same_errc condition not_connected
      else if e.value == wsa.wsaemsgsize
      then same_errc condition message_size
      else std.equivalent e condition

  -- Matches, which operator==(const SocketError&, std::errc) is.
  abbrev pub matches_on : Platform → SocketError → Errc → Bool
  matches_on posix e condition = std.equivalent e condition
  matches_on (windows wsa) e condition =
      if is_system e.category then winsock_matches wsa e condition else std.equivalent e condition

  unfoldable pub matches : SocketError → Errc → Bool
  matches e condition = matches_on std.platform e condition

  abbrev pub is_would_block : SocketError → Bool
  is_would_block e = matches e operation_would_block || matches e resource_unavailable_try_again

  abbrev pub is_interrupted : SocketError → Bool
  is_interrupted e = matches e interrupted

  abbrev pub is_connection_reset : SocketError → Bool
  is_connection_reset e = matches e connection_reset

  abbrev pub is_connection_refused : SocketError → Bool
  is_connection_refused e = matches e connection_refused

  abbrev pub is_timed_out : SocketError → Bool
  is_timed_out e = matches e timed_out

  abbrev pub is_address_in_use : SocketError → Bool
  is_address_in_use e = matches e address_in_use

  abbrev pub is_transient : SocketError → Bool
  is_transient e = is_would_block e || is_interrupted e || is_timed_out e

  abbrev pub is_connection_aborted : SocketError → Bool
  is_connection_aborted e = matches e connection_aborted

  abbrev pub is_disconnected : SocketError → Bool
  is_disconnected e =
      is_connection_reset e
      || is_connection_aborted e
      || matches e broken_pipe
      || matches e not_connected

  -- The text of an int.
  abbrev pub int_text : ℕ → List ℕ
  int_text n = if ltb n (2 ^ 31) then decimal n else b'-' ∷ decimal (2 ^ 32 - n)

  -- operator<<.
  unfoldable pub print : SocketError → List ℕ
  print e = std.message e ++ (b' ' ∷ b'(' ∷ int_text e.value ++ (b')' ∷ []))

-- SocketResult<T>.
pub data SocketResult {ℓ} (A : Type ℓ) : Type ℓ where
  success : A → SocketResult A
  failure : SocketError → SocketResult A
