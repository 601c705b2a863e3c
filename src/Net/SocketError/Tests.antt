-- ===== src/Net/SocketError/Tests.antt =====
-- The error numbers of Linux, and what the predicates say of some of them.
use cpp_core_systems.Prelude.{
  ℕ, ◌≡◌, ◌≢◌, refl, sym, ◌∙◌, ap, arith, true, ◌==◌, if◌then◌else◌, [], ◌∷◌,
}
use cpp_core_systems.Net.Text
use cpp_core_systems.Net.SocketError
use cpp_core_systems.Net.SocketError.{Errors}
use cpp_core_systems.Net.SocketError.Exclusive.{exclusive}
use cpp_core_systems.Net.SocketError.Classes.{IsErrors, normal, Class}

-- errno.h of Linux.
abbrev pub linux_value : SocketError.Errc → ℕ
linux_value SocketError.operation_would_block = 11
linux_value SocketError.resource_unavailable_try_again = 11
linux_value SocketError.interrupted = 4
linux_value SocketError.connection_reset = 104
linux_value SocketError.connection_refused = 111
linux_value SocketError.timed_out = 110
linux_value SocketError.address_in_use = 98
linux_value SocketError.connection_aborted = 103
linux_value SocketError.broken_pipe = 32
linux_value SocketError.not_connected = 107
linux_value SocketError.message_size = 90
linux_value SocketError.bad_file_descriptor = 9
linux_value SocketError.invalid_argument = 22
linux_value SocketError.already_connected = 106
linux_value SocketError.io_error = 5

abbrev pub codes : Errors
codes = record {
  platform = SocketError.posix;
  errc_value = linux_value;
  equivalent = λ e c. e.value == linux_value c;
  message = λ e. [];
}

class_at : ℕ → SocketError.Errc
class_at n =
    if n == 11
    then SocketError.operation_would_block
    else if n == 4
    then SocketError.interrupted
    else if n == 104
    then SocketError.connection_reset
    else if n == 111
    then SocketError.connection_refused
    else if n == 110
    then SocketError.timed_out
    else if n == 98
    then SocketError.address_in_use
    else if n == 103
    then SocketError.connection_aborted
    else if n == 32
    then SocketError.broken_pipe
    else if n == 107
    then SocketError.not_connected
    else if n == 90
    then SocketError.message_size
    else if n == 9
    then SocketError.bad_file_descriptor
    else if n == 22
    then SocketError.invalid_argument
    else if n == 106
    then SocketError.already_connected
    else SocketError.io_error

class_at-value : (c : SocketError.Errc) → class_at (linux_value c) ≡ normal c
unfolding class_at
class_at-value SocketError.operation_would_block = refl
class_at-value SocketError.resource_unavailable_try_again = refl
class_at-value SocketError.interrupted = refl
class_at-value SocketError.connection_reset = refl
class_at-value SocketError.connection_refused = refl
class_at-value SocketError.timed_out = refl
class_at-value SocketError.address_in_use = refl
class_at-value SocketError.connection_aborted = refl
class_at-value SocketError.broken_pipe = refl
class_at-value SocketError.not_connected = refl
class_at-value SocketError.message_size = refl
class_at-value SocketError.bad_file_descriptor = refl
class_at-value SocketError.invalid_argument = refl
class_at-value SocketError.already_connected = refl
class_at-value SocketError.io_error = refl

value-nonzero : (c : SocketError.Errc) → linux_value c ≢ 0
value-nonzero SocketError.operation_would_block e = omega arith
value-nonzero SocketError.resource_unavailable_try_again e = omega arith
value-nonzero SocketError.interrupted e = omega arith
value-nonzero SocketError.connection_reset e = omega arith
value-nonzero SocketError.connection_refused e = omega arith
value-nonzero SocketError.timed_out e = omega arith
value-nonzero SocketError.address_in_use e = omega arith
value-nonzero SocketError.connection_aborted e = omega arith
value-nonzero SocketError.broken_pipe e = omega arith
value-nonzero SocketError.not_connected e = omega arith
value-nonzero SocketError.message_size e = omega arith
value-nonzero SocketError.bad_file_descriptor e = omega arith
value-nonzero SocketError.invalid_argument e = omega arith
value-nonzero SocketError.already_connected e = omega arith
value-nonzero SocketError.io_error e = omega arith

pub codes-IsErrors : IsErrors codes
codes-IsErrors = record {
  distinct = λ c d e. sym (class_at-value c) ∙ ap class_at e ∙ class_at-value d;
  nonzero = value-nonzero;
  one_condition = λ e c d at_c at_d. ground arith;
  makes = λ c. ground arith;
}

-- Winsock's code of a reset connection, on Windows.
abbrev winsock_codes : Errors
winsock_codes = record {
  platform = SocketError.windows (record {
    wsaewouldblock = 10035;
    wsaeintr = 10004;
    wsaeconnreset = 10054;
    wsaeconnrefused = 10061;
    wsaetimedout = 10060;
    wsaeaddrinuse = 10048;
    wsaeconnaborted = 10053;
    wsaenotconn = 10057;
    wsaemsgsize = 10040;
    wsavernotsupported = 10092;
  });
  errc_value = linux_value;
  equivalent = λ e c. e.value == linux_value c;
  message = λ e. b'r' ∷ [];
}

reset_is : SocketError.is_disconnected winsock_codes (SocketError.from_code 10054) ≡ true
unfolding SocketError.matches
reset_is = refl

printed_reset :
    SocketError.print winsock_codes (SocketError.from_code 10054)
    ≡ b'r' ∷ b' ' ∷ b'(' ∷ b'1' ∷ b'0' ∷ b'0' ∷ b'5' ∷ b'4' ∷ b')' ∷ []
unfolding SocketError.print Text.decimal Text.digits
printed_reset = refl

exclusive_example : Class.timed_out ≡ Class.timed_out
unfolding SocketError.matches
exclusive_example =
    exclusive codes codes-IsErrors Class.timed_out Class.timed_out (SocketError.from_code 110) refl
      refl
