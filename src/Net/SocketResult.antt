-- ===== src/Net/SocketResult.antt =====
-- include/net/socket_result.hpp: what is asked of a result, and the specialization for void.
use cpp_core_systems.Prelude.{◌≡◌, refl, arith, Bool, true, false}
use cpp_core_systems.Net.SocketError.{
  SocketError, no_error, is_success, SocketResult, success, failure,
}
use cpp_core_systems.Net.Asserts.{Sound}

abbrev pub has_value {ℓ} : {A : Type ℓ} → SocketResult A → Bool
has_value (success x) = true
has_value (failure error) = false

-- Error.
abbrev pub error_of {ℓ} : {A : Type ℓ} → SocketResult A → SocketError
error_of (success x) = no_error
error_of (failure error) = error

-- SocketResult<void>.
pub record VoidResult : Type 0 where
  pub error : SocketError

abbrev pub void_success : VoidResult
void_success = record { error = no_error }

abbrev pub void_failure : SocketError → VoidResult
void_failure e = record { error = e }

abbrev pub void_has_value : VoidResult → Bool
void_has_value r = is_success r.error

-- Where the sources return a SocketResult<void>, the functions here return a result of the
-- one-element type.
abbrev pub as_void : SocketResult (Unit {0}) → VoidResult
as_void (success x) = void_success
as_void (failure e) = void_failure e

-- For a result without a value whose failure, if it is one, has an error: SocketResult<void>, which
-- keeps only an error code, has a value exactly where the general result has one, and gives the
-- same error.
pub as_void_lem :
    (r : SocketResult (Unit {0}))
    → Sound r
    → (void_has_value (as_void r) ≡ has_value r) × ((as_void r).error ≡ error_of r)
as_void_lem (success x) sound = (refl, refl)
as_void_lem (failure e) sound = (ground arith, refl)
