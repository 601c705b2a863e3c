-- ===== src/Net/SocketRuntime.antt =====
-- include/net/socket_runtime.hpp.
pub mod Lifetimes
use cpp_core_systems.Prelude.{
  ℕ, ◌+◌, ◌*◌, ◌%◌, ◌/◌, Bool, true, false, not, ◌||◌, ◌==◌, if◌then◌else◌,
}
use cpp_core_systems.Net.SocketError.{
  SocketError, Platform, posix, windows, Winsock, no_error, from_code,
}

-- WSAStartup and WSACleanup as functions on the state of the process. WSAStartup gets the version
-- asked for and returns its result and data.wVersion.
pub record Startup : Type 1 where
  pub State : Type 0
  pub wsastartup : ℕ → State → (ℕ × ℕ) × State
  pub wsacleanup : State → State

pub record SocketRuntime : Type 0 where
  pub error : SocketError
  pub initialized : Bool

-- LOBYTE, HIBYTE and MAKEWORD.
abbrev pub lobyte : ℕ → ℕ
lobyte w = w % 256

abbrev pub hibyte : ℕ → ℕ
hibyte w = w / 256 % 256

abbrev pub makeword : ℕ → ℕ → ℕ
makeword low high = low % 256 + high % 256 * 256

module _ (dll : Startup) where
  -- The constructor.
  unfoldable pub construct : Platform → dll.State → SocketRuntime × dll.State
  construct posix s = (record { error = no_error; initialized = true }, s)
  construct (windows wsa) s =
      let ((result, version), t) = dll.wsastartup (makeword 2 2) s in
      if not (result == 0)
      then (record { error = from_code result; initialized = false }, t)
      else if not (lobyte version == 2) || not (hibyte version == 2)
      then (
        record { error = from_code wsa.wsavernotsupported; initialized = false },
        dll.wsacleanup t,
      )
      else (record { error = no_error; initialized = true }, t)

  -- The destructor.
  unfoldable pub destroy : Platform → SocketRuntime → dll.State → dll.State
  destroy posix r s = s
  destroy (windows wsa) r s = if r.initialized then dll.wsacleanup s else s
