-- ===== src/Net/Machine.antt =====
-- A machine that stands in for the system's socket calls.
use cpp_core_systems.Prelude.{
  ℕ, zero, suc, ◌+◌, ◌<◌, ◌≡◌, refl, ◌⊎◌, inl, inr, arith, Bool, true, false, not, ◌&&◌, ◌==◌,
  if◌then◌else◌, leb, none, some, [], ◌∷◌, length, Bool-cases,
}
use cpp_core_systems.Net.IpAddress.{ipv4}
use cpp_core_systems.Net.SocketEndpoint.{SocketEndpoint}
use cpp_core_systems.Net.SocketEndpoint.Tests.{headers, headers-IsSockets}
use cpp_core_systems.Net.SocketEndpoint.Native.{to_native}
use cpp_core_systems.Net.System.{System, IsSystem, invalid_handle, Makes}

-- The open descriptors, the signals that are still to arrive, of which two interrupt a call, and
-- errno.
pub record Machine : Type 0 where
  pub opened : ℕ → Bool
  pub signals : ℕ
  pub errno : ℕ

-- The first of eight descriptors from 3 on that is not open.
unfoldable pub first_unused : ℕ → ℕ → (ℕ → Bool) → ℕ
first_unused zero d opened = invalid_handle
first_unused (suc k) d opened =
    let rest = first_unused k (suc d) opened in if opened d then rest else d

abbrev pub open_one : Machine → ℕ × Machine
open_one s =
    let h = first_unused 8 3 s.opened in
    (
      h,
      record {
        opened = λ d. if (d == h) && not (h == invalid_handle) then true else s.opened d;
        signals = s.signals;
        errno = if h == invalid_handle then 24 else s.errno;
      },
    )

abbrev pub signalled : Machine → Machine
signalled s = record { opened = s.opened; signals = if leb 2 s.signals then 1 else 0; errno = 4 }

abbrev pub peer : SocketEndpoint
peer = record {
  address = record {
    version = ipv4;
    bytes = 127 ∷ 0 ∷ 0 ∷ 1 ∷ 0 ∷ 0 ∷ 0 ∷ 0 ∷ 0 ∷ 0 ∷ 0 ∷ 0 ∷ 0 ∷ 0 ∷ 0 ∷ 0 ∷ [];
  };
  port = 80;
  scope_id = 0;
}

abbrev pub machine : System
machine = record {
  State = Machine;
  headers = headers;
  opened = λ s. s.opened;
  errno = λ s. s.errno;
  socket = λ f t p s. open_one s;
  close = λ h s. record {
    opened = λ d. if d == h then false else s.opened d;
    signals = s.signals;
    errno = s.errno;
  };
  connect = λ h a s. (true, s);
  bind = λ h a s. (true, s);
  listen = λ h n s. (true, s);
  accept = λ h s. if s.signals == 0 then open_one s else (invalid_handle, signalled s);
  setsockopt = λ h o v s. (true, s);
  so_nosigpipe = 0;
  so_rcvtimeo = 20;
  so_sndtimeo = 21;
  tcp_nodelay = 1;
  somaxconn = 128;
  send = λ h buffer n s. if s.signals == 0 then (some n, s) else (none, signalled s);
  recv = λ h n s. (some [], s);
  recvmsg = λ h n s.
      if s.signals == 0 then (some ([], false, to_native headers peer), s) else (none, signalled s);
  getpeername = λ h s. (some (to_native headers peer), s);
  getsockname = λ h s. (some (to_native headers peer), s);
  sendto = λ h buffer a s. (some (length buffer), s);
  shutdown = λ h how s. (true, s);
  shut_rd = 0;
  shut_wr = 1;
  shut_rdwr = 2;
  sock_stream = 1;
  sock_dgram = 2;
  ipproto_tcp = 6;
  ipproto_udp = 17;
  nosigpipe = true;
}

first_unused_lem :
    (k d : ℕ) (opened : ℕ → Bool)
    → d + k < invalid_handle
    → (first_unused k d opened ≡ invalid_handle)
      ⊎ ((opened (first_unused k d opened) ≡ false) × (first_unused k d opened < invalid_handle))
unfolding first_unused
first_unused_lem zero d opened room = inl refl
first_unused_lem (suc k) d opened room = elim (Bool-cases (opened d)) [
  | inl used ↦ rw used (first_unused_lem k (suc d) opened (omega arith))
  | inr free ↦ rw free (inr (free, omega arith))
]

pub open_one-Makes : (s : Machine) → Makes machine (open_one s) s
open_one-Makes s = elim (first_unused_lem 8 3 s.opened (omega arith)) [
  | inl full ↦ inl (full, λ d. ground arith)
  | inr (unused, bound) ↦ inr ((λ e. omega arith), unused, λ d. ground arith)
]

accept-Makes :
    (s : Machine)
    → Makes machine (if s.signals == 0 then open_one s else (invalid_handle, signalled s)) s
accept-Makes s = elim (Bool-cases (s.signals == 0)) [
  | inl quiet ↦ rw quiet (open_one-Makes s)
  | inr signal ↦ rw signal (inl (refl, λ d. refl))
]

pub machine-IsSystem : IsSystem machine
machine-IsSystem = record {
  socket_makes = λ f t p s. open_one-Makes s;
  accept_makes = λ h s. accept-Makes s;
  close_loses = λ h s d. refl;
  connect_keeps = λ h a s d. refl;
  bind_keeps = λ h a s d. refl;
  setsockopt_keeps = λ h o v s d. refl;
  listen_keeps = λ h n s d. refl;
  getsockname_keeps = λ h s d. refl;
  send_bound = λ h buffer n s count e. ground arith;
  headers_laws = headers-IsSockets;
  recvmsg_bound = λ h n s bytes cut from e. ground arith;
  shutdown_keeps = λ h how s d. refl;
  sendto_keeps = λ h buffer a s d. refl;
  send_keeps = λ h buffer n s d. ground arith;
  recvmsg_keeps = λ h n s d. ground arith;
  recv_keeps = λ h n s d. refl;
}

-- Nothing is open, and two signals arrive.
abbrev pub start : Machine
start = record { opened = λ d. d == 3; signals = 2; errno = 0 }
