-- ===== src/Net/Wire.antt =====
-- A stand-in for one connection that the tests run on: what is sent on descriptor 4 arrives at
-- descriptor 5. A call moves three bytes at most, and every other call is interrupted.
use cpp_core_systems.Prelude.{
  ℕ, ◌≤◌, ◌≡◌, ◌≢◌, refl, sym, ◌∙◌, ap, arith, Bool, true, false, ◌==◌, leb, if◌then◌else◌, Option,
  none, some, List, [], ◌++◌, length, take, drop, length-take, take-append-drop, append_assoc,
  Bool-cases, inl, inr,
}
use cpp_core_systems.Net.SocketEndpoint.Tests.{headers, headers-IsSockets}
use cpp_core_systems.Net.SocketError
use cpp_core_systems.Net.SocketError.Tests.{codes}
use cpp_core_systems.Net.System.{System, IsSystem, SetsErrno, invalid_handle}
use cpp_core_systems.Net.SocketHelpers.Retry.{Settles}
use cpp_core_systems.Net.TcpSocket.{transfer_length}
use cpp_core_systems.Net.Transfer.Step.{IsStream, Sends, Receives}
use cpp_core_systems.Net.Transfer.Echo.{IsPipe}

-- What has arrived, what is under way, whether a signal is to arrive, and errno.
pub record Wire : Type 0 where
  pub arrived : List ℕ
  pub under_way : List ℕ
  pub signal : Bool
  pub errno : ℕ

abbrev failing : ℕ → Wire → Wire
failing code s = record {
  arrived = s.arrived;
  under_way = s.under_way;
  signal = false;
  errno = code;
}

abbrev at_most_three : ℕ → ℕ
at_most_three n = if leb n 3 then n else 3

abbrev wire_send : ℕ → List ℕ → ℕ → Wire → Option ℕ × Wire
wire_send h buffer n s =
    if s.signal
    then (none, failing 4 s)
    else if h == 4
    then (
      some (at_most_three n),
      record {
        arrived = s.arrived;
        under_way = s.under_way ++ take (at_most_three n) buffer;
        signal = true;
        errno = s.errno;
      },
    )
    else (none, failing 32 s)

abbrev wire_recv : ℕ → ℕ → Wire → Option (List ℕ) × Wire
wire_recv h n s =
    if s.signal
    then (none, failing 4 s)
    else if h == 5
    then (
      some (take (at_most_three n) s.under_way),
      record {
        arrived = s.arrived ++ take (at_most_three n) s.under_way;
        under_way = drop (at_most_three n) s.under_way;
        signal = true;
        errno = s.errno;
      },
    )
    else (none, failing 107 s)

abbrev pub wire : System
wire = record {
  State = Wire;
  headers = headers;
  opened = λ s d. false;
  errno = λ s. s.errno;
  socket = λ f t p s. (invalid_handle, failing 24 s);
  close = λ h s. s;
  connect = λ h a s. (false, failing 9 s);
  bind = λ h a s. (false, failing 9 s);
  listen = λ h n s. (false, failing 9 s);
  accept = λ h s. (invalid_handle, failing 9 s);
  setsockopt = λ h o v s. (true, s);
  so_nosigpipe = 0;
  so_rcvtimeo = 20;
  so_sndtimeo = 21;
  tcp_nodelay = 1;
  somaxconn = 128;
  send = wire_send;
  recv = wire_recv;
  recvmsg = λ h n s. (none, failing 9 s);
  getpeername = λ h s. (none, failing 9 s);
  getsockname = λ h s. (none, failing 9 s);
  sendto = λ h buffer a s. (none, failing 9 s);
  shutdown = λ h how s. (true, s);
  shut_rd = 0;
  shut_wr = 1;
  shut_rdwr = 2;
  sock_stream = 1;
  sock_dgram = 2;
  ipproto_tcp = 6;
  ipproto_udp = 17;
  nosigpipe = false;
}

pub wire-IsSystem : IsSystem wire
wire-IsSystem = record {
  socket_makes = λ f t p s. inl (refl, λ d. refl);
  accept_makes = λ h s. inl (refl, λ d. refl);
  close_loses = λ h s d. ground arith;
  connect_keeps = λ h a s d. refl;
  bind_keeps = λ h a s d. refl;
  setsockopt_keeps = λ h o v s d. refl;
  listen_keeps = λ h n s d. refl;
  getsockname_keeps = λ h s d. refl;
  send_bound = λ h buffer n s count e. ground arith;
  headers_laws = headers-IsSockets;
  recvmsg_bound = λ h n s bytes cut from e. cc;
  shutdown_keeps = λ h how s d. refl;
  sendto_keeps = λ h buffer a s d. refl;
  send_keeps = λ h buffer n s d. refl;
  recvmsg_keeps = λ h n s d. refl;
  recv_keeps = λ h n s d. refl;
}

pub wire-SetsErrno : SetsErrno wire
wire-SetsErrno = record {
  socket_sets = λ f t p s e z. omega arith;
  accept_sets = λ h s e z. omega arith;
  connect_sets = λ h a s e z. omega arith;
  bind_sets = λ h a s e z. omega arith;
  listen_sets = λ h n s e z. omega arith;
  shutdown_sets = λ h how s e z. cc;
  setsockopt_sets = λ h o v s e z. cc;
  send_sets = λ h buffer n s e z. ground arith;
  recv_sets = λ h n s e z. ground arith;
  recvmsg_sets = λ h n s e z. omega arith;
  sendto_sets = λ h buffer a s e z. omega arith;
  getpeername_sets = λ h s e z. omega arith;
  getsockname_sets = λ h s e z. omega arith;
}

-- What has been taken on descriptor 4, and given on descriptor 5.
abbrev wire_taken : Wire → ℕ → List ℕ
wire_taken s d = if d == 4 then s.arrived ++ s.under_way else []

abbrev wire_given : Wire → ℕ → List ℕ
wire_given s d = if d == 5 then s.arrived else []

pub wire_send_takes :
    (h : ℕ) (buffer : List ℕ) (n : ℕ) (s : Wire) (count : ℕ)
    → (wire_send h buffer n s).0 ≡ some count
    → wire_taken (wire_send h buffer n s).1 h ≡ wire_taken s h ++ take count buffer
wire_send_takes h buffer n s count e = elim (Bool-cases s.signal) [
  | inl signal ↦ absurd (ground arith)
  | inr quiet ↦ elim (Bool-cases (h == 4)) [
    | inr other ↦ absurd (ground arith)
    | inl here ↦
        let same : at_most_three n ≡ count = ground arith in
        rw (quiet, here)
          (sym (append_assoc s.arrived s.under_way (take (at_most_three n) buffer))
            ∙ ap (λ c. (s.arrived ++ s.under_way) ++ take c buffer) same)
  ]
]

pub wire_send_fails :
    (h : ℕ) (buffer : List ℕ) (n : ℕ) (s : Wire)
    → (wire_send h buffer n s).0 ≡ none
    → wire_taken (wire_send h buffer n s).1 h ≡ wire_taken s h
wire_send_fails h buffer n s e = ground arith

pub wire_send_gives :
    (h : ℕ) (buffer : List ℕ) (n : ℕ) (s : Wire) (d : ℕ)
    → wire_given (wire_send h buffer n s).1 d ≡ wire_given s d
wire_send_gives h buffer n s d = ground arith

pub wire_recv_gives :
    (h n : ℕ) (s : Wire) (bytes : List ℕ)
    → (wire_recv h n s).0 ≡ some bytes
    → (wire_given (wire_recv h n s).1 h ≡ wire_given s h ++ bytes) × (length bytes ≤ n)
wire_recv_gives h n s bytes e = elim (Bool-cases s.signal) [
  | inl signal ↦ absurd (ground arith)
  | inr quiet ↦ elim (Bool-cases (h == 5)) [
    | inr other ↦ absurd (ground arith)
    | inl here ↦
        let same : take (at_most_three n) s.under_way ≡ bytes = ground arith in
        (
          rw (quiet, here) (ap (λ us. s.arrived ++ us) same),
          ground (arith, length-take (at_most_three n) s.under_way, ap length same),
        )
  ]
]

pub wire_recv_fails :
    (h n : ℕ) (s : Wire)
    → (wire_recv h n s).0 ≡ none
    → wire_given (wire_recv h n s).1 h ≡ wire_given s h
wire_recv_fails h n s e = ground arith

pub wire_recv_takes :
    (h n : ℕ) (s : Wire) (d : ℕ) → wire_taken (wire_recv h n s).1 d ≡ wire_taken s d
wire_recv_takes h n s d = elim (Bool-cases s.signal) [
  | inl signal ↦ rw signal refl
  | inr quiet ↦ elim (Bool-cases (h == 5)) [
    | inr other ↦ rw (quiet, other) refl
    | inl here ↦
        rw (quiet, here)
          (ap (λ us. if d == 4 then us else [])
            (append_assoc s.arrived (take (at_most_three n) s.under_way)
                (drop (at_most_three n) s.under_way)
              ∙ ap (λ us. s.arrived ++ us) (take-append-drop (at_most_three n) s.under_way)))
  ]
]

pub wire_send_takes_here :
    (h : ℕ) (buffer : List ℕ) (n : ℕ) (s : Wire) (d : ℕ)
    → d ≢ h
    → wire_taken (wire_send h buffer n s).1 d ≡ wire_taken s d
wire_send_takes_here h buffer n s d other = ground arith

abbrev pub wire_stream : IsStream wire
wire_stream = record {
  taken = wire_taken;
  given = wire_given;
  send_takes = wire_send_takes;
  send_fails = wire_send_fails;
  send_gives = wire_send_gives;
  recv_gives = wire_recv_gives;
  recv_fails = wire_recv_fails;
  recv_takes = wire_recv_takes;
  send_takes_here = wire_send_takes_here;
  recv_gives_here = λ h n s d other. ground arith;
  shutdown_takes = λ h how s d. refl;
  shutdown_gives = λ h how s d. refl;
}

pub wire-IsPipe : IsPipe wire wire_stream 4 5
wire-IsPipe s = (s.under_way, refl)

-- A call that is interrupted exactly where a signal is to arrive.
settles {ℓ} :
    {A : Type ℓ} (call : Wire → Option A × Wire) (s : Wire)
    → ((t : Wire) → t.signal ≡ true → call t ≡ (none, failing 4 t))
    → ((t : Wire) → t.signal ≡ false → (call t).0 ≢ none)
    → Settles wire codes call 2 s
unfolding SocketError.matches
settles call s interrupts works = elim (Bool-cases s.signal) [
  | inr quiet ↦ (0, omega arith, tt, λ (e, again). works s quiet e)
  | inl signal ↦
      let once = interrupts s signal in
      let code : (call s).1.errno ≡ 4 = ap (λ p. p.1.errno) once in
      (
        1,
        omega arith,
        ((ap (λ p. p.0) once, ground arith), tt),
        λ (e, again). works (call s).1 (ap (λ p. p.1.signal) once) e,
      )
]

pub wire-Sends : Sends wire codes wire_stream 2 4
wire-Sends buffer s =
    settles (wire_send 4 buffer (transfer_length (length buffer))) s (λ t signal. rw signal refl)
      (λ t quiet e. ground arith)

pub wire-Receives : Receives wire codes wire_stream 2 5
wire-Receives size s =
    settles (wire_recv 5 (transfer_length size)) s (λ t signal. rw signal refl)
      (λ t quiet e. ground arith)
