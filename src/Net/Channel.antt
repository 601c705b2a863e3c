-- ===== src/Net/Channel.antt =====
-- A stand-in machine with one connection, from descriptor 5 to descriptor 6 and back, where a call
-- of send takes ten bytes at most.
use cpp_core_systems.Prelude.{
  ℕ, ◌+◌, ◌≤◌, ◌≡◌, ◌≢◌, refl, ap, arith, Bool, true, ◌==◌, leb, if◌then◌else◌, Option, none, some,
  List, [], ◌++◌, length, take, drop, length-append, take-append-drop, length-take, not, Bool-cases,
  inl, inr,
}
use cpp_core_systems.Net.SocketError.{matches}
use cpp_core_systems.Net.SocketError.Tests.{codes}
use cpp_core_systems.Net.System.{System, IsSystem}
use cpp_core_systems.Net.SocketHelpers.Retry.{Interrupted, some-injective}
use cpp_core_systems.Net.TcpListener.{accept_call}
use cpp_core_systems.Net.Machine.{
  peer, Machine, machine, machine-IsSystem, start, open_one, open_one-Makes,
}
use cpp_core_systems.Net.SocketEndpoint.Native.{to_native}
use cpp_core_systems.Net.Loopback.Waits.{IsFinite, IsPatient}

pub record Channel : Type 0 where
  pub ends : Machine
  pub to_client : List ℕ
  pub to_server : List ℕ

-- The machine behind a call.
abbrev on : Channel → Machine → Channel
on s m = record { ends = m; to_client = s.to_client; to_server = s.to_server }

abbrev at_most_ten : ℕ → ℕ
at_most_ten n = if leb n 10 then n else 10

abbrev channel_send : ℕ → List ℕ → ℕ → Channel → Option ℕ × Channel
channel_send h buffer n s =
    if h == 5
    then (
      some (at_most_ten n),
      record {
        ends = s.ends;
        to_client = s.to_client;
        to_server = s.to_server ++ take (at_most_ten n) buffer;
      },
    )
    else if h == 6
    then (
      some (at_most_ten n),
      record {
        ends = s.ends;
        to_client = s.to_client ++ take (at_most_ten n) buffer;
        to_server = s.to_server;
      },
    )
    else (some 0, s)

abbrev channel_recv : ℕ → ℕ → Channel → Option (List ℕ) × Channel
channel_recv h n s =
    if h == 5
    then (
      some (take n s.to_client),
      record { ends = s.ends; to_client = drop n s.to_client; to_server = s.to_server },
    )
    else if h == 6
    then (
      some (take n s.to_server),
      record { ends = s.ends; to_client = s.to_client; to_server = drop n s.to_server },
    )
    else (some [], s)

-- Whole datagrams, between a server's descriptor 4 and a client's descriptor 5.
abbrev channel_sendto : ℕ → List ℕ → machine.headers.Storage × ℕ → Channel → Option ℕ × Channel
channel_sendto h buffer a s = (
  some (length buffer),
  (if h == 5
      then record { ends = s.ends; to_client = s.to_client; to_server = buffer }
      else record { ends = s.ends; to_client = buffer; to_server = s.to_server }),
)

abbrev channel_recvmsg :
    ℕ → ℕ → Channel → Option (List ℕ × Bool × (machine.headers.Storage × ℕ)) × Channel
channel_recvmsg h n s =
    let bytes = if h == 5 then s.to_client else s.to_server in
    (some (take n bytes, not (leb (length bytes) n), to_native machine.headers peer), s)

abbrev pub channel : System
channel = record {
  State = Channel;
  headers = machine.headers;
  opened = λ s. s.ends.opened;
  errno = λ s. s.ends.errno;
  socket = λ f t p s. let (h, m) = machine.socket f t p s.ends in (h, on s m);
  close = λ h s. on s (machine.close h s.ends);
  connect = λ h a s. (true, s);
  bind = λ h a s. (true, s);
  listen = λ h n s. (true, s);
  accept = λ h s. let (h, m) = open_one s.ends in (h, on s m);
  setsockopt = λ h o v s. (true, s);
  so_nosigpipe = 0;
  so_rcvtimeo = 20;
  so_sndtimeo = 21;
  tcp_nodelay = 1;
  somaxconn = 128;
  send = channel_send;
  recv = channel_recv;
  recvmsg = channel_recvmsg;
  getpeername = λ h s. (none, s);
  getsockname = λ h s. ((machine.getsockname h s.ends).0, s);
  sendto = channel_sendto;
  shutdown = λ h how s. (true, s);
  shut_rd = 0;
  shut_wr = 1;
  shut_rdwr = 2;
  sock_stream = 1;
  sock_dgram = 2;
  ipproto_tcp = 6;
  ipproto_udp = 17;
  nosigpipe = true;
}

recvmsg_bound :
    (h n : ℕ) (s : Channel) (bytes : List ℕ) (cut : Bool) (from : machine.headers.Storage × ℕ)
    → (channel_recvmsg h n s).0 ≡ some (bytes, cut, from)
    → length bytes ≤ n
recvmsg_bound h n s bytes cut from e =
    let all = if h == 5 then s.to_client else s.to_server in
    let same : take n all ≡ bytes = ap (λ m. m.0) (some-injective _ (bytes, cut, from) e) in
    omega (arith, ap length same, length-take n all)

pub channel-IsSystem : IsSystem channel
channel-IsSystem = record {
  socket_makes = λ f t p s. open_one-Makes s.ends;
  accept_makes = λ h s. open_one-Makes s.ends;
  close_loses = λ h s d. refl;
  connect_keeps = λ h a s d. refl;
  bind_keeps = λ h a s d. refl;
  setsockopt_keeps = λ h o v s d. refl;
  listen_keeps = λ h n s d. refl;
  getsockname_keeps = λ h s d. refl;
  send_bound = λ h buffer n s count e. ground arith;
  headers_laws = machine-IsSystem.headers_laws;
  recvmsg_bound = recvmsg_bound;
  shutdown_keeps = λ h how s d. refl;
  sendto_keeps = λ h buffer a s d. ground arith;
  send_keeps = λ h buffer n s d. ground arith;
  recvmsg_keeps = λ h n s d. refl;
  recv_keeps = λ h n s d. ground arith;
}

abbrev waits : Channel → ℕ → ℕ
waits s h = if h == 5 then length s.to_client else if h == 6 then length s.to_server else 0

taken_off : (n : ℕ) (xs : List ℕ) → length (drop n xs) + length (take n xs) ≡ length xs
taken_off n xs =
    let parts = ap length (take-append-drop n xs) in
    omega (arith, length-append (take n xs) (drop n xs))

channel_takes :
    (h n : ℕ) (s : Channel) (bytes : List ℕ)
    → (channel_recv h n s).0 ≡ some bytes
    → waits (channel_recv h n s).1 h + length bytes ≤ waits s h
channel_takes h n s bytes e = elim (Bool-cases (h == 5)) [
  | inl client ↦
      let same : take n s.to_client ≡ bytes = some-injective _ bytes (rw client at e) in
      let parts = taken_off n s.to_client in rw client (let size = ap length same in omega arith)
  | inr other ↦ elim (Bool-cases (h == 6)) [
    | inl server ↦
        let same : take n s.to_server ≡ bytes = some-injective _ bytes (rw (other, server) at e) in
        let parts = taken_off n s.to_server in
        rw (other, server) (let size = ap length same in omega arith)
    | inr neither ↦
        let same : [] ≡ bytes = some-injective _ bytes (rw (other, neither) at e) in
        rw (other, neither) (let size = ap length same in omega arith)
  ]
]

pub channel-IsFinite : IsFinite channel
channel-IsFinite = record {
  waiting = waits;
  recv_takes = channel_takes;
  recv_fails = λ h n s e. ground arith;
  send_waits = λ h buffer n s. ground arith;
}

send-some : (h : ℕ) (buffer : List ℕ) (n : ℕ) (s : Channel) → (channel_send h buffer n s).0 ≢ none
send-some h buffer n s e = ground arith

recv-some : (h n : ℕ) (s : Channel) → (channel_recv h n s).0 ≢ none
recv-some h n s e = ground arith

-- No descriptor is left, which is no interruption.
full : (h : ℕ) (s : Channel) → Interrupted channel codes (accept_call channel codes h) s → ⊥
unfolding matches
full h s (e, stop) = ground arith

pub channel-IsPatient : IsPatient channel codes 1
channel-IsPatient = record {
  accepts = λ h s. (0, omega arith, tt, full h s);
  sends = λ h buffer n s. (0, omega arith, tt, λ (e, again). send-some h buffer n s e);
  receives = λ h n s. (0, omega arith, tt, λ (e, again). recv-some h n s e);
}

abbrev pub before : Channel
before = record { ends = start; to_client = []; to_server = [] }
