-- ===== src/Net/Link.antt =====
-- A stand-in for one connection in both directions, between the descriptors 4 and 5.
use cpp_core_systems.Prelude.{
  ℕ, ◌≤◌, ◌≡◌, ◌≢◌, refl, sym, ◌∙◌, ap, arith, true, false, ◌==◌, if◌then◌else◌, Option, none, some,
  List, [], ◌++◌, length, take, drop, length-take, take-append-drop, append_assoc, Bool-cases, inl,
  inr,
}
use cpp_core_systems.Net.SocketEndpoint.Tests.{headers, headers-IsSockets}
use cpp_core_systems.Net.SocketError.Tests.{codes}
use cpp_core_systems.Net.System.{System, IsSystem, SetsErrno, invalid_handle}
use cpp_core_systems.Net.SocketHelpers.Retry.{some-injective}
use cpp_core_systems.Net.Transfer.Step.{IsStream, Sends, Receives}
use cpp_core_systems.Net.Transfer.Echo.{IsPipe}

-- What has arrived at each descriptor, what is under way to it, and errno.
pub record Link : Type 0 where
  pub at_five : List ℕ
  pub to_five : List ℕ
  pub at_four : List ℕ
  pub to_four : List ℕ
  pub errno : ℕ

abbrev failing : ℕ → Link → Link
failing code s = record {
  at_five = s.at_five;
  to_five = s.to_five;
  at_four = s.at_four;
  to_four = s.to_four;
  errno = code;
}

abbrev link_send : ℕ → List ℕ → ℕ → Link → Option ℕ × Link
link_send h buffer n s =
    if h == 4
    then (
      some n,
      record {
        at_five = s.at_five;
        to_five = s.to_five ++ take n buffer;
        at_four = s.at_four;
        to_four = s.to_four;
        errno = s.errno;
      },
    )
    else if h == 5
    then (
      some n,
      record {
        at_five = s.at_five;
        to_five = s.to_five;
        at_four = s.at_four;
        to_four = s.to_four ++ take n buffer;
        errno = s.errno;
      },
    )
    else (none, failing 32 s)

abbrev link_recv : ℕ → ℕ → Link → Option (List ℕ) × Link
link_recv h n s =
    if h == 5
    then (
      some (take n s.to_five),
      record {
        at_five = s.at_five ++ take n s.to_five;
        to_five = drop n s.to_five;
        at_four = s.at_four;
        to_four = s.to_four;
        errno = s.errno;
      },
    )
    else if h == 4
    then (
      some (take n s.to_four),
      record {
        at_five = s.at_five;
        to_five = s.to_five;
        at_four = s.at_four ++ take n s.to_four;
        to_four = drop n s.to_four;
        errno = s.errno;
      },
    )
    else (none, failing 107 s)

abbrev pub link : System
link = record {
  State = Link;
  headers = headers;
  opened = λ s d. false;
  errno = λ s. s.errno;
  socket = λ f t p s. (invalid_handle, failing 24 s);
  close = λ h s. s;
  connect = λ h a s. (false, failing 9 s);
  bind = λ h a s. (false, failing 9 s);
  listen = λ h n s. (false, failing 9 s);
  accept = λ h s. (invalid_handle, failing 9 s);
  setsockopt = λ h o v s. (true, s);
  so_nosigpipe = 0;
  so_rcvtimeo = 20;
  so_sndtimeo = 21;
  tcp_nodelay = 1;
  somaxconn = 128;
  send = link_send;
  recv = link_recv;
  recvmsg = λ h n s. (none, failing 9 s);
  getpeername = λ h s. (none, failing 9 s);
  getsockname = λ h s. (none, failing 9 s);
  sendto = λ h buffer a s. (none, failing 9 s);
  shutdown = λ h how s. (true, s);
  shut_rd = 0;
  shut_wr = 1;
  shut_rdwr = 2;
  sock_stream = 1;
  sock_dgram = 2;
  ipproto_tcp = 6;
  ipproto_udp = 17;
  nosigpipe = false;
}

pub link-IsSystem : IsSystem link
link-IsSystem = record {
  socket_makes = λ f t p s. inl (refl, λ d. refl);
  accept_makes = λ h s. inl (refl, λ d. refl);
  close_loses = λ h s d. ground arith;
  connect_keeps = λ h a s d. refl;
  bind_keeps = λ h a s d. refl;
  setsockopt_keeps = λ h o v s d. refl;
  listen_keeps = λ h n s d. refl;
  getsockname_keeps = λ h s d. refl;
  send_bound = λ h buffer n s count e. ground arith;
  headers_laws = headers-IsSockets;
  recvmsg_bound = λ h n s bytes cut from e. cc;
  shutdown_keeps = λ h how s d. refl;
  sendto_keeps = λ h buffer a s d. refl;
  send_keeps = λ h buffer n s d. refl;
  recvmsg_keeps = λ h n s d. refl;
  recv_keeps = λ h n s d. refl;
}

pub link-SetsErrno : SetsErrno link
link-SetsErrno = record {
  socket_sets = λ f t p s e z. omega arith;
  accept_sets = λ h s e z. omega arith;
  connect_sets = λ h a s e z. omega arith;
  bind_sets = λ h a s e z. omega arith;
  listen_sets = λ h n s e z. omega arith;
  shutdown_sets = λ h how s e z. cc;
  setsockopt_sets = λ h o v s e z. cc;
  send_sets = λ h buffer n s e z. ground arith;
  recv_sets = λ h n s e z. ground arith;
  recvmsg_sets = λ h n s e z. omega arith;
  sendto_sets = λ h buffer a s e z. omega arith;
  getpeername_sets = λ h s e z. omega arith;
  getsockname_sets = λ h s e z. omega arith;
}

-- What has been taken on a descriptor, and given on it.
abbrev link_taken : Link → ℕ → List ℕ
link_taken s d =
    if d == 4 then s.at_five ++ s.to_five else if d == 5 then s.at_four ++ s.to_four else []

abbrev link_given : Link → ℕ → List ℕ
link_given s d = if d == 5 then s.at_five else if d == 4 then s.at_four else []

pub link_send_takes :
    (h : ℕ) (buffer : List ℕ) (n : ℕ) (s : Link) (count : ℕ)
    → (link_send h buffer n s).0 ≡ some count
    → link_taken (link_send h buffer n s).1 h ≡ link_taken s h ++ take count buffer
link_send_takes h buffer n s count e = elim (Bool-cases (h == 4)) [
  | inl four ↦
      let same : n ≡ count = some-injective n count (rw four at e) in
      rw four (
        sym (append_assoc s.at_five s.to_five (take n buffer))
        ∙ ap (λ c. (s.at_five ++ s.to_five) ++ take c buffer) same)
  | inr other ↦ elim (Bool-cases (h == 5)) [
    | inl five ↦
        let same : n ≡ count = some-injective n count (rw (other, five) at e) in
        rw (other, five)
          (sym (append_assoc s.at_four s.to_four (take n buffer))
            ∙ ap (λ c. (s.at_four ++ s.to_four) ++ take c buffer) same)
    | inr neither ↦ absurd (ground arith)
  ]
]

pub link_recv_gives :
    (h n : ℕ) (s : Link) (bytes : List ℕ)
    → (link_recv h n s).0 ≡ some bytes
    → (link_given (link_recv h n s).1 h ≡ link_given s h ++ bytes) × (length bytes ≤ n)
link_recv_gives h n s bytes e = elim (Bool-cases (h == 5)) [
  | inl five ↦
      let same : take n s.to_five ≡ bytes = some-injective _ bytes (rw five at e) in
      (
        rw five (ap (λ us. s.at_five ++ us) same),
        omega (arith, length-take n s.to_five, ap length same),
      )
  | inr other ↦ elim (Bool-cases (h == 4)) [
    | inl four ↦
        let same : take n s.to_four ≡ bytes = some-injective _ bytes (rw (other, four) at e) in
        (
          rw (other, four) (ap (λ us. s.at_four ++ us) same),
          omega (arith, length-take n s.to_four, ap length same),
        )
    | inr neither ↦ absurd (ground arith)
  ]
]

moved_on : (n : ℕ) (xs ys : List ℕ) → (xs ++ take n ys) ++ drop n ys ≡ xs ++ ys
moved_on n xs ys =
    append_assoc xs (take n ys) (drop n ys) ∙ ap (λ us. xs ++ us) (take-append-drop n ys)

pub link_recv_takes :
    (h n : ℕ) (s : Link) (d : ℕ) → link_taken (link_recv h n s).1 d ≡ link_taken s d
link_recv_takes h n s d = elim (Bool-cases (h == 5)) [
  | inl five ↦ rw five (
      ap (λ us. if d == 4 then us else if d == 5 then s.at_four ++ s.to_four else [])
        (moved_on n s.at_five s.to_five))
  | inr other ↦ elim (Bool-cases (h == 4)) [
    | inl four ↦
        rw (other, four)
          (ap (λ us. if d == 4 then s.at_five ++ s.to_five else if d == 5 then us else [])
            (moved_on n s.at_four s.to_four))
    | inr neither ↦ rw (other, neither) refl
  ]
]

pub link_send_takes_here :
    (h : ℕ) (buffer : List ℕ) (n : ℕ) (s : Link) (d : ℕ)
    → d ≢ h
    → link_taken (link_send h buffer n s).1 d ≡ link_taken s d
link_send_takes_here h buffer n s d other = ground arith

pub link_recv_gives_here :
    (h n : ℕ) (s : Link) (d : ℕ) → d ≢ h → link_given (link_recv h n s).1 d ≡ link_given s d
link_recv_gives_here h n s d other = ground arith

pub link_send_fails :
    (h : ℕ) (buffer : List ℕ) (n : ℕ) (s : Link)
    → (link_send h buffer n s).0 ≡ none
    → link_taken (link_send h buffer n s).1 h ≡ link_taken s h
link_send_fails h buffer n s e = ground arith

pub link_recv_fails :
    (h n : ℕ) (s : Link)
    → (link_recv h n s).0 ≡ none
    → link_given (link_recv h n s).1 h ≡ link_given s h
link_recv_fails h n s e = ground arith

pub link_send_gives :
    (h : ℕ) (buffer : List ℕ) (n : ℕ) (s : Link) (d : ℕ)
    → link_given (link_send h buffer n s).1 d ≡ link_given s d
link_send_gives h buffer n s d = ground arith

abbrev pub link_stream : IsStream link
link_stream = record {
  taken = link_taken;
  given = link_given;
  send_takes = link_send_takes;
  send_fails = link_send_fails;
  send_gives = link_send_gives;
  recv_gives = link_recv_gives;
  recv_fails = link_recv_fails;
  recv_takes = link_recv_takes;
  send_takes_here = link_send_takes_here;
  recv_gives_here = link_recv_gives_here;
  shutdown_takes = λ h how s d. refl;
  shutdown_gives = λ h how s d. refl;
}

pub link_forth : IsPipe link link_stream 4 5
link_forth s = (s.to_five, refl)

pub link_back : IsPipe link link_stream 5 4
link_back s = (s.to_four, refl)

-- Nothing is interrupted.
pub four-Sends : Sends link codes link_stream 1 4
four-Sends buffer s = (0, omega arith, tt, λ (e, again). cc)

pub five-Sends : Sends link codes link_stream 1 5
five-Sends buffer s = (0, omega arith, tt, λ (e, again). cc)

pub four-Receives : Receives link codes link_stream 1 4
four-Receives size s = (0, omega arith, tt, λ (e, again). cc)

pub five-Receives : Receives link codes link_stream 1 5
five-Receives size s = (0, omega arith, tt, λ (e, again). cc)
