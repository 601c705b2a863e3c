-- ===== src/Net/System.antt =====
-- The socket calls of the operating system, as functions on its state. A descriptor is the bit
-- pattern of an int.
use cpp_core_systems.Prelude.{
  ℕ, ◌-◌, ◌^◌, ◌≤◌, ◌≡◌, ◌≢◌, ◌⊎◌, Bool, true, false, Option, none, some, ◌==◌, if◌then◌else◌, List,
  length,
}
use cpp_core_systems.Net.SocketEndpoint.Native.{Sockets, IsSockets}

-- SocketHandle::InvalidHandle, which is -1.
abbrev pub invalid_handle : ℕ
invalid_handle = 2 ^ 32 - 1

-- `true` is the result 0 of a call, and `none` a negative count. A call gets an address as a storage
-- and a length.
pub record System : Type 1 where
  pub State : Type 0
  pub headers : Sockets
  pub opened : State → ℕ → Bool
  pub errno : State → ℕ
  pub socket : (family type protocol : ℕ) → State → ℕ × State
  pub close : ℕ → State → State
  pub connect : ℕ → headers.Storage × ℕ → State → Bool × State
  pub bind : ℕ → headers.Storage × ℕ → State → Bool × State
  pub listen : ℕ → ℕ → State → Bool × State
  pub accept : ℕ → State → ℕ × State
  -- An option stands for its level too.
  pub setsockopt : (handle option value : ℕ) → State → Bool × State
  pub so_nosigpipe : ℕ
  pub so_rcvtimeo : ℕ
  pub so_sndtimeo : ℕ
  pub tcp_nodelay : ℕ
  pub somaxconn : ℕ
  pub send : (handle : ℕ) → (buffer : List ℕ) → (length : ℕ) → State → Option ℕ × State
  pub recv : (handle : ℕ) → (length : ℕ) → State → Option (List ℕ) × State
  -- The bytes stored, whether the datagram was cut, and the sender's address.
  pub recvmsg :
      (handle : ℕ) → (size : ℕ) → State → Option (List ℕ × Bool × (headers.Storage × ℕ)) × State
  pub getpeername : ℕ → State → Option (headers.Storage × ℕ) × State
  pub getsockname : ℕ → State → Option (headers.Storage × ℕ) × State
  pub sendto : (handle : ℕ) → (buffer : List ℕ) → headers.Storage × ℕ → State → Option ℕ × State
  pub shutdown : (handle how : ℕ) → State → Bool × State
  pub shut_rd : ℕ
  pub shut_wr : ℕ
  pub shut_rdwr : ℕ
  pub sock_stream : ℕ
  pub sock_dgram : ℕ
  pub ipproto_tcp : ℕ
  pub ipproto_udp : ℕ
  -- Whether SO_NOSIGPIPE must be set on every TCP socket.
  pub nosigpipe : Bool

module _ (sys : System) where
  -- The open descriptors are the same.
  abbrev pub Kept : sys.State → sys.State → Type 0
  Kept s t = (d : ℕ) → sys.opened t d ≡ sys.opened s d

  -- `h` is a valid descriptor that was not open, and is the only one opened.
  abbrev pub Gained : ℕ → sys.State → sys.State → Type 0
  Gained h s t =
      (h ≢ invalid_handle)
      × (sys.opened s h ≡ false)
      × ((d : ℕ) → sys.opened t d ≡ (if d == h then true else sys.opened s d))

  -- `h` is closed, and no other descriptor.
  abbrev pub Lost : ℕ → sys.State → sys.State → Type 0
  Lost h s t = (d : ℕ) → sys.opened t d ≡ (if d == h then false else sys.opened s d)

  -- What a call that makes a descriptor does: it fails and opens none, or gives a new one.
  abbrev pub Makes : ℕ × sys.State → sys.State → Type 0
  Makes (h, t) s = ((h ≡ invalid_handle) × Kept s t) ⊎ Gained h s t

-- socket(2), accept(2) and close(2): which descriptors are open. No other call opens or closes one,
-- send(2) takes at most what it is given, and recvmsg(2) stores at most what there is room for.
pub record IsSystem (sys : System) : Type 0 where
  pub socket_makes : (f t p : ℕ) (s : sys.State) → Makes sys (sys.socket f t p s) s
  pub accept_makes : (h : ℕ) (s : sys.State) → Makes sys (sys.accept h s) s
  pub close_loses : (h : ℕ) (s : sys.State) → Lost sys h s (sys.close h s)
  pub connect_keeps :
      (h : ℕ) (a : sys.headers.Storage × ℕ) (s : sys.State) → Kept sys s (sys.connect h a s).1
  pub bind_keeps :
      (h : ℕ) (a : sys.headers.Storage × ℕ) (s : sys.State) → Kept sys s (sys.bind h a s).1
  pub setsockopt_keeps :
      (h option value : ℕ) (s : sys.State) → Kept sys s (sys.setsockopt h option value s).1
  pub listen_keeps : (h backlog : ℕ) (s : sys.State) → Kept sys s (sys.listen h backlog s).1
  pub getsockname_keeps : (h : ℕ) (s : sys.State) → Kept sys s (sys.getsockname h s).1
  pub send_bound :
      (h : ℕ) (buffer : List ℕ) (n : ℕ) (s : sys.State) (count : ℕ)
      → (sys.send h buffer n s).0 ≡ some count
      → count ≤ n
  pub headers_laws : IsSockets sys.headers
  pub recvmsg_bound :
      (h n : ℕ) (s : sys.State) (bytes : List ℕ) (cut : Bool) (from : sys.headers.Storage × ℕ)
      → (sys.recvmsg h n s).0 ≡ some (bytes, cut, from)
      → length bytes ≤ n
  pub shutdown_keeps : (h how : ℕ) (s : sys.State) → Kept sys s (sys.shutdown h how s).1
  pub sendto_keeps :
      (h : ℕ) (buffer : List ℕ) (a : sys.headers.Storage × ℕ) (s : sys.State)
      → Kept sys s (sys.sendto h buffer a s).1
  pub send_keeps :
      (h : ℕ) (buffer : List ℕ) (n : ℕ) (s : sys.State) → Kept sys s (sys.send h buffer n s).1
  pub recvmsg_keeps : (h n : ℕ) (s : sys.State) → Kept sys s (sys.recvmsg h n s).1
  pub recv_keeps : (h n : ℕ) (s : sys.State) → Kept sys s (sys.recv h n s).1

-- A call that fails sets errno, and no error number is 0.
pub record SetsErrno (sys : System) : Type 0 where
  pub socket_sets :
      (f t p : ℕ) (s : sys.State)
      → (sys.socket f t p s).0 ≡ invalid_handle
      → sys.errno (sys.socket f t p s).1 ≢ 0
  pub accept_sets :
      (h : ℕ) (s : sys.State)
      → (sys.accept h s).0 ≡ invalid_handle
      → sys.errno (sys.accept h s).1 ≢ 0
  pub connect_sets :
      (h : ℕ) (a : sys.headers.Storage × ℕ) (s : sys.State)
      → (sys.connect h a s).0 ≡ false
      → sys.errno (sys.connect h a s).1 ≢ 0
  pub bind_sets :
      (h : ℕ) (a : sys.headers.Storage × ℕ) (s : sys.State)
      → (sys.bind h a s).0 ≡ false
      → sys.errno (sys.bind h a s).1 ≢ 0
  pub listen_sets :
      (h backlog : ℕ) (s : sys.State)
      → (sys.listen h backlog s).0 ≡ false
      → sys.errno (sys.listen h backlog s).1 ≢ 0
  pub shutdown_sets :
      (h how : ℕ) (s : sys.State)
      → (sys.shutdown h how s).0 ≡ false
      → sys.errno (sys.shutdown h how s).1 ≢ 0
  pub setsockopt_sets :
      (h option value : ℕ) (s : sys.State)
      → (sys.setsockopt h option value s).0 ≡ false
      → sys.errno (sys.setsockopt h option value s).1 ≢ 0
  pub send_sets :
      (h : ℕ) (buffer : List ℕ) (n : ℕ) (s : sys.State)
      → (sys.send h buffer n s).0 ≡ none
      → sys.errno (sys.send h buffer n s).1 ≢ 0
  pub recv_sets :
      (h n : ℕ) (s : sys.State) → (sys.recv h n s).0 ≡ none → sys.errno (sys.recv h n s).1 ≢ 0
  pub recvmsg_sets :
      (h n : ℕ) (s : sys.State) → (sys.recvmsg h n s).0 ≡ none → sys.errno (sys.recvmsg h n s).1 ≢ 0
  pub sendto_sets :
      (h : ℕ) (buffer : List ℕ) (a : sys.headers.Storage × ℕ) (s : sys.State)
      → (sys.sendto h buffer a s).0 ≡ none
      → sys.errno (sys.sendto h buffer a s).1 ≢ 0
  pub getpeername_sets :
      (h : ℕ) (s : sys.State)
      → (sys.getpeername h s).0 ≡ none
      → sys.errno (sys.getpeername h s).1 ≢ 0
  pub getsockname_sets :
      (h : ℕ) (s : sys.State)
      → (sys.getsockname h s).0 ≡ none
      → sys.errno (sys.getsockname h s).1 ≢ 0
