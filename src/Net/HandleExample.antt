-- ===== src/Net/HandleExample.antt =====
-- main of examples/net/example_socket_handle.cpp: descriptors that handle objects pass on.
pub mod Story
pub mod Ends
pub mod Tests
use cpp_core_systems.Prelude.{ℕ, not, ◌==◌, if◌then◌else◌, List, [], ◌∷◌, ◌++◌}
use cpp_core_systems.Net.SocketError.{SocketError, Errors, Platform}
use cpp_core_systems.Net.System.{System, invalid_handle}
use cpp_core_systems.Net.SocketHandle
use cpp_core_systems.Net.SocketHandle.{is_valid}
use cpp_core_systems.Net.SocketHelpers.{last_error}
use cpp_core_systems.Net.SocketRuntime.{Startup, construct, destroy}

-- The labels of Describe.
pub data Label : Type 0 where
  default_constructed : Label
  freshly_created : Label
  construct_source : Label
  construct_target : Label
  target_before : Label
  target_after : Label
  source_after : Label
  after_release : Label
  after_reset : Label
  after_close : Label
  scoped : Label

-- What is written, to std::cout or to std::cerr. A description has a handle, which says whether it
-- is valid too.
pub data HandleLine : Type 0 where
  runtime_failed : SocketError → HandleLine
  socket_failed : SocketError → HandleLine
  described : Label → ℕ → HandleLine
  released : ℕ → HandleLine
  scope_left : HandleLine

module _ (sys : System) (std : Errors) where
  -- MakeTcpSocket: what it writes, the handle, and the state.
  unfoldable pub make_tcp_socket : sys.State → List HandleLine × ℕ × sys.State
  make_tcp_socket s =
      let (native, t) = sys.socket sys.headers.af_inet sys.sock_stream sys.ipproto_tcp s in
      if native == invalid_handle
      then (socket_failed (last_error sys std t) ∷ [], native, t)
      else ([], native, t)

  -- The destructors of some objects, in order.
  abbrev pub destroy_all : List ℕ → sys.State → sys.State
  destroy_all [] s = s
  destroy_all (m ∷ ms) s = destroy_all ms (SocketHandle.close sys m s).1

  -- From `scoped` on.
  unfoldable pub handles_scoped :
      (assigned moved socket empty : ℕ) → sys.State → List HandleLine × ℕ × sys.State
  unfolding make_tcp_socket
  handles_scoped assigned moved socket empty s =
      let outer = assigned ∷ moved ∷ socket ∷ empty ∷ [] in
      let (lines, here, t) = make_tcp_socket s in
      if not (is_valid here) then (lines, 1, destroy_all (here ∷ outer) t) else (
        lines ++ (described scoped here ∷ scope_left ∷ []),
        0,
        destroy_all outer (SocketHandle.close sys here t).1,
      )

  -- Where `assigned` is valid.
  unfoldable pub handles_assigned :
      (assigned moved socket empty : ℕ) → sys.State → List HandleLine × ℕ × sys.State
  unfolding handles_scoped
  handles_assigned assigned moved socket empty s =
      let before = described target_before assigned in
      let (assigned, moved, s₁) = SocketHandle.move_assign sys assigned moved s in
      let moves = described target_after assigned ∷ described source_after moved ∷ [] in
      let (raw, assigned) = SocketHandle.release assigned in
      let releases = released raw ∷ described after_release assigned ∷ [] in
      let (assigned, s₂) = SocketHandle.reset sys assigned raw s₁ in
      let resets = described after_reset assigned ∷ [] in
      let (assigned, s₃) = SocketHandle.close sys assigned s₂ in
      let (assigned, s₄) = SocketHandle.close sys assigned s₃ in
      let closes = described after_close assigned ∷ [] in
      let (lines, code, t) = handles_scoped assigned moved socket empty s₄ in
      ((before ∷ moves) ++ releases ++ resets ++ closes ++ lines, code, t)

  -- Where `socket` is valid.
  unfoldable pub handles_created : (socket empty : ℕ) → sys.State → List HandleLine × ℕ × sys.State
  unfolding make_tcp_socket handles_assigned
  handles_created socket empty s =
      let (moved, socket) = SocketHandle.move_construct socket in
      let constructs = described construct_source socket ∷ described construct_target moved ∷ [] in
      let (lines, assigned, t) = make_tcp_socket s in
      if not (is_valid assigned)
      then (constructs ++ lines, 1, destroy_all (assigned ∷ moved ∷ socket ∷ empty ∷ []) t)
      else (let (more, code, u) = handles_assigned assigned moved socket empty t in
          (constructs ++ lines ++ more, code, u))

  -- Behind the check of the runtime.
  unfoldable pub handles : sys.State → List HandleLine × ℕ × sys.State
  unfolding make_tcp_socket handles_created
  handles s =
      let empty = invalid_handle in
      let (lines, socket, t) = make_tcp_socket s in
      let first =
        (described default_constructed empty ∷ lines) ++ (described freshly_created socket ∷ []) in
      if not (is_valid socket)
      then (first, 1, destroy_all (socket ∷ empty ∷ []) t)
      else (let (more, code, u) = handles_created socket empty t in (first ++ more, code, u))

  -- main, with the state of the runtime's library. The runtime is destroyed last.
  unfoldable pub handles_main :
      (dll : Startup)
      → Platform
      → sys.State × dll.State
      → List HandleLine × ℕ × sys.State × dll.State
  unfolding handles
  handles_main dll platform (s, d) =
      let (runtime, d₁) = construct dll platform d in
      if not runtime.initialized
      then (
        runtime_failed runtime.error ∷ [],
        runtime.error.value,
        s,
        destroy dll platform runtime d₁,
      )
      else (let (lines, code, t) = handles s in (lines, code, t, destroy dll platform runtime d₁))
