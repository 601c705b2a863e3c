-- ===== src/Net/HandleExample/Tests.antt =====
-- The example on the stand-in machine.
use cpp_core_systems.Prelude.{ℕ, ◌≡◌, refl, arith, List}
use cpp_core_systems.Net.SocketError.{windows}
use cpp_core_systems.Net.SocketError.Tests.{codes}
use cpp_core_systems.Net.SocketHandle
use cpp_core_systems.Net.SocketRuntime.{construct, destroy}
use cpp_core_systems.Net.SocketRuntime.Lifetimes.Tests.{dll, wsa, dll-IsStartup}
use cpp_core_systems.Net.Machine.{Machine, machine, machine-IsSystem, start, first_unused}
use cpp_core_systems.Net.HandleExample.{
  HandleLine, handles_main, handles, handles_created, handles_assigned, handles_scoped,
  make_tcp_socket,
}
use cpp_core_systems.Net.HandleExample.Story.{story}
use cpp_core_systems.Net.HandleExample.Ends.{LeftHandles, handles_main_lem}

handles_main_example :
    LeftHandles machine codes machine-IsSystem dll dll-IsStartup start 0
      (handles_main machine codes dll (windows wsa) (start, 0))
handles_main_example =
    handles_main_lem machine codes machine-IsSystem dll dll-IsStartup (windows wsa) start 0
      (λ e. omega arith)

abbrev outcome : List HandleLine × ℕ × Machine × ℕ → List HandleLine × ℕ × ℕ
outcome (lines, code, s, started) = (lines, code, started)

-- The third socket gets the descriptor that the first one had.
told_on_machine :
    outcome (handles_main machine codes dll (windows wsa) (start, 0)) ≡ (story 4 5 4, 0, 0)
unfolding handles_main handles handles_created handles_assigned handles_scoped make_tcp_socket
    SocketHandle.move_assign SocketHandle.reset SocketHandle.close first_unused construct destroy
told_on_machine = refl
