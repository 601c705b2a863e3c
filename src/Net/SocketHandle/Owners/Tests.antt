-- ===== src/Net/SocketHandle/Owners/Tests.antt =====
-- A socket that is opened in one object, moved to another one, and closed there.
use cpp_core_systems.Prelude.{ℕ, refl, Bool, ◌==◌, inl}
use cpp_core_systems.Net.System.{invalid_handle}
use cpp_core_systems.Net.SocketHandle.Owners.{Handles, Owned, Reach, Step, assign, put}
use cpp_core_systems.Net.SocketHandle.Owners.Runs.{reach-Owned}
use cpp_core_systems.Net.Machine.{Machine, machine, machine-IsSystem, start}

abbrev others : ℕ → Bool
others d = d == 3

abbrev no_handles : Handles
no_handles i = invalid_handle

no_handles-Owned : Owned machine others no_handles start
no_handles-Owned = record {
  apart = λ i j ne e. refl;
  opened = λ i valid. absurd (valid refl);
  foreign = λ i valid. absurd (valid refl);
  others_open = λ d other. other;
  no_leak = λ d live. inl live;
}

abbrev opened : Handles × Machine
opened = (put no_handles 0 (machine.socket 2 1 6 start).0, (machine.socket 2 1 6 start).1)

abbrev moved : Handles × Machine
moved = assign machine 1 0 opened.0 opened.1

-- A move assignment to itself.
abbrev kept : Handles × Machine
kept = assign machine 1 1 moved.0 moved.1

moves : Reach machine no_handles start kept.0 kept.1
moves =
    Reach.next
      (Reach.next (Reach.next Reach.start (Step.open_socket no_handles start 0 2 1 6 refl))
        (Step.move opened.0 opened.1 1 0))
      (Step.move moved.0 moved.1 1 1)

reach-Owned_example : Owned machine others kept.0 kept.1
reach-Owned_example =
    reach-Owned machine machine-IsSystem others no_handles start no_handles-Owned moves
