-- ===== src/Net/Transfer/Result.antt =====
-- SendAll of examples/net/example_tcp_loopback.cpp, which returns a SocketResult<void> where the one
-- of the benchmark returns a SocketError.
use cpp_core_systems.Prelude.{
  ℕ, zero, suc, ◌≡◌, refl, ◌==◌, if◌then◌else◌, Option, none, some, List, [], ◌∷◌, drop, Bool-cases,
  inl, inr,
}
use cpp_core_systems.Net.SocketError.{
  SocketError, Errors, has_error, io_error, make_error, SocketResult, success, failure,
}
use cpp_core_systems.Net.SocketError.Classes.{IsErrors}
use cpp_core_systems.Net.System.{System, SetsErrno}
use cpp_core_systems.Net.TcpSocket.{send}
use cpp_core_systems.Net.Asserts.{Sound, SoundRun, made-Sound}
use cpp_core_systems.Net.Asserts.Tcp.{send-Sound}
use cpp_core_systems.Net.Transfer.{sent, send_all}

module _ (sys : System) (std : Errors) where
  -- A round behind its Send.
  abbrev pub sent_result :
      (again : List ℕ → sys.State → Option (SocketResult (Unit {0}) × sys.State))
      → List ℕ
      → SocketResult ℕ × sys.State
      → Option (SocketResult (Unit {0}) × sys.State)
  sent_result again bytes (failure error, s) = some (failure error, s)
  sent_result again bytes (success count, s) =
      if count == 0 then some (failure (make_error std io_error), s) else again (drop count bytes) s

  unfoldable pub send_all_result :
      (rounds fuel this : ℕ) → List ℕ → sys.State → Option (SocketResult (Unit {0}) × sys.State)
  send_all_result rounds fuel this [] s = some (success tt, s)
  send_all_result zero fuel this (b ∷ bytes) s = none
  send_all_result (suc rounds) fuel this (b ∷ bytes) s =
      elim (send sys std fuel this (b ∷ bytes) s) [
        | none ↦ none
        | some r ↦ sent_result (send_all_result rounds fuel this) (b ∷ bytes) r
      ]

  -- A SocketError as a result.
  abbrev pub as_result :
      Option (SocketError × sys.State) → Option (SocketResult (Unit {0}) × sys.State)
  as_result none = none
  as_result (some (error, s)) = some ((if has_error error then failure error else success tt), s)

  module _ (errors : IsErrors std) (sets : SetsErrno sys) where
    round_lem :
        (again : List ℕ → sys.State → Option (SocketError × sys.State))
        (again' : List ℕ → sys.State → Option (SocketResult (Unit {0}) × sys.State))
        (bytes : List ℕ) (r : SocketResult ℕ × sys.State)
        → Sound r.0
        → ((rest : List ℕ) (t : sys.State) → as_result (again rest t) ≡ again' rest t)
        → as_result (sent sys std again bytes r) ≡ sent_result again' bytes r
    round_lem again again' bytes (failure error, s) sound same = rw sound refl
    round_lem again again' bytes (success count, s) sound same = elim (Bool-cases (count == 0)) [
      | inl stuck ↦ rw (stuck, made-Sound sys std errors sets io_error) refl
      | inr going ↦ rw going (same (drop count bytes) s)
    ]

    -- Where a call that fails sets errno (SetsErrno), and std::errc is as IsErrors says, with no
    -- enumerator 0: SendAll of the example, which returns a SocketResult<void>, does on every
    -- system and with every fuel what SendAll of the benchmark does, which returns a SocketError; a
    -- success is the error code of success.
    pub send_all_result_lem :
        (rounds fuel this : ℕ) (bytes : List ℕ) (s : sys.State)
        → as_result (send_all sys std rounds fuel this bytes s)
          ≡ send_all_result rounds fuel this bytes s
    unfolding send_all send_all_result
    send_all_result_lem rounds fuel this [] s = refl
    send_all_result_lem zero fuel this (b ∷ bytes) s = refl
    send_all_result_lem (suc rounds) fuel this (b ∷ bytes) s =
        by_send (send sys std fuel this (b ∷ bytes) s)
          (send-Sound sys std errors sets fuel this (b ∷ bytes) s)
          (λ rest t. send_all_result_lem rounds fuel this rest t)
      where
        by_send :
            (o : Option (SocketResult ℕ × sys.State))
            → SoundRun sys std o
            → ((rest : List ℕ) (t : sys.State)
                → as_result (send_all sys std rounds fuel this rest t)
                  ≡ send_all_result rounds fuel this rest t)
            → as_result (elim o [
              | none ↦ none
              | some r ↦ sent sys std (send_all sys std rounds fuel this) (b ∷ bytes) r
            ])
              ≡ elim o [
                | none ↦ none
                | some r ↦ sent_result (send_all_result rounds fuel this) (b ∷ bytes) r
              ]
        by_send none sound same = refl
        by_send (some r) sound same =
            round_lem (send_all sys std rounds fuel this) (send_all_result rounds fuel this)
              (b ∷ bytes) r sound same
