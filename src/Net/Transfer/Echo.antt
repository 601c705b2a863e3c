-- ===== src/Net/Transfer/Echo.antt =====
-- SendAll at one end of a connection and ReceiveExact at the other: one way of the exchange in
-- RoundTrips of benchmarks/net/bench_tcp.cpp.
use cpp_core_systems.Prelude.{
  ℕ, ◌≤◌, ◌≡◌, sym, ◌∙◌, ap, arith, true, some, List, ◌++◌, length, take, take-append, take-all,
  append_assoc, append_cancel, ◌⊎◌, inl, inr,
}
use cpp_core_systems.Net.SocketError.{SocketError, Errors, has_error, no_error}
use cpp_core_systems.Net.SocketError.Classes.{IsErrors}
use cpp_core_systems.Net.System.{System, IsSystem, SetsErrno}
use cpp_core_systems.Net.SocketHelpers.Retry.{some-injective}
use cpp_core_systems.Net.Transfer.{send_all, receive_exact}
use cpp_core_systems.Net.Transfer.Step.{IsStream, Sends, Receives}
use cpp_core_systems.Net.Transfer.Whole.{send_all_lem, receive_exact_lem}

-- A byte stream: the receiver is given what the sender has handed over, in order, and maybe not all
-- of it yet.
abbrev pub IsPipe : (sys : System) → IsStream sys → ℕ → ℕ → Type 0
IsPipe sys stream from to =
    (s : sys.State) → (rest : List ℕ) × (stream.taken s from ≡ stream.given s to ++ rest)

module _ (sys : System) (std : Errors) (stream : IsStream sys) where
  -- Nothing is under way.
  abbrev pub Drained : ℕ → ℕ → sys.State → Type 0
  Drained from to s = stream.given s to ≡ stream.taken s from

  no_error-whole {ℓ κ} :
      {A : Type ℓ} {B : Type κ} (error : SocketError)
      → error ≡ no_error
      → ((error ≡ no_error) × A) ⊎ ((has_error error ≡ true) × B)
      → A
  no_error-whole error e (inl (fine, whole)) = whole
  no_error-whole error e (inr (bad, part)) = let code = ap has_error e in absurd (ground arith)

  filled :
      (stored rest bytes : List ℕ)
      → stored ++ rest ≡ bytes
      → length stored ≡ length bytes
      → stored ≡ bytes
  filled stored rest bytes e l =
      sym (take-append stored rest)
      ∙ ap (take (length stored)) e
      ∙ take-all (length stored) bytes (omega arith)

  module _ (errors : IsErrors std) (sets : SetsErrno sys) (laws : IsSystem sys) (from to : ℕ)
      (pipe : IsPipe sys stream from to) where
    sent_whole :
        (rounds fuel : ℕ) (bytes : List ℕ) (s t : sys.State)
        → Sends sys std stream fuel from
        → length bytes ≤ rounds
        → send_all sys std rounds fuel from bytes s ≡ some (no_error, t)
        → (stream.taken t from ≡ stream.taken s from ++ bytes)
          × (stream.given t to ≡ stream.given s to)
    sent_whole rounds fuel bytes s t settles enough ok =
        let (r, found, (n, taken, given, ends)) =
          send_all_lem sys std stream errors sets laws rounds fuel from bytes s settles enough in
        let same = some-injective r (no_error, t) (sym found ∙ ok) in
        let whole = no_error-whole r.0 (ap (λ p. p.0) same) ends in
        (
          ap (λ p. stream.taken p.1 from) (sym same)
              ∙ taken
              ∙ ap (λ us. stream.taken s from ++ us) (take-all n bytes (omega arith)),
          ap (λ p. stream.given p.1 to) (sym same) ∙ given to,
        )

    received_whole :
        (rounds fuel size : ℕ) (s t : sys.State) (stored : List ℕ)
        → Receives sys std stream fuel to
        → size ≤ rounds
        → receive_exact sys std rounds fuel to size s ≡ some (no_error, stored, t)
        → (stream.given t to ≡ stream.given s to ++ stored)
          × (stream.taken t from ≡ stream.taken s from)
          × (length stored ≡ size)
    received_whole rounds fuel size s t stored settles enough ok =
        let (r, found, (given, taken, ends)) =
          receive_exact_lem sys std stream errors sets laws rounds fuel to size s settles enough in
        let same = some-injective r (no_error, stored, t) (sym found ∙ ok) in
        let whole = no_error-whole r.0 (ap (λ p. p.0) same) ends in
        (
          ap (λ p. stream.given p.2 to) (sym same)
              ∙ given
              ∙ ap (λ p. stream.given s to ++ p.1) same,
          ap (λ p. stream.taken p.2 from) (sym same) ∙ taken from,
          ap (λ p. length p.1) (sym same) ∙ whole,
        )

    -- On a system with the laws IsSystem, SetsErrno and IsStream, with std::errc as IsErrors says,
    -- and with a byte stream from one descriptor to another on which nothing is under way: if
    -- SendAll of a buffer at one end returns no error, and ReceiveExact of as many bytes at the
    -- other end returns no error, then what was received is the buffer, and again nothing is under
    -- way. Neither call may be interrupted `fuel` times in a row, and there is a round for each
    -- byte.
    pub exchange_lem :
        (rounds fuel : ℕ) (bytes stored : List ℕ) (s t u : sys.State)
        → Sends sys std stream fuel from
        → Receives sys std stream fuel to
        → length bytes ≤ rounds
        → Drained from to s
        → send_all sys std rounds fuel from bytes s ≡ some (no_error, t)
        → receive_exact sys std rounds fuel to (length bytes) t ≡ some (no_error, stored, u)
        → (stored ≡ bytes) × Drained from to u
    exchange_lem rounds fuel bytes stored s t u sends receives enough before sent received =
        let (taken, given) = sent_whole rounds fuel bytes s t sends enough sent in
        let (given', taken', full) =
          received_whole rounds fuel (length bytes) t u stored receives enough received in
        let (rest, order) = pipe u in
        let both : stream.taken s from ++ (stored ++ rest) ≡ stream.taken s from ++ bytes =
          sym (append_assoc (stream.taken s from) stored rest)
          ∙ ap (λ us. us ++ stored ++ rest) (sym before)
          ∙ ap (λ us. us ++ stored ++ rest) (sym given)
          ∙ ap (λ us. us ++ rest) (sym given')
          ∙ sym order
          ∙ taken'
          ∙ taken in
        let same =
          filled stored rest bytes (append_cancel (stream.taken s from) (stored ++ rest) bytes both)
            full in
        (
          same,
          given'
              ∙ ap (λ us. us ++ stored) (given ∙ before)
              ∙ ap (λ us. stream.taken s from ++ us) same
              ∙ sym taken
              ∙ sym taken',
        )
