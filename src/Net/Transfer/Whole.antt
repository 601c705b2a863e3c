-- ===== src/Net/Transfer/Whole.antt =====
-- SendAll and ReceiveExact over a whole buffer.
use cpp_core_systems.Prelude.{
  ℕ, zero, suc, ◌+◌, ◌-◌, ◌≤◌, ◌<◌, ◌≡◌, refl, sym, ◌∙◌, ap, arith, ◌==◌, true, Option, some, List,
  [], ◌∷◌, ◌++◌, length, length-append, take, drop, take-plus, length-drop_sub, append-nil,
  append_assoc, ◌⊎◌, inl, inr, Bool-cases,
}
use cpp_core_systems.Net.SocketError.{
  SocketError, Errors, has_error, io_error, make_error, no_error, SocketResult, success, failure,
}
use cpp_core_systems.Net.SocketError.Classes.{IsErrors}
use cpp_core_systems.Net.System.{System, IsSystem, SetsErrno}
use cpp_core_systems.Net.Asserts.{Sound, made-Sound}
use cpp_core_systems.Net.Transfer.{send_all, receive_exact, sent, got}
use cpp_core_systems.Net.Transfer.Step.{
  IsStream, Sends, Receives, Moved, Stored, send_step, receive_step,
}

module _ (sys : System) (std : Errors) (stream : IsStream sys) where
  -- The system has taken `n` bytes of the buffer in order, and all of them exactly if there is no
  -- error.
  abbrev pub SentPart : ℕ → List ℕ → sys.State → SocketError × sys.State → Type 0
  SentPart this bytes s (error, t) =
      (n : ℕ) × (stream.taken t this ≡ stream.taken s this ++ take n bytes)
      × ((d : ℕ) → stream.given t d ≡ stream.given s d)
      × (((error ≡ no_error) × (n ≡ length bytes))
          ⊎ ((has_error error ≡ true) × (n < length bytes)))

  -- What is stored is what the system gave next, and it fills the buffer exactly if there is no
  -- error.
  abbrev pub ReceivedPart : ℕ → ℕ → sys.State → SocketError × List ℕ × sys.State → Type 0
  ReceivedPart this size s (error, stored, t) =
      (stream.given t this ≡ stream.given s this ++ stored)
      × ((d : ℕ) → stream.taken t d ≡ stream.taken s d)
      × (((error ≡ no_error) × (length stored ≡ size))
          ⊎ ((has_error error ≡ true) × (length stored < size)))

  module _ (errors : IsErrors std) (sets : SetsErrno sys) (laws : IsSystem sys) where
    sent_count :
        (b : ℕ) (bytes : List ℕ) (error : SocketError) (n count : ℕ)
        → ((error ≡ no_error) × (n ≡ length (drop count (b ∷ bytes))))
          ⊎ ((has_error error ≡ true) × (n < length (drop count (b ∷ bytes))))
        → count ≤ length (b ∷ bytes)
        → ((error ≡ no_error) × (count + n ≡ length (b ∷ bytes)))
          ⊎ ((has_error error ≡ true) × (count + n < length (b ∷ bytes)))
    sent_count b bytes error n count (inl (fine, whole)) most =
        inl (fine, omega (arith, length-drop_sub count (b ∷ bytes)))
    sent_count b bytes error n count (inr (bad, part)) most =
        inr (bad, omega (arith, length-drop_sub count (b ∷ bytes)))

    none_taken : (count : ℕ) → (count == 0) ≡ true → count ≡ 0
    none_taken count e = ground arith

    sent_lem :
        (k this b : ℕ) (bytes : List ℕ) (s : sys.State)
        (again : List ℕ → sys.State → Option (SocketError × sys.State))
        → ((rest : List ℕ) (t : sys.State)
            → length rest ≤ k
            → (q : SocketError × sys.State) × (again rest t ≡ some q) × SentPart this rest t q)
        → length (b ∷ bytes) ≤ suc k
        → (r : SocketResult ℕ × sys.State) → Moved sys std stream this (b ∷ bytes) s r
        → Sound r.0
        → (q : SocketError × sys.State) × (sent sys std again (b ∷ bytes) r ≡ some q)
          × SentPart this (b ∷ bytes) s q
    sent_lem k this b bytes s again rest enough (failure error, t) (same, given) sound = (
      (error, t),
      refl,
      (0, same ∙ sym (append-nil (stream.taken s this)), given, inr (sound, omega arith)),
    )
    sent_lem k this b bytes s again rest enough (success count, t) (most, more, given) sound =
        elim (Bool-cases (count == 0)) [
          | inl zero_sent ↦ (
            (make_error std io_error, t),
            rw zero_sent refl,
            (
              0,
              more
                  ∙ ap (λ c. stream.taken s this ++ take c (b ∷ bytes))
                      (none_taken count zero_sent),
              given,
              inr (made-Sound sys std errors sets io_error, omega arith),
            ),
          )
          | inr some_sent ↦
              let (q, found, (n, all, given', ends)) =
                rest (drop count (b ∷ bytes)) t
                  (ground (arith, length-drop_sub count (b ∷ bytes))) in
              (
                q,
                rw some_sent found,
                (
                  count + n,
                  all
                      ∙ ap (λ us. us ++ take n (drop count (b ∷ bytes))) more
                      ∙ append_assoc (stream.taken s this) (take count (b ∷ bytes))
                          (take n (drop count (b ∷ bytes)))
                      ∙ ap (λ us. stream.taken s this ++ us) (sym (take-plus count n (b ∷ bytes))),
                  λ d. given' d ∙ given d,
                  sent_count b bytes q.0 n count ends most,
                ),
              )
        ]

    -- On a system with the laws IsSystem, SetsErrno and IsStream, which says what send takes from
    -- the process, with std::errc as IsErrors says, and where send is not interrupted `fuel` times
    -- in a row: with a round for each byte SendAll ends, the system has taken a first part of the
    -- buffer in order and nothing else, and that part is the whole buffer exactly if there is no
    -- error.
    pub send_all_lem :
        (rounds fuel this : ℕ) (bytes : List ℕ) (s : sys.State)
        → Sends sys std stream fuel this
        → length bytes ≤ rounds
        → (r : SocketError × sys.State) × (send_all sys std rounds fuel this bytes s ≡ some r)
          × SentPart this bytes s r
    unfolding send_all
    send_all_lem rounds fuel this [] s settles enough = (
      (no_error, s),
      refl,
      (0, sym (append-nil (stream.taken s this)), λ d. refl, inl (refl, refl)),
    )
    send_all_lem zero fuel this (b ∷ bytes) s settles enough = absurd (omega arith)
    send_all_lem (suc k) fuel this (b ∷ bytes) s settles enough =
        let (r, found, moved, sound) =
          send_step sys std stream errors sets laws fuel this (b ∷ bytes) s settles in
        rw (send_all, found)
          (sent_lem k this b bytes s (send_all sys std k fuel this)
            (λ rest t few. send_all_lem k fuel this rest t settles few) enough r moved sound)

    nothing : (bytes : List ℕ) → length bytes ≡ 0 → bytes ≡ []
    nothing [] e = refl
    nothing (b ∷ bytes) e = absurd (omega arith)

    got_count :
        (n : ℕ) (error : SocketError) (bytes more : List ℕ)
        → ((error ≡ no_error) × (length more ≡ suc n - length bytes))
          ⊎ ((has_error error ≡ true) × (length more < suc n - length bytes))
        → length bytes ≤ suc n
        → ((error ≡ no_error) × (length (bytes ++ more) ≡ suc n))
          ⊎ ((has_error error ≡ true) × (length (bytes ++ more) < suc n))
    got_count n error bytes more (inl (fine, whole)) most =
        inl (fine, omega (arith, length-append bytes more))
    got_count n error bytes more (inr (bad, part)) most =
        inr (bad, omega (arith, length-append bytes more))

    got_lem :
        (k this n : ℕ) (s : sys.State)
        (again : ℕ → sys.State → Option (SocketError × List ℕ × sys.State))
        → ((rest : ℕ) (t : sys.State)
            → rest ≤ k
            → (q : SocketError × List ℕ × sys.State) × (again rest t ≡ some q)
              × ReceivedPart this rest t q)
        → suc n ≤ suc k
        → (r : SocketResult (List ℕ) × sys.State) → Stored sys std stream this (suc n) s r
        → Sound r.0
        → (q : SocketError × List ℕ × sys.State) × (got sys std again (suc n) r ≡ some q)
          × ReceivedPart this (suc n) s q
    got_lem k this n s again rest enough (failure error, t) (same, taken) sound = (
      (error, [], t),
      refl,
      (same ∙ sym (append-nil (stream.given s this)), taken, inr (sound, omega arith)),
    )
    got_lem k this n s again rest enough (success bytes, t) (most, next, taken) sound =
        elim (Bool-cases (length bytes == 0)) [
          | inl ended ↦ (
            (make_error std io_error, [], t),
            rw ended refl,
            (
              next ∙ ap (λ us. stream.given s this ++ us) (nothing bytes (ground arith)),
              taken,
              inr (made-Sound sys std errors sets io_error, omega arith),
            ),
          )
          | inr going ↦
              let ((error, more, u), found, (all, taken', ends)) =
                rest (suc n - length bytes) t (ground arith) in
              (
                (error, bytes ++ more, u),
                rw (going, found) refl,
                (
                  all ∙ ap (λ us. us ++ more) next ∙ append_assoc (stream.given s this) bytes more,
                  λ d. taken' d ∙ taken d,
                  got_count n error bytes more ends most,
                ),
              )
        ]

    -- On a system with the laws IsSystem, SetsErrno and IsStream, which says what recv gives to the
    -- process, with std::errc as IsErrors says, and where recv is not interrupted `fuel` times in a
    -- row: with a round for each byte ReceiveExact ends, what it has stored is what the system gave
    -- next, in order, and it fills the buffer exactly if there is no error.
    pub receive_exact_lem :
        (rounds fuel this size : ℕ) (s : sys.State)
        → Receives sys std stream fuel this
        → size ≤ rounds
        → (r : SocketError × List ℕ × sys.State) × (receive_exact sys std rounds fuel this size s
            ≡ some r)
          × ReceivedPart this size s r
    unfolding receive_exact
    receive_exact_lem rounds fuel this zero s settles enough = (
      (no_error, [], s),
      refl,
      (sym (append-nil (stream.given s this)), λ d. refl, inl (refl, refl)),
    )
    receive_exact_lem zero fuel this (suc n) s settles enough = absurd (omega arith)
    receive_exact_lem (suc k) fuel this (suc n) s settles enough =
        let (r, found, stored, sound) =
          receive_step sys std stream errors sets laws fuel this (suc n) s settles in
        rw (receive_exact, found)
          (got_lem k this n s (receive_exact sys std k fuel this)
            (λ rest t few. receive_exact_lem k fuel this rest t settles few) enough r stored sound)
