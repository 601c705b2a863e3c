-- ===== src/Net/UdpSocket/Receive.antt =====
-- ReceiveFrom of include/net/udp_socket.hpp, on POSIX. What it stores in the caller's buffer is a
-- part of its result here.
use cpp_core_systems.Prelude.{
  ℕ, ◌≡◌, ◌≤◌, ◌<◌, ◌⊎◌, arith, refl, ◌∙◌, Bool, true, false, not, leb, if◌then◌else◌, Option, none,
  some, List, length, Bool-cases, inl, inr,
}
use cpp_core_systems.Net.SocketEndpoint.{SocketEndpoint}
use cpp_core_systems.Net.SocketEndpoint.Text.{IsValid}
use cpp_core_systems.Net.SocketEndpoint.Native.Reading.{ReadsAs, Unreadable, from_native_lem}
use cpp_core_systems.Net.SocketError.{Errors, SocketResult, success, failure}
use cpp_core_systems.Net.System.{System, IsSystem, Kept}
use cpp_core_systems.Net.SocketHandle.{is_valid}
use cpp_core_systems.Net.SocketHelpers.{last_error, invalid_socket_error, invalid_argument_error}
use cpp_core_systems.Net.SocketHelpers.Query.{read_endpoint}
use cpp_core_systems.Net.SocketHelpers.Retry.{
  retry, retry_inv, retry-some, retry_lem, Outcome, Interrupted, AllInterrupted, after_calls,
  Settles,
}
use cpp_core_systems.Net.UdpSocket.{max_transfer_length, message_size_error}

module _ (sys : System) (std : Errors) where
  -- A datagram: its bytes, whether it was cut, and where it came from.
  abbrev Message : Type 0
  Message = List ℕ × Bool × (sys.headers.Storage × ℕ)

  -- What ReceiveFrom does with the result of its loop.
  unfoldable pub received :
      SocketResult Message × sys.State → SocketResult (List ℕ × SocketEndpoint) × sys.State
  received (failure error, s) = (failure error, s)
  received (success (bytes, cut, from), s) = (
    (if cut then failure (message_size_error sys std) else elim (read_endpoint sys std from) [
      | failure error ↦ failure error
      | success sender ↦ success (bytes, sender)
    ]),
    s,
  )

  unfoldable pub receive_from :
      ℕ → ℕ → (size : ℕ) → sys.State → Option (SocketResult (List ℕ × SocketEndpoint) × sys.State)
  unfolding received
  receive_from fuel this size s =
      if not (is_valid this)
      then some (failure (invalid_socket_error sys std), s)
      else if not (leb size max_transfer_length)
      then some (failure (message_size_error sys std), s)
      else elim (retry sys std (sys.recvmsg this size) fuel s) [
        | none ↦ none
        | some r ↦ some (received r)
      ]

  -- What the loop makes of the call that ends it.
  abbrev settled : Option Message × sys.State → SocketResult Message × sys.State
  settled (none, t) = (failure (last_error sys std t), t)
  settled (some message, t) = (success message, t)

  -- What the call that ends the loop says of the result: only a datagram that was not cut, from an
  -- address that can be read, is a success.
  abbrev Heard :
      (size : ℕ)
      → Option Message × sys.State
      → SocketResult (List ℕ × SocketEndpoint) × sys.State
      → Type 0
  Heard size (none, t) r = r ≡ (failure (last_error sys std t), t)
  Heard size (some (bytes, true, from), t) r = r ≡ (failure (message_size_error sys std), t)
  Heard size (some (bytes, false, (storage, len)), t) r =
      ((sender : SocketEndpoint) × (r ≡ (success (bytes, sender), t))
        × (length bytes ≤ size)
        × IsValid sender
        × ReadsAs sys.headers storage len sender)
      ⊎ ((r ≡ (failure (invalid_argument_error sys std), t)) × Unreadable sys.headers storage len)

  -- What ReceiveFrom returns: without a call, or behind calls that were all interrupted.
  abbrev pub Received :
      (this size : ℕ) → sys.State → SocketResult (List ℕ × SocketEndpoint) × sys.State → Type 0
  Received this size s r =
      ((is_valid this ≡ false) × (r ≡ (failure (invalid_socket_error sys std), s)))
      ⊎ ((is_valid this ≡ true)
          × (((max_transfer_length < size) × (r ≡ (failure (message_size_error sys std), s)))
              ⊎ ((size ≤ max_transfer_length)
                  × ((n : ℕ) × AllInterrupted sys std (sys.recvmsg this size) n s
                      × (¬ Interrupted sys std (sys.recvmsg this size)
                          (after_calls sys std (sys.recvmsg this size) n s))
                      × Heard size
                          (sys.recvmsg this size (after_calls sys std (sys.recvmsg this size) n s))
                          r))))

  received_keeps :
      (s : sys.State) (r : SocketResult Message × sys.State)
      → Kept sys s r.1
      → Kept sys s (received r).1
  unfolding received
  received_keeps s (failure error, t) kept = kept
  received_keeps s (success (bytes, cut, from), t) kept = kept

  -- The loop behind its interrupted calls.
  retry-settled :
      (call : sys.State → Option Message × sys.State) (fuel : ℕ) (s : sys.State)
      → Settles sys std call fuel s
      → (n : ℕ) × (retry sys std call fuel s ≡ some (settled (call (after_calls sys std call n s))))
        × AllInterrupted sys std call n s
        × (¬ Interrupted sys std call (after_calls sys std call n s))
  retry-settled call fuel s (n, fits, before, here) =
      (n, outcome (retry_lem sys std call n fuel s fits before here), before, here)
    where
      outcome :
          Outcome sys std call (after_calls sys std call n s) (retry sys std call fuel s)
          → retry sys std call fuel s ≡ some (settled (call (after_calls sys std call n s)))
      outcome (inl (x, e, found)) = found ∙ rw e refl
      outcome (inr (e, found)) = found ∙ rw e refl

  module _ (laws : IsSystem sys) where
    -- ReceiveFrom opens and closes nothing, and ends.
    pub receive_from_keeps :
        (fuel this size : ℕ) (s : sys.State)
        → Settles sys std (sys.recvmsg this size) fuel s
        → (r : SocketResult (List ℕ × SocketEndpoint) × sys.State) × (receive_from fuel this size s
            ≡ some r)
          × Kept sys s r.1
    unfolding receive_from
    receive_from_keeps fuel this size s settles = elim (Bool-cases (is_valid this)) [
      | inr invalid ↦ ((failure (invalid_socket_error sys std), s), rw invalid refl, λ d. refl)
      | inl valid ↦ elim (Bool-cases (leb size max_transfer_length)) [
        | inr large ↦ ((failure (message_size_error sys std), s), rw (valid, large) refl, λ d. refl)
        | inl small ↦
            let call = sys.recvmsg this size in
            let (q, found) = retry-some sys std call fuel s settles in
            let kept =
              retry_inv sys std call (Kept sys s) (λ r. Kept sys s r.1) fuel s (λ d. refl)
                (λ t kept e d. laws.recvmsg_keeps this size t d ∙ kept d)
                (λ t kept e d. laws.recvmsg_keeps this size t d ∙ kept d)
                (λ t x kept e d. laws.recvmsg_keeps this size t d ∙ kept d) q found in
            (received q, rw (valid, small, receive_from, found) refl, received_keeps s q kept)
      ]
    ]

    -- The end of a call that was not cut.
    received_uncut :
        (size : ℕ) (bytes : List ℕ) (storage : sys.headers.Storage) (len : ℕ) (t : sys.State)
        → length bytes ≤ size
        → Heard size
            (some (bytes, false, (storage, len)), t)
            (received (success (bytes, false, (storage, len)), t))
    unfolding received read_endpoint
    received_uncut size bytes storage len t bound =
        elim (from_native_lem sys.headers laws.headers_laws storage len) [
          | inl (sender, found, valid, reads) ↦ inl (sender, rw found refl, bound, valid, reads)
          | inr (found, unread) ↦ inr (rw found refl, unread)
        ]

    received_lem :
        (size : ℕ) (c : Option Message × sys.State)
        → ((bytes : List ℕ) (cut : Bool) (from : sys.headers.Storage × ℕ)
            → c.0 ≡ some (bytes, cut, from)
            → length bytes ≤ size)
        → Heard size c (received (settled c))
    unfolding received
    received_lem size (none, t) bound = refl
    received_lem size (some (bytes, true, from), t) bound = refl
    received_lem size (some (bytes, false, (storage, len)), t) bound =
        received_uncut size bytes storage len t (bound bytes false (storage, len) refl)

    -- On a system with the laws IsSystem, and where recvmsg is interrupted fewer times in a row
    -- than there is fuel: ReceiveFrom ends. It fails without a call where the handle is invalid or
    -- the buffer is longer than an int says. Otherwise it calls recvmsg until a call is not
    -- interrupted, and that call decides: a failed one gives the error that it has set; a datagram
    -- that was cut gives the error message_size; one that was not cut and whose address structure
    -- fits in the length given gives its bytes, no more than the buffer has, and a valid sender
    -- with the address, port and scope of the structure; and one with no such structure gives the
    -- error invalid_argument.
    pub receive_from_lem :
        (fuel this size : ℕ) (s : sys.State)
        → Settles sys std (sys.recvmsg this size) fuel s
        → (r : SocketResult (List ℕ × SocketEndpoint) × sys.State) × (receive_from fuel this size s
            ≡ some r)
          × Received this size s r
    unfolding receive_from
    receive_from_lem fuel this size s settles = elim (Bool-cases (is_valid this)) [
      | inr invalid ↦
          ((failure (invalid_socket_error sys std), s), rw invalid refl, inl (invalid, refl))
      | inl valid ↦ elim (Bool-cases (leb size max_transfer_length)) [
        | inr large ↦ (
          (failure (message_size_error sys std), s),
          rw (valid, large) refl,
          inr (valid, inl (ground arith, refl)),
        )
        | inl small ↦
            let call = sys.recvmsg this size in
            let (n, found, before, here) = retry-settled call fuel s settles in
            let t = after_calls sys std call n s in
            (
              received (settled (call t)),
              rw (valid, small, receive_from, found) refl,
              inr (
                valid,
                inr (
                  ground arith,
                  (n, before, here, received_lem size (call t) (laws.recvmsg_bound this size t)),
                ),
              ),
            )
      ]
    ]
