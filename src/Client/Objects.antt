-- ===== src/Client/Objects.antt =====
-- client_connection.hpp: the map of pending requests and the objects it points to, through the
-- operations on one request.
use rillnet.Base.{
  ℕ, ◌≤◌, ◌≡◌, ◌≢◌, refl, Bool, true, false, not, ◌&&◌, Option, none, some, String, arith,
  if◌then◌else◌, Bool-cases, Option-cases, inl, inr,
}
use rillnet.Base.Keys.{lookup, assign, lookup-assign, lookup-assign_same, lookup-without}
use rillnet.Status.{StatusCode}
use rillnet.Lifecycle.{OperationState, is_operation}
use rillnet.Diagnostics.{DiagnosticsHooks}
use rillnet.Operation
use rillnet.Operation.{Operation, is_terminal}
use rillnet.Channel.{Asio}
use rillnet.Client.{
  PendingRequest, Client, is_handle, cancellation_frame, run_on, close_channel, remove_pending,
  release_pending, cleanup_pending, ended_locally, timeout_pending, cancel_pending, discard_pending,
  send_cancellation, fail_one,
}
use rillnet.WriteQueue.Bytes.{try_enqueue-Inv}
use rillnet.Client.Failing.{Linked}
use rillnet.Client.Invariant.{Extra, Holds, update-Extra, without-Extra, queue-Extra, release-Extra}

abbrev pub Method : Type 0
Method =
    Operation DiagnosticsHooks
    → DiagnosticsHooks
    → Operation DiagnosticsHooks × DiagnosticsHooks × Bool

-- A method keeps the stream, and does not go back to `created`.
abbrev pub Tame : Method → Type 0
Tame m =
    (o : Operation DiagnosticsHooks) (d : DiagnosticsHooks)
    → ((m o d).0.stream ≡ o.stream)
      × (is_operation o.state OperationState.created ≡ false
          → is_operation (m o d).0.state OperationState.created ≡ false)

pub fail-Tame : (status : StatusCode) (message : String) → Tame (Operation.fail status message)
unfolding Operation.fail Operation.finish is_operation
fail-Tame status message o d = ground arith

pub cancel-Tame : (message : String) → Tame (Operation.cancel message)
unfolding Operation.cancel Operation.finish is_operation
cancel-Tame message o d = ground arith

pub timeout-Tame : (message : String) → Tame (Operation.timeout message)
unfolding Operation.timeout Operation.finish is_operation
timeout-Tame message o d = ground arith

pub complete-Tame : (message : String) → Tame (Operation.complete message)
unfolding Operation.complete Operation.finish is_operation
complete-Tame message o d = ground arith

module _ (io : Asio) where
  -- Handles of the map point to requests of their streams, and the next handle is not in use.
  abbrev pub Inv : Client io → Type 0
  Inv c = Linked io c × ((k : ℕ) → c.next_handle ≤ k → lookup k c.heap ≡ none)

module _ (io : Asio) (full : Bool) where
  pub update-Inv :
      (h : ℕ) (p p' : PendingRequest io) (c : Client io)
      → lookup h c.heap ≡ some p
      → p'.operation.stream ≡ p.operation.stream
      → p'.removed ≡ p.removed
      → p'.stream_released ≡ p.stream_released
      → (is_operation p.operation.state OperationState.created ≡ false
          → is_operation p'.operation.state OperationState.created ≡ false)
      → Holds io full c
      → Holds io full (record c { heap = assign h p' c.heap })
  update-Inv h p p' c e same live kept begun (linked, fresh, extra) = (
    (λ s k known. ground (arith, linked s k, lookup-assign k h p' c.heap)),
    (λ k le. ground (arith, fresh k, lookup-assign k h p' c.heap)),
    update-Extra io full h p p' c.heap c.pending c.stream_ids c.queue e same kept extra,
  )

  pub run_on-Inv :
      (m : Method) (h : ℕ) (p : PendingRequest io) (c : Client io)
      → Tame m
      → lookup h c.heap ≡ some p
      → Holds io full c
      → Holds io full (run_on io m h p c).0
  unfolding run_on
  run_on-Inv m h p c tame e v =
      update-Inv h p (record p { operation = (m p.operation c.diagnostics).0 }) c e
        (tame p.operation c.diagnostics).0 refl refl (tame p.operation c.diagnostics).1 v

  -- A branch on an object that may not be there.
  pub found-Inv :
      (o : Option (PendingRequest io)) (h : ℕ) (c : Client io) (f : PendingRequest io → Client io)
      → lookup h c.heap ≡ o
      → Holds io full c
      → ((p : PendingRequest io) → lookup h c.heap ≡ some p → Holds io full (f p))
      → Holds io full (elim o [ none ↦ c | some p ↦ f p ])
  found-Inv none h c f e v each = v
  found-Inv (some p) h c f e v each = each p e

  pub close_channel-Inv :
      (h : ℕ) (c : Client io) → Holds io full c → Holds io full (close_channel io h c)
  unfolding close_channel
  close_channel-Inv h c v = found-Inv (lookup h c.heap) h c _ refl v (λ p e.
      update-Inv h p (record p { channel = io.frames.close p.channel }) c e refl refl refl (λ x. x)
        v)

  abbrev marked : PendingRequest io → PendingRequest io
  marked p = if p.removed then p else record p { removed = true; timer = none }

  remove_pending-Extra :
      (h : ℕ) (p : PendingRequest io) (c : Client io)
      → lookup h c.heap ≡ some p
      → Extra io full c.heap c.pending c.stream_ids c.queue
      → let c' = remove_pending io h p c in Extra io full c'.heap c'.pending c'.stream_ids c'.queue
  unfolding remove_pending
  remove_pending-Extra h p c e v =
      let p' : PendingRequest io = record p { removed = true; timer = none } in
      let updated =
        update-Extra io full h p p' c.heap c.pending c.stream_ids c.queue e refl refl v in
      let erased =
        without-Extra io full p.operation.stream (assign h p' c.heap) c.pending c.stream_ids c.queue
          updated in
      elim (Bool-cases p.removed) [
        | inl gone ↦ rw (gone, remove_pending) v
        | inr here ↦ elim (Bool-cases (is_handle io (lookup p.operation.stream c.pending) h)) [
          | inl mine ↦ rw (here, remove_pending) (rw mine erased)
          | inr other ↦ rw (here, remove_pending) (rw other updated)
        ]
      ]

  -- Once removed, a request is not pending.
  remove_pending-Inv :
      (h : ℕ) (p : PendingRequest io) (c : Client io)
      → lookup h c.heap ≡ some p
      → Holds io full c
      → Holds io full (remove_pending io h p c)
        × (lookup h (remove_pending io h p c).heap ≡ some (marked p))
        × ((s : ℕ) → lookup s (remove_pending io h p c).pending ≢ some h)
  unfolding remove_pending
  remove_pending-Inv h p c e (linked, fresh, extra) =
      let p' : PendingRequest io = record p { removed = true; timer = none } in
      (
        (
          (λ s k known. ground (
            arith,
            linked s k,
            lookup-assign k h p' c.heap,
            lookup-without s p.operation.stream c.pending,
          )),
          (λ k le. ground (arith, fresh k, lookup-assign k h p' c.heap)),
          remove_pending-Extra h p c e extra,
        ),
        ground (arith, lookup-assign_same h p' c.heap),
        (λ s known. ground (arith, linked s h, lookup-without s p.operation.stream c.pending)),
      )

  release_pending-Inv :
      (b : Bool) (h : ℕ) (p : PendingRequest io) (c : Client io)
      → lookup h c.heap ≡ some p
      → ((s : ℕ) → lookup s c.pending ≢ some h)
      → Holds io full c
      → Holds io full (release_pending io b h p c)
  unfolding release_pending
  release_pending-Inv b h p c e absent (linked, fresh, extra) =
      let p' : PendingRequest io = record p { stream_released = true } in
      elim (Bool-cases (b && not p.stream_released)) [
        | inl new ↦ rw new (
          (λ s k known. ground (arith, linked s k, lookup-assign k h p' c.heap)),
          (λ k le. ground (arith, fresh k, lookup-assign k h p' c.heap)),
          release-Extra io full h p p' c.heap c.pending c.stream_ids c.queue e (ground arith) refl
              absent extra,
        )
        | inr done ↦ rw done (linked, fresh, extra)
      ]

  pub cleanup_pending-Inv :
      (h : ℕ) (b : Bool) (c : Client io)
      → Holds io full c
      → Holds io full (cleanup_pending io h b c)
  unfolding cleanup_pending
  cleanup_pending-Inv h b c v = found-Inv (lookup h c.heap) h c _ refl v (λ p e.
      let (v', e', absent) = remove_pending-Inv h p c e v in
      release_pending-Inv b h (marked p) (remove_pending io h p c) e' absent v')

  send_cancellation-Inv :
      (stream : ℕ) (c : Client io) → Holds io full c → Holds io full (send_cancellation io stream c)
  unfolding send_cancellation
  send_cancellation-Inv stream c (linked, fresh, extra) = (
    linked,
    fresh,
    queue-Extra io full c.heap c.pending c.stream_ids c.queue _
        (try_enqueue-Inv io (cancellation_frame io stream) c.queue) extra,
  )

  ended_locally-Inv :
      (h stream : ℕ) (r : Client io × Bool)
      → Holds io full r.0
      → Holds io full (ended_locally io h stream r).0
  unfolding send_cancellation
  ended_locally-Inv h stream (c, false) v = v
  ended_locally-Inv h stream (c, true) v =
      cleanup_pending-Inv h false (close_channel io h (send_cancellation io stream c))
        (close_channel-Inv h (send_cancellation io stream c) (send_cancellation-Inv stream c v))

  pub timeout_pending-Inv :
      (h : ℕ) (c : Client io) → Holds io full c → Holds io full (timeout_pending io h c)
  unfolding timeout_pending
  timeout_pending-Inv h c v = found-Inv (lookup h c.heap) h c _ refl v (λ p e.
      let m : Method = Operation.timeout "operation deadline exceeded" in
      ended_locally-Inv h p.operation.stream (run_on io m h p c)
        (run_on-Inv m h p c (timeout-Tame "operation deadline exceeded") e v))

  pub cancel_pending-Inv :
      (h : ℕ) (message : String) (c : Client io)
      → Holds io full c
      → Holds io full (cancel_pending io h message c).0
  unfolding cancel_pending
  cancel_pending-Inv h message c v = elim (Option-cases (lookup h c.heap)) [
    | inl e ↦ rw (e, cancel_pending) v
    | inr (p, e) ↦
        rw (e, cancel_pending)
          (ended_locally-Inv h p.operation.stream (run_on io (Operation.cancel message) h p c)
            (run_on-Inv (Operation.cancel message) h p c (cancel-Tame message) e v))
  ]

  if-Inv :
      (b : Bool) (c d : Client io)
      → Holds io full c
      → Holds io full d
      → Holds io full (if b then c else d)
  if-Inv true c d v w = v
  if-Inv false c d v w = w

  pub discard_pending-Inv :
      (h : ℕ) (c : Client io) → Holds io full c → Holds io full (discard_pending io h c)
  unfolding discard_pending
  discard_pending-Inv h c v = found-Inv (lookup h c.heap) h c _ refl v (λ p e.
      let m : Method = Operation.cancel "operation handle released" in
      let sent = send_cancellation io p.operation.stream (run_on io m h p c).0 in
      cleanup_pending-Inv h true (if is_terminal p.operation then c else close_channel io h sent) (
        if-Inv (is_terminal p.operation) c (close_channel io h sent) v (
          close_channel-Inv h sent (
            send_cancellation-Inv p.operation.stream (run_on io m h p c).0
              (run_on-Inv m h p c (cancel-Tame "operation handle released") e v)))))

  pub fail_one-Inv :
      (status : StatusCode) (message : String) (h : ℕ) (c : Client io)
      → Holds io full c
      → Holds io full (fail_one io status message h c)
  unfolding fail_one
  fail_one-Inv status message h c v = found-Inv (lookup h c.heap) h c _ refl v (λ p e.
      let failed = (run_on io (Operation.fail status message) h p c).0 in
      cleanup_pending-Inv h false (close_channel io h failed) (
        close_channel-Inv h failed
          (run_on-Inv (Operation.fail status message) h p c (fail-Tame status message) e v)))
