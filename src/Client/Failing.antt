-- ===== src/Client/Failing.antt =====
-- client_connection.hpp: fail_pending, and what its callers leave behind.
use rillnet.Base.{
  ℕ, zero, suc, ◌≤◌, ◌≡◌, refl, ◌==◌, ◌∙◌, subst, true, false, Option, none, some, List, [], ◌∷◌,
  String, length, arith, if◌then◌else◌,
}
use rillnet.Base.Keys.{
  lookup, assign, without, lookup-assign, lookup-assign_same, lookup-without, length-without,
}
use rillnet.Status.{StatusCode, same_status}
use rillnet.Lifecycle.{OperationState, is_operation}
use rillnet.Diagnostics.{DiagnosticsHooks}
use rillnet.Operation
use rillnet.Operation.{Operation, OperationResult, is_terminal}
use rillnet.Channel.{Asio}
use rillnet.Client.{
  PendingRequest, Client, run_on, close_channel, remove_pending, release_pending, cleanup_pending,
  fail_one, fail_pending_loop, fail_pending,
}

pub fail-stream :
    (status : StatusCode) (message : String) (o : Operation DiagnosticsHooks) (d : DiagnosticsHooks)
    → (Operation.fail status message o d).0.stream ≡ o.stream
unfolding Operation.fail Operation.finish
fail-stream status message o d = ground arith

-- An operation that has been activated has ended once fail has been called with an error.
fail_ends :
    (status : StatusCode) (message : String) (o : Operation DiagnosticsHooks) (d : DiagnosticsHooks)
    → same_status status StatusCode.ok ≡ false
    → is_operation o.state OperationState.created ≡ false
    → is_terminal (Operation.fail status message o d).0 ≡ true
unfolding Operation.fail Operation.finish is_terminal is_operation
fail_ends status message o d e a = ground arith

module _ (io : Asio) where
  pub close_channel_lem :
      (h : ℕ) (p : PendingRequest io) (c : Client io)
      → lookup h c.heap ≡ some p
      → close_channel io h c
        ≡ record c { heap = assign h (record p { channel = io.frames.close p.channel }) c.heap }
  unfolding close_channel
  close_channel_lem h p c e = rw (e, close_channel)

  pub cleanup_pending_lem :
      (h : ℕ) (p : PendingRequest io) (c : Client io)
      → lookup h c.heap ≡ some p
      → p.removed ≡ false
      → lookup p.operation.stream c.pending ≡ some h
      → cleanup_pending io h false c ≡ record c {
        heap = assign h (record p { removed = true; timer = none }) c.heap;
        pending = without p.operation.stream c.pending;
      }
  unfolding cleanup_pending remove_pending release_pending
  cleanup_pending_lem h p c e live known = ground arith

  fail_one_found :
      (status : StatusCode) (message : String) (h : ℕ) (p : PendingRequest io) (c : Client io)
      → lookup h c.heap ≡ some p
      → fail_one io status message h c
        ≡ cleanup_pending io h false
            (close_channel io h (run_on io (Operation.fail status message) h p c).0)
  unfolding fail_one
  fail_one_found status message h p c e = rw (e, fail_one)

  abbrev failed_request :
      StatusCode → String → PendingRequest io → DiagnosticsHooks → PendingRequest io
  failed_request status message p d = record p {
    channel = io.frames.close p.channel;
    timer = none;
    operation = (Operation.fail status message p.operation d).0;
    removed = true;
  }

  -- What one round does to the map and to every object.
  abbrev Failed : StatusCode → String → ℕ → PendingRequest io → Client io → Client io → Type 0
  Failed status message h p c c' =
      (c'.pending ≡ without p.operation.stream c.pending)
      × ((k : ℕ)
          → lookup k c'.heap ≡ (
              if h == k
              then some (failed_request status message p c.diagnostics)
              else lookup k c.heap))

  fail_one_lem :
      (status : StatusCode) (message : String) (h : ℕ) (p : PendingRequest io) (c : Client io)
      → lookup h c.heap ≡ some p
      → p.removed ≡ false
      → lookup p.operation.stream c.pending ≡ some h
      → Failed status message h p c (fail_one io status message h c)
  fail_one_lem status message h p c e live known =
      let c1 = (run_on io (Operation.fail status message) h p c).0 in
      let p1 : PendingRequest io = record p {
        operation = (Operation.fail status message p.operation c.diagnostics).0;
      } in
      let p2 : PendingRequest io = record p1 { channel = io.frames.close p1.channel } in
      let same = fail-stream status message p.operation c.diagnostics in
      let found1 : lookup h c1.heap ≡ some p1 = unfold run_on in lookup-assign_same h p1 c.heap in
      let closed = close_channel_lem h p1 c1 found1 in
      let known2 : lookup p2.operation.stream (close_channel io h c1).pending ≡ some h =
        rw (closed, same) (unfold run_on in known) in
      let found2 : lookup h (close_channel io h c1).heap ≡ some p2 =
        rw closed (lookup-assign_same h p2 c1.heap) in
      rw
        (
          fail_one_found status message h p c e,
          cleanup_pending_lem h p2 (close_channel io h c1) found2 live known2,
        )
        (rw closed (
          unfold run_on in
          rw same (
            refl,
            λ k. ground (
              arith,
              lookup-assign k h (failed_request status message p c.diagnostics)
                  (assign h p2 (assign h p1 c.heap)),
              lookup-assign k h p2 (assign h p1 c.heap),
              lookup-assign k h p1 c.heap,
            ),
          )))

  -- A handle of the map points to a request of that stream that is active or has ended and was not
  -- removed.
  abbrev pub Points : ℕ → Option (PendingRequest io) → Type 0
  Points stream none = ⊥
  Points stream (some p) =
      (p.operation.stream ≡ stream)
      × (p.removed ≡ false)
      × (is_operation p.operation.state OperationState.created ≡ false)

  abbrev pub Linked : Client io → Type 0
  Linked c = (stream h : ℕ) → lookup stream c.pending ≡ some h → Points stream (lookup h c.heap)

  -- A request whose operation has ended, whose channel is closed and that was removed.
  abbrev pub Settled : Option (PendingRequest io) → Type 0
  Settled none = ⊥
  Settled (some p) =
      (is_terminal p.operation ≡ true) × (io.frames.is_open p.channel ≡ false) × (p.removed ≡ true)

  abbrev Keeps : Client io → Client io → Type 0
  Keeps c c' = (k : ℕ) → Settled (lookup k c.heap) → Settled (lookup k c'.heap)

  abbrev Round : ℕ → ℕ → Client io → Client io → Type 0
  Round stream h c c' =
      (c'.pending ≡ without stream c.pending) × Linked c' × Settled (lookup h c'.heap) × Keeps c c'

  failed_request-Settled :
      (status : StatusCode) (message : String) (p : PendingRequest io) (d : DiagnosticsHooks)
      (stream : ℕ)
      → same_status status StatusCode.ok ≡ false
      → Points stream (some p)
      → Settled (some (failed_request status message p d))
  failed_request-Settled status message p d stream e (same, live, begun) =
      (fail_ends status message p.operation d e begun, (io.frames.close_closed p.channel).1, refl)

  fail_one-Round :
      (status : StatusCode) (message : String) (stream h : ℕ) (p : PendingRequest io)
      (c c' : Client io)
      → same_status status StatusCode.ok ≡ false
      → lookup h c.heap ≡ some p
      → Points stream (some p)
      → Linked c
      → (c'.pending ≡ without stream c.pending)
      → ((k : ℕ)
          → lookup k c'.heap ≡ (
              if h == k
              then some (failed_request status message p c.diagnostics)
              else lookup k c.heap))
      → Round stream h c c'
  fail_one-Round status message stream h p c c' e found points linked map objects =
      let done = failed_request-Settled status message p c.diagnostics stream e points in
      (
        map,
        (λ s k known.
            ground (arith, objects k, map, lookup-without s stream c.pending, linked s k)),
        ground (arith, objects h),
        (λ k was. ground (arith, objects k)),
      )

  fail_one_at :
      (status : StatusCode) (message : String) (stream h : ℕ) (c : Client io)
      (o : Option (PendingRequest io))
      → same_status status StatusCode.ok ≡ false
      → lookup h c.heap ≡ o
      → Points stream o
      → lookup stream c.pending ≡ some h
      → Linked c
      → Round stream h c (fail_one io status message h c)
  fail_one_at status message stream h c none e found points known linked = elim points [ ]
  fail_one_at status message stream h c (some p) e found points known linked =
      let known' : lookup p.operation.stream c.pending ≡ some h = rw points.0 known in
      let (map, objects) = fail_one_lem status message h p c found points.1 known' in
      fail_one-Round status message stream h p c (fail_one io status message h c) e found points
        linked
        (subst (λ s. (fail_one io status message h c).pending ≡ without s c.pending) points.0 map)
        objects

  abbrev Emptied : Client io → Client io → Type 0
  Emptied c c' =
      (c'.pending ≡ [])
      × ((stream h : ℕ) → lookup stream c.pending ≡ some h → Settled (lookup h c'.heap))
      × Keeps c c'

  loop_step :
      (fuel : ℕ) (status : StatusCode) (message : String) (stream h : ℕ) (rest : List (ℕ × ℕ))
      (c : Client io)
      → c.pending ≡ (stream, h) ∷ rest
      → fail_pending_loop io (suc fuel) status message c
        ≡ fail_pending_loop io fuel status message (fail_one io status message h c)
  unfolding fail_pending_loop
  loop_step fuel status message stream h rest c e = ground arith

  fail_pending_loop-Emptied :
      (fuel : ℕ) (status : StatusCode) (message : String) (c : Client io) (entries : List (ℕ × ℕ))
      → c.pending ≡ entries
      → length entries ≤ fuel
      → same_status status StatusCode.ok ≡ false
      → Linked c
      → Emptied c (fail_pending_loop io fuel status message c)
  fail_pending_loop-Emptied zero status message c [] same l e linked =
      unfold fail_pending_loop in
      (same, (λ s h known. unfold lookup in ground (arith, same)), (λ k was. was))
  fail_pending_loop-Emptied zero status message c (x ∷ entries) same l e linked =
      absurd (omega arith)
  fail_pending_loop-Emptied (suc fuel) status message c [] same l e linked =
      unfold fail_pending_loop in
      rw (same, fail_pending_loop)
        (same, (λ s h known. unfold lookup in ground (arith, same)), (λ k was. was))
  fail_pending_loop-Emptied (suc fuel) status message c ((stream, h) ∷ rest) same l e linked =
      let known : lookup stream c.pending ≡ some h = rw same (unfold lookup in ground arith) in
      let (map, linked', done, keeps) =
        fail_one_at status message stream h c (lookup h c.heap) e refl (linked stream h known) known
          linked in
      let c' = fail_one io status message h c in
      let shorter : length c'.pending ≤ fuel =
        unfold without in ground (arith, map, same, length-without stream rest) in
      let (empty, settled, keeps') =
        fail_pending_loop-Emptied fuel status message c' c'.pending refl shorter e linked' in
      rw (loop_step fuel status message stream h rest c same) (
        empty,
        (λ s k was. ground (arith, keeps' k, settled s k, map, lookup-without s stream c.pending)),
        (λ k was. keeps' k (keeps k was)),
      )

  -- Where every handle of the map points to an unremoved request of its stream that was activated,
  -- fail_pending with an error ends every pending request: the map is empty, and each request that was in it
  -- has an operation that has ended, a closed channel and the mark that it was removed.
  pub fail_pending_lem :
      (status : StatusCode) (message : String) (c : Client io)
      → same_status status StatusCode.ok ≡ false
      → Linked c
      → let c' = fail_pending io status message c in
        (c'.pending ≡ [])
        × ((stream h : ℕ) → lookup stream c.pending ≡ some h → Settled (lookup h c'.heap))
  unfolding fail_pending
  fail_pending_lem status message c e linked =
      let all =
        fail_pending_loop-Emptied (length c.pending) status message c c.pending refl (omega arith) e
          linked in
      (all.0, all.1)

  fail_one-closed_notified :
      (status : StatusCode) (message : String) (h : ℕ) (c : Client io)
      → (fail_one io status message h c).closed_notified ≡ c.closed_notified
  unfolding fail_one run_on close_channel cleanup_pending remove_pending release_pending
  fail_one-closed_notified status message h c = ground arith

  fail_pending_loop-closed_notified :
      (fuel : ℕ) (status : StatusCode) (message : String) (c : Client io) (entries : List (ℕ × ℕ))
      → c.pending ≡ entries
      → (fail_pending_loop io fuel status message c).closed_notified ≡ c.closed_notified
  unfolding fail_pending_loop
  fail_pending_loop-closed_notified zero status message c entries same = refl
  fail_pending_loop-closed_notified (suc fuel) status message c [] same =
      rw (same, fail_pending_loop) refl
  fail_pending_loop-closed_notified (suc fuel) status message c ((stream, h) ∷ rest) same =
      let c' = fail_one io status message h c in
      rw (loop_step fuel status message stream h rest c same) (
        fail_pending_loop-closed_notified fuel status message c' c'.pending refl
        ∙ fail_one-closed_notified status message h c)

  pub fail_pending-closed_notified :
      (status : StatusCode) (message : String) (c : Client io)
      → (fail_pending io status message c).closed_notified ≡ c.closed_notified
  unfolding fail_pending
  fail_pending-closed_notified status message c =
      fail_pending_loop-closed_notified (length c.pending) status message c c.pending refl
