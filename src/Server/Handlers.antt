-- ===== src/Server/Handlers.antt =====
-- server_connection.hpp: the running handlers, their operations and active_handlers_.
use rillnet.Base.{
  ℕ, ◌%◌, ◌^◌, ◌≡◌, refl, Bool, true, false, some, List, [], ◌∷◌, length, arith, Option-cases, inl,
  inr,
}
use rillnet.Base.Keys.{
  lookup, without, lookup-assign, lookup-without, Distinct, assign-Distinct, without-Distinct,
  length-assign_new, length-assign_old, length-without_found,
}
use rillnet.Status.{connection_closed}
use rillnet.Diagnostics.{DiagnosticsHooks}
use rillnet.Operation
use rillnet.Operation.{Operation}
use rillnet.Frame.{Frame}
use rillnet.Registry.{is_some}
use rillnet.Channel.{Asio}
use rillnet.WriteQueue.{close}
use rillnet.Server.{
  Server, close_queue_when_idle, run_on, accept_request, handler_ends, fail_operations,
  new_server_operation,
}

module _ (io : Asio) where
  pub fail_operations_keys :
      (ops : List (ℕ × Operation DiagnosticsHooks)) (d : DiagnosticsHooks)
      → (length (fail_operations io ops d).0 ≡ length ops)
        × ((k : ℕ) → is_some (lookup k (fail_operations io ops d).0) ≡ is_some (lookup k ops))
  unfolding fail_operations lookup
  fail_operations_keys [] d = (refl, (λ k. refl))
  fail_operations_keys ((stream, o) ∷ rest) d =
      let d' =
        (Operation.fail connection_closed "connection closed while processing a request"
          (Operation.request_cancellation o).0 d).1 in
      let (same, keys) = fail_operations_keys rest d' in
      (ground (arith, same), (λ k. ground (arith, keys k)))

  pub fail_operations-Distinct :
      (ops : List (ℕ × Operation DiagnosticsHooks)) (d : DiagnosticsHooks)
      → Distinct ops
      → Distinct (fail_operations io ops d).0
  unfolding fail_operations
  fail_operations-Distinct [] d v = v
  fail_operations-Distinct ((stream, o) ∷ rest) d v =
      let d' =
        (Operation.fail connection_closed "connection closed while processing a request"
          (Operation.request_cancellation o).0 d).1 in
      (
        ground (arith, (fail_operations_keys rest d').1 stream),
        fail_operations-Distinct rest d' v.1,
      )

  -- The streams of the running handlers are those of the operations, each once, and active_handlers_
  -- is their number, as a std::size_t.
  abbrev pub Inv : Server io → Type 0
  Inv s =
      Distinct s.operations
      × (s.active_handlers ≡ length s.operations % 2 ^ 64)
      × ((k : ℕ) → is_some (lookup k s.spawned) ≡ is_some (lookup k s.operations))

  pub run_on-Inv :
      (m : Operation DiagnosticsHooks
        → DiagnosticsHooks
        → Operation DiagnosticsHooks × DiagnosticsHooks × Bool)
      (stream : ℕ) (o : Operation DiagnosticsHooks) (s : Server io)
      → lookup stream s.operations ≡ some o
      → Inv s
      → Inv (run_on io m stream o s).0
  unfolding run_on
  run_on-Inv m stream o s e (distinct, counted, same) =
      let o' = (m o s.diagnostics).0 in
      (
        assign-Distinct stream o' s.operations distinct,
        ground (arith, length-assign_old stream o' o s.operations e),
        (λ k. ground (arith, same k, lookup-assign k stream o' s.operations)),
      )

  pub accept_request-Inv :
      (frame : Frame) (handler : ℕ) (s : Server io)
      → Inv s
      → Inv (accept_request io frame handler s)
  unfolding accept_request
  accept_request-Inv frame handler s (distinct, counted, same) =
      elim (Option-cases (lookup frame.header.stream s.operations)) [
        | inr (o, e) ↦ rw (e, accept_request) (distinct, counted, same)
        | inl e ↦
            let o = new_server_operation frame.header.stream in
            rw (e, accept_request)
              (
                assign-Distinct frame.header.stream o s.operations distinct,
                ground (arith, length-assign_new frame.header.stream o s.operations e),
                (λ k. ground (
                  arith,
                  same k,
                  lookup-assign k frame.header.stream o s.operations,
                  lookup-assign k frame.header.stream (handler, frame) s.spawned,
                )),
              )
      ]

  pub handler_ends-Inv :
      (stream : ℕ) (s : Server io)
      → is_some (lookup stream s.spawned) ≡ true
      → Inv s
      → Inv (handler_ends io stream s)
  unfolding handler_ends close_queue_when_idle
  handler_ends-Inv stream s e (distinct, counted, same) =
      elim (Option-cases (lookup stream s.operations)) [
        | inl gone ↦ absurd (ground (arith, same stream))
        | inr (o, found) ↦ (
          ground (arith, without-Distinct stream s.operations distinct),
          ground (arith, length-without_found stream o s.operations distinct found),
          (λ k. ground (
            arith,
            same k,
            lookup-without k stream s.operations,
            lookup-without k stream s.spawned,
          )),
        )
      ]

  no_entry : {V : Type 0} (m : List (ℕ × V)) → length m ≡ 0 → m ≡ []
  no_entry [] e = refl
  no_entry (x ∷ m) e = absurd (omega arith)

  -- Where the invariant holds, the read loop has ended and one handler runs, the end of that handler
  -- leaves no operation, sets active_handlers_ to 0 and closes the write queue, so that run can end.
  handler_ends_last :
      (stream : ℕ) (s : Server io)
      → Inv s
      → is_some (lookup stream s.spawned) ≡ true
      → length s.operations ≡ 1
      → s.reading ≡ false
      → let s' = handler_ends io stream s in
        (s'.operations ≡ []) × (s'.active_handlers ≡ 0) × (s'.queue.closed ≡ true)
  unfolding handler_ends close_queue_when_idle close
  handler_ends_last stream s (distinct, counted, same) runs one ended =
      elim (Option-cases (lookup stream s.operations)) [
        | inl gone ↦ absurd (ground (arith, same stream))
        | inr (o, found) ↦
            let fewer = length-without_found stream o s.operations distinct found in
            let none_left = no_entry (without stream s.operations) (omega (arith, fewer)) in
            (ground (arith, none_left), ground (arith, fewer), ground (arith, fewer))
      ]
