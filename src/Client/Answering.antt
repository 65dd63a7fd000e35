-- ===== src/Client/Answering.antt =====
-- client_connection.hpp: the response to a request, from the bytes that are read to async_wait.
use rillnet.Base.{
  ℕ, ◌≡◌, refl, sym, ap, ◌∙◌, ◌==◌, subst, Bool, true, false, Option, none, some, [], ◌∷◌, String,
  arith, Option-cases, inl, inr,
}
use rillnet.Base.Keys.{lookup, without, contains, lookup-assign_same}
use rillnet.Lifecycle.{OperationState, is_operation}
use rillnet.Diagnostics.{DiagnosticsHooks}
use rillnet.Operation
use rillnet.Operation.{Operation}
use rillnet.Frame.{Frame, response}
use rillnet.Frame.Flags
use rillnet.Frame.Flags.{has_flag}
use rillnet.Message.{Outcome}
use rillnet.Channel.{Asio}
use rillnet.Client.{
  PendingRequest, Client, run_on, remove_pending, release_pending, cleanup_pending, mark_terminal,
  store,
}
use rillnet.Client.Requests.{received, async_wait}
use rillnet.Client.Reading.{deliver, dispatch_found, dispatch_response, dispatch, completed}
use rillnet.Client.Freeing.{async_wait-received}
use rillnet.Client.Errors.{dispatch_pending, cleanup_released, mark_terminal_same}

module _ (io : Asio) where
  pub complete_active :
      (message : String) (o : Operation DiagnosticsHooks) (d : DiagnosticsHooks)
      → is_operation o.state OperationState.active ≡ true
      → let r = Operation.complete message o d in (r.2 ≡ true) × (r.0.stream ≡ o.stream)
  unfolding Operation.complete Operation.finish is_operation
  complete_active message o d a = ground arith

  dispatch_found_response :
      (frame : Frame) (h : ℕ) (p : PendingRequest io) (c : Client io)
      → contains frame.header.stream c.terminal_streams ≡ false
      → has_flag frame.header.flags Flags.cancel ≡ false
      → has_flag frame.header.flags Flags.error ≡ false
      → lookup h c.heap ≡ some p
      → dispatch_found io frame h c ≡ dispatch_response io frame h p c
  unfolding dispatch_found
  dispatch_found_response frame h p c first plain fine e =
      rw (first, dispatch_found) (rw plain (rw e (rw fine refl)))

  deliver_lem :
      (frame : Frame) (h : ℕ) (p : PendingRequest io) (ch : io.frames.Channel) (c : Client io)
      → lookup h c.heap ≡ some p
      → io.frames.try_send frame p.channel ≡ some ch
      → deliver io frame h c ≡ store io h (record p { timer = none; channel = ch }) c
  unfolding deliver
  deliver_lem frame h p ch c e sent = rw (e, deliver) (rw sent refl)

  completed_lem :
      (frame : Frame) (h : ℕ) (r : Client io × Bool)
      → r.1 ≡ true
      → completed io frame h r
        ≡ mark_terminal io frame (cleanup_pending io h true (deliver io frame h r.0))
  completed_lem frame h (c, false) e = cc e
  completed_lem frame h (c, true) e = refl

  cleanup_decoder : (h : ℕ) (c : Client io) → (cleanup_pending io h true c).decoder ≡ c.decoder
  unfolding cleanup_pending remove_pending release_pending
  cleanup_decoder h c = elim (Option-cases (lookup h c.heap)) [
    | inl e ↦ rw (e, cleanup_pending) refl
    | inr (p, e) ↦ ground (arith, e)
  ]

  mark_decoder : (frame : Frame) (c : Client io) → (mark_terminal io frame c).decoder ≡ c.decoder
  unfolding mark_terminal
  mark_decoder frame c = ground arith

  -- The channel holds the frame alone.
  abbrev pub Holding : Frame → Option (PendingRequest io) → Type 0
  Holding frame none = ⊥
  Holding frame (some p) = io.frames.held p.channel ≡ frame ∷ []

  -- What the dispatch of a response does to the request it is for.
  pub dispatch_delivers :
      (frame : Frame) (h : ℕ) (p : PendingRequest io) (ch : io.frames.Channel) (c : Client io)
      → (frame.header.type == response) ≡ true
      → has_flag frame.header.flags Flags.cancel ≡ false
      → has_flag frame.header.flags Flags.error ≡ false
      → contains frame.header.stream c.terminal_streams ≡ false
      → lookup frame.header.stream c.pending ≡ some h
      → lookup h c.heap ≡ some p
      → p.operation.stream ≡ frame.header.stream
      → p.removed ≡ false
      → is_operation p.operation.state OperationState.active ≡ true
      → io.frames.try_send frame p.channel ≡ some ch
      → io.frames.held ch ≡ frame ∷ []
      → let c' = dispatch io frame c in
        (c'.transport_open ≡ c.transport_open)
        × (c'.pending ≡ without frame.header.stream c.pending)
        × (c'.decoder ≡ c.decoder)
        × Holding frame (lookup h c'.heap)
  dispatch_delivers frame h p ch c kind plain fine first known found same live active sent holds =
      let message : String = "response received" in
      let r = run_on io (Operation.complete message) h p c in
      let (done, kept) = complete_active message p.operation c.diagnostics active in
      let p1 : PendingRequest io = record p {
        operation = (Operation.complete message p.operation c.diagnostics).0;
      } in
      let p2 : PendingRequest io = record p1 { timer = none; channel = ch } in
      let found1 : lookup h r.0.heap ≡ some p1 = unfold run_on in lookup-assign_same h p1 c.heap in
      let c2 = store io h p2 r.0 in
      let found2 : lookup h c2.heap ≡ some p2 = lookup-assign_same h p2 r.0.heap in
      let known2 : lookup p2.operation.stream c2.pending ≡ some h =
        rw (kept, same) (unfold run_on in known) in
      let (map, transport, object) = cleanup_released io h p2 c2 found2 live known2 in
      let (map', transport', heap') = mark_terminal_same io frame (cleanup_pending io h true c2) in
      let step : dispatch_response io frame h p c
          ≡ mark_terminal io frame (cleanup_pending io h true (deliver io frame h r.0)) =
        unfold dispatch_response run_on in completed_lem frame h r done in
      let open_still : c2.transport_open ≡ c.transport_open = unfold run_on in refl in
      let kept_decoder : c2.decoder ≡ c.decoder = unfold run_on in refl in
      let left : without p2.operation.stream c2.pending ≡ without frame.header.stream c.pending =
        unfold run_on in ap (λ s. without s c.pending) (kept ∙ same) in
      let chain : dispatch io frame c ≡ mark_terminal io frame (cleanup_pending io h true c2) =
        dispatch_pending io frame h c kind known
        ∙ dispatch_found_response frame h p c first plain fine found
        ∙ step
        ∙ ap (λ x. mark_terminal io frame (cleanup_pending io h true x))
            (deliver_lem frame h p1 ch r.0 found1 sent) in
      subst
        (λ c'.
          (c'.transport_open ≡ c.transport_open)
          × (c'.pending ≡ without frame.header.stream c.pending)
          × (c'.decoder ≡ c.decoder)
          × Holding frame (lookup h c'.heap))
        (sym chain)
        (
          transport' ∙ transport ∙ open_still,
          map' ∙ map ∙ left,
          mark_decoder frame (cleanup_pending io h true c2) ∙ cleanup_decoder h c2 ∙ kept_decoder,
          subst (Holding frame) (sym (ap (lookup h) heap' ∙ object)) holds,
        )

  module _ {T : Type 0} (decode : Frame → Outcome T) where
    receive_answers :
        (frame : Frame) (h : ℕ) (p : PendingRequest io) (c : Client io)
        (o : Option (Frame × io.frames.Channel))
        → io.frames.receive p.channel ≡ o
        → io.frames.held p.channel ≡ frame ∷ []
        → (received io decode h p o c).1 ≡ some (decode frame)
    receive_answers frame h p c none e holds = cc (sym holds ∙ io.frames.receive_none p.channel e)
    receive_answers frame h p c (some (f, ch)) e holds =
        let same : f ∷ io.frames.held ch ≡ frame ∷ [] =
          sym (io.frames.receive_some p.channel f ch e).0 ∙ holds in
        let first : f ≡ frame = cc same in ap (λ g. some (decode g)) first

    answers_at :
        (frame : Frame) (h : ℕ) (p : PendingRequest io) (c : Client io)
        → lookup h c.heap ≡ some p
        → io.frames.held p.channel ≡ frame ∷ []
        → (async_wait io decode (some h) c).1 ≡ some (decode frame)
    answers_at frame h p c e holds =
        ap (λ r. r.1) (async_wait-received io decode h p c e)
        ∙ receive_answers frame h p c (io.frames.receive p.channel) refl holds

    -- A wait on a request whose channel holds a frame returns what the frame decodes to.
    pub async_wait-Holding :
        (frame : Frame) (h : ℕ) (c : Client io)
        → Holding frame (lookup h c.heap)
        → (async_wait io decode (some h) c).1 ≡ some (decode frame)
    async_wait-Holding frame h c holds = elim (Option-cases (lookup h c.heap)) [
      | inl e ↦ elim (subst (Holding frame) e holds) [ ]
      | inr (p, e) ↦ answers_at frame h p c e (subst (Holding frame) e holds)
    ]
