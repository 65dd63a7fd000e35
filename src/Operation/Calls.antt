-- ===== src/Operation/Calls.antt =====
-- operation.hpp: the public methods of an operation as data, so that a statement covers every
-- sequence of calls, and what one call does.
use rillnet.Base.{
  ℕ, ◌≡◌, refl, ◌⊎◌, inl, inr, List, [], ◌∷◌, Bool, true, false, ◌||◌, Option, none, some, String,
  arith, Bool-cases,
}
use rillnet.Status.{StatusCode, same_status, timeout_error}
use rillnet.Lifecycle.{
  OperationState, completed, failed, cancelled, is_operation, operation_can_transition,
  operation_transition,
}
use rillnet.Operation.{
  Operation, OperationResult, is_terminal, activate, set_deadline, request_cancellation, complete,
  fail, cancel, timeout, finish, set_completion_handler, call_handler, success_result,
  failure_result,
}

pub data Call (S : Type 0) : Type 0 where
  activates : Call S
  sets_deadline : ℕ → Call S
  requests_cancellation : Call S
  sets_handler : Option (OperationResult → S → S) → Call S
  completes : String → Call S
  fails : StatusCode → String → Call S
  cancels : String → Call S
  times_out : String → Call S

-- The status that goes with a terminal state.
abbrev pub Fits : OperationState → StatusCode → Type 0
Fits completed status = status ≡ StatusCode.ok
Fits failed status = same_status status StatusCode.ok ≡ false
Fits cancelled status = status ≡ StatusCode.cancelled
Fits _ status = ⊥

module _ {S : Type 0} where
  unfoldable pub apply : Call S → Operation S → S → Operation S × S
  apply activates o s = ((activate o).0, s)
  apply (sets_deadline d) o s = ((set_deadline d o).0, s)
  apply requests_cancellation o s = ((request_cancellation o).0, s)
  apply (sets_handler h) o s = (set_completion_handler h o, s)
  apply (completes m) o s = let (o', s', done) = complete m o s in (o', s')
  apply (fails c m) o s = let (o', s', done) = fail c m o s in (o', s')
  apply (cancels m) o s = let (o', s', done) = cancel m o s in (o', s')
  apply (times_out m) o s = let (o', s', done) = timeout m o s in (o', s')

  unfoldable pub apply_all : List (Call S) → Operation S → S → Operation S × S
  unfolding apply
  apply_all [] o s = (o, s)
  apply_all (c ∷ cs) o s = let (o', s') = apply c o s in apply_all cs o' s'

  -- The handler that was set last, `h` if none was.
  unfoldable pub installed :
      Option (OperationResult → S → S) → List (Call S) → Option (OperationResult → S → S)
  installed h [] = h
  installed h (sets_handler h' ∷ cs) = installed h' cs
  installed h (c ∷ cs) = installed h cs

  pub terminal_state : (o p : Operation S) → o.state ≡ p.state → is_terminal o ≡ is_terminal p
  unfolding is_terminal
  terminal_state o p e = ground arith

  pub apply_ended :
      (c : Call S) (o : Operation S) (s : S)
      → is_terminal o ≡ true
      → let (o', s') = apply c o s in
        (o'.state ≡ o.state)
        × (o'.result ≡ o.result)
        × (o'.deadline ≡ o.deadline)
        × (o'.cancellation_requested ≡ o.cancellation_requested)
        × (o'.timed_out ≡ o.timed_out)
        × (s' ≡ s)
  unfolding apply activate set_deadline request_cancellation set_completion_handler complete fail
      cancel timeout finish is_terminal
  apply_ended activates o s e = ground arith
  apply_ended (sets_deadline d) o s e = ground arith
  apply_ended requests_cancellation o s e = ground arith
  apply_ended (sets_handler h) o s e = ground arith
  apply_ended (completes m) o s e = ground arith
  apply_ended (fails c m) o s e = ground arith
  apply_ended (cancels m) o s e = ground arith
  apply_ended (times_out m) o s e = ground arith

  -- Not ended: no result, and no handler has run.
  abbrev pub Open : S → Operation S × S → Type 0
  Open s₀ (o, s) = (is_terminal o ≡ false) × (o.result ≡ none) × (s ≡ s₀)

  -- Ended with the result `r`, in the state that goes with it, after the handler `h` ran on it.
  abbrev pub EndedWith :
      Option (OperationResult → S → S) → OperationResult → S → Operation S × S → Type 0
  EndedWith h r s₀ (o, s) =
      (is_terminal o ≡ true)
      × (o.result ≡ some r)
      × Fits o.state r.status
      × (s ≡ call_handler h r s₀)

  -- One call on an operation that has not ended.
  abbrev pub Step : Option (OperationResult → S → S) → S → Operation S × S → Type 0
  Step h s₀ x = Open s₀ x ⊎ ((r : OperationResult) × EndedWith h r s₀ x)

  Fits-is_terminal :
      (t : OperationState) (c : StatusCode) (o : Operation S)
      → Fits t c
      → o.state ≡ t
      → is_terminal o ≡ true
  unfolding is_terminal is_operation
  Fits-is_terminal completed c o f e = ground arith
  Fits-is_terminal failed c o f e = ground arith
  Fits-is_terminal cancelled c o f e = ground arith
  Fits-is_terminal OperationState.created c o f e = elim f [ ]
  Fits-is_terminal OperationState.active c o f e = elim f [ ]

  finish-Step :
      (t : OperationState) (r : OperationResult) (o : Operation S) (s : S)
      → Fits t r.status
      → Open s (o, s)
      → let (o', s', done) = finish t r o s in Step o.completion_handler s (o', s')
  unfolding finish operation_transition
  finish-Step t r o s f v = elim (Bool-cases (operation_can_transition o.state t)) [
    | inl moves ↦
        let o' : Operation S = record o { state = t; result = some r } in
        rw (moves, finish) (inr (r, (Fits-is_terminal t r.status o' f refl, refl, f, refl)))
    | inr stays ↦ rw (stays, finish) (inl v)
  ]

  activate_open : (o : Operation S) → is_terminal o ≡ false → is_terminal (activate o).0 ≡ false
  unfolding is_terminal activate operation_transition operation_can_transition is_operation
  activate_open o e = ground arith

  timed_out-Step :
      (h : Option (OperationResult → S → S)) (s₀ : S) (o : Operation S) (s : S) (late : Bool)
      → Step h s₀ (o, s)
      → Step h s₀ (record o { timed_out = late }, s)
  unfolding is_terminal
  timed_out-Step h s₀ o s late (inl v) = inl v
  timed_out-Step h s₀ o s late (inr v) = inr v

  pub apply-Step :
      (c : Call S) (o : Operation S) (s : S)
      → Open s (o, s)
      → Step o.completion_handler s (apply c o s)
  unfolding apply activate set_deadline request_cancellation set_completion_handler complete fail
      cancel timeout is_terminal operation_transition
  apply-Step activates o s v = inl (activate_open o v.0, v.1, v.2)
  apply-Step (sets_deadline d) o s v = rw (v.0, apply) (inl v)
  apply-Step requests_cancellation o s v = rw (v.0, apply) (inl v)
  apply-Step (sets_handler h) o s v = inl v
  apply-Step (completes m) o s v = finish-Step completed (success_result m) o s refl v
  apply-Step (fails c m) o s v = elim (Bool-cases (same_status c StatusCode.ok)) [
    | inl is_ok ↦ rw (is_ok, apply) (inl v)
    | inr other ↦ rw (other, apply) (finish-Step failed (failure_result c m) o s other v)
  ]
  apply-Step (cancels m) o s v =
      rw (v.0, apply)
        (finish-Step cancelled (failure_result StatusCode.cancelled m)
          (record o { cancellation_requested = true }) s refl v)
  apply-Step (times_out m) o s v =
      timed_out-Step o.completion_handler s (finish failed (failure_result timeout_error m) o s).0
        (finish failed (failure_result timeout_error m) o s).1
        (let (o', s', late) = finish failed (failure_result timeout_error m) o s in
          o'.timed_out || late)
        (finish-Step failed (failure_result timeout_error m) o s refl v)

  pub apply-installed :
      (c : Call S) (o : Operation S) (s : S)
      → (apply c o s).0.completion_handler ≡ installed o.completion_handler (c ∷ [])
  unfolding apply installed activate set_deadline request_cancellation set_completion_handler
      complete fail cancel timeout finish
  apply-installed activates o s = refl
  apply-installed (sets_deadline d) o s = ground arith
  apply-installed requests_cancellation o s = ground arith
  apply-installed (sets_handler h) o s = refl
  apply-installed (completes m) o s = ground arith
  apply-installed (fails c m) o s = ground arith
  apply-installed (cancels m) o s = ground arith
  apply-installed (times_out m) o s = ground arith

  pub installed-cons :
      (h : Option (OperationResult → S → S)) (c : Call S) (cs : List (Call S))
      → installed (installed h (c ∷ [])) cs ≡ installed h (c ∷ cs)
  unfolding installed
  installed-cons h activates cs = refl
  installed-cons h (sets_deadline d) cs = refl
  installed-cons h requests_cancellation cs = refl
  installed-cons h (sets_handler h') cs = refl
  installed-cons h (completes m) cs = refl
  installed-cons h (fails c m) cs = refl
  installed-cons h (cancels m) cs = refl
  installed-cons h (times_out m) cs = refl
