-- ===== src/Operation.antt =====
-- include/rillnet/operation.hpp: one request or handler in flight. A method returns the new object
-- and what the C++ method returns. The completion handler is a function on a state `S`, that which
-- the handler writes; the methods that can call it pass that state through.
pub mod Calls
pub mod Once
use rillnet.Base.{ℕ, Bool, true, false, not, ◌||◌, Option, none, some, String, if◌then◌else◌}
use rillnet.Status.{StatusCode, same_status}
use rillnet.Lifecycle.{
  OperationState, completed, failed, cancelled, LifecycleTransitionError, invalid_transition,
  is_operation, operation_transition,
}

pub record OperationResult : Type 0 where
  pub status : StatusCode
  pub message : String

-- OperationResult::success and ::failure
abbrev pub success_result : String → OperationResult
success_result message = record { status = StatusCode.ok; message = message }

abbrev pub failure_result : StatusCode → String → OperationResult
failure_result status message = record { status = status; message = message }

pub record Operation (S : Type 0) : Type 0 where
  pub stream : ℕ
  pub state : OperationState
  pub result : Option OperationResult
  pub deadline : Option ℕ
  pub cancellation_requested : Bool
  pub timed_out : Bool
  pub completion_handler : Option (OperationResult → S → S)

module _ {S : Type 0} where
  unfoldable pub new_operation : ℕ → Option (OperationResult → S → S) → Operation S
  new_operation stream handler = record {
    stream = stream;
    state = OperationState.created;
    result = none;
    deadline = none;
    cancellation_requested = false;
    timed_out = false;
    completion_handler = handler;
  }

  unfoldable pub is_terminal : Operation S → Bool
  unfolding is_operation
  is_terminal o =
      is_operation o.state completed
      || (is_operation o.state failed || is_operation o.state cancelled)

  unfoldable pub activate : Operation S → Operation S × LifecycleTransitionError
  unfolding operation_transition
  activate o =
      let (state', e) = operation_transition o.state OperationState.active in
      (record o { state = state' }, e)

  unfoldable pub set_deadline : ℕ → Operation S → Operation S × Bool
  unfolding is_terminal
  set_deadline deadline o =
      if is_terminal o then (o, false) else (record o { deadline = some deadline }, true)

  unfoldable pub request_cancellation : Operation S → Operation S × Bool
  unfolding is_terminal
  request_cancellation o =
      if is_terminal o then (o, false) else (record o { cancellation_requested = true }, true)

  unfoldable pub set_completion_handler :
      Option (OperationResult → S → S) → Operation S → Operation S
  set_completion_handler handler o = record o { completion_handler = handler }

  abbrev pub call_handler : Option (OperationResult → S → S) → OperationResult → S → S
  call_handler none result s = s
  call_handler (some handler) result s = handler result s

  abbrev finish_with :
      OperationState × LifecycleTransitionError
      → OperationResult
      → Operation S
      → S
      → Operation S × S × Bool
  finish_with (state', LifecycleTransitionError.none) result o s = (
    record o { state = state'; result = some result },
    call_handler o.completion_handler result s,
    true,
  )
  finish_with (state', invalid_transition) result o s = (o, s, false)

  unfoldable pub finish :
      OperationState → OperationResult → Operation S → S → Operation S × S × Bool
  unfolding operation_transition
  finish terminal_state result o s =
      finish_with (operation_transition o.state terminal_state) result o s

  unfoldable pub complete : String → Operation S → S → Operation S × S × Bool
  unfolding finish
  complete message o s = finish completed (success_result message) o s

  unfoldable pub fail : StatusCode → String → Operation S → S → Operation S × S × Bool
  unfolding finish same_status
  fail status message o s =
      if same_status status StatusCode.ok
      then (o, s, false)
      else finish failed (failure_result status message) o s

  unfoldable pub cancel : String → Operation S → S → Operation S × S × Bool
  unfolding finish request_cancellation
  cancel message o s =
      let (o', requested) = request_cancellation o in
      if requested
      then finish cancelled (failure_result StatusCode.cancelled message) o' s
      else (o', s, false)

  unfoldable pub timeout : String → Operation S → S → Operation S × S × Bool
  unfolding finish
  timeout message o s =
      let (o', s', did_timeout) =
        finish failed (failure_result StatusCode.timeout_error message) o s in
      (record o' { timed_out = o'.timed_out || did_timeout }, s', did_timeout)
