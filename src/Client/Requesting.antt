-- ===== src/Client/Requesting.antt =====
-- client_connection.hpp: request, with its overloads for a deadline and a time-out: start_request,
-- then async_wait on the handle, which the function destroys when it returns.
use rillnet.Base.{ℕ, Option, none, some}
use rillnet.Frame.{Frame}
use rillnet.Message.{Outcome, failure}
use rillnet.Channel.{Asio}
use rillnet.Client.{Client}
use rillnet.Client.Requests.{
  Started, started, refused, enqueueing, start_request, start_request_by, start_request_within,
  drop_handle, async_wait,
}

-- What request has come to: a DecodeResult, or one of its waits.
pub data Requesting (T : Type 0) : Type 0 where
  finished : Outcome T → Requesting T
  awaiting : ℕ → Requesting T
  entering : ℕ → Frame → Requesting T

module _ (io : Asio) {T : Type 0} where
  -- Behind the co_await on start_request: the operation is moved out of what was started.
  abbrev pub after_start : Client io × Started → Client io × Requesting T
  after_start (c, started h) = (c, awaiting h)
  after_start (c, refused status message) = (c, finished (failure status message))
  after_start (c, enqueueing h frame) = (c, entering h frame)

  unfoldable pub request : (ℕ → Outcome Frame) → Client io → Client io × Requesting T
  unfolding start_request
  request encode c = after_start (start_request io encode c)

  unfoldable pub request_by : ℕ → (ℕ → Outcome Frame) → Client io → Client io × Requesting T
  unfolding start_request_by
  request_by deadline encode c = after_start (start_request_by io deadline encode c)

  unfoldable pub request_within : ℕ → ℕ → (ℕ → Outcome Frame) → Client io → Client io × Requesting T
  unfolding start_request_within
  request_within now timeout encode c = after_start (start_request_within io now timeout encode c)

  -- Behind the co_await on async_wait: the local operation is destroyed.
  abbrev pub after_wait : ℕ → Client io × Option (Outcome T) → Client io × Requesting T
  after_wait h (c, none) = (c, awaiting h)
  after_wait h (c, some outcome) = (drop_handle io (some h) c, finished outcome)

  unfoldable pub request_wait : (Frame → Outcome T) → ℕ → Client io → Client io × Requesting T
  unfolding async_wait drop_handle
  request_wait decode h c = after_wait h (async_wait io decode (some h) c)
