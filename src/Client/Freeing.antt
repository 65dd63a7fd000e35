-- ===== src/Client/Freeing.antt =====
-- client_connection.hpp: what request leaves behind on its return, through cleanup_pending and the
-- destructor of RequestOperation.
use rillnet.Base.{ℕ, ◌≡◌, ◌≢◌, refl, Bool, true, not, ◌||◌, Option, none, some}
use rillnet.Base.Keys.{lookup, contains}
use rillnet.Stream.Invariant
use rillnet.Operation
use rillnet.Operation.{Operation}
use rillnet.Frame.{Frame}
use rillnet.Message.{Outcome}
use rillnet.Channel.{Asio}
use rillnet.Client.{PendingRequest, Client}
use rillnet.Client.Requests.{received, async_wait}

module _ (io : Asio) where
  abbrev Done : ℕ → Option (PendingRequest io) → Type 0
  Done stream none = ⊥
  Done stream (some p) =
      (p.operation.stream ≡ stream) × (p.removed ≡ true) × (p.stream_released ≡ true)

  -- The request at `h` was removed and has released `stream`, which is not in use, unless the
  -- request had released it before.
  abbrev Freed : Bool → ℕ → ℕ → Client io → Type 0
  Freed before h stream c =
      Done stream (lookup h c.heap) × ((before || not (contains stream c.stream_ids.in_use)) ≡ true)

  -- What an ended operation and a closed channel leave of a request.
  abbrev SameAt : ℕ → Bool → Bool → Client io → Option (PendingRequest io) → Client io → Type 0
  SameAt stream gone free c none c' = ⊥
  SameAt stream gone free c (some q) c' =
      (q.operation.stream ≡ stream)
      × (q.removed ≡ gone)
      × (q.stream_released ≡ free)
      × (c'.stream_ids ≡ c.stream_ids)

  abbrev Same : PendingRequest io → Client io → Option (PendingRequest io) → Client io → Type 0
  Same p c o c' = SameAt p.operation.stream p.removed p.stream_released c o c'

  -- The request at `h` is not pending, and its stream not in use, unless it was released before.
  abbrev Gone : Bool → ℕ → ℕ → Client io → Type 0
  Gone before h stream c =
      ((before || not (contains stream c.stream_ids.in_use)) ≡ true)
      × ((s : ℕ) → lookup s c.pending ≢ some h)

  module _ {T : Type 0} (decode : Frame → Outcome T) where
    pub async_wait-received :
        (h : ℕ) (p : PendingRequest io) (c : Client io)
        → lookup h c.heap ≡ some p
        → async_wait io decode (some h) c ≡ received io decode h p (io.frames.receive p.channel) c
    unfolding async_wait
    async_wait-received h p c e = rw (e, async_wait) refl
