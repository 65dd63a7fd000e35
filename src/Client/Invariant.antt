-- ===== src/Client/Invariant.antt =====
-- client_connection.hpp: what holds of a client between two calls. The second part, on the streams
-- and the write queue, needs the limits to be within their machine types, and stands under a flag.
use rillnet.Base.{ℕ, ◌≤◌, ◌≡◌, ◌≢◌, ◌⊎◌, Bool, true, false, Option, none, some, List, arith}
use rillnet.Base.Keys.{
  lookup, assign, without, contains, lookup-assign, lookup-without, contains-erase,
}
use rillnet.Status.{StatusCode}
use rillnet.Stream.{StreamIdAllocator, release, allocate}
use rillnet.Stream.Invariant
use rillnet.Stream.Invariant.{Grants, allocate_lem, allocate-Inv, release-Inv}
use rillnet.Channel.{Asio}
use rillnet.WriteQueue.{WriteQueue}
use rillnet.WriteQueue.Bytes
use rillnet.Client.{PendingRequest, Client}
use rillnet.Client.Failing.{Linked}

module _ (io : Asio) where
  -- A request that has not released its stream has it alone, and the allocator has it in use; the
  -- pending requests are among these. The allocator and the write queue are well formed.
  pub record Streams (heap : List (ℕ × PendingRequest io)) (pending : List (ℕ × ℕ))
      (ids : StreamIdAllocator) (queue : WriteQueue io) : Type 0 where
    pub own :
        (h : ℕ) (p : PendingRequest io)
        → lookup h heap ≡ some p
        → p.stream_released ≡ false
        → contains p.operation.stream ids.in_use ≡ true
    pub alone :
        (h k : ℕ) (p q : PendingRequest io)
        → lookup h heap ≡ some p
        → lookup k heap ≡ some q
        → p.stream_released ≡ false
        → q.stream_released ≡ false
        → p.operation.stream ≡ q.operation.stream
        → h ≡ k
    pub live :
        (s h : ℕ) (p : PendingRequest io)
        → lookup s pending ≡ some h
        → lookup h heap ≡ some p
        → p.stream_released ≡ false
    pub ids_fit : Invariant.Inv ids
    pub queue_fits : Bytes.Inv io queue

  abbrev pub Extra :
      Bool
      → List (ℕ × PendingRequest io)
      → List (ℕ × ℕ)
      → StreamIdAllocator
      → WriteQueue io
      → Type 0
  Extra false heap pending ids queue = Unit {0}
  Extra true heap pending ids queue = Streams heap pending ids queue

  abbrev pub Holds : Bool → Client io → Type 0
  Holds full c =
      Linked io c
      × ((k : ℕ) → c.next_handle ≤ k → lookup k c.heap ≡ none)
      × Extra full c.heap c.pending c.stream_ids c.queue

  -- A stream that is in use and that no unreleased request has.
  abbrev pub Granted : Bool → ℕ → List (ℕ × PendingRequest io) → StreamIdAllocator → Type 0
  Granted false stream heap ids = Unit {0}
  Granted true stream heap ids =
      (contains stream ids.in_use ≡ true)
      × ((h : ℕ) (p : PendingRequest io)
          → lookup h heap ≡ some p
          → p.stream_released ≡ false
          → p.operation.stream ≢ stream)

  pub update-Extra :
      (full : Bool) (h : ℕ) (p p' : PendingRequest io) (heap : List (ℕ × PendingRequest io))
      (pending : List (ℕ × ℕ)) (ids : StreamIdAllocator) (queue : WriteQueue io)
      → lookup h heap ≡ some p
      → p'.operation.stream ≡ p.operation.stream
      → p'.stream_released ≡ p.stream_released
      → Extra full heap pending ids queue
      → Extra full (assign h p' heap) pending ids queue
  update-Extra false h p p' heap pending ids queue e same kept v = tt
  update-Extra true h p p' heap pending ids queue e same kept v = record {
    own = λ k q found held. ground (arith, lookup-assign k h p' heap, v.own k q, v.own h p);
    alone = λ j k q r found found' held held' stream. ground (
      arith,
      lookup-assign j h p' heap,
      lookup-assign k h p' heap,
      v.alone j k q r,
      v.alone h k p r,
      v.alone j h q p,
    );
    live =
        λ s k q known found. ground (arith, lookup-assign k h p' heap, v.live s k q, v.live s h p);
    ids_fit = v.ids_fit;
    queue_fits = v.queue_fits;
  }

  pub without-Extra :
      (full : Bool) (stream : ℕ) (heap : List (ℕ × PendingRequest io)) (pending : List (ℕ × ℕ))
      (ids : StreamIdAllocator) (queue : WriteQueue io)
      → Extra full heap pending ids queue
      → Extra full heap (without stream pending) ids queue
  without-Extra false stream heap pending ids queue v = tt
  without-Extra true stream heap pending ids queue v = record {
    own = v.own;
    alone = v.alone;
    live = λ s k q known found. ground (arith, lookup-without s stream pending, v.live s k q);
    ids_fit = v.ids_fit;
    queue_fits = v.queue_fits;
  }

  pub queue-Extra :
      (full : Bool) (heap : List (ℕ × PendingRequest io)) (pending : List (ℕ × ℕ))
      (ids : StreamIdAllocator) (queue queue' : WriteQueue io)
      → (Bytes.Inv io queue → Bytes.Inv io queue')
      → Extra full heap pending ids queue
      → Extra full heap pending ids queue'
  queue-Extra false heap pending ids queue queue' keeps v = tt
  queue-Extra true heap pending ids queue queue' keeps v = record {
    own = v.own;
    alone = v.alone;
    live = v.live;
    ids_fit = v.ids_fit;
    queue_fits = keeps v.queue_fits;
  }

  contains-release :
      (x y : ℕ) (ids : StreamIdAllocator)
      → x ≢ y
      → contains x ids.in_use ≡ true
      → contains x (release y ids).in_use ≡ true
  unfolding release
  contains-release x y ids apart held = ground (arith, contains-erase x y ids.in_use)

  -- A request that is not pending releases its stream.
  pub release-Extra :
      (full : Bool) (h : ℕ) (p p' : PendingRequest io) (heap : List (ℕ × PendingRequest io))
      (pending : List (ℕ × ℕ)) (ids : StreamIdAllocator) (queue : WriteQueue io)
      → lookup h heap ≡ some p
      → p.stream_released ≡ false
      → p'.stream_released ≡ true
      → ((s : ℕ) → lookup s pending ≢ some h)
      → Extra full heap pending ids queue
      → Extra full (assign h p' heap) pending (release p.operation.stream ids) queue
  release-Extra false h p p' heap pending ids queue e held gone absent v = tt
  release-Extra true h p p' heap pending ids queue e held gone absent v = record {
    own = λ k q found held'. ground (
      arith,
      lookup-assign k h p' heap,
      v.own k q,
      v.alone h k p q,
      contains-release q.operation.stream p.operation.stream ids,
    );
    alone = λ j k q r found found' held' held'' stream.
        ground (arith, lookup-assign j h p' heap, lookup-assign k h p' heap, v.alone j k q r);
    live = λ s k q known found. ground (arith, lookup-assign k h p' heap, v.live s k q, absent s);
    ids_fit = release-Inv p.operation.stream ids v.ids_fit;
    queue_fits = v.queue_fits;
  }

  pub register-Extra :
      (full : Bool) (h stream : ℕ) (p : PendingRequest io) (heap : List (ℕ × PendingRequest io))
      (pending pending' : List (ℕ × ℕ)) (ids : StreamIdAllocator) (queue : WriteQueue io)
      → p.operation.stream ≡ stream
      → p.stream_released ≡ false
      → lookup h heap ≡ none
      → ((s : ℕ) → lookup s pending ≢ some h)
      → ((s k : ℕ) → lookup s pending' ≡ some k → (k ≡ h) ⊎ (lookup s pending ≡ some k))
      → Granted full stream heap ids
      → Extra full heap pending ids queue
      → Extra full (assign h p heap) pending' ids queue
  register-Extra false h stream p heap pending pending' ids queue same held new absent from grant
        v =
      tt
  register-Extra true h stream p heap pending pending' ids queue same held new absent from
        (used, others) v =
      record {
        own = λ k q found held'. ground (arith, lookup-assign k h p heap, v.own k q);
        alone = λ j k q r found found' held' held'' stream. ground (
          arith,
          lookup-assign j h p heap,
          lookup-assign k h p heap,
          v.alone j k q r,
          others j q,
          others k r,
        );
        live = λ s k q known found.
            ground (arith, lookup-assign k h p heap, from s k known, v.live s k q, absent s);
        ids_fit = v.ids_fit;
        queue_fits = v.queue_fits;
      }

  granted_more :
      (a b : StreamIdAllocator) (status : StatusCode) (o : Option ℕ) (x : ℕ)
      → Grants a b status o
      → contains x a.in_use ≡ true
      → contains x b.in_use ≡ true
  granted_more a b status none x (s, same, all) held = rw same held
  granted_more a b status (some id) x (s, owns, free, more) held = ground (arith, more x)

  pub allocate-Extra :
      (full : Bool) (heap : List (ℕ × PendingRequest io)) (pending : List (ℕ × ℕ))
      (ids : StreamIdAllocator) (queue : WriteQueue io)
      → Extra full heap pending ids queue
      → Extra full heap pending (allocate ids).0 queue
  allocate-Extra false heap pending ids queue v = tt
  allocate-Extra true heap pending ids queue v =
      let (ids', a) = allocate ids in
      record {
        own = λ h p found held.
            granted_more ids ids' a.status a.stream p.operation.stream (allocate_lem ids v.ids_fit)
              (v.own h p found held);
        alone = v.alone;
        live = v.live;
        ids_fit = allocate-Inv ids v.ids_fit;
        queue_fits = v.queue_fits;
      }

  granted_new :
      (a b : StreamIdAllocator) (status : StatusCode) (o : Option ℕ) (stream : ℕ)
      → o ≡ some stream
      → Grants a b status o
      → (contains stream a.in_use ≡ false) × (contains stream b.in_use ≡ true)
  granted_new a b status none stream e g = cc e
  granted_new a b status (some id) stream e (s, owns, free, more) = ground (arith, more id)

  pub allocate-Granted :
      (full : Bool) (stream : ℕ) (heap : List (ℕ × PendingRequest io)) (pending : List (ℕ × ℕ))
      (ids : StreamIdAllocator) (queue : WriteQueue io)
      → (allocate ids).1.stream ≡ some stream
      → Extra full heap pending ids queue
      → Granted full stream heap (allocate ids).0
  allocate-Granted false stream heap pending ids queue e v = tt
  allocate-Granted true stream heap pending ids queue e v =
      let (ids', a) = allocate ids in
      let (free, used) =
        granted_new ids ids' a.status a.stream stream e (allocate_lem ids v.ids_fit) in
      (used, (λ h p found held same. ground (arith, v.own h p found held)))
