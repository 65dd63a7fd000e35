-- ===== src/Stream.antt =====
-- include/rillnet/identifiers.hpp and include/rillnet/stream_id_allocator.hpp. A strong id is the
-- number that it wraps, below 2 ^ 64 for a StreamId and below 2 ^ 32 for a MessageType.
pub mod Invariant
use rillnet.Base.{
  ℕ, ◌+◌, ◌-◌, ◌%◌, ◌^◌, ◌==◌, ltb, Bool, true, false, not, ◌&&◌, ◌||◌, Option, none, some, List,
  [], ◌∷◌, if◌then◌else◌,
}
use rillnet.Base.Keys.{contains, insert, erase}
use rillnet.Status.{StatusCode, resource_limit_exceeded}

-- StrongId::is_valid
abbrev pub is_valid : ℕ → Bool
is_valid id = not (id == 0)

unfoldable pub is_client_stream : ℕ → Bool
is_client_stream id = is_valid id && (id % 2 == 1)

unfoldable pub is_server_stream : ℕ → Bool
is_server_stream id = is_valid id && (id % 2 == 0)

pub data StreamInitiator : Type 0 where
  client server : StreamInitiator

pub record StreamIdAllocation : Type 0 where
  pub stream : Option ℕ
  pub status : StatusCode

abbrev pub allocated : ℕ → StreamIdAllocation
allocated stream = record { stream = some stream; status = StatusCode.ok }

abbrev pub exhausted_allocation : StreamIdAllocation
exhausted_allocation = record { stream = none; status = resource_limit_exceeded }

-- The two std::set members are ascending lists.
pub record StreamIdAllocator : Type 0 where
  pub initiator : StreamInitiator
  pub next : ℕ
  pub maximum : ℕ
  pub in_use : List ℕ
  pub available : List ℕ

unfoldable pub first_id : StreamInitiator → ℕ
first_id client = 1
first_id server = 2

-- `-` stands only where the maximum is not 0, so it does not wrap.
unfoldable pub last_id : StreamInitiator → ℕ → ℕ
last_id client maximum =
    if maximum % 2 == 1 then maximum else if maximum == 0 then 0 else maximum - 1
last_id server maximum = if maximum % 2 == 0 then maximum else maximum - 1

unfoldable pub new_allocator : StreamInitiator → ℕ → StreamIdAllocator
unfolding first_id last_id
new_allocator initiator maximum = record {
  initiator = initiator;
  next = first_id initiator;
  maximum = last_id initiator maximum;
  in_use = [];
  available = [];
}

unfoldable pub exhausted : StreamIdAllocator → Bool
exhausted a = a.next == 0

-- The part of allocate() that takes a new id; `next_ += 2` is on std::uint64_t.
unfoldable pub allocate_next : StreamIdAllocator → StreamIdAllocator × StreamIdAllocation
allocate_next a =
    if a.next == 0 || ltb a.maximum a.next then (record a { next = 0 }, exhausted_allocation) else (
      record a {
        in_use = insert a.next a.in_use;
        next = if ltb (a.maximum - a.next) 2 then 0 else (a.next + 2) % 2 ^ 64;
      },
      allocated a.next,
    )

-- The part that takes a released id, the least one.
unfoldable pub allocate_from : List ℕ → StreamIdAllocator → StreamIdAllocator × StreamIdAllocation
unfolding allocate_next
allocate_from [] a = allocate_next a
allocate_from (value ∷ rest) a =
    (record a { available = rest; in_use = insert value a.in_use }, allocated value)

unfoldable pub allocate : StreamIdAllocator → StreamIdAllocator × StreamIdAllocation
unfolding allocate_from
allocate a = allocate_from a.available a

unfoldable pub release : ℕ → StreamIdAllocator → StreamIdAllocator
unfolding first_id
release value a =
    if (value == 0) || (ltb a.maximum value || not (value % 2 == first_id a.initiator % 2))
    then a
    else if contains value a.in_use
    then record a { in_use = erase value a.in_use; available = insert value a.available }
    else a
