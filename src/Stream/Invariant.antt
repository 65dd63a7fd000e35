-- ===== src/Stream/Invariant.antt =====
-- stream_id_allocator.hpp: which ids are in use, which are released, and which are still to come.
use rillnet.Base.{
  ℕ, ◌+◌, ◌-◌, ◌%◌, ◌^◌, ◌≤◌, ◌<◌, ◌≡◌, refl, ◌⊎◌, inl, inr, true, false, ◌||◌, ◌==◌, Option, none,
  some, List, [], ◌∷◌, arith, ltb, Bool-cases,
}
use rillnet.Base.Keys.{
  contains, contains-insert, contains-erase, Ascends, insert-Ascends, contains_below,
}
use rillnet.Status.{StatusCode, resource_limit_exceeded}
use rillnet.Stream.{
  StreamInitiator, client, server, StreamIdAllocator, first_id, last_id, new_allocator,
  allocate_next, allocate_from, allocate, release,
}

-- An id that this allocator may give out.
abbrev pub Own : StreamIdAllocator → ℕ → Type 0
Own a x = (x % 2 ≡ first_id a.initiator % 2) × (0 < x) × (x ≤ a.maximum)

-- An id that `next` has passed.
abbrev pub Passed : StreamIdAllocator → ℕ → Type 0
Passed a x = (a.next ≡ 0) ⊎ (x < a.next)

pub record Inv (a : StreamIdAllocator) : Type 0 where
  pub fits : a.maximum < 2 ^ 64
  pub fit_parity : (a.maximum ≡ 0) ⊎ (a.maximum % 2 ≡ first_id a.initiator % 2)
  pub next_parity : (a.next ≡ 0) ⊎ ((a.next % 2 ≡ first_id a.initiator % 2) × (0 < a.next))
  pub used : (x : ℕ) → contains x a.in_use ≡ true → Own a x × Passed a x
  pub free : (x : ℕ) → contains x a.available ≡ true → Own a x × Passed a x
  pub apart : (x : ℕ) → contains x a.in_use ≡ true → contains x a.available ≡ false
  pub ascends : Ascends 0 a.available
  pub complete :
      (x : ℕ) → Own a x → Passed a x → (contains x a.in_use || contains x a.available) ≡ true

pub new-Inv : (i : StreamInitiator) (maximum : ℕ) → maximum < 2 ^ 64 → Inv (new_allocator i maximum)
unfolding new_allocator first_id contains last_id
new-Inv client maximum h = record {
  fits = ground arith;
  fit_parity = ground arith;
  next_parity = ground arith;
  used = λ x e. ground arith;
  free = λ x e. ground arith;
  apart = λ x e. ground arith;
  ascends = tt;
  complete = λ x o p. ground arith;
}
new-Inv server maximum h = record {
  fits = ground arith;
  fit_parity = ground arith;
  next_parity = ground arith;
  used = λ x e. ground arith;
  free = λ x e. ground arith;
  apart = λ x e. ground arith;
  ascends = tt;
  complete = λ x o p. ground arith;
}

allocate_next-Inv : (a : StreamIdAllocator) → a.available ≡ [] → Inv a → Inv (allocate_next a).0
unfolding allocate_next contains
allocate_next-Inv a e v = record {
  fits = ground arith;
  fit_parity = ground arith;
  next_parity = ground arith;
  used = λ x h. ground (arith, contains-insert x a.next a.in_use, v.used x);
  free = λ x h. ground (arith, v.free x);
  apart = λ x h. ground (arith, contains-insert x a.next a.in_use, v.apart x);
  ascends = ground arith;
  complete = λ x o p. ground (arith, contains-insert x a.next a.in_use, v.complete x);
}

Ascends-mono : (b c : ℕ) (xs : List ℕ) → c ≤ b → Ascends b xs → Ascends c xs
Ascends-mono b c [] h a = tt
Ascends-mono b c (x ∷ xs) h a = (omega arith, a.1)

allocate_from-Inv :
    (xs : List ℕ) (a : StreamIdAllocator) → a.available ≡ xs → Inv a → Inv (allocate_from xs a).0
unfolding allocate_from
allocate_from-Inv [] a e v = allocate_next-Inv a e v
allocate_from-Inv (y ∷ ys) a e v = record {
  fits = v.fits;
  fit_parity = v.fit_parity;
  next_parity = v.next_parity;
  used = λ x h. unfold contains in ground (arith, contains-insert x y a.in_use, v.used x, v.free x);
  free = λ x h. unfold contains in ground (arith, v.free x);
  apart = λ x h.
      unfold contains in
      ground (arith, contains-insert x y a.in_use, v.apart x, v.ascends, contains_below y x ys);
  ascends = ground (arith, v.ascends, Ascends-mono y 0 ys);
  complete = λ x o p. unfold contains in ground (arith, contains-insert x y a.in_use, v.complete x);
}

pub allocate-Inv : (a : StreamIdAllocator) → Inv a → Inv (allocate a).0
unfolding allocate
allocate-Inv a v = allocate_from-Inv a.available a refl v

pub release-Inv : (y : ℕ) (a : StreamIdAllocator) → Inv a → Inv (release y a)
unfolding release
release-Inv y a v = record {
  fits = ground arith;
  fit_parity = ground arith;
  next_parity = ground arith;
  used = λ x h. ground (arith, contains-erase x y a.in_use, v.used x);
  free = λ x h. ground (arith, contains-insert x y a.available, v.free x, v.used x);
  apart = λ x h.
      ground (arith, contains-erase x y a.in_use, contains-insert x y a.available, v.apart x);
  ascends = ground (arith, v.ascends, insert-Ascends 0 y a.available);
  complete = λ x o p.
      ground (arith, contains-erase x y a.in_use, contains-insert x y a.available, v.complete x);
}

pub data Call : Type 0 where
  allocates : Call
  releases : ℕ → Call

unfoldable pub apply_all : List Call → StreamIdAllocator → StreamIdAllocator
apply_all [] a = a
apply_all (allocates ∷ cs) a = apply_all cs (allocate a).0
apply_all (releases x ∷ cs) a = apply_all cs (release x a)

pub apply_all-Inv : (cs : List Call) (a : StreamIdAllocator) → Inv a → Inv (apply_all cs a)
unfolding apply_all
apply_all-Inv [] a v = v
apply_all-Inv (allocates ∷ cs) a v = apply_all-Inv cs (allocate a).0 (allocate-Inv a v)
apply_all-Inv (releases x ∷ cs) a v = apply_all-Inv cs (release x a) (release-Inv x a v)

-- What allocate() promises, by the id that it returns.
abbrev pub Grants : StreamIdAllocator → StreamIdAllocator → StatusCode → Option ℕ → Type 0
Grants a b status none =
    (status ≡ resource_limit_exceeded)
    × (b.in_use ≡ a.in_use)
    × ((x : ℕ) → Own a x → contains x a.in_use ≡ true)
Grants a b status (some id) =
    (status ≡ StatusCode.ok)
    × Own a id
    × (contains id a.in_use ≡ false)
    × ((x : ℕ) → contains x b.in_use ≡ (id == x || contains x a.in_use))

allocate_next-Grants :
    (a : StreamIdAllocator)
    → a.available ≡ []
    → Inv a
    → let (b, r) = allocate_next a in Grants a b r.status r.stream
unfolding allocate_next
allocate_next-Grants a e v = elim (Bool-cases (a.next == 0 || ltb a.maximum a.next)) [
  | inl out ↦
      rw (out, allocate_next) (refl, refl, λ x o. unfold contains in ground (arith, v.complete x))
  | inr more ↦
      rw (more, allocate_next)
        (refl, ground arith, ground (arith, v.used a.next), λ x. contains-insert x a.next a.in_use)
]

allocate_from-Grants :
    (xs : List ℕ) (a : StreamIdAllocator)
    → a.available ≡ xs
    → Inv a
    → let (b, r) = allocate_from xs a in Grants a b r.status r.stream
unfolding allocate_from
allocate_from-Grants [] a e v = allocate_next-Grants a e v
allocate_from-Grants (y ∷ ys) a e v =
    let here : contains y a.available ≡ true = unfold contains in ground arith in
    (refl, (v.free y here).0, ground (arith, v.apart y), λ x. contains-insert x y a.in_use)

-- In an allocator that meets the invariant, allocate() returns an id of its initiator's parity,
-- within the maximum and not in use, and marks that id alone as in use; or it reports that the ids
-- are exhausted, and then every id that it owns is in use. An id that was released counts as not in
-- use, and may be handed out again.
pub allocate_lem :
    (a : StreamIdAllocator) → Inv a → let (b, r) = allocate a in Grants a b r.status r.stream
unfolding allocate
allocate_lem a v = allocate_from-Grants a.available a refl v

-- Every sequence of allocations and releases, the releases of any numbers at all, keeps the
-- allocator of a maximum below 2 ^ 64 well formed: ids in use and released ids are disjoint, have
-- its parity and lie within its maximum, and every such id that `next` has passed is one of them.
pub apply_all-new-Inv :
    (i : StreamInitiator) (maximum : ℕ) (cs : List Call)
    → maximum < 2 ^ 64
    → Inv (apply_all cs (new_allocator i maximum))
apply_all-new-Inv i maximum cs h = apply_all-Inv cs _ (new-Inv i maximum h)

-- The counter never wraps: where an id is taken from it, either it stops or the step is exact.
next_exact :
    (a : StreamIdAllocator)
    → Inv a
    → ltb a.maximum a.next ≡ false
    → ltb (a.maximum - a.next) 2 ≡ false
    → (a.next + 2) % 2 ^ 64 ≡ a.next + 2
next_exact a v h k = ground (arith, v.fits)
