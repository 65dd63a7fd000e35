-- ===== src/Base/Keys.antt =====
-- The standard containers keyed by a number: a std::set as an ascending list, an unordered map as an
-- association list. Each operation has one law that says what a later look-up sees.
use Prim.Native.Nat.{ℕ, ◌<◌, ◌≤◌, suc}
use mathlib.Core.Path.{◌≡◌, refl}
use mathlib.Core.Bool.{Bool, false, ◌||◌}
use mathlib.Core.Option.{Option, none, some}
use mathlib.Core.List.{List, [], ◌∷◌}
use native.Mathlib.Omega.{arith}
use rillnet.Base.Lists.{length}
use rillnet.Base.Tests.{◌==◌, ltb, if◌then◌else◌}

-- set.contains(k)
unfoldable pub contains : ℕ → List ℕ → Bool
contains k [] = false
contains k (x ∷ xs) = x == k || contains k xs

-- set.insert(k): an element that is there stays once.
unfoldable pub insert : ℕ → List ℕ → List ℕ
insert k [] = k ∷ []
insert k (x ∷ xs) = if ltb k x then k ∷ x ∷ xs else if x == k then x ∷ xs else x ∷ insert k xs

-- set.erase(k)
unfoldable pub erase : ℕ → List ℕ → List ℕ
erase k [] = []
erase k (x ∷ xs) = if x == k then erase k xs else x ∷ erase k xs

pub contains-insert : (j k : ℕ) (xs : List ℕ) → contains j (insert k xs) ≡ (k == j || contains j xs)
unfolding contains insert
contains-insert j k [] = refl
contains-insert j k (x ∷ xs) = ground (arith, contains-insert j k xs)

pub contains-erase :
    (j k : ℕ) (xs : List ℕ) → contains j (erase k xs) ≡ (if k == j then false else contains j xs)
unfolding contains erase
contains-erase j k [] = ground arith
contains-erase j k (x ∷ xs) = ground (arith, contains-erase j k xs)

-- Ascending, and every element above the bound.
abbrev pub Ascends : ℕ → List ℕ → Type 0
Ascends b [] = Unit {0}
Ascends b (x ∷ xs) = (b < x) × Ascends x xs

pub insert-Ascends : (b k : ℕ) (xs : List ℕ) → b < k → Ascends b xs → Ascends b (insert k xs)
unfolding insert
insert-Ascends b k [] h a = (h, tt)
insert-Ascends b k (x ∷ xs) h a = ground (arith, insert-Ascends x k xs)

-- The first element is the least.
pub contains_below : (b k : ℕ) (xs : List ℕ) → Ascends b xs → k < suc b → contains k xs ≡ false
unfolding contains
contains_below b k [] a h = refl
contains_below b k (x ∷ xs) a h = ground (arith, contains_below x k xs)

module _ {ℓ} {V : Type ℓ} where
  -- map.find(k)
  unfoldable pub lookup : ℕ → List (ℕ × V) → Option V
  lookup k [] = none
  lookup k ((j, v) ∷ m) = if j == k then some v else lookup k m

  -- map.insert_or_assign(k, v), and map.emplace(k, v) where the key is absent.
  unfoldable pub assign : ℕ → V → List (ℕ × V) → List (ℕ × V)
  assign k v [] = (k, v) ∷ []
  assign k v ((j, w) ∷ m) = if j == k then (k, v) ∷ m else (j, w) ∷ assign k v m

  -- map.erase(k)
  unfoldable pub without : ℕ → List (ℕ × V) → List (ℕ × V)
  without k [] = []
  without k ((j, w) ∷ m) = if j == k then without k m else (j, w) ∷ without k m

  pub lookup-assign :
      (j k : ℕ) (v : V) (m : List (ℕ × V))
      → lookup j (assign k v m) ≡ (if k == j then some v else lookup j m)
  unfolding lookup assign
  lookup-assign j k v [] = refl
  lookup-assign j k v ((i, w) ∷ m) = ground (arith, lookup-assign j k v m)

  pub lookup-assign_same : (k : ℕ) (v : V) (m : List (ℕ × V)) → lookup k (assign k v m) ≡ some v
  lookup-assign_same k v m = ground (arith, lookup-assign k k v m)

  pub lookup-without :
      (j k : ℕ) (m : List (ℕ × V)) → lookup j (without k m) ≡ (if k == j then none else lookup j m)
  unfolding lookup without
  lookup-without j k [] = ground arith
  lookup-without j k ((i, w) ∷ m) = ground (arith, lookup-without j k m)

  pub length-without : (k : ℕ) (m : List (ℕ × V)) → length (without k m) ≤ length m
  unfolding without
  length-without k [] = omega arith
  length-without k ((j, w) ∷ m) = ground (arith, length-without k m)

  -- Every key stands once.
  abbrev pub Distinct : List (ℕ × V) → Type ℓ
  Distinct [] = Unit {ℓ}
  Distinct ((k, v) ∷ m) = (lookup k m ≡ none) × Distinct m

  pub assign-Distinct : (k : ℕ) (v : V) (m : List (ℕ × V)) → Distinct m → Distinct (assign k v m)
  unfolding assign
  assign-Distinct k v [] d = unfold lookup in (refl, tt)
  assign-Distinct k v ((j, w) ∷ m) d = ground (arith, lookup-assign j k v m, assign-Distinct k v m)

  pub without-Distinct : (k : ℕ) (m : List (ℕ × V)) → Distinct m → Distinct (without k m)
  unfolding without
  without-Distinct k [] d = d
  without-Distinct k ((j, w) ∷ m) d = ground (arith, lookup-without j k m, without-Distinct k m)

  pub length-assign_new :
      (k : ℕ) (v : V) (m : List (ℕ × V))
      → lookup k m ≡ none
      → length (assign k v m) ≡ suc (length m)
  unfolding lookup assign
  length-assign_new k v [] e = refl
  length-assign_new k v ((j, w) ∷ m) e = ground (arith, length-assign_new k v m)

  pub length-assign_old :
      (k : ℕ) (v w : V) (m : List (ℕ × V)) → lookup k m ≡ some w → length (assign k v m) ≡ length m
  unfolding lookup assign
  length-assign_old k v w [] e = cc e
  length-assign_old k v w ((j, u) ∷ m) e = ground (arith, length-assign_old k v w m)

  length-without_absent :
      (k : ℕ) (m : List (ℕ × V)) → lookup k m ≡ none → length (without k m) ≡ length m
  unfolding lookup without
  length-without_absent k [] e = refl
  length-without_absent k ((j, u) ∷ m) e = ground (arith, length-without_absent k m)

  pub length-without_found :
      (k : ℕ) (w : V) (m : List (ℕ × V))
      → Distinct m
      → lookup k m ≡ some w
      → length m ≡ suc (length (without k m))
  unfolding lookup without
  length-without_found k w [] d e = cc e
  length-without_found k w ((j, u) ∷ m) d e =
      ground (arith, length-without_found k w m, length-without_absent k m)
