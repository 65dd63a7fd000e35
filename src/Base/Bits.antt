-- ===== src/Base/Bits.antt =====
-- Facts about `bit_or` at variables: bits that are shifted into disjoint positions add up.
use Prim.Native.Nat.{
  ℕ, zero, suc, ◌+◌, ◌*◌, ◌/◌, ◌%◌, ◌^◌, ◌≤◌, ◌<◌, max, bit_or, digits, bit_or-bitwise,
}
use mathlib.Core.Path.{◌≡◌, refl}
use mathlib.Core.Bool.{Bool, true, ◌&&◌}
use native.Mathlib.Omega.{arith}
use native.Mathlib.Nat.{pow-suc}

-- A test that holds of the numbers up to a bound holds of each of them.
unfoldable pub holds_up_to : (ℕ → Bool) → ℕ → Bool
holds_up_to test zero = true
holds_up_to test (suc bound) = holds_up_to test bound && test bound

pub holds_up_to_at :
    (test : ℕ → Bool) (bound value : ℕ)
    → value < bound
    → holds_up_to test bound ≡ true
    → test value ≡ true
unfolding holds_up_to
holds_up_to_at test (suc bound) value small passed = ground (arith, holds_up_to_at test bound value)
holds_up_to_at test zero value small passed = absurd (omega arith)

-- The digits that the native operation stands for: any fuel from the first number on gives the same.
abbrev joined : ℕ → ℕ → ℕ → ℕ
joined x y fuel = digits (λ rest. rest) max fuel x y

joined_enough : (f g x y : ℕ) → x ≤ g → x ≤ f → joined x y f ≡ joined x y g
joined_enough (suc f) (suc g) (suc x) y l k =
    let halves = joined_enough f g (suc x / 2) (y / 2) (omega arith) (omega arith) in
    omega (arith, halves)
joined_enough (suc f) (suc g) zero y l k = refl
joined_enough (suc f) zero zero y l k = refl
joined_enough zero (suc g) zero y l k = refl
joined_enough zero zero zero y l k = refl
joined_enough zero g (suc x) y l k = absurd (omega arith)
joined_enough (suc f) zero (suc x) y l k = absurd (omega arith)

pub bit_or_zero : (b : ℕ) → bit_or 0 b ≡ b
bit_or_zero b = bit_or-bitwise 0 b

pub bit_or_step :
    (a b : ℕ) → bit_or (suc a) b ≡ bit_or (suc a / 2) (b / 2) * 2 + max (suc a % 2) (b % 2)
bit_or_step a b =
    let rest = joined_enough (suc a / 2) a (suc a / 2) (b / 2) (omega arith) (omega arith) in
    omega (arith, rest, bit_or-bitwise (suc a / 2) (b / 2), bit_or-bitwise (suc a) b)

bit_or_nothing_fuel : (n a : ℕ) → a ≤ n → bit_or a 0 ≡ a
bit_or_nothing_fuel n zero h = bit_or_zero 0
bit_or_nothing_fuel zero (suc a) h = absurd (omega arith)
bit_or_nothing_fuel (suc n) (suc a) h =
    omega (arith, bit_or_step a 0, bit_or_nothing_fuel n (suc a / 2) (omega arith))

or_disjoint_step :
    (a b : ℕ) → a % 2 ≡ 0 → bit_or (a / 2) (b / 2) ≡ a / 2 + b / 2 → bit_or a b ≡ a + b
or_disjoint_step zero b e h = omega (arith, bit_or_zero b)
or_disjoint_step (suc a) b e h = omega (arith, bit_or_step a b)

half_shifted : (k a : ℕ) → (a * 2 ^ suc k / 2 ≡ a * 2 ^ k) × (a * 2 ^ suc k % 2 ≡ 0)
half_shifted k a = rw (pow-suc 2 k) (omega arith)

pub bit_or_shifted : (k a b : ℕ) → b < 2 ^ k → bit_or (a * 2 ^ k) b ≡ a * 2 ^ k + b
bit_or_shifted zero a b h =
    let e : b ≡ 0 = omega arith in
    let f : a * 1 ≡ a = omega arith in
    rw (e, f) (omega (arith, bit_or_nothing_fuel a a (omega arith)))
bit_or_shifted (suc k) a b h =
    let halves = half_shifted k a in
    let below : b / 2 < 2 ^ k = omega (arith, pow-suc 2 k) in
    or_disjoint_step (a * 2 ^ suc k) b halves.1 (rw halves.0 (bit_or_shifted k a (b / 2) below))
