-- ===== src/Frame/Flags.antt =====
-- include/rillnet/frame_flags.hpp, and has_only_known_flags of frame.hpp. A FrameFlags value is a
-- byte; its operators are those of the underlying type.
use rillnet.Base.{
  ℕ, ◌<◌, ◌≡◌, refl, ◌==◌, ltb, leb, Bool, true, false, bit_and, bit_or, bit_xor, arith, ◌&&◌,
}
use rillnet.Base.Bits.{holds_up_to, holds_up_to_at}

abbrev pub none : ℕ
none = 0

abbrev pub end_of_stream : ℕ
end_of_stream = 1

abbrev pub cancel : ℕ
cancel = 2

abbrev pub error : ℕ
error = 4

-- operator|, operator& and operator~
abbrev pub flags_or : ℕ → ℕ → ℕ
flags_or lhs rhs = bit_or lhs rhs

abbrev pub flags_and : ℕ → ℕ → ℕ
flags_and lhs rhs = bit_and lhs rhs

abbrev pub flags_not : ℕ → ℕ
flags_not value = bit_xor value 0xff

unfoldable pub has_flag : ℕ → ℕ → Bool
has_flag flags flag = flags_and flags flag == flag

unfoldable pub has_only_known_flags : ℕ → Bool
has_only_known_flags flags =
    flags_and flags (flags_not (flags_or (flags_or end_of_stream cancel) error)) == none

-- A Boolean equation between two tests of a byte is decided by running through the bytes.
same : Bool → Bool → Bool
same true b = b
same false true = false
same false false = true

same-eq : (a b : Bool) → same a b ≡ true → a ≡ b
unfolding same
same-eq true b h = ground arith
same-eq false true h = ground arith
same-eq false false h = refl

known_table : holds_up_to (λ f. same (has_only_known_flags f) (ltb f 8)) 256 ≡ true
unfolding holds_up_to same has_only_known_flags
known_table = refl

-- The three flags are the three lowest bits.
pub has_only_known_flags_lem : (f : ℕ) → f < 256 → has_only_known_flags f ≡ ltb f 8
has_only_known_flags_lem f h =
    same-eq _ _ (holds_up_to_at (λ g. same (has_only_known_flags g) (ltb g 8)) 256 f h known_table)

clash_table : holds_up_to (λ f. same (has_flag f cancel && has_flag f error) (leb 6 f)) 8 ≡ true
unfolding holds_up_to same has_flag
clash_table = refl

pub has_flag_clash : (f : ℕ) → f < 8 → (has_flag f cancel && has_flag f error) ≡ leb 6 f
has_flag_clash f h =
    same-eq _ _ (
      holds_up_to_at (λ g. same (has_flag g cancel && has_flag g error) (leb 6 g)) 8 f h
        clash_table)
