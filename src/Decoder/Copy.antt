-- ===== src/Decoder/Copy.antt =====
-- frame_decoder.hpp, copy_bytes and resize: what lies in a buffer after a copy.
use rillnet.Base.{
  ℕ, zero, suc, [], refl, ◌+◌, ◌-◌, ◌≤◌, ◌≡◌, sym, min, List, ◌++◌, length, take, drop,
  length-append, length-take, length-drop, length-replicate, take_append_length, append_assoc,
  arith,
}
use rillnet.Decoder.{copied_count, copy_bytes, resize}

take_append_exact {ℓ} :
    {A : Type ℓ} (n : ℕ) (xs ys : List A) → n ≡ length xs → take n (xs ++ ys) ≡ xs
take_append_exact n xs ys e = rw e (take_append_length xs ys)

-- A copy of the first c bytes of the source over the destination from `at` on.
module _ (source destination : List ℕ) (at c : ℕ) where
  parts :
      at + c ≤ length destination
      → c ≤ length source
      → length (take at destination ++ take c source) ≡ at + c
  parts h k = omega (
    arith,
    length-append (take at destination) (take c source),
    length-take at destination,
    length-take c source,
  )

  whole :
      at + c ≤ length destination
      → c ≤ length source
      → length (take at destination ++ (take c source ++ drop (at + c) destination))
        ≡ length destination
  whole h k =
      rw (sym (append_assoc (take at destination) (take c source) (drop (at + c) destination))) (
        omega (
          arith,
          length-append (take at destination ++ take c source) (drop (at + c) destination),
          parts h k,
          length-drop (at + c) destination,
        ))

  front :
      at + c ≤ length destination
      → c ≤ length source
      → take (at + c) (take at destination ++ (take c source ++ drop (at + c) destination))
        ≡ take at destination ++ take c source
  front h k =
      rw (sym (append_assoc (take at destination) (take c source) (drop (at + c) destination))) (
        take_append_exact (at + c) (take at destination ++ take c source)
          (drop (at + c) destination) (sym (parts h k)))

module _ (source destination : List ℕ) (at : ℕ) (within : at ≤ length destination) where
  -- The buffer keeps its size.
  pub length-copy_bytes : length (copy_bytes source destination at) ≡ length destination
  unfolding copy_bytes
  length-copy_bytes =
      whole source destination at (min (length source) (length destination - at)) (omega arith)
        (omega arith)

  -- What was filled stays, and the copied bytes follow it.
  pub take-copy_bytes :
      take (at + copied_count source destination at) (copy_bytes source destination at)
      ≡ take at destination ++ take (copied_count source destination at) source
  unfolding copy_bytes
  take-copy_bytes =
      front source destination at (min (length source) (length destination - at)) (omega arith)
        (omega arith)

-- A vector that grows from nothing has the new size.
pub length-resize : (n : ℕ) → length (resize n []) ≡ n
unfolding resize
length-resize zero = refl
length-resize (suc n) = omega (arith, length-replicate {A = ℕ} (suc n - 0) 0)
