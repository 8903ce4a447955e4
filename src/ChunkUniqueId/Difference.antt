-- ===== src/ChunkUniqueId/Difference.antt =====
-- `operator-` of src/common/ChunkUniqueID.cpp.
use tvpp_dev_base.Base.{
  ℕ, ◌+◌, ◌-◌, ◌*◌, ◌/◌, ◌%◌, ◌^◌, ◌<◌, ◌≤◌, ◌≡◌, refl, ◌⊎◌, inl, inr, true, arith,
}
use tvpp_dev_base.Base.Int.{pos}
use tvpp_dev_base.ChunkUniqueId.{ChunkUniqueId, IsValid, difference, subtract, ge_id, index}

pub difference-buffer_size : (c d : ChunkUniqueId) → (difference c d).buffer_size ≡ c.buffer_size
unfolding difference
difference-buffer_size c d = refl

small_div : (p s : ℕ) → p < s → s < 2 ^ 16 → (p / s % 2 ^ 16 ≡ 0) × (p % s % 2 ^ 16 ≡ p)
small_div p s h k = grind arith

difference_cases :
    (c d : ChunkUniqueId)
    → IsValid c
    → IsValid d
    → c.buffer_size ≡ d.buffer_size
    → ge_id c d ≡ true
    → ((d.position ≤ c.position)
        × (d.cycle ≤ c.cycle)
        × (difference c d
            ≡ record c { position = c.position - d.position; cycle = c.cycle - d.cycle }))
      ⊎ ((c.position < d.position)
          × (d.cycle < c.cycle)
          × (difference c d ≡ record c {
            position = c.position + c.buffer_size - d.position;
            cycle = c.cycle - d.cycle - 1;
          }))
unfolding difference ge_id
difference_cases c d v w e h = ground (arith, small_div d.position c.buffer_size)

-- The product that a borrow of one cycle leaves.
mul_sub : (a b k s : ℕ) → b + k ≤ a → (a - b - k) * s + b * s + k * s ≡ a * s
mul_sub a b k s h = grind arith

-- Where both identifiers are valid, of buffers of one size, and the first is at least the second,
-- `operator-(ChunkUniqueID)` makes a valid identifier, whose number is the difference of theirs.
pub difference-index :
    (c d : ChunkUniqueId)
    → IsValid c
    → IsValid d
    → c.buffer_size ≡ d.buffer_size
    → ge_id c d ≡ true
    → IsValid (difference c d) × (index (difference c d) + index d ≡ index c)
difference-index c d v w e h = elim (difference_cases c d v w e h) [
  | inl (p, q, r) ↦ rw r (ground (arith, mul_sub c.cycle d.cycle 0 c.buffer_size))
  | inr (p, q, r) ↦ rw r (ground (arith, mul_sub c.cycle d.cycle 1 c.buffer_size))
]

-- Where the first of two valid identifiers of one buffer is of an earlier cycle than the second, the
-- difference is not cut off at cycle 0: its cycle is that of the first plus 2 ^ 32 less that of the second,
-- less one more where the position has to borrow a buffer.
pub difference_wraps :
    (c d : ChunkUniqueId)
    → IsValid c
    → IsValid d
    → c.buffer_size ≡ d.buffer_size
    → c.cycle < d.cycle
    → ((d.position ≤ c.position)
        × (difference c d
            ≡ record c { position = c.position - d.position; cycle = c.cycle + 2 ^ 32 - d.cycle }))
      ⊎ ((c.position < d.position)
          × (difference c d ≡ record c {
            position = c.position + c.buffer_size - d.position;
            cycle = c.cycle + 2 ^ 32 - d.cycle - 1;
          }))
unfolding difference
difference_wraps c d v w e h = ground (arith, small_div d.position c.buffer_size)

div_parts :
    (n s : ℕ)
    → n / s < 2 ^ 16 - 1
    → 0 < s
    → s < 2 ^ 16
    → (n / s % 2 ^ 16 ≡ n / s) × (n % s % 2 ^ 16 ≡ n % s) × (n % s < s) × (n / s * s + n % s ≡ n)
div_parts n s q h k = (grind arith, grind arith, grind arith, grind arith)

subtract_cases :
    (c : ChunkUniqueId) (n : ℕ)
    → IsValid c
    → n / c.buffer_size < 2 ^ 16 - 1
    → ((n % c.buffer_size ≤ c.position)
        × (subtract c (pos n) ≡ record c {
          position = c.position - n % c.buffer_size;
          cycle = c.cycle - n / c.buffer_size;
        }))
      ⊎ ((c.position < n % c.buffer_size)
          × (subtract c (pos n) ≡ record c {
            position = c.position + c.buffer_size - n % c.buffer_size;
            cycle = c.cycle - n / c.buffer_size - 1;
          }))
unfolding subtract
subtract_cases c n v q = ground (arith, div_parts n c.buffer_size)

quotient_le : (q r s c p : ℕ) → q * s + r ≤ c * s + p → p < s → q ≤ c
quotient_le q r s c p h k = grind arith

quotient_lt : (q r s c p : ℕ) → q * s + r ≤ c * s + p → p < r → q + 1 ≤ c
quotient_lt q r s c p h k = grind arith

-- For an `int` that is not negative, of fewer than 65535 cycles, and at most the chunk's number,
-- `operator-(int)` makes a valid identifier, whose number is less by it.
pub subtract-index :
    (c : ChunkUniqueId) (n : ℕ)
    → IsValid c
    → n / c.buffer_size < 2 ^ 16 - 1
    → n ≤ index c
    → IsValid (subtract c (pos n)) × (index (subtract c (pos n)) + n ≡ index c)
subtract-index c n v q h = elim (subtract_cases c n v q) [
  | inl (p, e) ↦ rw e (
      ground (
        arith,
        div_parts n size,
        quotient_le (n / size) (n % size) size c.cycle c.position,
        mul_sub c.cycle (n / size) 0 size,
      ))
  | inr (p, e) ↦ rw e (
      ground (
        arith,
        div_parts n size,
        quotient_lt (n / size) (n % size) size c.cycle c.position,
        mul_sub c.cycle (n / size) 1 size,
      ))
]
  where
    open c use {buffer_size as size}
