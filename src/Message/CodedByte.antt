-- ===== src/Message/CodedByte.antt =====
-- `GetCodedByteValue` and `SetCodedByteValue` of src/common/Messages/Message.cpp, which go through a
-- short in network order, against one byte of the packet.
use tvpp_dev_base.Base.{
  ℕ, ◌+◌, ◌*◌, ◌/◌, ◌%◌, ◌<◌, ◌≡◌, refl, ◌∙◌, ◌⊎◌, inl, inr, List, arith, ap, get_or, set,
  get_or-set_ne, set-get_or_self,
}
use tvpp_dev_base.Message.{
  read_int, write_int, swap_bytes, short_set_high, short_set_low, get_coded_byte, set_coded_byte,
  IsBytes,
}

-- An address is that of the high byte of its short, or of the low one.
parity : (a : ℕ) → ((a % 2 ≡ 0) × (a / 2 * 2 ≡ a)) ⊎ ((a % 2 ≡ 1) × (a / 2 * 2 + 1 ≡ a))
parity a = grind arith

read_short : (m : List ℕ) (p : ℕ) → read_int m p 2 ≡ get_or m p 0 + 256 * get_or m (p + 1) 0
unfolding read_int
read_short m p = omega arith

write_short :
    (m : List ℕ) (p v : ℕ) → write_int m p 2 v ≡ set (set m p (v % 256)) (p + 1) (v / 256 % 256)
unfolding write_int
write_short m p v = refl

-- For a packet of bytes, `GetCodedByteValue` returns the byte at the address.
pub get_coded_byte-get_or : (m : List ℕ) (a : ℕ) → IsBytes m → get_coded_byte m a ≡ get_or m a 0
unfolding get_coded_byte
get_coded_byte-get_or m a b = elim (parity a) [
  | inl (e, p) ↦ rw p (ground (arith, e, read_short m a, b a, b (a + 1)))
  | inr (e, p) ↦ ground (arith, p, read_short m (a / 2 * 2), b a, b (a / 2 * 2))
]

set_high :
    (b0 b1 v : ℕ)
    → b0 < 256
    → b1 < 256
    → v < 256
    → swap_bytes (short_set_high (swap_bytes (b0 + 256 * b1)) v) ≡ v + 256 * b1
unfolding short_set_high
set_high b0 b1 v h k l = omega arith

set_low :
    (b0 b1 v : ℕ)
    → b0 < 256
    → b1 < 256
    → v < 256
    → swap_bytes (short_set_low (swap_bytes (b0 + 256 * b1)) v) ≡ b0 + 256 * v
unfolding short_set_low
set_low b0 b1 v h k l = omega arith

write_high :
    (m : List ℕ) (a v b1 : ℕ)
    → v < 256
    → b1 < 256
    → get_or m (a + 1) 0 ≡ b1
    → write_int m a 2 (v + 256 * b1) ≡ set m a v
write_high m a v b1 h k e =
    write_short m a (v + 256 * b1)
    ∙ rw (low, high, ← e, ← get_or-set_ne m a (a + 1) v 0 (omega arith))
        (set-get_or_self (set m a v) (a + 1) 0)
  where
    low : (v + 256 * b1) % 256 ≡ v
    low = omega arith

    high : (v + 256 * b1) / 256 % 256 ≡ b1
    high = omega arith

write_low :
    (m : List ℕ) (a v b0 : ℕ)
    → v < 256
    → b0 < 256
    → get_or m a 0 ≡ b0
    → write_int m a 2 (b0 + 256 * v) ≡ set m (a + 1) v
write_low m a v b0 h k e =
    write_short m a (b0 + 256 * v)
    ∙ rw (low, high, ← e) (ap (λ t. set t (a + 1) v) (set-get_or_self m a 0))
  where
    low : (b0 + 256 * v) % 256 ≡ b0
    low = omega arith

    high : (b0 + 256 * v) / 256 % 256 ≡ v
    high = omega arith

-- For a packet of bytes and a byte value, `SetCodedByteValue` writes the byte at the address, and no
-- other.
pub set_coded_byte-set :
    (m : List ℕ) (a v : ℕ) → IsBytes m → v < 256 → set_coded_byte m a v ≡ set m a v
unfolding set_coded_byte
set_coded_byte-set m a v b h = elim (parity a) [
  | inl (e, p) ↦
      rw (p, e, read_short m a, set_high (get_or m a 0) (get_or m (a + 1) 0) v (b a) (b (a + 1)) h)
        (write_high m a v (get_or m (a + 1) 0) h (b (a + 1)) refl)
  | inr (e, p) ↦
      rw
        (
          e,
          read_short m (a / 2 * 2),
          set_low (get_or m (a / 2 * 2) 0) (get_or m (a / 2 * 2 + 1) 0) v (b (a / 2 * 2))
              (b (a / 2 * 2 + 1)) h,
        )
        (write_low m (a / 2 * 2) v (get_or m (a / 2 * 2) 0) h (b (a / 2 * 2)) refl
          ∙ ap (λ t. set m t v) p)
]
