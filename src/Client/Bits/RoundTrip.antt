-- ===== src/Client/Bits/RoundTrip.antt =====
-- The chunk map of a ping of src/client/client.cpp survives the way into bytes and back.
use tvpp_dev_base.Base.{
  ℕ, zero, suc, ◌+◌, ◌-◌, ◌*◌, ◌/◌, ◌%◌, ◌^◌, ◌<◌, ◌≡◌, refl, ap, ◌∙◌, inl, inr, Bool, true, false,
  leb, ◌==◌, if◌then◌else◌, List, [], ◌∷◌, ◌++◌, length, replicate, arith, Bool-cases,
}
use tvpp_dev_base.Client.Bits.{
  byte_to_bitset, padded, bytes_to_bitset, to_ulong, fill_byte, pack_bits, bitset_to_bytes,
}

-- The bits of a number, from the lowest.
abbrev bits_of : ℕ → ℕ → List Bool
bits_of zero a = []
bits_of (suc n) a = (a % 2 == 1) ∷ bits_of n (a / 2)

bits_of-zero : (n : ℕ) → replicate n false ≡ bits_of n 0
bits_of-zero zero = refl
bits_of-zero (suc n) = ap (λ bs. false ∷ bs) (bits_of-zero n)

pow_suc : (n : ℕ) → 2 ^ suc n ≡ 2 * 2 ^ n
pow_suc n = omega arith

pow_half : (n a : ℕ) → a < 2 ^ suc n → a / 2 < 2 ^ n
pow_half n a h = omega arith

sub_suc : (n l : ℕ) → suc n - suc l ≡ n - l
sub_suc n l = omega arith

byte_to_bitset-bits_of :
    (n a : ℕ)
    → a < 2 ^ n
    → byte_to_bitset n a ++ replicate (n - length (byte_to_bitset n a)) false ≡ bits_of n a
unfolding byte_to_bitset
byte_to_bitset-bits_of zero a h = refl
byte_to_bitset-bits_of (suc n) a h = elim (Bool-cases (leb 1 a)) [
  | inl t ↦
      rw (byte_to_bitset, t, sub_suc n (length (byte_to_bitset n (a / 2))))
        (ap (λ bs. (a % 2 == 1) ∷ bs) (byte_to_bitset-bits_of n (a / 2) (pow_half n a h)))
  | inr t ↦
      let none_left : a ≡ 0 = ground (arith, t) in
      let all : suc n - 0 ≡ suc n = omega arith in
      rw (byte_to_bitset, t, all) (rw none_left (bits_of-zero (suc n)))
]

to_ulong-lt : (bs : List Bool) → to_ulong bs < 2 ^ length bs
to_ulong-lt [] = omega arith
to_ulong-lt (true ∷ bs) = omega (arith, to_ulong-lt bs, pow_suc (length bs))
to_ulong-lt (false ∷ bs) = omega (arith, to_ulong-lt bs, pow_suc (length bs))

bit_cons :
    (b : Bool) (bs : List Bool) (v : ℕ)
    → bits_of (length bs) v ≡ bs
    → bits_of (suc (length bs)) ((if b then 1 else 0) + 2 * v) ≡ b ∷ bs
bit_cons true bs v e =
    let half : (1 + 2 * v) / 2 ≡ v = omega arith in
    let low : ((1 + 2 * v) % 2 == 1) ≡ true = ground arith in rw (low, half, e) refl
bit_cons false bs v e =
    let half : (0 + 2 * v) / 2 ≡ v = omega arith in
    let low : ((0 + 2 * v) % 2 == 1) ≡ false = ground arith in rw (low, half, e) refl

bits_of-to_ulong : (bs : List Bool) → bits_of (length bs) (to_ulong bs) ≡ bs
bits_of-to_ulong [] = refl
bits_of-to_ulong (true ∷ bs) = bit_cons true bs (to_ulong bs) (bits_of-to_ulong bs)
bits_of-to_ulong (false ∷ bs) = bit_cons false bs (to_ulong bs) (bits_of-to_ulong bs)

-- Eight bits of a byte.
padded-byte :
    (b0 b1 b2 b3 b4 b5 b6 b7 : Bool)
    → let bs = b0 ∷ b1 ∷ b2 ∷ b3 ∷ b4 ∷ b5 ∷ b6 ∷ b7 ∷ [] in
      padded (byte_to_bitset 8 (to_ulong bs)) ≡ bs
unfolding padded
padded-byte b0 b1 b2 b3 b4 b5 b6 b7 =
    let bs = b0 ∷ b1 ∷ b2 ∷ b3 ∷ b4 ∷ b5 ∷ b6 ∷ b7 ∷ [] in
    byte_to_bitset-bits_of 8 (to_ulong bs) (to_ulong-lt bs) ∙ bits_of-to_ulong bs

-- Eight bits of a byte that is being filled.
abbrev Octet : Type 0
Octet = Bool × Bool × Bool × Bool × Bool × Bool × Bool × Bool

abbrev bits_in : Octet → List Bool
bits_in (x0, x1, x2, x3, x4, x5, x6, x7) = x0 ∷ x1 ∷ x2 ∷ x3 ∷ x4 ∷ x5 ∷ x6 ∷ x7 ∷ []

-- The first loop of `BitsetToBytes` over eight bits.
pack_byte :
    (x : Octet) (b0 b1 b2 b3 b4 b5 b6 b7 : Bool) (bs : List Bool)
    → pack_bits (b0 ∷ b1 ∷ b2 ∷ b3 ∷ b4 ∷ b5 ∷ b6 ∷ b7 ∷ bs) (bits_in x) 0
      ≡ to_ulong (b0 ∷ b1 ∷ b2 ∷ b3 ∷ b4 ∷ b5 ∷ b6 ∷ b7 ∷ [])
        ∷ pack_bits bs (bits_in (b0, b1, b2, b3, b4, b5, b6, b7)) 0
unfolding pack_bits
pack_byte (x0, x1, x2, x3, x4, x5, x6, x7) b0 b1 b2 b3 b4 b5 b6 b7 bs = refl

no_bits : (x : Octet) → bytes_to_bitset (pack_bits [] (bits_in x) 0) ≡ []
unfolding pack_bits fill_byte bytes_to_bitset
no_bits (x0, x1, x2, x3, x4, x5, x6, x7) = refl

bits-bytes :
    (n : ℕ) (bits : List Bool) (x : Octet)
    → length bits ≡ 8 * n
    → bytes_to_bitset (pack_bits bits (bits_in x) 0) ≡ bits
unfolding bytes_to_bitset
bits-bytes zero [] x e = no_bits x
bits-bytes zero (b ∷ bs) x e = absurd (omega (arith, e))
bits-bytes (suc n) [] x e = absurd (omega (arith, e))
bits-bytes (suc n) (b0 ∷ []) x e = absurd (omega (arith, e))
bits-bytes (suc n) (b0 ∷ b1 ∷ []) x e = absurd (omega (arith, e))
bits-bytes (suc n) (b0 ∷ b1 ∷ b2 ∷ []) x e = absurd (omega (arith, e))
bits-bytes (suc n) (b0 ∷ b1 ∷ b2 ∷ b3 ∷ []) x e = absurd (omega (arith, e))
bits-bytes (suc n) (b0 ∷ b1 ∷ b2 ∷ b3 ∷ b4 ∷ []) x e = absurd (omega (arith, e))
bits-bytes (suc n) (b0 ∷ b1 ∷ b2 ∷ b3 ∷ b4 ∷ b5 ∷ []) x e = absurd (omega (arith, e))
bits-bytes (suc n) (b0 ∷ b1 ∷ b2 ∷ b3 ∷ b4 ∷ b5 ∷ b6 ∷ []) x e = absurd (omega (arith, e))
bits-bytes (suc n) (b0 ∷ b1 ∷ b2 ∷ b3 ∷ b4 ∷ b5 ∷ b6 ∷ b7 ∷ bs) x e =
    let y : Octet = (b0, b1, b2, b3, b4, b5, b6, b7) in
    ap bytes_to_bitset (pack_byte x b0 b1 b2 b3 b4 b5 b6 b7 bs)
    ∙ ap (λ t. t ++ bytes_to_bitset (pack_bits bs (bits_in y) 0))
        (padded-byte b0 b1 b2 b3 b4 b5 b6 b7)
    ∙ ap (λ t. bits_in y ++ t) (bits-bytes n bs y (omega (arith, e)))

-- `BytesToBitset` reads from the bytes that `BitsetToBytes` writes the bits that it was given, where their
-- number is a multiple of eight.
pub bytes_to_bitset-bitset_to_bytes :
    (n : ℕ) (bits : List Bool) → length bits ≡ 8 * n → bytes_to_bitset (bitset_to_bytes bits) ≡ bits
unfolding bitset_to_bytes
bytes_to_bitset-bitset_to_bytes n bits e =
    bits-bytes n bits (false, false, false, false, false, false, false, false) e

-- A last byte that is not full keeps the last bit of the byte before it: of nine bits, all set but the
-- last, `BitsetToBytes` makes a second byte of 128.
pub bitset_to_bytes_stale : bitset_to_bytes (replicate 8 true ++ false ∷ []) ≡ 255 ∷ 128 ∷ []
unfolding bitset_to_bytes pack_bits fill_byte
bitset_to_bytes_stale = refl
