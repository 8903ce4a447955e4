-- ===== src/Client/Bits.antt =====
-- `ByteToBitset`, `BitsetToBytes` and `BytesToBitset` of src/client/client.cpp: the chunk map of a ping.
pub mod RoundTrip
use tvpp_dev_base.Base.{
  ℕ, zero, suc, ◌+◌, ◌-◌, ◌*◌, ◌/◌, ◌%◌, ◌^◌, ◌<◌, ◌≡◌, refl, ap, ◌∙◌, inl, inr, Bool, true, false,
  ltb, leb, ◌==◌, if◌then◌else◌, List, [], ◌∷◌, ◌++◌, length, set, get_or, replicate, arith,
  Bool-cases,
}

-- The loop of `ByteToBitset`, which ends when the number is 0; eight rounds are enough for a byte. (A
-- number that is 1 after the loop does not occur.)
unfoldable pub byte_to_bitset : ℕ → ℕ → List Bool
byte_to_bitset zero a = []
byte_to_bitset (suc n) a =
    let rest = byte_to_bitset n (a / 2) in if leb 1 a then (a % 2 == 1) ∷ rest else []

-- The loop that makes the bitset at least eight bits long.
unfoldable pub padded : List Bool → List Bool
padded bits = bits ++ replicate (8 - length bits) false

-- `BytesToBitset`
unfoldable pub bytes_to_bitset : List ℕ → List Bool
bytes_to_bitset [] = []
bytes_to_bitset (a ∷ bytes) = padded (byte_to_bitset 8 a) ++ bytes_to_bitset bytes

-- The `n` bytes at an address.
abbrev pub bytes_at : List ℕ → ℕ → ℕ → List ℕ
bytes_at m from zero = []
bytes_at m from (suc n) = get_or m from 0 ∷ bytes_at m (from + 1) n

abbrev pub to_ulong : List Bool → ℕ
to_ulong [] = 0
to_ulong (b ∷ bs) = (if b then 1 else 0) + 2 * to_ulong bs

-- The second loop of `BitsetToBytes`, from the position `j` in the last byte: it writes a byte before it
-- has cleared the last bit.
unfoldable pub fill_byte : ℕ → List Bool → ℕ → List ℕ
fill_byte zero x j = []
fill_byte (suc n) x j =
    let x' = set x j false in
    let rest = fill_byte n x' ((j + 1) % 8) in
    if j == 0 then [] else if (j + 1) % 8 == 7 then to_ulong x' ∷ rest else rest

-- The first loop, with the eight bits and the position.
unfoldable pub pack_bits : List Bool → List Bool → ℕ → List ℕ
pack_bits [] x j = fill_byte 8 x j
pack_bits (b ∷ bs) x j =
    let x' = set x j b in
    if j == 7 then to_ulong x' ∷ pack_bits bs x' 0 else pack_bits bs x' (j + 1)

-- `BitsetToBytes`: the bytes that it writes.
unfoldable pub bitset_to_bytes : List Bool → List ℕ
bitset_to_bytes bits = pack_bits bits (replicate 8 false) 0
