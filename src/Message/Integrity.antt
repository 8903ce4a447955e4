-- ===== src/Message/Integrity.antt =====
-- The checksum of src/common/Messages/Message.cpp.
use tvpp_dev_base.Base.{
  ℕ, zero, suc, ◌+◌, ◌*◌, ◌/◌, ◌%◌, ◌^◌, ◌≤◌, ◌<◌, ◌≡◌, refl, ◌∙◌, ◌≢◌, ◌⊎◌, inl, inr, List, arith,
  sym, length, get_or, set, ◌==◌, true, length-set, get_or-set_self, get_or-set_ne, Bool-cases,
  ==→eq, ==→ne,
}
use tvpp_dev_base.Message.{
  read_int, split_start, split_value, get_header_size, checksum_from, calc_checksum, complement,
  set_integrity, check_integrity, IsBytes,
}
use tvpp_dev_base.Message.Memory.{
  length-write_int, get_or-write_int, read_int-agree, read_int-write_int,
}

-- The sum of the `n` shorts from the `i`-th, in unbounded numbers.
abbrev pub word_sum : List ℕ → ℕ → ℕ → ℕ
word_sum m i zero = 0
word_sum m i (suc n) = read_int m (2 * i) 2 + word_sum m (i + 1) n

checksum_from-word_sum :
    (m : List ℕ) (i n c : ℕ) → c < 2 ^ 16 → checksum_from m i n c ≡ (c + word_sum m i n) % 2 ^ 16
unfolding checksum_from
checksum_from-word_sum m i zero c h = omega arith
checksum_from-word_sum m i (suc n) c h =
    omega (arith, checksum_from-word_sum m (i + 1) n ((c + read_int m (2 * i) 2) % 2 ^ 16))

pub calc_checksum-word_sum :
    (m : List ℕ) → calc_checksum m ≡ word_sum m 0 (get_header_size m / 2) % 2 ^ 16
unfolding calc_checksum
calc_checksum-word_sum m =
    omega (arith, checksum_from-word_sum m 0 (get_header_size m / 2) 0 (omega arith))

pub get_header_size-byte : (m : List ℕ) → get_header_size m ≡ get_or m 1 0 % 256
unfolding get_header_size read_int split_value split_start
get_header_size-byte m = omega arith

-- Two packets that agree but for the `k`-th short.
abbrev pub DifferAt : ℕ → List ℕ → List ℕ → Type 0
DifferAt k m m' = (i : ℕ) → (i < 2 * k) ⊎ (2 * k + 2 ≤ i) → get_or m i 0 ≡ get_or m' i 0

word_sum-agree :
    (k : ℕ) (m m' : List ℕ) (i n : ℕ)
    → DifferAt k m m'
    → (k < i) ⊎ (i + n ≤ k)
    → word_sum m i n ≡ word_sum m' i n
word_sum-agree k m m' i zero d h = refl
word_sum-agree k m m' i (suc n) d h = omega (
  arith,
  read_int-agree m m' (2 * i) 2 (λ t a b. d t (omega arith)),
  word_sum-agree k m m' (i + 1) n d (omega arith),
)

word_sum-differ :
    (k : ℕ) (m m' : List ℕ) (i n : ℕ)
    → DifferAt k m m'
    → i ≤ k
    → k < i + n
    → word_sum m i n + read_int m' (2 * k) 2 ≡ word_sum m' i n + read_int m (2 * k) 2
word_sum-differ k m m' i zero d h l = absurd (omega arith)
word_sum-differ k m m' i (suc n) d h l = elim (Bool-cases (i == k)) [
  | inl e ↦
      let e' : i ≡ k = ==→eq i k e in
      rw e' (omega (arith, word_sum-agree k m m' (k + 1) n d (omega arith)))
  | inr e ↦
      let e' : i ≢ k = ==→ne i k e in
      omega (
        arith,
        read_int-agree m m' (2 * i) 2 (λ t a b. d t (omega arith)),
        word_sum-differ k m m' (i + 1) n d (omega arith) (omega arith),
      )
]

-- A packet whose checksum field is clear.
abbrev cleared : List ℕ → List ℕ
cleared m = set (set m 4 0) 5 0

get_or-cleared : (m : List ℕ) (i : ℕ) → (i < 4) ⊎ (6 ≤ i) → get_or (cleared m) i 0 ≡ get_or m i 0
get_or-cleared m i h =
    get_or-set_ne (set m 4 0) 5 i 0 0 (omega arith) ∙ get_or-set_ne m 4 i 0 0 (omega arith)

get_or-set_integrity :
    (m : List ℕ) (i : ℕ) → (i < 4) ⊎ (6 ≤ i) → get_or (set_integrity m) i 0 ≡ get_or (cleared m) i 0
unfolding set_integrity
get_or-set_integrity m i h =
    get_or-write_int (cleared m) 4 2 (complement (calc_checksum (cleared m))) i (omega arith)

-- `SetIntegrity` writes the two bytes of the checksum only.
pub set_integrity-keeps :
    (m : List ℕ) (i : ℕ) → (i < 4) ⊎ (6 ≤ i) → get_or (set_integrity m) i 0 ≡ get_or m i 0
set_integrity-keeps m i h = get_or-set_integrity m i h ∙ get_or-cleared m i h

pub length-set_integrity : (m : List ℕ) → length (set_integrity m) ≡ length m
unfolding set_integrity
length-set_integrity m =
    length-write_int (cleared m) 4 2 (complement (calc_checksum (cleared m)))
    ∙ length-set (set m 4 0) 5 0
    ∙ length-set m 4 0

header_size-agree :
    (m m' : List ℕ) → get_or m 1 0 ≡ get_or m' 1 0 → get_header_size m ≡ get_header_size m'
header_size-agree m m' e = omega (arith, get_header_size-byte m, get_header_size-byte m')

-- The checksum field of a sealed packet, and of a cleared one.
checksum_words :
    (m : List ℕ)
    → 6 ≤ length m
    → (read_int (cleared m) 4 2 ≡ 0)
      × (read_int (set_integrity m) 4 2 ≡ complement (calc_checksum (cleared m)))
unfolding set_integrity read_int
checksum_words m h = (
  omega (
    arith,
    get_or-set_ne (set m 4 0) 5 4 0 0 (omega arith),
    get_or-set_self m 4 0 0 (omega arith),
    get_or-set_self (set m 4 0) 5 0 0 (omega (arith, length-set m 4 0)),
  ),
  read_int-write_int (cleared m) 4 2 (complement (calc_checksum (cleared m)))
        (omega (arith, length-set (set m 4 0) 5 0, length-set m 4 0))
      ∙ omega (arith, calc_checksum-word_sum (cleared m)),
)

-- A packet that `SetIntegrity` sealed passes `CheckIntegrity`, if its header has at least the six
-- bytes of the base header and lies in the packet.
pub check-set_integrity :
    (m : List ℕ) → 6 ≤ length m → 6 ≤ get_header_size m → check_integrity (set_integrity m) ≡ true
unfolding check_integrity
check-set_integrity m h k = ground (
  arith,
  calc_checksum-word_sum (cleared m),
  calc_checksum-word_sum (set_integrity m),
  checksum_words m h,
  header_size-agree (cleared m) m (get_or-cleared m 1 (omega arith)),
  header_size-agree (set_integrity m) m (set_integrity-keeps m 1 (omega arith)),
  word_sum-differ 2 (cleared m) (set_integrity m) 0 (get_header_size m / 2)
      (λ i o. sym (get_or-set_integrity m i o)) (omega arith) (omega arith),
)

-- No change that is confined to one short of the header, and keeps the header's size, passes the
-- check of a packet that passed it.
pub check_integrity_detects :
    (m m' : List ℕ) (k : ℕ)
    → IsBytes m
    → IsBytes m'
    → DifferAt k m m'
    → k < get_header_size m / 2
    → get_header_size m ≡ get_header_size m'
    → check_integrity m ≡ true
    → check_integrity m' ≡ true
    → (get_or m (2 * k) 0 ≡ get_or m' (2 * k) 0)
      × (get_or m (2 * k + 1) 0 ≡ get_or m' (2 * k + 1) 0)
unfolding check_integrity read_int
check_integrity_detects m m' k b b' d h e p q = ground (
  arith,
  b (2 * k),
  b (2 * k + 1),
  b' (2 * k),
  b' (2 * k + 1),
  calc_checksum-word_sum m,
  calc_checksum-word_sum m',
  word_sum-differ k m m' 0 (get_header_size m / 2) d (omega arith) (omega arith),
)
