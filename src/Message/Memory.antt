-- ===== src/Message/Memory.antt =====
-- Writes and reads of several bytes in one packet.
use tvpp_dev_base.Base.{
  ℕ, zero, suc, ◌+◌, ◌*◌, ◌/◌, ◌%◌, ◌≤◌, ◌<◌, ◌≡◌, refl, ◌∙◌, ◌⊎◌, inl, List, arith, length, get_or,
  set, length-set, get_or-set_self, get_or-set_ne,
}
use tvpp_dev_base.Message.{read_int, write_int}

-- What `n` bytes can hold of a value.
abbrev pub low_bytes : ℕ → ℕ → ℕ
low_bytes zero v = 0
low_bytes (suc n) v = v % 256 + 256 * low_bytes n (v / 256)

pub length-write_int : (m : List ℕ) (p n v : ℕ) → length (write_int m p n v) ≡ length m
unfolding write_int
length-write_int m p zero v = refl
length-write_int m p (suc n) v =
    length-write_int (set m p (v % 256)) (p + 1) n (v / 256) ∙ length-set m p (v % 256)

pub get_or-write_int :
    (m : List ℕ) (p n v i : ℕ)
    → (i < p) ⊎ (p + n ≤ i)
    → get_or (write_int m p n v) i 0 ≡ get_or m i 0
unfolding write_int
get_or-write_int m p zero v i h = refl
get_or-write_int m p (suc n) v i h =
    get_or-write_int (set m p (v % 256)) (p + 1) n (v / 256) i (omega arith)
    ∙ get_or-set_ne m p i (v % 256) 0 (omega arith)

-- Reads depend on the bytes read only.
pub read_int-agree :
    (m m' : List ℕ) (p n : ℕ)
    → ((i : ℕ) → p ≤ i → i < p + n → get_or m i 0 ≡ get_or m' i 0)
    → read_int m p n ≡ read_int m' p n
unfolding read_int
read_int-agree m m' p zero h = refl
read_int-agree m m' p (suc n) h = omega (
  arith,
  h p (omega arith) (omega arith),
  read_int-agree m m' (p + 1) n (λ i a b. h i (omega arith) (omega arith)),
)

pub read_int-write_int :
    (m : List ℕ) (p n v : ℕ) → p + n ≤ length m → read_int (write_int m p n v) p n ≡ low_bytes n v
unfolding read_int write_int
read_int-write_int m p zero v h = refl
read_int-write_int m p (suc n) v h = omega (
  arith,
  get_or-write_int (set m p (v % 256)) (p + 1) n (v / 256) p (inl (omega arith)),
  get_or-set_self m p (v % 256) 0 (omega arith),
  read_int-write_int (set m p (v % 256)) (p + 1) n (v / 256)
      (omega (arith, length-set m p (v % 256))),
)

pub read_int-set_ne :
    (m : List ℕ) (i v p n : ℕ) → (i < p) ⊎ (p + n ≤ i) → read_int (set m i v) p n ≡ read_int m p n
read_int-set_ne m i v p n h =
    read_int-agree (set m i v) m p n (λ t a b. get_or-set_ne m i t v 0 (omega arith))

pub read_int-set_self : (m : List ℕ) (i v : ℕ) → i < length m → read_int (set m i v) i 1 ≡ v
unfolding read_int
read_int-set_self m i v h = omega (arith, get_or-set_self m i v 0 h)
