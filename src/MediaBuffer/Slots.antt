-- ===== src/MediaBuffer/Slots.antt =====
-- The count of chunks of src/client/MediaBuffer.cpp.
use tvpp_dev_base.Base.{
  ℕ, zero, suc, ◌+◌, ◌^◌, ◌≤◌, ◌<◌, ◌≡◌, refl, ap, inl, inr, ◌≢◌, Bool, false, if◌then◌else◌, none,
  some, List, [], ◌∷◌, arith, length, set, length-set, replicate, length-replicate, Option-cases,
}
use tvpp_dev_base.MediaBuffer.{
  Slot, MediaBuffer, slot_at, is_null, make_buffer, slot_of, position_of, insert_media,
  set_available, set_media_duration,
}
use tvpp_dev_base.Messages.{set_duration}

-- The slots that hold a message.
abbrev pub occupied : List Slot → ℕ
occupied [] = 0
occupied (s ∷ ss) = (if is_null s.buffer then 0 else 1) + occupied ss

pub slot_at-length {ℓ} :
    {A : Type ℓ} (xs : List A) (i : ℕ) → i < length xs → (x : A) × (slot_at xs i ≡ some x)
slot_at-length [] i h = absurd (omega arith)
slot_at-length (x ∷ xs) zero h = (x, refl)
slot_at-length (x ∷ xs) (suc i) h = slot_at-length xs i (omega arith)

pub slot_at-bound {ℓ} :
    {A : Type ℓ} (xs : List A) (i : ℕ) (x : A) → slot_at xs i ≡ some x → i < length xs
slot_at-bound [] i x e = absurd (ground arith)
slot_at-bound (y ∷ xs) zero x e = omega arith
slot_at-bound (y ∷ xs) (suc i) x e = omega (arith, slot_at-bound xs i x e)

pub slot_at-set_self {ℓ} :
    {A : Type ℓ} (xs : List A) (i : ℕ) (v x : A)
    → slot_at xs i ≡ some x
    → slot_at (set xs i v) i ≡ some v
slot_at-set_self [] i v x e = absurd (ground arith)
slot_at-set_self (y ∷ xs) zero v x e = refl
slot_at-set_self (y ∷ xs) (suc i) v x e = slot_at-set_self xs i v x e

pub slot_at-set_ne {ℓ} :
    {A : Type ℓ} (xs : List A) (i j : ℕ) (v : A) → j ≢ i → slot_at (set xs i v) j ≡ slot_at xs j
slot_at-set_ne [] i j v h = refl
slot_at-set_ne (y ∷ xs) zero zero v h = absurd (omega arith)
slot_at-set_ne (y ∷ xs) zero (suc j) v h = refl
slot_at-set_ne (y ∷ xs) (suc i) zero v h = refl
slot_at-set_ne (y ∷ xs) (suc i) (suc j) v h = slot_at-set_ne xs i j v (λ e. h (ap suc e))

pub occupied-le : (ss : List Slot) → occupied ss ≤ length ss
occupied-le [] = omega arith
occupied-le (s ∷ ss) = ground (arith, occupied-le ss)

pub occupied-set :
    (ss : List Slot) (i : ℕ) (s v : Slot)
    → slot_at ss i ≡ some s
    → occupied (set ss i v) + (if is_null s.buffer then 0 else 1)
      ≡ occupied ss + (if is_null v.buffer then 0 else 1)
occupied-set [] i s v e = absurd (ground arith)
occupied-set (t ∷ ss) zero s v e = let same : t ≡ s = ground arith in rw same (omega arith)
occupied-set (t ∷ ss) (suc i) s v e = omega (arith, occupied-set ss i s v e)

-- The count is that of the occupied slots, of which there are fewer than 2^16.
pub record IsCounted (b : MediaBuffer) : Type 0 where
  pub counted : b.buffer_size ≡ occupied b.slots
  pub capacity : length b.slots < 2 ^ 16

pub insert_media-IsCounted :
    (b b' : MediaBuffer) (m : List ℕ) (flag : Bool)
    → insert_media b m flag ≡ some b'
    → IsCounted b
    → IsCounted b'
unfolding insert_media slot_of
insert_media-IsCounted b b' m flag e v = elim (Option-cases (slot_at b.slots (position_of m))) [
  | inl h ↦ absurd (ground (arith, h))
  | inr (s, h) ↦ ground (
    arith,
    h,
    occupied-set b.slots (position_of m) s (slot_of m flag) h,
    occupied-le (set b.slots (position_of m) (slot_of m flag)),
    length-set b.slots (position_of m) (slot_of m flag),
  )
]

set_available-IsCounted :
    (b b' : MediaBuffer) (i : ℕ) (flag : Bool)
    → set_available b i flag ≡ some b'
    → IsCounted b
    → IsCounted b'
unfolding set_available
set_available-IsCounted b b' i flag e v = elim (Option-cases (slot_at b.slots i)) [
  | inl h ↦ absurd (ground (arith, h))
  | inr (s, h) ↦ ground (
    arith,
    h,
    occupied-set b.slots i s (record s { available = flag }) h,
    length-set b.slots i (record s { available = flag }),
  )
]

set_media_duration-IsCounted :
    (b b' : MediaBuffer) (i d : ℕ) → set_media_duration b i d ≡ some b' → IsCounted b → IsCounted b'
unfolding set_media_duration
set_media_duration-IsCounted b b' i d e v = elim (Option-cases (slot_at b.slots i)) [
  | inl h ↦ absurd (ground (arith, h))
  | inr (s, h) ↦ elim (Option-cases s.buffer) [
    | inl k ↦ absurd (ground (arith, h, k))
    | inr (m, k) ↦
        let new = record s { duration = d; buffer = some (set_duration m d) } in
        ground (arith, h, k, occupied-set b.slots i s new h, length-set b.slots i new)
  ]
]

-- A call on the buffer that returns.
pub data Step : MediaBuffer → MediaBuffer → Type 0 where
  inserts :
      {b c : MediaBuffer} (m : List ℕ) (flag : Bool) → insert_media b m flag ≡ some c → Step b c
  marks : {b c : MediaBuffer} (i : ℕ) (flag : Bool) → set_available b i flag ≡ some c → Step b c
  times : {b c : MediaBuffer} (i d : ℕ) → set_media_duration b i d ≡ some c → Step b c

pub data Reach (b : MediaBuffer) : MediaBuffer → Type 0 where
  here : Reach b b
  next : {c d : MediaBuffer} → Reach b c → Step c d → Reach b d

Step-IsCounted : {b c : MediaBuffer} → Step b c → IsCounted b → IsCounted c
Step-IsCounted {b} {c} (inserts m flag e) v = insert_media-IsCounted b c m flag e v
Step-IsCounted {b} {c} (marks i flag e) v = set_available-IsCounted b c i flag e v
Step-IsCounted {b} {c} (times i d e) v = set_media_duration-IsCounted b c i d e v

make_buffer-IsCounted : (fresh : Slot) (n : ℕ) → n < 2 ^ 16 → IsCounted (make_buffer fresh n)
unfolding make_buffer
make_buffer-IsCounted fresh n h = record {
  counted = empty n;
  capacity = omega (arith, length-replicate n (record fresh { buffer = none; available = false }));
}
  where
    empty : (n : ℕ) → 0 ≡ occupied (replicate n (record fresh { buffer = none; available = false }))
    empty zero = refl
    empty (suc n) = omega (arith, empty n)

Reach-IsCounted' : {b c : MediaBuffer} → Reach b c → IsCounted b → IsCounted c
Reach-IsCounted' here v = v
Reach-IsCounted' (next r s) v = Step-IsCounted s (Reach-IsCounted' r v)

-- After any calls that return, from the constructor on, `GetSize` is the number of positions that hold
-- a chunk.
pub Reach-IsCounted :
    (fresh : Slot) (n : ℕ) (b : MediaBuffer)
    → n < 2 ^ 16
    → Reach (make_buffer fresh n) b
    → IsCounted b
Reach-IsCounted fresh n b h r = Reach-IsCounted' r (make_buffer-IsCounted fresh n h)
