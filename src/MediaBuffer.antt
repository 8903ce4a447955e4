-- ===== src/MediaBuffer.antt =====
-- src/client/MediaBuffer.hpp and MediaBuffer.cpp: the received chunks by their position. A slot is what
-- the arrays hold at one index, with the bytes of the message, or none for the NULL pointer. `none`
-- as the result of an operation is an access outside the arrays, or a call through NULL.
pub mod Slots
pub mod Stored
mod Tests
use tvpp_dev_base.Base.{
  ℕ, zero, suc, ◌+◌, ◌%◌, ◌^◌, Bool, true, false, ltb, leb, if◌then◌else◌, not, ◌||◌, Option, none,
  some, List, [], ◌∷◌, length, get_or, set, replicate,
}
use tvpp_dev_base.Message.{get_header_size, get_body_size, get_header_values}
use tvpp_dev_base.Messages.{data_sizes, set_duration}

pub record Slot : Type 0 where
  pub buffer : Option (List ℕ)
  pub chunk_size : ℕ
  pub header_size : ℕ
  pub hop : ℕ
  pub tries : ℕ
  pub duration : ℕ
  pub id : ℕ
  pub available : Bool

pub record MediaBuffer : Type 0 where
  pub slots : List Slot
  pub buffer_size : ℕ

-- The element of an array.
abbrev pub slot_at {ℓ} : {A : Type ℓ} → List A → ℕ → Option A
slot_at [] i = none
slot_at (x ∷ xs) zero = some x
slot_at (x ∷ xs) (suc i) = slot_at xs i

-- The constructor. It sets the pointers and the bits; the other arrays start with any values, those of
-- `fresh`.
unfoldable pub make_buffer : Slot → ℕ → MediaBuffer
make_buffer fresh size = record {
  slots = replicate size (record fresh { buffer = none; available = false });
  buffer_size = 0;
}

-- What `Insert` stores of a message.
unfoldable pub slot_of : List ℕ → Bool → Slot
slot_of m available =
    let header = get_header_values data_sizes m in
    record {
      buffer = some m;
      chunk_size = (get_header_size m + get_body_size m) % 2 ^ 16;
      header_size = get_header_size m;
      hop = get_or header 0 0 % 2 ^ 8;
      tries = get_or header 1 0 % 2 ^ 8;
      duration = get_or header 4 0;
      id = get_or header 2 0;
      available = available;
    }

-- The position that a message goes to.
unfoldable pub position_of : List ℕ → ℕ
position_of m = get_or (get_header_values data_sizes m) 3 0 % 2 ^ 16

abbrev pub is_null : Option (List ℕ) → Bool
is_null none = true
is_null (some m) = false

unfoldable pub insert_media : MediaBuffer → List ℕ → Bool → Option MediaBuffer
insert_media b m available = elim (slot_at b.slots (position_of m)) [
  | none ↦ none
  | some old ↦ some (record {
    slots = set b.slots (position_of m) (slot_of m available);
    buffer_size = if is_null old.buffer then (b.buffer_size + 1) % 2 ^ 16 else b.buffer_size;
  })
]

-- `SetAvailable` and `UnsetAvailable`
unfoldable pub set_available : MediaBuffer → ℕ → Bool → Option MediaBuffer
set_available b i available = elim (slot_at b.slots i) [
  | none ↦ none
  | some s ↦ some (record b { slots = set b.slots i (record s { available = available }) })
]

-- `Available`
unfoldable pub is_available : MediaBuffer → ℕ → Option Bool
is_available b i = elim (slot_at b.slots i) [
  | none ↦ none
  | some s ↦ some (if not (is_null s.buffer) then s.available else false)
]

-- `SetDuration`, of the array and of the message.
unfoldable pub set_media_duration : MediaBuffer → ℕ → ℕ → Option MediaBuffer
unfolding set_duration
set_media_duration b i duration = elim (slot_at b.slots i) [
  | none ↦ none
  | some s ↦ elim s.buffer [
    | none ↦ none
    | some m ↦ some (record b {
      slots =
          set b.slots i (record s { duration = duration; buffer = some (set_duration m duration) });
    })
  ]
]

-- `operator[]`, which reads the array before it tests the index.
unfoldable pub get_media : MediaBuffer → ℕ → Option (Option (List ℕ))
get_media b i = elim (slot_at b.slots i) [
  | none ↦ none
  | some s ↦
      some
        (if is_null s.buffer then s.buffer else if ltb (length b.slots) i then none else s.buffer)
]
