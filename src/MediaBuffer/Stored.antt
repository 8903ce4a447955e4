-- ===== src/MediaBuffer/Stored.antt =====
-- What src/client/MediaBuffer.cpp stores of a data message.
use tvpp_dev_base.Base.{
  ℕ, ◌+◌, ◌%◌, ◌^◌, ◌≤◌, ◌<◌, ◌≡◌, refl, ◌∙◌, ap, ◌≢◌, Bool, true, if◌then◌else◌, some, List, [],
  ◌∷◌, arith, length, get_or, set,
}
use native.Mathlib.Nat.{mod-eq_of_lt}
use tvpp_dev_base.ChunkUniqueId.{ChunkUniqueId}
use tvpp_dev_base.Message.{
  set_integrity, check_integrity, get_opcode, get_header_values, get_header_size, get_body_size,
}
use tvpp_dev_base.Messages.{
  data_sizes, data_values, message_data, set_duration, media, make_message,
}
use tvpp_dev_base.Messages.Sealed.{sealed_message}
use tvpp_dev_base.Messages.Classes.{IsU, set_duration-values}
use tvpp_dev_base.MediaBuffer.{
  Slot, MediaBuffer, slot_at, is_null, slot_of, position_of, insert_media, set_media_duration,
  is_available,
}
use tvpp_dev_base.MediaBuffer.Slots.{slot_at-length, slot_at-set_self, slot_at-set_ne}

-- A message by the values of its header.
slot_of-values :
    (m : List ℕ) (flag : Bool) (hop tries cycle position generated duration size : ℕ)
    → get_header_values data_sizes m ≡ hop ∷ tries ∷ cycle ∷ position ∷ generated ∷ duration ∷ []
    → (hop < 2 ^ 8) × (tries < 2 ^ 8)
    → get_header_size m ≡ 22
    → get_body_size m ≡ size
    → 22 + size < 2 ^ 16
    → slot_of m flag ≡ record {
      buffer = some m;
      chunk_size = 22 + size;
      header_size = 22;
      hop = hop;
      tries = tries;
      duration = generated;
      id = cycle;
      available = flag;
    }
unfolding slot_of
slot_of-values m flag hop tries cycle position generated duration size e h hs bs k =
    rw (slot_of, e, hs, bs, mod-eq_of_lt h.0, mod-eq_of_lt h.1, mod-eq_of_lt k) refl

-- `Insert` by the slot that it writes.
insert_media-at :
    (b : MediaBuffer) (m : List ℕ) (flag : Bool) (i : ℕ) (s : Slot)
    → position_of m ≡ i
    → slot_at b.slots i ≡ some s
    → insert_media b m flag
      ≡ some (record {
        slots = set b.slots i (slot_of m flag);
        buffer_size = if is_null s.buffer then (b.buffer_size + 1) % 2 ^ 16 else b.buffer_size;
      })
unfolding insert_media
insert_media-at b m flag i s e f = rw (insert_media, e, f) (rw e refl)

available-at :
    (b : MediaBuffer) (i : ℕ) (s : Slot) (m : List ℕ)
    → slot_at b.slots i ≡ some s
    → s.buffer ≡ some m
    → is_available b i ≡ some s.available
unfolding is_available
available-at b i s m e f = rw (is_available, e, f) refl

-- A data message that its sender made and sealed, and that `Insert` puts in a buffer with a slot for
-- the position of its chunk: that slot then holds the message with its sizes, its hop count, its tries
-- and the cycle of its chunk, and is available as the call says. The duration of the slot is the time
-- at which the chunk was generated, not the duration that the message carries. The other slots are as
-- they were.
pub insert_media-message_data :
    (b : MediaBuffer) (fresh : List ℕ) (size hop tries : ℕ) (chunk : ChunkUniqueId)
    (generated duration : ℕ) (flag : Bool)
    → 22 ≤ length fresh
    → 22 + size < 2 ^ 16
    → (hop < 2 ^ 8) × (tries < 2 ^ 8)
    → IsU chunk
    → (generated < 2 ^ 32) × (duration < 2 ^ 32)
    → chunk.position < length b.slots
    → let m = set_integrity (message_data fresh size hop tries chunk generated duration) in
      (b' : MediaBuffer) × (insert_media b m flag ≡ some b')
      × (slot_at b'.slots chunk.position
          ≡ some (record {
            buffer = some m;
            chunk_size = 22 + size;
            header_size = 22;
            hop = hop;
            tries = tries;
            duration = generated;
            id = chunk.cycle;
            available = flag;
          }))
      × (is_available b' chunk.position ≡ some flag)
      × ((j : ℕ) → j ≢ chunk.position → slot_at b'.slots j ≡ slot_at b.slots j)
unfolding message_data position_of
insert_media-message_data b fresh size hop tries chunk generated duration flag room k h c t p = (
  record {
    slots = set b.slots chunk.position (slot_of m flag);
    buffer_size = if is_null old.0.buffer then (b.buffer_size + 1) % 2 ^ 16 else b.buffer_size;
  },
  insert_media-at b m flag chunk.position old.0 there old.1,
  stored,
  available-at _ chunk.position _ m stored refl,
  λ j o. slot_at-set_ne b.slots chunk.position j (slot_of m flag) o,
)
  where
    m : List ℕ
    m =
        set_integrity
          (make_message media fresh size (data_values hop tries chunk generated duration))

    read :
        (check_integrity m ≡ true)
        × (get_opcode m ≡ 4)
        × (get_header_size m ≡ 22)
        × (get_body_size m ≡ size)
        × (get_header_values data_sizes m
            ≡ hop ∷ tries ∷ chunk.cycle ∷ chunk.position ∷ generated ∷ duration ∷ [])
    read =
        sealed_message media fresh size (data_values hop tries chunk generated duration) room
          (omega arith) refl (h.0, (h.1, (c.0, (c.1, (t.0, (t.1, tt))))))

    there : position_of m ≡ chunk.position
    there = ap (λ (v : List ℕ). get_or v 3 0 % 2 ^ 16) read.4 ∙ mod-eq_of_lt c.1

    old : (s : Slot) × (slot_at b.slots chunk.position ≡ some s)
    old = slot_at-length b.slots chunk.position p

    stored :
        slot_at (set b.slots chunk.position (slot_of m flag)) chunk.position
        ≡ some (record {
          buffer = some m;
          chunk_size = 22 + size;
          header_size = 22;
          hop = hop;
          tries = tries;
          duration = generated;
          id = chunk.cycle;
          available = flag;
        })
    stored =
        slot_at-set_self b.slots chunk.position (slot_of m flag) old.0 old.1
        ∙ ap some (
            slot_of-values m flag hop tries chunk.cycle chunk.position generated duration size
              read.4 h read.2 read.3 k)

-- `SetDuration` of a position with a message of at least 22 bytes sets the duration of the slot and that in the
-- header of the message, and changes no other value of the header and no other slot.
pub set_media_duration-slot :
    (b : MediaBuffer) (i d : ℕ) (s : Slot) (m : List ℕ)
    → slot_at b.slots i ≡ some s
    → s.buffer ≡ some m
    → 22 ≤ length m
    → d < 2 ^ 32
    → (b' : MediaBuffer) × (m' : List ℕ) × (set_media_duration b i d ≡ some b')
      × (slot_at b'.slots i ≡ some (record s { buffer = some m'; duration = d }))
      × (get_header_values data_sizes m' ≡ set (get_header_values data_sizes m) 5 d)
      × ((j : ℕ) → j ≢ i → slot_at b'.slots j ≡ slot_at b.slots j)
unfolding set_media_duration
set_media_duration-slot b i d s m e f room k = (
  record b { slots = set b.slots i (record s { duration = d; buffer = some (set_duration m d) }) },
  set_duration m d,
  rw (set_media_duration, e, f) refl,
  slot_at-set_self b.slots i (record s { buffer = some (set_duration m d); duration = d }) s e,
  set_duration-values m d room k,
  λ j o. slot_at-set_ne b.slots i j (record s { buffer = some (set_duration m d); duration = d }) o,
)
