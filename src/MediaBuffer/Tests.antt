-- ===== src/MediaBuffer/Tests.antt =====
-- The theorems on the media buffer at concrete buffers.
use tvpp_dev_base.Base.{ℕ, ◌+◌, ◌≡◌, ◌≢◌, true, false, none, some, List, [], ◌∷◌, ◌++◌, arith}
use tvpp_dev_base.ChunkUniqueId.{ChunkUniqueId}
use tvpp_dev_base.Message.{set_integrity}
use tvpp_dev_base.Messages.{message_data}
use tvpp_dev_base.MediaBuffer.{Slot, MediaBuffer, slot_at, make_buffer, insert_media, is_available}
use tvpp_dev_base.MediaBuffer.Slots.{IsCounted, here, Reach-IsCounted}
use tvpp_dev_base.MediaBuffer.Stored.{insert_media-message_data}

abbrev zeros8 : List ℕ
zeros8 = 0 ∷ 0 ∷ 0 ∷ 0 ∷ 0 ∷ 0 ∷ 0 ∷ 0 ∷ []

abbrev zeros24 : List ℕ
zeros24 = zeros8 ++ zeros8 ++ zeros8

abbrev fresh : Slot
fresh = record {
  buffer = none;
  chunk_size = 0;
  header_size = 0;
  hop = 0;
  tries = 0;
  duration = 0;
  id = 0;
  available = false;
}

abbrev chunk : ChunkUniqueId
chunk = record { position = 1; cycle = 2; buffer_size = 512 }

abbrev filled : Slot
filled = record fresh { buffer = some zeros24 }

-- Two positions, and a chunk in the first.
abbrev small : MediaBuffer
small = record { slots = filled ∷ fresh ∷ []; buffer_size = 1 }

Reach-IsCounted_example : IsCounted (make_buffer fresh 2)
Reach-IsCounted_example = Reach-IsCounted fresh 2 (make_buffer fresh 2) (omega arith) here

insert_media-message_data_example :
    let m = set_integrity (message_data zeros24 100 3 1 chunk 77 88) in
    (b' : MediaBuffer) × (insert_media small m true ≡ some b')
    × (slot_at b'.slots 1
        ≡ some (record {
          buffer = some m;
          chunk_size = 22 + 100;
          header_size = 22;
          hop = 3;
          tries = 1;
          duration = 77;
          id = 2;
          available = true;
        }))
    × (is_available b' 1 ≡ some true)
    × ((j : ℕ) → j ≢ 1 → slot_at b'.slots j ≡ slot_at small.slots j)
insert_media-message_data_example =
    insert_media-message_data small zeros24 100 3 1 chunk 77 88 true (omega arith) (omega arith)
      (omega arith, omega arith) (omega arith, omega arith) (omega arith, omega arith) (omega arith)
