-- ===== src/Client/Data/Stored.antt =====
-- A chunk that `HandleDataMessage` of src/client/client.cpp accepts is stored, and `HandleRequestMessage`
-- then gives it to the partners that ask for it.
use tvpp_dev_base.Base.{
  ℕ, ◌+◌, ◌%◌, ◌^◌, ◌≤◌, ◌<◌, ◌≡◌, ◌≢◌, refl, ap, sym, ◌∙◌, ◌⊎◌, inl, inr, Bool, true, false, ◌==◌,
  none, ==→eq, ==→ne, if◌then◌else◌, some, List, [], ◌++◌, length, get_or, set, arith, Option-cases,
  get_or-set_self, get_or-set_ne, length-set, Bool-cases,
}
use tvpp_dev_base.ChunkUniqueId.{ChunkUniqueId, make, gt_id}
use tvpp_dev_base.Message.{
  get_header_values, set_integrity, split_header_values, IsBytes, check_integrity, get_header_size,
}
use tvpp_dev_base.Message.RoundTrip.{split_from-agree}
use tvpp_dev_base.Message.Integrity.{set_integrity-keeps, check-set_integrity, length-set_integrity}
use tvpp_dev_base.Message.Header.{getters-agree}
use tvpp_dev_base.Message.CodedByte.{set_coded_byte-set}
use tvpp_dev_base.Messages.{data_sizes, set_hop, set_tries}
use tvpp_dev_base.Messages.Classes.{set_hop-set_tries-values}
use tvpp_dev_base.PeerManager.{is_peer_active}
use tvpp_dev_base.MediaBuffer.{
  MediaBuffer, Slot, is_available, slot_at, slot_of, position_of, insert_media, is_null,
}
use tvpp_dev_base.MediaBuffer.Slots.{slot_at-set_self, slot_at-set_ne}
use tvpp_dev_base.Request.{Request}
use tvpp_dev_base.Client.{Client}
use tvpp_dev_base.Client.Requested.{Holds}
use tvpp_dev_base.Client.Data.{
  received_chunk, is_copy, get_id, take_request, forwarded, accept_data, receive_data, handle_data,
}
use tvpp_dev_base.Client.Data.Asked.{IsAsked, first-take_request, WasTried-has_attempt}
use tvpp_dev_base.Client.Data.Outcome.{accepted, heard_from}

abbrev values : List ℕ → List ℕ
values m = get_header_values data_sizes m

-- The seal is not one of the values.
values-set_integrity : (m : List ℕ) → values (set_integrity m) ≡ values m
unfolding get_header_values split_header_values
values-set_integrity m =
    split_from-agree (set_integrity m) m 6 0 data_sizes (λ i a. set_integrity-keeps m i (inr a))

set_tries-IsBytes :
    (m : List ℕ) (v : ℕ)
    → IsBytes m
    → 8 ≤ length m
    → v < 256
    → IsBytes (set_tries m v) × (8 ≤ length (set_tries m v))
unfolding set_tries
set_tries-IsBytes m v b room l =
    rw (set_coded_byte-set m 7 v b l) (cells, omega (arith, length-set m 7 v))
  where
    cells : (i : ℕ) → get_or (set m 7 v) i 0 < 256
    cells i = elim (Bool-cases (7 == i)) [
      | inl t ↦ rw (sym (==→eq 7 i t)) (omega (arith, get_or-set_self m 7 v 0 (omega arith)))
      | inr t ↦ omega (arith, get_or-set_ne m 7 i v 0 (==→ne 7 i t), b i)
    ]

byte_lt : (n : ℕ) → n % 2 ^ 8 < 2 ^ 8
byte_lt n = omega arith

-- The values of a message that is forwarded: a hop more, the tries of this node added, and the rest as
-- it came.
pub forwarded-values :
    (m : List ℕ) (n : ℕ)
    → IsBytes m
    → 8 ≤ length m
    → values (forwarded m n)
      ≡ set
          (set (values m) 1 ((get_or (values m) 1 0 + n) % 2 ^ 8))
          0
          ((get_or (values m) 0 0 + 1) % 2 ^ 8)
unfolding forwarded
forwarded-values m n b l =
    let tries = (get_or (values m) 1 0 + n) % 2 ^ 8 in
    let hop = (get_or (values m) 0 0 + 1) % 2 ^ 8 in
    let tried = set_tries-IsBytes m tries b l (byte_lt (get_or (values m) 1 0 + n)) in
    values-set_integrity (set_hop (set_tries m tries) hop)
    ∙ (set_hop-set_tries-values (set_tries m tries) hop tries tried.0 tried.1
        (byte_lt (get_or (values m) 0 0 + 1), byte_lt (get_or (values m) 1 0 + n))).0
    ∙ ap (λ v. set v 0 hop)
        (set_hop-set_tries-values m hop tries b l
          (byte_lt (get_or (values m) 0 0 + 1), byte_lt (get_or (values m) 1 0 + n))).1

-- It goes to the slot of its chunk.
forwarded-position :
    (m : List ℕ) (n : ℕ)
    → IsBytes m
    → 8 ≤ length m
    → position_of (forwarded m n) ≡ (received_chunk m).position
unfolding position_of received_chunk make
forwarded-position m n b l =
    let tries = (get_or (values m) 1 0 + n) % 2 ^ 8 in
    let hop = (get_or (values m) 0 0 + 1) % 2 ^ 8 in
    ap (λ v. get_or v 3 0 % 2 ^ 16) (forwarded-values m n b l)
    ∙ ap (λ p. p % 2 ^ 16)
        (get_or-set_ne (set (values m) 1 tries) 0 3 hop 0 (omega arith)
          ∙ get_or-set_ne (values m) 1 3 tries 0 (omega arith))

-- `Insert` by the slot that it writes.
insert_media-slot :
    (b b' : MediaBuffer) (m : List ℕ) (flag : Bool)
    → insert_media b m flag ≡ some b'
    → (slot_at b'.slots (position_of m) ≡ some (slot_of m flag))
      × ((j : ℕ) → j ≢ position_of m → slot_at b'.slots j ≡ slot_at b.slots j)
unfolding insert_media
insert_media-slot b b' m flag e = elim (Option-cases (slot_at b.slots (position_of m))) [
  | inl f ↦ absurd (ground (arith, rw (insert_media, f) at e))
  | inr (old, f) ↦
      let same : b' ≡ record {
        slots = set b.slots (position_of m) (slot_of m flag);
        buffer_size = if is_null old.buffer then (b.buffer_size + 1) % 2 ^ 16 else b.buffer_size;
      } =
        ground (arith, rw (insert_media, f) at e) in
      rw same (
        slot_at-set_self b.slots (position_of m) (slot_of m flag) old f,
        λ j n. slot_at-set_ne b.slots (position_of m) j (slot_of m flag) n,
      )
]

-- A message as this node passes it on: with a hop more, its `n` attempts added to the tries, a valid
-- checksum, and the other header values and the rest of the bytes as they came.
abbrev pub IsForwarded : List ℕ → ℕ → List ℕ → Type 0
IsForwarded m n m' =
    (check_integrity m' ≡ true)
    × (values m'
        ≡ set (set (values m) 1 ((get_or (values m) 1 0 + n) % 2 ^ 8)) 0
            ((get_or (values m) 0 0 + 1) % 2 ^ 8))
    × (length m' ≡ length m)
    × ((i : ℕ) → (i < 4) ⊎ (8 ≤ i) → get_or m' i 0 ≡ get_or m i 0)

hop_tries-set :
    (m : List ℕ) (hop tries : ℕ)
    → IsBytes m
    → 8 ≤ length m
    → hop < 256
    → tries < 256
    → set_hop (set_tries m tries) hop ≡ set (set m 7 tries) 6 hop
unfolding set_hop set_tries
hop_tries-set m hop tries b l h t =
    set_coded_byte-set (set_tries m tries) 6 hop (set_tries-IsBytes m tries b l t).0 h
    ∙ ap (λ cells. set cells 6 hop) (set_coded_byte-set m 7 tries b t)

set_cells-keeps :
    (m : List ℕ) (hop tries i : ℕ)
    → (i < 4) ⊎ (8 ≤ i)
    → get_or (set (set m 7 tries) 6 hop) i 0 ≡ get_or m i 0
set_cells-keeps m hop tries i o =
    get_or-set_ne (set m 7 tries) 6 i hop 0 (omega (arith, o))
    ∙ get_or-set_ne m 7 i tries 0 (omega (arith, o))

pub forwarded-IsForwarded :
    (m : List ℕ) (n : ℕ)
    → IsBytes m
    → 8 ≤ length m
    → 6 ≤ get_header_size m
    → IsForwarded m n (forwarded m n)
unfolding forwarded
forwarded-IsForwarded m n b l h =
    let tries = (get_or (values m) 1 0 + n) % 2 ^ 8 in
    let hop = (get_or (values m) 0 0 + 1) % 2 ^ 8 in
    let cells =
      hop_tries-set m hop tries b l (byte_lt (get_or (values m) 0 0 + 1))
        (byte_lt (get_or (values m) 1 0 + n)) in
    let long = length-set (set m 7 tries) 6 hop ∙ length-set m 7 tries in
    (
      rw cells (
          check-set_integrity (set (set m 7 tries) 6 hop) (omega (arith, long, l)) (
            omega (
              arith,
              h,
              (getters-agree (set (set m 7 tries) 6 hop) m
                  (λ i a. set_cells-keeps m hop tries i (inl a))).1,
            ))),
      forwarded-values m n b l,
      length-set_integrity (set_hop (set_tries m tries) hop) ∙ ap length cells ∙ long,
      λ i o.
          set_integrity-keeps (set_hop (set_tries m tries) hop) i (omega (arith, o))
          ∙ ap (λ t. get_or t i 0) cells
          ∙ set_cells-keeps m hop tries i o,
    )

-- The buffer lacks the chunk: it offers nothing at that position, or what the slot has is of an earlier
-- cycle; and the slot is not of a later cycle.
abbrev pub IsNew : MediaBuffer → ChunkUniqueId → Type 0
IsNew b chunk =
    (s : Slot) × (slot_at b.slots chunk.position ≡ some s)
    × (s.id ≤ chunk.cycle)
    × ((s.buffer ≡ none) ⊎ (s.available ≡ false) ⊎ (s.id < chunk.cycle))

IsNew-is_copy :
    (b : MediaBuffer) (chunk : ChunkUniqueId) → IsNew b chunk → is_copy b chunk ≡ some false
unfolding is_copy is_available get_id
IsNew-is_copy b chunk (s, f, l, o) = ground (arith, f, l, o)

insert_media-total :
    (b : MediaBuffer) (m : List ℕ) (flag : Bool) (s : Slot)
    → slot_at b.slots (position_of m) ≡ some s
    → (b' : MediaBuffer) × (insert_media b m flag ≡ some b')
unfolding insert_media
insert_media-total b m flag s f = (
  record {
    slots = set b.slots (position_of m) (slot_of m flag);
    buffer_size = if is_null s.buffer then (b.buffer_size + 1) % 2 ^ 16 else b.buffer_size;
  },
  rw (insert_media, f) refl,
)

-- The client after a chunk that answers a request: the message is in the slot of the chunk and on offer.
abbrev pub IsStored : Client → ChunkUniqueId → List Request → List ℕ → Client → Type 0
IsStored c chunk left media c' =
    Holds c'.media_buffer chunk.position media
    × ((j : ℕ)
        → j ≢ chunk.position
        → slot_at c'.media_buffer.slots j ≡ slot_at c.media_buffer.slots j)
    × (c'.latest_received_position
        ≡ (if gt_id chunk c.latest_received_position then chunk else c.latest_received_position))
    × (c'.request_list ≡ left)
    × (c'.peer_manager.active_out ≡ c.peer_manager.active_out)
    × (c'.peer_manager.active_out_free ≡ c.peer_manager.active_out_free)

pub handle_data-stores :
    (fresh : List ℕ) (c : Client) (source : ℕ) (m : List ℕ) (delay : ℕ) (before : List Request)
    (r : Request) (later : List Request)
    → IsAsked c source (received_chunk m) before r later
    → IsNew c.media_buffer (received_chunk m)
    → IsBytes m
    → 8 ≤ length m
    → 6 ≤ get_header_size m
    → (c' : Client) × (media : List ℕ) × (handle_data fresh c source m delay ≡ some (c', []))
      × IsForwarded m (length r.attempts) media
      × IsStored c (received_chunk m) (before ++ later) media c'
unfolding handle_data receive_data accept_data is_peer_active slot_of
handle_data-stores fresh c source m delay before r later a n b l h =
    let media = forwarded m (length r.attempts) in
    let chunk = received_chunk m in
    let there = forwarded-position m (length r.attempts) b l in
    let written =
      insert_media-total c.media_buffer media true n.0
        (ap (slot_at c.media_buffer.slots) there ∙ n.1) in
    let slots = rw there at (insert_media-slot c.media_buffer written.0 media true written.1) in
    let new = IsNew-is_copy c.media_buffer chunk n in
    let found : take_request c.request_list chunk ≡ some (r, before ++ later) =
      ap (λ rs. take_request rs chunk) a.listed
      ∙ first-take_request before later chunk r a.names a.is_first in
    let tried = WasTried-has_attempt r.attempts source a.tried in
    (
      accepted (heard_from c source) source m delay r (before ++ later) written.0,
      media,
      rw
          (
            handle_data, is_peer_active, a.is_partner, receive_data, new, found, tried, accept_data,
            written.1,
          )
          refl,
      forwarded-IsForwarded m (length r.attempts) b l h,
      ((slot_of media true, slots.0, refl, refl), slots.1, refl, refl, refl, refl),
    )
