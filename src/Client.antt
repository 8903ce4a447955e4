-- ===== src/Client.antt =====
-- src/client/client.hpp and client.cpp: the client, which asks its partners for the chunks of the stream,
-- plays them, and answers the requests of others. A handler runs as one step here. `none` as a result is
-- undefined behaviour, as in the parts that the client is made of. The log files, the means of the
-- statistics, and the threads and sockets are not modelled; counters of type `int` are numbers.
pub mod Bits
pub mod Requested
pub mod Data
pub mod Pings
pub mod Ask
pub mod Play
pub mod Share
pub mod Dispatch
mod Tests
use tvpp_dev_base.Base.{
  ℕ, ◌+◌, ◌%◌, ◌^◌, Bool, true, false, ◌&&◌, ◌||◌, ◌==◌, if◌then◌else◌, Option, none, some, List,
  [], ◌∷◌, get_or,
}
use tvpp_dev_base.Base.Int.{ℤ}
use tvpp_dev_base.ChunkUniqueId.{ChunkUniqueId, make, std_buffer_size, ge_id, difference}
use tvpp_dev_base.Message.{get_header_values, set_integrity}
use tvpp_dev_base.Messages.{request_sizes, message_error}
use tvpp_dev_base.PeerManager.{PeerManager, outs, outs_free, is_peer_active}
use tvpp_dev_base.MediaBuffer.{MediaBuffer, Slot, slot_at, is_available, get_media}
use tvpp_dev_base.Request.{Request}

pub record Client : Type 0 where
  pub peer_mode : ℕ
  pub buffer_size : ℕ
  pub ttl_max_in : ℤ
  pub ttl_max_out : ℤ
  pub max_request_attempt : ℤ
  pub tip_offset_time : ℤ
  pub peer_manager : PeerManager
  pub media_buffer : MediaBuffer
  pub request_list : List Request
  pub old_request_list : List (ChunkUniqueId × Request)
  pub receive_request_position : Bool
  pub server_active : Bool
  pub player_buffer_duration : ℕ
  pub request_position : ChunkUniqueId
  pub latest_received_position : ChunkUniqueId
  pub player_delivery_position : ChunkUniqueId
  pub last_media_id : Option ChunkUniqueId
  pub chunks_gen : ℕ
  pub chunks_sent : ℕ
  pub chunks_recv : ℕ
  pub chunks_overload : ℕ
  pub requests_sent : ℕ
  pub requests_recv : ℕ
  pub request_retries : ℕ
  pub chunks_missed : ℤ
  pub chunks_played : ℕ
  pub download_per_sec_done : ℕ
  pub upload_per_sec_done : ℕ
  pub tries_per_request : List ℕ
  pub estimated_chunk_rate : ℤ

-- What is put into the queue of the sender: an id and the bytes of a message.
abbrev pub Outbox : Type 0
Outbox = List (ℕ × List ℕ)

-- ERROR_CHUNK_UNAVAILABLE and ERROR_NO_PARTNERSHIP of src/common/Defines.hpp.
abbrev pub error_chunk_unavailable : ℕ
error_chunk_unavailable = 4

abbrev pub error_no_partnership : ℕ
error_no_partnership = 6

-- An error message with its checksum, in the memory `fresh`.
abbrev pub sealed_error : List ℕ → ℕ → List ℕ
sealed_error fresh code = set_integrity (message_error fresh code)

-- The chunk that a request names.
unfoldable pub requested_chunk : List ℕ → ChunkUniqueId
requested_chunk m =
    let h = get_header_values request_sizes m in
    make (get_or h 0 0) (get_or h 1 0 % 2 ^ 16) std_buffer_size

-- Whether a request comes from a partner in one of the two out lists.
unfoldable pub is_out_partner : PeerManager → ℕ → Bool
is_out_partner p source = is_peer_active p source outs || is_peer_active p source outs_free

-- `GetChunkSize`
unfoldable pub get_chunk_size : MediaBuffer → ℕ → Option ℕ
get_chunk_size b i = elim (slot_at b.slots i) [ none ↦ none | some s ↦ some s.chunk_size ]

-- The test of a request for a chunk that the buffer has: not ahead of what was received, and at most one
-- cycle behind it.
unfoldable pub is_within_cycle : ChunkUniqueId → ChunkUniqueId → Bool
is_within_cycle latest chunk = ge_id latest chunk && (difference latest chunk).cycle == 0

-- The reply to a partner. A NULL message is not sent.
unfoldable pub reply_chunk : List ℕ → Client → ℕ → ChunkUniqueId → Option (Client × Outbox)
reply_chunk fresh c source chunk = elim (is_available c.media_buffer chunk.position) [
  | none ↦ none
  | some available ↦
      if available && is_within_cycle c.latest_received_position chunk
      then elim (get_chunk_size c.media_buffer chunk.position) [
        | none ↦ none
        | some size ↦ elim (get_media c.media_buffer chunk.position) [
          | none ↦ none
          | some media ↦ some (
            record c { upload_per_sec_done = (c.upload_per_sec_done + size) % 2 ^ 32 },
            elim media [ none ↦ [] | some m ↦ (source, m) ∷ [] ],
          )
        ]
      ]
      else some (c, (source, sealed_error fresh error_chunk_unavailable) ∷ [])
]

-- `HandleRequestMessage` on the chunk that the message names.
unfoldable pub handle_request : List ℕ → Client → ℕ → ChunkUniqueId → Option (Client × Outbox)
handle_request fresh c source chunk =
    let counted = record c { requests_recv = c.requests_recv + 1 } in
    if is_out_partner c.peer_manager source
    then reply_chunk fresh counted source chunk
    else some (counted, (source, sealed_error fresh error_no_partnership) ∷ [])

-- `HandleErrorMessage`: whether the program ends. The codes 1 to 3 are ERROR_INVALID_CLIENT_VERSION,
-- ERROR_CHANNEL_CANT_BE_CREATED and ERROR_CHANNEL_UNAVAILABLE.
unfoldable pub handle_error : Client → ℕ → Client × Bool
handle_error c code =
    if code == 1
    then (c, true)
    else if code == 3
    then (record c { server_active = false }, true)
    else if code == 2
    then (c, true)
    else (c, false)
