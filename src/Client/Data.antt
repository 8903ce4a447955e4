-- ===== src/Client/Data.antt =====
-- `HandleDataMessage` of src/client/client.cpp: a chunk arrives.
pub mod Asked
pub mod Outcome
pub mod Stored
pub mod Passed
use tvpp_dev_base.Base.{
  ℕ, ◌+◌, ◌%◌, ◌^◌, Bool, true, false, ◌&&◌, ◌||◌, ◌==◌, ltb, if◌then◌else◌, Option, none, some,
  List, [], ◌∷◌, length, get_or,
}
use tvpp_dev_base.Base.Int.{ℤ, pred_ℤ}
use tvpp_dev_base.ChunkUniqueId.{ChunkUniqueId, make, std_buffer_size, eq_id, gt_id}
use tvpp_dev_base.Message.{get_header_values, set_integrity}
use tvpp_dev_base.Messages.{data_sizes, set_hop, set_tries}
use tvpp_dev_base.PeerData.{PeerData}
use tvpp_dev_base.PeerManager.{PeerManager, ins, is_peer_active, entry, set_entry}
use tvpp_dev_base.MediaBuffer.{MediaBuffer, slot_at, is_available, insert_media}
use tvpp_dev_base.Request.{Request, RequestAttempt}
use tvpp_dev_base.Client.{Client, Outbox, sealed_error, error_no_partnership}

-- The chunk that a data message carries.
unfoldable pub received_chunk : List ℕ → ChunkUniqueId
received_chunk m =
    let h = get_header_values data_sizes m in
    make (get_or h 2 0) (get_or h 3 0 % 2 ^ 16) std_buffer_size

-- `GetID`
unfoldable pub get_id : MediaBuffer → ℕ → Option ℕ
get_id b i = elim (slot_at b.slots i) [ none ↦ none | some s ↦ some s.id ]

-- Whether the chunk is a copy of one that the buffer has, or older than what its slot last had.
unfoldable pub is_copy : MediaBuffer → ChunkUniqueId → Option Bool
is_copy b chunk = elim (is_available b chunk.position) [
  | none ↦ none
  | some available ↦ elim (get_id b chunk.position) [
    | none ↦ none
    | some id ↦ some (available && chunk.cycle == id || ltb chunk.cycle id)
  ]
]

-- The first request for a chunk, and the list without it.
unfoldable pub take_request : List Request → ChunkUniqueId → Option (Request × List Request)
take_request [] chunk = none
take_request (r ∷ rs) chunk =
    let later = take_request rs chunk in
    if eq_id r.chunk_uid chunk
    then some (r, rs)
    else elim later [ none ↦ none | some (found, rest) ↦ some (found, r ∷ rest) ]

-- Whether one of the attempts was made with the peer.
unfoldable pub has_attempt : List RequestAttempt → ℕ → Bool
has_attempt [] source = false
has_attempt (a ∷ later) source = source == a.chosen_peer_id || has_attempt later source

-- An entry of the old requests, by the chunk, written.
unfoldable pub put_old_request :
    List (ChunkUniqueId × Request) → ChunkUniqueId → Request → List (ChunkUniqueId × Request)
put_old_request [] k r = (k, r) ∷ []
put_old_request (e ∷ m) k r = if eq_id e.0 k then (e.0, r) ∷ m else e ∷ put_old_request m k r

-- The change of an entry through the pointer that `GetPeerData` returns.
abbrev pub modify_peer : Client → ℕ → (PeerData → PeerData) → Client
modify_peer c k f = record c {
  peer_manager = set_entry c.peer_manager k (f (entry (c.peer_manager.peer_list k)));
}

abbrev pub dec_pending_requests : PeerData → PeerData
dec_pending_requests d = record d { pending_requests = pred_ℤ d.pending_requests }

-- The message as it is stored: with the attempts of this node counted, and a hop more.
unfoldable pub forwarded : List ℕ → ℕ → List ℕ
forwarded m attempts =
    let h = get_header_values data_sizes m in
    set_integrity
      (set_hop (set_tries m ((get_or h 1 0 + attempts) % 2 ^ 8)) ((get_or h 0 0 + 1) % 2 ^ 8))

-- A chunk with the request and the attempt that it answers. `delay` is the measured time.
unfoldable pub accept_data : Client → ℕ → List ℕ → ℕ → Request → List Request → Option Client
accept_data c source m delay r rest =
    let chunk = received_chunk m in
    let moved = record c {
      request_list = rest;
      old_request_list = put_old_request c.old_request_list r.chunk_uid r;
    } in
    let timed = modify_peer moved source (λ d. record d { delay = delay }) in
    elim (insert_media c.media_buffer (forwarded m (length r.attempts)) true) [
      | none ↦ none
      | some b ↦ some (record timed {
        media_buffer = b;
        latest_received_position =
            if gt_id chunk c.latest_received_position then chunk else c.latest_received_position;
      })
    ]

-- A chunk from a partner.
unfoldable pub receive_data : Client → ℕ → List ℕ → ℕ → Option Client
receive_data c source m delay =
    let chunk = received_chunk m in
    elim (is_copy c.media_buffer chunk) [
      | none ↦ none
      | some true ↦ some (record c { chunks_overload = c.chunks_overload + 1 })
      | some false ↦ elim (take_request c.request_list chunk) [
        | none ↦ some c
        | some (r, rest) ↦
            if has_attempt r.attempts source then accept_data c source m delay r rest else some c
      ]
    ]

-- `HandleDataMessage`
unfoldable pub handle_data : List ℕ → Client → ℕ → List ℕ → ℕ → Option (Client × Outbox)
handle_data fresh c source m delay =
    if is_peer_active c.peer_manager source ins
    then elim (receive_data (modify_peer c source dec_pending_requests) source m delay) [
      | none ↦ none
      | some c' ↦ some (c', [])
    ]
    else some (c, (source, sealed_error fresh error_no_partnership) ∷ [])
