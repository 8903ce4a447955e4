-- ===== src/Client/Ask/Sent.antt =====
-- The request message of `FazPedidos` of src/client/client.cpp: to whom it goes, and what it says.
use tvpp_dev_base.Base.{
  ℕ, ◌+◌, ◌^◌, ◌≤◌, ◌<◌, ◌≡◌, refl, ◌⊎◌, inl, inr, true, false, some, List, [], ◌∷◌, length, arith,
  Bool-cases,
}
use tvpp_dev_base.Base.Int.{leb_ℤ}
use tvpp_dev_base.Base.Sets.{contains}
use tvpp_dev_base.ChunkUniqueId.{ChunkUniqueId, IsValid, index}
use tvpp_dev_base.Message.{check_integrity, get_opcode, get_header_values}
use tvpp_dev_base.Messages.{request, request_sizes, request_values, message_request}
use tvpp_dev_base.Messages.Sealed.{sealed_message}
use tvpp_dev_base.PeerData.{PeerData, get_chunk_map_pos}
use tvpp_dev_base.PeerManager.{PeerManager, entry}
use tvpp_dev_base.Request.{Request}
use tvpp_dev_base.Request.Candidates.{can_answer-parts, can_answer-HasChunk}
use tvpp_dev_base.Connector.Filled.{Picks}
use tvpp_dev_base.Client.{Client, Outbox}
use tvpp_dev_base.Client.Ask.{Asking, ask_partner, sealed_request}
use tvpp_dev_base.Client.Ask.Sound.{CanAnswer, ask_partner-CanAnswer, ask_partner-total}
use tvpp_dev_base.Client.Dispatch.Sound.{IsSound}

-- A message that is read as a request for a chunk by a peer that plays `tip`.
abbrev pub IsRequestFor : ChunkUniqueId → ChunkUniqueId → List ℕ → Type 0
IsRequestFor chunk tip m =
    (check_integrity m ≡ true)
    × (get_opcode m ≡ 3)
    × (get_header_values request_sizes m
        ≡ chunk.cycle ∷ chunk.position ∷ tip.cycle ∷ tip.position ∷ [])

-- An entry whose map has the position of the chunk, whose newest chunk is not before it and less than one
-- turn of the buffer ahead, and that is no free rider's where these are blocked.
abbrev pub HasChunk : Asking → Client → ChunkUniqueId → PeerData → Type 0
HasChunk a c chunk d =
    (get_chunk_map_pos d chunk.position ≡ true)
    × (index chunk ≤ index d.chunk_map_head)
    × (index d.chunk_map_head < index chunk + chunk.buffer_size)
    × ((a.block_free_riders ≡ false) ⊎ (leb_ℤ d.pending_requests c.estimated_chunk_rate ≡ true))

-- The newest chunks of the partners are valid, and of the buffer of `chunk`.
abbrev pub HaveHeads : PeerManager → ChunkUniqueId → Type 0
HaveHeads p chunk =
    (k : ℕ)
    → contains k p.active_in ≡ true
    → IsValid (entry (p.peer_list k)).chunk_map_head
      × ((entry (p.peer_list k)).chunk_map_head.buffer_size ≡ chunk.buffer_size)

CanAnswer-HasChunk :
    (a : Asking) (c : Client) (r : Request) (k : ℕ)
    → CanAnswer a c r k
    → IsValid r.chunk_uid
    → HaveHeads c.peer_manager r.chunk_uid
    → HasChunk a c r.chunk_uid (entry (c.peer_manager.peer_list k))
CanAnswer-HasChunk a c r k (member, h) v heads =
    let d = entry (c.peer_manager.peer_list k) in
    let (valid, same) = heads k member in
    let (marked, le, lt) =
      can_answer-HasChunk a.block_free_riders c.estimated_chunk_rate r.chunk_uid d h valid v same in
    let parts = can_answer-parts a.block_free_riders c.estimated_chunk_rate r.chunk_uid d h in
    (
      marked,
      le,
      lt,
      elim (Bool-cases a.block_free_riders) [
        | inr t ↦ inl t
        | inl t ↦ inr (ground (arith, t, parts.3))
      ],
    )

sealed_request-IsRequestFor :
    (fresh : List ℕ) (c : Client) (chunk : ChunkUniqueId)
    → 18 ≤ length fresh
    → IsValid chunk
    → IsValid c.player_delivery_position
    → IsRequestFor chunk c.player_delivery_position (sealed_request fresh c chunk)
unfolding message_request
sealed_request-IsRequestFor fresh c chunk room v w =
    let tip = c.player_delivery_position in
    let got =
      sealed_message request fresh 0 (request_values chunk tip) room (omega arith) refl
        (v.cycle_u32, (below chunk v, (w.cycle_u32, (below tip w, tt)))) in
    (got.0, got.1, got.4)
  where
    below : (d : ChunkUniqueId) → IsValid d → d.position < 2 ^ 16
    below d u = omega (arith, u.in_buffer, u.size_u16)

-- A client of sound partners puts a request to one of them without a call through a NULL peer, if its
-- scheduler picks from the candidates, and sends at most one message. That goes to an active partner of the
-- in list whose map has the position of the chunk, whose newest chunk is not before it and less than one
-- turn of the buffer ahead, and which has not more pending requests than the chunk rate where free riders
-- are blocked. Its receiver finds the checksum valid, and reads a request for the chunk and the position of
-- the player. The partners stay sound. The chunk, that position and the newest chunks of the active
-- partners are valid identifiers, the chunk and the newest ones of one buffer, and there is room for the
-- header.
pub ask_partner_asks :
    (fresh : List ℕ) (a : Asking) (c : Client) (r : Request)
    → Picks a.scheduler
    → IsSound c.peer_manager
    → 18 ≤ length fresh
    → IsValid r.chunk_uid
    → IsValid c.player_delivery_position
    → HaveHeads c.peer_manager r.chunk_uid
    → (r' : Request) × (c' : Client) × (sent : Outbox) × (ask_partner fresh a c r
        ≡ some (r', (c', sent)))
      × IsSound c'.peer_manager
      × ((sent ≡ [])
          ⊎ ((k : ℕ) × (m : List ℕ) × (sent ≡ (k, m) ∷ [])
              × (contains k c.peer_manager.active_in ≡ true)
              × HasChunk a c r.chunk_uid (entry (c.peer_manager.peer_list k))
              × IsRequestFor r.chunk_uid c.player_delivery_position m))
ask_partner_asks fresh a c r picks s room v w heads =
    let (r', c', sent, e) = ask_partner-total fresh a c r picks s in
    let got = ask_partner-CanAnswer fresh a c c' r r' sent e picks s in
    (
      r',
      c',
      sent,
      e,
      got.0,
      elim got.1 [
        | inl f ↦ inl f
        | inr (k, can, f) ↦ inr (
          k,
          sealed_request fresh c r.chunk_uid,
          f,
          can.0,
          CanAnswer-HasChunk a c r k can v heads,
          sealed_request-IsRequestFor fresh c r.chunk_uid room v w,
        )
      ],
    )
