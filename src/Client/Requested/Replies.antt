-- ===== src/Client/Requested/Replies.antt =====
-- The replies of `HandleRequestMessage` of src/client/client.cpp, as their receiver sees them.
use tvpp_dev_base.Base.{
  ℕ, ◌+◌, ◌*◌, ◌^◌, ◌≤◌, ◌<◌, ◌≡◌, refl, ◌∙◌, ◌⊎◌, inl, inr, true, false, ◌&&◌, ltb, leb, ◌==◌,
  some, List, [], ◌∷◌, length, arith, Bool-cases,
}
use tvpp_dev_base.Base.Sets.{contains}
use tvpp_dev_base.ChunkUniqueId.{ChunkUniqueId, IsValid, index, ge_id, difference}
use mathlib.Core.Path.{ap₂}
use tvpp_dev_base.ChunkUniqueId.Order.{lt_id-index, operators_agree}
use tvpp_dev_base.ChunkUniqueId.Difference.{difference-index, difference-buffer_size}
use tvpp_dev_base.Message.{get_opcode, get_header_values, check_integrity}
use tvpp_dev_base.Messages.{error, message_error}
use tvpp_dev_base.Messages.Sealed.{sealed_message}
use tvpp_dev_base.PeerManager.{is_peer_active}
use tvpp_dev_base.Client.{
  Client, Outbox, sealed_error, is_out_partner, is_within_cycle, handle_request,
}
use tvpp_dev_base.Client.Requested.{Holds, IsAnswer, handle_request_answers}

-- The chunk is not ahead of `latest` in the stream, and less than one turn of the buffer behind it.
abbrev pub IsBehind : ChunkUniqueId → ChunkUniqueId → Type 0
IsBehind latest chunk =
    (index chunk ≤ index latest) × (index latest < index chunk + chunk.buffer_size)

turn_le : (c s : ℕ) → 1 ≤ c → s ≤ c * s
turn_le c s h = grind arith

first_cycle :
    (d : ChunkUniqueId) (a b s : ℕ)
    → IsValid d
    → d.buffer_size ≡ s
    → index d + a ≡ b
    → d.cycle == 0 ≡ ltb b (a + s)
first_cycle d a b s v e h = elim (Bool-cases (d.cycle == 0)) [
  | inl t ↦
      let zero_cycle : d.cycle ≡ 0 = ground (arith, t) in
      let low : index d ≡ d.position = rw zero_cycle (omega arith) in
      ground (arith, t, low, v.in_buffer, e, h)
  | inr t ↦
      let high = turn_le d.cycle d.buffer_size (ground (arith, t)) in
      let above : a + s ≤ b = omega (arith, high, e, h) in ground (arith, t, above)
]

pub is_within_cycle-index :
    (latest chunk : ChunkUniqueId)
    → IsValid latest
    → IsValid chunk
    → latest.buffer_size ≡ chunk.buffer_size
    → is_within_cycle latest chunk
      ≡ (leb (index chunk) (index latest) && ltb (index latest) (index chunk + chunk.buffer_size))
unfolding is_within_cycle
is_within_cycle-index latest chunk v w e = elim (Bool-cases (ge_id latest chunk)) [
  | inr t ↦ ground (arith, t, ordered)
  | inl t ↦
      let ahead = difference-index latest chunk v w e t in
      ap₂ ◌&&◌ ordered (
        first_cycle (difference latest chunk) (index chunk) (index latest) chunk.buffer_size ahead.0
          (difference-buffer_size latest chunk ∙ e) ahead.1)
]
  where
    ordered : ge_id latest chunk ≡ leb (index chunk) (index latest)
    ordered = ground (arith, (operators_agree latest chunk).2, lt_id-index latest chunk v w e)

within-IsBehind :
    (latest chunk : ChunkUniqueId)
    → IsValid latest
    → IsValid chunk
    → latest.buffer_size ≡ chunk.buffer_size
    → is_within_cycle latest chunk ≡ true
    → IsBehind latest chunk
within-IsBehind latest chunk v w e h = ground (arith, is_within_cycle-index latest chunk v w e, h)

-- The test of the handler from the numbers of the chunks.
pub IsBehind-within :
    (latest chunk : ChunkUniqueId)
    → IsValid latest
    → IsValid chunk
    → latest.buffer_size ≡ chunk.buffer_size
    → IsBehind latest chunk
    → is_within_cycle latest chunk ≡ true
IsBehind-within latest chunk v w e h =
    is_within_cycle-index latest chunk v w e ∙ ground (arith, h.0, h.1)

-- A message that is read as the error of a code.
abbrev pub IsError : ℕ → List ℕ → Type 0
IsError code m =
    (check_integrity m ≡ true) × (get_opcode m ≡ 5) × (get_header_values (8 ∷ []) m ≡ code ∷ [])

sealed_error-IsError :
    (fresh : List ℕ) (code : ℕ)
    → 8 ≤ length fresh
    → code < 2 ^ 8
    → IsError code (sealed_error fresh code)
unfolding message_error
sealed_error-IsError fresh code room fits =
    let got = sealed_message error fresh 0 (code ∷ []) room (omega arith) refl (fits, tt) in
    (got.0, got.1, got.4)

-- A message to a peer in neither out list, and one to a peer in one of them.
abbrev pub IsReply : Client → ℕ → ChunkUniqueId → List ℕ → Type 0
IsReply c source chunk m =
    ((contains source c.peer_manager.active_out ≡ false)
      × (contains source c.peer_manager.active_out_free ≡ false)
      × IsError 6 m)
    ⊎ (((contains source c.peer_manager.active_out ≡ true)
          ⊎ (contains source c.peer_manager.active_out_free ≡ true))
        × ((IsError 4 m
              × ((m' : List ℕ)
                  → Holds c.media_buffer chunk.position m'
                  → ¬ IsBehind c.latest_received_position chunk))
            ⊎ (Holds c.media_buffer chunk.position m × IsBehind c.latest_received_position chunk)))

-- A handled request gets exactly one message, sent to its source. A peer that is in neither of the out
-- lists gets the sealed error 6, and a partner of one of them gets the message that the buffer holds and
-- offers at the position of the chunk, if the chunk is not ahead of the latest received one and less than
-- one turn of the buffer behind it; otherwise the sealed error 4. The media buffer and the peers are as
-- they were. The chunk and the latest received one are valid identifiers of one buffer, and an error has
-- room in the memory that it is made in.
pub handle_request_replies :
    (fresh : List ℕ) (c c' : Client) (source : ℕ) (chunk : ChunkUniqueId) (sent : Outbox)
    → handle_request fresh c source chunk ≡ some (c', sent)
    → IsValid c.latest_received_position
    → IsValid chunk
    → c.latest_received_position.buffer_size ≡ chunk.buffer_size
    → 8 ≤ length fresh
    → ((m : List ℕ) × (sent ≡ (source, m) ∷ []) × IsReply c source chunk m)
      × (c'.media_buffer ≡ c.media_buffer)
      × (c'.peer_manager ≡ c.peer_manager)
unfolding is_out_partner is_peer_active
handle_request_replies fresh c c' source chunk sent e v w same room =
    let got = handle_request_answers fresh c source chunk (c', sent) e in
    ((got.0.0, got.0.1, reply got.0.0 got.0.2), got.1, got.2)
  where
    reply : (m : List ℕ) → IsAnswer fresh c source chunk m → IsReply c source chunk m
    reply m (inl (p, i)) = inl (
      ground (arith, p),
      ground (arith, p),
      rw i (sealed_error-IsError fresh 6 room (omega arith)),
    )
    reply m (inr (p, inl (i, stale))) = inr (
      ground (arith, p),
      inl (
        rw i (sealed_error-IsError fresh 4 room (omega arith)),
        λ m' h r.
            ground (arith, stale m' h, IsBehind-within c.latest_received_position chunk v w same r),
      ),
    )
    reply m (inr (p, inr (h, r))) =
        inr
          (ground (arith, p), inr (h, within-IsBehind c.latest_received_position chunk v w same r))
