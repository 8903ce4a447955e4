-- ===== src/Request/Candidates.antt =====
-- The partners that `SearchPeers` of src/client/Request.cpp finds.
use tvpp_dev_base.Base.{
  ℕ, suc, ◌+◌, ◌≤◌, ◌<◌, ◌≡◌, refl, sym, ◌∙◌, ap, Bool, true, ◌||◌, not, if◌then◌else◌, Option,
  none, some, List, [], ◌∷◌, ◌++◌, arith, Bool-cases, inl, inr,
}
use mathlib.Core.List.{append-nil, append_assoc}
use tvpp_dev_base.Base.Int.{ℤ, leb_ℤ}
use tvpp_dev_base.Base.Sets.{Above, IsSorted, contains-below}
use tvpp_dev_base.Base.Maps.{keys, find, find-missing}
use tvpp_dev_base.ChunkUniqueId.{ChunkUniqueId, IsValid, ge_id, difference, index}
use tvpp_dev_base.ChunkUniqueId.Difference.{difference-index, difference-buffer_size}
use tvpp_dev_base.PeerData.{PeerData, get_chunk_map_pos}
use tvpp_dev_base.Request.{Request, add_candidate, can_answer, search_from, search_peers}

-- The partners that can answer, in their order.
abbrev kept : Bool → ℤ → ChunkUniqueId → List (ℕ × PeerData) → List (ℕ × PeerData)
kept block rate chunk [] = []
kept block rate chunk (e ∷ es) =
    if can_answer block rate chunk e.1
    then e ∷ kept block rate chunk es
    else kept block rate chunk es

search_from-kept :
    (block : Bool) (rate : ℤ) (r : Request) (es : List (ℕ × PeerData))
    → (search_from block rate r es).peers ≡ r.peers ++ kept block rate r.chunk_uid es
unfolding search_from add_candidate
search_from-kept block rate r [] = sym (append-nil r.peers)
search_from-kept block rate r (e ∷ es) = elim (Bool-cases (can_answer block rate r.chunk_uid e.1)) [
  | inl h ↦
      ap visited h
      ∙ search_from-kept block rate (add_candidate r e.0 e.1) es
      ∙ append_assoc r.peers (e ∷ []) (kept block rate r.chunk_uid es)
      ∙ ap left (sym h)
  | inr h ↦ ap visited h ∙ search_from-kept block rate r es ∙ ap left (sym h)
]
  where
    visited : Bool → List (ℕ × PeerData)
    visited b = (search_from block rate (if b then add_candidate r e.0 e.1 else r) es).peers

    left : Bool → List (ℕ × PeerData)
    left b =
        r.peers
        ++ (if b then e ∷ kept block rate r.chunk_uid es else kept block rate r.chunk_uid es)

-- The entry of a partner, if it can answer.
abbrev pub answering : Bool → ℤ → ChunkUniqueId → Option PeerData → Option PeerData
answering block rate chunk none = none
answering block rate chunk (some d) = if can_answer block rate chunk d then some d else none

find-kept :
    (b : ℕ) (block : Bool) (rate : ℤ) (chunk : ChunkUniqueId) (es : List (ℕ × PeerData)) (k : ℕ)
    → Above b (keys es)
    → find (kept block rate chunk es) k ≡ answering block rate chunk (find es k)
find-kept b block rate chunk [] k o = refl
find-kept b block rate chunk (e ∷ es) k o = ground (
  arith,
  find-kept (suc e.0) block rate chunk es k o.1,
  find-missing es k,
  contains-below k (suc e.0) (keys es) o.1,
)

-- `SearchPeers` finds exactly the active partners that can answer, and drops the earlier candidates.
pub search_peers-find :
    (block : Bool) (rate : ℤ) (r : Request) (active : List (ℕ × PeerData)) (k : ℕ)
    → IsSorted (keys active)
    → find (search_peers block rate r active).peers k
      ≡ answering block rate r.chunk_uid (find active k)
unfolding search_peers
search_peers-find block rate r active k o =
    ap (λ t. find t k) (search_from-kept block rate (record r { peers = [] }) active)
    ∙ find-kept 0 block rate r.chunk_uid active k o

answering-can_answer :
    (block : Bool) (rate : ℤ) (chunk : ChunkUniqueId) (o : Option PeerData) (d : PeerData)
    → answering block rate chunk o ≡ some d
    → can_answer block rate chunk d ≡ true
answering-can_answer block rate chunk none d e = absurd (ground arith)
answering-can_answer block rate chunk (some c) d e =
    elim (Bool-cases (can_answer block rate chunk c)) [
      | inl h ↦
          let same : c ≡ d = ground (arith, h) in ap (can_answer block rate chunk) (sym same) ∙ h
      | inr h ↦ absurd (ground (arith, h))
    ]

pub can_answer-parts :
    (block : Bool) (rate : ℤ) (chunk : ChunkUniqueId) (d : PeerData)
    → can_answer block rate chunk d ≡ true
    → (get_chunk_map_pos d chunk.position ≡ true)
      × (ge_id d.chunk_map_head chunk ≡ true)
      × ((difference d.chunk_map_head chunk).cycle ≡ 0)
      × ((not block || leb_ℤ d.pending_requests rate) ≡ true)
unfolding can_answer
can_answer-parts block rate chunk d h = ground arith

-- What a partner that can answer has, by the numbers of the chunks.
pub can_answer-HasChunk :
    (block : Bool) (rate : ℤ) (chunk : ChunkUniqueId) (d : PeerData)
    → can_answer block rate chunk d ≡ true
    → IsValid d.chunk_map_head
    → IsValid chunk
    → d.chunk_map_head.buffer_size ≡ chunk.buffer_size
    → (get_chunk_map_pos d chunk.position ≡ true)
      × (index chunk ≤ index d.chunk_map_head)
      × (index d.chunk_map_head < index chunk + chunk.buffer_size)
can_answer-HasChunk block rate chunk d h v w e =
    let parts = can_answer-parts block rate chunk d h in
    let ahead = difference-index d.chunk_map_head chunk v w e parts.1 in
    (
      parts.0,
      omega (arith, ahead.1),
      near (difference d.chunk_map_head chunk) (index chunk) (index d.chunk_map_head)
          chunk.buffer_size parts.2 ahead.0 (difference-buffer_size d.chunk_map_head chunk ∙ e)
          ahead.1,
    )
  where
    near :
        (c : ChunkUniqueId) (a b s : ℕ)
        → c.cycle ≡ 0
        → IsValid c
        → c.buffer_size ≡ s
        → index c + a ≡ b
        → b < a + s
    near c a b s z v e h =
        let low : index c ≡ c.position = rw z (omega arith) in omega (arith, low, v.in_buffer, e, h)

-- For valid identifiers of one buffer: a partner that `SearchPeers` found marks the position of the
-- chunk in its map, and its newest chunk is the requested one or a later one, less than one turn of
-- the buffer ahead.
pub search_peers-HasChunk :
    (block : Bool) (rate : ℤ) (r : Request) (active : List (ℕ × PeerData)) (k : ℕ) (d : PeerData)
    → IsSorted (keys active)
    → find (search_peers block rate r active).peers k ≡ some d
    → IsValid d.chunk_map_head
    → IsValid r.chunk_uid
    → d.chunk_map_head.buffer_size ≡ r.chunk_uid.buffer_size
    → (get_chunk_map_pos d r.chunk_uid.position ≡ true)
      × (index r.chunk_uid ≤ index d.chunk_map_head)
      × (index d.chunk_map_head < index r.chunk_uid + r.chunk_uid.buffer_size)
search_peers-HasChunk block rate r active k d o f v w e =
    can_answer-HasChunk block rate r.chunk_uid d
      (answering-can_answer block rate r.chunk_uid (find active k) d
        (sym (search_peers-find block rate r active k o) ∙ f))
      v w e
