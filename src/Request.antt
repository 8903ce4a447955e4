-- ===== src/Request.antt =====
-- src/client/Request.hpp, Request.cpp and RequestAttempt.cpp: the request for a chunk, and the partners
-- that can answer it. A `PeerData*` is the key of the entry that it points to, with the entry. `none`
-- as the result of an operation is a call through a NULL peer.
pub mod Candidates
mod Tests
use tvpp_dev_base.Base.{
  ℕ, ◌+◌, Bool, true, false, ◌&&◌, ◌||◌, not, ◌==◌, if◌then◌else◌, Option, none, some, List, [],
  ◌∷◌, ◌++◌, length,
}
use tvpp_dev_base.Base.Int.{ℤ, pos, neg_part, pos_part, sub_ℕ, leb_ℤ}
use tvpp_dev_base.ChunkUniqueId.{ChunkUniqueId, ge_id, difference}
use tvpp_dev_base.PeerData.{Peer, PeerData, get_chunk_map_pos}

pub record RequestAttempt : Type 0 where
  pub chosen_peer_id : ℕ
  pub last_registered_delay : ℕ
  pub candidates : ℕ

pub record Request : Type 0 where
  pub peers : List (ℕ × PeerData)
  pub chunk_uid : ChunkUniqueId
  pub ttl : ℤ
  pub attempts : List RequestAttempt

unfoldable pub make_request : ChunkUniqueId → Request
make_request chunk = record { peers = []; chunk_uid = chunk; ttl = pos 500; attempts = [] }

unfoldable pub add_candidate : Request → ℕ → PeerData → Request
add_candidate r k d = record r { peers = r.peers ++ (k, d) ∷ [] }

-- The loop of `RemovePeer`, which erases the first that is equal.
unfoldable pub without_first : ℕ → List (ℕ × PeerData) → List (ℕ × PeerData)
without_first k [] = []
without_first k (e ∷ es) = if k == e.0 then es else e ∷ without_first k es

unfoldable pub remove_candidate : Request → ℕ → Request
remove_candidate r k = record r { peers = without_first k r.peers }

-- `Strategy::Execute`
abbrev pub execute_on :
    (List (ℕ × PeerData) → List (ℕ × PeerData)) → List (ℕ × PeerData) → List (ℕ × PeerData)
execute_on select [] = []
execute_on select (e ∷ es) = select (e ∷ es)

abbrev pub first_peer : List (ℕ × PeerData) → Option Peer
first_peer [] = none
first_peer (e ∷ es) = e.1.peer

-- `GetPeer`: what the strategy makes of the candidates, and the peer of the first.
unfoldable pub choose_peer :
    (List (ℕ × PeerData) → List (ℕ × PeerData)) → Request → Option Peer × Request
choose_peer select r =
    let chosen = execute_on select r.peers in (first_peer chosen, record r { peers = chosen })

-- The tests of `SearchPeers` on a partner: the chunk in its map, a head that is at most one cycle
-- ahead, and few pending requests where free riders are blocked. `rate` is the estimated chunk rate.
unfoldable pub can_answer : Bool → ℤ → ChunkUniqueId → PeerData → Bool
can_answer block_free_riders rate chunk d =
    if get_chunk_map_pos d chunk.position
    then if ge_id d.chunk_map_head chunk && (difference d.chunk_map_head chunk).cycle == 0
      then not block_free_riders || leb_ℤ d.pending_requests rate
      else false
    else false

-- The loop of `SearchPeers` over the active partners.
unfoldable pub search_from : Bool → ℤ → Request → List (ℕ × PeerData) → Request
unfolding add_candidate
search_from block rate r [] = r
search_from block rate r (e ∷ es) =
    search_from block rate
      (if can_answer block rate r.chunk_uid e.1 then add_candidate r e.0 e.1 else r) es

unfoldable pub search_peers : Bool → ℤ → Request → List (ℕ × PeerData) → Request
unfolding search_from
search_peers block rate r active = search_from block rate (record r { peers = [] }) active

unfoldable pub set_request_ttl : Request → ℤ → Request
set_request_ttl r ttl = record r { ttl = ttl }

-- `ttl -= diffTtl`
unfoldable pub dec_request_ttl : Request → ℤ → Request
dec_request_ttl r diff = record r {
  ttl = sub_ℕ (pos_part r.ttl + neg_part diff) (neg_part r.ttl + pos_part diff);
}

-- `CreateAttempt`; the time of the attempt is not kept.
unfoldable pub create_attempt : Request → PeerData → Option Request
create_attempt r d = elim d.peer [
  | none ↦ none
  | some p ↦ some (record r {
    attempts =
        r.attempts
        ++ record {
          chosen_peer_id = p.id;
          last_registered_delay = d.delay;
          candidates = length r.peers;
        }
          ∷ [];
  })
]
