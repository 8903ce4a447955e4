-- ===== src/Request/Tests.antt =====
-- The theorems on requests at concrete partners.
use tvpp_dev_base.Base.{ℕ, ◌+◌, ◌≤◌, ◌<◌, ◌≡◌, refl, true, false, some, List, [], ◌∷◌, arith}
use tvpp_dev_base.Base.Int.{pos}
use tvpp_dev_base.Base.Maps.{keys, find}
use tvpp_dev_base.Base.Sets.{IsSorted}
use tvpp_dev_base.ChunkUniqueId.{IsValid, index, ge_id, difference}
use tvpp_dev_base.PeerData.{PeerData, get_chunk_map_pos, ttl_max}
use tvpp_dev_base.Request.{Request, can_answer, search_from, search_peers, add_candidate}
use tvpp_dev_base.Request.Candidates.{search_peers-HasChunk}

-- A partner with the second and the third of four positions, and its newest chunk at a position.
abbrev partner : ℕ → ℕ → PeerData
partner k newest = record {
  peer = some (record {
    id = k;
    ip = k;
    size_out = pos 1;
    size_out_free = pos 0;
    size_out_old = pos 1;
    size_out_old_free = pos 0;
    limit_upload = pos 9;
  });
  mode = 1;
  chunk_map_head = record { position = newest; cycle = 2; buffer_size = 4 };
  chunk_map = false ∷ true ∷ true ∷ false ∷ [];
  ttl_in = ttl_max;
  ttl_out = ttl_max;
  ttl_out_free = ttl_max;
  ttl_channel = ttl_max;
  peer_sent_chunks = 0;
  hit_count = 0;
  upload_score = pos 0;
  pending_requests = pos 0;
  delay = 0;
}

abbrev request : Request
request = record {
  peers = [];
  chunk_uid = record { position = 1; cycle = 2; buffer_size = 4 };
  ttl = pos 500;
  attempts = [];
}

abbrev partners : List (ℕ × PeerData)
partners = (5, partner 5 2) ∷ (6, partner 6 0) ∷ []

partners-IsSorted : IsSorted (keys partners)
partners-IsSorted = (omega arith, (omega arith, tt))

found : find (search_peers true (pos 3) request partners).peers 5 ≡ some (partner 5 2)
unfolding search_peers search_from can_answer add_candidate get_chunk_map_pos ge_id difference
found = refl

head-IsValid : IsValid (partner 5 2).chunk_map_head
head-IsValid = omega arith

chunk-IsValid : IsValid request.chunk_uid
chunk-IsValid = omega arith

search_peers-HasChunk_example :
    (get_chunk_map_pos (partner 5 2) 1 ≡ true)
    × (index request.chunk_uid ≤ index (partner 5 2).chunk_map_head)
    × (index (partner 5 2).chunk_map_head < index request.chunk_uid + 4)
search_peers-HasChunk_example =
    search_peers-HasChunk true (pos 3) request partners 5 (partner 5 2) partners-IsSorted found
      head-IsValid chunk-IsValid refl
