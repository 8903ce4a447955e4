-- ===== src/PeerData.antt =====
-- src/common/Peer.hpp, Peer.cpp, PeerData.hpp and PeerData.cpp: a peer and what is known of it.
-- An id "ip:port" and an IP are texts that these classes only compare, and that order the maps and
-- sets; a number stands for each. An `int` is an integer, and a `float` is its bit pattern.
use tvpp_dev_base.Base.{
  ℕ, ◌+◌, ◌-◌, ◌%◌, ◌^◌, Bool, List, if◌then◌else◌, ltb, Option, none, some, get_or, replicate,
  false,
}
use tvpp_dev_base.Base.Int.{ℤ, pos, pos_part, neg_part, pred_ℤ}
use tvpp_dev_base.ChunkUniqueId.{ChunkUniqueId, std_buffer_size}

pub record Peer : Type 0 where
  pub id : ℕ
  pub ip : ℕ
  pub size_out : ℤ
  pub size_out_free : ℤ
  pub size_out_old : ℤ
  pub size_out_old_free : ℤ
  pub limit_upload : ℤ

-- `ConstructorAux`, which sets the old sizes as the informed ones.
unfoldable pub make_peer : ℕ → ℕ → ℤ → ℤ → ℤ → Peer
make_peer id ip out out_free limit = record {
  id = id;
  ip = ip;
  size_out = out;
  size_out_free = out_free;
  size_out_old = out;
  size_out_old_free = out_free;
  limit_upload = limit;
}

-- `peer` is `none` where the pointer is NULL, as in the entries that `operator[]` of a map makes.
pub record PeerData : Type 0 where
  pub peer : Option Peer
  pub mode : ℕ
  pub chunk_map_head : ChunkUniqueId
  pub chunk_map : List Bool
  pub ttl_in : ℤ
  pub ttl_out : ℤ
  pub ttl_out_free : ℤ
  pub ttl_channel : ℤ
  pub peer_sent_chunks : ℕ
  pub hit_count : ℕ
  pub upload_score : ℤ
  pub pending_requests : ℤ
  pub delay : ℕ

-- TTLIn, TTLOut and TTLChannel of src/common/Defines.hpp.
abbrev pub ttl_max : ℤ
ttl_max = pos 10

-- The constructor with its default arguments. (`quality` is never used.)
unfoldable pub make_peer_data : Option Peer → PeerData
make_peer_data p = record {
  peer = p;
  mode = 0;
  chunk_map_head = record { position = 0; cycle = 0; buffer_size = std_buffer_size };
  chunk_map = replicate std_buffer_size false;
  ttl_in = ttl_max;
  ttl_out = ttl_max;
  ttl_out_free = ttl_max;
  ttl_channel = ttl_max;
  peer_sent_chunks = 0;
  hit_count = 0;
  upload_score = pos 0;
  pending_requests = pos 0;
  delay = 0;
}

-- The two's complement of an `int` that is added to a `uint32_t`.
abbrev pub to_u32 : ℤ → ℕ
to_u32 v = (pos_part v + (2 ^ 32 - neg_part v % 2 ^ 32)) % 2 ^ 32

unfoldable pub inc_peer_sent_chunks : PeerData → ℤ → PeerData
inc_peer_sent_chunks d v = record d { peer_sent_chunks = (d.peer_sent_chunks + to_u32 v) % 2 ^ 32 }

unfoldable pub set_peer_sent_chunks : PeerData → ℕ → PeerData
set_peer_sent_chunks d v = record d { peer_sent_chunks = v }

unfoldable pub get_ttl_out : PeerData → Bool → ℤ
get_ttl_out d free = if free then d.ttl_out_free else d.ttl_out

unfoldable pub set_ttl_in : PeerData → ℤ → PeerData
set_ttl_in d v = record d { ttl_in = v }

unfoldable pub set_ttl_out : PeerData → ℤ → Bool → PeerData
set_ttl_out d v free = if free then record d { ttl_out_free = v } else record d { ttl_out = v }

unfoldable pub set_ttl_channel : PeerData → ℤ → PeerData
set_ttl_channel d v = record d { ttl_channel = v }

unfoldable pub dec_ttl_in : PeerData → PeerData
dec_ttl_in d = record d { ttl_in = pred_ℤ d.ttl_in }

unfoldable pub dec_ttl_out : PeerData → Bool → PeerData
dec_ttl_out d free =
    if free
    then record d { ttl_out_free = pred_ℤ d.ttl_out_free }
    else record d { ttl_out = pred_ℤ d.ttl_out }

unfoldable pub dec_ttl_channel : PeerData → PeerData
dec_ttl_channel d = record d { ttl_channel = pred_ℤ d.ttl_channel }

unfoldable pub set_mode : PeerData → ℕ → PeerData
set_mode d v = record d { mode = v }

unfoldable pub set_chunk_map : PeerData → ChunkUniqueId → List Bool → PeerData
set_chunk_map d head bits = record d { chunk_map_head = head; chunk_map = bits }

-- A position outside the bitset is not checked by the code; here it reads as clear.
unfoldable pub get_chunk_map_pos : PeerData → ℕ → Bool
get_chunk_map_pos d i = get_or d.chunk_map i false

unfoldable pub set_hit_count : PeerData → ℕ → PeerData
set_hit_count d v = record d { hit_count = v }

unfoldable pub dec_hit_count : PeerData → PeerData
dec_hit_count d = if ltb 0 d.hit_count then record d { hit_count = d.hit_count - 1 } else d

-- The setters that go through the pointer to the peer; `none` is a call through NULL.
unfoldable pub set_size_out : PeerData → ℤ → Option PeerData
set_size_out d v = elim d.peer [
  | none ↦ none
  | some p ↦ some (record d { peer = some (record p { size_out = v }) })
]

unfoldable pub set_size_out_free : PeerData → ℤ → Option PeerData
set_size_out_free d v = elim d.peer [
  | none ↦ none
  | some p ↦ some (record d { peer = some (record p { size_out_free = v }) })
]

unfoldable pub set_size_out_old : PeerData → ℤ → Option PeerData
set_size_out_old d v = elim d.peer [
  | none ↦ none
  | some p ↦ some (record d { peer = some (record p { size_out_old = v }) })
]

unfoldable pub set_size_out_old_free : PeerData → ℤ → Option PeerData
set_size_out_old_free d v = elim d.peer [
  | none ↦ none
  | some p ↦ some (record d { peer = some (record p { size_out_old_free = v }) })
]

unfoldable pub get_size_out : PeerData → Option ℤ
get_size_out d = elim d.peer [ none ↦ none | some p ↦ some p.size_out ]

unfoldable pub get_size_out_free : PeerData → Option ℤ
get_size_out_free d = elim d.peer [ none ↦ none | some p ↦ some p.size_out_free ]

-- `GetPairStrInt`: the peer's id and the chunks that it sent.
unfoldable pub get_pair : PeerData → Option (ℕ × ℕ)
get_pair d = elim d.peer [ none ↦ none | some p ↦ some (p.id, d.peer_sent_chunks) ]
