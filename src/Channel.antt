-- ===== src/Channel.antt =====
-- src/common/Channel.hpp and Channel.cpp: the peers of a channel, as the bootstrap server keeps them.
-- `none` as the result of an operation is undefined behaviour: a call through a NULL pointer, or an
-- iterator past the end. An entry's `peer` is the object that the caller passes, so a write through it
-- is a write to the entry.
pub mod Members
pub mod Expiry
pub mod Selection
pub mod Create
pub mod Named
pub mod Renew
mod Tests
use tvpp_dev_base.Base.{
  ℕ, zero, suc, ◌+◌, ◌-◌, Bool, true, false, ◌&&◌, ◌||◌, not, ltb, leb, ◌==◌, if◌then◌else◌, Option,
  none, some, List, [], ◌∷◌, length,
}
use tvpp_dev_base.Base.Int.{ℤ, pos, negsuc, ltb_ℤ, leb_ℤ}
use tvpp_dev_base.Base.Maps.{find, assign, erase_entry, erase_each}
use tvpp_dev_base.ChunkUniqueId.{ChunkUniqueId}
use tvpp_dev_base.PeerData.{
  Peer, PeerData, make_peer_data, set_hit_count, dec_ttl_channel, set_size_out, set_size_out_free,
  set_size_out_old, set_size_out_old_free, get_size_out, get_size_out_free,
}

pub record TopologyData : Type 0 where
  pub join_minimum_bandwidth : ℤ
  pub in_size : ℤ
  pub out : ℤ
  pub out_free : ℤ
  pub percent_of_peer : ℤ

pub data TopologyClass : Type 0 where
  class_a class_b class_c class_d : TopologyClass

-- The state of a channel, less its log files. The rate of the stream is the pattern of an `int`.
pub record Channel : Type 0 where
  pub channel_id : ℕ
  pub server : Option Peer
  pub peer_list : List (ℕ × PeerData)
  pub class_topology_settings : List (TopologyClass × TopologyData)
  pub dynamic_topology_arrangement : Bool
  pub indicate_class_position : Bool
  pub server_newest_chunk_id : ChunkUniqueId
  pub server_estimated_stream_rate : ℕ
  pub creation_time : ℕ
  pub first_time_overlay : Bool
  pub peer_percent_change_allowed : ℕ

abbrev pub same_class : TopologyClass → TopologyClass → Bool
same_class class_a class_a = true
same_class class_b class_b = true
same_class class_c class_c = true
same_class class_d class_d = true
same_class j k = false

-- `classTopologySettings[k]`, which is made of zeros if it is missing.
abbrev pub settings_of : List (TopologyClass × TopologyData) → TopologyClass → TopologyData
settings_of [] k = record {
  join_minimum_bandwidth = pos 0;
  in_size = pos 0;
  out = pos 0;
  out_free = pos 0;
  percent_of_peer = pos 0;
}
settings_of (e ∷ s) k = if same_class k e.0 then e.1 else settings_of s k

-- `SugestedClass`: `some none` is the class `error`. Where there are settings, the first step of its
-- loop reads the entry at `end()`.
unfoldable pub suggested_class : List (TopologyClass × TopologyData) → Option (Option TopologyClass)
suggested_class [] = some none
suggested_class (e ∷ s) = none

-- The four setters that `AddPeer` calls with the sizes of a class.
unfoldable pub set_class_sizes : TopologyData → PeerData → Option PeerData
set_class_sizes t d = elim (set_size_out d t.out) [
  | none ↦ none
  | some d1 ↦ elim (set_size_out_free d1 t.out_free) [
    | none ↦ none
    | some d2 ↦ elim (set_size_out_old d2 t.out) [
      | none ↦ none
      | some d3 ↦ set_size_out_old_free d3 t.out_free
    ]
  ]
]

abbrev pub is_zero : ℤ → Bool
is_zero (pos n) = n == 0
is_zero (negsuc n) = false

-- Whether the peer of an entry gets a class: a peer other than the server that uploads and has no out
-- list yet. `none` if there is no server to compare with.
unfoldable pub is_first_connection : Channel → Peer → Option Bool
is_first_connection c p =
    if c.dynamic_topology_arrangement
    then elim c.server [
      | none ↦ none
      | some s ↦ some (not (p.id == s.id) && (ltb_ℤ (pos 0) p.limit_upload && is_zero p.size_out))
    ]
    else some false

-- The entry of a peer in the class `k`, written.
unfoldable pub assign_class : Channel → Peer → TopologyClass → PeerData → Option Channel
assign_class c p k d = elim (set_class_sizes (settings_of c.class_topology_settings k) d) [
  | none ↦ none
  | some d' ↦ some (record c { peer_list = assign c.peer_list p.id d' })
]

-- `AddPeer`
unfoldable pub add_peer : Channel → Peer → ℕ → Option Channel
add_peer c p hit_count =
    let d = set_hit_count (make_peer_data (some p)) hit_count in
    let plain = some (record c { peer_list = assign c.peer_list p.id d }) in
    elim (is_first_connection c p) [
      | none ↦ none
      | some false ↦ plain
      | some true ↦
          if c.indicate_class_position
          then elim (suggested_class c.class_topology_settings) [
            | none ↦ none
            | some none ↦ plain
            | some (some k) ↦ assign_class c p k d
          ]
          else assign_class c p class_c d
    ]

-- Both forms of `RemovePeer`, which erase by the id.
unfoldable pub remove_peer : Channel → ℕ → Channel
remove_peer c k = record c { peer_list = erase_entry c.peer_list k }

-- `GetPeer`, whose result `none` is NULL, and `HasPeer`.
unfoldable pub get_peer : Channel → ℕ → Option Peer
get_peer c k = elim (find c.peer_list k) [ none ↦ none | some d ↦ d.peer ]

unfoldable pub has_peer : Channel → ℕ → Bool
has_peer c k = elim (get_peer c k) [ none ↦ false | some p ↦ true ]

-- The first loop of `CheckActivePeers`: the entries, and the ids that it collects.
unfoldable pub age_all : List (ℕ × PeerData) → List (ℕ × PeerData) × List ℕ
age_all [] = ([], [])
age_all (e ∷ m) =
    let rest = age_all m in
    let d = dec_ttl_channel e.1 in
    ((e.0, d) ∷ rest.0, if leb_ℤ d.ttl_channel (pos 0) then e.0 ∷ rest.1 else rest.1)

-- `CheckActivePeers`
unfoldable pub check_active_peers : Channel → Channel
check_active_peers c = record c {
  peer_list = erase_each (age_all c.peer_list).0 (age_all c.peer_list).1;
}

-- The three filters of `SelectPeerList`, each a loop.
unfoldable pub other_peers : Peer → Bool → List (ℕ × PeerData) → Option (List PeerData)
other_peers src virtual_peer [] = some []
other_peers src virtual_peer (e ∷ m) = elim e.1.peer [
  | none ↦ none
  | some p ↦ elim (other_peers src virtual_peer m) [
    | none ↦ none
    | some rest ↦ some (
        if not (src.id == p.id) && (not virtual_peer || not (src.ip == p.ip))
        then e.1 ∷ rest
        else rest)
  ]
]

-- The loop over the others by their size. Its index is a `uint16_t`, so this is the loop of a vector of fewer
-- than 65536 peers.
unfoldable pub with_size : (PeerData → Option ℤ) → ℕ → List PeerData → Option (List PeerData)
with_size size minimum [] = some []
with_size size minimum (d ∷ ds) = elim (size d) [
  | none ↦ none
  | some n ↦ elim (with_size size minimum ds) [
    | none ↦ none
    | some rest ↦ some (if leb_ℤ (pos minimum) n then d ∷ rest else rest)
  ]
]

-- `Strategy::Execute`
abbrev pub execute : (List PeerData → List PeerData) → List PeerData → List PeerData
execute select [] = []
execute select (d ∷ ds) = select (d ∷ ds)

-- The range from the first element, for `n` elements.
unfoldable pub first_n : ℕ → List PeerData → Option (List PeerData)
first_n zero ds = some []
first_n (suc n) [] = none
first_n (suc n) (d ∷ ds) = elim (first_n n ds) [ none ↦ none | some rest ↦ some (d ∷ rest) ]

-- `SelectPeerList`. `select` is what the strategy makes of the vector, for this peer and quantity.
unfoldable pub select_peer_list :
    (List PeerData → List PeerData)
    → Channel
    → Peer
    → ℕ
    → Bool
    → ℕ
    → ℕ
    → Bool
    → Option (List PeerData)
select_peer_list select c src quantity virtual_peer minimum minimum_free separated =
    elim (other_peers src virtual_peer c.peer_list) [
      | none ↦ none
      | some others ↦
          elim (if not separated || ltb_ℤ (pos 0) src.size_out
            then with_size get_size_out minimum others
            else with_size get_size_out_free minimum_free others) [
              | none ↦ none
              | some eligible ↦
                  if leb (length c.peer_list) quantity
                  then some eligible
                  else first_n quantity (execute select eligible)
            ]
    ]
