-- ===== src/Channel/Tests.antt =====
-- The theorems on the channel at concrete channels.
use tvpp_dev_base.Base.{
  ℕ, ◌*◌, ◌/◌, inr, ◌≤◌, ◌≡◌, refl, true, false, none, some, List, [], ◌∷◌, arith, length,
}
use tvpp_dev_base.Base.Int.{ℤ, pos}
use tvpp_dev_base.Base.Maps.{find, assign}
use tvpp_dev_base.PeerData.{
  Peer, PeerData, make_peer_data, set_hit_count, set_size_out, set_size_out_free, set_size_out_old,
  set_size_out_old_free, get_size_out, ttl_max, set_peer_sent_chunks,
}
use tvpp_dev_base.Channel.{
  Channel, TopologyData, class_b, class_c, add_peer, assign_class, is_first_connection,
  set_class_sizes, select_peer_list, other_peers, with_size, first_n,
}
use tvpp_dev_base.Channel.Create.{default_classes}
use tvpp_dev_base.Channel.Named.{Entries}
use tvpp_dev_base.Channel.Renew.{
  renew_out_all, ordinary_peers, sort_out, normalize_all, normalize_classes, settle_from,
  move_forward, move_backward, move_peer, settle_peer, convert_peer_class, convert_peer,
}
use tvpp_dev_base.Channel.Renew.Steps.{IsLoop, Changes}
use tvpp_dev_base.Channel.Renew.Protected.{renew_out_all-protected, normalize_classes-bound}
use tvpp_dev_base.Channel.Selection.{
  All, IsOther, HasSize, size_for, select_peer_list-eligible, select_peer_list_short,
}

abbrev named : ℕ → ℤ → Peer
named k out = record {
  id = k;
  ip = k;
  size_out = out;
  size_out_free = pos 0;
  size_out_old = out;
  size_out_old_free = pos 0;
  limit_upload = pos 9;
}

abbrev peer_of : ℕ → ℤ → PeerData
peer_of k out = record {
  peer = some (named k out);
  mode = 1;
  chunk_map_head = record { position = 0; cycle = 0; buffer_size = 4 };
  chunk_map = [];
  ttl_in = ttl_max;
  ttl_out = ttl_max;
  ttl_out_free = ttl_max;
  ttl_channel = ttl_max;
  peer_sent_chunks = 0;
  hit_count = 0;
  upload_score = pos 0;
  pending_requests = pos 0;
  delay = 0;
}

abbrev class_c_settings : TopologyData
class_c_settings = record {
  join_minimum_bandwidth = pos 65536;
  in_size = pos 20;
  out = pos 18;
  out_free = pos 22;
  percent_of_peer = pos 45;
}

-- A server and two peers.
abbrev three : Channel
three = record {
  channel_id = 1;
  server = some (named 1 (pos 20));
  peer_list = (1, peer_of 1 (pos 20)) ∷ (2, peer_of 2 (pos 5)) ∷ (3, peer_of 3 (pos 1)) ∷ [];
  class_topology_settings = (class_c, class_c_settings) ∷ [];
  dynamic_topology_arrangement = true;
  indicate_class_position = false;
  server_newest_chunk_id = record { position = 0; cycle = 0; buffer_size = 4 };
  server_estimated_stream_rate = 0;
  creation_time = 0;
  first_time_overlay = false;
  peer_percent_change_allowed = 50;
}

-- A first connection, which gets the class C.
abbrev newcomer : Peer
newcomer = named 4 (pos 0)

joined : (c : Channel) × (add_peer three newcomer 2 ≡ some c)
unfolding add_peer is_first_connection assign_class set_class_sizes set_hit_count make_peer_data
    set_size_out set_size_out_free set_size_out_old set_size_out_old_free
joined = (_, refl)

abbrev as_given : List PeerData → List PeerData
as_given ds = ds

-- The two best of the others, for a peer that is not in the channel.
selected :
    select_peer_list as_given three newcomer 2 false 5 0 false
    ≡ some (peer_of 1 (pos 20) ∷ peer_of 2 (pos 5) ∷ [])
unfolding select_peer_list other_peers with_size first_n get_size_out
selected = refl

select_peer_list-eligible_example :
    All
      (λ d. IsOther newcomer false d × HasSize (size_for newcomer false) 5 d)
      (peer_of 1 (pos 20) ∷ peer_of 2 (pos 5) ∷ [])
    × (length (peer_of 1 (pos 20) ∷ peer_of 2 (pos 5) ∷ []) ≤ 2)
select_peer_list-eligible_example =
    select_peer_list-eligible as_given three newcomer 2 false 5 0 false
      (peer_of 1 (pos 20) ∷ peer_of 2 (pos 5) ∷ []) (λ P ds a. a) selected

others_found :
    other_peers newcomer false three.peer_list
    ≡ some (peer_of 1 (pos 20) ∷ peer_of 2 (pos 5) ∷ peer_of 3 (pos 1) ∷ [])
unfolding other_peers
others_found = refl

one_found :
    with_size get_size_out 9 (peer_of 1 (pos 20) ∷ peer_of 2 (pos 5) ∷ peer_of 3 (pos 1) ∷ [])
    ≡ some (peer_of 1 (pos 20) ∷ [])
unfolding with_size get_size_out
one_found = refl

select_peer_list_short_example : select_peer_list as_given three newcomer 2 false 9 0 false ≡ none
select_peer_list_short_example =
    select_peer_list_short as_given three newcomer 2 false false 9 0
      (peer_of 1 (pos 20) ∷ peer_of 2 (pos 5) ∷ peer_of 3 (pos 1) ∷ []) (peer_of 1 (pos 20) ∷ [])
      others_found one_found (omega arith) (omega arith) (omega arith)

-- A server, five ordinary peers, and a free rider.
abbrev seven : Channel
seven = record three {
  peer_list =
      (1, peer_of 1 (pos 20))
      ∷ (2, peer_of 2 (pos 5))
      ∷ (3, peer_of 3 (pos 18))
      ∷ (4, peer_of 4 (pos 18))
      ∷ (5, peer_of 5 (pos 18))
      ∷ (6, peer_of 6 (pos 46))
      ∷ (7, peer_of 7 (pos 0))
      ∷ [];
  class_topology_settings = default_classes (pos 1) (pos 2) (pos 3);
}

abbrev as_sorted : List (ℕ × ℕ) → List (ℕ × ℕ)
as_sorted v = v

renewed : (c : Channel) × (renew_out_all as_sorted seven ≡ some c)
unfolding renew_out_all ordinary_peers sort_out normalize_all normalize_classes settle_from
    move_forward move_backward move_peer settle_peer convert_peer_class convert_peer get_size_out
    set_peer_sent_chunks assign
renewed = (_, refl)

renew_out_all-protected_example :
    (d' : PeerData) × (find renewed.0.peer_list 7 ≡ some d')
    × ((d'.peer ≡ some (named 7 (pos 0))) × (d'.ttl_channel ≡ ttl_max))
renew_out_all-protected_example =
    renew_out_all-protected as_sorted seven renewed.0 (named 1 (pos 20)) (peer_of 1 (pos 20)) 7
      (peer_of 7 (pos 0)) renewed.1 (λ P v a. a) (omega arith)
      (
        (named 1 (pos 20), refl, refl),
        (
          (named 2 (pos 5), refl, refl),
          (
            (named 3 (pos 18), refl, refl),
            (
              (named 4 (pos 18), refl, refl),
              (
                (named 5 (pos 18), refl, refl),
                ((named 6 (pos 46), refl, refl), ((named 7 (pos 0), refl, refl), tt)),
              ),
            ),
          ),
        ),
      )
      refl refl refl (inr (inr (named 7 (pos 0), refl, refl)))

-- The range of the class B, whose last peer moves.
moved :
    (r : ℕ × Entries) × (normalize_classes seven.class_topology_settings 50 class_c class_b
        ((2, 0) ∷ (3, 0) ∷ (4, 0) ∷ (5, 0) ∷ (6, 0) ∷ [])
        2
        5
        seven.peer_list
      ≡ some r)
unfolding normalize_classes move_backward move_peer convert_peer_class convert_peer get_size_out
    assign
moved = (_, refl)

moved_one : moved.0.0 ≡ 1
unfolding moved normalize_classes move_backward move_peer convert_peer_class convert_peer
    get_size_out assign
moved_one = refl

normalize_classes-bound_example :
    (moved.0.0 ≤ 5 * 50 / 100)
    × IsLoop seven.peer_list ((2, 0) ∷ (3, 0) ∷ (4, 0) ∷ (5, 0) ∷ (6, 0) ∷ []) moved.0
    × Changes (5 * 50 / 100) seven.peer_list moved.0.1
normalize_classes-bound_example =
    normalize_classes-bound seven.class_topology_settings 50 class_c class_b
      ((2, 0) ∷ (3, 0) ∷ (4, 0) ∷ (5, 0) ∷ (6, 0) ∷ []) 2 5 seven.peer_list moved.0 moved.1 refl
