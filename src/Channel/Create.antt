-- ===== src/Channel/Create.antt =====
-- The constructor of src/common/Channel.hpp and Channel.cpp, and the setters of a channel. The log files
-- that it opens are not modelled.
use tvpp_dev_base.Base.{
  ℕ, ◌+◌, ◌*◌, ◌-◌, ◌≡◌, refl, Bool, true, false, ◌==◌, if◌then◌else◌, Option, none, some, List, [],
  ◌∷◌, arith, ==_self,
}
use tvpp_dev_base.Base.Int.{ℤ, pos, negsuc}
use tvpp_dev_base.Base.Maps.{assign}
use tvpp_dev_base.ChunkUniqueId.{ChunkUniqueId, make, std_buffer_size}
use tvpp_dev_base.PeerData.{Peer, make_peer_data, set_hit_count}
use tvpp_dev_base.Channel.{
  Channel, TopologyData, TopologyClass, class_a, class_b, class_c, class_d, add_peer,
  is_first_connection,
}

-- `bandwidth * 65536`, for a bandwidth whose product is in the range of an `int`.
abbrev pub to_bandwidth : ℤ → ℤ
to_bandwidth (pos n) = pos (n * 65536)
to_bandwidth (negsuc n) = negsuc ((n + 1) * 65536 - 1)

-- The classes that the constructor makes where the topology is dynamic.
abbrev pub default_classes : ℤ → ℤ → ℤ → List (TopologyClass × TopologyData)
default_classes b c d =
    (
      class_a,
      record {
        join_minimum_bandwidth = pos 0;
        in_size = pos 20;
        out = pos 0;
        out_free = pos 0;
        percent_of_peer = pos 0;
      },
    )
    ∷ (
      class_b,
      record {
        join_minimum_bandwidth = to_bandwidth b;
        in_size = pos 20;
        out = pos 1;
        out_free = pos 38;
        percent_of_peer = pos 40;
      },
    )
    ∷ (
      class_c,
      record {
        join_minimum_bandwidth = to_bandwidth c;
        in_size = pos 20;
        out = pos 18;
        out_free = pos 22;
        percent_of_peer = pos 45;
      },
    )
    ∷ (
      class_d,
      record {
        join_minimum_bandwidth = to_bandwidth d;
        in_size = pos 20;
        out = pos 46;
        out_free = pos 0;
        percent_of_peer = pos 15;
      },
    )
    ∷ []

-- The constructor. `fresh` is the memory that it is given: the call of `AddPeer` stands before the
-- assignments of the flags that `AddPeer` reads. Its maps and its chunk have their own constructors.
unfoldable pub make_channel : Channel → ℕ → Option Peer → Bool → ℕ → ℤ → ℤ → ℤ → ℕ → Option Channel
make_channel fresh channel_id none dynamic percent b c d now =
    if channel_id == 0
    then some (record fresh {
      peer_list = [];
      class_topology_settings = [];
      server_newest_chunk_id = make 0 0 std_buffer_size;
    })
    else none
make_channel fresh channel_id (some server) dynamic percent b c d now =
    let start = record fresh {
      channel_id = channel_id;
      server = some server;
      peer_list = [];
      class_topology_settings = [];
      server_newest_chunk_id = make 0 0 std_buffer_size;
    } in
    elim (add_peer start server 0) [
      | none ↦ none
      | some added ↦ some (record added {
        server_estimated_stream_rate = 0;
        peer_percent_change_allowed = percent;
        first_time_overlay = true;
        indicate_class_position = false;
        dynamic_topology_arrangement = dynamic;
        class_topology_settings = if dynamic then default_classes b c d else [];
        creation_time = now;
      })
    ]

unfoldable pub set_server_newest_chunk_id : Channel → ChunkUniqueId → Channel
set_server_newest_chunk_id c chunk = record c { server_newest_chunk_id = chunk }

unfoldable pub set_server_estimated_stream_rate : Channel → ℕ → Channel
set_server_estimated_stream_rate c rate = record c { server_estimated_stream_rate = rate }

unfoldable pub set_indicate_class_position : Channel → Bool → Channel
set_indicate_class_position c indicate = record c { indicate_class_position = indicate }

-- A new channel with a server, written out.
abbrev pub new_channel : ℕ → Peer → Bool → ℕ → ℤ → ℤ → ℤ → ℕ → Channel
new_channel channel_id server dynamic percent b c d now = record {
  channel_id = channel_id;
  server = some server;
  peer_list = (server.id, set_hit_count (make_peer_data (some server)) 0) ∷ [];
  class_topology_settings = if dynamic then default_classes b c d else [];
  dynamic_topology_arrangement = dynamic;
  indicate_class_position = false;
  server_newest_chunk_id = make 0 0 std_buffer_size;
  server_estimated_stream_rate = 0;
  creation_time = now;
  first_time_overlay = true;
  peer_percent_change_allowed = percent;
}

-- Adding the server itself gives it no class, whatever the flags are.
pub add_peer_server :
    (c : Channel) (p : Peer) (hit_count : ℕ)
    → c.server ≡ some p
    → add_peer c p hit_count
      ≡ some (record c {
        peer_list = assign c.peer_list p.id (set_hit_count (make_peer_data (some p)) hit_count);
      })
unfolding add_peer is_first_connection
add_peer_server c p h e = ground (arith, e, ==_self p.id)

-- The constructor with a server returns, and what it makes has only the server as a member and does not
-- depend on the memory that it is given, though `AddPeer` reads two flags before they are assigned.
pub make_channel-new_channel :
    (fresh : Channel) (channel_id : ℕ) (server : Peer) (dynamic : Bool) (percent : ℕ) (b c d : ℤ)
    (now : ℕ)
    → make_channel fresh channel_id (some server) dynamic percent b c d now
      ≡ some (new_channel channel_id server dynamic percent b c d now)
unfolding make_channel assign
make_channel-new_channel fresh channel_id server dynamic percent b c d now =
    let start : Channel = record fresh {
      channel_id = channel_id;
      server = some server;
      peer_list = [];
      class_topology_settings = [];
      server_newest_chunk_id = make 0 0 std_buffer_size;
    } in
    ground (arith, add_peer_server start server 0 refl)
