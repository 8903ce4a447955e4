-- ===== src/Bootstrap/Tests.antt =====
-- The theorems on the bootstrap server at a concrete server.
use tvpp_dev_base.Base.{
  ℕ, ◌≡◌, ◌≢◌, ◌↔◌, refl, sym, ◌+◌, true, false, none, some, List, [], ◌∷◌, arith,
}
use tvpp_dev_base.Base.Int.{pos}
use tvpp_dev_base.Base.Maps.{find, assign, keys, erase_each}
use tvpp_dev_base.Base.Sets.{IsSorted}
use tvpp_dev_base.ChunkUniqueId.{make}
use tvpp_dev_base.PeerData.{
  make_peer, make_peer_data, set_hit_count, get_size_out, get_size_out_free, set_mode,
  set_ttl_channel, dec_hit_count, inc_peer_sent_chunks, dec_ttl_channel,
}
use tvpp_dev_base.Channel.{
  Channel, select_peer_list, other_peers, with_size, add_peer, is_first_connection, has_peer,
  get_peer, check_active_peers, age_all,
}
use tvpp_dev_base.Channel.Create.{
  make_channel, default_classes, set_indicate_class_position, set_server_newest_chunk_id,
  set_server_estimated_stream_rate,
}
use tvpp_dev_base.Bootstrap.{
  Bootstrap, Config, Address, ChannelRequest, ShareReply, error_reply, share_reply,
  handle_channel_request, create_channel, share_peers,
}
use tvpp_dev_base.Bootstrap.Ping.{
  PingReport, handle_ping_report, handle_ping_in, ping_channel, report_channel,
}
use tvpp_dev_base.Bootstrap.Sweep.{check_channels, sweep_channels}
use tvpp_dev_base.Bootstrap.Swept.{IsSwept, check_channels-IsSwept}
use tvpp_dev_base.Bootstrap.Valid.{IsValid}
use tvpp_dev_base.Bootstrap.Replies.{Strategies, IsRefused, handle_channel_request-IsRefused}
use tvpp_dev_base.Bootstrap.Admitted.{AreKeeping, IsAdmitted, handle_channel_request-admits}
use tvpp_dev_base.Bootstrap.Pinged.{IsPinged, handle_ping_report-alive}
use tvpp_dev_base.Bootstrap.Invariant.{
  Reach, here, next, round, handle_channel_request-IsValid, Reach-IsValid_server,
}
use tvpp_dev_base.Bootstrap.Alive.{check_rounds, opened_channel_expires}

abbrev empty : Bootstrap
empty = record {
  channel_list = [];
  peer_list_shared_size = 4;
  minimum_bandwidth = 0;
  minimum_bandwidth_free = 0;
  hit_count = 3;
  time_new_out_delay_starts = 1;
  peer_percent_change_allowed = 50;
  bandwidth_join_class_b = pos 1;
  bandwidth_join_class_c = pos 2;
  bandwidth_join_class_d = pos 3;
  boot_id = 77;
}

abbrev config : Config
config = record {
  dynamic_topology_arrangement = true;
  indicate_class_position = false;
  isola_virtual_peer_same_ip = false;
  separated_free_out_list = false;
}

abbrev home : Address
home = record { ip = 1; id = 10; with_port = λ p. p + 100 }

abbrev opening : ChannelRequest
opening = record {
  channel_flag = 0;
  performing_punch = true;
  version = 0x010B;
  external_port = 5;
  channel_id = 9;
  client_time = 0;
  size_out = 2;
  size_out_free = 1;
  limit_upload = pos 8;
}

-- Any memory.
abbrev memory : Channel
memory = record {
  channel_id = 5;
  server = none;
  peer_list = [];
  class_topology_settings = [];
  dynamic_topology_arrangement = true;
  indicate_class_position = true;
  server_newest_chunk_id = record { position = 0; cycle = 0; buffer_size = 4 };
  server_estimated_stream_rate = 7;
  creation_time = 8;
  first_time_overlay = false;
  peer_percent_change_allowed = 50;
}

abbrev as_given : Strategies
as_given p n ds = ds

abbrev as_sorted : List (ℕ × ℕ) → List (ℕ × ℕ)
as_sorted v = v

empty-IsValid : IsValid empty
empty-IsValid = record { sorted = tt; channels = λ k c e. absurd (ground (arith, e)) }

opened :
    (s : ShareReply) × (b : Bootstrap) × (handle_channel_request as_given config empty memory 50
        home opening
      ≡ some (share_reply s, b))
unfolding handle_channel_request create_channel make_channel add_peer is_first_connection
    share_peers select_peer_list other_peers with_size set_indicate_class_position set_hit_count
    make_peer_data get_size_out get_size_out_free assign make_peer has_peer get_peer
opened = (_, _, refl)

opened-IsValid : IsValid opened.1
opened-IsValid =
    handle_channel_request-IsValid as_given config empty memory 50 home opening
      (share_reply opened.0, opened.1) opened.2 empty-IsValid

-- The server has no channel 9 to join.
abbrev joining : ChannelRequest
joining = record opening { channel_flag = 1 }

handle_channel_request-IsRefused_example :
    (handle_channel_request as_given config empty memory 50 home joining
      ≡ some (error_reply 3, empty))
    ↔ (IsRefused empty joining 3 × (empty ≡ empty))
handle_channel_request-IsRefused_example =
    handle_channel_request-IsRefused as_given config empty empty memory 50 home joining 3

given-AreKeeping : AreKeeping as_given
given-AreKeeping p n P ds a = a

handle_channel_request-admits_example : IsAdmitted empty opening 10 opened.0 opened.1
unfolding make_peer
handle_channel_request-admits_example =
    handle_channel_request-admits as_given config empty opened.1 memory 50 home opening opened.0
      opened.2 empty-IsValid given-AreKeeping

abbrev the_channel : Channel
the_channel = record {
  channel_id = 9;
  server = some (make_peer 10 1 (pos 2) (pos 1) (pos 8));
  peer_list =
      (10, set_hit_count (make_peer_data (some (make_peer 10 1 (pos 2) (pos 1) (pos 8)))) 4) ∷ [];
  class_topology_settings = default_classes (pos 1) (pos 2) (pos 3);
  dynamic_topology_arrangement = true;
  indicate_class_position = false;
  server_newest_chunk_id = make 0 0 1600;
  server_estimated_stream_rate = 0;
  creation_time = 50;
  first_time_overlay = true;
  peer_percent_change_allowed = 50;
}

channel_there : (find opened.1.channel_list 9 ≡ some the_channel) × (has_peer the_channel 10 ≡ true)
unfolding opened handle_channel_request create_channel make_channel add_peer is_first_connection
    share_peers select_peer_list other_peers with_size set_indicate_class_position set_hit_count
    make_peer_data get_size_out get_size_out_free assign make_peer has_peer get_peer
channel_there = (refl, refl)

-- A report of the server, which still counts hits.
abbrev report : PingReport
report = record {
  ping_type = 2;
  mode = 1;
  tip_cycle = 0;
  tip_position = 40;
  stream_rate = 12;
  channel_id = 9;
  chunks_sent = 6;
}

abbrev served : Bootstrap
served = record empty { channel_list = (9, the_channel) ∷ [] }

opened_is : opened.1 ≡ served
unfolding opened handle_channel_request create_channel make_channel add_peer is_first_connection
    share_peers select_peer_list other_peers with_size set_indicate_class_position set_hit_count
    make_peer_data get_size_out get_size_out_free assign make_peer has_peer get_peer
opened_is = refl

served-IsValid : IsValid served
served-IsValid = rw (sym opened_is) opened-IsValid

pinged : (b : Bootstrap) × (handle_ping_report as_sorted config served 10 report ≡ some b)
unfolding handle_ping_report handle_ping_in ping_channel report_channel has_peer get_peer
    set_server_newest_chunk_id set_server_estimated_stream_rate set_mode set_ttl_channel
    dec_hit_count inc_peer_sent_chunks set_hit_count make_peer_data make_peer assign
pinged = (_, refl)

handle_ping_report-alive_example :
    ((c' : Channel) × (find pinged.0.channel_list 9 ≡ some c') × IsPinged c' 10)
    × ((j : ℕ) → j ≢ 9 → find pinged.0.channel_list j ≡ find served.channel_list j)
handle_ping_report-alive_example =
    handle_ping_report-alive as_sorted config served pinged.0 10 report the_channel pinged.1
      (λ P v a. a) served-IsValid refl channel_there.1

round_done : (b : Bootstrap) × (check_channels served ≡ some b)
unfolding check_channels sweep_channels check_active_peers age_all dec_ttl_channel has_peer get_peer
    set_hit_count make_peer_data make_peer erase_each
round_done = (_, refl)

check_channels-IsSwept_example :
    (b' : Bootstrap) × (check_channels served ≡ some b')
    × IsSwept (find served.channel_list 9) (find b'.channel_list 9)
    × IsSorted (keys b'.channel_list)
check_channels-IsSwept_example = check_channels-IsSwept served 9 served-IsValid

-- A round from the opened server.
one_step : Reach as_given as_sorted config served round_done.0
one_step = next here (round round_done.1)

Reach-IsValid_server_example : IsValid round_done.0
Reach-IsValid_server_example =
    Reach-IsValid_server as_given as_sorted config served round_done.0 one_step (λ P v a. a)
      served-IsValid

opened_channel_expires_example :
    ((bn : Bootstrap) × (check_rounds 9 opened.1 ≡ some bn)
      × ((c : Channel) × (find bn.channel_list 9 ≡ some c)))
    × ((bm : Bootstrap) × (check_rounds 10 opened.1 ≡ some bm) × (find bm.channel_list 9 ≡ none))
opened_channel_expires_example =
    opened_channel_expires as_given config empty opened.1 memory 50 9 home opening opened.0 opened.2
      refl empty-IsValid (omega arith)
