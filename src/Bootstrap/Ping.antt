-- ===== src/Bootstrap/Ping.antt =====
-- `HandlePingMessage` and `HandleUDPMessage` of src/bootstrap/bootstrap.cpp: a sign of life, and the report
-- of a peer. The lines that go to the log files are not modelled. The handler gives up the mutex before
-- it reads the report; here both parts are one step.
use tvpp_dev_base.Base.{
  ℕ, ◌+◌, ◌%◌, ◌^◌, ◌&&◌, ◌==◌, if◌then◌else◌, Option, none, some, List, get_or,
}
use tvpp_dev_base.Base.Maps.{find, assign}
use tvpp_dev_base.ChunkUniqueId.{make, std_buffer_size}
use tvpp_dev_base.Message.{get_header_values, get_opcode}
use tvpp_dev_base.Messages.{ping_boot_sizes, ping_boot_perf_sizes}
use tvpp_dev_base.PeerData.{
  PeerData, set_mode, set_ttl_channel, ttl_max, dec_hit_count, inc_peer_sent_chunks,
}
use tvpp_dev_base.Channel.{Channel, has_peer}
use tvpp_dev_base.Channel.Create.{set_server_newest_chunk_id, set_server_estimated_stream_rate}
use tvpp_dev_base.Channel.Renew.{entry_of, renew_out_all}
use tvpp_dev_base.Bootstrap.{Bootstrap, Config, to_int, set_channel, with_hit_count}

-- The values of a ping to the server, as it reads them.
pub record PingReport : Type 0 where
  pub ping_type : ℕ
  pub mode : ℕ
  pub tip_cycle : ℕ
  pub tip_position : ℕ
  pub stream_rate : ℕ
  pub channel_id : ℕ
  pub chunks_sent : ℕ

-- The count of the chunks is in a message of type PING_BOOT_PERF only, which is read again with the sizes
-- of that class.
unfoldable pub ping_report : List ℕ → PingReport
ping_report m =
    let h = get_header_values ping_boot_sizes m in
    record {
      ping_type = get_or h 0 0 % 2 ^ 8;
      mode = get_or h 1 0;
      tip_cycle = get_or h 2 0;
      tip_position = get_or h 3 0 % 2 ^ 16;
      stream_rate = get_or h 6 0;
      channel_id = get_or h 7 0;
      chunks_sent = get_or (get_header_values ping_boot_perf_sizes m) (8 + 1) 0;
    }

-- The mode and the TTL of the peer.
abbrev pub touch : PingReport → PeerData → PeerData
touch r d = set_ttl_channel (set_mode d r.mode) ttl_max

abbrev pub touch_peer : PingReport → Channel → ℕ → Channel
touch_peer r c k = record c { peer_list = assign c.peer_list k (touch r (entry_of c.peer_list k)) }

-- The part of the handler for each peer of the channel: the server tells its newest chunk and its rate.
unfoldable pub ping_channel : PingReport → Channel → ℕ → Option Channel
ping_channel r c source = elim c.server [
  | none ↦ none
  | some s ↦
      let touched = touch_peer r c source in
      some (
        if source == s.id
        then set_server_estimated_stream_rate
            (set_server_newest_chunk_id touched (make r.tip_cycle r.tip_position std_buffer_size))
            r.stream_rate
        else touched)
]

-- What a report changes where the topology is dynamic.
abbrev pub count_peer : PingReport → Channel → ℕ → Channel
count_peer r c k = record c {
  peer_list =
      assign c.peer_list k
        (inc_peer_sent_chunks (dec_hit_count (entry_of c.peer_list k)) (to_int r.chunks_sent));
}

-- The renewal, when the server's own hits are used up. (The upload score is set in a copy.)
unfoldable pub report_channel :
    (List (ℕ × ℕ) → List (ℕ × ℕ)) → Bootstrap → PingReport → Channel → ℕ → Option Channel
report_channel sort b r c source = elim c.server [
  | none ↦ none
  | some s ↦
      let counted = count_peer r c source in
      if s.id == source && (entry_of counted.peer_list source).hit_count == 0
      then elim (renew_out_all sort counted) [
        | none ↦ none
        | some renewed ↦ some (with_hit_count renewed source b.hit_count)
      ]
      else some counted
]

-- The channel after the message of one of its peers. PING_BOOT_PERF is 2.
unfoldable pub handle_ping_in :
    (List (ℕ × ℕ) → List (ℕ × ℕ)) → Config → Bootstrap → PingReport → Channel → ℕ → Option Channel
handle_ping_in sort cfg b r c source = elim (ping_channel r c source) [
  | none ↦ none
  | some pinged ↦
      if r.ping_type == 2 && cfg.dynamic_topology_arrangement
      then report_channel sort b r pinged source
      else some pinged
]

-- `HandlePingMessage`: a message for no channel, or from no peer of it, changes nothing.
unfoldable pub handle_ping_report :
    (List (ℕ × ℕ) → List (ℕ × ℕ)) → Config → Bootstrap → ℕ → PingReport → Option Bootstrap
handle_ping_report sort cfg b source r = elim (find b.channel_list r.channel_id) [
  | none ↦ some b
  | some c ↦
      if has_peer c source
      then elim (handle_ping_in sort cfg b r c source) [
        | none ↦ none
        | some c' ↦ some (set_channel b r.channel_id c')
      ]
      else some b
]

-- `HandleUDPMessage`. OPCODE_PING is 2; a peer list, with the opcode 1, only goes to a log file.
unfoldable pub handle_udp_message :
    (List (ℕ × ℕ) → List (ℕ × ℕ)) → Config → Bootstrap → ℕ → List ℕ → Option Bootstrap
handle_udp_message sort cfg b source m =
    if get_opcode m == 2 then handle_ping_report sort cfg b source (ping_report m) else some b
