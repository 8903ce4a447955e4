-- ===== src/Bootstrap.antt =====
-- src/bootstrap/bootstrap.hpp and bootstrap.cpp: the bootstrap server, which keeps the channels and tells
-- each peer whom it can connect to. A handler runs under the mutex of the channels and is one step here.
-- `none` as the result of a handler is undefined behaviour, as in the channel.
pub mod Ping
pub mod Sweep
pub mod Replies
pub mod Admitted
pub mod Pinged
pub mod Valid
pub mod Invariant
pub mod Alive
pub mod Swept
mod Tests
use tvpp_dev_base.Base.{
  ℕ, ◌+◌, ◌-◌, ◌%◌, ◌^◌, Bool, true, false, not, ltb, ◌==◌, if◌then◌else◌, Option, none, some, List,
  [], ◌∷◌, get_or,
}
use tvpp_dev_base.Base.Int.{ℤ, pos, negsuc}
use tvpp_dev_base.Base.Maps.{find, assign}
use tvpp_dev_base.ChunkUniqueId.{ChunkUniqueId}
use tvpp_dev_base.Message.{get_header_values, get_opcode}
use tvpp_dev_base.Messages.{channel_sizes}
use tvpp_dev_base.PeerData.{
  Peer, PeerData, make_peer, set_hit_count, get_size_out, get_size_out_free,
}
use tvpp_dev_base.Channel.{Channel, add_peer, has_peer, get_peer, select_peer_list}
use tvpp_dev_base.Channel.Create.{make_channel, set_indicate_class_position}
use tvpp_dev_base.Channel.Renew.{entry_of}

pub record Bootstrap : Type 0 where
  pub channel_list : List (ℕ × Channel)
  pub peer_list_shared_size : ℕ
  pub minimum_bandwidth : ℕ
  pub minimum_bandwidth_free : ℕ
  pub hit_count : ℕ
  pub time_new_out_delay_starts : ℕ
  pub peer_percent_change_allowed : ℕ
  pub bandwidth_join_class_b : ℤ
  pub bandwidth_join_class_c : ℤ
  pub bandwidth_join_class_d : ℤ
  pub boot_id : ℕ

-- The flags of `XPConfig` that the server reads.
pub record Config : Type 0 where
  pub dynamic_topology_arrangement : Bool
  pub indicate_class_position : Bool
  pub isola_virtual_peer_same_ip : Bool
  pub separated_free_out_list : Bool

-- Where a message came from: its IP, the id "ip:port", and the id of that IP with another port.
pub record Address : Type 0 where
  pub ip : ℕ
  pub id : ℕ
  pub with_port : ℕ → ℕ

-- The `int` of a 32-bit pattern.
abbrev pub to_int : ℕ → ℤ
to_int n = if ltb n (2 ^ 31) then pos n else negsuc (2 ^ 32 - 1 - n)

-- The values of a channel message, cut to the types of the variables that hold them.
pub record ChannelRequest : Type 0 where
  pub channel_flag : ℕ
  pub performing_punch : Bool
  pub version : ℕ
  pub external_port : ℕ
  pub channel_id : ℕ
  pub client_time : ℕ
  pub size_out : ℕ
  pub size_out_free : ℕ
  pub limit_upload : ℤ

unfoldable pub channel_request : List ℕ → ChannelRequest
channel_request m =
    let h = get_header_values channel_sizes m in
    record {
      channel_flag = get_or h 0 0 % 2 ^ 8;
      performing_punch = not (get_or h 1 0 == 0);
      version = get_or h 2 0 % 2 ^ 16;
      external_port = get_or h 3 0 % 2 ^ 16;
      channel_id = get_or h 4 0;
      client_time = get_or h 5 0;
      size_out = get_or h 6 0 % 2 ^ 16;
      size_out_free = get_or h 7 0 % 2 ^ 16;
      limit_upload = to_int (get_or h 8 0);
    }

-- The peer that asks. Its port is the one that it tells, unless it punches through a NAT.
abbrev pub source_peer : Address → ChannelRequest → Peer
source_peer a r =
    make_peer (if r.performing_punch then a.id else a.with_port r.external_port) a.ip
      (pos r.size_out) (pos r.size_out_free) r.limit_upload

-- What the reply tells a peer; `MessagePeerlistShare` makes the packet of it.
pub record ShareReply : Type 0 where
  pub selected : List PeerData
  pub external_ip : ℕ
  pub external_port : ℕ
  pub server_newest_chunk_id : ChunkUniqueId
  pub server_estimated_stream_rate : ℕ
  pub creation_time : ℕ
  pub nowtime : ℕ
  pub client_time : ℕ
  pub boot_id : ℕ
  pub new_size_out : ℤ
  pub new_size_out_free : ℤ

pub data Reply : Type 0 where
  error_reply : ℕ → Reply
  share_reply : ShareReply → Reply

-- VERSION, and the error types, of src/common/Defines.hpp.
abbrev pub version : ℕ
version = 0x010B

abbrev pub error_none : ℕ
error_none = 0

abbrev pub error_invalid_client_version : ℕ
error_invalid_client_version = 1

abbrev pub error_channel_cant_be_created : ℕ
error_channel_cant_be_created = 2

abbrev pub error_channel_unavailable : ℕ
error_channel_unavailable = 3

-- An entry of the channels, written.
abbrev pub set_channel : Bootstrap → ℕ → Channel → Bootstrap
set_channel b k c = record b { channel_list = assign b.channel_list k c }

-- `GetPeerData(peer).SetHit_count(hits)`
abbrev pub with_hit_count : Channel → ℕ → ℕ → Channel
with_hit_count c k hits = record c {
  peer_list = assign c.peer_list k (set_hit_count (entry_of c.peer_list k) hits);
}

-- The peer that `source` points to, once `AddPeer` made an entry of it.
abbrev pub shared_peer : Channel → Peer → Peer
shared_peer c p = elim (get_peer c p.id) [ none ↦ p | some q ↦ q ]

-- CHANNEL_CREATE of a new channel.
unfoldable pub create_channel :
    Config → Bootstrap → Channel → ℕ → ℕ → Peer → Option (Channel × Peer)
create_channel cfg b fresh now channel_id p =
    elim (make_channel fresh channel_id (some p) cfg.dynamic_topology_arrangement
      b.peer_percent_change_allowed b.bandwidth_join_class_b b.bandwidth_join_class_c
      b.bandwidth_join_class_d now) [
        | none ↦ none
        | some c ↦
            let hit =
              with_hit_count c p.id ((b.hit_count + b.time_new_out_delay_starts) % 2 ^ 16) in
            let made = set_indicate_class_position hit cfg.indicate_class_position in
            some (made, shared_peer made p)
      ]

-- CHANNEL_CONNECT to a channel.
unfoldable pub connect_channel : Bootstrap → Channel → Peer → Option (Channel × Peer)
connect_channel b c p =
    if has_peer c p.id
    then some (c, p)
    else elim (add_peer c p b.hit_count) [ none ↦ none | some c' ↦ some (c', shared_peer c' p) ]

-- The reply about a channel, with what was selected and the sizes of the peer that asks.
abbrev pub reply_of :
    Bootstrap → ChannelRequest → ℕ → Channel → Peer → List PeerData → ℤ → ℤ → ShareReply
reply_of b r now c source selected out out_free = record {
  selected = selected;
  external_ip = source.ip;
  external_port = r.external_port;
  server_newest_chunk_id = c.server_newest_chunk_id;
  server_estimated_stream_rate = c.server_estimated_stream_rate;
  creation_time = c.creation_time;
  nowtime = now;
  client_time = r.client_time;
  boot_id = b.boot_id;
  new_size_out = out;
  new_size_out_free = out_free;
}

-- The peers that the channel selects for the source.
abbrev pub select_for :
    (Peer → ℕ → List PeerData → List PeerData)
    → Config
    → Bootstrap
    → Channel
    → Peer
    → Option (List PeerData)
select_for strategy cfg b c source =
    select_peer_list (strategy source b.peer_list_shared_size) c source b.peer_list_shared_size
      cfg.isola_virtual_peer_same_ip b.minimum_bandwidth b.minimum_bandwidth_free
      cfg.separated_free_out_list

-- The reply to a peer that is let in, with the channel stored.
unfoldable pub share_peers :
    (Peer → ℕ → List PeerData → List PeerData)
    → Config
    → Bootstrap
    → ChannelRequest
    → ℕ
    → Channel × Peer
    → Option (Reply × Bootstrap)
share_peers strategy cfg b r now (c, source) =
    let d = entry_of c.peer_list source.id in
    elim (select_for strategy cfg b c source) [
      | none ↦ none
      | some selected ↦ elim (get_size_out d) [
        | none ↦ none
        | some out ↦ elim (get_size_out_free d) [
          | none ↦ none
          | some out_free ↦ some (
            share_reply (reply_of b r now c source selected out out_free),
            set_channel b r.channel_id c,
          )
        ]
      ]
    ]

abbrev pub refuse : Bootstrap → ℕ → Option (Reply × Bootstrap)
refuse b code = some (error_reply code, b)

-- `HandleChannelMessage` on the values of a message. `strategy` is what the selection strategy makes of
-- a vector of peers, and `fresh` the memory of a new channel.
unfoldable pub handle_channel_request :
    (Peer → ℕ → List PeerData → List PeerData)
    → Config
    → Bootstrap
    → Channel
    → ℕ
    → Address
    → ChannelRequest
    → Option (Reply × Bootstrap)
handle_channel_request strategy cfg b fresh now a r =
    let p = source_peer a r in
    if not (r.version == version)
    then refuse b error_invalid_client_version
    else if r.channel_flag == 0
    then elim (find b.channel_list r.channel_id) [
      | some c ↦ refuse b error_channel_cant_be_created
      | none ↦ elim (create_channel cfg b fresh now r.channel_id p) [
        | none ↦ none
        | some made ↦ share_peers strategy cfg b r now made
      ]
    ]
    else if r.channel_flag == 1
    then elim (find b.channel_list r.channel_id) [
      | none ↦ refuse b error_channel_unavailable
      | some c ↦ elim (connect_channel b c p) [
        | none ↦ none
        | some joined ↦ share_peers strategy cfg b r now joined
      ]
    ]
    else refuse b error_none

-- `HandleTCPMessage`: the reply, which is none for NULL, and the server. OPCODE_CHANNEL is 0.
unfoldable pub handle_tcp_message :
    (Peer → ℕ → List PeerData → List PeerData)
    → Config
    → Bootstrap
    → Channel
    → ℕ
    → Address
    → List ℕ
    → Option (Option Reply × Bootstrap)
handle_tcp_message strategy cfg b fresh now a m =
    if get_opcode m == 0
    then elim (handle_channel_request strategy cfg b fresh now a (channel_request m)) [
      | none ↦ none
      | some (reply, b') ↦ some (some reply, b')
    ]
    else some (none, b)
