-- ===== src/Client/Share.antt =====
-- `HandlePeerlistMessage` and `HandleTCPMessage` of src/client/client.cpp: what the client does with the
-- answer of the bootstrap server.
pub mod Sound
use tvpp_dev_base.Base.{
  ℕ, zero, suc, ◌+◌, ◌-◌, ◌*◌, ◌/◌, ◌%◌, ◌^◌, Bool, true, false, ◌&&◌, ltb, ◌==◌, if◌then◌else◌,
  Option, none, some, List, get_or,
}
use tvpp_dev_base.Base.Int.{ℤ, pos, negsuc}
use tvpp_dev_base.ChunkUniqueId.{ChunkUniqueId, make, std_buffer_size, subtract}
use tvpp_dev_base.Message.{
  get_header_values, get_header_size, get_opcode, short_set_high, short_set_low,
}
use tvpp_dev_base.Messages.{peerlist_sizes, peerlist_share_sizes, error_sizes}
use tvpp_dev_base.PeerData.{Peer, PeerData, make_peer, to_u32}
use tvpp_dev_base.PeerManager.{PeerManager, ins, outs, outs_free, add_peer}
use tvpp_dev_base.PeerManager.Sizes.{set_new_max_out}
use tvpp_dev_base.Connector.{connect}
use tvpp_dev_base.Bootstrap.{to_int}
use tvpp_dev_base.Client.{Client, handle_error}

-- The client with the fields that only its talk with the bootstrap server uses. An IP that is "" is none;
-- `bootstrap_time_shift` is the 32-bit pattern of an `int`.
pub record Member : Type 0 where
  pub client : Client
  pub boot_id : ℕ
  pub configure_boot_id : Bool
  pub external_ip : Option ℕ
  pub external_port : ℕ
  pub perform_udp_punch : Bool
  pub channel_creation_time : ℕ
  pub bootstrap_time_shift : ℕ

-- What is made of texts: the number of an IP from its octets, and that of an id from the IP and the port.
pub record Texts : Type 0 where
  pub dotted : ℕ → ℕ → ℕ → ℕ → ℕ
  pub with_separator : ℕ → ℕ → ℕ

-- The code outside of the client that the handler runs: the sort of `SetNewMMaxActivePeersOut`, the ids
-- of the known peers in the order of the map, and the strategy of the connector.
pub record Neighbours : Type 0 where
  pub sort : List (ℕ × ℕ) → List (ℕ × ℕ)
  pub ids : PeerManager → List ℕ
  pub strategy : ℕ → List (ℕ × PeerData) → List (ℕ × PeerData)

-- The `int16_t` of a 16-bit pattern.
abbrev pub to_int16 : ℕ → ℤ
to_int16 n = if ltb n (2 ^ 15) then pos n else negsuc (2 ^ 16 - 1 - n)

-- `MessagePeerlist::GetPeer`
unfoldable pub received_peer : Texts → List ℕ → ℕ → Peer
received_peer t m i =
    let at = get_header_size m + i * 6 in
    let ip =
      t.dotted (get_or m at 0) (get_or m (at + 1) 0) (get_or m (at + 2) 0) (get_or m (at + 3) 0) in
    let port = short_set_low (short_set_high 0 (get_or m (at + 4) 0)) (get_or m (at + 5) 0) in
    make_peer (t.with_separator ip port) ip (negsuc 0) (negsuc 0) (negsuc 0)

-- The loop over the peers of the list, from the index `i`.
unfoldable pub add_received : Texts → List ℕ → ℕ → ℕ → PeerManager → Option PeerManager
add_received t m i zero p = some p
add_received t m i (suc n) p = elim (add_peer p (received_peer t m i) (negsuc 0) (negsuc 0)) [
  | none ↦ none
  | some (is_new, q) ↦ add_received t m (i + 1) n q
]

-- The values of a PEERLIST_SHARE, as the handler reads them.
pub record ShareValues : Type 0 where
  pub external_ip : ℕ
  pub external_port : ℕ
  pub server_tip : ChunkUniqueId
  pub stream_rate : ℕ
  pub creation_time : ℕ
  pub boot_time : ℕ
  pub send_time : ℕ
  pub boot_id : ℕ
  pub new_out : ℤ
  pub new_out_free : ℤ

unfoldable pub share_values_of : Texts → List ℕ → ShareValues
share_values_of t m =
    let h = get_header_values peerlist_share_sizes m in
    record {
      external_ip = t.dotted (get_or h 2 0) (get_or h 3 0) (get_or h 4 0) (get_or h 5 0);
      external_port = get_or h 6 0;
      server_tip = make (get_or h 7 0) (get_or h 8 0 % 2 ^ 16) std_buffer_size;
      stream_rate = get_or h 9 0;
      creation_time = get_or h 10 0;
      boot_time = get_or h 11 0;
      send_time = get_or h 12 0;
      boot_id = get_or h 13 0;
      new_out = to_int16 (get_or h 14 0);
      new_out_free = to_int16 (get_or h 15 0);
    }

-- The difference of two `uint32_t`.
abbrev pub minus_u32 : ℕ → ℕ → ℕ
minus_u32 a b = (a + 2 ^ 32 - b) % 2 ^ 32

-- The identification of the server; the client ends if it is another one.
unfoldable pub authenticate : Member → ShareValues → Member
authenticate r v =
    if r.configure_boot_id then record r { boot_id = v.boot_id; configure_boot_id = false } else r

-- What a client that waits for a position does: it starts `tip_offset_time` seconds behind the tip, or at
-- the first chunk. The offset is a `uint32_t` that `operator-` takes as an `int`.
unfoldable pub positioned : Client → ShareValues → Client
positioned c v =
    let offset = v.stream_rate * to_u32 c.tip_offset_time % 2 ^ 32 in
    let start =
      if v.server_tip.cycle == 0 && ltb v.server_tip.position offset
      then make 0 0 std_buffer_size
      else subtract v.server_tip (to_int offset) in
    if c.receive_request_position
    then record c {
      estimated_chunk_rate = to_int v.stream_rate;
      request_position = start;
      player_delivery_position = start;
      receive_request_position = false;
    }
    else c

-- The fields of a client that is told about the channel, at the time `now`.
unfoldable pub informed_of : Member → ShareValues → ℕ → Member
informed_of r v now = record r {
  external_port = if r.perform_udp_punch then v.external_port else r.external_port;
  perform_udp_punch = false;
  channel_creation_time =
      if r.channel_creation_time == 0 then v.creation_time else r.channel_creation_time;
  bootstrap_time_shift =
      minus_u32 (minus_u32 v.boot_time v.send_time) (minus_u32 now v.send_time / 2);
  client = positioned r.client v;
}

-- The peer manager: the new limits, the peers of the list, and the connector of the in list.
unfoldable pub meet_peers :
    Neighbours → Texts → List ℕ → ℕ → ShareValues → PeerManager → Option PeerManager
meet_peers n t m received v p = elim (set_new_max_out n.sort p v.new_out outs) [
  | none ↦ none
  | some p1 ↦ elim (set_new_max_out n.sort p1 v.new_out_free outs_free) [
    | none ↦ none
    | some p2 ↦ elim (add_received t m 0 received p2) [
      | none ↦ none
      | some p3 ↦ connect n.strategy (n.ids p3) p3 ins
    ]
  ]
]

-- A PEERLIST_SHARE of the right server. MODE_SERVER is 1.
unfoldable pub accept_share :
    Neighbours → Texts → List ℕ → ℕ → ℕ → ShareValues → Member → Option Member
accept_share n t m received now v r =
    let located = record r {
      external_ip = elim r.external_ip [ none ↦ some v.external_ip | some ip ↦ some ip ];
    } in
    if r.client.peer_mode == 1
    then some (record located { client = record (r.client) { server_active = true } })
    else elim (meet_peers n t m received v r.client.peer_manager) [
      | none ↦ none
      | some p ↦
          let told = informed_of located v now in
          some (record told { client = record (told.client) { peer_manager = p } })
    ]

-- `HandlePeerlistMessage`: whether the program ends, and the client. PEERLIST_SHARE is 1.
unfoldable pub handle_peerlist : Neighbours → Texts → List ℕ → ℕ → Member → Option (Bool × Member)
handle_peerlist n t m now r =
    let h = get_header_values peerlist_sizes m in
    let v = share_values_of t m in
    let known = authenticate r v in
    if get_or h 0 0 == 1
    then if known.boot_id == v.boot_id
      then elim (accept_share n t m (get_or h 1 0 % 2 ^ 16) now v known) [
        | none ↦ none
        | some r' ↦ some (false, r')
      ]
      else some (true, known)
    else some (false, r)

-- `HandleTCPMessage`. OPCODE_ERROR is 5, and OPCODE_PEERLIST 1.
unfoldable pub handle_tcp : Neighbours → Texts → List ℕ → ℕ → Member → Option (Bool × Member)
handle_tcp n t m now r =
    if get_opcode m == 5
    then (let (c, ends) = handle_error r.client (get_or (get_header_values error_sizes m) 0 0) in
        some (ends, record r { client = c }))
    else if get_opcode m == 1
    then handle_peerlist n t m now r
    else some (false, r)
