-- ===== src/Client/Pings.antt =====
-- `HandlePingMessage`, `HandlePingMessageIn` and `HandlePingMessageOut` of src/client/client.cpp.
use tvpp_dev_base.Base.{
  ℕ, ◌/◌, ◌%◌, ◌^◌, Bool, true, false, ◌==◌, if◌then◌else◌, Option, none, some, List, get_or,
}
use tvpp_dev_base.Base.Int.{pos, negsuc}
use tvpp_dev_base.ChunkUniqueId.{ChunkUniqueId, make, std_buffer_size}
use tvpp_dev_base.Message.{get_header_values, get_header_size}
use tvpp_dev_base.Messages.{ping_sizes}
use tvpp_dev_base.PeerData.{PeerData, make_peer, set_ttl_in, set_ttl_out, set_mode, set_chunk_map}
use tvpp_dev_base.PeerManager.{
  PeerManager, Which, ins, is_peer_active, is_active_out_free, get_peer_active_out, add_peer,
  connect_peer, entry, set_entry,
}
use tvpp_dev_base.Client.{Client}
use tvpp_dev_base.Client.Bits.{bytes_to_bitset, bytes_at}

-- The values of a ping, as the handlers read them.
pub record PingValues : Type 0 where
  pub ping_type : ℕ
  pub mode : ℕ
  pub tip_chunk : ChunkUniqueId
  pub size_out : ℕ
  pub size_out_free : ℕ

unfoldable pub ping_values_of : List ℕ → PingValues
ping_values_of m =
    let h = get_header_values ping_sizes m in
    record {
      ping_type = get_or h 0 0 % 2 ^ 8;
      mode = get_or h 1 0;
      tip_chunk = make (get_or h 2 0) (get_or h 3 0 % 2 ^ 16) std_buffer_size;
      size_out = get_or h 4 0 % 2 ^ 16;
      size_out_free = get_or h 5 0 % 2 ^ 16;
    }

-- A change of an entry through the pointer that `GetPeerData` returns.
abbrev pub modify_entry : PeerManager → ℕ → (PeerData → PeerData) → PeerManager
modify_entry p k f = set_entry p k (f (entry (p.peer_list k)))

-- The peer becomes known, and active in the list `w` unless that fails: the manager, and whether it is
-- active. `ip` is the IP of the id `source`.
unfoldable pub admit_peer : PeerManager → Which → ℕ → ℕ → PingValues → Option (PeerManager × Bool)
admit_peer p w source ip v =
    let new = make_peer source ip (pos v.size_out) (pos v.size_out_free) (negsuc 0) in
    elim (add_peer p new (pos v.size_out) (pos v.size_out_free)) [
      | none ↦ none
      | some (is_new, p1) ↦
          if is_peer_active p1 source w then some (p1, true) else elim (connect_peer p1 source w) [
            | none ↦ none
            | some (connected, p2) ↦ some (p2, connected)
          ]
    ]

-- `HandlePingMessageIn`; `bits` is the chunk map that follows the header. PING_PART_CHUNKMAP is 4.
unfoldable pub ping_in : Client → ℕ → ℕ → PingValues → List Bool → Option Client
ping_in c source ip v bits = elim (admit_peer c.peer_manager ins source ip v) [
  | none ↦ none
  | some (p, false) ↦ some (record c { peer_manager = p })
  | some (p, true) ↦
      let alive = modify_entry p source (λ d. set_mode (set_ttl_in d c.ttl_max_in) v.mode) in
      some (record c {
        peer_manager =
            if v.ping_type == 4
            then if is_peer_active alive source ins
              then modify_entry alive source (λ d. set_chunk_map d v.tip_chunk bits)
              else alive
            else alive;
      })
]

-- `HandlePingMessageOut`; `separated` is the flag `separatedFreeOutList`.
unfoldable pub ping_out : Bool → Client → ℕ → ℕ → PingValues → Option Client
ping_out separated c source ip v =
    let w = get_peer_active_out c.peer_manager separated v.size_out in
    elim (admit_peer c.peer_manager w source ip v) [
      | none ↦ none
      | some (p, false) ↦ some (record c { peer_manager = p })
      | some (p, true) ↦ some (record c {
        peer_manager =
            modify_entry p source
              (λ d. set_mode (set_ttl_out d c.ttl_max_out (is_active_out_free w)) v.mode);
      })
    ]

-- `HandlePingMessage`. PING_LIVE_OUT is 5.
unfoldable pub handle_ping : Bool → Client → ℕ → ℕ → List ℕ → Option Client
handle_ping separated c source ip m =
    let v = ping_values_of m in
    if v.ping_type == 5
    then ping_out separated c source ip v
    else ping_in c source ip v
        (bytes_to_bitset (bytes_at m (get_header_size m) (c.buffer_size / 8)))
