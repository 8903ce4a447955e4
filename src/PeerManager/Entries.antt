-- ===== src/PeerManager/Entries.antt =====
-- What `AddPeer` and `ConnectPeer` of src/client/PeerManager.cpp write into the entry of a peer.
use tvpp_dev_base.Base.{ℕ, ◌<◌, ◌≡◌, ◌≢◌, true, false, Option, none, some, arith, length}
use tvpp_dev_base.Base.Int.{ℤ, negsuc}
use tvpp_dev_base.Base.Sets.{contains, insert, eq_set}
use tvpp_dev_base.PeerData.{
  Peer, PeerData, ttl_max, make_peer_data, get_size_out, get_size_out_free, set_ttl_in,
}
use tvpp_dev_base.PeerManager.{
  PeerManager, Which, ins, outs, outs_free, put, add_peer, connect_peer, try_insert, reset_ttl,
}
use tvpp_dev_base.PeerManager.Sweep.{known, ttl}

-- The sizes in an entry.
abbrev pub sizes : Option PeerData → Option ℤ × Option ℤ
sizes none = (none, none)
sizes (some d) = (get_size_out d, get_size_out_free d)

-- `AddPeer` of a peer that is not known makes an entry with the two sizes and full TTLs.
pub add_peer-new :
    (p : PeerManager) (r : Peer) (out out_free : ℤ)
    → p.peer_list r.id ≡ none
    → (q : PeerManager) × (add_peer p r out out_free ≡ some (true, q))
      × (sizes (q.peer_list r.id) ≡ (some out, some out_free))
      × (known (q.peer_list r.id) r.id ≡ true)
      × ((w : Which) → ttl (q.peer_list r.id) w ≡ ttl_max)
      × ((j : ℕ) → j ≢ r.id → q.peer_list j ≡ p.peer_list j)
unfolding add_peer make_peer_data get_size_out get_size_out_free
add_peer-new p r out out_free h = (
  record p { peer_list = put p.peer_list r.id (some (made)) },
  rw (h, add_peer),
  ground arith,
  ground arith,
  time,
  λ j o. ground arith,
)
  where
    made : PeerData
    made = make_peer_data (some (record r { size_out = out; size_out_free = out_free }))

    time : (w : Which) → ttl (put p.peer_list r.id (some made) r.id) w ≡ ttl_max
    time ins = ground arith
    time outs = ground arith
    time outs_free = ground arith

-- `AddPeer` of a known peer with its default sizes, -1 and -1, keeps the size of its out list and yet
-- sets that of its free out list to -1.
pub add_peer_default :
    (p : PeerManager) (r old : Peer) (d : PeerData)
    → p.peer_list r.id ≡ some d
    → d.peer ≡ some old
    → (q : PeerManager) × (add_peer p r (negsuc 0) (negsuc 0) ≡ some (false, q))
      × (sizes (q.peer_list r.id) ≡ (some old.size_out, some (negsuc 0)))
unfolding add_peer get_size_out get_size_out_free
add_peer_default p r old d h g = (
  record p {
    peer_list =
        put p.peer_list r.id
          (some (record d { peer = some (record old { size_out_free = negsuc 0 }) }));
  },
  ground arith,
  ground arith,
)

-- `ConnectPeer` of a peer to an out list with room, which then holds the same peers as the in list:
-- the peer is inserted, and the TTL that is renewed is that of the in list.
pub connect_peer_same_contents :
    (p : PeerManager) (k : ℕ)
    → p.cooldown_out k ≡ none
    → length p.active_out < p.max_out
    → contains k p.active_out ≡ false
    → eq_set (insert k p.active_out) p.active_in ≡ true
    → (q : PeerManager) × (connect_peer p k outs ≡ some (true, q))
      × (q.active_out ≡ insert k p.active_out)
      × (ttl (q.peer_list k) ins ≡ ttl_max)
      × (ttl (q.peer_list k) outs ≡ ttl (p.peer_list k) outs)
unfolding connect_peer try_insert reset_ttl set_ttl_in
connect_peer_same_contents p k c room out same = (
  reset_ttl (record p { active_out = insert k p.active_out }) k outs,
  ground arith,
  ground arith,
  ground arith,
  ground arith,
)
