-- ===== src/Connector/Room.antt =====
-- `ConnectPeer` of src/client/PeerManager.cpp on a list that has room.
use tvpp_dev_base.Base.{
  ℕ, ◌≡◌, refl, ◌∙◌, ◌⊎◌, inl, inr, Bool, true, ltb, some, List, length, arith, Option-cases,
  Bool-cases,
}
use tvpp_dev_base.Base.Sets.{contains, insert, eq_set}
use tvpp_dev_base.PeerData.{PeerData, ttl_max, set_ttl_in, set_ttl_out}
use tvpp_dev_base.PeerManager.{
  PeerManager, Which, ins, outs, outs_free, active, set_active, get_cooldown, is_active_out_free,
  try_insert, reset_ttl, set_entry, get_max_active_peers, connect_peer, entry,
}

set_active-active :
    (p : PeerManager) (w : Which) (s : List ℕ)
    → (active (set_active p w s) w ≡ s)
      × (get_max_active_peers (set_active p w s) w ≡ get_max_active_peers p w)
set_active-active p ins s = (refl, refl)
set_active-active p outs s = (refl, refl)
set_active-active p outs_free s = (refl, refl)

set_entry-active :
    (p : PeerManager) (w : Which) (k : ℕ) (d : PeerData)
    → (active (set_entry p k d) w ≡ active p w)
      × (get_max_active_peers (set_entry p k d) w ≡ get_max_active_peers p w)
set_entry-active p ins k d = (refl, refl)
set_entry-active p outs k d = (refl, refl)
set_entry-active p outs_free k d = (refl, refl)

reset_ttl-active :
    (p : PeerManager) (w : Which) (k : ℕ)
    → (active (reset_ttl p k w) w ≡ active p w)
      × (get_max_active_peers (reset_ttl p k w) w ≡ get_max_active_peers p w)
unfolding reset_ttl
reset_ttl-active p w k = elim (Bool-cases (eq_set (active p w) p.active_in)) [
  | inl t ↦ rw t (set_entry-active p w k (set_ttl_in (entry (p.peer_list k)) ttl_max))
  | inr t ↦
      rw t (
        set_entry-active p w k (set_ttl_out (entry (p.peer_list k)) ttl_max (is_active_out_free w)))
]

-- `ConnectPeer` where the list has room: the limit stays, and the peer is inserted or nothing changes.
pub connect_room :
    (p q : PeerManager) (k : ℕ) (w : Which) (b : Bool)
    → ltb (length (active p w)) (get_max_active_peers p w) ≡ true
    → connect_peer p k w ≡ some (b, q)
    → (get_max_active_peers q w ≡ get_max_active_peers p w)
      × ((active q w ≡ active p w) ⊎ (active q w ≡ insert k (active p w)))
unfolding connect_peer try_insert
connect_room p q k w b l e =
    let p' = set_active p w (insert k (active p w)) in
    let put = set_active-active p w (insert k (active p w)) in
    elim (Option-cases (get_cooldown p w k)) [
      | inr (n, f) ↦
          let same : q ≡ p = ground (arith, rw (connect_peer, f) at e) in rw same (refl, inl refl)
      | inl f ↦ elim (Bool-cases (contains k (active p w))) [
        | inl t ↦
            let same : q ≡ p' = ground (arith, rw (connect_peer, f, try_insert, l, t) at e) in
            rw same (put.1, inr put.0)
        | inr t ↦
            let same : q ≡ reset_ttl p' k w =
              ground (arith, rw (connect_peer, f, try_insert, l, t) at e) in
            let kept = reset_ttl-active p' w k in rw same (kept.1 ∙ put.1, inr (kept.0 ∙ put.0))
      ]
    ]
