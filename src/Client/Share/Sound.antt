-- ===== src/Client/Share/Sound.antt =====
-- `HandlePeerlistMessage` of src/client/client.cpp and the partners that the client keeps.
use tvpp_dev_base.Base.{
  ℕ, zero, suc, ◌+◌, ◌%◌, ◌^◌, ◌≡◌, inl, inr, Bool, true, false, ◌==◌, some, List, [], ◌∷◌, length,
  get_or, arith, Option-cases, Bool-cases,
}
use tvpp_dev_base.Base.Int.{ℤ, negsuc}
use tvpp_dev_base.Message.{get_header_values}
use tvpp_dev_base.Messages.{peerlist_sizes}
use tvpp_dev_base.PeerData.{Peer, PeerData}
use tvpp_dev_base.PeerManager.{
  PeerManager, Which, ins, outs, outs_free, active, get_max_active_peers, add_peer, connect_peer,
}
use tvpp_dev_base.Base.Sets.{contains}
use tvpp_dev_base.PeerManager.Sweep.{known}
use tvpp_dev_base.PeerManager.Sizes.{set_new_max_out}
use tvpp_dev_base.PeerManager.Narrowed.{Sorts, set_new_max_out-Narrowed}
use tvpp_dev_base.PeerManager.Named.{add_peer-HasNamed, connect_peer-HasNamed}
use tvpp_dev_base.PeerManager.Connection.{connect_peer-Connected}
use tvpp_dev_base.PeerManager.Valid.{
  members-known, add_peer-IsValid, connect_peer-IsValid, set_new_max_out-IsValid,
}
use tvpp_dev_base.Request.{execute_on}
use tvpp_dev_base.Connector.{inactive_peers, vacancies, connect_first, connect}
use tvpp_dev_base.Connector.Filled.{
  Each, Picks, AreKnownIds, IsNamed, IsNamed-on, IsOffered, inactive_peers-IsOffered,
  offered-IsNamed, executed,
}
use tvpp_dev_base.Client.Share.{
  Member, Texts, Neighbours, ShareValues, share_values_of, received_peer, add_received,
  authenticate, meet_peers, accept_share, handle_peerlist,
}
use tvpp_dev_base.Client.Dispatch.Sound.{IsSound}

connect_first-IsSound :
    (P : ℕ → Type 0) (n : ℕ) (es : List (ℕ × PeerData)) (p q : PeerManager) (w : Which)
    → connect_first n es p w ≡ some q
    → Each (IsNamed p P) es
    → IsSound p
    → IsSound q
unfolding connect_first
connect_first-IsSound P zero es p q w e h s = let same : q ≡ p = ground (arith, e) in rw same s
connect_first-IsSound P (suc n) [] p q w e h s = absurd (ground (arith, e))
connect_first-IsSound P (suc n) (d ∷ es) p q w e h s =
    let (r, f, i) = h.0.1 in
    elim (Option-cases (connect_peer p r.id w)) [
      | inl g ↦ absurd (ground (arith, rw (connect_first, f, g) at e))
      | inr ((done, p'), g) ↦
          let connected : IsSound p' = record {
            valid = connect_peer-IsValid p r.id w done p' g (known_as d r i h.0.0) s.valid;
            named = connect_peer-HasNamed p p' r.id w done g (known_as d r i h.0.0) s.named;
          } in
          connect_first-IsSound P n es p' q w (rw (connect_first, f, g) at e)
            (IsNamed-on p p' P es (connect_peer-Connected p r.id w done p' g).peers h.1) connected
    ]
  where
    known_as :
        (d : ℕ × PeerData) (r : Peer)
        → r.id ≡ d.0
        → known (p.peer_list d.0) d.0 ≡ true
        → known (p.peer_list r.id) r.id ≡ true
    known_as d r i h = rw i h

connect-IsSound :
    (strategy : ℕ → List (ℕ × PeerData) → List (ℕ × PeerData)) (ids : List ℕ) (p q : PeerManager)
    (w : Which)
    → connect strategy ids p w ≡ some q
    → ((n : ℕ) → Picks (strategy n))
    → AreKnownIds p ids
    → IsSound p
    → IsSound q
unfolding connect
connect-IsSound strategy ids p q w e keeps known_ids s =
    let peers = execute_on (strategy (get_max_active_peers p w)) (inactive_peers p w ids) in
    connect_first-IsSound (λ k. contains k (active p w) ≡ false) (vacancies p w (length peers))
      peers p q w e
      (offered-IsNamed p w peers (
        executed (strategy (get_max_active_peers p w)) (IsOffered p w) (inactive_peers p w ids)
          (keeps (get_max_active_peers p w)) (inactive_peers-IsOffered p w ids known_ids)))
      s

add_received-IsSound :
    (t : Texts) (m : List ℕ) (i n : ℕ) (p q : PeerManager)
    → add_received t m i n p ≡ some q
    → IsSound p
    → IsSound q
unfolding add_received
add_received-IsSound t m i zero p q e s = let same : q ≡ p = ground (arith, e) in rw same s
add_received-IsSound t m i (suc n) p q e s =
    let new = received_peer t m i in
    elim (Option-cases (add_peer p new (negsuc 0) (negsuc 0))) [
      | inl f ↦ absurd (ground (arith, rw (add_received, f) at e))
      | inr ((is_new, p'), f) ↦
          add_received-IsSound t m (i + 1) n p' q (rw (add_received, f) at e) (record {
            valid = add_peer-IsValid p new (negsuc 0) (negsuc 0) is_new p' f s.valid;
            named = (add_peer-HasNamed p p' new (negsuc 0) (negsuc 0) is_new f s.named).0;
          })
    ]

narrowed-IsSound :
    (sort : List (ℕ × ℕ) → List (ℕ × ℕ)) (p q : PeerManager) (n : ℤ) (w : Which)
    → set_new_max_out sort p n w ≡ some q
    → Sorts sort
    → IsSound p
    → IsSound q
narrowed-IsSound sort p q n w e keeps s = record {
  valid = set_new_max_out-IsValid sort p n w q keeps e s.valid;
  named =
      rw
        (set_new_max_out-Narrowed sort p n w q keeps (members-known p s.valid.are_known)
          e).same_peers
        s.named;
}

-- What the code outside of the client keeps to: the sort makes no new pairs, the ids are those of known
-- peers, and the strategy picks from its vector.
pub record AreSteady (n : Neighbours) : Type 1 where
  pub sorts : Sorts n.sort
  pub known_ids : (p : PeerManager) → AreKnownIds p (n.ids p)
  pub picks : (k : ℕ) → Picks (n.strategy k)

meet_peers-IsSound :
    (n : Neighbours) (t : Texts) (m : List ℕ) (received : ℕ) (v : ShareValues) (p q : PeerManager)
    → meet_peers n t m received v p ≡ some q
    → AreSteady n
    → IsSound p
    → IsSound q
unfolding meet_peers
meet_peers-IsSound n t m received v p q e a s =
    elim (Option-cases (set_new_max_out n.sort p v.new_out outs)) [
      | inl f ↦ absurd (ground (arith, rw (meet_peers, f) at e))
      | inr (p1, f) ↦ elim (Option-cases (set_new_max_out n.sort p1 v.new_out_free outs_free)) [
        | inl g ↦ absurd (ground (arith, rw (meet_peers, f, g) at e))
        | inr (p2, g) ↦ elim (Option-cases (add_received t m 0 received p2)) [
          | inl h ↦ absurd (ground (arith, rw (meet_peers, f, g, h) at e))
          | inr (p3, h) ↦
              let first = narrowed-IsSound n.sort p p1 v.new_out outs f a.sorts s in
              let second = narrowed-IsSound n.sort p1 p2 v.new_out_free outs_free g a.sorts first in
              connect-IsSound n.strategy (n.ids p3) p3 q ins (rw (meet_peers, f, g, h) at e) a.picks
                (a.known_ids p3) (add_received-IsSound t m 0 received p2 p3 h second)
        ]
      ]
    ]

accept_share-IsSound :
    (n : Neighbours) (t : Texts) (m : List ℕ) (received now : ℕ) (v : ShareValues) (r r' : Member)
    → accept_share n t m received now v r ≡ some r'
    → AreSteady n
    → IsSound r.client.peer_manager
    → IsSound r'.client.peer_manager
unfolding accept_share
accept_share-IsSound n t m received now v r r' e a s = elim (Bool-cases (r.client.peer_mode == 1)) [
  | inl f ↦
      let same : r'.client.peer_manager ≡ r.client.peer_manager =
        ground (arith, rw (accept_share, f) at e) in
      rw same s
  | inr f ↦ elim (Option-cases (meet_peers n t m received v r.client.peer_manager)) [
    | inl g ↦ absurd (ground (arith, rw (accept_share, f, g) at e))
    | inr (p, g) ↦
        let same : r'.client.peer_manager ≡ p = ground (arith, rw (accept_share, f, g) at e) in
        rw same (meet_peers-IsSound n t m received v r.client.peer_manager p g a s)
  ]
]

authenticate_keeps :
    (r : Member) (v : ShareValues) → (authenticate r v).client.peer_manager ≡ r.client.peer_manager
unfolding authenticate
authenticate_keeps r v = ground arith

-- The answer of the bootstrap server keeps sound partners sound, where the handler returns.
pub handle_peerlist-IsSound :
    (n : Neighbours) (t : Texts) (m : List ℕ) (now : ℕ) (r : Member) (o : Bool × Member)
    → handle_peerlist n t m now r ≡ some o
    → AreSteady n
    → IsSound r.client.peer_manager
    → IsSound o.1.client.peer_manager
unfolding handle_peerlist
handle_peerlist-IsSound n t m now r o e a s =
    let h = get_header_values peerlist_sizes m in
    let v = share_values_of t m in
    let checked = authenticate r v in
    let kept = authenticate_keeps r v in
    elim (Bool-cases (get_or h 0 0 == 1)) [
      | inr f ↦
          let same : o ≡ (false, r) = ground (arith, rw (handle_peerlist, f) at e) in rw same s
      | inl f ↦ elim (Bool-cases (checked.boot_id == v.boot_id)) [
        | inr g ↦
            let same : o ≡ (true, checked) = ground (arith, rw (handle_peerlist, f, g) at e) in
            rw (same, kept) s
        | inl g ↦ elim (Option-cases (accept_share n t m (get_or h 1 0 % 2 ^ 16) now v checked)) [
          | inl k ↦ absurd (ground (arith, rw (handle_peerlist, f, g, k) at e))
          | inr (r', k) ↦
              let same : o ≡ (false, r') = ground (arith, rw (handle_peerlist, f, g, k) at e) in
              rw same (
                accept_share-IsSound n t m (get_or h 1 0 % 2 ^ 16) now v checked r' k a (rw kept s))
        ]
      ]
    ]
