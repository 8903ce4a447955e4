-- ===== src/Channel/Members.antt =====
-- Who is in a channel after the operations of src/common/Channel.cpp.
use tvpp_dev_base.Base.{
  ℕ, ◌≡◌, refl, ◌∙◌, ap, inl, inr, ◌≢◌, true, false, none, some, List, ◌∷◌, arith, Option-cases,
  Bool-cases,
}
use tvpp_dev_base.Base.Int.{pos, ltb_ℤ}
use tvpp_dev_base.Base.Sets.{IsSorted, insert-Above, erase-Above}
use tvpp_dev_base.Base.Maps.{
  keys, find, assign, find-assign, find-erase_entry, keys-assign, keys-erase_entry,
}
use tvpp_dev_base.PeerData.{
  Peer, PeerData, make_peer_data, set_hit_count, set_size_out, set_size_out_free, set_size_out_old,
  set_size_out_old_free, ttl_max,
}
use tvpp_dev_base.Channel.{
  Channel, TopologyData, TopologyClass, class_c, settings_of, set_class_sizes, is_first_connection,
  suggested_class, assign_class, add_peer, remove_peer, get_peer, has_peer,
}

-- The ids ascend, as `std::map` keeps them.
abbrev pub AreSorted : Channel → Type 0
AreSorted c = IsSorted (keys c.peer_list)

-- An entry that `AddPeer` writes for a peer.
pub record IsFresh (p : Peer) (hit_count : ℕ) (d : PeerData) : Type 0 where
  pub same_peer : (q : Peer) × (d.peer ≡ some q) × (q.id ≡ p.id) × (q.ip ≡ p.ip)
  pub full_ttl : d.ttl_channel ≡ ttl_max
  pub hits : d.hit_count ≡ hit_count

abbrev plain : Peer → ℕ → PeerData
plain p h = set_hit_count (make_peer_data (some p)) h

-- The entry with the sizes of a class.
sized :
    (t : TopologyData) (p : Peer) (h : ℕ)
    → (d : PeerData) × (set_class_sizes t (plain p h) ≡ some d) × IsFresh p h d
unfolding set_class_sizes set_hit_count make_peer_data set_size_out set_size_out_free
    set_size_out_old set_size_out_old_free
sized t p h = (_, refl, record { same_peer = (_, refl, refl, refl); full_ttl = refl; hits = refl })

plain-IsFresh : (p : Peer) (h : ℕ) → IsFresh p h (plain p h)
unfolding set_hit_count make_peer_data
plain-IsFresh p h = record { same_peer = (p, refl, refl, refl); full_ttl = refl; hits = refl }

assign_class-sized :
    (c : Channel) (p : Peer) (k : TopologyClass) (h : ℕ)
    → (d : PeerData) × (assign_class c p k (plain p h)
        ≡ some (record c { peer_list = assign c.peer_list p.id d }))
      × IsFresh p h d
unfolding assign_class
assign_class-sized c p k h =
    let found = sized (settings_of c.class_topology_settings k) p h in
    (found.0, rw (assign_class, found.1) refl, found.2)

-- A call of `AddPeer` that returns writes a new entry for the peer.
pub add_peer_cases :
    (c c' : Channel) (p : Peer) (hit_count : ℕ)
    → add_peer c p hit_count ≡ some c'
    → (d : PeerData) × (c' ≡ record c { peer_list = assign c.peer_list p.id d })
      × IsFresh p hit_count d
unfolding add_peer
add_peer_cases c c' p h e = elim (Option-cases (is_first_connection c p)) [
  | inl f ↦ absurd (ground (arith, rw (add_peer, f) at e))
  | inr (false, f) ↦ (plain p h, ground (arith, rw (add_peer, f) at e), plain-IsFresh p h)
  | inr (true, f) ↦ elim (Bool-cases c.indicate_class_position) [
    | inl i ↦ elim (Option-cases (suggested_class c.class_topology_settings)) [
      | inl g ↦ absurd (ground (arith, rw (add_peer, f, i, g) at e))
      | inr (none, g) ↦ (plain p h, ground (arith, rw (add_peer, f, i, g) at e), plain-IsFresh p h)
      | inr (some k, g) ↦
          let found = assign_class-sized c p k h in
          (found.0, ground (arith, found.1, rw (add_peer, f, i, g) at e), found.2)
    ]
    | inr i ↦
        let found = assign_class-sized c p class_c h in
        (found.0, ground (arith, found.1, rw (add_peer, f, i) at e), found.2)
  ]
]

-- After a call of `AddPeer` that returns the channel has the peer, the entries of the other peers are
-- as they were, and the ids still ascend.
pub add_peer-has_peer :
    (c c' : Channel) (p : Peer) (hit_count : ℕ)
    → add_peer c p hit_count ≡ some c'
    → AreSorted c
    → (has_peer c' p.id ≡ true)
      × ((k : ℕ) → k ≢ p.id → find c'.peer_list k ≡ find c.peer_list k)
      × AreSorted c'
unfolding has_peer get_peer
add_peer-has_peer c c' p h e o =
    let made = add_peer_cases c c' p h e in
    (
      rw made.1 (ground (arith, find-assign c.peer_list p.id p.id made.0, made.2.same_peer.1)),
      λ k n.
          ap (λ (t : Channel). find t.peer_list k) made.1
          ∙ find-assign c.peer_list p.id k made.0
          ∙ ground (arith, n),
      rw (made.1, keys-assign c.peer_list p.id made.0)
          (insert-Above p.id 0 (keys c.peer_list) (omega arith) o),
    )

-- After `RemovePeer` the channel has not the peer, the entries of the others are as they were, and the
-- ids still ascend.
pub remove_peer-has_peer :
    (c : Channel) (k : ℕ)
    → AreSorted c
    → (has_peer (remove_peer c k) k ≡ false)
      × ((j : ℕ) → j ≢ k → find (remove_peer c k).peer_list j ≡ find c.peer_list j)
      × AreSorted (remove_peer c k)
unfolding has_peer get_peer remove_peer
remove_peer-has_peer c k o = (
  ground (arith, find-erase_entry c.peer_list k k o),
  λ j n. find-erase_entry c.peer_list k j o ∙ ground (arith, n),
  rw (keys-erase_entry c.peer_list k) (erase-Above k 0 (keys c.peer_list) o),
)

-- On the first connection of an uploading peer with an empty out list, to a channel with a dynamic
-- topology that indicates classes, `AddPeer` reads the entry at the end of the map of classes.
pub add_peer_indicated :
    (c : Channel) (p s : Peer) (hit_count : ℕ) (e : TopologyClass × TopologyData)
    (rest : List (TopologyClass × TopologyData))
    → c.dynamic_topology_arrangement ≡ true
    → c.indicate_class_position ≡ true
    → c.server ≡ some s
    → p.id ≢ s.id
    → p.size_out ≡ pos 0
    → ltb_ℤ (pos 0) p.limit_upload ≡ true
    → c.class_topology_settings ≡ e ∷ rest
    → add_peer c p hit_count ≡ none
unfolding add_peer is_first_connection suggested_class
add_peer_indicated c p s h e rest d i sv n z l t = ground (arith, d, i, sv, n, z, l, t)
