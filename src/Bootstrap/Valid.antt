-- ===== src/Bootstrap/Valid.antt =====
-- What holds of every channel of the server of src/bootstrap/bootstrap.cpp, and that the parts of its
-- handlers keep it.
use tvpp_dev_base.Base.{
  ℕ, ◌+◌, ◌%◌, ◌^◌, ◌≡◌, ◌≢◌, refl, ap, sym, ◌∙◌, inl, inr, true, ◌==◌, ==_self, if◌then◌else◌,
  none, some, [], ◌∷◌, arith, Option-cases, Bool-cases,
}
use tvpp_dev_base.Base.Sets.{IsSorted, insert-Above}
use tvpp_dev_base.Base.Maps.{keys, find, assign, find-assign, keys-assign}
use tvpp_dev_base.PeerData.{Peer, PeerData, make_peer_data, set_hit_count, dec_ttl_channel}
use tvpp_dev_base.Channel.{Channel, add_peer, has_peer, get_peer, check_active_peers, age_all}
use tvpp_dev_base.Channel.Expiry.{check_active_peers-find}
use tvpp_dev_base.Channel.Create.{
  make_channel-new_channel, new_channel, set_indicate_class_position,
}
use tvpp_dev_base.Channel.Members.{add_peer_cases, add_peer-has_peer}
use tvpp_dev_base.Channel.Named.{
  Entries, AreTidy, AreNamed, find-AreNamed, assign-AreTidy, erase_each-AreNamed,
}
use tvpp_dev_base.Channel.Renew.{entry_of}
use tvpp_dev_base.Bootstrap.{
  Bootstrap, Config, set_channel, with_hit_count, shared_peer, create_channel, connect_channel,
}
use tvpp_dev_base.Bootstrap.Sweep.{check_channels, has_server, swept, check_channels-find}

-- The entries are in order and under their names, and the server is one of them.
pub record IsValidChannel (c : Channel) : Type 0 where
  pub tidy : AreTidy c.peer_list
  pub with_server :
      (s : Peer) × (c.server ≡ some s) × ((d : PeerData) × (find c.peer_list s.id ≡ some d))

pub record IsValid (b : Bootstrap) : Type 0 where
  pub sorted : IsSorted (keys b.channel_list)
  pub channels : (k : ℕ) (c : Channel) → find b.channel_list k ≡ some c → IsValidChannel c

pub set_channel-IsValid :
    (b : Bootstrap) (k : ℕ) (c : Channel)
    → IsValid b
    → IsValidChannel c
    → IsValid (set_channel b k c)
set_channel-IsValid b k c v h = record {
  sorted =
      rw (keys-assign b.channel_list k c)
        (insert-Above k 0 (keys b.channel_list) (omega arith) v.sorted);
  channels = λ j c' e. elim (Bool-cases (j == k)) [
    | inl y ↦
        let same : c ≡ c' = ground (arith, y, find-assign b.channel_list k j c, e) in
        rw (sym same) h
    | inr y ↦ v.channels j c' (ground (arith, y, find-assign b.channel_list k j c, e))
  ];
}

-- An entry of a valid channel, written with a peer of the same id.
pub assign-IsValidChannel :
    (c : Channel) (k : ℕ) (d : PeerData)
    → (p : Peer) × (d.peer ≡ some p) × (p.id ≡ k)
    → IsValidChannel c
    → IsValidChannel (record c { peer_list = assign c.peer_list k d })
assign-IsValidChannel c k d h v = record {
  tidy = assign-AreTidy c.peer_list k d h v.tidy;
  with_server = (
    v.with_server.0,
    v.with_server.1,
    elim (Bool-cases (v.with_server.0.id == k)) [
      | inl y ↦ (d, find-assign c.peer_list k v.with_server.0.id d ∙ ground (arith, y))
      | inr y ↦ (
        v.with_server.2.0,
        find-assign c.peer_list k v.with_server.0.id d ∙ ground (arith, y, v.with_server.2.1),
      )
    ],
  );
}

-- The entry of a peer that the channel has.
pub has_peer-entry_of :
    (c : Channel) (k : ℕ)
    → has_peer c k ≡ true
    → AreNamed c.peer_list
    → (find c.peer_list k ≡ some (entry_of c.peer_list k))
      × ((p : Peer) × ((entry_of c.peer_list k).peer ≡ some p) × (p.id ≡ k))
unfolding has_peer get_peer
has_peer-entry_of c k h a = elim (Option-cases (find c.peer_list k)) [
  | inl f ↦ absurd (ground (arith, rw (has_peer, get_peer, f) at h))
  | inr (d, f) ↦
      let same : entry_of c.peer_list k ≡ d = ground (arith, f) in
      rw same (f, find-AreNamed c.peer_list k d a f)
]

-- A peer of a valid channel that is in its list.
pub found-has_peer :
    (c : Channel) (k : ℕ) (d : PeerData)
    → AreNamed c.peer_list
    → find c.peer_list k ≡ some d
    → has_peer c k ≡ true
unfolding has_peer get_peer
found-has_peer c k d a f = ground (arith, f, (find-AreNamed c.peer_list k d a f).1)

pub with_hit_count-IsValidChannel :
    (c : Channel) (k hits : ℕ)
    → (p : Peer) × ((entry_of c.peer_list k).peer ≡ some p) × (p.id ≡ k)
    → IsValidChannel c
    → IsValidChannel (with_hit_count c k hits)
unfolding set_hit_count
with_hit_count-IsValidChannel c k hits h v =
    assign-IsValidChannel c k (set_hit_count (entry_of c.peer_list k) hits) h v

-- The channel that CHANNEL_CREATE makes.
abbrev pub created : Config → Bootstrap → ℕ → ℕ → Peer → Channel
created cfg b now id p =
    set_indicate_class_position
      (with_hit_count
        (new_channel id p cfg.dynamic_topology_arrangement b.peer_percent_change_allowed
          b.bandwidth_join_class_b b.bandwidth_join_class_c b.bandwidth_join_class_d now)
        p.id ((b.hit_count + b.time_new_out_delay_starts) % 2 ^ 16))
      cfg.indicate_class_position

pub create_channel-created :
    (cfg : Config) (b : Bootstrap) (fresh : Channel) (now id : ℕ) (p : Peer)
    → create_channel cfg b fresh now id p
      ≡ some (created cfg b now id p, shared_peer (created cfg b now id p) p)
unfolding create_channel
create_channel-created cfg b fresh now id p = ground (
  arith,
  make_channel-new_channel fresh id p cfg.dynamic_topology_arrangement b.peer_percent_change_allowed
      b.bandwidth_join_class_b b.bandwidth_join_class_c b.bandwidth_join_class_d now,
)

-- Its only entry is that of the server.
pub created-entry :
    (cfg : Config) (b : Bootstrap) (now id : ℕ) (p : Peer)
    → (created cfg b now id p).peer_list
      ≡ (
        p.id,
        set_hit_count
            (make_peer_data (some p))
            ((b.hit_count + b.time_new_out_delay_starts) % 2 ^ 16),
      )
        ∷ []
unfolding set_indicate_class_position set_hit_count assign
created-entry cfg b now id p = ground (arith, ==_self p.id)

-- The entry of the server in a channel just made.
abbrev pub server_entry : Bootstrap → Peer → PeerData
server_entry b p =
    set_hit_count (make_peer_data (some p)) ((b.hit_count + b.time_new_out_delay_starts) % 2 ^ 16)

pub find-created :
    (cfg : Config) (b : Bootstrap) (now id : ℕ) (p : Peer)
    → find (created cfg b now id p).peer_list p.id ≡ some (server_entry b p)
find-created cfg b now id p =
    ap (λ m. find m p.id) (created-entry cfg b now id p) ∙ ground (arith, ==_self p.id)

pub created-IsValidChannel :
    (cfg : Config) (b : Bootstrap) (now id : ℕ) (p : Peer) → IsValidChannel (created cfg b now id p)
unfolding set_indicate_class_position set_hit_count make_peer_data
created-IsValidChannel cfg b now id p =
    let entries = created-entry cfg b now id p in
    record {
      tidy = rw entries ((omega arith, tt), ((p, refl, refl), tt));
      with_server = (p, refl, (server_entry b p, find-created cfg b now id p));
    }

-- The peer that the source points to keeps its id.
pub shared_peer-id : (c : Channel) (p : Peer) → AreNamed c.peer_list → (shared_peer c p).id ≡ p.id
unfolding get_peer
shared_peer-id c p a = elim (Option-cases (find c.peer_list p.id)) [
  | inl f ↦ ground (arith, f)
  | inr (d, f) ↦
      let named = find-AreNamed c.peer_list p.id d a f in ground (arith, f, named.1, named.2)
]

-- A call of CHANNEL_CONNECT that returns keeps the channel, or adds an entry for the peer.
pub connect_channel_cases :
    (b : Bootstrap) (c : Channel) (p : Peer) (r : Channel × Peer)
    → connect_channel b c p ≡ some r
    → IsValidChannel c
    → IsValidChannel r.0
      × (has_peer r.0 p.id ≡ true)
      × (r.1.id ≡ p.id)
      × ((k : ℕ) → k ≢ p.id → find r.0.peer_list k ≡ find c.peer_list k)
unfolding connect_channel
connect_channel_cases b c p r e v = elim (Bool-cases (has_peer c p.id)) [
  | inl t ↦
      let same : r ≡ (c, p) = ground (arith, rw (connect_channel, t) at e) in
      rw same (v, t, refl, λ k n. refl)
  | inr t ↦ elim (Option-cases (add_peer c p b.hit_count)) [
    | inl f ↦ absurd (ground (arith, rw (connect_channel, t, f) at e))
    | inr (c', f) ↦
        let same : r ≡ (c', shared_peer c' p) = ground (arith, rw (connect_channel, t, f) at e) in
        let made = add_peer_cases c c' p b.hit_count f in
        let fresh = made.2.same_peer in
        let grown = add_peer-has_peer c c' p b.hit_count f v.tidy.0 in
        let valid : IsValidChannel c' =
          rw made.1 (assign-IsValidChannel c p.id made.0 (fresh.0, fresh.1, fresh.2) v) in
        rw same (valid, grown.0, shared_peer-id c' p valid.tidy.1, grown.1)
  ]
]

age_all-AreNamed : (m : Entries) → AreNamed m → AreNamed (age_all m).0
unfolding age_all dec_ttl_channel
age_all-AreNamed [] a = tt
age_all-AreNamed (e ∷ m) a = (a.0, age_all-AreNamed m a.1)

pub check_active_peers-AreNamed :
    (c : Channel) → AreNamed c.peer_list → AreNamed (check_active_peers c).peer_list
unfolding check_active_peers
check_active_peers-AreNamed c a =
    erase_each-AreNamed (age_all c.peer_list).1 (age_all c.peer_list).0
      (age_all-AreNamed c.peer_list a)

-- A round of `CheckActivePeers` that leaves the server in the list.
pub check_active_peers-IsValidChannel :
    (c : Channel)
    → (v : IsValidChannel c) → has_peer (check_active_peers c) v.with_server.0.id ≡ true
    → IsValidChannel (check_active_peers c)
unfolding check_active_peers
check_active_peers-IsValidChannel c v h =
    let named = check_active_peers-AreNamed c v.tidy.1 in
    record {
      tidy = ((check_active_peers-find c 0 v.tidy.0).1, named);
      with_server = (
        v.with_server.0,
        v.with_server.1,
        (
          entry_of (check_active_peers c).peer_list v.with_server.0.id,
          (has_peer-entry_of (check_active_peers c) v.with_server.0.id h named).0,
        ),
      );
    }

pub has_server-round :
    (c : Channel) (s : Peer)
    → c.server ≡ some s
    → has_server (check_active_peers c) ≡ some (has_peer (check_active_peers c) s.id)
unfolding check_active_peers
has_server-round c s e = ground (arith, e)

-- What `CheckPeerList` makes of a channel with a server.
pub swept-server :
    (c : Channel) (s : Peer)
    → c.server ≡ some s
    → swept (some c)
      ≡ (if has_peer (check_active_peers c) s.id then some (check_active_peers c) else none)
swept-server c s e = ground (arith, has_server-round c s e)

-- What `CheckPeerList` keeps of a valid channel.
swept-IsValidChannel :
    (c c' : Channel) → IsValidChannel c → swept (some c) ≡ some c' → IsValidChannel c'
swept-IsValidChannel c c' v e =
    let kept = sym (swept-server c v.with_server.0 v.with_server.1) ∙ e in
    elim (Bool-cases (has_peer (check_active_peers c) v.with_server.0.id)) [
      | inl t ↦
          let same : check_active_peers c ≡ c' = ground (arith, rw t at kept) in
          rw (sym same) (check_active_peers-IsValidChannel c v t)
      | inr t ↦ absurd (ground (arith, rw t at kept))
    ]

-- A round of `CheckPeerList` that returns keeps the server valid.
pub check_channels-IsValid :
    (b b' : Bootstrap) → IsValid b → check_channels b ≡ some b' → IsValid b'
check_channels-IsValid b b' v e = record {
  sorted = (check_channels-find b b' 0 e v.sorted).1;
  channels = λ k c' f.
      let same = (check_channels-find b b' k e v.sorted).0 in
      elim (Option-cases (find b.channel_list k)) [
        | inl g ↦ absurd (ground (arith, f, same, rw g at same))
        | inr (c, g) ↦
            swept-IsValidChannel c c' (v.channels k c g) (ap swept (sym g) ∙ sym same ∙ f)
      ];
}
