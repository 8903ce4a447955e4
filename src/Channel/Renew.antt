-- ===== src/Channel/Renew.antt =====
-- `RenewOUTALL`, `NormalizeClasses` and `ConvertePeerClasse` of src/common/Channel.cpp: the server's
-- periodical assignment of the peers to the classes of the topology, by what they sent.
pub mod Steps
pub mod Protected
pub mod Tidy
use tvpp_dev_base.Base.{
  ℕ, zero, suc, ◌+◌, ◌-◌, ◌*◌, ◌/◌, Bool, true, false, ◌&&◌, ◌||◌, not, ltb, ◌==◌, if◌then◌else◌,
  Option, none, some, List, [], ◌∷◌, ◌++◌, length, take, drop,
}
use tvpp_dev_base.Base.Int.{ℤ, pos, pos_part, neg_part, ltb_ℤ}
use tvpp_dev_base.Base.Maps.{find, assign}
use tvpp_dev_base.PeerData.{
  Peer, PeerData, make_peer_data, set_peer_sent_chunks, get_size_out, get_size_out_free, get_pair,
  set_size_out, set_size_out_free, set_size_out_old, set_size_out_old_free,
}
use tvpp_dev_base.Channel.{
  Channel, TopologyData, TopologyClass, class_b, class_c, class_d, same_class, settings_of,
}

-- What `peerList[k]` refers to, which is a new entry if there is none.
abbrev pub entry_of : List (ℕ × PeerData) → ℕ → PeerData
entry_of m k = elim (find m k) [ none ↦ make_peer_data none | some d ↦ d ]

abbrev pub eqb_ℤ : ℤ → ℤ → Bool
eqb_ℤ a b = pos_part a + neg_part b == pos_part b + neg_part a

-- `ConvertePeerClasse` on the peer of an entry: the sizes become the old sizes.
unfoldable pub convert_peer : TopologyData → Peer → Peer
convert_peer t p = record p {
  size_out_old = p.size_out;
  size_out = t.out;
  size_out_old_free = p.size_out_free;
  size_out_free = t.out_free;
}

unfoldable pub convert_peer_class :
    TopologyData → List (ℕ × PeerData) → ℕ → Option (List (ℕ × PeerData))
convert_peer_class t m k = elim (find m k) [
  | none ↦ none
  | some d ↦ elim d.peer [
    | none ↦ none
    | some p ↦ some (assign m k (record d { peer = some (convert_peer t p) }))
  ]
]

-- The size of the out list of an entry.
abbrev pub size_at : List (ℕ × PeerData) → ℕ → Option ℤ
size_at m k = get_size_out (entry_of m k)

-- The round of `NormalizeClasses` for one peer where the two classes differ: a peer outside the class
-- `ref` moves, into it from the class `base`, and otherwise to the class `base`. The result has the
-- number of peers that moved.
unfoldable pub move_peer :
    TopologyData → TopologyData → List (ℕ × PeerData) → ℕ → Option (ℕ × List (ℕ × PeerData))
move_peer base ref m k = elim (size_at m k) [
  | none ↦ none
  | some n ↦
      if eqb_ℤ n ref.out
      then some (0, m)
      else elim (convert_peer_class (if eqb_ℤ n base.out then ref else base) m k) [
        | none ↦ none
        | some m' ↦ some (1, m')
      ]
]

-- The round where the two classes are one.
unfoldable pub settle_peer :
    TopologyData → List (ℕ × PeerData) → ℕ → Option (ℕ × List (ℕ × PeerData))
settle_peer base m k = elim (size_at m k) [
  | none ↦ none
  | some n ↦
      if eqb_ℤ n base.out
      then some (0, m)
      else elim (convert_peer_class base m k) [ none ↦ none | some m' ↦ some (1, m') ]
]

-- The first loop, from the index `i` to `stop`; a step past the end of the vector is `none`.
unfoldable pub settle_from :
    TopologyData → ℕ → ℕ → ℕ → List (ℕ × PeerData) → List (ℕ × ℕ) → Option (ℕ × List (ℕ × PeerData))
settle_from base stop i count m [] = if i == stop then some (count, m) else none
settle_from base stop i count m (x ∷ xs) =
    if i == stop then some (count, m) else elim (settle_peer base m x.0) [
      | none ↦ none
      | some (n, m') ↦ settle_from base stop (i + 1) (count + n) m' xs
    ]

-- The second loop, which ends early when `total` peers have moved.
unfoldable pub move_forward :
    TopologyData
    → TopologyData
    → ℕ
    → ℕ
    → ℕ
    → ℕ
    → List (ℕ × PeerData)
    → List (ℕ × ℕ)
    → Option (ℕ × List (ℕ × PeerData))
move_forward base ref total stop i count m [] =
    if i == stop then some (count, m) else if ltb count total then none else some (count, m)
move_forward base ref total stop i count m (x ∷ xs) =
    if i == stop
    then some (count, m)
    else if ltb count total
    then elim (move_peer base ref m x.0) [
      | none ↦ none
      | some (n, m') ↦ move_forward base ref total stop (i + 1) (count + n) m' xs
    ]
    else some (count, m)

-- The third loop, down from the index before `stop` while it is not `start + 1`. Here `i` is the index
-- plus one, the list has what lies below it, last first, and a step below the first is `none`.
unfoldable pub move_backward :
    TopologyData
    → TopologyData
    → ℕ
    → ℕ
    → ℕ
    → ℕ
    → List (ℕ × PeerData)
    → List (ℕ × ℕ)
    → Option (ℕ × List (ℕ × PeerData))
move_backward base ref total start i count m [] =
    if i == start + 2 then some (count, m) else if ltb count total then none else some (count, m)
move_backward base ref total start i count m (x ∷ xs) =
    if i == start + 2
    then some (count, m)
    else if ltb count total
    then elim (move_peer base ref m x.0) [
      | none ↦ none
      | some (n, m') ↦ move_backward base ref total start (i - 1) (count + n) m' xs
    ]
    else some (count, m)

abbrev pub reversed_onto : List (ℕ × ℕ) → List (ℕ × ℕ) → List (ℕ × ℕ)
reversed_onto [] ys = ys
reversed_onto (x ∷ xs) ys = reversed_onto xs (x ∷ ys)

-- `NormalizeClasses`, with a `stop` inside the vector: the number of the peers that moved, and the map.
unfoldable pub normalize_classes :
    List (TopologyClass × TopologyData)
    → ℕ
    → TopologyClass
    → TopologyClass
    → List (ℕ × ℕ)
    → ℕ
    → ℕ
    → List (ℕ × PeerData)
    → Option (ℕ × List (ℕ × PeerData))
normalize_classes s percent class_base class_ref v start stop m =
    let base = settings_of s class_base in
    let ref = settings_of s class_ref in
    let total = length v * percent / 100 in
    if same_class class_base class_ref
    then settle_from base stop start 0 m (drop start v)
    else if ltb_ℤ base.out ref.out
    then move_forward base ref total stop start 0 m (drop start v)
    else move_backward base ref total start stop 0 m (reversed_onto (take stop v) [])

-- The first time: nobody has sent anything yet.
unfoldable pub clear_sent : List (ℕ × PeerData) → List (ℕ × PeerData)
clear_sent [] = []
clear_sent (e ∷ m) = (e.0, set_peer_sent_chunks e.1 0) ∷ clear_sent m

-- An entry in the loop over the peers: a peer with an out list, whose hits are used up and which is not
-- the server, is ordinary, and starts anew.
unfoldable pub sort_out : ℕ → ℕ → PeerData → Option (PeerData × List (ℕ × ℕ))
sort_out server k d = elim d.peer [
  | none ↦ none
  | some p ↦
      if (ltb_ℤ (pos 0) p.size_out || ltb_ℤ (pos 0) p.size_out_free)
        && (d.hit_count == 0 && not (k == server))
      then some (set_peer_sent_chunks d 0, (p.id, d.peer_sent_chunks) ∷ [])
      else some (d, [])
]

-- The loop: the map and the vector of the ordinary peers. (That of the free riders is only counted.)
unfoldable pub ordinary_peers :
    ℕ → List (ℕ × PeerData) → Option (List (ℕ × PeerData) × List (ℕ × ℕ))
ordinary_peers server [] = some ([], [])
ordinary_peers server (e ∷ m) = elim (sort_out server e.0 e.1) [
  | none ↦ none
  | some (d, found) ↦ elim (ordinary_peers server m) [
    | none ↦ none
    | some (rest, others) ↦ some ((e.0, d) ∷ rest, found ++ others)
  ]
]

-- A share of the vector. (No class has a negative percentage.)
abbrev pub share_of : ℕ → TopologyData → ℕ
share_of n t = n * pos_part t.percent_of_peer / 100

-- The three calls of `NormalizeClasses`, over the sorted vector.
unfoldable pub normalize_all : Channel → List (ℕ × ℕ) → List (ℕ × PeerData) → Option Channel
normalize_all c v m =
    let s = c.class_topology_settings in
    let pos_d = share_of (length v) (settings_of s class_d) in
    let pos_c = pos_d + share_of (length v) (settings_of s class_c) in
    let percent = c.peer_percent_change_allowed in
    elim (normalize_classes s percent class_c class_d v 0 pos_d m) [
      | none ↦ none
      | some (moved_d, m1) ↦ elim (normalize_classes s percent class_c class_c v pos_d pos_c m1) [
        | none ↦ none
        | some (moved_c, m2) ↦
            elim (normalize_classes s percent class_c class_b v pos_c (length v) m2) [
              | none ↦ none
              | some (moved_b, m3) ↦ some (record c { peer_list = m3 })
            ]
      ]
    ]

-- `RenewOUTALL`. `sort` is what `std::sort` makes of the vector, with the largest numbers first.
unfoldable pub renew_out_all : (List (ℕ × ℕ) → List (ℕ × ℕ)) → Channel → Option Channel
renew_out_all sort c =
    if c.first_time_overlay
    then some (record c { peer_list = clear_sent c.peer_list; first_time_overlay = false })
    else elim c.server [
      | none ↦ none
      | some s ↦
          let m = assign c.peer_list s.id (set_peer_sent_chunks (entry_of c.peer_list s.id) 0) in
          elim (ordinary_peers s.id m) [
            | none ↦ none
            | some (cleared, ordinary) ↦ normalize_all c (sort ordinary) cleared
          ]
    ]
