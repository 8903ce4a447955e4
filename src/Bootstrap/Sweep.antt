-- ===== src/Bootstrap/Sweep.antt =====
-- `CheckPeerList` and `HTTPLog` of src/bootstrap/bootstrap.cpp: the rounds of the server's clock.
use tvpp_dev_base.Base.{
  ℕ, suc, ◌<◌, ◌≡◌, refl, ◌∙◌, ap, Bool, false, ◌==◌, if◌then◌else◌, Option, none, some, List, [],
  ◌∷◌, ◌++◌, length, arith, inl, inr, Option-cases, Bool-cases,
}
use tvpp_dev_base.Base.Sets.{contains, Above, IsSorted}
use tvpp_dev_base.Base.Maps.{keys, find, erase_each, find-erase_each, erase_each-IsSorted}
use tvpp_dev_base.Channel.{Channel, has_peer, check_active_peers}
use tvpp_dev_base.Bootstrap.{Bootstrap}

-- `HasPeer(GetServer())`, where a NULL server is a call through NULL.
abbrev pub has_server : Channel → Option Bool
has_server c = elim c.server [ none ↦ none | some s ↦ some (has_peer c s.id) ]

-- The first loop of `CheckPeerList`: the channels after a round, and those that lost their server.
unfoldable pub sweep_channels : List (ℕ × Channel) → Option (List (ℕ × Channel) × List ℕ)
sweep_channels [] = some ([], [])
sweep_channels (e ∷ m) =
    let c = check_active_peers e.1 in
    elim (has_server c) [
      | none ↦ none
      | some stays ↦ elim (sweep_channels m) [
        | none ↦ none
        | some (rest, deleted) ↦ some ((e.0, c) ∷ rest, if stays then deleted else e.0 ∷ deleted)
      ]
    ]

-- A round of `CheckPeerList`.
unfoldable pub check_channels : Bootstrap → Option Bootstrap
check_channels b = elim (sweep_channels b.channel_list) [
  | none ↦ none
  | some (swept, deleted) ↦ some (record b { channel_list = erase_each swept deleted })
]

-- The number that `HTTPLog` reports: each channel's size takes the place of the one before.
unfoldable pub connected_peers : ℕ → List (ℕ × Channel) → ℕ
connected_peers total [] = total
connected_peers total (e ∷ m) = connected_peers (length e.1.peer_list) m

-- The number that `HTTPLog` reports as that of the connected peers is the size of the last channel.
pub connected_peers_last :
    (total : ℕ) (m : List (ℕ × Channel)) (k : ℕ) (c : Channel)
    → connected_peers total (m ++ (k, c) ∷ []) ≡ length c.peer_list
unfolding connected_peers
connected_peers_last total [] k c = refl
connected_peers_last total (e ∷ m) k c = connected_peers_last (length e.1.peer_list) m k c

-- A channel after a round, or none if the server is gone.
abbrev pub swept : Option Channel → Option Channel
swept none = none
swept (some c) = elim (has_server (check_active_peers c)) [
  | none ↦ none
  | some stays ↦ if stays then some (check_active_peers c) else none
]

-- The first loop at a channel, undone.
sweep_cons :
    (x : ℕ × Channel) (m : List (ℕ × Channel)) (r : List (ℕ × Channel) × List ℕ)
    → sweep_channels (x ∷ m) ≡ some r
    → (stays : Bool) × (t : List (ℕ × Channel) × List ℕ) × (has_server (check_active_peers x.1)
        ≡ some stays)
      × (sweep_channels m ≡ some t)
      × (r ≡ ((x.0, check_active_peers x.1) ∷ t.0, if stays then t.1 else x.0 ∷ t.1))
unfolding sweep_channels
sweep_cons x m r e = elim (Option-cases (has_server (check_active_peers x.1))) [
  | inl f ↦ absurd (ground (arith, rw (sweep_channels, f) at e))
  | inr (stays, f) ↦ elim (Option-cases (sweep_channels m)) [
    | inl g ↦ absurd (ground (arith, rw (sweep_channels, f, g) at e))
    | inr (t, g) ↦ (stays, t, f, g, ground (arith, rw (sweep_channels, f, g) at e))
  ]
]

sweep_nil : (r : List (ℕ × Channel) × List ℕ) → sweep_channels [] ≡ some r → r ≡ ([], [])
unfolding sweep_channels
sweep_nil r e = ground (arith, e)

keys-sweep :
    (m : List (ℕ × Channel)) (r : List (ℕ × Channel) × List ℕ)
    → sweep_channels m ≡ some r
    → keys r.0 ≡ keys m
keys-sweep [] r e = rw (sweep_nil r e) refl
keys-sweep (x ∷ m) r e =
    let (stays, t, f, g, same) = sweep_cons x m r e in
    rw same (ap (λ ks. x.0 ∷ ks) (keys-sweep m t g))

-- The keys that the first loop collects are its own.
deleted-below :
    (b k : ℕ) (m : List (ℕ × Channel)) (r : List (ℕ × Channel) × List ℕ)
    → sweep_channels m ≡ some r
    → Above b (keys m)
    → k < b
    → contains k r.1 ≡ false
deleted-below b k [] r e o l = rw (sweep_nil r e) refl
deleted-below b k (x ∷ m) r e o l =
    let (stays, t, f, g, same) = sweep_cons x m r e in
    rw same (ground (arith, deleted-below (suc x.0) k m t g o.1 (omega (arith, o.0)), o.0))

-- What both loops leave at a key.
find-sweep :
    (b k : ℕ) (m : List (ℕ × Channel)) (r : List (ℕ × Channel) × List ℕ)
    → sweep_channels m ≡ some r
    → Above b (keys m)
    → (if contains k r.1 then none else find r.0 k) ≡ swept (find m k)
find-sweep b k [] r e o = rw (sweep_nil r e) refl
find-sweep b k (x ∷ m) r e o =
    let (stays, t, f, g, same) = sweep_cons x m r e in
    rw same (elim (Bool-cases (k == x.0)) [
      | inl y ↦
          let past = deleted-below (suc x.0) k m t g o.1 (ground (arith, y)) in
          ground (arith, y, f, past)
      | inr y ↦ ground (arith, y, find-sweep (suc x.0) k m t g o.1)
    ])

-- A round of `CheckPeerList` runs `CheckActivePeers` on every channel, and removes exactly the channels
-- whose server is then not in their list; the channels' ids still ascend.
pub check_channels-find :
    (b b' : Bootstrap) (k : ℕ)
    → check_channels b ≡ some b'
    → IsSorted (keys b.channel_list)
    → (find b'.channel_list k ≡ swept (find b.channel_list k)) × IsSorted (keys b'.channel_list)
unfolding check_channels
check_channels-find b b' k e o = elim (Option-cases (sweep_channels b.channel_list)) [
  | inl f ↦ absurd (ground (arith, rw (check_channels, f) at e))
  | inr (r, f) ↦
      let same : b' ≡ record b { channel_list = erase_each r.0 r.1 } =
        ground (arith, rw (check_channels, f) at e) in
      let sorted : IsSorted (keys r.0) = rw (keys-sweep b.channel_list r f) o in
      rw same (
        find-erase_each r.1 r.0 k sorted ∙ find-sweep 0 k b.channel_list r f o,
        erase_each-IsSorted r.1 r.0 sorted,
      )
]
