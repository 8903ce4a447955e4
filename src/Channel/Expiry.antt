-- ===== src/Channel/Expiry.antt =====
-- `CheckActivePeers` of src/common/Channel.cpp: a peer that gives no sign of life for ten rounds leaves
-- the channel.
use tvpp_dev_base.Base.{
  ℕ, zero, suc, ◌+◌, ◌-◌, ◌<◌, ◌≡◌, refl, ◌∙◌, ap, Bool, true, false, if◌then◌else◌, Option, none,
  some, List, [], ◌∷◌, arith,
}
use tvpp_dev_base.Base.Int.{pos, pred_ℤ, leb_ℤ}
use tvpp_dev_base.Base.Sets.{contains, Above, IsSorted, contains-below}
use tvpp_dev_base.Base.Maps.{
  keys, find, find-erase_each, erase_each-IsSorted, find-missing, find-assign,
}
use tvpp_dev_base.PeerData.{Peer, PeerData, dec_ttl_channel}
use tvpp_dev_base.Channel.{Channel, age_all, check_active_peers, add_peer, has_peer, get_peer}
use tvpp_dev_base.Channel.Members.{AreSorted, add_peer_cases, add_peer-has_peer}

-- An entry after a round.
abbrev pub aged : Option PeerData → Option PeerData
aged none = none
aged (some d) =
    if leb_ℤ (pred_ℤ d.ttl_channel) (pos 0)
    then none
    else some (record d { ttl_channel = pred_ℤ d.ttl_channel })

-- Whether the first loop collects the id of an entry.
abbrev expired : Option PeerData → Bool
expired none = false
expired (some d) = leb_ℤ (pred_ℤ d.ttl_channel) (pos 0)

abbrev older : Option PeerData → Option PeerData
older none = none
older (some d) = some (record d { ttl_channel = pred_ℤ d.ttl_channel })

keys-age_all : (m : List (ℕ × PeerData)) → keys (age_all m).0 ≡ keys m
unfolding age_all
keys-age_all [] = refl
keys-age_all (e ∷ m) = ap (λ t. e.0 ∷ t) (keys-age_all m)

find-age_all : (m : List (ℕ × PeerData)) (k : ℕ) → find (age_all m).0 k ≡ older (find m k)
unfolding age_all dec_ttl_channel
find-age_all [] k = refl
find-age_all (e ∷ m) k = ground (arith, find-age_all m k)

collected :
    (b : ℕ) (m : List (ℕ × PeerData)) (k : ℕ)
    → Above b (keys m)
    → contains k (age_all m).1 ≡ expired (find m k)
unfolding age_all dec_ttl_channel
collected b [] k o = refl
collected b (e ∷ m) k o =
    ground (
      arith,
      collected (suc e.0) m k o.1,
      find-missing m k,
      contains-below k (suc e.0) (keys m) o.1,
    )

-- `CheckActivePeers` takes one from the TTL of every entry, and removes the entries whose TTL is then 0
-- or less; the ids still ascend.
pub check_active_peers-find :
    (c : Channel) (k : ℕ)
    → AreSorted c
    → (find (check_active_peers c).peer_list k ≡ aged (find c.peer_list k))
      × AreSorted (check_active_peers c)
unfolding check_active_peers
check_active_peers-find c k o =
    let sorted : IsSorted (keys (age_all c.peer_list).0) = rw (keys-age_all c.peer_list) o in
    (
      find-erase_each (age_all c.peer_list).1 (age_all c.peer_list).0 k sorted
          ∙ entry (find c.peer_list k) refl,
      erase_each-IsSorted (age_all c.peer_list).1 (age_all c.peer_list).0 sorted,
    )
  where
    entry :
        (f : Option PeerData)
        → find c.peer_list k ≡ f
        → (if contains k (age_all c.peer_list).1 then none else find (age_all c.peer_list).0 k)
          ≡ aged (find c.peer_list k)
    entry none e = ground (arith, e, find-age_all c.peer_list k, collected 0 c.peer_list k o)
    entry (some d) e = ground (arith, e, find-age_all c.peer_list k, collected 0 c.peer_list k o)

-- `n` rounds.
abbrev pub rounds : ℕ → Channel → Channel
rounds zero c = c
rounds (suc n) c = rounds n (check_active_peers c)

-- A round leaves an entry with a TTL above 1.
pub round-stays :
    (t : ℕ) (c : Channel) (k : ℕ) (d : PeerData)
    → AreSorted c
    → find c.peer_list k ≡ some d
    → d.ttl_channel ≡ pos (suc (suc t))
    → find (check_active_peers c).peer_list k ≡ some (record d { ttl_channel = pos (suc t) })
round-stays t c k d o e f = (check_active_peers-find c k o).0 ∙ ap aged e ∙ rw f (older_by t)
  where
    older_by :
        (t : ℕ)
        → aged (some (record d { ttl_channel = pos (suc (suc t)) }))
          ≡ some (record d { ttl_channel = pos (suc t) })
    older_by t = ground arith

pub round-leaves :
    (c : Channel) (k : ℕ) (d : PeerData)
    → AreSorted c
    → find c.peer_list k ≡ some d
    → d.ttl_channel ≡ pos 1
    → find (check_active_peers c).peer_list k ≡ none
round-leaves c k d o e f = (check_active_peers-find c k o).0 ∙ ap aged e ∙ rw f refl

-- The entry of a peer whose TTL is positive, after some rounds.
rounds-stays :
    (n t : ℕ) (c : Channel) (k : ℕ) (d : PeerData)
    → AreSorted c
    → find c.peer_list k ≡ some d
    → d.ttl_channel ≡ pos (suc (n + t))
    → find (rounds n c).peer_list k ≡ some (record d { ttl_channel = pos (suc t) })
rounds-stays zero t c k d o e f =
    e ∙ ap (λ x. some (record d { ttl_channel = x })) (f ∙ ap (λ x. pos (suc x)) (omega arith))
rounds-stays (suc n) t c k d o e f =
    rounds-stays n t (check_active_peers c) k (record d { ttl_channel = pos (suc (n + t)) })
      (check_active_peers-find c k o).1
      (round-stays (n + t) c k d o e (f ∙ ap (λ x. pos (suc x)) (omega arith))) refl

rounds-leaves :
    (n : ℕ) (c : Channel) (k : ℕ) (d : PeerData)
    → AreSorted c
    → find c.peer_list k ≡ some d
    → d.ttl_channel ≡ pos (suc n)
    → find (rounds (suc n) c).peer_list k ≡ none
rounds-leaves zero c k d o e f = round-leaves c k d o e f
rounds-leaves (suc n) c k d o e f =
    rounds-leaves n (check_active_peers c) k (record d { ttl_channel = pos (suc n) })
      (check_active_peers-find c k o).1 (round-stays n c k d o e f) refl

has_peer-entry :
    (c : Channel) (k : ℕ) (d : PeerData) (p : Peer)
    → find c.peer_list k ≡ some d
    → d.peer ≡ some p
    → has_peer c k ≡ true
unfolding has_peer get_peer
has_peer-entry c k d p e f = ground (arith, e, f)

pub has_peer-none : (c : Channel) (k : ℕ) → find c.peer_list k ≡ none → has_peer c k ≡ false
unfolding has_peer get_peer
has_peer-none c k e = ground (arith, e)

-- A peer that `AddPeer` put in a channel, and that gives no other sign of life, is in the channel
-- through nine rounds of `CheckActivePeers`, and out of it after the tenth.
pub add_peer_expires :
    (c c' : Channel) (p : Peer) (hit_count n : ℕ)
    → add_peer c p hit_count ≡ some c'
    → AreSorted c
    → n < 10
    → (has_peer (rounds n c') p.id ≡ true) × (has_peer (rounds 10 c') p.id ≡ false)
add_peer_expires c c' p h n e o l =
    let made = add_peer_cases c c' p h e in
    let sorted = (add_peer-has_peer c c' p h e o).2 in
    let entry : find c'.peer_list p.id ≡ some made.0 =
      ap (λ (t : Channel). find t.peer_list p.id) made.1
      ∙ find-assign c.peer_list p.id p.id made.0
      ∙ ground arith in
    (
      has_peer-entry (rounds n c') p.id _ made.2.same_peer.0
          (rounds-stays n (9 - n) c' p.id made.0 sorted entry
            (made.2.full_ttl ∙ ap pos (omega arith)))
          made.2.same_peer.1,
      has_peer-none (rounds 10 c') p.id
          (rounds-leaves 9 c' p.id made.0 sorted entry made.2.full_ttl),
    )
