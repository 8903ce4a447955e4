-- ===== src/Channel/Renew/Protected.antt =====
-- What `RenewOUTALL` of src/common/Channel.cpp leaves alone, and how many peers `NormalizeClasses` moves.
use tvpp_dev_base.Base.{
  ℕ, zero, suc, ◌+◌, ◌-◌, ◌*◌, ◌/◌, ◌≤◌, ◌≡◌, refl, ◌∙◌, ap, inl, inr, ◌≢◌, ◌⊎◌, false, ◌&&◌, ◌||◌,
  not, ◌==◌, ==→eq, ==→ne, Option, none, some, List, [], ◌∷◌, ◌++◌, length, take, drop, arith,
  Option-cases, Bool-cases,
}
use tvpp_dev_base.Base.Int.{pos, ltb_ℤ}
use tvpp_dev_base.Base.Sets.{Above, contains-below, insert-Above}
use tvpp_dev_base.Base.Maps.{keys, find, assign, find-assign, find-missing, keys-assign}
use tvpp_dev_base.PeerData.{Peer, PeerData, set_peer_sent_chunks}
use tvpp_dev_base.Channel.{
  Channel, TopologyData, TopologyClass, class_b, class_c, class_d, same_class, settings_of,
}
use tvpp_dev_base.Channel.Members.{AreSorted}
use tvpp_dev_base.Channel.Named.{Entries, AreNamed, find-AreNamed, assign-AreNamed}
use tvpp_dev_base.Channel.Renew.{
  entry_of, reversed_onto, normalize_classes, sort_out, ordinary_peers, normalize_all,
  renew_out_all, share_of, clear_sent,
}
use tvpp_dev_base.Channel.Renew.Steps.{
  AllPairs, IsNot, IsLoop, Changes, settle_from-IsLoop, move_forward-HasMoved,
  move_backward-HasMoved,
}

drop-All : (P : ℕ × ℕ → Type 0) (n : ℕ) (v : List (ℕ × ℕ)) → AllPairs P v → AllPairs P (drop n v)
drop-All P zero v a = a
drop-All P (suc n) [] a = tt
drop-All P (suc n) (x ∷ v) a = drop-All P n v a.1

take-All : (P : ℕ × ℕ → Type 0) (n : ℕ) (v : List (ℕ × ℕ)) → AllPairs P v → AllPairs P (take n v)
take-All P zero v a = tt
take-All P (suc n) [] a = tt
take-All P (suc n) (x ∷ v) a = (a.0, take-All P n v a.1)

reversed_onto-All :
    (P : ℕ × ℕ → Type 0) (v w : List (ℕ × ℕ))
    → AllPairs P v
    → AllPairs P w
    → AllPairs P (reversed_onto v w)
reversed_onto-All P [] w a b = b
reversed_onto-All P (x ∷ v) w a b = reversed_onto-All P v (x ∷ w) a.1 (a.0, b)

-- A call of `NormalizeClasses` with two classes that returns changes the entries of at most the given
-- percentage of the peers in the vector, and of none that is not in the vector; the number that it returns
-- is at most that percentage too. A tidy map stays tidy.
pub normalize_classes-bound :
    (s : List (TopologyClass × TopologyData)) (percent : ℕ) (base ref : TopologyClass)
    (v : List (ℕ × ℕ)) (start stop : ℕ) (m : Entries) (r : ℕ × Entries)
    → normalize_classes s percent base ref v start stop m ≡ some r
    → same_class base ref ≡ false
    → (r.0 ≤ length v * percent / 100) × IsLoop m v r × Changes (length v * percent / 100) m r.1
unfolding normalize_classes
normalize_classes-bound s percent base ref v start stop m r e n =
    let total = length v * percent / 100 in
    elim (Bool-cases (ltb_ℤ (settings_of s base).out (settings_of s ref).out)) [
      | inl t ↦
          let moved =
            move_forward-HasMoved (settings_of s base) (settings_of s ref) total stop start 0 m
              (drop start v) r (rw (normalize_classes, n, t) at e) in
          (
            moved.0 (omega arith),
            (λ k a. moved.1.0 k (drop-All (IsNot k) start v a), moved.1.1),
            fewer m r total (moved.0 (omega arith)) moved.3,
          )
      | inr t ↦
          let moved =
            move_backward-HasMoved (settings_of s base) (settings_of s ref) total start stop 0 m
              (reversed_onto (take stop v) []) r (rw (normalize_classes, n, t) at e) in
          (
            moved.0 (omega arith),
            (
              λ k a.
                  moved.1.0 k
                    (reversed_onto-All (IsNot k) (take stop v) [] (take-All (IsNot k) stop v a) tt),
              moved.1.1,
            ),
            fewer m r total (moved.0 (omega arith)) moved.3,
          )
    ]
  where
    fewer :
        (m : Entries) (r : ℕ × Entries) (total : ℕ)
        → r.0 ≤ total
        → Changes (r.0 - 0) m r.1
        → Changes total m r.1
    fewer m r total l (ks, few, same) = (ks, omega (arith, few, l), same)

normalize_classes-IsLoop :
    (s : List (TopologyClass × TopologyData)) (percent : ℕ) (base ref : TopologyClass)
    (v : List (ℕ × ℕ)) (start stop : ℕ) (m : Entries) (r : ℕ × Entries)
    → normalize_classes s percent base ref v start stop m ≡ some r
    → IsLoop m v r
unfolding normalize_classes
normalize_classes-IsLoop s percent base ref v start stop m r e =
    elim (Bool-cases (same_class base ref)) [
      | inl t ↦
          let loop =
            settle_from-IsLoop (settings_of s base) stop start 0 m (drop start v) r
              (rw (normalize_classes, t) at e) in
          (λ k a. loop.0 k (drop-All (IsNot k) start v a), loop.1)
      | inr t ↦ (normalize_classes-bound s percent base ref v start stop m r e t).1
    ]

-- The three calls, one after the other.
pub normalize_all-kept :
    (c c' : Channel) (v : List (ℕ × ℕ)) (m : Entries)
    → normalize_all c v m ≡ some c'
    → (m' : Entries) × (c' ≡ record c { peer_list = m' }) × IsLoop m v (0, m')
unfolding normalize_all
normalize_all-kept c c' v m e =
    let s = c.class_topology_settings in
    let d = share_of (length v) (settings_of s class_d) in
    let p = c.peer_percent_change_allowed in
    let to = d + share_of (length v) (settings_of s class_c) in
    elim (Option-cases (normalize_classes s p class_c class_d v 0 d m)) [
      | inl f ↦ absurd (ground (arith, rw (normalize_all, f) at e))
      | inr (r1, f) ↦ elim (Option-cases (normalize_classes s p class_c class_c v d to r1.1)) [
        | inl g ↦ absurd (ground (arith, rw (normalize_all, f, g) at e))
        | inr (r2, g) ↦
            elim (Option-cases (normalize_classes s p class_c class_b v to (length v) r2.1)) [
              | inl h ↦ absurd (ground (arith, rw (normalize_all, f, g, h) at e))
              | inr (r3, h) ↦
                  let l1 = normalize_classes-IsLoop s p class_c class_d v 0 d m r1 f in
                  let l2 = normalize_classes-IsLoop s p class_c class_c v d to r1.1 r2 g in
                  let l3 = normalize_classes-IsLoop s p class_c class_b v to (length v) r2.1 r3 h in
                  (
                    r3.1,
                    ground (arith, rw (normalize_all, f, g, h) at e),
                    (λ k a. l3.0 k a ∙ l2.0 k a ∙ l1.0 k a, λ a. l3.1 (l2.1 (l1.1 a))),
                  )
            ]
      ]
    ]

-- Without an out list, as a free rider.
abbrev pub HasNoList : PeerData → Type 0
HasNoList d =
    (p : Peer) × (d.peer ≡ some p)
    × ((ltb_ℤ (pos 0) p.size_out || ltb_ℤ (pos 0) p.size_out_free) ≡ false)

-- The server, a peer that still counts hits, or a free rider.
abbrev pub IsProtected : ℕ → ℕ → PeerData → Type 0
IsProtected server k d = (k ≡ server) ⊎ ((d.hit_count ≢ 0) ⊎ HasNoList d)

abbrev IsProtectedEntry : ℕ → ℕ → Option PeerData → Type 0
IsProtectedEntry server k none = Unit {0}
IsProtectedEntry server k (some d) = IsProtected server k d

-- The loop at a protected entry.
sort_out-protected :
    (server k : ℕ) (d : PeerData) (p : Peer)
    → d.peer ≡ some p
    → IsProtected server k d
    → sort_out server k d ≡ some (d, [])
unfolding sort_out
sort_out-protected server k d p f (inl e) = ground (arith, e, f)
sort_out-protected server k d p f (inr (inl n)) = ground (arith, n, f)
sort_out-protected server k d p f (inr (inr h)) = ground (arith, h.1, h.2)

-- What the loop finds at any entry has the id of the entry's peer.
sort_out-IsNot :
    (server j k : ℕ) (d : PeerData) (p : Peer) (r : PeerData × List (ℕ × ℕ))
    → d.peer ≡ some p
    → p.id ≡ j
    → k ≢ j
    → sort_out server j d ≡ some r
    → AllPairs (IsNot k) r.1
unfolding sort_out
sort_out-IsNot server j k d p r f i n e =
    elim (Bool-cases (
      (ltb_ℤ (pos 0) p.size_out || ltb_ℤ (pos 0) p.size_out_free)
      && (d.hit_count == 0 && not (j == server)))) [
        | inl t ↦
            let same : r ≡ (set_peer_sent_chunks d 0, (p.id, d.peer_sent_chunks) ∷ []) =
              ground (arith, rw (sort_out, f, t) at e) in
            rw same (ground (arith, i, n), tt)
        | inr t ↦ let same : r ≡ (d, []) = ground (arith, rw (sort_out, f, t) at e) in rw same tt
      ]

append-All :
    (P : ℕ × ℕ → Type 0) (v w : List (ℕ × ℕ)) → AllPairs P v → AllPairs P w → AllPairs P (v ++ w)
append-All P [] w a b = b
append-All P (x ∷ v) w a b = (a.0, append-All P v w a.1 b)

-- The loop leaves a protected entry as it is, and does not put its peer into the vector.
ordinary_peers-protected :
    (server b k : ℕ) (m : Entries) (r : Entries × List (ℕ × ℕ))
    → ordinary_peers server m ≡ some r
    → Above b (keys m)
    → AreNamed m
    → IsProtectedEntry server k (find m k)
    → (find r.0 k ≡ find m k) × AllPairs (IsNot k) r.1
unfolding ordinary_peers
ordinary_peers-protected server b k [] r e o a h =
    let same : r ≡ ([], []) = ground (arith, e) in rw same (refl, tt)
ordinary_peers-protected server b k (x ∷ m) r e o a h =
    elim (Option-cases (sort_out server x.0 x.1)) [
      | inl f ↦ absurd (ground (arith, rw (ordinary_peers, f) at e))
      | inr (q, f) ↦ elim (Option-cases (ordinary_peers server m)) [
        | inl g ↦ absurd (ground (arith, rw (ordinary_peers, f, g) at e))
        | inr (t, g) ↦
            let same : r ≡ ((x.0, q.0) ∷ t.0, q.1 ++ t.1) =
              ground (arith, rw (ordinary_peers, f, g) at e) in
            rw same (elim (Bool-cases (k == x.0)) [
              | inl y ↦
                  let at_x : find (x ∷ m) k ≡ some x.1 = ground (arith, y) in
                  let gone : find m k ≡ none =
                    find-missing m k
                      (contains-below k (suc x.0) (keys m) o.1 (ground (arith, y))) in
                  let rest =
                    ordinary_peers-protected server (suc x.0) k m t g o.1 a.1 (rw gone tt) in
                  let is_protected : IsProtected server x.0 x.1 =
                    rw (==→eq k x.0 y) at (rw at_x at h) in
                  let kept : q ≡ (x.1, []) =
                    ground (arith, f, sort_out-protected server x.0 x.1 a.0.0 a.0.1 is_protected) in
                  rw kept (ground (arith, y), rest.1)
              | inr y ↦
                  let past : find (x ∷ m) k ≡ find m k = ground (arith, y) in
                  let rest =
                    ordinary_peers-protected server (suc x.0) k m t g o.1 a.1 (rw past at h) in
                  (
                    rw past (ground (arith, y, rest.0)),
                    append-All (IsNot k) q.1 t.1
                        (sort_out-IsNot server x.0 k x.1 a.0.0 q a.0.1 a.0.2 (==→ne k x.0 y) f)
                        rest.1,
                  )
            ])
      ]
    ]

find-clear_sent :
    (m : Entries) (k : ℕ) (d : PeerData)
    → find m k ≡ some d
    → find (clear_sent m) k ≡ some (set_peer_sent_chunks d 0)
unfolding clear_sent
find-clear_sent [] k d e = ground arith
find-clear_sent (x ∷ m) k d e = ground (arith, e, find-clear_sent m k d)

-- The map after the server's count is cleared, at a protected entry.
server_cleared :
    (m : Entries) (server : ℕ) (d_s : PeerData) (k : ℕ) (d : PeerData)
    → find m server ≡ some d_s
    → find m k ≡ some d
    → IsProtected server k d
    → (d' : PeerData) × (find (assign m server (set_peer_sent_chunks d_s 0)) k ≡ some d')
      × ((d'.peer ≡ d.peer) × (d'.ttl_channel ≡ d.ttl_channel))
      × IsProtected server k d'
unfolding set_peer_sent_chunks
server_cleared m server d_s k d f_s f h = elim (Bool-cases (k == server)) [
  | inl y ↦ (
    set_peer_sent_chunks d_s 0,
    find-assign m server k (set_peer_sent_chunks d_s 0) ∙ ground (arith, y),
    same_entry (ap (find m) (==→eq k server y)),
    inl (==→eq k server y),
  )
  | inr y ↦ (
    d,
    find-assign m server k (set_peer_sent_chunks d_s 0) ∙ ground (arith, y, f),
    (refl, refl),
    h,
  )
]
  where
    same_entry : find m k ≡ find m server → (d_s.peer ≡ d.peer) × (d_s.ttl_channel ≡ d.ttl_channel)
    same_entry s =
        let same : d_s ≡ d = ground (arith, f_s, f, s) in
        (ap (λ (x : PeerData). x.peer) same, ap (λ (x : PeerData). x.ttl_channel) same)

-- `std::sort` loses and adds no element.
abbrev pub KeepsPairs : (List (ℕ × ℕ) → List (ℕ × ℕ)) → Type 1
KeepsPairs sort = (P : ℕ × ℕ → Type 0) (v : List (ℕ × ℕ)) → AllPairs P v → AllPairs P (sort v)

-- A call of `RenewOUTALL` that returns leaves the sizes and the TTL of the server, of the peers that
-- still count hits, and of the free riders as they were, in a channel whose server is in its list.
pub renew_out_all-protected :
    (sort : List (ℕ × ℕ) → List (ℕ × ℕ)) (c c' : Channel) (s : Peer) (d_s : PeerData) (k : ℕ)
    (d : PeerData)
    → renew_out_all sort c ≡ some c'
    → KeepsPairs sort
    → AreSorted c
    → AreNamed c.peer_list
    → c.server ≡ some s
    → find c.peer_list s.id ≡ some d_s
    → find c.peer_list k ≡ some d
    → IsProtected s.id k d
    → (d' : PeerData) × (find c'.peer_list k ≡ some d')
      × ((d'.peer ≡ d.peer) × (d'.ttl_channel ≡ d.ttl_channel))
unfolding renew_out_all set_peer_sent_chunks
renew_out_all-protected sort c c' s d_s k d e keeps o a sv f_s f h =
    elim (Bool-cases c.first_time_overlay) [
      | inl t ↦
          let same : c'
              ≡ record c { peer_list = clear_sent c.peer_list; first_time_overlay = false } =
            ground (arith, rw (renew_out_all, t) at e) in
          rw same (set_peer_sent_chunks d 0, find-clear_sent c.peer_list k d f, (refl, refl))
      | inr t ↦
          let d_0 = set_peer_sent_chunks d_s 0 in
          let m = assign c.peer_list s.id d_0 in
          let same_s : entry_of c.peer_list s.id ≡ d_s = ground (arith, f_s) in
          let cleared = server_cleared c.peer_list s.id d_s k d f_s f h in
          let sorted : Above 0 (keys m) =
            rw (keys-assign c.peer_list s.id d_0)
              (insert-Above s.id 0 (keys c.peer_list) (omega arith) o) in
          let named =
            assign-AreNamed c.peer_list s.id d_0 (find-AreNamed c.peer_list s.id d_s a f_s) a in
          elim (Option-cases (ordinary_peers s.id m)) [
            | inl g ↦ absurd (ground (arith, rw (renew_out_all, t, sv, same_s, g) at e))
            | inr (r, g) ↦
                let kept =
                  ordinary_peers-protected s.id 0 k m r g sorted named (rw cleared.1 cleared.3) in
                let done =
                  normalize_all-kept c c' (sort r.1) r.0
                    (rw (renew_out_all, t, sv, same_s, g) at e) in
                (
                  cleared.0,
                  rw done.1 (done.2.0 k (keeps (IsNot k) r.1 kept.1) ∙ kept.0 ∙ cleared.1),
                  cleared.2,
                )
          ]
    ]
