-- ===== src/PeerManager/Named.antt =====
-- The entries of src/client/PeerManager.cpp hold the peers of their ids.
use tvpp_dev_base.Base.{
  ℕ, ◌≡◌, refl, ap, ◌∙◌, ◌⊎◌, inl, inr, Bool, true, false, ◌==◌, ==→eq, if◌then◌else◌, Option, none,
  some, arith, Option-cases, Bool-cases,
}
use tvpp_dev_base.Base.Int.{ℤ}
use tvpp_dev_base.Base.Sets.{contains}
use tvpp_dev_base.PeerData.{Peer, PeerData, make_peer_data}
use tvpp_dev_base.PeerManager.{
  PeerManager, Which, ins, outs, outs_free, get_cooldown, add_peer, connect_peer, try_insert,
  reset_ttl, inc_sent_chunks, put,
}
use tvpp_dev_base.PeerManager.Round.{check_peer_list, all_active}
use tvpp_dev_base.PeerManager.Sweep.{known, stays, forgets}
use tvpp_dev_base.PeerManager.Connection.{try_insert-Grown}
use tvpp_dev_base.PeerManager.Valid.{IsValid, members-known}
use tvpp_dev_base.PeerManager.Check.{
  contains-all_active, check_peer_list-peer_list, check_peer_list-known,
}

-- No entry, or one that holds the peer of its id.
abbrev pub is_named : Option PeerData → ℕ → Bool
is_named none k = true
is_named (some d) k = known (some d) k

abbrev pub HasNamed : PeerManager → Type 0
HasNamed p = (k : ℕ) → is_named (p.peer_list k) k ≡ true

pub put-is_named :
    (m : ℕ → Option PeerData) (k : ℕ) (d : PeerData)
    → ((j : ℕ) → is_named (m j) j ≡ true)
    → known (some d) k ≡ true
    → (j : ℕ) → is_named (put m k (some d) j) j ≡ true
put-is_named m k d f h j = elim (Bool-cases (j == k)) [
  | inl t ↦ rw t (ap (λ x. known (some d) x) (==→eq j k t) ∙ h)
  | inr t ↦ rw t (f j)
]

pub put-known :
    (m : ℕ → Option PeerData) (k : ℕ) (d : PeerData)
    → known (some d) k ≡ true
    → (j : ℕ) → known (m j) j ≡ true
    → known (put m k (some d) j) j ≡ true
put-known m k d h j g = elim (Bool-cases (j == k)) [
  | inl t ↦ rw t (ap (λ x. known (some d) x) (==→eq j k t) ∙ h)
  | inr t ↦ rw t g
]

known-is_named : (e : Option PeerData) (k : ℕ) → known e k ≡ true → is_named e k ≡ true
known-is_named none k h = refl
known-is_named (some d) k h = h

-- `AddPeer` makes the peer known.
pub add_peer-HasNamed :
    (p q : PeerManager) (r : Peer) (a b : ℤ) (t : Bool)
    → add_peer p r a b ≡ some (t, q)
    → HasNamed p
    → HasNamed q × (known (q.peer_list r.id) r.id ≡ true)
unfolding add_peer make_peer_data
add_peer-HasNamed p q r a b t e h = (λ j. ground (arith, h j, h r.id), ground (arith, h r.id))

pub connect_peer-HasNamed :
    (p q : PeerManager) (k : ℕ) (w : Which) (b : Bool)
    → connect_peer p k w ≡ some (b, q)
    → known (p.peer_list k) k ≡ true
    → HasNamed p
    → HasNamed q
unfolding connect_peer reset_ttl
connect_peer-HasNamed p q k w b e n h = elim (Option-cases (get_cooldown p w k)) [
  | inr (c, f) ↦ let same : q ≡ p = ground (arith, rw (connect_peer, f) at e) in rw same h
  | inl f ↦ elim (Option-cases (try_insert p k w)) [
    | inl g ↦ absurd (ground (arith, rw (connect_peer, f, g) at e))
    | inr ((c, p'), g) ↦
        let grown = try_insert-Grown p k w c p' g in
        let same : q ≡ (if c then reset_ttl p' k w else p') =
          ground (arith, rw (connect_peer, f, g) at e) in
        rw same (reset c p' (rw grown.same_peers n) (rw grown.same_peers h))
  ]
]
  where
    reset :
        (c : Bool) (p' : PeerManager)
        → known (p'.peer_list k) k ≡ true
        → HasNamed p'
        → HasNamed (if c then reset_ttl p' k w else p')
    reset false p' n h j = h j
    reset true p' n h j = ground (arith, n, h j)

pub inc_sent_chunks-HasNamed :
    (p : PeerManager) (k : ℕ) → HasNamed p → HasNamed (inc_sent_chunks p k)
unfolding inc_sent_chunks
inc_sent_chunks-HasNamed p k h = elim (Option-cases (p.peer_list k)) [
  | inl f ↦ rw (inc_sent_chunks, f) h
  | inr (d, f) ↦ rw (inc_sent_chunks, f) (put-is_named p.peer_list k _ h (rw f at (h k)))
]

pub check_peer_list-HasNamed :
    (p : PeerManager) → IsValid p → HasNamed p → HasNamed (check_peer_list p)
check_peer_list-HasNamed p v h k =
    let o = v.are_sorted in
    elim (check_peer_list-peer_list p k ins o) [
      | inl (out, same) ↦ rw same (h k)
      | inr (inl (listed, gone, same)) ↦ rw same refl
      | inr (inr (listed, stayed, time)) ↦ elim (Option-cases (p.peer_list k)) [
        | inl f ↦ absurd (ground (arith, rw f at (listed-known listed)))
        | inr (d, f) ↦ known-is_named ((check_peer_list p).peer_list k) k (
            by_stay (rw f (rw f at (h k))) (Bool-cases (stays p (p.peer_list k) k ins))
              (Bool-cases (stays p (p.peer_list k) k outs))
              (Bool-cases (stays p (p.peer_list k) k outs_free)) stayed)
      ]
    ]
  where
    listed-known : contains k (all_active p) ≡ true → known (p.peer_list k) k ≡ true
    listed-known l = elim (Bool-cases (contains k p.active_in)) [
      | inl m ↦ members-known p v.are_known ins k m
      | inr a ↦ elim (Bool-cases (contains k p.active_out)) [
        | inl m ↦ members-known p v.are_known outs k m
        | inr b ↦
            members-known p v.are_known outs_free k
              (ground (arith, contains-all_active p k, l, a, b))
      ]
    ]

    by_stay :
        known (p.peer_list k) k ≡ true
        → (stays p (p.peer_list k) k ins ≡ true) ⊎ (stays p (p.peer_list k) k ins ≡ false)
        → (stays p (p.peer_list k) k outs ≡ true) ⊎ (stays p (p.peer_list k) k outs ≡ false)
        → (stays p (p.peer_list k) k outs_free ≡ true)
          ⊎ (stays p (p.peer_list k) k outs_free ≡ false)
        → forgets p (p.peer_list k) k ≡ false
        → known ((check_peer_list p).peer_list k) k ≡ true
    by_stay n (inl s) y z g = check_peer_list-known p k ins v.are_sorted n s
    by_stay n (inr x) (inl s) z g = check_peer_list-known p k outs v.are_sorted n s
    by_stay n (inr x) (inr y) (inl s) g = check_peer_list-known p k outs_free v.are_sorted n s
    by_stay n (inr x) (inr y) (inr z) g = absurd (ground (arith, x, y, z, g))
