-- ===== src/PeerManager/Limits.antt =====
-- The limits on the number of active partners.
use tvpp_dev_base.Base.{
  ℕ, zero, suc, ◌+◌, ◌≤◌, ◌≡◌, refl, ◌∙◌, ◌≢◌, ◌⊎◌, inl, inr, Bool, true, false, Option, none, some,
  List, [], ◌∷◌, arith, length, if◌then◌else◌, Option-cases,
}
use tvpp_dev_base.Base.Int.{ℤ, pos}
use tvpp_dev_base.Base.Sets.{contains, insert, erase, length-insert, length-erase}
use tvpp_dev_base.PeerData.{PeerData, get_size_out, get_size_out_free}
use tvpp_dev_base.PeerManager.{
  PeerManager, Which, ins, outs, outs_free, active, get_max_active_peers, get_cooldown,
  smaller_from, replace_smaller, connect_special_by, connect_special, informed, try_insert,
  connect_peer, reset_ttl,
}
use tvpp_dev_base.PeerManager.Sizes.{insert_first, pairs, set_new_max_out}

-- No list of partners is longer than its limit.
pub record IsWithin (p : PeerManager) : Type 0 where
  pub ins_fit : length p.active_in ≤ p.max_in
  pub outs_fit : length p.active_out ≤ p.max_out
  pub outs_free_fit : length p.active_out_free ≤ p.max_out_free

smaller_from-member :
    (size : ℕ → Option ℤ) (c : ℕ) (s : List ℕ) (r : ℕ)
    → smaller_from size c s ≡ some r
    → (r ≡ c) ⊎ (contains r s ≡ true)
unfolding smaller_from
smaller_from-member size c [] r e = inl (cc)
smaller_from-member size c (k ∷ s) r e =
    ground (arith, smaller_from-member size k s r, smaller_from-member size c s r)

-- A list keeps its length, at most, if a member makes room for another.
length-replace :
    (k r : ℕ) (s : List ℕ) → contains r s ≡ true → length (insert k (erase r s)) ≤ length s
length-replace k r s h = omega (arith, length-insert k (erase r s), length-erase r s h)

replace_smaller-IsWithin :
    (size : PeerData → Option ℤ) (p : PeerManager) (w : Which) (k r : ℕ) (b : Bool)
    (q : PeerManager)
    → contains r (active p w) ≡ true
    → replace_smaller size p w k r ≡ some (b, q)
    → IsWithin p
    → IsWithin q
unfolding replace_smaller
replace_smaller-IsWithin size p ins k r b q m e v = ground (arith, length-replace k r p.active_in m)
replace_smaller-IsWithin size p outs k r b q m e v =
    ground (arith, length-replace k r p.active_out m)
replace_smaller-IsWithin size p outs_free k r b q m e v =
    ground (arith, length-replace k r p.active_out_free m)

connect_special_by-IsWithin :
    (size : PeerData → Option ℤ) (p : PeerManager) (w : Which) (k : ℕ) (s : List ℕ) (b : Bool)
    (q : PeerManager)
    → active p w ≡ s
    → connect_special_by size p k w s ≡ some (b, q)
    → IsWithin p
    → IsWithin q
unfolding connect_special_by
connect_special_by-IsWithin size p w k [] b q a e v = ground arith
connect_special_by-IsWithin size p w k (f ∷ r) b q a e v =
    elim (Option-cases (smaller_from (informed size p) f (f ∷ r))) [
      | inl h ↦ absurd (cc (rw (h, connect_special_by) at e))
      | inr (least, h) ↦
          replace_smaller-IsWithin size p w k least b q
            (rw a (member least (smaller_from-member (informed size p) f (f ∷ r) least h)))
            (rw (h, connect_special_by) at e) v
    ]
  where
    member : (n : ℕ) → (n ≡ f) ⊎ (contains n (f ∷ r) ≡ true) → contains n (f ∷ r) ≡ true
    member n m = ground arith

connect_special-IsWithin :
    (p : PeerManager) (k : ℕ) (w : Which) (b : Bool) (q : PeerManager)
    → connect_special p k w ≡ some (b, q)
    → IsWithin p
    → IsWithin q
unfolding connect_special
connect_special-IsWithin p k w b q e v = ground (
  arith,
  connect_special_by-IsWithin get_size_out_free p w k (active p w) b q refl,
  connect_special_by-IsWithin get_size_out p w k (active p w) b q refl,
)

try_insert-IsWithin :
    (p : PeerManager) (k : ℕ) (w : Which) (b : Bool) (q : PeerManager)
    → try_insert p k w ≡ some (b, q)
    → IsWithin p
    → IsWithin q
unfolding try_insert
try_insert-IsWithin p k ins b q e v = ground (arith, length-insert k p.active_in)
try_insert-IsWithin p k outs b q e v =
    ground (arith, length-insert k p.active_out, connect_special-IsWithin p k outs b q)
try_insert-IsWithin p k outs_free b q e v =
    ground (arith, length-insert k p.active_out_free, connect_special-IsWithin p k outs_free b q)

reset_ttl-IsWithin : (p : PeerManager) (k : ℕ) (w : Which) → IsWithin p → IsWithin (reset_ttl p k w)
unfolding reset_ttl
reset_ttl-IsWithin p k w v = ground arith

-- A call of `ConnectPeer` that returns: the peer is in its cooldown and nothing happens, or the peer
-- is not, and its TTL is reset if it was inserted.
pub connect_peer_cases :
    (p : PeerManager) (k : ℕ) (w : Which) (b : Bool) (q : PeerManager)
    → connect_peer p k w ≡ some (b, q)
    → ((n : ℕ) × (get_cooldown p w k ≡ some n) × (b ≡ false) × (q ≡ p))
      ⊎ ((p' : PeerManager) × (get_cooldown p w k ≡ none)
          × (try_insert p k w ≡ some (b, p'))
          × (q ≡ (if b then reset_ttl p' k w else p')))
unfolding connect_peer
connect_peer_cases p k w b q e = elim (Option-cases (get_cooldown p w k)) [
  | inl h ↦ elim (Option-cases (try_insert p k w)) [
    | inl h' ↦ absurd (cc (rw (h, h', connect_peer) at e))
    | inr ((b', p'), h') ↦ inr (
      p',
      h,
      (h' ∙ ground (arith, rw (h, h', connect_peer) at e)),
      ground (arith, rw (h, h', connect_peer) at e),
    )
  ]
  | inr (n, h) ↦
      inl
        (n, h, ground (arith, rw (h, connect_peer) at e), ground (arith, rw (h, connect_peer) at e))
]

-- `ConnectPeer` keeps every list within its limit, also where it replaces a member of a full list.
pub connect_peer-IsWithin :
    (p : PeerManager) (k : ℕ) (w : Which) (b : Bool) (q : PeerManager)
    → connect_peer p k w ≡ some (b, q)
    → IsWithin p
    → IsWithin q
connect_peer-IsWithin p k w b q e v = elim (connect_peer_cases p k w b q e) [
  | inl (n, h, f, same) ↦ rw same v
  | inr (p', h, t, r) ↦
      let v' = try_insert-IsWithin p k w b p' t v in
      rw r (ground (arith, v', reset_ttl-IsWithin p' k w v'))
]

length-insert_first :
    (n : ℕ) (v : List (ℕ × ℕ)) (s : List ℕ) → length (insert_first n v s) ≤ length s + n
unfolding insert_first
length-insert_first zero v s = omega arith
length-insert_first (suc n) [] s = omega arith
length-insert_first (suc n) ((k, sent) ∷ v) s =
    omega (arith, length-insert_first n v (insert k s), length-insert k s)

-- `SetNewMMaxActivePeersOut` sets the limit of an out list to a count that is not negative, and
-- leaves every list within its limit, whatever order `std::sort` makes of the partners.
pub set_new_max_out-IsWithin :
    (sort : List (ℕ × ℕ) → List (ℕ × ℕ)) (p : PeerManager) (n : ℕ) (w : Which) (q : PeerManager)
    → set_new_max_out sort p (pos n) w ≡ some q
    → w ≢ ins
    → IsWithin p
    → (get_max_active_peers q w ≡ n) × IsWithin q
unfolding set_new_max_out
set_new_max_out-IsWithin sort p n ins q e o v = absurd (o refl)
set_new_max_out-IsWithin sort p n outs q e o v = elim (Option-cases (pairs p p.active_out)) [
  | inl h ↦ ground (arith, h)
  | inr (l, h) ↦ ground (arith, h, length-insert_first n (sort l) [])
]
set_new_max_out-IsWithin sort p n outs_free q e o v =
    elim (Option-cases (pairs p p.active_out_free)) [
      | inl h ↦ ground (arith, h)
      | inr (l, h) ↦ ground (arith, h, length-insert_first n (sort l) [])
    ]
