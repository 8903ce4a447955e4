-- ===== src/PeerManager/Total.antt =====
-- `ConnectPeer` of src/client/PeerManager.cpp never calls through a NULL peer.
use tvpp_dev_base.Base.{
  ℕ, ◌≡◌, refl, ◌≢◌, inl, inr, Bool, true, false, Option, none, some, List, [], ◌∷◌, arith,
  if◌then◌else◌, Bool-cases, Option-cases,
}
use tvpp_dev_base.Base.Int.{ℤ, ltb_ℤ}
use tvpp_dev_base.Base.Sets.{contains}
use tvpp_dev_base.PeerData.{PeerData, get_size_out, get_size_out_free}
use tvpp_dev_base.PeerManager.{
  PeerManager, Which, active, entry, get_cooldown, informed, smaller_from, replace_smaller,
  connect_special_by, connect_special, try_insert, reset_ttl, connect_peer,
}
use tvpp_dev_base.PeerManager.Sweep.{known}
use tvpp_dev_base.PeerManager.Valid.{IsValid, members-known}

abbrev IsSome {ℓ} : {A : Type ℓ} → Option A → Type ℓ
IsSome {A = A} o = (a : A) × (o ≡ some a)

smaller_from-total :
    (size : ℕ → Option ℤ) (c : ℕ) (s : List ℕ)
    → ((k : ℕ) → contains k (c ∷ s) ≡ true → IsSome (size k))
    → (r : ℕ) × (smaller_from size c s ≡ some r) × (contains r (c ∷ s) ≡ true)
unfolding smaller_from
smaller_from-total size c [] h = (c, refl, ground arith)
smaller_from-total size c (k ∷ s) h =
    let (a, e) = h k (ground arith) in
    let (b, e') = h c (ground arith) in
    elim (Bool-cases (ltb_ℤ a b)) [
      | inl t ↦
          let (r, f, m) = smaller_from-total size k s (λ j i. h j (ground arith)) in
          (r, ground (arith, e, e', t, f), ground (arith, m))
      | inr t ↦
          let (r, f, m) = smaller_from-total size c s (λ j i. h j (ground arith)) in
          (r, ground (arith, e, e', t, f), ground (arith, m))
    ]

replace_smaller-total :
    (size : PeerData → Option ℤ) (p : PeerManager) (w : Which) (k r : ℕ)
    → IsSome (informed size p k)
    → IsSome (informed size p r)
    → IsSome (replace_smaller size p w k r)
unfolding replace_smaller
replace_smaller-total size p w k r (a, e) (b, f) = (
  elim (replace_smaller size p w k r) [ none ↦ (false, p) | some t ↦ t ],
  rw (f, e, replace_smaller),
)

connect_special_by-total :
    (size : PeerData → Option ℤ) (p : PeerManager) (w : Which) (k : ℕ) (s : List ℕ)
    → ((j : ℕ) → contains j s ≡ true → IsSome (informed size p j))
    → IsSome (informed size p k)
    → IsSome (connect_special_by size p k w s)
unfolding connect_special_by
connect_special_by-total size p w k [] h i = ((false, p), refl)
connect_special_by-total size p w k (f ∷ s) h i =
    let (r, e, m) = smaller_from-total (informed size p) f (f ∷ s) (λ j o. h j (ground arith)) in
    let (t, g) = replace_smaller-total size p w k r i (h r (ground (arith, m))) in
    (t, rw (e, connect_special_by) g)

entry-sizes :
    (e : Option PeerData) (k : ℕ)
    → known e k ≡ true
    → IsSome (get_size_out (entry e)) × IsSome (get_size_out_free (entry e))
unfolding get_size_out get_size_out_free
entry-sizes none k h = absurd (cc)
entry-sizes (some d) k h = elim (Option-cases d.peer) [
  | inl e ↦ absurd (ground (arith, e))
  | inr (r, e) ↦ ((r.size_out, rw e), (r.size_out_free, rw e))
]

known-sizes :
    (p : PeerManager) (k : ℕ)
    → known (p.peer_list k) k ≡ true
    → IsSome (informed get_size_out p k) × IsSome (informed get_size_out_free p k)
unfolding get_size_out get_size_out_free
known-sizes p k h = entry-sizes (p.peer_list k) k h

IsSome-of {ℓ} : {A : Type ℓ} (o : Option A) → o ≢ none → IsSome o
IsSome-of none h = absurd (h refl)
IsSome-of (some a) h = (a, refl)

try_insert-ne-none :
    (p : PeerManager) (k : ℕ) (w : Which)
    → IsValid p
    → known (p.peer_list k) k ≡ true
    → try_insert p k w ≢ none
unfolding try_insert connect_special
try_insert-ne-none p k w v h =
    let (s, e) =
      connect_special_by-total get_size_out p w k (active p w)
        (λ j m. (known-sizes p j (members-known p v.are_known w j m)).0) (known-sizes p k h).0 in
    let (t, f) =
      connect_special_by-total get_size_out_free p w k (active p w)
        (λ j m. (known-sizes p j (members-known p v.are_known w j m)).1) (known-sizes p k h).1 in
    ground (arith, e, f)

-- On a valid manager `ConnectPeer` of a known peer returns: no size is asked of a NULL peer.
pub connect_peer-total :
    (p : PeerManager) (k : ℕ) (w : Which)
    → IsValid p
    → known (p.peer_list k) k ≡ true
    → (b : Bool) × (q : PeerManager) × (connect_peer p k w ≡ some (b, q))
unfolding connect_peer
connect_peer-total p k w v h = elim (Option-cases (get_cooldown p w k)) [
  | inl e ↦
      let ((b, q), f) = IsSome-of (try_insert p k w) (try_insert-ne-none p k w v h) in
      (b, if b then reset_ttl q k w else q, rw (e, f, connect_peer))
  | inr (n, e) ↦ (false, p, rw (e, connect_peer))
]
