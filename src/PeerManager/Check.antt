-- ===== src/PeerManager/Check.antt =====
-- `CheckPeerList` as a whole, pointwise: the decision table of src/client/PeerManager.cpp.
use tvpp_dev_base.Base.{
  ℕ, ◌≡◌, ◌∙◌, ◌⊎◌, inl, inr, true, false, none, some, arith, ap, not, if◌then◌else◌, ◌&&◌, ◌||◌,
  Bool-cases,
}
use tvpp_dev_base.Base.Int.{pos, pred_ℤ, leb_ℤ}
use tvpp_dev_base.Base.Sets.{contains, IsSorted, erase-Above, union-Above, contains-union}
use tvpp_dev_base.PeerManager.{
  PeerManager, Which, ins, outs, outs_free, active, get_cooldown, cool, disconnect_peer,
}
use tvpp_dev_base.PeerManager.Round.{no_marks, all_active, check_peer_list}
use tvpp_dev_base.PeerManager.Limits.{IsWithin}
use tvpp_dev_base.PeerManager.Sweep.{
  expires, stays, leaves, known, ttl, aged, forgets, Untouched, Visited, visit_all-Untouched,
  visit_all-Visited,
}
use tvpp_dev_base.PeerManager.Written.{
  length-erase_all, put_all, contains-erase_all, erase_all-IsSorted, put_all-eq, marks,
  check_peer_list-eq,
}

-- The active sets are sorted, as `std::set` keeps them.
pub record AreSorted (p : PeerManager) : Type 0 where
  pub ins_sorted : IsSorted p.active_in
  pub outs_sorted : IsSorted p.active_out
  pub outs_free_sorted : IsSorted p.active_out_free

all_active-IsSorted : (p : PeerManager) → AreSorted p → IsSorted (all_active p)
unfolding all_active
all_active-IsSorted p o =
    union-Above 0 _ p.active_out_free
      (union-Above 0 p.active_in p.active_out o.ins_sorted o.outs_sorted) o.outs_free_sorted

pub contains-all_active :
    (p : PeerManager) (k : ℕ)
    → contains k (all_active p)
      ≡ ((contains k p.active_in || contains k p.active_out) || contains k p.active_out_free)
unfolding all_active
contains-all_active p k =
    rw (contains-union k _ p.active_out_free, contains-union k p.active_in p.active_out)

-- The marks of the loop, for every peer.
marks-leaves :
    (p : PeerManager) (k : ℕ) (w : Which)
    → AreSorted p
    → contains k (leaves (marks p) w) ≡ expires p (p.peer_list k) k w
marks-leaves p k w o = elim (Bool-cases (contains k (all_active p))) [
  | inl h ↦
      visited w (visit_all-Visited p (all_active p) k 0 (no_marks p) w (all_active-IsSorted p o) h)
  | inr h ↦ skipped w h (visit_all-Untouched p (all_active p) k (no_marks p) h)
]
  where
    visited :
        (w : Which)
        → Visited p k (no_marks p) (marks p) w
        → contains k (leaves (marks p) w) ≡ expires p (p.peer_list k) k w
    visited ins v = ground arith
    visited outs v = ground arith
    visited outs_free v = ground arith

    skipped :
        (w : Which)
        → contains k (all_active p) ≡ false
        → Untouched k (no_marks p) (marks p)
        → contains k (leaves (marks p) w) ≡ expires p (p.peer_list k) k w
    skipped ins h u = ground (arith, contains-all_active p k)
    skipped outs h u = ground (arith, contains-all_active p k)
    skipped outs_free h u = ground (arith, contains-all_active p k)

-- After `CheckPeerList` a peer is in a list exactly if it was there and its TTL for the list, less
-- one, is still positive.
pub check_peer_list-active :
    (p : PeerManager) (k : ℕ) (w : Which)
    → AreSorted p
    → contains k (active (check_peer_list p) w)
      ≡ (contains k (active p w) && not (leb_ℤ (pred_ℤ (ttl (p.peer_list k) w)) (pos 0)))
check_peer_list-active p k ins o = rw (check_peer_list-eq p) (
    ground (
      arith,
      contains-erase_all (marks p).leave_in p.active_in k o.ins_sorted,
      marks-leaves p k ins o,
    ))
check_peer_list-active p k outs o = rw (check_peer_list-eq p) (
    ground (
      arith,
      contains-erase_all (marks p).leave_out p.active_out k o.outs_sorted,
      marks-leaves p k outs o,
    ))
check_peer_list-active p k outs_free o = rw (check_peer_list-eq p) (
    ground (
      arith,
      contains-erase_all (marks p).leave_out_free p.active_out_free k o.outs_free_sorted,
      marks-leaves p k outs_free o,
    ))

-- A peer that `CheckPeerList` takes from a list has four more rounds of cooldown for it; the
-- counters of the others fall by one, and end at 0.
pub check_peer_list-cooldown :
    (p : PeerManager) (k : ℕ) (w : Which)
    → AreSorted p
    → get_cooldown (check_peer_list p) w k
      ≡ (if expires p (p.peer_list k) k w then some 4 else cool (get_cooldown p w k))
check_peer_list-cooldown p k ins o =
    rw (check_peer_list-eq p) (
      ground
        (arith, put_all-eq (marks p).leave_in (some 5) p.cooldown_in k, marks-leaves p k ins o))
check_peer_list-cooldown p k outs o = rw (check_peer_list-eq p) (
    ground
      (arith, put_all-eq (marks p).leave_out (some 5) p.cooldown_out k, marks-leaves p k outs o))
check_peer_list-cooldown p k outs_free o = rw (check_peer_list-eq p) (
    ground (
      arith,
      put_all-eq (marks p).leave_out_free (some 5) p.cooldown_out_free k,
      marks-leaves p k outs_free o,
    ))

entry-kept :
    (p : PeerManager) (k : ℕ)
    → AreSorted p
    → contains k (all_active p) ≡ true
    → forgets p (p.peer_list k) k ≡ false
    → put_all (marks p).delete none (marks p).entries k ≡ (marks p).entries k
entry-kept p k o h f = ground (
  arith,
  put_all-eq (marks p).delete none (marks p).entries k,
  visit_all-Visited p (all_active p) k 0 (no_marks p) ins (all_active-IsSorted p o) h,
)

pub check_peer_list-peer_list :
    (p : PeerManager) (k : ℕ) (w : Which)
    → AreSorted p
    → ((contains k (all_active p) ≡ false) × ((check_peer_list p).peer_list k ≡ p.peer_list k))
      ⊎ (((contains k (all_active p) ≡ true)
            × (forgets p (p.peer_list k) k ≡ true)
            × ((check_peer_list p).peer_list k ≡ none))
          ⊎ ((contains k (all_active p) ≡ true)
              × (forgets p (p.peer_list k) k ≡ false)
              × (ttl ((check_peer_list p).peer_list k) w ≡ aged p (p.peer_list k) k w)))
check_peer_list-peer_list p k w o =
    rw (check_peer_list-eq p) (elim (Bool-cases (contains k (all_active p))) [
      | inr h ↦ inl (
        h,
        ground (
          arith,
          put_all-eq (marks p).delete none (marks p).entries k,
          visit_all-Untouched p (all_active p) k (no_marks p) h,
        ),
      )
      | inl h ↦
          let seen =
            visit_all-Visited p (all_active p) k 0 (no_marks p) w (all_active-IsSorted p o) h in
          elim (Bool-cases (forgets p (p.peer_list k) k)) [
            | inl f ↦ inr (
                inl (
                  h,
                  f,
                  ground (arith, put_all-eq (marks p).delete none (marks p).entries k, seen),
                ))
            | inr f ↦ inr (inr (h, f, ap (λ t. ttl t w) (entry-kept p k o h f) ∙ seen.time))
          ]
    ])

-- A peer that stays in a list is known as before.
pub check_peer_list-known :
    (p : PeerManager) (k : ℕ) (w : Which)
    → AreSorted p
    → known (p.peer_list k) k ≡ true
    → stays p (p.peer_list k) k w ≡ true
    → known ((check_peer_list p).peer_list k) k ≡ true
check_peer_list-known p k w o h s = rw (check_peer_list-eq p) (
    ap (λ t. known t k) (entry-kept p k o (inside w s) (kept w s))
    ∙ (visit_all-Visited p (all_active p) k 0 (no_marks p) w (all_active-IsSorted p o)
          (inside w s)).held
        h)
  where
    inside : (w : Which) → stays p (p.peer_list k) k w ≡ true → contains k (all_active p) ≡ true
    inside ins s = ground (arith, contains-all_active p k)
    inside outs s = ground (arith, contains-all_active p k)
    inside outs_free s = ground (arith, contains-all_active p k)

    kept : (w : Which) → stays p (p.peer_list k) k w ≡ true → forgets p (p.peer_list k) k ≡ false
    kept ins s = ground arith
    kept outs s = ground arith
    kept outs_free s = ground arith

pub check_peer_list-AreSorted : (p : PeerManager) → AreSorted p → AreSorted (check_peer_list p)
check_peer_list-AreSorted p o = rw (check_peer_list-eq p) (record {
  ins_sorted = erase_all-IsSorted (marks p).leave_in p.active_in o.ins_sorted;
  outs_sorted = erase_all-IsSorted (marks p).leave_out p.active_out o.outs_sorted;
  outs_free_sorted =
      erase_all-IsSorted (marks p).leave_out_free p.active_out_free o.outs_free_sorted;
})

pub check_peer_list-IsWithin : (p : PeerManager) → IsWithin p → IsWithin (check_peer_list p)
check_peer_list-IsWithin p v = rw (check_peer_list-eq p) (
    omega (
      arith,
      length-erase_all (marks p).leave_in p.active_in,
      length-erase_all (marks p).leave_out p.active_out,
      length-erase_all (marks p).leave_out_free p.active_out_free,
    ))

pub disconnect_peer-AreSorted :
    (p : PeerManager) (k : ℕ) (w : Which) → AreSorted p → AreSorted (disconnect_peer p k w)
unfolding disconnect_peer
disconnect_peer-AreSorted p k ins o = record {
  ins_sorted = erase-Above k 0 p.active_in o.ins_sorted;
  outs_sorted = o.outs_sorted;
  outs_free_sorted = o.outs_free_sorted;
}
disconnect_peer-AreSorted p k outs o = record {
  ins_sorted = o.ins_sorted;
  outs_sorted = erase-Above k 0 p.active_out o.outs_sorted;
  outs_free_sorted = o.outs_free_sorted;
}
disconnect_peer-AreSorted p k outs_free o = record {
  ins_sorted = o.ins_sorted;
  outs_sorted = o.outs_sorted;
  outs_free_sorted = erase-Above k 0 p.active_out_free o.outs_free_sorted;
}
