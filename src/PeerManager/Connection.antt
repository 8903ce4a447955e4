-- ===== src/PeerManager/Connection.antt =====
-- `ConnectPeer` and `ConnectSpecial` of src/client/PeerManager.cpp: who may be in the lists afterwards.
use tvpp_dev_base.Base.{
  ℕ, ◌≡◌, refl, ◌⊎◌, inl, inr, Bool, true, false, Option, some, List, [], ◌∷◌, arith, if◌then◌else◌,
  Option-cases,
}
use tvpp_dev_base.Base.Int.{ℤ}
use tvpp_dev_base.Base.Sets.{
  contains, insert, erase, IsSorted, insert-Above, erase-Above, contains-insert, contains-erase,
}
use tvpp_dev_base.PeerData.{PeerData, get_size_out, get_size_out_free, set_ttl_in, set_ttl_out}
use tvpp_dev_base.PeerManager.{
  PeerManager, Which, ins, outs, outs_free, active, set_active, smaller_from, replace_smaller,
  connect_special_by, connect_special, try_insert, reset_ttl, connect_peer, informed,
}
use tvpp_dev_base.PeerManager.Limits.{connect_peer_cases}
use tvpp_dev_base.PeerManager.Sweep.{known}
use tvpp_dev_base.PeerManager.Check.{AreSorted}

-- A call that may put the peer `k` in a list, and otherwise only takes members away.
pub record Grown (k : ℕ) (p q : PeerManager) : Type 0 where
  pub same_peers : q.peer_list ≡ p.peer_list
  sorted : AreSorted p → AreSorted q
  ins_from :
      (j : ℕ)
      → AreSorted p
      → contains j q.active_in ≡ true
      → (contains j p.active_in ≡ true) ⊎ (j ≡ k)
  outs_from :
      (j : ℕ)
      → AreSorted p
      → contains j q.active_out ≡ true
      → (contains j p.active_out ≡ true) ⊎ (j ≡ k)
  outs_free_from :
      (j : ℕ)
      → AreSorted p
      → contains j q.active_out_free ≡ true
      → (contains j p.active_out_free ≡ true) ⊎ (j ≡ k)

Grown-refl : (k : ℕ) (p : PeerManager) → Grown k p p
Grown-refl k p = record {
  same_peers = refl;
  sorted = λ o. o;
  ins_from = λ j o h. inl h;
  outs_from = λ j o h. inl h;
  outs_free_from = λ j o h. inl h;
}

-- The set of one list gets the peer and loses members.
set_active-Grown :
    (k : ℕ) (p : PeerManager) (w : Which) (s : List ℕ)
    → (IsSorted (active p w) → IsSorted s)
    → ((j : ℕ)
        → IsSorted (active p w)
        → contains j s ≡ true
        → (contains j (active p w) ≡ true) ⊎ (j ≡ k))
    → Grown k p (set_active p w s)
set_active-Grown k p ins s o f = record {
  same_peers = refl;
  sorted = λ v. record {
    ins_sorted = o v.ins_sorted;
    outs_sorted = v.outs_sorted;
    outs_free_sorted = v.outs_free_sorted;
  };
  ins_from = λ j v h. f j v.ins_sorted h;
  outs_from = λ j v h. inl h;
  outs_free_from = λ j v h. inl h;
}
set_active-Grown k p outs s o f = record {
  same_peers = refl;
  sorted = λ v. record {
    ins_sorted = v.ins_sorted;
    outs_sorted = o v.outs_sorted;
    outs_free_sorted = v.outs_free_sorted;
  };
  ins_from = λ j v h. inl h;
  outs_from = λ j v h. f j v.outs_sorted h;
  outs_free_from = λ j v h. inl h;
}
set_active-Grown k p outs_free s o f = record {
  same_peers = refl;
  sorted = λ v. record {
    ins_sorted = v.ins_sorted;
    outs_sorted = v.outs_sorted;
    outs_free_sorted = o v.outs_free_sorted;
  };
  ins_from = λ j v h. inl h;
  outs_from = λ j v h. inl h;
  outs_free_from = λ j v h. f j v.outs_free_sorted h;
}

-- Grown does not see the flag that `ConnectSpecial` clears.
Grown-flag :
    (k : ℕ) (p q : PeerManager) (b : Bool) → Grown k p q → Grown k p (record q { remove_worse = b })
Grown-flag k p q b g = record {
  same_peers = g.same_peers;
  sorted = λ v.
      let v' = g.sorted v in
      record {
        ins_sorted = v'.ins_sorted;
        outs_sorted = v'.outs_sorted;
        outs_free_sorted = v'.outs_free_sorted;
      };
  ins_from = g.ins_from;
  outs_from = g.outs_from;
  outs_free_from = g.outs_free_from;
}

insert-Grown :
    (k : ℕ) (p : PeerManager) (w : Which) → Grown k p (set_active p w (insert k (active p w)))
insert-Grown k p w =
    set_active-Grown k p w (insert k (active p w)) (insert-Above k 0 (active p w) (omega arith))
      (λ j o h. ground (arith, contains-insert k j (active p w)))

replace-Grown :
    (k r : ℕ) (p : PeerManager) (w : Which)
    → Grown k p (set_active p w (insert k (erase r (active p w))))
replace-Grown k r p w =
    set_active-Grown k p w (insert k (erase r (active p w)))
      (λ o. insert-Above k 0 (erase r (active p w)) (omega arith) (erase-Above r 0 (active p w) o))
      (λ j o h.
        ground
          (arith, contains-insert k j (erase r (active p w)), contains-erase r j 0 (active p w) o))

replace_smaller_cases :
    (size : PeerData → Option ℤ) (p : PeerManager) (w : Which) (k r : ℕ) (b : Bool)
    (q : PeerManager)
    → replace_smaller size p w k r ≡ some (b, q)
    → (q ≡ p)
      ⊎ (q ≡ record (set_active p w (insert k (erase r (active p w)))) { remove_worse = false })
unfolding replace_smaller
replace_smaller_cases size p w k r b q e = ground arith

connect_special_by-Grown :
    (size : PeerData → Option ℤ) (p : PeerManager) (w : Which) (k : ℕ) (s : List ℕ) (b : Bool)
    (q : PeerManager)
    → connect_special_by size p k w s ≡ some (b, q)
    → Grown k p q
unfolding connect_special_by
connect_special_by-Grown size p w k [] b q e =
    let same : q ≡ p = ground arith in rw same (Grown-refl k p)
connect_special_by-Grown size p w k (f ∷ r) b q e =
    elim (Option-cases (smaller_from (informed size p) f (f ∷ r))) [
      | inl h ↦ absurd (cc (rw (h, connect_special_by) at e))
      | inr (n, h) ↦
          elim (replace_smaller_cases size p w k n b q (rw (h, connect_special_by) at e)) [
            | inl g ↦ rw g (Grown-refl k p)
            | inr g ↦ rw g (Grown-flag k p _ false (replace-Grown k n p w))
          ]
    ]

-- The cases of `try_insert` that return.
pub try_insert-Grown :
    (p : PeerManager) (k : ℕ) (w : Which) (b : Bool) (q : PeerManager)
    → try_insert p k w ≡ some (b, q)
    → Grown k p q
unfolding try_insert connect_special
try_insert-Grown p k w b q e = elim (cases) [
  | inl g ↦ rw g (insert-Grown k p w)
  | inr (inl g) ↦ rw g (Grown-refl k p)
  | inr (inr (inl g)) ↦ connect_special_by-Grown get_size_out p w k (active p w) b q g
  | inr (inr (inr g)) ↦ connect_special_by-Grown get_size_out_free p w k (active p w) b q g
]
  where
    cases :
        (q ≡ set_active p w (insert k (active p w)))
        ⊎ ((q ≡ p)
            ⊎ ((connect_special_by get_size_out p k w (active p w) ≡ some (b, q))
                ⊎ (connect_special_by get_size_out_free p k w (active p w) ≡ some (b, q))))
    cases = ground arith

reset_ttl-known :
    (p : PeerManager) (k j : ℕ) (w : Which)
    → known (p.peer_list j) j ≡ true
    → known ((reset_ttl p k w).peer_list j) j ≡ true
unfolding reset_ttl set_ttl_in set_ttl_out
reset_ttl-known p k j w h = ground arith

reset_ttl-active : (p : PeerManager) (k : ℕ) (w v : Which) → active (reset_ttl p k w) v ≡ active p v
unfolding reset_ttl
reset_ttl-active p k w ins = ground arith
reset_ttl-active p k w outs = ground arith
reset_ttl-active p k w outs_free = ground arith

-- What a call of `ConnectPeer` leaves: sorted sets, no member but the old ones and the peer, and every
-- entry that was known.
pub record Connected (k : ℕ) (p q : PeerManager) : Type 0 where
  pub sorted : AreSorted p → AreSorted q
  pub members :
      (w : Which) (j : ℕ)
      → AreSorted p
      → contains j (active q w) ≡ true
      → (contains j (active p w) ≡ true) ⊎ (j ≡ k)
  pub peers : (j : ℕ) → known (p.peer_list j) j ≡ true → known (q.peer_list j) j ≡ true

Grown-Connected : (k : ℕ) (p q : PeerManager) → Grown k p q → Connected k p q
Grown-Connected k p q g = record {
  sorted = g.sorted;
  members = from;
  peers = λ j h. rw g.same_peers h;
}
  where
    from :
        (w : Which) (j : ℕ)
        → AreSorted p
        → contains j (active q w) ≡ true
        → (contains j (active p w) ≡ true) ⊎ (j ≡ k)
    from ins = g.ins_from
    from outs = g.outs_from
    from outs_free = g.outs_free_from

reset-Connected :
    (k : ℕ) (p q : PeerManager) (w : Which) → Connected k p q → Connected k p (reset_ttl q k w)
reset-Connected k p q w c = record {
  sorted = λ o.
      let o' = c.sorted o in
      record {
        ins_sorted = rw (reset_ttl-active q k w ins) o'.ins_sorted;
        outs_sorted = rw (reset_ttl-active q k w outs) o'.outs_sorted;
        outs_free_sorted = rw (reset_ttl-active q k w outs_free) o'.outs_free_sorted;
      };
  members = λ v j o h. c.members v j o (rw (reset_ttl-active q k w v) at h);
  peers = λ j h. reset_ttl-known q k j w (c.peers j h);
}

pub connect_peer-Connected :
    (p : PeerManager) (k : ℕ) (w : Which) (b : Bool) (q : PeerManager)
    → connect_peer p k w ≡ some (b, q)
    → Connected k p q
connect_peer-Connected p k w b q e = elim (connect_peer_cases p k w b q e) [
  | inl (n, h, f, same) ↦ rw same (Grown-Connected k p p (Grown-refl k p))
  | inr (p', h, t, r) ↦ rw r (pick b (Grown-Connected k p p' (try_insert-Grown p k w b p' t)))
]
  where
    pick :
        {p' : PeerManager} (b : Bool)
        → Connected k p p'
        → Connected k p (if b then reset_ttl p' k w else p')
    pick {p'} true c = reset-Connected k p p' w c
    pick false c = c
