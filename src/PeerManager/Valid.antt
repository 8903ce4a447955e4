-- ===== src/PeerManager/Valid.antt =====
-- The invariant of src/client/PeerManager.cpp, and each method that keeps it.
use tvpp_dev_base.Base.{ℕ, ◌≡◌, ◌∙◌, ap, List, ◌⊎◌, inl, inr, Bool, true, Option, some, arith}
use tvpp_dev_base.Base.Int.{ℤ, pos, negsuc}
use tvpp_dev_base.Base.Sets.{contains, length-erase-le, erase-Above, contains-erase}
use tvpp_dev_base.PeerData.{Peer, PeerData}
use tvpp_dev_base.PeerManager.{
  PeerManager, Which, ins, outs, outs_free, active, add_peer, connect_peer, disconnect_peer,
  inc_sent_chunks,
}
use tvpp_dev_base.PeerManager.Round.{check_peer_list}
use tvpp_dev_base.PeerManager.Limits.{IsWithin, connect_peer-IsWithin, set_new_max_out-IsWithin}
use tvpp_dev_base.PeerManager.Sizes.{set_new_max_out}
use tvpp_dev_base.PeerManager.Narrowed.{Sorts, set_new_max_out-Narrowed}
use tvpp_dev_base.PeerManager.Connection.{Connected, connect_peer-Connected}
use tvpp_dev_base.PeerManager.Sweep.{known}
use tvpp_dev_base.PeerManager.Check.{
  AreSorted, check_peer_list-AreSorted, check_peer_list-active, check_peer_list-known,
  check_peer_list-IsWithin,
}

-- Every active peer is known, and its entry holds the peer of that id.
pub record AreKnown (p : PeerManager) : Type 0 where
  pub ins_known : (k : ℕ) → contains k p.active_in ≡ true → known (p.peer_list k) k ≡ true
  pub outs_known : (k : ℕ) → contains k p.active_out ≡ true → known (p.peer_list k) k ≡ true
  pub outs_free_known :
      (k : ℕ) → contains k p.active_out_free ≡ true → known (p.peer_list k) k ≡ true

check_peer_list-AreKnown :
    (p : PeerManager) → AreSorted p → AreKnown p → AreKnown (check_peer_list p)
check_peer_list-AreKnown p o a = record {
  ins_known = λ k h.
      let s = check_peer_list-active p k ins o in
      check_peer_list-known p k ins o (a.ins_known k (ground arith)) (ground arith);
  outs_known = λ k h.
      let s = check_peer_list-active p k outs o in
      check_peer_list-known p k outs o (a.outs_known k (ground arith)) (ground arith);
  outs_free_known = λ k h.
      let s = check_peer_list-active p k outs_free o in
      check_peer_list-known p k outs_free o (a.outs_free_known k (ground arith)) (ground arith);
}

-- `AddPeer` of a peer makes it known, keeps every list, and forgets nobody.
add_peer-keeps :
    (p : PeerManager) (r : Peer) (a b : ℤ) (t : Bool) (q : PeerManager)
    → add_peer p r a b ≡ some (t, q)
    → (q ≡ record p { peer_list = q.peer_list })
      × ((k : ℕ) → known (p.peer_list k) k ≡ true → known (q.peer_list k) k ≡ true)
unfolding add_peer
add_peer-keeps p r a b t q e = (ground arith, λ k h. ground arith)

-- The whole invariant.
pub record IsValid (p : PeerManager) : Type 0 where
  pub are_sorted : AreSorted p
  pub is_within : IsWithin p
  pub are_known : AreKnown p

pub members-known :
    (p : PeerManager)
    → AreKnown p
    → (w : Which) (k : ℕ) → contains k (active p w) ≡ true
    → known (p.peer_list k) k ≡ true
members-known p a ins = a.ins_known
members-known p a outs = a.outs_known
members-known p a outs_free = a.outs_free_known

AreKnown-of :
    (p : PeerManager)
    → ((w : Which) (k : ℕ) → contains k (active p w) ≡ true → known (p.peer_list k) k ≡ true)
    → AreKnown p
AreKnown-of p f = record { ins_known = f ins; outs_known = f outs; outs_free_known = f outs_free }

pub peer_list-IsValid :
    (p : PeerManager) (m : ℕ → Option PeerData)
    → ((k : ℕ) → known (p.peer_list k) k ≡ true → known (m k) k ≡ true)
    → IsValid p
    → IsValid (record p { peer_list = m })
peer_list-IsValid p m f v = record {
  are_sorted = record {
    ins_sorted = v.are_sorted.ins_sorted;
    outs_sorted = v.are_sorted.outs_sorted;
    outs_free_sorted = v.are_sorted.outs_free_sorted;
  };
  is_within = record {
    ins_fit = v.is_within.ins_fit;
    outs_fit = v.is_within.outs_fit;
    outs_free_fit = v.is_within.outs_free_fit;
  };
  are_known = record {
    ins_known = λ k h. f k (v.are_known.ins_known k h);
    outs_known = λ k h. f k (v.are_known.outs_known k h);
    outs_free_known = λ k h. f k (v.are_known.outs_free_known k h);
  };
}

pub add_peer-IsValid :
    (p : PeerManager) (r : Peer) (a b : ℤ) (t : Bool) (q : PeerManager)
    → add_peer p r a b ≡ some (t, q)
    → IsValid p
    → IsValid q
add_peer-IsValid p r a b t q e v =
    let (same, keeps) = add_peer-keeps p r a b t q e in
    rw same (peer_list-IsValid p q.peer_list keeps v)

pub connect_peer-IsValid :
    (p : PeerManager) (k : ℕ) (w : Which) (b : Bool) (q : PeerManager)
    → connect_peer p k w ≡ some (b, q)
    → known (p.peer_list k) k ≡ true
    → IsValid p
    → IsValid q
connect_peer-IsValid p k w b q e h v = record {
  are_sorted = c.sorted v.are_sorted;
  is_within = connect_peer-IsWithin p k w b q e v.is_within;
  are_known = AreKnown-of q (λ w' j m. c.peers j (was w' j (c.members w' j v.are_sorted m)));
}
  where
    c : Connected k p q
    c = connect_peer-Connected p k w b q e

    was :
        (w' : Which) (j : ℕ)
        → (contains j (active p w') ≡ true) ⊎ (j ≡ k)
        → known (p.peer_list j) j ≡ true
    was w' j (inl m) = members-known p v.are_known w' j m
    was w' j (inr e) = rw e h

pub disconnect_peer-IsValid :
    (p : PeerManager) (k : ℕ) (w : Which) → IsValid p → IsValid (disconnect_peer p k w)
unfolding disconnect_peer
disconnect_peer-IsValid p k ins v = record {
  are_sorted = record {
    ins_sorted = erase-Above k 0 p.active_in v.are_sorted.ins_sorted;
    outs_sorted = v.are_sorted.outs_sorted;
    outs_free_sorted = v.are_sorted.outs_free_sorted;
  };
  is_within = omega (arith, length-erase-le k p.active_in);
  are_known = record {
    ins_known = λ j h.
        v.are_known.ins_known j
          (ground (arith, contains-erase k j 0 p.active_in v.are_sorted.ins_sorted));
    outs_known = v.are_known.outs_known;
    outs_free_known = v.are_known.outs_free_known;
  };
}
disconnect_peer-IsValid p k outs v = record {
  are_sorted = record {
    ins_sorted = v.are_sorted.ins_sorted;
    outs_sorted = erase-Above k 0 p.active_out v.are_sorted.outs_sorted;
    outs_free_sorted = v.are_sorted.outs_free_sorted;
  };
  is_within = omega (arith, length-erase-le k p.active_out);
  are_known = record {
    ins_known = v.are_known.ins_known;
    outs_known = λ j h.
        v.are_known.outs_known j
          (ground (arith, contains-erase k j 0 p.active_out v.are_sorted.outs_sorted));
    outs_free_known = v.are_known.outs_free_known;
  };
}
disconnect_peer-IsValid p k outs_free v = record {
  are_sorted = record {
    ins_sorted = v.are_sorted.ins_sorted;
    outs_sorted = v.are_sorted.outs_sorted;
    outs_free_sorted = erase-Above k 0 p.active_out_free v.are_sorted.outs_free_sorted;
  };
  is_within = omega (arith, length-erase-le k p.active_out_free);
  are_known = record {
    ins_known = v.are_known.ins_known;
    outs_known = v.are_known.outs_known;
    outs_free_known = λ j h.
        v.are_known.outs_free_known j
          (ground (arith, contains-erase k j 0 p.active_out_free v.are_sorted.outs_free_sorted));
  };
}

inc_sent_chunks-keeps :
    (p : PeerManager) (k : ℕ)
    → (inc_sent_chunks p k ≡ record p { peer_list = (inc_sent_chunks p k).peer_list })
      × ((j : ℕ)
          → known (p.peer_list j) j ≡ true
          → known ((inc_sent_chunks p k).peer_list j) j ≡ true)
unfolding inc_sent_chunks
inc_sent_chunks-keeps p k = (ground arith, λ j h. ground arith)

pub inc_sent_chunks-IsValid : (p : PeerManager) (k : ℕ) → IsValid p → IsValid (inc_sent_chunks p k)
inc_sent_chunks-IsValid p k v =
    let (same, keeps) = inc_sent_chunks-keeps p k in
    rw same (peer_list-IsValid p (inc_sent_chunks p k).peer_list keeps v)

pub check_peer_list-IsValid : (p : PeerManager) → IsValid p → IsValid (check_peer_list p)
check_peer_list-IsValid p v = record {
  are_sorted = check_peer_list-AreSorted p v.are_sorted;
  is_within = check_peer_list-IsWithin p v.is_within;
  are_known = check_peer_list-AreKnown p v.are_sorted v.are_known;
}

set_new_max_out-IsWithin' :
    (sort : List (ℕ × ℕ) → List (ℕ × ℕ)) (p : PeerManager) (n : ℤ) (w : Which) (q : PeerManager)
    → set_new_max_out sort p n w ≡ some q
    → IsWithin p
    → IsWithin q
unfolding set_new_max_out
set_new_max_out-IsWithin' sort p (negsuc n) w q e v = let same : q ≡ p = ground arith in rw same v
set_new_max_out-IsWithin' sort p (pos n) ins q e v = let same : q ≡ p = ground arith in rw same v
set_new_max_out-IsWithin' sort p (pos n) outs q e v =
    (set_new_max_out-IsWithin sort p n outs q e (λ f. cc) v).1
set_new_max_out-IsWithin' sort p (pos n) outs_free q e v =
    (set_new_max_out-IsWithin sort p n outs_free q e (λ f. cc) v).1

pub set_new_max_out-IsValid :
    (sort : List (ℕ × ℕ) → List (ℕ × ℕ)) (p : PeerManager) (n : ℤ) (w : Which) (q : PeerManager)
    → Sorts sort
    → set_new_max_out sort p n w ≡ some q
    → IsValid p
    → IsValid q
set_new_max_out-IsValid sort p n w q keeps e v =
    let less = set_new_max_out-Narrowed sort p n w q keeps (members-known p v.are_known) e in
    record {
      are_sorted = less.sorted v.are_sorted;
      is_within = set_new_max_out-IsWithin' sort p n w q e v.is_within;
      are_known = AreKnown-of q (λ u k h.
          ap (λ m. known (m k) k) less.same_peers
          ∙ members-known p v.are_known u k (less.from_before u k h));
    }
