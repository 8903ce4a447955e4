-- ===== src/PeerManager/Written.antt =====
-- The state that `CheckPeerList` of src/client/PeerManager.cpp writes, as one record.
use tvpp_dev_base.Base.{
  ℕ, ◌≤◌, ◌≡◌, refl, ◌∙◌, Option, none, some, List, [], ◌∷◌, arith, length, not, if◌then◌else◌,
  ◌&&◌,
}
use tvpp_dev_base.Base.Sets.{
  contains, erase, length-erase-le, IsSorted, contains-erase, erase-Above,
}
use tvpp_dev_base.PeerManager.{
  PeerManager, ins, outs, outs_free, put, cool, disconnect_peer, remove_peer, check_cooldown,
  peer_active_cooldown,
}
use tvpp_dev_base.PeerManager.Round.{
  Marks, no_marks, visit_all, disconnect_all, remove_all, all_active, check_peer_list,
}

pub erase_all : List ℕ → List ℕ → List ℕ
erase_all [] s = s
erase_all (k ∷ ks) s = erase_all ks (erase k s)

pub put_all {ℓ} : {V : Type ℓ} → List ℕ → Option V → (ℕ → Option V) → ℕ → Option V
put_all [] v m = m
put_all (k ∷ ks) v m = put_all ks v (put m k v)

pub contains-erase_all :
    (ks s : List ℕ) (k : ℕ)
    → IsSorted s
    → contains k (erase_all ks s) ≡ (not (contains k ks) && contains k s)
unfolding erase_all
contains-erase_all [] s k o = ground arith
contains-erase_all (j ∷ ks) s k o =
    ground
      (arith, contains-erase_all ks (erase j s) k (erase-Above j 0 s o), contains-erase j k 0 s o)

pub erase_all-IsSorted : (ks s : List ℕ) → IsSorted s → IsSorted (erase_all ks s)
unfolding erase_all
erase_all-IsSorted [] s o = o
erase_all-IsSorted (k ∷ ks) s o = erase_all-IsSorted ks (erase k s) (erase-Above k 0 s o)

pub put_all-eq {ℓ} :
    {V : Type ℓ} (ks : List ℕ) (v : Option V) (m : ℕ → Option V) (k : ℕ)
    → put_all ks v m k ≡ (if contains k ks then v else m k)
unfolding put_all
put_all-eq [] v m k = refl
put_all-eq (j ∷ ks) v m k = put_all-eq ks v (put m j v) k ∙ ground arith

disconnect_all-ins :
    (p : PeerManager) (ks : List ℕ)
    → disconnect_all p ks ins ≡ record p {
      active_in = erase_all ks p.active_in;
      cooldown_in = put_all ks (some peer_active_cooldown) p.cooldown_in;
    }
unfolding disconnect_all disconnect_peer erase_all put_all
disconnect_all-ins p [] = refl
disconnect_all-ins p (k ∷ ks) = disconnect_all-ins (disconnect_peer p k ins) ks

disconnect_all-outs :
    (p : PeerManager) (ks : List ℕ)
    → disconnect_all p ks outs ≡ record p {
      active_out = erase_all ks p.active_out;
      cooldown_out = put_all ks (some peer_active_cooldown) p.cooldown_out;
    }
unfolding disconnect_all disconnect_peer erase_all put_all
disconnect_all-outs p [] = refl
disconnect_all-outs p (k ∷ ks) = disconnect_all-outs (disconnect_peer p k outs) ks

disconnect_all-outs_free :
    (p : PeerManager) (ks : List ℕ)
    → disconnect_all p ks outs_free ≡ record p {
      active_out_free = erase_all ks p.active_out_free;
      cooldown_out_free = put_all ks (some peer_active_cooldown) p.cooldown_out_free;
    }
unfolding disconnect_all disconnect_peer erase_all put_all
disconnect_all-outs_free p [] = refl
disconnect_all-outs_free p (k ∷ ks) = disconnect_all-outs_free (disconnect_peer p k outs_free) ks

remove_all-eq :
    (p : PeerManager) (ks : List ℕ)
    → remove_all p ks ≡ record p { peer_list = put_all ks none p.peer_list }
unfolding remove_all remove_peer put_all
remove_all-eq p [] = refl
remove_all-eq p (k ∷ ks) = remove_all-eq (remove_peer p k) ks

-- The marks of a run.
abbrev pub marks : PeerManager → Marks
marks p = visit_all p (all_active p) (no_marks p)

pub check_peer_list-eq :
    (p : PeerManager)
    → check_peer_list p ≡ record p {
      peer_list = put_all (marks p).delete none (marks p).entries;
      active_in = erase_all (marks p).leave_in p.active_in;
      active_out = erase_all (marks p).leave_out p.active_out;
      active_out_free = erase_all (marks p).leave_out_free p.active_out_free;
      cooldown_in =
          λ k. cool (put_all (marks p).leave_in (some peer_active_cooldown) p.cooldown_in k);
      cooldown_out =
          λ k. cool (put_all (marks p).leave_out (some peer_active_cooldown) p.cooldown_out k);
      cooldown_out_free = λ k.
          cool (put_all (marks p).leave_out_free (some peer_active_cooldown) p.cooldown_out_free k);
    }
unfolding check_peer_list check_cooldown
check_peer_list-eq p =
    rw (remove_all-eq, disconnect_all-outs_free, disconnect_all-outs, disconnect_all-ins)

pub length-erase_all : (ks s : List ℕ) → length (erase_all ks s) ≤ length s
unfolding erase_all
length-erase_all [] s = omega arith
length-erase_all (k ∷ ks) s = omega (arith, length-erase_all ks (erase k s), length-erase-le k s)
