-- ===== src/PeerManager/Tests.antt =====
-- The theorems on the peer manager at concrete managers.
use tvpp_dev_base.Base.{
  ℕ, ◌≡◌, refl, ◌≢◌, Bool, true, false, not, ◌&&◌, if◌then◌else◌, Option, none, some, List, [], ◌∷◌,
  arith, ◌==◌, replicate,
}
use tvpp_dev_base.Base.Int.{ℤ, pos, negsuc, pred_ℤ, leb_ℤ}
use tvpp_dev_base.Base.Sets.{contains, insert, eq_set}
use tvpp_dev_base.PeerData.{Peer, PeerData, ttl_max, get_pair}
use tvpp_dev_base.PeerManager.{
  PeerManager, ins, outs, active, get_cooldown, connect_peer, disconnect_peer, add_peer,
}
use tvpp_dev_base.PeerManager.Sizes.{set_new_max_out, pairs, insert_first}
use tvpp_dev_base.PeerManager.Round.{check_peer_list}
use tvpp_dev_base.PeerManager.Limits.{IsWithin}
use tvpp_dev_base.PeerManager.Sweep.{ttl}
use tvpp_dev_base.PeerManager.Check.{AreSorted, check_peer_list-active}
use tvpp_dev_base.PeerManager.Invariant.{here, next, checks, disconnects, narrows, Reach-IsValid}
use tvpp_dev_base.PeerManager.Valid.{IsValid}
use tvpp_dev_base.PeerManager.Total.{connect_peer-total}
use tvpp_dev_base.PeerManager.Cooldown.{rounds, cooldown_holds}
use tvpp_dev_base.PeerManager.Entries.{sizes, add_peer_default, connect_peer_same_contents}

abbrev named : ℕ → ℤ → Peer
named k out = record {
  id = k;
  ip = k;
  size_out = out;
  size_out_free = pos 0;
  size_out_old = out;
  size_out_old_free = pos 0;
  limit_upload = pos 0;
}

abbrev peer_of : ℕ → ℤ → PeerData
peer_of k out = record {
  peer = some (named k out);
  mode = 1;
  chunk_map_head = record { position = 0; cycle = 0; buffer_size = 4 };
  chunk_map = replicate 4 false;
  ttl_in = pos 6;
  ttl_out = pos 3;
  ttl_out_free = ttl_max;
  ttl_channel = ttl_max;
  peer_sent_chunks = 12;
  hit_count = 0;
  upload_score = pos 0;
  pending_requests = pos 0;
  delay = 0;
}

-- Three known peers with out lists of sizes 4, 6 and 8.
abbrev peers : ℕ → Option PeerData
peers k =
    if k == 1
    then some (peer_of 1 (pos 4))
    else if k == 2
    then some (peer_of 2 (pos 6))
    else if k == 3
    then some (peer_of 3 (pos 8))
    else none

-- A full out list of the first two, and an in list of the second, while the worse partner may be
-- replaced.
abbrev full : PeerManager
full = record {
  max_in = 2;
  max_out = 2;
  max_out_free = 1;
  out_limit = 0;
  peer_list = peers;
  active_in = 2 ∷ [];
  active_out = 1 ∷ 2 ∷ [];
  active_out_free = [];
  cooldown_in = λ k. none;
  cooldown_out = λ k. if k == 7 then some 1 else none;
  cooldown_out_free = λ k. none;
  remove_worse = true;
}

full-AreSorted : AreSorted full
full-AreSorted = record {
  ins_sorted = (omega arith, tt);
  outs_sorted = (omega arith, (omega arith, tt));
  outs_free_sorted = tt;
}

full-IsWithin : IsWithin full
full-IsWithin = record {
  ins_fit = omega arith;
  outs_fit = omega arith;
  outs_free_fit = omega arith;
}

full-IsValid : IsValid full
full-IsValid = record {
  are_sorted = full-AreSorted;
  is_within = full-IsWithin;
  are_known = record {
    ins_known = λ k h. grind arith;
    outs_known = λ k h. grind arith;
    outs_free_known = λ k h. grind arith;
  };
}

abbrev as_given : List (ℕ × ℕ) → List (ℕ × ℕ)
as_given v = v

abbrev narrowed : PeerManager
narrowed = record full { max_out = 1; active_out = 1 ∷ [] }

narrow : set_new_max_out as_given full (pos 1) outs ≡ some narrowed
unfolding set_new_max_out pairs insert_first get_pair insert
narrow = refl

outs-ne : outs ≢ ins
outs-ne e = cc

Reach-IsValid_example : IsValid (check_peer_list (disconnect_peer narrowed 1 outs))
Reach-IsValid_example =
    Reach-IsValid
      (next
        (next (next here (narrows as_given (pos 1) outs (λ v k h. h) narrow))
          (disconnects 1 outs refl))
        (checks refl))
      full-IsValid

check_peer_list-active_example :
    contains 1 (active (check_peer_list full) outs)
    ≡ (contains 1 (active full outs) && not (leb_ℤ (pred_ℤ (ttl (full.peer_list 1) outs)) (pos 0)))
check_peer_list-active_example = check_peer_list-active full 1 outs full-AreSorted

connect_peer-total_example :
    (b : Bool) × (q : PeerManager) × (connect_peer full 3 outs ≡ some (b, q))
connect_peer-total_example = connect_peer-total full 3 outs full-IsValid refl

cooldown_holds_example :
    (connect_peer (rounds 4 (disconnect_peer full 1 outs)) 1 outs
      ≡ some (false, rounds 4 (disconnect_peer full 1 outs)))
    × (get_cooldown (rounds 5 (disconnect_peer full 1 outs)) outs 1 ≡ none)
cooldown_holds_example = cooldown_holds full 1 outs 4 full-AreSorted (omega arith)

add_peer_default_example :
    (q : PeerManager) × (add_peer full (named 1 (pos 4)) (negsuc 0) (negsuc 0) ≡ some (false, q))
    × (sizes (q.peer_list 1) ≡ (some (pos 4), some (negsuc 0)))
add_peer_default_example =
    add_peer_default full (named 1 (pos 4)) (named 1 (pos 4)) (peer_of 1 (pos 4)) refl refl

-- An in list with the first peer, and an empty out list.
abbrev same : PeerManager
same = record full { active_in = 1 ∷ []; active_out = [] }

same_contents : eq_set (insert 1 same.active_out) same.active_in ≡ true
unfolding eq_set insert
same_contents = refl

connect_peer_same_contents_example :
    (q : PeerManager) × (connect_peer same 1 outs ≡ some (true, q))
    × (q.active_out ≡ insert 1 same.active_out)
    × (ttl (q.peer_list 1) ins ≡ ttl_max)
    × (ttl (q.peer_list 1) outs ≡ ttl (same.peer_list 1) outs)
connect_peer_same_contents_example =
    connect_peer_same_contents same 1 refl (omega arith) refl same_contents
