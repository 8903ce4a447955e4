-- ===== src/PeerManager/Round.antt =====
-- `CheckPeerList` of src/client/PeerManager.cpp, the periodic round over the active peers.
use tvpp_dev_base.Base.{ℕ, Bool, true, false, ◌&&◌, not, if◌then◌else◌, Option, some, List, [], ◌∷◌}
use tvpp_dev_base.Base.Int.{pos, leb_ℤ}
use tvpp_dev_base.Base.Sets.{contains, insert, union}
use tvpp_dev_base.PeerData.{PeerData, dec_ttl_in, dec_ttl_out}
use tvpp_dev_base.PeerManager.{
  ins, outs, outs_free, Which, PeerManager, is_in, put, entry, disconnect_peer, remove_peer,
  check_cooldown,
}

-- The sets that the loop of `CheckPeerList` fills, and the entries that it changes.
pub record Marks : Type 0 where
  pub entries : ℕ → Option PeerData
  pub leave_in : List ℕ
  pub leave_out : List ℕ
  pub leave_out_free : List ℕ
  pub delete : List ℕ

-- One list in a round: whether the peer stays active there, and the marks.
unfoldable pub visit_in : PeerManager → ℕ → Marks → Bool × Marks
unfolding dec_ttl_in
visit_in p k m =
    let d = dec_ttl_in (entry (m.entries k)) in
    let m' = record m { entries = put m.entries k (some d) } in
    if contains k p.active_in
    then if leb_ℤ d.ttl_in (pos 0)
      then (false, record m' { leave_in = insert k m.leave_in })
      else (true, m')
    else (false, m)

unfoldable pub visit_out : PeerManager → ℕ → Marks → Bool × Marks
unfolding dec_ttl_out
visit_out p k m =
    let d = dec_ttl_out (entry (m.entries k)) false in
    let m' = record m { entries = put m.entries k (some d) } in
    if contains k p.active_out
    then if leb_ℤ d.ttl_out (pos 0)
      then (false, record m' { leave_out = insert k m.leave_out })
      else (true, m')
    else (false, m)

unfoldable pub visit_out_free : PeerManager → ℕ → Marks → Bool × Marks
unfolding dec_ttl_out
visit_out_free p k m =
    let d = dec_ttl_out (entry (m.entries k)) true in
    let m' = record m { entries = put m.entries k (some d) } in
    if contains k p.active_out_free
    then if leb_ℤ d.ttl_out_free (pos 0)
      then (false, record m' { leave_out_free = insert k m.leave_out_free })
      else (true, m')
    else (false, m)

-- A round of the loop.
unfoldable pub visit : PeerManager → ℕ → Marks → Marks
visit p k m =
    let (is_in, m1) = visit_in p k m in
    let (is_out, m2) = visit_out p k m1 in
    let (is_out_free, m3) = visit_out_free p k m2 in
    if not is_in && (not is_out && not is_out_free)
    then record m3 { delete = insert k m3.delete }
    else m3

unfoldable pub visit_all : PeerManager → List ℕ → Marks → Marks
visit_all p [] m = m
visit_all p (k ∷ ks) m = visit_all p ks (visit p k m)

abbrev pub no_marks : PeerManager → Marks
no_marks p = record {
  entries = p.peer_list;
  leave_in = [];
  leave_out = [];
  leave_out_free = [];
  delete = [];
}

unfoldable pub disconnect_all : PeerManager → List ℕ → Which → PeerManager
disconnect_all p [] w = p
disconnect_all p (k ∷ ks) w = disconnect_all (disconnect_peer p k w) ks w

unfoldable pub remove_all : PeerManager → List ℕ → PeerManager
remove_all p [] = p
remove_all p (k ∷ ks) = remove_all (remove_peer p k) ks

-- All active peers, without repetition.
unfoldable pub all_active : PeerManager → List ℕ
all_active p = union (union p.active_in p.active_out) p.active_out_free

-- `CheckPeerList`
unfoldable pub check_peer_list : PeerManager → PeerManager
check_peer_list p =
    let m = visit_all p (all_active p) (no_marks p) in
    let p0 = record p { peer_list = m.entries } in
    let p1 = disconnect_all p0 m.leave_in ins in
    let p2 = disconnect_all p1 m.leave_out outs in
    let p3 = disconnect_all p2 m.leave_out_free outs_free in
    let p4 = remove_all p3 m.delete in
    check_cooldown (check_cooldown (check_cooldown p4 ins) outs) outs_free
