-- ===== src/PeerManager/Sweep.antt =====
-- `CheckPeerList`: which peers leave which list, and which are forgotten.
use tvpp_dev_base.Base.{
  ℕ, suc, ◌≡◌, refl, ◌≢◌, inl, inr, Bool, true, false, Option, none, some, List, [], ◌∷◌, arith,
  not, ◌==◌, if◌then◌else◌, ◌&&◌, ◌||◌, Bool-cases, ==→eq, ==→ne,
}
use tvpp_dev_base.Base.Int.{ℤ, pos, pred_ℤ, leb_ℤ}
use tvpp_dev_base.Base.Sets.{contains, Above, contains-insert, contains-below}
use tvpp_dev_base.PeerData.{PeerData}
use tvpp_dev_base.PeerManager.{PeerManager, Which, ins, outs, outs_free, active, entry}
use tvpp_dev_base.PeerManager.Round.{Marks, visit_in, visit_out, visit_out_free, visit, visit_all}

-- The TTL of a list in an entry.
abbrev pub ttl : Option PeerData → Which → ℤ
ttl e ins = (entry e).ttl_in
ttl e outs = (entry e).ttl_out
ttl e outs_free = (entry e).ttl_out_free

-- Whether a round takes the peer from a list, or leaves it there.
abbrev pub expires : PeerManager → Option PeerData → ℕ → Which → Bool
expires p e k w = contains k (active p w) && leb_ℤ (pred_ℤ (ttl e w)) (pos 0)

abbrev pub stays : PeerManager → Option PeerData → ℕ → Which → Bool
stays p e k w = contains k (active p w) && not (leb_ℤ (pred_ℤ (ttl e w)) (pos 0))

abbrev pub leaves : Marks → Which → List ℕ
leaves m ins = m.leave_in
leaves m outs = m.leave_out
leaves m outs_free = m.leave_out_free

visit_self :
    (p : PeerManager) (k : ℕ) (m : Marks) (w : Which)
    → contains k (leaves (visit p k m) w) ≡ (contains k (leaves m w) || expires p (m.entries k) k w)
unfolding visit visit_in visit_out visit_out_free
visit_self p k m ins = ground (arith, contains-insert k k m.leave_in)
visit_self p k m outs = ground (arith, contains-insert k k m.leave_out)
visit_self p k m outs_free = ground (arith, contains-insert k k m.leave_out_free)

-- A peer is forgotten when it stays in no list.
visit-delete :
    (p : PeerManager) (k : ℕ) (m : Marks)
    → contains k (visit p k m).delete ≡ (
        contains k m.delete
        || (not (stays p (m.entries k) k ins)
            && (not (stays p (m.entries k) k outs) && not (stays p (m.entries k) k outs_free))))
unfolding visit visit_in visit_out visit_out_free
visit-delete p k m = ground (arith, contains-insert k k m.delete)

-- The TTLs of the lists that hold the peer fall by one.
abbrev pub aged : PeerManager → Option PeerData → ℕ → Which → ℤ
aged p e k w = if contains k (active p w) then pred_ℤ (ttl e w) else ttl e w

visit-ttl :
    (p : PeerManager) (k : ℕ) (m : Marks) (w : Which)
    → ttl ((visit p k m).entries k) w ≡ aged p (m.entries k) k w
unfolding visit visit_in visit_out visit_out_free
visit-ttl p k m ins = ground arith
visit-ttl p k m outs = ground arith
visit-ttl p k m outs_free = ground arith

-- An entry that the code can use: it holds the peer of its key.
abbrev pub known : Option PeerData → ℕ → Bool
known none k = false
known (some d) k = elim d.peer [ none ↦ false | some r ↦ r.id == k ]

visit-known :
    (p : PeerManager) (k : ℕ) (m : Marks)
    → known (m.entries k) k ≡ true
    → known ((visit p k m).entries k) k ≡ true
unfolding visit visit_in visit_out visit_out_free
visit-known p k m h = ground arith

-- A round does not touch the other peers.
pub record Untouched (j : ℕ) (m m' : Marks) : Type 0 where
  pub entry_kept : m'.entries j ≡ m.entries j
  pub in_kept : contains j m'.leave_in ≡ contains j m.leave_in
  pub out_kept : contains j m'.leave_out ≡ contains j m.leave_out
  pub out_free_kept : contains j m'.leave_out_free ≡ contains j m.leave_out_free
  pub delete_kept : contains j m'.delete ≡ contains j m.delete

visit-Untouched : (p : PeerManager) (k j : ℕ) (m : Marks) → j ≢ k → Untouched j m (visit p k m)
unfolding visit visit_in visit_out visit_out_free
visit-Untouched p k j m h = ground (
  arith,
  contains-insert k j m.leave_in,
  contains-insert k j m.leave_out,
  contains-insert k j m.leave_out_free,
  contains-insert k j m.delete,
)

pub visit_all-Untouched :
    (p : PeerManager) (ks : List ℕ) (j : ℕ) (m : Marks)
    → contains j ks ≡ false
    → Untouched j m (visit_all p ks m)
unfolding visit_all
visit_all-Untouched p [] j m h = record {
  entry_kept = refl;
  in_kept = refl;
  out_kept = refl;
  out_free_kept = refl;
  delete_kept = refl;
}
visit_all-Untouched p (k ∷ ks) j m h =
    ground (arith, visit-Untouched p k j m, visit_all-Untouched p ks j (visit p k m))

abbrev pub forgets : PeerManager → Option PeerData → ℕ → Bool
forgets p e k = not (stays p e k ins) && (not (stays p e k outs) && not (stays p e k outs_free))

-- What the loop does to a peer that it visits once.
pub record Visited (p : PeerManager) (k : ℕ) (m m' : Marks) (w : Which) : Type 0 where
  pub marked : contains k (leaves m' w) ≡ (contains k (leaves m w) || expires p (m.entries k) k w)
  pub deleted : contains k m'.delete ≡ (contains k m.delete || forgets p (m.entries k) k)
  pub time : ttl (m'.entries k) w ≡ aged p (m.entries k) k w
  pub held : known (m.entries k) k ≡ true → known (m'.entries k) k ≡ true

Visited-Untouched :
    (p : PeerManager) (k : ℕ) (m m' m'' : Marks) (w : Which)
    → Visited p k m m' w
    → Untouched k m' m''
    → Visited p k m m'' w
Visited-Untouched p k m m' m'' ins v u = ground arith
Visited-Untouched p k m m' m'' outs v u = ground arith
Visited-Untouched p k m m' m'' outs_free v u = ground arith

Untouched-Visited :
    (p : PeerManager) (k : ℕ) (m m' m'' : Marks) (w : Which)
    → Untouched k m m'
    → Visited p k m' m'' w
    → Visited p k m m'' w
Untouched-Visited p k m m' m'' ins u v = ground arith
Untouched-Visited p k m m' m'' outs u v = ground arith
Untouched-Visited p k m m' m'' outs_free u v = ground arith

pub visit_all-Visited :
    (p : PeerManager) (ks : List ℕ) (k b : ℕ) (m : Marks) (w : Which)
    → Above b ks
    → contains k ks ≡ true
    → Visited p k m (visit_all p ks m) w
unfolding visit_all
visit_all-Visited p [] k b m w o h = absurd (cc)
visit_all-Visited p (j ∷ ks) k b m w o h = elim (Bool-cases (k == j)) [
  | inl e ↦ rw (← ==→eq k j e) (
      Visited-Untouched p k m (visit p k m) (visit_all p ks (visit p k m)) w
        (record {
          marked = visit_self p k m w;
          deleted = visit-delete p k m;
          time = visit-ttl p k m w;
          held = visit-known p k m;
        })
        (visit_all-Untouched p ks k (visit p k m)
          (ground (arith, ==→eq k j e, contains-below k (suc j) ks o.1))))
  | inr e ↦
      Untouched-Visited p k m (visit p j m) (visit_all p ks (visit p j m)) w
        (visit-Untouched p j k m (==→ne k j e))
        (visit_all-Visited p ks k (suc j) (visit p j m) w o.1 (ground arith))
]
