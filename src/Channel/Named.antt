-- ===== src/Channel/Named.antt =====
-- The entries of a channel of src/common/Channel.cpp, with their order and their names.
use tvpp_dev_base.Base.{
  ℕ, ◌≡◌, sym, ◌==◌, ==→eq, ltb, inl, inr, some, List, [], ◌∷◌, arith, Bool-cases,
}
use tvpp_dev_base.Base.Sets.{IsSorted, insert-Above}
use tvpp_dev_base.Base.Maps.{keys, find, assign, erase_entry, erase_each, keys-assign}
use tvpp_dev_base.PeerData.{Peer, PeerData}

abbrev pub Entries : Type 0
Entries = List (ℕ × PeerData)

-- An entry's peer has the entry's key as its id.
abbrev pub AreNamed : Entries → Type 0
AreNamed [] = Unit {0}
AreNamed (e ∷ m) = ((p : Peer) × (e.1.peer ≡ some p) × (p.id ≡ e.0)) × AreNamed m

pub assign-AreNamed :
    (m : Entries) (k : ℕ) (d : PeerData)
    → (p : Peer) × (d.peer ≡ some p) × (p.id ≡ k)
    → AreNamed m
    → AreNamed (assign m k d)
unfolding assign
assign-AreNamed [] k d h a = (h, tt)
assign-AreNamed (e ∷ m) k d h a = elim (Bool-cases (k == e.0)) [
  | inl y ↦ rw y (h, a.1)
  | inr y ↦ elim (Bool-cases (ltb k e.0)) [
    | inl z ↦ rw (y, z) (h, a)
    | inr z ↦ rw (y, z) (a.0, assign-AreNamed m k d h a.1)
  ]
]

pub find-AreNamed :
    (m : Entries) (k : ℕ) (d : PeerData)
    → AreNamed m
    → find m k ≡ some d
    → (p : Peer) × (d.peer ≡ some p) × (p.id ≡ k)
find-AreNamed [] k d a e = absurd (ground arith)
find-AreNamed (x ∷ m) k d a e = elim (Bool-cases (k == x.0)) [
  | inl y ↦ let same : x.1 ≡ d = ground (arith, rw y at e) in rw (sym same, ==→eq k x.0 y) a.0
  | inr y ↦ find-AreNamed m k d a.1 (rw y at e)
]

pub erase_entry-AreNamed : (m : Entries) (k : ℕ) → AreNamed m → AreNamed (erase_entry m k)
unfolding erase_entry
erase_entry-AreNamed [] k a = tt
erase_entry-AreNamed (e ∷ m) k a = elim (Bool-cases (k == e.0)) [
  | inl y ↦ rw y a.1
  | inr y ↦ rw y (a.0, erase_entry-AreNamed m k a.1)
]

pub erase_each-AreNamed : (ks : List ℕ) (m : Entries) → AreNamed m → AreNamed (erase_each m ks)
unfolding erase_each
erase_each-AreNamed [] m a = a
erase_each-AreNamed (k ∷ ks) m a =
    erase_each-AreNamed ks (erase_entry m k) (erase_entry-AreNamed m k a)

-- The ids ascend, and each entry has the name of its key.
abbrev pub AreTidy : Entries → Type 0
AreTidy m = IsSorted (keys m) × AreNamed m

pub assign-AreTidy :
    (m : Entries) (k : ℕ) (d : PeerData)
    → (p : Peer) × (d.peer ≡ some p) × (p.id ≡ k)
    → AreTidy m
    → AreTidy (assign m k d)
assign-AreTidy m k d h a = (
  rw (keys-assign m k d) (insert-Above k 0 (keys m) (omega arith) a.0),
  assign-AreNamed m k d h a.1,
)
