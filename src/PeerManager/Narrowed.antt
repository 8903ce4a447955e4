-- ===== src/PeerManager/Narrowed.antt =====
-- Who is in the lists after `SetNewMMaxActivePeersOut` of src/client/PeerManager.cpp.
use tvpp_dev_base.Base.{
  ℕ, zero, suc, ◌≡◌, refl, sym, ◌∙◌, ap, ◌⊎◌, inl, inr, true, leb, Option, none, some, List, [],
  ◌∷◌, arith, Option-cases, Bool-cases,
}
use tvpp_dev_base.Base.Int.{ℤ, pos, negsuc}
use tvpp_dev_base.Base.Sets.{contains, insert, IsSorted, contains-insert, insert-Above}
use tvpp_dev_base.PeerData.{PeerData, get_pair}
use tvpp_dev_base.PeerManager.{
  PeerManager, Which, ins, outs, outs_free, active, set_active, set_max_active_peers, entry,
}
use tvpp_dev_base.PeerManager.Sizes.{pairs, insert_first, set_new_max_out}
use tvpp_dev_base.PeerManager.Sweep.{known}
use tvpp_dev_base.PeerManager.Check.{AreSorted}

abbrev pub ids : List (ℕ × ℕ) → List ℕ
ids [] = []
ids (a ∷ v) = a.0 ∷ ids v

-- What `std::sort` keeps, for this use: the sorted vector has no other ids.
abbrev pub Sorts : (List (ℕ × ℕ) → List (ℕ × ℕ)) → Type 0
Sorts sort =
    (v : List (ℕ × ℕ)) (k : ℕ) → contains k (ids (sort v)) ≡ true → contains k (ids v) ≡ true

insert_first-IsSorted :
    (n : ℕ) (v : List (ℕ × ℕ)) (s : List ℕ) → IsSorted s → IsSorted (insert_first n v s)
unfolding insert_first
insert_first-IsSorted zero v s o = o
insert_first-IsSorted (suc n) [] s o = o
insert_first-IsSorted (suc n) ((k, sent) ∷ v) s o =
    insert_first-IsSorted n v (insert k s) (insert-Above k 0 s (omega arith) o)

insert_first-contains :
    (n : ℕ) (v : List (ℕ × ℕ)) (s : List ℕ) (k : ℕ)
    → contains k (insert_first n v s) ≡ true
    → (contains k s ≡ true) ⊎ (contains k (ids v) ≡ true)
unfolding insert_first
insert_first-contains zero v s k h = inl h
insert_first-contains (suc n) [] s k h = inl h
insert_first-contains (suc n) ((j, sent) ∷ v) s k h =
    let rest = insert_first-contains n v (insert j s) k h in
    ground (arith, rest, contains-insert j k s)

-- The pair of a known entry has the id of the entry.
get_pair-known :
    (e : Option PeerData) (k : ℕ) (a : ℕ × ℕ)
    → known e k ≡ true
    → get_pair (entry e) ≡ some a
    → a.0 ≡ k
unfolding get_pair
get_pair-known none k a h e = absurd (ground arith)
get_pair-known (some d) k a h e = ground arith

pairs-ids :
    (p : PeerManager) (s : List ℕ) (v : List (ℕ × ℕ)) (k : ℕ)
    → pairs p s ≡ some v
    → ((j : ℕ) → contains j s ≡ true → known (p.peer_list j) j ≡ true)
    → contains k (ids v) ≡ true
    → contains k s ≡ true
unfolding pairs
pairs-ids p [] v k e f h = let nil : v ≡ [] = ground arith in absurd (ground (arith, nil))
pairs-ids p (j ∷ s) v k e f h = elim (Option-cases (get_pair (entry (p.peer_list j)))) [
  | inl g ↦ absurd (ground (arith, rw (pairs, g) at e))
  | inr (a, g) ↦ elim (Option-cases (pairs p s)) [
    | inl g' ↦ absurd (ground (arith, rw (pairs, g, g') at e))
    | inr (rest, g') ↦
        let same : v ≡ a ∷ rest = ground (arith, rw (pairs, g, g') at e) in
        let first : a.0 ≡ j = get_pair-known (p.peer_list j) j a (f j (ground arith)) g in
        let h' : contains k (a.0 ∷ ids rest) ≡ true = ap (λ t. contains k (ids t)) (sym same) ∙ h in
        let tail = pairs-ids p s rest k g' (λ i m. f i (ground (arith, m))) in
        ground (arith, first, h', tail)
  ]
]

-- A call that keeps the entries and takes members away.
pub record Narrowed (p q : PeerManager) : Type 0 where
  pub same_peers : q.peer_list ≡ p.peer_list
  pub sorted : AreSorted p → AreSorted q
  pub from_before :
      (w : Which) (k : ℕ) → contains k (active q w) ≡ true → contains k (active p w) ≡ true

set_active-from :
    (p : PeerManager) (w v : Which) (n : ℕ) (s : List ℕ) (k : ℕ)
    → ((j : ℕ) → contains j s ≡ true → contains j (active p w) ≡ true)
    → contains k (active (set_active (set_max_active_peers p w n) w s) v) ≡ true
    → contains k (active p v) ≡ true
set_active-from p ins ins n s k f h = f k h
set_active-from p ins outs n s k f h = h
set_active-from p ins outs_free n s k f h = h
set_active-from p outs ins n s k f h = h
set_active-from p outs outs n s k f h = f k h
set_active-from p outs outs_free n s k f h = h
set_active-from p outs_free ins n s k f h = h
set_active-from p outs_free outs n s k f h = h
set_active-from p outs_free outs_free n s k f h = f k h

set_active-AreSorted :
    (p : PeerManager) (w : Which) (n : ℕ) (s : List ℕ)
    → IsSorted s
    → AreSorted p
    → AreSorted (set_active (set_max_active_peers p w n) w s)
set_active-AreSorted p ins n s o a = record {
  ins_sorted = o;
  outs_sorted = a.outs_sorted;
  outs_free_sorted = a.outs_free_sorted;
}
set_active-AreSorted p outs n s o a = record {
  ins_sorted = a.ins_sorted;
  outs_sorted = o;
  outs_free_sorted = a.outs_free_sorted;
}
set_active-AreSorted p outs_free n s o a = record {
  ins_sorted = a.ins_sorted;
  outs_sorted = a.outs_sorted;
  outs_free_sorted = o;
}

set_active-peer_list :
    (p : PeerManager) (w : Which) (n : ℕ) (s : List ℕ)
    → (set_active (set_max_active_peers p w n) w s).peer_list ≡ p.peer_list
set_active-peer_list p ins n s = refl
set_active-peer_list p outs n s = refl
set_active-peer_list p outs_free n s = refl

set_active-Narrowed :
    (p : PeerManager) (w : Which) (n : ℕ) (s : List ℕ)
    → (AreSorted p → IsSorted s)
    → ((k : ℕ) → contains k s ≡ true → contains k (active p w) ≡ true)
    → Narrowed p (set_active (set_max_active_peers p w n) w s)
set_active-Narrowed p w n s o f = record {
  same_peers = set_active-peer_list p w n s;
  sorted = λ a. set_active-AreSorted p w n s (o a) a;
  from_before = λ v k h. set_active-from p w v n s k f h;
}

Narrowed-refl : (p : PeerManager) → Narrowed p p
Narrowed-refl p = record { same_peers = refl; sorted = λ a. a; from_before = λ w k h. h }

-- The new limit of an out list alone, and with the list filled again.
limited : (p : PeerManager) (n : ℕ) (w : Which) → Narrowed p (set_max_active_peers p w n)
limited p n ins = set_active-Narrowed p ins n p.active_in (λ a. a.ins_sorted) (λ k h. h)
limited p n outs = set_active-Narrowed p outs n p.active_out (λ a. a.outs_sorted) (λ k h. h)
limited p n outs_free =
    set_active-Narrowed p outs_free n p.active_out_free (λ a. a.outs_free_sorted) (λ k h. h)

filled :
    (sort : List (ℕ × ℕ) → List (ℕ × ℕ)) (p : PeerManager) (n : ℕ) (w : Which) (v : List (ℕ × ℕ))
    → Sorts sort
    → ((k : ℕ) → contains k (active p w) ≡ true → known (p.peer_list k) k ≡ true)
    → pairs p (active p w) ≡ some v
    → Narrowed p (set_active (set_max_active_peers p w n) w (insert_first n (sort v) []))
filled sort p n w v keeps f e =
    set_active-Narrowed p w n (insert_first n (sort v) [])
      (λ a. insert_first-IsSorted n (sort v) [] tt)
      (λ k h. elim (insert_first-contains n (sort v) [] k h) [
        | inl g ↦ absurd (ground arith)
        | inr g ↦ pairs-ids p (active p w) v k e f (keeps v k g)
      ])

-- `SetNewMMaxActivePeersOut` keeps the entries and the order of the sets, and puts nobody in a list
-- who was not there.
pub set_new_max_out-Narrowed :
    (sort : List (ℕ × ℕ) → List (ℕ × ℕ)) (p : PeerManager) (n : ℤ) (w : Which) (q : PeerManager)
    → Sorts sort
    → ((v : Which) (k : ℕ) → contains k (active p v) ≡ true → known (p.peer_list k) k ≡ true)
    → set_new_max_out sort p n w ≡ some q
    → Narrowed p q
unfolding set_new_max_out
set_new_max_out-Narrowed sort p (negsuc n) w q keeps f e =
    let same : q ≡ p = ground arith in rw same (Narrowed-refl p)
set_new_max_out-Narrowed sort p (pos n) ins q keeps f e =
    let same : q ≡ p = ground arith in rw same (Narrowed-refl p)
set_new_max_out-Narrowed sort p (pos n) outs q keeps f e = elim (Bool-cases (leb p.max_out n)) [
  | inl h ↦
      let same : q ≡ set_max_active_peers p outs n = ground (arith, h) in rw same (limited p n outs)
  | inr h ↦ elim (Option-cases (pairs p p.active_out)) [
    | inl g ↦ absurd (ground (arith, h, g))
    | inr (v, g) ↦
        let same : q
            ≡ set_active (set_max_active_peers p outs n) outs (insert_first n (sort v) []) =
          ground (arith, h, g) in
        rw same (filled sort p n outs v keeps (f outs) g)
  ]
]
set_new_max_out-Narrowed sort p (pos n) outs_free q keeps f e =
    elim (Bool-cases (leb p.max_out_free n)) [
      | inl h ↦
          let same : q ≡ set_max_active_peers p outs_free n = ground (arith, h) in
          rw same (limited p n outs_free)
      | inr h ↦ elim (Option-cases (pairs p p.active_out_free)) [
        | inl g ↦ absurd (ground (arith, h, g))
        | inr (v, g) ↦
            let same : q
                ≡ set_active (set_max_active_peers p outs_free n) outs_free
                    (insert_first n (sort v) []) =
              ground (arith, h, g) in
            rw same (filled sort p n outs_free v keeps (f outs_free) g)
      ]
    ]
