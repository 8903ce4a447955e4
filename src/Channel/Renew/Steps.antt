-- ===== src/Channel/Renew/Steps.antt =====
-- The loops of `NormalizeClasses` of src/common/Channel.cpp: whom a step moves, and how many.
use tvpp_dev_base.Base.{
  ℕ, ◌+◌, ◌-◌, ◌≤◌, ◌<◌, ◌≡◌, refl, ◌∙◌, inl, inr, ◌≢◌, ltb, ◌==◌, if◌then◌else◌, false, ◌++◌,
  length, none, some, List, [], ◌∷◌, arith, Option-cases, Bool-cases,
}
use tvpp_dev_base.Base.Sets.{contains}
use tvpp_dev_base.Base.Maps.{find, assign, find-assign}
use tvpp_dev_base.Channel.{TopologyData}
use tvpp_dev_base.Channel.Named.{Entries, AreTidy, find-AreNamed, assign-AreTidy}
use tvpp_dev_base.Channel.Renew.{
  eqb_ℤ, convert_peer, convert_peer_class, size_at, move_peer, settle_peer, settle_from,
  move_forward, move_backward,
}

abbrev pub AllPairs : (ℕ × ℕ → Type 0) → List (ℕ × ℕ) → Type 0
AllPairs P [] = Unit {0}
AllPairs P (x ∷ xs) = P x × AllPairs P xs

-- Not the pair of `k`.
abbrev pub IsNot : ℕ → ℕ × ℕ → Type 0
IsNot k x = k ≢ x.0

convert-same :
    (t : TopologyData) (m m' : Entries) (j k : ℕ)
    → convert_peer_class t m j ≡ some m'
    → k ≢ j
    → find m' k ≡ find m k
unfolding convert_peer_class
convert-same t m m' j k e n = elim (Option-cases (find m j)) [
  | inl f ↦ absurd (ground (arith, rw (convert_peer_class, f) at e))
  | inr (d, f) ↦ elim (Option-cases d.peer) [
    | inl g ↦ absurd (ground (arith, rw (convert_peer_class, f, g) at e))
    | inr (p, g) ↦
        let same : m' ≡ assign m j (record d { peer = some (convert_peer t p) }) =
          ground (arith, rw (convert_peer_class, f, g) at e) in
        rw same
          (find-assign m j k (record d { peer = some (convert_peer t p) }) ∙ ground (arith, n))
  ]
]

convert-AreTidy :
    (t : TopologyData) (m m' : Entries) (j : ℕ)
    → convert_peer_class t m j ≡ some m'
    → AreTidy m
    → AreTidy m'
unfolding convert_peer_class convert_peer
convert-AreTidy t m m' j e a = elim (Option-cases (find m j)) [
  | inl f ↦ absurd (ground (arith, rw (convert_peer_class, f) at e))
  | inr (d, f) ↦ elim (Option-cases d.peer) [
    | inl g ↦ absurd (ground (arith, rw (convert_peer_class, f, g) at e))
    | inr (p, g) ↦
        let same : m' ≡ assign m j (record d { peer = some (convert_peer t p) }) =
          ground (arith, rw (convert_peer_class, f, g) at e) in
        let named = find-AreNamed m j d a.1 f in
        rw same (
          assign-AreTidy m j (record d { peer = some (convert_peer t p) })
            (convert_peer t p, refl, ground (arith, g, named.1, named.2)) a)
  ]
]

-- At most `n` entries are others than before.
abbrev pub Changes : ℕ → Entries → Entries → Type 0
Changes n m m' =
    (ks : List ℕ) × (length ks ≤ n) × ((k : ℕ) → contains k ks ≡ false → find m' k ≡ find m k)

contains-append :
    (k : ℕ) (ks js : List ℕ)
    → contains k (ks ++ js) ≡ false
    → (contains k ks ≡ false) × (contains k js ≡ false)
contains-append k [] js h = (refl, h)
contains-append k (i ∷ ks) js h =
    let rest = contains-append k ks js (ground (arith, h)) in (ground (arith, h, rest.0), rest.1)

length-join : (ks js : List ℕ) → length (ks ++ js) ≡ length ks + length js
length-join [] js = omega arith
length-join (i ∷ ks) js = omega (arith, length-join ks js)

Changes-then :
    (a b n : ℕ) (m m' m'' : Entries)
    → Changes a m m'
    → Changes b m' m''
    → a + b ≤ n
    → Changes n m m''
Changes-then a b n m m' m'' (ks, few, same) (js, few', same') l = (
  ks ++ js,
  omega (arith, length-join ks js, few, few', l),
  λ k h. let both = contains-append k ks js h in same' k both.1 ∙ same k both.0,
)

-- A step that says how many peers it moved: none or the one with the id `j`.
abbrev IsStep : Entries → ℕ → ℕ × Entries → Type 0
IsStep m j r =
    (r.0 ≤ 1)
    × ((k : ℕ) → k ≢ j → find r.1 k ≡ find m k)
    × (AreTidy m → AreTidy r.1)
    × Changes r.0 m r.1

converted-IsStep :
    (t : TopologyData) (m : Entries) (j : ℕ) (r : ℕ × Entries)
    → elim (convert_peer_class t m j) [ none ↦ none | some m' ↦ some (1, m') ] ≡ some r
    → IsStep m j r
converted-IsStep t m j r e = elim (Option-cases (convert_peer_class t m j)) [
  | inl c ↦ absurd (ground (arith, rw c at e))
  | inr (m', c) ↦
      let same : r ≡ (1, m') = ground (arith, rw c at e) in
      rw same (
        omega arith,
        λ k n. convert-same t m m' j k c n,
        convert-AreTidy t m m' j c,
        (j ∷ [], omega arith, λ k h. convert-same t m m' j k c (ground (arith, h))),
      )
]

move_peer-IsStep :
    (base ref : TopologyData) (m : Entries) (j : ℕ) (r : ℕ × Entries)
    → move_peer base ref m j ≡ some r
    → IsStep m j r
unfolding move_peer
move_peer-IsStep base ref m j r e = elim (Option-cases (size_at m j)) [
  | inl f ↦ absurd (ground (arith, rw (move_peer, f) at e))
  | inr (n, f) ↦ elim (Bool-cases (eqb_ℤ n ref.out)) [
    | inl g ↦
        let same : r ≡ (0, m) = ground (arith, rw (move_peer, f, g) at e) in
        rw same (omega arith, λ k n. refl, λ a. a, ([], omega arith, λ k h. refl))
    | inr g ↦
        converted-IsStep (if eqb_ℤ n base.out then ref else base) m j r (rw (move_peer, f, g) at e)
  ]
]

settle_peer-IsStep :
    (base : TopologyData) (m : Entries) (j : ℕ) (r : ℕ × Entries)
    → settle_peer base m j ≡ some r
    → IsStep m j r
unfolding settle_peer
settle_peer-IsStep base m j r e = elim (Option-cases (size_at m j)) [
  | inl f ↦ absurd (ground (arith, rw (settle_peer, f) at e))
  | inr (n, f) ↦ elim (Bool-cases (eqb_ℤ n base.out)) [
    | inl g ↦
        let same : r ≡ (0, m) = ground (arith, rw (settle_peer, f, g) at e) in
        rw same (omega arith, λ k n. refl, λ a. a, ([], omega arith, λ k h. refl))
    | inr g ↦ converted-IsStep base m j r (rw (settle_peer, f, g) at e)
  ]
]

-- What a loop over the vector has done.
abbrev pub IsLoop : Entries → List (ℕ × ℕ) → ℕ × Entries → Type 0
IsLoop m v r = ((k : ℕ) → AllPairs (IsNot k) v → find r.1 k ≡ find m k) × (AreTidy m → AreTidy r.1)

ended :
    (count : ℕ) (m : Entries) (v : List (ℕ × ℕ)) (r : ℕ × Entries) → r ≡ (count, m) → IsLoop m v r
ended count m v r same = rw same (λ k a. refl, λ a. a)

-- One step of the loop before the rest of it.
after_step :
    (m : Entries) (x : ℕ × ℕ) (v : List (ℕ × ℕ)) (q r : ℕ × Entries)
    → IsStep m x.0 q
    → IsLoop q.1 v r
    → IsLoop m (x ∷ v) r
after_step m x v q r s h = (λ k a. h.0 k a.1 ∙ s.1 k a.0, λ a. h.1 (s.2 a))

pub settle_from-IsLoop :
    (base : TopologyData) (stop i count : ℕ) (m : Entries) (v : List (ℕ × ℕ)) (r : ℕ × Entries)
    → settle_from base stop i count m v ≡ some r
    → IsLoop m v r
unfolding settle_from
settle_from-IsLoop base stop i count m [] r e = ended count m [] r (ground (arith, e))
settle_from-IsLoop base stop i count m (x ∷ v) r e = elim (Bool-cases (i == stop)) [
  | inl s ↦ ended count m (x ∷ v) r (ground (arith, rw (settle_from, s) at e))
  | inr s ↦ elim (Option-cases (settle_peer base m x.0)) [
    | inl f ↦ absurd (ground (arith, rw (settle_from, s, f) at e))
    | inr (q, f) ↦
        after_step m x v q r (settle_peer-IsStep base m x.0 q f)
          (settle_from-IsLoop base stop (i + 1) (count + q.0) q.1 v r (rw (settle_from, s, f) at e))
  ]
]

-- What a loop that moves peers has done, from a count on.
abbrev pub HasMoved : ℕ → ℕ → Entries → List (ℕ × ℕ) → ℕ × Entries → Type 0
HasMoved total count m v r =
    (count ≤ total → r.0 ≤ total) × IsLoop m v r × (count ≤ r.0) × Changes (r.0 - count) m r.1

stopped :
    (total count : ℕ) (m : Entries) (v : List (ℕ × ℕ)) (r : ℕ × Entries)
    → r ≡ (count, m)
    → HasMoved total count m v r
stopped total count m v r same = (
  λ h. rw same h,
  ended count m v r same,
  rw same (omega arith),
  rw same ([], omega arith, λ k h. refl),
)

after_move :
    (total count : ℕ) (m : Entries) (x : ℕ × ℕ) (v : List (ℕ × ℕ)) (q r : ℕ × Entries)
    → count < total
    → IsStep m x.0 q
    → HasMoved total (count + q.0) q.1 v r
    → HasMoved total count m (x ∷ v) r
after_move total count m x v q r l s h = (
  λ g. h.0 (omega (arith, s.0)),
  after_step m x v q r s h.1,
  omega (arith, h.2),
  Changes-then q.0 (r.0 - (count + q.0)) (r.0 - count) m q.1 r.1 s.3 h.3 (omega (arith, h.2)),
)

pub move_forward-HasMoved :
    (base ref : TopologyData) (total stop i count : ℕ) (m : Entries) (v : List (ℕ × ℕ))
    (r : ℕ × Entries)
    → move_forward base ref total stop i count m v ≡ some r
    → HasMoved total count m v r
unfolding move_forward
move_forward-HasMoved base ref total stop i count m [] r e =
    stopped total count m [] r (ground (arith, e))
move_forward-HasMoved base ref total stop i count m (x ∷ v) r e = elim (Bool-cases (i == stop)) [
  | inl s ↦ stopped total count m (x ∷ v) r (ground (arith, rw (move_forward, s) at e))
  | inr s ↦ elim (Bool-cases (ltb count total)) [
    | inl l ↦ elim (Option-cases (move_peer base ref m x.0)) [
      | inl f ↦ absurd (ground (arith, rw (move_forward, s, l, f) at e))
      | inr (q, f) ↦
          after_move total count m x v q r (ground (arith, l)) (move_peer-IsStep base ref m x.0 q f)
            (move_forward-HasMoved base ref total stop (i + 1) (count + q.0) q.1 v r
              (rw (move_forward, s, l, f) at e))
    ]
    | inr l ↦ stopped total count m (x ∷ v) r (ground (arith, rw (move_forward, s, l) at e))
  ]
]

pub move_backward-HasMoved :
    (base ref : TopologyData) (total start i count : ℕ) (m : Entries) (v : List (ℕ × ℕ))
    (r : ℕ × Entries)
    → move_backward base ref total start i count m v ≡ some r
    → HasMoved total count m v r
unfolding move_backward
move_backward-HasMoved base ref total start i count m [] r e =
    stopped total count m [] r (ground (arith, e))
move_backward-HasMoved base ref total start i count m (x ∷ v) r e =
    elim (Bool-cases (i == start + 2)) [
      | inl s ↦ stopped total count m (x ∷ v) r (ground (arith, rw (move_backward, s) at e))
      | inr s ↦ elim (Bool-cases (ltb count total)) [
        | inl l ↦ elim (Option-cases (move_peer base ref m x.0)) [
          | inl f ↦ absurd (ground (arith, rw (move_backward, s, l, f) at e))
          | inr (q, f) ↦
              after_move total count m x v q r (ground (arith, l))
                (move_peer-IsStep base ref m x.0 q f)
                (move_backward-HasMoved base ref total start (i - 1) (count + q.0) q.1 v r
                  (rw (move_backward, s, l, f) at e))
        ]
        | inr l ↦ stopped total count m (x ∷ v) r (ground (arith, rw (move_backward, s, l) at e))
      ]
    ]
