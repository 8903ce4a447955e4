-- ===== src/Scheduler/RoundRobin/Order.antt =====
-- The order in which `Pop` of src/common/Scheduler/RRMessageScheduler.cpp serves the addresses.
use tvpp_dev_base.Base.{
  ℕ, suc, ◌+◌, ◌≤◌, ◌<◌, ◌≡◌, refl, sym, ◌∙◌, ap, ◌⊎◌, inl, inr, ◌≢◌, ltb, ◌==◌, ==→eq, true,
  if◌then◌else◌, Option, none, some, List, [], ◌∷◌, arith, Bool-cases, Option-cases,
}
use tvpp_dev_base.Base.Sets.{contains, Above, IsSorted, contains-below}
use tvpp_dev_base.Base.Maps.{find}
use tvpp_dev_base.Scheduler.{AddressedMessage}
use tvpp_dev_base.Scheduler.RoundRobin.{
  Queues, RrScheduler, at, after, next_key, is_empty, replace_at, erase_at, rr_pop, rr_size,
}
use tvpp_dev_base.Scheduler.RoundRobin.Turn.{
  keys, at-replace_at, at-erase_at, keys-replace_at, at-missing, next_key-ne,
}
use tvpp_dev_base.Scheduler.RoundRobin.Served.{IsValid, Serves, turn, next_pointer, rr_pop_cases}

-- The addresses that wait after `k`, in a circle: none if `k` is the only one; else another one, which is
-- the least above `k`, or if none is above `k` the least of all.
abbrev pub IsNext : List ℕ → ℕ → Option ℕ → Type 0
IsNext s k none = (j : ℕ) → contains j s ≡ true → j ≡ k
IsNext s k (some n) =
    (contains n s ≡ true)
    × (n ≢ k)
    × (((k < n) × ((j : ℕ) → contains j s ≡ true → (j ≤ k) ⊎ (n ≤ j)))
        ⊎ ((j : ℕ) → contains j s ≡ true → (n ≤ j) × (j ≤ k)))

-- A queue that is left.
abbrev pub waiting : List AddressedMessage → Option (List AddressedMessage)
waiting [] = none
waiting (a ∷ q) = some (a ∷ q)

-- What a `Pop` of the address `k` does: the oldest message goes, an address without messages goes from the
-- map, the other queues stay, and the pointer moves on.
abbrev pub InTurn : RrScheduler → ℕ → AddressedMessage → RrScheduler → Type 0
InTurn s k a s' =
    (q : List AddressedMessage) × (find s.rr_queue k ≡ some (a ∷ q))
    × ((j : ℕ) → find s'.rr_queue j ≡ (if j == k then waiting q else find s.rr_queue j))
    × IsNext s.key_set k s'.key_pointer

-- The address whose turn it is.
abbrev pub IsTurn : RrScheduler → ℕ → Type 0
IsTurn s k =
    (s.key_pointer ≡ some k)
    ⊎ ((s.key_pointer ≡ none)
        × (contains k s.key_set ≡ true)
        × ((j : ℕ) → contains j s.key_set ≡ true → k ≤ j))

no_keys : (m : Queues) → keys m ≡ [] → m ≡ []
no_keys [] e = refl
no_keys (e ∷ m) h = absurd (ground arith)

find-at : (m : Queues) (k : ℕ) → find m k ≡ at m k
find-at [] k = refl
find-at (e ∷ m) k = ground (arith, find-at m k)

-- A member of an ascending list is not below its bound.
member_le : (b j : ℕ) (s : List ℕ) → Above b s → contains j s ≡ true → b ≤ j
member_le b j s o h = elim (Bool-cases (ltb j b)) [
  | inl t ↦ absurd (ground (arith, contains-below j b s o, t, h))
  | inr t ↦ ground (arith, t)
]

-- What `after` finds.
abbrev FindsAfter : List ℕ → ℕ → Option ℕ → Type 0
FindsAfter s k none = (j : ℕ) → contains j s ≡ true → j ≤ k
FindsAfter s k (some n) =
    (contains n s ≡ true) × (k < n) × ((j : ℕ) → contains j s ≡ true → (j ≤ k) ⊎ (n ≤ j))

in_tail :
    (i j n : ℕ) (s : List ℕ)
    → Above (suc n) s
    → contains j (i ∷ n ∷ s) ≡ true
    → (j ≡ i) ⊎ ((n ≤ j) × (contains j (n ∷ s) ≡ true))
in_tail i j n s o h = elim (Bool-cases (j == i)) [
  | inl t ↦ inl (==→eq j i t)
  | inr t ↦
      let g : contains j (n ∷ s) ≡ true = ground (arith, t, h) in
      inr (member_le n j (n ∷ s) (omega arith, o) g, g)
]

contains_more : (j i : ℕ) (s : List ℕ) → contains j s ≡ true → contains j (i ∷ s) ≡ true
contains_more j i s h = ground (arith, h)

after-FindsAfter :
    (b : ℕ) (s : List ℕ) (k : ℕ) → Above b s → contains k s ≡ true → FindsAfter s k (after s k)
after-FindsAfter b [] k o h = absurd (ground (arith, h))
after-FindsAfter b (i ∷ []) k o h = ground arith
after-FindsAfter b (i ∷ n ∷ s) k o h = elim (Bool-cases (k == i)) [
  | inl t ↦
      let same = ==→eq k i t in
      let found : after (i ∷ n ∷ s) k ≡ some n = ground (arith, t) in
      rw found (
        ground arith,
        ground (arith, t, o),
        λ j g. elim (in_tail i j n s o.1.1 g) [
          | inl e ↦ inl (omega (arith, e, same))
          | inr l ↦ inr l.0
        ],
      )
  | inr t ↦
      let below = member_le n k (n ∷ s) (omega arith, o.1.1) (ground (arith, t, h)) in
      let skips : after (i ∷ n ∷ s) k ≡ after (n ∷ s) k = ground (arith, t) in
      rw skips (
        wider (after (n ∷ s) k) below
          (after-FindsAfter (suc i) (n ∷ s) k o.1 (ground (arith, t, h))))
]
  where
    wider : (found : Option ℕ) → n ≤ k → FindsAfter (n ∷ s) k found → FindsAfter (i ∷ n ∷ s) k found
    wider none l f = λ j g. elim (in_tail i j n s o.1.1 g) [
      | inl e ↦ omega (arith, e, l, o.1.0)
      | inr g' ↦ f j g'.1
    ]
    wider (some m) l f = (
      contains_more m i (n ∷ s) f.0,
      f.1,
      λ j g. elim (in_tail i j n s o.1.1 g) [
        | inl e ↦ inl (omega (arith, e, l, o.1.0))
        | inr g' ↦ f.2 j g'.1
      ],
    )

IsNext-same : (s : List ℕ) (k n m : ℕ) → n ≡ m → IsNext s k (some m) → IsNext s k (some n)
IsNext-same s k n m e h = rw e h

next_pointer-IsNext :
    (s : List ℕ) (k : ℕ) → IsSorted s → contains k s ≡ true → IsNext s k (next_pointer s k)
next_pointer-IsNext [] k o h = absurd (ground (arith, h))
next_pointer-IsNext (j ∷ []) k o h = λ i g. ground (arith, g, h)
next_pointer-IsNext (j ∷ i ∷ s) k o h = elim (Option-cases (after (j ∷ i ∷ s) k)) [
  | inl f ↦
      let last : FindsAfter (j ∷ i ∷ s) k none = rw f at (after-FindsAfter 0 (j ∷ i ∷ s) k o h) in
      let first : next_key (j ∷ i ∷ s) k ≡ j = rw (next_key, f) refl in
      rw first (
        ground arith,
        rw first at (next_key-ne j i s k o),
        inr (λ n g. (member_le j n (j ∷ i ∷ s) (omega arith, o.1) g, last n g)),
      )
  | inr (n, f) ↦
      let more : FindsAfter (j ∷ i ∷ s) k (some n) =
        rw f at (after-FindsAfter 0 (j ∷ i ∷ s) k o h) in
      let found : next_key (j ∷ i ∷ s) k ≡ n = rw (next_key, f) refl in
      let next : IsNext (j ∷ i ∷ s) k (some n) =
        (more.0, omega (arith, more.1), inl (more.1, more.2)) in
      IsNext-same (j ∷ i ∷ s) k (next_key (j ∷ i ∷ s) k) n found next
]

find-served :
    (m m' : Queues) (k j : ℕ) (q : List AddressedMessage)
    → IsSorted (keys m)
    → contains k (keys m) ≡ true
    → m' ≡ (if is_empty q then erase_at (replace_at m k q) k else replace_at m k q)
    → find m' j ≡ (if j == k then waiting q else find m j)
find-served m m' k j [] o h e =
    find-at m' j
    ∙ ap (λ t. at t j) e
    ∙ at-erase_at (replace_at m k []) k j (rw (keys-replace_at m k []) o)
    ∙ ground (arith, at-replace_at m k j [], find-at m j)
find-served m m' k j (a ∷ q) o h e =
    find-at m' j ∙ ap (λ t. at t j) e ∙ at-replace_at m k j (a ∷ q) ∙ ground (arith, h, find-at m j)

Serves-InTurn :
    (s s' : RrScheduler) (k : ℕ) (a : AddressedMessage)
    → IsValid s
    → contains k s.key_set ≡ true
    → Serves s k a s'
    → InTurn s k a s'
Serves-InTurn s s' k a v h (q, waits, p, ks, m) = (
  q,
  find-at s.rr_queue k ∙ waits,
  λ j. find-served s.rr_queue s'.rr_queue k j q (rw v.same_keys v.sorted) (rw v.same_keys h) m,
  rw p (next_pointer-IsNext s.key_set k v.sorted h),
)

-- An address that is served is one of the set.
Serves-contains :
    (s s' : RrScheduler) (k : ℕ) (a : AddressedMessage)
    → IsValid s
    → Serves s k a s'
    → contains k s.key_set ≡ true
Serves-contains s s' k a v (q, waits, p, ks, m) = elim (Bool-cases (contains k s.key_set)) [
  | inl t ↦ t
  | inr t ↦ absurd (ground (arith, waits, at-missing s.rr_queue k (rw v.same_keys t)))
]

turn-IsTurn :
    (s : RrScheduler)
    → IsValid s
    → contains (turn s.key_pointer s.key_set) s.key_set ≡ true
    → IsTurn s (turn s.key_pointer s.key_set)
turn-IsTurn s v h = elim (Option-cases s.key_pointer) [
  | inr (k, e) ↦ inl (e ∙ ap (λ p. some (turn p s.key_set)) (sym e))
  | inl e ↦ inr (e, h, rw e (least s.key_set v.sorted))
]
  where
    least : (t : List ℕ) → IsSorted t → (j : ℕ) → contains j t ≡ true → turn none t ≤ j
    least [] o j g = absurd (ground (arith, g))
    least (i ∷ t) o j g = member_le i j (i ∷ t) (omega arith, o.1) g

-- `Pop` of a valid scheduler never throws. If no message is waiting it returns NULL and changes nothing.
-- Else it takes the oldest message of the address at the pointer, or of the least waiting address where the
-- pointer is "invalid". The queues of the other addresses stay as they are, an address without messages
-- goes, and the pointer moves on: to the least waiting address above, or where there is none to the least
-- of all, or to "invalid" where no other address waits. The scheduler is valid afterwards and holds one
-- message less.
pub rr_pop-InTurn :
    (s : RrScheduler)
    → IsValid s
    → ((s.rr_queue ≡ []) × (rr_pop s ≡ some (none, s)))
      ⊎ ((k : ℕ) × (a : AddressedMessage) × (s' : RrScheduler) × (rr_pop s ≡ some (some a, s'))
          × IsTurn s k
          × InTurn s k a s'
          × IsValid s'
          × (rr_size s ≡ rr_size s' + 1))
rr_pop-InTurn s v = elim (rr_pop_cases s v) [
  | inl (e, n, p) ↦ inl (no_keys s.rr_queue (v.same_keys ∙ e), p)
  | inr (a, s', p, g, v', n) ↦
      let member = Serves-contains s s' (turn s.key_pointer s.key_set) a v g in
      inr (
        turn s.key_pointer s.key_set,
        a,
        s',
        p,
        turn-IsTurn s v member,
        Serves-InTurn s s' (turn s.key_pointer s.key_set) a v member g,
        v',
        n,
      )
]
