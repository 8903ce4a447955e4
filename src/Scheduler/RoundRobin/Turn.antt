-- ===== src/Scheduler/RoundRobin/Turn.antt =====
-- The turn of the addresses in src/common/Scheduler/RRMessageScheduler.cpp, and its map of queues.
use tvpp_dev_base.Base.{
  ℕ, suc, ◌+◌, ◌<◌, ◌≡◌, refl, ◌∙◌, ap, inl, inr, ◌≢◌, true, false, ◌==◌, if◌then◌else◌, ◌&&◌, none,
  some, List, [], ◌∷◌, ◌++◌, arith, length, length-append, Bool-cases, Option-cases,
}
use tvpp_dev_base.Base.Sets.{contains, insert, erase, Above, IsSorted, contains-below}
use tvpp_dev_base.Scheduler.{AddressedMessage}
use tvpp_dev_base.Scheduler.RoundRobin.{
  Queues, at, push_at, replace_at, erase_at, after, next_key, is_empty, queued,
}

abbrev pub keys : List (ℕ × List AddressedMessage) → List ℕ
keys [] = []
keys (e ∷ m) = e.0 ∷ keys m

-- No queue of the map is empty.
abbrev pub AreFull : List (ℕ × List AddressedMessage) → Type 0
AreFull [] = Unit {0}
AreFull (e ∷ m) = (is_empty e.1 ≡ false) × AreFull m

pub after-Above :
    (b : ℕ) (s : List ℕ) (k i : ℕ)
    → Above b s
    → after s k ≡ some i
    → (k < i) × (contains i s ≡ true)
after-Above b [] k i o e = ground arith
after-Above b (j ∷ []) k i o e = ground arith
after-Above b (j ∷ h ∷ s) k i o e = ground (arith, after-Above (suc j) (h ∷ s) k i o.1)

-- The next key is a key, and another one if there is another.
pub next_key-contains :
    (j : ℕ) (s : List ℕ) (k : ℕ) → IsSorted (j ∷ s) → contains (next_key (j ∷ s) k) (j ∷ s) ≡ true
next_key-contains j s k o = elim (Option-cases (after (j ∷ s) k)) [
  | inl h ↦ rw (next_key, h) (ground arith)
  | inr (i, h) ↦
      let e : next_key (j ∷ s) k ≡ i = rw (next_key, h) in
      ap (λ t. contains t (j ∷ s)) e ∙ (after-Above 0 (j ∷ s) k i o h).1
]

pub next_key-ne : (j i : ℕ) (s : List ℕ) (k : ℕ) → IsSorted (j ∷ i ∷ s) → next_key (j ∷ i ∷ s) k ≢ k
next_key-ne j i s k o = elim (Option-cases (after (j ∷ i ∷ s) k)) [
  | inl h ↦ rw (next_key, h) (λ e. ground arith)
  | inr (n, h) ↦ rw (next_key, h) (λ e. ground (arith, after-Above 0 (j ∷ i ∷ s) k n o h))
]

pub keys-push_at :
    (m : Queues) (k : ℕ) (a : AddressedMessage) → keys (push_at m k a) ≡ insert k (keys m)
unfolding push_at insert
keys-push_at [] k a = refl
keys-push_at (e ∷ m) k a = ground (arith, keys-push_at m k a)

is_empty-push : (q : List AddressedMessage) (a : AddressedMessage) → is_empty (q ++ a ∷ []) ≡ false
is_empty-push [] a = refl
is_empty-push (b ∷ q) a = refl

pub push_at-AreFull :
    (m : Queues) (k : ℕ) (a : AddressedMessage) → AreFull m → AreFull (push_at m k a)
unfolding push_at
push_at-AreFull [] k a f = (refl, tt)
push_at-AreFull (e ∷ m) k a f = ground (arith, push_at-AreFull m k a f.1, is_empty-push e.1 a)

pub queued-push_at :
    (m : Queues) (k : ℕ) (a : AddressedMessage) → queued (push_at m k a) ≡ queued m + 1
unfolding push_at queued
queued-push_at [] k a = refl
queued-push_at (e ∷ m) k a = ground (arith, queued-push_at m k a, length-append e.1 (a ∷ []))

pub at-missing : (m : Queues) (k : ℕ) → contains k (keys m) ≡ false → at m k ≡ none
at-missing [] k h = refl
at-missing (e ∷ m) k h = ground (arith, at-missing m k)

at-push_from :
    (b : ℕ) (m : Queues) (k j : ℕ) (a : AddressedMessage)
    → Above b (keys m)
    → at (push_at m k a) j
      ≡ (if j == k then some (elim (at m k) [ none ↦ a ∷ [] | some q ↦ q ++ a ∷ [] ]) else at m j)
unfolding push_at
at-push_from b [] k j a o = ground arith
at-push_from b (e ∷ m) k j a o = ground (
  arith,
  at-push_from (suc e.0) m k j a o.1,
  at-missing m k,
  contains-below k (suc e.0) (keys m) o.1,
)

pub at-push_at :
    (m : Queues) (k j : ℕ) (a : AddressedMessage)
    → IsSorted (keys m)
    → at (push_at m k a) j
      ≡ (if j == k then some (elim (at m k) [ none ↦ a ∷ [] | some q ↦ q ++ a ∷ [] ]) else at m j)
at-push_at m k j a o = at-push_from 0 m k j a o

pub keys-replace_at :
    (m : Queues) (k : ℕ) (q : List AddressedMessage) → keys (replace_at m k q) ≡ keys m
keys-replace_at [] k q = refl
keys-replace_at (e ∷ m) k q = ground (arith, keys-replace_at m k q)

pub length-keys : (m : Queues) → length (keys m) ≡ length m
length-keys [] = refl
length-keys (e ∷ m) = omega (arith, length-keys m)

pub keys-erase_at : (m : Queues) (k : ℕ) → keys (erase_at m k) ≡ erase k (keys m)
unfolding erase
keys-erase_at [] k = refl
keys-erase_at (e ∷ m) k = ground (arith, keys-erase_at m k)

pub at-replace_at :
    (m : Queues) (k j : ℕ) (q : List AddressedMessage)
    → at (replace_at m k q) j ≡ (if j == k && contains k (keys m) then some q else at m j)
at-replace_at [] k j q = ground arith
at-replace_at (e ∷ m) k j q = ground (arith, at-replace_at m k j q)

at-erase_from :
    (b : ℕ) (m : Queues) (k j : ℕ)
    → Above b (keys m)
    → at (erase_at m k) j ≡ (if j == k then none else at m j)
at-erase_from b [] k j o = ground arith
at-erase_from b (e ∷ m) k j o = ground (
  arith,
  at-erase_from (suc e.0) m k j o.1,
  at-missing m k,
  contains-below k (suc e.0) (keys m) o.1,
)

pub at-erase_at :
    (m : Queues) (k j : ℕ)
    → IsSorted (keys m)
    → at (erase_at m k) j ≡ (if j == k then none else at m j)
at-erase_at m k j o = at-erase_from 0 m k j o

-- A key of a map without empty queues has a message waiting.
pub at-AreFull :
    (m : Queues) (k : ℕ)
    → AreFull m
    → contains k (keys m) ≡ true
    → (a : AddressedMessage) × (q : List AddressedMessage) × (at m k ≡ some (a ∷ q))
at-AreFull [] k f h = absurd (ground arith)
at-AreFull (e ∷ m) k f h = elim (Bool-cases (k == e.0)) [
  | inl g ↦ rw g (front e.1 f.0)
  | inr g ↦ rw g (at-AreFull m k f.1 (ground arith))
]
  where
    front :
        (q : List AddressedMessage)
        → is_empty q ≡ false
        → (a : AddressedMessage) × (r : List AddressedMessage) × (some q ≡ some (a ∷ r))
    front [] h = absurd (ground arith)
    front (a ∷ r) h = (a, r, refl)

pub replace_at-AreFull :
    (m : Queues) (k : ℕ) (q : List AddressedMessage)
    → is_empty q ≡ false
    → AreFull m
    → AreFull (replace_at m k q)
replace_at-AreFull [] k q h f = tt
replace_at-AreFull (e ∷ m) k q h f = ground (arith, replace_at-AreFull m k q h f.1)

pub erase_at-AreFull :
    (m : Queues) (k : ℕ) (q : List AddressedMessage)
    → AreFull m
    → AreFull (erase_at (replace_at m k q) k)
erase_at-AreFull [] k q f = tt
erase_at-AreFull (e ∷ m) k q f = ground (arith, erase_at-AreFull m k q f.1)

pub queued-replace_at :
    (m : Queues) (k : ℕ) (a : AddressedMessage) (q : List AddressedMessage)
    → at m k ≡ some (a ∷ q)
    → queued m ≡ queued (replace_at m k q) + 1
unfolding queued
queued-replace_at [] k a q e = ground arith
queued-replace_at (e ∷ m) k a q h = ground (arith, queued-replace_at m k a q)

pub queued-erase_at :
    (m : Queues) (k : ℕ) (q : List AddressedMessage)
    → at m k ≡ some q
    → is_empty q ≡ true
    → queued (erase_at m k) ≡ queued m
unfolding queued
queued-erase_at [] k q e h = ground arith
queued-erase_at (e ∷ m) k [] g h = ground (arith, queued-erase_at m k [])
queued-erase_at (e ∷ m) k (a ∷ q) g h = absurd (ground arith)
