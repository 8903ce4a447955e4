-- ===== src/Scheduler/RoundRobin/Served.antt =====
-- What `Push` and `Pop` of src/common/Scheduler/RRMessageScheduler.cpp promise.
use tvpp_dev_base.Base.{
  ℕ, suc, ◌+◌, ◌≡◌, refl, sym, ◌∙◌, ap, ◌⊎◌, inl, inr, ◌≢◌, true, if◌then◌else◌, Option, none, some,
  List, [], ◌∷◌, ◌++◌, arith, length, Bool-cases, Option-cases,
}
use tvpp_dev_base.Base.Sets.{
  contains, insert, erase, IsSorted, contains-insert, contains-erase, insert-Above, erase-Above,
}
use tvpp_dev_base.Scheduler.{AddressedMessage}
use tvpp_dev_base.Scheduler.RoundRobin.{
  Queues, RrScheduler, at, replace_at, erase_at, next_key, is_empty, next_turn, serve, rr_push,
  rr_pop, rr_size, queued,
}
use tvpp_dev_base.Scheduler.RoundRobin.Turn.{
  keys, AreFull, next_key-contains, next_key-ne, keys-push_at, push_at-AreFull, queued-push_at,
  at-push_at, keys-replace_at, length-keys, keys-erase_at, at-replace_at, at-AreFull,
  replace_at-AreFull, erase_at-AreFull, queued-replace_at, queued-erase_at,
}

-- The address that the next `Pop` serves.
abbrev pub turn : Option ℕ → List ℕ → ℕ
turn p s = elim p [ none ↦ elim s [ [] ↦ 0 | j ∷ r ↦ j ] | some k ↦ k ]

-- The set holds the keys of the map, whose queues are not empty, and the pointer is a key or
-- "invalid".
pub record IsValid (s : RrScheduler) : Type 0 where
  pub same_keys : keys s.rr_queue ≡ s.key_set
  pub sorted : IsSorted s.key_set
  pub full : AreFull s.rr_queue
  pub pointed : (k : ℕ) → s.key_pointer ≡ some k → contains k s.key_set ≡ true

-- Where the pointer goes.
abbrev pub next_pointer : List ℕ → ℕ → Option ℕ
next_pointer [] k = none
next_pointer (j ∷ []) k = none
next_pointer (j ∷ i ∷ s) k = some (next_key (j ∷ i ∷ s) k)

-- After the pop of a message of `k`, the loop finds a waiting address in its first round.
at-next :
    (m : Queues) (j i k : ℕ) (s : List ℕ) (q : List AddressedMessage)
    → keys m ≡ j ∷ i ∷ s
    → IsSorted (j ∷ i ∷ s)
    → AreFull m
    → (b : AddressedMessage) × (r : List AddressedMessage) × (at
          (replace_at m k q)
          (next_key (j ∷ i ∷ s) k)
        ≡ some (b ∷ r))
at-next m j i k s q e o f =
    let waiting =
      at-AreFull m (next_key (j ∷ i ∷ s) k) f
        (ap (contains (next_key (j ∷ i ∷ s) k)) e ∙ next_key-contains j (i ∷ s) k o) in
    (
      waiting.0,
      waiting.1,
      at-replace_at m k (next_key (j ∷ i ∷ s) k) q
          ∙ ground (arith, waiting.2, next_key-ne j i s k o),
    )

next_turn-first :
    (m : Queues) (s : List ℕ) (k : ℕ) (q : List AddressedMessage)
    → keys m ≡ s
    → IsSorted s
    → AreFull m
    → contains k s ≡ true
    → next_turn (length (replace_at m k q)) s (replace_at m k q) k ≡ some (next_pointer s k)
unfolding next_turn
next_turn-first m [] k q e o f h = absurd (ground arith)
next_turn-first m (j ∷ []) k q e o f h =
    let one : length (replace_at m k q) ≡ 1 =
      sym (length-keys (replace_at m k q)) ∙ ap length (keys-replace_at m k q ∙ e) in
    rw one refl
next_turn-first m (j ∷ i ∷ s) k q e o f h =
    let many : length (replace_at m k q) ≡ suc (suc (length s)) =
      sym (length-keys (replace_at m k q)) ∙ ap length (keys-replace_at m k q ∙ e) in
    rw many (ground (arith, (at-next m j i k s q e o f).2))

-- What a `Pop` that serves the address `k` does.
abbrev pub Serves : RrScheduler → ℕ → AddressedMessage → RrScheduler → Type 0
Serves s k a s' =
    (q : List AddressedMessage) × (at s.rr_queue k ≡ some (a ∷ q))
    × (s'.key_pointer ≡ next_pointer s.key_set k)
    × (s'.key_set ≡ (if is_empty q then erase k s.key_set else s.key_set))
    × (s'.rr_queue ≡ (
        if is_empty q then erase_at (replace_at s.rr_queue k q) k else replace_at s.rr_queue k q))

serve-Serves :
    (s : RrScheduler) (k : ℕ)
    → IsValid s
    → contains k s.key_set ≡ true
    → (a : AddressedMessage) × (s' : RrScheduler) × (serve s k ≡ some (a, s')) × Serves s k a s'
unfolding serve
serve-Serves s k v h =
    let waiting = at-AreFull s.rr_queue k v.full (ap (contains k) v.same_keys ∙ h) in
    let next = next_turn-first s.rr_queue s.key_set k waiting.1 v.same_keys v.sorted v.full h in
    (waiting.0, _, rw (serve, waiting.2, next) refl, (waiting.1, waiting.2, refl, refl, refl))

next_pointer-key :
    (s : List ℕ) (k n : ℕ)
    → IsSorted s
    → next_pointer s k ≡ some n
    → (contains n s ≡ true) × (n ≢ k)
next_pointer-key [] k n o e = absurd (ground arith)
next_pointer-key (j ∷ []) k n o e = absurd (ground arith)
next_pointer-key (j ∷ i ∷ s) k n o e =
    let same : next_key (j ∷ i ∷ s) k ≡ n = cc in
    (
      ap (λ t. contains t (j ∷ i ∷ s)) (sym same) ∙ next_key-contains j (i ∷ s) k o,
      λ f. next_key-ne j i s k o (same ∙ f),
    )

Serves-IsValid :
    (s s' : RrScheduler) (k : ℕ) (a : AddressedMessage) → Serves s k a s' → IsValid s → IsValid s'
Serves-IsValid s s' k a (q, waits, p, ks, m) v = elim (Bool-cases (is_empty q)) [
  | inl h ↦ record {
    same_keys =
        ap keys (m ∙ rw h refl)
        ∙ keys-erase_at (replace_at s.rr_queue k q) k
        ∙ ap (erase k) (keys-replace_at s.rr_queue k q ∙ v.same_keys)
        ∙ sym (ks ∙ rw h refl);
    sorted = rw (ks, h) (erase-Above k 0 s.key_set v.sorted);
    full = rw (m, h) (erase_at-AreFull s.rr_queue k q v.full);
    pointed = λ n e.
        let found = next_pointer-key s.key_set k n v.sorted (sym p ∙ e) in
        rw (ks, h) (contains-erase k n 0 s.key_set v.sorted ∙ ground (arith, found));
  }
  | inr h ↦ record {
    same_keys =
        ap keys (m ∙ rw h refl)
        ∙ keys-replace_at s.rr_queue k q
        ∙ v.same_keys
        ∙ sym (ks ∙ rw h refl);
    sorted = rw (ks, h) v.sorted;
    full = rw (m, h) (replace_at-AreFull s.rr_queue k q h v.full);
    pointed = λ n e. rw (ks, h) (next_pointer-key s.key_set k n v.sorted (sym p ∙ e)).0;
  }
]

Serves-size :
    (s s' : RrScheduler) (k : ℕ) (a : AddressedMessage)
    → Serves s k a s'
    → IsValid s
    → contains k s.key_set ≡ true
    → rr_size s ≡ rr_size s' + 1
unfolding rr_size
Serves-size s s' k a (q, waits, p, ks, m) v h =
    queued-replace_at s.rr_queue k a q waits
    ∙ ap (λ t. t + 1)
        (elim (Bool-cases (is_empty q)) [
          | inl e ↦
              sym
                (ap queued (m ∙ rw e refl) ∙ queued-erase_at (replace_at s.rr_queue k q) k q left e)
          | inr e ↦ sym (ap queued (m ∙ rw e refl))
        ])
  where
    left : at (replace_at s.rr_queue k q) k ≡ some q
    left = at-replace_at s.rr_queue k k q ∙ ground (arith, v.same_keys)

-- `Push` keeps a scheduler valid and adds one message, at the end of the queue of its address.
pub rr_push-IsValid :
    (s : RrScheduler) (a : AddressedMessage)
    → IsValid s
    → IsValid (rr_push s a)
      × (rr_size (rr_push s a) ≡ rr_size s + 1)
      × (at (rr_push s a).rr_queue a.address
          ≡ some (elim (at s.rr_queue a.address) [ none ↦ a ∷ [] | some q ↦ q ++ a ∷ [] ]))
unfolding rr_push rr_size
rr_push-IsValid s a v = (
  record {
    same_keys = keys-push_at s.rr_queue a.address a ∙ ap (insert a.address) v.same_keys;
    sorted = insert-Above a.address 0 s.key_set (omega arith) v.sorted;
    full = push_at-AreFull s.rr_queue a.address a v.full;
    pointed = λ k e. ground (arith, contains-insert a.address k s.key_set, v.pointed k e);
  },
  queued-push_at s.rr_queue a.address a,
  at-push_at s.rr_queue a.address a.address a (rw v.same_keys v.sorted) ∙ ground arith,
)

keys-queued : (m : Queues) → keys m ≡ [] → queued m ≡ 0
unfolding queued
keys-queued [] e = refl
keys-queued (e ∷ m) h = absurd (ground arith)

turn-contains :
    (s : RrScheduler) (j : ℕ) (r : List ℕ)
    → IsValid s
    → s.key_set ≡ j ∷ r
    → contains (turn s.key_pointer s.key_set) s.key_set ≡ true
turn-contains s j r v e = elim (Option-cases s.key_pointer) [
  | inl h ↦ rw (h, e) (ground arith)
  | inr (k, h) ↦ rw h (v.pointed k h)
]

rr_pop-serve :
    (s s' : RrScheduler) (j : ℕ) (r : List ℕ) (a : AddressedMessage)
    → s.key_set ≡ j ∷ r
    → serve s (turn s.key_pointer s.key_set) ≡ some (a, s')
    → rr_pop s ≡ some (some a, s')
unfolding rr_pop
rr_pop-serve s s' j r a e h =
    ap
      (λ (t : List ℕ). elim t [
        | [] ↦ some (none, s)
        | first ∷ rest ↦ elim (serve s (elim s.key_pointer [ none ↦ first | some k ↦ k ])) [
          | none ↦ none
          | some (b, q) ↦ some (some b, q)
        ]
      ])
      e
    ∙ rw (served) refl
  where
    served : serve s (elim s.key_pointer [ none ↦ j | some k ↦ k ]) ≡ some (a, s')
    served = ap (serve s) (ap (turn s.key_pointer) (sym e)) ∙ h

-- `Pop` of a valid scheduler never throws. It returns NULL exactly if no message is waiting; else it
-- takes the oldest message of the address whose turn it is, and moves the pointer to the next address
-- in the order of the addresses that wait, or to "invalid" where there is no other. The scheduler is
-- valid afterwards and holds one message less.
pub rr_pop_cases :
    (s : RrScheduler)
    → IsValid s
    → ((s.key_set ≡ []) × (rr_size s ≡ 0) × (rr_pop s ≡ some (none, s)))
      ⊎ ((a : AddressedMessage) × (s' : RrScheduler) × (rr_pop s ≡ some (some a, s'))
          × Serves s (turn s.key_pointer s.key_set) a s'
          × IsValid s'
          × (rr_size s ≡ rr_size s' + 1))
unfolding rr_pop rr_size
rr_pop_cases s v = by_keys s.key_set refl
  where
    by_keys :
        (t : List ℕ)
        → s.key_set ≡ t
        → ((s.key_set ≡ []) × (rr_size s ≡ 0) × (rr_pop s ≡ some (none, s)))
          ⊎ ((a : AddressedMessage) × (s' : RrScheduler) × (rr_pop s ≡ some (some a, s'))
              × Serves s (turn s.key_pointer s.key_set) a s'
              × IsValid s'
              × (rr_size s ≡ rr_size s' + 1))
    by_keys [] e = inl (e, keys-queued s.rr_queue (v.same_keys ∙ e), rw e refl)
    by_keys (j ∷ r) e =
        let k = turn s.key_pointer s.key_set in
        let member = turn-contains s j r v e in
        let got = serve-Serves s k v member in
        inr (
          got.0,
          got.1,
          rr_pop-serve s got.1 j r got.0 e got.2,
          got.3,
          Serves-IsValid s got.1 k got.0 got.3 v,
          Serves-size s got.1 k got.0 got.3 v member,
        )
