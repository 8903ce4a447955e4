-- ===== src/Scheduler/RoundRobin.antt =====
-- src/common/Scheduler/RRMessageScheduler.cpp: a queue for each address, served in turn. The set and
-- the map are sorted lists, `key_pointer` is `none` for the text "invalid", and `none` as the result
-- of a function is the exception of `map::at`, or the front of an empty queue.
pub mod Turn
pub mod Served
pub mod Order
use tvpp_dev_base.Base.{
  ℕ, zero, suc, ◌+◌, Bool, true, false, ◌==◌, ltb, leb, if◌then◌else◌, not, ◌&&◌, Option, none,
  some, List, [], ◌∷◌, ◌++◌, length,
}
use tvpp_dev_base.Base.Sets.{insert, erase}
use tvpp_dev_base.Scheduler.{AddressedMessage}

-- The map from addresses to queues.
abbrev pub Queues : Type 0
Queues = List (ℕ × List AddressedMessage)

pub record RrScheduler : Type 0 where
  pub key_pointer : Option ℕ
  pub key_set : List ℕ
  pub rr_queue : List (ℕ × List AddressedMessage)

-- `map::at`
abbrev pub at : List (ℕ × List AddressedMessage) → ℕ → Option (List AddressedMessage)
at [] k = none
at (e ∷ m) k = if k == e.0 then some e.1 else at m k

-- The effect of `rrQueue[address].push(aMessage)`.
unfoldable pub push_at :
    List (ℕ × List AddressedMessage) → ℕ → AddressedMessage → List (ℕ × List AddressedMessage)
push_at [] k a = (k, a ∷ []) ∷ []
push_at (e ∷ m) k a =
    let rest = push_at m k a in
    if k == e.0
    then (e.0, e.1 ++ a ∷ []) ∷ m
    else if ltb k e.0
    then (k, a ∷ []) ∷ e ∷ m
    else e ∷ rest

-- A queue replaced, and an entry erased.
abbrev pub replace_at :
    List (ℕ × List AddressedMessage) → ℕ → List AddressedMessage → List (ℕ × List AddressedMessage)
replace_at [] k q = []
replace_at (e ∷ m) k q = if k == e.0 then (e.0, q) ∷ m else e ∷ replace_at m k q

abbrev pub erase_at : List (ℕ × List AddressedMessage) → ℕ → List (ℕ × List AddressedMessage)
erase_at [] k = []
erase_at (e ∷ m) k = if k == e.0 then m else e ∷ erase_at m k

unfoldable pub rr_push : RrScheduler → AddressedMessage → RrScheduler
unfolding push_at
rr_push s a = record s {
  key_set = insert a.address s.key_set;
  rr_queue = push_at s.rr_queue a.address a;
}

-- The member of the set after `k`: `find`, and one step of the iterator.
abbrev pub after : List ℕ → ℕ → Option ℕ
after [] k = none
after (j ∷ s) k = if k == j then elim s [ [] ↦ none | i ∷ r ↦ some i ] else after s k

-- The key after `k`, and after the last one the first.
abbrev pub next_key : List ℕ → ℕ → ℕ
next_key [] k = k
next_key (j ∷ s) k = elim (after (j ∷ s) k) [ none ↦ j | some i ↦ i ]

abbrev pub is_empty : List AddressedMessage → Bool
is_empty [] = true
is_empty (a ∷ q) = false

-- The loop for the next address, with the rounds that are left: the new pointer, which is "invalid"
-- after as many rounds as the map has entries.
unfoldable pub next_turn : ℕ → List ℕ → List (ℕ × List AddressedMessage) → ℕ → Option (Option ℕ)
next_turn zero s m k = some none
next_turn (suc n) s m k =
    let next = next_key s k in
    let rest = next_turn n s m next in
    elim n [
      | zero ↦ some none
      | suc n' ↦ elim (at m next) [
        | none ↦ none
        | some q ↦ if is_empty q then rest else some (some next)
      ]
    ]

-- What `Pop` does once the pointer is a key.
unfoldable pub serve : RrScheduler → ℕ → Option (AddressedMessage × RrScheduler)
unfolding next_turn erase
serve s k = elim (at s.rr_queue k) [
  | none ↦ none
  | some [] ↦ none
  | some (a ∷ q) ↦
      let m = replace_at s.rr_queue k q in
      elim (next_turn (length m) s.key_set m k) [
        | none ↦ none
        | some next ↦ some (
          a,
          record {
            key_pointer = next;
            key_set = if is_empty q then erase k s.key_set else s.key_set;
            rr_queue = if is_empty q then erase_at m k else m;
          },
        )
      ]
]

-- `Pop`; `some (none, s)` is the NULL pointer.
unfoldable pub rr_pop : RrScheduler → Option (Option AddressedMessage × RrScheduler)
unfolding serve
rr_pop s = elim s.key_set [
  | [] ↦ some (none, s)
  | first ∷ rest ↦ elim (serve s (elim s.key_pointer [ none ↦ first | some k ↦ k ])) [
    | none ↦ none
    | some (a, s') ↦ some (some a, s')
  ]
]

-- `GetSize`
unfoldable pub queued : List (ℕ × List AddressedMessage) → ℕ
queued [] = 0
queued (e ∷ m) = length e.1 + queued m

unfoldable pub rr_size : RrScheduler → ℕ
unfolding queued
rr_size s = queued s.rr_queue
