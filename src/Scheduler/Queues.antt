-- ===== src/Scheduler/Queues.antt =====
-- The order in which src/common/Scheduler/FIFOMessageScheduler.cpp and RandomMessageScheduler.cpp give
-- back what they were given.
use tvpp_dev_base.Base.{
  ℕ, zero, suc, ◌+◌, ◌/◌, ◌<◌, ◌≡◌, refl, sym, ◌∙◌, ap, length-append, none, some, List, [], ◌∷◌,
  ◌++◌, arith, length,
}
use mathlib.Core.List.{append-nil, append_assoc}
use tvpp_dev_base.Scheduler.{
  AddressedMessage, fifo_push, pop, Draw, random_pos, insert_at, random_push,
}

-- Pushes of a list of messages, the first first.
abbrev pub fifo_push_all : List AddressedMessage → List AddressedMessage → List AddressedMessage
fifo_push_all q [] = q
fifo_push_all q (a ∷ xs) = fifo_push_all (fifo_push q a) xs

abbrev pub random_push_all :
    List AddressedMessage → List (Draw × AddressedMessage) → List AddressedMessage
random_push_all q [] = q
random_push_all q ((d, a) ∷ xs) = random_push_all (random_push d q a) xs

-- What `n` pops give, until the pointer is NULL.
abbrev pub pops : ℕ → List AddressedMessage → List AddressedMessage
pops zero q = []
pops (suc n) q = elim (pop q) [ none ↦ [] | some (a, r) ↦ a ∷ pops n r ]

pops-nil : (n : ℕ) → pops n [] ≡ []
unfolding pop
pops-nil zero = refl
pops-nil (suc n) = refl

pops-all : (q : List AddressedMessage) (n : ℕ) → pops (length q + n) q ≡ q
unfolding pop
pops-all [] n = pops-nil (0 + n)
pops-all (a ∷ q) n =
    let e : suc (length q) + n ≡ suc (length q + n) = omega arith in
    rw e (ap (λ t. a ∷ t) (pops-all q n))

fifo_push_all-append : (q xs : List AddressedMessage) → fifo_push_all q xs ≡ q ++ xs
unfolding fifo_push
fifo_push_all-append q [] = sym (append-nil q)
fifo_push_all-append q (a ∷ xs) = fifo_push_all-append (q ++ a ∷ []) xs ∙ append_assoc q (a ∷ []) xs

-- The FIFO scheduler gives messages back in the order in which they were pushed, after those that were
-- waiting, and then NULL.
pub pops-fifo_push_all :
    (q xs : List AddressedMessage) (n : ℕ)
    → pops (length q + length xs + n) (fifo_push_all q xs) ≡ q ++ xs
pops-fifo_push_all q xs n =
    ap (pops (length q + length xs + n)) (fifo_push_all-append q xs)
    ∙ ap (λ t. pops (t + n) (q ++ xs)) (sym (length-append q xs))
    ∙ pops-all (q ++ xs) n

-- The documented range of `drand48`: at least 0, and less than 1.
abbrev pub InRange : List (Draw × AddressedMessage) → Type 0
InRange [] = Unit {0}
InRange ((d, a) ∷ xs) = (d.numerator < d.denominator) × InRange xs

-- The messages in the opposite order, before a list.
abbrev pub newest_first :
    List (Draw × AddressedMessage) → List AddressedMessage → List AddressedMessage
newest_first [] q = q
newest_first ((d, a) ∷ xs) q = newest_first xs (a ∷ q)

random_pos-zero : (d : Draw) (n : ℕ) → d.numerator < d.denominator → random_pos d n ≡ 0
unfolding random_pos
random_pos-zero d n h =
    let none_left : d.numerator / d.denominator ≡ 0 = grind arith in rw none_left (omega arith)

random_push_all-newest_first :
    (q : List AddressedMessage) (xs : List (Draw × AddressedMessage))
    → InRange xs
    → random_push_all q xs ≡ newest_first xs q
unfolding random_push insert_at
random_push_all-newest_first q [] h = refl
random_push_all-newest_first q ((d, a) ∷ xs) h =
    ap (λ t. random_push_all (insert_at t a q) xs) (random_pos-zero d (length q) h.0)
    ∙ random_push_all-newest_first (a ∷ q) xs h.1

-- With values of `drand48` in its documented range the random scheduler gives messages back newest
-- first, whatever the values are.
pub pops-random_push_all :
    (q : List AddressedMessage) (xs : List (Draw × AddressedMessage)) (n : ℕ)
    → InRange xs
    → pops (length (newest_first xs q) + n) (random_push_all q xs) ≡ newest_first xs q
pops-random_push_all q xs n h =
    ap (pops (length (newest_first xs q) + n)) (random_push_all-newest_first q xs h)
    ∙ pops-all (newest_first xs q) n
