-- ===== src/Scheduler/Cdf/Pops.antt =====
-- The order in which src/common/Scheduler/CDFMessageScheduler.cpp gives back what it was given.
use tvpp_dev_base.Base.{
  ℕ, zero, suc, ◌+◌, ◌≤◌, ◌≡◌, refl, sym, ◌∙◌, ap, inl, inr, ◌==◌, ltb, none, List, [], ◌∷◌, ◌++◌,
  arith, length, length-append, ◌≢◌, Bool-cases,
}
use mathlib.Core.List.{append-nil, append_assoc}
use tvpp_dev_base.ChunkUniqueId.{ChunkUniqueId}
use tvpp_dev_base.Message.{get_opcode}
use tvpp_dev_base.Scheduler.{
  AddressedMessage, CdfScheduler, insert_request, urgency, cdf_push, cdf_pop, cdf_size,
}
use tvpp_dev_base.Scheduler.Cdf.{
  distance, IsAhead, AreAhead, others, place, place_all, Ascend, cdf_push_all, cdf_pops,
  no_messages, lt_id-distance,
}

place-Ascend :
    (d : ℕ) (a : AddressedMessage) (q : List AddressedMessage)
    → d ≤ distance a
    → Ascend d q
    → Ascend d (place a q)
place-Ascend d a [] h o = (h, tt)
place-Ascend d a (b ∷ q) h o = elim (Bool-cases (ltb (distance a) (distance b))) [
  | inl t ↦
      let before : place a (b ∷ q) ≡ a ∷ b ∷ q = ground (arith, t) in
      rw before (h, (ground (arith, t), o.1))
  | inr t ↦
      let behind : place a (b ∷ q) ≡ b ∷ place a q = ground (arith, t) in
      rw behind (o.0, place-Ascend (distance b) a q (ground (arith, t)) o.1)
]

place_all-Ascend : (q xs : List AddressedMessage) → Ascend 0 q → Ascend 0 (place_all q xs)
place_all-Ascend q [] o = o
place_all-Ascend q (a ∷ xs) o = elim (Bool-cases (get_opcode a.message == 3)) [
  | inl t ↦ rw t (place_all-Ascend (place a q) xs (place-Ascend 0 a q (omega arith) o))
  | inr t ↦ rw t (place_all-Ascend q xs o)
]

-- A queue of requests with their keys.
abbrev keyed : List AddressedMessage → List (ChunkUniqueId × AddressedMessage)
keyed [] = []
keyed (a ∷ q) = (urgency a, a) ∷ keyed q

abbrev EachAhead : List AddressedMessage → Type 0
EachAhead [] = Unit {0}
EachAhead (a ∷ q) = IsAhead a × EachAhead q

place-EachAhead :
    (a : AddressedMessage) (q : List AddressedMessage)
    → IsAhead a
    → EachAhead q
    → EachAhead (place a q)
place-EachAhead a [] h o = (h, tt)
place-EachAhead a (b ∷ q) h o = elim (Bool-cases (ltb (distance a) (distance b))) [
  | inl t ↦
      let before : place a (b ∷ q) ≡ a ∷ b ∷ q = ground (arith, t) in rw before (h, (o.0, o.1))
  | inr t ↦
      let behind : place a (b ∷ q) ≡ b ∷ place a q = ground (arith, t) in
      rw behind (o.0, place-EachAhead a q h o.1)
]

insert_request-keyed :
    (a : AddressedMessage) (q : List AddressedMessage)
    → IsAhead a
    → EachAhead q
    → insert_request (urgency a) a (keyed q) ≡ keyed (place a q)
unfolding insert_request
insert_request-keyed a [] h o = refl
insert_request-keyed a (b ∷ q) h o =
    let same = lt_id-distance a b h o.0 in
    elim (Bool-cases (ltb (distance a) (distance b))) [
      | inl t ↦
          let before : place a (b ∷ q) ≡ a ∷ b ∷ q = ground (arith, t) in rw (before, same, t) refl
      | inr t ↦
          let behind : place a (b ∷ q) ≡ b ∷ place a q = ground (arith, t) in
          rw (behind, same, t) (ap (λ r. (urgency b, b) ∷ r) (insert_request-keyed a q h o.1))
    ]

abbrev holding : List AddressedMessage → List AddressedMessage → CdfScheduler
holding f q = record { fifo_queue = f; request_queue = keyed q }

cdf_push_all-holding :
    (f q xs : List AddressedMessage)
    → EachAhead q
    → AreAhead xs
    → cdf_push_all (holding f q) xs ≡ holding (f ++ others xs) (place_all q xs)
unfolding cdf_push
cdf_push_all-holding f q [] o g = ap (λ t. holding t q) (sym (append-nil f))
cdf_push_all-holding f q (a ∷ xs) o g = elim (Bool-cases (get_opcode a.message == 3)) [
  | inl t ↦
      let pushed : cdf_push (holding f q) a ≡ holding f (place a q) =
        rw (cdf_push, t)
          (ap (λ r. record { fifo_queue = f; request_queue = r })
            (insert_request-keyed a q (g.0 t) o)) in
      ap (λ s. cdf_push_all s xs) pushed
      ∙ cdf_push_all-holding f (place a q) xs (place-EachAhead a q (g.0 t) o) g.1
      ∙ rw t refl
  | inr t ↦
      let pushed : cdf_push (holding f q) a ≡ holding (f ++ a ∷ []) q = rw (cdf_push, t) refl in
      ap (λ s. cdf_push_all s xs) pushed
      ∙ cdf_push_all-holding (f ++ a ∷ []) q xs o g.1
      ∙ ap (λ r. holding r (place_all q xs)) (append_assoc f (a ∷ []) (others xs))
      ∙ rw t refl
]

cdf_pops-none : (n : ℕ) → cdf_pops n no_messages ≡ []
unfolding cdf_pop
cdf_pops-none zero = refl
cdf_pops-none (suc n) = refl

cdf_pops-holding :
    (f q : List AddressedMessage) (n : ℕ)
    → cdf_pops (length f + length q + n) (holding f q) ≡ f ++ q
unfolding cdf_pop
cdf_pops-holding [] [] n = cdf_pops-none (0 + 0 + n)
cdf_pops-holding [] (a ∷ q) n =
    let e : 0 + suc (length q) + n ≡ suc (0 + length q + n) = omega arith in
    rw e (ap (λ t. a ∷ t) (cdf_pops-holding [] q n))
cdf_pops-holding (a ∷ f) q n =
    let e : suc (length f) + length q + n ≡ suc (length f + length q + n) = omega arith in
    rw e (ap (λ t. a ∷ t) (cdf_pops-holding f q n))

length-place :
    (a : AddressedMessage) (q : List AddressedMessage) → length (place a q) ≡ length q + 1
length-place a [] = refl
length-place a (b ∷ q) = ground (arith, length-place a q)

length-parts :
    (q xs : List AddressedMessage)
    → length (others xs) + length (place_all q xs) ≡ length q + length xs
length-parts q [] = omega arith
length-parts q (a ∷ xs) =
    ground (arith, length-parts q xs, length-parts (place a q) xs, length-place a q)

-- An empty scheduler that is given a list of messages gives back first those that are no requests, in
-- their order, and then the requests, each placed by its distance before the first that is farther from
-- its playback tip, so that the distances ascend; and then NULL. The distance is from the number of the
-- tip in the stream to that of the chunk; each request is for a chunk that is not before its tip, with
-- positions inside the standard buffer.
pub cdf_pops-cdf_push_all :
    (xs : List AddressedMessage) (n : ℕ)
    → AreAhead xs
    → (cdf_pops (length xs + n) (cdf_push_all no_messages xs) ≡ others xs ++ place_all [] xs)
      × Ascend 0 (place_all [] xs)
cdf_pops-cdf_push_all xs n g = (
  ap (λ t. cdf_pops t (cdf_push_all no_messages xs)) (count (length-parts [] xs))
      ∙ ap (cdf_pops (length (others xs) + length (place_all [] xs) + n))
          (cdf_push_all-holding [] [] xs tt g)
      ∙ cdf_pops-holding (others xs) (place_all [] xs) n,
  place_all-Ascend [] xs tt,
)
  where
    count :
        length (others xs) + length (place_all [] xs) ≡ 0 + length xs
        → length xs + n ≡ length (others xs) + length (place_all [] xs) + n
    count e = omega (arith, e)

length-insert_request :
    (k : ChunkUniqueId) (a : AddressedMessage) (q : List (ChunkUniqueId × AddressedMessage))
    → length (insert_request k a q) ≡ length q + 1
unfolding insert_request
length-insert_request k a [] = refl
length-insert_request k a ((j, b) ∷ q) = ground (arith, length-insert_request k a q)

-- A scheduler that is given a message holds one more, and returns one at the next `Pop`.
pub cdf_size-cdf_push :
    (s : CdfScheduler) (a : AddressedMessage)
    → (cdf_size (cdf_push s a) ≡ cdf_size s + 1) × (cdf_pop (cdf_push s a) ≢ none)
unfolding cdf_push cdf_pop cdf_size
cdf_size-cdf_push s a = ground (
  arith,
  length-insert_request (urgency a) a s.request_queue,
  length-append s.fifo_queue (a ∷ []),
)
