-- ===== src/Scheduler/Cdf.antt =====
-- src/common/Scheduler/CDFMessageScheduler.cpp: the distance of a request from the playback tip, and the
-- order that its scheduler keeps.
pub mod Pops
use tvpp_dev_base.Base.{
  ℕ, zero, suc, ◌+◌, ◌-◌, ◌*◌, ◌%◌, ◌^◌, ◌<◌, ◌≤◌, ◌≡◌, refl, sym, ◌∙◌, ap, inl, inr, Bool, true,
  false, ◌==◌, ltb, not, ◌||◌, if◌then◌else◌, none, some, List, [], ◌∷◌, ◌++◌, arith, length,
  length-append, get_or, Bool-cases,
}
use mathlib.Core.Path.{ap₂}
use mathlib.Core.List.{append-nil, append_assoc}
use tvpp_dev_base.ChunkUniqueId.{ChunkUniqueId, IsValid, make, index, lt_id, ge_id, difference}
use tvpp_dev_base.ChunkUniqueId.Order.{lt_id-index, operators_agree}
use tvpp_dev_base.ChunkUniqueId.Difference.{difference-index, difference-buffer_size}
use tvpp_dev_base.Message.{get_opcode, get_header_values}
use tvpp_dev_base.Messages.{request_sizes}
use tvpp_dev_base.Scheduler.{
  AddressedMessage, CdfScheduler, insert_request, urgency, cdf_push, cdf_pop,
}

-- A header value of a request.
abbrev pub field : AddressedMessage → ℕ → ℕ
field a i = get_or (get_header_values request_sizes a.message) i 0

-- The numbers in the stream of the chunk that a request asks for, and of the playback tip that it tells.
abbrev pub asked : AddressedMessage → ℕ
asked a = field a 0 * 1600 + field a 1

abbrev pub tip : AddressedMessage → ℕ
tip a = field a 2 * 1600 + field a 3

abbrev pub distance : AddressedMessage → ℕ
distance a = asked a - tip a

-- A request for a chunk that is not before the tip, with positions inside the buffer.
abbrev pub IsAhead : AddressedMessage → Type 0
IsAhead a =
    (field a 0 < 2 ^ 32)
    × (field a 1 < 1600)
    × (field a 2 < 2 ^ 32)
    × (field a 3 < 1600)
    × (tip a ≤ asked a)

-- Every request of the list is one.
abbrev pub AreAhead : List AddressedMessage → Type 0
AreAhead [] = Unit {0}
AreAhead (a ∷ xs) = (get_opcode a.message == 3 ≡ true → IsAhead a) × AreAhead xs

-- The messages that are no requests.
abbrev pub others : List AddressedMessage → List AddressedMessage
others [] = []
others (a ∷ xs) = if get_opcode a.message == 3 then others xs else a ∷ others xs

-- A request put among others, before the first of a greater distance.
abbrev pub place : AddressedMessage → List AddressedMessage → List AddressedMessage
place a [] = a ∷ []
place a (b ∷ q) = if ltb (distance a) (distance b) then a ∷ b ∷ q else b ∷ place a q

-- The requests of a list, put one by one.
abbrev pub place_all : List AddressedMessage → List AddressedMessage → List AddressedMessage
place_all q [] = q
place_all q (a ∷ xs) =
    if get_opcode a.message == 3 then place_all (place a q) xs else place_all q xs

-- The distances ascend, from a bound on.
abbrev pub Ascend : ℕ → List AddressedMessage → Type 0
Ascend d [] = Unit {0}
Ascend d (a ∷ q) = (d ≤ distance a) × Ascend (distance a) q

abbrev pub cdf_push_all : CdfScheduler → List AddressedMessage → CdfScheduler
cdf_push_all s [] = s
cdf_push_all s (a ∷ xs) = cdf_push_all (cdf_push s a) xs

-- What `n` pops give, until the pointer is NULL.
abbrev pub cdf_pops : ℕ → CdfScheduler → List AddressedMessage
cdf_pops zero s = []
cdf_pops (suc n) s = elim (cdf_pop s) [ none ↦ [] | some (a, s') ↦ a ∷ cdf_pops n s' ]

abbrev pub no_messages : CdfScheduler
no_messages = record { fifo_queue = []; request_queue = [] }

difference-distance :
    (c d : ChunkUniqueId)
    → IsValid c
    → IsValid d
    → c.buffer_size ≡ d.buffer_size
    → index d ≤ index c
    → IsValid (difference c d)
      × (index (difference c d) ≡ index c - index d)
      × ((difference c d).buffer_size ≡ c.buffer_size)
difference-distance c d v w e h =
    let ordered : ge_id c d ≡ true =
      (operators_agree c d).2 ∙ ap not (lt_id-index c d v w e) ∙ ground (arith, h) in
    let ahead = difference-index c d v w e ordered in
    (ahead.0, omega (arith, ahead.1), difference-buffer_size c d)

-- The identifier in two header values of a request.
abbrev id_at : AddressedMessage → ℕ → ChunkUniqueId
id_at a i = record { position = field a (i + 1); cycle = field a i; buffer_size = 1600 }

urgency-id_at : (a : AddressedMessage) → IsAhead a → urgency a ≡ difference (id_at a 0) (id_at a 2)
unfolding urgency make
urgency-id_at a (c, p, tc, tp, h) =
    ap₂ difference
      (ap (λ t. record { position = t; cycle = field a 0; buffer_size = 1600 }) (cut 1 p))
      (ap (λ t. record { position = t; cycle = field a 2; buffer_size = 1600 }) (cut 3 tp))
  where
    cut : (i : ℕ) → field a i < 1600 → field a i % 2 ^ 16 ≡ field a i
    cut i l = omega (arith, l)

-- The key of a request is its distance.
urgency-distance :
    (a : AddressedMessage)
    → IsAhead a
    → IsValid (urgency a) × (index (urgency a) ≡ distance a) × ((urgency a).buffer_size ≡ 1600)
urgency-distance a g =
    let (c, p, tc, tp, h) = g in
    let got = difference-distance (id_at a 0) (id_at a 2) (valid 0 c p) (valid 2 tc tp) refl h in
    let same = urgency-id_at a g in
    (rw same got.0, ap index same ∙ got.1, ap (λ (t : ChunkUniqueId). t.buffer_size) same ∙ got.2)
  where
    valid : (i : ℕ) → field a i < 2 ^ 32 → field a (i + 1) < 1600 → IsValid (id_at a i)
    valid i c p = record { in_buffer = p; size_u16 = omega arith; cycle_u32 = c }

pub lt_id-distance :
    (a b : AddressedMessage)
    → IsAhead a
    → IsAhead b
    → lt_id (urgency a) (urgency b) ≡ ltb (distance a) (distance b)
lt_id-distance a b h g =
    let (v, i, s) = urgency-distance a h in
    let (w, j, t) = urgency-distance b g in
    lt_id-index (urgency a) (urgency b) v w (s ∙ sym t) ∙ rw (i, j) refl
