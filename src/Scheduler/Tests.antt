-- ===== src/Scheduler/Tests.antt =====
-- The theorems on the schedulers at concrete queues.
use tvpp_dev_base.Base.{ℕ, ◌+◌, ◌≡◌, refl, ◌⊎◌, none, some, List, [], ◌∷◌, ◌++◌, arith}
use tvpp_dev_base.Scheduler.{AddressedMessage, Draw}
use tvpp_dev_base.Scheduler.Queues.{random_push_all, pops, pops-random_push_all}
use tvpp_dev_base.Scheduler.Cdf.{
  AreAhead, Ascend, others, place_all, cdf_push_all, cdf_pops, no_messages,
}
use tvpp_dev_base.Scheduler.Cdf.Pops.{cdf_pops-cdf_push_all}
use tvpp_dev_base.Message.{
  get_header_values, get_opcode, get_message_header_values, split_header_values, split_from,
  split_value, split_start, read_int,
}
use tvpp_dev_base.Scheduler.RoundRobin.{RrScheduler, rr_pop, rr_size}
use tvpp_dev_base.Scheduler.RoundRobin.Served.{IsValid}
use tvpp_dev_base.Scheduler.RoundRobin.Order.{IsTurn, InTurn, rr_pop-InTurn}

abbrev to : ℕ → List ℕ → AddressedMessage
to address message = record { address = address; message = message }

-- A message, and a request for the first chunk of a cycle with the tip there.
abbrev error_message : List ℕ
error_message = 5 ∷ 8 ∷ 0 ∷ 0 ∷ 0 ∷ 0 ∷ 3 ∷ 0 ∷ []

abbrev request_message : List ℕ
request_message = 3 ∷ 18 ∷ 0 ∷ 0 ∷ 0 ∷ 0 ∷ 2 ∷ 0 ∷ 0 ∷ 0 ∷ 9 ∷ 0 ∷ 2 ∷ 0 ∷ 0 ∷ 0 ∷ 4 ∷ 0 ∷ []

abbrev draw : Draw
draw = record { numerator = 3; denominator = 4 }

pops-random_push_all_example :
    pops (3 + 1) (random_push_all (to 1 [] ∷ []) ((draw, to 2 []) ∷ (draw, to 3 []) ∷ []))
    ≡ to 3 [] ∷ to 2 [] ∷ to 1 [] ∷ []
pops-random_push_all_example =
    pops-random_push_all (to 1 [] ∷ []) ((draw, to 2 []) ∷ (draw, to 3 []) ∷ []) 1
      (omega arith, (omega arith, tt))

-- A request for the chunk of a position with the tip at the start of its cycle, and three messages.
abbrev request_for : ℕ → List ℕ
request_for i = 3 ∷ 18 ∷ 0 ∷ 0 ∷ 0 ∷ 0 ∷ 2 ∷ 0 ∷ 0 ∷ 0 ∷ i ∷ 0 ∷ 2 ∷ 0 ∷ 0 ∷ 0 ∷ 0 ∷ 0 ∷ []

abbrev given : List AddressedMessage
given = to 1 (request_for 9) ∷ to 2 error_message ∷ to 3 (request_for 4) ∷ []

given-AreAhead : AreAhead given
unfolding get_header_values get_opcode get_message_header_values split_header_values split_from
    split_value split_start read_int
given-AreAhead = (
  λ h. (omega arith, omega arith, omega arith, omega arith, omega arith),
  (
    λ h. absurd (ground (arith, h)),
    (λ h. (omega arith, omega arith, omega arith, omega arith, omega arith), tt),
  ),
)

cdf_pops-cdf_push_all_example :
    (cdf_pops (3 + 1) (cdf_push_all no_messages given) ≡ others given ++ place_all [] given)
    × Ascend 0 (place_all [] given)
cdf_pops-cdf_push_all_example = cdf_pops-cdf_push_all given 1 given-AreAhead

-- Two addresses, and the turn of the second.
abbrev two : RrScheduler
two = record {
  key_pointer = some 2;
  key_set = 1 ∷ 2 ∷ [];
  rr_queue = (1, to 1 error_message ∷ []) ∷ (2, to 2 error_message ∷ []) ∷ [];
}

two-IsValid : IsValid two
two-IsValid = record {
  same_keys = refl;
  sorted = (omega arith, (omega arith, tt));
  full = (refl, (refl, tt));
  pointed = λ k e. grind arith;
}

rr_pop-InTurn_example :
    ((two.rr_queue ≡ []) × (rr_pop two ≡ some (none, two)))
    ⊎ ((k : ℕ) × (a : AddressedMessage) × (s' : RrScheduler) × (rr_pop two ≡ some (some a, s'))
        × IsTurn two k
        × InTurn two k a s'
        × IsValid s'
        × (rr_size two ≡ rr_size s' + 1))
rr_pop-InTurn_example = rr_pop-InTurn two two-IsValid
