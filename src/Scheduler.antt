-- ===== src/Scheduler.antt =====
-- src/common/Scheduler and src/common/AddressedMessage.hpp: the queues of the messages that wait to be
-- sent. A method holds the mutex of the queue that it changes, so it is one step here. `none` as the
-- result of a pop is the NULL pointer. An address is a number that stands for its text.
pub mod Queues
pub mod Cdf
pub mod RoundRobin
mod Tests
use tvpp_dev_base.Base.{
  ℕ, zero, suc, ◌+◌, ◌/◌, ◌%◌, ◌^◌, Bool, true, false, ◌==◌, if◌then◌else◌, Option, none, some,
  List, [], ◌∷◌, ◌++◌, length, get_or,
}
use tvpp_dev_base.ChunkUniqueId.{ChunkUniqueId, make, difference, lt_id, std_buffer_size}
use tvpp_dev_base.Message.{get_opcode, get_header_values}
use tvpp_dev_base.Messages.{request_sizes}

-- A message with the address that it goes to; its time of creation is read by no scheduler.
pub record AddressedMessage : Type 0 where
  pub address : ℕ
  pub message : List ℕ

-- `FIFOMessageScheduler`
unfoldable pub fifo_push : List AddressedMessage → AddressedMessage → List AddressedMessage
fifo_push q a = q ++ a ∷ []

-- The front of a queue or a list, and the rest: `Pop` of the FIFO and of the random scheduler.
unfoldable pub pop : List AddressedMessage → Option (AddressedMessage × List AddressedMessage)
pop [] = none
pop (a ∷ q) = some (a, q)

-- A value of `drand48`, as a fraction.
pub record Draw : Type 0 where
  pub numerator : ℕ
  pub denominator : ℕ

-- `(uint32_t)drand48() % (size + 1)`: the cast is on the value of `drand48` alone.
unfoldable pub random_pos : Draw → ℕ → ℕ
random_pos d size = d.numerator / d.denominator % 2 ^ 32 % ((size % 2 ^ 32 + 1) % 2 ^ 32)

-- `list::insert` before the element that the iterator reached.
unfoldable pub insert_at : ℕ → AddressedMessage → List AddressedMessage → List AddressedMessage
insert_at zero a q = a ∷ q
insert_at (suc i) a [] = a ∷ []
insert_at (suc i) a (b ∷ q) = b ∷ insert_at i a q

-- `RandomMessageScheduler::Push`
unfoldable pub random_push : Draw → List AddressedMessage → AddressedMessage → List AddressedMessage
unfolding random_pos insert_at
random_push d q a = insert_at (random_pos d (length q)) a q

-- `CDFMessageScheduler`: a queue, and a `multimap` of the requests, which is a list in the order of the
-- keys, and of insertion where they are equal.
pub record CdfScheduler : Type 0 where
  pub fifo_queue : List AddressedMessage
  pub request_queue : List (ChunkUniqueId × AddressedMessage)

-- `multimap::insert`
unfoldable pub insert_request :
    ChunkUniqueId
    → AddressedMessage
    → List (ChunkUniqueId × AddressedMessage)
    → List (ChunkUniqueId × AddressedMessage)
insert_request k a [] = (k, a) ∷ []
insert_request k a ((j, b) ∷ q) =
    let rest = insert_request k a q in if lt_id k j then (k, a) ∷ (j, b) ∷ q else (j, b) ∷ rest

-- The distance of the requested chunk from the playback tip.
unfoldable pub urgency : AddressedMessage → ChunkUniqueId
unfolding make difference get_header_values
urgency a =
    let header = get_header_values request_sizes a.message in
    difference (make (get_or header 0 0) (get_or header 1 0 % 2 ^ 16) std_buffer_size)
      (make (get_or header 2 0) (get_or header 3 0 % 2 ^ 16) std_buffer_size)

-- OPCODE_REQUEST is 3.
unfoldable pub cdf_push : CdfScheduler → AddressedMessage → CdfScheduler
unfolding get_opcode urgency
cdf_push s a =
    if get_opcode a.message == 3
    then record s { request_queue = insert_request (urgency a) a s.request_queue }
    else record s { fifo_queue = s.fifo_queue ++ a ∷ [] }

unfoldable pub cdf_pop : CdfScheduler → Option (AddressedMessage × CdfScheduler)
cdf_pop s = elim s.fifo_queue [
  | a ∷ q ↦ some (a, record s { fifo_queue = q })
  | [] ↦ elim s.request_queue [ [] ↦ none | e ∷ q ↦ some (e.1, record s { request_queue = q }) ]
]

unfoldable pub cdf_size : CdfScheduler → ℕ
cdf_size s = length s.fifo_queue + length s.request_queue
