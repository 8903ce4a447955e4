-- ===== src/ChunkUniqueId/Increment.antt =====
-- `IncID` of src/common/ChunkUniqueID.cpp as the successor of the chunk's number.
use tvpp_dev_base.Base.{◌+◌, ◌*◌, ◌%◌, ◌^◌, ◌<◌, ◌≡◌, ◌⊎◌, inl, inr, true, arith}
use tvpp_dev_base.ChunkUniqueId.{ChunkUniqueId, IsValid, inc_id, lt_id, index}

inc_id_cases :
    (c : ChunkUniqueId)
    → IsValid c
    → ((c.position + 1 < c.buffer_size) × (inc_id c ≡ record c { position = c.position + 1 }))
      ⊎ ((c.position + 1 ≡ c.buffer_size)
          × (inc_id c ≡ record c { position = 0; cycle = (c.cycle + 1) % 2 ^ 32 }))
unfolding inc_id
inc_id_cases c v = ground arith

-- Of a valid identifier whose cycle counter is not at its last value, `IncID` makes a valid one,
-- which is the identifier of the next chunk number and is greater by `operator<`.
pub inc_id-index :
    (c : ChunkUniqueId)
    → IsValid c
    → c.cycle + 1 < 2 ^ 32
    → IsValid (inc_id c) × (index (inc_id c) ≡ index c + 1) × (lt_id c (inc_id c) ≡ true)
unfolding lt_id
inc_id-index c v h = elim (inc_id_cases c v) [
  | inl (inside, e) ↦ rw e (ground arith)
  | inr (at_end, e) ↦ rw e (ground (arith, next_cycle))
]
  where
    next_cycle : (c.cycle + 1) * c.buffer_size ≡ c.cycle * c.buffer_size + c.buffer_size
    next_cycle = omega arith
