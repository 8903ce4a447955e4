-- ===== src/ChunkUniqueId/Tests.antt =====
-- Runs of src/common/ChunkUniqueID.cpp, and its theorems at concrete identifiers.
use tvpp_dev_base.Base.{◌⊎◌, ◌<◌, ◌+◌, ◌-◌, ◌^◌, ◌≤◌, ◌≡◌, refl, true, arith}
use tvpp_dev_base.Base.Int.{negsuc}
use tvpp_dev_base.ChunkUniqueId.{ChunkUniqueId, IsValid, index, inc_id, lt_id, subtract, difference}
use tvpp_dev_base.ChunkUniqueId.Increment.{inc_id-index}
use tvpp_dev_base.ChunkUniqueId.Difference.{difference_wraps}

-- The last chunk of cycle 2, and a chunk early in cycle 1.
abbrev last : ChunkUniqueId
last = record { position = 1599; cycle = 2; buffer_size = 1600 }

abbrev early : ChunkUniqueId
early = record { position = 7; cycle = 1; buffer_size = 1600 }

abbrev first : ChunkUniqueId
first = record { position = 5; cycle = 2; buffer_size = 1600 }

last-IsValid : IsValid last
last-IsValid = omega arith

early-IsValid : IsValid early
early-IsValid = omega arith

first-IsValid : IsValid first
first-IsValid = omega arith

inc_id-last : inc_id last ≡ record { position = 0; cycle = 3; buffer_size = 1600 }
unfolding inc_id
inc_id-last = refl

subtract-negative :
    subtract first (negsuc 9) ≡ record { position = 1615; cycle = 1; buffer_size = 1600 }
unfolding subtract
subtract-negative = refl

difference-earlier : (difference early first).cycle ≡ 2 ^ 32 - 1
unfolding difference
difference-earlier = refl

inc_id-index_example :
    IsValid (inc_id last)
    × (index (inc_id last) ≡ index last + 1)
    × (lt_id last (inc_id last) ≡ true)
inc_id-index_example = inc_id-index last last-IsValid (omega arith)

difference_wraps_example :
    ((first.position ≤ early.position)
      × (difference early first ≡ record early { position = 2; cycle = 1 + 2 ^ 32 - 2 }))
    ⊎ ((early.position < first.position)
        × (difference early first
            ≡ record early { position = 7 + 1600 - 5; cycle = 1 + 2 ^ 32 - 2 - 1 }))
difference_wraps_example =
    difference_wraps early first early-IsValid first-IsValid refl (omega arith)
