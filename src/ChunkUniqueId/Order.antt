-- ===== src/ChunkUniqueId/Order.antt =====
-- The comparisons of src/common/ChunkUniqueID.cpp as one total order.
use tvpp_dev_base.Base.{ℕ, ◌+◌, ◌*◌, ◌<◌, ◌≡◌, not, ◌||◌, arith, ltb}
use tvpp_dev_base.ChunkUniqueId.{
  ChunkUniqueId, IsValid, eq_id, ne_id, lt_id, le_id, gt_id, ge_id, index,
}

index_lt : (size c p d q : ℕ) → p < size → c < d → c * size + p < d * size + q
index_lt size c p d q hp h = grind arith

-- For two valid identifiers of one buffer `operator<` compares the numbers of their chunks in the
-- stream.
pub lt_id-index :
    (c d : ChunkUniqueId)
    → IsValid c
    → IsValid d
    → c.buffer_size ≡ d.buffer_size
    → (lt_id c d ≡ ltb (index c) (index d))
unfolding lt_id
lt_id-index c d v w e = ground (
  arith,
  index_lt c.buffer_size c.cycle c.position d.cycle d.position,
  index_lt c.buffer_size d.cycle d.position c.cycle c.position,
)

-- The five other comparisons are those of one order, that of `operator<` and `operator==`.
pub operators_agree :
    (c d : ChunkUniqueId)
    → (le_id c d ≡ lt_id c d || eq_id c d)
      × (gt_id c d ≡ lt_id d c)
      × (ge_id c d ≡ not (lt_id c d))
      × (ne_id c d ≡ not (eq_id c d))
unfolding lt_id le_id gt_id ge_id eq_id ne_id
operators_agree c d = ground arith
