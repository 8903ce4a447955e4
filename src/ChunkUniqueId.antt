-- ===== src/ChunkUniqueId.antt =====
-- src/common/ChunkUniqueID.hpp and ChunkUniqueID.cpp: the identifier of a media chunk, which is a
-- position in the cyclic media buffer and the number of times that the buffer has gone round.
pub mod Order
pub mod Increment
pub mod Difference
mod Tests
use tvpp_dev_base.Base.{
  ℕ, ◌+◌, ◌-◌, ◌*◌, ◌/◌, ◌%◌, ◌^◌, ◌<◌, Bool, true, false, ◌&&◌, ◌||◌, not, ltb, leb, ◌==◌,
  if◌then◌else◌,
}
use tvpp_dev_base.Base.Int.{ℤ, pos, negsuc}

pub record ChunkUniqueId : Type 0 where
  pub position : ℕ
  pub cycle : ℕ
  pub buffer_size : ℕ

-- STD_BUFFERSIZE, the default size of the constructor.
abbrev pub std_buffer_size : ℕ
std_buffer_size = 1600

unfoldable pub make : ℕ → ℕ → ℕ → ChunkUniqueId
make cycle position size = record { position = position; cycle = cycle; buffer_size = size }

unfoldable pub set_id : ChunkUniqueId → ℕ → ℕ → ChunkUniqueId
set_id c cycle position = record c { position = position; cycle = cycle }

unfoldable pub set_position : ChunkUniqueId → ℕ → ChunkUniqueId
set_position c position = record c { position = position }

unfoldable pub set_cycle : ChunkUniqueId → ℕ → ChunkUniqueId
set_cycle c cycle = record c { cycle = cycle }

-- The parameter is a `uint32_t`, which the assignment cuts to 16 bits.
unfoldable pub set_buffer_size : ChunkUniqueId → ℕ → ChunkUniqueId
set_buffer_size c size = record c { buffer_size = size % 2 ^ 16 }

-- `IncID`, which `operator++` calls.
unfoldable pub inc_id : ChunkUniqueId → ChunkUniqueId
inc_id c =
    let next = (c.position + 1) % 2 ^ 16 in
    if leb c.buffer_size next
    then record c { position = 0; cycle = (c.cycle + 1) % 2 ^ 32 }
    else record c { position = next }

unfoldable pub eq_id : ChunkUniqueId → ChunkUniqueId → Bool
eq_id c d = c.cycle == d.cycle && c.position == d.position

unfoldable pub ne_id : ChunkUniqueId → ChunkUniqueId → Bool
ne_id c d = not (c.cycle == d.cycle && c.position == d.position)

unfoldable pub lt_id : ChunkUniqueId → ChunkUniqueId → Bool
lt_id c d =
    if ltb c.cycle d.cycle
    then true
    else if c.cycle == d.cycle && ltb c.position d.position
    then true
    else false

unfoldable pub le_id : ChunkUniqueId → ChunkUniqueId → Bool
le_id c d =
    if ltb c.cycle d.cycle
    then true
    else if c.cycle == d.cycle && ltb c.position d.position
    then true
    else c.cycle == d.cycle && c.position == d.position

unfoldable pub gt_id : ChunkUniqueId → ChunkUniqueId → Bool
gt_id c d =
    if ltb d.cycle c.cycle
    then true
    else if c.cycle == d.cycle && ltb d.position c.position
    then true
    else false

unfoldable pub ge_id : ChunkUniqueId → ChunkUniqueId → Bool
ge_id c d =
    if ltb d.cycle c.cycle
    then true
    else if c.cycle == d.cycle && ltb d.position c.position
    then true
    else c.cycle == d.cycle && c.position == d.position

-- The conversion of -n to `uint16_t`.
abbrev pub neg_u16 : ℕ → ℕ
neg_u16 n = (2 ^ 16 - n % 2 ^ 16) % 2 ^ 16

-- `uint16_t q = param / size` for an `int`, whose division rounds towards zero.
unfoldable pub quotient : ℤ → ℕ → ℕ
quotient (pos n) size = n / size % 2 ^ 16
quotient (negsuc n) size = neg_u16 ((n + 1) / size)

-- `uint16_t r = param % size`, whose sign is that of `param`.
unfoldable pub remainder : ℤ → ℕ → ℕ
remainder (pos n) size = n % size % 2 ^ 16
remainder (negsuc n) size = neg_u16 ((n + 1) % size)

-- The body of `operator-(int)` after its two divisions.
unfoldable pub subtract_parts : ChunkUniqueId → ℕ → ℕ → ChunkUniqueId
subtract_parts c cycle_to_sub pos_to_sub =
    let borrow = ltb c.position pos_to_sub in
    let cycles = if borrow then (cycle_to_sub + 1) % 2 ^ 16 else cycle_to_sub in
    let start = if borrow then (c.position + c.buffer_size) % 2 ^ 16 else c.position in
    record c {
      position = (start + 2 ^ 16 - pos_to_sub) % 2 ^ 16;
      cycle = if ltb cycles c.cycle then c.cycle - cycles else 0;
    }

-- `operator-(int)`
unfoldable pub subtract : ChunkUniqueId → ℤ → ChunkUniqueId
unfolding subtract_parts quotient remainder
subtract c param = subtract_parts c (quotient param c.buffer_size) (remainder param c.buffer_size)

-- `operator-(ChunkUniqueID)`. The difference of the cycles is taken in `uint32_t` before it is
-- widened, so the test `newCycle < 0` never holds.
unfoldable pub difference : ChunkUniqueId → ChunkUniqueId → ChunkUniqueId
unfolding subtract make
difference c d =
    subtract (make ((c.cycle + 2 ^ 32 - d.cycle) % 2 ^ 32) c.position c.buffer_size)
      (pos d.position)

-- A value that the program can hold, whose position is inside the buffer.
pub record IsValid (c : ChunkUniqueId) : Type 0 where
  pub in_buffer : c.position < c.buffer_size
  pub size_u16 : c.buffer_size < 2 ^ 16
  pub cycle_u32 : c.cycle < 2 ^ 32

-- The number of the chunk in the stream.
abbrev pub index : ChunkUniqueId → ℕ
index c = c.cycle * c.buffer_size + c.position
