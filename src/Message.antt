-- ===== src/Message.antt =====
-- src/common/Messages/Message.hpp and Message.cpp: the packet that the peers exchange, as the bytes
-- at `firstByte`. A packet is a list of bytes; an `int` of a header vector is its 32-bit pattern, and
-- a value of more than one byte lies in memory low byte first, as on the x86 hosts of the program.
-- A read past the end gives 0 and a write past the end is lost; the theorems suppose the room.
pub mod Memory
pub mod RoundTrip
pub mod Layout
pub mod Integrity
pub mod CodedByte
pub mod Header
mod Tests
use tvpp_dev_base.Base.{
  ℕ, zero, suc, ◌+◌, ◌-◌, ◌*◌, ◌/◌, ◌%◌, ◌^◌, ◌<◌, Bool, ◌==◌, if◌then◌else◌, List, [], ◌∷◌, get_or,
  set,
}

-- MESSAGE_HEADER_SIZE: opcode, header size, body size and checksum.
abbrev pub message_header_size : ℕ
message_header_size = 6

-- The `n` bytes at `p`, as a number.
unfoldable pub read_int : List ℕ → ℕ → ℕ → ℕ
read_int m p zero = 0
read_int m p (suc n) = get_or m p 0 + 256 * read_int m (p + 1) n

-- The low `n` bytes of `v`, written at `p`.
unfoldable pub write_int : List ℕ → ℕ → ℕ → ℕ → List ℕ
write_int m p zero v = m
write_int m p (suc n) v = write_int (set m p (v % 256)) (p + 1) n (v / 256)

-- `2 * ((j / 2) + 1)` for an odd offset, in `uint16_t`.
unfoldable pub round_up : ℕ → ℕ
round_up j = if j % 2 == 0 then j else 2 * (j / 2 + 1) % 2 ^ 16

-- The cases of the `switch` of `SplitHeaderValues`: where the field starts, and its value.
unfoldable pub split_start : ℕ → ℕ → ℕ
unfolding round_up
split_start s j = if s == 16 then round_up j else if s == 32 then round_up j else j

unfoldable pub split_value : List ℕ → ℕ → ℕ → ℕ
split_value m p s =
    if s == 8
    then read_int m p 1
    else if s == 16
    then read_int m p 2
    else if s == 32
    then read_int m p 4
    else 0

unfoldable pub split_from : List ℕ → ℕ → ℕ → List ℕ → List ℕ
split_from m from j [] = []
split_from m from j (s ∷ ss) =
    let start = split_start s j in
    split_value m (from + start) s ∷ split_from m from ((start + s / 8) % 2 ^ 16) ss

-- `SplitHeaderValues(firstByte + from, sizes)`
unfoldable pub split_header_values : List ℕ → ℕ → List ℕ → List ℕ
unfolding split_from
split_header_values m from sizes = split_from m from 0 sizes

-- Where `AssembleHeaderValues` writes a field.
unfoldable pub assemble_start : ℕ → ℕ → ℕ
unfolding round_up
assemble_start s j = if s == 8 then j else round_up j

-- The loop of `AssembleHeaderValues`, with its iterator. (Every caller gives as many values as
-- sizes; a missing one is taken as 0.)
unfoldable pub assemble_from : List ℕ → ℕ → ℕ → List ℕ → List ℕ → List ℕ × ℕ
assemble_from m from j [] ds = (m, j)
assemble_from m from j (s ∷ ss) [] =
    let start = assemble_start s j in
    assemble_from (write_int m (from + start) (s / 8) 0) from ((start + s / 8) % 2 ^ 16) ss []
assemble_from m from j (s ∷ ss) (d ∷ ds) =
    let start = assemble_start s j in
    assemble_from (write_int m (from + start) (s / 8) d) from ((start + s / 8) % 2 ^ 16) ss ds

-- `AssembleHeaderValues(firstByte + from, sizes, data)`: the packet, and the `uint8_t` returned.
unfoldable pub assemble_header_values : List ℕ → ℕ → List ℕ → List ℕ → List ℕ × ℕ
unfolding assemble_from
assemble_header_values m from sizes ds =
    let (m', j) = assemble_from m from 0 sizes ds in (m', j % 2 ^ 8)

abbrev pub base_sizes : List ℕ
base_sizes = 8 ∷ 8 ∷ 16 ∷ 16 ∷ []

unfoldable pub assemble_message_header : List ℕ → ℕ → ℕ → ℕ → List ℕ × ℕ
unfolding assemble_header_values
assemble_message_header m opcode header_size body_size =
    assemble_header_values m 0 base_sizes (opcode ∷ header_size ∷ body_size ∷ 0 ∷ [])

-- `AssembleHeader`; `sizes` is what the virtual `GetHeaderValuesSizeVector` returns.
unfoldable pub assemble_header : List ℕ → List ℕ → ℕ → ℕ → ℕ → List ℕ → List ℕ × ℕ
unfolding assemble_message_header
assemble_header sizes m opcode header_size body_size ds =
    let (m', base) = assemble_message_header m opcode header_size body_size in
    let (m'', n) = assemble_header_values m' base sizes ds in (m'', (base + n) % 2 ^ 8)

unfoldable pub get_message_header_values : List ℕ → List ℕ
unfolding split_header_values
get_message_header_values m = split_header_values m 0 base_sizes

unfoldable pub get_opcode : List ℕ → ℕ
unfolding get_message_header_values
get_opcode m = get_or (get_message_header_values m) 0 0 % 2 ^ 8

unfoldable pub get_header_size : List ℕ → ℕ
unfolding get_message_header_values
get_header_size m = get_or (get_message_header_values m) 1 0 % 2 ^ 8

unfoldable pub get_body_size : List ℕ → ℕ
unfolding get_message_header_values
get_body_size m = get_or (get_message_header_values m) 2 0 % 2 ^ 16

unfoldable pub get_checksum : List ℕ → ℕ
unfolding get_message_header_values
get_checksum m = get_or (get_message_header_values m) 3 0 % 2 ^ 16

unfoldable pub get_size : List ℕ → ℕ
get_size m = get_header_size m + get_body_size m

unfoldable pub get_header_values : List ℕ → List ℕ → List ℕ
unfolding split_header_values
get_header_values sizes m = split_header_values m message_header_size sizes

-- The loop of `CalcChecksum` over `n` shorts from the `i`-th.
unfoldable pub checksum_from : List ℕ → ℕ → ℕ → ℕ → ℕ
checksum_from m i zero checksum = checksum
checksum_from m i (suc n) checksum =
    checksum_from m (i + 1) n ((checksum + read_int m (2 * i) 2) % 2 ^ 16)

unfoldable pub calc_checksum : List ℕ → ℕ
calc_checksum m = checksum_from m 0 (get_header_size m / 2) 0

-- `~` on `uint16_t`
abbrev pub complement : ℕ → ℕ
complement v = 2 ^ 16 - 1 - v

unfoldable pub set_integrity : List ℕ → List ℕ
set_integrity m =
    let cleared = set (set m 4 0) 5 0 in write_int cleared 4 2 (complement (calc_checksum cleared))

-- `checksum` is a `uint16_t`, so the sum of `CalcChecksum` and 1 is cut to 16 bits.
unfoldable pub check_integrity : List ℕ → Bool
check_integrity m = (calc_checksum m + 1) % 2 ^ 16 == 0

unfoldable pub short_get_high : ℕ → ℕ
short_get_high target = target / 256 % 256

unfoldable pub short_set_high : ℕ → ℕ → ℕ
short_set_high target value = (target % 256 + value * 256) % 2 ^ 16

unfoldable pub short_get_low : ℕ → ℕ
short_get_low target = target % 256

unfoldable pub short_set_low : ℕ → ℕ → ℕ
short_set_low target value = (target / 256 * 256 + value) % 2 ^ 16

-- `htons` and `ntohs` on a host that stores the low byte first.
abbrev pub swap_bytes : ℕ → ℕ
swap_bytes v = v % 256 * 256 + v / 256

-- `GetCodedByteValue`
unfoldable pub get_coded_byte : List ℕ → ℕ → ℕ
unfolding short_get_high short_get_low
get_coded_byte m address =
    let short = swap_bytes (read_int m (address / 2 * 2) 2) in
    if address % 2 == 0 then short_get_high short else short_get_low short

-- `SetCodedByteValue`
unfoldable pub set_coded_byte : List ℕ → ℕ → ℕ → List ℕ
unfolding short_set_high short_set_low
set_coded_byte m address value =
    let short = swap_bytes (read_int m (address / 2 * 2) 2) in
    write_int m (address / 2 * 2) 2 (
      swap_bytes
        (if address % 2 == 0 then short_set_high short value else short_set_low short value))

-- A packet of `uint8_t` cells.
abbrev pub IsBytes : List ℕ → Type 0
IsBytes m = (i : ℕ) → get_or m i 0 < 256
