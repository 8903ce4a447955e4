-- ===== src/Message/Tests.antt =====
-- Runs of src/common/Messages/Message.cpp, and its theorems at concrete packets.
use tvpp_dev_base.Base.{
  ℕ, zero, suc, ◌+◌, ◌<◌, ◌≡◌, refl, true, List, [], ◌∷◌, arith, get_or, ◌≤◌, ◌*◌, ◌/◌,
}
use tvpp_dev_base.Message.{
  get_header_size, set_integrity, check_integrity, IsBytes, read_int, write_int, calc_checksum,
  checksum_from, complement, split_value, split_start,
}
use tvpp_dev_base.Message.Integrity.{check_integrity_detects}

-- A packet with a header of eight bytes: 5, 8, no body, the checksum, and an error code.
abbrev packet : List ℕ
packet = 5 ∷ 8 ∷ 0 ∷ 0 ∷ 0 ∷ 0 ∷ 3 ∷ 0 ∷ []

-- It with its checksum, and with a bit of its error code changed as well.
abbrev sealed : List ℕ
sealed = 5 ∷ 8 ∷ 0 ∷ 0 ∷ 247 ∷ 247 ∷ 3 ∷ 0 ∷ []

eight-IsBytes :
    (a b c d : ℕ)
    → a < 256
    → b < 256
    → c < 256
    → d < 256
    → IsBytes (a ∷ b ∷ 0 ∷ 0 ∷ c ∷ c ∷ d ∷ 0 ∷ [])
eight-IsBytes a b c d h k l n zero = h
eight-IsBytes a b c d h k l n (suc zero) = k
eight-IsBytes a b c d h k l n (suc (suc zero)) = omega arith
eight-IsBytes a b c d h k l n (suc (suc (suc zero))) = omega arith
eight-IsBytes a b c d h k l n (suc (suc (suc (suc zero)))) = l
eight-IsBytes a b c d h k l n (suc (suc (suc (suc (suc zero))))) = l
eight-IsBytes a b c d h k l n (suc (suc (suc (suc (suc (suc zero)))))) = n
eight-IsBytes a b c d h k l n (suc (suc (suc (suc (suc (suc (suc zero))))))) = omega arith
eight-IsBytes a b c d h k l n (suc (suc (suc (suc (suc (suc (suc (suc i)))))))) = omega arith

sealed-IsBytes : IsBytes sealed
sealed-IsBytes = eight-IsBytes 5 8 247 3 (omega arith) (omega arith) (omega arith) (omega arith)

sealed-packet : set_integrity packet ≡ sealed
unfolding set_integrity read_int write_int calc_checksum checksum_from complement get_header_size
    split_value split_start
sealed-packet = refl

packet-header_size : 6 ≤ get_header_size packet
unfolding get_header_size read_int split_value split_start
packet-header_size = omega arith

sealed-check : check_integrity sealed ≡ true
unfolding check_integrity read_int calc_checksum checksum_from complement get_header_size
    split_value split_start
sealed-check = refl

sealed-room : 3 < get_header_size sealed / 2
unfolding get_header_size read_int split_value split_start
sealed-room = omega arith

check_integrity_detects_example :
    (get_or sealed (2 * 3) 0 ≡ get_or sealed (2 * 3) 0)
    × (get_or sealed (2 * 3 + 1) 0 ≡ get_or sealed (2 * 3 + 1) 0)
check_integrity_detects_example =
    check_integrity_detects sealed sealed 3 sealed-IsBytes sealed-IsBytes (λ i o. refl) sealed-room
      refl sealed-check sealed-check
