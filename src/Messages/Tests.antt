-- ===== src/Messages/Tests.antt =====
-- The theorems on the message classes at concrete messages.
use tvpp_dev_base.Base.{ℕ, ◌≡◌, refl, true, List, [], ◌∷◌, arith}
use tvpp_dev_base.Message.{
  get_opcode, get_header_size, get_body_size, get_header_values, set_integrity, check_integrity,
}
use tvpp_dev_base.Messages.{error, make_message, error_sizes}
use tvpp_dev_base.Messages.Sealed.{sealed_message}

abbrev zeros8 : List ℕ
zeros8 = 0 ∷ 0 ∷ 0 ∷ 0 ∷ 0 ∷ 0 ∷ 0 ∷ 0 ∷ []

sealed_message_example :
    let m = set_integrity (make_message error zeros8 0 (5 ∷ [])) in
    (check_integrity m ≡ true)
    × (get_opcode m ≡ 5)
    × (get_header_size m ≡ 8)
    × (get_body_size m ≡ 0)
    × (get_header_values error_sizes m ≡ 5 ∷ [])
sealed_message_example =
    sealed_message error zeros8 0 (5 ∷ []) (omega arith) (omega arith) refl (omega arith, tt)
