-- ===== src/Messages/Sealed.antt =====
-- A message of any class that is made by its constructor and sealed by `SetIntegrity`, as its
-- receiver reads it.
use tvpp_dev_base.Base.{
  ℕ, ◌+◌, ◌%◌, ◌^◌, ◌≤◌, ◌<◌, ◌≡◌, refl, ◌∙◌, inl, inr, true, List, [], ◌∷◌, arith, length,
}
use native.Mathlib.Nat.{mod-eq_of_lt}
use mathlib.Core.Path.{ap₂}
use tvpp_dev_base.Message.{
  assemble_header, get_checksum, get_opcode, get_header_size, get_body_size, get_header_values,
  set_integrity, check_integrity,
}
use tvpp_dev_base.Message.Layout.{AreWidths, layout_end, cut_values}
use tvpp_dev_base.Message.RoundTrip.{split_from-agree}
use tvpp_dev_base.Message.Integrity.{set_integrity-keeps, check-set_integrity}
use tvpp_dev_base.Message.Header.{assemble_header-fields, getters-agree}
use tvpp_dev_base.Messages.{Kind, error, opcode, header_size, header_sizes, make_message}

-- Values that fit the fields.
abbrev pub Fit : List ℕ → List ℕ → Type 0
Fit [] ds = Unit {0}
Fit (s ∷ ss) [] = Unit {0}
Fit (s ∷ ss) (d ∷ ds) = (d < 2 ^ s) × Fit ss ds

cut_values-Fit : (ss ds : List ℕ) → length ds ≡ length ss → Fit ss ds → cut_values ss ds ≡ ds
cut_values-Fit [] [] e f = refl
cut_values-Fit [] (d ∷ ds) e f = absurd (omega arith)
cut_values-Fit (s ∷ ss) [] e f = absurd (omega arith)
cut_values-Fit (s ∷ ss) (d ∷ ds) e f =
    ap₂ ◌∷◌ (mod-eq_of_lt f.0) (cut_values-Fit ss ds (omega arith) f.1)

header_sizes-AreWidths : (k : Kind) → AreWidths (header_sizes k)
header_sizes-AreWidths error = omega arith
header_sizes-AreWidths k = omega arith

-- For every class the constant of Defines.hpp is the size of the base header and the fields of the
-- class; an error message has one byte more, which completes the short of its code.
pub header_size-layout_end :
    (k : Kind) → header_size k ≡ 6 + layout_end 0 (header_sizes k) + elim k [ error ↦ 1 | _ ↦ 0 ]
header_size-layout_end error = refl
header_size-layout_end k = refl

small : (k : Kind) → (opcode k < 2 ^ 8) × (header_size k < 2 ^ 8) × (6 ≤ header_size k)
small error = omega arith
small k = omega arith

-- What the constructor of a class leaves in the memory that it allocates, if that has room for the
-- headers and the values fit their fields.
make_message-fields :
    (k : Kind) (fresh : List ℕ) (body_size : ℕ) (ds : List ℕ)
    → header_size k ≤ length fresh
    → body_size < 2 ^ 16
    → length ds ≡ length (header_sizes k)
    → Fit (header_sizes k) ds
    → let m = make_message k fresh body_size ds in
      (get_opcode m ≡ opcode k)
      × (get_header_size m ≡ header_size k)
      × (get_body_size m ≡ body_size)
      × (get_header_values (header_sizes k) m ≡ ds)
      × (length m ≡ length fresh)
unfolding make_message
make_message-fields k fresh body_size ds room b e f = (
  got.0 ∙ mod-eq_of_lt (small k).0,
  got.1 ∙ mod-eq_of_lt (small k).1,
  got.2 ∙ mod-eq_of_lt b,
  got.4 ∙ cut_values-Fit (header_sizes k) ds e f,
  got.6,
)
  where
    end : layout_end 0 (header_sizes k) + 6 ≤ header_size k
    end = omega (arith, header_size-layout_end k)

    m' : List ℕ × ℕ
    m' = assemble_header (header_sizes k) fresh (opcode k) (header_size k) body_size ds

    got :
        (get_opcode m'.0 ≡ opcode k % 2 ^ 8)
        × (get_header_size m'.0 ≡ header_size k % 2 ^ 8)
        × (get_body_size m'.0 ≡ body_size % 2 ^ 16)
        × (get_checksum m'.0 ≡ 0)
        × (get_header_values (header_sizes k) m'.0 ≡ cut_values (header_sizes k) ds)
        × (m'.1 ≡ (6 + layout_end 0 (header_sizes k)) % 2 ^ 8)
        × (length m'.0 ≡ length fresh)
    got =
        assemble_header-fields (header_sizes k) fresh (opcode k) (header_size k) body_size ds
          (header_sizes-AreWidths k) (omega (arith, small k, end)) e (omega (arith, end))

-- A message of any class, made by its constructor in memory with room for its headers and sealed by
-- `SetIntegrity`, passes `CheckIntegrity`, and its receiver reads the opcode, the header size and the
-- body size of the class and the header values that the sender gave, if these fit their fields.
pub sealed_message :
    (k : Kind) (fresh : List ℕ) (body_size : ℕ) (ds : List ℕ)
    → header_size k ≤ length fresh
    → body_size < 2 ^ 16
    → length ds ≡ length (header_sizes k)
    → Fit (header_sizes k) ds
    → let m = set_integrity (make_message k fresh body_size ds) in
      (check_integrity m ≡ true)
      × (get_opcode m ≡ opcode k)
      × (get_header_size m ≡ header_size k)
      × (get_body_size m ≡ body_size)
      × (get_header_values (header_sizes k) m ≡ ds)
unfolding get_header_values
sealed_message k fresh body_size ds room b e f = (
  check-set_integrity made (omega (arith, small k, fields.4)) (omega (arith, small k, fields.1)),
  same.0 ∙ fields.0,
  same.1 ∙ fields.1,
  same.2 ∙ fields.2,
  split_from-agree (set_integrity made) made 6 0 (header_sizes k)
        (λ i a. set_integrity-keeps made i (inr a))
      ∙ fields.3,
)
  where
    made : List ℕ
    made = make_message k fresh body_size ds

    fields :
        (get_opcode made ≡ opcode k)
        × (get_header_size made ≡ header_size k)
        × (get_body_size made ≡ body_size)
        × (get_header_values (header_sizes k) made ≡ ds)
        × (length made ≡ length fresh)
    fields = make_message-fields k fresh body_size ds room b e f

    same :
        (get_opcode (set_integrity made) ≡ get_opcode made)
        × (get_header_size (set_integrity made) ≡ get_header_size made)
        × (get_body_size (set_integrity made) ≡ get_body_size made)
    same = getters-agree (set_integrity made) made (λ i l. set_integrity-keeps made i (inl l))
