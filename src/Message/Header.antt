-- ===== src/Message/Header.antt =====
-- `AssembleHeader` of src/common/Messages/Message.cpp as a whole: the base header and the header of
-- the message's type, read back by the getters.
use tvpp_dev_base.Base.{
  ℕ, ◌+◌, ◌%◌, ◌^◌, ◌≤◌, ◌<◌, ◌≡◌, refl, ◌∙◌, inl, inr, List, [], ◌∷◌, arith, ap, length, get_or,
}
use tvpp_dev_base.Message.{
  base_sizes, split_start, split_value, read_int, assemble_start, assemble_header_values,
  assemble_message_header, assemble_header, get_message_header_values, get_opcode, get_header_size,
  get_body_size, get_checksum, get_header_values,
}
use tvpp_dev_base.Message.Layout.{
  AreWidths, layout_end, cut_values, length-assemble_from, assemble_from-end, get_or-assemble_from,
}
use tvpp_dev_base.Message.Memory.{read_int-agree}
use tvpp_dev_base.Message.RoundTrip.{split-assemble}

base_widths : AreWidths base_sizes
base_widths = (inl refl, (inl refl, (inr (inl refl), (inr (inl refl), tt))))

-- The base header of a packet depends on its first six bytes only.
base_values-agree :
    (m m' : List ℕ)
    → ((i : ℕ) → i < 6 → get_or m i 0 ≡ get_or m' i 0)
    → get_message_header_values m ≡ get_message_header_values m'
unfolding get_message_header_values split_start split_value
base_values-agree m m' h = rw (
  field 0 1 (omega arith),
  field 1 1 (omega arith),
  field 2 2 (omega arith),
  field 4 2 (omega arith),
)
  where
    field : (p n : ℕ) → p + n ≤ 6 → read_int m p n ≡ read_int m' p n
    field p n k = read_int-agree m m' p n (λ i a b. h i (omega arith))

-- The getters by the values of the base header.
getters :
    (m : List ℕ) (a b c d : ℕ)
    → get_message_header_values m ≡ a ∷ b ∷ c ∷ d ∷ []
    → (get_opcode m ≡ a % 2 ^ 8)
      × (get_header_size m ≡ b % 2 ^ 8)
      × (get_body_size m ≡ c % 2 ^ 16)
      × (get_checksum m ≡ d % 2 ^ 16)
unfolding get_opcode get_header_size get_body_size get_checksum
getters m a b c d e = (
  ap (λ (t : List ℕ). get_or t 0 0 % 2 ^ 8) e,
  ap (λ (t : List ℕ). get_or t 1 0 % 2 ^ 8) e,
  ap (λ (t : List ℕ). get_or t 2 0 % 2 ^ 16) e,
  ap (λ (t : List ℕ). get_or t 3 0 % 2 ^ 16) e,
)

-- The opcode and the sizes depend on the first four bytes only.
pub getters-agree :
    (m m' : List ℕ)
    → ((i : ℕ) → i < 4 → get_or m i 0 ≡ get_or m' i 0)
    → (get_opcode m ≡ get_opcode m')
      × (get_header_size m ≡ get_header_size m')
      × (get_body_size m ≡ get_body_size m')
unfolding get_opcode get_header_size get_body_size split_start split_value
getters-agree m m' h = (
  ap (λ (t : ℕ). t % 2 ^ 8) (field 0 1 (omega arith)),
  ap (λ (t : ℕ). t % 2 ^ 8) (field 1 1 (omega arith)),
  ap (λ (t : ℕ). t % 2 ^ 16) (field 2 2 (omega arith)),
)
  where
    field : (p n : ℕ) → p + n ≤ 4 → read_int m p n ≡ read_int m' p n
    field p n k = read_int-agree m m' p n (λ i a b. h i (omega arith))

-- The packet after the two calls of `AssembleHeaderValues`.
module _ (sizes m : List ℕ) (opcode header_size body_size : ℕ) (ds : List ℕ) where
  base : List ℕ
  base = (assemble_message_header m opcode header_size body_size).0

  assemble_header_parts : assemble_header sizes m opcode header_size body_size ds ≡ (
    (assemble_header_values base 6 sizes ds).0,
    (6 + (assemble_header_values base 6 sizes ds).1) % 2 ^ 8,
  )
  unfolding assemble_header base assemble_start
  assemble_header_parts = refl

  length-base : length base ≡ length m
  unfolding base assemble_message_header
  length-base = length-assemble_from m 0 0 base_sizes (opcode ∷ header_size ∷ body_size ∷ 0 ∷ [])

  base-values :
      6 ≤ length m
      → get_message_header_values base
        ≡ opcode % 2 ^ 8 ∷ header_size % 2 ^ 8 ∷ body_size % 2 ^ 16 ∷ 0 ∷ []
  unfolding base assemble_message_header get_message_header_values
  base-values h =
      split-assemble m 0 base_sizes (opcode ∷ header_size ∷ body_size ∷ 0 ∷ []) base_widths
        (omega arith) refl (omega arith)

  -- In a packet with room for it, `AssembleHeader` writes a header from which the getters read back
  -- the opcode, the two sizes, a clear checksum and the values of the fields, each cut to its field;
  -- it returns the size of both headers, cut to a byte, and keeps the length of the packet.
  pub assemble_header-fields :
      AreWidths sizes
      → layout_end 0 sizes < 2 ^ 16
      → length ds ≡ length sizes
      → 6 + layout_end 0 sizes ≤ length m
      → let (m', n) = assemble_header sizes m opcode header_size body_size ds in
        (get_opcode m' ≡ opcode % 2 ^ 8)
        × (get_header_size m' ≡ header_size % 2 ^ 8)
        × (get_body_size m' ≡ body_size % 2 ^ 16)
        × (get_checksum m' ≡ 0)
        × (get_header_values sizes m' ≡ cut_values sizes ds)
        × (n ≡ (6 + layout_end 0 sizes) % 2 ^ 8)
        × (length m' ≡ length m)
  unfolding assemble_header_values get_header_values
  assemble_header-fields w h e k = rw assemble_header_parts (
    omega (arith, got.0),
    omega (arith, got.1),
    omega (arith, got.2),
    got.3,
    split-assemble base 6 sizes ds w h e (omega (arith, length-base)),
    ap (λ (t : ℕ). (6 + t % 2 ^ 8) % 2 ^ 8) (assemble_from-end base 6 0 sizes ds w h e)
        ∙ omega arith,
    length-assemble_from base 6 0 sizes ds ∙ length-base,
  )
    where
      written : List ℕ
      written = (assemble_header_values base 6 sizes ds).0

      values :
          get_message_header_values written
          ≡ opcode % 2 ^ 8 ∷ header_size % 2 ^ 8 ∷ body_size % 2 ^ 16 ∷ 0 ∷ []
      values =
          base_values-agree written base
            (λ i l. get_or-assemble_from base 6 0 sizes ds i w h e (inl l))
          ∙ base-values (omega arith)

      got :
          (get_opcode written ≡ opcode % 2 ^ 8 % 2 ^ 8)
          × (get_header_size written ≡ header_size % 2 ^ 8 % 2 ^ 8)
          × (get_body_size written ≡ body_size % 2 ^ 16 % 2 ^ 16)
          × (get_checksum written ≡ 0)
      got = getters written (opcode % 2 ^ 8) (header_size % 2 ^ 8) (body_size % 2 ^ 16) 0 values
