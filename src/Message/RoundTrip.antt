-- ===== src/Message/RoundTrip.antt =====
-- `SplitHeaderValues` reads back what `AssembleHeaderValues` wrote.
use tvpp_dev_base.Base.{
  ℕ, ◌+◌, ◌/◌, ◌%◌, ◌^◌, ◌≤◌, ◌<◌, ◌≡◌, refl, ◌∙◌, inl, inr, List, [], ◌∷◌, arith, length, get_or,
  ap,
}
use mathlib.Core.Path.{ap₂}
use tvpp_dev_base.Message.{
  read_int, write_int, split_start, split_value, split_from, split_header_values, assemble_start,
  assemble_from, assemble_header_values,
}
use tvpp_dev_base.Message.Memory.{low_bytes, length-write_int, read_int-agree, read_int-write_int}
use tvpp_dev_base.Message.Layout.{
  IsWidth, AreWidths, aligned, layout_end, cut_values, layout_end-le, starts_agree,
  assemble_from-cons, get_or-assemble_from,
}

split_value-read_int : (m : List ℕ) (p s : ℕ) → IsWidth s → split_value m p s ≡ read_int m p (s / 8)
unfolding split_value
split_value-read_int m p s (inl e) = rw e
split_value-read_int m p s (inr (inl e)) = rw e
split_value-read_int m p s (inr (inr e)) = rw e

low_bytes-width : (s d : ℕ) → IsWidth s → low_bytes (s / 8) d ≡ d % 2 ^ s
low_bytes-width s d (inl e) = rw e (omega arith)
low_bytes-width s d (inr (inl e)) = rw e (omega arith)
low_bytes-width s d (inr (inr e)) = rw e (omega arith)

-- The field that a round of the loop writes, read after the rounds that follow.
field_kept :
    (m : List ℕ) (from j s d : ℕ) (ss ds : List ℕ)
    → AreWidths (s ∷ ss)
    → layout_end j (s ∷ ss) < 2 ^ 16
    → length ds ≡ length ss
    → from + layout_end j (s ∷ ss) ≤ length m
    → split_value
        (assemble_from
          (write_int m (from + aligned s j) (s / 8) d)
          from
          (aligned s j + s / 8)
          ss
          ds).0
        (from + aligned s j)
        s
      ≡ d % 2 ^ s
field_kept m from j s d ss ds w h e k =
    split_value-read_int _ (from + aligned s j) s w.0
    ∙ read_int-agree _ (write_int m (from + aligned s j) (s / 8) d) (from + aligned s j) (s / 8)
        (λ i a b.
          get_or-assemble_from (write_int m (from + aligned s j) (s / 8) d) from
            (aligned s j + s / 8) ss ds i w.1 h e (inl (omega arith)))
    ∙ read_int-write_int m (from + aligned s j) (s / 8) d
        (omega (arith, layout_end-le (aligned s j + s / 8) ss))
    ∙ low_bytes-width s d w.0

split_from-assemble_from :
    (m : List ℕ) (from j : ℕ) (ss ds : List ℕ)
    → AreWidths ss
    → layout_end j ss < 2 ^ 16
    → length ds ≡ length ss
    → from + layout_end j ss ≤ length m
    → split_from (assemble_from m from j ss ds).0 from j ss ≡ cut_values ss ds
unfolding split_from
split_from-assemble_from m from j [] ds w h e k = refl
split_from-assemble_from m from j (s ∷ ss) [] w h e k = absurd (omega arith)
split_from-assemble_from m from j (s ∷ ss) (d ∷ ds) w h e k =
    ap (λ t. split_from t.0 from j (s ∷ ss)) (assemble_from-cons m from j s d ss ds w.0 h)
    ∙ rw (start.1, start.2)
        (ap₂ ◌∷◌ (field_kept m from j s d ss ds w h (omega arith) k) (
          split_from-assemble_from (write_int m (from + aligned s j) (s / 8) d) from
            (aligned s j + s / 8) ss ds w.1 h (omega arith)
            (omega (arith, length-write_int m (from + aligned s j) (s / 8) d))))
  where
    start :
        (assemble_start s j ≡ aligned s j)
        × (split_start s j ≡ aligned s j)
        × ((aligned s j + s / 8) % 2 ^ 16 ≡ aligned s j + s / 8)
    start = starts_agree s j w.0 (omega (arith, layout_end-le (aligned s j + s / 8) ss))

-- For fields of 8, 16 and 32 bits that fit in the packet, `SplitHeaderValues` reads back from what
-- `AssembleHeaderValues` wrote the values that it was given, each cut to its field.
pub split-assemble :
    (m : List ℕ) (from : ℕ) (ss ds : List ℕ)
    → AreWidths ss
    → layout_end 0 ss < 2 ^ 16
    → length ds ≡ length ss
    → from + layout_end 0 ss ≤ length m
    → split_header_values (assemble_header_values m from ss ds).0 from ss ≡ cut_values ss ds
unfolding split_header_values assemble_header_values
split-assemble m from ss ds w h e k = split_from-assemble_from m from 0 ss ds w h e k

split_value-agree :
    (m m' : List ℕ) (p s : ℕ)
    → ((i : ℕ) → p ≤ i → get_or m i 0 ≡ get_or m' i 0)
    → split_value m p s ≡ split_value m' p s
unfolding split_value
split_value-agree m m' p s h = ground (
  arith,
  read_int-agree m m' p 1 (λ i a b. h i a),
  read_int-agree m m' p 2 (λ i a b. h i a),
  read_int-agree m m' p 4 (λ i a b. h i a),
)

-- What `SplitHeaderValues` returns depends on the bytes from its start on only.
pub split_from-agree :
    (m m' : List ℕ) (from j : ℕ) (ss : List ℕ)
    → ((i : ℕ) → from ≤ i → get_or m i 0 ≡ get_or m' i 0)
    → split_from m from j ss ≡ split_from m' from j ss
unfolding split_from
split_from-agree m m' from j [] h = refl
split_from-agree m m' from j (s ∷ ss) h =
    ap₂ ◌∷◌ (split_value-agree m m' (from + split_start s j) s (λ i a. h i (omega arith)))
      (split_from-agree m m' from ((split_start s j + s / 8) % 2 ^ 16) ss h)
