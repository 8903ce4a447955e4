-- ===== src/Message/Layout.antt =====
-- Where the fields of a header lie, for the field widths that the program uses, and what the loop of
-- `AssembleHeaderValues` leaves alone.
use tvpp_dev_base.Base.{
  ℕ, ◌+◌, ◌/◌, ◌%◌, ◌^◌, ◌≤◌, ◌<◌, ◌≡◌, refl, ◌∙◌, ◌⊎◌, List, [], ◌∷◌, arith, length, get_or, ◌==◌,
  if◌then◌else◌,
}
use tvpp_dev_base.Message.{write_int, split_start, assemble_start, assemble_from}
use tvpp_dev_base.Message.Memory.{length-write_int, get_or-write_int}

abbrev pub IsWidth : ℕ → Type 0
IsWidth s = (s ≡ 8) ⊎ ((s ≡ 16) ⊎ (s ≡ 32))

-- The sizes that the `switch` of `SplitHeaderValues` knows.
abbrev pub AreWidths : List ℕ → Type 0
AreWidths [] = Unit {0}
AreWidths (s ∷ ss) = IsWidth s × AreWidths ss

-- Where a field of `s` bits starts, at or after the offset `j`, in unbounded numbers.
abbrev pub aligned : ℕ → ℕ → ℕ
aligned s j = if s == 8 then j else if j % 2 == 0 then j else j + 1

-- The offset after the fields.
abbrev pub layout_end : ℕ → List ℕ → ℕ
layout_end j [] = j
layout_end j (s ∷ ss) = layout_end (aligned s j + s / 8) ss

-- The values as their fields hold them.
abbrev pub cut_values : List ℕ → List ℕ → List ℕ
cut_values [] ds = []
cut_values (s ∷ ss) [] = 0 ∷ cut_values ss []
cut_values (s ∷ ss) (d ∷ ds) = d % 2 ^ s ∷ cut_values ss ds

pub aligned-le : (s j : ℕ) → j ≤ aligned s j
aligned-le s j = ground arith

pub layout_end-le : (j : ℕ) (ss : List ℕ) → j ≤ layout_end j ss
layout_end-le j [] = omega arith
layout_end-le j (s ∷ ss) = omega (arith, aligned-le s j, layout_end-le (aligned s j + s / 8) ss)

-- The iterators of the two loops, as long as they do not wrap.
pub starts_agree :
    (s j : ℕ)
    → IsWidth s
    → aligned s j + s / 8 < 2 ^ 16
    → (assemble_start s j ≡ aligned s j)
      × (split_start s j ≡ aligned s j)
      × ((aligned s j + s / 8) % 2 ^ 16 ≡ aligned s j + s / 8)
unfolding assemble_start split_start
starts_agree s j w h = ground arith

-- The loop in unbounded numbers.
pub assemble_from-cons :
    (m : List ℕ) (from j s d : ℕ) (ss ds : List ℕ)
    → IsWidth s
    → layout_end j (s ∷ ss) < 2 ^ 16
    → assemble_from m from j (s ∷ ss) (d ∷ ds)
      ≡ assemble_from (write_int m (from + aligned s j) (s / 8) d) from (aligned s j + s / 8) ss ds
unfolding assemble_from
assemble_from-cons m from j s d ss ds w h = rw (e.0, e.2)
  where
    e :
        (assemble_start s j ≡ aligned s j)
        × (split_start s j ≡ aligned s j)
        × ((aligned s j + s / 8) % 2 ^ 16 ≡ aligned s j + s / 8)
    e = starts_agree s j w (omega (arith, layout_end-le (aligned s j + s / 8) ss))

pub length-assemble_from :
    (m : List ℕ) (from j : ℕ) (ss ds : List ℕ) → length (assemble_from m from j ss ds).0 ≡ length m
unfolding assemble_from
length-assemble_from m from j [] ds = refl
length-assemble_from m from j (s ∷ ss) [] =
    length-assemble_from (write_int m (from + assemble_start s j) (s / 8) 0) from _ ss []
    ∙ length-write_int m _ (s / 8) 0
length-assemble_from m from j (s ∷ ss) (d ∷ ds) =
    length-assemble_from (write_int m (from + assemble_start s j) (s / 8) d) from _ ss ds
    ∙ length-write_int m _ (s / 8) d

-- Where the loop ends, and which bytes it leaves as they were.
pub assemble_from-end :
    (m : List ℕ) (from j : ℕ) (ss ds : List ℕ)
    → AreWidths ss
    → layout_end j ss < 2 ^ 16
    → length ds ≡ length ss
    → (assemble_from m from j ss ds).1 ≡ layout_end j ss
unfolding assemble_from
assemble_from-end m from j [] ds w h e = refl
assemble_from-end m from j (s ∷ ss) [] w h e = absurd (omega arith)
assemble_from-end m from j (s ∷ ss) (d ∷ ds) w h e =
    rw (assemble_from-cons m from j s d ss ds w.0 h) (
      assemble_from-end (write_int m (from + aligned s j) (s / 8) d) from (aligned s j + s / 8) ss
        ds w.1 h (omega arith))

pub get_or-assemble_from :
    (m : List ℕ) (from j : ℕ) (ss ds : List ℕ) (i : ℕ)
    → AreWidths ss
    → layout_end j ss < 2 ^ 16
    → length ds ≡ length ss
    → (i < from + j) ⊎ (from + layout_end j ss ≤ i)
    → get_or (assemble_from m from j ss ds).0 i 0 ≡ get_or m i 0
unfolding assemble_from
get_or-assemble_from m from j [] ds i w h e o = refl
get_or-assemble_from m from j (s ∷ ss) [] i w h e o = absurd (omega arith)
get_or-assemble_from m from j (s ∷ ss) (d ∷ ds) i w h e o =
    rw (assemble_from-cons m from j s d ss ds w.0 h) (
      get_or-assemble_from (write_int m (from + aligned s j) (s / 8) d) from (aligned s j + s / 8)
        ss ds i w.1 h (omega arith) (omega (arith, aligned-le s j))
      ∙ get_or-write_int m (from + aligned s j) (s / 8) d i
          (omega (arith, aligned-le s j, layout_end-le (aligned s j + s / 8) ss)))
