-- ===== src/Base/Sets.antt =====
-- `std::set` over ordered keys, as the sorted list of its members.
use Prim.Native.Nat.{ℕ, suc, ◌+◌, ◌≤◌, ◌<◌}
use mathlib.Core.Path.{◌≡◌, refl}
use mathlib.Core.Bool.{Bool, true, false, ◌&&◌, ◌||◌, not}
use mathlib.Core.List.{List, [], ◌∷◌}
use native.Mathlib.Omega.{arith}
use tvpp_dev_base.Base.Tests.{ltb, ◌==◌, if◌then◌else◌}
use tvpp_dev_base.Base.Lists.{length}

abbrev pub contains : ℕ → List ℕ → Bool
contains k [] = false
contains k (j ∷ s) = k == j || contains k s

unfoldable pub insert : ℕ → List ℕ → List ℕ
insert k [] = k ∷ []
insert k (j ∷ s) =
    let rest = insert k s in if k == j then j ∷ s else if ltb k j then k ∷ j ∷ s else j ∷ rest

unfoldable pub erase : ℕ → List ℕ → List ℕ
erase k [] = []
erase k (j ∷ s) = if k == j then s else j ∷ erase k s

unfoldable pub union : List ℕ → List ℕ → List ℕ
union s [] = s
union s (k ∷ t) = union (insert k s) t

-- Equality of two sets, and so of their sorted lists.
unfoldable pub eq_set : List ℕ → List ℕ → Bool
eq_set [] [] = true
eq_set [] (k ∷ t) = false
eq_set (j ∷ s) [] = false
eq_set (j ∷ s) (k ∷ t) = j == k && eq_set s t

-- The members ascend, from a bound on.
abbrev pub Above : ℕ → List ℕ → Type 0
Above b [] = Unit {0}
Above b (j ∷ s) = (b ≤ j) × Above (suc j) s

abbrev pub IsSorted : List ℕ → Type 0
IsSorted s = Above 0 s

pub eq_set_refl : (s : List ℕ) → eq_set s s ≡ true
unfolding eq_set
eq_set_refl [] = refl
eq_set_refl (j ∷ s) = ground (arith, eq_set_refl s)

pub Above-mono : (a b : ℕ) (s : List ℕ) → a ≤ b → Above b s → Above a s
Above-mono a b [] h o = tt
Above-mono a b (j ∷ s) h o = (omega arith, o.1)

pub contains-below : (k b : ℕ) (s : List ℕ) → Above b s → k < b → contains k s ≡ false
contains-below k b [] o h = refl
contains-below k b (j ∷ s) o h = ground (arith, contains-below k (suc j) s o.1)

pub contains-insert : (k j : ℕ) (s : List ℕ) → contains j (insert k s) ≡ (j == k || contains j s)
unfolding insert
contains-insert k j [] = refl
contains-insert k j (i ∷ s) = ground (arith, contains-insert k j s)

pub length-insert : (k : ℕ) (s : List ℕ) → length (insert k s) ≤ length s + 1
unfolding insert
length-insert k [] = omega arith
length-insert k (j ∷ s) = ground (arith, length-insert k s)

pub length-erase : (k : ℕ) (s : List ℕ) → contains k s ≡ true → length (erase k s) + 1 ≡ length s
unfolding erase
length-erase k [] h = ground arith
length-erase k (j ∷ s) h = ground (arith, length-erase k s)

pub length-erase-le : (k : ℕ) (s : List ℕ) → length (erase k s) ≤ length s
unfolding erase
length-erase-le k [] = omega arith
length-erase-le k (j ∷ s) = ground (arith, length-erase-le k s)

pub insert-Above : (k b : ℕ) (s : List ℕ) → b ≤ k → Above b s → Above b (insert k s)
unfolding insert
insert-Above k b [] h o = (h, tt)
insert-Above k b (j ∷ s) h o = ground (arith, insert-Above k (suc j) s)

pub erase-Above : (k b : ℕ) (s : List ℕ) → Above b s → Above b (erase k s)
unfolding erase
erase-Above k b [] o = tt
erase-Above k b (j ∷ s) o = ground (arith, erase-Above k (suc j) s o.1, Above-mono b (suc j) s)

pub contains-erase :
    (k j b : ℕ) (s : List ℕ) → Above b s → contains j (erase k s) ≡ (not (j == k) && contains j s)
unfolding erase
contains-erase k j b [] o = ground arith
contains-erase k j b (i ∷ s) o =
    ground (arith, contains-erase k j (suc i) s o.1, contains-below k (suc i) s o.1)

pub union-Above : (b : ℕ) (s t : List ℕ) → Above b s → Above b t → Above b (union s t)
unfolding union
union-Above b s [] o p = o
union-Above b s (k ∷ t) o p =
    union-Above b (insert k s) t (insert-Above k b s p.0 o)
      (Above-mono b (suc k) t (omega arith) p.1)

pub contains-union :
    (k : ℕ) (s t : List ℕ) → contains k (union s t) ≡ (contains k s || contains k t)
unfolding union
contains-union k s [] = ground arith
contains-union k s (j ∷ t) = ground (arith, contains-union k (insert j s) t, contains-insert j k s)
