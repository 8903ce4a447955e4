-- ===== src/Base/Maps.antt =====
-- `std::map` over ordered keys, as the list of its entries in the order of the keys.
use Prim.Native.Nat.{ℕ, suc}
use mathlib.Core.Path.{◌≡◌, refl, ◌∙◌}
use mathlib.Core.Bool.{false}
use mathlib.Core.Option.{Option, none, some}
use mathlib.Core.List.{List, [], ◌∷◌}
use native.Mathlib.Omega.{arith}
use tvpp_dev_base.Base.Tests.{ltb, ◌==◌, if◌then◌else◌}
use tvpp_dev_base.Base.Sets.{contains, insert, erase, Above, IsSorted, contains-below, erase-Above}

module _ {V : Type 0} where
  abbrev pub keys : List (ℕ × V) → List ℕ
  keys [] = []
  keys (e ∷ m) = e.0 ∷ keys m

  abbrev pub find : List (ℕ × V) → ℕ → Option V
  find [] k = none
  find (e ∷ m) k = if k == e.0 then some e.1 else find m k

  -- `m[k] = v`
  unfoldable pub assign : List (ℕ × V) → ℕ → V → List (ℕ × V)
  assign [] k v = (k, v) ∷ []
  assign (e ∷ m) k v =
      let rest = assign m k v in
      if k == e.0 then (k, v) ∷ m else if ltb k e.0 then (k, v) ∷ e ∷ m else e ∷ rest

  -- `m.erase(k)`
  unfoldable pub erase_entry : List (ℕ × V) → ℕ → List (ℕ × V)
  erase_entry [] k = []
  erase_entry (e ∷ m) k = if k == e.0 then m else e ∷ erase_entry m k

  pub keys-assign : (m : List (ℕ × V)) (k : ℕ) (v : V) → keys (assign m k v) ≡ insert k (keys m)
  unfolding assign insert
  keys-assign [] k v = refl
  keys-assign (e ∷ m) k v = ground (arith, keys-assign m k v)

  pub keys-erase_entry : (m : List (ℕ × V)) (k : ℕ) → keys (erase_entry m k) ≡ erase k (keys m)
  unfolding erase_entry erase
  keys-erase_entry [] k = refl
  keys-erase_entry (e ∷ m) k = ground (arith, keys-erase_entry m k)

  pub find-missing : (m : List (ℕ × V)) (k : ℕ) → contains k (keys m) ≡ false → find m k ≡ none
  find-missing [] k h = refl
  find-missing (e ∷ m) k h = ground (arith, find-missing m k)

  pub find-assign :
      (m : List (ℕ × V)) (k j : ℕ) (v : V)
      → find (assign m k v) j ≡ (if j == k then some v else find m j)
  unfolding assign
  find-assign [] k j v = ground arith
  find-assign (e ∷ m) k j v = ground (arith, find-assign m k j v)

  find-erase_from :
      (b : ℕ) (m : List (ℕ × V)) (k j : ℕ)
      → Above b (keys m)
      → find (erase_entry m k) j ≡ (if j == k then none else find m j)
  unfolding erase_entry
  find-erase_from b [] k j o = ground arith
  find-erase_from b (e ∷ m) k j o = ground (
    arith,
    find-erase_from (suc e.0) m k j o.1,
    find-missing m k,
    contains-below k (suc e.0) (keys m) o.1,
  )

  pub find-erase_entry :
      (m : List (ℕ × V)) (k j : ℕ)
      → IsSorted (keys m)
      → find (erase_entry m k) j ≡ (if j == k then none else find m j)
  find-erase_entry m k j o = find-erase_from 0 m k j o

  -- An erasure for each of a vector's keys.
  unfoldable pub erase_each : List (ℕ × V) → List ℕ → List (ℕ × V)
  erase_each m [] = m
  erase_each m (k ∷ ks) = erase_each (erase_entry m k) ks

  pub erase_each-IsSorted :
      (ks : List ℕ) (m : List (ℕ × V)) → IsSorted (keys m) → IsSorted (keys (erase_each m ks))
  unfolding erase_each
  erase_each-IsSorted [] m o = o
  erase_each-IsSorted (k ∷ ks) m o =
      erase_each-IsSorted ks (erase_entry m k)
        (rw (keys-erase_entry m k) (erase-Above k 0 (keys m) o))

  pub find-erase_each :
      (ks : List ℕ) (m : List (ℕ × V)) (k : ℕ)
      → IsSorted (keys m)
      → find (erase_each m ks) k ≡ (if contains k ks then none else find m k)
  unfolding erase_each
  find-erase_each [] m k o = refl
  find-erase_each (j ∷ ks) m k o =
      find-erase_each ks (erase_entry m j) k
        (rw (keys-erase_entry m j) (erase-Above j 0 (keys m) o))
      ∙ ground (arith, find-erase_entry m j k o)
