-- ===== src/Prelude/Maps.antt =====
-- Go maps as association lists, over a type of keys whose equality is decided.
use dimsum.Prelude.Tests.{Bool-cases, if◌then◌else◌}
use mathlib.Core.Path.{◌≡◌, refl}
use mathlib.Core.Logic.{◌↔◌, inl, inr}
use mathlib.Core.Bool.{Bool, true, false}
use mathlib.Core.List.{List, [], ◌∷◌, ◌++◌}
use mathlib.Core.Option.{Option, none, some}
use native.Mathlib.Omega.{arith}

pub record Key (K : Type 0) : Type 0 where
  pub same : K → K → Bool
  pub same_iff : (a b : K) → (same a b ≡ true) ↔ (a ≡ b)

module _ {K : Type 0} ⦃key : Key K⦄ where
  pub same_self : (k : K) → key.same k k ≡ true
  same_self k = (key.same_iff k k).1 refl

module _ {K V : Type 0} ⦃key : Key K⦄ where
  -- m[k], with `none` for a missing key
  unfoldable pub find : K → List (K × V) → Option V
  find k [] = none
  find k ((j, v) ∷ m) = if key.same j k then some v else find k m

  -- m[k] = v
  unfoldable pub insert : K → V → List (K × V) → List (K × V)
  insert k v [] = (k, v) ∷ []
  insert k v ((j, w) ∷ m) = if key.same j k then (k, v) ∷ m else (j, w) ∷ insert k v m

  -- delete(m, k)
  unfoldable pub delete : K → List (K × V) → List (K × V)
  delete k [] = []
  delete k ((j, w) ∷ m) = if key.same j k then delete k m else (j, w) ∷ delete k m

  -- _, ok := m[k]
  unfoldable pub has : K → List (K × V) → Bool
  has k [] = false
  has k ((j, v) ∷ m) = if key.same j k then true else has k m

  pub find-insert :
      (k j : K) (v : V) (m : List (K × V))
      → find j (insert k v m) ≡ (if key.same k j then some v else find j m)
  unfolding find insert
  find-insert k j v [] = refl
  find-insert k j v ((i, w) ∷ m) =
      ground (arith, key.same_iff k j, key.same_iff i k, key.same_iff i j, find-insert k j v m)

  pub find-delete :
      (k j : K) (m : List (K × V)) → find j (delete k m) ≡ (if key.same k j then none else find j m)
  unfolding find delete
  find-delete k j [] = ground arith
  find-delete k j ((i, w) ∷ m) =
      ground (arith, key.same_iff k j, key.same_iff i k, key.same_iff i j, find-delete k j m)

  pub find-insert_self : (k : K) (v : V) (m : List (K × V)) → find k (insert k v m) ≡ some v
  find-insert_self k v m = ground (arith, find-insert k k v m, same_self k)

-- No key is listed twice.
module _ {K V : Type 0} ⦃key : Key K⦄ where
  abbrev pub IsMap : List (K × V) → Type 0
  IsMap [] = Unit
  IsMap ((k, v) ∷ m) = (find k m ≡ none) × IsMap m

  pub insert-IsMap : (k : K) (v : V) (m : List (K × V)) → IsMap m → IsMap (insert k v m)
  unfolding insert find
  insert-IsMap k v [] h = (refl, tt)
  insert-IsMap k v ((j, w) ∷ m) h =
      ground
        (arith, key.same_iff j k, key.same_iff k j, find-insert k j v m, insert-IsMap k v m h.1)

  pub delete-IsMap : (k : K) (m : List (K × V)) → IsMap m → IsMap (delete k m)
  unfolding delete
  delete-IsMap k [] h = tt
  delete-IsMap k ((j, w) ∷ m) h = ground (arith, find-delete k j m, delete-IsMap k m h.1)

  -- What is listed is found.
  pub find-mem :
      (pre : List (K × V)) (k : K) (v : V) (m : List (K × V))
      → IsMap (pre ++ ((k, v) ∷ m))
      → find k (pre ++ ((k, v) ∷ m)) ≡ some v
  unfolding find
  find-mem [] k v m h = ground (arith, same_self k)
  find-mem ((j, w) ∷ pre) k v m h = elim (Bool-cases (key.same j k)) [
    | inr other ↦ ground (arith, find-mem pre k v m h.1)
    | inl same ↦ absurd (ground (arith, key.same_iff j k, find-mem pre k v m h.1))
  ]

-- A Go set, map[K]bool, as a list.
module _ {K : Type 0} ⦃key : Key K⦄ where
  unfoldable pub contains : K → List K → Bool
  contains k [] = false
  contains k (j ∷ m) = if key.same j k then true else contains k m
