-- ===== src/Base/Map.antt =====
-- std::unordered_map as an association list. `same` is the test by which the
-- map tells keys apart; `erase` and `set` keep one entry for each key.

use mathlib.Core.Path.{◌≡◌, refl, ◌∙◌}
use mathlib.Core.Logic.{◌↔◌}
use mathlib.Core.Bool.{Bool, true}
use mathlib.Core.Option.{Option, none, some}
use mathlib.Core.List.{List, [], ◌∷◌}
use native.Mathlib.Omega.{arith}
use jay.Base.Tests.{if◌then◌else◌}

module _ {ℓ} {K : Type 0} {V : Type ℓ} (same : K → K → Bool) where
  -- map.find(k), as the value found.
  unfoldable pub find : K → List (K × V) → Option V
  find k [] = none
  find k ((j, v) ∷ m) = if same j k then some v else find k m

  -- map[k] = v.
  unfoldable pub set : K → V → List (K × V) → List (K × V)
  set k v [] = (k, v) ∷ []
  set k v ((j, w) ∷ m) = if same j k then (j, v) ∷ m else (j, w) ∷ set k v m

  -- map.erase(k).
  unfoldable pub erase : K → List (K × V) → List (K × V)
  erase k [] = []
  erase k ((j, v) ∷ m) = if same j k then erase k m else (j, v) ∷ erase k m

  -- map.try_emplace(k, v).
  unfoldable pub try_emplace : K → V → List (K × V) → List (K × V)
  unfolding find set
  try_emplace k v m = elim (find k m) [ none ↦ set k v m | some _ ↦ m ]

-- A test that tells keys apart by their value.
abbrev pub IsKeyTest : {K : Type 0} → (K → K → Bool) → Type 0
IsKeyTest {K} same = (a b : K) → (same a b ≡ true) ↔ (a ≡ b)

module _ {ℓ} {K : Type 0} {V : Type ℓ} (same : K → K → Bool) (key : IsKeyTest same) where
  pub find-set :
      (k j : K) (v : V) (m : List (K × V))
      → find same j (set same k v m) ≡ (if same k j then some v else find same j m)
  unfolding find set
  find-set k j v [] = refl
  find-set k j v ((i, w) ∷ m) = ground (arith, key k j, key i k, key i j, find-set k j v m)

  pub find-set_self : (k : K) (v : V) (m : List (K × V)) → find same k (set same k v m) ≡ some v
  find-set_self k v m = find-set k k v m ∙ rw ((key k k).1 refl) refl

  pub find-erase :
      (k j : K) (m : List (K × V))
      → find same j (erase same k m) ≡ (if same k j then none else find same j m)
  unfolding find erase
  find-erase k j [] = ground arith
  find-erase k j ((i, w) ∷ m) = ground (arith, key k j, key i k, key i j, find-erase k j m)

  pub find-try_emplace :
      (k j : K) (v : V) (m : List (K × V))
      → find same j (try_emplace same k v m) ≡ (elim (find same k m) [
        | none ↦ (if same k j then some v else find same j m)
        | some _ ↦ find same j m
      ])
  unfolding try_emplace
  find-try_emplace k j v m = ground (arith, find-set k j v m)
