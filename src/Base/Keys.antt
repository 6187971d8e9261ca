-- ===== src/Base/Keys.antt =====
-- Maps whose keys are distinct, and how many entries they have.
use Prim.Native.Nat.{ℕ, zero, suc, ◌≤◌, ◌<◌}
use mathlib.Core.Path.{◌≡◌, refl}
use mathlib.Core.Logic.{◌≢◌, inl, inr}
use mathlib.Core.Bool.{Bool}
use mathlib.Core.Option.{none}
use mathlib.Core.List.{List, [], ◌∷◌}
use native.Mathlib.Omega.{arith}
use native.Mathlib.Decide.{ℕ_discrete}
use jay.Base.Tests.{Bool-cases}
use jay.Base.Lists.{length}
use jay.Base.Map.{find, set, erase, IsKeyTest, find-set, find-erase}

module _ {ℓ} {V : Type ℓ} (same : ℕ → ℕ → Bool) where
  abbrev pub IsDistinct : List (ℕ × V) → Type ℓ
  IsDistinct [] = Unit
  IsDistinct ((k, v) ∷ m) = (find same k m ≡ none) × IsDistinct m

module _ {ℓ} {V : Type ℓ} (same : ℕ → ℕ → Bool) (key : IsKeyTest same) where
  pub set-IsDistinct :
      (k : ℕ) (v : V) (m : List (ℕ × V)) → IsDistinct same m → IsDistinct same (set same k v m)
  unfolding set find
  set-IsDistinct k v [] d = (refl, tt)
  set-IsDistinct k v ((j, w) ∷ m) d =
      ground (arith, key j k, key k j, find-set same key k j v m, set-IsDistinct k v m d.1)

  pub erase-IsDistinct :
      (k : ℕ) (m : List (ℕ × V)) → IsDistinct same m → IsDistinct same (erase same k m)
  unfolding erase
  erase-IsDistinct k [] d = tt
  erase-IsDistinct k ((j, w) ∷ m) d =
      ground (arith, find-erase same key k j m, erase-IsDistinct k m d.1)

  length-erase-none : (k : ℕ) (m : List (ℕ × V)) → find same k m ≡ none → erase same k m ≡ m
  unfolding erase find
  length-erase-none k [] h = refl
  length-erase-none k ((j, v) ∷ m) h = ground (arith, length-erase-none k m)

  -- Erasing takes one entry away.
  length-erase :
      (k : ℕ) (m : List (ℕ × V)) → IsDistinct same m → length m ≤ suc (length (erase same k m))
  unfolding erase
  length-erase k [] d = omega arith
  length-erase k ((j, v) ∷ m) d =
      ground (arith, key j k, length-erase-none k m, length-erase k m d.1)

  length-erase-le : (k : ℕ) (m : List (ℕ × V)) → length (erase same k m) ≤ length m
  unfolding erase
  length-erase-le k [] = omega arith
  length-erase-le k ((j, v) ∷ m) = ground (arith, length-erase-le k m)

  erase_shorter :
      (k : ℕ) (m : List (ℕ × V)) → find same k m ≢ none → length (erase same k m) < length m
  unfolding erase find
  erase_shorter k [] h = absurd (h refl)
  erase_shorter k ((j, v) ∷ m) h = elim (Bool-cases (same j k)) [
    | inl hit ↦ rw hit (omega (arith, length-erase-le k m))
    | inr miss ↦ rw miss (omega (arith, erase_shorter k m (rw miss at h)))
  ]

  erase-below :
      (n : ℕ) (m : List (ℕ × V))
      → ((k : ℕ) → find same k m ≢ none → k < suc n)
      → (k : ℕ) → find same k (erase same n m) ≢ none
      → k < n
  erase-below n m below k h = ground (arith, below k, find-erase same key n k m, key n k)

  find-head : (j : ℕ) (v : V) (m : List (ℕ × V)) → find same j ((j, v) ∷ m) ≢ none
  unfolding find
  find-head j v m h = ground (arith, key j j)

  -- Distinct keys below n are at most n.
  length-le-bound :
      (n : ℕ) (m : List (ℕ × V))
      → IsDistinct same m
      → ((k : ℕ) → find same k m ≢ none → k < n)
      → length m ≤ n
  length-le-bound zero [] d below = omega arith
  length-le-bound zero ((j, v) ∷ m) d below = absurd (omega (arith, below j (find-head j v m)))
  length-le-bound (suc n) m d below = omega (
    arith,
    length-erase n m d,
    length-le-bound n (erase same n m) (erase-IsDistinct n m d) (erase-below n m below),
  )

  -- They are fewer if one number below n is no key.
  pub length-lt-bound :
      (n : ℕ) (m : List (ℕ × V)) (a : ℕ)
      → IsDistinct same m
      → ((k : ℕ) → find same k m ≢ none → k < n)
      → a < n
      → find same a m ≡ none
      → length m < n
  length-lt-bound zero m a d below h free = absurd (omega arith)
  length-lt-bound (suc n) m a d below h free = elim (ℕ_discrete a n) [
    | yes last ↦ ground (
      arith,
      length-erase-none n m,
      length-le-bound n (erase same n m) (erase-IsDistinct n m d) (erase-below n m below),
    )
    | no other ↦ omega (
      arith,
      length-erase n m d,
      length-lt-bound n (erase same n m) a (erase-IsDistinct n m d) (erase-below n m below)
          (omega arith) (ground (arith, find-erase same key n a m)),
    )
  ]

  -- If all numbers below n are keys, there are at least n.
  pub le-length :
      (n : ℕ) (m : List (ℕ × V)) → ((k : ℕ) → k < n → find same k m ≢ none) → n ≤ length m
  le-length zero m all = omega arith
  le-length (suc n) m all = omega (
    arith,
    erase_shorter n m (all n (omega arith)),
    le-length n (erase same n m)
        (λ k h e. all k (omega arith) (ground (arith, find-erase same key n k m, key n k))),
  )
