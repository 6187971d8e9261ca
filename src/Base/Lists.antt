-- ===== src/Base/Lists.antt =====
-- Lists measured and indexed by native numbers, under the library's names.
use Prim.Native.Nat.{ℕ, zero, suc, ◌+◌, ◌<◌}
use mathlib.Core.Path.{◌≡◌, refl}
use mathlib.Core.List.{List, [], ◌∷◌, ◌++◌}
use mathlib.Core.Option.{Option, none, some, some-injective}
use native.Mathlib.Omega.{arith}

module _ {ℓ} {A : Type ℓ} where
  abbrev pub length : List A → ℕ
  length [] = 0
  length (x ∷ xs) = suc (length xs)

  pub length-append : (xs ys : List A) → length (xs ++ ys) ≡ length xs + length ys
  length-append [] ys = omega arith
  length-append (x ∷ xs) ys = omega (arith, length-append xs ys)

module _ {ℓ} {A : Type ℓ} where
  abbrev pub get_elem? : List A → ℕ → Option A
  get_elem? [] i = none
  get_elem? (x ∷ xs) zero = some x
  get_elem? (x ∷ xs) (suc i) = get_elem? xs i

  abbrev pub take : ℕ → List A → List A
  take zero xs = []
  take (suc n) [] = []
  take (suc n) (x ∷ xs) = x ∷ take n xs

  -- The elements from an index on, as many as there is room for, are replaced.
  abbrev pub overwrite : ℕ → List A → List A → List A
  overwrite i new [] = []
  overwrite zero [] (x ∷ xs) = x ∷ xs
  overwrite zero (y ∷ ys) (x ∷ xs) = y ∷ overwrite zero ys xs
  overwrite (suc i) new (x ∷ xs) = x ∷ overwrite i new xs

  pub length-overwrite : (i : ℕ) (new xs : List A) → length (overwrite i new xs) ≡ length xs
  length-overwrite i new [] = refl
  length-overwrite zero [] (x ∷ xs) = refl
  length-overwrite zero (y ∷ ys) (x ∷ xs) = omega (arith, length-overwrite zero ys xs)
  length-overwrite (suc i) new (x ∷ xs) = omega (arith, length-overwrite i new xs)

  pub get_elem?-overwrite_below :
      (i j : ℕ) (new xs : List A) → j < i → get_elem? (overwrite i new xs) j ≡ get_elem? xs j
  get_elem?-overwrite_below i j new [] h = refl
  get_elem?-overwrite_below zero j new (x ∷ xs) h = absurd (omega arith)
  get_elem?-overwrite_below (suc i) zero new (x ∷ xs) h = refl
  get_elem?-overwrite_below (suc i) (suc j) new (x ∷ xs) h =
      get_elem?-overwrite_below i j new xs (omega arith)

  pub get_elem?-overwrite_inside :
      (i j d : ℕ) (new xs : List A)
      → j ≡ i + d
      → d < length new
      → j < length xs
      → get_elem? (overwrite i new xs) j ≡ get_elem? new d
  get_elem?-overwrite_inside i j d new [] e h k = absurd (omega arith)
  get_elem?-overwrite_inside zero j d [] (x ∷ xs) e h k = absurd (omega arith)
  get_elem?-overwrite_inside zero zero zero (y ∷ ys) (x ∷ xs) e h k = refl
  get_elem?-overwrite_inside zero zero (suc d) (y ∷ ys) (x ∷ xs) e h k = absurd (omega arith)
  get_elem?-overwrite_inside zero (suc j) zero (y ∷ ys) (x ∷ xs) e h k = absurd (omega arith)
  get_elem?-overwrite_inside zero (suc j) (suc d) (y ∷ ys) (x ∷ xs) e h k =
      get_elem?-overwrite_inside zero j d ys xs (omega arith) (omega arith) (omega arith)
  get_elem?-overwrite_inside (suc i) zero d new (x ∷ xs) e h k = absurd (omega arith)
  get_elem?-overwrite_inside (suc i) (suc j) d new (x ∷ xs) e h k =
      get_elem?-overwrite_inside i j d new xs (omega arith) h (omega arith)

  -- Lists of one length with the same elements are equal.
  pub get_elem?-ext :
      (xs ys : List A)
      → length xs ≡ length ys
      → ((j : ℕ) → j < length ys → get_elem? xs j ≡ get_elem? ys j)
      → xs ≡ ys
  get_elem?-ext [] [] e same = refl
  get_elem?-ext [] (y ∷ ys) e same = absurd (omega arith)
  get_elem?-ext (x ∷ xs) [] e same = absurd (omega arith)
  get_elem?-ext (x ∷ xs) (y ∷ ys) e same = cc (
    some-injective x y (same 0 (omega arith)),
    get_elem?-ext xs ys (omega arith) (λ j h. same (suc j) (omega arith)),
  )
