-- ===== src/Base/Bits.antt =====
-- `&` and `|` on numbers: both act on the low k bits and on the rest separately, so masks and
-- disjoint fields become arithmetic.
use Prim.Native.Nat.{
  ℕ, zero, suc, ◌+◌, ◌-◌, ◌*◌, ◌/◌, ◌%◌, ◌^◌, ◌≤◌, ◌<◌, min, max, bit_and, bit_or, digits,
  bit_and-bitwise, bit_or-bitwise,
}
use mathlib.Core.Path.{◌≡◌, refl, ap, sym, ◌∙◌}
use native.Mathlib.Nat.{pow-suc, one-le-pow}
use native.Mathlib.Omega.{arith}

-- The digit recursion that the native operations stand for, with any fuel that is enough.
digits-fuel :
    (f : ℕ → ℕ) (g : ℕ → ℕ → ℕ) (n m a b : ℕ) → a ≤ n → a ≤ m → digits f g n a b ≡ digits f g m a b
digits-fuel f g zero zero a b p q = refl
digits-fuel f g zero (suc m) zero b p q = refl
digits-fuel f g zero (suc m) (suc a) b p q = absurd (omega arith)
digits-fuel f g (suc n) zero zero b p q = refl
digits-fuel f g (suc n) zero (suc a) b p q = absurd (omega arith)
digits-fuel f g (suc n) (suc m) zero b p q = refl
digits-fuel f g (suc n) (suc m) (suc a) b p q =
    omega (arith, digits-fuel f g n m (suc a / 2) (b / 2) (omega arith) (omega arith))

bit_and_digit : (a b : ℕ) → bit_and a b ≡ bit_and (a / 2) (b / 2) * 2 + min (a % 2) (b % 2)
bit_and_digit zero b = omega (arith, bit_and-bitwise 0 b, bit_and-bitwise 0 (b / 2))
bit_and_digit (suc a) b = omega (
  arith,
  bit_and-bitwise (suc a) b,
  bit_and-bitwise (suc a / 2) (b / 2),
  digits-fuel (λ y. 0) min a (suc a / 2) (suc a / 2) (b / 2) (omega arith) (omega arith),
)

bit_or_digit : (a b : ℕ) → bit_or a b ≡ bit_or (a / 2) (b / 2) * 2 + max (a % 2) (b % 2)
bit_or_digit zero b = omega (arith, bit_or-bitwise 0 b, bit_or-bitwise 0 (b / 2))
bit_or_digit (suc a) b = omega (
  arith,
  bit_or-bitwise (suc a) b,
  bit_or-bitwise (suc a / 2) (b / 2),
  digits-fuel (λ y. y) max a (suc a / 2) (suc a / 2) (b / 2) (omega arith) (omega arith),
)

mul-two_pow-suc : (x k : ℕ) → x * 2 ^ suc k ≡ 2 * (x * 2 ^ k)
mul-two_pow-suc x k = omega (arith, ap (λ (t : ℕ). x * t) (pow-suc 2 k))

-- The low k digits and the others do not meet.
pub bit_and_split :
    (k a b x y : ℕ)
    → a < 2 ^ k
    → b < 2 ^ k
    → bit_and (a + x * 2 ^ k) (b + y * 2 ^ k) ≡ bit_and a b + bit_and x y * 2 ^ k
bit_and_split zero zero zero x y p q = ground (arith, bit_and-bitwise 0 0)
bit_and_split zero zero (suc b) x y p q = absurd (omega arith)
bit_and_split zero (suc a) b x y p q = absurd (omega arith)
bit_and_split (suc k) a b x y p q = ground (
  arith,
  mul-two_pow-suc x k,
  mul-two_pow-suc y k,
  mul-two_pow-suc (bit_and x y) k,
  bit_and_digit (a + x * 2 ^ suc k) (b + y * 2 ^ suc k),
  bit_and_digit a b,
  pow-suc 2 k,
  bit_and_split k (a / 2) (b / 2) x y (omega (arith, pow-suc 2 k)) (omega (arith, pow-suc 2 k)),
)

pub bit_or_split :
    (k a b x y : ℕ)
    → a < 2 ^ k
    → b < 2 ^ k
    → bit_or (a + x * 2 ^ k) (b + y * 2 ^ k) ≡ bit_or a b + bit_or x y * 2 ^ k
bit_or_split zero zero zero x y p q = ground (arith, bit_or-bitwise 0 0)
bit_or_split zero zero (suc b) x y p q = absurd (omega arith)
bit_or_split zero (suc a) b x y p q = absurd (omega arith)
bit_or_split (suc k) a b x y p q = ground (
  arith,
  mul-two_pow-suc x k,
  mul-two_pow-suc y k,
  mul-two_pow-suc (bit_or x y) k,
  bit_or_digit (a + x * 2 ^ suc k) (b + y * 2 ^ suc k),
  bit_or_digit a b,
  pow-suc 2 k,
  bit_or_split k (a / 2) (b / 2) x y (omega (arith, pow-suc 2 k)) (omega (arith, pow-suc 2 k)),
)

pub bit_and-zero : (k a : ℕ) → a < 2 ^ k → bit_and a 0 ≡ 0
bit_and-zero zero zero p = refl
bit_and-zero zero (suc a) p = absurd (omega arith)
bit_and-zero (suc k) a p =
    omega (arith, bit_and_digit a 0, bit_and-zero k (a / 2) (omega (arith, pow-suc 2 k)))

pub zero-bit_and : (b : ℕ) → bit_and 0 b ≡ 0
zero-bit_and b = omega (arith, bit_and-bitwise 0 b)

pub bit_and-ones : (k a : ℕ) → a < 2 ^ k → bit_and a (2 ^ k - 1) ≡ a
bit_and-ones zero zero p = refl
bit_and-ones zero (suc a) p = absurd (omega arith)
bit_and-ones (suc k) a p = ground (
  arith,
  pow-suc 2 k,
  bit_and_digit a (2 ^ suc k - 1),
  bit_and-ones k (a / 2) (omega (arith, pow-suc 2 k)),
)

pub zero-bit_or : (b : ℕ) → bit_or 0 b ≡ b
zero-bit_or b = omega (arith, bit_or-bitwise 0 b)

pub bit_or-zero : (k a : ℕ) → a < 2 ^ k → bit_or a 0 ≡ a
bit_or-zero zero zero p = refl
bit_or-zero zero (suc a) p = absurd (omega arith)
bit_or-zero (suc k) a p =
    omega (arith, bit_or_digit a 0, bit_or-zero k (a / 2) (omega (arith, pow-suc 2 k)))

pub pow-pos : (k : ℕ) → 0 < 2 ^ k
pow-pos k = one-le-pow k 2 (omega arith)

-- A number of three parts, the low s bits, the next w and the rest.
abbrev pub parts : ℕ → ℕ → ℕ → ℕ → ℕ → ℕ
parts s w lo mid hi = lo + (mid + hi * 2 ^ w) * 2 ^ s

module _ (s w r lo mid hi : ℕ) (lo_fits : lo < 2 ^ s) (mid_fits : mid < 2 ^ w)
    (hi_fits : hi < 2 ^ r) where
  -- `& mask` keeps the field.
  pub bit_and-field : bit_and (parts s w lo mid hi) (parts s w 0 (2 ^ w - 1) 0) ≡ parts s w 0 mid 0
  bit_and-field =
      bit_and_split s lo 0 (mid + hi * 2 ^ w) (2 ^ w - 1 + 0 * 2 ^ w) lo_fits (pow-pos s)
      ∙ ground (
        arith,
        bit_and-zero s lo lo_fits,
        bit_and_split w mid (2 ^ w - 1) hi 0 mid_fits (omega (arith, pow-pos w)),
        bit_and-ones w mid mid_fits,
        bit_and-zero r hi hi_fits,
      )

  -- `& ~mask` clears it.
  pub bit_and-rest :
      bit_and (parts s w lo mid hi) (parts s w (2 ^ s - 1) 0 (2 ^ r - 1)) ≡ parts s w lo 0 hi
  bit_and-rest =
      bit_and_split s lo (2 ^ s - 1) (mid + hi * 2 ^ w) (0 + (2 ^ r - 1) * 2 ^ w) lo_fits
        (omega (arith, pow-pos s))
      ∙ ground (
        arith,
        bit_and-ones s lo lo_fits,
        bit_and_split w mid 0 hi (2 ^ r - 1) mid_fits (pow-pos w),
        bit_and-zero w mid mid_fits,
        bit_and-ones r hi hi_fits,
      )

  -- `|` with a value of the field puts it into the cleared place.
  pub bit_or-field :
      (v : ℕ) → v < 2 ^ w → bit_or (parts s w lo 0 hi) (parts s w 0 v 0) ≡ parts s w lo v hi
  bit_or-field v h =
      bit_or_split s lo 0 (0 + hi * 2 ^ w) (v + 0 * 2 ^ w) lo_fits (pow-pos s)
      ∙ ground (
        arith,
        bit_or-zero s lo lo_fits,
        bit_or_split w 0 v hi 0 (pow-pos w) h,
        zero-bit_or v,
        bit_or-zero r hi hi_fits,
      )

-- Replace, or read, the w bits at s.
abbrev pub replace : ℕ → ℕ → ℕ → ℕ → ℕ
replace s w v n = parts s w (n % 2 ^ s) (v % 2 ^ w) (n / 2 ^ s / 2 ^ w)

abbrev pub slice : ℕ → ℕ → ℕ → ℕ
slice s w n = n / 2 ^ s % 2 ^ w

module _ (s w r mask n : ℕ) where
  pub get_bits-slice :
      mask ≡ parts s w 0 (2 ^ w - 1) 0
      → n ≡ parts s w (n % 2 ^ s) (slice s w n) (n / 2 ^ s / 2 ^ w)
      → n % 2 ^ s < 2 ^ s
      → slice s w n < 2 ^ w
      → n / 2 ^ s / 2 ^ w < 2 ^ r
      → bit_and n mask ≡ slice s w n * 2 ^ s
  get_bits-slice em en lo_fits mid_fits hi_fits = rw em (
      ap (λ k. bit_and k (parts s w 0 (2 ^ w - 1) 0)) en
      ∙ bit_and-field s w r _ _ _ lo_fits mid_fits hi_fits
      ∙ omega arith)

-- A field that is cleared by `& ~mask`, given as `rest`, and put in by `|`.
module _ (s w r rest n shifted v : ℕ) where
  pub put_field-replace :
      rest ≡ parts s w (2 ^ s - 1) 0 (2 ^ r - 1)
      → n ≡ parts s w (n % 2 ^ s) (slice s w n) (n / 2 ^ s / 2 ^ w)
      → shifted ≡ parts s w 0 v 0
      → n % 2 ^ s < 2 ^ s
      → slice s w n < 2 ^ w
      → n / 2 ^ s / 2 ^ w < 2 ^ r
      → v < 2 ^ w
      → bit_or (bit_and n rest) shifted ≡ parts s w (n % 2 ^ s) v (n / 2 ^ s / 2 ^ w)
  put_field-replace er en ev lo_fits mid_fits hi_fits v_fits =
      rw (er, ev)
        (ap (λ k. bit_or (bit_and k (parts s w (2 ^ s - 1) 0 (2 ^ r - 1))) (parts s w 0 v 0)) en
          ∙ (ap (λ k. bit_or k (parts s w 0 v 0))
                (bit_and-rest s w r _ _ _ lo_fits mid_fits hi_fits)
              ∙ bit_or-field s w r _ _ _ lo_fits mid_fits hi_fits v v_fits))

-- `|` puts low bits below those that are there.
bit_or-below : (k h n : ℕ) → h < 2 ^ 64 → n < 2 ^ k → bit_or (h * 2 ^ k) n ≡ h * 2 ^ k + n
bit_or-below k h n fits low =
    ground (arith, bit_or_split k 0 n h 0 (pow-pos k) low, bit_or-zero 64 h fits, zero-bit_or n)

pub bit_or-join :
    (k x n : ℕ) → x ≡ x / 2 ^ k * 2 ^ k → x / 2 ^ k < 2 ^ 64 → n < 2 ^ k → bit_or x n ≡ x + n
bit_or-join k x n e fits low =
    ap (λ y. bit_or y n) e ∙ bit_or-below k (x / 2 ^ k) n fits low ∙ ap (λ y. y + n) (sym e)

-- `|` puts a shifted byte above the bytes that are there.
pub bit_or-above : (k n b : ℕ) → n < 2 ^ k → b < 2 ^ 8 → bit_or n (b * 2 ^ k) ≡ n + b * 2 ^ k
bit_or-above k n b low byte =
    ground (arith, bit_or_split k n 0 0 b low (pow-pos k), bit_or-zero k n low, zero-bit_or b)
