-- ===== src/Base/Text.antt =====
-- Text that the code writes to a std::stringstream, as the list of its bytes, and a reader of it.
use Prim.Native.Char.{code}
use Prim.Native.String.{String}
use mathlib.Core.Logic.{inl, inr}
use jay.Base.Tests.{Bool-cases, leb, ltb, ◌==◌, if◌then◌else◌}
use Prim.Native.Nat.{ℕ, zero, suc, ◌+◌, ◌-◌, ◌*◌, ◌/◌, ◌%◌, ◌^◌, ◌<◌}
use mathlib.Core.Path.{◌≡◌, refl, ap, ◌∙◌}
use mathlib.Core.Bool.{false}
use mathlib.Core.List.{List, [], ◌∷◌, ◌++◌, append_assoc}
use native.Mathlib.Omega.{arith}

abbrev pub Text : Type 0
Text = List ℕ

-- The bytes of a literal, which is ASCII.
abbrev pub codes : String → Text
codes String.[] = []
codes (String.◌∷◌ c s) = code c ∷ codes s

abbrev digit : ℕ → ℕ
digit v = if ltb v 10 then b'0' + v else b'a' + (v - 10)

-- A number of at most `more` digits and one.
unfoldable hex_digits : ℕ → ℕ → Text
hex_digits zero n = digit n ∷ []
hex_digits (suc more) n =
    let high = hex_digits more (n / 16) in
    if ltb n 16 then digit n ∷ [] else high ++ digit (n % 16) ∷ []

-- `ss << std::hex << n` for an unsigned number of 32 bits.
unfoldable pub hex : ℕ → Text
unfolding hex_digits
hex n = hex_digits 7 n

-- What the digit says.
abbrev digit_value : ℕ → ℕ
digit_value x = if leb x b'9' then x - b'0' else x - b'a' + 10

-- A reader of hexadecimal numbers, each with a ' behind it; n is the number that was read so far.
unfoldable pub read_numbers : ℕ → Text → List ℕ
read_numbers n [] = []
read_numbers n (x ∷ xs) =
    let next = read_numbers 0 xs in
    let more = read_numbers (n * 16 + digit_value x) xs in if x == b'\'' then n ∷ next else more

-- A reader of a number with a : behind it, and of the numbers after it.
unfoldable pub read_record : ℕ → Text → ℕ × List ℕ
unfolding read_numbers
read_record n [] = (n, [])
read_record n (x ∷ xs) =
    let more = read_record (n * 16 + digit_value x) xs in
    if x == b':' then (n, read_numbers 0 xs) else more

abbrev limit : ℕ → ℕ
limit zero = 16
limit (suc more) = limit more * 16

digit_value-digit :
    (n v : ℕ)
    → v < 16
    → (digit_value (digit v) ≡ v) × ((digit v == b'\'') ≡ false) × ((digit v == b':') ≡ false)
digit_value-digit n v h = ground arith

-- A digit is read into the number.
read_numbers-digit :
    (n v : ℕ) (xs : Text) → v < 16 → read_numbers n (digit v ∷ xs) ≡ read_numbers (n * 16 + v) xs
unfolding read_numbers
read_numbers-digit n v xs h =
    let (says, quote, _) = digit_value-digit n v h in rw (quote, says) refl

read_record-digit :
    (n v : ℕ) (xs : Text) → v < 16 → read_record n (digit v ∷ xs) ≡ read_record (n * 16 + v) xs
unfolding read_record
read_record-digit n v xs h = let (says, _, colon) = digit_value-digit n v h in rw (colon, says) refl

-- A reader that takes digits takes a whole number.
module _ {ℓ} {A : Type ℓ} (reader : ℕ → Text → A)
    (takes : (n v : ℕ) (xs : Text)
      → v < 16
      → reader n (digit v ∷ xs) ≡ reader (n * 16 + v) xs) where
  reads-one : (n : ℕ) (xs : Text) → n < 16 → reader 0 (digit n ∷ xs) ≡ reader n xs
  reads-one n xs h = takes 0 n xs h ∙ ap (λ k. reader k xs) (omega arith)

  reads-hex_digits :
      (more n : ℕ) (xs : Text) → n < limit more → reader 0 (hex_digits more n ++ xs) ≡ reader n xs
  unfolding hex_digits
  reads-hex_digits zero n xs h = reads-one n xs h
  reads-hex_digits (suc more) n xs h = elim (Bool-cases (ltb n 16)) [
    | inl short ↦ rw short (reads-one n xs (ground arith))
    | inr long ↦
        let high = hex_digits more (n / 16) in
        rw long (
          ap (reader 0) (append_assoc high (digit (n % 16) ∷ []) xs)
          ∙ reads-hex_digits more (n / 16) (digit (n % 16) ∷ xs) (omega arith)
          ∙ takes (n / 16) (n % 16) xs (omega arith)
          ∙ ap (λ k. reader k xs) (omega arith))
  ]

read_numbers-hex :
    (n : ℕ) (xs : Text) → n < 2 ^ 32 → read_numbers 0 (hex n ++ xs) ≡ read_numbers n xs
unfolding hex
read_numbers-hex n xs h = reads-hex_digits read_numbers read_numbers-digit 7 n xs h

read_record-hex : (n : ℕ) (xs : Text) → n < 2 ^ 32 → read_record 0 (hex n ++ xs) ≡ read_record n xs
unfolding hex
read_record-hex n xs h = reads-hex_digits read_record read_record-digit 7 n xs h

-- Each byte as a hexadecimal number, with a ' behind it.
unfoldable pub write_bytes : List ℕ → Text
unfolding hex
write_bytes [] = []
write_bytes (b ∷ bs) = hex b ++ b'\'' ∷ write_bytes bs

abbrev pub AreBytes : List ℕ → Type 0
AreBytes [] = Unit
AreBytes (b ∷ bs) = (b < 2 ^ 8) × AreBytes bs

read_numbers-write_bytes : (bs : List ℕ) → AreBytes bs → read_numbers 0 (write_bytes bs) ≡ bs
unfolding write_bytes read_numbers
read_numbers-write_bytes [] fits = refl
read_numbers-write_bytes (b ∷ bs) (h, fits) =
    read_numbers-hex b (b'\'' ∷ write_bytes bs) (omega arith)
    ∙ ap (λ ns. b ∷ ns) (read_numbers-write_bytes bs fits)

-- What is written is read back.
pub read_record-write_bytes :
    (n : ℕ) (bs : List ℕ)
    → n < 2 ^ 32
    → AreBytes bs
    → read_record 0 (hex n ++ b':' ∷ write_bytes bs) ≡ (n, bs)
unfolding read_record
read_record-write_bytes n bs h fits =
    read_record-hex n (b':' ∷ write_bytes bs) h
    ∙ ap (λ ns. (n, ns)) (read_numbers-write_bytes bs fits)
