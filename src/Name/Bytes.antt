-- ===== src/Name/Bytes.antt =====
-- The bytes of a NAME in a frame's payload, include/jay/name.hpp.
use Prim.Native.Nat.{bit_or}
use native.Mathlib.Nat.{mod-eq_of_lt}
use jay.Base.{ℕ, ◌+◌, ◌*◌, ◌^◌, ◌<◌, ◌≡◌, arith, ap, ◌∙◌}
use jay.Base.Bits.{bit_or-above, zero-bit_or}
use jay.Name.Defs.{Name, Payload, from_payload, to_payload, shl64}

record SameBytes (p q : Payload) : Type 0 where
  same0 : p.b0 ≡ q.b0
  same1 : p.b1 ≡ q.b1
  same2 : p.b2 ≡ q.b2
  same3 : p.b3 ≡ q.b3
  same4 : p.b4 ≡ q.b4
  same5 : p.b5 ≡ q.b5
  same6 : p.b6 ≡ q.b6
  same7 : p.b7 ≡ q.b7

Payload-path : {p q : Payload} → SameBytes p q → p ≡ q
Payload-path e = λ i. record {
  b0 = e.same0 i;
  b1 = e.same1 i;
  b2 = e.same2 i;
  b3 = e.same3 i;
  b4 = e.same4 i;
  b5 = e.same5 i;
  b6 = e.same6 i;
  b7 = e.same7 i;
}

abbrev pub IsBytes : Payload → Type 0
IsBytes p =
    (p.b0 < 256)
    × (p.b1 < 256)
    × (p.b2 < 256)
    × (p.b3 < 256)
    × (p.b4 < 256)
    × (p.b5 < 256)
    × (p.b6 < 256)
    × (p.b7 < 256)

-- The bytes as digits, the lowest first.
abbrev value : Payload → ℕ
value p =
    p.b0
    + p.b1 * 2 ^ 8
    + p.b2 * 2 ^ 16
    + p.b3 * 2 ^ 24
    + p.b4 * 2 ^ 32
    + p.b5 * 2 ^ 40
    + p.b6 * 2 ^ 48
    + p.b7 * 2 ^ 56

put_byte :
    (k n b : ℕ) → n < 2 ^ k → b < 2 ^ 8 → b * 2 ^ k < 2 ^ 64 → bit_or n (shl64 b k) ≡ n + b * 2 ^ k
put_byte k n b low byte fits = ap (bit_or n) (mod-eq_of_lt fits) ∙ bit_or-above k n b low byte

from_payload-value : (p : Payload) → IsBytes p → from_payload p ≡ value p
unfolding from_payload
from_payload-value p h = rw (
  zero-bit_or p.b0,
  put_byte 8 (p.b0) p.b1 (omega arith) (omega arith) (omega arith),
  put_byte 16 (p.b0 + p.b1 * 2 ^ 8) p.b2 (omega arith) (omega arith) (omega arith),
  put_byte 24 (p.b0 + p.b1 * 2 ^ 8 + p.b2 * 2 ^ 16) p.b3 (omega arith) (omega arith) (omega arith),
  put_byte 32 (p.b0 + p.b1 * 2 ^ 8 + p.b2 * 2 ^ 16 + p.b3 * 2 ^ 24) p.b4 (omega arith) (omega arith)
      (omega arith),
  put_byte 40 (p.b0 + p.b1 * 2 ^ 8 + p.b2 * 2 ^ 16 + p.b3 * 2 ^ 24 + p.b4 * 2 ^ 32) p.b5
      (omega arith) (omega arith) (omega arith),
  put_byte 48 (p.b0 + p.b1 * 2 ^ 8 + p.b2 * 2 ^ 16 + p.b3 * 2 ^ 24 + p.b4 * 2 ^ 32 + p.b5 * 2 ^ 40)
      p.b6 (omega arith) (omega arith) (omega arith),
  put_byte 56
      (p.b0
        + p.b1 * 2 ^ 8
        + p.b2 * 2 ^ 16
        + p.b3 * 2 ^ 24
        + p.b4 * 2 ^ 32
        + p.b5 * 2 ^ 40
        + p.b6 * 2 ^ 48)
      p.b7 (omega arith) (omega arith) (omega arith),
)

to_payload-value : (p : Payload) → IsBytes p → to_payload (value p) ≡ p
unfolding to_payload
to_payload-value p h = Payload-path (omega arith)

pub to_payload-IsBytes : (n : Name) → IsBytes (to_payload n)
unfolding to_payload
to_payload-IsBytes n = omega arith

value-to_payload : (n : Name) → n < 2 ^ 64 → value (to_payload n) ≡ n
unfolding to_payload
value-to_payload n h = omega arith

-- A 64-bit NAME is read back from its payload.
pub from_payload-to_payload : (n : Name) → n < 2 ^ 64 → from_payload (to_payload n) ≡ n
from_payload-to_payload n h =
    from_payload-value (to_payload n) (to_payload-IsBytes n) ∙ value-to_payload n h

-- A payload of eight bytes, each below 256, is written back as it was read.
pub to_payload-from_payload : (p : Payload) → IsBytes p → to_payload (from_payload p) ≡ p
to_payload-from_payload p h = ap to_payload (from_payload-value p h) ∙ to_payload-value p h
