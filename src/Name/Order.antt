-- ===== src/Name/Order.antt =====
-- Priority between controllers: the comparison operators of include/jay/name.hpp.
use Prim.Native.Nat.{bit_and}
use jay.Base.{ℕ, ◌+◌, ◌-◌, ◌*◌, ◌/◌, ◌%◌, ◌^◌, ◌<◌, ◌≡◌, arith, ap, ◌∙◌, ◌==◌, ltb}
use jay.Base.Bits.{bit_and-field}
use jay.Name.Defs.{Name, name_lt, name_gt, name_eq, not64, slf_cfg_addr_mask, self_config_address}
use jay.Name.Fields.{self_config_address-slice}

-- The number that the operators compare: all bits but the self configuring one. A lower number is
-- a higher priority.
abbrev pub rank : Name → ℕ
rank n = n % 2 ^ 63

bit_and-rank : (n : ℕ) → n < 2 ^ 64 → bit_and n (not64 slf_cfg_addr_mask) ≡ rank n
bit_and-rank n h =
    ap (λ k. bit_and k (2 ^ 63 - 1)) (omega arith)
    ∙ bit_and-field 0 63 1 0 (n % 2 ^ 63) (n / 2 ^ 63) (omega arith) (omega arith) (omega arith)
    ∙ omega arith

-- The operators compare ranks.
pub name_gt-rank : (l r : Name) → l < 2 ^ 64 → r < 2 ^ 64 → name_gt l r ≡ ltb (rank r) (rank l)
unfolding name_gt
name_gt-rank l r hl hr = rw (bit_and-rank l hl, bit_and-rank r hr)

pub name_lt-rank : (l r : Name) → l < 2 ^ 64 → r < 2 ^ 64 → name_lt l r ≡ ltb (rank l) (rank r)
unfolding name_lt
name_lt-rank l r hl hr = rw (bit_and-rank l hl, bit_and-rank r hr)

pub name_eq-rank : (l r : Name) → l < 2 ^ 64 → r < 2 ^ 64 → name_eq l r ≡ (rank l == rank r)
unfolding name_eq
name_eq-rank l r hl hr = rw (bit_and-rank l hl, bit_and-rank r hr)

-- The value is the rank and the self configuring bit.
pub rank-self_config_address : (n : Name) → n < 2 ^ 64 → n ≡ rank n + self_config_address n * 2 ^ 63
rank-self_config_address n h = omega (arith, self_config_address-slice n h)
