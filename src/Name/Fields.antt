-- ===== src/Name/Fields.antt =====
-- The bit fields of a NAME as arithmetic.

use jay.Base.{ℕ, ◌-◌, ◌/◌, ◌%◌, ◌^◌, ◌<◌, ◌≡◌, refl, arith}
use jay.Base.Bits.{
  replace, slice, get_bits-slice, pow-pos, parts, bit_and-field, bit_and-rest, bit_or-field,
}
use jay.Name.Defs.{
  put_bits, shl64, not64, id_num_mask, set_identity_number, identity_number, man_code_mask,
  set_manufacturer_code, manufacturer_code, ecu_inst_mask, set_ecu_instance, ecu_instance,
  func_inst_mask, set_function_instance, function_instance, func_mask, set_function, function,
  dev_cls_mask, set_device_class, device_class, dev_cls_inst_mask, set_device_class_instance,
  device_class_instance, ind_grp_mask, set_industry_group, industry_group, slf_cfg_addr_mask,
  set_self_config_address, self_config_address,
}

-- The setters' and getters' common bodies at a field of w bits at s, where r bits stand above it.
module _ (s w r mask n v lo mid hi v_low v_high : ℕ) where
  pub put_bits-parts :
      mask ≡ parts s w 0 (2 ^ w - 1) 0
      → not64 mask ≡ parts s w (2 ^ s - 1) 0 (2 ^ r - 1)
      → n ≡ parts s w lo mid hi
      → shl64 v s ≡ parts s w 0 v_low v_high
      → lo < 2 ^ s
      → mid < 2 ^ w
      → hi < 2 ^ r
      → v_low < 2 ^ w
      → v_high < 2 ^ r
      → put_bits mask s v n ≡ parts s w lo v_low hi
  put_bits-parts em en ep ev lo_fits mid_fits hi_fits v_fits above =
      rw (en, ep, ev, em)
        (rw
          (
            bit_and-rest s w r lo mid hi lo_fits mid_fits hi_fits,
            bit_and-field s w r 0 v_low v_high (pow-pos s) v_fits above,
          )
          (bit_or-field s w r lo mid hi lo_fits mid_fits hi_fits v_low v_fits))

pub set_identity_number-replace :
    (v n : ℕ) → n < 2 ^ 64 → set_identity_number v n ≡ replace 0 21 v n
unfolding set_identity_number
set_identity_number-replace v n h =
    put_bits-parts 0 21 43 id_num_mask n v (n % 2 ^ 0) (slice 0 21 n) (n / 2 ^ 0 / 2 ^ 21)
      (v % 2 ^ 21) (v / 2 ^ 21 % 2 ^ 43) refl refl (omega arith) (omega arith) (omega arith)
      (omega arith) (omega arith) (omega arith) (omega arith)

pub identity_number-slice : (n : ℕ) → n < 2 ^ 64 → identity_number n ≡ slice 0 21 n
unfolding identity_number
identity_number-slice n h = omega (
  arith,
  get_bits-slice 0 21 43 id_num_mask n refl (omega arith) (omega arith) (omega arith) (omega arith),
)

pub set_manufacturer_code-replace :
    (v n : ℕ) → n < 2 ^ 64 → set_manufacturer_code v n ≡ replace 21 11 v n
unfolding set_manufacturer_code
set_manufacturer_code-replace v n h =
    put_bits-parts 21 11 32 man_code_mask n v (n % 2 ^ 21) (slice 21 11 n) (n / 2 ^ 21 / 2 ^ 11)
      (v % 2 ^ 11) (v / 2 ^ 11 % 2 ^ 32) refl refl (omega arith) (omega arith) (omega arith)
      (omega arith) (omega arith) (omega arith) (omega arith)

pub manufacturer_code-slice : (n : ℕ) → n < 2 ^ 64 → manufacturer_code n ≡ slice 21 11 n
unfolding manufacturer_code
manufacturer_code-slice n h = omega (
  arith,
  get_bits-slice 21 11 32 man_code_mask n refl (omega arith) (omega arith) (omega arith)
      (omega arith),
)

pub set_ecu_instance-replace : (v n : ℕ) → n < 2 ^ 64 → set_ecu_instance v n ≡ replace 32 3 v n
unfolding set_ecu_instance
set_ecu_instance-replace v n h =
    put_bits-parts 32 3 29 ecu_inst_mask n v (n % 2 ^ 32) (slice 32 3 n) (n / 2 ^ 32 / 2 ^ 3)
      (v % 2 ^ 3) (v / 2 ^ 3 % 2 ^ 29) refl refl (omega arith) (omega arith) (omega arith)
      (omega arith) (omega arith) (omega arith) (omega arith)

pub ecu_instance-slice : (n : ℕ) → n < 2 ^ 64 → ecu_instance n ≡ slice 32 3 n
unfolding ecu_instance
ecu_instance-slice n h = omega (
  arith,
  get_bits-slice 32 3 29 ecu_inst_mask n refl (omega arith) (omega arith) (omega arith)
      (omega arith),
)

pub set_function_instance-replace :
    (v n : ℕ) → n < 2 ^ 64 → set_function_instance v n ≡ replace 35 5 v n
unfolding set_function_instance
set_function_instance-replace v n h =
    put_bits-parts 35 5 24 func_inst_mask n v (n % 2 ^ 35) (slice 35 5 n) (n / 2 ^ 35 / 2 ^ 5)
      (v % 2 ^ 5) (v / 2 ^ 5 % 2 ^ 24) refl refl (omega arith) (omega arith) (omega arith)
      (omega arith) (omega arith) (omega arith) (omega arith)

pub function_instance-slice : (n : ℕ) → n < 2 ^ 64 → function_instance n ≡ slice 35 5 n
unfolding function_instance
function_instance-slice n h = omega (
  arith,
  get_bits-slice 35 5 24 func_inst_mask n refl (omega arith) (omega arith) (omega arith)
      (omega arith),
)

pub set_function-replace : (v n : ℕ) → n < 2 ^ 64 → set_function v n ≡ replace 40 8 v n
unfolding set_function
set_function-replace v n h =
    put_bits-parts 40 8 16 func_mask n v (n % 2 ^ 40) (slice 40 8 n) (n / 2 ^ 40 / 2 ^ 8)
      (v % 2 ^ 8) (v / 2 ^ 8 % 2 ^ 16) refl refl (omega arith) (omega arith) (omega arith)
      (omega arith) (omega arith) (omega arith) (omega arith)

pub function-slice : (n : ℕ) → n < 2 ^ 64 → function n ≡ slice 40 8 n
unfolding function
function-slice n h = omega (
  arith,
  get_bits-slice 40 8 16 func_mask n refl (omega arith) (omega arith) (omega arith) (omega arith),
)

pub set_device_class-replace : (v n : ℕ) → n < 2 ^ 64 → set_device_class v n ≡ replace 49 7 v n
unfolding set_device_class
set_device_class-replace v n h =
    put_bits-parts 49 7 8 dev_cls_mask n v (n % 2 ^ 49) (slice 49 7 n) (n / 2 ^ 49 / 2 ^ 7)
      (v % 2 ^ 7) (v / 2 ^ 7 % 2 ^ 8) refl refl (omega arith) (omega arith) (omega arith)
      (omega arith) (omega arith) (omega arith) (omega arith)

pub device_class-slice : (n : ℕ) → n < 2 ^ 64 → device_class n ≡ slice 49 7 n
unfolding device_class
device_class-slice n h = omega (
  arith,
  get_bits-slice 49 7 8 dev_cls_mask n refl (omega arith) (omega arith) (omega arith) (omega arith),
)

pub set_device_class_instance-replace :
    (v n : ℕ) → n < 2 ^ 64 → set_device_class_instance v n ≡ replace 56 4 v n
unfolding set_device_class_instance
set_device_class_instance-replace v n h =
    put_bits-parts 56 4 4 dev_cls_inst_mask n v (n % 2 ^ 56) (slice 56 4 n) (n / 2 ^ 56 / 2 ^ 4)
      (v % 2 ^ 4) (v / 2 ^ 4 % 2 ^ 4) refl refl (omega arith) (omega arith) (omega arith)
      (omega arith) (omega arith) (omega arith) (omega arith)

pub device_class_instance-slice : (n : ℕ) → n < 2 ^ 64 → device_class_instance n ≡ slice 56 4 n
unfolding device_class_instance
device_class_instance-slice n h = omega (
  arith,
  get_bits-slice 56 4 4 dev_cls_inst_mask n refl (omega arith) (omega arith) (omega arith)
      (omega arith),
)

pub set_industry_group-replace : (v n : ℕ) → n < 2 ^ 64 → set_industry_group v n ≡ replace 60 3 v n
unfolding set_industry_group
set_industry_group-replace v n h =
    put_bits-parts 60 3 1 ind_grp_mask n v (n % 2 ^ 60) (slice 60 3 n) (n / 2 ^ 60 / 2 ^ 3)
      (v % 2 ^ 3) (v / 2 ^ 3 % 2 ^ 1) refl refl (omega arith) (omega arith) (omega arith)
      (omega arith) (omega arith) (omega arith) (omega arith)

pub industry_group-slice : (n : ℕ) → n < 2 ^ 64 → industry_group n ≡ slice 60 3 n
unfolding industry_group
industry_group-slice n h = omega (
  arith,
  get_bits-slice 60 3 1 ind_grp_mask n refl (omega arith) (omega arith) (omega arith) (omega arith),
)

pub set_self_config_address-replace :
    (v n : ℕ) → n < 2 ^ 64 → set_self_config_address v n ≡ replace 63 1 v n
unfolding set_self_config_address
set_self_config_address-replace v n h =
    put_bits-parts 63 1 0 slf_cfg_addr_mask n v (n % 2 ^ 63) (slice 63 1 n) (n / 2 ^ 63 / 2 ^ 1)
      (v % 2 ^ 1) (v / 2 ^ 1 % 2 ^ 0) refl refl (omega arith) (omega arith) (omega arith)
      (omega arith) (omega arith) (omega arith) (omega arith)

pub self_config_address-slice : (n : ℕ) → n < 2 ^ 64 → self_config_address n ≡ slice 63 1 n
unfolding self_config_address
self_config_address-slice n h = omega (
  arith,
  get_bits-slice 63 1 0 slf_cfg_addr_mask n refl (omega arith) (omega arith) (omega arith)
      (omega arith),
)
