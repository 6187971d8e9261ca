-- ===== src/Name/Defs.antt =====
-- The class `name` of include/jay/name.hpp: constructors, setters, getters, operators.
use Prim.Native.Nat.{bit_and, bit_or}
use jay.Base.{ℕ, ◌-◌, ◌*◌, ◌/◌, ◌%◌, ◌^◌, Bool, ◌==◌, ltb}
use jay.Types.{NameT, Uint8}

abbrev pub Name : Type 0
Name = NameT

-- x << s, x >> s and ~x of a std::uint64_t.
abbrev pub shl64 : ℕ → ℕ → ℕ
shl64 x s = (x * 2 ^ s) % 2 ^ 64

abbrev pub shr : ℕ → ℕ → ℕ
shr x s = x / 2 ^ s

abbrev pub not64 : ℕ → ℕ
not64 x = 2 ^ 64 - 1 - x

abbrev pub slf_cfg_addr_mask : NameT
slf_cfg_addr_mask = 0x8000000000000000

abbrev pub ind_grp_mask : NameT
ind_grp_mask = 0x7000000000000000

abbrev pub dev_cls_inst_mask : NameT
dev_cls_inst_mask = 0x0F00000000000000

abbrev pub dev_cls_mask : NameT
dev_cls_mask = 0x00FE000000000000

abbrev pub func_mask : NameT
func_mask = 0x0000FF0000000000

abbrev pub func_inst_mask : NameT
func_inst_mask = 0x000000F800000000

abbrev pub ecu_inst_mask : NameT
ecu_inst_mask = 0x0000000700000000

abbrev pub man_code_mask : NameT
man_code_mask = 0x00000000FFE00000

abbrev pub id_num_mask : NameT
id_num_mask = 0x00000000001FFFFF

-- The body that the nine setters share: clear the field, then put in the bits of v that fit.
abbrev pub put_bits : NameT → ℕ → ℕ → Name → Name
put_bits mask start v n = bit_or (bit_and n (not64 mask)) (bit_and (shl64 v start) mask)

-- The body that the getters share.
abbrev pub get_bits : NameT → ℕ → Name → ℕ
get_bits mask start n = shr (bit_and n mask) start

unfoldable pub set_identity_number : ℕ → Name → Name
set_identity_number id_num n = put_bits id_num_mask 0 id_num n

unfoldable pub identity_number : Name → ℕ
identity_number n = bit_and n id_num_mask % 2 ^ 32

unfoldable pub set_manufacturer_code : ℕ → Name → Name
set_manufacturer_code man_code n = put_bits man_code_mask 21 man_code n

unfoldable pub manufacturer_code : Name → ℕ
manufacturer_code n = get_bits man_code_mask 21 n % 2 ^ 16

unfoldable pub set_ecu_instance : ℕ → Name → Name
set_ecu_instance ecu_inst n = put_bits ecu_inst_mask 32 ecu_inst n

unfoldable pub ecu_instance : Name → ℕ
ecu_instance n = get_bits ecu_inst_mask 32 n % 2 ^ 8

unfoldable pub set_function_instance : ℕ → Name → Name
set_function_instance func_inst n = put_bits func_inst_mask 35 func_inst n

unfoldable pub function_instance : Name → ℕ
function_instance n = get_bits func_inst_mask 35 n % 2 ^ 8

unfoldable pub set_function : ℕ → Name → Name
set_function func n = put_bits func_mask 40 func n

unfoldable pub function : Name → ℕ
function n = get_bits func_mask 40 n % 2 ^ 8

unfoldable pub set_device_class : ℕ → Name → Name
set_device_class dev_cls n = put_bits dev_cls_mask 49 dev_cls n

unfoldable pub device_class : Name → ℕ
device_class n = get_bits dev_cls_mask 49 n % 2 ^ 8

unfoldable pub set_device_class_instance : ℕ → Name → Name
set_device_class_instance dev_cls_inst n = put_bits dev_cls_inst_mask 56 dev_cls_inst n

unfoldable pub device_class_instance : Name → ℕ
device_class_instance n = get_bits dev_cls_inst_mask 56 n % 2 ^ 8

unfoldable pub set_industry_group : ℕ → Name → Name
set_industry_group ind_grp n = put_bits ind_grp_mask 60 ind_grp n

unfoldable pub industry_group : Name → ℕ
industry_group n = get_bits ind_grp_mask 60 n % 2 ^ 8

unfoldable pub set_self_config_address : ℕ → Name → Name
set_self_config_address slf_cfg_addr n = put_bits slf_cfg_addr_mask 63 slf_cfg_addr n

unfoldable pub self_config_address : Name → ℕ
self_config_address n = get_bits slf_cfg_addr_mask 63 n % 2 ^ 8

-- name(id_num, man_code, ...): each part is masked, reserved bit 48 stays 0.
unfoldable pub make : ℕ → ℕ → ℕ → ℕ → ℕ → ℕ → ℕ → ℕ → ℕ → Name
make id_num man_code ecu_inst func_inst func dev_cls dev_cls_inst ind_grp slf_cfg_addr =
    bit_or
      (bit_or
        (bit_or
          (bit_or
            (bit_or
              (bit_or
                (bit_or
                  (bit_or (bit_and (shl64 slf_cfg_addr 63) slf_cfg_addr_mask)
                    (bit_and (shl64 ind_grp 60) ind_grp_mask))
                  (bit_and (shl64 dev_cls_inst 56) dev_cls_inst_mask))
                (bit_and (shl64 dev_cls 49) dev_cls_mask))
              (bit_and (shl64 func 40) func_mask))
            (bit_and (shl64 func_inst 35) func_inst_mask))
          (bit_and (shl64 ecu_inst 32) ecu_inst_mask))
        (bit_and (shl64 man_code 21) man_code_mask))
      (bit_and (shl64 id_num 0) id_num_mask)

-- An array<uint8_t, 8>.
pub record Payload : Type 0 where
  pub b0 : Uint8
  pub b1 : Uint8
  pub b2 : Uint8
  pub b3 : Uint8
  pub b4 : Uint8
  pub b5 : Uint8
  pub b6 : Uint8
  pub b7 : Uint8

-- name(const std::array<uint8_t, 8> &payload)
unfoldable pub from_payload : Payload → Name
from_payload p =
    let n = bit_or 0 p.b0 in
    let n = bit_or n (shl64 p.b1 8) in
    let n = bit_or n (shl64 p.b2 16) in
    let n = bit_or n (shl64 p.b3 24) in
    let n = bit_or n (shl64 p.b4 32) in
    let n = bit_or n (shl64 p.b5 40) in let n = bit_or n (shl64 p.b6 48) in bit_or n (shl64 p.b7 56)

-- operator std::array<std::uint8_t, 8>()
unfoldable pub to_payload : Name → Payload
to_payload n = record {
  b0 = n % 2 ^ 8;
  b1 = shr n 8 % 2 ^ 8;
  b2 = shr n 16 % 2 ^ 8;
  b3 = shr n 24 % 2 ^ 8;
  b4 = shr n 32 % 2 ^ 8;
  b5 = shr n 40 % 2 ^ 8;
  b6 = shr n 48 % 2 ^ 8;
  b7 = shr n 56 % 2 ^ 8;
}

-- operator<, operator> and operator== of two names leave out the self configuring bit.
unfoldable pub name_lt : Name → Name → Bool
name_lt l r = ltb (bit_and l (not64 slf_cfg_addr_mask)) (bit_and r (not64 slf_cfg_addr_mask))

unfoldable pub name_gt : Name → Name → Bool
name_gt l r = ltb (bit_and r (not64 slf_cfg_addr_mask)) (bit_and l (not64 slf_cfg_addr_mask))

unfoldable pub name_eq : Name → Name → Bool
name_eq l r = bit_and l (not64 slf_cfg_addr_mask) == bit_and r (not64 slf_cfg_addr_mask)

-- struct hash: std::hash of the whole 64-bit value, which the standard library leaves open but
-- takes to be the value itself in the implementations that the project is built with.
unfoldable pub hash : Name → ℕ
hash n = n
