-- ===== src/Name/Access.antt =====
-- The setters and getters of include/jay/name.hpp taken together: a setter changes its field alone.
use jay.Base.{ℕ, ◌/◌, ◌%◌, ◌^◌, ◌<◌, ◌≡◌, arith, sym, ap, ◌∙◌}
use jay.Base.Bits.{replace, slice}
use jay.Name.Defs.{
  Name, set_identity_number, set_manufacturer_code, set_ecu_instance, set_function_instance,
  set_function, set_device_class, set_device_class_instance, set_industry_group,
  set_self_config_address, identity_number, manufacturer_code, ecu_instance, function_instance,
  function, device_class, device_class_instance, industry_group, self_config_address,
}
use jay.Name.Fields.{
  set_identity_number-replace, set_manufacturer_code-replace, set_ecu_instance-replace,
  set_function_instance-replace, set_function-replace, set_device_class-replace,
  set_device_class_instance-replace, set_industry_group-replace, set_self_config_address-replace,
  identity_number-slice, manufacturer_code-slice, ecu_instance-slice, function_instance-slice,
  function-slice, device_class-slice, device_class_instance-slice, industry_group-slice,
  self_config_address-slice,
}

pub data Field : Type 0 where
  id_num : Field
  man_code : Field
  ecu_inst : Field
  func_inst : Field
  func : Field
  dev_cls : Field
  dev_cls_inst : Field
  ind_grp : Field
  slf_cfg_addr : Field

abbrev pub width : Field → ℕ
width id_num = 21
width man_code = 11
width ecu_inst = 3
width func_inst = 5
width func = 8
width dev_cls = 7
width dev_cls_inst = 4
width ind_grp = 3
width slf_cfg_addr = 1

-- The setter of each field.
abbrev pub set_field : Field → ℕ → Name → Name
set_field id_num = set_identity_number
set_field man_code = set_manufacturer_code
set_field ecu_inst = set_ecu_instance
set_field func_inst = set_function_instance
set_field func = set_function
set_field dev_cls = set_device_class
set_field dev_cls_inst = set_device_class_instance
set_field ind_grp = set_industry_group
set_field slf_cfg_addr = set_self_config_address

-- A NAME as the getters show it, with the reserved bit 48, which has no getter.
pub record Fields : Type 0 where
  pub identity_number_part : ℕ
  pub manufacturer_code_part : ℕ
  pub ecu_instance_part : ℕ
  pub function_instance_part : ℕ
  pub function_part : ℕ
  pub device_class_part : ℕ
  pub device_class_instance_part : ℕ
  pub industry_group_part : ℕ
  pub self_config_address_part : ℕ
  pub reserved_part : ℕ

abbrev pub fields : Name → Fields
fields n = record {
  identity_number_part = identity_number n;
  manufacturer_code_part = manufacturer_code n;
  ecu_instance_part = ecu_instance n;
  function_instance_part = function_instance n;
  function_part = function n;
  device_class_part = device_class n;
  device_class_instance_part = device_class_instance n;
  industry_group_part = industry_group n;
  self_config_address_part = self_config_address n;
  reserved_part = n / 2 ^ 48 % 2;
}

-- The specification of a write to one field.
abbrev pub write : Field → ℕ → Fields → Fields
write id_num v r = record r { identity_number_part = v }
write man_code v r = record r { manufacturer_code_part = v }
write ecu_inst v r = record r { ecu_instance_part = v }
write func_inst v r = record r { function_instance_part = v }
write func v r = record r { function_part = v }
write dev_cls v r = record r { device_class_part = v }
write dev_cls_inst v r = record r { device_class_instance_part = v }
write ind_grp v r = record r { industry_group_part = v }
write slf_cfg_addr v r = record r { self_config_address_part = v }

-- The same view in arithmetic.
abbrev pub sliced : Name → Fields
sliced n = record {
  identity_number_part = slice 0 21 n;
  manufacturer_code_part = slice 21 11 n;
  ecu_instance_part = slice 32 3 n;
  function_instance_part = slice 35 5 n;
  function_part = slice 40 8 n;
  device_class_part = slice 49 7 n;
  device_class_instance_part = slice 56 4 n;
  industry_group_part = slice 60 3 n;
  self_config_address_part = slice 63 1 n;
  reserved_part = n / 2 ^ 48 % 2;
}

pub fields-sliced : (n : ℕ) → n < 2 ^ 64 → fields n ≡ sliced n
fields-sliced n h = rw (
  identity_number-slice n h,
  manufacturer_code-slice n h,
  ecu_instance-slice n h,
  function_instance-slice n h,
  function-slice n h,
  device_class-slice n h,
  device_class_instance-slice n h,
  industry_group-slice n h,
  self_config_address-slice n h,
)

abbrev start : Field → ℕ
start id_num = 0
start man_code = 21
start ecu_inst = 32
start func_inst = 35
start func = 40
start dev_cls = 49
start dev_cls_inst = 56
start ind_grp = 60
start slf_cfg_addr = 63

set_field-replace :
    (f : Field) (v n : ℕ) → n < 2 ^ 64 → set_field f v n ≡ replace (start f) (width f) v n
set_field-replace id_num v n h = set_identity_number-replace v n h
set_field-replace man_code v n h = set_manufacturer_code-replace v n h
set_field-replace ecu_inst v n h = set_ecu_instance-replace v n h
set_field-replace func_inst v n h = set_function_instance-replace v n h
set_field-replace func v n h = set_function-replace v n h
set_field-replace dev_cls v n h = set_device_class-replace v n h
set_field-replace dev_cls_inst v n h = set_device_class_instance-replace v n h
set_field-replace ind_grp v n h = set_industry_group-replace v n h
set_field-replace slf_cfg_addr v n h = set_self_config_address-replace v n h

replace-lt : (f : Field) (v n : ℕ) → n < 2 ^ 64 → replace (start f) (width f) v n < 2 ^ 64
replace-lt id_num v n h = omega arith
replace-lt man_code v n h = omega arith
replace-lt ecu_inst v n h = omega arith
replace-lt func_inst v n h = omega arith
replace-lt func v n h = omega arith
replace-lt dev_cls v n h = omega arith
replace-lt dev_cls_inst v n h = omega arith
replace-lt ind_grp v n h = omega arith
replace-lt slf_cfg_addr v n h = omega arith

-- Two views with equal parts are equal.
pub record SameParts (r t : Fields) : Type 0 where
  pub identity_number_same : r.identity_number_part ≡ t.identity_number_part
  pub manufacturer_code_same : r.manufacturer_code_part ≡ t.manufacturer_code_part
  pub ecu_instance_same : r.ecu_instance_part ≡ t.ecu_instance_part
  pub function_instance_same : r.function_instance_part ≡ t.function_instance_part
  pub function_same : r.function_part ≡ t.function_part
  pub device_class_same : r.device_class_part ≡ t.device_class_part
  pub device_class_instance_same : r.device_class_instance_part ≡ t.device_class_instance_part
  pub industry_group_same : r.industry_group_part ≡ t.industry_group_part
  pub self_config_address_same : r.self_config_address_part ≡ t.self_config_address_part
  pub reserved_same : r.reserved_part ≡ t.reserved_part

pub Fields-path : {r t : Fields} → SameParts r t → r ≡ t
Fields-path e = λ i. record {
  identity_number_part = e.identity_number_same i;
  manufacturer_code_part = e.manufacturer_code_same i;
  ecu_instance_part = e.ecu_instance_same i;
  function_instance_part = e.function_instance_same i;
  function_part = e.function_same i;
  device_class_part = e.device_class_same i;
  device_class_instance_part = e.device_class_instance_same i;
  industry_group_part = e.industry_group_same i;
  self_config_address_part = e.self_config_address_same i;
  reserved_part = e.reserved_same i;
}

sliced-replace :
    (f : Field) (v n : ℕ)
    → n < 2 ^ 64
    → sliced (replace (start f) (width f) v n) ≡ write f (v % 2 ^ width f) (sliced n)
sliced-replace id_num v n h = Fields-path (omega arith)
sliced-replace man_code v n h = Fields-path (omega arith)
sliced-replace ecu_inst v n h = Fields-path (omega arith)
sliced-replace func_inst v n h = Fields-path (omega arith)
sliced-replace func v n h = Fields-path (omega arith)
sliced-replace dev_cls v n h = Fields-path (omega arith)
sliced-replace dev_cls_inst v n h = Fields-path (omega arith)
sliced-replace ind_grp v n h = Fields-path (omega arith)
sliced-replace slf_cfg_addr v n h = Fields-path (omega arith)

-- A setter keeps the NAME a 64-bit number.
pub set_field-lt : (f : Field) (v n : ℕ) → n < 2 ^ 64 → set_field f v n < 2 ^ 64
set_field-lt f v n h = rw (set_field-replace f v n h) (replace-lt f v n h)

-- For every 64-bit NAME, setter and value: the getter of the field then gives the value cut to the
-- width of the field, and all other getters and the reserved bit give what they gave before.
pub fields-set_field :
    (f : Field) (v n : ℕ)
    → n < 2 ^ 64
    → fields (set_field f v n) ≡ write f (v % 2 ^ width f) (fields n)
fields-set_field f v n h =
    fields-sliced _ (set_field-lt f v n h)
    ∙ ap sliced (set_field-replace f v n h)
    ∙ sliced-replace f v n h
    ∙ ap (write f (v % 2 ^ width f)) (sym (fields-sliced n h))
