-- ===== src/Name/Tests.antt =====
-- Runs of include/jay/name.hpp on one NAME.
use jay.Base.{◌+◌, ◌%◌, ◌^◌, ◌≡◌, refl, arith, true}
use jay.Name.Defs.{Name, Payload, make, function, name_lt, identity_number}
use jay.Name.Access.{ecu_inst, fields, set_field, write, width, fields-set_field}
use jay.Name.Bytes.{IsBytes}

abbrev sample : Name
sample = make 1234 567 3 21 200 90 7 5 1

sample-parts : (identity_number sample ≡ 1234) × (function sample ≡ 200)
unfolding make identity_number function
sample-parts = (refl, refl)

-- The self configuring bit, the highest, is no part of the order.
order : (name_lt 5 (2 ^ 63 + 6) ≡ true) × (name_lt (2 ^ 63 + 5) 6 ≡ true)
unfolding name_lt
order = (refl, refl)

fields-set_field_example :
    fields (set_field ecu_inst 13 (2 ^ 40 + 5))
    ≡ write ecu_inst (13 % 2 ^ width ecu_inst) (fields (2 ^ 40 + 5))
fields-set_field_example = fields-set_field ecu_inst 13 (2 ^ 40 + 5) (omega arith)

abbrev bytes : Payload
bytes = record { b0 = 1; b1 = 2; b2 = 3; b3 = 4; b4 = 5; b5 = 6; b6 = 7; b7 = 255 }

bytes-IsBytes : IsBytes bytes
bytes-IsBytes = (
  omega arith,
  omega arith,
  omega arith,
  omega arith,
  omega arith,
  omega arith,
  omega arith,
  omega arith,
)
