-- ===== src/Name/Make.antt =====
-- The constructor of include/jay/name.hpp that takes all the fields.
use Prim.Native.Nat.{bit_and}
use jay.Base.{ℕ, ◌+◌, ◌-◌, ◌*◌, ◌/◌, ◌%◌, ◌^◌, ◌<◌, ◌≡◌, refl, arith, ap, ◌∙◌}
use jay.Base.Bits.{parts, pow-pos, bit_and-field, bit_or-join}
use jay.Name.Defs.{
  make, shl64, id_num_mask, man_code_mask, ecu_inst_mask, func_inst_mask, func_mask, dev_cls_mask,
  dev_cls_inst_mask, ind_grp_mask, slf_cfg_addr_mask,
}
use jay.Name.Access.{fields, fields-sliced, Fields-path}

-- One operand of the constructor: the bits of v that fit, in their place.
operand :
    (s w r mask v : ℕ)
    → mask ≡ parts s w 0 (2 ^ w - 1) 0
    → shl64 v s ≡ parts s w 0 (v % 2 ^ w) (v / 2 ^ w % 2 ^ r)
    → v % 2 ^ w < 2 ^ w
    → v / 2 ^ w % 2 ^ r < 2 ^ r
    → bit_and (shl64 v s) mask ≡ v % 2 ^ w * 2 ^ s
operand s w r mask v em ev fits above =
    rw (ev, em)
      (bit_and-field s w r 0 (v % 2 ^ w) (v / 2 ^ w % 2 ^ r) (pow-pos s) fits above ∙ omega arith)

module _
    (id_num man_code ecu_inst func_inst func dev_cls dev_cls_inst ind_grp slf_cfg_addr : ℕ) where
  total : ℕ
  total =
      id_num % 2 ^ 21 * 2 ^ 0
      + man_code % 2 ^ 11 * 2 ^ 21
      + ecu_inst % 2 ^ 3 * 2 ^ 32
      + func_inst % 2 ^ 5 * 2 ^ 35
      + func % 2 ^ 8 * 2 ^ 40
      + dev_cls % 2 ^ 7 * 2 ^ 49
      + dev_cls_inst % 2 ^ 4 * 2 ^ 56
      + ind_grp % 2 ^ 3 * 2 ^ 60
      + slf_cfg_addr % 2 ^ 1 * 2 ^ 63

  make-total :
      make id_num man_code ecu_inst func_inst func dev_cls dev_cls_inst ind_grp slf_cfg_addr ≡ total
  unfolding make total
  make-total =
      rw
        (
          operand 63 1 0 slf_cfg_addr_mask slf_cfg_addr refl (omega arith) (omega arith)
              (omega arith),
          operand 60 3 1 ind_grp_mask ind_grp refl (omega arith) (omega arith) (omega arith),
          operand 56 4 4 dev_cls_inst_mask dev_cls_inst refl (omega arith) (omega arith)
              (omega arith),
          operand 49 7 8 dev_cls_mask dev_cls refl (omega arith) (omega arith) (omega arith),
          operand 40 8 16 func_mask func refl (omega arith) (omega arith) (omega arith),
          operand 35 5 24 func_inst_mask func_inst refl (omega arith) (omega arith) (omega arith),
          operand 32 3 29 ecu_inst_mask ecu_inst refl (omega arith) (omega arith) (omega arith),
          operand 21 11 32 man_code_mask man_code refl (omega arith) (omega arith) (omega arith),
          operand 0 21 43 id_num_mask id_num refl (omega arith) (omega arith) (omega arith),
          bit_or-join 63 (slf_cfg_addr % 2 ^ 1 * 2 ^ 63) (ind_grp % 2 ^ 3 * 2 ^ 60) (omega arith)
              (omega arith) (omega arith),
          bit_or-join 60 (slf_cfg_addr % 2 ^ 1 * 2 ^ 63 + ind_grp % 2 ^ 3 * 2 ^ 60)
              (dev_cls_inst % 2 ^ 4 * 2 ^ 56) (omega arith) (omega arith) (omega arith),
          bit_or-join 56
              (slf_cfg_addr % 2 ^ 1 * 2 ^ 63
                + ind_grp % 2 ^ 3 * 2 ^ 60
                + dev_cls_inst % 2 ^ 4 * 2 ^ 56)
              (dev_cls % 2 ^ 7 * 2 ^ 49) (omega arith) (omega arith) (omega arith),
          bit_or-join 49
              (slf_cfg_addr % 2 ^ 1 * 2 ^ 63
                + ind_grp % 2 ^ 3 * 2 ^ 60
                + dev_cls_inst % 2 ^ 4 * 2 ^ 56
                + dev_cls % 2 ^ 7 * 2 ^ 49)
              (func % 2 ^ 8 * 2 ^ 40) (omega arith) (omega arith) (omega arith),
          bit_or-join 40
              (slf_cfg_addr % 2 ^ 1 * 2 ^ 63
                + ind_grp % 2 ^ 3 * 2 ^ 60
                + dev_cls_inst % 2 ^ 4 * 2 ^ 56
                + dev_cls % 2 ^ 7 * 2 ^ 49
                + func % 2 ^ 8 * 2 ^ 40)
              (func_inst % 2 ^ 5 * 2 ^ 35) (omega arith) (omega arith) (omega arith),
          bit_or-join 35
              (slf_cfg_addr % 2 ^ 1 * 2 ^ 63
                + ind_grp % 2 ^ 3 * 2 ^ 60
                + dev_cls_inst % 2 ^ 4 * 2 ^ 56
                + dev_cls % 2 ^ 7 * 2 ^ 49
                + func % 2 ^ 8 * 2 ^ 40
                + func_inst % 2 ^ 5 * 2 ^ 35)
              (ecu_inst % 2 ^ 3 * 2 ^ 32) (omega arith) (omega arith) (omega arith),
          bit_or-join 32
              (slf_cfg_addr % 2 ^ 1 * 2 ^ 63
                + ind_grp % 2 ^ 3 * 2 ^ 60
                + dev_cls_inst % 2 ^ 4 * 2 ^ 56
                + dev_cls % 2 ^ 7 * 2 ^ 49
                + func % 2 ^ 8 * 2 ^ 40
                + func_inst % 2 ^ 5 * 2 ^ 35
                + ecu_inst % 2 ^ 3 * 2 ^ 32)
              (man_code % 2 ^ 11 * 2 ^ 21) (omega arith) (omega arith) (omega arith),
          bit_or-join 21
              (slf_cfg_addr % 2 ^ 1 * 2 ^ 63
                + ind_grp % 2 ^ 3 * 2 ^ 60
                + dev_cls_inst % 2 ^ 4 * 2 ^ 56
                + dev_cls % 2 ^ 7 * 2 ^ 49
                + func % 2 ^ 8 * 2 ^ 40
                + func_inst % 2 ^ 5 * 2 ^ 35
                + ecu_inst % 2 ^ 3 * 2 ^ 32
                + man_code % 2 ^ 11 * 2 ^ 21)
              (id_num % 2 ^ 21 * 2 ^ 0) (omega arith) (omega arith) (omega arith),
        )
        (omega arith)

  -- For all nine parts, the getters of the NAME made of them give each part cut to the width of its field, and the
  -- reserved bit is 0.
  pub fields-make :
      fields
        (make id_num man_code ecu_inst func_inst func dev_cls dev_cls_inst ind_grp slf_cfg_addr)
      ≡ record {
        identity_number_part = id_num % 2 ^ 21;
        manufacturer_code_part = man_code % 2 ^ 11;
        ecu_instance_part = ecu_inst % 2 ^ 3;
        function_instance_part = func_inst % 2 ^ 5;
        function_part = func % 2 ^ 8;
        device_class_part = dev_cls % 2 ^ 7;
        device_class_instance_part = dev_cls_inst % 2 ^ 4;
        industry_group_part = ind_grp % 2 ^ 3;
        self_config_address_part = slf_cfg_addr % 2 ^ 1;
        reserved_part = 0;
      }
  unfolding total
  fields-make = ap fields make-total ∙ fields-sliced total (omega arith) ∙ Fields-path (omega arith)
