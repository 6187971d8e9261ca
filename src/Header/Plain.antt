-- ===== src/Header/Plain.antt =====
-- A header type with the behaviour that include/jay/header.hpp takes from canary::frame_header.
use jay.Base.{ℕ, ◌%◌, ◌^◌, refl, arith}
use jay.Header.Canary.{Canary}

-- A header is its identifier and its length, of which 29 and 8 bits are read.
abbrev pub plain : Canary
plain = record {
  Raw = ℕ × ℕ;
  default = (0, 0);
  get_id = λ h. h.0 % 2 ^ 29;
  set_id = λ x h. (x, h.1);
  get_payload_length = λ h. h.1 % 2 ^ 8;
  set_payload_length = λ l h. (h.0, l);
  extended_format = λ b h. h;
  error = λ b h. h;
  remote_transmission = λ b h. h;
  get_id-default = refl;
  get_id-set_id = λ x h. refl;
  get_id-set_payload_length = λ l h. refl;
  get_id-extended_format = λ b h. refl;
  get_id-error = λ b h. refl;
  get_id-remote_transmission = λ b h. refl;
  get_id-lt = λ h. omega arith;
  get_payload_length-set_payload_length = λ l h e. omega arith;
  get_payload_length-set_id = λ x h. refl;
}
