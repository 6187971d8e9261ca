-- ===== src/Header/Canary.antt =====
-- canary::frame_header, the header type of the CAN library that jay wraps, as far as jay uses it.
use jay.Base.{ℕ, ◌%◌, ◌^◌, ◌<◌, ◌≡◌, Bool}

-- Its values, its setters and getters, and their documented behaviour: an extended identifier has
-- 29 bits, a length has 8, and a setter changes its own part only.
pub record Canary : Type 1 where
  pub Raw : Type 0
  pub default : Raw
  pub get_id : Raw → ℕ
  pub set_id : ℕ → Raw → Raw
  pub get_payload_length : Raw → ℕ
  pub set_payload_length : ℕ → Raw → Raw
  pub extended_format : Bool → Raw → Raw
  pub error : Bool → Raw → Raw
  pub remote_transmission : Bool → Raw → Raw
  pub get_id-default : get_id default ≡ 0
  pub get_id-set_id : (x : ℕ) (h : Raw) → get_id (set_id x h) ≡ x % 2 ^ 29
  pub get_id-set_payload_length : (l : ℕ) (h : Raw) → get_id (set_payload_length l h) ≡ get_id h
  pub get_id-extended_format : (b : Bool) (h : Raw) → get_id (extended_format b h) ≡ get_id h
  pub get_id-error : (b : Bool) (h : Raw) → get_id (error b h) ≡ get_id h
  pub get_id-remote_transmission :
      (b : Bool) (h : Raw) → get_id (remote_transmission b h) ≡ get_id h
  pub get_id-lt : (h : Raw) → get_id h < 2 ^ 29
  pub get_payload_length-set_payload_length :
      (l : ℕ) (h : Raw) → l < 2 ^ 8 → get_payload_length (set_payload_length l h) ≡ l
  pub get_payload_length-set_id :
      (x : ℕ) (h : Raw) → get_payload_length (set_id x h) ≡ get_payload_length h
