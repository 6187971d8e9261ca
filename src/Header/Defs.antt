-- ===== src/Header/Defs.antt =====
-- The class `frame_header` of include/jay/header.hpp over an implementation of canary's header.
-- Identifiers are std::uint32_t: a shift to the left and `~` are taken modulo 2 ^ 32.
use Prim.Native.Nat.{bit_and, bit_or}
use jay.Base.{ℕ, ◌-◌, ◌*◌, ◌/◌, ◌%◌, ◌^◌, Bool, true, false, ltb, ◌==◌, if◌then◌else◌}
use jay.Types.{
  Address, Pgn, pf_pdu1_max, j1939_pgn_pdu1_max, j1939_pgn_request, j1939_pgn_address_claimed,
}
use jay.Header.Canary.{Canary}

abbrev pub prio_mask : ℕ
prio_mask = 0x1C000000

abbrev pub data_page_mask : ℕ
data_page_mask = 0x01000000

abbrev pub pgn_mask : ℕ
pgn_mask = 0x03FFFF00

abbrev pub pf_mask : ℕ
pf_mask = 0x00FF0000

abbrev pub ps_mask : ℕ
ps_mask = 0x0000FF00

abbrev pub ad_mask : ℕ
ad_mask = 0x000000FF

abbrev pub shl32 : ℕ → ℕ → ℕ
shl32 x s = (x * 2 ^ s) % 2 ^ 32

abbrev pub not32 : ℕ → ℕ
not32 x = 2 ^ 32 - 1 - x

abbrev pub bit : Bool → ℕ
bit b = if b then 1 else 0

-- std::clamp(priority, 0, 7)
abbrev pub clamp7 : ℕ → ℕ
clamp7 p = if ltb 7 p then 7 else p

module _ (c : Canary) where
  open c use {Raw, default, get_id, get_payload_length, extended_format, error, remote_transmission}

  -- frame_header()
  unfoldable pub empty_header : Raw
  empty_header = remote_transmission false (error false (extended_format true default))

  -- frame_header(header_data, payload_length); the length is narrowed to a std::uint8_t.
  unfoldable pub from_id : ℕ → ℕ → Raw
  unfolding empty_header
  from_id header_data length =
      c.set_payload_length (length % 2 ^ 8) (c.set_id header_data empty_header)

  -- frame_header(priority, pgn, source_address, payload_length)
  unfoldable pub from_pgn : ℕ → Pgn → Address → ℕ → Raw
  unfolding from_id
  from_pgn priority pgn source_address length =
      from_id (bit_or (bit_or (shl32 (clamp7 priority) 26) (shl32 pgn 8)) source_address) length

  -- frame_header(priority, data_page, pdu_format, pdu_specific, source_address, payload_length)
  unfoldable pub from_parts : ℕ → Bool → ℕ → ℕ → Address → ℕ → Raw
  unfolding from_pgn
  from_parts priority data_page pdu_format pdu_specific source_address length =
      from_pgn priority
        (bit_or (bit_or (shl32 (bit data_page) 16) (shl32 pdu_format 8)) pdu_specific)
        source_address length

  unfoldable pub id : Raw → ℕ
  id h = get_id h

  unfoldable pub set_id : ℕ → Raw → Raw
  set_id x h = c.set_id x h

  unfoldable pub set_priority : ℕ → Raw → Raw
  unfolding id set_id
  set_priority priority h =
      set_id (bit_or (bit_and (id h) (not32 prio_mask)) (shl32 (clamp7 priority) 26)) h

  unfoldable pub set_pgn : Pgn → Raw → Raw
  unfolding id set_id
  set_pgn pgn h =
      set_id (bit_or (bit_and (id h) (not32 pgn_mask)) (shl32 (bit_and pgn 0x3FFFF) 8)) h

  unfoldable pub set_data_page : Bool → Raw → Raw
  unfolding id set_id
  set_data_page b h = set_id (bit_or (bit_and (id h) (not32 data_page_mask)) (shl32 (bit b) 24)) h

  unfoldable pub set_pdu_format : ℕ → Raw → Raw
  unfolding id set_id
  set_pdu_format v h = set_id (bit_or (bit_and (id h) (not32 pf_mask)) (shl32 v 16)) h

  unfoldable pub set_pdu_specific : ℕ → Raw → Raw
  unfolding id set_id
  set_pdu_specific v h = set_id (bit_or (bit_and (id h) (not32 ps_mask)) (shl32 v 8)) h

  unfoldable pub set_source_address : Address → Raw → Raw
  unfolding id set_id
  set_source_address v h = set_id (bit_or (bit_and (id h) (not32 ad_mask)) v) h

  unfoldable pub set_payload_length : ℕ → Raw → Raw
  set_payload_length l h = c.set_payload_length l h

  unfoldable pub priority : Raw → ℕ
  priority h = bit_and (get_id h) prio_mask / 2 ^ 26 % 2 ^ 8

  unfoldable pub data_page : Raw → ℕ
  data_page h = bit_and (get_id h) data_page_mask / 2 ^ 24 % 2 ^ 8

  unfoldable pub pdu_format : Raw → ℕ
  pdu_format h = get_id h / 2 ^ 16 % 2 ^ 8

  unfoldable pub pdu_specific : Raw → ℕ
  pdu_specific h = get_id h / 2 ^ 8 % 2 ^ 8

  unfoldable pub source_address : Raw → Address
  source_address h = get_id h % 2 ^ 8

  unfoldable pub payload_length : Raw → ℕ
  payload_length h = get_payload_length h

  unfoldable pub is_broadcast : Raw → Bool
  unfolding pdu_format
  is_broadcast h = ltb pf_pdu1_max (pdu_format h)

  unfoldable pub pgn : Raw → Pgn
  unfolding is_broadcast
  pgn h =
      (if is_broadcast h
        then bit_and (get_id h) pgn_mask
        else bit_and (bit_and (get_id h) pgn_mask) (not32 ps_mask))
      / 2 ^ 8

  unfoldable pub is_request : Raw → Bool
  unfolding pgn
  is_request h = bit_and (pgn h) j1939_pgn_pdu1_max == j1939_pgn_request

  unfoldable pub is_claim : Raw → Bool
  unfolding pgn
  is_claim h = bit_and (pgn h) j1939_pgn_pdu1_max == j1939_pgn_address_claimed
