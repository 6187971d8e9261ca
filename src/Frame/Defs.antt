-- ===== src/Frame/Defs.antt =====
-- struct frame of include/jay/frame.hpp.
use jay.Base.{false, List, [], ◌∷◌, ◌++◌}
use jay.Base.Text.{Text, hex, write_bytes}
use jay.Types.{Address, Uint8, pf_request, pf_address_claim, j1939_no_addr, j1939_idle_addr}
use jay.Name.{Name, Payload, to_payload}
use jay.Header.{from_parts, empty_header}
use jay.Header.Canary.{Canary}

pub record Frame (c : Canary) : Type 0 where
  pub header : c.Raw
  pub payload : Payload

abbrev pub zeros : Payload
zeros = record { b0 = 0; b1 = 0; b2 = 0; b3 = 0; b4 = 0; b5 = 0; b6 = 0; b7 = 0 }

-- The bytes of a payload, in the order of the array.
abbrev pub payload_bytes : Payload → List Uint8
payload_bytes p = p.b0 ∷ p.b1 ∷ p.b2 ∷ p.b3 ∷ p.b4 ∷ p.b5 ∷ p.b6 ∷ p.b7 ∷ []

module _ (c : Canary) where
  -- frame()
  unfoldable pub empty_frame : Frame c
  unfolding empty_header
  empty_frame = record { header = empty_header c; payload = zeros }

  -- make_address_request(PS)
  unfoldable pub make_address_request : Address → Frame c
  unfolding from_parts
  make_address_request ps = record {
    header = from_parts c 6 false pf_request ps j1939_idle_addr 3;
    payload = record zeros { b1 = 0xEE };
  }

  unfoldable pub make_address_claim : Name → Address → Frame c
  unfolding from_parts to_payload
  make_address_claim name address = record {
    header = from_parts c 6 false pf_address_claim j1939_no_addr address 8;
    payload = to_payload name;
  }

  unfoldable pub make_cannot_claim : Name → Frame c
  unfolding from_parts to_payload
  make_cannot_claim name = record {
    header = from_parts c 6 false pf_address_claim j1939_no_addr j1939_idle_addr 8;
    payload = to_payload name;
  }

  -- The stream gets the identifier, a : and each byte with a ' behind it.
  unfoldable pub to_string : Frame c → Text
  unfolding hex write_bytes
  to_string f = hex (c.get_id f.header) ++ b':' ∷ write_bytes (payload_bytes f.payload)
