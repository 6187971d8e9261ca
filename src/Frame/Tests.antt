-- ===== src/Frame/Tests.antt =====
-- Frames of include/jay/frame.hpp over a header type of two numbers.
use jay.Base.{◌+◌, ◌^◌, ◌≡◌, arith, true, false}
use jay.Types.{j1939_no_addr}
use jay.Name.{from_payload}
use jay.Header.{is_claim, is_request, source_address, pdu_specific}
use jay.Header.Plain.{plain}
use jay.Frame.Defs.{make_address_claim}
use jay.Frame.Archetypes.{make_address_claim_lem}

make_address_claim_example :
    (is_claim plain (make_address_claim plain (2 ^ 63 + 9) 0x21).header ≡ true)
    × (is_request plain (make_address_claim plain (2 ^ 63 + 9) 0x21).header ≡ false)
    × (source_address plain (make_address_claim plain (2 ^ 63 + 9) 0x21).header ≡ 0x21)
    × (pdu_specific plain (make_address_claim plain (2 ^ 63 + 9) 0x21).header ≡ j1939_no_addr)
    × (from_payload (make_address_claim plain (2 ^ 63 + 9) 0x21).payload ≡ 2 ^ 63 + 9)
make_address_claim_example =
    make_address_claim_lem plain (2 ^ 63 + 9) 0x21 (omega arith) (omega arith)
