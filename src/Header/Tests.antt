-- ===== src/Header/Tests.antt =====
-- Runs of include/jay/header.hpp on one header.
use jay.Base.{◌≡◌, refl, arith, true, false}
use jay.Header.Plain.{plain}
use jay.Header.Defs.{is_request, is_claim, from_parts, priority, source_address, payload_length}
use jay.Header.Access.{view, to_pgn, apply, write, write_length, fields-apply}

abbrev start : plain.Raw
start = from_parts plain 6 false 0xEE 0xFF 0x21 8

start-parts :
    (priority plain start ≡ 6)
    × (source_address plain start ≡ 0x21)
    × (is_claim plain start ≡ true)
    × (is_request plain start ≡ false)
unfolding from_parts priority source_address is_claim is_request
start-parts = (refl, refl, refl, refl)

fields-apply_example :
    (view plain (apply plain (to_pgn 0x1FEE5) start) ≡ write (to_pgn 0x1FEE5) (view plain start))
    × (payload_length plain (apply plain (to_pgn 0x1FEE5) start)
        ≡ write_length (to_pgn 0x1FEE5) (payload_length plain start))
fields-apply_example = fields-apply plain (to_pgn 0x1FEE5) start (omega arith)
