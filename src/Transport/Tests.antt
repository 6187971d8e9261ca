-- ===== src/Transport/Tests.antt =====
-- Runs of include/jay/transport_protocol.hpp.
use jay.Base.{ℕ, ◌+◌, ◌≡◌, refl, arith, Bool, true, false, some, List, [], ◌∷◌, ◌++◌, length, leb}
use jay.Types.{Uint8}
use jay.Frame.{Frame}
use jay.Header.{pgn, source_address}
use jay.Header.Plain.{plain}
use jay.Base.Text.{codes, hex, write_bytes, read_record}
use jay.Transport.Printing.{to_string, read_record-to_string}
use jay.Transport.Defs.{Tp, Session, Data, new_session}
use jay.Transport.Send.{start_tx}
use jay.Transport.Receive.{on_can_frame, tick}
use jay.Transport.Delivery.{receive_all}
use jay.Transport.Streams.{merge, Both}
use jay.Transport.Concurrent.{broadcast_message, start_tx-merge}
use jay.Transport.Handshake.{Transfer, start_tx-Transfer}
use jay.Transport.Headers.{Says, kept_pgn}
use jay.Transport.Timer.{kept, tick_lem}
use jay.Transport.Safety.State.{safe, all_safe, is_safe, honest, honest_cm, announced}
use jay.Transport.Safety.Sending.{start_tx-safe}
use jay.Transport.Safety.Handlers.{on_can_frame-safe}
use jay.Transport.Broadcast.{result, start_tx_broadcast}

abbrev takes : ℕ → Bool
takes i = true

abbrev takes-all : (i : ℕ) → takes i ≡ true
takes-all i = refl

abbrev idle : Tp plain
idle = record {
  sessions = [];
  bus_address = 0x21;
  clock = 0;
  sends = 0;
  sent = [];
  errors = [];
  delivered = [];
  has_error_callback = true;
  has_rx_callback = true;
}

abbrev message : List Uint8
message = 1 ∷ 2 ∷ 3 ∷ 4 ∷ 5 ∷ 6 ∷ 7 ∷ 8 ∷ 9 ∷ 10 ∷ []

start_tx_broadcast_example :
    result plain takes takes-all (start_tx plain takes message 0xFF 0xFEEE idle)
    ≡ some (leb (length message) 1778)
start_tx_broadcast_example =
    start_tx_broadcast plain takes takes-all message 0xFEEE idle (omega arith) (omega arith)

abbrev sender : Session
sender = record new_session { buffer = message; length = 10; total_packets = 2 }

-- Another node.
abbrev peer : Tp plain
peer = record idle { bus_address = 0x14 }

start_tx-Transfer_example : Transfer plain takes takes message 0xEF00 idle peer
start_tx-Transfer_example =
    start_tx-Transfer plain takes takes takes-all takes-all message 0xEF00 idle peer (omega arith)
      (omega arith) (omega arith) (omega arith) (omega arith) (omega arith) refl

-- A broadcast of ten bytes from the address 0x14, and its second packet.
abbrev announcement : Frame plain
announcement = record {
  header = (0xECFF14, 8);
  payload = record { b0 = 0x20; b1 = 10; b2 = 0; b3 = 2; b4 = 0xFF; b5 = 0xEE; b6 = 0xFE; b7 = 0 };
}

abbrev busy : Tp plain
busy = record idle {
  sessions = ((0x14, 0xFF), record sender { window_size = 0xFF }) ∷ [];
  clock = 1250000001;
}

on_can_frame-safe_example :
    (t' : Tp plain) × (on_can_frame plain takes announcement busy ≡ some t')
    × (safe plain t' ≡ true)
    × (t'.bus_address ≡ busy.bus_address)
unfolding safe all_safe is_safe honest source_address pgn honest_cm announced
on_can_frame-safe_example = on_can_frame-safe plain takes announcement busy refl refl

start_tx-safe_example :
    (t' : Tp plain) × (ok : Bool) × (start_tx plain takes message 0x14 0xEF00 busy ≡ some (t', ok))
    × (safe plain t' ≡ true)
unfolding safe all_safe is_safe
start_tx-safe_example = start_tx-safe plain takes message 0x14 0xEF00 busy refl (omega arith)

tick_example :
    ((tick plain takes busy).sessions ≡ kept busy.clock busy.sessions)
    × ((tick plain takes busy).sends + length (kept busy.clock busy.sessions)
        ≡ busy.sends + length busy.sessions)
    × ((tick plain takes busy).delivered ≡ busy.delivered)
    × ((tick plain takes busy).bus_address ≡ busy.bus_address)
tick_example = tick_lem plain takes busy

-- A message of two bytes, and its text.
abbrev note : Data plain
note = record { header = (0x18EAFF21, 2); payload = 10 ∷ 255 ∷ [] }

printed : to_string plain note ≡ codes "18eaff21:a'ff'"
unfolding to_string hex write_bytes
printed = refl

read_record-to_string_example :
    read_record 0 (to_string plain note) ≡ (plain.get_id note.header, note.payload)
read_record-to_string_example = read_record-to_string plain note (omega arith, (omega arith, tt))

-- Another node broadcasts at the same time.
abbrev other : Tp plain
other = record idle { bus_address = 0x22 }

abbrev order : List Bool
order = true ∷ false ∷ false ∷ true ∷ []

start_tx-merge_example :
    (a : Tp plain) × (b : Tp plain) × (ok_a : Bool) × (ok_b : Bool) × (fs : List (Frame plain))
    × (gs : List (Frame plain)) × (r : Tp plain) × (start_tx plain takes message 0xFF 0xFEEE idle
        ≡ some (a, ok_a))
    × (a.sent ≡ idle.sent ++ fs)
    × (start_tx plain takes message 0xFF 0xFEEF other ≡ some (b, ok_b))
    × (b.sent ≡ other.sent ++ gs)
    × (receive_all plain takes (merge order fs gs) idle ≡ some r)
    × Both
        (broadcast_message plain idle.bus_address 0xFEEE message)
        (broadcast_message plain other.bus_address 0xFEEF message)
        idle.delivered
        r.delivered
    × Says plain idle.bus_address
        (kept_pgn 0xFEEE)
        (length message)
        (broadcast_message plain idle.bus_address 0xFEEE message).header
    × Says plain other.bus_address
        (kept_pgn 0xFEEF)
        (length message)
        (broadcast_message plain other.bus_address 0xFEEF message).header
start_tx-merge_example =
    start_tx-merge plain takes takes takes takes-all takes-all message message 0xFEEE 0xFEEF idle
      other idle order (omega arith) (omega arith) (omega arith) (omega arith) (omega arith)
      (omega arith) (omega arith) (omega arith) (omega arith) refl
