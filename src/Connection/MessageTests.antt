-- ===== src/Connection/MessageTests.antt =====
-- Long messages of include/jay/j1939_connection.hpp, between two connections.
use jay.Base.{
  ◌≡◌, refl, arith, true, none, some, List, [], ◌∷◌, ◌++◌, Bool, ◌&&◌, if◌then◌else◌, length,
}
use jay.Base.Map.{find, set, try_emplace}
use jay.Header.{
  pgn, pdu_specific, set_payload_length, set_source_address, set_pdu_specific, set_pgn,
  empty_header,
}
use jay.Header.Plain.{plain}
use jay.Frame.{Frame}
use jay.Network.{new, insert, get_address, same_addr, same_name}
use jay.Transport.{Data}
use jay.Transport.Headers.{Says}
use jay.Types.{Uint8}
use jay.Connection.Defs.{Connection, connect, address_of, on_data}
use jay.Connection.Send.{send}
use jay.Connection.Receive.{on_received, frame}
use jay.Connection.Packets.{read_all}
use jay.Connection.Reassembly.{holds}
use jay.Connection.Messages.{send-read_all}
use jay.Connection.Transfers.{send-transfer}
use jay.Connection.Tests.{takes, first, second}

-- The names 3 and 4 have the addresses 10 and 20. The first two connections have a local name, the
-- third has none.
abbrev sender : Connection plain
sender = record first { has_on_read = true }

abbrev receiver : Connection plain
receiver = record second { has_on_read = true }

abbrev listener : Connection plain
listener = record second { has_on_read = true; local_name = none }

abbrev ten_bytes : List Uint8
ten_bytes = 1 ∷ 2 ∷ 3 ∷ 4 ∷ 5 ∷ 6 ∷ 7 ∷ 8 ∷ 9 ∷ 10 ∷ []

-- To all, and to the address 20.
abbrev to_all : Data plain
to_all = record { header = (0xEFFF00, 10); payload = ten_bytes }

abbrev to_one : Data plain
to_one = record { header = (0xEF1400, 10); payload = ten_bytes }

send-read_all_example :
    let a = address_of plain sender 3 in
    (x : Connection plain) × (ok : Bool) × (fs : List (Frame plain)) × (z : Connection plain)
    × (send plain takes to_all sender ≡ some (x, ok))
    × (x.tp.sent ≡ sender.tp.sent ++ fs)
    × (read_all plain takes fs listener ≡ some z)
    × (z.tp.delivered ≡ (
        if holds listener.network listener.target_name a
          && holds listener.network listener.local_name 0xFF
        then listener.tp.delivered
          ++ record {
            header = set_payload_length plain (length to_all.payload) (
                set_source_address plain a
                  (set_pgn plain (pgn plain to_all.header) (empty_header plain)));
            payload = to_all.payload;
          }
            ∷ []
        else listener.tp.delivered))
    × Says plain a (pgn plain to_all.header) (length to_all.payload) (
        set_payload_length plain (length to_all.payload) (
          set_source_address plain a
            (set_pgn plain (pgn plain to_all.header) (empty_header plain))))
unfolding connect get_address find insert new set same_addr try_emplace same_name pdu_specific
    on_data
send-read_all_example =
    send-read_all plain takes (λ i. refl) sender 3 to_all refl (omega arith) (omega arith)
      (omega arith) (omega arith) refl takes listener refl refl

send-transfer_example :
    (x : Connection plain) × (x' : Connection plain) × (y : Connection plain) × (y' : Connection
      plain)
    × (ask : Frame plain) × (reply : Frame plain) × (packets : List (Frame plain)) × (last : Frame
        plain)
    × (send plain takes to_one sender ≡ some (x, true))
    × (x.tp.sent ≡ sender.tp.sent ++ ask ∷ [])
    × (on_received plain takes (frame ask) receiver ≡ some y)
    × (y.tp.sent ≡ receiver.tp.sent ++ reply ∷ [])
    × (on_received plain takes (frame reply) x ≡ some x')
    × (x'.tp.sent ≡ x.tp.sent ++ (packets ++ last ∷ []))
    × (read_all plain takes packets y ≡ some y')
    × (y'.tp.delivered
        ≡ receiver.tp.delivered
          ++ record {
            header = set_payload_length plain (length to_one.payload) (
                set_pdu_specific plain (pdu_specific plain to_one.header) (
                  set_source_address plain
                    (address_of plain sender 3)
                    (set_pgn plain (pgn plain to_one.header) (empty_header plain))));
            payload = to_one.payload;
          }
            ∷ [])
    × Says plain (address_of plain sender 3) (pgn plain to_one.header) (length to_one.payload) (
        set_payload_length plain (length to_one.payload) (
          set_pdu_specific plain (pdu_specific plain to_one.header) (
            set_source_address plain
              (address_of plain sender 3)
              (set_pgn plain (pgn plain to_one.header) (empty_header plain)))))
    × (pdu_specific plain (
          set_payload_length plain (length to_one.payload) (
            set_pdu_specific plain (pdu_specific plain to_one.header) (
              set_source_address plain
                (address_of plain sender 3)
                (set_pgn plain (pgn plain to_one.header) (empty_header plain)))))
        ≡ pdu_specific plain to_one.header)
unfolding connect get_address find insert new set same_addr try_emplace same_name pdu_specific
    on_data
send-transfer_example =
    send-transfer plain takes takes (λ i. refl) (λ i. refl) sender receiver 3 to_one refl
      (omega arith) (omega arith) (omega arith) (omega arith) (omega arith) (omega arith) refl 4
      refl refl refl refl refl refl refl
