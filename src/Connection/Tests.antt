-- ===== src/Connection/Tests.antt =====
-- Runs of include/jay/j1939_connection.hpp.
use jay.Base.{
  ℕ, ◌^◌, ◌<◌, ◌≡◌, refl, arith, Bool, true, false, not, ◌&&◌, ◌==◌, none, some, [], ◌∷◌, ◌++◌,
  if◌then◌else◌,
}
use jay.Base.Map.{find, set, try_emplace}
use jay.Types.{j1939_idle_addr}
use jay.Name.{Name}
use jay.Frame.{Frame, zeros}
use jay.Header.{pgn, payload_length, is_broadcast, set_source_address}
use jay.Header.Access.{view}
use jay.Header.Plain.{plain}
use jay.Network.{new, insert, get_address, same_addr, same_name}
use jay.Transport.{Data, Session, new_session, aborted, same_key, Key}
use jay.Connection.Defs.{Connection, connect, set_bus_address, address_of, on_data}
use jay.Connection.Send.{short_frame, send, send_frame, send_raw}
use jay.Connection.Receive.{check_address, process_frame, normal_pgn}
use jay.Connection.Addressing.{from_target, for_local, check_address_lem}
use jay.Connection.Writing.{reachable, addressed, addressed_view, refusal, send_frame_lem}
use jay.Connection.Reading.{process_frame_abort}
use jay.Connection.Exchange.{send-process_frame}

abbrev pub takes : ℕ → Bool
takes i = true

-- Name 3 has the address 10, name 4 the address 20.
abbrev pub first : Connection plain
first = record (connect plain (insert (insert new 3 10).0 4 20).0 (some 3) (some 4)) {
  has_on_error = true;
}

abbrev pub second : Connection plain
second = on_data plain (connect plain (insert (insert new 3 10).0 4 20).0 (some 4) none)

-- A frame from the address 20 to all.
abbrev broadcast : Frame plain
broadcast = record { header = (0xFEEE14, 8); payload = zeros }

check_address_example :
    ((check_address plain broadcast first).1
      ≡ (from_target plain first broadcast && for_local plain first broadcast))
    × ((check_address plain broadcast first).0 ≡ elim (first.local_name) [
      | none ↦ first
      | some own ↦ set_bus_address plain (address_of plain first own) first
    ])
check_address_example = check_address_lem plain broadcast first

address_of-first : (n : Name) → address_of plain first n < 2 ^ 8
unfolding connect get_address find insert new set same_addr try_emplace same_name
address_of-first n = ground arith

-- A frame for one node, the owner of the target name.
abbrev letter : Frame plain
letter = record { header = (0xEF0000, 8); payload = zeros }

send_frame_example :
    (send_frame plain takes letter first
      ≡ some (
          if not (address_of plain first 3 == j1939_idle_addr) && reachable plain first letter
          then send_raw plain takes (addressed plain first 3 letter) first
          else (
            record first { errors = first.errors ++ refusal plain first 3 letter ∷ [] },
            false,
          )))
    × (view plain (addressed plain first 3 letter).header ≡ addressed_view plain first 3 letter)
    × ((addressed plain first 3 letter).payload ≡ letter.payload)
    × (payload_length plain (addressed plain first 3 letter).header
        ≡ payload_length plain letter.header)
unfolding connect
send_frame_example = send_frame_lem plain takes first 3 letter refl refl address_of-first

-- The local name is not in the network.
abbrev stranger : Connection plain
stranger = connect plain new (some 3) none

-- A session of the own address 10 with 20, and an abort from there.
abbrev session : Session
session = record new_session { src_sa = 10; dest_sa = 20 }

abbrev busy : Connection plain
busy = record first { tp = record (first.tp) { sessions = ((10, 20), session) ∷ [] } }

abbrev abort_frame : Frame plain
abort_frame = record { header = (0xEC0A14, 8); payload = record zeros { b0 = 0xFF; b1 = 3 } }

process_frame_abort_example :
    let key : Key = (10, 20) in
    (y : Connection plain) × (process_frame plain takes abort_frame busy ≡ some y)
    × (find same_key key y.tp.sessions ≡ some (record session { state = aborted }))
    × (y.errors ≡ busy.errors)
unfolding pgn check_address connect find insert new set same_addr try_emplace same_name same_key
process_frame_abort_example =
    process_frame_abort plain takes abort_frame busy session refl refl refl refl refl refl

abbrev message : Data plain
message = record { header = (0xFEEE00, 3); payload = 1 ∷ 2 ∷ 3 ∷ [] }

send-process_frame_example :
    let g = addressed plain first 3 (short_frame plain message) in
    (z : Connection plain) × (send plain takes message first ≡ some (send_raw plain takes g first))
    × (process_frame plain takes g second ≡ some z)
    × (z.tp.delivered
        ≡ second.tp.delivered
          ++ record {
            header = set_source_address plain (address_of plain first 3) message.header;
            payload = message.payload;
          }
            ∷ [])
unfolding connect get_address find insert new set same_addr try_emplace same_name is_broadcast
    normal_pgn pgn payload_length on_data check_address set_source_address
send-process_frame_example =
    send-process_frame plain takes first second 3 message refl (omega arith) (omega arith)
      (omega arith) refl refl refl refl refl
