-- ===== src/Transport/Send.antt =====
-- The sending side of transport_protocol.
use jay.Base.{
  ℕ, zero, suc, ◌+◌, ◌-◌, ◌*◌, ◌/◌, ◌%◌, ◌^◌, Bool, true, false, Option, none, some, List, length,
  get_elem?, get_or, ◌&&◌, ◌==◌, leb, ltb, if◌then◌else◌,
}
use jay.Types.{Address, Pgn, Uint8, j1939_no_addr}
use jay.Name.{Payload}
use jay.Header.Canary.{Canary}
use jay.Transport.Defs.{
  Session, new_session, Tp, tx, bam, rts, completed, resources_busy, payload_too_large, tp_send_bam,
  tp_send_rts, tp_send_dt, put_session, report_error, bus_send, make_cm_frame, make_dt_frame,
  fill_tp_payload, send_abort, send_eom_ack,
}

-- The byte of the buffer at an index; the bytes of a frame that nothing is copied to are 0.
abbrev pub byte_at : List Uint8 → ℕ → Uint8
byte_at buffer i = get_or (get_elem? buffer i) 0

-- The copy of up to seven bytes reads inside of the buffer.
abbrev pub in_buffer : Session → Bool
in_buffer s = leb 1 s.next_seq && leb ((s.next_seq - 1) * 7) (length s.buffer)

unfoldable pub dt_payload : Session → Payload
dt_payload s =
    let offset = (s.next_seq - 1) * 7 in
    record {
      b0 = s.next_seq;
      b1 = byte_at s.buffer offset;
      b2 = byte_at s.buffer (offset + 1);
      b3 = byte_at s.buffer (offset + 2);
      b4 = byte_at s.buffer (offset + 3);
      b5 = byte_at s.buffer (offset + 4);
      b6 = byte_at s.buffer (offset + 5);
      b7 = byte_at s.buffer (offset + 6);
    }

module _ (c : Canary) (takes : ℕ → Bool) where
  -- A function that works on a session gives the session, the rest of the state and its result.
  abbrev pub Worked : Type 0
  Worked = Session × Tp c × Bool

  -- The end of send_data_packets, after the loop.
  unfoldable pub finish_packets : Session → Tp c → Worked
  unfolding send_eom_ack
  finish_packets s t =
      if ltb s.total_packets s.next_seq
      then (record s { state = completed }, (send_eom_ack c takes s t).0, true)
      else (s, t, false)

  -- The loop of send_data_packets with the packets that `count` leaves, and what follows it.
  unfoldable pub send_packets : ℕ → Session → Tp c → Option Worked
  unfolding finish_packets make_dt_frame dt_payload bus_send report_error send_abort
  send_packets zero s t = some (finish_packets s t)
  send_packets (suc count) s t =
      if leb s.next_seq s.total_packets
      then (if in_buffer s
          then (let (t', ok) =
                bus_send c takes (record (make_dt_frame c s) { payload = dt_payload s }) t in
              let s' = record s { last_activity = t.clock; next_seq = (s.next_seq + 1) % 2 ^ 8 } in
              let rest = send_packets count s' t' in
              if ok
              then rest
              else some
                  (s, send_abort c takes s resources_busy (report_error c tp_send_dt t'), false))
          else none)
      else some (finish_packets s t)

  unfoldable pub send_data_packets : Session → Tp c → Option Worked
  unfolding send_packets
  send_data_packets s t = send_packets s.window_size s t

  unfoldable pub send_bam_start : Session → Tp c → Option Worked
  unfolding send_data_packets make_cm_frame fill_tp_payload bus_send report_error send_abort
  send_bam_start s t =
      let (t', ok) =
        bus_send c takes (fill_tp_payload c s (make_cm_frame c bam j1939_no_addr s.src_sa)) t in
      let started = send_data_packets (record s { last_activity = t.clock }) t' in
      if ok
      then started
      else some (s, send_abort c takes s resources_busy (report_error c tp_send_bam t'), false)

  unfoldable pub send_rts : Session → Tp c → Worked
  unfolding make_cm_frame fill_tp_payload bus_send report_error send_abort
  send_rts s t =
      let (t', ok) =
        bus_send c takes (fill_tp_payload c s (make_cm_frame c rts s.dest_sa s.src_sa)) t in
      if ok
      then (record s { last_activity = t.clock }, t', true)
      else (s, send_abort c takes s resources_busy (report_error c tp_send_rts t'), false)

  -- The session of a transfer, before its first frame.
  abbrev pub tx_session : List Uint8 → Address → Pgn → Tp c → Session
  tx_session bytes dest pgn t = record new_session {
    dir = tx;
    buffer = bytes;
    length = length bytes % 2 ^ 16;
    total_packets = (length bytes % 2 ^ 16 + 6) / 7 % 2 ^ 8;
    dest_sa = dest;
    src_sa = t.bus_address;
    pgn = pgn;
    is_bam = dest == 0xFF;
    last_activity = t.clock;
  }

  -- The session that was worked on is the entry of its key.
  unfoldable pub keep : Worked → Tp c × Bool
  unfolding put_session
  keep (s, t, ok) = (put_session c (s.src_sa, s.dest_sa) s t, ok)

  unfoldable pub start_tx : List Uint8 → Address → Pgn → Tp c → Option (Tp c × Bool)
  unfolding send_bam_start send_rts report_error keep
  start_tx bytes dest pgn t =
      let s = tx_session bytes dest pgn t in
      if leb (length bytes) 8
      then some (t, false)
      else (if ltb 1785 (length bytes)
          then some (report_error c payload_too_large t, false)
          else (if dest == 0xFF
              then elim (send_bam_start s t) [ none ↦ none | some worked ↦ some (keep worked) ]
              else some (keep (send_rts s t))))
