-- ===== src/Transport/Receive.antt =====
-- The receiving side of transport_protocol, its dispatch of frames, and its timer.
use Prim.Native.Nat.{bit_or}
use jay.Base.{
  ℕ, zero, suc, ◌+◌, ◌-◌, ◌*◌, ◌%◌, ◌^◌, Bool, true, false, Option, none, some, List, [], ◌∷◌, ◌++◌,
  length, overwrite, ◌&&◌, ◌||◌, not, ◌==◌, ltb, if◌then◌else◌,
}
use jay.Types.{Uint8, j1939_no_addr}
use jay.Name.{Payload}
use jay.Frame.{Frame}
use jay.Header.{
  empty_header, set_pgn, set_source_address, set_pdu_specific, set_payload_length, pgn,
  source_address, pdu_specific, is_broadcast,
}
use jay.Header.Canary.{Canary}
use jay.Transport.Defs.{
  Session, new_session, Tp, Key, Data, Control, rts, cts, eom, bam, abort, Direction, tx, rx,
  completed, aborted, AbortCode, bad_sequence, duplicate_seq, unexpected_packet, timeout, Error,
  cts_without_session, dt_without_session, eom_without_session, dt_bad_sequence,
  dt_duplicate_sequence, dt_unexpected_sequence, remote_abort, tp_timeout, session_at, put_session,
  report_error, get_payload_pgn, send_abort, send_eom_ack, response_cts, pgn_tp_cm, pgn_tp_dt, t2,
  t3, session_clean_timeout,
}
use jay.Transport.Send.{send_data_packets}

abbrev pub zero_bytes : ℕ → List Uint8
zero_bytes zero = []
zero_bytes (suc n) = 0 ∷ zero_bytes n

-- The seven bytes that follow the sequence number.
abbrev pub packet_bytes : Payload → List Uint8
packet_bytes p = p.b1 ∷ p.b2 ∷ p.b3 ∷ p.b4 ∷ p.b5 ∷ p.b6 ∷ p.b7 ∷ []

-- The cast of a byte to Control, for the cases of handle_cm.
abbrev pub control_of : Uint8 → Option Control
control_of b =
    if b == 0x10
    then some rts
    else (if b == 0x11
        then some cts
        else (if b == 0x20
            then some bam
            else (if b == 0x13 then some eom else (if b == 0xFF then some abort else none))))

module _ (c : Canary) (takes : ℕ → Bool) where
  unfoldable pub dummy_abort_session : Frame c → Direction → Tp c → Session
  unfolding get_payload_pgn source_address
  dummy_abort_session f direction t =
      let dummy = record new_session {
        dir = direction;
        pgn = get_payload_pgn c f;
        length = 0;
        total_packets = 0;
        window_size = 0;
      } in
      elim direction [
        | tx ↦ record dummy { dest_sa = source_address c f.header; src_sa = t.bus_address }
        | rx ↦ record dummy { dest_sa = t.bus_address; src_sa = source_address c f.header }
      ]

  -- What the handlers do on a frame that belongs to no session.
  abbrev pub reject : Direction → Error → Frame c → Tp c → Tp c
  reject direction e f t =
      report_error c e (send_abort c takes (dummy_abort_session f direction t) unexpected_packet t)

  -- The session that an RTS starts, and a BAM.
  abbrev pub rts_session : Frame c → Tp c → Session
  rts_session f t =
      let bytes = bit_or f.payload.b1 (f.payload.b2 * 2 ^ 8) in
      record new_session {
        dir = rx;
        length = bytes;
        total_packets = f.payload.b3;
        window_size = f.payload.b4;
        dest_sa = if is_broadcast c f.header then j1939_no_addr else pdu_specific c f.header;
        src_sa = source_address c f.header;
        pgn = get_payload_pgn c f;
        buffer = zero_bytes bytes;
        last_activity = t.clock;
        next_seq = 1;
      }

  abbrev pub bam_session : Frame c → Tp c → Session
  bam_session f t =
      let bytes = bit_or f.payload.b1 (f.payload.b2 * 2 ^ 8) in
      record new_session {
        dir = rx;
        is_bam = true;
        length = bytes;
        total_packets = f.payload.b3;
        dest_sa = 0xFF;
        src_sa = source_address c f.header;
        pgn = get_payload_pgn c f;
        buffer = zero_bytes bytes;
        last_activity = t.clock;
      }

  unfoldable pub start_rx_rts : Frame c → Tp c → Tp c
  unfolding put_session response_cts pdu_specific source_address get_payload_pgn is_broadcast
  start_rx_rts f t =
      let s = rts_session f t in
      if pdu_specific c f.header == t.bus_address
      then response_cts c takes s (put_session c (s.src_sa, s.dest_sa) s t)
      else t

  unfoldable pub start_rx_bam : Frame c → Tp c → Tp c
  unfolding put_session source_address get_payload_pgn
  start_rx_bam f t = let s = bam_session f t in put_session c (s.src_sa, s.dest_sa) s t

  unfoldable pub handle_cts : Frame c → Tp c → Option (Tp c)
  unfolding send_data_packets put_session source_address report_error send_abort dummy_abort_session
  handle_cts f t =
      let key : Key = (t.bus_address, source_address c f.header) in
      elim (session_at c t key) [
        | some s ↦
            elim (send_data_packets c takes
              (record s { window_size = f.payload.b1; next_seq = f.payload.b2 }) t) [
                | some (s', t', _) ↦ some (put_session c key s' t')
                | none ↦ none
              ]
        | none ↦ some (reject tx cts_without_session f t)
      ]

  -- The message that is delivered when the last packet is in.
  unfoldable pub delivery : Session → Data c
  unfolding empty_header set_pgn set_source_address set_pdu_specific set_payload_length
  delivery s =
      let h = set_source_address c s.src_sa (set_pgn c s.pgn (empty_header c)) in
      let h = if s.is_bam then h else set_pdu_specific c s.dest_sa h in
      record { header = set_payload_length c (length s.buffer) h; payload = s.buffer }

  abbrev pub deliver : Session → Tp c → Tp c
  deliver s t =
      if t.has_rx_callback then record t { delivered = t.delivered ++ delivery s ∷ [] } else t

  -- A packet that is not the next one of its session.
  abbrev pub refuse : Key → Session → AbortCode → Error → Tp c → Tp c
  refuse key s code e t =
      let s' = record s { state = aborted } in
      report_error c e (send_abort c takes s' code (put_session c key s' t))

  -- The packet is the next one: the bytes, the delivery after the last packet, and the answer.
  unfoldable pub accept : Key → Session → Frame c → Tp c → Option (Tp c)
  accept key s f t =
      let seq = f.payload.b0 in
      let offset = (seq - 1) * 7 in
      let s' = record s {
        buffer = overwrite offset (packet_bytes f.payload) s.buffer;
        next_seq = (seq + 1) % 2 ^ 8;
        last_activity = t.clock;
      } in
      if ltb (length s.buffer) offset
      then none
      else (if seq == s.total_packets
          then some (
              if s.is_bam
              then put_session c key (record s' { state = completed }) (deliver s' t)
              else (send_eom_ack c takes s' (put_session c key s' (deliver s' t))).0)
          else (if s.window_size == 0
              then none
              else some (
                  if (seq % s.window_size == 0) && not s.is_bam
                  then response_cts c takes s' (put_session c key s' t)
                  else put_session c key s' t)))

  unfoldable pub handle_dt : Frame c → Tp c → Option (Tp c)
  handle_dt f t =
      let key : Key = (source_address c f.header, pdu_specific c f.header) in
      let seq = f.payload.b0 in
      elim (session_at c t key) [
        | none ↦ some (reject rx dt_without_session f t)
        | some s ↦
            if ltb seq 1 || ltb s.total_packets seq
            then some (refuse key s bad_sequence dt_bad_sequence t)
            else (if ltb seq s.next_seq
                then some (refuse key s duplicate_seq dt_duplicate_sequence t)
                else (if not (seq == s.next_seq)
                    then some (refuse key s bad_sequence dt_unexpected_sequence t)
                    else accept key s f t))
      ]

  unfoldable pub handle_abort : Frame c → Tp c → Tp c
  unfolding put_session source_address report_error
  handle_abort f t =
      let key : Key = (t.bus_address, source_address c f.header) in
      elim (session_at c t key) [
        | some s ↦
            report_error c (remote_abort f.payload.b1)
              (put_session c key (record s { state = aborted }) t)
        | none ↦ t
      ]

  unfoldable pub complete_rx : Frame c → Tp c → Tp c
  unfolding put_session source_address pdu_specific report_error send_abort dummy_abort_session
  complete_rx f t =
      let key : Key = (source_address c f.header, pdu_specific c f.header) in
      elim (session_at c t key) [
        | none ↦ reject rx eom_without_session f t
        | some s ↦ put_session c key (record s { state = completed }) t
      ]

  unfoldable pub handle_cm : Frame c → Tp c → Option (Tp c)
  handle_cm f t = elim (control_of f.payload.b0) [
    | none ↦ some t
    | some rts ↦ some (start_rx_rts f t)
    | some cts ↦ handle_cts f t
    | some eom ↦ some (complete_rx f t)
    | some bam ↦ some (start_rx_bam f t)
    | some abort ↦ some (handle_abort f t)
  ]

  unfoldable pub on_can_frame : Frame c → Tp c → Option (Tp c)
  on_can_frame f t =
      if pgn c f.header == pgn_tp_cm
      then handle_cm f t
      else (if pgn c f.header == pgn_tp_dt then handle_dt f t else some t)

  -- The loop of tick, over the entries in the order of the map.
  unfoldable pub tick_sessions : List (Key × Session) → Tp c → List (Key × Session) × Tp c
  unfolding send_abort report_error
  tick_sessions [] t = ([], t)
  tick_sessions ((k, s) ∷ m) t =
      let limit : ℕ = elim (s.dir) [ tx ↦ t3 | rx ↦ t2 ] in
      let age = t.clock - s.last_activity in
      elim (ltb limit age) [
        | true ↦ tick_sessions m (report_error c tp_timeout (send_abort c takes s timeout t))
        | false ↦ elim (ltb session_clean_timeout age) [
          | true ↦ tick_sessions m t
          | false ↦ let (m', t') = tick_sessions m t in ((k, s) ∷ m', t')
        ]
      ]

  unfoldable pub tick : Tp c → Tp c
  unfolding tick_sessions
  tick t = let (m, t') = tick_sessions t.sessions t in record t' { sessions = m }
