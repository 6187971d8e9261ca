-- ===== src/Connection/Transfers.antt =====
-- A long message from one connection to another one: RTS, CTS and the packets.
use jay.Base.{
  ℕ, suc, ◌-◌, ◌^◌, ◌<◌, ◌≤◌, ◌≡◌, ◌≢◌, refl, ap, sym, ◌∙◌, arith, Bool, true, some, List, [], ◌∷◌,
  ◌++◌, length, ==-ne,
}
use jay.Types.{Address, Uint8, j1939_idle_addr}
use jay.Name.{Name}
use jay.Frame.{Frame}
use jay.Network.{get_address}
use jay.Header.{
  pgn, pdu_specific, set_payload_length, set_source_address, set_pdu_specific, set_pgn,
  empty_header,
}
use jay.Header.Canary.{Canary}
use jay.Header.Fields.{pgn-eq}
use jay.Transport.{
  Tp, Data, Session, delivery, zero_bytes, put_session, pgn_tp_cm, fill_tp_payload, make_cm_frame,
  Error, on_can_frame,
}
use jay.Transport.Stream.{dt_frames, closing}
use jay.Transport.Reassembly.{reassemble, reassemble-buffer}
use jay.Transport.Headers.{Says, kept_pgn_to-pgn, to_one-Says}
use jay.Transport.Handshake.{cts_frame-Reads, end_of, closing-single}
use jay.Transport.Handshake.Steps.{rts_frame, cts_frame}
use jay.Transport.Handshake.Sender.{sender, asked, start_tx-rts, on_can_frame-cts}
use jay.Transport.Handshake.Receiver.{
  started, answered, rts_frame-Reads, on_can_frame-rts, Waits-answered,
}
use jay.Connection.Defs.{Connection, address_of, after_tp, set_bus_address}
use jay.Connection.Send.{send}
use jay.Connection.Receive.{on_received, frame, normal_pgn}
use jay.Connection.Packets.{
  ready, ready-named, ready-same, Same, report_all-Same, read_all, on_received-tp,
}
use jay.Connection.Reassembly.{
  holds, hears, hears-holds, read_dts, Waits-same, admits-hears, hears-Same,
}
use jay.Connection.Messages.{send-send_long, send_long-start_tx}
use jay.Connection.Reading.{tp-report_all}

module _ (c : Canary) (takes takes' : ℕ → Bool) (all : (i : ℕ) → takes i ≡ true)
    (all' : (i : ℕ) → takes' i ≡ true) (x y : Connection c) (own : Name) (d : Data c)
    (local : x.local_name ≡ some own) (src : address_of c x own ≢ j1939_idle_addr)
    (fits : address_of c x own < 2 ^ 8) (low : 8 < length d.payload)
    (high : length d.payload ≤ 1778) (one : pdu_specific c d.header ≢ 0xFF)
    (fits' : pdu_specific c d.header < 2 ^ 8) (quiet : x.tp.errors ≡ []) where
  abbrev at_start : Tp c
  at_start = (set_bus_address c (address_of c x own) x).tp

  abbrev dest : Address
  dest = pdu_specific c d.header

  -- The sender's session, its transport protocol after the RTS, and the connection.
  abbrev from : Session
  from = sender c takes all d.payload dest (pgn c d.header) at_start low high one

  abbrev waiting : Tp c
  waiting = asked c takes all d.payload dest (pgn c d.header) at_start low high one

  abbrev asker : Connection c
  asker = after_tp c waiting (set_bus_address c (address_of c x own) x)

  send-asker : send c takes d x ≡ some (asker, true)
  send-asker =
      send-send_long c takes d x low
      ∙ send_long-start_tx c takes d x own waiting true local src
          (start_tx-rts c takes all d.payload dest (pgn c d.header) at_start low high one)

  tp-asker : asker.tp ≡ record waiting { errors = [] }
  unfolding after_tp
  tp-asker = tp-report_all c waiting.errors _

  asker-Same : Same c x asker
  unfolding after_tp
  asker-Same =
      report_all-Same c waiting.errors
        (record (set_bus_address c (address_of c x own) x) { tp = record waiting { errors = [] } })

  ready-asker : ready c asker ≡ waiting
  unfolding put_session
  ready-asker =
      let with_address : Address → Tp c → Tp c = λ a t. record t { bus_address = a } in
      let with_errors : List Error → Tp c = λ es. record waiting { errors = es } in
      ready-named c asker own (asker-Same.1 ∙ local)
      ∙ ap (with_address (address_of c asker own)) tp-asker
      ∙ ap (λ net. with_address (get_address net own) (record waiting { errors = [] })) asker-Same.0
      ∙ ap with_errors (sym quiet)

  pgn-lt : pgn c d.header < 2 ^ 24
  pgn-lt = ground (arith, pgn-eq c d.header, c.get_id-lt d.header)

  -- The receiver's session, and its transport protocol after the CTS.
  abbrev until : Session
  until =
      started c takes' all' from (address_of c x own) dest fits fits' refl refl (omega arith) pgn-lt
        (ready c y)

  abbrev answering : Tp c
  answering =
      answered c takes' all' from (address_of c x own) dest fits fits' refl refl (omega arith)
        pgn-lt (ready c y)

  abbrev asking : Frame c
  asking = rts_frame c takes all from

  abbrev answer : Frame c
  answer = cts_frame c takes' all' until

  reads_asking :
      y.has_on_read ≡ true
      → (ready c y).bus_address ≡ dest
      → hears c y (address_of c x own) dest ≡ true
      → (z : Connection c) × (on_received c takes' (frame asking) y ≡ some z)
        × (z.tp ≡ record answering { errors = [] })
        × Same c y z
  unfolding fill_tp_payload normal_pgn
  reads_asking heard own' admitted =
      let r =
        rts_frame-Reads c takes all from (address_of c x own) dest fits fits' refl refl
          (omega arith) pgn-lt in
      on_received-tp c takes' asking y answering heard
        (admits-hears c y asking pgn_tp_cm dest (address_of c x own)
            (record { reads_pgn = r.reads_pgn; reads_dst = r.reads_dst; reads_src = r.reads_src })
            (omega arith)
          ∙ admitted)
        (rw (r.reads_pgn) refl)
        (on_can_frame-rts c takes' all' from (address_of c x own) dest fits fits' refl refl
          (omega arith) pgn-lt (ready c y) own')

  reads_answer :
      x.has_on_read ≡ true
      → hears c x dest (address_of c x own) ≡ true
      → (z : Connection c) × (on_received c takes (frame answer) asker ≡ some z)
        × (z.tp.sent
            ≡ asker.tp.sent ++ (dt_frames c from.total_packets from 1 ++ end_of c from ∷ []))
  unfolding fill_tp_payload normal_pgn make_cm_frame
  reads_answer heard admitted =
      let a = address_of c x own in
      let r = cts_frame-Reads c takes' all' until fits fits' in
      let (t, e, sent) =
        on_can_frame-cts c takes all d.payload dest (pgn c d.header) at_start low high one fits'
          fits answer r refl refl refl in
      let (z, run, tp, _) =
        on_received-tp c takes answer asker t (asker-Same.3 ∙ heard)
          (admits-hears c asker answer pgn_tp_cm a dest r (omega arith)
            ∙ hears-Same c x asker dest a asker-Same
            ∙ admitted)
          (rw (r.reads_pgn) refl) (ap (on_can_frame c takes answer) ready-asker ∙ e) in
      (
        z,
        run,
        ap (λ u. u.sent) tp
            ∙ sent
            ∙ ap (λ fs. fs ++ (dt_frames c from.total_packets from 1 ++ closing c from))
                (sym (ap (λ u. u.sent) tp-asker))
            ∙ ap (λ fs. asker.tp.sent ++ (dt_frames c from.total_packets from 1 ++ fs))
                (closing-single c from (==-ne dest 0xFF one)),
      )

  -- The message as the receiver gives it to its callback.
  abbrev message : List Uint8 → Data c
  message b = record {
    header = set_payload_length c (length b) (
        set_pdu_specific c dest (
          set_source_address c (address_of c x own) (set_pgn c (pgn c d.header) (empty_header c))));
    payload = b;
  }

  reads_packets :
      (z : Connection c)
      → z.tp ≡ record answering { errors = [] }
      → z.has_on_read ≡ true
      → hears c z (address_of c x own) dest ≡ true
      → y.tp.has_rx_callback ≡ true
      → (end : Connection c) × (read_all c takes' (dt_frames c from.total_packets from 1) z
          ≡ some end)
        × (end.tp.delivered ≡ y.tp.delivered ++ message d.payload ∷ [])
  unfolding delivery put_session
  reads_packets z tp reads admitted heard =
      let a = address_of c x own in
      let w = Waits-same c takes' a fits from dest fits' refl refl z answering until 1 tp (
        Waits-answered c takes' all' from a dest fits fits' refl refl (omega arith) pgn-lt
          (ready c y) ((ready-same c y).2 ∙ heard) (omega arith) refl (omega arith)) in
      let (end, run, got) =
        read_dts c takes' a fits from dest fits' refl refl (from.total_packets - 1) 1 z until reads
          admitted w (omega arith) in
      (
        end,
        ap (λ k. read_all c takes' (dt_frames c k from 1) z) (omega arith) ∙ run,
        got
            ∙ ap
                (λ ds.
                  ds
                  ++ message
                      (reassemble (suc (from.total_packets - 1)) from 1 (zero_bytes from.length))
                    ∷ [])
                (ap (λ u. u.delivered) tp ∙ (ready-same c y).1)
            ∙ ap (λ b. y.tp.delivered ++ message b ∷ [])
                (reassemble-buffer from (omega arith) (omega arith) (omega arith)),
      )

  -- A long message from one connection to another on buses that take every frame: x sends a message of
  -- more than 8 and at most 1778 bytes whose PDU specific byte is the address of y. send returns true
  -- and x puts one frame on the bus; y, which reads it, puts one on the bus; x, which reads that,
  -- sends packets and one frame behind them; y, which reads the packets, gives its on_data callback
  -- exactly one more message: the same bytes, under the header that handle_dt makes, which
  -- reads back as both addresses, the PGN of the message and, up to 255 bytes, their number. (The local name of x has an address, not the idle one, that of y has the PDU
  -- specific byte, which is not 255, and both are 8-bit numbers; a target name that is set has the
  -- other's address; the callbacks for reads and messages are set; no error of an earlier call of x
  -- is pending.)
  pub send-transfer :
      (own' : Name)
      → y.local_name ≡ some own'
      → address_of c y own' ≡ pdu_specific c d.header
      → holds y.network y.target_name (address_of c x own) ≡ true
      → holds x.network x.target_name (pdu_specific c d.header) ≡ true
      → x.has_on_read ≡ true
      → y.has_on_read ≡ true
      → y.tp.has_rx_callback ≡ true
      → (x' : Connection c) × (x'' : Connection c) × (y' : Connection c) × (y'' : Connection c)
        × (ask : Frame c) × (reply : Frame c) × (packets : List (Frame c)) × (last : Frame c)
        × (send c takes d x ≡ some (x', true))
        × (x'.tp.sent ≡ x.tp.sent ++ ask ∷ [])
        × (on_received c takes' (frame ask) y ≡ some y')
        × (y'.tp.sent ≡ y.tp.sent ++ reply ∷ [])
        × (on_received c takes (frame reply) x' ≡ some x'')
        × (x''.tp.sent ≡ x'.tp.sent ++ (packets ++ last ∷ []))
        × (read_all c takes' packets y' ≡ some y'')
        × (y''.tp.delivered
            ≡ y.tp.delivered
              ++ record {
                header = set_payload_length c (length d.payload) (
                    set_pdu_specific c (pdu_specific c d.header) (
                      set_source_address c
                        (address_of c x own)
                        (set_pgn c (pgn c d.header) (empty_header c))));
                payload = d.payload;
              }
                ∷ [])
        × Says c (address_of c x own) (pgn c d.header) (length d.payload) (
            set_payload_length c (length d.payload) (
              set_pdu_specific c (pdu_specific c d.header) (
                set_source_address c
                  (address_of c x own)
                  (set_pgn c (pgn c d.header) (empty_header c)))))
        × (pdu_specific c (
              set_payload_length c (length d.payload) (
                set_pdu_specific c (pdu_specific c d.header) (
                  set_source_address c
                    (address_of c x own)
                    (set_pgn c (pgn c d.header) (empty_header c)))))
            ≡ pdu_specific c d.header)
  unfolding put_session
  send-transfer own' local' at_dest from_x from_y reads_x reads_y heard =
      let a = address_of c x own in
      let hears_y : hears c y a dest ≡ true = hears-holds c y own' a dest local' at_dest from_x in
      let hears_x : hears c x dest a ≡ true = hears-holds c x own dest a local refl from_y in
      let own_address = ap (λ u. u.bus_address) (ready-named c y own' local') ∙ at_dest in
      let (y', run, tp, same) = reads_asking reads_y own_address hears_y in
      let (x'', back, sent) = reads_answer reads_x hears_x in
      let (y'', rest, got) =
        reads_packets y' tp (same.3 ∙ reads_y) (hears-Same c y y' a dest same ∙ hears_y) heard in
      let (said, goes) =
        to_one-Says c a (pgn c d.header) (length d.payload) fits pgn-lt dest fits' in
      (
        asker,
        x'',
        y',
        y'',
        asking,
        answer,
        dt_frames c from.total_packets from 1,
        end_of c from,
        send-asker,
        ap (λ u. u.sent) tp-asker,
        run,
        ap (λ u. u.sent) tp ∙ ap (λ fs. fs ++ answer ∷ []) (ready-same c y).4,
        back,
        sent,
        rest,
        got,
        record {
          says_source = said.says_source;
          says_pgn = said.says_pgn ∙ kept_pgn_to-pgn c d.header;
          says_length = said.says_length;
        },
        goes,
      )
