-- ===== src/Connection/Messages.antt =====
-- A long message from one connection to all others.
use jay.Base.{
  ℕ, suc, ◌-◌, ◌^◌, ◌<◌, ◌≤◌, ◌≡◌, ◌≢◌, refl, ap, ◌∙◌, arith, Bool, true, false, some, List, [],
  ◌∷◌, ◌++◌, length, ==-ne, Bool-cases, inl, inr, if◌then◌else◌, ◌&&◌,
}
use jay.Types.{j1939_idle_addr}
use jay.Name.{Name}
use jay.Frame.{Frame}
use jay.Header.{pgn, pdu_specific, set_payload_length, set_source_address, set_pgn, empty_header}
use jay.Header.Canary.{Canary}
use jay.Header.Fields.{pgn-eq}
use jay.Transport.{Tp, Data, Session, start_tx, delivery, zero_bytes, put_session}
use jay.Transport.Stream.{dt_frames, bam_frame, stream, sender, start_tx-sent}
use jay.Transport.Reassembly.{reassemble, reassemble-buffer}
use jay.Transport.Receiving.{global-lt}
use jay.Transport.Headers.{Says, kept_pgn-pgn, to_all-Says}
use jay.Transport.Roundtrip.{started, on_can_frame-bam, Waits-started}
use jay.Connection.Defs.{Connection, address_of, after_tp, set_bus_address}
use jay.Connection.Send.{send, send_long}
use jay.Connection.Packets.{
  ready, ready-same, read_all, read_all-step, read_all-other, on_received-tp,
}
use jay.Connection.Reassembly.{
  holds, hears, Strange-dt_frames, read_dts, Waits-same, admits-hears, hears-Same,
}
use jay.Transport.{bam, pgn_tp_cm, fill_tp_payload}
use jay.Transport.Frames.{Reads, make_cm_frame-Reads}
use jay.Connection.Receive.{normal_pgn}
use jay.Connection.Reading.{tp-report_all}

module _ (c : Canary) (takes : ℕ → Bool) (d : Data c) (x : Connection c) where
  pub send-send_long : 8 < length d.payload → send c takes d x ≡ send_long c takes d x
  unfolding send
  send-send_long low = ground arith

  pub send_long-start_tx :
      (own : Name) (t : Tp c) (ok : Bool)
      → x.local_name ≡ some own
      → address_of c x own ≢ j1939_idle_addr
      → let x' = set_bus_address c (address_of c x own) x in
        start_tx c takes d.payload (pdu_specific c d.header) (pgn c d.header) x'.tp ≡ some (t, ok)
        → send_long c takes d x ≡ some (after_tp c t x', ok)
  unfolding send_long
  send_long-start_tx own t ok local src e =
      rw (local, ==-ne (address_of c x own) j1939_idle_addr src, e) refl

module _ (c : Canary) (takes : ℕ → Bool) (all : (i : ℕ) → takes i ≡ true) (x : Connection c)
    (own : Name) (d : Data c) (local : x.local_name ≡ some own)
    (src : address_of c x own ≢ j1939_idle_addr) (fits : address_of c x own < 2 ^ 8)
    (low : 8 < length d.payload) (high : length d.payload ≤ 1785)
    (to_all : pdu_specific c d.header ≡ 0xFF) where
  abbrev at_start : Tp c
  at_start = (set_bus_address c (address_of c x own) x).tp

  abbrev frames : List (Frame c)
  frames = stream c takes all d.payload (pgn c d.header) at_start low high

  pgn-lt : pgn c d.header < 2 ^ 24
  pgn-lt = ground (arith, pgn-eq c d.header, c.get_id-lt d.header)

  send-stream :
      (x' : Connection c) × (ok : Bool) × (send c takes d x ≡ some (x', ok))
      × (x'.tp.sent ≡ x.tp.sent ++ frames)
  unfolding after_tp
  send-stream =
      let (t, ok, e, sent) =
        start_tx-sent c takes all d.payload (pgn c d.header) at_start low high in
      (
        after_tp c t (set_bus_address c (address_of c x own) x),
        ok,
        send-send_long c takes d x low
            ∙ send_long-start_tx c takes d x own t ok local src
                (ap (λ a. start_tx c takes d.payload a (pgn c d.header) at_start) to_all ∙ e),
        ap (λ u. u.sent) (tp-report_all c t.errors _) ∙ sent,
      )

  -- The sender's session.
  abbrev from : Session
  from = sender c takes all d.payload (pgn c d.header) at_start low high

  bam_frame-Reads : Reads c (bam_frame c from) pgn_tp_cm 0xFF (address_of c x own)
  unfolding bam_frame fill_tp_payload
  bam_frame-Reads =
      let r = make_cm_frame-Reads c 0xFF (address_of c x own) global-lt fits bam in
      record { reads_pgn = r.reads_pgn; reads_dst = r.reads_dst; reads_src = r.reads_src }

  module _ (takes' : ℕ → Bool) (y : Connection c) (reads : y.has_on_read ≡ true) where
    read_stream :
        y.tp.has_rx_callback ≡ true
        → hears c y (address_of c x own) 0xFF ≡ true
        → (z : Connection c) × (read_all c takes' frames y ≡ some z)
          × (z.tp.delivered
              ≡ y.tp.delivered
                ++ record {
                  header = set_payload_length c (length d.payload) (
                      set_source_address c
                        (address_of c x own)
                        (set_pgn c (pgn c d.header) (empty_header c)));
                  payload = d.payload;
                }
                  ∷ [])
    unfolding normal_pgn delivery put_session
    read_stream heard admitted =
        let a = address_of c x own in
        let r = ready c y in
        let s = started c takes' a fits from refl refl r in
        let (z, run, tp, same) =
          on_received-tp c takes' (bam_frame c from) y _ reads
            (admits-hears c y (bam_frame c from) _ 0xFF a bam_frame-Reads (omega arith) ∙ admitted)
            (rw (bam_frame-Reads.reads_pgn) refl)
            (on_can_frame-bam c takes' a fits from refl refl r (omega arith) pgn-lt) in
        let w = Waits-same c takes' a fits from 0xFF global-lt refl refl z _ s 1 tp (
          Waits-started c takes' a fits from refl refl r ((ready-same c y).2 ∙ heard) (omega arith)
            (omega arith)) in
        let (end, rest, got) =
          read_dts c takes' a fits from 0xFF global-lt refl refl (from.total_packets - 1) 1 z s
            (same.3 ∙ reads) (hears-Same c y z a 0xFF same ∙ admitted) w (omega arith) in
        (
          end,
          read_all-step c takes' (bam_frame c from) (dt_frames c from.total_packets from 1) y z run
              ∙ ap (λ k. read_all c takes' (dt_frames c k from 1) z) (omega arith)
              ∙ rest,
          got
              ∙ ap
                  (λ ds.
                    ds
                    ++ delivery c takes' (record s {
                      buffer =
                          reassemble (suc (from.total_packets - 1)) from 1 (zero_bytes from.length);
                    })
                      ∷ [])
                  (ap (λ u. u.delivered) tp ∙ (ready-same c y).1)
              ∙ ap
                  (λ b.
                    y.tp.delivered
                    ++ record {
                      header =
                          set_payload_length c (length b)
                            (set_source_address c a (set_pgn c (pgn c d.header) (empty_header c)));
                      payload = b;
                    }
                      ∷ [])
                  (reassemble-buffer from (omega arith) (omega arith) (omega arith)),
        )

    read_stream-other :
        hears c y (address_of c x own) 0xFF ≡ false
        → (z : Connection c) × (read_all c takes' frames y ≡ some z)
          × (z.tp.delivered ≡ y.tp.delivered)
          × (z.tp.sessions ≡ y.tp.sessions)
          × (z.tp.sent ≡ y.tp.sent)
    read_stream-other other = read_all-other c takes' frames y reads (
      admits-hears c y (bam_frame c from) _ 0xFF (address_of c x own) bam_frame-Reads (omega arith)
          ∙ other,
      Strange-dt_frames c takes' (address_of c x own) fits from 0xFF global-lt refl refl
          from.total_packets 1 y other,
    )

    -- A connection with a local name whose address is not idle, on a bus that takes every frame,
    -- sends a message of more than 8 and at most 1785 bytes with the PDU specific byte 255: send
    -- returns and puts frames on the bus. Another connection, with both callbacks, that reads these
    -- frames gives its on_data callback exactly one more message if its target name and its local
    -- name, as far as they are set, have the sender's address and the address 255: the same bytes
    -- under the header that handle_dt makes, which reads back as the sender's address, the
    -- PGN of the message and, up to 255 bytes, their number. In every other case, so for each local
    -- name whose address is not 255, it gives nothing. (The sender's address is an 8-bit number.)
    pub send-read_all :
        y.tp.has_rx_callback ≡ true
        → let a = address_of c x own in
          (x' : Connection c) × (ok : Bool) × (fs : List (Frame c)) × (z : Connection c) × (send c
              takes d x
            ≡ some (x', ok))
          × (x'.tp.sent ≡ x.tp.sent ++ fs)
          × (read_all c takes' fs y ≡ some z)
          × (z.tp.delivered ≡ (
              if holds y.network y.target_name a && holds y.network y.local_name 0xFF
              then y.tp.delivered
                ++ record {
                  header =
                      set_payload_length c
                        (length d.payload)
                        (set_source_address c a (set_pgn c (pgn c d.header) (empty_header c)));
                  payload = d.payload;
                }
                  ∷ []
              else y.tp.delivered))
          × Says c a (pgn c d.header) (length d.payload) (
              set_payload_length c
                (length d.payload)
                (set_source_address c a (set_pgn c (pgn c d.header) (empty_header c))))
    send-read_all heard =
        let (x', ok, e, sent) = send-stream in
        let said =
          to_all-Says c (address_of c x own) (pgn c d.header) (length d.payload) fits pgn-lt in
        let says : Says c (address_of c x own) (pgn c d.header) (length d.payload) (
            set_payload_length c (length d.payload) (
              set_source_address c (address_of c x own)
                (set_pgn c (pgn c d.header) (empty_header c)))) =
          record {
            says_source = said.says_source;
            says_pgn = said.says_pgn ∙ kept_pgn-pgn c d.header;
            says_length = said.says_length;
          } in
        elim (Bool-cases (hears c y (address_of c x own) 0xFF)) [
          | inl reached ↦
              let (z, run, got) = read_stream heard reached in
              (x', ok, frames, z, e, sent, run, got ∙ rw reached refl, says)
          | inr other ↦
              let (z, run, got, _, _) = read_stream-other other in
              (x', ok, frames, z, e, sent, run, got ∙ rw other refl, says)
        ]
