-- ===== src/Transport/Handshake/Receiver.antt =====
-- The receiver of include/jay/transport_protocol.hpp in a handshake: start_rx_rts.
use jay.Base.{
  ℕ, ◌+◌, ◌*◌, ◌^◌, ◌<◌, ◌≤◌, ◌≡◌, refl, ap, ◌∙◌, arith, Bool, true, ◌==◌, inr, some, if◌then◌else◌,
}
use jay.Base.Map.{find-set_self}
use jay.Types.{Address, j1939_no_addr}
use jay.Header.{source_address, pdu_specific, is_broadcast}
use jay.Header.Canary.{Canary}
use jay.Transport.Defs.{
  Session, Tp, pgn_tp_cm, new_session, rx, rts, same_key, put_session, make_cm_frame,
  fill_tp_payload, response_cts,
}
use jay.Transport.Receive.{on_can_frame, handle_cm, start_rx_rts, rts_session, zero_bytes}
use jay.Transport.Frames.{
  Reads, make_cm_frame-Reads, make_cm_frame-single, length-fill_tp_payload,
  get_payload_pgn-fill_tp_payload,
}
use jay.Transport.Reassembly.{length-zero_bytes}
use jay.Transport.Delivery.{same_key-key}
use jay.Transport.Receiving.{Waits}
use jay.Transport.Handshake.Steps.{took, rts_frame, cts_frame, response_cts-takes}

module _ (c : Canary) (takes : ℕ → Bool) (all : (i : ℕ) → takes i ≡ true) where
  -- The receiver of the RTS of a session.
  module _ (from : Session) (src dst : Address) (hs : src < 2 ^ 8) (hd : dst < 2 ^ 8)
      (by : from.src_sa ≡ src) (to : from.dest_sa ≡ dst) (hl : from.length < 2 ^ 16)
      (hp : from.pgn < 2 ^ 24) where
    -- The session that the RTS starts.
    abbrev pub started : Tp c → Session
    started r = record new_session {
      dir = rx;
      length = from.length;
      total_packets = from.total_packets;
      window_size = from.window_size;
      dest_sa = dst;
      src_sa = src;
      pgn = from.pgn;
      buffer = zero_bytes from.length;
      last_activity = r.clock;
    }

    pub rts_frame-Reads : Reads c (make_cm_frame c rts from.dest_sa from.src_sa) pgn_tp_cm dst src
    rts_frame-Reads =
        let r =
          make_cm_frame-Reads c from.dest_sa from.src_sa (omega (arith, to)) (omega (arith, by))
            rts in
        record {
          reads_pgn = r.reads_pgn;
          reads_dst = r.reads_dst ∙ to;
          reads_src = r.reads_src ∙ by;
        }

    rts_session-rts_frame :
        (r : Tp c) → rts_session c takes (rts_frame c takes all from) r ≡ started r
    unfolding fill_tp_payload
    rts_session-rts_frame r =
        let f = make_cm_frame c rts from.dest_sa from.src_sa in
        let g = rts_frame c takes all from in
        let one =
          make_cm_frame-single c from.dest_sa from.src_sa (omega (arith, to)) (omega (arith, by))
            rts in
        ap (λ k. record (rts_session c takes g r) { length = k; buffer = zero_bytes k })
          (length-fill_tp_payload c from f hl)
        ∙ ap
            (λ k. record (started r) {
              pgn = k;
              src_sa = source_address c f.header;
              dest_sa = if is_broadcast c f.header then j1939_no_addr else pdu_specific c f.header;
            })
            (get_payload_pgn-fill_tp_payload c from f hp)
        ∙ ap
            (λ k. record (started r) {
              src_sa = source_address c f.header;
              dest_sa = if k then j1939_no_addr else pdu_specific c f.header;
            })
            one
        ∙ ap (λ k. record (started r) { src_sa = source_address c f.header; dest_sa = k })
            rts_frame-Reads.reads_dst
        ∙ ap (λ k. record (started r) { src_sa = k }) rts_frame-Reads.reads_src

    -- The receiver after its CTS.
    abbrev pub answered : Tp c → Tp c
    answered r =
        took c takes all (cts_frame c takes all (started r))
          (put_session c (src, dst) (started r) r)

    start_rx_rts-answered :
        (r : Tp c)
        → r.bus_address ≡ dst
        → start_rx_rts c takes (rts_frame c takes all from) r ≡ answered r
    unfolding start_rx_rts fill_tp_payload
    start_rx_rts-answered r own =
        let go : Bool → Session → Tp c = λ b s.
          if b then response_cts c takes s (put_session c (s.src_sa, s.dest_sa) s r) else r in
        let mine : (pdu_specific c (make_cm_frame c rts from.dest_sa from.src_sa).header
              == r.bus_address)
            ≡ true =
          ground (arith, rts_frame-Reads.reads_dst, own) in
        ap (λ b. go b (rts_session c takes (rts_frame c takes all from) r)) mine
        ∙ ap (go true) (rts_session-rts_frame r)
        ∙ response_cts-takes c takes all (started r) (put_session c (src, dst) (started r) r)

    pub on_can_frame-rts :
        (r : Tp c)
        → r.bus_address ≡ dst
        → on_can_frame c takes (rts_frame c takes all from) r ≡ some (answered r)
    unfolding on_can_frame handle_cm fill_tp_payload make_cm_frame
    on_can_frame-rts r own =
        let e : on_can_frame c takes (rts_frame c takes all from) r
            ≡ some (start_rx_rts c takes (rts_frame c takes all from) r) =
          rw (rts_frame-Reads.reads_pgn) refl in
        e ∙ ap some (start_rx_rts-answered r own)

    pub Waits-answered :
        (r : Tp c)
        → r.has_rx_callback ≡ true
        → from.total_packets ≤ 254
        → from.window_size ≡ 255
        → from.total_packets * 7 ≤ from.length + 6
        → Waits c takes src hs from dst hd to by (answered r) (started r) 1
    unfolding put_session
    Waits-answered r heard few window fits = record {
      owned = find-set_self same_key same_key-key (src, dst) (started r) r.sessions;
      kind = inr (refl, omega (arith, few, window));
      next = refl;
      low = omega arith;
      small = omega (arith, few);
      window = omega (arith, window);
      fits = omega (arith, fits, length-zero_bytes from.length);
      heard = heard;
    }
