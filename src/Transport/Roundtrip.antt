-- ===== src/Transport/Roundtrip.antt =====
-- A broadcast from start_tx of one node to the rx callback of another.
use jay.Base.{
  ℕ, suc, ◌+◌, ◌-◌, ◌*◌, ◌^◌, ◌<◌, ◌≤◌, ◌≡◌, refl, ap, ◌∙◌, arith, Bool, true, some, List, [], inl,
  ◌∷◌, ◌++◌, length,
}
use jay.Base.Map.{find-set_self}
use jay.Types.{Address, Pgn, Uint8, j1939_no_addr}
use jay.Frame.{Frame}
use jay.Header.Canary.{Canary}
use jay.Transport.Defs.{
  Session, Tp, new_session, rx, same_key, put_session, bam, make_cm_frame, fill_tp_payload,
}
use jay.Transport.Send.{start_tx}
use jay.Header.{source_address, set_payload_length, set_source_address, set_pgn, empty_header}
use jay.Transport.Receive.{on_can_frame, handle_cm, start_rx_bam, bam_session, delivery, zero_bytes}
use jay.Transport.Frames.{
  make_cm_frame-Reads, length-fill_tp_payload, get_payload_pgn-fill_tp_payload,
}
use jay.Transport.Reassembly.{reassemble, reassemble-buffer, length-zero_bytes}
use jay.Transport.Stream.{dt_frames, bam_frame, stream, sender, start_tx-sent}
use jay.Transport.Delivery.{same_key-key, receive_all, receive_all-step}
use jay.Transport.Receiving.{Waits, receive_dts, global-lt}

module _ (c : Canary) (takes : ℕ → Bool) (src : Address) (hs : src < 2 ^ 8) (from : Session)
    (to_all : from.dest_sa ≡ 0xFF) (by : from.src_sa ≡ src) where
  -- The session that the announcement starts at a receiver.
  abbrev pub started : Tp c → Session
  started r = record new_session {
    dir = rx;
    is_bam = true;
    length = from.length;
    total_packets = from.total_packets;
    dest_sa = 0xFF;
    src_sa = src;
    pgn = from.pgn;
    buffer = zero_bytes from.length;
    last_activity = r.clock;
  }

  bam_session-bam_frame :
      (r : Tp c)
      → from.length < 2 ^ 16
      → from.pgn < 2 ^ 24
      → bam_session c takes (bam_frame c from) r ≡ started r
  unfolding bam_frame fill_tp_payload
  bam_session-bam_frame r hl hp =
      let f = make_cm_frame c bam j1939_no_addr from.src_sa in
      let reads =
        make_cm_frame-Reads c j1939_no_addr from.src_sa (omega arith) (omega (arith, by)) bam in
      ap
        (λ k. record (bam_session c takes (bam_frame c from) r) {
          length = k;
          buffer = zero_bytes k;
        })
        (length-fill_tp_payload c from f hl)
      ∙ ap (λ k. record (started r) { pgn = k; src_sa = source_address c f.header })
          (get_payload_pgn-fill_tp_payload c from f hp)
      ∙ ap (λ k. record (started r) { src_sa = k }) (reads.reads_src ∙ by)

  pub on_can_frame-bam :
      (r : Tp c)
      → from.length < 2 ^ 16
      → from.pgn < 2 ^ 24
      → on_can_frame c takes (bam_frame c from) r ≡ some (put_session c (src, 0xFF) (started r) r)
  unfolding on_can_frame handle_cm start_rx_bam bam_frame fill_tp_payload make_cm_frame
  on_can_frame-bam r hl hp =
      let reads =
        make_cm_frame-Reads c j1939_no_addr from.src_sa (omega arith) (omega (arith, by)) bam in
      let e : on_can_frame c takes (bam_frame c from) r
          ≡ some (start_rx_bam c takes (bam_frame c from) r) =
        rw (reads.reads_pgn) refl in
      e ∙ ap (λ s. some (put_session c (s.src_sa, s.dest_sa) s r)) (bam_session-bam_frame r hl hp)

  pub Waits-started :
      (r : Tp c)
      → r.has_rx_callback ≡ true
      → from.total_packets ≤ 255
      → from.total_packets * 7 ≤ from.length + 6
      → Waits c takes src hs from 0xFF global-lt to_all by
          (put_session c (src, 0xFF) (started r) r)
          (started r)
          1
  unfolding put_session
  Waits-started r heard small fits = record {
    owned = find-set_self same_key same_key-key (src, 0xFF) (started r) r.sessions;
    kind = inl refl;
    next = refl;
    low = omega arith;
    small = small;
    window = omega arith;
    fits = omega (arith, fits, length-zero_bytes from.length);
    heard = heard;
  }

-- On a bus that takes every frame, start_tx of more than 8 and at most 1785 bytes to all, with a PGN
-- below 2 ^ 24, returns and puts frames on the bus that a node with an rx callback, whatever
-- sessions it has, turns into one more delivered message: the same bytes, under a header with the
-- sender's address, an 8-bit number, the PGN and the number of bytes.
pub start_tx-receive_all :
    (c : Canary) (takes takes' : ℕ → Bool) (all : (i : ℕ) → takes i ≡ true) (bytes : List Uint8)
    (pgn : Pgn) (t r : Tp c)
    → 8 < length bytes
    → length bytes ≤ 1785
    → pgn < 2 ^ 24
    → t.bus_address < 2 ^ 8
    → r.has_rx_callback ≡ true
    → (t' : Tp c) × (ok : Bool) × (frames : List (Frame c)) × (r' : Tp c) × (start_tx c takes bytes
          0xFF pgn t
        ≡ some (t', ok))
      × (t'.sent ≡ t.sent ++ frames)
      × (receive_all c takes' frames r ≡ some r')
      × (r'.delivered
          ≡ r.delivered
            ++ record {
              header =
                  set_payload_length c
                    (length bytes)
                    (set_source_address c t.bus_address (set_pgn c pgn (empty_header c)));
              payload = bytes;
            }
              ∷ [])
unfolding delivery put_session
start_tx-receive_all c takes takes' all bytes pgn t r low high hp hs heard =
    let from = sender c takes all bytes pgn t low high in
    let (t', ok, e, sent) = start_tx-sent c takes all bytes pgn t low high in
    let w =
      Waits-started c takes' t.bus_address hs from refl refl r heard (omega arith) (omega arith) in
    let (r', run, got) =
      receive_dts c takes' t.bus_address hs from 0xFF global-lt refl refl (from.total_packets - 1) 1
        _ _ w (omega arith) in
    let s = started c takes' t.bus_address hs from refl refl r in
    let buffer-eq : reassemble (suc (from.total_packets - 1)) from 1 (zero_bytes from.length)
        ≡ bytes =
      reassemble-buffer from (omega arith) (omega arith) (omega arith) in
    (
      t',
      ok,
      stream c takes all bytes pgn t low high,
      r',
      e,
      sent,
      receive_all-step c takes' (bam_frame c from) (dt_frames c from.total_packets from 1) r _
            (on_can_frame-bam c takes' t.bus_address hs from refl refl r (omega arith) hp)
          ∙ ap
              (λ k.
                receive_all c takes' (dt_frames c k from 1)
                  (put_session c (t.bus_address, 0xFF) s r))
              (omega arith)
          ∙ run,
      got
          ∙ ap
              (λ b.
                r.delivered
                ++ record {
                  header =
                      set_payload_length c (length b)
                        (set_source_address c t.bus_address (set_pgn c pgn (empty_header c)));
                  payload = b;
                }
                  ∷ [])
              buffer-eq,
    )
