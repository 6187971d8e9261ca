-- ===== src/Transport/Handshake/Sender.antt =====
-- The sender of include/jay/transport_protocol.hpp in a handshake: start_tx and handle_cts.
use jay.Base.{
  ℕ, ◌-◌, ◌^◌, ◌<◌, ◌≤◌, ◌≡◌, ◌≢◌, refl, ap, ◌∙◌, arith, Bool, true, false, ◌==◌, ◌⊎◌, inr, Option,
  none, some, some-injective, List, ◌++◌, length, if◌then◌else◌, leb, ltb,
}
use jay.Base.Map.{find-set_self}
use jay.Types.{Address, Pgn, Uint8}
use jay.Frame.{Frame}
use jay.Header.{pgn as header_pgn, source_address}
use jay.Header.Canary.{Canary}
use jay.Transport.Defs.{
  Session, Tp, Key, pgn_tp_cm, tx, cts_without_session, same_key, session_at, put_session,
}
use jay.Transport.Send.{
  start_tx, tx_session, send_rts, send_bam_start, send_data_packets, keep, Worked,
}
use jay.Transport.Receive.{on_can_frame, handle_cm, handle_cts, reject}
use jay.Transport.Frames.{Reads}
use jay.Transport.Stream.{dt_frames, closing, send_packets-sent, frames_of}
use jay.Transport.Delivery.{same_key-key}
use jay.Transport.Handshake.Steps.{took, bus_send-takes, rts_frame}

module _ (c : Canary) (takes : ℕ → Bool) (all : (i : ℕ) → takes i ≡ true) where
  -- What handle_cts does for a session.
  abbrev resume : Key → Option (Worked c takes) → Option (Tp c)
  resume key x = elim x [ none ↦ none | some (s, t, _) ↦ some (put_session c key s t) ]

  handle_cts-resume :
      (f : Frame c) (t : Tp c) (s : Session) (peer : Address)
      → source_address c f.header ≡ peer
      → session_at c t (t.bus_address, peer) ≡ some s
      → handle_cts c takes f t
        ≡ resume
            (t.bus_address, peer)
            (send_data_packets c takes
              (record s { window_size = f.payload.b1; next_seq = f.payload.b2 })
              t)
  unfolding handle_cts
  handle_cts-resume f t s peer by owned =
      let go : Address → Option Session → Option (Tp c) = λ k x. elim x [
        | some s ↦
            resume (t.bus_address, k)
              (send_data_packets c takes
                (record s { window_size = f.payload.b1; next_seq = f.payload.b2 }) t)
        | none ↦ some (reject c takes tx cts_without_session f t)
      ] in
      ap (λ k. go k (session_at c t (t.bus_address, k))) by ∙ ap (go peer) owned

  resume-sent :
      (key : Key) (s : Session) (whole : (s.is_bam ≡ true) ⊎ (s.total_packets ≤ 254))
      (x : Option (Worked c takes)) (fs : List (Frame c))
      → frames_of c takes all s whole x ≡ some fs
      → (t' : Tp c) × (resume key x ≡ some t') × (t'.sent ≡ fs)
  unfolding put_session
  resume-sent key s whole none fs e = cc
  resume-sent key s whole (some (s', t', ok)) fs e = (_, refl, some-injective _ _ e)

  on_can_frame-handle_cts :
      (f : Frame c) (t : Tp c)
      → header_pgn c f.header ≡ pgn_tp_cm
      → f.payload.b0 ≡ 0x11
      → on_can_frame c takes f t ≡ handle_cts c takes f t
  unfolding on_can_frame handle_cm
  on_can_frame-handle_cts f t cm b0 = rw (cm, b0) refl

  module _ (bytes : List Uint8) (dest : Address) (pgn : Pgn) (t : Tp c) (low : 8 < length bytes)
      (high : length bytes ≤ 1778) (one : dest ≢ 0xFF) where
    abbrev pub sender : Session
    sender = tx_session c takes bytes dest pgn t

    abbrev start : Bool → Option (Tp c × Bool)
    start b =
        if b
        then elim (send_bam_start c takes sender t) [
          | none ↦ none
          | some worked ↦ some (keep c takes worked)
        ]
        else some (keep c takes (send_rts c takes sender t))

    start_tx-send_rts :
        start_tx c takes bytes dest pgn t ≡ some (keep c takes (send_rts c takes sender t))
    unfolding start_tx
    start_tx-send_rts =
        let e : leb (length bytes) 8 ≡ false = ground arith in
        let e' : ltb 1785 (length bytes) ≡ false = ground arith in
        let e'' : (dest == 0xFF) ≡ false = ground (arith, one) in
        let whole : start_tx c takes bytes dest pgn t ≡ start (dest == 0xFF) = rw (e, e') refl in
        whole ∙ ap start e''

    send_rts-takes :
        send_rts c takes sender t
        ≡ (sender, took c takes all (rts_frame c takes all sender) t, true)
    unfolding send_rts
    send_rts-takes = rw (bus_send-takes c takes all (rts_frame c takes all sender) t) refl

    -- The sender after the RTS.
    abbrev pub asked : Tp c
    asked =
        put_session c (t.bus_address, dest) sender
          (took c takes all (rts_frame c takes all sender) t)

    pub start_tx-rts : start_tx c takes bytes dest pgn t ≡ some (asked, true)
    unfolding keep
    start_tx-rts = start_tx-send_rts ∙ ap (λ w. some (keep c takes w)) send_rts-takes

    module _ (hd : dest < 2 ^ 8) (hs : t.bus_address < 2 ^ 8) where
      few : sender.total_packets ≤ 254
      few = omega arith

      -- A CTS for all the packets makes the sender send them.
      pub on_can_frame-cts :
          (f : Frame c)
          → Reads c f pgn_tp_cm t.bus_address dest
          → f.payload.b0 ≡ 0x11
          → f.payload.b1 ≡ 0xFF
          → f.payload.b2 ≡ 1
          → (t' : Tp c) × (on_can_frame c takes f asked ≡ some t')
            × (t'.sent
                ≡ asked.sent ++ (dt_frames c sender.total_packets sender 1 ++ closing c sender))
      unfolding put_session send_data_packets
      on_can_frame-cts f reads b0 b1 b2 =
          let run =
            on_can_frame-handle_cts f asked reads.reads_pgn b0
            ∙ handle_cts-resume f asked sender dest reads.reads_src
                (find-set_self same_key same_key-key (t.bus_address, dest) sender t.sessions)
            ∙ ap
                (λ w.
                  resume (t.bus_address, dest)
                    (send_data_packets c takes
                      (record sender { window_size = w; next_seq = f.payload.b2 }) asked))
                b1
            ∙ ap
                (λ n.
                  resume (t.bus_address, dest)
                    (send_data_packets c takes (record sender { window_size = 0xFF; next_seq = n })
                      asked))
                b2 in
          let (t', back, sent) =
            resume-sent (t.bus_address, dest) sender (inr few) _ _
              (send_packets-sent c takes all sender (inr few) (sender.total_packets - 1) 255 1
                t.clock asked (omega arith) (omega arith) (omega arith) (omega arith)
                (omega arith)) in
          (
            t',
            run ∙ back,
            sent
                ∙ ap (λ k. asked.sent ++ (dt_frames c k sender 1 ++ closing c sender))
                    (omega arith),
          )
