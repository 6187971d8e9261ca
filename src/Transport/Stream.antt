-- ===== src/Transport/Stream.antt =====
-- The frames that start_tx hands to a bus that takes every frame, for a broadcast.
use mathlib.Core.List.{append_assoc, append-nil}
use jay.Base.{
  ℕ, zero, suc, ◌+◌, ◌-◌, ◌*◌, ◌%◌, ◌^◌, ◌<◌, ◌≤◌, ◌≡◌, refl, ap, ◌∙◌, ◌⊎◌, inl, inr, if◌then◌else◌,
  arith, Bool, true, Option, none, some, some-injective, List, [], ◌∷◌, ◌++◌, length,
}
use jay.Types.{Pgn, Uint8, j1939_no_addr}
use jay.Frame.{Frame}
use jay.Header.Canary.{Canary}
use jay.Transport.Defs.{
  Session, Tp, bam, eom, send_eom_ack, bus_send, make_dt_frame, make_cm_frame, fill_tp_payload,
}
use jay.Transport.Send.{
  Worked, send_packets, start_tx, tx_session, finish_packets, dt_payload, send_bam_start, keep,
}
use jay.Transport.Broadcast.{send_packets-suc, send_bam_start-takes, start_tx_bam, took}

module _ (c : Canary) where
  -- The data frame of a number, and `count` of them.
  abbrev pub dt_frame : Session → ℕ → Frame c
  dt_frame s seq = record (make_dt_frame c s) { payload = dt_payload (record s { next_seq = seq }) }

  unfoldable pub dt_frames : ℕ → Session → ℕ → List (Frame c)
  dt_frames zero s seq = []
  dt_frames (suc count) s seq = dt_frame s seq ∷ dt_frames count s (seq + 1)

  -- The frame that send_data_packets sends behind the last packet.
  unfoldable pub closing : Session → List (Frame c)
  closing s =
      let f = fill_tp_payload c s (make_cm_frame c eom s.src_sa s.dest_sa) in
      if s.is_bam then [] else record f { payload = record (f.payload) { b4 = 0xFF } } ∷ []

  module _ (takes : ℕ → Bool) (all : (i : ℕ) → takes i ≡ true) (s : Session)
      (whole : (s.is_bam ≡ true) ⊎ (s.total_packets ≤ 254)) where
    -- The session while it sends.
    abbrev sending : ℕ → ℕ → Session
    sending seq time = record s { next_seq = seq; last_activity = time }

    abbrev pub frames_of : Option (Worked c takes) → Option (List (Frame c))
    frames_of none = none
    frames_of (some (_, t, _)) = some t.sent

    finish_packets-sent :
        (seq time : ℕ) (t : Tp c)
        → (s.is_bam ≡ true) ⊎ (s.total_packets < seq)
        → (finish_packets c takes (sending seq time) t).1.sent ≡ t.sent ++ closing s
    unfolding finish_packets send_eom_ack closing fill_tp_payload bus_send
    finish_packets-sent seq time t (inl e) = ground (arith, e, append-nil t.sent)
    finish_packets-sent seq time t (inr over) = ground (arith, over, all t.sends, append-nil t.sent)

    -- The loop ends by its count, or behind the last packet.
    send_packets-none :
        (seq time : ℕ) (t : Tp c)
        → (s.is_bam ≡ true) ⊎ (s.total_packets < seq)
        → frames_of (send_packets c takes 0 (sending seq time) t) ≡ some (t.sent ++ closing s)
    unfolding send_packets
    send_packets-none seq time t e = ap some (finish_packets-sent seq time t e)

    send_packets-over :
        (count seq time : ℕ) (t : Tp c)
        → s.total_packets < seq
        → frames_of (send_packets c takes count (sending seq time) t) ≡ some (t.sent ++ closing s)
    unfolding send_packets
    send_packets-over zero seq time t h = ap some (finish_packets-sent seq time t (inr h))
    send_packets-over (suc count) seq time t h =
        ground (arith, finish_packets-sent seq time t (inr h))

    send_packets-last :
        (count seq time : ℕ) (t : Tp c)
        → seq ≡ s.total_packets
        → seq + suc count ≤ 256
        → frames_of (send_packets c takes count (sending ((seq + 1) % 2 ^ 8) time) t)
          ≡ some (t.sent ++ closing s)
    send_packets-last zero seq time t e room =
        send_packets-none ((seq + 1) % 2 ^ 8) time t
          (elim whole [ inl b ↦ inl b | inr few ↦ inr (omega arith) ])
    send_packets-last (suc count) seq time t e room =
        send_packets-over (suc count) ((seq + 1) % 2 ^ 8) time t (omega arith)

    -- n packets are left, from the number seq on.
    pub send_packets-sent :
        (n count seq time : ℕ) (t : Tp c)
        → 1 ≤ seq
        → seq + n ≡ s.total_packets
        → n < count
        → seq + count ≤ 256
        → s.total_packets * 7 ≤ length s.buffer + 6
        → frames_of (send_packets c takes count (sending seq time) t)
          ≡ some (t.sent ++ (dt_frames (suc n) s seq ++ closing s))
    unfolding dt_frames make_dt_frame dt_payload
    send_packets-sent n zero seq time t low left few room fits = absurd (omega arith)
    send_packets-sent zero (suc count) seq time t low left few room fits =
        ap frames_of
          (send_packets-suc c takes all count (sending seq time) t low (omega arith) (omega arith))
        ∙ send_packets-last count seq t.clock (took c takes all (sending seq time) t) (omega arith)
            room
        ∙ ap some (append_assoc t.sent (dt_frame s seq ∷ []) (closing s))
    send_packets-sent (suc n) (suc count) seq time t low left few room fits =
        ap frames_of
          (send_packets-suc c takes all count (sending seq time) t low (omega arith) (omega arith))
        ∙ ap
            (λ k. frames_of (
              send_packets c takes count (sending k t.clock)
                (took c takes all (sending seq time) t)))
            (omega arith)
        ∙ send_packets-sent n count (seq + 1) t.clock (took c takes all (sending seq time) t)
            (omega arith) (omega arith) (omega arith) (omega arith) fits
        ∙ ap some
            (append_assoc t.sent (dt_frame s seq ∷ []) (dt_frames (suc n) s (seq + 1) ++ closing s))

  -- The frame that announces a broadcast.
  unfoldable pub bam_frame : Session → Frame c
  bam_frame s = fill_tp_payload c s (make_cm_frame c bam j1939_no_addr s.src_sa)

  module _ (takes : ℕ → Bool) (all : (i : ℕ) → takes i ≡ true) (bytes : List Uint8) (pgn : Pgn)
      (t : Tp c) (low : 8 < length bytes) (high : length bytes ≤ 1785) where
    -- The session of the sender, and the frames that it sends.
    abbrev pub sender : Session
    sender = tx_session c takes bytes 0xFF pgn t

    abbrev pub stream : List (Frame c)
    stream = bam_frame sender ∷ dt_frames sender.total_packets sender 1

    keep-sent :
        (x : Option (Worked c takes)) (fs : List (Frame c))
        → frames_of takes all sender (inl refl) x ≡ some fs
        → (t' : Tp c) × (ok : Bool) × (elim x [
          | none ↦ none
          | some worked ↦ some (keep c takes worked)
        ]
            ≡ some (t', ok))
          × (t'.sent ≡ fs)
    unfolding keep
    keep-sent none fs e = cc
    keep-sent (some (s, t', ok)) fs e = (_, ok, refl, some-injective _ _ e)

    send_bam_start-sent :
        frames_of takes all sender (inl refl) (send_bam_start c takes sender t)
        ≡ some (t.sent ++ stream)
    unfolding bam_frame closing
    send_bam_start-sent =
        ap (frames_of takes all sender (inl refl)) (send_bam_start-takes c takes all sender t)
        ∙ send_packets-sent takes all sender (inl refl) (sender.total_packets - 1) 255 1 t.clock _
            (omega arith) (omega arith) (omega arith) (omega arith) (omega arith)
        ∙ ap (λ fs. some ((t.sent ++ bam_frame sender ∷ []) ++ fs))
            (append-nil (dt_frames (suc (sender.total_packets - 1)) sender 1))
        ∙ ap (λ k. some ((t.sent ++ bam_frame sender ∷ []) ++ dt_frames k sender 1)) (omega arith)
        ∙ ap some
            (append_assoc t.sent (bam_frame sender ∷ []) (dt_frames sender.total_packets sender 1))

    -- start_tx returns, and the bus has the stream.
    pub start_tx-sent :
        (t' : Tp c) × (ok : Bool) × (start_tx c takes bytes 0xFF pgn t ≡ some (t', ok))
        × (t'.sent ≡ t.sent ++ stream)
    start_tx-sent =
        let (t', ok, e, sent) =
          keep-sent (send_bam_start c takes sender t) (t.sent ++ stream) send_bam_start-sent in
        (t', ok, start_tx_bam c takes all bytes pgn t low high ∙ e, sent)
