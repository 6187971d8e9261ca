-- ===== src/Transport/Broadcast.antt =====
-- start_tx and send_data_packets on a bus that takes every frame.
use jay.Base.{
  ℕ, zero, suc, ◌+◌, ◌-◌, ◌*◌, ◌%◌, ◌^◌, ◌<◌, ◌≤◌, ◌≡◌, refl, ap, ◌∙◌, arith, Bool, true, false,
  Option, none, some, List, [], ◌∷◌, ◌++◌, length, leb, ltb,
}
use native.Mathlib.Decide.{dec_lt}
use jay.Frame.{Frame}
use jay.Types.{j1939_no_addr, Pgn, Uint8}
use jay.Header.Canary.{Canary}
use jay.Transport.Defs.{Session, Tp, bus_send, make_dt_frame, fill_tp_payload, make_cm_frame, bam}
use jay.Transport.Send.{
  Worked, send_packets, send_data_packets, send_bam_start, start_tx, tx_session, finish_packets,
  keep, dt_payload,
}

module _ (c : Canary) (takes : ℕ → Bool) (all : (i : ℕ) → takes i ≡ true) where
  -- The result of a function that works on a session, if it has one.
  abbrev outcome : Option (Worked c takes) → Option Bool
  outcome none = none
  outcome (some (_, _, ok)) = some ok

  abbrev pub result : Option (Tp c × Bool) → Option Bool
  result none = none
  result (some (_, ok)) = some ok

  finish-outcome :
      (s : Session) (t : Tp c) → (finish_packets c takes s t).2 ≡ ltb s.total_packets s.next_seq
  unfolding finish_packets
  finish-outcome s t = ground arith

  done :
      (count : ℕ) (s : Session) (t : Tp c)
      → s.total_packets < s.next_seq
      → outcome (send_packets c takes count s t) ≡ some true
  unfolding send_packets
  done zero s t h = ground (arith, finish-outcome s t)
  done (suc count) s t h = ground (arith, finish-outcome s t)

  -- The session and the state after one packet.
  abbrev pub advanced : Session → Tp c → Session
  advanced s t = record s { last_activity = t.clock; next_seq = (s.next_seq + 1) % 2 ^ 8 }

  abbrev pub took : Session → Tp c → Tp c
  took s t = record t {
    sends = suc t.sends;
    sent = t.sent ++ record (make_dt_frame c s) { payload = dt_payload s } ∷ [];
  }

  bus_send-takes :
      (f : Frame c) (t : Tp c)
      → bus_send c takes f t ≡ (record t { sends = suc t.sends; sent = t.sent ++ f ∷ [] }, true)
  unfolding bus_send
  bus_send-takes f t = rw (all t.sends) refl

  pub send_packets-suc :
      (count : ℕ) (s : Session) (t : Tp c)
      → 1 ≤ s.next_seq
      → s.next_seq ≤ s.total_packets
      → (s.next_seq - 1) * 7 ≤ length s.buffer
      → send_packets c takes (suc count) s t ≡ send_packets c takes count (advanced s t) (took s t)
  unfolding send_packets bus_send
  send_packets-suc count s t low high fits = ground (arith, all t.sends)

  completes :
      (count : ℕ) (s : Session) (t : Tp c)
      → 1 ≤ s.next_seq
      → s.total_packets < s.next_seq + count
      → s.total_packets < 255
      → s.total_packets * 7 ≤ length s.buffer + 6
      → outcome (send_packets c takes count s t) ≡ some true
  completes zero s t low enough few fits = done zero s t (omega arith)
  completes (suc count) s t low enough few fits = elim (dec_lt s.total_packets s.next_seq) [
    | yes over ↦ done (suc count) s t over
    | no more ↦
        ap outcome (send_packets-suc count s t low (omega arith) (omega arith))
        ∙ completes count (advanced s t) (took s t) (omega arith) (omega arith) few fits
  ]

  -- With 255 packets the number of the next packet wraps around to 0.
  wraps :
      (count : ℕ) (s : Session) (t : Tp c)
      → 1 ≤ s.next_seq
      → s.next_seq + count ≡ 255
      → s.total_packets ≡ 255
      → s.total_packets * 7 ≤ length s.buffer + 6
      → outcome (send_packets c takes (suc count) s t) ≡ some false
  wraps zero s t low last most fits =
      ap outcome (send_packets-suc 0 s t low (omega arith) (omega arith))
      ∙ (unfold send_packets in ground (arith, finish-outcome (advanced s t) (took s t)))
  wraps (suc count) s t low last most fits =
      ap outcome (send_packets-suc (suc count) s t low (omega arith) (omega arith))
      ∙ wraps count (advanced s t) (took s t) (omega arith) (omega arith) most fits

  pub send_bam_start-takes :
      (s : Session) (t : Tp c)
      → let f = fill_tp_payload c s (make_cm_frame c bam j1939_no_addr s.src_sa) in
        send_bam_start c takes s t
        ≡ send_packets c takes s.window_size
            (record s { last_activity = t.clock })
            (record t { sends = suc t.sends; sent = t.sent ++ f ∷ [] })
  unfolding send_bam_start send_data_packets
  send_bam_start-takes s t =
      rw (bus_send-takes (fill_tp_payload c s (make_cm_frame c bam j1939_no_addr s.src_sa)) t) refl

  result-keep :
      (x : Option (Worked c takes))
      → result (elim x [ none ↦ none | some worked ↦ some (keep c takes worked) ]) ≡ outcome x
  unfolding keep
  result-keep none = refl
  result-keep (some (s, t, ok)) = refl

  -- From 9 to 1785 bytes, start_tx to all is send_bam_start.
  pub start_tx_bam :
      (bytes : List Uint8) (pgn : Pgn) (t : Tp c)
      → 8 < length bytes
      → length bytes ≤ 1785
      → start_tx c takes bytes 0xFF pgn t
        ≡ elim (send_bam_start c takes (tx_session c takes bytes 0xFF pgn t) t) [
          | none ↦ none
          | some worked ↦ some (keep c takes worked)
        ]
  unfolding start_tx
  start_tx_bam bytes pgn t low high =
      let e : leb (length bytes) 8 ≡ false = ground arith in
      let e' : ltb 1785 (length bytes) ≡ false = ground arith in rw (e, e') refl

  -- On a bus that takes every frame, the broadcast of more than 8 and at most 1785 bytes returns,
  -- and gives true up to 1778 bytes, which are 254 packets, and false above.
  pub start_tx_broadcast :
      (bytes : List Uint8) (pgn : Pgn) (t : Tp c)
      → 8 < length bytes
      → length bytes ≤ 1785
      → result (start_tx c takes bytes 0xFF pgn t) ≡ some (leb (length bytes) 1778)
  start_tx_broadcast bytes pgn t low high =
      ap result (start_tx_bam bytes pgn t low high)
      ∙ result-keep (send_bam_start c takes (tx_session c takes bytes 0xFF pgn t) t)
      ∙ ap outcome (send_bam_start-takes (tx_session c takes bytes 0xFF pgn t) t)
      ∙ elim (dec_lt 1778 (length bytes)) [
        | yes long ↦
            wraps 254 _ _ (omega arith) (omega arith) (omega arith) (omega arith)
            ∙ ap some (ground arith)
        | no short ↦
            completes 255 _ _ (omega arith) (omega arith) (omega arith) (omega arith)
            ∙ ap some (ground arith)
      ]
