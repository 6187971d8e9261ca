-- ===== src/Transport/Safety/Sending.antt =====
-- The sending functions of include/jay/transport_protocol.hpp on sessions that fit their buffers.

use jay.Base.{
  ℕ, zero, suc, ◌+◌, ◌*◌, ◌%◌, ◌^◌, ◌≤◌, ◌≡◌, ◌≢◌, refl, ap, ◌∙◌, arith, Bool, true, false, ◌==◌,
  Option, none, some, List, length, leb, ltb, if◌then◌else◌,
}
use jay.Types.{Address, Pgn, Uint8, j1939_no_addr}
use jay.Header.{pgn}
use jay.Header.Canary.{Canary}
use jay.Transport.Defs.{
  Session, Tp, rts, bam, fill_tp_payload, make_cm_frame, payload_too_large, tp_send_bam,
  tp_send_rts, Error, send_abort, report_error, bus_send, make_dt_frame, resources_busy, tp_send_dt,
}
use jay.Transport.Send.{
  keep, send_rts, send_bam_start, start_tx, tx_session, Worked, send_packets, send_data_packets,
  finish_packets, in_buffer, dt_payload,
}
use jay.Transport.Safety.State.{
  Keeps, Keeps-refl, safe-Keeps, report_error-Keeps, bus_send-Keeps, send_abort-Keeps,
  send_eom_ack-Keeps, safe-put_session, safe, is_safe,
}

module _ (c : Canary) (takes : ℕ → Bool) where
  -- Work on a session that ends, with the bounds of the session and the sessions of the state.
  pub record Ends (s : Session) (t : Tp c) (x : Option (Worked c takes)) : Type 0 where
    pub last : Worked c takes
    pub ends : x ≡ some last
    pub same_total : last.0.total_packets ≡ s.total_packets
    pub same_length : length last.0.buffer ≡ length s.buffer
    pub same_window : last.0.window_size ≡ s.window_size
    pub keeps : Keeps c takes t last.1

  finish_packets-Ends : (s : Session) (t : Tp c) → Ends s t (some (finish_packets c takes s t))
  unfolding finish_packets
  finish_packets-Ends s t =
      let k = send_eom_ack-Keeps c takes t t s (Keeps-refl c takes t) in
      record {
        last = finish_packets c takes s t;
        ends = refl;
        same_total = ground arith;
        same_length = ground arith;
        same_window = ground arith;
        keeps = record {
          sessions_eq = ground (arith, k.sessions_eq);
          address_eq = ground (arith, k.address_eq);
        };
      }

  Ends-if :
      (s : Session) (t : Tp c) (b : Bool) {x y : Option (Worked c takes)}
      → (b ≡ true → Ends s t x)
      → (b ≡ false → Ends s t y)
      → Ends s t (if b then x else y)
  Ends-if s t true h k = h refl
  Ends-if s t false h k = k refl

  abbrev Bounds : Session → Session → Type 0
  Bounds s s' =
      (s'.total_packets ≡ s.total_packets)
      × (length s'.buffer ≡ length s.buffer)
      × (s'.window_size ≡ s.window_size)

  Ends-trans :
      (s s' : Session) (t t' : Tp c) {x : Option (Worked c takes)}
      → Bounds s s'
      → Keeps c takes t t'
      → Ends s' t' x
      → Ends s t x
  Ends-trans s s' t t' (e, e', e'') k h = record {
    last = h.last;
    ends = h.ends;
    same_total = h.same_total ∙ e;
    same_length = h.same_length ∙ e';
    same_window = h.same_window ∙ e'';
    keeps = record {
      sessions_eq = h.keeps.sessions_eq ∙ k.sessions_eq;
      address_eq = h.keeps.address_eq ∙ k.address_eq;
    };
  }

  -- The bus did not take a frame: the session is given up.
  Ends-stop :
      (s : Session) (t t' : Tp c) (e : Error)
      → Keeps c takes t t'
      → Ends s t (some (s, send_abort c takes s resources_busy (report_error c e t'), false))
  Ends-stop s t t' e k = record {
    last = _;
    ends = refl;
    same_total = refl;
    same_length = refl;
    same_window = refl;
    keeps = send_abort-Keeps c takes t _ s resources_busy (report_error-Keeps c takes t t' e k);
  }

  pub send_packets-Ends :
      (count : ℕ) (s : Session) (t : Tp c)
      → 1 ≤ s.next_seq
      → s.total_packets ≤ 254
      → s.total_packets * 7 ≤ length s.buffer + 6
      → Ends s t (send_packets c takes count s t)
  unfolding send_packets
  send_packets-Ends zero s t low few fits = finish_packets-Ends s t
  send_packets-Ends (suc count) s t low few fits =
      Ends-if s t (leb s.next_seq s.total_packets)
        (λ more.
          Ends-if s t (in_buffer s)
            (λ _.
              let f = record (make_dt_frame c s) { payload = dt_payload s } in
              let k = bus_send-Keeps c takes t t f (Keeps-refl c takes t) in
              let s' = record s { last_activity = t.clock; next_seq = (s.next_seq + 1) % 2 ^ 8 } in
              Ends-if s t (bus_send c takes f t).1
                (λ _.
                  Ends-trans s s' t (bus_send c takes f t).0 (refl, refl, refl) k
                    (send_packets-Ends count s' (bus_send c takes f t).0 (ground (arith, more)) few
                      fits))
                (λ _. Ends-stop s t _ tp_send_dt k))
            (λ out. absurd (ground arith)))
        (λ _. finish_packets-Ends s t)

  -- The session of start_tx, put under whatever key, is safe after the work on it.
  keep-Goes :
      (s : Session) (t : Tp c) (x : Option (Worked c takes))
      → safe c t ≡ true
      → s.total_packets ≤ 254
      → s.total_packets * 7 ≤ length s.buffer + 6
      → s.window_size ≢ 0
      → Ends s t x
      → (t' : Tp c) × (ok : Bool) × (elim x [
        | none ↦ none
        | some worked ↦ some (keep c takes worked)
      ]
          ≡ some (t', ok))
        × (safe c t' ≡ true)
  unfolding keep is_safe
  keep-Goes s t x h few fits window w =
      let (s', t', ok) = w.last in
      (
        _,
        ok,
        ap (λ y. elim y [ none ↦ none | some worked ↦ some (keep c takes worked) ]) w.ends,
        safe-put_session c takes (s'.src_sa, s'.dest_sa) s' t' (safe-Keeps c takes t t' w.keeps h)
            (ground (arith, few, fits, window, w.same_total, w.same_length, w.same_window)),
      )

  Ends-if_total :
      (s : Session) (t : Tp c) (b : Bool) {x y : Worked c takes}
      → Ends s t (some x)
      → Ends s t (some y)
      → Ends s t (some (if b then x else y))
  Ends-if_total s t true h k = h
  Ends-if_total s t false h k = k

  send_rts-Ends : (s : Session) (t : Tp c) → Ends s t (some (send_rts c takes s t))
  unfolding send_rts
  send_rts-Ends s t =
      let f = fill_tp_payload c s (make_cm_frame c rts s.dest_sa s.src_sa) in
      let k = bus_send-Keeps c takes t t f (Keeps-refl c takes t) in
      Ends-if_total s t (bus_send c takes f t).1
        (record {
          last = _;
          ends = refl;
          same_total = refl;
          same_length = refl;
          same_window = refl;
          keeps = k;
        })
        (Ends-stop s t _ tp_send_rts k)

  send_bam_start-Ends :
      (s : Session) (t : Tp c)
      → 1 ≤ s.next_seq
      → s.total_packets ≤ 254
      → s.total_packets * 7 ≤ length s.buffer + 6
      → Ends s t (send_bam_start c takes s t)
  unfolding send_bam_start send_data_packets
  send_bam_start-Ends s t low few fits =
      let f = fill_tp_payload c s (make_cm_frame c bam j1939_no_addr s.src_sa) in
      let k = bus_send-Keeps c takes t t f (Keeps-refl c takes t) in
      Ends-if s t (bus_send c takes f t).1
        (λ _.
          let s' = record s { last_activity = t.clock } in
          Ends-trans s s' t _ (refl, refl, refl) k
            (send_packets-Ends s.window_size s' (bus_send c takes f t).0 low few fits))
        (λ _. Ends-stop s t _ tp_send_bam k)

  abbrev Returns : Option (Tp c × Bool) → Type 0
  Returns x = (t' : Tp c) × (ok : Bool) × (x ≡ some (t', ok)) × (safe c t' ≡ true)

  Returns-if :
      (b : Bool) {x y : Option (Tp c × Bool)} → Returns x → Returns y → Returns (if b then x else y)
  Returns-if true h k = h
  Returns-if false h k = k

  -- In a state whose sessions are safe (the packets fit the buffer and are at most 254, and only a
  -- session that the node sends has a window of 0), start_tx of at most 1778 bytes, to all or to one,
  -- on whatever bus, returns and leaves the sessions safe.
  pub start_tx-safe :
      (bytes : List Uint8) (dest : Address) (pgn : Pgn) (t : Tp c)
      → safe c t ≡ true
      → length bytes ≤ 1778
      → (t' : Tp c) × (ok : Bool) × (start_tx c takes bytes dest pgn t ≡ some (t', ok))
        × (safe c t' ≡ true)
  unfolding start_tx
  start_tx-safe bytes dest pgn t h few =
      let s = tx_session c takes bytes dest pgn t in
      Returns-if (leb (length bytes) 8) (t, false, refl, h)
        (Returns-if (ltb 1785 (length bytes))
          (
            _,
            false,
            refl,
            safe-Keeps c takes t _
                (report_error-Keeps c takes t t payload_too_large (Keeps-refl c takes t)) h,
          )
          (Returns-if (dest == 0xFF)
            (keep-Goes s t _ h (omega arith) (omega arith) (omega arith)
              (send_bam_start-Ends s t (omega arith) (omega arith) (omega arith)))
            (keep-Goes s t (some (send_rts c takes s t)) h (omega arith) (omega arith) (omega arith)
              (send_rts-Ends s t))))
