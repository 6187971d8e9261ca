-- ===== src/Transport/Safety/Handlers.antt =====
-- The handlers of include/jay/transport_protocol.hpp on sessions that fit their buffers.

use jay.Base.{
  ℕ, ◌+◌, ◌-◌, ◌*◌, ◌%◌, ◌^◌, ◌≤◌, ◌≡◌, refl, arith, Bool, true, false, ◌&&◌, ◌||◌, not, ◌==◌,
  Option, none, some, length, leb, ltb, if◌then◌else◌, overwrite, length-overwrite,
}
use jay.Frame.{Frame}
use jay.Header.{pgn, source_address, pdu_specific}
use jay.Header.Canary.{Canary}
use jay.Transport.Defs.{
  Session, Tp, Key, Control, session_at, put_session, pgn_tp_cm, pgn_tp_dt, rts, cts, bam, eom,
  abort, rx, tx, dt_without_session, dt_bad_sequence, dt_duplicate_sequence, dt_unexpected_sequence,
  bad_sequence, duplicate_seq, Error, AbortCode, aborted, completed, cts_without_session,
  eom_without_session, remote_abort, response_cts,
}
use jay.Transport.Send.{Worked, send_data_packets}
use jay.Transport.Receive.{
  on_can_frame, handle_cm, handle_cts, handle_dt, handle_abort, complete_rx, start_rx_rts,
  start_rx_bam, accept, control_of, packet_bytes, refuse, bam_session, rts_session,
}
use jay.Transport.Reassembly.{length-zero_bytes}
use jay.Transport.Safety.State.{
  Keeps-refl, safe-Keeps, report_error-Keeps, send_abort-Keeps, response_cts-Keeps,
  send_eom_ack-Keeps, safe-put_session, is_safe-session_at, safe, announced, honest_cm, honest,
  is_safe,
}
use jay.Transport.Safety.Sending.{Ends, send_packets-Ends}
use jay.Transport.Safety.Goes.{
  Goes, Goes-Keeps, reject-Goes, Goes-if, Goes-if_total, Goes-put_session, deliver-Keeps,
  Goes-found, Goes-found_total,
}

module _ (c : Canary) (takes : ℕ → Bool) where
  module _ (f : Frame c) (t : Tp c) (h : safe c t ≡ true)
      (other : (source_address c f.header == t.bus_address) ≡ false) where
    start_rx_bam-Goes : announced c f ≡ true → Goes c takes t (some (start_rx_bam c takes f t))
    unfolding start_rx_bam announced is_safe
    start_rx_bam-Goes ok =
        let s = bam_session c takes f t in
        Goes-Keeps c takes t (put_session c (s.src_sa, s.dest_sa) s t) _ refl
          (safe-put_session c takes (s.src_sa, s.dest_sa) s t h
            (ground (arith, ok, other, length-zero_bytes s.length)))
          (Keeps-refl c takes _)

    start_rx_rts-Goes :
        announced c f ≡ true
        → (f.payload.b4 == 0) ≡ false
        → Goes c takes t (some (start_rx_rts c takes f t))
    unfolding start_rx_rts announced is_safe
    start_rx_rts-Goes ok window =
        let s = rts_session c takes f t in
        let e : is_safe t.bus_address ((s.src_sa, s.dest_sa), s) ≡ true =
          ground (arith, ok, other, window, length-zero_bytes s.length) in
        let started = safe-put_session c takes (s.src_sa, s.dest_sa) s t h e in
        elim (pdu_specific c f.header == t.bus_address)
          as (λ b. Goes c takes t (
            some (
              if b then response_cts c takes s (put_session c (s.src_sa, s.dest_sa) s t) else t))) [
                | true ↦
                    Goes-Keeps c takes t (put_session c (s.src_sa, s.dest_sa) s t) _ refl started
                      (response_cts-Keeps c takes _ _ s (Keeps-refl c takes _))
                | false ↦ Goes-Keeps c takes t t t refl h (Keeps-refl c takes t)
              ]

    handle_abort-Goes : Goes c takes t (some (handle_abort c takes f t))
    unfolding handle_abort is_safe
    handle_abort-Goes =
        let key : Key = (t.bus_address, source_address c f.header) in
        Goes-found_total c takes t (session_at c t key)
          (Goes-Keeps c takes t t t refl h (Keeps-refl c takes t))
          (λ s e.
            Goes-Keeps c takes t (put_session c key (record s { state = aborted }) t) _ refl
              (safe-put_session c takes key (record s { state = aborted }) t h
                (is_safe-session_at c takes key s t h e))
              (report_error-Keeps c takes _ _ (remote_abort f.payload.b1) (Keeps-refl c takes _)))

    complete_rx-Goes : Goes c takes t (some (complete_rx c takes f t))
    unfolding complete_rx is_safe
    complete_rx-Goes =
        let key : Key = (source_address c f.header, pdu_specific c f.header) in
        Goes-found_total c takes t (session_at c t key)
          (reject-Goes c takes rx eom_without_session f t h)
          (λ s e.
            Goes-Keeps c takes t (put_session c key (record s { state = completed }) t) _ refl
              (safe-put_session c takes key (record s { state = completed }) t h
                (is_safe-session_at c takes key s t h e))
              (Keeps-refl c takes _))

    -- The session that a CTS resumed, put back.
    resumed-Goes :
        (key : Key) (s : Session) (x : Option (Worked c takes))
        → key.0 ≡ t.bus_address
        → s.total_packets ≤ 254
        → s.total_packets * 7 ≤ length s.buffer + 6
        → Ends c takes s t x
        → Goes c takes t
            (elim x [ none ↦ none | some (s', t', _) ↦ some (put_session c key s' t') ])
    unfolding is_safe put_session
    resumed-Goes key s x own few fits w = rw (w.ends) (
        let (s', t', _) = w.last in
        Goes-Keeps c takes t (put_session c key s' t') _ w.keeps.address_eq
          (safe-put_session c takes key s' t' (safe-Keeps c takes t t' w.keeps h)
            (ground (arith, own, few, fits, w.same_total, w.same_length, w.keeps.address_eq)))
          (Keeps-refl c takes _))

    handle_cts-Goes : leb 1 f.payload.b2 ≡ true → Goes c takes t (handle_cts c takes f t)
    unfolding handle_cts is_safe send_data_packets
    handle_cts-Goes low =
        let key : Key = (t.bus_address, source_address c f.header) in
        Goes-found c takes t (session_at c t key) (reject-Goes c takes tx cts_without_session f t h)
          (λ s e.
            let known = is_safe-session_at c takes key s t h e in
            let asked = record s { window_size = f.payload.b1; next_seq = f.payload.b2 } in
            resumed-Goes key asked (send_data_packets c takes asked t) refl (ground (arith, known))
              (ground (arith, known))
              (send_packets-Ends c takes f.payload.b1 asked t (ground (arith, low))
                (ground (arith, known)) (ground (arith, known))))

    control-Goes :
        (x : Option Control)
        → honest_cm c f x ≡ true
        → Goes c takes t (elim x [
          | none ↦ some t
          | some rts ↦ some (start_rx_rts c takes f t)
          | some cts ↦ handle_cts c takes f t
          | some eom ↦ some (complete_rx c takes f t)
          | some bam ↦ some (start_rx_bam c takes f t)
          | some abort ↦ some (handle_abort c takes f t)
        ])
    unfolding honest_cm
    control-Goes none e = Goes-Keeps c takes t t t refl h (Keeps-refl c takes t)
    control-Goes (some rts) e = start_rx_rts-Goes (ground (arith, e)) (ground (arith, e))
    control-Goes (some cts) e = handle_cts-Goes e
    control-Goes (some eom) e = complete_rx-Goes
    control-Goes (some bam) e = start_rx_bam-Goes e
    control-Goes (some abort) e = handle_abort-Goes

    handle_cm-Goes :
        honest_cm c f (control_of f.payload.b0) ≡ true → Goes c takes t (handle_cm c takes f t)
    unfolding handle_cm
    handle_cm-Goes = control-Goes (control_of f.payload.b0)

    -- A packet that a session waits for, of a key that is not the own one.
    accept-Goes :
        (key : Key) (s : Session)
        → key.0 ≡ source_address c f.header
        → is_safe t.bus_address (key, s) ≡ true
        → 1 ≤ f.payload.b0
        → f.payload.b0 ≤ s.total_packets
        → Goes c takes t (accept c takes key s f t)
    unfolding accept is_safe put_session
    accept-Goes key s own known low high =
        let offset = (f.payload.b0 - 1) * 7 in
        let s' = record s {
          buffer = overwrite offset (packet_bytes f.payload) s.buffer;
          next_seq = (f.payload.b0 + 1) % 2 ^ 8;
          last_activity = t.clock;
        } in
        let e : is_safe t.bus_address (key, s') ≡ true =
          ground (arith, known, length-overwrite offset (packet_bytes f.payload) s.buffer) in
        Goes-if c takes t (ltb (length s.buffer) offset)
          (λ out. absurd (ground (arith, out, known, high)))
          (λ _.
            Goes-if c takes t (f.payload.b0 == s.total_packets)
              (λ _.
                Goes-if_total c takes t s.is_bam
                  (Goes-put_session c takes key (record s' { state = completed }) t _ _ h e
                    (deliver-Keeps c takes s' t) (Keeps-refl c takes _))
                  (Goes-put_session c takes key s' t _ _ h e (deliver-Keeps c takes s' t)
                    (send_eom_ack-Keeps c takes _ _ s' (Keeps-refl c takes _))))
              (λ _.
                Goes-if c takes t (s.window_size == 0)
                  (λ zero_window. absurd (ground (arith, zero_window, known, own, other)))
                  (λ _.
                    Goes-if_total c takes t ((f.payload.b0 % s.window_size == 0) && not s.is_bam)
                      (Goes-put_session c takes key s' t t _ h e (Keeps-refl c takes t)
                        (response_cts-Keeps c takes _ _ s' (Keeps-refl c takes _)))
                      (Goes-put_session c takes key s' t t _ h e (Keeps-refl c takes t)
                        (Keeps-refl c takes _)))))

    refuse-Goes :
        (key : Key) (s : Session) (code : AbortCode) (e : Error)
        → is_safe t.bus_address (key, s) ≡ true
        → Goes c takes t (some (refuse c takes key s code e t))
    unfolding is_safe
    refuse-Goes key s code e known =
        let s' = record s { state = aborted } in
        Goes-put_session c takes key s' t t _ h known (Keeps-refl c takes t) (
          report_error-Keeps c takes _ _ e
            (send_abort-Keeps c takes _ _ s' code (Keeps-refl c takes _)))

    handle_dt-Goes : Goes c takes t (handle_dt c takes f t)
    unfolding handle_dt is_safe
    handle_dt-Goes =
        let key : Key = (source_address c f.header, pdu_specific c f.header) in
        let seq = f.payload.b0 in
        Goes-found c takes t (session_at c t key) (reject-Goes c takes rx dt_without_session f t h)
          (λ s e.
            let known = is_safe-session_at c takes key s t h e in
            Goes-if c takes t (ltb seq 1 || ltb s.total_packets seq)
              (λ _. refuse-Goes key s bad_sequence dt_bad_sequence known)
              (λ inside.
                Goes-if c takes t (ltb seq s.next_seq)
                  (λ _. refuse-Goes key s duplicate_seq dt_duplicate_sequence known)
                  (λ _.
                    Goes-if c takes t (not (seq == s.next_seq))
                      (λ _. refuse-Goes key s bad_sequence dt_unexpected_sequence known)
                      (λ _.
                        accept-Goes key s refl known (ground (arith, inside))
                          (ground (arith, inside))))))

  -- In a state whose sessions are safe (the packets fit the buffer and are at most 254, and only a
  -- session that the node sends has a window of 0), on_can_frame of another node's frame runs to the
  -- end, without an access outside of a buffer or a division by zero, and leaves the sessions safe.
  -- The frame is any but an RTS or BAM that announces more packets than its length needs or than
  -- 254, an RTS with a window of 0, or a CTS that asks for packet 0.
  pub on_can_frame-safe :
      (f : Frame c) (t : Tp c)
      → safe c t ≡ true
      → honest c t.bus_address f ≡ true
      → (t' : Tp c) × (on_can_frame c takes f t ≡ some t')
        × (safe c t' ≡ true)
        × (t'.bus_address ≡ t.bus_address)
  unfolding on_can_frame honest
  on_can_frame-safe f t h ok =
      let other : (source_address c f.header == t.bus_address) ≡ false = ground (arith, ok) in
      let run : Goes c takes t (on_can_frame c takes f t) =
        Goes-if c takes t (pgn c f.header == pgn_tp_cm)
          (λ cm. handle_cm-Goes f t h other (ground (arith, cm, ok)))
          (λ _.
            Goes-if c takes t (pgn c f.header == pgn_tp_dt) (λ _. handle_dt-Goes f t h other)
              (λ _. Goes-Keeps c takes t t t refl h (Keeps-refl c takes t))) in
      (run.after, run.goes, run.stays_safe, run.same_address)
