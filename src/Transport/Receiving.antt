-- ===== src/Transport/Receiving.antt =====
-- A session of include/jay/transport_protocol.hpp that gets all the packets of a sender.
use jay.Base.{
  ℕ, zero, suc, ◌+◌, ◌-◌, ◌*◌, ◌%◌, ◌^◌, ◌<◌, ◌≤◌, ◌≡◌, ◌≢◌, ap, sym, ◌∙◌, arith, Bool, true, some,
  [], false, ◌⊎◌, ◌∷◌, ◌++◌, length, overwrite, length-overwrite,
}
use jay.Base.Map.{find-set_self}
use jay.Types.{Address}
use jay.Header.Canary.{Canary}
use jay.Transport.Defs.{Session, Tp, same_key, session_at, put_session, pgn_tp_dt}
use jay.Transport.Send.{dt_payload}
use jay.Transport.Receive.{delivery}
use jay.Transport.Frames.{Reads, make_dt_frame-Reads}
use jay.Transport.Reassembly.{packet, reassemble}
use jay.Transport.Stream.{dt_frame, dt_frames}
use jay.Transport.Delivery.{same_key-key, receive_all, receive_all-step, accept-more, accept-last}

pub global-lt : 0xFF < 2 ^ 8
global-lt = omega arith

module _ (c : Canary) (takes : ℕ → Bool) (src : Address) (hs : src < 2 ^ 8) (from : Session)
    (dst : Address) (hd : dst < 2 ^ 8) (to : from.dest_sa ≡ dst) (by : from.src_sa ≡ src) where
  pub dt_frame-Reads : (seq : ℕ) → Reads c (dt_frame c from seq) pgn_tp_dt dst src
  dt_frame-Reads seq =
      let r = make_dt_frame-Reads c dst src hd hs from to by in
      record { reads_pgn = r.reads_pgn; reads_dst = r.reads_dst; reads_src = r.reads_src }

  -- A session that waits for the packet of a number.
  pub record Waits (t : Tp c) (s : Session) (seq : ℕ) : Type 0 where
    pub owned : session_at c t (src, dst) ≡ some s
    pub kind : (s.is_bam ≡ true) ⊎ ((s.is_bam ≡ false) × (s.total_packets ≤ s.window_size))
    pub next : s.next_seq ≡ seq
    pub low : 1 ≤ seq
    pub small : s.total_packets ≤ 255
    pub window : s.window_size ≢ 0
    pub fits : s.total_packets * 7 ≤ length s.buffer + 6
    pub heard : t.has_rx_callback ≡ true

  -- The session and the state after a packet of the sender.
  abbrev pub after : Tp c → Session → ℕ → Session
  after t s seq = record s {
    buffer = overwrite ((s.next_seq - 1) * 7) (packet from seq) s.buffer;
    next_seq = (s.next_seq + 1) % 2 ^ 8;
    last_activity = t.clock;
  }

  pub Waits-after :
      (t : Tp c) (s : Session) (seq : ℕ)
      → Waits t s seq
      → seq < s.total_packets
      → Waits (put_session c (src, dst) (after t s seq) t) (after t s seq) (seq + 1)
  unfolding put_session
  Waits-after t s seq w more = record {
    owned = find-set_self same_key same_key-key (src, dst) (after t s seq) t.sessions;
    kind = w.kind;
    next = omega (arith, w.small, w.next);
    low = omega arith;
    small = w.small;
    window = w.window;
    fits =
        omega (arith, w.fits, length-overwrite ((s.next_seq - 1) * 7) (packet from seq) s.buffer);
    heard = w.heard;
  }

  -- A session whose last packet is that of the number seq + n delivers them all.
  pub receive_dts :
      (n seq : ℕ) (t : Tp c) (s : Session)
      → Waits t s seq
      → seq + n ≡ s.total_packets
      → (t' : Tp c) × (receive_all c takes (dt_frames c (suc n) from seq) t ≡ some t')
        × (t'.delivered
            ≡ t.delivered
              ++ delivery c takes (record s { buffer = reassemble (suc n) from seq s.buffer }) ∷ [])
  unfolding receive_all dt_frames reassemble dt_payload delivery put_session
  receive_dts zero seq t s w left =
      let (t', e, got) =
        accept-last c takes (dt_frame c from seq) t s src dst (dt_frame-Reads seq) w.owned w.kind
          (sym w.next) (omega (arith, w.next, w.low)) (omega (arith, w.next))
          (omega (arith, w.next, w.fits)) (omega (arith, w.next)) w.heard in
      (
        t',
        receive_all-step c takes _ [] t t' e,
        got
            ∙ ap
                (λ k.
                  t.delivered
                  ++ delivery c takes
                      (record s { buffer = overwrite ((k - 1) * 7) (packet from seq) s.buffer })
                    ∷ [])
                w.next,
      )
  receive_dts (suc n) seq t s w left =
      let e =
        accept-more c takes (dt_frame c from seq) t s src dst (dt_frame-Reads seq) w.owned w.kind
          (sym w.next) (omega (arith, w.next, w.low)) (omega (arith, w.next))
          (omega (arith, w.next, w.fits)) (omega (arith, w.next)) w.window in
      let (t', run, got) =
        receive_dts n (seq + 1) _ (after t s seq) (Waits-after t s seq w (omega arith))
          (omega arith) in
      (
        t',
        receive_all-step c takes _ (dt_frames c (suc n) from (seq + 1)) t _ e ∙ run,
        got
            ∙ ap
                (λ k.
                  t.delivered
                  ++ delivery c takes (record s {
                    buffer =
                        reassemble (suc n) from (seq + 1)
                          (overwrite ((k - 1) * 7) (packet from seq) s.buffer);
                  })
                    ∷ [])
                w.next,
      )
