-- ===== src/Transport/Delivery.antt =====
-- What a receiver makes of the frames of a broadcast.
use native.Mathlib.Nat.{mod-eq_of_lt}
use jay.Base.{
  ℕ, ◌+◌, ◌-◌, ◌*◌, ◌%◌, ◌⊎◌, inl, inr, ◌^◌, ◌<◌, ◌≤◌, ◌≡◌, ap, ◌∙◌, arith, Bool, true, ◌≢◌, Option,
  none, some, List, [], ◌∷◌, ◌++◌, length, false, refl, ◌==◌, overwrite,
}
use jay.Base.Map.{IsKeyTest}
use jay.Types.{Address}
use jay.Frame.{Frame}
use jay.Header.{source_address, pdu_specific}
use jay.Header.Canary.{Canary}
use jay.Transport.Defs.{
  Session, Tp, send_eom_ack, bus_send, report_error, Key, same_key, session_at, put_session,
  pgn_tp_dt, completed,
}
use jay.Transport.Receive.{on_can_frame, handle_dt, accept, delivery, packet_bytes}
use jay.Transport.Frames.{Reads}

pub same_key-key : IsKeyTest same_key
unfolding same_key
same_key-key (s, d) (s', d') =
    (λ h. ground arith, λ e. ground (arith, ap (λ k. k.0) e, ap (λ k. k.1) e))

module _ (c : Canary) (takes : ℕ → Bool) where
  -- The frames of a bus, one after the other.
  unfoldable pub receive_all : List (Frame c) → Tp c → Option (Tp c)
  receive_all [] t = some t
  receive_all (f ∷ fs) t = elim (on_can_frame c takes f t) [
    | none ↦ none
    | some t' ↦ receive_all fs t'
  ]

  pub receive_all-step :
      (f : Frame c) (fs : List (Frame c)) (t t' : Tp c)
      → on_can_frame c takes f t ≡ some t'
      → receive_all (f ∷ fs) t ≡ receive_all fs t'
  unfolding receive_all
  receive_all-step f fs t t' e = ap (λ x. elim x [ none ↦ none | some u ↦ receive_all fs u ]) e

  -- A packet that is the next one of its session, which belongs to a broadcast or fits one window.
  module _ (f : Frame c) (t : Tp c) (s : Session) (src dst : Address)
      (reads : Reads c f pgn_tp_dt dst src) (owned : session_at c t (src, dst) ≡ some s)
      (kind : (s.is_bam ≡ true) ⊎ ((s.is_bam ≡ false) × (s.total_packets ≤ s.window_size)))
      (next : f.payload.b0 ≡ s.next_seq) (low : 1 ≤ s.next_seq)
      (high : s.next_seq ≤ s.total_packets) (fits : (s.next_seq - 1) * 7 ≤ length s.buffer) where
    key-eq : ◌≡◌ {A = Key} (source_address c f.header, pdu_specific c f.header) (src, dst)
    key-eq = λ i. (reads.reads_src i, reads.reads_dst i)

    found : session_at c t (source_address c f.header, pdu_specific c f.header) ≡ some s
    found = ap (session_at c t) key-eq ∙ owned

    handle_dt-next : handle_dt c takes f t ≡ accept c takes (src, dst) s f t
    unfolding handle_dt
    handle_dt-next = ground (arith, found) ∙ ap (λ k. accept c takes k s f t) key-eq

    pub on_can_frame-dt : on_can_frame c takes f t ≡ accept c takes (src, dst) s f t
    unfolding on_can_frame
    on_can_frame-dt = rw (reads.reads_pgn) handle_dt-next

    -- The session after the packet.
    abbrev pub grown : Session
    grown = record s {
      buffer = overwrite ((s.next_seq - 1) * 7) (packet_bytes f.payload) s.buffer;
      next_seq = (s.next_seq + 1) % 2 ^ 8;
      last_activity = t.clock;
    }

    pub accept-more :
        s.next_seq < s.total_packets
        → s.window_size ≢ 0
        → on_can_frame c takes f t ≡ some (put_session c (src, dst) grown t)
    unfolding accept
    accept-more more window = on_can_frame-dt ∙ elim kind [
      | inl all ↦ rw next (ground (arith, all))
      | inr (one, room) ↦
          let e : (s.next_seq % s.window_size == 0) ≡ false =
            ground (arith, mod-eq_of_lt {n = s.next_seq} {m = s.window_size} (omega arith)) in
          rw next (ground (arith, e))
    ]

    -- The end of the last packet, for a broadcast and for one receiver.
    pub accept-last_broadcast :
        s.is_bam ≡ true
        → s.next_seq ≡ s.total_packets
        → t.has_rx_callback ≡ true
        → accept c takes (src, dst) s f t
          ≡ some (
              put_session c
                (src, dst)
                (record grown { state = completed })
                (record t { delivered = t.delivered ++ delivery c takes grown ∷ [] }))
    unfolding accept
    accept-last_broadcast all last heard = rw next (ground (arith, all))

    accept-last_single :
        s.is_bam ≡ false
        → s.next_seq ≡ s.total_packets
        → t.has_rx_callback ≡ true
        → let t' =
            put_session c
              (src, dst)
              grown
              (record t { delivered = t.delivered ++ delivery c takes grown ∷ [] }) in
          accept c takes (src, dst) s f t ≡ some (send_eom_ack c takes grown t').0
    unfolding accept
    accept-last_single one last heard = rw next (ground (arith, one))

    send_eom_ack-delivered :
        (s : Session) (t : Tp c) → (send_eom_ack c takes s t).0.delivered ≡ t.delivered
    unfolding send_eom_ack bus_send report_error
    send_eom_ack-delivered s t = ground arith

    pub accept-last :
        s.next_seq ≡ s.total_packets
        → t.has_rx_callback ≡ true
        → (t' : Tp c) × (on_can_frame c takes f t ≡ some t')
          × (t'.delivered ≡ t.delivered ++ delivery c takes grown ∷ [])
    unfolding put_session
    accept-last last heard = elim kind [
      | inl all ↦ (_, on_can_frame-dt ∙ accept-last_broadcast all last heard, refl)
      | inr (one, room) ↦
          (_, on_can_frame-dt ∙ accept-last_single one last heard, send_eom_ack-delivered grown _)
    ]
