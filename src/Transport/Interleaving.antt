-- ===== src/Transport/Interleaving.antt =====
-- A broadcast of include/jay/transport_protocol.hpp as a stream that others do not disturb.
use mathlib.Core.List.{head-eq_of_cons-eq, tail-eq_of_cons-eq, nil≢cons}
use jay.Base.{
  ℕ, zero, suc, ◌+◌, ◌-◌, ◌*◌, ◌/◌, ◌^◌, ◌<◌, ◌≤◌, ◌≡◌, ◌≢◌, refl, ap, sym, ◌∙◌, arith, Bool, true,
  ◌⊎◌, inl, inr, some, List, [], ◌∷◌, ◌++◌, length, overwrite, Bool-cases,
}
use jay.Base.Map.{find, set, find-set}
use jay.Types.{Address, Uint8}
use jay.Frame.{Frame}
use jay.Header.{set_payload_length, set_source_address, set_pgn, empty_header}
use jay.Header.Canary.{Canary}
use jay.Transport.Defs.{Session, Tp, Data, Key, same_key, session_at, put_session, completed}
use jay.Transport.Send.{dt_payload}
use jay.Transport.Receive.{on_can_frame, delivery, zero_bytes}
use jay.Transport.Reassembly.{packet, reassemble, reassemble-buffer}
use jay.Transport.Stream.{dt_frame, dt_frames, bam_frame}
use jay.Transport.Delivery.{
  same_key-key, accept-more, on_can_frame-dt, accept-last_broadcast, grown,
}
use jay.Transport.Receiving.{Waits, Waits-after, after, dt_frame-Reads, global-lt}
use jay.Transport.Roundtrip.{started, on_can_frame-bam, Waits-started}
use jay.Transport.Streams.{Beside, IsStream}

module _ (c : Canary) (takes : ℕ → Bool) where
  find-set_other :
      (key k : Key) (s : Session) (m : List (Key × Session))
      → k ≢ key
      → find same_key k (set same_key key s m) ≡ find same_key k m
  find-set_other key k s m other =
      find-set same_key same_key-key key k s m ∙ elim (Bool-cases (same_key key k)) [
        | inl e ↦ absurd (other (sym ((same_key-key key k).0 e)))
        | inr e ↦ rw e refl
      ]

  Beside-put_session :
      (key : Key) (s : Session) (t : Tp c) → Beside c takes key t (put_session c key s t)
  unfolding put_session
  Beside-put_session key s t = record {
    others = λ k other. find-set_other key k s t.sessions other;
    callback = refl;
  }

  module _ (src : Address) (hs : src < 2 ^ 8) (from : Session) (to_all : from.dest_sa ≡ 0xFF)
      (by : from.src_sa ≡ src) (hl : from.length < 2 ^ 16) (hp : from.pgn < 2 ^ 24)
      (says : from.length ≡ length from.buffer)
      (packets : from.total_packets ≡ (length from.buffer + 6) / 7)
      (some_bytes : 0 < length from.buffer) (small : from.total_packets ≤ 255) where
    abbrev pub key : Key
    key = (src, 0xFF)

    -- What the receiver delivers at the end.
    abbrev pub message : Data c
    message = record {
      header =
          set_payload_length c (length from.buffer)
            (set_source_address c src (set_pgn c from.pgn (empty_header c)));
      payload = from.buffer;
    }

    -- The frames that are to come: all of them, or the packets from a number on.
    pub data Coming (t : Tp c) (fs : List (Frame c)) : Type 0 where
      announced :
          t.has_rx_callback ≡ true
          → fs ≡ bam_frame c from ∷ dt_frames c (suc (from.total_packets - 1)) from 1
          → Coming t fs
      under_way :
          (n seq : ℕ) (s : Session)
          → Waits c takes src hs from 0xFF global-lt to_all by t s seq
          → s.is_bam ≡ true
          → seq + n ≡ s.total_packets
          → delivery c takes (record s { buffer = reassemble (suc n) from seq s.buffer }) ≡ message
          → fs ≡ dt_frames c (suc n) from seq
          → Coming t fs

    nothing_comes : (t : Tp c) → ¬ Coming t []
    unfolding dt_frames
    nothing_comes t (announced heard e) = nil≢cons e
    nothing_comes t (under_way n seq s w all left got e) = nil≢cons e

    Coming-stable :
        (t t' : Tp c) (fs : List (Frame c))
        → session_at c t' key ≡ session_at c t key
        → t'.has_rx_callback ≡ t.has_rx_callback
        → Coming t fs
        → Coming t' fs
    Coming-stable t t' fs same callback (announced heard e) = announced (callback ∙ heard) e
    Coming-stable t t' fs same callback (under_way n seq s w all left got e) =
        under_way n seq s
          (record {
            owned = same ∙ w.owned;
            kind = w.kind;
            next = w.next;
            low = w.low;
            small = w.small;
            window = w.window;
            fits = w.fits;
            heard = callback ∙ w.heard;
          })
          all left got e

    delivery-started :
        (t : Tp c)
        → delivery c takes (record (started c takes src hs from to_all by t) {
          buffer = reassemble (suc (from.total_packets - 1)) from 1 (zero_bytes from.length);
        })
          ≡ message
    unfolding delivery
    delivery-started t =
        let go : List Uint8 → Data c = λ b. record {
          header =
              set_payload_length c (length b)
                (set_source_address c src (set_pgn c from.pgn (empty_header c)));
          payload = b;
        } in
        ap go (reassemble-buffer from says packets some_bytes)

    -- The state and the session after the last packet.
    abbrev finished : Tp c → Session → Tp c
    finished t s =
        put_session c key (record s { state = completed })
          (record t { delivered = t.delivered ++ delivery c takes s ∷ [] })

    step-announced :
        (t : Tp c) (f : Frame c) (fs : List (Frame c))
        → t.has_rx_callback ≡ true
        → f ∷ fs ≡ bam_frame c from ∷ dt_frames c (suc (from.total_packets - 1)) from 1
        → (t' : Tp c) × (on_can_frame c takes f t ≡ some t')
          × Beside c takes key t t'
          × (((t'.delivered ≡ t.delivered) × Coming t' fs)
              ⊎ ((fs ≡ []) × (t'.delivered ≡ t.delivered ++ message ∷ [])))
    unfolding put_session
    step-announced t f fs heard e =
        let s = started c takes src hs from to_all by t in
        (
          put_session c key s t,
          ap (λ g. on_can_frame c takes g t) (head-eq_of_cons-eq e)
              ∙ on_can_frame-bam c takes src hs from to_all by t hl hp,
          Beside-put_session key s t,
          inl (
            refl,
            under_way (from.total_packets - 1) 1 s
                (Waits-started c takes src hs from to_all by t heard small
                  (omega (arith, says, packets)))
                refl (omega (arith, packets, some_bytes)) (delivery-started t)
                (tail-eq_of_cons-eq e),
          ),
        )

    step-last :
        (t : Tp c) (f : Frame c) (fs : List (Frame c)) (seq : ℕ) (s : Session)
        → Waits c takes src hs from 0xFF global-lt to_all by t s seq
        → s.is_bam ≡ true
        → seq ≡ s.total_packets
        → delivery c takes (record s { buffer = reassemble 1 from seq s.buffer }) ≡ message
        → f ∷ fs ≡ dt_frames c 1 from seq
        → (t' : Tp c) × (on_can_frame c takes f t ≡ some t')
          × Beside c takes key t t'
          × (fs ≡ [])
          × (t'.delivered ≡ t.delivered ++ message ∷ [])
    unfolding put_session dt_frames reassemble dt_payload delivery
    step-last t f fs seq s w all left got e =
        let g = dt_frame c from seq in
        let reads = dt_frame-Reads c takes src hs from 0xFF global-lt to_all by seq in
        let low : 1 ≤ s.next_seq = omega (arith, w.next, w.low) in
        let high : s.next_seq ≤ s.total_packets = omega (arith, w.next) in
        let fits : (s.next_seq - 1) * 7 ≤ length s.buffer = omega (arith, w.next, w.fits) in
        let s' = grown c takes g t s src 0xFF reads w.owned w.kind (sym w.next) low high fits in
        (
          finished t s',
          ap (λ x. on_can_frame c takes x t) (head-eq_of_cons-eq e)
              ∙ on_can_frame-dt c takes g t s src 0xFF reads w.owned w.kind (sym w.next) low high
                  fits
              ∙ accept-last_broadcast c takes g t s src 0xFF reads w.owned w.kind (sym w.next) low
                  high fits all (omega (arith, w.next)) w.heard,
          record {
            others =
                λ k other. find-set_other key k (record s' { state = completed }) t.sessions other;
            callback = refl;
          },
          tail-eq_of_cons-eq e,
          ap
                (λ k.
                  t.delivered
                  ++ delivery c takes
                      (record s { buffer = overwrite ((k - 1) * 7) (packet from seq) s.buffer })
                    ∷ [])
                w.next
              ∙ ap (λ m. t.delivered ++ m ∷ []) got,
        )

    step-more :
        (t : Tp c) (f : Frame c) (fs : List (Frame c)) (n seq : ℕ) (s : Session)
        → Waits c takes src hs from 0xFF global-lt to_all by t s seq
        → s.is_bam ≡ true
        → seq + suc n ≡ s.total_packets
        → delivery c takes (record s { buffer = reassemble (suc (suc n)) from seq s.buffer })
          ≡ message
        → f ∷ fs ≡ dt_frames c (suc (suc n)) from seq
        → (t' : Tp c) × (on_can_frame c takes f t ≡ some t')
          × Beside c takes key t t'
          × (t'.delivered ≡ t.delivered)
          × Coming t' fs
    unfolding put_session dt_frames reassemble dt_payload delivery
    step-more t f fs n seq s w all left got e =
        let g = dt_frame c from seq in
        let reads = dt_frame-Reads c takes src hs from 0xFF global-lt to_all by seq in
        let s' = after c takes src hs from 0xFF global-lt to_all by t s seq in
        (
          put_session c key s' t,
          ap (λ x. on_can_frame c takes x t) (head-eq_of_cons-eq e)
              ∙ accept-more c takes g t s src 0xFF reads w.owned w.kind (sym w.next)
                  (omega (arith, w.next, w.low)) (omega (arith, w.next))
                  (omega (arith, w.next, w.fits)) (omega (arith, w.next)) w.window,
          Beside-put_session key s' t,
          refl,
          under_way n (seq + 1) s'
              (Waits-after c takes src hs from 0xFF global-lt to_all by t s seq w (omega arith)) all
              (omega arith)
              (ap
                  (λ k. delivery c takes (record s {
                    buffer =
                        reassemble (suc n) from (seq + 1)
                          (overwrite ((k - 1) * 7) (packet from seq) s.buffer);
                  }))
                  w.next
                ∙ got)
              (tail-eq_of_cons-eq e),
        )

    pub broadcast-IsStream : IsStream c takes key message Coming
    broadcast-IsStream = record { coming = nothing_comes; step = step; stable = Coming-stable }
      where
        step :
            (t : Tp c) (f : Frame c) (fs : List (Frame c))
            → Coming t (f ∷ fs)
            → (t' : Tp c) × (on_can_frame c takes f t ≡ some t')
              × Beside c takes key t t'
              × (((t'.delivered ≡ t.delivered) × Coming t' fs)
                  ⊎ ((fs ≡ []) × (t'.delivered ≡ t.delivered ++ message ∷ [])))
        step t f fs (announced heard e) = step-announced t f fs heard e
        step t f fs (under_way zero seq s w all left got e) =
            let (t', run, beside, last, delivered) =
              step-last t f fs seq s w all (omega arith) got e in
            (t', run, beside, inr (last, delivered))
        step t f fs (under_way (suc n) seq s w all left got e) =
            let (t', run, beside, same, more) = step-more t f fs n seq s w all left got e in
            (t', run, beside, inl (same, more))
