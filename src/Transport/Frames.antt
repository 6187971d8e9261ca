-- ===== src/Transport/Frames.antt =====
-- How a receiver reads the frames of include/jay/transport_protocol.hpp.
use Prim.Native.Nat.{bit_or}
use jay.Base.{false, ℕ, ◌+◌, ◌*◌, ◌/◌, ◌%◌, ◌^◌, ◌<◌, ◌≡◌, ap, sym, ◌∙◌, arith}
use jay.Base.Bits.{bit_or-above}
use jay.Types.{Address, Pgn}
use jay.Header.{pgn, source_address, pdu_specific, is_broadcast, set_payload_length, empty_header}
use jay.Header.Canary.{Canary}
use jay.Header.Fields.{id-empty_header}
use jay.Header.Access.{
  View-path, view, view_of, view-id, view-apply, to_pgn, to_pdu_specific, to_source_address, write,
}
use jay.Header.Parts.{pgn-view, pgn_of, is_broadcast-view, is_broadcast_of}
use jay.Frame.{Frame}
use jay.Transport.Defs.{
  Session, make_base_frame, make_cm_frame, make_dt_frame, fill_tp_payload, get_payload_pgn,
  pgn_tp_cm, pgn_tp_dt, Control,
}

module _ (c : Canary) where
  pub view-empty :
      view c (empty_header c) ≡ record { prio = 0; reserved = 0; page = 0; pf = 0; ps = 0; sa = 0 }
  view-empty = view-id c (empty_header c) ∙ ap view_of (id-empty_header c)

  pub view-set_payload_length : (n : ℕ) (h : c.Raw) → view c (set_payload_length c n h) ≡ view c h
  unfolding set_payload_length
  view-set_payload_length n h =
      view-id c _ ∙ ap view_of (c.get_id-set_payload_length n h) ∙ sym (view-id c h)

  -- The parts of the header of a frame of the transport protocol.
  pub view-make_base_frame :
      (p : Pgn) (dst src : Address)
      → p < 2 ^ 16
      → dst < 2 ^ 8
      → src < 2 ^ 8
      → view c (make_base_frame c p dst src).header
        ≡ record { prio = 0; reserved = 0; page = 0; pf = p / 2 ^ 8; ps = dst; sa = src }
  unfolding make_base_frame
  view-make_base_frame p dst src hp hd hs =
      view-set_payload_length 8 _
      ∙ view-apply c (to_source_address src) _ hs
      ∙ ap (write (to_source_address src)) (
          view-apply c (to_pdu_specific dst) _ hd
          ∙ ap (write (to_pdu_specific dst))
              (view-apply c (to_pgn p) _ (omega arith) ∙ ap (write (to_pgn p)) view-empty))
      ∙ View-path (omega arith)

  -- What a receiver makes of a frame.
  pub record Reads (f : Frame c) (p : Pgn) (dst src : Address) : Type 0 where
    pub reads_pgn : pgn c f.header ≡ p
    pub reads_dst : pdu_specific c f.header ≡ dst
    pub reads_src : source_address c f.header ≡ src

  module _ (dst src : Address) (hd : dst < 2 ^ 8) (hs : src < 2 ^ 8) where
    pub make_cm_frame-Reads :
        (ctrl : Control) → Reads (make_cm_frame c ctrl dst src) pgn_tp_cm dst src
    unfolding make_cm_frame
    make_cm_frame-Reads ctrl =
        let v = view-make_base_frame pgn_tp_cm dst src (omega arith) hd hs in
        record {
          reads_pgn = pgn-view c _ ∙ ap pgn_of v;
          reads_dst = ap (λ u. u.ps) v;
          reads_src = ap (λ u. u.sa) v;
        }

    pub make_cm_frame-single :
        (ctrl : Control) → is_broadcast c (make_cm_frame c ctrl dst src).header ≡ false
    unfolding make_cm_frame
    make_cm_frame-single ctrl =
        is_broadcast-view c _
        ∙ ap is_broadcast_of (view-make_base_frame pgn_tp_cm dst src (omega arith) hd hs)

    pub make_dt_frame-Reads :
        (s : Session)
        → s.dest_sa ≡ dst
        → s.src_sa ≡ src
        → Reads (make_dt_frame c s) pgn_tp_dt dst src
    unfolding make_dt_frame
    make_dt_frame-Reads s ed es =
        let v = view-make_base_frame pgn_tp_dt dst src (omega arith) hd hs in
        rw (ed, es)
          record {
            reads_pgn = pgn-view c _ ∙ ap pgn_of v;
            reads_dst = ap (λ u. u.ps) v;
            reads_src = ap (λ u. u.sa) v;
          }

  -- The PGN and the length that a control frame carries.
  pub get_payload_pgn-fill_tp_payload :
      (s : Session) (f : Frame c)
      → s.pgn < 2 ^ 24
      → get_payload_pgn c (fill_tp_payload c s f) ≡ s.pgn
  unfolding get_payload_pgn fill_tp_payload
  get_payload_pgn-fill_tp_payload s f h = ground (
    arith,
    bit_or-above 8 (s.pgn % 2 ^ 8) (s.pgn / 2 ^ 8 % 2 ^ 8),
    bit_or-above 16 (s.pgn % 2 ^ 8 + s.pgn / 2 ^ 8 % 2 ^ 8 * 2 ^ 8) (s.pgn / 2 ^ 16 % 2 ^ 8),
  )

  pub length-fill_tp_payload :
      (s : Session) (f : Frame c)
      → s.length < 2 ^ 16
      → let g = fill_tp_payload c s f in bit_or g.payload.b1 (g.payload.b2 * 2 ^ 8) ≡ s.length
  unfolding fill_tp_payload
  length-fill_tp_payload s f h =
      bit_or-above 8 (s.length % 2 ^ 8) (s.length / 2 ^ 8) (omega arith) (omega arith) ∙ omega arith
