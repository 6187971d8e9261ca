-- ===== src/Transport/Handshake/Steps.antt =====
-- The frames of a handshake of include/jay/transport_protocol.hpp, on a bus that takes every frame.
use jay.Base.{ℕ, suc, ◌≡◌, refl, ap, Bool, true, [], ◌∷◌, ◌++◌}
use jay.Frame.{Frame}
use jay.Header.Canary.{Canary}
use jay.Transport.Defs.{
  Session, Tp, rts, cts, bus_send, make_cm_frame, fill_tp_payload, response_cts,
}

module _ (c : Canary) (takes : ℕ → Bool) (all : (i : ℕ) → takes i ≡ true) where
  -- The bus took a frame.
  abbrev pub took : Frame c → Tp c → Tp c
  took f t = record t { sends = suc t.sends; sent = t.sent ++ f ∷ [] }

  pub bus_send-takes : (f : Frame c) (t : Tp c) → bus_send c takes f t ≡ (took f t, true)
  unfolding bus_send
  bus_send-takes f t = rw (all t.sends) refl

  -- The frame that asks for a transfer, and its answer.
  abbrev pub rts_frame : Session → Frame c
  rts_frame s = fill_tp_payload c s (make_cm_frame c rts s.dest_sa s.src_sa)

  abbrev pub cts_frame : Session → Frame c
  cts_frame s =
      let f = fill_tp_payload c s (make_cm_frame c cts s.src_sa s.dest_sa) in
      record f {
        payload = record (f.payload) { b1 = s.window_size; b2 = s.next_seq; b3 = 0; b4 = 0 };
      }

  pub response_cts-takes :
      (s : Session) (t : Tp c) → response_cts c takes s t ≡ took (cts_frame s) t
  unfolding response_cts
  response_cts-takes s t = ap (λ w. w.0) (bus_send-takes (cts_frame s) t)
