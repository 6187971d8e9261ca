-- ===== src/Transport/Safety/State.antt =====
-- Sessions of include/jay/transport_protocol.hpp that fit their buffers, and the frames that keep
-- them so.
use Prim.Native.Nat.{bit_or}
use jay.Base.{
  ℕ, ◌+◌, ◌*◌, ◌^◌, ◌≡◌, refl, arith, Bool, true, ◌&&◌, ◌||◌, not, ◌==◌, Option, none, some, List,
  [], ◌∷◌, length, leb,
}
use jay.Base.Map.{find, set}
use jay.Types.{Address}
use jay.Frame.{Frame}
use jay.Header.{pgn, source_address}
use jay.Header.Canary.{Canary}
use jay.Transport.Defs.{
  Session, Tp, Key, Control, same_key, session_at, put_session, pgn_tp_cm, rts, cts, bam, eom,
  abort, send_abort, report_error, bus_send, response_cts, send_eom_ack,
}
use jay.Transport.Receive.{control_of}

-- An entry whose packets fit into the buffer and whose sequence numbers do not wrap; only the
-- sessions that the node of the address sends may have a window of 0.
unfoldable pub is_safe : Address → Key × Session → Bool
is_safe a ((src, _), s) =
    leb (s.total_packets * 7) (length s.buffer + 6)
    && leb s.total_packets 254
    && ((src == a) || not (s.window_size == 0))

unfoldable pub all_safe : Address → List (Key × Session) → Bool
all_safe a [] = true
all_safe a (e ∷ m) = is_safe a e && all_safe a m

all_safe-set :
    (a : Address) (k : Key) (s : Session) (m : List (Key × Session))
    → is_safe a (k, s) ≡ true
    → all_safe a m ≡ true
    → all_safe a (set same_key k s m) ≡ true
unfolding all_safe set is_safe same_key
all_safe-set a k s [] h all = ground (arith, h)
all_safe-set a (k0, k1) s (((j0, j1), r) ∷ m) h all =
    let ih = all_safe-set a (k0, k1) s m h in ground (arith, h, all, ih)

is_safe-find :
    (a : Address) (k : Key) (s : Session) (m : List (Key × Session))
    → find same_key k m ≡ some s
    → all_safe a m ≡ true
    → is_safe a (k, s) ≡ true
unfolding all_safe find is_safe same_key
is_safe-find a k s [] e all = cc
is_safe-find a (k0, k1) s (((j0, j1), r) ∷ m) e all =
    let ih = is_safe-find a (k0, k1) s m in ground (arith, e, all, ih)

module _ (c : Canary) where
  unfoldable pub safe : Tp c → Bool
  safe t = all_safe t.bus_address t.sessions

  -- The announced packets fit the announced length, and their numbers do not wrap.
  unfoldable pub announced : Frame c → Bool
  announced f =
      leb (f.payload.b3 * 7) (bit_or f.payload.b1 (f.payload.b2 * 2 ^ 8) + 6)
      && leb f.payload.b3 254

  -- An RTS has a window too, and a CTS asks for a packet from number 1 on.
  unfoldable pub honest_cm : Frame c → Option Control → Bool
  honest_cm f none = true
  honest_cm f (some rts) = announced f && not (f.payload.b4 == 0)
  honest_cm f (some cts) = leb 1 f.payload.b2
  honest_cm f (some bam) = announced f
  honest_cm f (some eom) = true
  honest_cm f (some abort) = true

  -- A frame of another node that announces and asks for what there is.
  unfoldable pub honest : Address → Frame c → Bool
  honest a f =
      not (source_address c f.header == a)
      && (not (pgn c f.header == pgn_tp_cm) || honest_cm f (control_of f.payload.b0))

  module _ (takes : ℕ → Bool) where
    -- What changes neither the sessions nor the address.
    pub record Keeps (t t' : Tp c) : Type 0 where
      pub sessions_eq : t'.sessions ≡ t.sessions
      pub address_eq : t'.bus_address ≡ t.bus_address

    pub Keeps-refl : (t : Tp c) → Keeps t t
    Keeps-refl t = record { sessions_eq = refl; address_eq = refl }

    pub safe-Keeps : (t t' : Tp c) → Keeps t t' → safe t ≡ true → safe t' ≡ true
    unfolding safe
    safe-Keeps t t' k h = rw (k.sessions_eq, k.address_eq) h

    pub report_error-Keeps : (t t' : Tp c) (e : _) → Keeps t t' → Keeps t (report_error c e t')
    unfolding report_error
    report_error-Keeps t t' e k = record {
      sessions_eq = ground (arith, k.sessions_eq);
      address_eq = ground (arith, k.address_eq);
    }

    pub bus_send-Keeps :
        (t t' : Tp c) (f : Frame c) → Keeps t t' → Keeps t (bus_send c takes f t').0
    unfolding bus_send
    bus_send-Keeps t t' f k = record {
      sessions_eq = ground (arith, k.sessions_eq);
      address_eq = ground (arith, k.address_eq);
    }

    pub send_abort-Keeps :
        (t t' : Tp c) (s : Session) (code : _) → Keeps t t' → Keeps t (send_abort c takes s code t')
    unfolding send_abort
    send_abort-Keeps t t' s code k = bus_send-Keeps t t' _ k

    pub response_cts-Keeps :
        (t t' : Tp c) (s : Session) → Keeps t t' → Keeps t (response_cts c takes s t')
    unfolding response_cts
    response_cts-Keeps t t' s k = bus_send-Keeps t t' _ k

    pub send_eom_ack-Keeps :
        (t t' : Tp c) (s : Session) → Keeps t t' → Keeps t (send_eom_ack c takes s t').0
    unfolding send_eom_ack bus_send report_error
    send_eom_ack-Keeps t t' s k = record {
      sessions_eq = ground (arith, k.sessions_eq);
      address_eq = ground (arith, k.address_eq);
    }

    pub safe-put_session :
        (k : Key) (s : Session) (t : Tp c)
        → safe t ≡ true
        → is_safe t.bus_address (k, s) ≡ true
        → safe (put_session c k s t) ≡ true
    unfolding safe put_session
    safe-put_session k s t h e = all_safe-set t.bus_address k s t.sessions e h

    pub is_safe-session_at :
        (k : Key) (s : Session) (t : Tp c)
        → safe t ≡ true
        → session_at c t k ≡ some s
        → is_safe t.bus_address (k, s) ≡ true
    unfolding safe
    is_safe-session_at k s t h e = is_safe-find t.bus_address k s t.sessions e h
