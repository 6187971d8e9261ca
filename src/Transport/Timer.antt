-- ===== src/Transport/Timer.antt =====
-- tick of include/jay/transport_protocol.hpp: the sessions that a timer leaves.
use native.Mathlib.Decide.{dec_lt}
use jay.Base.{
  ℕ, suc, ◌+◌, ◌-◌, ◌<◌, ◌≤◌, ◌≡◌, refl, ap, ◌∙◌, arith, Bool, List, [], ◌∷◌, length, leb,
  if◌then◌else◌,
}
use jay.Header.Canary.{Canary}
use jay.Transport.Defs.{
  Session, Tp, Key, tx, rx, t2, t3, session_clean_timeout, send_abort, report_error, timeout,
  tp_timeout,
}
use jay.Transport.Receive.{tick, tick_sessions}

-- The longest silence of a session's peer.
abbrev pub limit : Session → ℕ
limit s = elim (s.dir) [ tx ↦ t3 | rx ↦ t2 ]

limit-low : (s : Session) → limit s ≤ session_clean_timeout
limit-low s = ground arith

-- The entries of the sessions with an activity within their limit, in the order of the map.
abbrev pub in_time : ℕ → Session → Bool
in_time now s = leb (now - s.last_activity) (limit s)

unfoldable pub kept : ℕ → List (Key × Session) → List (Key × Session)
kept now [] = []
kept now ((k, s) ∷ m) = let rest = kept now m in if in_time now s then (k, s) ∷ rest else rest

kept-late :
    (now : ℕ) (k : Key) (s : Session) (m : List (Key × Session))
    → limit s < now - s.last_activity
    → kept now ((k, s) ∷ m) ≡ kept now m
unfolding kept
kept-late now k s m h = ground arith

kept-early :
    (now : ℕ) (k : Key) (s : Session) (m : List (Key × Session))
    → now - s.last_activity ≤ limit s
    → kept now ((k, s) ∷ m) ≡ (k, s) ∷ kept now m
unfolding kept
kept-early now k s m h = ground arith

module _ (c : Canary) (takes : ℕ → Bool) where
  abbrev timed_out : Session → Tp c → Tp c
  timed_out s t = report_error c tp_timeout (send_abort c takes s timeout t)

  timed_out-sends : (s : Session) (t : Tp c) → (timed_out s t).sends ≡ suc t.sends
  unfolding report_error send_abort
  timed_out-sends s t = ground arith

  timed_out-clock : (s : Session) (t : Tp c) → (timed_out s t).clock ≡ t.clock
  unfolding report_error send_abort
  timed_out-clock s t = ground arith

  timed_out-delivered : (s : Session) (t : Tp c) → (timed_out s t).delivered ≡ t.delivered
  unfolding report_error send_abort
  timed_out-delivered s t = ground arith

  timed_out-bus_address : (s : Session) (t : Tp c) → (timed_out s t).bus_address ≡ t.bus_address
  unfolding report_error send_abort
  timed_out-bus_address s t = ground arith

  tick_sessions-late :
      (k : Key) (s : Session) (m : List (Key × Session)) (t : Tp c)
      → limit s < t.clock - s.last_activity
      → tick_sessions c takes ((k, s) ∷ m) t ≡ tick_sessions c takes m (timed_out s t)
  unfolding tick_sessions
  tick_sessions-late k s m t h = ground arith

  tick_sessions-early :
      (k : Key) (s : Session) (m : List (Key × Session)) (t : Tp c)
      → t.clock - s.last_activity ≤ limit s
      → tick_sessions c takes ((k, s) ∷ m) t
        ≡ ((k, s) ∷ (tick_sessions c takes m t).0, (tick_sessions c takes m t).1)
  unfolding tick_sessions
  tick_sessions-early k s m t h = ground (arith, limit-low s)

  -- What a pass over the entries leaves.
  abbrev Pass : List (Key × Session) → Tp c → List (Key × Session) × Tp c → Type 0
  Pass m t (m', t') =
      (m' ≡ kept t.clock m)
      × (t'.sends + length (kept t.clock m) ≡ t.sends + length m)
      × (t'.delivered ≡ t.delivered)
      × (t'.bus_address ≡ t.bus_address)

  tick_sessions-Pass : (m : List (Key × Session)) (t : Tp c) → Pass m t (tick_sessions c takes m t)
  unfolding tick_sessions kept
  tick_sessions-Pass [] t = (refl, refl, refl, refl)
  tick_sessions-Pass ((k, s) ∷ m) t = elim (dec_lt (limit s) (t.clock - s.last_activity)) [
    | yes over ↦
        let (same, count, given, own) = tick_sessions-Pass m (timed_out s t) in
        let now = timed_out-clock s t in
        rw (tick_sessions-late k s m t over, kept-late t.clock k s m over)
          (
            same ∙ ap (λ n. kept n m) now,
            omega (arith, count, timed_out-sends s t, ap (λ n. length (kept n m)) now),
            given ∙ timed_out-delivered s t,
            own ∙ timed_out-bus_address s t,
          )
    | no under ↦
        let (same, count, given, own) = tick_sessions-Pass m t in
        rw (tick_sessions-early k s m t (omega arith), kept-early t.clock k s m (omega arith))
          (ap (λ r. (k, s) ∷ r) same, omega (arith, count), given, own)
  ]

  -- tick keeps the entries of the sessions with an activity in the last 1250 ms, in their order,
  -- hands the bus one frame for each other entry, delivers nothing and
  -- keeps its address.
  pub tick_lem :
      (t : Tp c)
      → ((tick c takes t).sessions ≡ kept t.clock t.sessions)
        × ((tick c takes t).sends + length (kept t.clock t.sessions) ≡ t.sends + length t.sessions)
        × ((tick c takes t).delivered ≡ t.delivered)
        × ((tick c takes t).bus_address ≡ t.bus_address)
  unfolding tick
  tick_lem t = tick_sessions-Pass t.sessions t
