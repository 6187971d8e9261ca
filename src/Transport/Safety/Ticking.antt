-- ===== src/Transport/Safety/Ticking.antt =====
-- tick of include/jay/transport_protocol.hpp on sessions that fit their buffers.

use jay.Base.{ℕ, ◌≡◌, refl, arith, Bool, true, List, [], ◌∷◌}
use jay.Header.Canary.{Canary}
use jay.Transport.Defs.{Session, Tp, Key}
use jay.Transport.Receive.{tick}
use jay.Transport.Timer.{kept, tick_lem}
use jay.Transport.Safety.State.{safe, all_safe}

module _ (c : Canary) (takes : ℕ → Bool) where
  all_safe-kept :
      (a now : ℕ) (m : List (Key × Session)) → all_safe a m ≡ true → all_safe a (kept now m) ≡ true
  unfolding kept all_safe
  all_safe-kept a now [] h = refl
  all_safe-kept a now (e ∷ m) h = let ih = all_safe-kept a now m in ground (arith, h, ih)

  -- tick leaves the sessions safe.
  pub tick-safe : (t : Tp c) → safe c t ≡ true → safe c (tick c takes t) ≡ true
  unfolding safe
  tick-safe t h =
      let (same, _, _, own) = tick_lem c takes t in
      rw (same, own) (all_safe-kept t.bus_address t.clock t.sessions h)
