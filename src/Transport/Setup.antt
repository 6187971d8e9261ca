-- ===== src/Transport/Setup.antt =====
-- The constructor of the class `transport_protocol`, its handlers, its sending function and the
-- handler of its timer.
use jay.Base.{ℕ, Bool, true, false, if◌then◌else◌, Option, List, []}
use jay.Types.{Address, Pgn, Uint8}
use jay.Header.Canary.{Canary}
use jay.Transport.Defs.{Tp}
use jay.Transport.Send.{start_tx}
use jay.Transport.Receive.{tick}

module _ (c : Canary) where
  -- A transport protocol over a bus with this address, at a time of the clock.
  unfoldable pub new_tp : Address → ℕ → Tp c
  new_tp address now = record {
    sessions = [];
    bus_address = address;
    clock = now;
    sends = 0;
    sent = [];
    errors = [];
    delivered = [];
    has_error_callback = false;
    has_rx_callback = false;
  }

  -- Whether the handler that is given is set.
  unfoldable pub set_error_handler : Bool → Tp c → Tp c
  set_error_handler given t = record t { has_error_callback = given }

  unfoldable set_rx_handler : Bool → Tp c → Tp c
  set_rx_handler given t = record t { has_rx_callback = given }

  -- send(data, dest, pgn)
  unfoldable tp_send : (ℕ → Bool) → List Uint8 → Address → Pgn → Tp c → Option (Tp c × Bool)
  unfolding start_tx
  tp_send takes bytes dest pgn t = start_tx c takes bytes dest pgn t

  -- The handler of the timer that start_tick arms, with or without an error, and whether the timer is
  -- armed again.
  unfoldable on_tick_timer : (ℕ → Bool) → Bool → Tp c → Tp c × Bool
  unfolding tick
  on_tick_timer takes error t = if error then (t, false) else (tick c takes t, true)
