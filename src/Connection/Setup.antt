-- ===== src/Connection/Setup.antt =====
-- The remaining methods of the class `j1939_connection` that set or get a member, and the timer of
-- its transport protocol.
use jay.Base.{ℕ, ◌≡◌, refl, Bool, true, if◌then◌else◌, Option, none}
use jay.Name.{Name}
use jay.Header.Canary.{Canary}
use jay.Network.{Network}
use jay.Transport.{tick}
use jay.Transport.Setup.{new_tp, set_error_handler}
use jay.Connection.Defs.{Connection, connect, after_tp}

module _ (c : Canary) where
  -- The constructor without names.
  unfoldable connect_unnamed : Network → Connection c
  unfolding connect
  connect_unnamed net = connect c net none none

  -- on_read(on_read), whether the function that is given is set.
  unfoldable set_on_read : Bool → Connection c → Connection c
  set_on_read given x = record x { has_on_read = given }

  unfoldable get_local_name : Connection c → Option Name
  get_local_name x = x.local_name

  unfoldable get_target_name : Connection c → Option Name
  get_target_name x = x.target_name

  unfoldable get_network : Connection c → Network
  get_network x = x.network

  -- What start() leaves running: the timer of the transport protocol is up, with or without an error.
  unfoldable on_connection_tick : (ℕ → Bool) → Bool → Connection c → Connection c
  unfolding tick after_tp
  on_connection_tick takes error x = if error then x else after_tp c (tick c takes x.tp) x

  -- A new connection has a new transport protocol over a bus at the address 254, with an error handler.
  tp-connect :
      (net : Network) (own target : Option Name)
      → (connect c net own target).tp ≡ set_error_handler c true (new_tp c 0xFE 0)
  unfolding connect set_error_handler new_tp
  tp-connect net own target = refl
