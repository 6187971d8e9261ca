-- ===== src/Claimer/Setup.antt =====
-- The callbacks of the class `address_claimer`, and a timer that ends with an error.
use jay.Base.{suc, Bool, ◌||◌, not, none, some, if◌then◌else◌}
use jay.Name.{Name}
use jay.Header.Canary.{Canary}
use jay.AddressStateMachine.{Sm, Env}
use jay.Claimer.Defs.{Claimer, with_world}

module _ (c : Canary) where
  -- Whether the function that is given is set.
  unfoldable on_address_claimed : Bool → Claimer c → Claimer c
  on_address_claimed given w = record w { has_on_address = given }

  unfoldable on_address_lost : Bool → Claimer c → Claimer c
  on_address_lost given w = record w { has_on_lose_address = given }

  unfoldable set_on_frame : Bool → Claimer c → Claimer c
  set_on_frame given w = record w { has_on_frame = given }

  unfoldable set_on_error : Bool → Claimer c → Claimer c
  set_on_error given w = record w { has_on_error = given }

  -- The name that the machine was made for.
  unfoldable get_own_name : Env (Claimer c) → Name
  get_own_name env = env.name

  -- on_fail(what, error_code); `aborted` says that the code is operation_aborted.
  unfoldable pub on_fail : Bool → Claimer c → Claimer c
  on_fail aborted w =
      if aborted || not w.has_on_error then w else record w { refusals = suc w.refusals }

  -- The pending wait ends with an error.
  unfoldable pub wait_failed : Bool → Sm (Claimer c) → Sm (Claimer c)
  unfolding on_fail
  wait_failed aborted s = elim (s.world.timer) [
    | none ↦ s
    | some _ ↦ with_world c (on_fail aborted (record (s.world) { timer = none })) s
  ]
