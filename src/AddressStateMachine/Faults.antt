-- ===== src/AddressStateMachine/Faults.antt =====
-- Where the guards of the claiming state leave a gap.
use jay.Base.{◌≡◌, refl, ap, ◌∙◌, arith, false}
use jay.Types.{Address, j1939_no_addr}
use jay.Network.{full, claimable, get_address, find_address, in_network}
use jay.AddressStateMachine.Defs.{
  Env, Sm, Event, no_address, claiming, start_claim, timeout, valid_address, no_valid_address,
  begin_claiming_address, run_callback, with_arg,
}
use jay.AddressStateMachine.Table.{transition_table}
use jay.AddressStateMachine.Interpreter.{IsInterpreter}
use jay.AddressStateMachine.Reactions.{at, claiming-timeout, no_address-start_claim}

-- The callbacks that a start of a claim makes leave the network alone.
pub record IsQuiet {W : Type 0} (env : Env W) : Type 0 where
  pub begins :
      (w : W) → env.network (run_callback env.callbacks.on_begin_claiming w) ≡ env.network w
  pub claims :
      (a : Address) (w : W)
      → env.network (run_callback (with_arg (with_arg env.callbacks.on_address_claim env.name) a) w)
        ≡ env.network w

module _ {W : Type 0} (env : Env W) (process_event : Event → Sm W → Sm W)
    (interpreter : IsInterpreter (transition_table env) process_event) where
  open env use {name, network}

  -- Neither guard of the timeout holds for a name that is not in the network and whose claiming
  -- address it cannot claim: the machine stays as it is.
  pub claiming_stuck :
      (c h : Address) (w : W)
      → in_network (network w) name ≡ false
      → claimable (network w) c name ≡ false
      → process_event timeout (at claiming c h w) ≡ at claiming c h w
  unfolding valid_address no_valid_address in_network get_address
  claiming_stuck c h w absent taken =
      claiming-timeout env process_event interpreter c h w ∙ ground arith

  -- If the network is not full, does not know the name, and find_address has no address for it, a
  -- start_claim in the state without address makes the machine claim J1939_NO_ADDR, and a timeout then
  -- changes nothing. (The callbacks for the start of a claim and for a claim leave the network alone,
  -- and the table is run as boost::sml documents.)
  pub start_claim_stuck :
      IsQuiet env
      → (c h : Address) (w : W) (pref : Address) → full (network w) ≡ false
      → in_network (network w) name ≡ false
      → find_address (network w) name pref ≡ j1939_no_addr
      → let s = process_event (start_claim pref) (at no_address c h w) in
        (s.state ≡ claiming) × (s.claiming_address ≡ j1939_no_addr) × (process_event timeout s ≡ s)
  unfolding begin_claiming_address claimable
  start_claim_stuck quiet c h w pref room absent nowhere =
      rw begun (refl, refl, claiming_stuck j1939_no_addr h claimed still_absent no_addr)
    where
      started : W
      started = run_callback env.callbacks.on_begin_claiming w

      claimed : W
      claimed =
          run_callback (with_arg (with_arg env.callbacks.on_address_claim name) j1939_no_addr)
            started

      same : network claimed ≡ network w
      same = quiet.claims j1939_no_addr started ∙ quiet.begins w

      begun :
          process_event (start_claim pref) (at no_address c h w)
          ≡ at claiming j1939_no_addr h claimed
      begun =
          no_address-start_claim env process_event interpreter c h w pref
          ∙ rw room (
              ap
                (λ a. at claiming a h (
                  run_callback (with_arg (with_arg env.callbacks.on_address_claim name) a) started))
                (ap (λ net. find_address net name pref) (quiet.begins w) ∙ nowhere))

      still_absent : in_network (network claimed) name ≡ false
      still_absent = rw same absent

      no_addr : claimable (network claimed) j1939_no_addr name ≡ false
      no_addr = refl
