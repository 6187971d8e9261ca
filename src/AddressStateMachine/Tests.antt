-- ===== src/AddressStateMachine/Tests.antt =====
-- Runs of include/jay/address_state_machine.hpp for the controller of name 5.
use jay.Base.{◌≡◌, refl, true, false, ◌==◌, some, if◌then◌else◌, List, [], ◌∷◌}
use jay.Base.Map.{find, set, erase, try_emplace}
use jay.Types.{j1939_no_addr}
use jay.Name.{name_lt, self_config_address}
use jay.Network.{Network, full, find_address, in_network, new, insert, same_name, same_addr}
use jay.AddressStateMachine.Defs.{
  Env, Sm, Event, no_address, claiming, has_address, address_lost, start_claim, address_claim,
  address_request, timeout, valid_address, no_valid_address, send_request, send_cannot_claim,
  begin_claiming_address, send_claiming, send_claimed, notify_address_gain, notify_address_loss,
}
use jay.AddressStateMachine.Table.{transition_table}
use jay.AddressStateMachine.Interpreter.{first_match, first_match-IsInterpreter, IsInterpreter}
use jay.AddressStateMachine.Reactions.{
  at, edge, answer, has_address-address_claim, claiming-address_claim, claiming-timeout,
  address_request-answer, process_event-edge,
}
use jay.AddressStateMachine.Faults.{IsQuiet, start_claim_stuck}

-- What the callbacks were told, the latest first.
data Note : Type 0 where
  got lost claims begins requests cannot : Note

record World : Type 0 where
  net : Network
  notes : List Note

abbrev note : Note → World → World
note x w = record w { notes = x ∷ w.notes }

abbrev env : Env World
env = record {
  name = 5;
  callbacks = record {
    on_address = some (λ n a. note got);
    on_lose_address = some (λ n. note lost);
    on_begin_claiming = some (note begins);
    on_address_claim = some (λ n a. note claims);
    on_request = some (note requests);
    on_cannot_claim = some (λ n. note cannot);
  };
  network = λ w. w.net;
  injected_start_claim = 0;
}

abbrev machine : Event → Sm World → Sm World
machine = first_match (transition_table env)

machine-IsInterpreter : IsInterpreter (transition_table env) machine
machine-IsInterpreter = first_match-IsInterpreter (transition_table env)

-- The network where name 3 has the address 10.
abbrev world : World
world = record { net = (insert new 3 10).0; notes = [] }

has_address-address_claim_example : machine (address_claim 3 10) (at has_address 10 10 world) ≡ (
    if 10 == 10
    then (if name_lt 5 3
        then send_claimed env (at has_address 10 10 world)
        else (if full world.net
            then send_cannot_claim env
                (at address_lost 10 10 (notify_address_loss env (at has_address 10 10 world)).world)
            else begin_claiming_address env
                (at claiming 10 10 (notify_address_loss env (at has_address 10 10 world)).world)))
    else at has_address 10 10 world)
unfolding notify_address_loss
has_address-address_claim_example =
    has_address-address_claim env machine machine-IsInterpreter 10 10 world 3 10

claiming-address_claim_example : machine (address_claim 3 10) (at claiming 10 0 world) ≡ (
    if 10 == 10
    then (if name_lt 5 3
        then send_claiming env (at claiming 10 0 world)
        else (if full world.net
            then send_cannot_claim env (at address_lost 10 0 world)
            else begin_claiming_address env (at claiming 10 0 world)))
    else at claiming 10 0 world)
claiming-address_claim_example =
    claiming-address_claim env machine machine-IsInterpreter 10 0 world 3 10

claiming-timeout_example : machine timeout (at claiming 11 0 world) ≡ (
    if valid_address 5 11 world.net
    then notify_address_gain env (at has_address 11 11 world)
    else (if no_valid_address 5 11 world.net
        then (if full world.net
            then at no_address 11 0 world
            else send_request env (at no_address 11 0 world))
        else at claiming 11 0 world))
claiming-timeout_example = claiming-timeout env machine machine-IsInterpreter 11 0 world

address_request-answer_example :
    machine (address_request j1939_no_addr) (at has_address 10 10 world)
    ≡ answer env j1939_no_addr (at has_address 10 10 world)
address_request-answer_example =
    address_request-answer env machine machine-IsInterpreter has_address 10 10 world j1939_no_addr

process_event-edge_example :
    edge
      (address_claim 3 10)
      has_address
      (machine (address_claim 3 10) (at has_address 10 10 world)).state
    ≡ true
process_event-edge_example =
    process_event-edge env machine machine-IsInterpreter (address_claim 3 10) has_address 10 10
      world

quiet : IsQuiet env
quiet = record { begins = λ w. refl; claims = λ a w. refl }

room : full world.net ≡ false
unfolding full insert new find set erase try_emplace same_name same_addr
room = refl

absent : in_network world.net 5 ≡ false
unfolding in_network insert new find set erase try_emplace same_name same_addr
absent = refl

nowhere : find_address world.net 5 10 ≡ j1939_no_addr
unfolding find_address self_config_address insert new find set erase try_emplace same_name same_addr
nowhere = refl

start_claim_stuck_example :
    ((machine (start_claim 10) (at no_address 0 0 world)).state ≡ claiming)
    × ((machine (start_claim 10) (at no_address 0 0 world)).claiming_address ≡ j1939_no_addr)
    × (machine timeout (machine (start_claim 10) (at no_address 0 0 world))
        ≡ machine (start_claim 10) (at no_address 0 0 world))
start_claim_stuck_example =
    start_claim_stuck env machine machine-IsInterpreter quiet 0 0 world 10 room absent nowhere
