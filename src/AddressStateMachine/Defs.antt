-- ===== src/AddressStateMachine/Defs.antt =====
-- The states, events, guards and actions of include/jay/address_state_machine.hpp.
-- W is what the callbacks act on: the claimer around the machine, with the network in it.
use jay.Base.{Bool, not, ◌&&◌, ◌||◌, ◌==◌, ltb, Option, none, some}
use jay.Types.{Address, j1939_idle_addr, j1939_no_addr}
use jay.Name.{Name, name_lt, self_config_address}
use jay.Network.{Network, full, claimable, get_address, find_address}

-- struct callbacks; each may be unset.
pub record Callbacks (W : Type 0) : Type 0 where
  pub on_address : Option (Name → Address → W → W)
  pub on_lose_address : Option (Name → W → W)
  pub on_begin_claiming : Option (W → W)
  pub on_address_claim : Option (Name → Address → W → W)
  pub on_request : Option (W → W)
  pub on_cannot_claim : Option (Name → W → W)

-- st_no_address, st_claiming, st_has_address and st_address_lost.
pub data State : Type 0 where
  no_address claiming has_address address_lost : State

-- The ev_ structs with their fields.
pub data Event : Type 0 where
  start_claim : Address → Event
  address_claim : Name → Address → Event
  address_request : Address → Event
  timeout random_retry restart : Event

-- What does not change while a machine runs: its name and callbacks, where its network is, and the
-- ev_start_claim that is handed to the machine as a dependency, which an action takes where the
-- event is another one.
pub record Env (W : Type 0) : Type 0 where
  pub name : Name
  pub callbacks : Callbacks W
  pub network : W → Network
  pub injected_start_claim : Address

-- The current state, the fields `address` of st_claiming and st_has_address, and the world.
pub record Sm (W : Type 0) : Type 0 where
  pub state : State
  pub claiming_address : Address
  pub has_address_address : Address
  pub world : W

-- Guards on the network.
unfoldable pub no_address_available : Network → Bool
unfolding full
no_address_available net = full net

unfoldable pub address_available : Network → Bool
unfolding full
address_available net = not (full net)

unfoldable pub address_priority : Name → Name → Bool
unfolding name_lt
address_priority own name = name_lt own name

unfoldable pub address_conflict : Address → Address → Bool
address_conflict l_address r_address = l_address == r_address

unfoldable pub address_change_required : Name → Name → Address → Address → Bool
unfolding address_conflict address_priority
address_change_required own name l_address r_address =
    address_conflict l_address r_address && not (address_priority own name)

unfoldable pub retry_allowed : Name → Network → Bool
unfolding address_available self_config_address
retry_allowed own net = not (self_config_address own == 0) && address_available net

unfoldable pub retry_disallowed : Name → Network → Bool
unfolding retry_allowed
retry_disallowed own net = not (retry_allowed own net)

-- Guards of the claiming state: own name, claiming address, then the fields of the event.
unfoldable pub claiming_priority : Name → Address → Name → Address → Bool
unfolding address_conflict address_priority
claiming_priority own claiming_addr name address =
    address_conflict claiming_addr address && address_priority own name

unfoldable pub claiming_loss : Name → Address → Name → Address → Network → Bool
unfolding address_change_required address_available
claiming_loss own claiming_addr name address net =
    address_change_required own name address claiming_addr && address_available net

unfoldable pub claiming_failure : Name → Address → Name → Address → Network → Bool
unfolding address_change_required no_address_available
claiming_failure own claiming_addr name address net =
    address_change_required own name address claiming_addr && no_address_available net

-- Guards of the state that has an address.
unfoldable pub claimed_priority : Name → Address → Name → Address → Bool
unfolding address_conflict address_priority
claimed_priority own has_addr name address =
    address_conflict has_addr address && address_priority own name

unfoldable pub claimed_loss : Name → Address → Name → Address → Network → Bool
unfolding address_change_required address_available
claimed_loss own has_addr name address net =
    address_change_required own name address has_addr && address_available net

unfoldable pub claimed_failure : Name → Address → Name → Address → Network → Bool
unfolding address_change_required no_address_available
claimed_failure own has_addr name address net =
    address_change_required own name address has_addr && no_address_available net

unfoldable pub valid_address : Name → Address → Network → Bool
unfolding claimable get_address
valid_address own claiming_addr net =
    claimable net claiming_addr own || ltb (get_address net own) j1939_idle_addr

unfoldable pub no_valid_address : Name → Address → Network → Bool
unfolding claimable get_address
no_valid_address own claiming_addr net =
    not (claimable net claiming_addr own) && (get_address net own == j1939_idle_addr)

unfoldable pub is_global_address_req : Address → Bool
is_global_address_req destination = destination == j1939_no_addr

unfoldable pub valid_claiming_request : Address → Address → Bool
unfolding is_global_address_req
valid_claiming_request claiming_addr destination =
    (destination == claiming_addr) || is_global_address_req destination

unfoldable pub valid_address_request : Address → Address → Bool
unfolding is_global_address_req
valid_address_request has_addr destination =
    (destination == has_addr) || is_global_address_req destination

-- A callback that is not set is not called.
abbrev pub run_callback {ℓ} : {W : Type ℓ} → Option (W → W) → W → W
run_callback none w = w
run_callback (some f) w = f w

abbrev pub with_arg {ℓ} : {A B : Type ℓ} → Option (A → B) → A → Option B
with_arg none a = none
with_arg (some f) a = some (f a)

module _ {W : Type 0} (env : Env W) where
  open env use {name, callbacks, network, injected_start_claim}

  abbrev pub emit : Option (W → W) → Sm W → Sm W
  emit f s = record s { world = run_callback f s.world }

  unfoldable pub send_address_claim : Address → Sm W → Sm W
  send_address_claim address s =
      emit (with_arg (with_arg callbacks.on_address_claim name) address) s

  unfoldable pub send_request : Sm W → Sm W
  send_request s = emit callbacks.on_request s

  unfoldable pub set_pref_address : Address → Sm W → Sm W
  set_pref_address pref s = record s { claiming_address = pref }

  unfoldable pub set_claimed_address : Sm W → Sm W
  set_claimed_address s = record s { has_address_address = s.claiming_address }

  unfoldable pub set_claiming_address : Sm W → Sm W
  set_claiming_address s = record s { claiming_address = s.has_address_address }

  unfoldable pub claim_address : Sm W → Sm W
  unfolding send_address_claim
  claim_address s =
      let address = find_address (network s.world) name s.claiming_address in
      send_address_claim address (record s { claiming_address = address })

  unfoldable pub begin_claiming_address : Sm W → Sm W
  unfolding claim_address
  begin_claiming_address s = claim_address (emit callbacks.on_begin_claiming s)

  unfoldable pub send_claiming : Sm W → Sm W
  unfolding send_address_claim
  send_claiming s = send_address_claim s.claiming_address s

  unfoldable pub send_claimed : Sm W → Sm W
  unfolding send_address_claim
  send_claimed s = send_address_claim s.has_address_address s

  unfoldable pub send_cannot_claim : Sm W → Sm W
  send_cannot_claim s = emit (with_arg callbacks.on_cannot_claim name) s

  unfoldable pub notify_address_gain : Sm W → Sm W
  notify_address_gain s =
      emit (with_arg (with_arg callbacks.on_address name) s.has_address_address) s

  unfoldable pub notify_address_loss : Sm W → Sm W
  notify_address_loss s = emit (with_arg callbacks.on_lose_address name) s
