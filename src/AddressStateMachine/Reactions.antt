-- ===== src/AddressStateMachine/Reactions.antt =====
-- What the machine does on the events that decide about its address, whatever its callbacks do.
use jay.Base.{◌≡◌, ◌||◌, ◌∙◌, arith, Bool, true, ◌==◌, if◌then◌else◌}
use jay.Types.{Address, j1939_no_addr}
use jay.Name.{Name, name_lt}
use jay.Network.{full}
use jay.AddressStateMachine.Defs.{
  Env, Sm, State, Event, no_address, claiming, has_address, address_lost, start_claim,
  address_claim, address_request, timeout, random_retry, retry_allowed, retry_disallowed,
  valid_address, no_valid_address, send_request, send_cannot_claim, set_pref_address,
  begin_claiming_address, send_claiming, set_claimed_address, send_claimed, notify_address_gain,
  notify_address_loss, set_claiming_address, address_available, no_address_available,
  claiming_priority, claiming_loss, claiming_failure, claimed_priority, claimed_loss,
  claimed_failure, is_global_address_req, valid_claiming_request, valid_address_request,
}
use jay.AddressStateMachine.Table.{transition_table}
use jay.AddressStateMachine.Interpreter.{IsInterpreter, IsInterpreter-eq, first_match, same_state}

-- The diagram of the state machine: which event may lead from which state to which other.
abbrev pub edge : Event → State → State → Bool
edge (start_claim pref) no_address claiming = true
edge timeout claiming has_address = true
edge timeout claiming no_address = true
edge (address_claim n a) claiming address_lost = true
edge (address_claim n a) has_address claiming = true
edge (address_claim n a) has_address address_lost = true
edge random_retry address_lost claiming = true
edge random_retry address_lost no_address = true
edge e from to = same_state from to

-- The machine in a state.
abbrev pub at : {W : Type 0} → State → Address → Address → W → Sm W
at st c h w = record { state = st; claiming_address = c; has_address_address = h; world = w }

-- The reply to a request for addresses.
abbrev pub answer : {W : Type 0} (env : Env W) → Address → Sm W → Sm W
answer env d s = elim s.state [
  | no_address ↦ if d == j1939_no_addr then send_cannot_claim env s else s
  | claiming ↦ if (d == s.claiming_address) || (d == j1939_no_addr) then send_claiming env s else s
  | has_address ↦
      if (d == s.has_address_address) || (d == j1939_no_addr) then send_claimed env s else s
  | address_lost ↦ if d == j1939_no_addr then send_cannot_claim env s else s
]

module _ {W : Type 0} (env : Env W) (process_event : Event → Sm W → Sm W)
    (interpreter : IsInterpreter (transition_table env) process_event) where
  open env use {name, network}

  step-eq : (e : Event) (s : Sm W) → process_event e s ≡ first_match (transition_table env) e s
  step-eq = IsInterpreter-eq (transition_table env) process_event interpreter

  -- A claim that arrives while the machine has an address: it is ignored unless it is for that
  -- address. Against a name of lower priority the own claim is sent again. Otherwise the loss is
  -- reported, and the machine claims the address that find_address gives it for the one it lost, which
  -- can be the same one, or gives up if the network is full.
  -- The table is run as boost::sml documents.
  pub has_address-address_claim :
      (c h : Address) (w : W) (n : Name) (a : Address)
      → process_event (address_claim n a) (at has_address c h w) ≡ (
          if h == a
          then (if name_lt name n
              then send_claimed env (at has_address c h w)
              else (let lost = (notify_address_loss env (at has_address c h w)).world in
                  if full (network w)
                  then send_cannot_claim env (at address_lost c h lost)
                  else begin_claiming_address env (at claiming h h lost)))
          else at has_address c h w)
  unfolding first_match transition_table claimed_priority claimed_loss claimed_failure
      set_claiming_address notify_address_loss
  has_address-address_claim c h w n a = step-eq _ _ ∙ ground arith

  -- A claim that arrives while the machine claims an address: it is ignored unless it is for that
  -- address. Against a name of lower priority the own claim is sent again. Otherwise a new claim
  -- starts from that address or, if the network is full, the machine gives up.
  -- The table is run as boost::sml documents.
  pub claiming-address_claim :
      (c h : Address) (w : W) (n : Name) (a : Address)
      → process_event (address_claim n a) (at claiming c h w) ≡ (
          if c == a
          then (if name_lt name n
              then send_claiming env (at claiming c h w)
              else (if full (network w)
                  then send_cannot_claim env (at address_lost c h w)
                  else begin_claiming_address env (at claiming c h w)))
          else at claiming c h w)
  unfolding first_match transition_table claiming_priority claiming_loss claiming_failure
  claiming-address_claim c h w n a = step-eq _ _ ∙ ground arith

  -- The end of the waiting time: the address is taken, and reported, if the name can claim it or has
  -- an address in the network already; the machine goes back to the start if the name is idle.
  -- The table is run as boost::sml documents.
  pub claiming-timeout :
      (c h : Address) (w : W)
      → process_event timeout (at claiming c h w) ≡ (
          if valid_address name c (network w)
          then notify_address_gain env (at has_address c c w)
          else (if no_valid_address name c (network w)
              then (if full (network w)
                  then at no_address c h w
                  else send_request env (at no_address c h w))
              else at claiming c h w))
  unfolding first_match transition_table set_claimed_address address_available
  claiming-timeout c h w = step-eq _ _ ∙ ground arith

  -- A claim starts in the state without address if the network has room, and is refused otherwise.
  -- The table is run as boost::sml documents.
  pub no_address-start_claim :
      (c h : Address) (w : W) (pref : Address)
      → process_event (start_claim pref) (at no_address c h w) ≡ (
          if full (network w)
          then send_cannot_claim env (at no_address c h w)
          else begin_claiming_address env (at claiming pref h w))
  unfolding first_match transition_table set_pref_address address_available no_address_available
  no_address-start_claim c h w pref = step-eq _ _ ∙ ground arith

  -- After a loss the random retry starts again from the injected preference, for a self configuring
  -- name in a network with room.
  -- The table is run as boost::sml documents.
  pub address_lost-random_retry :
      (c h : Address) (w : W)
      → process_event random_retry (at address_lost c h w) ≡ (
          if retry_allowed name (network w)
          then begin_claiming_address env (at claiming env.injected_start_claim h w)
          else (let told = send_cannot_claim env (at address_lost c h w) in
              if full (network told.world)
              then record told { state = no_address }
              else send_request env (record told { state = no_address })))
  unfolding first_match transition_table set_pref_address address_available retry_disallowed
  address_lost-random_retry c h w = step-eq _ _ ∙ ground arith

  -- A request for addresses is answered in every state: with the address that is claimed or held, if
  -- the request is for it or for all; and that none can be claimed, if the request is for all.
  -- The table is run as boost::sml documents.
  pub address_request-answer :
      (st : State) (c h : Address) (w : W) (d : Address)
      → process_event (address_request d) (at st c h w) ≡ answer env d (at st c h w)
  unfolding first_match transition_table is_global_address_req valid_claiming_request
      valid_address_request
  address_request-answer no_address c h w d = step-eq _ _ ∙ ground arith
  address_request-answer claiming c h w d = step-eq _ _ ∙ ground arith
  address_request-answer has_address c h w d = step-eq _ _ ∙ ground arith
  address_request-answer address_lost c h w d = step-eq _ _ ∙ ground arith

  -- An event leaves the state as it is or follows an edge of the diagram. So an address is gained
  -- only by a timeout while claiming, and lost only by a claim that arrives.
  -- The table is run as boost::sml documents.
  pub process_event-edge :
      (e : Event) (st : State) (c h : Address) (w : W)
      → edge e st (process_event e (at st c h w)).state ≡ true
  unfolding first_match transition_table begin_claiming_address send_request send_cannot_claim
      send_claiming send_claimed set_pref_address set_claimed_address set_claiming_address
      notify_address_gain notify_address_loss
  process_event-edge (start_claim pref) no_address c h w =
      ground (arith, step-eq (start_claim pref) (at no_address c h w))
  process_event-edge e st c h w = ground (arith, step-eq e (at st c h w))
