-- ===== src/AddressStateMachine/Table.antt =====
-- The transition table of include/jay/address_state_machine.hpp.
use jay.Base.{Bool, true, false, Option, none, some, List, [], ◌∷◌, ◌++◌}
use jay.Types.{Address}
use jay.Name.{Name}
use jay.AddressStateMachine.Defs.{
  Env, Sm, State, Event, no_address, claiming, has_address, address_lost, start_claim,
  address_claim, address_request, address_available, no_address_available, is_global_address_req,
  claiming_priority, claiming_loss, claiming_failure, claimed_priority, claimed_loss,
  claimed_failure, valid_address, no_valid_address, valid_claiming_request, valid_address_request,
  retry_allowed, retry_disallowed, send_request, send_cannot_claim, set_pref_address,
  begin_claiming_address, send_claiming, set_claimed_address, send_claimed, notify_address_gain,
  notify_address_loss, set_claiming_address,
}

-- What a row waits for: an event type, or the entry to or exit from its state.
pub data Trigger : Type 0 where
  on_entry on_exit : Trigger
  ev_start_claim ev_address_claim ev_address_request ev_timeout ev_random_retry ev_restart : Trigger

-- state<source> + event<trigger> [guard] / action = state<target>; `none` for a row that leaves the
-- state alone.
pub record Row (W : Type 0) : Type 0 where
  pub source : State
  pub trigger : Trigger
  pub guard : Event → Sm W → Bool
  pub action : Event → Sm W → Sm W
  pub target : Option State

abbrev always : {W : Type 0} → Event → Sm W → Bool
always e s = true

-- Guards and actions that read the event's fields.
abbrev on_claim : {W : Type 0} → (Name → Address → Sm W → Bool) → Event → Sm W → Bool
on_claim g (address_claim n a) s = g n a s
on_claim g _ s = false

abbrev on_request : {W : Type 0} → (Address → Sm W → Bool) → Event → Sm W → Bool
on_request g (address_request d) s = g d s
on_request g _ s = false

module _ {W : Type 0} (env : Env W) where
  open env use {name, network, injected_start_claim}

  -- The ev_start_claim of the event, or the injected one.
  abbrev pref_of : Event → Address
  pref_of (start_claim pref) = pref
  pref_of _ = injected_start_claim

  abbrev available_guard : Event → Sm W → Bool
  available_guard e s = address_available (network s.world)

  abbrev set_pref : Event → Sm W → Sm W
  set_pref e s = set_pref_address env (pref_of e) s

  unfoldable pub no_address_rows : List (Row W)
  no_address_rows =
      record {
        source = no_address;
        trigger = on_entry;
        guard = available_guard;
        action = λ e s. send_request env s;
        target = none;
      }
      ∷ record {
        source = no_address;
        trigger = ev_address_request;
        guard = on_request (λ d s. is_global_address_req d);
        action = λ e s. send_cannot_claim env s;
        target = none;
      }
      ∷ record {
        source = no_address;
        trigger = ev_start_claim;
        guard = available_guard;
        action = set_pref;
        target = some claiming;
      }
      ∷ record {
        source = no_address;
        trigger = ev_start_claim;
        guard = λ e s. no_address_available (network s.world);
        action = λ e s. send_cannot_claim env s;
        target = none;
      }
      ∷ record {
        source = no_address;
        trigger = ev_restart;
        guard = always;
        action = λ e s. s;
        target = some no_address;
      }
      ∷ []

  unfoldable pub claiming_rows : List (Row W)
  claiming_rows =
      record {
        source = claiming;
        trigger = on_entry;
        guard = always;
        action = λ e s. begin_claiming_address env s;
        target = none;
      }
      ∷ record {
        source = claiming;
        trigger = ev_address_claim;
        guard = on_claim (λ n a s. claiming_priority name s.claiming_address n a);
        action = λ e s. send_claiming env s;
        target = none;
      }
      ∷ record {
        source = claiming;
        trigger = ev_address_claim;
        guard = on_claim (λ n a s. claiming_loss name s.claiming_address n a (network s.world));
        action = λ e s. begin_claiming_address env s;
        target = none;
      }
      ∷ record {
        source = claiming;
        trigger = ev_address_claim;
        guard = on_claim (λ n a s. claiming_failure name s.claiming_address n a (network s.world));
        action = λ e s. s;
        target = some address_lost;
      }
      ∷ record {
        source = claiming;
        trigger = ev_timeout;
        guard = λ e s. valid_address name s.claiming_address (network s.world);
        action = λ e s. set_claimed_address env s;
        target = some has_address;
      }
      ∷ record {
        source = claiming;
        trigger = ev_timeout;
        guard = λ e s. no_valid_address name s.claiming_address (network s.world);
        action = λ e s. s;
        target = some no_address;
      }
      ∷ record {
        source = claiming;
        trigger = ev_address_request;
        guard = on_request (λ d s. valid_claiming_request s.claiming_address d);
        action = λ e s. send_claiming env s;
        target = none;
      }
      ∷ []

  unfoldable pub has_address_rows : List (Row W)
  has_address_rows =
      record {
        source = has_address;
        trigger = on_entry;
        guard = always;
        action = λ e s. notify_address_gain env s;
        target = none;
      }
      ∷ record {
        source = has_address;
        trigger = ev_address_request;
        guard = on_request (λ d s. valid_address_request s.has_address_address d);
        action = λ e s. send_claimed env s;
        target = none;
      }
      ∷ record {
        source = has_address;
        trigger = ev_address_claim;
        guard = on_claim (λ n a s. claimed_priority name s.has_address_address n a);
        action = λ e s. send_claimed env s;
        target = none;
      }
      ∷ record {
        source = has_address;
        trigger = ev_address_claim;
        guard = on_claim (λ n a s. claimed_loss name s.has_address_address n a (network s.world));
        action = λ e s. set_claiming_address env s;
        target = some claiming;
      }
      ∷ record {
        source = has_address;
        trigger = ev_address_claim;
        guard =
            on_claim (λ n a s. claimed_failure name s.has_address_address n a (network s.world));
        action = λ e s. s;
        target = some address_lost;
      }
      ∷ record {
        source = has_address;
        trigger = on_exit;
        guard = always;
        action = λ e s. notify_address_loss env s;
        target = none;
      }
      ∷ []

  unfoldable pub address_lost_rows : List (Row W)
  address_lost_rows =
      record {
        source = address_lost;
        trigger = on_entry;
        guard = always;
        action = λ e s. send_cannot_claim env s;
        target = none;
      }
      ∷ record {
        source = address_lost;
        trigger = ev_address_request;
        guard = on_request (λ d s. is_global_address_req d);
        action = λ e s. send_cannot_claim env s;
        target = none;
      }
      ∷ record {
        source = address_lost;
        trigger = ev_random_retry;
        guard = λ e s. retry_allowed name (network s.world);
        action = set_pref;
        target = some claiming;
      }
      ∷ record {
        source = address_lost;
        trigger = ev_random_retry;
        guard = λ e s. retry_disallowed name (network s.world);
        action = λ e s. send_cannot_claim env s;
        target = some no_address;
      }
      ∷ []

  unfoldable pub transition_table : List (Row W)
  unfolding no_address_rows claiming_rows has_address_rows address_lost_rows
  transition_table = no_address_rows ++ (claiming_rows ++ (has_address_rows ++ address_lost_rows))
