-- ===== src/AddressStateMachine/Interpreter.antt =====
-- The interpreter of the transition table of include/jay/address_state_machine.hpp.
use jay.Base.{
  ◌≡◌, Bool, true, false, ◌&&◌, Option, none, some, List, [], ◌∷◌, if◌then◌else◌, Option-cases, inl,
  inr,
}
use jay.AddressStateMachine.Defs.{
  Sm, State, Event, no_address, claiming, has_address, address_lost, start_claim, address_claim,
  address_request, timeout, random_retry, restart,
}
use jay.AddressStateMachine.Table.{
  Trigger, Row, on_entry, on_exit, ev_start_claim, ev_address_claim, ev_address_request, ev_timeout,
  ev_random_retry, ev_restart,
}

abbrev pub same_state : State → State → Bool
same_state no_address no_address = true
same_state claiming claiming = true
same_state has_address has_address = true
same_state address_lost address_lost = true
same_state _ _ = false

abbrev pub same_trigger : Trigger → Trigger → Bool
same_trigger on_entry on_entry = true
same_trigger on_exit on_exit = true
same_trigger ev_start_claim ev_start_claim = true
same_trigger ev_address_claim ev_address_claim = true
same_trigger ev_address_request ev_address_request = true
same_trigger ev_timeout ev_timeout = true
same_trigger ev_random_retry ev_random_retry = true
same_trigger ev_restart ev_restart = true
same_trigger _ _ = false

abbrev pub trigger_of : Event → Trigger
trigger_of (start_claim pref) = ev_start_claim
trigger_of (address_claim n a) = ev_address_claim
trigger_of (address_request d) = ev_address_request
trigger_of timeout = ev_timeout
trigger_of random_retry = ev_random_retry
trigger_of restart = ev_restart

module _ {W : Type 0} where
  -- The first row of the state and trigger whose guard holds.
  unfoldable pub first_enabled : List (Row W) → Trigger → Event → Sm W → Option (Row W)
  first_enabled [] t e s = none
  first_enabled (r ∷ rows) t e s =
      if same_state r.source s.state && (same_trigger r.trigger t && r.guard e s)
      then some r
      else first_enabled rows t e s

  -- The action of an entry or exit, if the state has one that is enabled.
  unfoldable pub perform : List (Row W) → Trigger → Event → Sm W → Sm W
  unfolding first_enabled
  perform rows t e s = elim (first_enabled rows t e s) [ none ↦ s | some r ↦ r.action e s ]

  -- A row with a target: exit action, own action, entry action. One without: its own action.
  unfoldable pub take : List (Row W) → Row W → Event → Sm W → Sm W
  unfolding perform
  take rows r e s = elim r.target [
    | none ↦ r.action e s
    | some t ↦
        perform rows on_entry e (record (r.action e (perform rows on_exit e s)) { state = t })
  ]

  -- The documented behaviour of boost::sml on a table with one region: an event takes the first row
  -- of the current state whose guard holds, and is ignored where there is none.
  pub record IsInterpreter (rows : List (Row W)) (process_event : Event → Sm W → Sm W)
      : Type 0 where
    pub takes :
        (e : Event) (s : Sm W) (r : Row W)
        → first_enabled rows (trigger_of e) e s ≡ some r
        → process_event e s ≡ take rows r e s
    pub ignores :
        (e : Event) (s : Sm W)
        → first_enabled rows (trigger_of e) e s ≡ none
        → process_event e s ≡ s

  -- A function that behaves so.
  unfoldable pub first_match : List (Row W) → Event → Sm W → Sm W
  unfolding take
  first_match rows e s = elim (first_enabled rows (trigger_of e) e s) [
    | none ↦ s
    | some r ↦ take rows r e s
  ]

  pub first_match-IsInterpreter : (rows : List (Row W)) → IsInterpreter rows (first_match rows)
  unfolding first_match
  first_match-IsInterpreter rows = record {
    takes = λ e s r h. rw (h, first_match);
    ignores = λ e s h. rw (h, first_match);
  }

  -- It is the only one.
  pub IsInterpreter-eq :
      (rows : List (Row W)) (process_event : Event → Sm W → Sm W)
      → IsInterpreter rows process_event
      → (e : Event) (s : Sm W) → process_event e s ≡ first_match rows e s
  unfolding first_match
  IsInterpreter-eq rows process_event i e s =
      elim (Option-cases (first_enabled rows (trigger_of e) e s)) [
        | inl no_row ↦ rw (no_row, first_match) (i.ignores e s no_row)
        | inr (r, row) ↦ rw (row, first_match) (i.takes e s r row)
      ]
