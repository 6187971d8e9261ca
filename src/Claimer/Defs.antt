-- ===== src/Claimer/Defs.antt =====
-- The class `address_claimer`: the callbacks that it gives to the state machine, the frames that it
-- takes, and the handlers that the io_context runs. How long a timer waits is left out: when it is
-- up, either the io_context runs `expire`, or `elapse` queues the handler, which `run_queued` runs
-- later; `run_posted` runs the next event that was posted.
use jay.Base.{ℕ, suc, Bool, ◌==◌, Option, none, some, List, [], ◌∷◌, ◌++◌, if◌then◌else◌}
use jay.Types.{Address, j1939_no_addr}
use jay.Name.{Name, from_payload, self_config_address}
use jay.Header.{is_claim, is_request, source_address, pdu_specific}
use jay.Header.Canary.{Canary}
use jay.Frame.{Frame, make_address_claim, make_address_request, make_cannot_claim}
use jay.Network.{Network, insert, release}
use jay.AddressStateMachine.{
  Env, Sm, Event, no_address, start_claim, address_claim, address_request, timeout, random_retry,
  restart, same_state,
}

-- The three waits of timeout_timer_: before a claim starts, after a claim was sent, and before
-- "cannot claim" is sent.
pub data Wait : Type 0 where
  start_claim_delay : Address → Wait
  claim_timeout : Wait
  cannot_claim_delay : Name → Wait

module _ (c : Canary) where
  -- What the machine's callbacks act on. A new wait cancels the one that is pending, whose handler
  -- then gets operation_aborted and does nothing. It does not cancel a wait that was up before: the
  -- handlers of these wait in `queued`, and run as if nothing had happened.
  pub record Claimer : Type 0 where
    pub table : Network
    pub timer : Option Wait
    pub queued : List Wait
    pub posted : List Event
    -- What was given to on_frame_, on_address_, on_lose_address_ and on_error_, where they are set.
    pub frames : List (Frame c)
    pub gained : List (Name × Address)
    pub losses : List Name
    pub refusals : ℕ
    pub has_on_frame : Bool
    pub has_on_address : Bool
    pub has_on_lose_address : Bool
    pub has_on_error : Bool

module _ (c : Canary) where
  unfoldable pub emit_frame : Frame c → Claimer c → Claimer c
  emit_frame f w = if w.has_on_frame then record w { frames = w.frames ++ f ∷ [] } else w

  -- The timer is set anew. A wait that is pending is cancelled: its handler gets operation_aborted and
  -- returns. A handler whose wait was up before, and that is queued, stays in the queue.
  unfoldable pub wait_for : Wait → Claimer c → Claimer c
  wait_for x w = record w { timer = some x }

  unfoldable pub post : Event → Claimer c → Claimer c
  post e w = record w { posted = w.posted ++ e ∷ [] }

  unfoldable pub on_address : Name → Address → Claimer c → Claimer c
  on_address n a w =
      let w' = record w { table = (insert w.table n a).0 } in
      if w'.has_on_address then record w' { gained = w'.gained ++ (n, a) ∷ [] } else w'

  unfoldable pub on_address_loss : Name → Claimer c → Claimer c
  on_address_loss n w =
      let w' = record w { table = release w.table n } in
      if w'.has_on_lose_address then record w' { losses = w'.losses ++ n ∷ [] } else w'

  unfoldable pub on_begin_claiming : Claimer c → Claimer c
  unfolding wait_for
  on_begin_claiming w = wait_for claim_timeout w

  unfoldable pub on_address_claim : Name → Address → Claimer c → Claimer c
  unfolding emit_frame
  on_address_claim n a w = emit_frame (make_address_claim c n a) w

  unfoldable pub on_address_request : Claimer c → Claimer c
  unfolding emit_frame
  on_address_request w = emit_frame (make_address_request c j1939_no_addr) w

  unfoldable pub on_cannot_claim : Name → Claimer c → Claimer c
  unfolding wait_for
  on_cannot_claim n w = wait_for (cannot_claim_delay n) w

  -- The machine's environment that the constructor sets up.
  abbrev pub claimer_env : Name → Env (Claimer c)
  claimer_env n = record {
    name = n;
    callbacks = record {
      on_address = some on_address;
      on_lose_address = some on_address_loss;
      on_begin_claiming = some on_begin_claiming;
      on_address_claim = some on_address_claim;
      on_request = some on_address_request;
      on_cannot_claim = some on_cannot_claim;
    };
    network = λ w. w.table;
    injected_start_claim = 0;
  }

  abbrev pub with_world : Claimer c → Sm (Claimer c) → Sm (Claimer c)
  with_world w s = record s { world = w }

  unfoldable pub process_claim : Name → Address → Sm (Claimer c) → Sm (Claimer c)
  unfolding post
  process_claim n a s =
      let (table', accepted, _) = insert s.world.table n a in
      let w = record (s.world) { table = table' } in
      if accepted
      then with_world (post (address_claim n a) w) s
      else with_world (if w.has_on_error then record w { refusals = suc w.refusals } else w) s

  unfoldable pub process_request : Address → Sm (Claimer c) → Sm (Claimer c)
  unfolding post
  process_request a s = with_world (post (address_request a) s.world) s

  unfoldable pub process : Frame c → Sm (Claimer c) → Sm (Claimer c)
  unfolding process_claim process_request
  process f s =
      if is_claim c f.header
      then process_claim (from_payload f.payload) (source_address c f.header) s
      else (if is_request c f.header then process_request (pdu_specific c f.header) s else s)

  unfoldable pub start_address_claim : Address → Sm (Claimer c) → Sm (Claimer c)
  unfolding wait_for post
  start_address_claim pref s =
      if same_state s.state no_address
      then with_world (wait_for (start_claim_delay pref) (post restart s.world)) s
      else s

  module _ (process_event : Event → Sm (Claimer c) → Sm (Claimer c)) where
    -- The next event that was posted.
    unfoldable pub run_posted : Sm (Claimer c) → Sm (Claimer c)
    run_posted s = elim (s.world.posted) [
      | [] ↦ s
      | e ∷ es ↦ process_event e (with_world (record (s.world) { posted = es }) s)
    ]

    -- The handler of a wait, when the wait is over.
    unfoldable pub run_handler : Wait → Sm (Claimer c) → Sm (Claimer c)
    unfolding emit_frame post
    run_handler (start_claim_delay pref) s = process_event (start_claim pref) s
    run_handler claim_timeout s = process_event timeout s
    run_handler (cannot_claim_delay n) s =
        let w = emit_frame (make_cannot_claim c n) s.world in
        with_world (if self_config_address n == 0 then w else post random_retry w) s

    -- The pending wait is up, and its handler runs at once.
    unfoldable pub expire : Sm (Claimer c) → Sm (Claimer c)
    unfolding run_handler
    expire s = elim (s.world.timer) [
      | none ↦ s
      | some x ↦ run_handler x (with_world (record (s.world) { timer = none }) s)
    ]

    -- The next handler of a wait that was up before.
    unfoldable pub run_queued : Sm (Claimer c) → Sm (Claimer c)
    unfolding run_handler
    run_queued s = elim (s.world.queued) [
      | [] ↦ s
      | x ∷ xs ↦ run_handler x (with_world (record (s.world) { queued = xs }) s)
    ]

  -- The pending wait is up, and its handler is queued behind others.
  unfoldable pub elapse : Sm (Claimer c) → Sm (Claimer c)
  elapse s = elim (s.world.timer) [
    | none ↦ s
    | some x ↦ with_world (record (s.world) { timer = none; queued = s.world.queued ++ x ∷ [] }) s
  ]
