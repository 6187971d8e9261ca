-- ===== src/Claimer/Cancelled.antt =====
-- The start of a claim in include/jay/address_claimer.hpp, and a request for addresses behind it.
use jay.Base.{
  ◌≡◌, refl, ap, ◌∙◌, arith, Bool, true, false, ◌&&◌, Option, none, some, List, [], ◌∷◌, ◌++◌,
  if◌then◌else◌,
}
use jay.Types.{Address}
use jay.Name.{Name, from_payload}
use jay.Frame.{Frame}
use jay.Header.{is_claim, is_request, source_address, pdu_specific}
use jay.Header.Canary.{Canary}
use jay.Network.{full}
use jay.AddressStateMachine.{
  Sm, State, Event, no_address, address_claim, address_request, random_retry, restart,
  IsInterpreter, transition_table, first_match, same_state, IsInterpreter-eq, address_available,
  send_request, send_cannot_claim,
}
use jay.AddressStateMachine.Reactions.{at, address_request-answer}
use jay.Claimer.Defs.{
  Claimer, Wait, start_claim_delay, cannot_claim_delay, claimer_env, on_address_request,
  on_cannot_claim, post, wait_for, process, process_claim, process_request, start_address_claim,
  run_posted, expire, elapse, run_queued,
}
use jay.Claimer.Setup.{wait_failed, on_fail}
use jay.Claimer.Histories.{
  Input, arrives, starts, runs, expires, fails, elapses, handles, input, history, postable,
  all_postable, all_postable-append,
}

-- No claim is about to start.
unfoldable idle_wait : Option Wait → Bool
idle_wait none = true
idle_wait (some (cannot_claim_delay n)) = true
idle_wait (some _) = false

-- Nor has a queued handler to start one.
unfoldable all_idle : List Wait → Bool
all_idle [] = true
all_idle (x ∷ xs) = idle_wait (some x) && all_idle xs

all_idle-append :
    (xs : List Wait) (x : Wait) → all_idle (xs ++ x ∷ []) ≡ all_idle xs && idle_wait (some x)
unfolding all_idle
all_idle-append [] x = ground arith
all_idle-append (y ∷ xs) x = ground (arith, all_idle-append xs x)

-- None of the inputs is a call of start_address_claim.
unfoldable pub no_starts : {c : Canary} → List (Input c) → Bool
no_starts [] = true
no_starts (starts pref ∷ is) = false
no_starts (i ∷ is) = no_starts is

module _ (c : Canary) (n : Name) (process_event : Event → Sm (Claimer c) → Sm (Claimer c))
    (interpreter : IsInterpreter (transition_table (claimer_env c n)) process_event) where
  abbrev is_idle : Sm (Claimer c) → Bool
  is_idle s =
      same_state s.state no_address
      && (idle_wait s.world.timer && (all_postable s.world.posted && all_idle s.world.queued))

  process_event-idle :
      (e : Event) (a h : Address) (w : Claimer c)
      → postable e ≡ true
      → is_idle (at no_address a h w) ≡ true
      → is_idle (process_event e (at no_address a h w)) ≡ true
  unfolding first_match transition_table send_request send_cannot_claim on_address_request
      on_cannot_claim idle_wait postable
  process_event-idle e a h w p k = ground (
    arith,
    p,
    k,
    IsInterpreter-eq (transition_table (claimer_env c n)) process_event interpreter e
        (at no_address a h w),
  )

  arrives-idle :
      (f : Frame c) (s : Sm (Claimer c)) → is_idle s ≡ true → is_idle (process c f s) ≡ true
  unfolding process process_claim process_request postable
  arrives-idle f s k = ground (
    arith,
    k,
    all_postable-append s.world.posted
        (address_claim (from_payload f.payload) (source_address c f.header)),
    all_postable-append s.world.posted (address_request (pdu_specific c f.header)),
  )

  run_posted-idle :
      (es : List Event) (a h : Address) (w : Claimer c)
      → is_idle (at no_address a h (record w { posted = es })) ≡ true
      → is_idle (run_posted c process_event (at no_address a h (record w { posted = es }))) ≡ true
  unfolding run_posted all_postable
  run_posted-idle [] a h w k = k
  run_posted-idle (e ∷ es) a h w k =
      process_event-idle e a h (record w { posted = es }) (ground (arith, k)) (ground (arith, k))

  expire-idle :
      (x : Option Wait) (a h : Address) (w : Claimer c)
      → is_idle (at no_address a h (record w { timer = x })) ≡ true
      → is_idle (expire c process_event (at no_address a h (record w { timer = x }))) ≡ true
  unfolding expire idle_wait postable
  expire-idle none a h w k = ground (arith, k)
  expire-idle (some (cannot_claim_delay m)) a h w k =
      ground (arith, k, all_postable-append w.posted random_retry)
  expire-idle (some x) a h w k = ground (arith, k)

  wait_failed-idle :
      (x : Option Wait) (aborted : Bool) (st : State) (a h : Address) (w : Claimer c)
      → is_idle (at st a h (record w { timer = x })) ≡ true
      → is_idle (wait_failed c aborted (at st a h (record w { timer = x }))) ≡ true
  unfolding wait_failed on_fail idle_wait
  wait_failed-idle none aborted st a h w k = k
  wait_failed-idle (some x) aborted st a h w k = ground (arith, k)

  elapse-idle :
      (x : Option Wait) (st : State) (a h : Address) (w : Claimer c)
      → is_idle (at st a h (record w { timer = x })) ≡ true
      → is_idle (elapse c (at st a h (record w { timer = x }))) ≡ true
  unfolding elapse idle_wait
  elapse-idle none st a h w k = k
  elapse-idle (some x) st a h w k = ground (arith, k, all_idle-append w.queued x)

  run_queued-idle :
      (xs : List Wait) (st : State) (a h : Address) (w : Claimer c)
      → is_idle (at st a h (record w { queued = xs })) ≡ true
      → is_idle (run_queued c process_event (at st a h (record w { queued = xs }))) ≡ true
  unfolding run_queued all_idle idle_wait postable
  run_queued-idle [] st a h w k = k
  run_queued-idle (cannot_claim_delay m ∷ xs) st a h w k =
      ground (arith, k, all_postable-append w.posted random_retry)
  run_queued-idle (x ∷ xs) st a h w k = ground (arith, k)

  input-idle :
      (i : Input c) (st : State) (a h : Address) (w : Claimer c)
      → no_starts (i ∷ []) ≡ true
      → is_idle (at st a h w) ≡ true
      → is_idle (input c n process_event interpreter i (at st a h w)) ≡ true
  unfolding input no_starts
  input-idle (arrives f) st a h w q k = arrives-idle f (at st a h w) k
  input-idle (starts pref) st a h w q k = cc
  input-idle runs no_address a h w q k = run_posted-idle w.posted a h w k
  input-idle expires no_address a h w q k = expire-idle w.timer a h w k
  input-idle (fails aborted) st a h w q k = wait_failed-idle w.timer aborted st a h w k
  input-idle elapses st a h w q k = elapse-idle w.timer st a h w k
  input-idle handles st a h w q k = run_queued-idle w.queued st a h w k
  input-idle runs st a h w q k = ground (arith, k)
  input-idle expires st a h w q k = ground (arith, k)

  no_starts-cons :
      (i : Input c) (is : List (Input c)) → no_starts (i ∷ is) ≡ no_starts (i ∷ []) && no_starts is
  unfolding no_starts
  no_starts-cons i is = ground arith

  history-idle :
      (is : List (Input c)) (s : Sm (Claimer c))
      → no_starts is ≡ true
      → is_idle s ≡ true
      → is_idle (history c n process_event interpreter is s) ≡ true
  unfolding history
  history-idle [] s q k = k
  history-idle (i ∷ is) s q k =
      let both = no_starts-cons i is in
      history-idle is (input c n process_event interpreter i s) (ground (arith, q, both)) (
        input-idle i s.state s.claiming_address s.has_address_address s.world
          (ground (arith, q, both)) k)

  -- The events of the start and of the request, in the state without address.
  abbrev asked : Claimer c → Claimer c
  asked w = if full w.table then w else on_address_request c w

  process_event-restart :
      (a h : Address) (w : Claimer c)
      → process_event restart (at no_address a h w) ≡ at no_address a h (asked w)
  unfolding first_match transition_table send_request address_available
  process_event-restart a h w =
      IsInterpreter-eq (transition_table (claimer_env c n)) process_event interpreter restart
        (at no_address a h w)
      ∙ ground arith

  asked-posted : (w : Claimer c) → (asked w).posted ≡ w.posted
  unfolding on_address_request
  asked-posted w = ground arith

  process-request :
      (f : Frame c) (a h : Address) (w : Claimer c)
      → is_request c f.header ≡ true
      → pdu_specific c f.header ≡ 0xFF
      → process c f (at no_address a h w) ≡ at no_address a h (post c (address_request 0xFF) w)
  unfolding process process_request is_claim is_request
  process-request f a h w asks all = ground (arith, asks, all)

  run_posted-eq :
      (e : Event) (a h : Address) (w : Claimer c)
      → w.posted ≡ e ∷ []
      → run_posted c process_event (at no_address a h w)
        ≡ process_event e (at no_address a h (record w { posted = [] }))
  unfolding run_posted
  run_posted-eq e a h w p = rw p refl

  request-idle :
      (a h : Address) (w : Claimer c)
      → all_idle w.queued ≡ true
      → is_idle
          (process_event (address_request 0xFF) (at no_address a h (record w { posted = [] })))
        ≡ true
  unfolding send_cannot_claim on_cannot_claim idle_wait all_postable
  request-idle a h w e =
      rw
        (address_request-answer (claimer_env c n) process_event interpreter no_address a h
          (record w { posted = [] }) 0xFF)
        (ground (arith, e))

  -- The world after the start of a claim and its restart event, and after the request has come in.
  abbrev started : Address → Claimer c → Claimer c
  started pref w =
      asked (record (wait_for c (start_claim_delay pref) (post c restart w)) { posted = [] })

  abbrev requested : Address → Claimer c → Claimer c
  requested pref w = post c (address_request 0xFF) (started pref w)

  run_posted-start :
      (pref a h : Address) (w : Claimer c)
      → w.posted ≡ []
      → run_posted c process_event (start_address_claim c pref (at no_address a h w))
        ≡ at no_address a h (started pref w)
  unfolding start_address_claim wait_for post
  run_posted-start pref a h w quiet =
      run_posted-eq restart a h (wait_for c (start_claim_delay pref) (post c restart w))
        (ap (λ es. es ++ restart ∷ []) quiet)
      ∙ process_event-restart a h
          (record (wait_for c (start_claim_delay pref) (post c restart w)) { posted = [] })

  run_posted-request :
      (pref a h : Address) (w : Claimer c)
      → w.queued ≡ []
      → is_idle (run_posted c process_event (at no_address a h (requested pref w))) ≡ true
  unfolding post wait_for on_address_request all_idle
  run_posted-request pref a h w e =
      rw
        (run_posted-eq (address_request 0xFF) a h (requested pref w)
          (ap (λ es. es ++ address_request 0xFF ∷ []) (asked-posted _)))
        (request-idle a h (requested pref w) (ground (arith, ap all_idle e)))

  -- A request for all addresses that comes in after the start of a claim, and whose event runs before
  -- the wait of 200 ms is up, ends the start: the answer "cannot claim" takes the timer. In every
  -- order of further frames, posted events, waits that pass or fail and handlers of the timer, queued
  -- or not, up to the next call of start_address_claim, the machine stays without address. (The event
  -- of the start has run when the request comes in; before the start no event was posted and no
  -- handler queued. The table is run as boost::sml documents.)
  pub start_address_claim_cancelled :
      (pref a h : Address) (w : Claimer c) (f : Frame c) (is : List (Input c))
      → w.posted ≡ []
      → w.queued ≡ []
      → is_request c f.header ≡ true
      → pdu_specific c f.header ≡ 0xFF
      → no_starts is ≡ true
      → (history c n process_event interpreter
          (starts pref ∷ runs ∷ arrives f ∷ runs ∷ is)
          (at no_address a h w)).state
        ≡ no_address
  unfolding history input
  start_address_claim_cancelled pref a h w f is quiet idle asks all calm =
      let e : run_posted c process_event (
            process c f
              (run_posted c process_event (start_address_claim c pref (at no_address a h w))))
          ≡ run_posted c process_event (at no_address a h (requested pref w)) =
        ap (λ s. run_posted c process_event (process c f s)) (run_posted-start pref a h w quiet)
        ∙ ap (run_posted c process_event) (process-request f a h (started pref w) asks all) in
      let k =
        history-idle is (run_posted c process_event (at no_address a h (requested pref w))) calm
          (run_posted-request pref a h w idle) in
      ap (λ s. (history c n process_event interpreter is s).state) e ∙ ground (arith, k)
