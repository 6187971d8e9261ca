-- ===== src/Claimer/Histories.antt =====
-- The timer of include/jay/address_claimer.hpp in every order of frames, calls and handlers.
use jay.Base.{
  ◌≡◌, refl, arith, Bool, true, false, ◌&&◌, ◌||◌, not, Option, none, some, List, [], ◌∷◌, ◌++◌,
}
use jay.Types.{Address}
use jay.Name.{Name, from_payload}
use jay.Header.{source_address, pdu_specific}
use jay.Frame.{Frame}
use jay.Header.Canary.{Canary}
use jay.AddressStateMachine.{
  Sm, State, Event, no_address, claiming, has_address, start_claim, address_claim, address_request,
  timeout, random_retry, restart, IsInterpreter, transition_table, first_match, same_state,
  IsInterpreter-eq, begin_claiming_address, send_request, send_cannot_claim, send_claiming,
  send_claimed, set_pref_address, set_claimed_address, set_claiming_address, notify_address_gain,
  notify_address_loss,
}
use jay.AddressStateMachine.Reactions.{at}
use jay.Claimer.Defs.{
  Claimer, Wait, start_claim_delay, claim_timeout, cannot_claim_delay, claimer_env, on_address,
  on_address_loss, on_begin_claiming, on_address_claim, on_address_request, on_cannot_claim,
  process, process_claim, process_request, start_address_claim, run_posted, expire, elapse,
  run_queued,
}
use jay.Claimer.Setup.{wait_failed, on_fail}

-- What can happen next: a frame arrives, the user starts a claim, the io_context runs the next
-- posted event, or the pending wait is up and its handler runs, or fails with operation_aborted or
-- another error; or the pending wait is up and its handler is queued, or the next queued one runs.
pub data Input (c : Canary) : Type 0 where
  arrives : Frame c → Input c
  starts : Address → Input c
  runs expires : Input c
  fails : Bool → Input c
  elapses handles : Input c

-- No handler of the timer is queued: each runs as soon as its wait is up.
unfoldable pub prompt : {c : Canary} → List (Input c) → Bool
prompt [] = true
prompt (elapses ∷ is) = false
prompt (i ∷ is) = prompt is

prompt-cons :
    {c : Canary} (i : Input c) (is : List (Input c))
    → prompt (i ∷ is) ≡ prompt (i ∷ []) && prompt is
unfolding prompt
prompt-cons i is = ground arith

-- The waits that a state may have pending.
unfoldable pub timed : State → Option Wait → Bool
timed st none = true
timed st (some (start_claim_delay pref)) = same_state st no_address
timed st (some claim_timeout) = same_state st claiming
timed st (some (cannot_claim_delay n)) = not (same_state st claiming || same_state st has_address)

-- The events that are posted.
unfoldable pub postable : Event → Bool
postable (start_claim pref) = false
postable timeout = false
postable _ = true

unfoldable pub all_postable : List Event → Bool
all_postable [] = true
all_postable (e ∷ es) = postable e && all_postable es

pub all_postable-append :
    (es : List Event) (e : Event) → all_postable (es ++ e ∷ []) ≡ all_postable es && postable e
unfolding all_postable
all_postable-append [] e = ground arith
all_postable-append (x ∷ es) e = ground (arith, all_postable-append es e)

module _ (c : Canary) (n : Name) (process_event : Event → Sm (Claimer c) → Sm (Claimer c))
    (interpreter : IsInterpreter (transition_table (claimer_env c n)) process_event) where
  unfoldable pub input : Input c → Sm (Claimer c) → Sm (Claimer c)
  unfolding process start_address_claim run_posted expire wait_failed elapse run_queued
  input (arrives f) s = process c f s
  input (starts pref) s = start_address_claim c pref s
  input runs s = run_posted c process_event s
  input expires s = expire c process_event s
  input (fails aborted) s = wait_failed c aborted s
  input elapses s = elapse c s
  input handles s = run_queued c process_event s

  unfoldable pub history : List (Input c) → Sm (Claimer c) → Sm (Claimer c)
  unfolding input
  history [] s = s
  history (i ∷ is) s = history is (input i s)

  abbrev is_nil : List Wait → Bool
  is_nil [] = true
  is_nil (x ∷ xs) = false

  abbrev is_timed : Sm (Claimer c) → Bool
  is_timed s = timed s.state s.world.timer && (all_postable s.world.posted && is_nil s.world.queued)

  -- A posted event.
  process_event-posted :
      (e : Event) (st : State) (a h : Address) (w : Claimer c)
      → postable e ≡ true
      → is_timed (at st a h w) ≡ true
      → is_timed (process_event e (at st a h w)) ≡ true
  unfolding first_match transition_table begin_claiming_address send_request send_cannot_claim
      send_claiming send_claimed set_pref_address set_claimed_address set_claiming_address
      notify_address_gain notify_address_loss on_address on_address_loss on_begin_claiming
      on_address_claim on_address_request on_cannot_claim timed postable
  process_event-posted e st a h w p k = ground (
    arith,
    p,
    k,
    IsInterpreter-eq (transition_table (claimer_env c n)) process_event interpreter e (at st a h w),
  )

  -- The events of the timer, whose wait is over.
  process_event-timeout :
      (a h : Address) (w : Claimer c)
      → w.timer ≡ none
      → all_postable w.posted && is_nil w.queued ≡ true
      → is_timed (process_event timeout (at claiming a h w)) ≡ true
  unfolding first_match transition_table send_request set_claimed_address notify_address_gain
      on_address on_address_request timed
  process_event-timeout a h w t k = ground (
    arith,
    t,
    k,
    IsInterpreter-eq (transition_table (claimer_env c n)) process_event interpreter timeout
        (at claiming a h w),
  )

  process_event-start_claim :
      (pref a h : Address) (w : Claimer c)
      → w.timer ≡ none
      → all_postable w.posted && is_nil w.queued ≡ true
      → is_timed (process_event (start_claim pref) (at no_address a h w)) ≡ true
  unfolding first_match transition_table begin_claiming_address send_cannot_claim set_pref_address
      on_begin_claiming on_address_claim on_cannot_claim timed
  process_event-start_claim pref a h w t k = ground (
    arith,
    t,
    k,
    IsInterpreter-eq (transition_table (claimer_env c n)) process_event interpreter
        (start_claim pref) (at no_address a h w),
  )

  input-arrives :
      (f : Frame c) (s : Sm (Claimer c)) → is_timed s ≡ true → is_timed (process c f s) ≡ true
  unfolding process process_claim process_request postable
  input-arrives f s k = ground (
    arith,
    k,
    all_postable-append s.world.posted
        (address_claim (from_payload f.payload) (source_address c f.header)),
    all_postable-append s.world.posted (address_request (pdu_specific c f.header)),
  )

  input-starts :
      (pref : Address) (s : Sm (Claimer c))
      → is_timed s ≡ true
      → is_timed (start_address_claim c pref s) ≡ true
  unfolding start_address_claim timed postable
  input-starts pref s k = ground (arith, k, all_postable-append s.world.posted restart)

  run_posted-timed :
      (es : List Event) (st : State) (a h : Address) (w : Claimer c)
      → timed st w.timer ≡ true
      → all_postable es && is_nil w.queued ≡ true
      → is_timed (run_posted c process_event (at st a h (record w { posted = es }))) ≡ true
  unfolding run_posted all_postable
  run_posted-timed [] st a h w t k = ground (arith, t, k)
  run_posted-timed (e ∷ es) st a h w t k =
      process_event-posted e st a h (record w { posted = es }) (ground (arith, k))
        (ground (arith, t, k))

  expire-timed :
      (x : Option Wait) (st : State) (a h : Address) (w : Claimer c)
      → timed st x ≡ true
      → all_postable w.posted && is_nil w.queued ≡ true
      → is_timed (expire c process_event (at st a h (record w { timer = x }))) ≡ true
  unfolding expire timed postable
  expire-timed none st a h w t k = ground (arith, k)
  expire-timed (some (start_claim_delay pref)) no_address a h w t k =
      process_event-start_claim pref a h (record w { timer = none }) refl k
  expire-timed (some (start_claim_delay pref)) st a h w t k = ground (arith, t)
  expire-timed (some claim_timeout) claiming a h w t k =
      process_event-timeout a h (record w { timer = none }) refl k
  expire-timed (some claim_timeout) st a h w t k = ground (arith, t)
  expire-timed (some (cannot_claim_delay m)) st a h w t k =
      ground (arith, t, k, all_postable-append w.posted random_retry)

  wait_failed-timed :
      (x : Option Wait) (aborted : Bool) (st : State) (a h : Address) (w : Claimer c)
      → timed st x ≡ true
      → all_postable w.posted && is_nil w.queued ≡ true
      → is_timed (wait_failed c aborted (at st a h (record w { timer = x }))) ≡ true
  unfolding wait_failed on_fail timed
  wait_failed-timed none aborted st a h w t k = ground (arith, k)
  wait_failed-timed (some x) aborted st a h w t k = ground (arith, k)

  run_queued-timed :
      (xs : List Wait) (st : State) (a h : Address) (w : Claimer c)
      → is_timed (at st a h (record w { queued = xs })) ≡ true
      → is_timed (run_queued c process_event (at st a h (record w { queued = xs }))) ≡ true
  unfolding run_queued
  run_queued-timed [] st a h w k = k
  run_queued-timed (x ∷ xs) st a h w k = ground (arith, k)

  input-timed :
      (i : Input c) (s : Sm (Claimer c))
      → prompt (i ∷ []) ≡ true
      → is_timed s ≡ true
      → is_timed (input i s) ≡ true
  unfolding input prompt
  input-timed (arrives f) s q k = input-arrives f s k
  input-timed (starts pref) s q k = input-starts pref s k
  input-timed elapses s q k = cc
  input-timed handles s q k =
      run_queued-timed s.world.queued s.state s.claiming_address s.has_address_address s.world k
  input-timed runs s q k =
      run_posted-timed s.world.posted s.state s.claiming_address s.has_address_address s.world
        (ground (arith, k)) (ground (arith, k))
  input-timed expires s q k =
      expire-timed s.world.timer s.state s.claiming_address s.has_address_address s.world
        (ground (arith, k)) (ground (arith, k))
  input-timed (fails aborted) s q k =
      wait_failed-timed s.world.timer aborted s.state s.claiming_address s.has_address_address
        s.world (ground (arith, k)) (ground (arith, k))

  history-is_timed :
      (is : List (Input c)) (s : Sm (Claimer c))
      → prompt is ≡ true
      → is_timed s ≡ true
      → is_timed (history is s) ≡ true
  unfolding history
  history-is_timed [] s q k = k
  history-is_timed (i ∷ is) s q k =
      let both = prompt-cons i is in
      history-is_timed is (input i s) (ground (arith, q, both))
        (input-timed i s (ground (arith, q, both)) k)

  -- If each handler of the timer runs as soon as its wait is up, then in every order of frames, calls
  -- of start_address_claim, posted events and waits that are up or fail, from a machine without
  -- address, pending wait, queued handler and posted event on, the one timer never has a wait of
  -- another state: the delay before a claim is pending in the state without address only, the timeout
  -- of a claim while claiming only, the delay before "cannot claim" neither while claiming nor with an
  -- address. So with an address no wait is pending. The table is run as boost::sml documents.
  pub history-timed :
      (is : List (Input c)) (a h : Address) (w : Claimer c)
      → w.timer ≡ none
      → w.queued ≡ []
      → w.posted ≡ []
      → prompt is ≡ true
      → let s = history is (at no_address a h w) in timed s.state s.world.timer ≡ true
  unfolding timed all_postable
  history-timed is a h w t e p q =
      ground (arith, history-is_timed is (at no_address a h w) q (rw (t, e, p) refl))
