-- ===== src/Claimer/Late.antt =====
-- A handler of the timer in include/jay/address_claimer.hpp that was queued before a new wait began.
use jay.Base.{◌^◌, ◌<◌, ◌≤◌, ◌≡◌, refl, ap, ◌∙◌, arith, false, none, some, List, [], ◌∷◌, ◌++◌}
use jay.Types.{Address, j1939_max_unicast_addr}
use jay.Name.{Name, rank, name_lt-rank}
use jay.Header.Canary.{Canary}
use jay.Network.{full, find_address, name_at}
use jay.AddressStateMachine.{
  Sm, Event, claiming, has_address, address_claim, IsInterpreter, transition_table, timeout,
  begin_claiming_address, notify_address_gain,
}
use jay.AddressStateMachine.Reactions.{at, claiming-address_claim, claiming-timeout}
use jay.Claimer.Defs.{
  Claimer, Wait, claimer_env, claim_timeout, elapse, run_queued, run_posted, on_address,
  on_address_claim, on_begin_claiming,
}
use jay.Claimer.Startup.{claimed, claimed-table, claimed-timer, valid_address-free}
use jay.Claimer.Histories.{elapses, runs, handles, history, input}

module _ (c : Canary) (n : Name) (process_event : Event → Sm (Claimer c) → Sm (Claimer c))
    (interpreter : IsInterpreter (transition_table (claimer_env c n)) process_event) (r h : Address)
    (w : Claimer c) (m : Name) (hn : n < 2 ^ 64) (hm : m < 2 ^ 64) (prior : rank m < rank n)
    (room : full w.table ≡ false) (unicast : find_address w.table n r ≤ j1939_max_unicast_addr)
    (free : name_at w.table (find_address w.table n r) ≡ none) where
  abbrev next : Address
  next = find_address w.table n r

  -- The world when the wait is up, and when the event of the claim has run.
  abbrev late : Claimer c
  late = record w { timer = none; queued = claim_timeout ∷ []; posted = [] }

  abbrev again : Claimer c
  again = claimed c n process_event interpreter next late

  -- The world when the wait is up, with the claim's event still posted.
  abbrev with_queue : List Wait → Sm (Claimer c)
  with_queue xs = at claiming r h (record w { timer = none; queued = xs ++ claim_timeout ∷ [] })

  elapse-claim : w.timer ≡ some claim_timeout → elapse c (at claiming r h w) ≡ with_queue w.queued
  unfolding elapse
  elapse-claim pending = rw pending refl

  run_posted-claim :
      w.posted ≡ address_claim m r ∷ []
      → run_posted c process_event (with_queue [])
        ≡ process_event (address_claim m r) (at claiming r h late)
  unfolding run_posted
  run_posted-claim claim = rw claim refl

  first_steps :
      w.timer ≡ some claim_timeout
      → w.queued ≡ []
      → w.posted ≡ address_claim m r ∷ []
      → run_posted c process_event (elapse c (at claiming r h w))
        ≡ process_event (address_claim m r) (at claiming r h late)
  first_steps pending idle claim =
      ap (run_posted c process_event) (elapse-claim pending ∙ ap with_queue idle)
      ∙ run_posted-claim claim

  withdraws : process_event (address_claim m r) (at claiming r h late) ≡ at claiming next h again
  unfolding begin_claiming_address claimed on_begin_claiming
  withdraws =
      claiming-address_claim (claimer_env c n) process_event interpreter r h late m r
      ∙ ground (arith, room, name_lt-rank n m hn hm)

  again-queued : again.queued ≡ claim_timeout ∷ []
  unfolding claimed on_address_claim on_begin_claiming
  again-queued = ground arith

  run_queued-again :
      run_queued c process_event (at claiming next h again)
      ≡ process_event timeout (at claiming next h (record again { queued = [] }))
  unfolding run_queued
  run_queued-again = rw again-queued refl

  takes :
      process_event timeout (at claiming next h (record again { queued = [] }))
      ≡ at has_address next next (on_address c n next (record again { queued = [] }))
  unfolding notify_address_gain
  takes =
      claiming-timeout (claimer_env c n) process_event interpreter next h
        (record again { queued = [] })
      ∙ rw
          (valid_address-free c n process_event interpreter next again.table unicast (
            ap (λ net. name_at net next) (claimed-table c n process_event interpreter next late)
            ∙ free))
          refl

  on_address-timer : (on_address c n next (record again { queued = [] })).timer ≡ again.timer
  unfolding on_address
  on_address-timer = ground arith

  -- A node that claims an address loses it to a name of lower rank, whose claim is posted as an event.
  -- If the wait of its own claim is up before this event runs, but the handler of the wait runs after
  -- it, then the node takes the next address that it claims at once: it has that address while the
  -- wait of 250 ms for it is still pending. (The network has room and the next address is a free
  -- unicast one; no other event or handler is queued; both names are 64-bit numbers. The table is run
  -- as boost::sml documents.)
  pub late_timeout :
      w.timer ≡ some claim_timeout
      → w.queued ≡ []
      → w.posted ≡ address_claim m r ∷ []
      → let s =
          history c n process_event interpreter
            (elapses ∷ runs ∷ handles ∷ [])
            (at claiming r h w) in
        (s.state ≡ has_address)
        × (s.has_address_address ≡ find_address w.table n r)
        × (s.world.timer ≡ some claim_timeout)
  unfolding history input
  late_timeout pending idle claim =
      let e =
        ap (run_queued c process_event) (first_steps pending idle claim ∙ withdraws)
        ∙ run_queued-again
        ∙ takes in
      (
        ap (λ s. s.state) e,
        ap (λ s. s.has_address_address) e,
        ap (λ s. s.world.timer) e
            ∙ on_address-timer
            ∙ claimed-timer c n process_event interpreter next late,
      )
