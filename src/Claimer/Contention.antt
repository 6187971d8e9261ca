-- ===== src/Claimer/Contention.antt =====
-- Two nodes with the claimer of include/jay/address_claimer.hpp that claim one address at a time.
use jay.Base.{◌^◌, ◌<◌, ◌≤◌, ◌≡◌, ◌≢◌, refl, ap, ◌∙◌, arith, false, none, some, [], ◌∷◌}
use jay.Types.{Address, j1939_max_unicast_addr}
use jay.Name.{Name, rank, name_lt-rank, name_gt-rank}
use jay.Frame.{make_address_claim}
use jay.Frame.Archetypes.{make_address_claim_lem}
use jay.Header.Canary.{Canary}
use jay.Network.{Network, full, find_address, insert, claimable, addr_of, name_at}
use jay.Network.Laws.{outranked, addr_of-insert, name_at-insert, insert_accepted}
use jay.AddressStateMachine.{
  Sm, Event, claiming, has_address, address_claim, IsInterpreter, transition_table,
  begin_claiming_address, send_claiming, valid_address,
}
use jay.AddressStateMachine.Reactions.{at, claiming-address_claim}
use jay.Claimer.Defs.{
  Claimer, claimer_env, claim_timeout, expire, process, process_claim, run_posted, post, on_address,
  on_address_claim, on_begin_claiming,
}
use jay.Claimer.Startup.{
  claimed, claimed-table, claimed-timer, valid_address-free, on_address-table, expire-claim,
}
use jay.Claimer.Histories.{arrives, runs, expires, history, input}

-- The node named n has the address a, in its machine and in its network table, where r belongs to
-- the owner.
abbrev pub Settled : {c : Canary} → Name → Address → Address → Name → Sm (Claimer c) → Type 0
Settled n a r owner s =
    (s.state ≡ has_address)
    × (s.has_address_address ≡ a)
    × (addr_of s.world.table n ≡ some a)
    × (name_at s.world.table r ≡ some owner)

module _ (c : Canary) (n : Name) (process_event : Event → Sm (Claimer c) → Sm (Claimer c))
    (interpreter : IsInterpreter (transition_table (claimer_env c n)) process_event) (r h : Address)
    (w : Claimer c) (m : Name) (hn : n < 2 ^ 64) (hm : m < 2 ^ 64)
    (unicast : r ≤ j1939_max_unicast_addr) (free : name_at w.table r ≡ none)
    (quiet : w.posted ≡ []) where
  -- The world when the claim of m has come in, which the table has taken.
  abbrev heard : Claimer c
  heard = record w { table = (insert w.table m r).0; posted = [] }

  name_at-heard : name_at heard.table r ≡ some m
  name_at-heard = ground (arith, name_at-insert w.table m r unicast (rw (free, outranked) refl) r)

  process-claim :
      process c (make_address_claim c m r) (at claiming r h w)
      ≡ process_claim c m r (at claiming r h w)
  unfolding process
  process-claim =
      let (claim, _, source, _, payload) = make_address_claim_lem c m r hm (omega arith) in
      rw (claim, source, payload) refl

  run_posted-claim :
      run_posted c process_event (process_claim c m r (at claiming r h w))
      ≡ process_event (address_claim m r) (at claiming r h heard)
  unfolding process_claim run_posted post
  run_posted-claim =
      rw (insert_accepted w.table m r unicast (rw (free, outranked) refl), quiet) refl

  answer :
      run_posted c process_event (process c (make_address_claim c m r) (at claiming r h w))
      ≡ process_event (address_claim m r) (at claiming r h heard)
  answer = ap (run_posted c process_event) process-claim ∙ run_posted-claim

  -- The node with priority claims again, and keeps its wait.
  defend :
      rank n < rank m
      → process_event (address_claim m r) (at claiming r h heard)
        ≡ at claiming r h (on_address_claim c n r heard)
  unfolding send_claiming
  defend first =
      claiming-address_claim (claimer_env c n) process_event interpreter r h heard m r
      ∙ ground (arith, name_lt-rank n m hn hm)

  -- The other one claims the next address that it finds.
  withdraw :
      rank m < rank n
      → full heard.table ≡ false
      → let r' = find_address heard.table n r in
        process_event (address_claim m r) (at claiming r h heard)
        ≡ at claiming r' h (claimed c n process_event interpreter r' heard)
  unfolding begin_claiming_address claimed on_begin_claiming
  withdraw second room =
      claiming-address_claim (claimer_env c n) process_event interpreter r h heard m r
      ∙ ground (arith, room, name_lt-rank n m hn hm)

  on_address_claim-table : (on_address_claim c n r heard).table ≡ heard.table
  unfolding on_address_claim
  on_address_claim-table = ground arith

  on_address_claim-timer : (on_address_claim c n r heard).timer ≡ w.timer
  unfolding on_address_claim
  on_address_claim-timer = ground arith

  defended :
      rank n < rank m
      → w.timer ≡ some claim_timeout
      → expire c process_event (at claiming r h (on_address_claim c n r heard))
        ≡ at has_address r r
            (on_address c n r (record (on_address_claim c n r heard) { timer = none }))
  unfolding valid_address claimable
  defended first pending =
      let u = on_address_claim c n r heard in
      let table = on_address_claim-table in
      expire-claim c n process_event interpreter r h u (on_address_claim-timer ∙ pending)
        (rw table (ground (arith, name_at-heard, name_gt-rank m n hm hn)))

  withdrawn :
      let r' = find_address heard.table n r in
      r' ≤ j1939_max_unicast_addr
      → name_at heard.table r' ≡ none
      → let u = claimed c n process_event interpreter r' heard in
        expire c process_event (at claiming r' h u)
        ≡ at has_address r' r' (on_address c n r' (record u { timer = none }))
  withdrawn uni' free' =
      let r' = find_address heard.table n r in
      let table = claimed-table c n process_event interpreter r' heard in
      expire-claim c n process_event interpreter r' h
        (claimed c n process_event interpreter r' heard)
        (claimed-timer c n process_event interpreter r' heard)
        (valid_address-free c n process_event interpreter r'
          (claimed c n process_event interpreter r' heard).table uni'
          (ap (λ net. name_at net r') table ∙ free'))

  settle :
      (a : Address) (v : Claimer c) (net : Network) (owner : Name)
      → v.table ≡ net
      → a ≤ j1939_max_unicast_addr
      → outranked net n a ≡ false
      → name_at (insert net n a).0 r ≡ some owner
      → Settled n a r owner (at has_address a a (on_address c n a v))
  settle a v net owner table uni won owned =
      let end =
        on_address-table c n process_event interpreter a v ∙ ap (λ t. (insert t n a).0) table in
      (
        refl,
        refl,
        ap (λ t. addr_of t n) end ∙ ground (arith, addr_of-insert net n a uni won n),
        ap (λ t. name_at t r) end ∙ owned,
      )

  winner :
      rank n < rank m
      → w.timer ≡ some claim_timeout
      → Settled n r r n (
          history c n process_event interpreter
            (arrives (make_address_claim c m r) ∷ runs ∷ expires ∷ [])
            (at claiming r h w))
  unfolding history input
  winner first pending =
      let won : outranked heard.table n r ≡ false =
        ground (arith, name_at-heard, name_gt-rank n m hn hm) in
      rw (answer, defend first, defended first pending)
        (settle r _ heard.table n on_address_claim-table unicast won
          (ground (arith, name_at-insert heard.table n r unicast won r)))

  loser :
      rank m < rank n
      → full heard.table ≡ false
      → let r' = find_address heard.table n r in
        r' ≤ j1939_max_unicast_addr
        → name_at heard.table r' ≡ none
        → Settled n r' r m (
            history c n process_event interpreter
              (arrives (make_address_claim c m r) ∷ runs ∷ expires ∷ [])
              (at claiming r h w))
  unfolding history input
  loser second room uni' free' =
      let r' = find_address heard.table n r in
      let won : outranked heard.table n r' ≡ false = rw (free', outranked) refl in
      rw (answer, withdraw second room, withdrawn uni' free')
        (settle r' _ heard.table m (claimed-table c n process_event interpreter r' heard) uni' won
          (ground (arith, name_at-insert heard.table n r' uni' won r, name_at-heard)))

module _ (c : Canary) (n m : Name) (hn : n < 2 ^ 64) (hm : m < 2 ^ 64) (first : rank n < rank m)
    (process_event_n process_event_m : Event → Sm (Claimer c) → Sm (Claimer c))
    (interpreter_n : IsInterpreter (transition_table (claimer_env c n)) process_event_n)
    (interpreter_m : IsInterpreter (transition_table (claimer_env c m)) process_event_m)
    (r : Address) (unicast : r ≤ j1939_max_unicast_addr) where
  -- Two nodes that claim the same unicast address, each with the wait of its claim pending, no posted
  -- event, and the address free in its table: when each takes the other's claim frame, runs the event
  -- that it posts, and lets its wait pass, the node whose name has the lower rank has the address, and
  -- the other one has the next address that find_address gives it, provided that its table has room
  -- then and the address is a free unicast one. The two addresses differ, and both tables have the
  -- first node as the owner of the contested one. The names are 64-bit numbers and the machines are
  -- run as boost::sml documents.
  pub contention :
      (h_n h_m : Address) (w_n w_m : Claimer c)
      → w_n.timer ≡ some claim_timeout
      → w_n.posted ≡ []
      → w_m.posted ≡ []
      → name_at w_n.table r ≡ none
      → name_at w_m.table r ≡ none
      → let net = (insert w_m.table n r).0 in
        let r' = find_address net m r in
        full net ≡ false
        → r' ≤ j1939_max_unicast_addr
        → name_at net r' ≡ none
        → let s_n =
            history c n process_event_n interpreter_n
              (arrives (make_address_claim c m r) ∷ runs ∷ expires ∷ [])
              (at claiming r h_n w_n) in
          let s_m =
            history c m process_event_m interpreter_m
              (arrives (make_address_claim c n r) ∷ runs ∷ expires ∷ [])
              (at claiming r h_m w_m) in
          Settled n r r n s_n × Settled m r' r n s_m × (r' ≢ r)
  contention h_n h_m w_n w_m pending quiet_n quiet_m free_n free_m room unicast' free' = (
    winner c n process_event_n interpreter_n r h_n w_n m hn hm unicast free_n quiet_n first pending,
    loser c m process_event_m interpreter_m r h_m w_m n hm hn unicast free_m quiet_m first room
        unicast' free',
    λ e. ground (
      arith,
      free',
      ap (name_at (insert w_m.table n r).0) e,
      name_at-heard c m process_event_m interpreter_m r h_m w_m n hm hn unicast free_m quiet_m,
    ),
  )
