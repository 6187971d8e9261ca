-- ===== src/Claimer/Startup.antt =====
-- From the start of a claim to an address, when nobody contests it.
use jay.Base.{◌≤◌, ◌≡◌, refl, ap, ◌∙◌, arith, true, false, none, some}
use jay.Types.{Address, j1939_max_unicast_addr}
use jay.Name.{Name}
use jay.Header.Canary.{Canary}
use jay.Network.{Network, full, find_address, insert, claimable, addr_of, name_at}
use jay.Network.Laws.{outranked, addr_of-insert, name_at-insert}
use jay.AddressStateMachine.{
  Sm, Event, no_address, claiming, has_address, IsInterpreter, transition_table,
  begin_claiming_address, notify_address_gain, valid_address,
}
use jay.AddressStateMachine.Reactions.{at, no_address-start_claim, claiming-timeout}
use jay.Claimer.Defs.{
  Claimer, claimer_env, start_claim_delay, claim_timeout, expire, on_address, on_address_claim,
  on_begin_claiming,
}

module _ (c : Canary) (n : Name) (process_event : Event → Sm (Claimer c) → Sm (Claimer c))
    (interpreter : IsInterpreter (transition_table (claimer_env c n)) process_event) where
  -- The world after the start: the claim is sent and its timeout is pending.
  unfoldable pub claimed : Address → Claimer c → Claimer c
  claimed r w = on_address_claim c n r (on_begin_claiming c (record w { timer = none }))

  pub claimed-table : (r : Address) (w : Claimer c) → (claimed r w).table ≡ w.table
  unfolding claimed on_address_claim on_begin_claiming
  claimed-table r w = ground arith

  pub claimed-timer : (r : Address) (w : Claimer c) → (claimed r w).timer ≡ some claim_timeout
  unfolding claimed on_address_claim on_begin_claiming
  claimed-timer r w = ground arith

  expire-start :
      (a h : Address) (w : Claimer c) (pref : Address)
      → w.timer ≡ some (start_claim_delay pref)
      → full w.table ≡ false
      → let r = find_address w.table n pref in
        expire c process_event (at no_address a h w) ≡ at claiming r h (claimed r w)
  unfolding expire claimed begin_claiming_address on_begin_claiming
  expire-start a h w pref pending room = rw pending (
      no_address-start_claim (claimer_env c n) process_event interpreter a h
        (record w { timer = none }) pref
      ∙ rw room refl)

  pub valid_address-free :
      (r : Address) (net : Network)
      → r ≤ j1939_max_unicast_addr
      → name_at net r ≡ none
      → valid_address n r net ≡ true
  unfolding valid_address claimable
  valid_address-free r net unicast free = ground arith

  pub on_address-table :
      (r : Address) (w : Claimer c) → (on_address c n r w).table ≡ (insert w.table n r).0
  unfolding on_address
  on_address-table r w = ground arith

  pub expire-claim :
      (r h : Address) (w : Claimer c)
      → w.timer ≡ some claim_timeout
      → valid_address n r w.table ≡ true
      → expire c process_event (at claiming r h w)
        ≡ at has_address r r (on_address c n r (record w { timer = none }))
  unfolding expire notify_address_gain
  expire-claim r h w pending valid = rw pending (
      claiming-timeout (claimer_env c n) process_event interpreter r h (record w { timer = none })
      ∙ rw valid refl)

  -- When the delay before a claim is up, in the state without address and in a network with room
  -- where find_address gives a free unicast address, and then the timeout of the claim, with no other
  -- event in between: the machine has that address, and the network has it for the name.
  -- The machine is run as boost::sml documents.
  pub expire_twice :
      (a h : Address) (w : Claimer c) (pref : Address)
      → w.timer ≡ some (start_claim_delay pref)
      → full w.table ≡ false
      → find_address w.table n pref ≤ j1939_max_unicast_addr
      → name_at w.table (find_address w.table n pref) ≡ none
      → let r = find_address w.table n pref in
        let s = expire c process_event (expire c process_event (at no_address a h w)) in
        (s.state ≡ has_address)
        × (s.has_address_address ≡ r)
        × (addr_of s.world.table n ≡ some r)
        × (name_at s.world.table r ≡ some n)
  expire_twice a h w pref pending room unicast free = rw (gained) (
    refl,
    refl,
    ap (λ net. addr_of net n) table ∙ ground (arith, addr_of-insert w.table n r unicast won n),
    ap (λ net. name_at net r) table ∙ ground (arith, name_at-insert w.table n r unicast won r),
  )
    where
      r : Address
      r = find_address w.table n pref

      end : Claimer c
      end = on_address c n r (record (claimed r w) { timer = none })

      won : outranked w.table n r ≡ false
      won = rw (free, outranked) refl

      gained :
          expire c process_event (expire c process_event (at no_address a h w))
          ≡ at has_address r r end
      gained =
          ap (expire c process_event) (expire-start a h w pref pending room)
          ∙ expire-claim r h (claimed r w) (claimed-timer r w) (
              valid_address-free r (claimed r w).table unicast
                (ap (λ net. name_at net r) (claimed-table r w) ∙ free))

      table : end.table ≡ (insert w.table n r).0
      table =
          on_address-table r (record (claimed r w) { timer = none })
          ∙ ap (λ net. (insert net n r).0) (claimed-table r w)
