-- ===== src/Connection/Addressing.antt =====
-- Which frames a connection takes for its own.
use jay.Base.{◌≡◌, refl, arith, Bool, true, ◌&&◌, ◌||◌, Option, none, some, Option-cases, inl, inr}
use jay.Name.{Name}
use jay.Header.{is_broadcast}
use jay.Header.Canary.{Canary}
use jay.Frame.{Frame}
use jay.Connection.Defs.{Connection, address_of, set_bus_address}
use jay.Connection.Receive.{check_address, accepts, sent_by, sent_to}

module _ (c : Canary) where
  -- The frame comes from the target, if there is one.
  abbrev pub from_target : Connection c → Frame c → Bool
  from_target x f = elim (x.target_name) [ none ↦ true | some target ↦ sent_by c x target f ]

  -- The frame has a PDU format above 239 or goes to the local name, if there is one.
  abbrev pub for_local : Connection c → Frame c → Bool
  for_local x f = elim (x.local_name) [
    | none ↦ true
    | some own ↦ is_broadcast c f.header || sent_to c x own f
  ]

  accepts-sides :
      (target own : Option Name) (x : Connection c) (f : Frame c)
      → accepts c target own x f ≡ (
          (elim target [ none ↦ true | some n ↦ sent_by c x n f ])
          && (elim own [ none ↦ true | some n ↦ is_broadcast c f.header || sent_to c x n f ]))
  unfolding accepts
  accepts-sides none none x f = refl
  accepts-sides (some target) none x f = ground arith
  accepts-sides none (some own) x f = refl
  accepts-sides (some target) (some own) x f = ground arith

  -- check_address accepts a frame exactly if it comes from the target, where a target is set, and,
  -- where a local name is set, has a PDU format above 239 or the local name's address as its
  -- destination. (A frame of a lower PDU format to the address 255 counts as one to that address.) It
  -- changes nothing but the
  -- address of the bus adapter, which becomes the address that the network has for the local name.
  pub check_address_lem :
      (f : Frame c) (x : Connection c)
      → ((check_address c f x).1 ≡ (from_target x f && for_local x f))
        × ((check_address c f x).0 ≡ elim (x.local_name) [
          | none ↦ x
          | some own ↦ set_bus_address c (address_of c x own) x
        ])
  unfolding check_address
  check_address_lem f x = elim (Option-cases x.local_name) [
    | inl e ↦ (ground (arith, e, accepts-sides x.target_name none x f), ground (arith, e))
    | inr (own, e) ↦
        let x' = set_bus_address c (address_of c x own) x in
        (ground (arith, e, accepts-sides x.target_name (some own) x' f), ground (arith, e))
  ]
