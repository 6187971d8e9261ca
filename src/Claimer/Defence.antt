-- ===== src/Claimer/Defence.antt =====
-- What a claimer does about a claim of an address that has an owner in the network.
use jay.Base.{
  suc, ◌^◌, ◌<◌, ◌≤◌, ◌≡◌, arith, some, [], ◌∷◌, ◌++◌, if◌then◌else◌, leb, Bool-cases, inl, inr,
}
use jay.Types.{Address, j1939_max_unicast_addr}
use jay.Name.{Name, rank}
use jay.Header.Canary.{Canary}
use jay.Network.{insert, name_at}
use jay.Network.Priority.{insert_contest}
use jay.AddressStateMachine.{Sm, address_claim}
use jay.Claimer.Defs.{Claimer, process_claim}

module _ (c : Canary) (s : Sm (Claimer c)) (own m : Name) (a : Address)
    (unicast : a ≤ j1939_max_unicast_addr) (owned : name_at s.world.table a ≡ some own)
    (ho : own < 2 ^ 64) (hm : m < 2 ^ 64) where
  -- A claim of an owned unicast address (both names are 64-bit numbers) reaches the state machine, as
  -- an event, only if the claimant's rank is no greater than the owner's; then the network has the
  -- claimant as the owner. Otherwise it is counted as an error, if on_error_ is set, and no event is
  -- posted: a machine that owns the address does not answer with its own claim. In both cases no frame
  -- is sent, and the timer and the state stay.
  pub process_claim_contest :
      let s' = process_claim c m a s in
      let wins = leb (rank m) (rank own) in
      (s'.world.posted
        ≡ (if wins then s.world.posted ++ address_claim m a ∷ [] else s.world.posted))
      × (s'.world.refusals ≡ (
          if wins
          then s.world.refusals
          else (if s.world.has_on_error then suc s.world.refusals else s.world.refusals)))
      × (name_at s'.world.table a ≡ (if wins then some m else some own))
      × (s'.world.frames ≡ s.world.frames)
      × (s'.world.timer ≡ s.world.timer)
      × (s'.state ≡ s.state)
  unfolding process_claim
  process_claim_contest =
      let contest = insert_contest s.world.table m own a unicast owned hm ho in
      elim (Bool-cases (insert s.world.table m a).1) [
        | inl e ↦ (
          ground (arith, e, contest.0),
          ground (arith, e, contest.0),
          ground (arith, e, contest),
          ground (arith, e),
          ground (arith, e),
          ground (arith, e),
        )
        | inr e ↦ (
          ground (arith, e, contest.0),
          ground (arith, e, contest.0),
          ground (arith, e, contest),
          ground (arith, e),
          ground (arith, e),
          ground (arith, e),
        )
      ]
