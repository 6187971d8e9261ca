-- ===== src/Network/Priority.antt =====
-- Who gets an address that two names claim, and where the table of names is at odds with the order
-- of names.
use jay.Base.{
  ◌^◌, ◌<◌, ◌≤◌, ◌≡◌, ◌≢◌, inl, inr, arith, Bool, true, false, not, ◌&&◌, ◌||◌, none, some, leb,
  ltb, ◌==◌, if◌then◌else◌, Bool-cases, Option-cases, refl,
}
use jay.Types.{Address, j1939_max_unicast_addr, j1939_idle_addr, j1939_no_addr}
use jay.Name.{
  Name, rank, name_gt-rank, name_eq-rank, self_config_address, self_config_address-slice,
}
use jay.Network.Defs.{Network, addr_of, name_at, insert, claimable, find_address}
use jay.Network.Laws.{
  outranked, notifies, insert_refused, insert_accepted, insert_call, addr_of-insert, name_at-insert,
  name_at-emplace,
}
use jay.Network.Search.{find_address-cases, usable, clamp_addr-le}

module _ (w : Network) (n c : Name) (a : Address) (unicast : a ≤ j1939_max_unicast_addr)
    (owned : name_at w a ≡ some c) (hn : n < 2 ^ 64) (hc : c < 2 ^ 64) where
  outranked-rank : outranked w n a ≡ ltb (rank c) (rank n)
  outranked-rank = rw (owned, outranked) (name_gt-rank n c hn hc)

  -- For 64-bit names, a claim of an owned unicast address is accepted, that is insert returns true,
  -- exactly if the claimant's rank is no greater than the owner's, so also if the claimant is the
  -- owner. Then the claimant owns the address, otherwise the owner keeps it.
  pub insert_contest :
      let (w', accepted, _) = insert w n a in
      (accepted ≡ leb (rank n) (rank c))
      × (name_at w' a ≡ (if leb (rank n) (rank c) then some n else some c))
  insert_contest = elim (Bool-cases (outranked w n a)) [
    | inl lost ↦
        rw (insert_refused w n a unicast lost)
          (ground (arith, outranked-rank), ground (arith, outranked-rank, name_at-emplace w n a))
    | inr won ↦ (
      ground (arith, outranked-rank, insert_accepted w n a unicast won),
      ground (arith, outranked-rank, name_at-insert w n a unicast won a),
    )
  ]

  -- The owner of a lower rank goes without an address, unless it is the claimant itself.
  pub insert_evicts :
      rank n ≤ rank c
      → n ≢ c
      → (addr_of (insert w n a).0 c ≡ some j1939_idle_addr) × (addr_of (insert w n a).0 n ≡ some a)
  insert_evicts h other =
      let won : outranked w n a ≡ false = ground (arith, outranked-rank) in
      (
        ground (arith, addr_of-insert w n a unicast won c),
        ground (arith, addr_of-insert w n a unicast won n),
      )

-- The result of insertion at a unicast address and the call of on_new_name_ that it makes: none if
-- the claim is refused or no callback is set, and else one exactly if the name is new or had another
-- address.
pub insert-notifies :
    (w : Network) (n : Name) (a : Address)
    → a ≤ j1939_max_unicast_addr
    → let (w', accepted, call) = insert w n a in
      (accepted ≡ not (outranked w n a))
      × (call ≡ (if (accepted && notifies w n a) && w.on_new_name then some (n, a) else none))
insert-notifies w n a unicast = elim (Bool-cases (outranked w n a)) [
  | inl lost ↦ rw (insert_refused w n a unicast lost) (ground arith, refl)
  | inr won ↦ (
    ground (arith, insert_accepted w n a unicast won),
    ground (arith, insert_accepted w n a unicast won, insert_call w n a unicast won),
  )
]

-- The owner of the address has the rank of the name.
abbrev pub same_rank : Network → Name → Address → Bool
same_rank w n a = elim (name_at w a) [ none ↦ false | some c ↦ rank c == rank n ]

-- At a unicast address, insertion accepts a name exactly if the address is claimable for it or the
-- owner has the same rank, such as the name itself, whose claim is accepted though `claimable`
-- denies it. (Names are 64-bit numbers.)
pub claimable-insert :
    (w : Network) (n : Name) (a : Address)
    → ((c : Name) → name_at w a ≡ some c → c < 2 ^ 64)
    → n < 2 ^ 64
    → a ≤ j1939_max_unicast_addr
    → (insert w n a).1 ≡ (claimable w a n || same_rank w n a)
unfolding claimable
claimable-insert w n a names hn unicast = elim (Option-cases (name_at w a)) [
  | inl free ↦ ground (arith, insert_accepted w n a unicast (rw (free, outranked)))
  | inr (c, owned) ↦ ground (
    arith,
    (insert_contest w n c a unicast owned hn (names c owned)).0,
    name_gt-rank c n (names c owned) hn,
  )
]

usable-insert :
    (w : Network) (n : Name) (a : Address)
    → ((a : Address) (c : Name) → name_at w a ≡ some c → c < 2 ^ 64)
    → n < 2 ^ 64
    → a ≤ j1939_max_unicast_addr
    → usable w n a ≡ true
    → (insert w n a).1 ≡ true
usable-insert w n a names hn unicast u = elim (Option-cases (name_at w a)) [
  | inl free ↦ insert_accepted w n a unicast (rw (free, outranked))
  | inr (c, owned) ↦ ground (
    arith,
    (insert_contest w n c a unicast owned hn (names a c owned)).0,
    name_eq-rank c n (names a c owned) hn,
  )
]

-- The address that find_address gives to a self configuring name, unless it is J1939_NO_ADDR, is one
-- at which insertion accepts the name, that is returns true. The name may have that address already.
-- (All names are 64-bit numbers.)
pub find_address-insert :
    (w : Network) (n : Name) (preferred : Address)
    → ((a : Address) (c : Name) → name_at w a ≡ some c → c < 2 ^ 64)
    → n < 2 ^ 64
    → self_config_address n ≢ 0
    → find_address w n preferred ≢ j1939_no_addr
    → (insert w n (find_address w n preferred)).1 ≡ true
find_address-insert w n preferred names hn self = elim (find_address-cases w n preferred self) [
  | inl first ↦ λ _. usable-insert w n _ names hn (omega (arith, first.1)) first.2
  | inr (inl (_, first)) ↦
      λ _. usable-insert w n _ names hn (omega (arith, first.1, clamp_addr-le preferred)) first.2
  | inr (inr nowhere) ↦ λ h. absurd (h nowhere.0)
]

-- A name that is not self configuring and that prefers an address of a self configuring owner is
-- sent there even if the owner has the lower rank: `<=` compares the 64-bit values, whose highest bit
-- the order of names leaves out. The address is then not claimable, and the claim is refused.
pub find_address_fixed_refused :
    (w : Network) (n c : Name) (a : Address)
    → a ≤ j1939_max_unicast_addr
    → name_at w a ≡ some c
    → n < 2 ^ 63
    → 2 ^ 63 ≤ c
    → c < 2 ^ 64
    → rank c < rank n
    → (find_address w n a ≡ a) × (claimable w a n ≡ false) × ((insert w n a).1 ≡ false)
unfolding find_address claimable
find_address_fixed_refused w n c a unicast owned hn self hc prior = (
  ground (arith, self_config_address-slice n (omega arith)),
  ground (arith, name_gt-rank c n hc (omega arith)),
  ground (arith, (insert_contest w n c a unicast owned (omega arith) hc).0),
)
