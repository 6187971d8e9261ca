-- ===== src/Network/Histories.antt =====
-- Networks after any history of calls: what still holds when a name moves from one address to
-- another, and what does not.
use mathlib.Core.Path.{subst, sym}
use native.Mathlib.Decide.{dec_lt}
use jay.Base.{
  ◌<◌, ◌≤◌, ◌≡◌, ◌≢◌, ap, arith, false, none, some, get_or, Bool-cases, inl, inr, List, [], ◌∷◌,
}
use jay.Base.Map.{find}
use jay.Types.{Address, j1939_max_unicast_addr, j1939_idle_addr}
use jay.Name.{Name}
use jay.Network.Defs.{Network, addr_of, name_at, emplace, insert, release, remove, clear, new}
use jay.Network.Laws.{
  outranked, insert_refused, addr_of-insert, name_at-insert, addr_of-emplace, name_at-emplace,
  addr_of-insert_global, name_at-insert_global, addr_of-release, name_at-release, addr_of-remove,
  name_at-remove,
}
use jay.Network.Consistent.{IsConsistent}

-- What every call but `remove` keeps.
pub record IsSound (w : Network) : Type 0 where
  pub forward :
      (n : Name) (a : Address)
      → addr_of w n ≡ some a
      → a ≤ j1939_max_unicast_addr
      → name_at w a ≡ some n
  -- Every owner of an address has an entry of its own.
  pub registered : (a : Address) (n : Name) → name_at w a ≡ some n → addr_of w n ≢ none

module _ (w : Network) (n : Name) (v : IsSound w) where
  release-IsSound : IsSound (release w n)
  release-IsSound = record {
    forward = λ m a e h.
        ground (arith, addr_of-release w n m, name_at-release w n a, v.forward m a, v.forward n a);
    registered =
        λ a m e f. ground (arith, addr_of-release w n m, name_at-release w n a, v.registered a m);
  }

  emplace-IsSound : IsSound (emplace w n)
  emplace-IsSound = record {
    forward =
        λ m a e h. ground (arith, addr_of-emplace w n m, name_at-emplace w n a, v.forward m a);
    registered =
        λ a m e f. ground (arith, addr_of-emplace w n m, name_at-emplace w n a, v.registered a m);
  }

  module _ (a : Address) where
    global-IsSound : j1939_max_unicast_addr < a → IsSound (insert w n a).0
    global-IsSound g = record {
      forward = λ m c e h. ground (
        arith,
        addr_of-insert_global w n a g m,
        name_at-insert_global w n a g c,
        v.forward m c,
        v.forward n c,
      );
      registered = λ c m e f. ground (
        arith,
        addr_of-insert_global w n a g m,
        name_at-insert_global w n a g c,
        v.registered c m,
      );
    }

    accepted-IsSound :
        (unicast : a ≤ j1939_max_unicast_addr) → outranked w n a ≡ false → IsSound (insert w n a).0
    accepted-IsSound unicast free = record {
      forward = λ m c e h. ground (
        arith,
        addr_of-insert w n a unicast free m,
        name_at-insert w n a unicast free c,
        v.forward m c,
        v.forward m a,
        v.forward (get_or (name_at w a) 0) c,
        v.registered a (get_or (name_at w a) 0),
      );
      registered = λ c m e f. ground (
        arith,
        addr_of-insert w n a unicast free m,
        name_at-insert w n a unicast free c,
        v.registered c m,
        v.registered a (get_or (name_at w a) 0),
      );
    }

    insert-IsSound : IsSound (insert w n a).0
    insert-IsSound = elim (dec_lt j1939_max_unicast_addr a) [
      | yes g ↦ global-IsSound g
      | no u ↦
          let unicast : a ≤ j1939_max_unicast_addr = omega arith in
          elim (Bool-cases (outranked w n a)) [
            | inl lost ↦
                subst IsSound (ap (λ r. r.0) (sym (insert_refused w n a unicast lost)))
                  emplace-IsSound
            | inr won ↦ accepted-IsSound unicast won
          ]
    ]

-- The calls that change the maps, without `remove`.
pub data Call : Type 0 where
  inserts : Name → Address → Call
  releases : Name → Call
  clears : Call

unfoldable pub step : Network → Call → Network
step w (inserts n a) = (insert w n a).0
step w (releases n) = release w n
step w clears = clear w

unfoldable pub run : Network → List Call → Network
run w [] = w
run w (c ∷ cs) = run (step w c) cs

step-IsSound : (w : Network) (c : Call) → IsSound w → IsSound (step w c)
unfolding step clear find
step-IsSound w (inserts n a) v = insert-IsSound w n v a
step-IsSound w (releases n) v = release-IsSound w n v
step-IsSound w clears v = record {
  forward = λ n a e h. ground arith;
  registered = λ a n e f. ground arith;
}

run-IsSound : (w : Network) (cs : List Call) → IsSound w → IsSound (run w cs)
unfolding run
run-IsSound w [] v = v
run-IsSound w (c ∷ cs) v = run-IsSound (step w c) cs (step-IsSound w c v)

new-IsSound : IsSound new
unfolding new find
new-IsSound = record { forward = λ n a e h. ground arith; registered = λ a n e f. ground arith }

-- After any history of insertions, releases and clears from the empty network, no two names have
-- the same unicast address.
pub addr_of_unique :
    (cs : List Call) (m n : Name) (a : Address)
    → a ≤ j1939_max_unicast_addr
    → addr_of (run new cs) m ≡ some a
    → addr_of (run new cs) n ≡ some a
    → m ≡ n
addr_of_unique cs m n a h p q =
    let v = run-IsSound new cs new-IsSound in cc (v.forward m a p h, v.forward n a q h)

module _ (w : Network) (n : Name) (prev a : Address) (v : IsConsistent w)
    (held : addr_of w n ≡ some prev) (low : prev ≤ j1939_max_unicast_addr)
    (unicast : a ≤ j1939_max_unicast_addr) (moved : prev ≢ a) (free : outranked w n a ≡ false) where
  name_at-move : name_at (insert w n a).0 prev ≡ some n
  name_at-move = ground (
    arith,
    name_at-insert w n a unicast free prev,
    v.forward n prev held low,
    v.backward a (get_or (name_at w a) 0),
  )

  addr_of-move : addr_of (insert w n a).0 n ≡ some a
  addr_of-move = ground (arith, addr_of-insert w n a unicast free n)

  -- A name of a consistent network that moves from one unicast address to another leaves its entry
  -- at the old address: it owns both, and the network is not consistent any more.
  pub insert_move_stale :
      (addr_of (insert w n a).0 n ≡ some a)
      × (name_at (insert w n a).0 a ≡ some n)
      × (name_at (insert w n a).0 prev ≡ some n)
      × (¬ IsConsistent (insert w n a).0)
  insert_move_stale = (
    addr_of-move,
    ground (arith, name_at-insert w n a unicast free a),
    name_at-move,
    λ c. moved (cc ((c.backward prev n name_at-move).0, addr_of-move)),
  )

  -- When another name then claims the old address and is accepted, the name that moved is sent to
  -- idle, and its new address, which nobody claimed, is free.
  pub insert_move_evicts :
      (m : Name)
      → m ≢ n
      → outranked (insert w n a).0 m prev ≡ false
      → let w' = (insert (insert w n a).0 m prev).0 in
        (addr_of w' n ≡ some j1939_idle_addr) × (name_at w' a ≡ none)
  insert_move_evicts m other won = (
    ground (arith, addr_of-insert (insert w n a).0 m prev low won n, name_at-move),
    ground (arith, name_at-insert (insert w n a).0 m prev low won a, name_at-move, addr_of-move),
  )

  -- When the name that moved, from one unicast address to another by a claim that was accepted, is
  -- removed from the network and a third name then claims its old address and is accepted, another
  -- name that has address 0 loses its entry in the map of addresses but keeps the address in the map of
  -- names. (The two maps agree before the move. The old and the new address are not 0. The claimant is
  -- neither the name that moved nor the one that has 0, and the latter is not the one that moved.)
  pub remove_move_orphans :
      (k z : Name)
      → prev ≢ 0
      → a ≢ 0
      → k ≢ n
      → k ≢ z
      → z ≢ n
      → addr_of w z ≡ some 0
      → outranked (remove (insert w n a).0 n) k prev ≡ false
      → let w' = (insert (remove (insert w n a).0 n) k prev).0 in
        (addr_of w' z ≡ some 0) × (name_at w' 0 ≡ none)
  remove_move_orphans k z p0 a0 kn kz zn at_zero won = (
    ground (
      arith,
      addr_of-insert (remove (insert w n a).0 n) k prev low won z,
      stale,
      addr_of-remove (insert w n a).0 n z,
      addr_of-insert w n a unicast free z,
      v.backward a (get_or (name_at w a) 0),
    ),
    ground (
      arith,
      name_at-insert (remove (insert w n a).0 n) k prev low won 0,
      stale,
      addr_of-remove (insert w n a).0 n n,
    ),
  )
    where
      stale : name_at (remove (insert w n a).0 n) prev ≡ some n
      stale = ground (arith, name_at-remove (insert w n a).0 n prev, addr_of-move, name_at-move)
