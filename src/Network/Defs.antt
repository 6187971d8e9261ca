-- ===== src/Network/Defs.antt =====
-- The class `network` of include/jay/network.hpp. Every method holds the mutex from its first to
-- its last step, so a method is one function from state to state.
use jay.Base.{
  ℕ, zero, suc, ◌+◌, ◌-◌, Bool, true, false, not, ◌&&◌, ◌==◌, ltb, leb, if◌then◌else◌, Option, none,
  some, List, [], ◌∷◌, length, get_or, is_some,
}
use jay.Base.Map.{find, set, erase, try_emplace}
use jay.Types.{Address, j1939_max_unicast_addr, j1939_idle_addr, j1939_no_addr}
use jay.Name.{Name, name_lt, name_gt, name_eq, hash, self_config_address}

-- Two names are one key of the unordered map if they have one hash and `==` holds. (A library may
-- find that `==` holds for names of different hashes too, when they share a bucket; such libraries are
-- left out.)
unfoldable pub same_name : Name → Name → Bool
unfolding hash name_eq
same_name l r = (hash l == hash r) && name_eq l r

unfoldable pub same_addr : Address → Address → Bool
same_addr l r = l == r

pub record Network : Type 0 where
  pub name_addr_map : List (Name × Address)
  pub addr_name_map : List (Address × Name)
  -- Whether a callback on_new_name_ is set.
  pub on_new_name : Bool

-- The entry of a name, and of an address.
abbrev pub addr_of : Network → Name → Option Address
addr_of w n = find same_name n w.name_addr_map

abbrev pub name_at : Network → Address → Option Name
name_at w a = find same_addr a w.addr_name_map

unfoldable pub new : Network
new = record { name_addr_map = []; addr_name_map = []; on_new_name = false }

-- on_new_name_callback
unfoldable pub on_new_name_callback : Network → Network
on_new_name_callback w = record w { on_new_name = true }

-- The λ `set_idle` of insert. map[n] makes an entry with address 0 for a name that has none.
unfoldable pub set_idle : Network → Name → Network
set_idle w n = record w {
  addr_name_map = erase same_addr (get_or (addr_of w n) 0) w.addr_name_map;
  name_addr_map = set same_name n j1939_idle_addr w.name_addr_map;
}

-- The λ `claim` of insert, with the call of on_new_name_ that it makes.
unfoldable pub claim : Network → Name → Address → Bool → Network × Option (Name × Address)
claim w n address notify = (
  record w {
    name_addr_map = set same_name n address w.name_addr_map;
    addr_name_map = set same_addr address n w.addr_name_map;
  },
  if notify && w.on_new_name then some (n, address) else none,
)

-- name_addr_map_.try_emplace(name, J1939_IDLE_ADDR)
unfoldable pub emplace : Network → Name → Network
emplace w n = record w { name_addr_map = try_emplace same_name n j1939_idle_addr w.name_addr_map }

-- Steps 3 and 4 of insert: an entry for the name, the former owner to idle, and the claim. The
-- test `conflict != name` is one of the 64-bit values.
unfoldable pub take_over :
    Network → Name → Address → Option Name → Bool → Network × Option (Name × Address)
take_over w n address occupant notify =
    let w = emplace w n in
    elim occupant [
      | none ↦ claim w n address notify
      | some conflict ↦
          if conflict == n
          then claim w n address notify
          else claim (set_idle w conflict) n address notify
    ]

-- The state afterwards, the result, and the call of on_new_name_ that was made.
abbrev pub Inserted : Type 0
Inserted = Network × Bool × Option (Name × Address)

-- insert, for an address that is no unicast address (step 0).
unfoldable pub insert_idle : Network → Name → Address → Inserted
insert_idle w n address = elim (addr_of w n) [
  | none ↦
      (record w { name_addr_map = set same_name n j1939_idle_addr w.name_addr_map }, true, none)
  | some _ ↦ if address == j1939_idle_addr then (set_idle w n, true, none) else (w, false, none)
]

-- insert, for a unicast address (steps 1 to 4).
unfoldable pub insert_unicast : Network → Name → Address → Inserted
insert_unicast w n address =
    let notify : Bool = elim (addr_of w n) [ none ↦ true | some prev ↦ not (prev == address) ] in
    let occupant = name_at w address in
    let outranked : Bool = elim occupant [ none ↦ false | some conflict ↦ name_gt n conflict ] in
    if outranked
    then (emplace w n, false, none)
    else (let (w', call) = take_over w n address occupant notify in (w', true, call))

unfoldable pub insert : Network → Name → Address → Inserted
unfolding insert_idle insert_unicast take_over emplace claim set_idle name_gt
insert w n address =
    if ltb j1939_max_unicast_addr address
    then insert_idle w n address
    else insert_unicast w n address

-- release; the test before the second erase only skips an erase of what is not there.
unfoldable pub release : Network → Name → Network
release w n = elim (addr_of w n) [
  | none ↦ w
  | some address ↦
      let w' = record w { name_addr_map = set same_name n j1939_idle_addr w.name_addr_map } in
      elim (name_at w' address) [
        | none ↦ w'
        | some _ ↦ record w' { addr_name_map = erase same_addr address w'.addr_name_map }
      ]
]

unfoldable pub remove : Network → Name → Network
remove w n = elim (addr_of w n) [
  | none ↦ w
  | some address ↦
      let w' = record w { name_addr_map = erase same_name n w.name_addr_map } in
      elim (name_at w' address) [
        | none ↦ w'
        | some _ ↦ record w' { addr_name_map = erase same_addr address w'.addr_name_map }
      ]
]

unfoldable pub clear : Network → Network
clear w = record w { name_addr_map = []; addr_name_map = [] }

-- Insertion into a std::set<jay::name>, ordered by `<`.
unfoldable pub set_insert : Name → List Name → List Name
set_insert n [] = n ∷ []
set_insert n (x ∷ xs) =
    if name_lt n x then n ∷ x ∷ xs else (if name_lt x n then x ∷ set_insert n xs else x ∷ xs)

-- The loop of get_name_set over the entries.
unfoldable pub insert_names : List (Name × Address) → List Name → List Name
unfolding set_insert name_lt
insert_names [] names = names
insert_names ((n, a) ∷ m) names = insert_names m (set_insert n names)

unfoldable pub get_name_set : Network → List Name
unfolding insert_names
get_name_set w = insert_names w.name_addr_map []

unfoldable pub available : Network → Address → Bool
available w address =
    if ltb j1939_max_unicast_addr address then false else not (is_some (name_at w address))

unfoldable pub claimable : Network → Address → Name → Bool
unfolding name_gt
claimable w address n =
    if ltb j1939_max_unicast_addr address
    then false
    else elim (name_at w address) [ some owner ↦ name_gt owner n | none ↦ true ]

unfoldable pub in_network : Network → Name → Bool
in_network w n = is_some (addr_of w n)

unfoldable pub match_address : Network → Name → Address → Bool
match_address w n address = elim (addr_of w n) [ some a ↦ a == address | none ↦ false ]

unfoldable pub address_count : Network → ℕ
address_count w = length w.addr_name_map

unfoldable pub name_count : Network → ℕ
name_count w = length w.name_addr_map

unfoldable pub get_name : Network → Address → Option Name
get_name w address = name_at w address

unfoldable pub get_address : Network → Name → Address
get_address w n = get_or (addr_of w n) j1939_no_addr

unfoldable pub full : Network → Bool
full w = ltb j1939_max_unicast_addr (length w.addr_name_map)

-- The loop of search, with the rounds left, end_address - address.
unfoldable pub search_from : ℕ → Network → Name → Address → Address
search_from zero w n address = j1939_no_addr
search_from (suc rounds) w n address =
    let rest = search_from rounds w n (address + 1) in
    elim (name_at w address) [
      | none ↦ address
      | some owner ↦ if name_eq owner n then address else rest
    ]

unfoldable pub search : Network → Name → Address → Address → Address
unfolding search_from name_eq
search w n start_address end_address = search_from (end_address - start_address) w n start_address

-- std::clamp(preferred_address, 0, J1939_MAX_UNICAST_ADDR), of an unsigned number.
abbrev pub clamp_addr : Address → Address
clamp_addr a = if ltb j1939_max_unicast_addr a then j1939_max_unicast_addr else a

-- The `<=` of the fixed branch converts both names to their 64-bit values.
unfoldable pub find_address : Network → Name → Address → Address
find_address w n preferred =
    let preferred_address = clamp_addr preferred in
    if self_config_address n == 0
    then elim (name_at w preferred_address) [
      | none ↦ preferred_address
      | some owner ↦ if leb n owner then preferred_address else j1939_no_addr
    ]
    else let address = search w n preferred_address j1939_idle_addr in
      if address == j1939_no_addr then search w n 0 preferred_address else address
