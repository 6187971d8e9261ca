-- ===== src/Network/Tests.antt =====
-- Runs of include/jay/network.hpp on small networks.
use jay.Base.{
  ◌+◌, ◌^◌, ◌<◌, ◌≤◌, ◌≡◌, ◌≢◌, ◌⊎◌, ◌↔◌, refl, arith, true, false, ◌&&◌, ◌||◌, ◌==◌, leb, none,
  some, List, [], ◌∷◌, if◌then◌else◌,
}
use jay.Base.Map.{find, set, erase, try_emplace}
use jay.Types.{Address, j1939_max_unicast_addr, j1939_idle_addr, j1939_no_addr}
use jay.Name.{Name, name_eq, hash, rank, self_config_address}
use jay.Network.Defs.{
  Network, same_name, same_addr, addr_of, name_at, new, insert, remove, claimable, full, search,
  find_address, get_name_set,
}
use jay.Network.Laws.{outranked}
use jay.Network.Consistent.{IsConsistent, Settled, new-IsConsistent, insert-IsConsistent}
use jay.Network.Histories.{
  Call, inserts, run, step, addr_of_unique, insert_move_stale, remove_move_orphans,
}
use jay.Network.Search.{find_address-cases, IsFirst, NoneUsable, usable}
use jay.Network.Capacity.{IsTable, new-IsTable, insert-IsTable, full_iff, find_address-not_full}
use jay.Network.Priority.{
  insert_contest, claimable-insert, same_rank, find_address-insert, find_address_fixed_refused,
}

-- A self configuring name of rank 7, and fixed names.
abbrev flexible : Name
flexible = 2 ^ 63 + 7

-- Name 5 owns the address 10, after its claim in the empty network.
abbrev one : Network
one = (insert new 5 10).0

one-entries :
    one ≡ record { name_addr_map = (5, 10) ∷ []; addr_name_map = (10, 5) ∷ []; on_new_name = false }
unfolding insert new find set erase try_emplace same_name same_addr
one-entries = refl

one-name_at : (a : Address) → name_at one a ≡ (if 10 == a then some 5 else none)
unfolding insert new find set erase try_emplace same_name same_addr
one-name_at a = ground arith

one-addr_of : (n : Name) → addr_of one n ≡ (if (5 == n) && name_eq 5 n then some 10 else none)
unfolding insert new find set erase try_emplace same_name same_addr hash
one-addr_of n = ground arith

one-5 : addr_of one 5 ≡ some 10
unfolding insert new find set erase try_emplace same_name same_addr
one-5 = refl

one-10 : name_at one 10 ≡ some 5
unfolding insert new find set erase try_emplace same_name same_addr
one-10 = refl

-- A name of lower value takes the address, and the owner goes to idle.
takes : (insert one 3 10).0 ≡ record {
  name_addr_map = (5, j1939_idle_addr) ∷ (3, 10) ∷ [];
  addr_name_map = (10, 3) ∷ [];
  on_new_name = false;
}
unfolding insert new find set erase try_emplace same_name same_addr
takes = refl

-- The names come out in their order, without duplicates.
names : get_name_set (insert (insert one 3 10).0 4 11).0 ≡ 3 ∷ 4 ∷ 5 ∷ []
unfolding insert new find set erase try_emplace same_name same_addr get_name_set
names = refl

empty-name_at : (a : Address) → name_at new a ≡ none
unfolding new find
empty-name_at a = refl

empty-addr_of : (n : Name) → addr_of new n ≡ none
unfolding new find
empty-addr_of n = refl

one-IsConsistent : IsConsistent one
one-IsConsistent =
    insert-IsConsistent new 5 new-IsConsistent 10 (λ _ _ prev e. ground (arith, empty-addr_of 5))

settled : Settled one 3 10
settled prev e = ground (arith, one-addr_of 3)

insert-IsConsistent_example : IsConsistent (insert one 3 10).0
insert-IsConsistent_example = insert-IsConsistent one 3 one-IsConsistent 10 (λ _ _. settled)

insert_contest_example :
    ((insert one 3 10).1 ≡ leb (rank 3) (rank 5))
    × (name_at (insert one 3 10).0 10 ≡ (if leb (rank 3) (rank 5) then some 3 else some 5))
insert_contest_example = insert_contest one 3 5 10 (omega arith) one-10 (omega arith) (omega arith)

-- Claims of 5 at 10 and 3 at 11, then 5 moves to 12.
abbrev calls : List Call
calls = inserts 5 10 ∷ inserts 3 11 ∷ inserts 5 12 ∷ []

calls-5 : addr_of (run new calls) 5 ≡ some 12
unfolding run step insert new find set erase try_emplace same_name same_addr
calls-5 = refl

abbrev five : Name
five = 5

addr_of_unique_example : five ≡ five
addr_of_unique_example = addr_of_unique calls five five 12 (omega arith) calls-5 calls-5

one-IsTable : IsTable one
one-IsTable = insert-IsTable new 5 10 new-IsTable

self : self_config_address flexible ≢ 0
unfolding self_config_address
self e = ground arith

room : full one ≡ false
unfolding full insert new find set erase try_emplace same_name same_addr
room = refl

full_iff_example :
    (full one ≡ true) ↔ ((a : Address) → a ≤ j1939_max_unicast_addr → name_at one a ≢ none)
full_iff_example = full_iff one one-IsTable

find_address-cases_example :
    (IsFirst one flexible 10 j1939_idle_addr (find_address one flexible 10))
    ⊎ (NoneUsable one flexible 10 j1939_idle_addr
        × IsFirst one flexible 0 10 (find_address one flexible 10))
    ⊎ ((find_address one flexible 10 ≡ j1939_no_addr) × NoneUsable one flexible 0 j1939_idle_addr)
find_address-cases_example = find_address-cases one flexible 10 self

find_address-not_full_example :
    (find_address one flexible 10 ≤ j1939_max_unicast_addr)
    × (usable one flexible (find_address one flexible 10) ≡ true)
find_address-not_full_example = find_address-not_full one flexible 10 one-IsTable self room

claimable-insert_example : (insert one 5 10).1 ≡ (claimable one 10 5 || same_rank one 5 10)
claimable-insert_example =
    claimable-insert one 5 10 (λ c e. ground (arith, one-name_at 10)) (omega arith) (omega arith)

names_fit : (a : Address) (c : Name) → name_at one a ≡ some c → c < 2 ^ 64
names_fit a c e = ground (arith, one-name_at a)

found : find_address one flexible 10 ≡ 11
unfolding find_address search self_config_address insert new find set erase try_emplace same_name
    same_addr
found = refl

found_one : find_address one flexible 10 ≢ j1939_no_addr
found_one e = ground (arith, found)

find_address-insert_example : (insert one flexible (find_address one flexible 10)).1 ≡ true
find_address-insert_example =
    find_address-insert one flexible 10 names_fit (omega arith) self found_one

abbrev ten : Address
ten = 10

abbrev twelve : Address
twelve = 12

move_apart : ten ≢ twelve
move_apart e = ground arith

free_12 : outranked one 5 12 ≡ false
unfolding insert new find set erase try_emplace same_name same_addr
free_12 = refl

insert_move_stale_example :
    (addr_of (insert one 5 12).0 5 ≡ some 12)
    × (name_at (insert one 5 12).0 12 ≡ some 5)
    × (name_at (insert one 5 12).0 10 ≡ some 5)
    × (¬ IsConsistent (insert one 5 12).0)
insert_move_stale_example =
    insert_move_stale one 5 10 12 one-IsConsistent one-5 (omega arith) (omega arith) move_apart
      free_12

-- Name 5 at 10 and 12 after its move.
abbrev moved : Network
moved = (insert one 5 12).0

lost_3 : outranked moved 3 10 ≡ false
unfolding insert new find set erase try_emplace same_name same_addr
lost_3 = refl

abbrev three : Name
three = 3

apart_3 : three ≢ five
apart_3 e = ground arith

-- Name 2 owns the address 0, name 5 the address 10.
abbrev two : Name
two = 2

abbrev at_zero : Network
at_zero = (insert one two 0).0

Settled-zero : Settled one two 0
Settled-zero prev e = ground (arith, one-addr_of 2)

at_zero-IsConsistent : IsConsistent at_zero
at_zero-IsConsistent = insert-IsConsistent one two one-IsConsistent 0 (λ _ _. Settled-zero)

at_zero-5 : addr_of at_zero five ≡ some 10
unfolding insert new find set erase try_emplace same_name same_addr
at_zero-5 = refl

at_zero-2 : addr_of at_zero two ≡ some 0
unfolding insert new find set erase try_emplace same_name same_addr
at_zero-2 = refl

at_zero-free : outranked at_zero five 12 ≡ false
unfolding insert new find set erase try_emplace same_name same_addr
at_zero-free = refl

at_zero-won : outranked (remove (insert at_zero five 12).0 five) three 10 ≡ false
unfolding insert remove new find set erase try_emplace same_name same_addr
at_zero-won = refl

abbrev nil : Address
nil = 0

ten-nil : ten ≢ nil
ten-nil e = ground arith

twelve-nil : twelve ≢ nil
twelve-nil e = ground arith

apart_32 : three ≢ two
apart_32 e = ground arith

apart_25 : two ≢ five
apart_25 e = ground arith

remove_move_orphans_example :
    (addr_of (insert (remove (insert at_zero five 12).0 five) three 10).0 two ≡ some 0)
    × (name_at (insert (remove (insert at_zero five 12).0 five) three 10).0 0 ≡ none)
remove_move_orphans_example =
    remove_move_orphans at_zero five ten twelve at_zero-IsConsistent at_zero-5 (omega arith)
      (omega arith) move_apart at_zero-free three two ten-nil twelve-nil apart_3 apart_32 apart_25
      at_zero-2 at_zero-won

-- The self configuring name of rank 3 owns the address 10.
abbrev owner : Name
owner = 2 ^ 63 + 3

abbrev owned : Network
owned = (insert new owner 10).0

owned-10 : name_at owned 10 ≡ some owner
unfolding insert new find set erase try_emplace same_name same_addr
owned-10 = refl

find_address_fixed_refused_example :
    (find_address owned 5 10 ≡ 10)
    × (claimable owned 10 5 ≡ false)
    × ((insert owned 5 10).1 ≡ false)
find_address_fixed_refused_example =
    find_address_fixed_refused owned 5 owner 10 (omega arith) owned-10 (omega arith) (omega arith)
      (omega arith) (omega arith)
