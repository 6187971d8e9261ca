-- ===== src/Network/Laws.antt =====
-- How the two maps change, operation by operation.
use jay.Base.{
  ◌<◌, ◌≡◌, ◌≢◌, refl, ap, arith, Bool, true, false, not, ◌&&◌, Option, none, some, if◌then◌else◌,
  ◌==◌, ◌∙◌, get_or, ◌≤◌, Bool-cases, inl, inr,
}
use jay.Base.Map.{IsKeyTest, find-set, find-erase, find-try_emplace}
use jay.Types.{Address, j1939_max_unicast_addr, j1939_idle_addr}
use jay.Name.{Name, name_gt}
use jay.Network.Defs.{
  Network, same_name, same_addr, addr_of, name_at, set_idle, claim, take_over, emplace, insert,
  insert_idle, insert_unicast, release, remove,
}

-- Keys are told apart by their value: of names by the hash, though `==` leaves a bit out.
pub same_name-key : IsKeyTest same_name
unfolding same_name
same_name-key a b = ground arith

pub same_addr-key : IsKeyTest same_addr
unfolding same_addr
same_addr-key a b = ground arith

pub same_name-== : (a b : Name) → same_name a b ≡ (a == b)
same_name-== a b = ground (arith, same_name-key a b)

pub same_addr-== : (a b : Address) → same_addr a b ≡ (a == b)
same_addr-== a b = ground (arith, same_addr-key a b)

module _ (w : Network) (n : Name) where
  pub addr_of-set_idle :
      (m : Name) → addr_of (set_idle w n) m ≡ (if n == m then some j1939_idle_addr else addr_of w m)
  unfolding set_idle
  addr_of-set_idle m = rw (find-set same_name same_name-key, same_name-==)

  pub name_at-set_idle :
      (a : Address)
      → name_at (set_idle w n) a ≡ (if get_or (addr_of w n) 0 == a then none else name_at w a)
  unfolding set_idle
  name_at-set_idle a = rw (find-erase same_addr same_addr-key, same_addr-==)

  pub addr_of-claim :
      (a : Address) (b : Bool) (m : Name)
      → addr_of (claim w n a b).0 m ≡ (if n == m then some a else addr_of w m)
  unfolding claim
  addr_of-claim a b m = rw (find-set same_name same_name-key, same_name-==)

  pub name_at-claim :
      (a : Address) (b : Bool) (c : Address)
      → name_at (claim w n a b).0 c ≡ (if a == c then some n else name_at w c)
  unfolding claim
  name_at-claim a b c = rw (find-set same_addr same_addr-key, same_addr-==)

-- The address of a name after its claim of `a`, where `occupant` held it: that of the new owner, of
-- the one that has to leave, and of all others.
abbrev pub addr_after : Network → Name → Address → Option Name → Name → Option Address
addr_after w n a occupant m = if n == m then some a else elim occupant [
  | none ↦ addr_of w m
  | some conflict ↦ if conflict == m then some j1939_idle_addr else addr_of w m
]

-- The owner of an address after that claim.
abbrev pub name_after : Network → Name → Address → Option Name → Address → Option Name
name_after w n a occupant c = if a == c then some n else elim occupant [
  | none ↦ name_at w c
  | some conflict ↦
      if conflict == n
      then name_at w c
      else (if get_or (addr_of w conflict) 0 == c then none else name_at w c)
]

pub name_at-emplace : (w : Network) (n : Name) (c : Address) → name_at (emplace w n) c ≡ name_at w c
unfolding emplace
name_at-emplace w n c = refl

pub addr_of-emplace :
    (w : Network) (n m : Name)
    → addr_of (emplace w n) m ≡ (elim (addr_of w n) [
      | none ↦ if n == m then some j1939_idle_addr else addr_of w m
      | some _ ↦ addr_of w m
    ])
unfolding emplace
addr_of-emplace w n m = ground (
  arith,
  find-try_emplace same_name same_name-key n m j1939_idle_addr w.name_addr_map,
  same_name-== n m,
)

-- What a refused claim leaves: the name is there, idle if it was new.
pub addr_of-emplace_ne : (w : Network) (n m : Name) → n ≢ m → addr_of (emplace w n) m ≡ addr_of w m
addr_of-emplace_ne w n m h = ground (arith, addr_of-emplace w n m)

module _ (w : Network) (n : Name) (a : Address) (b : Bool) where
  addr_of-take_over :
      (occupant : Option Name) (m : Name)
      → addr_of (take_over w n a occupant b).0 m ≡ addr_after w n a occupant m
  unfolding take_over
  addr_of-take_over none m =
      addr_of-claim (emplace w n) n a b m ∙ ground (arith, addr_of-emplace w n m)
  addr_of-take_over (some conflict) m = elim (Bool-cases (conflict == n)) [
    | inl own ↦ rw own (addr_of-claim (emplace w n) n a b m ∙ ground (arith, addr_of-emplace w n m))
    | inr other ↦ rw other (
        addr_of-claim (set_idle (emplace w n) conflict) n a b m
        ∙ ground (arith, addr_of-emplace w n m, addr_of-set_idle (emplace w n) conflict m))
  ]

  name_at-take_over :
      (occupant : Option Name) (c : Address)
      → name_at (take_over w n a occupant b).0 c ≡ name_after w n a occupant c
  unfolding take_over emplace
  name_at-take_over none c = name_at-claim (emplace w n) n a b c
  name_at-take_over (some conflict) c = elim (Bool-cases (conflict == n)) [
    | inl own ↦ rw own (name_at-claim (emplace w n) n a b c)
    | inr other ↦ rw other (
        name_at-claim (set_idle (emplace w n) conflict) n a b c
        ∙ ground (arith, name_at-set_idle (emplace w n) conflict c, addr_of-emplace w n conflict))
  ]

-- Every accepted claim ends in `claim`, which calls on_new_name_ if it is set.
call-take_over :
    (w : Network) (n : Name) (a : Address) (b : Bool) (occupant : Option Name)
    → (take_over w n a occupant b).1 ≡ (if b && w.on_new_name then some (n, a) else none)
unfolding take_over claim emplace set_idle
call-take_over w n a b none = refl
call-take_over w n a b (some conflict) = ground arith

-- Whether an accepted claim is news: the name is new or had another address.
abbrev pub notifies : Network → Name → Address → Bool
notifies w n a = elim (addr_of w n) [ none ↦ true | some prev ↦ not (prev == a) ]

-- Whether a claim is refused: the owner of the address has priority.
abbrev pub outranked : Network → Name → Address → Bool
outranked w n a = elim (name_at w a) [ none ↦ false | some conflict ↦ name_gt n conflict ]

module _ (w : Network) (n : Name) (a : Address) (unicast : a ≤ j1939_max_unicast_addr) where
  insert-unicast : insert w n a ≡ insert_unicast w n a
  unfolding insert
  insert-unicast = ground arith

  pub insert_refused : outranked w n a ≡ true → insert w n a ≡ (emplace w n, false, none)
  unfolding insert_unicast emplace
  insert_refused h = insert-unicast ∙ rw h

  pub insert_accepted : outranked w n a ≡ false → (insert w n a).1 ≡ true
  unfolding insert_unicast
  insert_accepted h = ap (λ r. r.1) insert-unicast ∙ rw h

  pub insert_call :
      outranked w n a ≡ false
      → (insert w n a).2 ≡ (if notifies w n a && w.on_new_name then some (n, a) else none)
  unfolding insert_unicast
  insert_call h =
      ap (λ r. r.2) insert-unicast ∙ rw h (call-take_over w n a (notifies w n a) (name_at w a))

  pub insert-take_over :
      outranked w n a ≡ false
      → (insert w n a).0 ≡ (take_over w n a (name_at w a) (notifies w n a)).0
  unfolding insert_unicast
  insert-take_over h = ap (λ r. r.0) insert-unicast ∙ rw h

  pub addr_of-insert :
      outranked w n a ≡ false
      → (m : Name) → addr_of (insert w n a).0 m ≡ addr_after w n a (name_at w a) m
  unfolding insert_unicast
  addr_of-insert h m =
      ap (λ r. addr_of r.0 m) insert-unicast ∙ rw h (addr_of-take_over w n a _ (name_at w a) m)

  pub name_at-insert :
      outranked w n a ≡ false
      → (c : Address) → name_at (insert w n a).0 c ≡ name_after w n a (name_at w a) c
  unfolding insert_unicast
  name_at-insert h c =
      ap (λ r. name_at r.0 c) insert-unicast ∙ rw h (name_at-take_over w n a _ (name_at w a) c)

module _ (w : Network) (n : Name) (a : Address) (global : j1939_max_unicast_addr < a) where
  pub insert-global : insert w n a ≡ insert_idle w n a
  unfolding insert
  insert-global = ground arith

  -- At an address that is no unicast address, a new name and a release are noted, no more.
  pub addr_of-insert_global :
      (m : Name)
      → addr_of (insert w n a).0 m ≡ (elim (addr_of w n) [
        | none ↦ if n == m then some j1939_idle_addr else addr_of w m
        | some _ ↦
            if a == j1939_idle_addr
            then (if n == m then some j1939_idle_addr else addr_of w m)
            else addr_of w m
      ])
  unfolding insert_idle
  addr_of-insert_global m =
      ap (λ r. addr_of r.0 m) insert-global
      ∙ ground (
        arith,
        addr_of-set_idle w n m,
        find-set same_name same_name-key n m j1939_idle_addr w.name_addr_map,
        same_name-== n m,
      )

  pub name_at-insert_global :
      (c : Address)
      → name_at (insert w n a).0 c ≡ (elim (addr_of w n) [
        | none ↦ name_at w c
        | some prev ↦
            if a == j1939_idle_addr then (if prev == c then none else name_at w c) else name_at w c
      ])
  unfolding insert_idle
  name_at-insert_global c =
      ap (λ r. name_at r.0 c) insert-global ∙ ground (arith, name_at-set_idle w n c)

module _ (w : Network) (n : Name) where
  pub addr_of-release :
      (m : Name)
      → addr_of (release w n) m ≡ (elim (addr_of w n) [
        | none ↦ addr_of w m
        | some _ ↦ if n == m then some j1939_idle_addr else addr_of w m
      ])
  unfolding release
  addr_of-release m = ground (
    arith,
    find-set same_name same_name-key n m j1939_idle_addr w.name_addr_map,
    same_name-== n m,
  )

  pub name_at-release :
      (c : Address)
      → name_at (release w n) c ≡ (elim (addr_of w n) [
        | none ↦ name_at w c
        | some a ↦ if a == c then none else name_at w c
      ])
  unfolding release
  name_at-release c = ground (
    arith,
    find-erase same_addr same_addr-key (get_or (addr_of w n) 0) c w.addr_name_map,
    same_addr-== (get_or (addr_of w n) 0) c,
  )

  pub addr_of-remove : (m : Name) → addr_of (remove w n) m ≡ (if n == m then none else addr_of w m)
  unfolding remove
  addr_of-remove m =
      ground (arith, find-erase same_name same_name-key n m w.name_addr_map, same_name-== n m)

  pub name_at-remove :
      (c : Address)
      → name_at (remove w n) c ≡ (elim (addr_of w n) [
        | none ↦ name_at w c
        | some a ↦ if a == c then none else name_at w c
      ])
  unfolding remove
  name_at-remove c = ground (
    arith,
    find-erase same_addr same_addr-key (get_or (addr_of w n) 0) c w.addr_name_map,
    same_addr-== (get_or (addr_of w n) 0) c,
  )
