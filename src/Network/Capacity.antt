-- ===== src/Network/Capacity.antt =====
-- Whether the network is full: what the size of the map of addresses says, and that a network that
-- is not full has an address for every self configuring name.
use native.Mathlib.Decide.{dec_lt}
use mathlib.Core.Path.{subst, sym}
use mathlib.Core.Bool.{false≢true}
use jay.Base.{
  ◌≤◌, ◌≡◌, ◌≢◌, ◌↔◌, refl, ◌∙◌, inl, inr, ap, arith, Bool, true, false, Option, none, some, ltb→lt,
  lt→ltb, Bool-cases, Option-cases, ◌==◌,
}
use jay.Base.Map.{find}
use jay.Base.Keys.{IsDistinct, set-IsDistinct, erase-IsDistinct, length-lt-bound, le-length}
use jay.Types.{Address, j1939_max_unicast_addr, j1939_idle_addr}
use jay.Name.{Name, self_config_address}
use jay.Network.Defs.{
  Network, same_addr, addr_of, name_at, set_idle, claim, take_over, emplace, insert, insert_idle,
  release, remove, new, full, find_address,
}
use jay.Network.Laws.{
  same_addr-key, outranked, notifies, insert-take_over, insert-global, insert_refused,
  name_at-insert, name_at-insert_global, name_at-release, name_at-remove, name_at-emplace,
}
use jay.Network.Search.{find_address-cases, usable, clamp_addr-le}

-- The map of addresses has one entry for each address, and unicast addresses only.
pub record IsTable (w : Network) : Type 0 where
  pub distinct : IsDistinct same_addr w.addr_name_map
  pub unicast : (a : Address) → name_at w a ≢ none → a ≤ j1939_max_unicast_addr

-- The part of it that the shape of the map decides.
abbrev Keyed : Network → Type 0
Keyed w = IsDistinct same_addr w.addr_name_map

module _ (w : Network) (n : Name) (k : Keyed w) where
  set_idle-Keyed : Keyed (set_idle w n)
  unfolding set_idle
  set_idle-Keyed = erase-IsDistinct same_addr same_addr-key _ w.addr_name_map k

  emplace-Keyed : Keyed (emplace w n)
  unfolding emplace
  emplace-Keyed = k

  claim-Keyed : (a : Address) (b : Bool) → Keyed (claim w n a b).0
  unfolding claim
  claim-Keyed a b = set-IsDistinct same_addr same_addr-key a n w.addr_name_map k

  insert_idle-Keyed : (a : Address) → Keyed (insert_idle w n a).0
  unfolding insert_idle
  insert_idle-Keyed a = elim (Option-cases (addr_of w n)) [
    | inl e ↦ rw (e, insert_idle) k
    | inr (prev, e) ↦ elim (Bool-cases (a == j1939_idle_addr)) [
      | inl idle ↦ rw (e, insert_idle, idle) set_idle-Keyed
      | inr no_addr ↦ rw (e, insert_idle, no_addr) k
    ]
  ]

  release-Keyed : Keyed (release w n)
  unfolding release
  release-Keyed = elim (Option-cases (addr_of w n)) [
    | inl e ↦ rw (e, release) k
    | inr (a, e) ↦ elim (Option-cases (name_at w a)) [
      | inl f ↦ rw (e, release, f) k
      | inr (m, f) ↦
          rw (e, release, f) (erase-IsDistinct same_addr same_addr-key a w.addr_name_map k)
    ]
  ]

  remove-Keyed : Keyed (remove w n)
  unfolding remove
  remove-Keyed = elim (Option-cases (addr_of w n)) [
    | inl e ↦ rw (e, remove) k
    | inr (a, e) ↦ elim (Option-cases (name_at w a)) [
      | inl f ↦ rw (e, remove, f) k
      | inr (m, f) ↦
          rw (e, remove, f) (erase-IsDistinct same_addr same_addr-key a w.addr_name_map k)
    ]
  ]

take_over-Keyed :
    (w : Network) (n : Name) (a : Address) (occupant : Option Name) (b : Bool)
    → Keyed w
    → Keyed (take_over w n a occupant b).0
unfolding take_over
take_over-Keyed w n a none b k = claim-Keyed (emplace w n) n (emplace-Keyed w n k) a b
take_over-Keyed w n a (some conflict) b k = elim (Bool-cases (conflict == n)) [
  | inl own ↦ rw own (claim-Keyed (emplace w n) n (emplace-Keyed w n k) a b)
  | inr other ↦ rw other (
      claim-Keyed (set_idle (emplace w n) conflict) n
        (set_idle-Keyed (emplace w n) conflict (emplace-Keyed w n k)) a b)
]

insert-Keyed : (w : Network) (n : Name) (a : Address) → Keyed w → Keyed (insert w n a).0
insert-Keyed w n a k = elim (dec_lt j1939_max_unicast_addr a) [
  | yes g ↦ subst Keyed (ap (λ r. r.0) (sym (insert-global w n a g))) (insert_idle-Keyed w n k a)
  | no u ↦
      let unicast : a ≤ j1939_max_unicast_addr = omega arith in
      elim (Bool-cases (outranked w n a)) [
        | inl lost ↦
            subst Keyed (ap (λ r. r.0) (sym (insert_refused w n a unicast lost)))
              (emplace-Keyed w n k)
        | inr won ↦
            subst Keyed (sym (insert-take_over w n a unicast won))
              (take_over-Keyed w n a (name_at w a) (notifies w n a) k)
      ]
]

-- The invariant of the map of addresses holds of the empty network and is kept by every method that
-- changes the maps.
pub insert-IsTable : (w : Network) (n : Name) (a : Address) → IsTable w → IsTable (insert w n a).0
insert-IsTable w n a t = record {
  distinct = insert-Keyed w n a t.distinct;
  unicast = λ c h. elim (dec_lt j1939_max_unicast_addr a) [
    | yes g ↦ t.unicast c (ground (arith, name_at-insert_global w n a g c))
    | no u ↦
        let low : a ≤ j1939_max_unicast_addr = omega arith in
        elim (Bool-cases (outranked w n a)) [
          | inl lost ↦
              t.unicast c (
                ground
                  (arith, ap (λ r. r.0) (insert_refused w n a low lost), name_at-emplace w n c))
          | inr won ↦ ground (arith, name_at-insert w n a low won c, t.unicast c)
        ]
  ];
}

pub release-IsTable : (w : Network) (n : Name) → IsTable w → IsTable (release w n)
release-IsTable w n t = record {
  distinct = release-Keyed w n t.distinct;
  unicast = λ c h. ground (arith, name_at-release w n c, t.unicast c);
}

pub remove-IsTable : (w : Network) (n : Name) → IsTable w → IsTable (remove w n)
remove-IsTable w n t = record {
  distinct = remove-Keyed w n t.distinct;
  unicast = λ c h. ground (arith, name_at-remove w n c, t.unicast c);
}

pub new-IsTable : IsTable new
unfolding new find
new-IsTable = record { distinct = tt; unicast = λ a h. absurd (h refl) }

-- A network whose map of addresses has one entry for each address, and unicast addresses only, is
-- reported full exactly if every unicast address has an owner.
pub full_iff :
    (w : Network)
    → IsTable w
    → (full w ≡ true) ↔ ((a : Address) → a ≤ j1939_max_unicast_addr → name_at w a ≢ none)
unfolding full
full_iff w t = (
  λ h a low free. absurd (
      omega (
        arith,
        ltb→lt _ _ h,
        length-lt-bound same_addr same_addr-key 254 w.addr_name_map a t.distinct
            (λ k held. omega (arith, t.unicast k held)) (omega arith) free,
      )),
  λ all. lt→ltb _ _ (
      omega (
        arith,
        le-length same_addr same_addr-key 254 w.addr_name_map (λ k h. all k (omega arith)),
      )),
)

-- From a network that is not full (its map of addresses has one entry for each address, and unicast
-- addresses only), find_address sends every self configuring name to a unicast address that is free
-- or whose owner is equal to the name by `==`.
pub find_address-not_full :
    (w : Network) (n : Name) (preferred : Address)
    → IsTable w
    → self_config_address n ≢ 0
    → full w ≡ false
    → let r = find_address w n preferred in (r ≤ j1939_max_unicast_addr) × (usable w n r ≡ true)
find_address-not_full w n preferred t self room = elim (find_address-cases w n preferred self) [
  | inl first ↦ (omega (arith, first.1), first.2)
  | inr (inl (_, first)) ↦ (omega (arith, first.1, clamp_addr-le preferred), first.2)
  | inr (inr nowhere) ↦
      absurd (false≢true (sym room ∙ (full_iff w t).1 (λ a low free. ground (arith, nowhere.1 a))))
]
