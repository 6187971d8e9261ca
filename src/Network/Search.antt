-- ===== src/Network/Search.antt =====
-- find_address and its loop: which address a name is sent to.
use native.Mathlib.Decide.{dec_lt, ℕ_discrete}
use mathlib.Core.Path.{subst, sym}
use jay.Base.{
  ℕ, zero, suc, ◌+◌, ◌-◌, ◌<◌, ◌≤◌, ◌≡◌, ◌≢◌, ◌⊎◌, inl, inr, refl, arith, Bool, true, false, none,
  some, ==-ne, Bool-cases,
}
use jay.Types.{Address, j1939_max_unicast_addr, j1939_idle_addr, j1939_no_addr}
use jay.Name.{Name, name_eq, self_config_address}
use jay.Network.Defs.{Network, name_at, search_from, search, find_address, clamp_addr}

-- The name may have the address: nobody owns it, or a name that `==` cannot tell from this one.
abbrev pub usable : Network → Name → Address → Bool
usable w n a = elim (name_at w a) [ none ↦ true | some owner ↦ name_eq owner n ]

-- r is the first usable address from lo up to hi, which is excluded.
abbrev pub IsFirst : Network → Name → Address → Address → Address → Type 0
IsFirst w n lo hi r =
    (lo ≤ r)
    × (r < hi)
    × (usable w n r ≡ true)
    × ((c : Address) → lo ≤ c → c < r → usable w n c ≡ false)

-- There is none.
abbrev pub NoneUsable : Network → Name → Address → Address → Type 0
NoneUsable w n lo hi = (c : Address) → lo ≤ c → c < hi → usable w n c ≡ false

pub clamp_addr-le : (a : Address) → clamp_addr a ≤ j1939_max_unicast_addr
clamp_addr-le a = ground arith

module _ (w : Network) (n : Name) where
  search_from-hit : (rounds lo : ℕ) → usable w n lo ≡ true → search_from (suc rounds) w n lo ≡ lo
  unfolding search_from
  search_from-hit rounds lo h = ground arith

  search_from-miss :
      (rounds lo : ℕ)
      → usable w n lo ≡ false
      → search_from (suc rounds) w n lo ≡ search_from rounds w n (lo + 1)
  unfolding search_from
  search_from-miss rounds lo h = ground arith

  miss_below : (lo r : ℕ) → usable w n lo ≡ false → NoneUsable w n (lo + 1) r → NoneUsable w n lo r
  miss_below lo r miss rest c h k = elim (ℕ_discrete lo c) [
    | yes e ↦ subst (λ x. usable w n x ≡ false) e miss
    | no e ↦ rest c (omega arith) k
  ]

  search_from-cases :
      (rounds lo hi : ℕ)
      → hi ≡ lo + rounds
      → (IsFirst w n lo hi (search_from rounds w n lo))
        ⊎ ((search_from rounds w n lo ≡ j1939_no_addr) × NoneUsable w n lo hi)
  search_from-cases zero lo hi e = inr (unfold search_from in refl, λ c h k. absurd (omega arith))
  search_from-cases (suc rounds) lo hi e = elim (Bool-cases (usable w n lo)) [
    | inl hit ↦ inl (
        rw (search_from-hit rounds lo hit)
          (omega arith, omega arith, hit, λ c h k. absurd (omega arith)))
    | inr miss ↦
        rw (search_from-miss rounds lo miss)
          (elim (search_from-cases rounds (lo + 1) hi (omega arith)) [
            | inl first ↦ inl (
              omega arith,
              first.1,
              first.2,
              miss_below lo (search_from rounds w n (lo + 1)) miss first.3,
            )
            | inr nowhere ↦ inr (nowhere.0, miss_below lo hi miss nowhere.1)
          ])
  ]

  -- The loop gives the first usable address of its range, or J1939_NO_ADDR if there is none.
  pub search-cases :
      (lo hi : Address)
      → lo ≤ hi
      → (IsFirst w n lo hi (search w n lo hi))
        ⊎ ((search w n lo hi ≡ j1939_no_addr) × NoneUsable w n lo hi)
  unfolding search
  search-cases lo hi h = search_from-cases (hi - lo) lo hi (omega arith)

  find_address-found :
      (preferred : Address)
      → self_config_address n ≢ 0
      → search w n (clamp_addr preferred) j1939_idle_addr ≢ j1939_no_addr
      → find_address w n preferred ≡ search w n (clamp_addr preferred) j1939_idle_addr
  unfolding find_address
  find_address-found preferred h found =
      rw (==-ne _ _ h, ==-ne (search w n (clamp_addr preferred) j1939_idle_addr) _ found)

  find_address-again :
      (preferred : Address)
      → self_config_address n ≢ 0
      → search w n (clamp_addr preferred) j1939_idle_addr ≡ j1939_no_addr
      → find_address w n preferred ≡ search w n 0 (clamp_addr preferred)
  unfolding find_address
  find_address-again preferred h nowhere = rw (==-ne _ _ h, nowhere)

  NoneUsable-join :
      (p hi : Address) → NoneUsable w n 0 p → NoneUsable w n p hi → NoneUsable w n 0 hi
  NoneUsable-join p hi low high c h k = elim (dec_lt c p) [
    | yes below ↦ low c h below
    | no above ↦ high c (omega arith) k
  ]

  -- What find_address gives to a self configuring name: the first usable address from the preferred
  -- one (at most 253) up, else the first below it, else J1939_NO_ADDR and no unicast address is
  -- usable. Usable means free or owned by a name that is equal by `==`.
  pub find_address-cases :
      (preferred : Address)
      → self_config_address n ≢ 0
      → let p = clamp_addr preferred in
        let r = find_address w n preferred in
        (IsFirst w n p j1939_idle_addr r)
        ⊎ (NoneUsable w n p j1939_idle_addr × IsFirst w n 0 p r)
        ⊎ ((r ≡ j1939_no_addr) × NoneUsable w n 0 j1939_idle_addr)
  find_address-cases preferred h =
      elim (search-cases (clamp_addr preferred) j1939_idle_addr
        (omega (arith, clamp_addr-le preferred))) [
          | inl first ↦ inl (
              subst (IsFirst w n (clamp_addr preferred) j1939_idle_addr)
                (sym (find_address-found preferred h (λ e. ground (arith, first.1)))) first)
          | inr high ↦
              rw (find_address-again preferred h high.0)
                (elim (search-cases 0 (clamp_addr preferred) (omega arith)) [
                  | inl first ↦ inr (inl (high.1, first))
                  | inr low ↦ inr (
                      inr (
                        low.0,
                        NoneUsable-join (clamp_addr preferred) j1939_idle_addr low.1 high.1,
                      ))
                ])
        ]
