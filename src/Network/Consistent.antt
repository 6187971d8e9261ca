-- ===== src/Network/Consistent.antt =====
-- The two maps of a network as one relation between names and addresses.
use jay.Base.{◌<◌, ◌≤◌, ◌≡◌, ap, arith, false, some, get_or, Bool-cases, inl, inr}
use native.Mathlib.Decide.{dec_lt}
use mathlib.Core.Path.{subst, sym}
use jay.Base.Map.{find}
use jay.Types.{Address, j1939_max_unicast_addr}
use jay.Name.{Name}
use jay.Network.Defs.{Network, addr_of, name_at, emplace, insert, release, remove, clear, new}
use jay.Network.Laws.{
  outranked, insert_refused, addr_of-insert, name_at-insert, addr_of-emplace, name_at-emplace,
  addr_of-insert_global, name_at-insert_global, addr_of-release, name_at-release, addr_of-remove,
  name_at-remove,
}

-- The map of names gives a unicast address exactly where the map of addresses gives the name back.
pub record IsConsistent (w : Network) : Type 0 where
  pub forward :
      (n : Name) (a : Address)
      → addr_of w n ≡ some a
      → a ≤ j1939_max_unicast_addr
      → name_at w a ≡ some n
  pub backward :
      (a : Address) (n : Name)
      → name_at w a ≡ some n
      → (addr_of w n ≡ some a) × (a ≤ j1939_max_unicast_addr)

-- The name holds no other unicast address.
abbrev pub Settled : Network → Name → Address → Type 0
Settled w n a =
    (prev : Address) → addr_of w n ≡ some prev → prev ≤ j1939_max_unicast_addr → prev ≡ a

module _ (w : Network) (n : Name) (v : IsConsistent w) where
  -- Releasing a name keeps the two maps of a consistent network consistent.
  pub release-IsConsistent : IsConsistent (release w n)
  release-IsConsistent = record {
    forward = λ m a e h.
        ground (arith, addr_of-release w n m, name_at-release w n a, v.forward m a, v.forward n a);
    backward =
        λ a m e. ground (arith, addr_of-release w n m, name_at-release w n a, v.backward a m);
  }

  -- Removing a name keeps the two maps of a consistent network consistent.
  pub remove-IsConsistent : IsConsistent (remove w n)
  remove-IsConsistent = record {
    forward = λ m a e h.
        ground (arith, addr_of-remove w n m, name_at-remove w n a, v.forward m a, v.forward n a);
    backward = λ a m e. ground (arith, addr_of-remove w n m, name_at-remove w n a, v.backward a m);
  }

  emplace-IsConsistent : IsConsistent (emplace w n)
  emplace-IsConsistent = record {
    forward =
        λ m a e h. ground (arith, addr_of-emplace w n m, name_at-emplace w n a, v.forward m a);
    backward =
        λ a m e. ground (arith, addr_of-emplace w n m, name_at-emplace w n a, v.backward a m);
  }

  module _ (a : Address) where
    global-IsConsistent : j1939_max_unicast_addr < a → IsConsistent (insert w n a).0
    global-IsConsistent g = record {
      forward = λ m c e h. ground (
        arith,
        addr_of-insert_global w n a g m,
        name_at-insert_global w n a g c,
        v.forward m c,
        v.forward n c,
      );
      backward = λ c m e.
          ground (
            arith,
            addr_of-insert_global w n a g m,
            name_at-insert_global w n a g c,
            v.backward c m,
          );
    }

    accepted-IsConsistent :
        (unicast : a ≤ j1939_max_unicast_addr)
        → outranked w n a ≡ false
        → Settled w n a
        → IsConsistent (insert w n a).0
    accepted-IsConsistent unicast free settled = record {
      forward = λ m c e h. ground (
        arith,
        addr_of-insert w n a unicast free m,
        name_at-insert w n a unicast free c,
        v.forward m c,
        v.forward m a,
        v.forward (get_or (name_at w a) 0) c,
        v.backward a (get_or (name_at w a) 0),
      );
      backward = λ c m e. ground (
        arith,
        addr_of-insert w n a unicast free m,
        name_at-insert w n a unicast free c,
        v.backward c m,
        v.backward a (get_or (name_at w a) 0),
        settled c,
      );
    }

    -- From a consistent network every insertion leads to a consistent one, be it refused or accepted,
    -- unless it is accepted at a unicast address while the name holds another unicast address.
    pub insert-IsConsistent :
        (a ≤ j1939_max_unicast_addr → outranked w n a ≡ false → Settled w n a)
        → IsConsistent (insert w n a).0
    insert-IsConsistent settled = elim (dec_lt j1939_max_unicast_addr a) [
      | yes g ↦ global-IsConsistent g
      | no u ↦
          let unicast : a ≤ j1939_max_unicast_addr = omega arith in
          elim (Bool-cases (outranked w n a)) [
            | inl lost ↦
                subst IsConsistent (ap (λ r. r.0) (sym (insert_refused w n a unicast lost)))
                  emplace-IsConsistent
            | inr won ↦ accepted-IsConsistent unicast won (settled unicast won)
          ]
    ]

pub new-IsConsistent : IsConsistent new
unfolding new find
new-IsConsistent = record { forward = λ n a e h. ground arith; backward = λ a n e. ground arith }

pub clear-IsConsistent : (w : Network) → IsConsistent (clear w)
unfolding clear find
clear-IsConsistent w = record {
  forward = λ n a e h. ground arith;
  backward = λ a n e. ground arith;
}
