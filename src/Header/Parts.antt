-- ===== src/Header/Parts.antt =====
-- The PGN and the kind of a header of include/jay/header.hpp from the parts that the getters show.
use jay.Base.{◌+◌, ◌*◌, ◌^◌, ◌≡◌, ap, sym, ◌∙◌, arith, Bool, if◌then◌else◌, ltb}
use jay.Types.{Pgn, pf_pdu1_max}
use jay.Header.Canary.{Canary}
use jay.Header.Defs.{pgn, is_broadcast}
use jay.Header.Fields.{pgn-eq}
use jay.Header.Access.{View, view, view_of, view-id}

abbrev pub is_broadcast_of : View → Bool
is_broadcast_of v = ltb pf_pdu1_max v.pf

-- The PDU specific byte counts for a broadcast only.
abbrev pub pgn_of : View → Pgn
pgn_of v =
    let high = v.reserved * 2 ^ 17 + v.page * 2 ^ 16 + v.pf * 2 ^ 8 in
    if is_broadcast_of v then high + v.ps else high

module _ (c : Canary) where
  pgn_of-view_of : (h : c.Raw) → pgn c h ≡ pgn_of (view_of (c.get_id h))
  pgn_of-view_of h = ground (arith, pgn-eq c h, c.get_id-lt h)

  pub pgn-view : (h : c.Raw) → pgn c h ≡ pgn_of (view c h)
  pgn-view h = pgn_of-view_of h ∙ ap pgn_of (sym (view-id c h))

  pub is_broadcast-view : (h : c.Raw) → is_broadcast c h ≡ is_broadcast_of (view c h)
  unfolding is_broadcast
  is_broadcast-view h = ground arith
