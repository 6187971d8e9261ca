-- ===== src/Header/Access.antt =====
-- The fields of a header, as its setters write and its getters read them.
use Prim.Native.Nat.{bit_and}
use jay.Base.{
  ℕ, ◌*◌, ◌/◌, ◌%◌, ◌^◌, ◌<◌, ◌≤◌, ◌≡◌, refl, ap, sym, ◌∙◌, arith, Bool, true, false, ltb,
  if◌then◌else◌, ◌==◌, ◌&&◌,
}
use jay.Base.Bits.{slice, replace, get_bits-slice}
use jay.Types.{Pgn, pf_pdu1_max, pf_request, pf_address_claim, j1939_pgn_pdu1_max}
use jay.Header.Canary.{Canary}
use jay.Header.Defs.{
  clamp7, bit, set_priority, set_pgn, set_data_page, set_pdu_format, set_pdu_specific,
  set_source_address, set_id, set_payload_length, payload_length, priority, data_page, pgn,
  pdu_format, pdu_specific, source_address, is_request, is_claim,
}
use jay.Header.Fields.{
  id-set_priority, id-set_data_page, id-set_pdu_format, id-set_pdu_specific, id-set_source_address,
  id-set_pgn, priority-slice, data_page-slice, pgn-eq,
}

-- A header as the getters show it, with the reserved bit 25, which has no getter of its own.
pub record View : Type 0 where
  pub prio : ℕ
  pub reserved : ℕ
  pub page : ℕ
  pub pf : ℕ
  pub ps : ℕ
  pub sa : ℕ

-- The same from the identifier.
abbrev pub view_of : ℕ → View
view_of x = record {
  prio = slice 26 3 x;
  reserved = slice 25 1 x;
  page = slice 24 1 x;
  pf = slice 16 8 x;
  ps = slice 8 8 x;
  sa = slice 0 8 x;
}

-- Equal parts, equal views.
pub record SameView (u v : View) : Type 0 where
  pub same_prio : u.prio ≡ v.prio
  pub same_reserved : u.reserved ≡ v.reserved
  pub same_page : u.page ≡ v.page
  pub same_pf : u.pf ≡ v.pf
  pub same_ps : u.ps ≡ v.ps
  pub same_sa : u.sa ≡ v.sa

pub View-path : {u v : View} → SameView u v → u ≡ v
View-path e = λ i. record {
  prio = e.same_prio i;
  reserved = e.same_reserved i;
  page = e.same_page i;
  pf = e.same_pf i;
  ps = e.same_ps i;
  sa = e.same_sa i;
}

-- The setters with their arguments.
pub data Setter : Type 0 where
  to_priority to_pdu_format to_pdu_specific to_source_address to_pgn to_id to_payload_length :
      ℕ → Setter
  to_data_page : Bool → Setter

-- The argument is one of the parameter's type.
abbrev pub Fits : Setter → Type 0
Fits (to_priority v) = v < 2 ^ 8
Fits (to_data_page b) = Unit {0}
Fits (to_pdu_format v) = v < 2 ^ 8
Fits (to_pdu_specific v) = v < 2 ^ 8
Fits (to_source_address v) = v < 2 ^ 8
Fits (to_pgn v) = v < 2 ^ 32
Fits (to_id v) = v < 2 ^ 32
Fits (to_payload_length l) = l < 2 ^ 8

-- What a setter means for the fields: a priority above 7 is 7, a PGN is its four parts.
abbrev pub write : Setter → View → View
write (to_priority v) u = record u { prio = clamp7 v }
write (to_data_page b) u = record u { page = bit b }
write (to_pdu_format v) u = record u { pf = v }
write (to_pdu_specific v) u = record u { ps = v }
write (to_source_address v) u = record u { sa = v }
write (to_pgn v) u = record u {
  reserved = v / 2 ^ 17 % 2;
  page = v / 2 ^ 16 % 2;
  pf = v / 2 ^ 8 % 2 ^ 8;
  ps = v % 2 ^ 8;
}
write (to_id v) u = view_of v
write (to_payload_length l) u = u

-- What it means for the length.
abbrev pub write_length : Setter → ℕ → ℕ
write_length (to_payload_length l) n = l
write_length _ n = n

-- What it does to the identifier.
abbrev put : Setter → ℕ → ℕ
put (to_priority v) x = replace 26 3 (clamp7 v) x
put (to_data_page b) x = replace 24 1 (bit b) x
put (to_pdu_format v) x = replace 16 8 v x
put (to_pdu_specific v) x = replace 8 8 v x
put (to_source_address v) x = replace 0 8 v x
put (to_pgn v) x = replace 8 18 (v % 2 ^ 18) x
put (to_id v) x = v % 2 ^ 29
put (to_payload_length l) x = x

clamp7-le : (v : ℕ) → clamp7 v ≤ 7
clamp7-le v = ground arith

bit-le : (b : Bool) → bit b ≤ 1
bit-le true = omega arith
bit-le false = omega arith

module _ (c : Canary) where
  abbrev pub view : c.Raw → View
  view h = record {
    prio = priority c h;
    reserved = c.get_id h / 2 ^ 25 % 2;
    page = data_page c h;
    pf = pdu_format c h;
    ps = pdu_specific c h;
    sa = source_address c h;
  }

  pub view-id : (h : c.Raw) → view h ≡ view_of (c.get_id h)
  unfolding pdu_format pdu_specific source_address
  view-id h = ground (arith, priority-slice c h, data_page-slice c h)

  view_of-put : (x : Setter) (n : ℕ) → Fits x → n < 2 ^ 29 → view_of (put x n) ≡ write x (view_of n)
  view_of-put (to_priority v) n f h = View-path (omega (arith, clamp7-le v))
  view_of-put (to_data_page b) n f h = View-path (omega (arith, bit-le b))
  view_of-put (to_pdu_format v) n f h = View-path (omega arith)
  view_of-put (to_pdu_specific v) n f h = View-path (omega arith)
  view_of-put (to_source_address v) n f h = View-path (omega arith)
  view_of-put (to_pgn v) n f h = View-path (omega arith)
  view_of-put (to_id v) n f h = View-path (omega arith)
  view_of-put (to_payload_length l) n f h = refl

  abbrev pub apply : Setter → c.Raw → c.Raw
  apply (to_priority v) = set_priority c v
  apply (to_data_page b) = set_data_page c b
  apply (to_pdu_format v) = set_pdu_format c v
  apply (to_pdu_specific v) = set_pdu_specific c v
  apply (to_source_address v) = set_source_address c v
  apply (to_pgn v) = set_pgn c v
  apply (to_id v) = set_id c v
  apply (to_payload_length l) = set_payload_length c l

  id-apply : (x : Setter) (h : c.Raw) → Fits x → c.get_id (apply x h) ≡ put x (c.get_id h)
  unfolding set_id set_payload_length
  id-apply (to_priority v) h f = id-set_priority c v h
  id-apply (to_data_page b) h f = id-set_data_page c b h
  id-apply (to_pdu_format v) h f = id-set_pdu_format c v h f
  id-apply (to_pdu_specific v) h f = id-set_pdu_specific c v h f
  id-apply (to_source_address v) h f = id-set_source_address c v h f
  id-apply (to_pgn v) h f = id-set_pgn c v h f
  id-apply (to_id v) h f = c.get_id-set_id v h
  id-apply (to_payload_length l) h f = c.get_id-set_payload_length l h

  -- The fields of the identifier after a setter.
  pub view-apply : (x : Setter) (h : c.Raw) → Fits x → view (apply x h) ≡ write x (view h)
  view-apply x h f =
      view-id (apply x h)
      ∙ ap view_of (id-apply x h f)
      ∙ view_of-put x (c.get_id h) f (c.get_id-lt h)
      ∙ ap (write x) (sym (view-id h))

  length-apply :
      (x : Setter) (h : c.Raw)
      → Fits x
      → payload_length c (apply x h) ≡ write_length x (payload_length c h)
  unfolding payload_length set_priority set_data_page set_pdu_format set_pdu_specific
      set_source_address set_pgn set_id set_payload_length
  length-apply (to_priority v) h f = c.get_payload_length-set_id _ h
  length-apply (to_data_page b) h f = c.get_payload_length-set_id _ h
  length-apply (to_pdu_format v) h f = c.get_payload_length-set_id _ h
  length-apply (to_pdu_specific v) h f = c.get_payload_length-set_id _ h
  length-apply (to_source_address v) h f = c.get_payload_length-set_id _ h
  length-apply (to_pgn v) h f = c.get_payload_length-set_id _ h
  length-apply (to_id v) h f = c.get_payload_length-set_id _ h
  length-apply (to_payload_length l) h f = c.get_payload_length-set_payload_length l h f

  -- Each of the eight setters of a header (priority, data page, PDU format, PDU specific, source
  -- address, PGN, identifier, payload length), with an argument of its parameter's type, or a length
  -- that fits the 8 bits of its field, changes the fields of the identifier that it names, which are
  -- all for the identifier and include the reserved bit for the PGN, to the value that is set, and no
  -- other; and the length is what it was, unless it is the length that is set. (A priority above 7 is
  -- set as 7, and of a PGN or an identifier the bits above its 18 or 29 are dropped.)
  pub fields-apply :
      (x : Setter) (h : c.Raw)
      → Fits x
      → (view (apply x h) ≡ write x (view h))
        × (payload_length c (apply x h) ≡ write_length x (payload_length c h))
  fields-apply x h f = (view-apply x h f, length-apply x h f)

  -- A 32-bit PGN that is set is read back in its low 18 bits, with its low byte 0 unless its PDU
  -- format is above 239.
  pub pgn-set_pgn :
      (p : Pgn) (h : c.Raw)
      → p < 2 ^ 32
      → pgn c (set_pgn c p h)
        ≡ (if ltb pf_pdu1_max (p / 2 ^ 8 % 2 ^ 8) then p % 2 ^ 18 else p % 2 ^ 18 / 2 ^ 8 * 2 ^ 8)
  pgn-set_pgn p h fits =
      pgn-eq c (set_pgn c p h) ∙ rw (id-set_pgn c p h fits) (ground (arith, c.get_id-lt h))

  pub pgn_high :
      (h : c.Raw) → bit_and (pgn c h) j1939_pgn_pdu1_max ≡ slice 16 10 (c.get_id h) * 2 ^ 8
  pgn_high h =
      get_bits-slice 8 10 14 j1939_pgn_pdu1_max (pgn c h) refl
        (ground (arith, pgn-eq c h, c.get_id-lt h)) (omega arith) (omega arith)
        (ground (arith, pgn-eq c h, c.get_id-lt h))
      ∙ ground (arith, pgn-eq c h, c.get_id-lt h)

  -- A frame is a request, or an address claim, exactly if its PDU format says so and the reserved
  -- bit and the data page are 0.
  pub is_request-is_claim :
      (h : c.Raw)
      → let u = view h in
        (is_request c h ≡ ((u.pf == pf_request) && ((u.page == 0) && (u.reserved == 0))))
        × (is_claim c h ≡ ((u.pf == pf_address_claim) && ((u.page == 0) && (u.reserved == 0))))
  unfolding is_request is_claim pdu_format
  is_request-is_claim h = (
    rw (pgn_high h, data_page-slice c h) (ground (arith, c.get_id-lt h)),
    rw (pgn_high h, data_page-slice c h) (ground (arith, c.get_id-lt h)),
  )
