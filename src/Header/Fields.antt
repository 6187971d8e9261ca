-- ===== src/Header/Fields.antt =====
-- The setters of a header in arithmetic on its identifier.
use Prim.Native.Nat.{bit_and, bit_or}
use jay.Base.{
  ℕ, ◌+◌, ◌*◌, ◌/◌, ◌%◌, ◌^◌, ◌<◌, ◌≤◌, ◌≡◌, refl, ap, ◌∙◌, arith, Bool, true, false, ltb,
  if◌then◌else◌,
}
use jay.Base.Bits.{slice, replace, put_field-replace, get_bits-slice, bit_or-join, bit_and-rest}
use jay.Types.{Address, Pgn, pf_pdu1_max}
use jay.Header.Canary.{Canary}
use jay.Header.Defs.{
  empty_header, from_id, from_pgn, from_parts, clamp7, bit, shl32, not32, prio_mask, data_page_mask,
  pgn_mask, pf_mask, ps_mask, ad_mask, id, set_id, set_priority, set_pgn, set_data_page,
  set_pdu_format, set_pdu_specific, set_source_address, priority, data_page, pgn,
}

-- An identifier below 2 ^ 29 is written as it is.
module _ (c : Canary) where
  set_id-exact : (x : ℕ) (h : c.Raw) → x < 2 ^ 29 → c.get_id (c.set_id x h) ≡ x
  set_id-exact x h fits = omega (arith, c.get_id-set_id x h)

  id-put :
      (s w v x : ℕ) (h : c.Raw)
      → x ≡ replace s w v (c.get_id h)
      → replace s w v (c.get_id h) < 2 ^ 29
      → c.get_id (c.set_id x h) ≡ replace s w v (c.get_id h)
  id-put s w v x h e fits = set_id-exact x h (rw e fits) ∙ e

  pub id-set_priority :
      (v : ℕ) (h : c.Raw) → c.get_id (set_priority c v h) ≡ replace 26 3 (clamp7 v) (c.get_id h)
  unfolding set_priority id set_id
  id-set_priority v h =
      let low : c.get_id h < 2 ^ 29 = c.get_id-lt h in
      let fits : clamp7 v < 2 ^ 3 = ground arith in
      id-put 26 3 (clamp7 v) _ h
        (put_field-replace 26 3 3 (not32 prio_mask) (c.get_id h) (shl32 (clamp7 v) 26) (clamp7 v)
            refl (omega arith) (omega arith) (omega arith) (omega arith) (omega arith) fits
          ∙ omega arith)
        (omega arith)

  pub id-set_data_page :
      (v : Bool) (h : c.Raw) → c.get_id (set_data_page c v h) ≡ replace 24 1 (bit v) (c.get_id h)
  unfolding set_data_page id set_id
  id-set_data_page v h =
      let low : c.get_id h < 2 ^ 29 = c.get_id-lt h in
      let fits : bit v < 2 ^ 1 = ground arith in
      id-put 24 1 (bit v) _ h
        (put_field-replace 24 1 7 (not32 data_page_mask) (c.get_id h) (shl32 (bit v) 24) (bit v)
            refl (omega arith) (omega arith) (omega arith) (omega arith) (omega arith) fits
          ∙ omega arith)
        (omega arith)

  pub id-set_pdu_format :
      (v : ℕ) (h : c.Raw)
      → v < 2 ^ 8
      → c.get_id (set_pdu_format c v h) ≡ replace 16 8 (v) (c.get_id h)
  unfolding set_pdu_format id set_id
  id-set_pdu_format v h hv =
      let low : c.get_id h < 2 ^ 29 = c.get_id-lt h in
      let fits : v < 2 ^ 8 = hv in
      id-put 16 8 (v) _ h
        (put_field-replace 16 8 8 (not32 pf_mask) (c.get_id h) (shl32 (v) 16) (v) refl (omega arith)
            (omega arith) (omega arith) (omega arith) (omega arith) fits
          ∙ omega arith)
        (omega arith)

  pub id-set_pdu_specific :
      (v : ℕ) (h : c.Raw)
      → v < 2 ^ 8
      → c.get_id (set_pdu_specific c v h) ≡ replace 8 8 (v) (c.get_id h)
  unfolding set_pdu_specific id set_id
  id-set_pdu_specific v h hv =
      let low : c.get_id h < 2 ^ 29 = c.get_id-lt h in
      let fits : v < 2 ^ 8 = hv in
      id-put 8 8 (v) _ h
        (put_field-replace 8 8 16 (not32 ps_mask) (c.get_id h) (shl32 (v) 8) (v) refl (omega arith)
            (omega arith) (omega arith) (omega arith) (omega arith) fits
          ∙ omega arith)
        (omega arith)

  pub id-set_source_address :
      (v : ℕ) (h : c.Raw)
      → v < 2 ^ 8
      → c.get_id (set_source_address c v h) ≡ replace 0 8 (v) (c.get_id h)
  unfolding set_source_address id set_id
  id-set_source_address v h hv =
      let low : c.get_id h < 2 ^ 29 = c.get_id-lt h in
      let fits : v < 2 ^ 8 = hv in
      id-put 0 8 (v) _ h
        (put_field-replace 0 8 24 (not32 ad_mask) (c.get_id h) (v) (v) refl (omega arith)
            (omega arith) (omega arith) (omega arith) (omega arith) fits
          ∙ omega arith)
        (omega arith)

  pub low18 : (p : Pgn) → p < 2 ^ 32 → bit_and p 0x3FFFF ≡ p % 2 ^ 18
  low18 p h = omega (
    arith,
    get_bits-slice 0 18 14 0x3FFFF p refl (omega arith) (omega arith) (omega arith) (omega arith),
  )

  pub id-set_pgn :
      (p : Pgn) (h : c.Raw)
      → p < 2 ^ 32
      → c.get_id (set_pgn c p h) ≡ replace 8 18 (p % 2 ^ 18) (c.get_id h)
  unfolding set_pgn id set_id
  id-set_pgn p h hp =
      let low : c.get_id h < 2 ^ 29 = c.get_id-lt h in
      id-put 8 18 (p % 2 ^ 18) _ h
        (rw (low18 p hp) (
          put_field-replace 8 18 6 (not32 pgn_mask) (c.get_id h) (shl32 (p % 2 ^ 18) 8) (p % 2 ^ 18)
            refl (omega arith) (omega arith) (omega arith) (omega arith) (omega arith) (omega arith)
          ∙ omega arith))
        (omega arith)

  -- The getters that mask.
  pub priority-slice : (h : c.Raw) → priority c h ≡ slice 26 3 (c.get_id h)
  unfolding priority
  priority-slice h =
      let low : c.get_id h < 2 ^ 29 = c.get_id-lt h in
      omega (
        arith,
        get_bits-slice 26 3 3 prio_mask (c.get_id h) refl (omega arith) (omega arith) (omega arith)
            (omega arith),
      )

  pub data_page-slice : (h : c.Raw) → data_page c h ≡ slice 24 1 (c.get_id h)
  unfolding data_page
  data_page-slice h =
      let low : c.get_id h < 2 ^ 29 = c.get_id-lt h in
      omega (
        arith,
        get_bits-slice 24 1 7 data_page_mask (c.get_id h) refl (omega arith) (omega arith)
            (omega arith) (omega arith),
      )

  pgn_bits : (h : c.Raw) → bit_and (c.get_id h) pgn_mask ≡ slice 8 18 (c.get_id h) * 2 ^ 8
  pgn_bits h =
      let low : c.get_id h < 2 ^ 29 = c.get_id-lt h in
      get_bits-slice 8 18 6 pgn_mask (c.get_id h) refl (omega arith) (omega arith) (omega arith)
        (omega arith)

  -- `& ~ps_mask` clears the PDU specific byte.
  clear_ps : (n : ℕ) → n < 2 ^ 32 → bit_and n (not32 ps_mask) ≡ replace 8 8 0 n
  clear_ps n h =
      ap (λ k. bit_and k (not32 ps_mask)) (omega arith)
      ∙ bit_and-rest 8 8 16 (n % 2 ^ 8) (slice 8 8 n) (n / 2 ^ 8 / 2 ^ 8) (omega arith)
          (omega arith) (omega arith)
      ∙ omega arith

  -- The parameter group number: 18 bits, whose low byte counts for a broadcast only.
  pub pgn-eq :
      (h : c.Raw)
      → pgn c h ≡ (
          if ltb pf_pdu1_max (slice 16 8 (c.get_id h))
          then slice 8 18 (c.get_id h)
          else slice 16 10 (c.get_id h) * 2 ^ 8)
  unfolding pgn
  pgn-eq h =
      let low : c.get_id h < 2 ^ 29 = c.get_id-lt h in
      ground (arith, pgn_bits h, clear_ps (slice 8 18 (c.get_id h) * 2 ^ 8) (omega arith))

  -- The constructors.
  pub id-empty_header : c.get_id (empty_header c) ≡ 0
  unfolding empty_header
  id-empty_header =
      c.get_id-remote_transmission false _
      ∙ c.get_id-error false _
      ∙ c.get_id-extended_format true _
      ∙ c.get_id-default

  id-from_id : (x l : ℕ) → c.get_id (from_id c x l) ≡ x % 2 ^ 29
  unfolding from_id
  id-from_id x l = c.get_id-set_payload_length (l % 2 ^ 8) _ ∙ c.get_id-set_id x _

  pub id-from_pgn :
      (p : ℕ) (g : Pgn) (a : Address) (l : ℕ)
      → p < 2 ^ 8
      → g < 2 ^ 18
      → a < 2 ^ 8
      → c.get_id (from_pgn c p g a l) ≡ clamp7 p * 2 ^ 26 + g * 2 ^ 8 + a
  unfolding from_pgn
  id-from_pgn p g a l hp hg ha =
      let low : clamp7 p ≤ 7 = ground arith in
      let prio_bits : shl32 (clamp7 p) 26 ≡ clamp7 p * 2 ^ 26 = omega arith in
      let pgn_part : shl32 g 8 ≡ g * 2 ^ 8 = omega arith in
      id-from_id _ l
      ∙ rw
          (
            prio_bits,
            pgn_part,
            bit_or-join 26 (clamp7 p * 2 ^ 26) (g * 2 ^ 8) (omega arith) (omega arith)
                (omega arith),
            bit_or-join 8 (clamp7 p * 2 ^ 26 + g * 2 ^ 8) a (omega arith) (omega arith)
                (omega arith),
          )
          (omega arith)

  pub id-from_parts :
      (p : ℕ) (dp : Bool) (pf ps : ℕ) (a : Address) (l : ℕ)
      → p < 2 ^ 8
      → pf < 2 ^ 8
      → ps < 2 ^ 8
      → a < 2 ^ 8
      → c.get_id (from_parts c p dp pf ps a l)
        ≡ clamp7 p * 2 ^ 26 + bit dp * 2 ^ 24 + pf * 2 ^ 16 + ps * 2 ^ 8 + a
  unfolding from_parts
  id-from_parts p dp pf ps a l hp hf hs ha =
      let page : bit dp ≤ 1 = ground arith in
      let page_bit : shl32 (bit dp) 16 ≡ bit dp * 2 ^ 16 = omega arith in
      let pf_bits : shl32 pf 8 ≡ pf * 2 ^ 8 = omega arith in
      let g : bit_or (bit_or (shl32 (bit dp) 16) (shl32 pf 8)) ps
          ≡ bit dp * 2 ^ 16 + pf * 2 ^ 8 + ps =
        rw (
          page_bit,
          pf_bits,
          bit_or-join 16 (bit dp * 2 ^ 16) (pf * 2 ^ 8) (omega arith) (omega arith) (omega arith),
          bit_or-join 8 (bit dp * 2 ^ 16 + pf * 2 ^ 8) ps (omega arith) (omega arith) (omega arith),
        ) in
      ap (λ x. c.get_id (from_pgn c p x a l)) g
      ∙ id-from_pgn p (bit dp * 2 ^ 16 + pf * 2 ^ 8 + ps) a l hp (omega arith) ha
      ∙ omega arith
