-- ===== src/Filters/Passing.antt =====
-- What the filters of include/jay/filters.hpp let through.
use Prim.Native.Nat.{bit_and}
use jay.Base.{ℕ, ◌*◌, ◌%◌, ◌^◌, ◌<◌, ◌≡◌, refl, ap, ◌∙◌, arith, true, false, ◌==◌}
use jay.Base.Bits.{slice, get_bits-slice}
use jay.Types.{Pgn, j1939_pgn_request, j1939_pgn_address_claimed, j1939_pgn_pdu1_max}
use jay.Header.{is_request, is_claim}
use jay.Header.Canary.{Canary}
use jay.Header.Access.{pgn_high}
use jay.Filters.Defs.{Parts, FilterLib, make_address_request_filter, make_address_claim_filter}

module _ (l : FilterLib) where
  -- The parts of a filter for a PGN.
  abbrev parts_for : Pgn → Parts
  parts_for p = record {
    filter_id = p * 2 ^ 8 % 2 ^ 29;
    filter_mask = 0x3FF0000;
    remote = false;
    extended = true;
    negated = false;
  }

  -- What the five setters leave.
  get-setters :
      (p : Pgn)
      → l.get (
          l.negation false (
            l.extended_format true (
              l.remote_transmission false
                (l.id_mask (j1939_pgn_pdu1_max * 2 ^ 8) (l.id (p * 2 ^ 8) l.default)))))
        ≡ parts_for p
  get-setters p =
      l.get-negation false _
      ∙ ap {A = Parts} (λ u. record u { negated = false })
          (l.get-extended_format true _
            ∙ ap {A = Parts} (λ u. record u { extended = true })
                (l.get-remote_transmission false _
                  ∙ ap {A = Parts} (λ u. record u { remote = false })
                      (l.get-id_mask (j1939_pgn_pdu1_max * 2 ^ 8) _
                        ∙ ap {A = Parts} (λ u. record u { filter_mask = 0x3FF0000 })
                            (l.get-id (p * 2 ^ 8) l.default))))

  passes-parts_for :
      (f : l.Filter) (p : Pgn) (x : ℕ)
      → l.get f ≡ parts_for p
      → x < 2 ^ 29
      → l.passes f x ≡ (slice 16 10 x * 2 ^ 16 == bit_and (p * 2 ^ 8 % 2 ^ 29) 0x3FF0000)
  passes-parts_for f p x e fits =
      l.passes-extended f x fits (ap (λ u. u.extended) e) (ap (λ u. u.remote) e)
        (ap (λ u. u.negated) e)
      ∙ ap (λ u. bit_and x u.filter_mask == bit_and u.filter_id u.filter_mask) e
      ∙ ap (λ k. k == bit_and (p * 2 ^ 8 % 2 ^ 29) 0x3FF0000)
          (get_bits-slice 16 10 3 0x3FF0000 x refl (omega arith) (omega arith) (omega arith)
            (omega arith))

  -- Of the extended data frames, the filter for requests lets exactly those through for which
  -- is_request holds, and the filter for claims exactly those for which is_claim holds.
  pub passes-make_filter :
      (c : Canary) (h : c.Raw)
      → (l.passes (make_address_request_filter l) (c.get_id h) ≡ is_request c h)
        × (l.passes (make_address_claim_filter l) (c.get_id h) ≡ is_claim c h)
  unfolding make_address_request_filter make_address_claim_filter is_request is_claim
  passes-make_filter c h = (
    passes-parts_for _ j1939_pgn_request (c.get_id h) (get-setters j1939_pgn_request)
          (c.get_id-lt h)
        ∙ rw (pgn_high c h) (ground arith),
    passes-parts_for _ j1939_pgn_address_claimed (c.get_id h)
          (get-setters j1939_pgn_address_claimed) (c.get_id-lt h)
        ∙ rw (pgn_high c h) (ground arith),
  )
