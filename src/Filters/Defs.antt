-- ===== src/Filters/Defs.antt =====
-- canary::filter, the filter type of the CAN library, as far as jay uses it, and the two filters.
use Prim.Native.Nat.{bit_and}
use jay.Base.{ℕ, ◌*◌, ◌%◌, ◌^◌, ◌<◌, ◌≡◌, Bool, true, false, ◌==◌}
use jay.Types.{j1939_pgn_request, j1939_pgn_address_claimed, j1939_pgn_pdu1_max}

-- What a filter is set to.
pub record Parts : Type 0 where
  pub filter_id : ℕ
  pub filter_mask : ℕ
  pub remote : Bool
  pub extended : Bool
  pub negated : Bool

-- Its values, its setters, and their documented behaviour: each sets its own part, an identifier and
-- a mask have 29 bits, and an extended data frame passes a filter for such frames that is not negated
-- exactly if the bits of its identifier under the mask are those of the filter's.
pub record FilterLib : Type 1 where
  pub Filter : Type 0
  pub default : Filter
  pub id : ℕ → Filter → Filter
  pub id_mask : ℕ → Filter → Filter
  pub remote_transmission : Bool → Filter → Filter
  pub extended_format : Bool → Filter → Filter
  pub negation : Bool → Filter → Filter
  pub passes : Filter → ℕ → Bool
  pub get : Filter → Parts
  pub get-id : (x : ℕ) (f : Filter) → get (id x f) ≡ record (get f) { filter_id = x % 2 ^ 29 }
  pub get-id_mask :
      (x : ℕ) (f : Filter) → get (id_mask x f) ≡ record (get f) { filter_mask = x % 2 ^ 29 }
  pub get-remote_transmission :
      (b : Bool) (f : Filter) → get (remote_transmission b f) ≡ record (get f) { remote = b }
  pub get-extended_format :
      (b : Bool) (f : Filter) → get (extended_format b f) ≡ record (get f) { extended = b }
  pub get-negation : (b : Bool) (f : Filter) → get (negation b f) ≡ record (get f) { negated = b }
  pub passes-extended :
      (f : Filter) (x : ℕ)
      → x < 2 ^ 29
      → (get f).extended ≡ true
      → (get f).remote ≡ false
      → (get f).negated ≡ false
      → passes f x
        ≡ (bit_and x (get f).filter_mask == bit_and (get f).filter_id (get f).filter_mask)

module _ (l : FilterLib) where
  unfoldable pub make_address_request_filter : l.Filter
  make_address_request_filter =
      let f = l.id (j1939_pgn_request * 2 ^ 8) l.default in
      let f = l.id_mask (j1939_pgn_pdu1_max * 2 ^ 8) f in
      let f = l.remote_transmission false f in
      let f = l.extended_format true f in l.negation false f

  unfoldable pub make_address_claim_filter : l.Filter
  make_address_claim_filter =
      let f = l.id (j1939_pgn_address_claimed * 2 ^ 8) l.default in
      let f = l.id_mask (j1939_pgn_pdu1_max * 2 ^ 8) f in
      let f = l.remote_transmission false f in
      let f = l.extended_format true f in l.negation false f
