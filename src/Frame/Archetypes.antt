-- ===== src/Frame/Archetypes.antt =====
-- A receiver reads back from the frames of address claiming what the sender put in.
use jay.Base.{ℕ, ◌^◌, ◌<◌, ◌≡◌, refl, ap, ◌∙◌, arith, Bool, true, false, ◌&&◌, ◌==◌}
use jay.Types.{Address, pf_request, pf_address_claim, j1939_no_addr, j1939_idle_addr}
use jay.Name.{Name, from_payload, from_payload-to_payload}
use jay.Header.{from_parts, is_request, is_claim, source_address, pdu_specific}
use jay.Header.Canary.{Canary}
use jay.Header.Fields.{id-from_parts}
use jay.Header.Access.{View, View-path, view, view_of, view-id, is_request-is_claim}
use jay.Frame.Defs.{make_address_request, make_address_claim, make_cannot_claim}

abbrev request_test : View → Bool
request_test u = (u.pf == pf_request) && ((u.page == 0) && (u.reserved == 0))

abbrev claim_test : View → Bool
claim_test u = (u.pf == pf_address_claim) && ((u.page == 0) && (u.reserved == 0))

module _ (c : Canary) where
  view-from_parts :
      (pf ps : ℕ) (a : Address) (l : ℕ)
      → pf < 2 ^ 8
      → ps < 2 ^ 8
      → a < 2 ^ 8
      → view c (from_parts c 6 false pf ps a l)
        ≡ record { prio = 6; reserved = 0; page = 0; pf = pf; ps = ps; sa = a }
  view-from_parts pf ps a l hf hs ha =
      view-id c _
      ∙ ap (view_of) (id-from_parts c 6 false pf ps a l (omega arith) hf hs ha)
      ∙ View-path (omega arith)

  -- The address claim of a 64-bit name and an 8-bit address is recognised as one and not as a request,
  -- comes from the address that is claimed, goes to all, and its payload is read as the name.
  pub make_address_claim_lem :
      (n : Name) (a : Address)
      → n < 2 ^ 64
      → a < 2 ^ 8
      → let f = make_address_claim c n a in
        (is_claim c f.header ≡ true)
        × (is_request c f.header ≡ false)
        × (source_address c f.header ≡ a)
        × (pdu_specific c f.header ≡ j1939_no_addr)
        × (from_payload f.payload ≡ n)
  unfolding make_address_claim
  make_address_claim_lem n a hn ha =
      let e = view-from_parts pf_address_claim j1939_no_addr a 8 (omega arith) (omega arith) ha in
      let kind = is_request-is_claim c (from_parts c 6 false pf_address_claim j1939_no_addr a 8) in
      (
        kind.1 ∙ ap claim_test e,
        kind.0 ∙ ap request_test e,
        ap (λ u. u.sa) e,
        ap (λ u. u.ps) e,
        from_payload-to_payload n hn,
      )

  -- The request for an 8-bit address is recognised as one and not as a claim, comes from the idle
  -- address, and names the address that is asked.
  pub make_address_request_lem :
      (ps : Address)
      → ps < 2 ^ 8
      → let f = make_address_request c ps in
        (is_request c f.header ≡ true)
        × (is_claim c f.header ≡ false)
        × (source_address c f.header ≡ j1939_idle_addr)
        × (pdu_specific c f.header ≡ ps)
  unfolding make_address_request
  make_address_request_lem ps hs =
      let e = view-from_parts pf_request ps j1939_idle_addr 3 (omega arith) hs (omega arith) in
      let kind = is_request-is_claim c (from_parts c 6 false pf_request ps j1939_idle_addr 3) in
      (kind.0 ∙ ap request_test e, kind.1 ∙ ap claim_test e, ap (λ u. u.sa) e, ap (λ u. u.ps) e)

  -- "Cannot claim" is the claim of the idle address.
  pub make_cannot_claim_lem :
      (n : Name) → make_cannot_claim c n ≡ make_address_claim c n j1939_idle_addr
  unfolding make_cannot_claim make_address_claim
  make_cannot_claim_lem n = refl
