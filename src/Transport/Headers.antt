-- ===== src/Transport/Headers.antt =====
-- What the header of a delivered message says, in include/jay/transport_protocol.hpp.
use jay.Base.{
  ℕ, ◌+◌, ◌*◌, ◌/◌, ◌%◌, ◌^◌, ◌<◌, ◌≡◌, ap, ◌∙◌, arith, ◌⊎◌, inl, inr, ltb, if◌then◌else◌,
}
use native.Mathlib.Decide.{dec_lt}
use jay.Types.{Address, Pgn, pf_pdu1_max}
use jay.Header.{
  pgn, source_address, pdu_specific, payload_length, set_payload_length, set_source_address,
  set_pdu_specific, set_pgn, empty_header,
}
use jay.Header.Canary.{Canary}
use jay.Header.Access.{view, view-apply, write, to_pgn, to_pdu_specific, to_source_address}
use jay.Header.Fields.{pgn-eq}
use jay.Header.Parts.{pgn-view, pgn_of}
use jay.Transport.Frames.{view-empty, view-set_payload_length}

-- The PGN that is read back after p was set: its low 18 bits, of which the lowest eight are 0 if the
-- PDU format is at most 239.
abbrev pub kept_pgn : Pgn → Pgn
kept_pgn p = if ltb pf_pdu1_max (p / 2 ^ 8 % 2 ^ 8) then p % 2 ^ 18 else p % 2 ^ 18 / 2 ^ 8 * 2 ^ 8

-- The same after a destination was set, which is read as the low byte of a PGN with a PDU format above
-- 239.
abbrev pub kept_pgn_to : Address → Pgn → Pgn
kept_pgn_to dst p =
    let high = p % 2 ^ 18 / 2 ^ 8 * 2 ^ 8 in
    if ltb pf_pdu1_max (p / 2 ^ 8 % 2 ^ 8) then high + dst else high

module _ (c : Canary) where
  -- The header has the sender's address, this PGN, and the number of bytes if that is at most 255.
  pub record Says (src : Address) (p : Pgn) (bytes : ℕ) (h : c.Raw) : Type 0 where
    pub says_source : source_address c h ≡ src
    pub says_pgn : pgn c h ≡ p
    pub says_length : (255 < bytes) ⊎ (payload_length c h ≡ bytes)

  length-set_payload_length :
      (n : ℕ) (h : c.Raw) → (255 < n) ⊎ (payload_length c (set_payload_length c n h) ≡ n)
  unfolding payload_length set_payload_length
  length-set_payload_length n h = elim (dec_lt n 256) [
    | yes few ↦ inr (c.get_payload_length-set_payload_length n h few)
    | no many ↦ inl (omega arith)
  ]

  -- The header of a broadcast message, and of a message to one node.
  abbrev pub to_all : Address → Pgn → ℕ → c.Raw
  to_all src p n = set_payload_length c n (set_source_address c src (set_pgn c p (empty_header c)))

  abbrev pub to_one : Address → Pgn → ℕ → Address → c.Raw
  to_one src p n dst =
      set_payload_length c n
        (set_pdu_specific c dst (set_source_address c src (set_pgn c p (empty_header c))))

  module _ (src : Address) (p : Pgn) (n : ℕ) (hs : src < 2 ^ 8) (hp : p < 2 ^ 24) where
    view-sender : view c (set_source_address c src (set_pgn c p (empty_header c))) ≡ record {
      prio = 0;
      reserved = p / 2 ^ 17 % 2;
      page = p / 2 ^ 16 % 2;
      pf = p / 2 ^ 8 % 2 ^ 8;
      ps = p % 2 ^ 8;
      sa = src;
    }
    view-sender =
        view-apply c (to_source_address src) _ hs
        ∙ ap (write (to_source_address src))
            (view-apply c (to_pgn p) _ (omega arith) ∙ ap (write (to_pgn p)) (view-empty c))

    pub to_all-Says : Says src (kept_pgn p) n (to_all src p n)
    to_all-Says =
        let v = view-set_payload_length c n _ ∙ view-sender in
        record {
          says_source = ap (λ u. u.sa) v;
          says_pgn = pgn-view c (to_all src p n) ∙ ap pgn_of v ∙ ground arith;
          says_length = length-set_payload_length n _;
        }

    pub to_one-Says :
        (dst : Address)
        → dst < 2 ^ 8
        → Says src (kept_pgn_to dst p) n (to_one src p n dst)
          × (pdu_specific c (to_one src p n dst) ≡ dst)
    to_one-Says dst hd =
        let v =
          view-set_payload_length c n _
          ∙ view-apply c (to_pdu_specific dst) _ hd
          ∙ ap (write (to_pdu_specific dst)) view-sender in
        (
          record {
            says_source = ap (λ u. u.sa) v;
            says_pgn = pgn-view c (to_one src p n dst) ∙ ap pgn_of v ∙ ground arith;
            says_length = length-set_payload_length n _;
          },
          ap (λ u. u.ps) v,
        )

  -- The PGN of a header is kept, by a message to all with its PDU specific byte too.
  pub kept_pgn-pgn : (h : c.Raw) → kept_pgn (pgn c h) ≡ pgn c h
  kept_pgn-pgn h = ground (arith, pgn-eq c h, c.get_id-lt h)

  pub kept_pgn_to-pgn : (h : c.Raw) → kept_pgn_to (pdu_specific c h) (pgn c h) ≡ pgn c h
  unfolding pdu_specific
  kept_pgn_to-pgn h = ground (arith, pgn-eq c h, c.get_id-lt h)
