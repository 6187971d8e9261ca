-- ===== src/Connection/Writing.antt =====
-- What a connection puts on the bus, and when it refuses to.
use jay.Base.{
  ℕ, ◌^◌, ◌<◌, ◌≡◌, ◌≢◌, refl, ap, ◌∙◌, arith, Bool, true, false, not, ◌&&◌, ◌||◌, ◌==◌, none, some,
  [], ◌∷◌, ◌++◌, if◌then◌else◌, Bool-cases, Option-cases, inl, inr,
}
use jay.Types.{Address, j1939_idle_addr, j1939_no_addr}
use jay.Name.{Name}
use jay.Header.{is_broadcast, source_address, payload_length, set_source_address, set_pdu_specific}
use jay.Header.Canary.{Canary}
use jay.Header.Access.{View, view, view-apply, to_source_address, to_pdu_specific}
use jay.Frame.{Frame}
use jay.Network.{get_address, in_network}
use jay.Connection.Defs.{
  Connection, address_of, ConnError, without_source_address, without_target_name,
  destination_without_address,
}
use jay.Connection.Send.{send_raw, send_to, send_frame}

module _ (c : Canary) where
  -- The other end has an address, or needs none.
  abbrev pub reachable : Connection c → Frame c → Bool
  reachable x f = is_broadcast c f.header || elim (x.target_name) [
    | none ↦ false
    | some target ↦ not (address_of c x target == j1939_idle_addr)
  ]

  -- The frame with the addresses of the two ends.
  abbrev pub addressed : Connection c → Name → Frame c → Frame c
  addressed x own f =
      let h = set_source_address c (address_of c x own) f.header in
      record f {
        header = if is_broadcast c f.header then h else elim (x.target_name) [
          | none ↦ h
          | some target ↦ set_pdu_specific c (address_of c x target) h
        ];
      }

  -- The error of a frame that is refused.
  abbrev pub refusal : Connection c → Name → Frame c → ConnError
  refusal x own f =
      if is_broadcast c f.header then without_source_address else elim (x.target_name) [
        | none ↦ without_target_name
        | some target ↦
            if address_of c x own == j1939_idle_addr
            then without_source_address
            else destination_without_address
      ]

  -- The addresses of a frame that a connection sends.
  abbrev pub addressed_view : Connection c → Name → Frame c → View
  addressed_view x own f =
      let v = view c f.header in
      record v {
        sa = address_of c x own;
        ps =
            if is_broadcast c f.header
            then v.ps
            else elim (x.target_name) [ none ↦ v.ps | some target ↦ address_of c x target ];
      }

  view-addressed :
      (x : Connection c) (own : Name) (f : Frame c)
      → ((n : Name) → address_of c x n < 2 ^ 8)
      → view c (addressed x own f).header ≡ addressed_view x own f
  view-addressed x own f fits = elim (Bool-cases (is_broadcast c f.header)) [
    | inl all ↦ rw all (view-apply c (to_source_address src) f.header (fits own))
    | inr one ↦ elim (Option-cases x.target_name) [
      | inl e ↦ ground (arith, one, e, view-apply c (to_source_address src) f.header (fits own))
      | inr (target, e) ↦ ground (
        arith,
        one,
        e,
        view-apply c (to_source_address src) f.header (fits own),
        view-apply c (to_pdu_specific (address_of c x target)) (set_source_address c src f.header)
            (fits target),
      )
    ]
  ]
    where
      src : Address
      src = address_of c x own

  payload_length-addressed :
      (x : Connection c) (own : Name) (f : Frame c)
      → payload_length c (addressed x own f).header ≡ payload_length c f.header
  unfolding payload_length set_source_address set_pdu_specific
  payload_length-addressed x own f = elim (Bool-cases (is_broadcast c f.header)) [
    | inl all ↦ rw all (c.get_payload_length-set_id _ _)
    | inr one ↦ elim (Option-cases x.target_name) [
      | inl e ↦ rw (one, e) (c.get_payload_length-set_id _ _)
      | inr (target, e) ↦
          rw (one, e) (c.get_payload_length-set_id _ _ ∙ c.get_payload_length-set_id _ _)
    ]
  ]

  source_address-addressed :
      (x : Connection c) (own : Name) (f : Frame c)
      → is_broadcast c f.header ≡ true
      → address_of c x own < 2 ^ 8
      → source_address c (addressed x own f).header ≡ address_of c x own
  source_address-addressed x own f all fits =
      rw all (ap (λ v. v.sa) (view-apply c (to_source_address (address_of c x own)) f.header fits))

  address_of-absent :
      (x : Connection c) (own : Name)
      → in_network x.network own ≡ false
      → address_of c x own ≡ j1939_no_addr
  unfolding in_network get_address
  address_of-absent x own absent = ground arith

  module _ (takes : ℕ → Bool) (x : Connection c) (own : Name) (f : Frame c)
      (local : x.local_name ≡ some own) where
    pub send_frame-ready :
        address_of c x own ≢ j1939_idle_addr
        → reachable x f ≡ true
        → send_frame c takes f x ≡ some (send_raw c takes (addressed x own f) x)
    unfolding send_frame send_to
    send_frame-ready src dst = ground (arith, local)

    -- With a local name and an error handler set, `send` of a frame returns. If the local name's
    -- address is not idle, and the frame has a PDU format above 239 or there is a target whose
    -- address is not idle, the frame goes to the socket with the address of the local name as its
    -- source, that of the target as its destination if the PDU format is at most 239, and all other
    -- fields, the payload and its length as they were. Otherwise nothing is sent, and one error is
    -- reported. (Addresses are 8-bit numbers.)
    pub send_frame_lem :
        x.has_on_error ≡ true
        → ((n : Name) → address_of c x n < 2 ^ 8)
        → (send_frame c takes f x
            ≡ some (
                if not (address_of c x own == j1939_idle_addr) && reachable x f
                then send_raw c takes (addressed x own f) x
                else (record x { errors = x.errors ++ refusal x own f ∷ [] }, false)))
          × (view c (addressed x own f).header ≡ addressed_view x own f)
          × ((addressed x own f).payload ≡ f.payload)
          × (payload_length c (addressed x own f).header ≡ payload_length c f.header)
    unfolding send_frame send_to
    send_frame_lem set fits =
        (ground (arith, local), view-addressed x own f fits, refl, payload_length-addressed x own f)

    -- A local name that is not in the network is no obstacle: a frame for all goes to the socket with
    -- the source address 255, on which nobody can answer.
    pub send_frame_unregistered :
        in_network x.network own ≡ false
        → is_broadcast c f.header ≡ true
        → (send_frame c takes f x ≡ some (send_raw c takes (addressed x own f) x))
          × (source_address c (addressed x own f).header ≡ j1939_no_addr)
    unfolding send_frame
    send_frame_unregistered absent all = (
      ground (arith, local, address_of-absent x own absent),
      source_address-addressed x own f all (omega (arith, address_of-absent x own absent))
          ∙ address_of-absent x own absent,
    )
