-- ===== src/Connection/Exchange.antt =====
-- A short message from one connection to another.
use jay.Base.{
  ℕ, ◌^◌, ◌<◌, ◌≤◌, ◌≡◌, ◌≢◌, refl, ap, sym, subst, ◌∙◌, arith, Bool, true, some, List, [], ◌∷◌,
  ◌++◌, length, take, leb,
}
use jay.Types.{Address, Uint8, j1939_idle_addr}
use jay.Name.{Name}
use jay.Header.{pgn, is_broadcast, payload_length, set_source_address}
use jay.Header.Canary.{Canary}
use jay.Header.Access.{view-apply, to_source_address}
use jay.Header.Parts.{pgn-view, pgn_of, is_broadcast-view, is_broadcast_of}
use jay.Frame.{Frame, payload_bytes}
use jay.Transport.{Tp, Data, on_can_frame, byte_at}
use jay.Connection.Defs.{Connection, address_of, after_tp}
use jay.Connection.Send.{short_frame, send, send_raw}
use jay.Connection.Receive.{check_address, process_frame, deliver_frame, normal_pgn}
use jay.Connection.Writing.{addressed, send_frame-ready}
use jay.Connection.Reading.{tp-report_all}

take-bytes :
    (xs : List Uint8)
    → length xs ≤ 8
    → take (length xs) (
        byte_at xs 0
        ∷ byte_at xs 1
        ∷ byte_at xs 2
        ∷ byte_at xs 3
        ∷ byte_at xs 4
        ∷ byte_at xs 5
        ∷ byte_at xs 6
        ∷ byte_at xs 7
        ∷ [])
      ≡ xs
take-bytes ([]) h = refl
take-bytes (a ∷ []) h = refl
take-bytes (a ∷ b ∷ []) h = refl
take-bytes (a ∷ b ∷ c' ∷ []) h = refl
take-bytes (a ∷ b ∷ c' ∷ e ∷ []) h = refl
take-bytes (a ∷ b ∷ c' ∷ e ∷ f ∷ []) h = refl
take-bytes (a ∷ b ∷ c' ∷ e ∷ f ∷ g ∷ []) h = refl
take-bytes (a ∷ b ∷ c' ∷ e ∷ f ∷ g ∷ i ∷ []) h = refl
take-bytes (a ∷ b ∷ c' ∷ e ∷ f ∷ g ∷ i ∷ j ∷ []) h = refl
take-bytes (a ∷ b ∷ c' ∷ e ∷ f ∷ g ∷ i ∷ j ∷ k ∷ l) h = absurd (omega arith)

module _ (c : Canary) where
  -- The frame of a short message holds its bytes, in their order.
  take-short_frame :
      (d : Data c)
      → length d.payload ≤ 8
      → take (length d.payload) (payload_bytes (short_frame c d).payload) ≡ d.payload
  take-short_frame d h = take-bytes d.payload h

  after_source :
      (a : Address) (h : c.Raw)
      → a < 2 ^ 8
      → (pgn c (set_source_address c a h) ≡ pgn c h)
        × (is_broadcast c (set_source_address c a h) ≡ is_broadcast c h)
        × (payload_length c (set_source_address c a h) ≡ payload_length c h)
  unfolding payload_length set_source_address
  after_source a h fits = (
    pgn-view c _ ∙ ap pgn_of (view-apply c (to_source_address a) h fits) ∙ sym (pgn-view c h),
    is_broadcast-view c _
        ∙ ap is_broadcast_of (view-apply c (to_source_address a) h fits)
        ∙ sym (is_broadcast-view c h),
    c.get_payload_length-set_id _ h,
  )

  module _ (takes : ℕ → Bool) where
    on_can_frame-normal :
        (f : Frame c) (t : Tp c)
        → normal_pgn (pgn c f.header) ≡ true
        → on_can_frame c takes f t ≡ some t
    unfolding on_can_frame normal_pgn
    on_can_frame-normal f t h = ground arith

    -- What on_data_ is given of a single frame.
    abbrev pub single : Frame c → Data c
    single f = record {
      header = f.header;
      payload = take (payload_length c f.header) (payload_bytes f.payload);
    }

    abbrev given : Connection c → Frame c → Connection c
    given w f = record w { tp = record (w.tp) { delivered = w.tp.delivered ++ single f ∷ [] } }

    deliver_frame-short :
        (f : Frame c) (w : Connection c)
        → payload_length c f.header ≤ 8
        → w.tp.has_rx_callback ≡ true
        → deliver_frame c f w ≡ some (given w f)
    unfolding deliver_frame
    deliver_frame-short f w short heard = ground arith

    -- The connection between the check of the addresses and the call of on_data_.
    abbrev checked : Frame c → Connection c → Connection c
    checked f y = let y' = (check_address c f y).0 in after_tp c y'.tp y'

    checked-same :
        (f : Frame c) (y : Connection c)
        → ((checked f y).tp.delivered ≡ y.tp.delivered)
          × ((checked f y).tp.has_rx_callback ≡ y.tp.has_rx_callback)
    unfolding check_address after_tp
    checked-same f y =
        let y' = (check_address c f y).0 in
        let kept =
          tp-report_all c y'.tp.errors (record y' { tp = record (y'.tp) { errors = [] } }) in
        (ap (λ t. t.delivered) kept ∙ ground arith, ap (λ t. t.has_rx_callback) kept ∙ ground arith)

    process_frame-normal :
        (f : Frame c) (y : Connection c)
        → (check_address c f y).1 ≡ true
        → normal_pgn (pgn c f.header) ≡ true
        → payload_length c f.header ≤ 8
        → y.tp.has_rx_callback ≡ true
        → process_frame c takes f y ≡ some (given (checked f y) f)
    unfolding process_frame
    process_frame-normal f y accepted normal short heard =
        rw (accepted, on_can_frame-normal f (check_address c f y).0.tp normal, normal)
          (deliver_frame-short f (checked f y) short ((checked-same f y).1 ∙ heard))

    sent :
        (x : Connection c) (own : Name) (d : Data c)
        → x.local_name ≡ some own
        → address_of c x own ≢ j1939_idle_addr
        → length d.payload ≤ 8
        → is_broadcast c d.header ≡ true
        → send c takes d x ≡ some (send_raw c takes (addressed c x own (short_frame c d)) x)
    unfolding send
    sent x own d local src short all =
        let one_frame : leb (length d.payload) 8 ≡ true = ground arith in
        rw one_frame (send_frame-ready c takes x own (short_frame c d) local src (rw all refl))

    -- A connection x with a local name, whose address is not idle, sends a message of at most eight
    -- bytes to all, with a PGN that is none of the protocol's own and a header that says the length of
    -- the message. A connection y with an on_data callback, for which check_address accepts the frame
    -- that x hands to its socket, gives on_data exactly this message, from the address of x. (That
    -- address is an 8-bit number.)
    pub send-process_frame :
        (x y : Connection c) (own : Name) (d : Data c)
        → x.local_name ≡ some own
        → address_of c x own ≢ j1939_idle_addr
        → address_of c x own < 2 ^ 8
        → length d.payload ≤ 8
        → is_broadcast c d.header ≡ true
        → normal_pgn (pgn c d.header) ≡ true
        → payload_length c d.header ≡ length d.payload
        → y.tp.has_rx_callback ≡ true
        → let g = addressed c x own (short_frame c d) in
          (check_address c g y).1 ≡ true
          → (z : Connection c) × (send c takes d x ≡ some (send_raw c takes g x))
            × (process_frame c takes g y ≡ some z)
            × (z.tp.delivered
                ≡ y.tp.delivered
                  ++ record {
                    header = set_source_address c (address_of c x own) d.header;
                    payload = d.payload;
                  }
                    ∷ [])
    send-process_frame x y own d local src fits short all normal says heard accepted =
        let a = address_of c x own in
        let f = short_frame c d in
        let g : Frame c = record f { header = set_source_address c a d.header } in
        let e : addressed c x own f ≡ g = rw all refl in
        let kept = after_source a d.header fits in
        let says' : payload_length c g.header ≡ length d.payload = kept.2 ∙ says in
        let bytes : (single g).payload ≡ d.payload =
          ap (λ n. take n (payload_bytes f.payload)) says' ∙ take-short_frame d short in
        rw e (
          given (checked g y) g,
          sent x own d local src short all ∙ rw e refl,
          process_frame-normal g y (subst (λ g. (check_address c g y).1 ≡ true) e accepted)
              (ap normal_pgn kept.0 ∙ normal) (omega (arith, says')) heard,
          ap (λ ds. ds ++ single g ∷ []) (checked-same g y).0
              ∙ ap (λ p. y.tp.delivered ++ record { header = g.header; payload = p } ∷ []) bytes,
        )
