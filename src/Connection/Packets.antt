-- ===== src/Connection/Packets.antt =====
-- How a connection reads the frames of a long message.
use jay.Base.{
  ℕ, ◌≡◌, refl, ap, ◌∙◌, arith, Bool, true, false, ◌&&◌, Option, none, some, List, [], ◌∷◌, ◌++◌,
}
use jay.Name.{Name}
use jay.Header.{pgn}
use jay.Header.Canary.{Canary}
use jay.Frame.{Frame}
use jay.Transport.{Tp, Error, on_can_frame}
use jay.Connection.Defs.{
  Connection, address_of, after_tp, report_all, on_error, tp_error, is_aborted,
}
use jay.Connection.Receive.{check_address, normal_pgn, frame, on_received, process_frame}
use jay.Connection.Addressing.{from_target, for_local, check_address_lem}
use jay.Connection.Reading.{process_frame-tp, tp-report_all}

module _ (c : Canary) where
  -- The transport protocol when a frame gets to it.
  abbrev pub ready : Connection c → Tp c
  ready y = elim (y.local_name) [
    | none ↦ y.tp
    | some own ↦ record (y.tp) { bus_address = address_of c y own }
  ]

  pub ready-same :
      (y : Connection c)
      → ((ready y).sessions ≡ y.tp.sessions)
        × ((ready y).delivered ≡ y.tp.delivered)
        × ((ready y).has_rx_callback ≡ y.tp.has_rx_callback)
        × ((ready y).errors ≡ y.tp.errors)
        × ((ready y).sent ≡ y.tp.sent)
  ready-same y = ground arith

  pub ready-named :
      (y : Connection c) (own : Name)
      → y.local_name ≡ some own
      → ready y ≡ record (y.tp) { bus_address = address_of c y own }
  ready-named y own local = ground (arith, local)

  abbrev pub admits : Connection c → Frame c → Bool
  admits y f = from_target c y f && for_local c y f

  -- What a read leaves alone: the network, the names and the callback.
  abbrev pub Same : Connection c → Connection c → Type 0
  Same y z =
      (z.network ≡ y.network)
      × (z.local_name ≡ y.local_name)
      × (z.target_name ≡ y.target_name)
      × (z.has_on_read ≡ y.has_on_read)

  pub admits-Same : (y z : Connection c) (f : Frame c) → Same y z → admits z f ≡ admits y f
  admits-Same y z f (net, own, target, heard) = rw (net, own, target) refl

  check_address-ready :
      (f : Frame c) (y : Connection c) → (check_address c f y).0 ≡ record y { tp = ready y }
  check_address-ready f y = (check_address_lem c f y).1 ∙ ground arith

  pub report_all-Same : (es : List Error) (x : Connection c) → Same x (report_all c es x)
  unfolding report_all on_error
  report_all-Same [] x = (refl, refl, refl, refl)
  report_all-Same (e ∷ es) x =
      let (net, own, target, heard) =
        report_all-Same es (on_error c (tp_error e) (is_aborted e) x) in
      (net ∙ ground arith, own ∙ ground arith, target ∙ ground arith, heard ∙ ground arith)

  module _ (takes : ℕ → Bool) where
    on_received-heard :
        (f : Frame c) (y : Connection c)
        → y.has_on_read ≡ true
        → on_received c takes (frame f) y
          ≡ process_frame c takes f (record y { read = y.read ++ f ∷ [] })
    unfolding on_received
    on_received-heard f y heard = ground arith

    -- A frame of the transport protocol that the connection takes for its own.
    pub on_received-tp :
        (f : Frame c) (y : Connection c) (t : Tp c)
        → y.has_on_read ≡ true
        → admits y f ≡ true
        → normal_pgn (pgn c f.header) ≡ false
        → on_can_frame c takes f (ready y) ≡ some t
        → (z : Connection c) × (on_received c takes (frame f) y ≡ some z)
          × (z.tp ≡ record t { errors = [] })
          × Same y z
    unfolding after_tp
    on_received-tp f y t heard own quiet e =
        let y' : Connection c = record y { read = y.read ++ f ∷ [] } in
        let checked = check_address-ready f y' in
        let lem = check_address_lem c f y' in
        (
          after_tp c t (record y' { tp = ready y' }),
          on_received-heard f y heard
              ∙ process_frame-tp c takes f y' t (lem.0 ∙ own) quiet
                  (ap (λ x. on_can_frame c takes f x.tp) checked ∙ e)
              ∙ ap (λ x. some (after_tp c t x)) checked,
          tp-report_all c t.errors _,
          report_all-Same t.errors _,
        )

    -- A frame that the connection does not take for its own.
    on_received-other :
        (f : Frame c) (y : Connection c)
        → y.has_on_read ≡ true
        → admits y f ≡ false
        → (z : Connection c) × (on_received c takes (frame f) y ≡ some z)
          × (z.tp ≡ ready y)
          × Same y z
    unfolding process_frame
    on_received-other f y heard other =
        let y' : Connection c = record y { read = y.read ++ f ∷ [] } in
        (
          record y' { tp = ready y' },
          on_received-heard f y heard
              ∙ rw ((check_address_lem c f y').0 ∙ other) (ap some (check_address-ready f y')),
          refl,
          (refl, refl, refl, refl),
        )

    -- The frames of a bus, one after the other.
    unfoldable pub read_all : List (Frame c) → Connection c → Option (Connection c)
    unfolding on_received
    read_all [] y = some y
    read_all (f ∷ fs) y = elim (on_received c takes (frame f) y) [
      | none ↦ none
      | some z ↦ read_all fs z
    ]

    pub read_all-step :
        (f : Frame c) (fs : List (Frame c)) (y z : Connection c)
        → on_received c takes (frame f) y ≡ some z
        → read_all (f ∷ fs) y ≡ read_all fs z
    unfolding read_all
    read_all-step f fs y z e = ap (λ x. elim x [ none ↦ none | some u ↦ read_all fs u ]) e

    -- None of the frames is for the connection.
    abbrev pub Strange : Connection c → List (Frame c) → Type 0
    Strange y [] = Unit
    Strange y (f ∷ fs) = (admits y f ≡ false) × Strange y fs

    Strange-Same :
        (fs : List (Frame c)) (y z : Connection c) → Same y z → Strange y fs → Strange z fs
    Strange-Same [] y z same k = k
    Strange-Same (f ∷ fs) y z same k = (admits-Same y z f same ∙ k.0, Strange-Same fs y z same k.1)

    pub read_all-other :
        (fs : List (Frame c)) (y : Connection c)
        → y.has_on_read ≡ true
        → Strange y fs
        → (z : Connection c) × (read_all fs y ≡ some z)
          × (z.tp.delivered ≡ y.tp.delivered)
          × (z.tp.sessions ≡ y.tp.sessions)
          × (z.tp.sent ≡ y.tp.sent)
    unfolding read_all
    read_all-other [] y heard k = (y, refl, refl, refl, refl)
    read_all-other (f ∷ fs) y heard k =
        let (z, e, tp, same) = on_received-other f y heard k.0 in
        let (end, run, got, kept, quiet) =
          read_all-other fs z (same.3 ∙ heard) (Strange-Same fs y z same k.1) in
        let r = ready-same y in
        (
          end,
          read_all-step f fs y z e ∙ run,
          got ∙ ap (λ t. t.delivered) tp ∙ r.1,
          kept ∙ ap (λ t. t.sessions) tp ∙ r.0,
          quiet ∙ ap (λ t. t.sent) tp ∙ r.4,
        )
