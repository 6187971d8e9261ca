-- ===== src/Connection/Reading.antt =====
-- What a connection makes of the frames that it reads.
use mathlib.Core.List.{append_assoc, append-nil}
use jay.Base.{
  ℕ, ◌≡◌, refl, ap, sym, ◌∙◌, arith, Bool, true, false, some, List, [], ◌∷◌, ◌++◌, if◌then◌else◌,
  Bool-cases, inl, inr,
}
use jay.Base.Map.{find, set, find-set_self}
use jay.Header.{pgn, source_address}
use jay.Header.Canary.{Canary}
use jay.Frame.{Frame}
use jay.Transport.{
  Tp, Key, Session, Error, aborted, same_key, session_at, handle_abort, handle_cm, on_can_frame,
  pgn_tp_cm,
}
use jay.Transport.Delivery.{same_key-key}
use jay.Connection.Defs.{
  Connection, ConnError, tp_error, is_aborted, on_error, report_all, after_tp,
}
use jay.Connection.Receive.{check_address, process_frame, normal_pgn}

module _ (c : Canary) where
  -- The errors that get through to the user.
  abbrev pub audible : List Error → List ConnError
  audible [] = []
  audible (e ∷ es) = if is_aborted e then audible es else tp_error e ∷ audible es

  on_error_quiet : (e : ConnError) (b : Bool) (x : Connection c) → b ≡ true → on_error c e b x ≡ x
  unfolding on_error
  on_error_quiet e b x h = ground arith

  on_error_loud :
      (e : ConnError) (b : Bool) (x : Connection c)
      → b ≡ false
      → x.has_on_error ≡ true
      → on_error c e b x ≡ record x { errors = x.errors ++ e ∷ [] }
  unfolding on_error
  on_error_loud e b x h heard = ground arith

  errors-report_all :
      (es : List Error) (x : Connection c)
      → x.has_on_error ≡ true
      → (report_all c es x).errors ≡ x.errors ++ audible es
  unfolding report_all on_error
  errors-report_all [] x heard = sym (append-nil x.errors)
  errors-report_all (e ∷ es) x heard = elim (Bool-cases (is_aborted e)) [
    | inl quiet ↦
        ap (λ y. (report_all c es y).errors) (on_error_quiet (tp_error e) (is_aborted e) x quiet)
        ∙ errors-report_all es x heard
        ∙ rw quiet refl
    | inr loud ↦
        ap (λ y. (report_all c es y).errors)
          (on_error_loud (tp_error e) (is_aborted e) x loud heard)
        ∙ errors-report_all es (record x { errors = x.errors ++ tp_error e ∷ [] }) heard
        ∙ append_assoc x.errors (tp_error e ∷ []) (audible es)
        ∙ rw loud refl
  ]

  pub tp-report_all : (es : List Error) (x : Connection c) → (report_all c es x).tp ≡ x.tp
  unfolding report_all on_error
  tp-report_all [] x = refl
  tp-report_all (e ∷ es) x =
      tp-report_all es (on_error c (tp_error e) (is_aborted e) x) ∙ ground arith

  module _ (takes : ℕ → Bool) (f : Frame c) where
    on_can_frame-abort :
        (t : Tp c)
        → pgn c f.header ≡ pgn_tp_cm
        → f.payload.b0 ≡ 0xFF
        → on_can_frame c takes f t ≡ some (handle_abort c takes f t)
    unfolding on_can_frame handle_cm
    on_can_frame-abort t e b = rw (e, b) refl

    pub process_frame-tp :
        (x : Connection c) (t : Tp c)
        → (check_address c f x).1 ≡ true
        → normal_pgn (pgn c f.header) ≡ false
        → on_can_frame c takes f (check_address c f x).0.tp ≡ some t
        → process_frame c takes f x ≡ some (after_tp c t (check_address c f x).0)
    unfolding process_frame
    process_frame-tp x t accepted quiet e = rw (accepted, e, quiet) refl

    check_address-same :
        (x : Connection c)
        → let y = (check_address c f x).0 in
          (y.errors ≡ x.errors) × (y.has_on_error ≡ x.has_on_error) × (y.tp.errors ≡ x.tp.errors)
    unfolding check_address
    check_address-same x = ground arith

    handle_abort_owned :
        (t : Tp c) (s : Session)
        → let key : Key = (t.bus_address, source_address c f.header) in
          session_at c t key ≡ some s
          → t.errors ≡ []
          → ((handle_abort c takes f t).sessions
              ≡ set same_key key (record s { state = aborted }) t.sessions)
            × (audible (handle_abort c takes f t).errors ≡ [])
    unfolding handle_abort
    handle_abort_owned t s owned none_pending =
        (ground (arith, owned), ground (arith, owned, none_pending))

    after_tp-errors :
        (t : Tp c) (x : Connection c)
        → x.has_on_error ≡ true
        → (after_tp c t x).errors ≡ x.errors ++ audible t.errors
    unfolding after_tp
    after_tp-errors t x heard =
        errors-report_all t.errors (record x { tp = record t { errors = [] } }) heard

    after_tp-sessions : (t : Tp c) (x : Connection c) → (after_tp c t x).tp.sessions ≡ t.sessions
    unfolding after_tp
    after_tp-sessions t x =
        ap (λ u. u.sessions) (tp-report_all t.errors (record x { tp = record t { errors = [] } }))

    -- An abort that a connection with an error handler gets for one of its transfers marks the session
    -- as aborted, and nothing is reported: the method on_error drops every error with the code
    -- operation_aborted, which is the code that handle_abort uses. (The frame is an abort that
    -- check_address accepts, and no error of an earlier call is pending.)
    pub process_frame_abort :
        (x : Connection c) (s : Session)
        → pgn c f.header ≡ pgn_tp_cm
        → f.payload.b0 ≡ 0xFF
        → (check_address c f x).1 ≡ true
        → x.has_on_error ≡ true
        → x.tp.errors ≡ []
        → let t = (check_address c f x).0.tp in
          let key : Key = (t.bus_address, source_address c f.header) in
          session_at c t key ≡ some s
          → (y : Connection c) × (process_frame c takes f x ≡ some y)
            × (session_at c y.tp key ≡ some (record s { state = aborted }))
            × (y.errors ≡ x.errors)
    unfolding normal_pgn
    process_frame_abort x s e b accepted heard none_pending owned =
        let x' = (check_address c f x).0 in
        let t = x'.tp in
        let key : Key = (t.bus_address, source_address c f.header) in
        let h = handle_abort c takes f t in
        let same = check_address-same x in
        let done = handle_abort_owned t s owned (same.2 ∙ none_pending) in
        (
          after_tp c h x',
          process_frame-tp x h accepted (rw e refl) (on_can_frame-abort t e b),
          ap (find same_key key) (after_tp-sessions h x' ∙ done.0)
              ∙ find-set_self same_key same_key-key key (record s { state = aborted }) t.sessions,
          after_tp-errors h x' (same.1 ∙ heard) ∙ rw (done.1) (append-nil x'.errors) ∙ same.0,
        )
