-- ===== src/Transport/Safety/Goes.antt =====
-- How a handler of include/jay/transport_protocol.hpp keeps the sessions safe, branch by branch.

use jay.Base.{ℕ, ◌≡◌, refl, ap, ◌∙◌, arith, Bool, true, false, Option, none, some, if◌then◌else◌}
use jay.Frame.{Frame}
use jay.Header.Canary.{Canary}
use jay.Transport.Defs.{Session, Tp, Key, put_session, unexpected_packet}
use jay.Transport.Receive.{reject, deliver}
use jay.Transport.Safety.State.{
  Keeps, Keeps-refl, safe-Keeps, report_error-Keeps, send_abort-Keeps, safe-put_session, safe,
  is_safe,
}

module _ (c : Canary) (takes : ℕ → Bool) where
  -- A handler that gives a safe state.
  pub record Goes (t : Tp c) (x : Option (Tp c)) : Type 0 where
    pub after : Tp c
    pub goes : x ≡ some after
    pub stays_safe : safe c after ≡ true
    pub same_address : after.bus_address ≡ t.bus_address

  pub Goes-Keeps :
      (t t' t'' : Tp c)
      → t'.bus_address ≡ t.bus_address
      → safe c t' ≡ true
      → Keeps c takes t' t''
      → Goes t (some t'')
  Goes-Keeps t t' t'' e h k = record {
    after = t'';
    goes = refl;
    stays_safe = safe-Keeps c takes t' t'' k h;
    same_address = k.address_eq ∙ e;
  }

  pub reject-Goes :
      (d : _) (e : _) (f : Frame c) (t : Tp c)
      → safe c t ≡ true
      → Goes t (some (reject c takes d e f t))
  reject-Goes d e f t h = Goes-Keeps t t _ refl h (
      report_error-Keeps c takes t _ e
        (send_abort-Keeps c takes t t _ unexpected_packet (Keeps-refl c takes t)))

  pub Goes-if :
      (t : Tp c) (b : Bool) {x y : Option (Tp c)}
      → (b ≡ true → Goes t x)
      → (b ≡ false → Goes t y)
      → Goes t (if b then x else y)
  Goes-if t true h k = h refl
  Goes-if t false h k = k refl

  pub Goes-if_total :
      (t : Tp c) (b : Bool) {x y : Tp c}
      → Goes t (some x)
      → Goes t (some y)
      → Goes t (some (if b then x else y))
  Goes-if_total t true h k = h
  Goes-if_total t false h k = k

  -- A handler that puts a safe session, and only sends and reports before and after that.
  pub Goes-put_session :
      (key : Key) (s : Session) (t t' t'' : Tp c)
      → safe c t ≡ true
      → is_safe t.bus_address (key, s) ≡ true
      → Keeps c takes t t'
      → Keeps c takes (put_session c key s t') t''
      → Goes t (some t'')
  unfolding put_session
  Goes-put_session key s t t' t'' h e k k' =
      Goes-Keeps t (put_session c key s t') t'' k.address_eq
        (safe-put_session c takes key s t' (safe-Keeps c takes t t' k h)
          (ap (λ a. is_safe a (key, s)) k.address_eq ∙ e))
        k'

  pub deliver-Keeps : (s : Session) (t : Tp c) → Keeps c takes t (deliver c takes s t)
  deliver-Keeps s t = record { sessions_eq = ground arith; address_eq = ground arith }

  pub Goes-found :
      (t : Tp c) (x : Option Session) {a : Option (Tp c)} {b : Session → Option (Tp c)}
      → Goes t a
      → ((s : Session) → x ≡ some s → Goes t (b s))
      → Goes t (elim x [ none ↦ a | some s ↦ b s ])
  Goes-found t none h k = h
  Goes-found t (some s) h k = k s refl

  pub Goes-found_total :
      (t : Tp c) (x : Option Session) {a : Tp c} {b : Session → Tp c}
      → Goes t (some a)
      → ((s : Session) → x ≡ some s → Goes t (some (b s)))
      → Goes t (some (elim x [ none ↦ a | some s ↦ b s ]))
  Goes-found_total t none h k = h
  Goes-found_total t (some s) h k = k s refl
