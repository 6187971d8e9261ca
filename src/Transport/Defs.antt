-- ===== src/Transport/Defs.antt =====
-- Sessions, the state of a transport_protocol and the frames that it makes. A function that reaches
-- undefined behaviour of C++ (an access outside a buffer, a division by zero) gives `none`.
use Prim.Native.Nat.{bit_or}
use jay.Base.{
  ℕ, suc, ◌*◌, ◌/◌, ◌%◌, ◌^◌, Bool, true, false, Option, List, [], ◌∷◌, ◌++◌, ◌&&◌, ◌==◌,
  if◌then◌else◌,
}
use jay.Base.Map.{find, set}
use jay.Types.{Address, Pgn, Uint8}
use jay.Frame.{Frame, empty_frame, zeros}
use jay.Header.{set_pgn, set_pdu_specific, set_source_address, set_payload_length}
use jay.Header.Canary.{Canary}

abbrev pub pgn_tp_cm : Pgn
pgn_tp_cm = 0x00EC00

abbrev pub pgn_tp_dt : Pgn
pgn_tp_dt = 0x00EB00

-- T2, T3 and SessionCleanTimeout in nanoseconds, the unit of the clock.
abbrev pub t2 : ℕ
t2 = 1250000000

abbrev pub t3 : ℕ
t3 = 1250000000

abbrev pub session_clean_timeout : ℕ
session_clean_timeout = 600000000000

pub data Control : Type 0 where
  rts cts eom bam abort : Control

-- to_byte
abbrev pub to_byte : Control → Uint8
to_byte rts = 0x10
to_byte cts = 0x11
to_byte eom = 0x13
to_byte bam = 0x20
to_byte abort = 0xFF

pub data AbortCode : Type 0 where
  already_in_session resources_busy timeout cts_while_dt max_retransmit unexpected_packet :
      AbortCode
  bad_sequence duplicate_seq length_exceeded unspecified : AbortCode

abbrev pub abort_byte : AbortCode → Uint8
abort_byte already_in_session = 1
abort_byte resources_busy = 2
abort_byte timeout = 3
abort_byte cts_while_dt = 4
abort_byte max_retransmit = 5
abort_byte unexpected_packet = 6
abort_byte bad_sequence = 7
abort_byte duplicate_seq = 8
abort_byte length_exceeded = 9
abort_byte unspecified = 250

pub data Direction : Type 0 where
  tx rx : Direction

pub data SessionState : Type 0 where
  in_progress completed aborted : SessionState

-- struct TpSession
pub record Session : Type 0 where
  pub dir : Direction
  pub buffer : List Uint8
  pub total_packets : Uint8
  pub next_seq : Uint8
  pub length : ℕ
  pub window_size : Uint8
  pub dest_sa : Address
  pub src_sa : Address
  pub pgn : Pgn
  pub is_bam : Bool
  pub last_activity : ℕ
  pub state : SessionState

abbrev pub new_session : Session
new_session = record {
  dir = tx;
  buffer = [];
  total_packets = 0;
  next_seq = 1;
  length = 0;
  window_size = 0xFF;
  dest_sa = 0;
  src_sa = 0;
  pgn = 0;
  is_bam = false;
  last_activity = 0;
  state = in_progress;
}

-- The calls of report_error, by their text.
pub data Error : Type 0 where
  payload_too_large tp_send_bam tp_send_rts tp_send_dt tp_send_eom tp_timeout : Error
  cts_without_session dt_without_session eom_without_session : Error
  dt_bad_sequence dt_duplicate_sequence dt_unexpected_sequence : Error
  remote_abort : Uint8 → Error

-- Key = std::tuple<address_t, address_t>, source and destination.
abbrev pub Key : Type 0
Key = Address × Address

unfoldable pub same_key : Key → Key → Bool
same_key (s, d) (s', d') = (s == s') && (d == d')

module _ (c : Canary) where
  -- struct data of include/jay/data.hpp.
  pub record Data : Type 0 where
    pub header : c.Raw
    pub payload : List Uint8

  -- The state with what it has given to the outside: the frames that the bus took, in order, the
  -- errors that were reported, and the messages that were delivered. `clock` is the time of the
  -- steady clock, which stands still while a handler runs.
  pub record Tp : Type 0 where
    pub sessions : List (Key × Session)
    pub bus_address : Address
    pub clock : ℕ
    pub sends : ℕ
    pub sent : List (Frame c)
    pub errors : List Error
    pub delivered : List Data
    pub has_error_callback : Bool
    pub has_rx_callback : Bool

module _ (c : Canary) where
  abbrev pub session_at : Tp c → Key → Option Session
  session_at t k = find same_key k t.sessions

  -- sessions_[key] = s
  unfoldable pub put_session : Key → Session → Tp c → Tp c
  put_session k s t = record t { sessions = set same_key k s t.sessions }

  unfoldable pub report_error : Error → Tp c → Tp c
  report_error e t = if t.has_error_callback then record t { errors = t.errors ++ e ∷ [] } else t

  -- bus_.send: whether the bus takes the frame of the n-th call is up to the bus.
  unfoldable pub bus_send : (ℕ → Bool) → Frame c → Tp c → Tp c × Bool
  bus_send takes f t =
      if takes t.sends
      then (record t { sends = suc t.sends; sent = t.sent ++ f ∷ [] }, true)
      else (record t { sends = suc t.sends }, false)

  unfoldable pub make_base_frame : Pgn → Address → Address → Frame c
  unfolding empty_frame set_pgn set_pdu_specific set_source_address set_payload_length
  make_base_frame pgn dst src = record {
    header =
        set_payload_length c 8 (
          set_source_address c src (set_pdu_specific c dst (set_pgn c pgn (empty_frame c).header)));
    payload = zeros;
  }

  unfoldable pub make_cm_frame : Control → Address → Address → Frame c
  unfolding make_base_frame
  make_cm_frame ctrl dst_sa src_sa =
      let f = make_base_frame pgn_tp_cm dst_sa src_sa in
      record f { payload = record zeros { b0 = to_byte ctrl } }

  unfoldable pub make_dt_frame : Session → Frame c
  unfolding make_base_frame
  make_dt_frame s = make_base_frame pgn_tp_dt s.dest_sa s.src_sa

  -- fr.payload[5] | (fr.payload[6] << 8) | (fr.payload[7] << 16)
  unfoldable pub get_payload_pgn : Frame c → Pgn
  get_payload_pgn f = bit_or (bit_or f.payload.b5 (f.payload.b6 * 2 ^ 8)) (f.payload.b7 * 2 ^ 16)

  unfoldable pub fill_tp_payload : Session → Frame c → Frame c
  fill_tp_payload s f = record f {
    payload = record (f.payload) {
      b1 = s.length % 2 ^ 8;
      b2 = s.length / 2 ^ 8;
      b3 = s.total_packets;
      b4 = s.window_size;
      b5 = s.pgn % 2 ^ 8;
      b6 = s.pgn / 2 ^ 8 % 2 ^ 8;
      b7 = s.pgn / 2 ^ 16 % 2 ^ 8;
    };
  }

  -- send_abort; no caller looks at its result.
  unfoldable pub send_abort : (ℕ → Bool) → Session → AbortCode → Tp c → Tp c
  unfolding bus_send make_cm_frame fill_tp_payload
  send_abort takes s code t =
      let f = fill_tp_payload s (make_cm_frame abort s.src_sa s.dest_sa) in
      let f = record f {
        payload = record (f.payload) { b1 = abort_byte code; b2 = 0; b3 = 0; b4 = 0 };
      } in
      (bus_send takes f t).0

  unfoldable pub send_eom_ack : (ℕ → Bool) → Session → Tp c → Tp c × Bool
  unfolding bus_send make_cm_frame fill_tp_payload report_error
  send_eom_ack takes s t =
      if s.is_bam
      then (t, true)
      else (let f = fill_tp_payload s (make_cm_frame eom s.src_sa s.dest_sa) in
          let f = record f { payload = record (f.payload) { b4 = 0xFF } } in
          let (t', ok) = bus_send takes f t in
          if ok then (t', true) else (report_error tp_send_eom t', false))

  unfoldable pub response_cts : (ℕ → Bool) → Session → Tp c → Tp c
  unfolding bus_send make_cm_frame fill_tp_payload
  response_cts takes s t =
      let f = fill_tp_payload s (make_cm_frame cts s.src_sa s.dest_sa) in
      let f = record f {
        payload = record (f.payload) { b1 = s.window_size; b2 = s.next_seq; b3 = 0; b4 = 0 };
      } in
      (bus_send takes f t).0
