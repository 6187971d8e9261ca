-- ===== src/Transport/Handshake.antt =====
-- A message of include/jay/transport_protocol.hpp to one node: RTS, CTS, the packets and their end.
pub mod Steps
pub mod Sender
pub mod Receiver
use jay.Base.{
  ℕ, zero, suc, ◌+◌, ◌-◌, ◌*◌, ◌/◌, ◌%◌, ◌^◌, ◌<◌, ◌≤◌, ◌≡◌, ◌≢◌, refl, ap, sym, ◌∙◌, arith, Bool,
  true, false, ◌==◌, ◌⊎◌, inl, inr, Option, none, some, some-injective, List, [], ◌∷◌, ◌++◌, length,
  if◌then◌else◌, leb, ltb,
}
use jay.Base.Map.{find, set, find-set_self}
use jay.Types.{Address, Pgn, Uint8, j1939_no_addr}
use jay.Frame.{Frame}
use jay.Header.{
  pgn as header_pgn, source_address, pdu_specific, is_broadcast, set_payload_length,
  set_source_address, set_pdu_specific, set_pgn, empty_header,
}
use jay.Header.Canary.{Canary}
use jay.Transport.Defs.{
  Session, Tp, Key, pgn_tp_cm, new_session, rx, tx, cts_without_session, rts, cts, eom, same_key,
  session_at, put_session, bus_send, make_cm_frame, fill_tp_payload, response_cts,
}
use jay.Transport.Send.{
  start_tx, tx_session, send_rts, send_bam_start, send_data_packets, keep, Worked,
}
use jay.Transport.Receive.{
  on_can_frame, handle_cm, handle_cts, start_rx_rts, rts_session, delivery, zero_bytes, reject,
}
use jay.Transport.Frames.{
  Reads, make_cm_frame-Reads, make_cm_frame-single, length-fill_tp_payload,
  get_payload_pgn-fill_tp_payload,
}
use jay.Transport.Reassembly.{reassemble, reassemble-buffer, length-zero_bytes}
use jay.Transport.Stream.{dt_frames, closing, send_packets-sent, frames_of}
use jay.Transport.Delivery.{same_key-key, receive_all}
use jay.Transport.Receiving.{Waits, receive_dts}
use jay.Transport.Headers.{Says, kept_pgn_to, to_one, to_one-Says}
use jay.Transport.Handshake.Steps.{rts_frame, cts_frame}
use jay.Transport.Handshake.Sender.{asked, start_tx-rts, on_can_frame-cts, sender}
use jay.Transport.Handshake.Receiver.{started, answered, on_can_frame-rts, Waits-answered}

-- The frame that send_data_packets sends behind the last packet to one node.
abbrev pub end_of : (c : Canary) → Session → Frame c
end_of c s =
    let f = fill_tp_payload c s (make_cm_frame c eom s.src_sa s.dest_sa) in
    record f { payload = record (f.payload) { b4 = 0xFF } }

pub closing-single : (c : Canary) (s : Session) → s.is_bam ≡ false → closing c s ≡ end_of c s ∷ []
unfolding closing
closing-single c s e = ap (λ b. if b then [] else end_of c s ∷ []) e

source_address-end_of :
    (c : Canary) (s : Session)
    → s.src_sa < 2 ^ 8
    → s.dest_sa < 2 ^ 8
    → source_address c (end_of c s).header ≡ s.dest_sa
unfolding fill_tp_payload
source_address-end_of c s hs hd = (make_cm_frame-Reads c s.src_sa s.dest_sa hs hd eom).reads_src

pub cts_frame-Reads :
    (c : Canary) (takes : ℕ → Bool) (all : (i : ℕ) → takes i ≡ true) (s : Session)
    → s.src_sa < 2 ^ 8
    → s.dest_sa < 2 ^ 8
    → Reads c (cts_frame c takes all s) pgn_tp_cm s.src_sa s.dest_sa
unfolding fill_tp_payload
cts_frame-Reads c takes all s hs hd =
    let r = make_cm_frame-Reads c s.src_sa s.dest_sa hs hd cts in
    record { reads_pgn = r.reads_pgn; reads_dst = r.reads_dst; reads_src = r.reads_src }

-- A transfer between two nodes on buses that take every frame: an RTS, a CTS, the packets and the
-- frame with which the sender ends it, what each node has after each step, and what is delivered.
pub record Transfer (c : Canary) (takes takes' : ℕ → Bool) (bytes : List Uint8) (pgn : Pgn)
    (t r : Tp c) : Type 0 where
  pub asked_node : Tp c
  pub answered_node : Tp c
  pub sender_node : Tp c
  pub receiver_node : Tp c
  pub asking : Frame c
  pub answer : Frame c
  pub packets : List (Frame c)
  pub end_frame : Frame c
  pub asks : start_tx c takes bytes r.bus_address pgn t ≡ some (asked_node, true)
  pub asks_sent : asked_node.sent ≡ t.sent ++ asking ∷ []
  pub answers : on_can_frame c takes' asking r ≡ some answered_node
  pub answers_sent : answered_node.sent ≡ r.sent ++ answer ∷ []
  pub sends : on_can_frame c takes answer asked_node ≡ some sender_node
  pub sends_sent : sender_node.sent ≡ asked_node.sent ++ (packets ++ end_frame ∷ [])
  pub receives : receive_all c takes' packets answered_node ≡ some receiver_node
  pub delivers :
      receiver_node.delivered
      ≡ r.delivered
        ++ record {
          header = to_one c t.bus_address pgn (length bytes) r.bus_address;
          payload = bytes;
        }
          ∷ []
  pub says :
      Says c t.bus_address
        (kept_pgn_to r.bus_address pgn)
        (length bytes)
        (to_one c t.bus_address pgn (length bytes) r.bus_address)
  pub goes_to :
      pdu_specific c (to_one c t.bus_address pgn (length bytes) r.bus_address) ≡ r.bus_address
  pub ends_as_receiver : source_address c end_frame.header ≡ r.bus_address

-- Between two nodes on buses that take every frame, a message of more than 8 and at most 1778 bytes
-- with a PGN below 2 ^ 24 gets through: start_tx of one to the address of the other, which is not
-- 255 and has an rx callback, returns true and sends an RTS, the other answers this with a CTS, the
-- CTS makes the first send all the packets, and with these the other has one more delivered message,
-- the same bytes under the header that handle_dt makes. Read back, this header has both
-- addresses; its PGN is the low 18 bits of the PGN, with the low byte replaced, by the receiver's
-- address if the PDU format is above 239 and by 0 if not; its length is the number of bytes if that is
-- at most 255. The frame with which the sender ends the transfer has the receiver's address as its
-- source. (Both addresses are 8-bit numbers.)
pub start_tx-Transfer :
    (c : Canary) (takes takes' : ℕ → Bool) (all : (i : ℕ) → takes i ≡ true)
    (all' : (i : ℕ) → takes' i ≡ true) (bytes : List Uint8) (pgn : Pgn) (t r : Tp c)
    → 8 < length bytes
    → length bytes ≤ 1778
    → pgn < 2 ^ 24
    → t.bus_address < 2 ^ 8
    → r.bus_address < 2 ^ 8
    → r.bus_address ≢ 0xFF
    → r.has_rx_callback ≡ true
    → Transfer c takes takes' bytes pgn t r
unfolding delivery put_session fill_tp_payload make_cm_frame
start_tx-Transfer c takes takes' all all' bytes pgn t r low high hp hs hd one heard =
    let b = r.bus_address in
    let from = sender c takes all bytes b pgn t low high one in
    let s = started c takes' all' from t.bus_address b hs hd refl refl (omega arith) hp r in
    let (sender_node, sends, sends_sent) =
      on_can_frame-cts c takes all bytes b pgn t low high one hd hs (cts_frame c takes' all' s)
        (cts_frame-Reads c takes' all' s hs hd) refl refl refl in
    let w =
      Waits-answered c takes' all' from t.bus_address b hs hd refl refl (omega arith) hp r heard
        (omega arith) refl (omega arith) in
    let (receiver_node, receives, delivers) =
      receive_dts c takes' t.bus_address hs from b hd refl refl (from.total_packets - 1) 1 _ _ w
        (omega arith) in
    let buffer-eq : reassemble (suc (from.total_packets - 1)) from 1 (zero_bytes from.length)
        ≡ bytes =
      reassemble-buffer from (omega arith) (omega arith) (omega arith) in
    let single : from.is_bam ≡ false = ground (arith, one) in
    record {
      asked_node = asked c takes all bytes b pgn t low high one;
      answered_node =
          answered c takes' all' from t.bus_address b hs hd refl refl (omega arith) hp r;
      sender_node = sender_node;
      receiver_node = receiver_node;
      asking = rts_frame c takes all from;
      answer = cts_frame c takes' all' s;
      packets = dt_frames c (suc (from.total_packets - 1)) from 1;
      end_frame = end_of c from;
      asks = start_tx-rts c takes all bytes b pgn t low high one;
      asks_sent = refl;
      answers =
          on_can_frame-rts c takes' all' from t.bus_address b hs hd refl refl (omega arith) hp r
            refl;
      answers_sent = refl;
      sends = sends;
      sends_sent =
          sends_sent
          ∙ ap
              (λ k.
                (t.sent ++ rts_frame c takes all from ∷ [])
                ++ (dt_frames c k from 1 ++ closing c from))
              (omega arith)
          ∙ ap
              (λ fs.
                (t.sent ++ rts_frame c takes all from ∷ [])
                ++ (dt_frames c (suc (from.total_packets - 1)) from 1 ++ fs))
              (closing-single c from single);
      receives = receives;
      delivers =
          delivers
          ∙ ap
              (λ x.
                r.delivered
                ++ record { header = to_one c t.bus_address pgn (length x) b; payload = x } ∷ [])
              buffer-eq;
      says = (to_one-Says c t.bus_address pgn (length bytes) hs hp b hd).0;
      goes_to = (to_one-Says c t.bus_address pgn (length bytes) hs hp b hd).1;
      ends_as_receiver = source_address-end_of c from hs hd;
    }
