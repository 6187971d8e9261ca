-- ===== src/Connection/Receive.antt =====
-- What `j1939_connection` does with a frame that it reads.
use jay.Base.{
  ℕ, Bool, true, false, not, ◌&&◌, ◌||◌, ◌==◌, ltb, if◌then◌else◌, Option, none, some, [], ◌∷◌,
  ◌++◌, take,
}
use jay.Types.{Pgn, j1939_pgn_request, j1939_pgn_address_claimed, j1939_pgn_address_commanded}
use jay.Name.{Name}
use jay.Header.{pgn, source_address, pdu_specific, payload_length, is_broadcast}
use jay.Header.Canary.{Canary}
use jay.Frame.{Frame, payload_bytes}
use jay.Network.{get_address}
use jay.Transport.{Data, on_can_frame, pgn_tp_cm, pgn_tp_dt}
use jay.Connection.Defs.{Connection, address_of, after_tp, on_error, read_failed, set_bus_address}

unfoldable pub normal_pgn : Pgn → Bool
normal_pgn p =
    not (p == pgn_tp_cm)
    && (not (p == pgn_tp_dt)
        && (not (p == j1939_pgn_request)
            && (not (p == j1939_pgn_address_claimed) && not (p == j1939_pgn_address_commanded))))

-- What async_receive ends with: a frame, or an error, which may be operation_aborted.
pub data Received (c : Canary) : Type 0 where
  frame : Frame c → Received c
  failed : Bool → Received c

module _ (c : Canary) where
  -- check_address() of the frame in the buffer.
  abbrev pub sent_by : Connection c → Name → Frame c → Bool
  sent_by x n f = address_of c x n == source_address c f.header

  abbrev pub sent_to : Connection c → Name → Frame c → Bool
  sent_to x n f = address_of c x n == pdu_specific c f.header

  unfoldable pub accepts : Option Name → Option Name → Connection c → Frame c → Bool
  unfolding get_address source_address pdu_specific is_broadcast
  accepts none none x f = true
  accepts (some target) none x f = sent_by x target f
  accepts none (some own) x f = is_broadcast c f.header || sent_to x own f
  accepts (some target) (some own) x f =
      if is_broadcast c f.header then sent_by x target f else sent_by x target f && sent_to x own f

  unfoldable pub check_address : Frame c → Connection c → Connection c × Bool
  unfolding accepts
  check_address f x = elim (x.local_name) [
    | none ↦ (x, accepts x.target_name none x f)
    | some own ↦
        let x' = set_bus_address c (address_of c x own) x in
        (x', accepts x.target_name (some own) x' f)
  ]

  -- The message of a single frame, and on_data_ with it. For a frame of length 0, `&d.payload[0]` is
  -- taken for a pointer through which nothing is written.
  unfoldable pub deliver_frame : Frame c → Connection c → Option (Connection c)
  unfolding payload_length
  deliver_frame f x =
      let bytes = payload_length c f.header in
      let d : Data c = record {
        header = f.header;
        payload = take bytes (payload_bytes f.payload);
      } in
      if ltb 8 bytes
      then none
      else (if x.tp.has_rx_callback
          then some (record x { tp = record (x.tp) { delivered = x.tp.delivered ++ d ∷ [] } })
          else none)

  module _ (takes : ℕ → Bool) where
    -- The handler of async_read from the call of on_read_ on, and the next read.
    unfoldable pub process_frame : Frame c → Connection c → Option (Connection c)
    process_frame f x =
        let (x', accepted) = check_address f x in
        if accepted
        then elim (on_can_frame c takes f x'.tp) [
          | none ↦ none
          | some t ↦
              if normal_pgn (pgn c f.header)
              then deliver_frame f (after_tp c t x')
              else some (after_tp c t x')
        ]
        else some x'

    unfoldable pub on_received : Received c → Connection c → Option (Connection c)
    unfolding on_error
    on_received (failed aborted) x =
        some (on_error c read_failed aborted (record x { reading = false }))
    on_received (frame f) x =
        if x.has_on_read then process_frame f (record x { read = x.read ++ f ∷ [] }) else none
