-- ===== src/Connection/Send.antt =====
-- The sending functions of `j1939_connection`.
use jay.Base.{ℕ, Bool, ◌==◌, leb, if◌then◌else◌, Option, none, some, length}
use jay.Types.{j1939_idle_addr}
use jay.Name.{Name}
use jay.Header.{pgn, pdu_specific, is_broadcast, set_source_address, set_pdu_specific}
use jay.Header.Canary.{Canary}
use jay.Frame.{Frame}
use jay.Network.{get_address}
use jay.Transport.{Data, bus_send, start_tx, byte_at}
use jay.Connection.Defs.{
  Connection, address_of, after_tp, call_on_error, destination_without_address, set_bus_address,
  socket_without_source_address, without_local_name, without_source_address, without_target_name,
}

module _ (c : Canary) where
  -- The frame that carries a short message.
  abbrev pub short_frame : Data c → Frame c
  short_frame d = record {
    header = d.header;
    payload = record {
      b0 = byte_at d.payload 0;
      b1 = byte_at d.payload 1;
      b2 = byte_at d.payload 2;
      b3 = byte_at d.payload 3;
      b4 = byte_at d.payload 4;
      b5 = byte_at d.payload 5;
      b6 = byte_at d.payload 6;
      b7 = byte_at d.payload 7;
    };
  }

  module _ (takes : ℕ → Bool) where
    -- send_raw, which is write. The socket takes a frame or not.
    unfoldable pub send_raw : Frame c → Connection c → Connection c × Bool
    unfolding bus_send
    send_raw f x = let (t, ok) = bus_send c takes f x.tp in (record x { tp = t }, ok)

    unfoldable pub send_to : Name → Frame c → Connection c → Option (Connection c × Bool)
    unfolding call_on_error send_raw get_address set_source_address set_pdu_specific
    send_to n f x = elim (x.local_name) [
      | none ↦ call_on_error c without_local_name x
      | some own ↦
          let src = address_of c x own in
          let dst = address_of c x n in
          if src == j1939_idle_addr
          then call_on_error c without_source_address x
          else (if dst == j1939_idle_addr
              then call_on_error c destination_without_address x
              else some (
                  send_raw
                    (record f {
                      header = set_pdu_specific c dst (set_source_address c src f.header);
                    })
                    x))
    ]

    -- send(frame)
    unfoldable pub send_frame : Frame c → Connection c → Option (Connection c × Bool)
    unfolding call_on_error send_raw send_to get_address set_source_address is_broadcast
    send_frame f x =
        if is_broadcast c f.header
        then elim (x.local_name) [
          | none ↦ none
          | some own ↦
              let src = address_of c x own in
              if src == j1939_idle_addr
              then call_on_error c without_source_address x
              else some (send_raw (record f { header = set_source_address c src f.header }) x)
        ]
        else elim (x.target_name) [
          | none ↦ call_on_error c without_target_name x
          | some target ↦ send_to target f x
        ]

    -- send(data), for a message that needs the transport protocol.
    unfoldable pub send_long : Data c → Connection c → Option (Connection c × Bool)
    unfolding call_on_error start_tx after_tp get_address pdu_specific pgn
    send_long d x = elim (x.local_name) [
      | none ↦ none
      | some own ↦
          let src = address_of c x own in
          if src == j1939_idle_addr
          then call_on_error c socket_without_source_address x
          else (let x' = set_bus_address c src x in
              elim (start_tx c takes d.payload (pdu_specific c d.header) (pgn c d.header) x'.tp) [
                | none ↦ none
                | some (t, ok) ↦ some (after_tp c t x', ok)
              ])
    ]

    -- send(data)
    unfoldable pub send : Data c → Connection c → Option (Connection c × Bool)
    send d x = if leb (length d.payload) 8 then send_frame (short_frame d) x else send_long d x
