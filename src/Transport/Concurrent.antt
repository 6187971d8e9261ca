-- ===== src/Transport/Concurrent.antt =====
-- The broadcasts of two nodes at a time, from start_tx to the rx callback of a third one.
use jay.Base.{
  ℕ, ◌^◌, ◌<◌, ◌≤◌, ◌≡◌, ◌≢◌, refl, ap, arith, Bool, true, some, List, ◌∷◌, ◌++◌, length,
}
use jay.Types.{Address, Pgn, Uint8}
use jay.Frame.{Frame}
use jay.Header.{set_payload_length, set_source_address, set_pgn, empty_header}
use jay.Header.Canary.{Canary}
use jay.Transport.Defs.{Session, Tp, Data}
use jay.Transport.Send.{start_tx}
use jay.Transport.Stream.{dt_frames, bam_frame, stream, sender, start_tx-sent}
use jay.Transport.Delivery.{receive_all}
use jay.Transport.Interleaving.{Coming, announced, broadcast-IsStream}
use jay.Transport.Headers.{Says, kept_pgn, to_all-Says}
use jay.Transport.Streams.{IsStream, merge, Both, receive_all-merge}

module _ (c : Canary) where
  -- A broadcast message as it is delivered.
  abbrev pub broadcast_message : Address → Pgn → List Uint8 → Data c
  broadcast_message src pgn bytes = record {
    header =
        set_payload_length c (length bytes)
          (set_source_address c src (set_pgn c pgn (empty_header c)));
    payload = bytes;
  }

  module _ (takes takes' : ℕ → Bool) (all : (i : ℕ) → takes i ≡ true) (bytes : List Uint8)
      (pgn : Pgn) (t : Tp c) (low : 8 < length bytes) (high : length bytes ≤ 1785)
      (hp : pgn < 2 ^ 24) (hs : t.bus_address < 2 ^ 8) where
    abbrev from : Session
    from = sender c takes all bytes pgn t low high

    abbrev Broadcast : Tp c → List (Frame c) → Type 0
    Broadcast =
        Coming c takes' t.bus_address hs from refl refl (omega arith) hp (omega arith) (omega arith)
          (omega arith) (omega arith)

    stream-IsStream :
        IsStream c takes'
          (t.bus_address, 0xFF)
          (broadcast_message t.bus_address pgn bytes)
          Broadcast
    stream-IsStream =
        broadcast-IsStream c takes' t.bus_address hs from refl refl (omega arith) hp (omega arith)
          (omega arith) (omega arith) (omega arith)

    stream-Broadcast :
        (r : Tp c)
        → r.has_rx_callback ≡ true
        → Broadcast r (stream c takes all bytes pgn t low high)
    stream-Broadcast r heard =
        announced heard (ap (λ k. bam_frame c from ∷ dt_frames c k from 1) (omega arith))

  -- Two nodes with different addresses, on buses that take every frame, each broadcast more than 8
  -- and at most 1785 bytes with a PGN below 2 ^ 24. Both calls of start_tx return. A node with an rx
  -- callback that gets the frames of both, in whatever order the two streams are interleaved, and
  -- whatever sessions it has, delivers exactly two more messages: the bytes of the two that were sent,
  -- each under the header that handle_dt makes. Read back, this header has the sender's
  -- address; its PGN is the low 18 bits of the PGN, with the low byte 0 if the PDU format is at most
  -- 239; its length is the number of bytes if that is at most 255. (The addresses are 8-bit numbers.)
  pub start_tx-merge :
      (takes_a takes_b takes' : ℕ → Bool) (all_a : (i : ℕ) → takes_a i ≡ true)
      (all_b : (i : ℕ) → takes_b i ≡ true) (bytes_a bytes_b : List Uint8) (pgn_a pgn_b : Pgn)
      (a b r : Tp c) (order : List Bool)
      → 8 < length bytes_a
      → length bytes_a ≤ 1785
      → 8 < length bytes_b
      → length bytes_b ≤ 1785
      → pgn_a < 2 ^ 24
      → pgn_b < 2 ^ 24
      → a.bus_address < 2 ^ 8
      → b.bus_address < 2 ^ 8
      → a.bus_address ≢ b.bus_address
      → r.has_rx_callback ≡ true
      → (a' : Tp c) × (b' : Tp c) × (ok_a : Bool) × (ok_b : Bool) × (fs : List (Frame c))
        × (gs : List (Frame c)) × (r' : Tp c) × (start_tx c takes_a bytes_a 0xFF pgn_a a
            ≡ some (a', ok_a))
        × (a'.sent ≡ a.sent ++ fs)
        × (start_tx c takes_b bytes_b 0xFF pgn_b b ≡ some (b', ok_b))
        × (b'.sent ≡ b.sent ++ gs)
        × (receive_all c takes' (merge order fs gs) r ≡ some r')
        × Both
            (broadcast_message a.bus_address pgn_a bytes_a)
            (broadcast_message b.bus_address pgn_b bytes_b)
            r.delivered
            r'.delivered
        × Says c a.bus_address
            (kept_pgn pgn_a)
            (length bytes_a)
            (broadcast_message a.bus_address pgn_a bytes_a).header
        × Says c b.bus_address
            (kept_pgn pgn_b)
            (length bytes_b)
            (broadcast_message b.bus_address pgn_b bytes_b).header
  start_tx-merge takes_a takes_b takes' all_a all_b bytes_a bytes_b pgn_a pgn_b a b r order low_a
        high_a low_b high_b hp_a hp_b hs_a hs_b apart heard =
      let (a', ok_a, e_a, sent_a) = start_tx-sent c takes_a all_a bytes_a pgn_a a low_a high_a in
      let (b', ok_b, e_b, sent_b) = start_tx-sent c takes_b all_b bytes_b pgn_b b low_b high_b in
      let fs = stream c takes_a all_a bytes_a pgn_a a low_a high_a in
      let gs = stream c takes_b all_b bytes_b pgn_b b low_b high_b in
      let (r', run, both) =
        receive_all-merge c takes' (a.bus_address, 0xFF) (b.bus_address, 0xFF)
          (λ e. apart (ap (λ k. k.0) e)) _ _ _ _
          (stream-IsStream takes_a takes' all_a bytes_a pgn_a a low_a high_a hp_a hs_a)
          (stream-IsStream takes_b takes' all_b bytes_b pgn_b b low_b high_b hp_b hs_b) order fs gs
          r (stream-Broadcast takes_a takes' all_a bytes_a pgn_a a low_a high_a hp_a hs_a r heard)
          (stream-Broadcast takes_b takes' all_b bytes_b pgn_b b low_b high_b hp_b hs_b r heard) in
      (
        a',
        b',
        ok_a,
        ok_b,
        fs,
        gs,
        r',
        e_a,
        sent_a,
        e_b,
        sent_b,
        run,
        both,
        to_all-Says c a.bus_address pgn_a (length bytes_a) hs_a hp_a,
        to_all-Says c b.bus_address pgn_b (length bytes_b) hs_b hp_b,
      )
