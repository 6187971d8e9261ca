-- ===== src/Connection/Reassembly.antt =====
-- A connection that gets all the packets of a sender, for a session that waits for them.
use jay.Base.{
  ℕ, zero, suc, ◌+◌, ◌-◌, ◌*◌, ◌^◌, ◌<◌, ◌≡◌, refl, ap, sym, ◌∙◌, arith, Bool, true, false, ◌&&◌,
  ◌==◌, Option, none, some, Option-cases, inl, inr, [], ◌∷◌, ◌++◌, overwrite,
}
use jay.Base.Map.{find}
use jay.Name.{Name}
use jay.Network.{Network, get_address}
use jay.Types.{Address, Pgn}
use jay.Header.{pgn, is_broadcast}
use jay.Header.Canary.{Canary}
use jay.Header.Parts.{pgn-view, is_broadcast-view}
use jay.Frame.{Frame}
use jay.Transport.{Tp, Session, delivery, dt_payload, put_session, same_key}
use jay.Transport.Frames.{Reads}
use jay.Transport.Stream.{dt_frame, dt_frames}
use jay.Transport.Delivery.{accept-more, accept-last}
use jay.Transport.Receiving.{Waits, Waits-after, after, dt_frame-Reads}
use jay.Transport.Reassembly.{packet, reassemble}
use jay.Connection.Defs.{Connection, address_of}
use jay.Connection.Receive.{normal_pgn}
use jay.Connection.Packets.{
  ready, ready-same, admits, Same, on_received-tp, Strange, read_all, read_all-step,
}

-- The name, if there is one, has the address.
abbrev pub holds : Network → Option Name → Address → Bool
holds net none a = true
holds net (some n) a = get_address net n == a

module _ (c : Canary) where
  -- The connection takes frames from the one address to the other, which are no broadcasts, for its own.
  abbrev pub hears : Connection c → Address → Address → Bool
  hears y src dst = holds y.network y.target_name src && holds y.network y.local_name dst

  is_broadcast-pgn : (h : c.Raw) → pgn c h < 0xF000 → is_broadcast c h ≡ false
  is_broadcast-pgn h low = is_broadcast-view c h ∙ ground (arith, pgn-view c h)

  pub admits-hears :
      (y : Connection c) (f : Frame c) (p : Pgn) (dst src : Address)
      → Reads c f p dst src
      → p < 0xF000
      → admits c y f ≡ hears y src dst
  admits-hears y f p dst src reads low =
      let single = is_broadcast-pgn f.header (omega (arith, reads.reads_pgn)) in
      elim (Option-cases y.target_name) [
        | inl a ↦ elim (Option-cases y.local_name) [
          | inl b ↦ rw (a, b) refl
          | inr (own, b) ↦ ground (arith, a, b, single, reads.reads_dst)
        ]
        | inr (target, a) ↦ elim (Option-cases y.local_name) [
          | inl b ↦ ground (arith, a, b, reads.reads_src)
          | inr (own, b) ↦ ground (arith, a, b, single, reads.reads_src, reads.reads_dst)
        ]
      ]

  pub hears-Same :
      (y z : Connection c) (src dst : Address) → Same c y z → hears z src dst ≡ hears y src dst
  hears-Same y z src dst (net, own, target, _) = rw (net, own, target) refl

  pub hears-holds :
      (y : Connection c) (own : Name) (src dst : Address)
      → y.local_name ≡ some own
      → address_of c y own ≡ dst
      → holds y.network y.target_name src ≡ true
      → hears y src dst ≡ true
  hears-holds y own src dst local at_dst from_src =
      rw from_src (ground (arith, ap (λ n. holds y.network n dst) local, at_dst))

  module _ (takes : ℕ → Bool) (src : Address) (hs : src < 2 ^ 8) (from : Session) (dst : Address)
      (hd : dst < 2 ^ 8) (to : from.dest_sa ≡ dst) (by : from.src_sa ≡ src) where
    abbrev AwaitsDt : Connection c → Session → ℕ → Type 0
    AwaitsDt y s seq = Waits c takes src hs from dst hd to by (ready c y) s seq

    pub Waits-same :
        (y : Connection c) (t : Tp c) (s : Session) (seq : ℕ)
        → y.tp ≡ record t { errors = [] }
        → Waits c takes src hs from dst hd to by t s seq
        → AwaitsDt y s seq
    Waits-same y t s seq e w = record {
      owned = ap (find same_key (src, dst)) ((ready-same c y).0 ∙ ap (λ u. u.sessions) e) ∙ w.owned;
      kind = w.kind;
      next = w.next;
      low = w.low;
      small = w.small;
      window = w.window;
      fits = w.fits;
      heard = (ready-same c y).2 ∙ ap (λ u. u.has_rx_callback) e ∙ w.heard;
    }

    pub read_dts :
        (n seq : ℕ) (y : Connection c) (s : Session)
        → y.has_on_read ≡ true
        → hears y src dst ≡ true
        → AwaitsDt y s seq
        → seq + n ≡ s.total_packets
        → (z : Connection c) × (read_all c takes (dt_frames c (suc n) from seq) y ≡ some z)
          × (z.tp.delivered
              ≡ y.tp.delivered
                ++ delivery c takes (record s { buffer = reassemble (suc n) from seq s.buffer })
                  ∷ [])
    unfolding read_all dt_frames reassemble dt_payload delivery put_session normal_pgn
    read_dts zero seq y s heard own w left =
        let f = dt_frame c from seq in
        let reads = dt_frame-Reads c takes src hs from dst hd to by seq in
        let (t, e, got) =
          accept-last c takes f (ready c y) s src dst reads w.owned w.kind (sym w.next)
            (omega (arith, w.next, w.low)) (omega (arith, w.next)) (omega (arith, w.next, w.fits))
            (omega (arith, w.next)) w.heard in
        let (z, run, tp, same) =
          on_received-tp c takes f y t heard (admits-hears y f _ dst src reads (omega arith) ∙ own)
            (rw (reads.reads_pgn) refl) e in
        (
          z,
          read_all-step c takes f [] y z run,
          ap (λ u. u.delivered) tp
              ∙ got
              ∙ ap
                  (λ ds.
                    ds
                    ++ delivery c takes (record s {
                      buffer = overwrite ((s.next_seq - 1) * 7) (packet from seq) s.buffer;
                    })
                      ∷ [])
                  (ready-same c y).1
              ∙ ap
                  (λ k.
                    y.tp.delivered
                    ++ delivery c takes
                        (record s { buffer = overwrite ((k - 1) * 7) (packet from seq) s.buffer })
                      ∷ [])
                  w.next,
        )
    read_dts (suc n) seq y s heard own w left =
        let f = dt_frame c from seq in
        let reads = dt_frame-Reads c takes src hs from dst hd to by seq in
        let s' = after c takes src hs from dst hd to by (ready c y) s seq in
        let e =
          accept-more c takes f (ready c y) s src dst reads w.owned w.kind (sym w.next)
            (omega (arith, w.next, w.low)) (omega (arith, w.next)) (omega (arith, w.next, w.fits))
            (omega (arith, w.next)) w.window in
        let (z, run, tp, same) =
          on_received-tp c takes f y _ heard (admits-hears y f _ dst src reads (omega arith) ∙ own)
            (rw (reads.reads_pgn) refl) e in
        let (end, rest, got) =
          read_dts n (seq + 1) z s' (same.3 ∙ heard) (hears-Same y z src dst same ∙ own)
            (Waits-same z _ s' (seq + 1) tp
              (Waits-after c takes src hs from dst hd to by (ready c y) s seq w (omega arith)))
            (omega arith) in
        (
          end,
          read_all-step c takes f (dt_frames c (suc n) from (seq + 1)) y z run ∙ rest,
          got
              ∙ ap
                  (λ ds.
                    ds
                    ++ delivery c takes
                        (record s' { buffer = reassemble (suc n) from (seq + 1) s'.buffer })
                      ∷ [])
                  (ap (λ u. u.delivered) tp ∙ (ready-same c y).1)
              ∙ ap
                  (λ k.
                    y.tp.delivered
                    ++ delivery c takes (record s {
                      buffer =
                          reassemble (suc n) from (seq + 1)
                            (overwrite ((k - 1) * 7) (packet from seq) s.buffer);
                    })
                      ∷ [])
                  w.next,
        )

    -- The packets are not for a connection at another address.
    pub Strange-dt_frames :
        (n seq : ℕ) (y : Connection c)
        → hears y src dst ≡ false
        → Strange c takes y (dt_frames c n from seq)
    unfolding dt_frames
    Strange-dt_frames zero seq y other = tt
    Strange-dt_frames (suc n) seq y other = (
      admits-hears y (dt_frame c from seq) _ dst src
            (dt_frame-Reads c takes src hs from dst hd to by seq) (omega arith)
          ∙ other,
      Strange-dt_frames n (seq + 1) y other,
    )
