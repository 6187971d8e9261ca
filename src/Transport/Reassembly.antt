-- ===== src/Transport/Reassembly.antt =====
-- The bytes of a message, cut into packets by the sender and put together by the receiver.
use native.Mathlib.Decide.{dec_lt}
use jay.Base.{
  ℕ, zero, suc, ◌+◌, ◌-◌, ◌*◌, ◌/◌, ◌<◌, ◌≤◌, ◌≡◌, refl, sym, ap, ◌∙◌, arith, some, List, [], ◌∷◌,
  length, get_elem?, overwrite, length-overwrite, get_elem?-overwrite_below,
  get_elem?-overwrite_inside, get_elem?-ext,
}
use jay.Types.{Uint8}
use jay.Transport.Defs.{Session}
use jay.Transport.Send.{dt_payload, byte_at}
use jay.Transport.Receive.{packet_bytes, zero_bytes}

-- The seven bytes of the packet of a number, from the sender's session.
abbrev pub packet : Session → ℕ → List Uint8
packet s seq = packet_bytes (dt_payload (record s { next_seq = seq }))

-- The receiver's buffer after `count` packets from the number seq on, each put at its offset.
unfoldable pub reassemble : ℕ → Session → ℕ → List Uint8 → List Uint8
unfolding dt_payload
reassemble zero s seq buffer = buffer
reassemble (suc count) s seq buffer =
    reassemble count s (seq + 1) (overwrite ((seq - 1) * 7) (packet s seq) buffer)

-- The buffer has the sender's bytes up to an index.
abbrev Agrees : Session → List Uint8 → ℕ → Type 0
Agrees s buffer m =
    (length buffer ≡ length s.buffer)
    × ((j : ℕ) → j < m → j < length s.buffer → get_elem? buffer j ≡ get_elem? s.buffer j)

get_elem?-byte_at : (xs : List Uint8) (j : ℕ) → j < length xs → get_elem? xs j ≡ some (byte_at xs j)
get_elem?-byte_at [] j h = absurd (omega arith)
get_elem?-byte_at (x ∷ xs) zero h = refl
get_elem?-byte_at (x ∷ xs) (suc j) h = get_elem?-byte_at xs j (omega arith)

-- A byte of a packet is the byte of the sender's buffer at the packet's offset.
get_elem?-packet :
    (s : Session) (seq d : ℕ)
    → d < 7
    → get_elem? (packet s seq) d ≡ some (byte_at s.buffer ((seq - 1) * 7 + d))
unfolding dt_payload
get_elem?-packet s seq zero h = ap (λ j. some (byte_at s.buffer j)) (omega arith)
get_elem?-packet s seq (suc zero) h = refl
get_elem?-packet s seq (suc (suc zero)) h = refl
get_elem?-packet s seq (suc (suc (suc zero))) h = refl
get_elem?-packet s seq (suc (suc (suc (suc zero)))) h = refl
get_elem?-packet s seq (suc (suc (suc (suc (suc zero))))) h = refl
get_elem?-packet s seq (suc (suc (suc (suc (suc (suc zero)))))) h = refl
get_elem?-packet s seq (suc (suc (suc (suc (suc (suc (suc d))))))) h = absurd (omega arith)

Agrees-overwrite :
    (s : Session) (seq : ℕ) (buffer : List Uint8)
    → 1 ≤ seq
    → Agrees s buffer ((seq - 1) * 7)
    → Agrees s (overwrite ((seq - 1) * 7) (packet s seq) buffer) (seq * 7)
Agrees-overwrite s seq buffer low (same, before) = (
  length-overwrite ((seq - 1) * 7) (packet s seq) buffer ∙ same,
  λ j h k. elim (dec_lt j ((seq - 1) * 7)) [
    | yes below ↦
        get_elem?-overwrite_below ((seq - 1) * 7) j (packet s seq) buffer below ∙ before j below k
    | no above ↦
        let d = j - (seq - 1) * 7 in
        let e : j ≡ (seq - 1) * 7 + d = omega arith in
        get_elem?-overwrite_inside ((seq - 1) * 7) j d (packet s seq) buffer e (omega arith)
          (omega arith)
        ∙ get_elem?-packet s seq d (omega arith)
        ∙ ap (λ i. some (byte_at s.buffer i)) (sym e)
        ∙ sym (get_elem?-byte_at s.buffer j k)
  ],
)

Agrees-reassemble :
    (count : ℕ) (s : Session) (seq : ℕ) (buffer : List Uint8)
    → 1 ≤ seq
    → Agrees s buffer ((seq - 1) * 7)
    → Agrees s (reassemble count s seq buffer) ((seq - 1 + count) * 7)
unfolding reassemble
Agrees-reassemble zero s seq buffer low a = (a.0, λ j h k. a.1 j (omega arith) k)
Agrees-reassemble (suc count) s seq buffer low a =
    let next = Agrees-overwrite s seq buffer low a in
    let rest =
      Agrees-reassemble count s (seq + 1) (overwrite ((seq - 1) * 7) (packet s seq) buffer)
        (omega arith) (next.0, λ j h k. next.1 j (omega arith) k) in
    (rest.0, λ j h k. rest.1 j (omega arith) k)

pub length-zero_bytes : (n : ℕ) → length (zero_bytes n) ≡ n
length-zero_bytes zero = refl
length-zero_bytes (suc n) = omega (arith, length-zero_bytes n)

-- The receiver of all the packets of a message, put into a buffer of its length, has the message:
-- for every session with a buffer of n bytes, the (n + 6) / 7 packets from number 1 on.
pub reassemble_lem :
    (s : Session)
    → reassemble ((length s.buffer + 6) / 7) s 1 (zero_bytes (length s.buffer)) ≡ s.buffer
reassemble_lem s =
    let all =
      Agrees-reassemble ((length s.buffer + 6) / 7) s 1 (zero_bytes (length s.buffer)) (omega arith)
        (length-zero_bytes (length s.buffer), λ j h k. absurd (omega arith)) in
    get_elem?-ext _ s.buffer all.0 (λ j h. all.1 j (omega arith) h)

-- The buffer of a session that says its length and its number of packets, which fit their integers.
pub reassemble-buffer :
    (s : Session)
    → s.length ≡ length s.buffer
    → s.total_packets ≡ (length s.buffer + 6) / 7
    → 0 < length s.buffer
    → reassemble (suc (s.total_packets - 1)) s 1 (zero_bytes s.length) ≡ s.buffer
reassemble-buffer s n packets some_bytes =
    ap (λ k. reassemble k s 1 (zero_bytes s.length)) (omega (arith, packets))
    ∙ ap (λ k. reassemble ((length s.buffer + 6) / 7) s 1 (zero_bytes k)) n
    ∙ reassemble_lem s
