-- ===== src/Transport/Printing.antt =====
-- The text of a message of include/jay/data.hpp and of an abort reason of
-- include/jay/transport_protocol.hpp.
use jay.Base.{
  ◌≡◌, ap, sym, ◌∙◌, ◌↔◌, ◌⊎◌, inl, inr, arith, ◌==◌, leb, Bool, Bool-cases, false, ◌&&◌, [], ◌∷◌,
  ◌++◌, length, if◌then◌else◌,
}
use jay.Base.Text.{Text, codes, hex, write_bytes, AreBytes, read_record, read_record-write_bytes}
use jay.Types.{Uint8}
use jay.Header.Canary.{Canary}
use jay.Transport.Defs.{Data}

module _ (c : Canary) where
  unfoldable pub to_string : Data c → Text
  unfolding hex write_bytes
  to_string d = hex (c.get_id d.header) ++ b':' ∷ write_bytes d.payload

  -- The text of a message determines it: a reader that takes hexadecimal digits up to the colon, and
  -- from there up to each apostrophe, gets the identifier and the bytes. (The payload consists of
  -- bytes.)
  pub read_record-to_string :
      (d : Data c)
      → AreBytes d.payload
      → read_record 0 (to_string d) ≡ (c.get_id d.header, d.payload)
  unfolding to_string
  read_record-to_string d fits =
      read_record-write_bytes (c.get_id d.header) d.payload (omega (arith, c.get_id-lt d.header))
        fits

-- to_string(AbortCode), for the byte that an abort frame brings, cast to the enumeration.
unfoldable pub abort_string : Uint8 → Text
abort_string reason =
    if reason == 1
    then codes "already in session"
    else (if reason == 2
        then codes "resources busy"
        else (if reason == 3
            then codes "timeout"
            else (if reason == 4
                then codes "cts during dt"
                else (if reason == 5
                    then codes "retransmit limit"
                    else (if reason == 6
                        then codes "unexpected packet"
                        else (if reason == 7
                            then codes "bad sequence"
                            else (if reason == 8
                                then codes "duplicate seq"
                                else (if reason == 9
                                    then codes "length exceeded"
                                    else codes "unspecified"))))))))

-- The reason of a text, 0 for that of an unknown one: all texts but two differ in their length.
reason_of : Text → Uint8
reason_of [] = 0
reason_of (x ∷ xs) =
    let n = length xs in
    if n == 17
    then 1
    else (if n == 13
        then 2
        else (if n == 6
            then 3
            else (if n == 12
                then (if x == b'c' then 4 else 8)
                else (if n == 15
                    then 5
                    else (if n == 16
                        then 6
                        else (if n == 11 then 7 else (if n == 14 then 9 else 0)))))))

abbrev known : Uint8 → Bool
known reason = leb 1 reason && leb reason 9

reason_of-abort_string :
    (reason : Uint8) → reason_of (abort_string reason) ≡ (if known reason then reason else 0)
unfolding reason_of abort_string
reason_of-abort_string reason = ground arith

abort_string-unknown :
    (reason : Uint8) → known reason ≡ false → abort_string reason ≡ codes "unspecified"
unfolding abort_string
abort_string-unknown reason h = ground arith

same_reason :
    (r s : Uint8)
    → (if known r then r else 0) ≡ (if known s then s else 0)
    → (r ≡ s) ⊎ ((known r ≡ false) × (known s ≡ false))
same_reason r s e = elim (Bool-cases (known r)) [
  | inl k ↦ inl (ground (arith, k, e))
  | inr k ↦ inr (k, ground (arith, k, e))
]

-- Two abort reasons have the same text exactly if they are the same or both none of the nine codes
-- from 1 to 9.
pub abort_string_iff :
    (r s : Uint8)
    → (abort_string r ≡ abort_string s) ↔ ((r ≡ s) ⊎ ((known r ≡ false) × (known s ≡ false)))
abort_string_iff r s = (
  λ e. same_reason r s (sym (reason_of-abort_string r) ∙ ap reason_of e ∙ reason_of-abort_string s),
  λ same. elim same [
    | inl e ↦ ap abort_string e
    | inr (k, l) ↦ abort_string-unknown r k ∙ sym (abort_string-unknown s l)
  ],
)
