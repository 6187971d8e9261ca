-- ===== src/Frame/Printing.antt =====
-- The text of a frame of include/jay/frame.hpp.
use jay.Base.{◌≡◌, arith}
use jay.Base.Text.{AreBytes, read_record, read_record-write_bytes}
use jay.Header.Canary.{Canary}
use jay.Frame.Defs.{Frame, payload_bytes, to_string}

-- The text of a frame determines it: a reader that takes hexadecimal digits up to the colon, and from
-- there up to each apostrophe, gets the identifier and the eight bytes. (The payload consists of
-- bytes.)
pub read_record-to_string :
    (c : Canary) (f : Frame c)
    → AreBytes (payload_bytes f.payload)
    → read_record 0 (to_string c f) ≡ (c.get_id f.header, payload_bytes f.payload)
unfolding to_string
read_record-to_string c f fits =
    read_record-write_bytes (c.get_id f.header) (payload_bytes f.payload)
      (omega (arith, c.get_id-lt f.header)) fits
