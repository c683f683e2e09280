-- ===== src/Asr/Websocket.antt =====
-- internal/asr/websocket.go: the frames of a WebSocket connection. The reader is the bytes that
-- are still to come before the source ends; the writer is the bytes written. The read deadline and
-- the writer's lock are left out.
pub mod Laws
use talka.Prelude.{
  ℕ, ◌+◌, ◌/◌, ◌%◌, Bool, true, false, not, List, [], ◌∷◌, ◌++◌, Option, Result, ok, err, ◌>>=◌,
  ◌>>◌, guard, or_fail, length, leb, ltb, ◌==◌, if◌then◌else◌,
}
use talka.Prelude.Bytes.{Bytes, read_full}
use talka.Prelude.Words.{be_value}
use talka.Prelude.Mask.{mask_from}

pub data Error : Type 0 where
  -- The error of the read that found too few bytes.
  unexpected_end closed long_length rand_failed : Error
  too_large unsupported_opcode : ℕ → Error

-- The second byte of the header, and the two bytes of a longer length: `bit` is `maskBit`. The
-- operands of each `|` share no bit, so that it is a sum; so it is for `0x80 | opcode`, as an opcode
-- is below 128.
length_header : ℕ → ℕ → Bytes
length_header bit n =
    if ltb n 126 then (bit + n) ∷ [] else (bit + 126) ∷ n / 256 % 256 ∷ n % 256 ∷ []

-- `writeFrame`; the mask's key is what `rand.Read` returns, if it does.
pub write_frame : Bool → Option Bytes → ℕ → Bytes → Result Error Bytes
unfolding length_header
write_frame mask_outbound random_key opcode payload = do
  guard (leb (length payload) 65535) (Error.too_large (length payload))
  if mask_outbound
      then (do
        key ← or_fail random_key Error.rand_failed
        ok (
            ((128 + opcode) ∷ length_header 128 (length payload))
            ++ (key ++ mask_from 0 key payload)))
      else ok (((128 + opcode) ∷ length_header 0 (length payload)) ++ payload)

-- `io.ReadFull` on the reader.
read : ℕ → Bytes → Result Error (Bytes × Bytes)
read n src = or_fail (read_full n src) Error.unexpected_end

-- The payload's length, by the seven bits of the second byte.
read_length : ℕ → Bytes → Result Error (ℕ × Bytes)
unfolding read
read_length n src =
    if n == 126
    then (do (extended, rest) ← read 2 src; ok (be_value 0 extended, rest))
    else if n == 127
    then err Error.long_length
    else ok (n, src)

-- The payload behind the length, unmasked.
read_payload : Bool → ℕ → Bytes → Result Error (Bytes × Bytes)
unfolding read
read_payload masked n src =
    if masked
    then (do
      (key, rest) ← read 4 src
      (payload, left) ← read n rest
      ok (mask_from 0 key payload, left))
    else read n src

-- `readFrameWithOpcode`: the payload, the opcode and what the reader still holds.
pub read_frame_with_opcode : Bytes → Result Error (Bytes × (ℕ × Bytes))
unfolding read_length read_payload
read_frame_with_opcode [] = err Error.unexpected_end
read_frame_with_opcode (first ∷ []) = err Error.unexpected_end
read_frame_with_opcode (first ∷ second ∷ src) = do
  guard (not (first % 16 == 8)) Error.closed
  (n, rest) ← read_length (second % 128) src
  (payload, left) ← read_payload (leb 128 second) n rest
  ok (payload, (first % 16, left))

-- `readFrame`, which wants a text frame.
read_frame : Bytes → Result Error (Bytes × Bytes)
read_frame src = do
  (payload, (opcode, left)) ← read_frame_with_opcode src
  guard (opcode == 1) (Error.unsupported_opcode opcode)
  ok (payload, left)
