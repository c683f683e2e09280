-- ===== src/App/Websocket.antt =====
-- internal/app/ios_websocket.go: the frames of the connection to a phone. The reader is the bytes
-- that are still to come before the source ends; a writer's result is what goes to `conn.Write`.
pub mod Laws
use talka.Prelude.{
  ℕ, ◌+◌, ◌/◌, ◌%◌, ◌^◌, Bool, List, [], ◌∷◌, ◌++◌, Result, ok, err, ◌>>=◌, ◌>>◌, guard, or_fail,
  length, leb, ltb, ◌==◌, if◌then◌else◌,
}
use talka.Prelude.Bytes.{Bytes, read_full}
use talka.Prelude.Words.{be16, be_value}
use talka.Prelude.Mask.{mask_from}

pub data Error : Type 0 where
  -- The error of the read that found too few bytes.
  unexpected_end response_too_large close_too_large : Error
  payload_too_large : ℕ → Error

-- `io.ReadFull` on the reader.
unfoldable pub read : ℕ → Bytes → Result Error (Bytes × Bytes)
read n src = or_fail (read_full n src) Error.unexpected_end

-- The payload's length, by the seven bits of the second byte.
unfoldable pub read_length : ℕ → Bytes → Result Error (ℕ × Bytes)
read_length n src =
    if n == 126
    then (do (extended, rest) ← read 2 src; ok (be_value 0 extended, rest))
    else if n == 127
    then (do (extended, rest) ← read 8 src; ok (be_value 0 extended, rest))
    else ok (n, src)

-- The payload behind the length, unmasked.
unfoldable pub read_payload : Bool → ℕ → Bytes → Result Error (Bytes × Bytes)
read_payload masked n src =
    if masked
    then (do
      (mask, rest) ← read 4 src
      (payload, left) ← read n rest
      ok (mask_from 0 mask payload, left))
    else read n src

-- `readIOSWebSocketFrame`, from the two bytes of the header: the payload, the opcode and what the
-- reader still holds.
unfoldable pub read_frame_after : Bytes → Bytes → Result Error (Bytes × (ℕ × Bytes))
read_frame_after (first ∷ second ∷ more) src = do
  (n, rest) ← read_length (second % 128) src
  guard (leb n (2 ^ 20)) (Error.payload_too_large n)
  (payload, left) ← read_payload (leb 128 second) n rest
  ok (payload, (first % 16, left))
read_frame_after header src = err Error.unexpected_end

-- `readIOSWebSocketFrame`.
unfoldable pub read_frame : Bytes → Result Error (Bytes × (ℕ × Bytes))
read_frame src = do (header, rest) ← read 2 src; read_frame_after header rest

-- The frame with this first byte, or the error for a longer payload.
frame_of : ℕ → Error → Bytes → Result Error Bytes
frame_of first too_large payload =
    if ltb (length payload) 126
    then ok (first ∷ length payload ∷ payload)
    else if leb (length payload) 65535
    then ok (first ∷ 126 ∷ length payload / 256 % 256 ∷ length payload % 256 ∷ payload)
    else err too_large

-- `writeIOSWebSocketText`.
pub write_text : Bytes → Result Error Bytes
write_text text = frame_of 129 Error.response_too_large text

-- `writeIOSWebSocketClose`.
pub write_close : ℕ → Bytes → Result Error Bytes
write_close code reason = frame_of 136 Error.close_too_large (be16 code ++ reason)
