-- ===== src/Asr/Websocket/Laws.antt =====
-- internal/asr/websocket.go: what is written can be read.
use mathlib.Core.List.{append_assoc}
use talka.Asr.Websocket.{
  length_header, write_frame, read, read_length, read_payload, read_frame_with_opcode,
}
use talka.Prelude.{
  ℕ, ◌+◌, ◌<◌, ◌≤◌, ◌≡◌, ◌≢◌, refl, Bool, true, false, some, ◌∷◌, ◌++◌, ok, arith, length,
  Bool-cases, ltb, inl, inr, ◌>>=◌, if◌then◌else◌,
}
use talka.Prelude.Bytes.{Bytes, AllBytes, read_full, read_full-append}
use talka.Prelude.Words.{be_value}
use talka.Prelude.Mask.{mask_from, mask_from_twice, length-mask_from}

read-append : (n : ℕ) (xs ys : Bytes) → length xs ≡ n → read n (xs ++ ys) ≡ ok (xs, ys)
unfolding read
read-append n xs ys h = ground (arith, read_full-append n xs ys h)

-- The header that is written is read back, whatever follows it.
read-header :
    (masked : Bool) (opcode n : ℕ) (body : Bytes)
    → opcode < 16
    → opcode ≢ 8
    → n ≤ 65535
    → read_frame_with_opcode
        ((128 + opcode) ∷ (length_header (if masked then 128 else 0) n ++ body))
      ≡ (read_payload masked n body >>= λ (payload, left). ok (payload, (opcode, left)))
unfolding read_frame_with_opcode length_header read_length read read_full be_value
read-header false opcode n body h h8 l = elim (Bool-cases (ltb n 126)) [
  | inl e ↦ ground arith
  | inr e ↦ ground arith
]
read-header true opcode n body h h8 l = elim (Bool-cases (ltb n 126)) [
  | inl e ↦ ground arith
  | inr e ↦ ground arith
]

read_payload-plain :
    (payload rest : Bytes)
    → read_payload false (length payload) (payload ++ rest) ≡ ok (payload, rest)
unfolding read_payload
read_payload-plain payload rest = read-append (length payload) payload rest refl

read_payload-masked :
    (key payload rest : Bytes)
    → length key ≡ 4
    → AllBytes key
    → AllBytes payload
    → read_payload true (length payload) ((key ++ mask_from 0 key payload) ++ rest)
      ≡ ok (payload, rest)
unfolding read_payload
read_payload-masked key payload rest k bk bp = ground (
  arith,
  append_assoc key (mask_from 0 key payload) rest,
  read-append 4 key (mask_from 0 key payload ++ rest) k,
  read-append (length payload) (mask_from 0 key payload) rest (length-mask_from 0 key payload),
  mask_from_twice 0 key payload bk bp,
)

-- The frame that the client or the server writes for a payload of at most 65535 bytes, masked
-- or not, is read back as that payload and that opcode, which is not the close frame's, and the
-- reader is left with what follows the frame.
pub read_frame_with_opcode-write_frame :
    (mask_outbound : Bool) (key : Bytes) (opcode : ℕ) (payload rest : Bytes)
    → length key ≡ 4
    → AllBytes key
    → AllBytes payload
    → opcode < 16
    → opcode ≢ 8
    → length payload ≤ 65535
    → (write_frame mask_outbound (some key) opcode payload >>= λ frame.
        read_frame_with_opcode (frame ++ rest))
      ≡ ok (payload, (opcode, rest))
unfolding write_frame
read_frame_with_opcode-write_frame false key opcode payload rest k bk bp h h8 l = ground (
  arith,
  append_assoc (length_header 0 (length payload)) payload rest,
  read-header false opcode (length payload) (payload ++ rest) h h8 l,
  read_payload-plain payload rest,
)
read_frame_with_opcode-write_frame true key opcode payload rest k bk bp h h8 l = ground (
  arith,
  append_assoc (length_header 128 (length payload)) (key ++ mask_from 0 key payload) rest,
  read-header true opcode (length payload) ((key ++ mask_from 0 key payload) ++ rest) h h8 l,
  read_payload-masked key payload rest k bk bp,
)
