-- ===== src/App/Websocket/Laws.antt =====
-- internal/app/ios_websocket.go: what is written can be read, and what is read is bounded.
use talka.Prelude.{
  ℕ, ◌+◌, ◌%◌, ◌<◌, ◌≤◌, ◌^◌, ◌≡◌, refl, true, false, [], ◌∷◌, ◌++◌, ok, err, ◌>>=◌, arith, length,
  length-append, Bool-cases, Option-cases, ltb, leb, inl, inr, Result-cases, if◌then◌else◌, Bool,
}
use talka.Prelude.Bytes.{Bytes, AllBytes, read_full, read_full-append, length-read_full}
use talka.Prelude.Words.{be16, be32, be64, be_value}
use talka.Prelude.Mask.{mask_from, mask_from_twice, length-mask_from}
use talka.App.Websocket.{
  Error, read, read_length, read_payload, read_frame_after, read_frame, frame_of, write_text,
  write_close,
}

read-append : (n : ℕ) (xs ys : Bytes) → length xs ≡ n → read n (xs ++ ys) ≡ ok (xs, ys)
unfolding read
read-append n xs ys h = ground (arith, read_full-append n xs ys h)

read-length : (n : ℕ) (src xs rest : Bytes) → read n src ≡ ok (xs, rest) → length xs ≡ n
unfolding read
read-length n src xs rest e = elim (Option-cases (read_full n src)) [
  | inl q ↦ ground arith
  | inr ((ys, zs), q) ↦ ground (arith, length-read_full n src ys zs q)
]

read_payload-length :
    (masked : Bool) (n : ℕ) (src payload left : Bytes)
    → read_payload masked n src ≡ ok (payload, left)
    → length payload ≡ n
unfolding read_payload
read_payload-length false n src payload left e = read-length n src payload left e
read_payload-length true n src payload left e = elim (Result-cases (read 4 src)) [
  | inl (x, q) ↦ ground arith
  | inr ((mask, rest), q) ↦ elim (Result-cases (read n rest)) [
    | inl (x, q') ↦ ground arith
    | inr ((raw, left'), q') ↦
        ground (arith, read-length n rest raw left' q', length-mask_from 0 mask raw)
  ]
]

read_frame_after-bounded :
    (header src payload left : Bytes) (opcode : ℕ)
    → read_frame_after header src ≡ ok (payload, (opcode, left))
    → length payload ≤ 2 ^ 20
unfolding read_frame_after
read_frame_after-bounded [] src payload left opcode e = ground arith
read_frame_after-bounded (first ∷ []) src payload left opcode e = ground arith
read_frame_after-bounded (first ∷ second ∷ more) src payload left opcode e =
    elim (Result-cases (read_length (second % 128) src)) [
      | inl (x, q) ↦ ground arith
      | inr ((n, rest), q) ↦ elim (Result-cases (read_payload (leb 128 second) n rest)) [
        | inl (x, q') ↦ ground arith
        | inr ((p, l), q') ↦ ground (arith, read_payload-length (leb 128 second) n rest p l q')
      ]
    ]

-- Whatever the peer sends, a frame that is read has a payload of at most a megabyte.
pub read_frame_bounded :
    (src payload left : Bytes) (opcode : ℕ)
    → read_frame src ≡ ok (payload, (opcode, left))
    → length payload ≤ 2 ^ 20
unfolding read_frame
read_frame_bounded src payload left opcode e = elim (Result-cases (read 2 src)) [
  | inl (x, q) ↦ ground arith
  | inr ((header, rest), q) ↦
      ground (arith, read_frame_after-bounded header rest payload left opcode)
]

frame_of-read_frame :
    (first : ℕ) (too_large : Error) (payload rest : Bytes)
    → first < 256
    → (frame_of first too_large payload >>= λ frame. read_frame (frame ++ rest))
      ≡ (if leb (length payload) 65535 then ok (payload, (first % 16, rest)) else err too_large)
unfolding frame_of read_frame read read_full read_frame_after read_length read_payload be_value
frame_of-read_frame first too_large payload rest h = elim (Bool-cases (ltb (length payload) 126)) [
  | inl e ↦ ground (arith, read_full-append (length payload) payload rest refl)
  | inr e ↦ ground (arith, read_full-append (length payload) payload rest refl)
]

-- The server's texts and its close frames are read back, by this reader, as a text frame (opcode 1)
-- of the text and a close frame (opcode 8) of the code and the reason, and the reader is left
-- with what follows; a longer payload than 65535 bytes is refused.
pub write_text-write_close :
    (text reason rest : Bytes) (code : ℕ)
    → ((write_text text >>= λ frame. read_frame (frame ++ rest))
        ≡ (if leb (length text) 65535 then ok (text, (1, rest)) else err Error.response_too_large))
      × ((write_close code reason >>= λ frame. read_frame (frame ++ rest)) ≡ (
          if leb (length reason + 2) 65535
          then ok (be16 code ++ reason, (8, rest))
          else err Error.close_too_large))
unfolding write_text write_close be16
write_text-write_close text reason rest code = (
  frame_of-read_frame 129 Error.response_too_large text rest (omega arith),
  ground (
    arith,
    length-append (be16 code) reason,
    frame_of-read_frame 136 Error.close_too_large (be16 code ++ reason) rest (omega arith),
  ),
)

-- RFC 6455: the bytes of a payload's length, the first with the mask's bit, in the shortest form.
pub length_bytes : ℕ → Bytes
length_bytes n =
    if ltb n 126 then (128 + n) ∷ [] else if ltb n (2 ^ 16) then 254 ∷ be16 n else 255 ∷ be64 n

read_masked-length :
    (first n : ℕ) (body : Bytes)
    → n ≤ 2 ^ 20
    → read_frame (first ∷ (length_bytes n ++ body))
      ≡ (read_payload true n body >>= λ (payload, left). ok (payload, (first % 16, left)))
unfolding read_frame read read_full read_frame_after read_length length_bytes be16 be32 be64
    be_value
read_masked-length first n body l = elim (Bool-cases (ltb n 126)) [
  | inl e ↦ ground arith
  | inr e ↦ elim (Bool-cases (ltb n (2 ^ 16))) [ inl f ↦ ground arith | inr f ↦ ground arith ]
]

-- A masked frame, as RFC 6455 lays it out with a key of four bytes and the payload's length in the
-- shortest of its three forms, is read as the payload, unmasked, if that is no longer than a
-- megabyte.
pub read_frame-masked :
    (first : ℕ) (key payload rest : Bytes)
    → length key ≡ 4
    → AllBytes key
    → AllBytes payload
    → length payload ≤ 2 ^ 20
    → read_frame
        (first ∷ (length_bytes (length payload) ++ (key ++ (mask_from 0 key payload ++ rest))))
      ≡ ok (payload, (first % 16, rest))
unfolding read_payload
read_frame-masked first key payload rest k bk bp l = ground (
  arith,
  read_masked-length first (length payload) (key ++ (mask_from 0 key payload ++ rest)) l,
  read-append 4 key (mask_from 0 key payload ++ rest) k,
  read-append (length payload) (mask_from 0 key payload) rest (length-mask_from 0 key payload),
  mask_from_twice 0 key payload bk bp,
)
