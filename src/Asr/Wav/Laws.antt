-- ===== src/Asr/Wav/Laws.antt =====
-- Reading back the WAV files that internal/session/audio_debug.go writes, and the loop's end.
use talka.Prelude.{
  ℕ, zero, suc, ◌+◌, ◌%◌, ◌^◌, ◌<◌, ◌≤◌, ◌≡◌, ◌≢◌, refl, ◌∙◌, true, [], ◌∷◌, ◌++◌, ok, err, arith,
  length, take, drop, take_all, length-drop, Result-cases, inl, inr,
}
use talka.Prelude.Int.{pos}
use talka.Prelude.Bytes.{Bytes, codes}
use talka.Prelude.Words.{le16, le32, u32, le_value}
use talka.Protocol.{AudioMetadata}
use talka.Session.Capture.{encode_pcm16_wav}
use talka.Asr.Wav.{Chunks, Error, read_chunk, read_chunks, decode_pcm16le_wav, no_chunks, slice}

past_end : (n : ℕ) (xs : Bytes) → length xs ≤ n → drop n xs ≡ []
past_end zero [] h = refl
past_end zero (x ∷ xs) h = absurd (omega arith)
past_end (suc n) [] h = refl
past_end (suc n) (x ∷ xs) h = past_end n xs (omega arith)

read_chunks-data :
    (fuel : ℕ) (pcm : Bytes) (c : Chunks)
    → length pcm < 2 ^ 32
    → read_chunks (suc (suc fuel)) (codes "data" ++ (le32 (u32 (length pcm)) ++ pcm)) c
      ≡ ok (record c { pcm = pcm; data_found = true })
unfolding read_chunks le32 le_value
read_chunks-data fuel pcm c h = ground (
  arith,
  take_all (length pcm) pcm refl,
  past_end (length pcm + length pcm % 2) pcm (omega arith),
)

-- The chunk of the format, for 16 kHz mono PCM, in front of the rest of a file.
abbrev fmt_chunk : Bytes → Bytes
fmt_chunk rest =
    codes "fmt "
    ++ (le32 16
        ++ (le16 1 ++ (le16 1 ++ (le32 16000 ++ (le32 32000 ++ (le16 2 ++ (le16 16 ++ rest)))))))

abbrev with_format : Chunks → Chunks
with_format c = record c {
  format_found = true;
  channels = 1;
  sample_rate = 16000;
  bits_per_sample = 16;
}

read_chunks-fmt :
    (fuel : ℕ) (rest : Bytes) (c : Chunks)
    → read_chunks (suc fuel) (fmt_chunk rest) c ≡ read_chunks fuel rest (with_format c)
unfolding read_chunks le32 le16 le_value
read_chunks-fmt fuel rest c = ground arith

read_chunks-file :
    (fuel : ℕ) (pcm : Bytes) (c : Chunks)
    → length pcm < 2 ^ 32
    → 3 ≤ fuel
    → read_chunks fuel (fmt_chunk (codes "data" ++ (le32 (u32 (length pcm)) ++ pcm))) c
      ≡ ok (record (with_format c) { pcm = pcm; data_found = true })
read_chunks-file zero pcm c h f = absurd (omega arith)
read_chunks-file (suc zero) pcm c h f = absurd (omega arith)
read_chunks-file (suc (suc zero)) pcm c h f = absurd (omega arith)
read_chunks-file (suc (suc (suc fuel))) pcm c h f =
    read_chunks-fmt (suc (suc fuel)) (codes "data" ++ (le32 (u32 (length pcm)) ++ pcm)) c
    ∙ read_chunks-data fuel pcm (with_format c) h

-- What the encoder writes for 16 kHz mono, chunk by chunk.
encode_pcm16_wav-chunks :
    (pcm : Bytes) (m : AudioMetadata)
    → m.sample_rate ≡ pos 16000
    → m.channels ≡ pos 1
    → encode_pcm16_wav pcm m
      ≡ codes "RIFF"
        ++ (le32 (u32 (36 + u32 (length pcm)))
            ++ (codes "WAVE" ++ fmt_chunk (codes "data" ++ (le32 (u32 (length pcm)) ++ pcm))))
unfolding encode_pcm16_wav
encode_pcm16_wav-chunks pcm m rate mono = simp (rate, mono)

-- The decoder gives back exactly the samples of a file that the encoder wrote from less than 4 GiB
-- of 16 kHz mono PCM.
pub decode_pcm16le_wav-encode_pcm16_wav :
    (pcm : Bytes) (m : AudioMetadata)
    → length pcm < 2 ^ 32
    → m.sample_rate ≡ pos 16000
    → m.channels ≡ pos 1
    → decode_pcm16le_wav (encode_pcm16_wav pcm m) ≡ ok pcm
unfolding decode_pcm16le_wav le32 le16
decode_pcm16le_wav-encode_pcm16_wav pcm m h rate mono =
    rw (encode_pcm16_wav-chunks pcm m rate mono)
      (ground (arith, read_chunks-file (44 + length pcm) pcm no_chunks h (omega arith)))

read_chunk-ne-out_of_fuel :
    (id chunk : Bytes) (c : Chunks) → read_chunk id chunk c ≢ err Error.out_of_fuel
unfolding read_chunk
read_chunk-ne-out_of_fuel id chunk c = ground arith

-- A round of the loop leaves less of the file than it found.
read_chunks-ne-out_of_fuel :
    (fuel : ℕ) (rest : Bytes) (c : Chunks)
    → length rest < fuel
    → read_chunks fuel rest c ≢ err Error.out_of_fuel
unfolding read_chunks
read_chunks-ne-out_of_fuel zero rest c h = absurd (omega arith)
read_chunks-ne-out_of_fuel (suc fuel) rest c h =
    let size = le_value (slice 4 8 rest) in
    let left = drop (size + size % 2) (drop 8 rest) in
    elim (Result-cases (read_chunk (take 4 rest) (take size (drop 8 rest)) c)) [
      | inl (e, failed) ↦
          ground
            (arith, failed, read_chunk-ne-out_of_fuel (take 4 rest) (take size (drop 8 rest)) c)
      | inr (c', read) ↦ ground (
        arith,
        read,
        read_chunks-ne-out_of_fuel fuel left c',
        length-drop (size + size % 2) (drop 8 rest),
        length-drop 8 rest,
      )
    ]

-- The loop over the chunks ends for every file: the length of the file is fuel enough.
pub decode_pcm16le_wav_total : (file : Bytes) → decode_pcm16le_wav file ≢ err Error.out_of_fuel
unfolding decode_pcm16le_wav
decode_pcm16le_wav_total file =
    ground (
      arith,
      read_chunks-ne-out_of_fuel (length file) (drop 12 file) no_chunks,
      length-drop 12 file,
    )
