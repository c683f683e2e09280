-- ===== src/Asr/Wav.antt =====
-- internal/asr/wav.go: reading a WAV file. The loop's `offset` is the part of the file that is left.
pub mod Laws
use talka.Prelude.{
  ℕ, zero, suc, ◌+◌, ◌-◌, ◌%◌, ◌<◌, Bool, true, false, not, ◌||◌, ◌&&◌, Option, none, some, List,
  [], ◌∷◌, ◌++◌, Result, ok, err, ◌>>=◌, ◌>>◌, guard, length, take, drop, leb, ltb, ◌==◌,
  if◌then◌else◌,
}
use talka.Prelude.Bytes.{Bytes, codes, bytes_eq}
use talka.Prelude.Words.{le_value}

pub data Error : Type 0 where
  too_small not_riff_wave fmt_too_small missing_chunks wrong_format out_of_fuel : Error
  chunk_exceeds : Bytes → Error
  not_pcm : ℕ → Error

-- The variables that the loop fills in.
pub record Chunks : Type 0 where
  pub format_found : Bool
  pub data_found : Bool
  pub channels : ℕ
  pub sample_rate : ℕ
  pub bits_per_sample : ℕ
  pub pcm : Bytes

abbrev pub no_chunks : Chunks
no_chunks = record {
  format_found = false;
  data_found = false;
  channels = 0;
  sample_rate = 0;
  bits_per_sample = 0;
  pcm = [];
}

-- `data[from:to]`.
abbrev pub slice : ℕ → ℕ → Bytes → Bytes
slice from to data' = take (to - from) (drop from data')

-- The switch over the chunk's id; a chunk of another kind is passed over.
read_chunk : Bytes → Bytes → Chunks → Result Error Chunks
read_chunk id chunk c =
    if bytes_eq id (codes "fmt ")
    then (do
      guard (not (ltb (length chunk) 16)) Error.fmt_too_small
      guard (le_value (slice 0 2 chunk) == 1) (Error.not_pcm (le_value (slice 0 2 chunk)))
      ok (record c {
        channels = le_value (slice 2 4 chunk);
        sample_rate = le_value (slice 4 8 chunk);
        bits_per_sample = le_value (slice 14 16 chunk);
        format_found = true;
      }))
    else if bytes_eq id (codes "data")
    then ok (record c { pcm = chunk; data_found = true })
    else ok c

-- A round of the loop consumes at least eight bytes, so the length of the file is fuel enough.
read_chunks : ℕ → Bytes → Chunks → Result Error Chunks
unfolding read_chunk
read_chunks zero rest c = err Error.out_of_fuel
read_chunks (suc fuel) rest c =
    if ltb (length rest) 8
    then ok c
    else (let id = take 4 rest in
        let size = le_value (slice 4 8 rest) in
        let body = drop 8 rest in
        let left = drop (size + size % 2) body in
        do
          guard (not (ltb (length body) size)) (Error.chunk_exceeds id)
          c' ← read_chunk id (take size body) c
          read_chunks fuel left c')

-- `decodePCM16LEWAV`.
pub decode_pcm16le_wav : Bytes → Result Error Bytes
decode_pcm16le_wav file = do
  guard (not (ltb (length file) 44)) Error.too_small
  guard (bytes_eq (slice 0 4 file) (codes "RIFF") && bytes_eq (slice 8 12 file) (codes "WAVE"))
      Error.not_riff_wave
  c ← read_chunks (length file) (drop 12 file) no_chunks
  guard (c.format_found && c.data_found) Error.missing_chunks
  guard (c.channels == 1 && c.sample_rate == 16000 && c.bits_per_sample == 16) Error.wrong_format
  ok c.pcm
