-- ===== src/Asr/Split.antt =====
-- `splitPCMFrames` of internal/asr/provider.go and `LoadWAVFrames` of wav.go, but for the reading
-- of the file.
pub mod Laws
use talka.Prelude.{
  ℕ, zero, suc, List, [], ◌∷◌, Result, ok, err, ◌>>=◌, length, take, drop, if◌then◌else◌,
}
use talka.Prelude.Int.{ℤ, pos_part, is_positive}
use talka.Prelude.Bytes.{Bytes}
use talka.Asr.Wav.{decode_pcm16le_wav}
use talka.Asr.Wav

abbrev default_frame_size : ℕ
default_frame_size = 640

abbrev pub frame_size_of : ℤ → ℕ
frame_size_of size = if is_positive size then pos_part size else default_frame_size

-- A round of the loop consumes at least a byte, so the length of the data is fuel enough; `take`
-- stops at the end of the data, as `next` does.
split_from : ℕ → ℕ → Bytes → List Bytes
split_from fuel size [] = []
split_from zero size (x ∷ xs) = []
split_from (suc fuel) size (x ∷ xs) = take size (x ∷ xs) ∷ split_from fuel size (drop size (x ∷ xs))

unfoldable pub split_pcm_frames : Bytes → ℤ → List Bytes
unfolding split_from
split_pcm_frames data' size = split_from (length data') (frame_size_of size) data'

unfoldable pub load_wav_frames : Bytes → ℤ → Result Wav.Error (List Bytes)
load_wav_frames file size = do pcm ← decode_pcm16le_wav file; ok (split_pcm_frames pcm size)
