-- ===== src/Asr/Split/Laws.antt =====
-- internal/asr/provider.go: the frames are the data, cut into pieces of one size.
use talka.Prelude.{
  ℕ, zero, suc, ◌-◌, ◌≤◌, ◌<◌, ◌≡◌, refl, List, [], ◌∷◌, arith, length, length-take, length-drop,
  take-append-drop, take, drop,
}
use talka.Prelude.Int.{ℤ}
use talka.Prelude.Bytes.{Bytes}
use talka.Session.Capture.Streams.{join}
use talka.Asr.Split.{frame_size_of, split_from, split_pcm_frames}

-- All frames have the size, but for the last, which may be shorter and is not empty.
abbrev pub Sized : ℕ → List Bytes → Type 0
Sized size [] = Unit {0}
Sized size (frame ∷ []) = (0 < length frame) × (length frame ≤ size)
Sized size (frame ∷ next ∷ more) = (length frame ≡ size) × Sized size (next ∷ more)

split_from-join :
    (fuel size : ℕ) (xs : Bytes) → 0 < size → length xs ≤ fuel → join (split_from fuel size xs) ≡ xs
unfolding split_from
split_from-join fuel size [] h f = refl
split_from-join zero size (x ∷ xs) h f = absurd (omega arith)
split_from-join (suc fuel) size (x ∷ xs) h f = ground (
  arith,
  split_from-join fuel size (drop size (x ∷ xs)) h,
  length-drop size (x ∷ xs),
  take-append-drop size (x ∷ xs),
)

-- A frame in front of those of the rest.
Sized-next :
    (fuel size x : ℕ) (xs rest : Bytes)
    → 0 < size
    → length rest ≤ fuel
    → length rest ≡ length (x ∷ xs) - size
    → Sized size (split_from fuel size rest)
    → Sized size (take size (x ∷ xs) ∷ split_from fuel size rest)
unfolding split_from
Sized-next fuel size x xs [] h f l v = omega (arith, length-take size (x ∷ xs))
Sized-next zero size x xs (y ∷ ys) h f l v = absurd (omega arith)
Sized-next (suc fuel) size x xs (y ∷ ys) h f l v = (omega (arith, length-take size (x ∷ xs)), v)

split_from-Sized :
    (fuel size : ℕ) (xs : Bytes)
    → 0 < size
    → length xs ≤ fuel
    → Sized size (split_from fuel size xs)
unfolding split_from
split_from-Sized fuel size [] h f = tt
split_from-Sized zero size (x ∷ xs) h f = absurd (omega arith)
split_from-Sized (suc fuel) size (x ∷ xs) h f =
    let shorter = length-drop size (x ∷ xs) in
    Sized-next fuel size x xs (drop size (x ∷ xs)) h (omega arith) shorter
      (split_from-Sized fuel size (drop size (x ∷ xs)) h (omega arith))

frame_size_of-positive : (size : ℤ) → 0 < frame_size_of size
frame_size_of-positive size = ground arith

-- Splitting loses and reorders nothing: the frames in order are the data. Each has the frame size
-- (640 bytes if none is given that is positive), except that the last may be shorter but not empty.
pub split_pcm_frames-join :
    (data' : Bytes) (size : ℤ)
    → (join (split_pcm_frames data' size) ≡ data')
      × Sized (frame_size_of size) (split_pcm_frames data' size)
unfolding split_pcm_frames
split_pcm_frames-join data' size =
    let positive = frame_size_of-positive size in
    (
      split_from-join (length data') (frame_size_of size) data' positive (omega arith),
      split_from-Sized (length data') (frame_size_of size) data' positive (omega arith),
    )
