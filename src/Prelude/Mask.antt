-- ===== src/Prelude/Mask.antt =====
-- The masking of WebSocket payloads, `payload[i] ^= key[i % 4]`.
use Prim.Native.Nat.{ℕ, zero, suc, ◌+◌, ◌%◌, ◌<◌, bit_xor}
use mathlib.Core.Path.{◌≡◌, refl, ap}
use mathlib.Core.Bool.{Bool, true}
use mathlib.Core.List.{[], ◌∷◌}
use native.Mathlib.Omega.{arith}
use talka.Prelude.Tests.{◌==◌, ==_iff}
use talka.Prelude.Lists.{length, get_or}
use talka.Prelude.Finite.{every, every-at}
use talka.Prelude.Bytes.{Bytes, AllBytes}

-- Masking a byte with the same key byte again gives it back, for each of the 2^16 pairs.
returns : ℕ → ℕ → Bool
returns k x = bit_xor (bit_xor x k) k == x

returns_table : every (λ k. every (returns k) 256) 256 ≡ true
unfolding every returns
returns_table = refl

unmask-mask : (k x : ℕ) → k < 256 → x < 256 → bit_xor (bit_xor x k) k ≡ x
unfolding returns
unmask-mask k x in_key in_text =
    let row = every-at (λ j. every (returns j) 256) 256 k in_key returns_table in
    (==_iff _ x).0 (every-at (returns k) 256 x in_text row)

-- From the index `i` on.
pub mask_from : ℕ → Bytes → Bytes → Bytes
mask_from i key [] = []
mask_from i key (x ∷ xs) = bit_xor x (get_or key (i % 4) 0) ∷ mask_from (i + 1) key xs

get_or-lt : (key : Bytes) (i : ℕ) → AllBytes key → get_or key i 0 < 256
get_or-lt [] i h = omega arith
get_or-lt (k ∷ ks) zero (h, hs) = h
get_or-lt (k ∷ ks) (suc i) (h, hs) = get_or-lt ks i hs

pub mask_from_twice :
    (i : ℕ) (key xs : Bytes)
    → AllBytes key
    → AllBytes xs
    → mask_from i key (mask_from i key xs) ≡ xs
unfolding mask_from
mask_from_twice i key [] hk hx = refl
mask_from_twice i key (x ∷ xs) hk (h, hs) = ground (
  arith,
  unmask-mask (get_or key (i % 4) 0) x (get_or-lt key (i % 4) hk) h,
  mask_from_twice (i + 1) key xs hk hs,
)

pub length-mask_from : (i : ℕ) (key xs : Bytes) → length (mask_from i key xs) ≡ length xs
unfolding mask_from
length-mask_from i key [] = refl
length-mask_from i key (x ∷ xs) = ap suc (length-mask_from (i + 1) key xs)
