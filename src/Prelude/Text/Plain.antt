-- ===== src/Prelude/Text/Plain.antt =====
-- Lines of ASCII that have no white space, such as base64 text, are trimmed to what they hold.
use Prim.Native.Nat.{ℕ, ◌≤◌, ◌<◌}
use mathlib.Core.Path.{◌≡◌, refl, sym, subst}
use mathlib.Core.List.{[], ◌∷◌, ◌++◌, reverse, reverse-append, reverse-reverse}
use native.Mathlib.Omega.{arith}
use talka.Prelude.Bytes.{Bytes}
use talka.Prelude.Base64.{digit, encode_to_string}
use talka.Prelude.Text.{leading_space, trailing_space, skip_spaces, trim_space}
use talka.Prelude.Text.Laws.{skip_spaces_none}

abbrev pub AllPlain : Bytes → Type 0
AllPlain [] = Unit {0}
AllPlain (x ∷ xs) = (33 ≤ x) × (x < 128) × AllPlain xs

AllPlain-append : (xs ys : Bytes) → AllPlain xs → AllPlain ys → AllPlain (xs ++ ys)
AllPlain-append [] ys h k = k
AllPlain-append (x ∷ xs) ys (low, high, h) k = (low, high, AllPlain-append xs ys h k)

reverse-AllPlain : (xs : Bytes) → AllPlain xs → AllPlain (reverse xs)
reverse-AllPlain [] h = tt
reverse-AllPlain (x ∷ xs) (low, high, h) =
    subst AllPlain (sym (reverse-append (x ∷ []) xs))
      (AllPlain-append (reverse xs) (x ∷ []) (reverse-AllPlain xs h) (low, high, tt))

leading_space_plain : (x : ℕ) (s : Bytes) → 33 ≤ x → x < 128 → leading_space (x ∷ s) ≡ 0
unfolding leading_space
leading_space_plain a [] low high = ground arith
leading_space_plain a (b ∷ []) low high = ground arith
leading_space_plain a (b ∷ c ∷ s) low high = ground arith

trailing_space_plain : (s : Bytes) → AllPlain s → trailing_space s ≡ 0
unfolding trailing_space
trailing_space_plain [] h = refl
trailing_space_plain (a ∷ []) h = ground arith
trailing_space_plain (a ∷ b ∷ []) h = ground arith
trailing_space_plain (a ∷ b ∷ c ∷ s) h = ground arith

skip_line_feed : (s : Bytes) → AllPlain s → skip_spaces trailing_space 0 (10 ∷ s) ≡ s
unfolding skip_spaces trailing_space
skip_line_feed [] h = refl
skip_line_feed (a ∷ []) h = ground (arith, trailing_space_plain (a ∷ []) h)
skip_line_feed (a ∷ b ∷ s) h = ground (arith, trailing_space_plain (a ∷ b ∷ s) h)

pub trim_space-line : (s : Bytes) → AllPlain s → trim_space (s ++ 10 ∷ []) ≡ s
unfolding trim_space
trim_space-line [] h = unfold skip_spaces leading_space in refl
trim_space-line (x ∷ xs) h =
    rw
      (
        skip_spaces_none leading_space (x ∷ (xs ++ 10 ∷ []))
            (leading_space_plain x (xs ++ 10 ∷ []) h.0 h.1),
        reverse-append (x ∷ xs) (10 ∷ []),
        skip_line_feed (reverse (x ∷ xs)) (reverse-AllPlain (x ∷ xs) h),
      )
      (reverse-reverse (x ∷ xs))

digit_plain : (n : ℕ) → (33 ≤ digit n) × (digit n < 128)
unfolding digit
digit_plain n = ground arith

pub encode_to_string-AllPlain : (xs : Bytes) → AllPlain (encode_to_string xs)
unfolding encode_to_string
encode_to_string-AllPlain [] = tt
encode_to_string-AllPlain (a ∷ []) = grind (arith, digit_plain)
encode_to_string-AllPlain (a ∷ b ∷ []) = grind (arith, digit_plain)
encode_to_string-AllPlain (a ∷ b ∷ c ∷ rest) =
    grind (arith, digit_plain, encode_to_string-AllPlain rest)
