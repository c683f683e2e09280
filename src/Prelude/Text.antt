-- ===== src/Prelude/Text.antt =====
-- The functions of Go's `strings` that the program calls, on strings as bytes in UTF-8.
pub mod Laws
pub mod Plain
use Prim.Native.Nat.{ℕ, zero, suc, ◌+◌, ◌-◌}
use mathlib.Core.Path.{◌≡◌, refl}
use mathlib.Core.Bool.{Bool, true, false, ◌&&◌, ◌||◌}
use mathlib.Core.List.{List, [], ◌∷◌, ◌++◌, map, reverse}
use talka.Prelude.Tests.{ltb, leb, ◌==◌, if◌then◌else◌}
use talka.Prelude.Lists.{length, take, drop}
use talka.Prelude.Bytes.{Bytes, codes, is_empty}

-- Tab, line feed, vertical tab, form feed, carriage return, space.
abbrev space_ascii : ℕ → Bool
space_ascii a = a == 32 || leb 9 a && leb a 13

-- U+0085 and U+00A0.
abbrev space_two : ℕ → ℕ → Bool
space_two a b = a == 194 && (b == 133 || b == 160)

-- U+1680, U+2000 to U+200A, U+2028, U+2029, U+202F, U+205F, U+3000.
abbrev space_three : ℕ → ℕ → ℕ → Bool
space_three a b c =
    a == 225 && b == 154 && c == 128
    || a == 226 && b == 128 && (leb 128 c && leb c 138 || c == 168 || c == 169 || c == 175)
    || a == 226 && b == 129 && c == 159
    || a == 227 && b == 128 && c == 128

-- The bytes of the white space that a string starts with: 0 if its first character is another.
unfoldable leading_space : Bytes → ℕ
leading_space [] = 0
leading_space (a ∷ []) = if space_ascii a then 1 else 0
leading_space (a ∷ b ∷ []) = if space_ascii a then 1 else if space_two a b then 2 else 0
leading_space (a ∷ b ∷ c ∷ rest) =
    if space_ascii a then 1 else if space_two a b then 2 else if space_three a b c then 3 else 0

-- The same at the end of a string that is read backwards.
unfoldable trailing_space : Bytes → ℕ
trailing_space [] = 0
trailing_space (a ∷ []) = if space_ascii a then 1 else 0
trailing_space (a ∷ b ∷ []) = if space_ascii a then 1 else if space_two b a then 2 else 0
trailing_space (a ∷ b ∷ c ∷ rest) =
    if space_ascii a then 1 else if space_two b a then 2 else if space_three c b a then 3 else 0

-- Drops the first `k` bytes and the spaces after them, whose widths `width` measures.
unfoldable skip_spaces : (Bytes → ℕ) → ℕ → Bytes → Bytes
skip_spaces width k [] = []
skip_spaces width (suc k) (x ∷ xs) = skip_spaces width k xs
skip_spaces width zero (x ∷ xs) = elim (width (x ∷ xs)) [
  | zero ↦ x ∷ xs
  | suc k ↦ skip_spaces width k xs
]

-- `strings.TrimSpace`.
unfoldable pub trim_space : Bytes → Bytes
unfolding skip_spaces leading_space trailing_space
trim_space s = reverse (skip_spaces trailing_space 0 (reverse (skip_spaces leading_space 0 s)))

-- `strings.HasPrefix`.
abbrev pub has_prefix : Bytes → Bytes → Bool
has_prefix xs [] = true
has_prefix [] (p ∷ ps) = false
has_prefix (x ∷ xs) (p ∷ ps) = x == p && has_prefix xs ps

-- `strings.HasSuffix`, `strings.TrimPrefix` and `strings.TrimSuffix`.
abbrev pub has_suffix : Bytes → Bytes → Bool
has_suffix s part = has_prefix (reverse s) (reverse part)

abbrev pub trim_prefix : Bytes → Bytes → Bytes
trim_prefix s part = if has_prefix s part then drop (length part) s else s

abbrev pub trim_suffix : Bytes → Bytes → Bytes
trim_suffix s part = if has_suffix s part then take (length s - length part) s else s

-- `strings.Split(s, "\n")`.
abbrev in_front : ℕ → List Bytes → List Bytes
in_front x [] = (x ∷ []) ∷ []
in_front x (line ∷ lines) = (x ∷ line) ∷ lines

unfoldable pub split_lines : Bytes → List Bytes
split_lines [] = [] ∷ []
split_lines (x ∷ xs) = let rest = split_lines xs in if x == 10 then [] ∷ rest else in_front x rest

-- `strings.Fields`, with the bytes of a white space that are still to be skipped and the word so far.
abbrev ended : Bytes → List Bytes → List Bytes
ended [] words = words
ended (x ∷ xs) words = (x ∷ xs) ∷ words

unfoldable pub fields_from : ℕ → Bytes → Bytes → List Bytes
unfolding leading_space
fields_from k word [] = ended word []
fields_from (suc k) word (x ∷ xs) = fields_from k word xs
fields_from zero word (x ∷ xs) = elim (leading_space (x ∷ xs)) [
  | zero ↦ fields_from 0 (word ++ x ∷ []) xs
  | suc k ↦ ended word (fields_from k [] xs)
]

unfoldable pub fields : Bytes → List Bytes
fields s = fields_from 0 [] s

-- `strings.Contains`.
abbrev pub contains : Bytes → Bytes → Bool
contains [] part = is_empty part
contains (x ∷ xs) part = has_prefix (x ∷ xs) part || contains xs part

-- `strings.TrimRight(s, "/")`.
unfoldable trim_front : ℕ → Bytes → Bytes
trim_front c [] = []
trim_front c (x ∷ xs) = let rest = trim_front c xs in if x == c then rest else x ∷ xs

unfoldable pub trim_right : ℕ → Bytes → Bytes
unfolding trim_front
trim_right c s = reverse (trim_front c (reverse s))

abbrev is_ascii : Bytes → Bool
is_ascii [] = true
is_ascii (x ∷ xs) = ltb x 128 && is_ascii xs

abbrev lower_ascii : ℕ → ℕ
lower_ascii c = if leb 65 c && leb c 90 then c + 32 else c

-- `strings.ToLower`, where `unicode` is its conversion of a string that is not all ASCII.
unfoldable pub to_lower : (Bytes → Bytes) → Bytes → Bytes
to_lower unicode s = if is_ascii s then map lower_ascii s else unicode s

-- `strings.Join`.
abbrev pub join_with : Bytes → List Bytes → Bytes
join_with sep [] = []
join_with sep (x ∷ []) = x
join_with sep (x ∷ y ∷ rest) = x ++ sep ++ join_with sep (y ∷ rest)

blank_trims : trim_space (codes " \t\n") ≡ []
unfolding trim_space skip_spaces leading_space trailing_space
blank_trims = refl

trims :
    trim_space (194 ∷ 160 ∷ 226 ∷ 128 ∷ 168 ∷ 65 ∷ 32 ∷ 66 ∷ 226 ∷ 128 ∷ 137 ∷ 32 ∷ [])
    ≡ codes "A B"
unfolding trim_space skip_spaces leading_space trailing_space
trims = refl
