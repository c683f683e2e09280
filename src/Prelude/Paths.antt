-- ===== src/Prelude/Paths.antt =====
-- The functions of Go's `path/filepath` that the program calls, on Unix, and the decimal numerals of
-- `%d`.
use Prim.Native.Nat.{ℕ, zero, suc, ◌+◌, ◌/◌, ◌%◌}
use mathlib.Core.Path.{◌≡◌, refl}
use mathlib.Core.Bool.{Bool, true, false, ◌||◌}
use mathlib.Core.List.{List, [], ◌∷◌, ◌++◌, reverse}
use talka.Prelude.Tests.{ltb, ◌==◌, if◌then◌else◌}
use talka.Prelude.Int.{ℤ, pos, negsuc}
use talka.Prelude.Bytes.{Bytes, codes, bytes_eq, is_empty}
use talka.Prelude.Text.{has_prefix, join_with, trim_right}

abbrev slash : ℕ
slash = 47

-- `strings.Split` by a slash.
abbrev with_first : ℕ → List Bytes → List Bytes
with_first x [] = (x ∷ []) ∷ []
with_first x (p ∷ ps) = (x ∷ p) ∷ ps

abbrev split_slash : Bytes → List Bytes
split_slash [] = [] ∷ []
split_slash (x ∷ xs) =
    let rest = split_slash xs in if x == slash then [] ∷ rest else with_first x rest

-- `filepath.IsAbs`.
abbrev pub is_abs : Bytes → Bool
is_abs p = has_prefix p (codes "/")

-- The elements of a path that `filepath.Clean` keeps, the last one first.
abbrev up : Bool → List Bytes → List Bytes
up rooted [] = if rooted then [] else codes ".." ∷ []
up rooted (e ∷ es) = if bytes_eq e (codes "..") then codes ".." ∷ e ∷ es else es

abbrev keep : Bool → List Bytes → List Bytes → List Bytes
keep rooted kept [] = kept
keep rooted kept (e ∷ es) =
    if is_empty e || bytes_eq e (codes ".")
    then keep rooted kept es
    else if bytes_eq e (codes "..")
    then keep rooted (up rooted kept) es
    else keep rooted (e ∷ kept) es

abbrev or_dot : Bytes → Bytes
or_dot p = if is_empty p then codes "." else p

-- `filepath.Clean`.
unfoldable pub clean : Bytes → Bytes
clean p =
    let elements = join_with (codes "/") (reverse (keep (is_abs p) [] (split_slash p))) in
    if is_abs p then codes "/" ++ elements else or_dot elements

-- `filepath.Join` of two elements.
unfoldable pub join_paths : Bytes → Bytes → Bytes
join_paths [] [] = []
join_paths [] (x ∷ xs) = clean (x ∷ xs)
join_paths (x ∷ xs) b = clean ((x ∷ xs) ++ codes "/" ++ b)

-- The part of a path that is read backwards from its first slash on, and the part before it.
abbrev from_slash : Bytes → Bytes
from_slash [] = []
from_slash (x ∷ xs) = if x == slash then x ∷ xs else from_slash xs

abbrev until_slash : Bytes → Bytes
until_slash [] = []
until_slash (x ∷ xs) = if x == slash then [] else x ∷ until_slash xs

-- `filepath.Dir` and `filepath.Base`.
unfoldable pub dir : Bytes → Bytes
dir p = clean (reverse (from_slash (reverse p)))

abbrev or_slash : Bytes → Bytes
or_slash p = if is_empty p then codes "/" else p

unfoldable pub base : Bytes → Bytes
base [] = codes "."
base (x ∷ xs) = or_slash (reverse (until_slash (reverse (trim_right slash (x ∷ xs)))))

-- A round divides the number by ten, so the number is fuel enough.
abbrev digits : ℕ → ℕ → Bytes
digits zero n = (48 + n % 10) ∷ []
digits (suc fuel) n = elim (ltb n 10) [
  | true ↦ (48 + n) ∷ []
  | false ↦ digits fuel (n / 10) ++ (48 + n % 10) ∷ []
]

-- `%d`.
unfoldable pub decimal : ℤ → Bytes
decimal (pos n) = digits n n
decimal (negsuc n) = codes "-" ++ digits (n + 1) (n + 1)

joined : join_paths (codes "/etc/talka") (codes "../models//./a") ≡ codes "/etc/models/a"
unfolding join_paths clean
joined = refl

of_dir : dir (codes "models/x/encoder.onnx") ≡ codes "models/x"
unfolding dir clean
of_dir = refl

of_base : base (codes "models/x/encoder.onnx") ≡ codes "encoder.onnx"
unfolding base trim_right
of_base = refl

one_hundred : decimal (pos 105) ≡ codes "105"
unfolding decimal
one_hundred = refl
