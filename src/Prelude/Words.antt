-- ===== src/Prelude/Words.antt =====
-- `binary.BigEndian` and `binary.LittleEndian` on fixed-width words, and reading a field that
-- carries its length in front.
use Prim.Native.Nat.{ℕ, ◌+◌, ◌/◌, ◌%◌, ◌*◌, ◌^◌, ◌<◌}
use mathlib.Core.Path.{◌≡◌, refl}
use mathlib.Core.List.{List, [], ◌∷◌, ◌++◌}
use native.Mathlib.Omega.{arith}
use talka.Prelude.Bytes.{Bytes}
use talka.Prelude.Lists.{length}

unfoldable pub be16 : ℕ → Bytes
be16 n = n / 256 % 256 ∷ n % 256 ∷ []

unfoldable pub be32 : ℕ → Bytes
be32 n = n / 2 ^ 24 % 256 ∷ n / 2 ^ 16 % 256 ∷ n / 2 ^ 8 % 256 ∷ n % 256 ∷ []

unfoldable pub be64 : ℕ → Bytes
be64 n = be32 (n / 2 ^ 32) ++ be32 (n % 2 ^ 32)

unfoldable pub le16 : ℕ → Bytes
le16 n = n % 256 ∷ n / 256 % 256 ∷ []

unfoldable pub le32 : ℕ → Bytes
le32 n = n % 256 ∷ n / 2 ^ 8 % 256 ∷ n / 2 ^ 16 % 256 ∷ n / 2 ^ 24 % 256 ∷ []

-- The integer that big-endian or little-endian bytes spell.
unfoldable pub be_value : ℕ → Bytes → ℕ
be_value acc [] = acc
be_value acc (x ∷ xs) = be_value (acc * 256 + x) xs

unfoldable pub le_value : Bytes → ℕ
le_value [] = 0
le_value (x ∷ xs) = x + 256 * le_value xs

pub be_value-be16 : (n : ℕ) → n < 2 ^ 16 → be_value 0 (be16 n) ≡ n
unfolding be16 be_value
be_value-be16 n h = omega arith

pub be_value-be32 : (n : ℕ) → n < 2 ^ 32 → be_value 0 (be32 n) ≡ n
unfolding be32 be_value
be_value-be32 n h = omega arith

pub le_value-le16 : (n : ℕ) → n < 2 ^ 16 → le_value (le16 n) ≡ n
unfolding le16 le_value
le_value-le16 n h = omega arith

pub le_value-le32 : (n : ℕ) → n < 2 ^ 32 → le_value (le32 n) ≡ n
unfolding le32 le_value
le_value-le32 n h = omega arith

-- Words with the same bytes are the same, whatever follows them.
pub be32-append_injective :
    (m n : ℕ) (xs ys : Bytes)
    → m < 2 ^ 32
    → n < 2 ^ 32
    → be32 m ++ xs ≡ be32 n ++ ys
    → (m ≡ n) × (xs ≡ ys)
unfolding be32
be32-append_injective m n xs ys hm hn e = ground arith

pub be64-append_injective :
    (m n : ℕ) (xs ys : Bytes)
    → m < 2 ^ 64
    → n < 2 ^ 64
    → be64 m ++ xs ≡ be64 n ++ ys
    → (m ≡ n) × (xs ≡ ys)
unfolding be64 be32
be64-append_injective m n xs ys hm hn e = ground arith

-- Lists of one length with equal concatenations are equal.
pub append_injective {ℓ} :
    {A : Type ℓ} (xs ys : List A) (us vs : List A)
    → length xs ≡ length ys
    → xs ++ us ≡ ys ++ vs
    → (xs ≡ ys) × (us ≡ vs)
append_injective [] [] us vs l e = (refl, e)
append_injective [] (y ∷ ys) us vs l e = absurd (omega arith)
append_injective (x ∷ xs) [] us vs l e = absurd (omega arith)
append_injective (x ∷ xs) (y ∷ ys) us vs l e = ground (arith, append_injective xs ys us vs)

-- A length is written as a uint32.
abbrev pub u32 : ℕ → ℕ
u32 n = n % 2 ^ 32

-- A text behind its length can be told from what follows.
pub field_injective :
    (xs ys us vs : Bytes)
    → length xs < 2 ^ 32
    → length ys < 2 ^ 32
    → be32 (u32 (length xs)) ++ (xs ++ us) ≡ be32 (u32 (length ys)) ++ (ys ++ vs)
    → (xs ≡ ys) × (us ≡ vs)
field_injective xs ys us vs hx hy e =
    let (l, rest) =
      be32-append_injective (u32 (length xs)) (u32 (length ys)) (xs ++ us) (ys ++ vs) (omega arith)
        (omega arith) e in
    append_injective xs ys us vs (omega arith) rest

pub last_field_injective :
    (xs ys : Bytes)
    → length xs < 2 ^ 32
    → length ys < 2 ^ 32
    → be32 (u32 (length xs)) ++ xs ≡ be32 (u32 (length ys)) ++ ys
    → xs ≡ ys
last_field_injective xs ys hx hy e =
    (be32-append_injective (u32 (length xs)) (u32 (length ys)) xs ys (omega arith) (omega arith)
      e).1
