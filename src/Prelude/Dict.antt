-- ===== src/Prelude/Dict.antt =====
-- Go maps whose keys are strings, as association lists. The order of the list stands for the order
-- in which a map is ranged over, which Go leaves open.
use mathlib.Core.Path.{◌≡◌, refl}
use mathlib.Core.Option.{Option, none, some}
use mathlib.Core.List.{List, [], ◌∷◌}
use native.Mathlib.Omega.{arith}
use talka.Prelude.Tests.{if◌then◌else◌}
use talka.Prelude.Bytes.{Bytes, bytes_eq, bytes_eq_iff}

unfoldable pub lookup : {A : Type 0} → Bytes → List (Bytes × A) → Option A
lookup k [] = none
lookup k ((j, a) ∷ m) = if bytes_eq j k then some a else lookup k m

-- `m[k] = a`.
unfoldable pub insert : {A : Type 0} → Bytes → A → List (Bytes × A) → List (Bytes × A)
insert k a [] = (k, a) ∷ []
insert k a ((j, b) ∷ m) = if bytes_eq j k then (k, a) ∷ m else (j, b) ∷ insert k a m

unfoldable pub delete : {A : Type 0} → Bytes → List (Bytes × A) → List (Bytes × A)
delete k [] = []
delete k ((j, b) ∷ m) = let rest = delete k m in if bytes_eq j k then rest else (j, b) ∷ rest

-- What the map holds, in the order of its list.
unfoldable pub values : {A : Type 0} → List (Bytes × A) → List A
values [] = []
values ((_, a) ∷ m) = a ∷ values m

pub lookup-insert :
    {A : Type 0} (k j : Bytes) (a : A) (m : List (Bytes × A))
    → lookup j (insert k a m) ≡ (if bytes_eq k j then some a else lookup j m)
unfolding lookup insert
lookup-insert k j a [] = refl
lookup-insert k j a ((i, b) ∷ m) =
    ground (arith, bytes_eq_iff k j, bytes_eq_iff i k, bytes_eq_iff i j, lookup-insert k j a m)

pub lookup-delete :
    {A : Type 0} (k j : Bytes) (m : List (Bytes × A))
    → lookup j (delete k m) ≡ (if bytes_eq k j then none else lookup j m)
unfolding lookup delete
lookup-delete k j [] = ground arith
lookup-delete k j ((i, b) ∷ m) =
    ground (arith, bytes_eq_iff k j, bytes_eq_iff i k, bytes_eq_iff i j, lookup-delete k j m)

-- Every entry has a property.
abbrev pub Every : {A : Type 0} → (Bytes → A → Type 0) → List (Bytes × A) → Type 0
Every P [] = Unit {0}
Every P ((k, a) ∷ m) = P k a × Every P m

pub insert-Every :
    {A : Type 0} (P : Bytes → A → Type 0) (k : Bytes) (a : A) (m : List (Bytes × A))
    → P k a
    → Every P m
    → Every P (insert k a m)
unfolding insert
insert-Every P k a [] p h = (p, tt)
insert-Every P k a ((j, b) ∷ m) p (q, h) = ground (arith, insert-Every P k a m p h)

pub delete-Every :
    {A : Type 0} (P : Bytes → A → Type 0) (k : Bytes) (m : List (Bytes × A))
    → Every P m
    → Every P (delete k m)
unfolding delete
delete-Every P k [] h = tt
delete-Every P k ((j, b) ∷ m) (q, h) = ground (arith, delete-Every P k m h)

pub Every-lookup :
    {A : Type 0} (P : Bytes → A → Type 0) (k : Bytes) (a : A) (m : List (Bytes × A))
    → Every P m
    → lookup k m ≡ some a
    → P k a
unfolding lookup
Every-lookup P k a [] h e = absurd (ground (arith, e))
Every-lookup P k a ((j, b) ∷ m) (q, h) e = ground (arith, bytes_eq_iff j k, Every-lookup P k a m h)
