-- ===== src/Pairing/World.antt =====
-- The state that a pairing manager of internal/pairing/manager.go changes, and calls that fail.
use talka.Prelude.{ℕ, Bool, Option, none, some, [], Result, ok, err, guard}
use talka.Prelude.Bytes.{Bytes}
use talka.Pairing.{Error, PendingPairing}

-- What a manager changes: its store, its random source and its pending pairing.
pub record World (S : Type 0) : Type 0 where
  pub store : S
  pub rand : Bytes
  pub pending : Option PendingPairing

-- The readings of the clock that a call makes, in the order of the calls of `Now`.
pub record Readings : Type 0 where
  pub checked : ℕ
  pub started : ℕ
  pub paired : ℕ
  pub seen : ℕ

-- A call that may fail, and keeps what it changed until then.
abbrev pub M : Type 0 → Type 0 → Type 0
M S A = World S → World S × Result Error A

abbrev pub continue :
    {S A B : Type 0} → World S × Result Error A → (A → M S B) → World S × Result Error B
continue (w, ok a) f = f a w
continue (w, err e) f = (w, err e)

infixl 5 ◌>>=◌ ◌>>◌
abbrev pub ◌>>=◌ : {S A B : Type 0} → M S A → (A → M S B) → M S B
◌>>=◌ m f w = continue (m w) f

abbrev pub ◌>>◌ : {S B : Type 0} → M S (Unit {0}) → M S B → M S B
m >> k = m >>= λ _. k

abbrev pub pure : {S A : Type 0} → A → M S A
pure a w = (w, ok a)

abbrev pub lift : {S A : Type 0} → Result Error A → M S A
lift r w = (w, r)

abbrev pub require : {S : Type 0} → Bool → Error → M S (Unit {0})
require test e w = (w, guard test e)

-- A read of the random source, which is used up when it fails.
abbrev pub draw : {S A : Type 0} → (Bytes → Option (A × Bytes)) → Error → M S A
draw read e w = elim (read w.rand) [
  | none ↦ (record w { rand = [] }, err e)
  | some (a, rest) ↦ (record w { rand = rest }, ok a)
]

abbrev pub write_store : {S : Type 0} → (S → S × Result Error (Unit {0})) → M S (Unit {0})
write_store f w = let (s, r) = f w.store in (record w { store = s }, r)
