-- ===== src/Prelude/Options.antt =====
-- Options: sequencing, and the value of an option that has one.
use mathlib.Core.Option.{Option, none, some}

infixl 5 ◌>>=◌
abbrev pub ◌>>=◌ {ℓ κ} : {A : Type ℓ} {B : Type κ} → Option A → (A → Option B) → Option B
none >>= f = none
some a >>= f = f a

abbrev pub IsSome {ℓ} : {A : Type ℓ} → Option A → Type 0
IsSome none = ⊥
IsSome (some a) = Unit

abbrev pub value_of {ℓ} : {A : Type ℓ} (o : Option A) → IsSome o → A
value_of none h = absurd h
value_of (some a) h = a
