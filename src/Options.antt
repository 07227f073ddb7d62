-- ===== src/Options.antt =====
-- The `do` blocks of functions that may have no result.
use mathlib.Core.Option.{Option, none, some}

infixl 1 ◌>>=◌
abbrev pub ◌>>=◌ {ℓ κ} : {A : Type ℓ} {B : Type κ} → Option A → (A → Option B) → Option B
none >>= next = none
some a >>= next = next a
