-- ===== src/Common/Results.antt =====
-- A throwing function returns an `Option`, `none` for the exception.
use mathlib.Core.Bool.{Bool, true, false}
use mathlib.Core.Option.{Option, none, some}
use Prim.Native.Nat.{ℕ}

infixl 5 ◌>>=◌
abbrev pub ◌>>=◌ {ℓ κ} : {A : Type ℓ} {B : Type κ} → Option A → (A → Option B) → Option B
none >>= f = none
some a >>= f = f a

-- `static_cast<int>` of a `bool`.
abbrev pub to_int : Bool → ℕ
to_int true = 1
to_int false = 0
