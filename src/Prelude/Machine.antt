-- ===== src/Prelude/Machine.antt =====
-- `usize` arithmetic of a release build, and code that may panic or whose model has fuel.
use Prim.Native.Nat.{ℕ, ◌+◌, ◌%◌, ◌^◌}
use mathlib.Core.Option.{Option, none, some}

abbrev pub usize_mod : ℕ
usize_mod = 2 ^ 64

abbrev pub u16_mod : ℕ
u16_mod = 2 ^ 16

-- `a + b` in a `usize`: without overflow checks it wraps around.
unfoldable pub wrapping_add : ℕ → ℕ → ℕ
wrapping_add a b = (a + b) % usize_mod

-- A value, a panic (an index out of bounds), or the end of the model's fuel.
pub data Outcome {ℓ} (A : Type ℓ) : Type ℓ where
  returns : A → Outcome A
  panics out_of_fuel : Outcome A

-- The next step runs on the value; a panic unwinds.
infixl 5 ◌>>=◌
abbrev pub ◌>>=◌ {ℓ κ} : {A : Type ℓ} {B : Type κ} → Outcome A → (A → Outcome B) → Outcome B
returns a >>= f = f a
panics >>= f = panics
out_of_fuel >>= f = out_of_fuel

-- An index into a vector.
abbrev pub index {ℓ} : {A : Type ℓ} → Option A → Outcome A
index none = panics
index (some a) = returns a
