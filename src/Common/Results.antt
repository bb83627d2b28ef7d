-- ===== src/Common/Results.antt =====
-- Go's (value, error) pair, and the chain of `if err != nil { return err }`.
use mathlib.Core.Path.{◌≡◌, refl}
use mathlib.Core.Option.{Option, none, some}

pub data Result {α β} (Failure : Type α) (Value : Type β) : Type (α ⊔ β) where
  err : Failure → Result Failure Value
  ok : Value → Result Failure Value

-- The value that an optional result stands for, or the error `failure`.
abbrev pub or_err {α β} : {F : Type α} {V : Type β} → F → Option V → Result F V
or_err failure (some value) = ok value
or_err failure none = err failure

infixl 5 ◌>>=◌
abbrev pub ◌>>=◌ {α β γ} :
    {F : Type α} {V : Type β} {W : Type γ} → Result F V → (V → Result F W) → Result F W
err failure >>= next = err failure
ok value >>= next = next value

-- A chain that succeeds has a first value, with which the rest succeeds.
pub ok_of_chain {α β γ} :
    {F : Type α} {V : Type β} {W : Type γ} {w : W} (next : V → Result F W) (first : Result F V)
    → (first >>= next) ≡ ok w
    → (value : V) × (first ≡ ok value) × (next value ≡ ok w)
ok_of_chain next (err failure) e = cc
ok_of_chain next (ok value) e = (value, refl, e)
