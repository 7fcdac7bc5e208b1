-- ===== src/Base/Result.antt =====
-- Go's `(value, error)` results, where exactly one of the two is set, with `do` blocks.
use mathlib.Core.Path.{◌≡◌, refl}
use native.Mathlib.Omega.{arith}

pub data Result {u v} (Error : Type u) (Value : Type v) : Type (u ⊔ v) where
  err : Error → Result Error Value
  ok : Value → Result Error Value

infixl 5 ◌>>=◌
abbrev pub ◌>>=◌ {u v w} :
    {Error : Type u} {Value : Type v} {Next : Type w}
    → Result Error Value
    → (Value → Result Error Next)
    → Result Error Next
err failure >>= next = err failure
ok value >>= next = next value

-- A chain that succeeds has got a value at its first step.
pub >>=-eq-ok {u v w} :
    {Error : Type u} {Value : Type v} {Next : Type w} (first : Result Error Value)
    (next : Value → Result Error Next) {got : Next}
    → (first >>= next) ≡ ok got
    → (value : Value) × (first ≡ ok value) × (next value ≡ ok got)
>>=-eq-ok (err failure) next h = absurd (ground arith)
>>=-eq-ok (ok value) next h = (value, refl, h)
