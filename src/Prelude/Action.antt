-- ===== src/Prelude/Action.antt =====
-- Methods on `&mut self` that return a `Result`: the state stays as the method left it, also where
-- it fails.
pub mod Atomic
pub mod Failure
pub mod Preserve
pub mod Maintain
use mathlib.Core.Bool.{Bool, true, false}
use mathlib.Core.Option.{Option}
use hft_engine_rs.Prelude.Outcome.{Result, ok, err, ok_or}

abbrev pub Action : Type 0 → Type 0 → Type 0 → Type 0
Action S E A = S → Result E A × S

-- What follows a step that has ended.
abbrev pub follow : {S E A B : Type 0} → Result E A × S → (A → S → Result E B × S) → Result E B × S
follow (ok a, s) f = f a s
follow (err e, s) f = (err e, s)

infixl 5 ◌>>=◌ ◌>>◌
abbrev pub ◌>>=◌ : {S E A B : Type 0} → Action S E A → (A → Action S E B) → Action S E B
◌>>=◌ m f s = follow (m s) f

abbrev pub ◌>>◌ : {S E B : Type 0} → Action S E (Unit {0}) → Action S E B → Action S E B
◌>>◌ m k s = follow (m s) (λ _. k)

abbrev pub done : {S E A : Type 0} → A → Action S E A
done a s = (ok a, s)

abbrev pub refuse : {S E A : Type 0} → E → Action S E A
refuse e s = (err e, s)

abbrev pub lift : {S E A : Type 0} → Result E A → Action S E A
lift r s = (r, s)

abbrev pub require : {S E A : Type 0} → Option A → E → Action S E A
require o e s = (ok_or o e, s)

-- `return Err(e)` under a condition.
abbrev pub reject_if : {S E : Type 0} → Bool → E → Action S E (Unit {0})
reject_if true e s = (err e, s)
reject_if false e s = (ok tt, s)

abbrev pub self : {S E : Type 0} → Action S E S
self s = (ok s, s)

abbrev pub modify : {S E : Type 0} → (S → S) → Action S E (Unit {0})
modify f s = (ok tt, f s)
