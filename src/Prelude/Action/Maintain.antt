-- ===== src/Prelude/Action/Maintain.antt =====
-- Actions that maintain a property of the state, whatever their result.
use mathlib.Core.Bool.{Bool, true, false}
use mathlib.Core.Option.{Option}
use hft_engine_rs.Prelude.Tests.{if◌then◌else◌}
use hft_engine_rs.Prelude.Outcome.{Result, ok, err}
use hft_engine_rs.Prelude.Action.{
  Action, follow, ◌>>=◌, ◌>>◌, done, lift, require, reject_if, self, modify,
}

module _ {S E A : Type 0} (P : S → Type 0) where
  pub record Maintains (m : Action S E A) : Type 0 where
    pub kept : (s : S) → P s → P (m s).1

  pub done-Maintains : (a : A) → Maintains (done {S = S} {E = E} a)
  done-Maintains a = record { kept = λ s p. p }

  pub lift-Maintains : (r : Result E A) → Maintains (lift {S = S} r)
  lift-Maintains r = record { kept = λ s p. p }

  pub require-Maintains : (o : Option A) (e : E) → Maintains (require {S = S} o e)
  require-Maintains o e = record { kept = λ s p. p }

  pub if-Maintains :
      (b : Bool) (m k : Action S E A) → Maintains m → Maintains k → Maintains (if b then m else k)
  if-Maintains true m k p q = p
  if-Maintains false m k p q = q

module _ {S E : Type 0} (P : S → Type 0) where
  pub self-Maintains : Maintains P (self {S = S} {E = E})
  self-Maintains = record { kept = λ s p. p }

  pub reject_if-Maintains : (b : Bool) (e : E) → Maintains P (reject_if {S = S} b e)
  reject_if-Maintains true e = record { kept = λ s p. p }
  reject_if-Maintains false e = record { kept = λ s p. p }

  pub modify-Maintains : (f : S → S) → ((s : S) → P s → P (f s)) → Maintains P (modify {E = E} f)
  modify-Maintains f k = record { kept = k }

module _ {S E A B : Type 0} (P : S → Type 0) where
  follow_kept :
      (o : Result E A × S) (k : A → Action S E B)
      → P o.1
      → ((a : A) → Maintains P (k a))
      → P (follow o k).1
  follow_kept (ok a, t) k p q = (q a).kept t p
  follow_kept (err x, t) k p q = p

  pub >>=-Maintains :
      (m : Action S E A) (k : A → Action S E B)
      → Maintains P m
      → ((a : A) → Maintains P (k a))
      → Maintains P (m >>= k)
  >>=-Maintains m k r q = record { kept = λ s p. follow_kept (m s) k (r.kept s p) q }

module _ {S E B : Type 0} (P : S → Type 0) where
  pub >>-Maintains :
      (m : Action S E (Unit {0})) (k : Action S E B)
      → Maintains P m
      → Maintains P k
      → Maintains P (m >> k)
  >>-Maintains m k r q = >>=-Maintains P m (λ _. k) r (λ _. q)

pub ruleset maintains = (
  done-Maintains, lift-Maintains, require-Maintains, if-Maintains, self-Maintains,
  reject_if-Maintains, >>=-Maintains, >>-Maintains,
)
