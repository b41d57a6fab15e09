-- ===== src/Prelude/Action/Preserve.antt =====
-- Actions that leave a part of the state as it was, whatever their result.
use mathlib.Core.Path.{◌≡◌, refl, ◌∙◌}
use mathlib.Core.Bool.{Bool, true, false}
use mathlib.Core.Option.{Option}
use hft_engine_rs.Prelude.Tests.{if◌then◌else◌}
use hft_engine_rs.Prelude.Outcome.{Result, ok, err}
use hft_engine_rs.Prelude.Action.{
  Action, follow, ◌>>=◌, ◌>>◌, done, refuse, lift, require, reject_if, self,
}

module _ {S E V A : Type 0} (f : S → V) where
  pub record Preserves (m : Action S E A) : Type 0 where
    pub kept : (s : S) → f (m s).1 ≡ f s

  pub done-Preserves : (a : A) → Preserves (done {S = S} {E = E} a)
  done-Preserves a = record { kept = λ s. refl }

  pub refuse-Preserves : (e : E) → Preserves (refuse {S = S} {A = A} e)
  refuse-Preserves e = record { kept = λ s. refl }

  pub lift-Preserves : (r : Result E A) → Preserves (lift {S = S} r)
  lift-Preserves r = record { kept = λ s. refl }

  pub require-Preserves : (o : Option A) (e : E) → Preserves (require {S = S} o e)
  require-Preserves o e = record { kept = λ s. refl }

  pub if-Preserves :
      (b : Bool) (m k : Action S E A) → Preserves m → Preserves k → Preserves (if b then m else k)
  if-Preserves true m k p q = p
  if-Preserves false m k p q = q

module _ {S E V : Type 0} (f : S → V) where
  pub self-Preserves : Preserves f (self {S = S} {E = E})
  self-Preserves = record { kept = λ s. refl }

  pub reject_if-Preserves : (b : Bool) (e : E) → Preserves f (reject_if {S = S} b e)
  reject_if-Preserves true e = record { kept = λ s. refl }
  reject_if-Preserves false e = record { kept = λ s. refl }

module _ {S E V A B : Type 0} (f : S → V) where
  follow_kept :
      (o : Result E A × S) (k : A → Action S E B) (s : S)
      → f o.1 ≡ f s
      → ((a : A) → Preserves f (k a))
      → f (follow o k).1 ≡ f s
  follow_kept (ok a, t) k s e q = (q a).kept t ∙ e
  follow_kept (err x, t) k s e q = e

  pub >>=-Preserves :
      (m : Action S E A) (k : A → Action S E B)
      → Preserves f m
      → ((a : A) → Preserves f (k a))
      → Preserves f (m >>= k)
  >>=-Preserves m k r q = record { kept = λ s. follow_kept (m s) k s (r.kept s) q }

module _ {S E V B : Type 0} (f : S → V) where
  pub >>-Preserves :
      (m : Action S E (Unit {0})) (k : Action S E B)
      → Preserves f m
      → Preserves f k
      → Preserves f (m >> k)
  >>-Preserves m k r q = >>=-Preserves f m (λ _. k) r (λ _. q)

pub ruleset preserves = (
  done-Preserves, refuse-Preserves, lift-Preserves, require-Preserves, if-Preserves, self-Preserves,
  reject_if-Preserves, >>=-Preserves, >>-Preserves,
)
