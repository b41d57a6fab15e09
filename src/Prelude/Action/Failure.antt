-- ===== src/Prelude/Action/Failure.antt =====
-- Actions whose failures are never of a kind, and actions that change nothing where they fail in
-- that kind.
use mathlib.Core.Path.{◌≡◌, ap, subst, ◌∙◌}
use mathlib.Core.Bool.{Bool, true, false}
use mathlib.Core.Option.{Option, none, some}
use native.Mathlib.Omega.{arith}
use hft_engine_rs.Prelude.Tests.{if◌then◌else◌}
use hft_engine_rs.Prelude.Outcome.{Result, ok, err}
use hft_engine_rs.Prelude.Action.{
  Action, follow, ◌>>=◌, ◌>>◌, done, require, self, reject_if, modify,
}
use hft_engine_rs.Prelude.Action.Atomic.{Reads, Succeeds, reads, succeeds}

module _ {S E A : Type 0} (P : E → Type 0) where
  -- No failure has the property.
  pub record Avoids (m : Action S E A) : Type 0 where
    pub other : (s : S) (x : E) → (m s).0 ≡ err x → ¬ P x

  -- A failure with the property leaves the state as it was.
  pub record Keeps (m : Action S E A) : Type 0 where
    pub same : (s : S) (x : E) → P x → (m s).0 ≡ err x → (m s).1 ≡ s

  pub Reads-Keeps : {m : Action S E A} → Reads m → Keeps m
  Reads-Keeps r = record { same = λ s x p h. r.same s }

  pub Avoids-Keeps : {m : Action S E A} → Avoids m → Keeps m
  Avoids-Keeps r = record { same = λ s x p h. absurd (r.other s x h p) }

  pub Succeeds-Avoids : {m : Action S E A} → Succeeds m → Avoids m
  Succeeds-Avoids r = record { other = λ s x h. absurd (ground (arith, h, r.is_ok s)) }

  pub done-Avoids : (a : A) → Avoids (done {S = S} {E = E} a)
  done-Avoids a = record { other = λ s x h. absurd (ground (arith, h)) }

  pub require-Avoids : (o : Option A) (e : E) → ¬ P e → Avoids (require {S = S} o e)
  require-Avoids none e p = record { other = λ s x h q. p (subst P (cc) q) }
  require-Avoids (some a) e p = record { other = λ s x h. absurd (ground (arith, h)) }

  pub if-Avoids :
      (b : Bool) (m k : Action S E A) → Avoids m → Avoids k → Avoids (if b then m else k)
  if-Avoids true m k p q = p
  if-Avoids false m k p q = q

  pub if-Keeps : (b : Bool) (m k : Action S E A) → Keeps m → Keeps k → Keeps (if b then m else k)
  if-Keeps true m k p q = p
  if-Keeps false m k p q = q

module _ {S E : Type 0} (P : E → Type 0) where
  pub self-Avoids : Avoids P (self {S = S} {E = E})
  self-Avoids = record { other = λ s x h. absurd (ground (arith, h)) }

  pub reject_if-Avoids : (b : Bool) (e : E) → ¬ P e → Avoids P (reject_if {S = S} b e)
  reject_if-Avoids true e p = record { other = λ s x h q. p (subst P (cc) q) }
  reject_if-Avoids false e p = record { other = λ s x h. absurd (ground (arith, h)) }

  pub modify-Avoids : (f : S → S) → Avoids P (modify {E = E} f)
  modify-Avoids f = record { other = λ s x h. absurd (ground (arith, h)) }

err_same :
    {E A B : Type 0} {x y : E}
    → ◌≡◌ {A = Result E B} (err y) (err x)
    → ◌≡◌ {A = Result E A} (err y) (err x)
err_same h = ap err (cc)

module _ {S E A B : Type 0} (P : E → Type 0) where
  follow-Avoids :
      (o : Result E A × S) (k : A → Action S E B) (x : E)
      → ((y : E) → o.0 ≡ err y → ¬ P y)
      → ((a : A) → Avoids P (k a))
      → (follow o k).0 ≡ err x
      → ¬ P x
  follow-Avoids (ok a, t) k x e r h = (r a).other t x h
  follow-Avoids (err y, t) k x e r h = e x (err_same h)

  pub >>=-Avoids :
      (m : Action S E A) (k : A → Action S E B)
      → Avoids P m
      → ((a : A) → Avoids P (k a))
      → Avoids P (m >>= k)
  >>=-Avoids m k r q = record { other = λ s x h. follow-Avoids (m s) k x (r.other s) q h }

  follow-Keeps :
      (o : Result E A × S) (k : A → Action S E B) (s : S) (x : E)
      → o.1 ≡ s
      → ((a : A) → Keeps P (k a))
      → P x
      → (follow o k).0 ≡ err x
      → (follow o k).1 ≡ s
  follow-Keeps (ok a, t) k s x e r p h = (r a).same t x p h ∙ e
  follow-Keeps (err y, t) k s x e r p h = e

  -- A reading step may stand before one that keeps the state.
  pub >>=-Keeps :
      (m : Action S E A) (k : A → Action S E B)
      → Reads m
      → ((a : A) → Keeps P (k a))
      → Keeps P (m >>= k)
  >>=-Keeps m k r q = record { same = λ s x p h. follow-Keeps (m s) k s x (r.same s) q p h }

  follow_then :
      (o : Result E A × S) (k : A → Action S E B) (s : S) (x : E)
      → ((y : E) → P y → o.0 ≡ err y → o.1 ≡ s)
      → ((a : A) → Avoids P (k a))
      → P x
      → (follow o k).0 ≡ err x
      → (follow o k).1 ≡ s
  follow_then (ok a, t) k s x e r p h = absurd ((r a).other t x h p)
  follow_then (err y, t) k s x e r p h = e x p (err_same h)

  -- Behind a step that keeps the state there may stand steps that fail otherwise only.
  pub >>=-Keeps_then :
      (m : Action S E A) (k : A → Action S E B)
      → Keeps P m
      → ((a : A) → Avoids P (k a))
      → Keeps P (m >>= k)
  >>=-Keeps_then m k r q = record { same = λ s x p h. follow_then (m s) k s x (r.same s) q p h }

module _ {S E B : Type 0} (P : E → Type 0) where
  pub >>-Avoids :
      (m : Action S E (Unit {0})) (k : Action S E B) → Avoids P m → Avoids P k → Avoids P (m >> k)
  >>-Avoids m k r q = >>=-Avoids P m (λ _. k) r (λ _. q)

  pub >>-Keeps :
      (m : Action S E (Unit {0})) (k : Action S E B) → Reads m → Keeps P k → Keeps P (m >> k)
  >>-Keeps m k r q = >>=-Keeps P m (λ _. k) r (λ _. q)

  pub >>-Keeps_then :
      (m : Action S E (Unit {0})) (k : Action S E B) → Keeps P m → Avoids P k → Keeps P (m >> k)
  >>-Keeps_then m k r q = >>=-Keeps_then P m (λ _. k) r (λ _. q)

pub ruleset avoids = (
  done-Avoids, require-Avoids, reject_if-Avoids, if-Avoids, self-Avoids, modify-Avoids, >>=-Avoids,
  >>-Avoids,
)

pub ruleset keeps = (
  reads, avoids, if-Keeps, Reads-Keeps, Avoids-Keeps, >>=-Keeps, >>-Keeps, >>=-Keeps_then,
  >>-Keeps_then,
)
