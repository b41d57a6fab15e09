-- ===== src/Prelude/Action/Atomic.antt =====
-- Actions that leave the state alone, that cannot fail, and that change nothing where they fail.
use mathlib.Core.Path.{◌≡◌, refl, ◌∙◌}
use mathlib.Core.Bool.{Bool, true, false}
use mathlib.Core.Option.{Option}
use native.Mathlib.Omega.{arith}
use hft_engine_rs.Prelude.Tests.{if◌then◌else◌}
use hft_engine_rs.Prelude.Outcome.{Result, ok, err}
use hft_engine_rs.Prelude.Action.{
  Action, follow, ◌>>=◌, ◌>>◌, done, lift, require, reject_if, self, modify,
}

module _ {S E A : Type 0} where
  pub record Reads (m : Action S E A) : Type 0 where
    pub same : (s : S) → (m s).1 ≡ s

  pub record Succeeds (m : Action S E A) : Type 0 where
    pub value : (s : S) → A
    pub is_ok : (s : S) → (m s).0 ≡ ok (value s)

  -- A failure leaves the state as it was.
  pub record Atomic (m : Action S E A) : Type 0 where
    pub rejected : (s : S) (x : E) → (m s).0 ≡ err x → (m s).1 ≡ s

  pub Reads-Atomic : {m : Action S E A} → Reads m → Atomic m
  Reads-Atomic r = record { rejected = λ s x h. r.same s }

  pub Succeeds-Atomic : {m : Action S E A} → Succeeds m → Atomic m
  Succeeds-Atomic r = record { rejected = λ s x h. absurd (ground (arith, h, r.is_ok s)) }

  pub done-Reads : (a : A) → Reads (done {S = S} {E = E} a)
  done-Reads a = record { same = λ s. refl }

  pub done-Succeeds : (a : A) → Succeeds (done {S = S} {E = E} a)
  done-Succeeds a = record { value = λ s. a; is_ok = λ s. refl }

  pub lift-Reads : (r : Result E A) → Reads (lift {S = S} r)
  lift-Reads r = record { same = λ s. refl }

  pub require-Reads : (o : Option A) (e : E) → Reads (require {S = S} o e)
  require-Reads o e = record { same = λ s. refl }

module _ {S E : Type 0} where
  pub self-Reads : Reads (self {S = S} {E = E})
  self-Reads = record { same = λ s. refl }

  pub reject_if-Reads : (b : Bool) (e : E) → Reads (reject_if {S = S} b e)
  reject_if-Reads true e = record { same = λ s. refl }
  reject_if-Reads false e = record { same = λ s. refl }

  pub modify-Succeeds : (f : S → S) → Succeeds (modify {E = E} f)
  modify-Succeeds f = record { value = λ s. tt; is_ok = λ s. refl }

module _ {S E A B : Type 0} where
  follow-read :
      (o : Result E A × S) (k : A → Action S E B) (s : S)
      → o.1 ≡ s
      → ((a : A) → Reads (k a))
      → (follow o k).1 ≡ s
  follow-read (ok a, t) k s e r = (r a).same t ∙ e
  follow-read (err x, t) k s e r = e

  pub >>=-Reads :
      (m : Action S E A) (k : A → Action S E B)
      → Reads m
      → ((a : A) → Reads (k a))
      → Reads (m >>= k)
  >>=-Reads m k r q = record { same = λ s. follow-read (m s) k s (r.same s) q }

  follow-Atomic :
      (o : Result E A × S) (k : A → Action S E B) (s : S) (x : E)
      → o.1 ≡ s
      → ((a : A) → Atomic (k a))
      → (follow o k).0 ≡ err x
      → (follow o k).1 ≡ s
  follow-Atomic (ok a, t) k s x e r h = (r a).rejected t x h ∙ e
  follow-Atomic (err y, t) k s x e r h = e

  -- A reading step may stand before an atomic one.
  pub >>=-Atomic :
      (m : Action S E A) (k : A → Action S E B)
      → Reads m
      → ((a : A) → Atomic (k a))
      → Atomic (m >>= k)
  >>=-Atomic m k r q = record { rejected = λ s x h. follow-Atomic (m s) k s x (r.same s) q h }

  follow-Succeeds :
      (o : Result E A × S) (k : A → Action S E B) (s : S) (x : E)
      → ((y : E) → o.0 ≡ err y → o.1 ≡ s)
      → ((a : A) → Succeeds (k a))
      → (follow o k).0 ≡ err x
      → (follow o k).1 ≡ s
  follow-Succeeds (ok a, t) k s x e r h = absurd (ground (arith, h, (r a).is_ok t))
  follow-Succeeds (err y, t) k s x e r h = e y refl

  -- Behind an atomic step there may stand steps that cannot fail.
  pub >>=-Atomic_then :
      (m : Action S E A) (k : A → Action S E B)
      → Atomic m
      → ((a : A) → Succeeds (k a))
      → Atomic (m >>= k)
  >>=-Atomic_then m k r q = record {
    rejected = λ s x h. follow-Succeeds (m s) k s x (λ y. r.rejected s y) q h;
  }

  follow_value :
      (o : Result E A × S) (k : A → Action S E B) (a : A) (b : B)
      → o.0 ≡ ok a
      → (k a o.1).0 ≡ ok b
      → (follow o k).0 ≡ ok b
  follow_value (ok c, t) k a b e h = ground (arith, e, h)
  follow_value (err y, t) k a b e h = absurd (ground (arith, e))

  pub >>=-Succeeds :
      (m : Action S E A) (k : A → Action S E B)
      → Succeeds m
      → ((a : A) → Succeeds (k a))
      → Succeeds (m >>= k)
  >>=-Succeeds m k r q = record {
    value = λ s. (q (r.value s)).value (m s).1;
    is_ok = λ s. follow_value (m s) k (r.value s) _ (r.is_ok s) ((q (r.value s)).is_ok (m s).1);
  }

module _ {S E B : Type 0} where
  pub >>-Reads : (m : Action S E (Unit {0})) (k : Action S E B) → Reads m → Reads k → Reads (m >> k)
  >>-Reads m k r q = >>=-Reads m (λ _. k) r (λ _. q)

  pub >>-Atomic :
      (m : Action S E (Unit {0})) (k : Action S E B) → Reads m → Atomic k → Atomic (m >> k)
  >>-Atomic m k r q = >>=-Atomic m (λ _. k) r (λ _. q)

  pub >>-Atomic_then :
      (m : Action S E (Unit {0})) (k : Action S E B) → Atomic m → Succeeds k → Atomic (m >> k)
  >>-Atomic_then m k r q = >>=-Atomic_then m (λ _. k) r (λ _. q)

  pub >>-Succeeds :
      (m : Action S E (Unit {0})) (k : Action S E B) → Succeeds m → Succeeds k → Succeeds (m >> k)
  >>-Succeeds m k r q = >>=-Succeeds m (λ _. k) r (λ _. q)

module _ {S E A : Type 0} where
  pub if-Atomic :
      (b : Bool) (m k : Action S E A) → Atomic m → Atomic k → Atomic (if b then m else k)
  if-Atomic true m k p q = p
  if-Atomic false m k p q = q

  pub if-Succeeds :
      (b : Bool) (m k : Action S E A) → Succeeds m → Succeeds k → Succeeds (if b then m else k)
  if-Succeeds true m k p q = p
  if-Succeeds false m k p q = q

  -- Of a successful sequence both parts succeeded.
  pub follow_ok :
      {B : Type 0} (o : Result E A × S) (k : A → Action S E B) (b : B)
      → (follow o k).0 ≡ ok b
      → (a : A) × (o.0 ≡ ok a) × (follow o k ≡ k a o.1)
  follow_ok (ok a, t) k b h = (a, refl, refl)
  follow_ok (err y, t) k b h = absurd (ground (arith, h))

pub ruleset reads =
    (done-Reads, lift-Reads, require-Reads, self-Reads, reject_if-Reads, >>=-Reads, >>-Reads)

pub ruleset succeeds = (done-Succeeds, modify-Succeeds, if-Succeeds, >>=-Succeeds, >>-Succeeds)

pub ruleset atomic = (
  reads, succeeds, if-Atomic, Reads-Atomic, Succeeds-Atomic, >>=-Atomic, >>-Atomic, >>=-Atomic_then,
  >>-Atomic_then,
)
