-- ===== src/Book/OrderBook/Match/Walk.antt =====
-- crates/hft-book/src/lib.rs: the steps of the two loops of `OrderBook::build_plan`, one equation for
-- each outcome of their tests.
use hft_engine_rs.Prelude.{
  ℕ, zero, suc, ◌-◌, ◌==◌, ◌||◌, ◌≡◌, ◌⊎◌, inl, inr, refl, ap, true, false, not, Option, some, none,
  List, [], ◌∷◌, Result, ok, err, min, ok_or, arith,
}
use hft_engine_rs.Prelude.Outcome.{◌>>=◌}
use hft_engine_rs.Prelude.Int.{ℤ}
use hft_engine_rs.Types.{NewOrder, opposite}
use hft_engine_rs.Book.Fifo.{RestingOrder, OrderSlot, nil, live_in}
use hft_engine_rs.Book.Plan.{MatchPlan}
use hft_engine_rs.Book.OrderBook.{OrderBook, panic, diverged, level_at}
use hft_engine_rs.Book.OrderBook.Match.{
  crosses, add_fill, fill_of, walk_orders, walk_level, walk_levels,
}

pub err_inj : {E A : Type 0} (d e : E) → ◌≡◌ {A = Result E A} (err d) (err e) → d ≡ e
err_inj d e h = cc

pub bind_ok :
    {E A B : Type 0} (m : Result E A) (f : A → Result E B) (b : B)
    → (m >>= f) ≡ ok b
    → (a : A) × (m ≡ ok a) × (f a ≡ ok b)
bind_ok (ok a) f b h = (a, refl, h)
bind_ok (err e) f b h = absurd (ground (arith, h))

-- A chain that stops did so at its first part, or later.
pub bind_err :
    {E A B : Type 0} (m : Result E A) (f : A → Result E B) (e : E)
    → (m >>= f) ≡ err e
    → (m ≡ err e) ⊎ ((a : A) × (m ≡ ok a) × (f a ≡ err e))
bind_err (ok a) f e h = inr (a, refl, h)
bind_err (err d) f e h = inl (ap err (err_inj d e h))

pub bind_cong :
    {E A B : Type 0} (m : Result E A) (f g : A → Result E B)
    → ((a : A) → f a ≡ g a)
    → (m >>= f) ≡ (m >>= g)
bind_cong (ok a) f g h = h a
bind_cong (err e) f g h = refl

pub bind_assoc :
    {E A B C : Type 0} (m : Result E A) (f : A → Result E B) (g : B → Result E C)
    → ((m >>= f) >>= g) ≡ (m >>= λ a. f a >>= g)
bind_assoc (ok a) f g = refl
bind_assoc (err e) f g = refl

pub ok_or_ok : {E A : Type 0} (o : Option A) (e : E) (a : A) → ok_or o e ≡ ok a → o ≡ some a
ok_or_ok none e a h = absurd (ground (arith, h))
ok_or_ok (some b) e a h = ground (arith, h)

pub ok_inj : {E A : Type 0} (a b : A) → ◌≡◌ {A = Result E A} (ok a) (ok b) → a ≡ b
ok_inj a b h = cc

pub err_ne_ok : {E A B : Type 0} (e : E) (a : A) → err e ≡ ok a → B
err_ne_ok e a h = absurd (cc)

pub walk_orders-zero :
    (slots : List OrderSlot) (at : ℕ) (price : ℤ) (cursor n : ℕ) (p : MatchPlan)
    → walk_orders zero slots at price cursor n p ≡ err diverged
unfolding walk_orders
walk_orders-zero slots at price cursor n p = refl

pub walk_levels_end :
    (book : OrderBook) (order : NewOrder) (n : ℕ) (p : MatchPlan)
    → walk_levels book order [] n p ≡ ok (n, p)
unfolding walk_levels
walk_levels_end book order n p = refl

module _ (rounds : ℕ) (slots : List OrderSlot) (at : ℕ) (price : ℤ) (cursor n : ℕ)
    (p : MatchPlan) where
  pub walk_orders_stop :
      (cursor == nil || n == 0) ≡ true
      → walk_orders (suc rounds) slots at price cursor n p ≡ ok (n, p)
  unfolding walk_orders
  walk_orders_stop t = rw (walk_orders, t) refl

  pub walk_orders_dead :
      (cursor == nil || n == 0) ≡ false
      → live_in slots cursor ≡ none
      → walk_orders (suc rounds) slots at price cursor n p ≡ err panic
  unfolding walk_orders
  walk_orders_dead t k = rw (walk_orders, t, k) refl

  pub walk_orders_fill :
      (maker : RestingOrder)
      → (cursor == nil || n == 0) ≡ false
      → live_in slots cursor ≡ some maker
      → walk_orders (suc rounds) slots at price cursor n p ≡ (
          add_fill (fill_of at price cursor maker n) p >>= λ q.
          walk_orders rounds slots at price maker.next (n - min n maker.quantity) q)
  unfolding walk_orders
  walk_orders_fill maker t k = rw (walk_orders, t, k) refl

module _ (book : OrderBook) (order : NewOrder) (entry : ℤ × ℕ) (es : List (ℤ × ℕ)) (n : ℕ)
    (p : MatchPlan) where
  pub walk_levels_stop :
      (n == 0 || not (crosses order.side order.price entry.0)) ≡ true
      → walk_levels book order (entry ∷ es) n p ≡ ok (n, p)
  unfolding walk_levels
  walk_levels_stop t = rw (walk_levels, t) refl

  pub walk_levels_level :
      (n == 0 || not (crosses order.side order.price entry.0)) ≡ false
      → walk_levels book order (entry ∷ es) n p ≡ (
          ok_or (level_at book (opposite order.side) entry.1) panic >>= λ level.
          walk_level level entry.1 entry.0 n p >>= λ walked.
          walk_levels book order es walked.0 walked.1)
  unfolding walk_levels
  walk_levels_level t = rw (walk_levels, t) refl
