-- ===== src/Book/OrderBook/Match/PostOnly.antt =====
-- crates/hft-book/src/lib.rs: `OrderBook::build_plan` for a post-only order.
use hft_engine_rs.Prelude.{
  ℕ, ◌≡◌, ap, sym, ◌∙◌, true, false, List, [], ◌∷◌, ok, arith, get_elem?, Bool-cases, inl, inr,
}
use hft_engine_rs.Prelude.Int.{ℤ}
use hft_engine_rs.Types.{TimeInForce, opposite, NewOrder}
use hft_engine_rs.Book.Levels.{listed}
use hft_engine_rs.Book.Plan
use hft_engine_rs.Book.Plan.{FillEntry, MatchPlan, fills}
use hft_engine_rs.Book.OrderBook.{OrderBook, side_index}
use hft_engine_rs.Book.OrderBook.Match.{
  build_plan, walk_levels, best_crosses, is_post_only, conclude,
}
use hft_engine_rs.Book.OrderBook.Match.Walk.{walk_levels_end, walk_levels_stop, ok_inj}
use hft_engine_rs.Book.OrderBook.Match.Conserve.{build_plan_ok, conclude_lem, fills-new}

-- A walk whose best level does not cross ends where it starts.
walk_levels_still :
    (book : OrderBook) (order : NewOrder) (es : List (ℤ × ℕ)) (n : ℕ) (p : MatchPlan)
    → best_crosses order.side order.price (get_elem? es 0) ≡ false
    → walk_levels book order es n p ≡ ok (n, p)
walk_levels_still book order [] n p h = walk_levels_end book order n p
walk_levels_still book order (e ∷ es) n p h =
    walk_levels_stop book order e es n p (ground (arith, h))

best_does_not_cross :
    (order : NewOrder) (reports room : ℕ) (book : OrderBook) (plan : MatchPlan)
    → is_post_only order.time_in_force ≡ true
    → build_plan order reports room book ≡ ok plan
    → best_crosses order.side order.price
        (get_elem? (listed (side_index book (opposite order.side))) 0)
      ≡ false
unfolding build_plan
best_does_not_cross order reports room book plan h e =
    elim (Bool-cases (
      best_crosses order.side order.price
        (get_elem? (listed (side_index book (opposite order.side))) 0))) [
          | inl b ↦ absurd (ground (arith, h, e, b))
          | inr b ↦ b
        ]

-- A post-only order that gets a plan trades with nothing, and rests with its whole quantity.
pub build_plan_post_only :
    (order : NewOrder) (reports room : ℕ) (book : OrderBook) (plan : MatchPlan)
    → order.time_in_force ≡ TimeInForce.post_only
    → build_plan order reports room book ≡ ok plan
    → (fills plan ≡ []) × (plan.resting_quantity ≡ order.quantity) × (plan.discarded ≡ 0)
build_plan_post_only order reports room book plan t e =
    let (n, p, walked, end) = build_plan_ok order reports room book plan e in
    let same = ok_inj _ _ (
      sym (
        walk_levels_still book order (listed (side_index book (opposite order.side))) order.quantity
          (Plan.new reports (opposite order.side) room)
          (best_does_not_cross order reports room book plan (ap is_post_only t) e))
      ∙ walked) in
    let (kept, _, split, honest) =
      conclude_lem TimeInForce.post_only book order n p plan
        (ap (λ f. conclude f book order n p) (sym t) ∙ end) in
    (
      kept
          ∙ (ap (λ (x : ℕ × MatchPlan). fills x.1) (sym same)
              ∙ fills-new reports (opposite order.side) room),
      omega (arith, split, honest, ap (λ (x : ℕ × MatchPlan). x.0) same),
      honest,
    )
