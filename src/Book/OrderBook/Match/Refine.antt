-- ===== src/Book/OrderBook/Match/Refine.antt =====
-- crates/hft-book/src/lib.rs: `OrderBook::build_plan` against the book that its links hold: the fills
-- by price and time.
use hft_engine_rs.Prelude.{ℕ, ◌+◌, ◌≡◌, ap, sym, ◌∙◌, dec_lt, List, ◌++◌, Result, ok, length, arith}
use hft_engine_rs.Prelude.Int.{ℤ}
use hft_engine_rs.Types.{opposite, NewOrder, RejectReason}
use hft_engine_rs.Book.Plan
use hft_engine_rs.Book.Plan.{FillEntry, MatchPlan, fills, push_all}
use hft_engine_rs.Book.Plan.Fills.{IsBounded, new-IsBounded, push_all_fits, push_all_overflows}
use hft_engine_rs.Book.OrderBook.{OrderBook}
use hft_engine_rs.Book.OrderBook.Match.{build_plan, walk_levels}
use hft_engine_rs.Book.OrderBook.Match.Conserve.{walk_of, build_plan_ok, conclude_lem, fills-new}
use hft_engine_rs.Book.OrderBook.Match.Walk.{ok_inj}
use hft_engine_rs.Book.OrderBook.Match.Priority.{
  Queue, IsView, outcome, planned, take_levels, walk_levels-take,
}

planned_ok :
    (fs : List FillEntry) (r n : ℕ) (p q : MatchPlan)
    → IsBounded p
    → planned (fs, r) p ≡ ok (n, q)
    → (n ≡ r) × (fills q ≡ fills p ++ fs)
planned_ok fs r n p q w e = elim (dec_lt p.capacity (p.fill_count + length fs)) [
  | yes l ↦ absurd (ground (arith, e, push_all_overflows fs p w l))
  | no l ↦
      let (taken, shown, _) = push_all_fits fs p w (omega (arith, l)) in
      let same =
        ok_inj (r, (push_all fs p).1) (n, q)
          (ap (λ (u : Result RejectReason (Unit {0})). outcome u r (push_all fs p).1) (sym taken)
            ∙ e) in
      (
        sym (ap (λ (x : ℕ × MatchPlan). x.0) same),
        ap (λ (x : ℕ × MatchPlan). fills x.1) (sym same) ∙ shown,
      )
]

pub walk_of-take :
    (book : OrderBook) (order : NewOrder) (reports room : ℕ) (view : List ((ℤ × ℕ) × Queue))
    → IsView book (opposite order.side) view
    → walk_of book order reports room
      ≡ planned
          (take_levels order.side order.price view order.quantity)
          (Plan.new reports (opposite order.side) room)
walk_of-take book order reports room view v =
    let fresh : MatchPlan = Plan.new reports (opposite order.side) room in
    ap (λ (es : List (ℤ × ℕ)). walk_levels book order es order.quantity fresh) v.entries
    ∙ walk_levels-take book order view order.quantity fresh v.queues

-- On a side whose levels hold queues, a plan's fills are those of taking the quantity from the best
-- price on, at each price from the order that came first, as far as the prices cross; what such a
-- taking leaves is what rests or is discarded.
pub build_plan_priority :
    (order : NewOrder) (reports room : ℕ) (book : OrderBook) (plan : MatchPlan)
    (view : List ((ℤ × ℕ) × Queue))
    → IsView book (opposite order.side) view
    → build_plan order reports room book ≡ ok plan
    → (fills plan ≡ (take_levels order.side order.price view order.quantity).0)
      × (plan.resting_quantity + plan.discarded
          ≡ (take_levels order.side order.price view order.quantity).1)
build_plan_priority order reports room book plan view v e =
    let (n, p, walked, end) = build_plan_ok order reports room book plan e in
    let taken = take_levels order.side order.price view order.quantity in
    let fresh : MatchPlan = Plan.new reports (opposite order.side) room in
    let (left, shown) =
      planned_ok taken.0 taken.1 n fresh p (new-IsBounded reports (opposite order.side) room)
        (sym (walk_of-take book order reports room view v) ∙ walked) in
    let (same, _, rest, _) = conclude_lem order.time_in_force book order n p plan end in
    (
      same
          ∙ (shown
              ∙ ap (λ (xs : List FillEntry). xs ++ taken.0)
                  (fills-new reports (opposite order.side) room)),
      rest ∙ left,
    )
