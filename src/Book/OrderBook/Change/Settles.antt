-- ===== src/Book/OrderBook/Change/Settles.antt =====
-- crates/hft-book/src/lib.rs: `submit` trades by price and then by time, and the book that it leaves.
use hft_engine_rs.Prelude.{
  ok, ℕ, ◌+◌, ◌==◌, ◌≡◌, refl, ap, sym, subst, ◌∙◌, true, false, List, ◌++◌, map, arith, length,
  ltb, Bool-cases, inl, inr, if◌then◌else◌,
}
use hft_engine_rs.Prelude.Action.{done}
use hft_engine_rs.Prelude.Action.Atomic.{follow_ok}
use hft_engine_rs.Types.{Side, is_buy, opposite, NewOrder, MatchSummary}
use hft_engine_rs.Types.Reports.{iter, remaining_capacity}
use hft_engine_rs.Book.Levels.Order.{IsSorted}
use hft_engine_rs.Book.Fifo.{RestingOrder, nil}
use hft_engine_rs.Book.Plan.{FillEntry, MatchPlan, fills}
use hft_engine_rs.Book.OrderBook.{OrderBook, rest}
use hft_engine_rs.Book.OrderBook.Match.Conserve.{total, Honours, build_plan-side}
use hft_engine_rs.Book.OrderBook.Match.Priority.{take_levels}
use hft_engine_rs.Book.OrderBook.Match.Refine.{build_plan_priority}
use hft_engine_rs.Book.OrderBook.Change.{
  Trading, on_book, report_of, apply_fills, apply_plan, state_of, submit,
}
use hft_engine_rs.Book.OrderBook.Change.Executes.{submit_ok, submit_reports}
use hft_engine_rs.Book.OrderBook.Sides.{IsSound}
use hft_engine_rs.Book.OrderBook.Sides.Trade.{submit-Maintains}
use hft_engine_rs.Book.OrderBook.Holds.{View, Holds}
use hft_engine_rs.Book.OrderBook.Holds.Fill.{IsHeld, leave_levels}
use hft_engine_rs.Book.OrderBook.Holds.Fills.{fills-levels}
use hft_engine_rs.Book.OrderBook.Holds.Rest.{joined}
use hft_engine_rs.Book.OrderBook.Holds.Joined.{rest_at_tail-Holds}
use hft_engine_rs.Book.OrderBook.Holds.Exact.{Holds-IsView}

-- What rests of an order.
abbrev pub resting_order : NewOrder → ℕ → RestingOrder
resting_order order quantity = record {
  id = order.order_id;
  account_id = order.account_id;
  index_slot = 0;
  quantity = quantity;
  sequence = order.sequence;
  prev = nil;
  next = nil;
}

-- The levels of the order's side once a quantity of it rests, in some slots.
abbrev pub rested : NewOrder → ℕ → ℕ → ℕ → View → View
rested order quantity at slot own =
    if quantity == 0
    then own
    else joined (is_buy order.side) order.price at (slot, resting_order order quantity) own

opposite-opposite : (side : Side) → opposite (opposite side) ≡ side
opposite-opposite Side.buy = refl
opposite-opposite Side.sell = refl

-- A side from which some is left and one that some rests on.
abbrev pub IsLeft : OrderBook → NewOrder → ℕ → View → View → Type 0
IsLeft book order quantity other own =
    Holds book (opposite order.side) other
    × (at : ℕ) × (slot : ℕ) × Holds book order.side (rested order quantity at slot own)

rest-IsLeft :
    (levels : ℕ) (o : NewOrder) (n : ℕ) (book : OrderBook) (other own : View)
    → IsSound levels book
    → Holds book (opposite o.side) other
    → Holds book o.side own
    → (n == 0) ≡ false
    → (rest o n book).0 ≡ ok tt
    → IsLeft (rest o n book).1 o n other own
unfolding rest
rest-IsLeft levels o n book other own sound w v z h =
    let (at, slot, mine, facing) =
      rest_at_tail-Holds levels o.side o.price (resting_order o n) book own other sound v w h in
    (facing, at, slot, rw z mine)

tests_positive : (n : ℕ) → ltb 0 n ≡ true → (n == 0) ≡ false
tests_positive n h = ground arith

tests_zero : (n : ℕ) → ltb 0 n ≡ false → (n == 0) ≡ true
tests_zero n h = ground arith

apply_plan-IsLeft :
    (levels : ℕ) (o : NewOrder) (p : MatchPlan) (t : Trading) (view own : View)
    → IsSound levels t.book
    → Holds t.book (opposite o.side) view
    → Holds t.book o.side own
    → p.maker_side ≡ opposite o.side
    → fills p ≡ (take_levels o.side o.price view o.quantity).0
    → (apply_plan o p t).0 ≡ ok tt
    → IsLeft
        (apply_plan o p t).1.book
        o
        p.resting_quantity
        (leave_levels o.side o.price view o.quantity)
        own
unfolding apply_plan
apply_plan-IsLeft levels o p t view own sound w v side same h =
    let taken = (take_levels o.side o.price view o.quantity).0 in
    let (u, filled, f) =
      follow_ok (apply_fills o p.maker_side (fills p) t)
        (λ _. if ltb 0 p.resting_quantity then on_book (rest o p.resting_quantity) else done tt) tt
        h in
    let t1 = (apply_fills o p.maker_side (fills p) t).1 in
    let runs : apply_fills o p.maker_side (fills p) t ≡ apply_fills o (opposite o.side) taken t =
      ap (λ (s : Side). apply_fills o s (fills p) t) side
      ∙ ap (λ (fs : List FillEntry). apply_fills o (opposite o.side) fs t) same in
    let facing = subst (λ (s : Side). Holds t.book s own) (sym (opposite-opposite o.side)) v in
    let (sound', (left, kept)) =
      subst
        (λ (x : Trading).
          IsHeld levels x (opposite o.side) (leave_levels o.side o.price view o.quantity) own)
        (ap (λ x. x.1) (sym runs))
        (fills-levels levels o (opposite o.side) own o.side o.price view o.quantity t
          (sound, (w, facing)) (ap (λ x. x.0) (sym runs) ∙ filled)) in
    let mine = subst (λ (s : Side). Holds t1.book s own) (opposite-opposite o.side) kept in
    elim (Bool-cases (ltb 0 p.resting_quantity)) [
      | inl b ↦
          let end = f ∙ rest_runs t1 b in
          subst
            (λ (x : OrderBook).
              IsLeft x o p.resting_quantity (leave_levels o.side o.price view o.quantity) own)
            (ap (λ x. x.1.book) (sym end))
            (rest-IsLeft levels o p.resting_quantity t1.book
              (leave_levels o.side o.price view o.quantity) own sound' left mine
              (tests_positive p.resting_quantity b) (ap (λ x. x.0) (sym end) ∙ h))
      | inr b ↦
          let end = f ∙ rest_stops t1 b in
          subst
            (λ (x : OrderBook).
              IsLeft x o p.resting_quantity (leave_levels o.side o.price view o.quantity) own)
            (ap (λ x. x.1.book) (sym end)) (left, 0, 0, rw (tests_zero p.resting_quantity b) mine)
    ]
  where
    rest_runs :
        (t1 : Trading)
        → ltb 0 p.resting_quantity ≡ true
        → (if ltb 0 p.resting_quantity then on_book (rest o p.resting_quantity) else done tt) t1
          ≡ on_book (rest o p.resting_quantity) t1
    rest_runs t1 b = rw b refl

    rest_stops :
        (t1 : Trading)
        → ltb 0 p.resting_quantity ≡ false
        → (if ltb 0 p.resting_quantity then on_book (rest o p.resting_quantity) else done tt) t1
          ≡ (ok tt, t1)
    rest_stops t1 b = rw b refl

-- A submission that succeeds trades by price and then by time, and leaves the book that this makes. Where
-- the book is sound and its sides hold these queues: the other side lists its best price first; one report
-- is appended for each trade of taking the quantity from the best price on, the earliest order first, as
-- far as the prices cross; the summary gives what these trades fill, splits what they leave into rest and
-- discard as the time in force wants it, and counts the reports. The book is sound again: its other side
-- holds what the trades leave, with the order that is filled in part still first, and its own side holds
-- in addition what rests, at the end of the queue at its price, handles and links left aside.
pub submit_priority :
    (levels : ℕ) (o : NewOrder) (t : Trading) (s : MatchSummary) (view own : View)
    → IsSound levels t.book
    → Holds t.book (opposite o.side) view
    → Holds t.book o.side own
    → (submit o t).0 ≡ ok s
    → IsSorted (is_buy (opposite o.side)) (map (λ v. v.0) view)
      × ((iter (submit o t).1.reports
            ≡ iter t.reports ++ map (report_of o) (take_levels o.side o.price view o.quantity).0)
          × (s.filled_quantity ≡ total (take_levels o.side o.price view o.quantity).0)
          × (s.resting_quantity + s.discarded_quantity
              ≡ (take_levels o.side o.price view o.quantity).1)
          × Honours o.time_in_force s.resting_quantity s.discarded_quantity
          × (s.state ≡ state_of o.quantity s.filled_quantity)
          × (s.report_count ≡ length (take_levels o.side o.price view o.quantity).0))
      × IsSound levels (submit o t).1.book
      × IsLeft
          (submit o t).1.book
          o
          s.resting_quantity
          (leave_levels o.side o.price view o.quantity)
          own
submit_priority levels o t s view own sound w v h =
    let (plan, planned, applied, after, summary) = submit_ok o t s h in
    let (exact, is_view, takes) = Holds-IsView t.book (opposite o.side) view w in
    let same = takes o.side o.price o.quantity in
    let (filled, _) =
      build_plan_priority o (length t.reports.entries) (remaining_capacity t.reports) t.book plan
        exact is_view planned in
    let side =
      build_plan-side o (length t.reports.entries) (remaining_capacity t.reports) t.book plan
        planned in
    let left =
      apply_plan-IsLeft levels o plan t view own sound w v side (filled ∙ ap (λ x. x.0) same)
        applied in
    (
      subst (IsSorted (is_buy (opposite o.side))) w.entries (sound.at (opposite o.side)).0.0,
      subst
          (λ (x : List FillEntry × ℕ).
            (iter (submit o t).1.reports ≡ iter t.reports ++ map (report_of o) x.0)
            × (s.filled_quantity ≡ total x.0)
            × (s.resting_quantity + s.discarded_quantity ≡ x.1)
            × Honours o.time_in_force s.resting_quantity s.discarded_quantity
            × (s.state ≡ state_of o.quantity s.filled_quantity)
            × (s.report_count ≡ length x.0))
          same (submit_reports o t s exact is_view h),
      (submit-Maintains levels o).kept t sound,
      subst
          (λ (n : ℕ).
            IsLeft (submit o t).1.book o n (leave_levels o.side o.price view o.quantity) own)
          (ap (λ (x : MatchSummary). x.resting_quantity) (sym summary))
          (subst
            (λ (x : Trading).
              IsLeft x.book o plan.resting_quantity (leave_levels o.side o.price view o.quantity)
                own)
            (sym after) left),
    )
