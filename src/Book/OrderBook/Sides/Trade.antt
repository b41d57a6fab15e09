-- ===== src/Book/OrderBook/Sides/Trade.antt =====
-- crates/hft-book/src/lib.rs: `submit`, `cancel` and `replace` keep both price directories in order.
use hft_engine_rs.Prelude.{ℕ, sym, subst, Result-cases, List, [], ◌∷◌, inl, inr}
use hft_engine_rs.Prelude.Int.{ℤ}
use hft_engine_rs.Prelude.Action.Maintain.{Maintains, maintains, >>-Maintains}
use hft_engine_rs.Types.{Side, NewOrder, CancelOrder, ReplaceOrder, ExecutionReport}
use hft_engine_rs.Types.Reports
use hft_engine_rs.Book.Location.{OrderLocation}
use hft_engine_rs.Book.Fifo.{PriceLevel, RestingOrder}
use hft_engine_rs.Book.Plan.{FillEntry, MatchPlan}
use hft_engine_rs.Book.OrderBook.{OrderBook, Method}
use hft_engine_rs.Book.OrderBook.Change.{
  Trading, on_book, report, apply_fill, apply_fills, apply_plan, submit, cancel, replace,
  check_destination, move_order, requeue, change_order,
}
use hft_engine_rs.Book.OrderBook.Sides.{
  IsSound, rest_at_tail-Maintains, rest-Maintains, unlink_order-Maintains,
  remove_index_entry-Maintains, reduce_order-Maintains, take_out-Maintains,
}
use hft_engine_rs.Book.OrderBook.Change.Rejected.{check_destination-Reads}

module _ (levels : ℕ) where
  -- What the rest of an operation on the book and the reports does to the book.
  abbrev pub IsSoundIn : Trading → Type 0
  IsSoundIn t = IsSound levels t.book

  on_book-Maintains :
      {A : Type 0} (m : Method A) → Maintains (IsSound levels) m → Maintains IsSoundIn (on_book m)
  on_book-Maintains m r = record { kept = λ t w. r.kept t.book w }

  report_kept : (r : ExecutionReport) (t : Trading) → IsSoundIn t → IsSoundIn (report r t).1
  unfolding report
  report_kept r t w = elim (Result-cases (Reports.push r t.reports).0) [
    | inl (u, k) ↦ rw (report, k) w
    | inr (e, k) ↦ rw (report, k) w
  ]

  report-Maintains : (r : ExecutionReport) → Maintains IsSoundIn (report r)
  report-Maintains r = record { kept = report_kept r }

  ruleset trading = (
    maintains, on_book-Maintains, report-Maintains, take_out-Maintains, reduce_order-Maintains,
    rest-Maintains,
  )

  pub apply_fill-Maintains :
      (o : NewOrder) (side : Side) (f : FillEntry) → Maintains IsSoundIn (apply_fill o side f)
  unfolding apply_fill
  apply_fill-Maintains o side f = search trading depth 14

  pub apply_fills-Maintains :
      (o : NewOrder) (side : Side) (fs : List FillEntry)
      → Maintains IsSoundIn (apply_fills o side fs)
  unfolding apply_fills
  apply_fills-Maintains o side [] = search trading
  apply_fills-Maintains o side (f ∷ fs) =
      >>-Maintains IsSoundIn _ _ (apply_fill-Maintains o side f) (apply_fills-Maintains o side fs)

  pub apply_plan-Maintains : (o : NewOrder) (p : MatchPlan) → Maintains IsSoundIn (apply_plan o p)
  unfolding apply_plan
  apply_plan-Maintains o p = search (trading, apply_fills-Maintains) depth 12

  pub submit-Maintains : (o : NewOrder) → Maintains IsSoundIn (submit o)
  unfolding submit
  submit-Maintains o = search (maintains, apply_plan-Maintains) depth 12

  pub cancel-Maintains : (c : CancelOrder) → Maintains (IsSound levels) (cancel c)
  unfolding cancel
  cancel-Maintains c =
      search (maintains, unlink_order-Maintains, remove_index_entry-Maintains) depth 16

  move_order-Maintains :
      (r : ReplaceOrder) (l : OrderLocation) → Maintains (IsSound levels) (move_order r l)
  unfolding move_order
  move_order-Maintains r l =
      search
        (maintains, unlink_order-Maintains, remove_index_entry-Maintains, rest_at_tail-Maintains)
        depth 14

  check_destination-Maintains :
      (l : OrderLocation) (old new : ℤ) (n : ℕ) (book : OrderBook)
      → Maintains (IsSound levels) (check_destination l old new n book)
  check_destination-Maintains l old new n book = record {
    kept =
        λ s w. subst (IsSound levels) (sym ((check_destination-Reads l old new n book).same s)) w;
  }

  requeue-Maintains :
      (r : ReplaceOrder) (l : OrderLocation) (level : PriceLevel)
      → Maintains (IsSound levels) (requeue r l level)
  unfolding requeue
  requeue-Maintains r l level =
      search (maintains, check_destination-Maintains, move_order-Maintains) depth 14

  change_order-Maintains :
      (r : ReplaceOrder) (l : OrderLocation) (level : PriceLevel) (old : RestingOrder)
      → Maintains (IsSound levels) (change_order r l level old)
  unfolding change_order
  change_order-Maintains r l level old =
      search (maintains, reduce_order-Maintains, requeue-Maintains) depth 12

  pub replace-Maintains : (r : ReplaceOrder) → Maintains (IsSound levels) (replace r)
  unfolding replace
  replace-Maintains r = search (maintains, change_order-Maintains) depth 20
