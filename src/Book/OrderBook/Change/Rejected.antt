-- ===== src/Book/OrderBook/Change/Rejected.antt =====
-- crates/hft-book/src/lib.rs: `submit`, `cancel` and `replace` change nothing where they reject.
use hft_engine_rs.Prelude.{
  ℕ, ◌≡◌, refl, sym, ◌∙◌, Option-cases, List, [], ◌∷◌, err, arith, ◌==◌, ◌&&◌, not, Result-cases,
  inl, inr,
}
use hft_engine_rs.Prelude.Int.{ℤ, eqb_ℤ}
use hft_engine_rs.Prelude.Action.{Action, reject_if, require}
use hft_engine_rs.Prelude.Action.Atomic.{Reads, require-Reads, reject_if-Reads, >>=-Reads}
use hft_engine_rs.Prelude.Action.Failure.{Avoids, Keeps, avoids, keeps, >>-Avoids}
use hft_engine_rs.Types.{
  Side, is_buy, NewOrder, CancelOrder, ReplaceOrder, RejectReason, ExecutionReport,
}
use hft_engine_rs.Types.Reports
use hft_engine_rs.Book.Location.{OrderLocation}
use hft_engine_rs.Book.Fifo.{RestingOrder, PriceLevel}
use hft_engine_rs.Book.Index
use hft_engine_rs.Book.Levels
use hft_engine_rs.Book.Plan.{FillEntry, MatchPlan}
use hft_engine_rs.Book.OrderBook.{
  OrderBook, Stop, reject, panic, Method, open_level, join_level, index_order, set_handle,
  rest_at_tail, rest, unlink_order, side_index, level_at,
}
use hft_engine_rs.Book.OrderBook.Change.{
  Trading, on_book, report, reduce_order, take_out, apply_fill, apply_fills, apply_plan, submit,
  cancel, replace, check_destination, move_order, requeue, change_order,
}

abbrev IsRejected : Stop → Type 0
IsRejected e = (reason : RejectReason) × (e ≡ reject reason)

panic_other : ¬ IsRejected panic
panic_other (r, h) = absurd (ground (arith, h))

panics-Avoids :
    {S A : Type 0} {m : Action S Stop A}
    → ((s : S) (x : Stop) → (m s).0 ≡ err x → x ≡ panic)
    → Avoids IsRejected m
panics-Avoids f = record { other = λ s x h r. panic_other (r.0, sym (f s x h) ∙ r.1) }

open_level_panics :
    (side : Side) (price : ℤ) (s : OrderBook) (x : Stop)
    → (open_level side price s).0 ≡ err x
    → x ≡ panic
unfolding open_level
open_level_panics side price s x h =
    elim (Option-cases (Levels.find (side_index s side) price (is_buy side))) [
      | inl k ↦ elim (Option-cases (Levels.insert price (is_buy side) (side_index s side)).0) [
        | inl n ↦ ground (arith, h, k, n)
        | inr (at, n) ↦ absurd (ground (arith, h, k, n))
      ]
      | inr (at, k) ↦ absurd (ground (arith, h, k))
    ]

index_order_panics :
    (id : ℕ) (l : OrderLocation) (s : OrderBook) (x : Stop)
    → (index_order id l s).0 ≡ err x
    → x ≡ panic
unfolding index_order
index_order_panics id l s x h = elim (Result-cases (Index.insert id l s.index).0) [
  | inl (at, k) ↦ absurd (ground (arith, h, k))
  | inr (e, k) ↦ ground (arith, h, k)
]

report_panics : (r : ExecutionReport) (s : Trading) (x : Stop) → (report r s).0 ≡ err x → x ≡ panic
unfolding report
report_panics r s x h = elim (Result-cases (Reports.push r s.reports).0) [
  | inl (at, k) ↦ absurd (ground (arith, h, k))
  | inr (e, k) ↦ ground (arith, h, k)
]

open_level-Avoids : (side : Side) (price : ℤ) → Avoids IsRejected (open_level side price)
open_level-Avoids side price = panics-Avoids (open_level_panics side price)

index_order-Avoids : (id : ℕ) (l : OrderLocation) → Avoids IsRejected (index_order id l)
index_order-Avoids id l = panics-Avoids (index_order_panics id l)

report-Avoids : (r : ExecutionReport) → Avoids IsRejected (report r)
report-Avoids r = panics-Avoids (report_panics r)

on_book-Avoids : {A : Type 0} (m : Method A) → Avoids IsRejected m → Avoids IsRejected (on_book m)
on_book-Avoids m w = record { other = λ t x h. w.other t.book x h }

join_level-Avoids :
    (side : Side) (at : ℕ) (r : RestingOrder) → Avoids IsRejected (join_level side at r)
unfolding join_level
join_level-Avoids side at r = search (avoids, panic_other) depth 20

set_handle-Avoids : (l : OrderLocation) (at : ℕ) → Avoids IsRejected (set_handle l at)
unfolding set_handle
set_handle-Avoids l at = search (avoids, panic_other) depth 20

ruleset parts = (
  avoids, panic_other, open_level-Avoids, index_order-Avoids, report-Avoids, join_level-Avoids,
  set_handle-Avoids, on_book-Avoids,
)

rest_at_tail-Avoids :
    (side : Side) (price : ℤ) (r : RestingOrder) → Avoids IsRejected (rest_at_tail side price r)
unfolding rest_at_tail
rest_at_tail-Avoids side price r = search parts depth 20

rest-Avoids : (o : NewOrder) (n : ℕ) → Avoids IsRejected (rest o n)
unfolding rest
rest-Avoids o n = search (parts, rest_at_tail-Avoids) depth 20

unlink_order-Avoids : (side : Side) (at slot : ℕ) → Avoids IsRejected (unlink_order side at slot)
unfolding unlink_order
unlink_order-Avoids side at slot = search parts depth 20

reduce_order-Avoids :
    (side : Side) (at slot n : ℕ) → Avoids IsRejected (reduce_order side at slot n)
unfolding reduce_order
reduce_order-Avoids side at slot n = search parts depth 20

take_out-Avoids : (side : Side) (f : FillEntry) (at : ℕ) → Avoids IsRejected (take_out side f at)
unfolding take_out
take_out-Avoids side f at = search (parts, unlink_order-Avoids) depth 20

move_order-Avoids : (r : ReplaceOrder) (l : OrderLocation) → Avoids IsRejected (move_order r l)
unfolding move_order
move_order-Avoids r l = search (parts, unlink_order-Avoids, rest_at_tail-Avoids) depth 20

apply_fill-Avoids :
    (o : NewOrder) (side : Side) (f : FillEntry) → Avoids IsRejected (apply_fill o side f)
unfolding apply_fill
apply_fill-Avoids o side f = search (parts, take_out-Avoids, reduce_order-Avoids) depth 20

apply_fills-Avoids :
    (o : NewOrder) (side : Side) (fs : List FillEntry) → Avoids IsRejected (apply_fills o side fs)
unfolding apply_fills
apply_fills-Avoids o side [] = search avoids
apply_fills-Avoids o side (f ∷ fs) =
    >>-Avoids IsRejected _ _ (apply_fill-Avoids o side f) (apply_fills-Avoids o side fs)

apply_plan-Avoids : (o : NewOrder) (p : MatchPlan) → Avoids IsRejected (apply_plan o p)
unfolding apply_plan
apply_plan-Avoids o p = search (parts, apply_fills-Avoids, rest-Avoids) depth 20

submit-Keeps : (o : NewOrder) → Keeps IsRejected (submit o)
unfolding submit
submit-Keeps o = search (keeps, apply_plan-Avoids) depth 25

cancel-Keeps : (c : CancelOrder) → Keeps IsRejected (cancel c)
unfolding cancel
cancel-Keeps c = search (keeps, panic_other, unlink_order-Avoids) depth 25

pub check_destination-Reads :
    (l : OrderLocation) (old price : ℤ) (n : ℕ) (book : OrderBook)
    → Reads (check_destination l old price n book)
unfolding check_destination
check_destination-Reads l old price n book =
    elim (Option-cases (Levels.find (side_index book l.side) price (is_buy l.side))) [
      | inl k ↦ record { same = λ s. rw (check_destination, k) ((reject_if-Reads _ _).same s) }
      | inr (at, k) ↦ record {
        same = λ s.
            rw (check_destination, k)
              ((>>=-Reads (require (level_at book l.side at) panic)
                  (λ level.
                    reject_if
                      (level.len == book.orders_per_level
                        && not (at == l.level_index && eqb_ℤ price old))
                      (reject RejectReason.price_level_order_capacity))
                  (require-Reads _ _) (λ level. reject_if-Reads _ _)).same
                s);
      }
    ]

requeue-Keeps :
    (r : ReplaceOrder) (l : OrderLocation) (level : PriceLevel)
    → Keeps IsRejected (requeue r l level)
unfolding requeue
requeue-Keeps r l level = search (keeps, check_destination-Reads, move_order-Avoids) depth 25

change_order-Keeps :
    (r : ReplaceOrder) (l : OrderLocation) (level : PriceLevel) (old : RestingOrder)
    → Keeps IsRejected (change_order r l level old)
unfolding change_order
change_order-Keeps r l level old = search (keeps, reduce_order-Avoids, requeue-Keeps) depth 25

replace-Keeps : (r : ReplaceOrder) → Keeps IsRejected (replace r)
unfolding replace
replace-Keeps r = search (keeps, change_order-Keeps) depth 35

-- A submission that is rejected has changed neither the book nor the reports, whichever check made it
-- reject.
pub submit_rejected :
    (o : NewOrder) (t : Trading) (reason : RejectReason)
    → (submit o t).0 ≡ err (reject reason)
    → (submit o t).1 ≡ t
submit_rejected o t reason h = (submit-Keeps o).same t (reject reason) (reason, refl) h

-- A cancellation that is rejected has changed nothing.
pub cancel_rejected :
    (c : CancelOrder) (book : OrderBook) (reason : RejectReason)
    → (cancel c book).0 ≡ err (reject reason)
    → (cancel c book).1 ≡ book
cancel_rejected c book reason h = (cancel-Keeps c).same book (reject reason) (reason, refl) h

-- A replacement that is rejected has changed nothing: its checks of the new price come before the order
-- is taken out.
pub replace_rejected :
    (r : ReplaceOrder) (book : OrderBook) (reason : RejectReason)
    → (replace r book).0 ≡ err (reject reason)
    → (replace r book).1 ≡ book
replace_rejected r book reason h = (replace-Keeps r).same book (reject reason) (reason, refl) h
