-- ===== src/Gateway/Parts.antt =====
-- crates/hft-gateway/src/lib.rs: which parts of the gateway leave its sequence and its order
-- watermark alone.
use hft_engine_rs.Prelude.{
  ℕ, ◌+◌, ◌==◌, ◌<◌, ◌≡◌, ◌≢◌, ◌⊎◌, refl, ap, ◌∙◌, true, false, Option, List, [], ◌∷◌, ok, err,
  arith, ltb, ◌&&◌, if◌then◌else◌, Result-cases, Bool-cases, inl, inr,
}
use hft_engine_rs.Prelude.Words.{u64_limit}
use hft_engine_rs.Prelude.Action.{Action, ◌>>=◌, ◌>>◌, done, refuse, self}
use hft_engine_rs.Prelude.Action.Preserve.{Preserves, preserves, >>-Preserves}
use hft_engine_rs.Types.{
  NewOrder, CancelOrder, ReplaceOrder, Command, RejectReason, ExecutionReport,
}
use hft_engine_rs.Types.Reports.{iter}
use hft_engine_rs.Risk.Engine.{
  RiskEngine, at_most, check_and_reserve, settle, record_fill, restore_reservation,
}
use hft_engine_rs.Book.OrderBook
use hft_engine_rs.Book.OrderBook.{Stop, reject, panic, diverged}
use hft_engine_rs.Book.OrderBook.Change.{submit, replace}
use hft_engine_rs.Gateway.{
  GatewayError, GatewayOutcome, by_book, new_order, fails, out_of_sequence, by_risk, risk_state,
  Served, Serving, on_risk, on_book, submit_or_settle, record_fills, put_trading, process_new_order,
  replace_or_restore, process_replace, process_cancel, process, accept_sequence, check_sequence,
  receive_order_id,
}

-- What the parts of the gateway leave alone.
abbrev pub counters : Served → ℕ × Option ℕ
counters s = (s.gateway.expected_sequence, s.gateway.maximum_received_order_id)

on_risk-Preserves :
    {A : Type 0} (name : RejectReason → GatewayError) (m : Action RiskEngine RejectReason A)
    → Preserves counters (on_risk name m)
on_risk-Preserves name m = record { kept = λ s. refl }

on_book-Preserves : {A : Type 0} (m : OrderBook.Method A) → Preserves counters (on_book m)
on_book-Preserves m = record { kept = λ s. refl }

ruleset parts = (preserves, on_risk-Preserves, on_book-Preserves)

-- What follows a book's rejection.
undo-Preserves :
    {A : Type 0} (m : Action RiskEngine RejectReason (Unit {0})) (e : GatewayError)
    → Preserves counters (on_risk risk_state m >> refuse {A = A} (fails e))
undo-Preserves m e = search parts depth 9

submit_or_settle_kept : (o : NewOrder) (s : Served) → counters (submit_or_settle o s).1 ≡ counters s
unfolding submit_or_settle
submit_or_settle_kept o s =
    elim (Result-cases (submit o (record { book = s.gateway.book; reports = s.reports })).0) [
      | inl (summary, k) ↦ rw (submit_or_settle, k) refl
      | inr (reject reason, k) ↦
          rw (submit_or_settle, k)
            ((undo-Preserves (settle o.order_id 0) (by_book reason)).kept
              (put_trading s (submit o (record { book = s.gateway.book; reports = s.reports })).1))
      | inr (panic, k) ↦ rw (submit_or_settle, k) refl
      | inr (diverged, k) ↦ rw (submit_or_settle, k) refl
    ]

pub submit_or_settle-Preserves : (o : NewOrder) → Preserves counters (submit_or_settle o)
submit_or_settle-Preserves o = record { kept = submit_or_settle_kept o }

record_fills-Preserves : (rs : List ExecutionReport) → Preserves counters (record_fills rs)
unfolding record_fills
record_fills-Preserves [] = search preserves
record_fills-Preserves (r ∷ rs) =
    >>-Preserves counters _ _
      (on_risk-Preserves risk_state (record_fill r.maker_order_id r.quantity))
      (>>-Preserves counters _ _
        (on_risk-Preserves risk_state (record_fill r.taker_order_id r.quantity))
        (record_fills-Preserves rs))

replace_or_restore_kept :
    (r : ReplaceOrder) (n : ℕ) (s : Served) → counters (replace_or_restore r n s).1 ≡ counters s
unfolding replace_or_restore
replace_or_restore_kept r n s = elim (Result-cases (replace r s.gateway.book).0) [
  | inl (amended, k) ↦ rw (replace_or_restore, k) refl
  | inr (reject reason, k) ↦
      rw (replace_or_restore, k)
        ((undo-Preserves (restore_reservation r.order_id r.account_id n) (by_book reason)).kept
          (record s { gateway = record (s.gateway) { book = (replace r s.gateway.book).1 } }))
  | inr (panic, k) ↦ rw (replace_or_restore, k) refl
  | inr (diverged, k) ↦ rw (replace_or_restore, k) refl
]

replace_or_restore-Preserves :
    (r : ReplaceOrder) (n : ℕ) → Preserves counters (replace_or_restore r n)
replace_or_restore-Preserves r n = record { kept = replace_or_restore_kept r n }

pub process_replace-Preserves : (r : ReplaceOrder) → Preserves counters (process_replace r)
unfolding process_replace
process_replace-Preserves r = search (parts, replace_or_restore-Preserves) depth 12

pub process_cancel-Preserves : (c : CancelOrder) → Preserves counters (process_cancel c)
unfolding process_cancel
process_cancel-Preserves c = search parts depth 16

-- What process_new_order does once the identifier is taken.
unfoldable pub admitted : NewOrder → Serving GatewayOutcome
admitted order = do
  on_risk by_risk (check_and_reserve order)
  summary ← submit_or_settle order
  t ← self
  record_fills (iter t.reports)
  if summary.resting_quantity == 0 && ltb summary.filled_quantity order.quantity
      then on_risk risk_state (settle order.order_id 0)
      else done tt
  done (new_order summary)

pub admitted-Preserves : (o : NewOrder) → Preserves counters (admitted o)
unfolding admitted
admitted-Preserves o = search (parts, submit_or_settle-Preserves, record_fills-Preserves) depth 20

-- A new order is refused for its identifier, or takes it and goes on.
pub process_new_order-cases :
    (o : NewOrder) (s : Served)
    → ((at_most o.order_id s.gateway.maximum_received_order_id ≡ true)
        × (process_new_order o s ≡ (err (fails (by_risk RejectReason.duplicate_order_id)), s)))
      ⊎ ((at_most o.order_id s.gateway.maximum_received_order_id ≡ false)
          × (process_new_order o s ≡ admitted o (receive_order_id o.order_id s)))
unfolding process_new_order admitted
process_new_order-cases o s =
    elim (Bool-cases (at_most o.order_id s.gateway.maximum_received_order_id)) [
      | inl b ↦ inl (b, rw (process_new_order, b) refl)
      | inr b ↦ inr (b, rw (process_new_order, admitted, b) refl)
    ]

pub process-expected :
    (c : Command) (s : Served)
    → (process c s).1.gateway.expected_sequence ≡ s.gateway.expected_sequence
process-expected (Command.new_order o) s = elim (process_new_order-cases o s) [
  | inl (_, e) ↦ ap (λ x. x.1.gateway.expected_sequence) e
  | inr (_, e) ↦
      ap (λ x. x.1.gateway.expected_sequence) e
      ∙ ap (λ (x : ℕ × Option ℕ). x.0) ((admitted-Preserves o).kept (receive_order_id o.order_id s))
]
process-expected (Command.cancel_order c) s =
    ap (λ (x : ℕ × Option ℕ). x.0) ((process_cancel-Preserves c).kept s)
process-expected (Command.replace_order r) s =
    ap (λ (x : ℕ × Option ℕ). x.0) ((process_replace-Preserves r).kept s)

abbrev pub next_sequence : Served → Served
next_sequence s = record s {
  gateway = record (s.gateway) { expected_sequence = s.gateway.expected_sequence + 1 };
}

pub accept_sequence_ok :
    (n : ℕ) (s : Served)
    → n ≡ s.gateway.expected_sequence
    → n + 1 < u64_limit
    → accept_sequence n s ≡ (ok tt, next_sequence s)
unfolding accept_sequence check_sequence
accept_sequence_ok n s h l = ground (arith, h, l)

pub accept_sequence_gap :
    (n : ℕ) (s : Served)
    → n ≢ s.gateway.expected_sequence
    → accept_sequence n s ≡ (err (fails (out_of_sequence s.gateway.expected_sequence n)), s)
unfolding accept_sequence check_sequence
accept_sequence_gap n s h = ground (arith, h)
