-- ===== src/Gateway.antt =====
-- crates/hft-gateway/src/lib.rs: `Gateway`, which takes the commands of one session to the risk engine
-- and the book. The frame is the list of its bytes. An `expect` that fails in the book ends the call.
pub mod Parts
pub mod Admission
pub mod Frames
pub mod Rollback
mod Tests
use hft_engine_rs.Prelude.{
  ℕ, ◌+◌, ◌==◌, ◌&&◌, Bool, true, false, not, Option, none, some, List, [], ◌∷◌, Result, ok, err,
  ltb, if◌then◌else◌, ok_or, map_err,
}
use hft_engine_rs.Prelude.Words.{checked_add_u64}
use hft_engine_rs.Prelude.Action.{
  Action, ◌>>=◌, ◌>>◌, done, refuse, lift, require, reject_if, self, modify,
}
use hft_engine_rs.Types.{
  NewOrder, CancelOrder, ReplaceOrder, Command, sequence, RejectReason, ExecutionReport,
  MatchSummary,
}
use hft_engine_rs.Types.Reports
use hft_engine_rs.Types.Reports.{ReportBuffer, clear, iter}
use hft_engine_rs.Wire.{
  ParseError, BorrowedMessage, parse_message, message_sequence, to_new_order, to_cancel_order,
  to_replace_order,
}
use hft_engine_rs.Risk.Engine.{
  RiskEngine, at_most, check_and_reserve, settle, record_fill, adjust_reservation,
  restore_reservation, can_cancel, cancel_reservation,
}
use hft_engine_rs.Book.OrderBook
use hft_engine_rs.Book.OrderBook.{OrderBook, Stop}
use hft_engine_rs.Book.OrderBook.Change.{
  Trading, CancelledOrder, ReplacedOrder, submit, cancel, replace,
}

pub data GatewayError : Type 0 where
  unparsed : ParseError → GatewayError
  out_of_sequence : (expected received : ℕ) → GatewayError
  by_risk by_book risk_state : RejectReason → GatewayError

-- How a call ends that gives no outcome.
pub data Halt : Type 0 where
  fails : GatewayError → Halt
  panics diverges : Halt

pub data GatewayOutcome : Type 0 where
  new_order : MatchSummary → GatewayOutcome
  cancelled : CancelledOrder → GatewayOutcome
  replaced : ReplacedOrder → GatewayOutcome

pub record Gateway : Type 0 where
  pub risk : RiskEngine
  pub book : OrderBook
  pub expected_sequence : ℕ
  pub maximum_received_order_id : Option ℕ

unfoldable pub new : ℕ → ℕ → RiskEngine → ℕ → Gateway
new levels orders risk instrument = record {
  risk = risk;
  book = OrderBook.new levels orders instrument;
  expected_sequence = 1;
  maximum_received_order_id = none;
}

-- The gateway and the caller's report buffer.
pub record Served : Type 0 where
  pub gateway : Gateway
  pub reports : ReportBuffer

abbrev pub Serving : Type 0 → Type 0
Serving = Action Served Halt

-- A call of the risk engine, its rejection under a name of the gateway's.
abbrev pub on_risk :
    {A : Type 0} → (RejectReason → GatewayError) → Action RiskEngine RejectReason A → Serving A
on_risk name m s =
    let out = m s.gateway.risk in
    (
      map_err (λ r. fails (name r)) out.0,
      record s { gateway = record (s.gateway) { risk = out.1 } },
    )

abbrev pub halt_of : Stop → Halt
halt_of (Stop.reject reason) = fails (by_book reason)
halt_of Stop.panic = panics
halt_of Stop.diverged = diverges

abbrev pub put_trading : Served → Trading → Served
put_trading s t = record s { gateway = record (s.gateway) { book = t.book }; reports = t.reports }

abbrev pub on_book : {A : Type 0} → OrderBook.Method A → Serving A
on_book m s =
    let out = m s.gateway.book in
    (map_err halt_of out.0, record s { gateway = record (s.gateway) { book = out.1 } })

unfoldable pub check_sequence : ℕ → Gateway → Result Halt (Unit {0})
check_sequence received g =
    if not (received == g.expected_sequence)
    then err (fails (out_of_sequence g.expected_sequence received))
    else elim (checked_add_u64 g.expected_sequence 1) [
      | none ↦ err (fails (risk_state RejectReason.arithmetic_overflow))
      | some next ↦ ok tt
    ]

unfoldable pub accept_sequence : ℕ → Serving (Unit {0})
accept_sequence received = do
  s ← self
  lift (check_sequence received s.gateway)
  next ←
      require (checked_add_u64 s.gateway.expected_sequence 1)
        (fails (risk_state RejectReason.arithmetic_overflow))
  modify (λ t. record t { gateway = record (t.gateway) { expected_sequence = next } })

-- `self.book.submit(order, reports)`; a rejection gives the reservation back.
unfoldable pub submit_or_settle : NewOrder → Serving MatchSummary
submit_or_settle order s =
    let out = submit order (record { book = s.gateway.book; reports = s.reports }) in
    elim out.0 [
      | ok summary ↦ (ok summary, put_trading s out.1)
      | err (Stop.reject reason) ↦
          (on_risk risk_state (settle order.order_id 0) >> refuse (fails (by_book reason)))
            (put_trading s out.1)
      | err Stop.panic ↦ (err panics, put_trading s out.1)
      | err Stop.diverged ↦ (err diverges, put_trading s out.1)
    ]

unfoldable pub record_fills : List ExecutionReport → Serving (Unit {0})
record_fills [] = done tt
record_fills (report ∷ rest) = do
  on_risk risk_state (record_fill report.maker_order_id report.quantity)
  on_risk risk_state (record_fill report.taker_order_id report.quantity)
  record_fills rest

abbrev pub receive_order_id : ℕ → Served → Served
receive_order_id id s = record s {
  gateway = record (s.gateway) { maximum_received_order_id = some id };
}

unfoldable pub process_new_order : NewOrder → Serving GatewayOutcome
process_new_order order = do
  s ← self
  reject_if (at_most order.order_id s.gateway.maximum_received_order_id)
      (fails (by_risk RejectReason.duplicate_order_id))
  modify (receive_order_id order.order_id)
  on_risk by_risk (check_and_reserve order)
  summary ← submit_or_settle order
  t ← self
  record_fills (iter t.reports)
  if summary.resting_quantity == 0 && ltb summary.filled_quantity order.quantity
      then on_risk risk_state (settle order.order_id 0)
      else done tt
  done (new_order summary)

-- A rejection by the book puts the prior reservation back.
unfoldable pub replace_or_restore : ReplaceOrder → ℕ → Serving GatewayOutcome
replace_or_restore r prior s =
    let out = replace r s.gateway.book in
    let s' = record s { gateway = record (s.gateway) { book = out.1 } } in
    elim out.0 [
      | ok amended ↦ (ok (replaced amended), s')
      | err (Stop.reject reason) ↦
          (on_risk risk_state (restore_reservation r.order_id r.account_id prior)
              >> refuse (fails (by_book reason)))
            s'
      | err Stop.panic ↦ (err panics, s')
      | err Stop.diverged ↦ (err diverges, s')
    ]

unfoldable pub process_replace : ReplaceOrder → Serving GatewayOutcome
process_replace r = do
  adjusted ← on_risk by_risk (adjust_reservation r.order_id r.account_id r.price r.quantity)
  replace_or_restore r adjusted.1

unfoldable pub process_cancel : CancelOrder → Serving GatewayOutcome
process_cancel c = do
  on_risk by_risk (can_cancel c.order_id c.account_id)
  order ← on_book (cancel c)
  released ← on_risk risk_state (cancel_reservation c.order_id c.account_id)
  reject_if (not (released == order.quantity)) (fails (risk_state RejectReason.arithmetic_overflow))
  done (cancelled order)

abbrev pub clear_reports : Served → Served
clear_reports s = record s { reports = clear s.reports }

abbrev pub process : Command → Serving GatewayOutcome
process (Command.new_order order) = process_new_order order
process (Command.cancel_order c) = process_cancel c
process (Command.replace_order r) = process_replace r

unfoldable pub process_command : Command → Serving GatewayOutcome
process_command command = do
  modify clear_reports
  accept_sequence (sequence command)
  process command

abbrev pub process_message : BorrowedMessage → Serving GatewayOutcome
process_message (BorrowedMessage.new_order b) = process_new_order (to_new_order b)
process_message (BorrowedMessage.cancel_order b) = process_cancel (to_cancel_order b)
process_message (BorrowedMessage.replace_order b) = process_replace (to_replace_order b)

unfoldable pub process_frame : List ℕ → Serving GatewayOutcome
process_frame frame = do
  modify clear_reports
  message ← lift (map_err (λ e. fails (unparsed e)) (parse_message frame))
  accept_sequence (message_sequence message)
  process_message message
