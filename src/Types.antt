-- ===== src/Types.antt =====
-- crates/hft-types/src/lib.rs: the vocabulary that the components share. The identifiers, prices
-- and quantities are newtypes of machine integers there and plain numbers here; a price is signed.
pub mod Reports
use hft_engine_rs.Prelude.{ℕ, Bool, true, false}
use hft_engine_rs.Prelude.Int.{ℤ}

pub data Side : Type 0 where
  buy sell : Side

abbrev pub is_buy : Side → Bool
is_buy Side.buy = true
is_buy Side.sell = false

abbrev pub opposite : Side → Side
opposite Side.buy = Side.sell
opposite Side.sell = Side.buy

abbrev pub same_side : Side → Side → Bool
same_side Side.buy Side.buy = true
same_side Side.buy Side.sell = false
same_side Side.sell Side.buy = false
same_side Side.sell Side.sell = true

pub data TimeInForce : Type 0 where
  gtc ioc fok post_only : TimeInForce

pub record NewOrder : Type 0 where
  pub order_id : ℕ
  pub account_id : ℕ
  pub instrument_id : ℕ
  pub price : ℤ
  pub quantity : ℕ
  pub sequence : ℕ
  pub side : Side
  pub time_in_force : TimeInForce

pub record ReplaceOrder : Type 0 where
  pub order_id : ℕ
  pub account_id : ℕ
  pub instrument_id : ℕ
  pub sequence : ℕ
  pub price : ℤ
  pub quantity : ℕ

pub record CancelOrder : Type 0 where
  pub order_id : ℕ
  pub account_id : ℕ
  pub instrument_id : ℕ
  pub sequence : ℕ

pub data Command : Type 0 where
  new_order : NewOrder → Command
  cancel_order : CancelOrder → Command
  replace_order : ReplaceOrder → Command

unfoldable pub instrument_id : Command → ℕ
instrument_id (Command.new_order o) = o.instrument_id
instrument_id (Command.cancel_order c) = c.instrument_id
instrument_id (Command.replace_order r) = r.instrument_id

unfoldable pub sequence : Command → ℕ
sequence (Command.new_order o) = o.sequence
sequence (Command.cancel_order c) = c.sequence
sequence (Command.replace_order r) = r.sequence

pub data RejectReason : Type 0 where
  invalid_instrument invalid_price invalid_quantity quantity_limit notional_limit : RejectReason
  position_limit open_order_limit price_collar duplicate_order_id unknown_order : RejectReason
  not_order_owner kill_switch unknown_account arithmetic_overflow order_capacity : RejectReason
  price_level_capacity price_level_order_capacity report_capacity : RejectReason
  insufficient_liquidity post_only_would_trade replace_would_cross : RejectReason

pub data OrderState : Type 0 where
  accepted partially_filled filled : OrderState
  rejected : RejectReason → OrderState

pub record ExecutionReport : Type 0 where
  pub maker_order_id : ℕ
  pub taker_order_id : ℕ
  pub instrument_id : ℕ
  pub price : ℤ
  pub quantity : ℕ
  pub sequence : ℕ

pub record MatchSummary : Type 0 where
  pub state : OrderState
  pub filled_quantity : ℕ
  pub resting_quantity : ℕ
  pub discarded_quantity : ℕ
  pub report_count : ℕ
