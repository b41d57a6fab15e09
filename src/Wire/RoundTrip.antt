-- ===== src/Wire/RoundTrip.antt =====
-- crates/hft-wire/src/lib.rs: what is encoded is parsed back.
use hft_engine_rs.Prelude.{◌^◌, ◌<◌, ◌≡◌, ◌∙◌, true, refl, ap, ok}
use hft_engine_rs.Types.{Side, TimeInForce, NewOrder, CancelOrder, ReplaceOrder, Command, sequence}
use hft_engine_rs.Wire.{
  BorrowedMessage, parse_message, encode, encode_new_order, encode_cancel_order,
  encode_replace_order, to_new_order, to_cancel_order, to_replace_order, to_command,
  message_sequence, decode_side, decode_tif, side_code, tif_code, is_side_code, is_tif_code,
}
use hft_engine_rs.Wire.Bytes.{read_u32, read_u64, read_i64, IsI64, join_u32, join_u64, join_i64}

-- The ranges of the fields' machine types.
pub record NewOrderFits (o : NewOrder) : Type 0 where
  pub order_id : o.order_id < 2 ^ 64
  pub account_id : o.account_id < 2 ^ 32
  pub instrument_id : o.instrument_id < 2 ^ 32
  pub price : IsI64 o.price
  pub quantity : o.quantity < 2 ^ 64
  pub sequence : o.sequence < 2 ^ 64

pub record CancelOrderFits (c : CancelOrder) : Type 0 where
  pub order_id : c.order_id < 2 ^ 64
  pub account_id : c.account_id < 2 ^ 32
  pub instrument_id : c.instrument_id < 2 ^ 32
  pub sequence : c.sequence < 2 ^ 64

pub record ReplaceOrderFits (r : ReplaceOrder) : Type 0 where
  pub order_id : r.order_id < 2 ^ 64
  pub account_id : r.account_id < 2 ^ 32
  pub instrument_id : r.instrument_id < 2 ^ 32
  pub sequence : r.sequence < 2 ^ 64
  pub price : IsI64 r.price
  pub quantity : r.quantity < 2 ^ 64

decode-side_code : (s : Side) → decode_side (side_code s) ≡ s
decode-side_code Side.buy = refl
decode-side_code Side.sell = refl

decode-tif_code : (t : TimeInForce) → decode_tif (tif_code t) ≡ t
decode-tif_code TimeInForce.gtc = refl
decode-tif_code TimeInForce.ioc = refl
decode-tif_code TimeInForce.fok = refl
decode-tif_code TimeInForce.post_only = refl

to_new_order-encode : (o : NewOrder) → NewOrderFits o → to_new_order (encode_new_order o) ≡ o
unfolding to_new_order encode_new_order read_u64 read_u32 read_i64
to_new_order-encode o v = λ i. record {
  order_id = join_u64 o.order_id v.order_id i;
  account_id = join_u32 o.account_id v.account_id i;
  instrument_id = join_u32 o.instrument_id v.instrument_id i;
  price = join_i64 o.price v.price i;
  quantity = join_u64 o.quantity v.quantity i;
  sequence = join_u64 o.sequence v.sequence i;
  side = decode-side_code o.side i;
  time_in_force = decode-tif_code o.time_in_force i;
}

to_cancel_order-encode :
    (c : CancelOrder) → CancelOrderFits c → to_cancel_order (encode_cancel_order c) ≡ c
unfolding to_cancel_order encode_cancel_order read_u64 read_u32
to_cancel_order-encode c v = λ i. record {
  order_id = join_u64 c.order_id v.order_id i;
  account_id = join_u32 c.account_id v.account_id i;
  instrument_id = join_u32 c.instrument_id v.instrument_id i;
  sequence = join_u64 c.sequence v.sequence i;
}

to_replace_order-encode :
    (r : ReplaceOrder) → ReplaceOrderFits r → to_replace_order (encode_replace_order r) ≡ r
unfolding to_replace_order encode_replace_order read_u64 read_u32 read_i64
to_replace_order-encode r v = λ i. record {
  order_id = join_u64 r.order_id v.order_id i;
  account_id = join_u32 r.account_id v.account_id i;
  instrument_id = join_u32 r.instrument_id v.instrument_id i;
  sequence = join_u64 r.sequence v.sequence i;
  price = join_i64 r.price v.price i;
  quantity = join_u64 r.quantity v.quantity i;
}

is_side_code-side_code : (s : Side) → is_side_code (side_code s) ≡ true
is_side_code-side_code Side.buy = refl
is_side_code-side_code Side.sell = refl

is_tif_code-tif_code : (t : TimeInForce) → is_tif_code (tif_code t) ≡ true
is_tif_code-tif_code TimeInForce.gtc = refl
is_tif_code-tif_code TimeInForce.ioc = refl
is_tif_code-tif_code TimeInForce.fok = refl
is_tif_code-tif_code TimeInForce.post_only = refl

-- The message that the parser finds in an encoded command.
abbrev pub message : Command → BorrowedMessage
message (Command.new_order o) = BorrowedMessage.new_order (encode_new_order o)
message (Command.cancel_order c) = BorrowedMessage.cancel_order (encode_cancel_order c)
message (Command.replace_order r) = BorrowedMessage.replace_order (encode_replace_order r)

parse-encode : (c : Command) → parse_message (encode c) ≡ ok (message c)
unfolding parse_message encode
parse-encode (Command.new_order o) =
    rw (is_side_code-side_code o.side, is_tif_code-tif_code o.time_in_force)
parse-encode (Command.cancel_order c) = refl
parse-encode (Command.replace_order r) = refl

abbrev pub CommandFits : Command → Type 0
CommandFits (Command.new_order o) = NewOrderFits o
CommandFits (Command.cancel_order c) = CancelOrderFits c
CommandFits (Command.replace_order r) = ReplaceOrderFits r

to_command-message : (c : Command) → CommandFits c → to_command (message c) ≡ c
unfolding to_command
to_command-message (Command.new_order o) v = ap Command.new_order (to_new_order-encode o v)
to_command-message (Command.cancel_order c) v = ap Command.cancel_order (to_cancel_order-encode c v)
to_command-message (Command.replace_order r) v =
    ap Command.replace_order (to_replace_order-encode r v)

-- The sequence read from a borrowed frame is that of the command decoded from it.
pub message_sequence_lem : (m : BorrowedMessage) → message_sequence m ≡ sequence (to_command m)
unfolding message_sequence to_command sequence
message_sequence_lem (BorrowedMessage.new_order b) = refl
message_sequence_lem (BorrowedMessage.cancel_order b) = refl
message_sequence_lem (BorrowedMessage.replace_order b) = refl

-- Every command whose fields are values of their machine types is parsed back from its encoding as
-- it was, and the sequence peeked at in the frame is its sequence.
pub decode-encode :
    (c : Command)
    → CommandFits c
    → (parse_message (encode c) ≡ ok (message c))
      × (to_command (message c) ≡ c)
      × (message_sequence (message c) ≡ sequence c)
decode-encode c v = (
  parse-encode c,
  to_command-message c v,
  message_sequence_lem (message c) ∙ ap sequence (to_command-message c v),
)
