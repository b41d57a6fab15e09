-- ===== src/Wire.antt =====
-- crates/hft-wire/src/lib.rs: frames of bytes and the commands that they carry. A frame (`RxFrame` of
-- crates/hft-io/src/lib.rs) is the list of its bytes. The lengths that `parse_message` checks keep
-- every index below within the frame, so the default of `byte_at` is never read.
pub mod Bytes
pub mod RoundTrip
pub mod Parse
mod Tests
use hft_engine_rs.Prelude.{
  ℕ, ◌-◌, ◌==◌, Bool, not, ◌||◌, List, [], ◌∷◌, Result, ok, err, ltb, length, get_or, replicate,
  if◌then◌else◌,
}
use hft_engine_rs.Prelude.Outcome.{◌>>=◌, ◌>>◌, reject_if}
use hft_engine_rs.Types.{Side, TimeInForce, NewOrder, CancelOrder, ReplaceOrder, Command}
use Bytes.{byte_at, read_u16, read_u32, read_u64, read_i64, be_u16, be_u32, be_u64, be_i64, copy_at}

abbrev pub protocol_version : ℕ
protocol_version = 2

abbrev pub new_order_type : ℕ
new_order_type = 1

abbrev pub cancel_order_type : ℕ
cancel_order_type = 2

abbrev pub replace_order_type : ℕ
replace_order_type = 3

abbrev pub new_order_len : ℕ
new_order_len = 46

abbrev pub cancel_order_len : ℕ
cancel_order_len = 28

abbrev pub replace_order_len : ℕ
replace_order_len = 44

pub data ParseError : Type 0 where
  truncated_header unsupported_version unknown_message_type invalid_length : ParseError
  invalid_side invalid_time_in_force : ParseError

-- Each holds the bytes of its frame.
pub data BorrowedMessage : Type 0 where
  new_order : List ℕ → BorrowedMessage
  cancel_order : List ℕ → BorrowedMessage
  replace_order : List ℕ → BorrowedMessage

-- `side as u8` and `time_in_force as u8`.
abbrev pub side_code : Side → ℕ
side_code Side.buy = 1
side_code Side.sell = 2

abbrev pub tif_code : TimeInForce → ℕ
tif_code TimeInForce.gtc = 1
tif_code TimeInForce.ioc = 2
tif_code TimeInForce.fok = 3
tif_code TimeInForce.post_only = 4

abbrev decode_side : ℕ → Side
decode_side c = if c == 1 then Side.buy else Side.sell

abbrev decode_tif : ℕ → TimeInForce
decode_tif c =
    if c == 1
    then TimeInForce.gtc
    else if c == 2
    then TimeInForce.ioc
    else if c == 3
    then TimeInForce.fok
    else TimeInForce.post_only

unfoldable pub to_new_order : List ℕ → NewOrder
to_new_order b = record {
  order_id = read_u64 b 4;
  account_id = read_u32 b 12;
  instrument_id = read_u32 b 16;
  price = read_i64 b 20;
  quantity = read_u64 b 28;
  sequence = read_u64 b 36;
  side = decode_side (byte_at b 44);
  time_in_force = decode_tif (byte_at b 45);
}

unfoldable pub to_cancel_order : List ℕ → CancelOrder
to_cancel_order b = record {
  order_id = read_u64 b 4;
  account_id = read_u32 b 12;
  instrument_id = read_u32 b 16;
  sequence = read_u64 b 20;
}

unfoldable pub to_replace_order : List ℕ → ReplaceOrder
to_replace_order b = record {
  order_id = read_u64 b 4;
  account_id = read_u32 b 12;
  instrument_id = read_u32 b 16;
  sequence = read_u64 b 20;
  price = read_i64 b 28;
  quantity = read_u64 b 36;
}

unfoldable pub message_sequence : BorrowedMessage → ℕ
message_sequence (BorrowedMessage.new_order b) = read_u64 b 36
message_sequence (BorrowedMessage.cancel_order b) = read_u64 b 20
message_sequence (BorrowedMessage.replace_order b) = read_u64 b 20

unfoldable pub to_command : BorrowedMessage → Command
unfolding to_new_order to_cancel_order to_replace_order
to_command (BorrowedMessage.new_order b) = Command.new_order (to_new_order b)
to_command (BorrowedMessage.cancel_order b) = Command.cancel_order (to_cancel_order b)
to_command (BorrowedMessage.replace_order b) = Command.replace_order (to_replace_order b)

abbrev is_side_code : ℕ → Bool
is_side_code c = c == 1 || c == 2

abbrev is_tif_code : ℕ → Bool
is_tif_code c = c == 1 || c == 2 || c == 3 || c == 4

-- The arms of the match on the message type.
parse_new_order : List ℕ → ℕ → Result ParseError BorrowedMessage
parse_new_order bytes declared = do
  reject_if (not (declared == new_order_len)) ParseError.invalid_length
  reject_if (not (is_side_code (byte_at bytes 44))) ParseError.invalid_side
  reject_if (not (is_tif_code (byte_at bytes 45))) ParseError.invalid_time_in_force
  ok (BorrowedMessage.new_order bytes)

parse_cancel_order : List ℕ → ℕ → Result ParseError BorrowedMessage
parse_cancel_order bytes declared = do
  reject_if (not (declared == cancel_order_len)) ParseError.invalid_length
  ok (BorrowedMessage.cancel_order bytes)

parse_replace_order : List ℕ → ℕ → Result ParseError BorrowedMessage
parse_replace_order bytes declared = do
  reject_if (not (declared == replace_order_len)) ParseError.invalid_length
  ok (BorrowedMessage.replace_order bytes)

parse_body : List ℕ → ℕ → ℕ → Result ParseError BorrowedMessage
unfolding parse_new_order parse_cancel_order parse_replace_order
parse_body bytes declared kind =
    if kind == new_order_type
    then parse_new_order bytes declared
    else if kind == cancel_order_type
    then parse_cancel_order bytes declared
    else if kind == replace_order_type
    then parse_replace_order bytes declared
    else err ParseError.unknown_message_type

unfoldable pub parse_message : List ℕ → Result ParseError BorrowedMessage
unfolding parse_body
parse_message bytes = do
  reject_if (ltb (length bytes) 4) ParseError.truncated_header
  reject_if (not (byte_at bytes 0 == protocol_version)) ParseError.unsupported_version
  reject_if (not (length bytes == read_u16 bytes 2)) ParseError.invalid_length
  parse_body bytes (read_u16 bytes 2) (byte_at bytes 1)

-- `[0_u8; len]` with the version, the type and the declared length written.
header : ℕ → ℕ → List ℕ
header kind len = copy_at 2 (be_u16 len) (protocol_version ∷ kind ∷ replicate (len - 2) 0)

unfoldable pub encode_new_order : NewOrder → List ℕ
unfolding header
encode_new_order o = copy_at 45 (tif_code o.time_in_force ∷ []) (
    copy_at 44 (side_code o.side ∷ []) (
      copy_at 36 (be_u64 o.sequence) (
        copy_at 28 (be_u64 o.quantity) (
          copy_at 20 (be_i64 o.price) (
            copy_at 16 (be_u32 o.instrument_id) (
              copy_at 12 (be_u32 o.account_id)
                (copy_at 4 (be_u64 o.order_id) (header new_order_type new_order_len))))))))

unfoldable pub encode_cancel_order : CancelOrder → List ℕ
unfolding header
encode_cancel_order c = copy_at 20 (be_u64 c.sequence) (
    copy_at 16 (be_u32 c.instrument_id) (
      copy_at 12 (be_u32 c.account_id)
        (copy_at 4 (be_u64 c.order_id) (header cancel_order_type cancel_order_len))))

unfoldable pub encode_replace_order : ReplaceOrder → List ℕ
unfolding header
encode_replace_order r = copy_at 36 (be_u64 r.quantity) (
    copy_at 28 (be_i64 r.price) (
      copy_at 20 (be_u64 r.sequence) (
        copy_at 16 (be_u32 r.instrument_id) (
          copy_at 12 (be_u32 r.account_id)
            (copy_at 4 (be_u64 r.order_id) (header replace_order_type replace_order_len))))))

unfoldable pub encode : Command → List ℕ
unfolding encode_new_order encode_cancel_order encode_replace_order
encode (Command.new_order o) = encode_new_order o
encode (Command.cancel_order c) = encode_cancel_order c
encode (Command.replace_order r) = encode_replace_order r
