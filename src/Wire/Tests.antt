-- ===== src/Wire/Tests.antt =====
-- Tests of the codec (crates/hft-wire/src/lib.rs).
use hft_engine_rs.Prelude.{ℕ, ◌≡◌, refl, List, [], ◌∷◌, ◌↔◌, ok, err, arith}
use hft_engine_rs.Prelude.Int.{negsuc}
use hft_engine_rs.Types.{Side, TimeInForce, NewOrder, CancelOrder, Command, sequence}
use hft_engine_rs.Wire.{
  BorrowedMessage, ParseError, parse_message, encode, encode_cancel_order, encode_new_order,
  to_command, message_sequence,
}
use hft_engine_rs.Wire.Parse.{Frames, parse_message_iff}
use hft_engine_rs.Wire.RoundTrip.{message, decode-encode, message_sequence_lem}

abbrev order : NewOrder
order = record {
  order_id = 0x1122_3344_5566_7788;
  account_id = 9;
  instrument_id = 1;
  price = negsuc 4;
  quantity = 300;
  sequence = 12;
  side = Side.sell;
  time_in_force = TimeInForce.fok;
}

cancellation : CancelOrder
cancellation = record { order_id = 258; account_id = 9; instrument_id = 1; sequence = 13 }

encode_runs :
    encode_cancel_order cancellation
    ≡ 2 ∷ 2 ∷ 0 ∷ 28 ∷ 0 ∷ 0 ∷ 0 ∷ 0 ∷ 0 ∷ 0 ∷ 1 ∷ 2 ∷ 0 ∷ 0 ∷ 0 ∷ 9 ∷ 0 ∷ 0 ∷ 0 ∷ 1 ∷ 0 ∷ 0 ∷ 0 ∷ 0
      ∷ 0 ∷ 0 ∷ 0 ∷ 13 ∷ []
unfolding encode_cancel_order cancellation
encode_runs = refl

decode-encode_example :
    (parse_message (encode (Command.new_order order)) ≡ ok (message (Command.new_order order)))
    × (to_command (message (Command.new_order order)) ≡ Command.new_order order)
    × (message_sequence (message (Command.new_order order)) ≡ sequence (Command.new_order order))
decode-encode_example = decode-encode (Command.new_order order) (omega arith)

-- A frame cut short by its last byte, with the full length declared.
abbrev short_frame : List ℕ
short_frame = 2 ∷ 2 ∷ 0 ∷ 28 ∷ 0 ∷ []

short_refused : parse_message short_frame ≡ err ParseError.invalid_length
unfolding parse_message
short_refused = refl

abbrev order_frame : List ℕ
order_frame = encode (Command.new_order order)

order_accepted : parse_message order_frame ≡ ok (BorrowedMessage.new_order order_frame)
unfolding parse_message encode encode_new_order
order_accepted = refl

parse_message_iff_example :
    (parse_message order_frame ≡ ok (BorrowedMessage.new_order order_frame))
    ↔ Frames (BorrowedMessage.new_order order_frame) order_frame
parse_message_iff_example = parse_message_iff order_frame (BorrowedMessage.new_order order_frame)

message_sequence_lem_example :
    message_sequence (BorrowedMessage.cancel_order short_frame)
    ≡ sequence (to_command (BorrowedMessage.cancel_order short_frame))
message_sequence_lem_example = message_sequence_lem (BorrowedMessage.cancel_order short_frame)
