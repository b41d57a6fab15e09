-- ===== src/Book/Location/Tests.antt =====
-- Tests of the packed locations (crates/hft-book/src/lib.rs), in a book of 4 levels of 8 orders.
use hft_engine_rs.Prelude.{◌*◌, ◌≤◌, ◌≡◌, refl, some, none, arith}
use hft_engine_rs.Types.{Side}
use hft_engine_rs.Book.Location.{OrderLocation, encode_location, decode_location}
use hft_engine_rs.Book.Location.RoundTrip.{location_code, decode-encode_location}

abbrev third_sell : OrderLocation
third_sell = record { side = Side.sell; level_index = 2; slot = 3 }

encode_runs : encode_location 4 8 third_sell ≡ some 40
unfolding encode_location
encode_runs = refl

encode_refuses : encode_location 2 8 third_sell ≡ none
unfolding encode_location
encode_refuses = refl

decode_runs : decode_location 4 8 40 ≡ some third_sell
unfolding decode_location
decode_runs = refl

decode-encode_location_example :
    (encode_location 4 8 third_sell ≡ some (location_code 8 third_sell))
    × (1 ≤ location_code 8 third_sell)
    × (location_code 8 third_sell ≤ 4 * 8 * 2)
    × (decode_location 4 8 (location_code 8 third_sell) ≡ some third_sell)
decode-encode_location_example =
    decode-encode_location 4 8 third_sell (omega arith) (omega arith) (omega arith)
