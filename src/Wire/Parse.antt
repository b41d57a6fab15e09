-- ===== src/Wire/Parse.antt =====
-- crates/hft-wire/src/lib.rs: exactly which frames `parse_message` accepts.
use hft_engine_rs.Prelude.{ℕ, ◌≤◌, ◌≡◌, ◌⊎◌, ◌↔◌, List, ok, arith, length}
use hft_engine_rs.Wire.{BorrowedMessage, parse_message}
use hft_engine_rs.Wire.Bytes.{byte_at, read_u16}

-- The header of a complete frame of the given type and length.
abbrev pub HasHeader : ℕ → ℕ → List ℕ → Type 0
HasHeader kind len bytes =
    (length bytes ≡ len)
    × (byte_at bytes 0 ≡ 2)
    × (byte_at bytes 1 ≡ kind)
    × (read_u16 bytes 2 ≡ len)

-- The frames of docs/PROTOCOL.md: version 2, the type and the length in the header, a new order of 46
-- bytes with a side of 1 or 2 at offset 44, and a cancel of 28 bytes. Two parts of version 2 are in the
-- code and not in that document: the time in force at offset 45, from 1 to 4, and the replacement of 44
-- bytes.
abbrev pub Frames : BorrowedMessage → List ℕ → Type 0
Frames (BorrowedMessage.new_order b) bytes =
    (b ≡ bytes)
    × HasHeader 1 46 bytes
    × ((byte_at bytes 44 ≡ 1) ⊎ (byte_at bytes 44 ≡ 2))
    × (1 ≤ byte_at bytes 45)
    × (byte_at bytes 45 ≤ 4)
Frames (BorrowedMessage.cancel_order b) bytes = (b ≡ bytes) × HasHeader 2 28 bytes
Frames (BorrowedMessage.replace_order b) bytes = (b ≡ bytes) × HasHeader 3 44 bytes

parse_sound : (bytes : List ℕ) (m : BorrowedMessage) → parse_message bytes ≡ ok m → Frames m bytes
unfolding parse_message
parse_sound bytes (BorrowedMessage.new_order b) h = ground arith
parse_sound bytes (BorrowedMessage.cancel_order b) h = ground arith
parse_sound bytes (BorrowedMessage.replace_order b) h = ground arith

parse_complete :
    (bytes : List ℕ) (m : BorrowedMessage) → Frames m bytes → parse_message bytes ≡ ok m
unfolding parse_message
parse_complete bytes (BorrowedMessage.new_order b) h = ground arith
parse_complete bytes (BorrowedMessage.cancel_order b) h = ground arith
parse_complete bytes (BorrowedMessage.replace_order b) h = ground arith

-- The parser accepts exactly the frames with version 2, whose length is that of their type and is the
-- one that the header declares: a new order of 46 bytes with a side of 1 or 2 and a time in force from 1
-- to 4, a cancel of 28 bytes and a replacement of 44 bytes. It gives the message of that type, with all
-- the bytes.
pub parse_message_iff :
    (bytes : List ℕ) (m : BorrowedMessage) → (parse_message bytes ≡ ok m) ↔ Frames m bytes
parse_message_iff bytes m = (parse_sound bytes m, parse_complete bytes m)
