-- ===== src/Book/Index.antt =====
-- crates/hft-book/src/lib.rs: `OrderIndex`, the hash index from order identifiers to locations. The
-- planes are one list here, row after row, as `coordinates` counts them; `levels` and `orders` are the
-- array lengths LEVELS and ORDERS.
pub mod Remove
use hft_engine_rs.Prelude.{
  ℕ, zero, suc, ◌+◌, ◌-◌, ◌*◌, ◌%◌, ◌==◌, Bool, true, false, Option, none, some, List, Result, ok,
  err, ltb, leb, length, get_or, set, replicate, if◌then◌else◌,
}
use hft_engine_rs.Prelude.Words.{u32_limit, u64_limit, wrap_add, ◌>>=?◌}
use hft_engine_rs.Types.{RejectReason}
use hft_engine_rs.Book.Location.{OrderLocation, encode_location, decode_location}

-- A place is empty, or has an identifier and an encoded location (a `NonZeroUsize`).
pub data IndexSlot : Type 0 where
  empty : IndexSlot
  occupied : ℕ → ℕ → IndexSlot

pub record OrderIndex : Type 0 where
  pub slots : List IndexSlot
  pub levels : ℕ
  pub orders : ℕ

abbrev pub order_index_planes : ℕ
order_index_planes = 4

-- `CAPACITY`, which is the number of places.
abbrev pub capacity : OrderIndex → ℕ
capacity index = length index.slots

unfoldable pub new : ℕ → ℕ → OrderIndex
new levels orders = record {
  slots = replicate (levels * orders * order_index_planes) empty;
  levels = levels;
  orders = orders;
}

abbrev pub slot : OrderIndex → ℕ → IndexSlot
slot index flat = get_or index.slots flat empty

unfoldable pub write_slot : OrderIndex → ℕ → IndexSlot → OrderIndex
write_slot index flat entry = record index { slots = set index.slots flat entry }

unfoldable pub probe_start : OrderIndex → ℕ → ℕ
probe_start index order_id = order_id * 0x9e37_79b9_7f4a_7c15 % u64_limit % capacity index

unfoldable pub probe_distance : OrderIndex → ℕ → ℕ → ℕ
probe_distance index home current =
    if leb home current then current - home else capacity index - (home - current)

-- Where the probe of an offset lands.
abbrev pub probe : OrderIndex → ℕ → ℕ → ℕ
probe index start offset = wrap_add u64_limit start offset % capacity index

find_loop : OrderIndex → ℕ → ℕ → ℕ → ℕ → Option ℕ
find_loop index order_id start zero offset = none
find_loop index order_id start (suc rounds) offset = elim (slot index (probe index start offset)) [
  | empty ↦ none
  | occupied indexed encoded ↦ elim (indexed == order_id) [
    | true ↦ some (probe index start offset)
    | false ↦ find_loop index order_id start rounds (offset + 1)
  ]
]

unfoldable pub find_slot : OrderIndex → ℕ → Option ℕ
unfolding find_loop probe_start
find_slot index order_id =
    if capacity index == 0
    then none
    else find_loop index order_id (probe_start index order_id) (capacity index) 0

abbrev pub decoded : OrderIndex → IndexSlot → Option OrderLocation
decoded index empty = none
decoded index (occupied order_id encoded) = decode_location index.levels index.orders encoded

unfoldable pub location : OrderIndex → ℕ → Option OrderLocation
unfolding find_slot
location index order_id = find_slot index order_id >>=? λ flat. decoded index (slot index flat)

insert_loop : ℕ → ℕ → ℕ → ℕ → ℕ → OrderIndex → Result RejectReason ℕ × OrderIndex
insert_loop order_id encoded start zero offset index = (err RejectReason.order_capacity, index)
insert_loop order_id encoded start (suc rounds) offset index =
    elim (slot index (probe index start offset)) [
      | empty ↦
          if ltb (probe index start offset) u32_limit
          then (
            ok (probe index start offset),
            write_slot index (probe index start offset) (occupied order_id encoded),
          )
          else (err RejectReason.order_capacity, index)
      | occupied indexed other ↦ elim (indexed == order_id) [
        | true ↦ (err RejectReason.duplicate_order_id, index)
        | false ↦ insert_loop order_id encoded start rounds (offset + 1) index
      ]
    ]

insert_encoded : ℕ → Option ℕ → OrderIndex → Result RejectReason ℕ × OrderIndex
unfolding insert_loop probe_start write_slot
insert_encoded order_id none index = (err RejectReason.order_capacity, index)
insert_encoded order_id (some encoded) index =
    insert_loop order_id encoded (probe_start index order_id) (capacity index) 0 index

-- The index of the place taken.
unfoldable pub insert : ℕ → OrderLocation → OrderIndex → Result RejectReason ℕ × OrderIndex
unfolding insert_encoded
insert order_id location index =
    if capacity index == 0
    then (err RejectReason.order_capacity, index)
    else insert_encoded order_id (encode_location index.levels index.orders location) index

module _ {S : Type 0} (update_reverse_slot : ℕ → OrderLocation → ℕ → S → S) where
  -- The loop of `remove_at`, which closes the hole and tells the owner `S` of the handles of each entry
  -- that it moves: whether it went through, and what it left. (What the callback returns serves a
  -- debug assertion only.) An empty place ends it; the source has no bound. The rounds are the
  -- capacity, after which each place was a candidate and none was empty: there the source does not end,
  -- and the model gives no result. A handle is a `u32`; insertion takes only places that fit in one, and
  -- the holes are such places, so the conversion of `hole` cannot fail.
  shift_back : ℕ → ℕ → ℕ → OrderIndex → S → Bool × OrderIndex × S
  shift_back zero hole candidate index s = (false, index, s)
  shift_back (suc rounds) hole candidate index s = elim (slot index candidate) [
    | empty ↦ (true, write_slot index hole empty, s)
    | occupied order_id encoded ↦
        elim (ltb (probe_distance index (probe_start index order_id) hole)
          (probe_distance index (probe_start index order_id) candidate)) [
            | true ↦ elim (decode_location index.levels index.orders encoded) [
              | none ↦ (false, index, s)
              | some moved ↦
                  shift_back rounds candidate (wrap_add u64_limit candidate 1 % capacity index)
                    (write_slot index hole (occupied order_id encoded))
                    (update_reverse_slot order_id moved hole s)
            ]
            | false ↦
                shift_back rounds hole (wrap_add u64_limit candidate 1 % capacity index) index s
          ]
  ]

  remove_entry :
      Option OrderLocation
      → IndexSlot
      → ℕ
      → ℕ
      → OrderIndex
      → S
      → Option OrderLocation × OrderIndex × S
  remove_entry none entry flat order_id index s = (none, index, s)
  remove_entry (some location) empty flat order_id index s = (none, index, s)
  remove_entry (some location) (occupied indexed encoded) flat order_id index s =
      let closed =
        shift_back (capacity index) flat (wrap_add u64_limit flat 1 % capacity index) index s in
      elim (indexed == order_id) [
        | true ↦ (if closed.0 then some location else none, closed.1, closed.2)
        | false ↦ (none, index, s)
      ]

  -- A handle is a `u32`, which fits in a `usize`.
  unfoldable pub remove_at : ℕ → ℕ → OrderIndex → S → Option OrderLocation × OrderIndex × S
  unfolding remove_entry shift_back write_slot probe_distance probe_start
  remove_at flat order_id index s =
      if leb (capacity index) flat
      then (none, index, s)
      else remove_entry (decoded index (slot index flat)) (slot index flat) flat order_id index s
