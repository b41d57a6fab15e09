-- ===== src/Risk/ProbeIndex.antt =====
-- crates/hft-risk/src/lib.rs: `ProbeIndex`, a hash index by open addressing with linear probing and
-- back-shift deletion. The planes are one list here, row after row: `coordinates` splits a flat index
-- into plane and place, and `slots[plane][within]` is the place that the flat index counts to.
pub mod Find
use hft_engine_rs.Prelude.{
  ℕ, zero, suc, ◌+◌, ◌-◌, ◌*◌, ◌/◌, ◌%◌, ◌^◌, ◌==◌, Bool, true, false, Option, none, some, List,
  Result, ok, err, ltb, leb, length, get_or, set, replicate, if◌then◌else◌,
}
use hft_engine_rs.Prelude.Words.{u32_limit, u64_limit}

-- The value is the handle plus one (a `NonZeroUsize`).
pub data IndexSlot : Type 0 where
  empty : IndexSlot
  occupied : ℕ → ℕ → IndexSlot

pub data ProbeError : Type 0 where
  full duplicate : ProbeError

pub record ProbeIndex : Type 0 where
  pub slots : List IndexSlot

abbrev pub capacity : ProbeIndex → ℕ
capacity index = length index.slots

unfoldable pub new : ℕ → ProbeIndex
new places = record { slots = replicate places empty }

abbrev pub wrapping_add : ℕ → ℕ → ℕ
wrapping_add a b = (a + b) % u64_limit

abbrev pub slot : ProbeIndex → ℕ → IndexSlot
slot index flat = get_or index.slots flat empty

unfoldable pub write_slot : ProbeIndex → ℕ → IndexSlot → ProbeIndex
write_slot index flat entry = record { slots = set index.slots flat entry }

-- The capacity is a `u64` on every supported target, so the fallbacks of the conversions are not
-- taken.
unfoldable pub probe_start : ProbeIndex → ℕ → ℕ
probe_start index key = key * 0x9e37_79b9_7f4a_7c15 % u64_limit % capacity index

unfoldable pub probe_distance : ProbeIndex → ℕ → ℕ → ℕ
probe_distance index home current =
    if leb home current then current - home else capacity index - (home - current)

-- Where the probe of an offset lands.
abbrev pub probe : ProbeIndex → ℕ → ℕ → ℕ
probe index start offset = wrapping_add start offset % capacity index

-- The loop of `find_slot`, with the offsets left to try.
find_loop : ProbeIndex → ℕ → ℕ → ℕ → ℕ → Option ℕ
find_loop index key start zero offset = none
find_loop index key start (suc rounds) offset = elim (slot index (probe index start offset)) [
  | empty ↦ none
  | occupied indexed value ↦ elim (indexed == key) [
    | true ↦ some (probe index start offset)
    | false ↦ find_loop index key start rounds (offset + 1)
  ]
]

unfoldable pub find_slot : ProbeIndex → ℕ → Option ℕ
unfolding find_loop probe_start
find_slot index key =
    if capacity index == 0
    then none
    else find_loop index key (probe_start index key) (capacity index) 0

abbrev handle : IndexSlot → Option ℕ
handle empty = none
handle (occupied key value) = some (value - 1)

unfoldable pub lookup : ProbeIndex → ℕ → Option ℕ
unfolding find_slot
lookup index key = elim (find_slot index key) [ none ↦ none | some flat ↦ handle (slot index flat) ]

-- The loop of `insert`: the place taken, and the index with the entry in it.
insert_loop : ProbeIndex → ℕ → ℕ → ℕ → ℕ → ℕ → Result ProbeError ℕ × ProbeIndex
insert_loop index key value start zero offset = (err ProbeError.full, index)
insert_loop index key value start (suc rounds) offset =
    elim (slot index (probe index start offset)) [
      | empty ↦
          if ltb (probe index start offset) u32_limit
          then (
            ok (probe index start offset),
            write_slot index (probe index start offset) (occupied key value),
          )
          else (err ProbeError.full, index)
      | occupied indexed other ↦ elim (indexed == key) [
        | true ↦ (err ProbeError.duplicate, index)
        | false ↦ insert_loop index key value start rounds (offset + 1)
      ]
    ]

unfoldable pub insert : ℕ → ℕ → ProbeIndex → Result ProbeError ℕ × ProbeIndex
unfolding insert_loop probe_start write_slot
insert key value index =
    if capacity index == 0
    then (err ProbeError.full, index)
    else if leb u64_limit (value + 1)
    then (err ProbeError.full, index)
    else insert_loop index key (value + 1) (probe_start index key) (capacity index) 0

module _ {S : Type 0} (update_moved : ℕ → ℕ → ℕ → S → S) where
  -- The loop of `remove_at`, which closes the hole and tells the owner `S` of the handles of each
  -- entry that it moves. (What the callback returns serves a debug assertion only.) The source has no
  -- bound: an empty slot ends it. The rounds are the capacity, after which every slot was a candidate.
  shift_back : ℕ → ℕ → ℕ → ProbeIndex → S → ProbeIndex × S
  shift_back zero hole candidate index s = (index, s)
  shift_back (suc rounds) hole candidate index s = elim (slot index candidate) [
    | empty ↦ (write_slot index hole empty, s)
    | occupied key value ↦
        elim (ltb (probe_distance index (probe_start index key) hole)
          (probe_distance index (probe_start index key) candidate)) [
            | true ↦
                shift_back rounds candidate (wrapping_add candidate 1 % capacity index)
                  (write_slot index hole (occupied key value)) (update_moved key (value - 1) hole s)
            | false ↦ shift_back rounds hole (wrapping_add candidate 1 % capacity index) index s
          ]
  ]

  remove_entry : IndexSlot → ℕ → ℕ → ProbeIndex → S → Option ℕ × ProbeIndex × S
  remove_entry empty flat key index s = (none, index, s)
  remove_entry (occupied indexed value) flat key index s =
      let closed =
        shift_back (capacity index) flat (wrapping_add flat 1 % capacity index) index s in
      elim (indexed == key) [
        | true ↦ (some (value - 1), closed.0, closed.1)
        | false ↦ (none, index, s)
      ]

  unfoldable pub remove_at : ℕ → ℕ → ProbeIndex → S → Option ℕ × ProbeIndex × S
  unfolding remove_entry shift_back write_slot probe_distance probe_start
  remove_at flat key index s =
      if leb (capacity index) flat
      then (none, index, s)
      else remove_entry (slot index flat) flat key index s
