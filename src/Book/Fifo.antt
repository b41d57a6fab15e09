-- ===== src/Book/Fifo.antt =====
-- crates/hft-book/src/lib.rs: `PriceLevel`, the queue of the orders that rest at one price: a doubly
-- linked list through an array of slots, whose other slots form a free list. ORDERS is the length of
-- `slots`. Arithmetic is that of the release build, which wraps around.
pub mod Live
pub mod Queue
pub mod Push
pub mod Unlink
pub mod Remove
pub mod Cancel
mod Tests
use hft_engine_rs.Prelude.{
  ℕ, zero, suc, ◌+◌, ◌-◌, ◌==◌, ◌||◌, Bool, true, false, Option, none, some, List, [], ◌∷◌, leb,
  ltb, length, get_elem?, set, if◌then◌else◌,
}
use hft_engine_rs.Prelude.Int.{ℤ}
use hft_engine_rs.Prelude.Words.{u64_limit, u128_limit, wrap_add, wrap_sub, checked_sub, ◌>>=?◌}

-- `usize::MAX`.
abbrev pub nil : ℕ
nil = u64_limit - 1

pub record RestingOrder : Type 0 where
  pub id : ℕ
  pub account_id : ℕ
  pub index_slot : ℕ
  pub quantity : ℕ
  pub sequence : ℕ
  pub prev : ℕ
  pub next : ℕ

pub data OrderSlot : Type 0 where
  free : ℕ → OrderSlot
  live : RestingOrder → OrderSlot

pub record PriceLevel : Type 0 where
  pub price : ℤ
  pub aggregate_quantity : ℕ
  pub slots : List OrderSlot
  pub head : ℕ
  pub tail : ℕ
  pub free_head : ℕ
  pub len : ℕ

-- The slots from `index` on, `left` of them, each linked to the one behind it.
pub free_slots : ℕ → ℕ → ℕ → List OrderSlot
free_slots orders zero index = []
free_slots orders (suc left) index =
    OrderSlot.free (if ltb (index + 1) orders then index + 1 else nil)
    ∷ free_slots orders left (index + 1)

unfoldable pub new : ℤ → ℕ → PriceLevel
unfolding free_slots
new price orders = record {
  price = price;
  aggregate_quantity = 0;
  slots = free_slots orders orders 0;
  head = nil;
  tail = nil;
  free_head = if orders == 0 then nil else 0;
  len = 0;
}

abbrev pub as_live : Option OrderSlot → Option RestingOrder
as_live (some (OrderSlot.live order)) = some order
as_live (some (OrderSlot.free next_free)) = none
as_live none = none

abbrev pub as_free : Option OrderSlot → Option ℕ
as_free (some (OrderSlot.free next_free)) = some next_free
as_free (some (OrderSlot.live order)) = none
as_free none = none

abbrev pub live_in : List OrderSlot → ℕ → Option RestingOrder
live_in slots at = as_live (get_elem? slots at)

-- A slot written if it is live.
abbrev pub update_live : ℕ → (RestingOrder → RestingOrder) → List OrderSlot → List OrderSlot
update_live at f slots = elim (live_in slots at) [
  | some order ↦ set slots at (OrderSlot.live (f order))
  | none ↦ slots
]

abbrev pub with_next : ℕ → RestingOrder → RestingOrder
with_next at order = record order { next = at }

abbrev pub with_prev : ℕ → RestingOrder → RestingOrder
with_prev at order = record order { prev = at }

-- Whether a link is `nil` or leads to a live slot.
abbrev pub is_sound : ℕ → List OrderSlot → Bool
is_sound at slots =
    if at == nil then true else elim (live_in slots at) [ some order ↦ true | none ↦ false ]

abbrev pub link_next : ℕ → ℕ → List OrderSlot → List OrderSlot
link_next at to slots = if at == nil then slots else update_live at (with_next to) slots

abbrev pub link_prev : ℕ → ℕ → List OrderSlot → List OrderSlot
link_prev at to slots = if at == nil then slots else update_live at (with_prev to) slots

unfoldable pub push_tail : RestingOrder → PriceLevel → Option ℕ × PriceLevel
push_tail order level =
    let slot = level.free_head in
    if (level.free_head == nil) || leb (length level.slots) level.len
    then (none, level)
    else elim (as_free (get_elem? level.slots slot)) [
      | none ↦ (none, level)
      | some next_free ↦
          if is_sound level.tail level.slots
          then (
            some slot,
            record level {
              slots =
                  set (link_next level.tail slot level.slots) slot
                    (OrderSlot.live (record order { prev = level.tail; next = nil }));
              free_head = next_free;
              head = if level.tail == nil then slot else level.head;
              tail = slot;
              len = wrap_add u64_limit level.len 1;
              aggregate_quantity = wrap_add u128_limit level.aggregate_quantity order.quantity;
            },
          )
          else (none, level)
    ]

unfoldable pub unlink : ℕ → PriceLevel → Option RestingOrder × PriceLevel
unlink slot level = elim (live_in level.slots slot) [
  | none ↦ (none, level)
  | some order ↦
      if is_sound order.prev level.slots
      then if is_sound order.next level.slots
        then (
          some order,
          record level {
            head = if order.prev == nil then order.next else level.head;
            tail = if order.next == nil then order.prev else level.tail;
            slots =
                set (link_prev order.next order.prev (link_next order.prev order.next level.slots))
                  slot (OrderSlot.free level.free_head);
            free_head = slot;
            len = wrap_sub u64_limit level.len 1;
            aggregate_quantity = wrap_sub u128_limit level.aggregate_quantity order.quantity;
          },
        )
        else (none, level)
      else (none, level)
]

unfoldable pub get_live : PriceLevel → ℕ → Option RestingOrder
get_live level slot = live_in level.slots slot

unfoldable pub reduce_quantity : ℕ → ℕ → PriceLevel → Option (Unit {0}) × PriceLevel
reduce_quantity slot quantity level = elim (live_in level.slots slot) [
  | none ↦ (none, level)
  | some order ↦ elim (checked_sub order.quantity quantity) [
    | none ↦ (none, level)
    | some left ↦ (
      some tt,
      record level {
        slots = set level.slots slot (OrderSlot.live (record order { quantity = left }));
        aggregate_quantity = wrap_sub u128_limit level.aggregate_quantity quantity;
      },
    )
  ]
]

-- The three changes of a level, and whether each returned a value.
pub data LevelStep : Type 0 where
  pushes_tail : RestingOrder → LevelStep
  unlinks : ℕ → LevelStep
  reduces_quantity : ℕ → ℕ → LevelStep

abbrev pub is_some : {A : Type 0} → Option A → Bool
is_some none = false
is_some (some a) = true

unfoldable pub step : LevelStep → PriceLevel → Bool × PriceLevel
step (LevelStep.pushes_tail order) level =
    (is_some (push_tail order level).0, (push_tail order level).1)
step (LevelStep.unlinks slot) level = (is_some (unlink slot level).0, (unlink slot level).1)
step (LevelStep.reduces_quantity slot quantity) level =
    (is_some (reduce_quantity slot quantity level).0, (reduce_quantity slot quantity level).1)

-- The orders that `for_each_live` visits from `cursor` on. The source has no bound; in a level of n
-- slots the rounds are n, which a list without a cycle does not exceed.
pub walk : ℕ → ℕ → List OrderSlot → List RestingOrder
walk zero cursor slots = []
walk (suc rounds) cursor slots = if cursor == nil then [] else elim (live_in slots cursor) [
  | none ↦ []
  | some order ↦ order ∷ walk rounds order.next slots
]

unfoldable pub for_each_live : PriceLevel → List RestingOrder
unfolding walk
for_each_live level = walk (length level.slots) level.head level.slots
