-- ===== src/Book/Fifo/Tests.antt =====
-- Tests of `PriceLevel` (crates/hft-book/src/lib.rs): a level of three slots.
use hft_engine_rs.Prelude.{ℕ, ◌≡◌, refl, some, List, [], ◌∷◌, ◌++◌, map, arith}
use hft_engine_rs.Prelude.Int.{pos}
use hft_engine_rs.Book.Fifo.{
  PriceLevel, RestingOrder, OrderSlot, nil, new, push_tail, unlink, get_live, reduce_quantity,
  for_each_live, step,
}
use hft_engine_rs.Book.Fifo.Queue.{bare, IsQueue}
use hft_engine_rs.Book.Fifo.Push.{for_each_live_lem, push_tail-IsQueue}
use hft_engine_rs.Book.Fifo.Cancel.{unlink-IsQueue}

abbrev order : ℕ → ℕ → RestingOrder
order id quantity = record {
  id = id;
  account_id = 1;
  index_slot = 0;
  quantity = quantity;
  sequence = id;
  prev = nil;
  next = nil;
}

-- Two orders, the first in slot 0.
abbrev level : PriceLevel
level = record {
  price = pos 100;
  aggregate_quantity = 30;
  slots =
      OrderSlot.live (record (order 1 10) { next = 1 })
      ∷ OrderSlot.live (record (order 2 20) { prev = 0 })
      ∷ OrderSlot.free nil
      ∷ [];
  head = 0;
  tail = 1;
  free_head = 2;
  len = 2;
}

opened : Unit {0}
unfolding new push_tail unlink get_live reduce_quantity for_each_live step
opened = tt

push_tail_runs :
    push_tail (order 2 20) (push_tail (order 1 10) (new (pos 100) 3)).1 ≡ (some 1, level)
unfolding opened
push_tail_runs = refl

-- The queue after its head was unlinked and an order took the slot again.
for_each_live_runs :
    map (λ o. o.id) (for_each_live (push_tail (order 3 5) (unlink 0 level).1).1) ≡ 2 ∷ 3 ∷ []
unfolding opened
for_each_live_runs = refl

-- The queue that the links of `level` hold.
abbrev queue : List (ℕ × RestingOrder)
queue = (0, order 1 10) ∷ (1, order 2 20) ∷ []

level-IsQueue : IsQueue level queue
level-IsQueue = record {
  chain = (
    refl,
    omega arith,
    record (order 1 10) { next = 1 },
    refl,
    refl,
    refl,
    (refl, omega arith, record (order 2 20) { prev = 0 }, refl, refl, refl, (refl, refl)),
  );
  counted = refl;
  fits = omega arith;
  addressable = omega arith;
}

for_each_live_lem_example : map bare (for_each_live level) ≡ map (λ e. e.1) queue
for_each_live_lem_example = for_each_live_lem level queue level-IsQueue

push_tail-IsQueue_example :
    IsQueue (push_tail (order 3 5) level).1 (queue ++ (2, bare (order 3 5)) ∷ [])
unfolding opened
push_tail-IsQueue_example = push_tail-IsQueue (order 3 5) level 2 queue level-IsQueue refl

unlink-IsQueue_example :
    ((o : RestingOrder) × ((unlink 0 level).0 ≡ some o) × (bare o ≡ order 1 10))
    × IsQueue (unlink 0 level).1 ((1, order 2 20) ∷ [])
unfolding opened
unlink-IsQueue_example =
    unlink-IsQueue level [] (0, order 1 10) ((1, order 2 20) ∷ []) level-IsQueue
