-- ===== src/Spsc/Tests.antt =====
-- Tests of `SpscQueue` (crates/hft-spsc/src/lib.rs), on a ring of two slots.
use hft_engine_rs.Prelude.{
  ℕ, ◌≤◌, ◌≡◌, refl, none, some, List, [], ◌∷◌, ◌++◌, ok, err, arith, length, get_elem?,
}
use hft_engine_rs.Spsc
use hft_engine_rs.Spsc.{
  SpscQueue, Producer, Consumer, capacity, held_at, try_new, push_impl, pop_impl, into_inner,
  has_capacity,
}
use hft_engine_rs.Spsc.Steps.{
  writing, reading, proceed, write_slot, store_tail, refresh_tail, find, System, init, Reach, start,
  produce, consume,
}
use hft_engine_rs.Spsc.Interleaved.{delivery, read_safe, write_safe}
use hft_engine_rs.Spsc.Push.{Pushed, push_impl_lem}
use hft_engine_rs.Spsc.Pop.{Popped, pop_impl_lem}
use hft_engine_rs.Spsc.Drain.{into_inner_lem}

abbrev one_written : SpscQueue ℕ
one_written = record { head = 0; tail = 0; slots = some 7 ∷ none ∷ [] }

abbrev about_to_write : System ℕ
about_to_write = record (init 2) { producer_at = writing 7 }

abbrev one_sent : System ℕ
one_sent = record (init 2) {
  queue = record one_written { tail = 1 };
  producer = record { tail = 1; cached_head = 0 };
}

-- The consumer has found the value.
abbrev about_to_read : System ℕ
about_to_read = record one_sent {
  consumer = record { head = 0; cached_tail = 1 };
  consumer_at = reading;
}

about_to_write-Reach : Reach 2 [] [] about_to_write
about_to_write-Reach = produce start (proceed 7 refl)

one_sent-Reach : Reach 2 (7 ∷ []) [] one_sent
one_sent-Reach = produce (produce about_to_write-Reach (write_slot 7)) (store_tail 7)

about_to_read-Reach : Reach 2 (7 ∷ []) [] about_to_read
about_to_read-Reach =
    consume (consume one_sent-Reach (refresh_tail refl)) (find 1 (1, omega arith, refl) refl)

delivery_example : (pending : List ℕ) × (7 ∷ [] ≡ [] ++ pending) × (length pending ≤ 2)
delivery_example = delivery 2 (7 ∷ []) [] about_to_read refl about_to_read-Reach

read_safe_example :
    (v : ℕ) × (held_at 0 about_to_read.queue ≡ some v) × (get_elem? (7 ∷ []) 0 ≡ some v)
read_safe_example = read_safe 2 (7 ∷ []) [] about_to_read refl about_to_read-Reach refl

write_safe_example : get_elem? about_to_write.queue.slots 0 ≡ some none
write_safe_example = write_safe 2 [] [] about_to_write 7 refl about_to_write-Reach refl

push_impl_lem_example :
    Pushed 2 (7 ∷ []) [] one_sent 8 (push_impl 8 one_sent.producer one_sent.queue)
push_impl_lem_example = push_impl_lem 2 (7 ∷ []) [] one_sent 8 refl one_sent-Reach refl

pop_impl_lem_example : Popped 2 (7 ∷ []) [] one_sent (pop_impl one_sent.consumer one_sent.queue)
pop_impl_lem_example = pop_impl_lem 2 (7 ∷ []) [] one_sent refl one_sent-Reach refl

into_inner_lem_example :
    (pending : List ℕ) × (7 ∷ [] ≡ [] ++ pending) × (into_inner one_sent.queue ≡ ok pending)
into_inner_lem_example = into_inner_lem 2 (7 ∷ []) [] one_sent refl one_sent-Reach refl refl

-- The third value does not fit, and comes back.
push_runs :
    push_impl {A = ℕ} 9
      (record { tail = 2; cached_head = 0 })
      (record { head = 0; tail = 2; slots = some 7 ∷ some 8 ∷ [] })
    ≡ (
      err 9,
      record { tail = 2; cached_head = 0 },
      record { head = 0; tail = 2; slots = some 7 ∷ some 8 ∷ [] },
    )
unfolding push_impl
push_runs = refl

three_refused : try_new {A = ℕ} 3 ≡ err Spsc.capacity_must_be_power_of_two
unfolding try_new
three_refused = refl
