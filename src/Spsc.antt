-- ===== src/Spsc.antt =====
-- crates/hft-spsc/src/lib.rs: `SpscQueue<T, N>`, a ring for one producer and one consumer. N is the
-- length of `slots`; a slot is `none` while it is uninitialised, and a value that is read has left its
-- slot. `position & (N - 1)` is `position % N`, since N is a power of two.
pub mod Length
pub mod Window
pub mod Steps
pub mod Invariant
pub mod Producing
pub mod Consuming
pub mod Interleaved
pub mod Push
pub mod Pop
pub mod Drain
mod Tests
use hft_engine_rs.Prelude.{
  ℕ, zero, suc, ◌+◌, ◌-◌, ◌%◌, ◌^◌, ◌==◌, ◌||◌, Bool, true, false, not, Option, none, some, List,
  [], ◌∷◌, Result, ok, err, length, get_or, set, replicate, if◌then◌else◌,
}
use hft_engine_rs.Prelude.Outcome.{◌>>=◌, ok_or}
use hft_engine_rs.Prelude.Words.{u64_limit, wrap_add, wrap_sub}

pub record SpscQueue (A : Type 0) : Type 0 where
  pub head : ℕ
  pub tail : ℕ
  pub slots : List (Option A)

pub data QueueConfigError : Type 0 where
  capacity_must_be_power_of_two : QueueConfigError

-- A read of a slot that holds no value.
pub data Undefined : Type 0 where
  uninitialised : Undefined

-- `usize::is_power_of_two`, by the powers under `2 ^ bits`.
abbrev pub is_power : ℕ → ℕ → Bool
is_power zero n = false
is_power (suc bits) n = n == 2 ^ bits || is_power bits n

unfoldable pub try_new : {A : Type 0} → ℕ → Result QueueConfigError (SpscQueue A)
try_new n =
    if is_power 64 n
    then ok (record { head = 0; tail = 0; slots = replicate n none })
    else err capacity_must_be_power_of_two

pub record Producer : Type 0 where
  pub tail : ℕ
  pub cached_head : ℕ

pub record Consumer : Type 0 where
  pub head : ℕ
  pub cached_tail : ℕ

unfoldable pub split : {A : Type 0} → SpscQueue A → Producer × Consumer
split queue = (
  record { tail = queue.tail; cached_head = queue.head },
  record { head = queue.head; cached_tail = queue.tail },
)

abbrev pub capacity : {A : Type 0} → SpscQueue A → ℕ
capacity queue = length queue.slots

-- `tail.wrapping_sub(*cached_head) == N`.
abbrev pub looks_full : {A : Type 0} → SpscQueue A → Producer → Bool
looks_full queue p = wrap_sub u64_limit p.tail p.cached_head == capacity queue

abbrev pub looks_empty : Consumer → Bool
looks_empty c = c.head == c.cached_tail

-- What an endpoint remembers of a load of the other's position.
abbrev pub see_head : ℕ → Producer → Producer
see_head head p = record p { cached_head = head }

abbrev pub see_tail : ℕ → Consumer → Consumer
see_tail tail c = record c { cached_tail = tail }

abbrev pub write : {A : Type 0} → ℕ → A → SpscQueue A → SpscQueue A
write position value queue = record queue {
  slots = set queue.slots (position % capacity queue) (some value);
}

abbrev pub advance_tail : Producer → Producer
advance_tail p = record p { tail = wrap_add u64_limit p.tail 1 }

abbrev pub publish : {A : Type 0} → Producer → SpscQueue A → SpscQueue A
publish p queue = record queue { tail = p.tail }

abbrev pub held_at : {A : Type 0} → ℕ → SpscQueue A → Option A
held_at position queue = get_or queue.slots (position % capacity queue) none

abbrev pub move_out : {A : Type 0} → ℕ → SpscQueue A → SpscQueue A
move_out position queue = record queue { slots = set queue.slots (position % capacity queue) none }

abbrev pub advance_head : Consumer → Consumer
advance_head c = record c { head = wrap_add u64_limit c.head 1 }

abbrev pub reclaim : {A : Type 0} → Consumer → SpscQueue A → SpscQueue A
reclaim c queue = record queue { head = c.head }

abbrev pub refreshed : {A : Type 0} → SpscQueue A → Producer → Producer
refreshed queue p = if looks_full queue p then see_head queue.head p else p

-- `push_impl` with nothing in between its steps.
unfoldable pub push_impl :
    {A : Type 0} → A → Producer → SpscQueue A → Result A (Unit {0}) × Producer × SpscQueue A
push_impl value p queue =
    let p' = refreshed queue p in
    if looks_full queue p'
    then (err value, p', queue)
    else (ok tt, advance_tail p', publish (advance_tail p') (write p'.tail value queue))

abbrev pub refreshed_tail : {A : Type 0} → SpscQueue A → Consumer → Consumer
refreshed_tail queue c = if looks_empty c then see_tail queue.tail c else c

abbrev pub moved : {A : Type 0} → Consumer → SpscQueue A → A → Option A × Consumer × SpscQueue A
moved c queue value = (some value, advance_head c, reclaim (advance_head c) (move_out c.head queue))

-- `pop_impl` likewise.
unfoldable pub pop_impl :
    {A : Type 0} → Consumer → SpscQueue A → Result Undefined (Option A × Consumer × SpscQueue A)
pop_impl c queue =
    let c' = refreshed_tail queue c in
    if looks_empty c'
    then ok (none, c', queue)
    else (ok_or (held_at c'.head queue) uninitialised >>= λ value. ok (moved c' queue value))

unfoldable pub has_capacity : {A : Type 0} → Producer → SpscQueue A → Bool × Producer
has_capacity p queue = (not (looks_full queue (refreshed queue p)), refreshed queue p)

-- The loop of `into_inner`: the head meets the tail after as many rounds as it is behind.
unfoldable pub drain : {A : Type 0} → ℕ → SpscQueue A → Result Undefined (List A)
drain zero queue = ok []
drain (suc rounds) queue =
    let rest =
      drain rounds
        (record (move_out queue.head queue) { head = wrap_add u64_limit queue.head 1 }) in
    if queue.head == queue.tail
    then ok []
    else (ok_or (held_at queue.head queue) uninitialised >>= λ value.
        rest >>= λ values. ok (value ∷ values))

unfoldable pub into_inner : {A : Type 0} → SpscQueue A → Result Undefined (List A)
unfolding drain
into_inner queue = drain (wrap_sub u64_limit queue.tail queue.head) queue
