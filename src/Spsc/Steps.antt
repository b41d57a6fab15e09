-- ===== src/Spsc/Steps.antt =====
-- crates/hft-spsc/src/lib.rs: the two endpoints of a `SpscQueue`, their loads, their stores and their
-- accesses to a slot interleaved in any order. A load gives any position that the other endpoint has
-- published since the one that the loading endpoint remembers, not only the last one.
use hft_engine_rs.Prelude.{ℕ, ◌≤◌, ◌≡◌, true, false, none, some, List, [], ◌∷◌, ◌++◌, replicate}
use hft_engine_rs.Prelude.Words.{u64_limit, wrap_add, wrap_sub}
use hft_engine_rs.Spsc.{
  SpscQueue, Producer, Consumer, looks_full, looks_empty, see_head, see_tail, write, advance_tail,
  publish, held_at, move_out, advance_head, reclaim,
}

-- Where an endpoint stands, with the value that it has in its hands there.
pub data ProducerAt (A : Type 0) : Type 0 where
  at_rest : ProducerAt A
  refreshing : (value : A) → ProducerAt A  -- before the load of `head`
  writing : (value : A) → ProducerAt A  -- before the write of the slot
  publishing : (value : A) → ProducerAt A  -- before the store of `tail`

pub data ConsumerAt (A : Type 0) : Type 0 where
  waiting : ConsumerAt A
  refreshing_tail : ConsumerAt A  -- before the load of `tail`
  reading : ConsumerAt A  -- before the read of the slot
  reclaiming : (value : A) → ConsumerAt A  -- before the store of `head`

-- Published between the position that is remembered and the current one.
abbrev pub Published : ℕ → ℕ → ℕ → Type 0
Published remembered loaded current =
    (k : ℕ) × (k ≤ wrap_sub u64_limit current remembered)
    × (loaded ≡ wrap_add u64_limit remembered k)

-- One step of `push_impl` or of `has_capacity`, with the value that it publishes.
pub data Produces {A : Type 0} (q : SpscQueue A) (p : Producer)
    : ProducerAt A → SpscQueue A → Producer → ProducerAt A → List A → Type 0 where
  refresh : (v : A) → looks_full q p ≡ true → Produces q p at_rest q p (refreshing v) []
  proceed : (v : A) → looks_full q p ≡ false → Produces q p at_rest q p (writing v) []
  refuse :
      (v : A) (h : ℕ)
      → Published p.cached_head h q.head
      → looks_full q (see_head h p) ≡ true
      → Produces q p (refreshing v) q (see_head h p) at_rest []
  admit :
      (v : A) (h : ℕ)
      → Published p.cached_head h q.head
      → looks_full q (see_head h p) ≡ false
      → Produces q p (refreshing v) q (see_head h p) (writing v) []
  write_slot :
      (v : A) → Produces q p (writing v) (write p.tail v q) (advance_tail p) (publishing v) []
  store_tail : (v : A) → Produces q p (publishing v) (publish p q) p at_rest (v ∷ [])
  check_capacity :
      (h : ℕ)
      → looks_full q p ≡ true
      → Published p.cached_head h q.head
      → Produces q p at_rest q (see_head h p) at_rest []

-- One step of `pop_impl`, with the value that it hands out.
pub data Consumes {A : Type 0} (q : SpscQueue A) (c : Consumer)
    : ConsumerAt A → SpscQueue A → Consumer → ConsumerAt A → List A → Type 0 where
  refresh_tail : looks_empty c ≡ true → Consumes q c waiting q c refreshing_tail []
  proceed_head : looks_empty c ≡ false → Consumes q c waiting q c reading []
  give_up :
      (t : ℕ)
      → Published c.cached_tail t q.tail
      → looks_empty (see_tail t c) ≡ true
      → Consumes q c refreshing_tail q (see_tail t c) waiting []
  find :
      (t : ℕ)
      → Published c.cached_tail t q.tail
      → looks_empty (see_tail t c) ≡ false
      → Consumes q c refreshing_tail q (see_tail t c) reading []
  read_slot :
      (v : A)
      → held_at c.head q ≡ some v
      → Consumes q c reading (move_out c.head q) (advance_head c) (reclaiming v) []
  store_head : (v : A) → Consumes q c (reclaiming v) (reclaim c q) c waiting (v ∷ [])

pub record System (A : Type 0) : Type 0 where
  pub queue : SpscQueue A
  pub producer : Producer
  pub producer_at : ProducerAt A
  pub consumer : Consumer
  pub consumer_at : ConsumerAt A

-- `try_new` and `split`.
abbrev pub init : {A : Type 0} → ℕ → System A
init n = record {
  queue = record { head = 0; tail = 0; slots = replicate n none };
  producer = record { tail = 0; cached_head = 0 };
  producer_at = at_rest;
  consumer = record { head = 0; cached_tail = 0 };
  consumer_at = waiting;
}

abbrev pub after_producer :
    {A : Type 0} → System A → SpscQueue A → Producer → ProducerAt A → System A
after_producer s q p a = record s { queue = q; producer = p; producer_at = a }

abbrev pub after_consumer :
    {A : Type 0} → System A → SpscQueue A → Consumer → ConsumerAt A → System A
after_consumer s q c a = record s { queue = q; consumer = c; consumer_at = a }

-- The states that a ring of `n` slots can reach, with the values published and those handed out.
pub data Reach {A : Type 0} (n : ℕ) : List A → List A → System A → Type 0 where
  start : Reach n [] [] (init n)
  produce :
      {xs ys zs : List A} {s : System A} {q : SpscQueue A} {p : Producer} {a : ProducerAt A}
      → Reach n xs ys s
      → Produces s.queue s.producer s.producer_at q p a zs
      → Reach n (xs ++ zs) ys (after_producer s q p a)
  consume :
      {xs ys zs : List A} {s : System A} {q : SpscQueue A} {c : Consumer} {a : ConsumerAt A}
      → Reach n xs ys s
      → Consumes s.queue s.consumer s.consumer_at q c a zs
      → Reach n xs (ys ++ zs) (after_consumer s q c a)
