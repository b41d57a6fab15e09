-- ===== src/Spsc/Interleaved.antt =====
-- crates/hft-spsc/src/lib.rs: a `SpscQueue` whatever the interleaving of its endpoints: what is handed
-- out, and which slots are read and written.
use hft_engine_rs.Prelude.{
  ℕ, ◌%◌, ◌≤◌, ◌≡◌, refl, ap, sym, subst, ◌∙◌, true, none, some, List, [], ◌∷◌, ◌++◌, arith, length,
  get_elem?, length-append, append_nil, append_assoc,
}
use hft_engine_rs.Spsc.{is_power, capacity, held_at}
use hft_engine_rs.Spsc.Length.{IsLength, is_power-IsLength}
use hft_engine_rs.Spsc.Steps.{writing, reading, System, init, Reach, start, produce, consume}
use hft_engine_rs.Spsc.Window.{Window-replicate}
use hft_engine_rs.Spsc.Invariant.{unpublished, taken, Inv, counted, ordered}
use hft_engine_rs.Spsc.Producing.{Inv-produce, produce_write}
use hft_engine_rs.Spsc.Consuming.{Inv-consume, first_value}

init-Inv : {A : Type 0} (n : ℕ) → IsLength n → Inv {A = A} n [] [] (init n)
init-Inv n r = record {
  live = [];
  order = refl;
  window = Window-replicate n 0 r.positive;
  tail_is = refl;
  head_is = refl;
  producing = record {
    seen = 0;
    remembers = refl;
    behind = omega arith;
    at = refl;
    room = omega arith;
  };
  consuming = record {
    seen = 0;
    remembers = refl;
    behind = omega arith;
    at = refl;
    room = omega arith;
  };
}

pub Reach-Inv :
    {A : Type 0} (n : ℕ) (xs ys : List A) (s : System A)
    → IsLength n
    → Reach n xs ys s
    → Inv n xs ys s
Reach-Inv n xs ys s r start = init-Inv n r
Reach-Inv n xs ys s r (produce {xs = xs'} {ys = ys'} {zs} {s = t} {q} {p} {a} before move) =
    Inv-produce n r xs' ys t.queue t.producer t.producer_at t.consumer t.consumer_at q p a zs
      (Reach-Inv n xs' ys t r before) move
Reach-Inv n xs ys s r (consume {xs = xs'} {ys = ys'} {zs} {s = t} {q} {c} {a} before move) =
    Inv-consume n r xs ys' t.queue t.producer t.producer_at t.consumer t.consumer_at q c a zs
      (Reach-Inv n xs ys' t r before) move

prefix :
    {A : Type 0} (xs us ys zs : List A)
    → xs ++ us ≡ ys ++ zs
    → length ys ≤ length xs
    → (rest : List A) × (xs ≡ ys ++ rest)
prefix xs us [] zs e l = (xs, refl)
prefix [] us (y ∷ ys) zs e l = absurd (omega (arith, l))
prefix (x ∷ xs) us (y ∷ ys) zs e l =
    let (rest, h) = prefix xs us ys zs (cc) (omega (arith, l)) in (rest, cc)

get_elem?-middle :
    {A : Type 0} (ys : List A) (v : A) (zs : List A)
    → get_elem? ((ys ++ v ∷ []) ++ zs) (length ys) ≡ some v
get_elem?-middle [] v zs = refl
get_elem?-middle (y ∷ ys) v zs = get_elem?-middle ys v zs

-- The consumer is handed the values that were published, each once and in their order, and the ring
-- holds at most its length of those that it has not been handed: in every reachable state, whatever the
-- interleaving, and however late the endpoints see each other's stores.
pub delivery :
    {A : Type 0} (n : ℕ) (xs ys : List A) (s : System A)
    → is_power 64 n ≡ true
    → Reach n xs ys s
    → (pending : List A) × (xs ≡ ys ++ pending) × (length pending ≤ n)
delivery n xs ys s h r =
    let w = is_power-IsLength 64 n (omega arith) h in
    let i = Reach-Inv n xs ys s w r in
    let (low, high, top, count) =
      ordered n xs ys s.queue s.producer s.producer_at s.consumer s.consumer_at i in
    let t = length-append ys (taken s.consumer_at) in
    let (pending, e) =
      prefix xs (unpublished s.producer_at) ys (taken s.consumer_at ++ i.live)
        (i.order ∙ append_assoc ys (taken s.consumer_at) i.live)
        (omega (arith, t, i.consuming.room, i.consuming.behind)) in
    (
      pending,
      e,
      omega (
        arith,
        counted xs ys pending e,
        length-append xs (unpublished s.producer_at),
        top,
        i.producing.behind,
      ),
    )

-- Where the consumer is about to read, the slot holds a value, and it is the next one that was published.
pub read_safe :
    {A : Type 0} (n : ℕ) (xs ys : List A) (s : System A)
    → is_power 64 n ≡ true
    → Reach n xs ys s
    → s.consumer_at ≡ reading
    → (v : A) × (held_at s.consumer.head s.queue ≡ some v) × (get_elem? xs (length ys) ≡ some v)
read_safe n xs ys s h r e =
    let w = is_power-IsLength 64 n (omega arith) h in
    let i = subst (λ b. Inv n xs ys (record s { consumer_at = b })) e (Reach-Inv n xs ys s w r) in
    let (v, rest, first, there, _) =
      first_value n w xs ys s.queue s.producer s.producer_at s.consumer i in
    let (more, ahead) =
      prefix xs (unpublished s.producer_at) (ys ++ v ∷ []) rest
        (i.order
          ∙ (ap (λ zs. (ys ++ []) ++ zs) first
              ∙ (ap (λ zs. zs ++ v ∷ rest) (append_nil ys) ∙ sym (append_assoc ys (v ∷ []) rest))))
        (omega (
          arith,
          length-append ys (v ∷ []),
          length-append ys [],
          i.consuming.room,
          i.consuming.behind,
        )) in
    (v, there, ap (λ zs. get_elem? zs (length ys)) ahead ∙ get_elem?-middle ys v more)

-- Where the producer is about to write, the slot is uninitialised: no value is overwritten.
pub write_safe :
    {A : Type 0} (n : ℕ) (xs ys : List A) (s : System A) (v : A)
    → is_power 64 n ≡ true
    → Reach n xs ys s
    → s.producer_at ≡ writing v
    → get_elem? s.queue.slots (s.producer.tail % capacity s.queue) ≡ some none
write_safe n xs ys s v h r e =
    let w = is_power-IsLength 64 n (omega arith) h in
    (produce_write n w xs ys s.queue s.producer v s.consumer s.consumer_at
      (subst (λ a. Inv n xs ys (record s { producer_at = a })) e (Reach-Inv n xs ys s w r))).0
