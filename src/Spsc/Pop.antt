-- ===== src/Spsc/Pop.antt =====
-- crates/hft-spsc/src/lib.rs: `pop_impl`, run without interruption, as steps of the consumer.
use hft_engine_rs.Prelude.{
  ℕ, ◌+◌, ◌%◌, ◌==◌, ◌≤◌, ◌<◌, ◌≡◌, ◌⊎◌, inl, inr, refl, ap, subst, ◌∙◌, true, false, Bool-cases,
  Option, none, some, List, [], ◌∷◌, ◌++◌, Result, ok, arith, length, get_elem?, length-append,
  append_nil,
}
use hft_engine_rs.Prelude.Words.{u64_limit}
use hft_engine_rs.Spsc.{
  SpscQueue, Consumer, is_power, looks_empty, see_tail, held_at, move_out, advance_head, reclaim,
  pop_impl, moved, Undefined,
}
use hft_engine_rs.Spsc.Length.{is_power-IsLength}
use hft_engine_rs.Spsc.Steps.{
  ConsumerAt, refreshing_tail, waiting, reading, Consumes, refresh_tail, proceed_head, give_up,
  find, read_slot, store_head, System, Reach, consume, after_consumer,
}
use hft_engine_rs.Spsc.Interleaved.{Reach-Inv, read_safe, delivery}
use hft_engine_rs.Spsc.Push.{Published-now}

module _ {A : Type 0} (n : ℕ) (xs ys : List A) (s : System A) where
  silently_consumed :
      {q : SpscQueue A} {c : Consumer} {a : ConsumerAt A}
      → Reach n xs ys s
      → Consumes s.queue s.consumer s.consumer_at q c a []
      → Reach n xs ys (after_consumer s q c a)
  silently_consumed {q} {c} {a} r move =
      subst (λ zs. Reach n xs zs (after_consumer s q c a)) (append_nil ys) (consume r move)

-- What a pop makes of a ring: where it holds no value, it finds none, and otherwise it hands out the
-- next one.
abbrev pub Popped :
    {A : Type 0}
    → ℕ
    → List A
    → List A
    → System A
    → Result Undefined (Option A × Consumer × SpscQueue A)
    → Type 0
Popped {A} n xs ys s out =
    ((xs ≡ ys)
      × (c : Consumer) × (out ≡ ok (none, c, s.queue))
      × Reach n xs ys (after_consumer s s.queue c waiting))
    ⊎ ((v : A) × (c : Consumer) × (q : SpscQueue A) × (out ≡ ok (some v, c, q))
        × (get_elem? xs (length ys) ≡ some v)
        × Reach n xs (ys ++ v ∷ []) (after_consumer s q c waiting))

module _ {A : Type 0} (c : Consumer) (q : SpscQueue A) where
  pop_empty :
      looks_empty c ≡ true
      → looks_empty (see_tail q.tail c) ≡ true
      → pop_impl c q ≡ ok (none, see_tail q.tail c, q)
  unfolding pop_impl
  pop_empty f g = rw (pop_impl, f, g) refl

  pop_found :
      (v : A)
      → looks_empty c ≡ true
      → looks_empty (see_tail q.tail c) ≡ false
      → held_at c.head q ≡ some v
      → pop_impl c q ≡ ok (moved (see_tail q.tail c) q v)
  unfolding pop_impl
  pop_found v f g k = rw (pop_impl, f, g, k) refl

  pop_at_once :
      (v : A) → looks_empty c ≡ false → held_at c.head q ≡ some v → pop_impl c q ≡ ok (moved c q v)
  unfolding pop_impl
  pop_at_once v f k = rw (pop_impl, f, f, k) refl

-- From the read on.
handed :
    {A : Type 0} (n : ℕ) (xs ys : List A) (s : System A) (c : Consumer) (v : A)
    → held_at c.head s.queue ≡ some v
    → Reach n xs ys (after_consumer s s.queue c reading)
    → Reach n xs (ys ++ v ∷ []) (
        after_consumer s
          (reclaim (advance_head c) (move_out c.head s.queue))
          (advance_head c)
          waiting)
handed n xs ys s c v k r =
    consume (silently_consumed n xs ys (after_consumer s s.queue c reading) r (read_slot v k))
      (store_head v)

none_left : {A : Type 0} (zs : List A) → length zs ≡ 0 → zs ≡ []
none_left [] h = refl
none_left (z ∷ zs) h = absurd (omega (arith, h))

same_position :
    (head tail H k n : ℕ)
    → head ≡ H % u64_limit
    → tail ≡ (H + k) % u64_limit
    → k ≤ n
    → n < u64_limit
    → (head == tail) ≡ true
    → k ≡ 0
same_position head tail H k n a b l m f = ground (arith, a, b, l, m, f)

module _ {A : Type 0} (n : ℕ) (h : is_power 64 n ≡ true) (xs ys : List A) (s : System A)
    (r : Reach n xs ys (after_consumer s s.queue s.consumer waiting)) where
  caught_up : looks_empty (see_tail s.queue.tail s.consumer) ≡ true → xs ≡ ys
  caught_up f =
      let (pending, e, l) = delivery n xs ys (after_consumer s s.queue s.consumer waiting) h r in
      let w = is_power-IsLength 64 n (omega arith) h in
      let i = Reach-Inv n xs ys (after_consumer s s.queue s.consumer waiting) w r in
      e
      ∙ (ap (λ zs. ys ++ zs)
            (none_left pending (
              same_position s.consumer.head s.queue.tail (length ys) (length pending) n
                (omega (arith, i.consuming.at, length-append ys []))
                (omega (arith, i.tail_is, ap length e, length-append ys pending)) l w.small f))
          ∙ append_nil ys)

  hands_out :
      (c : Consumer)
      → Reach n xs ys (after_consumer s s.queue c reading)
      → (v : A) × (held_at c.head s.queue ≡ some v)
        × (get_elem? xs (length ys) ≡ some v)
        × Reach n xs (ys ++ v ∷ []) (
            after_consumer s
              (reclaim (advance_head c) (move_out c.head s.queue))
              (advance_head c)
              waiting)
  hands_out c at =
      let (v, k, next) = read_safe n xs ys (after_consumer s s.queue c reading) h at refl in
      (v, k, next, handed n xs ys s c v k at)

  pops : Popped n xs ys s (pop_impl s.consumer s.queue)
  pops =
      let q = s.queue in
      let c = s.consumer in
      let i =
        Reach-Inv n xs ys (after_consumer s q c waiting) (is_power-IsLength 64 n (omega arith) h)
          r in
      let seen =
        Published-now c.cached_tail q.tail (omega (arith, i.consuming.remembers))
          (omega (arith, i.tail_is)) in
      elim (Bool-cases (looks_empty c)) [
        | inr f ↦
            let (v, k, next, out) =
              hands_out c
                (silently_consumed n xs ys (after_consumer s q c waiting) r (proceed_head f)) in
            inr (v, _, _, pop_at_once c q v f k, next, out)
        | inl f ↦
            let loading =
              silently_consumed n xs ys (after_consumer s q c waiting) r (refresh_tail f) in
            elim (Bool-cases (looks_empty (see_tail q.tail c))) [
              | inl g ↦ inl (
                caught_up g,
                see_tail q.tail c,
                pop_empty c q f g,
                silently_consumed n xs ys (after_consumer s q c refreshing_tail) loading
                    (give_up q.tail seen g),
              )
              | inr g ↦
                  let (v, k, next, out) = hands_out (see_tail q.tail c) (
                    silently_consumed n xs ys (after_consumer s q c refreshing_tail) loading
                      (find q.tail seen g)) in
                  inr (v, _, _, pop_found c q v f g k, next, out)
            ]
      ]

-- A pop that runs without interruption never reads an uninitialised slot; it finds nothing only where
-- every value published has been handed out, and otherwise hands out the next one. What it does is a
-- sequence of the consumer's steps.
pub pop_impl_lem :
    {A : Type 0} (n : ℕ) (xs ys : List A) (s : System A)
    → is_power 64 n ≡ true
    → Reach n xs ys s
    → s.consumer_at ≡ waiting
    → Popped n xs ys s (pop_impl s.consumer s.queue)
pop_impl_lem n xs ys s h r e =
    pops n h xs ys s (subst (λ a. Reach n xs ys (after_consumer s s.queue s.consumer a)) e r)
