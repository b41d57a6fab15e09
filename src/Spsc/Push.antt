-- ===== src/Spsc/Push.antt =====
-- crates/hft-spsc/src/lib.rs: `push_impl`, run without interruption, as steps of the producer.
use hft_engine_rs.Prelude.{
  ℕ, ◌+◌, ◌==◌, ◌≤◌, ◌<◌, ◌≡◌, ◌⊎◌, inl, inr, refl, sym, subst, Bool, true, false, Bool-cases,
  ==_iff, List, [], ◌∷◌, ◌++◌, Result, ok, err, arith, length, length-append, append_nil,
}
use hft_engine_rs.Prelude.Words.{u64_limit, wrap_sub}
use hft_engine_rs.Spsc.{
  SpscQueue, Producer, is_power, looks_full, see_head, write, advance_tail, publish, push_impl,
}
use hft_engine_rs.Spsc.Length.{IsLength, is_power-IsLength, distance}
use hft_engine_rs.Spsc.Steps.{
  ProducerAt, at_rest, refreshing, writing, Published, Produces, refresh, proceed, refuse, admit,
  write_slot, store_tail, System, Reach, produce, after_producer,
}
use hft_engine_rs.Spsc.Invariant.{ordered}
use hft_engine_rs.Spsc.Interleaved.{Reach-Inv}

-- A load may give the current position.
pub Published-now :
    (remembered current : ℕ)
    → remembered < u64_limit
    → current < u64_limit
    → Published remembered current current
Published-now remembered current l m =
    (wrap_sub u64_limit current remembered, omega arith, omega (arith, l, m))

module _ {A : Type 0} (n : ℕ) (xs ys : List A) (s : System A) where
  silently :
      {q : SpscQueue A} {p : Producer} {a : ProducerAt A}
      → Reach n xs ys s
      → Produces s.queue s.producer s.producer_at q p a []
      → Reach n xs ys (after_producer s q p a)
  silently {q} {p} {a} r move =
      subst (λ zs. Reach n zs ys (after_producer s q p a)) (append_nil xs) (produce r move)

fewer : {a b : ℕ} → (a == b) ≡ false → a ≤ b → a < b
fewer f l = ground (arith, f, l)

-- From the write on.
written :
    {A : Type 0} (n : ℕ) (xs ys : List A) (s : System A) (p : Producer) (v : A)
    → Reach n xs ys (after_producer s s.queue p (writing v))
    → Reach n (xs ++ v ∷ []) ys (
        after_producer s
          (publish (advance_tail p) (write p.tail v s.queue))
          (advance_tail p)
          at_rest)
written n xs ys s p v r =
    produce (silently n xs ys (after_producer s s.queue p (writing v)) r (write_slot v))
      (store_tail v)

-- What a push makes of a ring: where it holds fewer values than slots, it publishes the value, and
-- otherwise it gives it back.
abbrev pub Pushed :
    {A : Type 0}
    → ℕ
    → List A
    → List A
    → System A
    → A
    → Result A (Unit {0}) × Producer × SpscQueue A
    → Type 0
Pushed n xs ys s v out =
    ((length xs < length ys + n)
      × (out.0 ≡ ok tt)
      × Reach n (xs ++ v ∷ []) ys (after_producer s out.2 out.1 at_rest))
    ⊎ ((length xs ≡ length ys + n)
        × (out.0 ≡ err v)
        × Reach n xs ys (after_producer s out.2 out.1 at_rest))

module _ {A : Type 0} (v : A) (p : Producer) (q : SpscQueue A) where
  push_refused :
      looks_full q p ≡ true
      → looks_full q (see_head q.head p) ≡ true
      → push_impl v p q ≡ (err v, see_head q.head p, q)
  unfolding push_impl
  push_refused f g = rw (push_impl, f, g) refl

  push_admitted :
      looks_full q p ≡ true
      → looks_full q (see_head q.head p) ≡ false
      → push_impl v p q ≡ (
        ok tt,
        advance_tail (see_head q.head p),
        publish (advance_tail (see_head q.head p)) (write p.tail v q),
      )
  unfolding push_impl
  push_admitted f g = rw (push_impl, f, g) refl

  push_at_once :
      looks_full q p ≡ false
      → push_impl v p q ≡ (ok tt, advance_tail p, publish (advance_tail p) (write p.tail v q))
  unfolding push_impl
  push_at_once f = rw (push_impl, f, f) refl

module _ {A : Type 0} (n : ℕ) (w : IsLength n) (xs ys : List A) (s : System A)
    (r : Reach n xs ys (after_producer s s.queue s.producer at_rest)) where
  bounds :
      (s.queue.head < u64_limit)
      × (s.producer.cached_head < u64_limit)
      × (length ys ≤ length xs)
      × (length xs ≤ length ys + n)
  bounds =
      let i = Reach-Inv n xs ys (after_producer s s.queue s.producer at_rest) w r in
      let (_, high, top, _) =
        ordered n xs ys s.queue s.producer at_rest s.consumer s.consumer_at i in
      (
        omega (arith, i.head_is),
        omega (arith, i.producing.remembers),
        omega (arith, high, length-append xs []),
        omega (arith, top, length-append xs [], i.producing.behind),
      )

  -- With the consumer's position as it is, the test is exact; with an older one, it errs on the side
  -- of a full ring.
  exact :
      (b : Bool)
      → looks_full s.queue (see_head s.queue.head s.producer) ≡ b
      → (length xs == length ys + n) ≡ b
  exact b f =
      let i = Reach-Inv n xs ys (after_producer s s.queue s.producer at_rest) w r in
      let (_, _, low, top) = bounds in
      let d =
        distance n w (see_head s.queue.head s.producer) (length ys) (length xs) i.head_is
          (omega (arith, i.producing.at, length-append xs [])) low top in
      ground (arith, d, f, low, top, i.window.size)

  cautious : looks_full s.queue s.producer ≡ false → length xs < length ys + n
  cautious f =
      let i = Reach-Inv n xs ys (after_producer s s.queue s.producer at_rest) w r in
      let (low, _, top, _) =
        ordered n xs ys s.queue s.producer at_rest s.consumer s.consumer_at i in
      let t = length-append xs [] in
      let d =
        distance n w s.producer i.producing.seen (length (xs ++ [])) i.producing.remembers
          i.producing.at low top in
      ground (arith, d, f, low, top, t, i.producing.behind, i.window.size)

  pushes : (v : A) → Pushed n xs ys s v (push_impl v s.producer s.queue)
  pushes v =
      let q = s.queue in
      let p = s.producer in
      let seen = Published-now p.cached_head q.head bounds.1 bounds.0 in
      elim (Bool-cases (looks_full q p)) [
        | inr f ↦ subst (Pushed n xs ys s v) (sym (push_at_once v p q f)) (
            inl (
              cautious f,
              refl,
              written n xs ys s p v
                  (silently n xs ys (after_producer s q p at_rest) r (proceed v f)),
            ))
        | inl f ↦
            let loading = silently n xs ys (after_producer s q p at_rest) r (refresh v f) in
            elim (Bool-cases (looks_full q (see_head q.head p))) [
              | inl g ↦ subst (Pushed n xs ys s v) (sym (push_refused v p q f g)) (
                  inr (
                    (==_iff (length xs) (length ys + n)).0 (exact true g),
                    refl,
                    silently n xs ys (after_producer s q p (refreshing v)) loading
                        (refuse v q.head seen g),
                  ))
              | inr g ↦ subst (Pushed n xs ys s v) (sym (push_admitted v p q f g)) (
                  inl (
                    fewer (exact false g) bounds.3,
                    refl,
                    written n xs ys s (see_head q.head p) v (
                        silently n xs ys (after_producer s q p (refreshing v)) loading
                          (admit v q.head seen g)),
                  ))
            ]
      ]

-- A push that runs without interruption succeeds where the ring holds fewer values than slots, and then
-- publishes its value; it fails where the ring is full, and then gives the value back. What it does is a
-- sequence of the producer's steps.
pub push_impl_lem :
    {A : Type 0} (n : ℕ) (xs ys : List A) (s : System A) (v : A)
    → is_power 64 n ≡ true
    → Reach n xs ys s
    → s.producer_at ≡ at_rest
    → Pushed n xs ys s v (push_impl v s.producer s.queue)
push_impl_lem n xs ys s v h r e =
    pushes n (is_power-IsLength 64 n (omega arith) h) xs ys s
      (subst (λ a. Reach n xs ys (after_producer s s.queue s.producer a)) e r) v
