-- ===== src/Spsc/Drain.antt =====
-- crates/hft-spsc/src/lib.rs: `into_inner` gives the values that the ring still holds.
use hft_engine_rs.Prelude.{
  ℕ, suc, ◌+◌, ◌%◌, ◌==◌, ◌<◌, ◌≡◌, refl, ap, sym, subst, ◌∙◌, true, false, none, some, List, [],
  ◌∷◌, ◌++◌, ok, arith, length, get_elem?, set, length-append, append_nil,
}
use hft_engine_rs.Prelude.Words.{u64_limit, wrap_add, wrap_sub}
use hft_engine_rs.Spsc.{SpscQueue, is_power, capacity, move_out, drain, into_inner}
use hft_engine_rs.Spsc.Length.{IsLength, is_power-IsLength}
use hft_engine_rs.Spsc.Steps.{at_rest, waiting, System, Reach}
use hft_engine_rs.Spsc.Window.{Window, Window-read}
use hft_engine_rs.Spsc.Invariant.{Inv, slot_index, get_or-get_elem?}
use hft_engine_rs.Spsc.Interleaved.{Reach-Inv}

not_met :
    (head tail H k : ℕ)
    → head ≡ H % u64_limit
    → tail ≡ (H + suc k) % u64_limit
    → suc k < u64_limit
    → (head == tail) ≡ false
not_met head tail H k a b l = ground (arith, a, b, l)

drain_lem :
    {A : Type 0} (n : ℕ) (w : IsLength n) (q : SpscQueue A) (H : ℕ) (L : List A)
    → Window n q.slots H L
    → q.head ≡ H % u64_limit
    → q.tail ≡ (H + length L) % u64_limit
    → drain (length L) q ≡ ok L
unfolding drain
drain_lem n w q H [] v h t = refl
drain_lem {A} n w q H (x ∷ L) v h t =
    let at = slot_index n (capacity q) q.head H H w v.size h refl in
    let (there, left) = Window-read n q.slots H x L v in
    let next : SpscQueue A = record (move_out q.head q) { head = wrap_add u64_limit q.head 1 } in
    let rest =
      drain_lem n w next (H + 1) L
        (subst (λ (k : ℕ). Window n (set q.slots k none) (H + 1) L) (sym at) left)
        (omega (arith, h)) (omega (arith, t)) in
    rw
      (
        drain,
        not_met q.head q.tail H (length L) h t (omega (arith, v.fits, w.small)),
        get_or-get_elem? q.slots (q.head % capacity q) (some x) none
            (ap (get_elem? q.slots) at ∙ there),
        rest,
      )
      refl

-- Taking the ring apart, with both endpoints at rest, gives the values that were published and not yet
-- handed out, in their order, and never reads an uninitialised slot.
pub into_inner_lem :
    {A : Type 0} (n : ℕ) (xs ys : List A) (s : System A)
    → is_power 64 n ≡ true
    → Reach n xs ys s
    → s.producer_at ≡ at_rest
    → s.consumer_at ≡ waiting
    → (pending : List A) × (xs ≡ ys ++ pending) × (into_inner s.queue ≡ ok pending)
unfolding into_inner
into_inner_lem n xs ys s h r e f =
    let w = is_power-IsLength 64 n (omega arith) h in
    let i =
      subst (λ b. Inv n xs ys (record s { producer_at = at_rest; consumer_at = b })) f
        (subst (λ a. Inv n xs ys (record s { producer_at = a })) e (Reach-Inv n xs ys s w r)) in
    let order = sym (append_nil xs) ∙ (i.order ∙ ap (λ zs. zs ++ i.live) (append_nil ys)) in
    let count = ap length order ∙ length-append ys i.live in
    let fits = i.window.fits in
    let distance : wrap_sub u64_limit s.queue.tail s.queue.head ≡ length i.live =
      omega (arith, i.tail_is, i.head_is, count, fits, w.small) in
    (
      i.live,
      order,
      ap (λ (k : ℕ). drain k s.queue) distance
          ∙ drain_lem n w s.queue (length ys) i.live
              (subst (λ zs. Window n s.queue.slots (length zs) i.live) (append_nil ys) i.window)
              i.head_is (omega (arith, i.tail_is, count)),
    )
