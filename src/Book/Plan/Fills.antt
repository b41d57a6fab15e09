-- ===== src/Book/Plan/Fills.antt =====
-- crates/hft-book/src/lib.rs: a `MatchPlan` holds the fills pushed, in order, up to its capacity.
use hft_engine_rs.Prelude.{
  append_nil, ℕ, ◌+◌, ◌≤◌, ◌<◌, ◌≡◌, refl, ap, sym, ◌∙◌, List, [], ◌∷◌, ◌++◌, ok, err, arith,
  length, min, dec_lt, length-set, length-replicate,
}
use hft_engine_rs.Types.{Side, RejectReason}
use hft_engine_rs.Types.Reports.Laws.{take-set}
use hft_engine_rs.Book.Plan.{FillEntry, MatchPlan, new, push_fill, fills, push_all, dummy_fill}

-- The fills counted fit in the capacity, and the capacity in the array.
pub record IsBounded (plan : MatchPlan) : Type 0 where
  pub counted : plan.fill_count ≤ plan.capacity
  pub stored : plan.capacity ≤ length plan.entries

pub push_fill_fits :
    (fill : FillEntry) (plan : MatchPlan)
    → IsBounded plan
    → plan.fill_count < plan.capacity
    → ((push_fill fill plan).0 ≡ ok tt)
      × (fills (push_fill fill plan).1 ≡ fills plan ++ fill ∷ [])
      × ((push_fill fill plan).1.fill_count ≡ plan.fill_count + 1)
      × ((push_fill fill plan).1.capacity ≡ plan.capacity)
      × IsBounded (push_fill fill plan).1
unfolding push_fill fills
push_fill_fits fill plan w h = ground (
  arith,
  take-set plan.entries plan.fill_count fill,
  length-set plan.entries plan.fill_count fill,
)

append_one : (xs ys : List FillEntry) (x : FillEntry) → (xs ++ x ∷ []) ++ ys ≡ xs ++ x ∷ ys
append_one [] ys x = refl
append_one (z ∷ xs) ys x = ap (◌∷◌ z) (append_one xs ys x)

pub push_fill_full :
    (fill : FillEntry) (plan : MatchPlan)
    → plan.capacity ≤ plan.fill_count
    → (push_fill fill plan).0 ≡ err RejectReason.report_capacity
unfolding push_fill
push_fill_full fill plan h = ground arith

-- Into a bounded plan, as many fills as there is capacity left are all taken, and the plan is then
-- bounded and holds them behind those that it held, in order.
pub push_all_fits :
    (added : List FillEntry) (plan : MatchPlan)
    → IsBounded plan
    → plan.fill_count + length added ≤ plan.capacity
    → ((push_all added plan).0 ≡ ok tt)
      × (fills (push_all added plan).1 ≡ fills plan ++ added)
      × IsBounded (push_all added plan).1
unfolding push_all
push_all_fits [] plan w h = (refl, sym (append_nil (fills plan)), w)
push_all_fits (fill ∷ rest) plan w h =
    let f = push_fill_fits fill plan w (omega arith) in
    let r = push_all_fits rest (push_fill fill plan).1 f.4 (omega (arith, f.2, f.3)) in
    rw (push_all, f.0)
      (
        r.0,
        r.1 ∙ (ap (λ (xs : List FillEntry). xs ++ rest) f.1 ∙ append_one (fills plan) rest fill),
        r.2,
      )

-- More fills than there is capacity left are refused for the report capacity.
pub push_all_overflows :
    (added : List FillEntry) (plan : MatchPlan)
    → IsBounded plan
    → plan.capacity < plan.fill_count + length added
    → (push_all added plan).0 ≡ err RejectReason.report_capacity
unfolding push_all
push_all_overflows [] plan w h = absurd (omega (arith, w.counted))
push_all_overflows (fill ∷ rest) plan w h = elim (dec_lt plan.fill_count plan.capacity) [
  | yes l ↦
      let f = push_fill_fits fill plan w l in
      rw (push_all, f.0)
        (push_all_overflows rest (push_fill fill plan).1 f.4 (omega (arith, f.2, f.3)))
  | no n ↦ rw (push_all, push_fill_full fill plan (omega (arith, n))) refl
]

pub new-IsBounded : (size : ℕ) (side : Side) (room : ℕ) → IsBounded (new size side room)
unfolding new
new-IsBounded size side room = record {
  counted = omega arith;
  stored = omega (arith, length-replicate size dummy_fill);
}

-- A fresh plan takes as many fills as the array and the reports left have room for, and then shows
-- exactly these, in order.
pub push_all-new :
    (size : ℕ) (side : Side) (room : ℕ) (added : List FillEntry)
    → length added ≤ min room size
    → ((push_all added (new size side room)).0 ≡ ok tt)
      × (fills (push_all added (new size side room)).1 ≡ added)
unfolding new fills
push_all-new size side room added h =
    let r = push_all_fits added (new size side room) (new-IsBounded size side room) (omega arith) in
    (r.0, r.1)
