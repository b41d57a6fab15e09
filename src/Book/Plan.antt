-- ===== src/Book/Plan.antt =====
-- crates/hft-book/src/lib.rs: `MatchPlan`, the bounded list of fills that a match is built as before it
-- is applied.
pub mod Fills
mod Tests
use hft_engine_rs.Prelude.{
  ℕ, ◌+◌, List, [], ◌∷◌, Result, ok, err, leb, min, set, take, replicate, if◌then◌else◌,
}
use hft_engine_rs.Prelude.Int.{ℤ, pos}
use hft_engine_rs.Types.{Side, RejectReason}

pub record FillEntry : Type 0 where
  pub level_index : ℕ
  pub slot : ℕ
  pub order_id : ℕ
  pub price : ℤ
  pub quantity : ℕ

pub record MatchPlan : Type 0 where
  pub entries : List FillEntry
  pub fill_count : ℕ
  pub capacity : ℕ
  pub maker_side : Side
  pub resting_quantity : ℕ
  pub discarded : ℕ

abbrev pub dummy_fill : FillEntry
dummy_fill = record { level_index = 0; slot = 0; order_id = 0; price = pos 0; quantity = 0 }

abbrev pub dummy_plan_discarded : ℕ
dummy_plan_discarded = 0

-- `size` is the array length FILLS.
unfoldable pub new : ℕ → Side → ℕ → MatchPlan
new size maker_side report_capacity = record {
  entries = replicate size dummy_fill;
  fill_count = 0;
  capacity = min report_capacity size;
  maker_side = maker_side;
  resting_quantity = 0;
  discarded = dummy_plan_discarded;
}

unfoldable pub push_fill : FillEntry → MatchPlan → Result RejectReason (Unit {0}) × MatchPlan
push_fill fill plan =
    if leb plan.capacity plan.fill_count then (err RejectReason.report_capacity, plan) else (
      ok tt,
      record plan {
        entries = set plan.entries plan.fill_count fill;
        fill_count = plan.fill_count + 1;
      },
    )

unfoldable pub fills : MatchPlan → List FillEntry
fills plan = take plan.fill_count plan.entries

-- Fills pushed in order, up to the first that is refused.
unfoldable pub push_all : List FillEntry → MatchPlan → Result RejectReason (Unit {0}) × MatchPlan
push_all [] plan = (ok tt, plan)
push_all (fill ∷ rest) plan =
    let pushed = push_fill fill plan in
    let others = push_all rest pushed.1 in
    elim pushed.0 [ ok done ↦ others | err refused ↦ (err refused, pushed.1) ]
