-- ===== src/Book/Plan/Tests.antt =====
-- Tests of `MatchPlan` (crates/hft-book/src/lib.rs): three entries, of which two reports are left for.
use hft_engine_rs.Prelude.{ℕ, ◌≡◌, refl, List, [], ◌∷◌}
use hft_engine_rs.Prelude.Int.{pos}
use hft_engine_rs.Types.{Side}
use hft_engine_rs.Book.Plan.{FillEntry, new, push_fill, fills}

abbrev fill : ℕ → FillEntry
fill id = record { level_index = 0; slot = id; order_id = id; price = pos 100; quantity = 5 }

abbrev two_fills : List FillEntry
two_fills = fill 1 ∷ fill 2 ∷ []

push_fill_runs : fills (push_fill (fill 2) (push_fill (fill 1) (new 3 Side.sell 2)).1).1 ≡ two_fills
unfolding push_fill fills new
push_fill_runs = refl
