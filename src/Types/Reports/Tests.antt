-- ===== src/Types/Reports/Tests.antt =====
-- Tests of `ReportBuffer` (crates/hft-types/src/lib.rs).
use hft_engine_rs.Prelude.{◌≤◌, ◌≡◌, refl, [], ◌∷◌, ok}
use hft_engine_rs.Types.{ExecutionReport}
use hft_engine_rs.Types.Reports.{ReportBuffer, clear, push, iter, remaining_capacity, empty_report}
use hft_engine_rs.Types.Reports.Laws.{clear_lem}

abbrev second_report : ExecutionReport
second_report = record empty_report { maker_order_id = 7 }

abbrev one_of_two : ReportBuffer
one_of_two = record { entries = empty_report ∷ empty_report ∷ []; len = 1 }

abbrev two_of_two : ReportBuffer
two_of_two = record { entries = empty_report ∷ second_report ∷ []; len = 2 }

push_runs : push second_report one_of_two ≡ (ok tt, two_of_two)
unfolding push
push_runs = refl

clear_lem_example :
    (iter (clear two_of_two) ≡ [])
    × (remaining_capacity two_of_two ≤ remaining_capacity (clear two_of_two))
clear_lem_example = clear_lem two_of_two
