-- ===== src/Types/Reports.antt =====
-- crates/hft-types/src/lib.rs: `ReportBuffer<N>`, where `N` is the length of `entries`.
pub mod Laws
mod Tests
use hft_engine_rs.Prelude.{
  ℕ, ◌+◌, ◌-◌, ◌==◌, Bool, List, Option, none, some, Result, ok, err, length, get_elem?, set, take,
  replicate,
}
use hft_engine_rs.Prelude.Int.{pos}
use hft_engine_rs.Prelude.Action.{Action}
use hft_engine_rs.Types.{ExecutionReport, RejectReason}

pub record ReportBuffer : Type 0 where
  pub entries : List ExecutionReport
  pub len : ℕ

abbrev pub empty_report : ExecutionReport
empty_report = record {
  maker_order_id = 0;
  taker_order_id = 0;
  instrument_id = 0;
  price = pos 0;
  quantity = 0;
  sequence = 0;
}

unfoldable pub new : ℕ → ReportBuffer
new capacity = record { entries = replicate capacity empty_report; len = 0 }

unfoldable pub clear : ReportBuffer → ReportBuffer
clear b = record b { len = 0 }

unfoldable pub push : ExecutionReport → Action ReportBuffer RejectReason (Unit {0})
push report b = elim (get_elem? b.entries b.len) [
  | none ↦ (err RejectReason.report_capacity, b)
  | some _ ↦ (ok tt, record { entries = set b.entries b.len report; len = b.len + 1 })
]

unfoldable pub is_empty : ReportBuffer → Bool
is_empty b = b.len == 0

-- `N - len` never underflows: `len ≤ N` is kept.
unfoldable pub remaining_capacity : ReportBuffer → ℕ
remaining_capacity b = length b.entries - b.len

unfoldable pub iter : ReportBuffer → List ExecutionReport
iter b = take b.len b.entries
