-- ===== src/Types/Reports/Laws.antt =====
-- crates/hft-types/src/lib.rs: what a client sees of a `ReportBuffer` is the list of its reports.
use hft_engine_rs.Prelude.{
  ℕ, zero, suc, ◌+◌, ◌≤◌, ◌<◌, ◌≡◌, refl, List, [], ◌∷◌, ◌++◌, some, none, ok, err, arith, length,
  get_elem?, set, take, length-set,
}
use hft_engine_rs.Types.{ExecutionReport, RejectReason}
use hft_engine_rs.Types.Reports.{ReportBuffer, clear, push, remaining_capacity, iter}

pub record IsBounded (b : ReportBuffer) : Type 0 where
  pub within : b.len ≤ length b.entries

pub take-set {ℓ} :
    {A : Type ℓ} (xs : List A) (n : ℕ) (v : A)
    → n < length xs
    → take (n + 1) (set xs n v) ≡ take n xs ++ v ∷ []
take-set [] n v h = absurd (omega arith)
take-set (x ∷ xs) zero v h = refl
take-set (x ∷ xs) (suc n) v h = ground (arith, take-set xs n v)

pub get_elem?-some {ℓ} :
    {A : Type ℓ} (xs : List A) (n : ℕ) → n < length xs → (v : A) × (get_elem? xs n ≡ some v)
get_elem?-some [] n h = absurd (omega arith)
get_elem?-some (x ∷ xs) zero h = (x, refl)
get_elem?-some (x ∷ xs) (suc n) h = get_elem?-some xs n (omega arith)

pub get_elem?-none {ℓ} : {A : Type ℓ} (xs : List A) (n : ℕ) → length xs ≤ n → get_elem? xs n ≡ none
get_elem?-none [] n h = refl
get_elem?-none (x ∷ xs) zero h = absurd (omega arith)
get_elem?-none (x ∷ xs) (suc n) h = get_elem?-none xs n (omega arith)

-- While the buffer has room, `push` succeeds, puts the report behind those that it holds, uses one
-- place of the remaining capacity, and keeps the bound.
pub push-appends :
    (r : ExecutionReport) (b : ReportBuffer)
    → 0 < remaining_capacity b
    → ((push r b).0 ≡ ok tt)
      × (iter (push r b).1 ≡ iter b ++ r ∷ [])
      × (remaining_capacity (push r b).1 + 1 ≡ remaining_capacity b)
      × IsBounded (push r b).1
unfolding push iter remaining_capacity
push-appends r b h =
    let (old, e) = get_elem?-some b.entries b.len (omega arith) in
    ground (arith, e, take-set b.entries b.len r, length-set b.entries b.len r)

-- A full buffer refuses the report and stays as it was.
pub push_full :
    (r : ExecutionReport) (b : ReportBuffer)
    → remaining_capacity b ≡ 0
    → push r b ≡ (err RejectReason.report_capacity, b)
unfolding push remaining_capacity
push_full r b h = ground (arith, get_elem?-none b.entries b.len)

-- A cleared buffer shows no report and has room for all that it ever held.
pub clear_lem :
    (b : ReportBuffer)
    → (iter (clear b) ≡ []) × (remaining_capacity b ≤ remaining_capacity (clear b))
unfolding clear iter remaining_capacity
clear_lem b = (refl, omega arith)
