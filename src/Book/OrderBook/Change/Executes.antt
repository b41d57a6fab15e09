-- ===== src/Book/OrderBook/Change/Executes.antt =====
-- crates/hft-book/src/lib.rs: the reports and the summary of a `submit` that succeeds.
use hft_engine_rs.Prelude.{
  ℕ, suc, ◌+◌, ◌-◌, ◌==◌, ◌≡◌, refl, ap, sym, subst, ◌∙◌, Bool, true, false, List, [], ◌∷◌, ◌++◌,
  map, ok, arith, length, ltb, get_elem?, get_elem?_lt, append_nil, append_assoc, length-append,
  Result-cases, Option-cases, inl, inr, if◌then◌else◌,
}
use hft_engine_rs.Prelude.Int.{ℤ}
use hft_engine_rs.Prelude.Action.{Action, ◌>>=◌, ◌>>◌, done}
use hft_engine_rs.Prelude.Action.Atomic.{Reads, follow_ok, self-Reads, require-Reads}
use hft_engine_rs.Types.{Side, opposite, NewOrder, MatchSummary, ExecutionReport}
use hft_engine_rs.Types.Reports
use hft_engine_rs.Types.Reports.{iter, remaining_capacity}
use hft_engine_rs.Types.Reports.Laws.{take-set}
use hft_engine_rs.Book.Plan.{FillEntry, MatchPlan, fills}
use hft_engine_rs.Book.OrderBook.{Stop, panic, Method, level_at}
use hft_engine_rs.Book.Fifo.{get_live}
use hft_engine_rs.Book.OrderBook.Match.{build_plan}
use hft_engine_rs.Book.OrderBook.Match.Conserve.{total, Honours, build_plan_lem}
use hft_engine_rs.Book.OrderBook.Match.Priority.{Queue, IsView, take_levels}
use hft_engine_rs.Book.OrderBook.Match.Refine.{build_plan_priority}
use hft_engine_rs.Book.OrderBook.Change.{
  Trading, on_book, report, report_of, take_out, reduce_order, apply_fill, apply_fills, apply_plan,
  filled_by, state_of, submit,
}

-- Where it succeeds, a step adds these reports behind the others.
record ReportsTo (xs : List ExecutionReport) (m : Action Trading Stop (Unit {0})) : Type 0 where
  shown :
      (t : Trading)
      → (m t).0 ≡ ok tt
      → (iter (m t).1.reports ≡ iter t.reports ++ xs)
        × ((m t).1.reports.len ≡ t.reports.len + length xs)

report-Reports : (r : ExecutionReport) → ReportsTo (r ∷ []) (report r)
unfolding report Reports.push iter
report-Reports r = record {
  shown = λ t h. elim (Option-cases (get_elem? t.reports.entries t.reports.len)) [
    | inl k ↦ absurd (ground (arith, h, k))
    | inr (old, k) ↦ ground (
      arith,
      k,
      take-set t.reports.entries t.reports.len r (get_elem?_lt t.reports.entries t.reports.len k),
    )
  ];
}

on_book-Reports : (m : Method (Unit {0})) → ReportsTo [] (on_book m)
on_book-Reports m = record { shown = λ t h. (sym (append_nil (iter t.reports)), omega arith) }

done-Reports : ReportsTo [] (done tt)
done-Reports = record { shown = λ t h. (sym (append_nil (iter t.reports)), omega arith) }

after_read :
    {A : Type 0} (xs : List ExecutionReport) (m : Action Trading Stop A)
    (k : A → Action Trading Stop (Unit {0}))
    → Reads m
    → ((a : A) → ReportsTo xs (k a))
    → ReportsTo xs (m >>= k)
after_read xs m k r w = record {
  shown = λ t h.
      let (a, e, f) = follow_ok (m t) k tt h in
      let (x, n) = (w a).shown (m t).1 (sym (ap (λ o. o.0) f) ∙ h) in
      (
        ap (λ o. iter o.1.reports) f ∙ (x ∙ ap (λ (u : Trading). iter u.reports ++ xs) (r.same t)),
        ap (λ o. o.1.reports.len) f
            ∙ (n ∙ ap (λ (u : Trading). u.reports.len + length xs) (r.same t)),
      );
}

in_turn :
    (xs ys : List ExecutionReport) (m k : Action Trading Stop (Unit {0}))
    → ReportsTo xs m
    → ReportsTo ys k
    → ReportsTo (xs ++ ys) (m >> k)
in_turn xs ys m k r w = record {
  shown = λ t h.
      let (a, e, f) = follow_ok (m t) (λ _. k) tt h in
      let (x, n) = w.shown (m t).1 (sym (ap (λ o. o.0) f) ∙ h) in
      let (x', n') = r.shown t e in
      (
        ap (λ o. iter o.1.reports) f
            ∙ (x ∙ (ap (λ zs. zs ++ ys) x' ∙ append_assoc (iter t.reports) xs ys)),
        ap (λ o. o.1.reports.len) f ∙ omega (arith, n, n', length-append xs ys),
      );
}

branch :
    (xs : List ExecutionReport) (b : Bool) (m k : Action Trading Stop (Unit {0}))
    → ReportsTo xs m
    → ReportsTo xs k
    → ReportsTo xs (if b then m else k)
branch xs true m k r w = r
branch xs false m k r w = w

apply_fill-Reports :
    (o : NewOrder) (side : Side) (f : FillEntry)
    → ReportsTo (report_of o f ∷ []) (apply_fill o side f)
unfolding apply_fill
apply_fill-Reports o side f = after_read (report_of o f ∷ []) _ _ self-Reads λ t.
    after_read (report_of o f ∷ []) _ _ (require-Reads (level_at t.book side f.level_index) panic)
      λ level.
        after_read (report_of o f ∷ []) _ _ (require-Reads (get_live level f.slot) panic) λ maker.
          in_turn (report_of o f ∷ []) [] _ _ (report-Reports (report_of o f)) (
            branch [] (maker.quantity == f.quantity) _ _
              (on_book-Reports (take_out side f maker.index_slot))
              (on_book-Reports (reduce_order side f.level_index f.slot f.quantity)))

apply_fills-Reports :
    (o : NewOrder) (side : Side) (fs : List FillEntry)
    → ReportsTo (map (report_of o) fs) (apply_fills o side fs)
unfolding apply_fills
apply_fills-Reports o side [] = done-Reports
apply_fills-Reports o side (f ∷ fs) =
    in_turn (report_of o f ∷ []) (map (report_of o) fs) _ _ (apply_fill-Reports o side f)
      (apply_fills-Reports o side fs)

apply_plan-Reports :
    (o : NewOrder) (p : MatchPlan) → ReportsTo (map (report_of o) (fills p) ++ []) (apply_plan o p)
unfolding apply_plan
apply_plan-Reports o p =
    in_turn (map (report_of o) (fills p)) [] _ _ (apply_fills-Reports o p.maker_side (fills p))
      (branch [] (ltb 0 p.resting_quantity) _ _ (on_book-Reports _) done-Reports)

length-map : {A B : Type 0} (f : A → B) (xs : List A) → length (map f xs) ≡ length xs
length-map f [] = refl
length-map f (x ∷ xs) = ap suc (length-map f xs)

-- A submission that succeeds had a plan.
pub submit_ok :
    (o : NewOrder) (t : Trading) (s : MatchSummary)
    → (submit o t).0 ≡ ok s
    → (plan : MatchPlan) × (build_plan o
          (length t.reports.entries)
          (remaining_capacity t.reports)
          t.book
        ≡ ok plan)
      × ((apply_plan o plan t).0 ≡ ok tt)
      × ((submit o t).1 ≡ (apply_plan o plan t).1)
      × (s ≡ record {
        state = state_of o.quantity (filled_by o plan);
        filled_quantity = filled_by o plan;
        resting_quantity = plan.resting_quantity;
        discarded_quantity = plan.discarded;
        report_count = (apply_plan o plan t).1.reports.len - t.reports.len;
      })
unfolding submit
submit_ok o t s h =
    elim (Result-cases
      (build_plan o (length t.reports.entries) (remaining_capacity t.reports) t.book)) [
        | inr (e, k) ↦ absurd (ground (arith, h, k))
        | inl (plan, k) ↦ elim (Result-cases (apply_plan o plan t).0) [
          | inr (e, a) ↦ absurd (ground (arith, h, k, a))
          | inl (u, a) ↦ (plan, k, a, ground (arith, k, a), ground (arith, h, k, a))
        ]
      ]

filled_total :
    (o : NewOrder) (plan : MatchPlan)
    → total (fills plan) + plan.resting_quantity + plan.discarded ≡ o.quantity
    → filled_by o plan ≡ total (fills plan)
filled_total o plan h = omega (arith, h)

-- The reports and the summary of a submission that succeeds are those of taking its quantity along the
-- levels of the other side, in the order in which they are listed.
pub submit_reports :
    (o : NewOrder) (t : Trading) (s : MatchSummary) (view : List ((ℤ × ℕ) × Queue))
    → IsView t.book (opposite o.side) view
    → (submit o t).0 ≡ ok s
    → (iter (submit o t).1.reports
        ≡ iter t.reports ++ map (report_of o) (take_levels o.side o.price view o.quantity).0)
      × (s.filled_quantity ≡ total (take_levels o.side o.price view o.quantity).0)
      × (s.resting_quantity + s.discarded_quantity ≡ (take_levels o.side o.price view o.quantity).1)
      × Honours o.time_in_force s.resting_quantity s.discarded_quantity
      × (s.state ≡ state_of o.quantity s.filled_quantity)
      × (s.report_count ≡ length (take_levels o.side o.price view o.quantity).0)
submit_reports o t s view v h =
    let (plan, planned, applied, after, summary) = submit_ok o t s h in
    let (same, left) =
      build_plan_priority o (length t.reports.entries) (remaining_capacity t.reports) t.book plan
        view v planned in
    let (_, conserved, honest, _) =
      build_plan_lem o (length t.reports.entries) (remaining_capacity t.reports) t.book plan
        planned in
    let (shown, count) = (apply_plan-Reports o plan).shown t applied in
    (
      ap (λ (u : Trading). iter u.reports) after
          ∙ (shown
              ∙ ap (λ fs. iter t.reports ++ fs)
                  (append_nil (map (report_of o) (fills plan)) ∙ ap (map (report_of o)) same)),
      ap (λ (u : MatchSummary). u.filled_quantity) summary
          ∙ (filled_total o plan conserved ∙ ap total same),
      ap (λ (u : MatchSummary). u.resting_quantity + u.discarded_quantity) summary ∙ left,
      subst (λ (u : MatchSummary). Honours o.time_in_force u.resting_quantity u.discarded_quantity)
          (sym summary) honest,
      ap (λ (u : MatchSummary). u.state) summary
          ∙ ap (λ (u : MatchSummary). state_of o.quantity u.filled_quantity) (sym summary),
      ap (λ (u : MatchSummary). u.report_count) summary
          ∙ omega (
            arith,
            count,
            ap length (append_nil (map (report_of o) (fills plan))),
            length-map (report_of o) (fills plan),
            ap length same,
          ),
    )
