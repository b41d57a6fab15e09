-- ===== src/Gateway/Rollback.antt =====
-- crates/hft-gateway/src/lib.rs: a rejection by the book leaves the book and the reports as they were.
use hft_engine_rs.Prelude.{
  ℕ, ◌≡◌, refl, ap, sym, ◌∙◌, List, [], ◌∷◌, Result, ok, err, arith, Result-cases, map_err, inl,
  inr,
}
use hft_engine_rs.Prelude.Action.{Action, follow, ◌>>=◌, ◌>>◌, refuse}
use hft_engine_rs.Prelude.Action.Failure.{Avoids, avoids, >>-Avoids}
use hft_engine_rs.Prelude.Action.Preserve.{Preserves, >>-Preserves, refuse-Preserves}
use hft_engine_rs.Types.{
  NewOrder, CancelOrder, ReplaceOrder, Command, sequence, RejectReason, ExecutionReport,
  MatchSummary,
}
use hft_engine_rs.Types.Reports.{ReportBuffer, clear}
use hft_engine_rs.Risk.Engine.{
  RiskEngine, check_and_reserve, settle, record_fill, adjust_reservation, restore_reservation,
  can_cancel,
}
use hft_engine_rs.Book.OrderBook.{OrderBook, reject, panic, diverged}
use hft_engine_rs.Book.OrderBook.Change.{Trading, submit, cancel, replace}
use hft_engine_rs.Book.OrderBook.Change.Rejected.{
  submit_rejected, cancel_rejected, replace_rejected,
}
use hft_engine_rs.Gateway.{
  Halt, fails, GatewayError, GatewayOutcome, by_book, by_risk, risk_state, Served, Serving, on_risk,
  on_book, submit_or_settle, record_fills, put_trading, replace_or_restore, process_replace,
  process_cancel, process, process_command, accept_sequence, check_sequence, clear_reports,
  receive_order_id,
}
use hft_engine_rs.Gateway.Parts.{admitted, process_new_order-cases}

abbrev IsByBook : Halt → Type 0
IsByBook h = (reason : RejectReason) × (h ≡ fails (by_book reason))

abbrev traded : Served → OrderBook × ReportBuffer
traded s = (s.gateway.book, s.reports)

record Restores {A : Type 0} (m : Serving A) : Type 0 where
  same : (s : Served) (h : Halt) → IsByBook h → (m s).0 ≡ err h → traded (m s).1 ≡ traded s

follow-Restores :
    {A B : Type 0} (o : Result Halt A × Served) (k : A → Serving B) (s : Served) (h : Halt)
    → traded o.1 ≡ traded s
    → ((a : A) → Restores (k a))
    → IsByBook h
    → (follow o k).0 ≡ err h
    → traded (follow o k).1 ≡ traded s
follow-Restores (ok a, t) k s h e r b q = (r a).same t h b q ∙ e
follow-Restores (err x, t) k s h e r b q = e

after_kept :
    {A B : Type 0} (m : Serving A) (k : A → Serving B)
    → Preserves traded m
    → ((a : A) → Restores (k a))
    → Restores (m >>= k)
after_kept m k p r = record { same = λ s h b q. follow-Restores (m s) k s h (p.kept s) r b q }

follow-Avoids :
    {A B : Type 0} (o : Result Halt A × Served) (k : A → Serving B) (s : Served) (h : Halt)
    → ((x : Halt) → IsByBook x → o.0 ≡ err x → traded o.1 ≡ traded s)
    → ((a : A) → Avoids IsByBook (k a))
    → IsByBook h
    → (follow o k).0 ≡ err h
    → traded (follow o k).1 ≡ traded s
follow-Avoids (ok a, t) k s h e r b q = absurd ((r a).other t h q b)
follow-Avoids (err x, t) k s h e r b q = e h b (ap err (cc))

before_others :
    {A B : Type 0} (m : Serving A) (k : A → Serving B)
    → Restores m
    → ((a : A) → Avoids IsByBook (k a))
    → Restores (m >>= k)
before_others m k r p = record { same = λ s h b q. follow-Avoids (m s) k s h (r.same s) p b q }

on_risk-Preserves :
    {A : Type 0} (name : RejectReason → GatewayError) (m : Action RiskEngine RejectReason A)
    → Preserves traded (on_risk name m)
on_risk-Preserves name m = record { kept = λ s. refl }

state_other : (r : RejectReason) → ¬ IsByBook (fails (risk_state r))
state_other r (reason, e) = absurd (ground (arith, e))

err_inj : {A : Type 0} (x y : Halt) → ◌≡◌ {A = Result Halt A} (err x) (err y) → x ≡ y
err_inj x y e = cc

mapped_other :
    {A : Type 0} (o : Result RejectReason A) (x : Halt)
    → map_err (λ r. fails (risk_state r)) o ≡ err x
    → ¬ IsByBook x
mapped_other (ok a) x e b = absurd (ground (arith, e))
mapped_other (err r) x e b = state_other r (b.0, err_inj (fails (risk_state r)) x e ∙ b.1)

on_risk-Avoids :
    {A : Type 0} (m : Action RiskEngine RejectReason A) → Avoids IsByBook (on_risk risk_state m)
on_risk-Avoids m = record { other = λ s x e. mapped_other (m s.gateway.risk).0 x e }

ruleset others = (avoids, on_risk-Avoids, state_other)

undo_other :
    (A : Type 0) (m : Action RiskEngine RejectReason (Unit {0})) (e : GatewayError) (s : Served)
    → traded ((on_risk risk_state m >> refuse {A = A} (fails e)) s).1 ≡ traded s
undo_other A m e s =
    (>>-Preserves traded (on_risk risk_state m) (refuse (fails e)) (on_risk-Preserves risk_state m)
        (refuse-Preserves traded (fails e))).kept
      s

submit_or_settle_restores :
    (o : NewOrder) (s : Served) (h : Halt)
    → IsByBook h
    → (submit_or_settle o s).0 ≡ err h
    → traded (submit_or_settle o s).1 ≡ traded s
unfolding submit_or_settle
submit_or_settle_restores o s h b q =
    let t : Trading = record { book = s.gateway.book; reports = s.reports } in
    elim (Result-cases (submit o t).0) [
      | inl (summary, k) ↦ absurd (ground (arith, q, k))
      | inr (reject reason, k) ↦
          rw (submit_or_settle, k)
            (undo_other MatchSummary (settle o.order_id 0) (by_book reason)
                (put_trading s (submit o t).1)
              ∙ ap (λ (u : Trading). (u.book, u.reports)) (submit_rejected o t reason k))
      | inr (panic, k) ↦ absurd (ground (arith, q, k, b))
      | inr (diverged, k) ↦ absurd (ground (arith, q, k, b))
    ]

replace_restores :
    (r : ReplaceOrder) (n : ℕ) (s : Served) (h : Halt)
    → IsByBook h
    → (replace_or_restore r n s).0 ≡ err h
    → traded (replace_or_restore r n s).1 ≡ traded s
unfolding replace_or_restore
replace_restores r n s h b q = elim (Result-cases (replace r s.gateway.book).0) [
  | inl (amended, k) ↦ absurd (ground (arith, q, k))
  | inr (reject reason, k) ↦
      rw (replace_or_restore, k)
        (undo_other GatewayOutcome (restore_reservation r.order_id r.account_id n) (by_book reason)
            (record s { gateway = record (s.gateway) { book = (replace r s.gateway.book).1 } })
          ∙ ap (λ (u : OrderBook). (u, s.reports)) (replace_rejected r s.gateway.book reason k))
  | inr (panic, k) ↦ absurd (ground (arith, q, k, b))
  | inr (diverged, k) ↦ absurd (ground (arith, q, k, b))
]

cancel_restores :
    (c : CancelOrder) (s : Served) (h : Halt)
    → IsByBook h
    → (on_book (cancel c) s).0 ≡ err h
    → traded (on_book (cancel c) s).1 ≡ traded s
cancel_restores c s h b q = elim (Result-cases (cancel c s.gateway.book).0) [
  | inl (order, k) ↦ absurd (ground (arith, q, k))
  | inr (reject reason, k) ↦
      ap (λ (u : OrderBook). (u, s.reports)) (cancel_rejected c s.gateway.book reason k)
  | inr (panic, k) ↦ absurd (ground (arith, q, k, b))
  | inr (diverged, k) ↦ absurd (ground (arith, q, k, b))
]

record_fills-Avoids : (rs : List ExecutionReport) → Avoids IsByBook (record_fills rs)
unfolding record_fills
record_fills-Avoids [] = search avoids
record_fills-Avoids (r ∷ rs) =
    >>-Avoids IsByBook _ _ (on_risk-Avoids (record_fill r.maker_order_id r.quantity)) (
      >>-Avoids IsByBook _ _ (on_risk-Avoids (record_fill r.taker_order_id r.quantity))
        (record_fills-Avoids rs))

admitted-Restores : (o : NewOrder) → Restores (admitted o)
unfolding admitted
admitted-Restores o =
    after_kept (on_risk by_risk (check_and_reserve o)) _
      (on_risk-Preserves by_risk (check_and_reserve o))
      (λ _.
        before_others (submit_or_settle o) _ (record { same = submit_or_settle_restores o })
          (λ summary. search (others, record_fills-Avoids) depth 16))

replace-Restores : (r : ReplaceOrder) → Restores (process_replace r)
unfolding process_replace
replace-Restores r =
    after_kept _ _
      (on_risk-Preserves by_risk (adjust_reservation r.order_id r.account_id r.price r.quantity))
      (λ adjusted. record { same = replace_restores r adjusted.1 })

cancel-Restores : (c : CancelOrder) → Restores (process_cancel c)
unfolding process_cancel
cancel-Restores c =
    after_kept _ _ (on_risk-Preserves by_risk (can_cancel c.order_id c.account_id)) (λ _.
      before_others (on_book (cancel c)) _ (record { same = cancel_restores c })
        (λ order. search others depth 16))

process_restores :
    (c : Command) (s : Served) (h : Halt)
    → IsByBook h
    → (process c s).0 ≡ err h
    → traded (process c s).1 ≡ traded s
process_restores (Command.new_order o) s h b q = elim (process_new_order-cases o s) [
  | inl (_, e) ↦ absurd (ground (arith, b, q, ap (λ x. x.0) e))
  | inr (_, e) ↦
      ap (λ x. traded x.1) e
      ∙ (admitted-Restores o).same (receive_order_id o.order_id s) h b (sym (ap (λ x. x.0) e) ∙ q)
]
process_restores (Command.cancel_order c) s h b q = (cancel-Restores c).same s h b q
process_restores (Command.replace_order r) s h b q = (replace-Restores r).same s h b q

accept_sequence_kept : (n : ℕ) (s : Served) → traded (accept_sequence n s).1 ≡ traded s
unfolding accept_sequence check_sequence
accept_sequence_kept n s = ground arith

accept_sequence-Preserves : (n : ℕ) → Preserves traded (accept_sequence n)
unfolding accept_sequence check_sequence
accept_sequence-Preserves n = record { kept = λ s. accept_sequence_kept n s }

-- A command that the book rejects leaves the book as it was, and the reports empty, although the risk
-- engine had let it through.
pub book_rejection_kept :
    (c : Command) (s : Served) (reason : RejectReason)
    → (process_command c s).0 ≡ err (fails (by_book reason))
    → ((process_command c s).1.gateway.book ≡ s.gateway.book)
      × ((process_command c s).1.reports ≡ clear s.reports)
unfolding process_command
book_rejection_kept c s reason q =
    let kept =
      (after_kept (accept_sequence (sequence c)) (λ _. process c)
          (accept_sequence-Preserves (sequence c)) (λ _. record { same = process_restores c })).same
        (clear_reports s) (fails (by_book reason)) (reason, refl) q in
    (
      ap (λ (x : OrderBook × ReportBuffer). x.0) kept,
      ap (λ (x : OrderBook × ReportBuffer). x.1) kept,
    )
