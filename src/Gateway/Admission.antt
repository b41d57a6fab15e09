-- ===== src/Gateway/Admission.antt =====
-- crates/hft-gateway/src/lib.rs: what a call of the gateway does to its sequence and to the identifiers
-- that it takes.
use hft_engine_rs.Prelude.{
  ℕ, ◌+◌, ◌≤◌, ◌<◌, ◌≡◌, ◌≢◌, ap, sym, subst, ◌∙◌, true, false, Option, some, List, [], ◌∷◌, Result,
  ok, err, arith, inl, inr,
}
use hft_engine_rs.Prelude.Words.{u64_limit}
use hft_engine_rs.Prelude.Action.{follow}
use hft_engine_rs.Types.{NewOrder, Command, sequence, RejectReason}
use hft_engine_rs.Risk.Engine.{at_most}
use hft_engine_rs.Gateway.{
  Halt, fails, out_of_sequence, by_risk, Served, Serving, process_new_order, process_replace,
  process_cancel, process, process_command, accept_sequence, check_sequence, clear_reports,
  receive_order_id,
}
use hft_engine_rs.Gateway.Parts.{
  counters, next_sequence, admitted, admitted-Preserves, process_replace-Preserves,
  process_cancel-Preserves, process_new_order-cases, process-expected, accept_sequence_ok,
  accept_sequence_gap,
}

process_command_runs :
    (c : Command) (s : Served)
    → sequence c ≡ s.gateway.expected_sequence
    → sequence c + 1 < u64_limit
    → process_command c s ≡ process c (next_sequence (clear_reports s))
unfolding process_command
process_command_runs c s h l =
    ap (λ o. follow o (λ _. process c)) (accept_sequence_ok (sequence c) (clear_reports s) h l)

-- A command with the expected sequence uses it up, whether it succeeds or fails further on.
pub sequence_advances :
    (c : Command) (s : Served)
    → sequence c ≡ s.gateway.expected_sequence
    → sequence c + 1 < u64_limit
    → (process_command c s).1.gateway.expected_sequence ≡ s.gateway.expected_sequence + 1
sequence_advances c s h l =
    ap (λ x. x.1.gateway.expected_sequence) (process_command_runs c s h l)
    ∙ process-expected c (next_sequence (clear_reports s))

-- A command with another sequence is refused, with both sequences in the error, and changes nothing but
-- that the reports are cleared.
pub sequence_refused :
    (c : Command) (s : Served)
    → sequence c ≢ s.gateway.expected_sequence
    → process_command c s
      ≡ (err (fails (out_of_sequence s.gateway.expected_sequence (sequence c))), clear_reports s)
unfolding process_command
sequence_refused c s h =
    ap (λ o. follow o (λ _. process c)) (accept_sequence_gap (sequence c) (clear_reports s) h)

-- The identifier is not above the watermark.
abbrev pub IsUsed : ℕ → Served → Type 0
IsUsed id s = at_most id s.gateway.maximum_received_order_id ≡ true

used_after :
    (id n : ℕ) (m : Option ℕ)
    → at_most n m ≡ false
    → at_most id m ≡ true
    → at_most id (some n) ≡ true
used_after id n m h k = ground (arith, h, k)

keeps_IsUsed : (id : ℕ) (s t : Served) → counters t ≡ counters s → IsUsed id s → IsUsed id t
keeps_IsUsed id s t h u = ap (λ (x : ℕ × Option ℕ). at_most id x.1) h ∙ u

process-IsUsed : (id : ℕ) (c : Command) (s : Served) → IsUsed id s → IsUsed id (process c s).1
process-IsUsed id (Command.new_order o) s u = elim (process_new_order-cases o s) [
  | inl (_, e) ↦ subst (λ x. IsUsed id x.1) (sym e) u
  | inr (b, e) ↦
      subst (λ x. IsUsed id x.1) (sym e)
        (keeps_IsUsed id (receive_order_id o.order_id s)
          (admitted o (receive_order_id o.order_id s)).1
          ((admitted-Preserves o).kept (receive_order_id o.order_id s))
          (used_after id o.order_id s.gateway.maximum_received_order_id b u))
]
process-IsUsed id (Command.cancel_order c) s u =
    keeps_IsUsed id s (process_cancel c s).1 ((process_cancel-Preserves c).kept s) u
process-IsUsed id (Command.replace_order r) s u =
    keeps_IsUsed id s (process_replace r s).1 ((process_replace-Preserves r).kept s) u

accept_sequence_watermark :
    (n : ℕ) (s : Served)
    → (accept_sequence n s).1.gateway.maximum_received_order_id
      ≡ s.gateway.maximum_received_order_id
unfolding accept_sequence check_sequence
accept_sequence_watermark n s = ground arith

follow-IsUsed :
    {A B : Type 0} (id : ℕ) (o : Result Halt A × Served) (k : A → Serving B)
    → IsUsed id o.1
    → ((a : A) (t : Served) → IsUsed id t → IsUsed id (k a t).1)
    → IsUsed id (follow o k).1
follow-IsUsed id (ok a, t) k u f = f a t u
follow-IsUsed id (err e, t) k u f = u

process_command-IsUsed :
    (id : ℕ) (c : Command) (s : Served) → IsUsed id s → IsUsed id (process_command c s).1
unfolding process_command
process_command-IsUsed id c s u =
    follow-IsUsed id (accept_sequence (sequence c) (clear_reports s)) (λ _. process c)
      (ap (at_most id) (accept_sequence_watermark (sequence c) (clear_reports s)) ∙ u)
      (λ a t. process-IsUsed id c t)

-- The commands of a session, one after the other.
unfoldable pub run : List Command → Served → Served
run [] s = s
run (c ∷ cs) s = run cs (process_command c s).1

run-IsUsed : (id : ℕ) (cs : List Command) (s : Served) → IsUsed id s → IsUsed id (run cs s)
unfolding run
run-IsUsed id [] s u = u
run-IsUsed id (c ∷ cs) s u =
    run-IsUsed id cs (process_command c s).1 (process_command-IsUsed id c s u)

at_most_self : (n : ℕ) → at_most n (some n) ≡ true
at_most_self n = ground arith

at_most_le : (id n : ℕ) (m : Option ℕ) → id ≤ n → at_most n m ≡ true → at_most id m ≡ true
at_most_le id n m l h = ground (arith, l, h)

takes_id : (o : NewOrder) (s : Served) → IsUsed o.order_id (process_new_order o s).1
takes_id o s = elim (process_new_order-cases o s) [
  | inl (u, e) ↦ subst (λ x. IsUsed o.order_id x.1) (sym e) u
  | inr (_, e) ↦
      subst (λ x. IsUsed o.order_id x.1) (sym e)
        (keeps_IsUsed o.order_id (receive_order_id o.order_id s)
          (admitted o (receive_order_id o.order_id s)).1
          ((admitted-Preserves o).kept (receive_order_id o.order_id s)) (at_most_self o.order_id))
]

-- An order's identifier is used up once the order came in sequence, whether or not it was accepted:
-- after any further commands, a new order in sequence with that identifier or a lower one is refused as
-- a duplicate. The refusal clears the reports and uses up the sequence, and changes nothing else.
pub order_id_used :
    (o again : NewOrder) (cs : List Command) (s : Served)
    → o.sequence ≡ s.gateway.expected_sequence
    → o.sequence + 1 < u64_limit
    → again.order_id ≤ o.order_id
    → again.sequence
      ≡ (run cs (process_command (Command.new_order o) s).1).gateway.expected_sequence
    → again.sequence + 1 < u64_limit
    → process_command (Command.new_order again) (run cs (process_command (Command.new_order o) s).1)
      ≡ (
        err (fails (by_risk RejectReason.duplicate_order_id)),
        next_sequence (clear_reports (run cs (process_command (Command.new_order o) s).1)),
      )
unfolding sequence
order_id_used o again cs s h l m h' l' =
    let first =
      subst (λ x. IsUsed o.order_id x.1) (sym (process_command_runs (Command.new_order o) s h l))
        (takes_id o (next_sequence (clear_reports s))) in
    let t = run cs (process_command (Command.new_order o) s).1 in
    let used =
      at_most_le again.order_id o.order_id t.gateway.maximum_received_order_id m
        (run-IsUsed o.order_id cs (process_command (Command.new_order o) s).1 first) in
    process_command_runs (Command.new_order again) t h' l'
    ∙ elim (process_new_order-cases again (next_sequence (clear_reports t))) [
      | inl (_, e) ↦ e
      | inr (b, _) ↦ absurd (ground (arith, used, b))
    ]
