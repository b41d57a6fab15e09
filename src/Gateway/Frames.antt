-- ===== src/Gateway/Frames.antt =====
-- crates/hft-gateway/src/lib.rs: `process_frame` against `process_command`.
use hft_engine_rs.Prelude.{ℕ, ◌≡◌, refl, ap, sym, List, ok, err, ◌⊎◌, inl, inr, Result-cases}
use hft_engine_rs.Prelude.Action.{follow}
use hft_engine_rs.Types.{sequence}
use hft_engine_rs.Wire.{
  ParseError, BorrowedMessage, parse_message, message_sequence, to_command, to_new_order,
  to_cancel_order, to_replace_order,
}
use hft_engine_rs.Gateway.{
  Served, fails, unparsed, process, process_command, process_message, process_frame,
  accept_sequence, clear_reports,
}

sequence-to_command : (m : BorrowedMessage) → sequence (to_command m) ≡ message_sequence m
unfolding sequence to_command message_sequence to_new_order to_cancel_order to_replace_order
sequence-to_command (BorrowedMessage.new_order b) = refl
sequence-to_command (BorrowedMessage.cancel_order b) = refl
sequence-to_command (BorrowedMessage.replace_order b) = refl

process-to_command : (m : BorrowedMessage) → process (to_command m) ≡ process_message m
unfolding to_command
process-to_command (BorrowedMessage.new_order b) = refl
process-to_command (BorrowedMessage.cancel_order b) = refl
process-to_command (BorrowedMessage.replace_order b) = refl

-- A frame is processed as the command that it encodes; one that does not parse fails with the parser's
-- error and changes nothing but that the reports are cleared.
pub process_frame_lem :
    (frame : List ℕ) (s : Served)
    → ((m : BorrowedMessage) × (parse_message frame ≡ ok m)
        × (process_frame frame s ≡ process_command (to_command m) s))
      ⊎ ((e : ParseError) × (parse_message frame ≡ err e)
          × (process_frame frame s ≡ (err (fails (unparsed e)), clear_reports s)))
unfolding process_frame process_command
process_frame_lem frame s = elim (Result-cases (parse_message frame)) [
  | inl (m, k) ↦ inl (
    m,
    k,
    rw (process_frame, k, sequence-to_command m)
        (ap (λ p. follow (accept_sequence (message_sequence m) (clear_reports s)) (λ _. p))
          (sym (process-to_command m))),
  )
  | inr (e, k) ↦ inr (e, k, rw (process_frame, k) refl)
]
