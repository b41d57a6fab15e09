-- ===== src/Session/Retransmit.antt =====
-- crates/hft-session/src/retransmit.rs: the bounded window of frames kept for recovery.
pub mod Window
mod Tests
use hft_engine_rs.Prelude.{
  ℕ, suc, ◌+◌, ◌-◌, ◌==◌, Bool, true, false, not, List, [], ◌∷◌, ◌++◌, ltb, leb, length, take,
  replicate, keep_if,
}
use hft_engine_rs.Prelude.Words.{checked_add_u64}
use hft_engine_rs.Prelude.Action.{Action, ◌>>=◌, ◌>>◌, require, reject_if, self, modify}

abbrev pub max_frame : ℕ
max_frame = 46

-- `bytes` has `max_frame` places, of which `len` are the frame.
pub record RetainedFrame : Type 0 where
  pub sequence : ℕ
  pub bytes : List ℕ
  pub len : ℕ

unfoldable pub slice : RetainedFrame → List ℕ
slice f = take f.len f.bytes

pub data RetainError : Type 0 where
  full sequence_overflow : RetainError
  not_in_order : ℕ → ℕ → RetainError

pub record RetransmitBuffer : Type 0 where
  pub entries : List RetainedFrame
  pub capacity : ℕ
  pub next_sequence : ℕ

unfoldable pub new : ℕ → RetransmitBuffer
new capacity = record { entries = []; capacity = capacity; next_sequence = 1 }

-- `[0_u8; MAX_FRAME]` with the bytes copied over its beginning.
store : ℕ → List ℕ → RetainedFrame
store sequence bytes = record {
  sequence = sequence;
  bytes = bytes ++ replicate (max_frame - length bytes) 0;
  len = length bytes;
}

unfoldable pub retain : ℕ → List ℕ → Action RetransmitBuffer RetainError (Unit {0})
unfolding store
retain sequence bytes = do
  reject_if (ltb max_frame (length bytes)) RetainError.full
  b ← self
  reject_if (not (sequence == b.next_sequence)) (RetainError.not_in_order b.next_sequence sequence)
  reject_if (length b.entries == b.capacity) RetainError.full
  next ← require (checked_add_u64 sequence 1) RetainError.sequence_overflow
  modify (λ b. record b { entries = b.entries ++ store sequence bytes ∷ []; next_sequence = next })

-- The loop of `confirm_through`: what is left, and the number dropped.
drop_confirmed : ℕ → ℕ → List RetainedFrame → List RetainedFrame × ℕ
drop_confirmed confirmed dropped [] = ([], dropped)
drop_confirmed confirmed dropped (f ∷ fs) = elim (leb f.sequence confirmed) [
  | true ↦ drop_confirmed confirmed (dropped + 1) fs
  | false ↦ (f ∷ fs, dropped)
]

unfoldable pub confirm_through : ℕ → RetransmitBuffer → ℕ × RetransmitBuffer
unfolding drop_confirmed
confirm_through confirmed b =
    let (left, dropped) = drop_confirmed confirmed 0 b.entries in
    (dropped, record b { entries = left })

unfoldable pub since : ℕ → RetransmitBuffer → List RetainedFrame
since from b = keep_if (λ f. leb from f.sequence) b.entries

-- `capacity - len` never underflows: the window stays within the capacity.
unfoldable pub remaining_capacity : RetransmitBuffer → ℕ
remaining_capacity b = b.capacity - length b.entries
