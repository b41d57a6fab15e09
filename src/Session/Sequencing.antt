-- ===== src/Session/Sequencing.antt =====
-- crates/hft-session/src/lib.rs: which commands the machine accepts.
use hft_engine_rs.Prelude.{
  ℕ, zero, suc, ◌+◌, ◌<◌, ◌≡◌, ◌⊎◌, ◌∙◌, refl, ap, Bool, true, false, List, [], ◌∷◌, some, Result,
  ok, err, arith, length, Bool-cases, inl, inr, if◌then◌else◌,
}
use hft_engine_rs.Prelude.Words.{u64_limit}
use hft_engine_rs.Session.{
  SessionState, SessionEvent, SessionStateMachine, Input, event, time, allows_commands, step,
  handle, tick,
}

abbrev pub is_ok : {E A : Type 0} → Result E A → Bool
is_ok (ok _) = true
is_ok (err _) = false

-- A command is accepted in `Active` and `Recovering` alone, with exactly the expected sequence; the
-- machine is then `Active`, expects the successor, and its heartbeat deadline is counted from now.
pub command_accepted :
    (received now : ℕ) (m : SessionStateMachine)
    → is_ok (handle (SessionEvent.command received) now m).0 ≡ true
    → (allows_commands m ≡ true)
      × (received ≡ m.next_sequence)
      × ((handle (SessionEvent.command received) now m).1 ≡ record m {
        state = SessionState.active;
        next_sequence = received + 1;
        deadline = some (now + m.config.heartbeat_timeout_ticks);
        heartbeat_timeouts = 0;
      })
unfolding handle allows_commands
command_accepted received now m h = ground arith

-- While both counters have room, a command of the expected sequence is never refused.
pub command_admitted :
    (now : ℕ) (m : SessionStateMachine)
    → allows_commands m ≡ true
    → m.next_sequence + 1 < u64_limit
    → now + m.config.heartbeat_timeout_ticks < u64_limit
    → is_ok (handle (SessionEvent.command m.next_sequence) now m).0 ≡ true
unfolding handle allows_commands
command_admitted now m a n t = ground arith

abbrev is_logon : Input → Bool
is_logon (event (SessionEvent.logon_accepted _) _) = true
is_logon _ = false

-- The sequences of the accepted commands, in order.
unfoldable pub accepted : List Input → SessionStateMachine → List ℕ
accepted [] m = []
accepted (event (SessionEvent.command received) now ∷ is) m =
    let rest = accepted is (handle (SessionEvent.command received) now m).1 in
    if is_ok (handle (SessionEvent.command received) now m).0 then received ∷ rest else rest
accepted (i ∷ is) m = accepted is (step i m).1

abbrev pub upward : ℕ → ℕ → List ℕ
upward from zero = []
upward from (suc n) = from ∷ upward (from + 1) n

-- No logon among the inputs, and no time so late that a heartbeat deadline would overflow.
abbrev pub IsPlain : ℕ → Input → Type 0
IsPlain timeout (event e now) = (is_logon (event e now) ≡ false) × (now + timeout < u64_limit)
IsPlain timeout (time now) = Unit {0}

abbrev pub AllPlain : ℕ → List Input → Type 0
AllPlain timeout [] = Unit {0}
AllPlain timeout (i ∷ is) = IsPlain timeout i × AllPlain timeout is

step-config : (i : Input) (m : SessionStateMachine) → (step i m).1.config ≡ m.config
unfolding step handle tick
step-config (event e now) m = ground arith
step-config (time now) m = ground arith

-- Without a logon a machine that takes no commands never takes one.
step_idle :
    (i : Input) (m : SessionStateMachine)
    → is_logon i ≡ false
    → allows_commands m ≡ false
    → allows_commands (step i m).1 ≡ false
unfolding step handle tick allows_commands
step_idle (event e now) m l a = ground arith
step_idle (time now) m l a = ground arith

command_idle :
    (received now : ℕ) (m : SessionStateMachine)
    → allows_commands m ≡ false
    → is_ok (handle (SessionEvent.command received) now m).0 ≡ false
unfolding handle allows_commands
command_idle received now m a = ground arith

-- A refused command consumes no sequence.
command_refused :
    (received now : ℕ) (m : SessionStateMachine)
    → now + m.config.heartbeat_timeout_ticks < u64_limit
    → is_ok (handle (SessionEvent.command received) now m).0 ≡ false
    → (handle (SessionEvent.command received) now m).1.next_sequence ≡ m.next_sequence
unfolding handle
command_refused received now m f h = ground arith

-- The inputs that are neither a logon nor a command.
abbrev is_command : Input → Bool
is_command (event (SessionEvent.command _) _) = true
is_command _ = false

other_step :
    (i : Input) (m : SessionStateMachine)
    → is_logon i ≡ false
    → is_command i ≡ false
    → (allows_commands (step i m).1 ≡ false) ⊎ ((step i m).1.next_sequence ≡ m.next_sequence)
unfolding step handle tick allows_commands
other_step (event e now) m l c = ground arith
other_step (time now) m l c = ground arith

accepted_other :
    (i : Input) (is : List Input) (m : SessionStateMachine)
    → is_command i ≡ false
    → accepted (i ∷ is) m ≡ accepted is (step i m).1
unfolding accepted
accepted_other (event (SessionEvent.command r) now) is m h = absurd (ground arith)
accepted_other (event SessionEvent.connect now) is m h = refl
accepted_other (event e now) is m h = refl
accepted_other (time now) is m h = refl

accepted_command :
    (r now : ℕ) (is : List Input) (m : SessionStateMachine)
    → accepted (event (SessionEvent.command r) now ∷ is) m ≡ (
        if is_ok (handle (SessionEvent.command r) now m).0
        then r ∷ accepted is (step (event (SessionEvent.command r) now) m).1
        else accepted is (step (event (SessionEvent.command r) now) m).1)
unfolding accepted step
accepted_command r now is m = refl

plain_logon : (t : ℕ) (i : Input) → IsPlain t i → is_logon i ≡ false
plain_logon t (event e now) p = p.0
plain_logon t (time now) p = refl

accepted_idle :
    (t : ℕ) (is : List Input) (m : SessionStateMachine)
    → AllPlain t is
    → allows_commands m ≡ false
    → accepted is m ≡ []
accepted_idle t [] m p a = unfold accepted in refl
accepted_idle t (event (SessionEvent.command r) now ∷ is) m p a =
    rw (accepted_command r now is m, command_idle r now m a)
      (accepted_idle t is _ p.1 (step_idle _ m refl a))
accepted_idle t (event SessionEvent.connect now ∷ is) m p a =
    rw (accepted_other (event SessionEvent.connect now) is m refl)
      (accepted_idle t is _ p.1 (step_idle (event SessionEvent.connect now) m refl a))
accepted_idle t (i ∷ is) m p a =
    rw (accepted_other i is m refl)
      (accepted_idle t is _ p.1 (step_idle i m (plain_logon t i p.0) a))

abbrev IsConsecutive : List Input → SessionStateMachine → Type 0
IsConsecutive is m = accepted is m ≡ upward m.next_sequence (length (accepted is m))

-- An input that is no command, on a machine that may still take commands.
other-IsConsecutive :
    (t : ℕ) (i : Input) (is : List Input) (m : SessionStateMachine)
    → is_command i ≡ false
    → IsPlain t i
    → AllPlain t is
    → IsConsecutive is (step i m).1
    → IsConsecutive (i ∷ is) m
other-IsConsecutive t i is m c p ps ih =
    rw (accepted_other i is m c) elim (other_step i m (plain_logon t i p) c) [
      | inl idle ↦ rw (accepted_idle t is _ ps idle) refl
      | inr same ↦ ih ∙ ap (λ (n : ℕ). upward n (length (accepted is (step i m).1))) same
    ]

command-IsConsecutive :
    (r now : ℕ) (is : List Input) (m : SessionStateMachine)
    → now + m.config.heartbeat_timeout_ticks < u64_limit
    → IsConsecutive is (step (event (SessionEvent.command r) now) m).1
    → IsConsecutive (event (SessionEvent.command r) now ∷ is) m
unfolding step
command-IsConsecutive r now is m f ih =
    elim (Bool-cases (is_ok (handle (SessionEvent.command r) now m).0)) [
      | inl yes' ↦
          rw (accepted_command r now is m, yes') (ground (arith, ih, command_accepted r now m yes'))
      | inr no' ↦
          rw (accepted_command r now is m, no')
            (ih
              ∙ ap
                  (λ (n : ℕ).
                    upward n (length (accepted is (handle (SessionEvent.command r) now m).1)))
                  (command_refused r now m f no'))
    ]

consecutive :
    (t : ℕ) (is : List Input) (m : SessionStateMachine)
    → AllPlain t is
    → m.config.heartbeat_timeout_ticks ≡ t
    → IsConsecutive is m
consecutive t [] m p e = unfold accepted in refl
consecutive t (event (SessionEvent.command r) now ∷ is) m p e =
    command-IsConsecutive r now is m (rw e p.0.1)
      (consecutive t is _ p.1 (rw (step-config (event (SessionEvent.command r) now) m) e))
consecutive t (event SessionEvent.connect now ∷ is) m p e =
    other-IsConsecutive t (event SessionEvent.connect now) is m refl p.0 p.1
      (consecutive t is _ p.1 (rw (step-config (event SessionEvent.connect now) m) e))
consecutive t (i ∷ is) m p e =
    other-IsConsecutive t i is m refl p.0 p.1 (consecutive t is _ p.1 (rw (step-config i m) e))

-- Between logons the accepted commands carry consecutive sequences from the expected one on: none is
-- skipped, repeated or reordered, whatever else arrives and however time passes, as long as no
-- heartbeat deadline overflows.
pub accepted_consecutive :
    (is : List Input) (m : SessionStateMachine)
    → AllPlain m.config.heartbeat_timeout_ticks is
    → accepted is m ≡ upward m.next_sequence (length (accepted is m))
accepted_consecutive is m p = consecutive m.config.heartbeat_timeout_ticks is m p refl
