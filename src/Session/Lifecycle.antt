-- ===== src/Session/Lifecycle.antt =====
-- crates/hft-session/src/lib.rs: what holds of the machine at all times, and what a refusal leaves.
use hft_engine_rs.Prelude.{
  ℕ, ◌+◌, ◌≤◌, ◌<◌, ◌≡◌, ◌≢◌, Bool, true, false, List, [], ◌∷◌, Option, none, some, err, arith,
}
use hft_engine_rs.Prelude.Words.{u64_limit}
use hft_engine_rs.Session.{
  SessionState, SessionEvent, SessionError, SessionConfig, SessionStateMachine, Input, event, time,
  new, step, handle, tick,
}
use hft_engine_rs.Session.Transitions.{run}

-- The states in which a deadline runs.
abbrev has_timer : SessionState → Bool
has_timer SessionState.logon = true
has_timer SessionState.active = true
has_timer SessionState.recovering = true
has_timer _ = false

abbrev is_armed : Option ℕ → Bool
is_armed none = false
is_armed (some _) = true

abbrev deadline_or_zero : Option ℕ → ℕ
deadline_or_zero none = 0
deadline_or_zero (some d) = d

-- A deadline runs in exactly the states that wait for the peer, and both counters are `u64` values,
-- the sequence a positive one.
pub record IsWellFormed (m : SessionStateMachine) : Type 0 where
  pub timer : is_armed m.deadline ≡ has_timer m.state
  pub deadline_fits : deadline_or_zero m.deadline < u64_limit
  pub positive : 0 < m.next_sequence
  pub sequence_fits : m.next_sequence < u64_limit

-- The inputs that Rust's types allow: a sequence number is a `u64`.
abbrev pub IsTyped : Input → Type 0
IsTyped (event (SessionEvent.logon_accepted first) now) = first < u64_limit
IsTyped _ = Unit {0}

abbrev pub AllTyped : List Input → Type 0
AllTyped [] = Unit {0}
AllTyped (i ∷ is) = IsTyped i × AllTyped is

handle-IsWellFormed :
    (e : SessionEvent) (now : ℕ) (m : SessionStateMachine)
    → IsTyped (event e now)
    → IsWellFormed m
    → IsWellFormed (handle e now m).1
unfolding handle
handle-IsWellFormed e now m t v = ground arith

tick-IsWellFormed :
    (now : ℕ) (m : SessionStateMachine) → IsWellFormed m → IsWellFormed (tick now m).1
unfolding tick
tick-IsWellFormed now m v = ground arith

step-IsWellFormed :
    (i : Input) (m : SessionStateMachine) → IsTyped i → IsWellFormed m → IsWellFormed (step i m).1
unfolding step
step-IsWellFormed (event e now) m t v = handle-IsWellFormed e now m t v
step-IsWellFormed (time now) m t v = tick-IsWellFormed now m v

run-IsWellFormed :
    (is : List Input) (m : SessionStateMachine)
    → AllTyped is
    → IsWellFormed m
    → IsWellFormed (run is m)
unfolding run
run-IsWellFormed [] m t v = v
run-IsWellFormed (i ∷ is) m t v = run-IsWellFormed is (step i m).1 t.1 (step-IsWellFormed i m t.0 v)

-- A machine is well formed after every history, refused inputs included.
pub run-new-IsWellFormed :
    (c : SessionConfig) (is : List Input) → AllTyped is → IsWellFormed (run is (new c))
unfolding new
run-new-IsWellFormed c is t = run-IsWellFormed is (new c) t (ground arith)

-- A refusal other than an arithmetic overflow leaves the machine as it was.
pub handle_refused :
    (e : SessionEvent) (now : ℕ) (m : SessionStateMachine) {x : SessionError}
    → (handle e now m).0 ≡ err x
    → x ≢ SessionError.arithmetic_overflow
    → (handle e now m).1 ≡ m
unfolding handle
handle_refused e now m h ne = ground arith

-- But a logon whose heartbeat deadline does not fit in a `u64` is refused after the sequence has
-- been taken over: the machine stays in `Logon` with the new sequence.
pub logon_overflow_mutates :
    (m : SessionStateMachine) (first now : ℕ)
    → m.state ≡ SessionState.logon
    → 0 < first
    → u64_limit ≤ now + m.config.heartbeat_timeout_ticks
    → ((handle (SessionEvent.logon_accepted first) now m).0 ≡ err SessionError.arithmetic_overflow)
      × ((handle (SessionEvent.logon_accepted first) now m).1.next_sequence ≡ first)
      × ((handle (SessionEvent.logon_accepted first) now m).1.state ≡ SessionState.logon)
unfolding handle
logon_overflow_mutates m first now s p o = ground arith

-- A recovering machine refuses its expected command at such a time too, and yet the sequence is
-- consumed and the machine is `Active`.
pub command_overflow_mutates :
    (m : SessionStateMachine) (now : ℕ)
    → m.state ≡ SessionState.recovering
    → m.next_sequence + 1 < u64_limit
    → u64_limit ≤ now + m.config.heartbeat_timeout_ticks
    → ((handle (SessionEvent.command m.next_sequence) now m).0
        ≡ err SessionError.arithmetic_overflow)
      × ((handle (SessionEvent.command m.next_sequence) now m).1.next_sequence
          ≡ m.next_sequence + 1)
      × ((handle (SessionEvent.command m.next_sequence) now m).1.state ≡ SessionState.active)
unfolding handle
command_overflow_mutates m now s n o = ground arith
