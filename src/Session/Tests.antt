-- ===== src/Session/Tests.antt =====
-- Tests of the session state machine (crates/hft-session/src/lib.rs), and its theorems at a session
-- that logs on, takes commands and goes silent.
use hft_engine_rs.Prelude.{ℕ, ◌+◌, ◌≡◌, refl, true, List, [], ◌∷◌, some, err, arith, length}
use hft_engine_rs.Session.{
  SessionState, SessionEvent, SessionError, SessionConfig, SessionStateMachine, Input, event, time,
  new, handle, tick, step, allows_commands,
}
use hft_engine_rs.Session.Transitions.{run, trail, IsLegal, trail-IsLegal}
use hft_engine_rs.Session.Lifecycle.{
  IsWellFormed, run-new-IsWellFormed, handle_refused, command_overflow_mutates,
}
use hft_engine_rs.Session.Sequencing.{command_accepted, accepted, accepted_consecutive, upward}
use hft_engine_rs.Session.Deadlines.{silence_fails}

abbrev config : SessionConfig
config = record { logon_timeout_ticks = 100; heartbeat_timeout_ticks = 50 }

-- An active session that expects command 7, with its deadline at 60.
abbrev session : SessionStateMachine
session = record {
  state = SessionState.active;
  config = config;
  next_sequence = 7;
  deadline = some 60;
  heartbeat_timeouts = 0;
}

abbrev history : List Input
history =
    event SessionEvent.connect 0
    ∷ event SessionEvent.logon_sent 0
    ∷ event (SessionEvent.logon_accepted 7) 10
    ∷ event (SessionEvent.command 7) 20
    ∷ event (SessionEvent.command 9) 21
    ∷ time 70
    ∷ []

-- The gap at 9 is refused, and the deadline at 70 drops the session to `Recovering`.
history_runs : run history (new config) ≡ record session {
  state = SessionState.recovering;
  next_sequence = 8;
  deadline = some 120;
  heartbeat_timeouts = 1;
}
unfolding run step handle tick new
history_runs = refl

trail-IsLegal_example : IsLegal SessionState.active (trail history session)
trail-IsLegal_example = trail-IsLegal history session

run-new-IsWellFormed_example : IsWellFormed (run history (new config))
run-new-IsWellFormed_example =
    run-new-IsWellFormed config history (tt, (tt, (omega arith, (tt, (tt, (tt, tt))))))

handle_refused_example : (handle (SessionEvent.command 9) 20 session).1 ≡ session
unfolding handle
handle_refused_example =
    handle_refused (SessionEvent.command 9) 20 session {x = SessionError.gap 7 9} refl
      (ground arith)

abbrev logging_on : SessionStateMachine
logging_on = record session { state = SessionState.logon }

abbrev recovering : SessionStateMachine
recovering = record session { state = SessionState.recovering }

command_overflow_mutates_example :
    ((handle (SessionEvent.command 7) 0xffff_ffff_ffff_fff0 recovering).0
      ≡ err SessionError.arithmetic_overflow)
    × ((handle (SessionEvent.command 7) 0xffff_ffff_ffff_fff0 recovering).1.next_sequence ≡ 7 + 1)
    × ((handle (SessionEvent.command 7) 0xffff_ffff_ffff_fff0 recovering).1.state
        ≡ SessionState.active)
command_overflow_mutates_example =
    command_overflow_mutates recovering 0xffff_ffff_ffff_fff0 refl (omega arith) (omega arith)

command_accepted_example :
    (allows_commands session ≡ true)
    × (◌≡◌ {A = ℕ} 7 7)
    × ((handle (SessionEvent.command 7) 20 session).1
        ≡ record session { next_sequence = 7 + 1; deadline = some (20 + 50) })
unfolding handle
command_accepted_example = command_accepted 7 20 session refl

abbrev traffic : List Input
traffic =
    event (SessionEvent.command 7) 20
    ∷ event (SessionEvent.command 9) 21
    ∷ time 75
    ∷ event (SessionEvent.command 8) 80
    ∷ []

accepted_runs : accepted traffic session ≡ 7 ∷ 8 ∷ []
unfolding accepted step handle tick
accepted_runs = refl

accepted_consecutive_example :
    accepted traffic session ≡ upward 7 (length (accepted traffic session))
accepted_consecutive_example =
    accepted_consecutive traffic session
      ((refl, omega arith), ((refl, omega arith), (tt, ((refl, omega arith), tt))))

abbrev hasty : SessionStateMachine
hasty = record session { config = record { logon_timeout_ticks = 0; heartbeat_timeout_ticks = 0 } }

silence_fails_example :
    ((tick 59 session).1 ≡ session)
    × ((tick 60 session).1.state ≡ SessionState.recovering)
    × ((tick 60 session).1.next_sequence ≡ 7)
    × ((tick 60 session).1.deadline ≡ some 110)
    × ((tick 109 (tick 60 session).1).1 ≡ (tick 60 session).1)
    × ((tick 200 (tick 60 session).1).1.state ≡ SessionState.failed)
silence_fails_example =
    silence_fails session 60 59 60 109 200 refl refl (omega arith) (omega arith) (omega arith)
      (omega arith) (omega arith)
