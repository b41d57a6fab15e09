-- ===== src/Session/Deadlines.antt =====
-- crates/hft-session/src/lib.rs: what the passing of virtual time does.
use hft_engine_rs.Prelude.{ℕ, ◌+◌, ◌≤◌, ◌<◌, ◌≡◌, some, arith}
use hft_engine_rs.Prelude.Words.{u64_limit}
use hft_engine_rs.Session.{SessionState, SessionEvent, SessionStateMachine, handle, tick}

-- Before its deadline time changes nothing.
pub tick_early :
    (m : SessionStateMachine) (d now : ℕ) → m.deadline ≡ some d → now < d → (tick now m).1 ≡ m
unfolding tick
tick_early m d now e h = ground arith

tick_active :
    (m : SessionStateMachine) (d now : ℕ)
    → m.state ≡ SessionState.active
    → m.deadline ≡ some d
    → d ≤ now
    → now + m.config.heartbeat_timeout_ticks < u64_limit
    → ((tick now m).1.state ≡ SessionState.recovering)
      × ((tick now m).1.deadline ≡ some (now + m.config.heartbeat_timeout_ticks))
      × ((tick now m).1.next_sequence ≡ m.next_sequence)
unfolding tick
tick_active m d now s e h f = ground arith

tick-recovering :
    (m : SessionStateMachine) (d now : ℕ)
    → m.state ≡ SessionState.recovering
    → m.deadline ≡ some d
    → d ≤ now
    → (tick now m).1.state ≡ SessionState.failed
unfolding tick
tick-recovering m d now s e h = ground arith

-- An active session that hears nothing: before its deadline time changes nothing; at the deadline or
-- after it, it drops to `Recovering` with its sequence kept and its deadline set anew, the timeout
-- after that tick; before the new deadline time again changes nothing, and from then on it fails.
pub silence_fails :
    (m : SessionStateMachine) (d early first between second : ℕ)
    → m.state ≡ SessionState.active
    → m.deadline ≡ some d
    → early < d
    → d ≤ first
    → first + m.config.heartbeat_timeout_ticks < u64_limit
    → between < first + m.config.heartbeat_timeout_ticks
    → first + m.config.heartbeat_timeout_ticks ≤ second
    → ((tick early m).1 ≡ m)
      × ((tick first m).1.state ≡ SessionState.recovering)
      × ((tick first m).1.next_sequence ≡ m.next_sequence)
      × ((tick first m).1.deadline ≡ some (first + m.config.heartbeat_timeout_ticks))
      × ((tick between (tick first m).1).1 ≡ (tick first m).1)
      × ((tick second (tick first m).1).1.state ≡ SessionState.failed)
silence_fails m d early first between second s e b h f k l =
    let (s', e', n') = tick_active m d first s e h f in
    (
      tick_early m d early e b,
      s',
      n',
      e',
      tick_early (tick first m).1 _ between e' k,
      tick-recovering (tick first m).1 _ second s' e' l,
    )

-- A command of the expected sequence in between revives the session instead, with a fresh deadline.
pub command_revives :
    (m : SessionStateMachine) (d first now : ℕ)
    → m.state ≡ SessionState.active
    → m.deadline ≡ some d
    → d ≤ first
    → first + m.config.heartbeat_timeout_ticks < u64_limit
    → now + m.config.heartbeat_timeout_ticks < u64_limit
    → m.next_sequence + 1 < u64_limit
    → ((handle (SessionEvent.command m.next_sequence) now (tick first m).1).1.state
        ≡ SessionState.active)
      × ((handle (SessionEvent.command m.next_sequence) now (tick first m).1).1.deadline
          ≡ some (now + m.config.heartbeat_timeout_ticks))
unfolding handle tick
command_revives m d first now s e h f g n = ground arith

-- A heartbeat timeout of zero ticks does not switch the deadline off: the session that a command
-- leaves active at a time is recovering after a tick at that very time.
pub zero_timeout_fires :
    (m : SessionStateMachine) (now : ℕ)
    → m.state ≡ SessionState.active
    → m.config.heartbeat_timeout_ticks ≡ 0
    → m.next_sequence + 1 < u64_limit
    → now < u64_limit
    → (tick now (handle (SessionEvent.command m.next_sequence) now m).1).1.state
      ≡ SessionState.recovering
unfolding handle tick
zero_timeout_fires m now s z n f = ground arith
