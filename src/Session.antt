-- ===== src/Session.antt =====
-- crates/hft-session/src/lib.rs: the session state machine. `now` is the caller's virtual time.
pub mod Transitions
pub mod Lifecycle
pub mod Sequencing
pub mod Deadlines
pub mod Retransmit
mod Tests
use Prim.Native.String.{String}
use hft_engine_rs.Prelude.{ℕ, ◌+◌, ◌%◌, ◌<◌, Bool, true, false, Option, none, some, ltb, leb, ◌==◌}
use hft_engine_rs.Prelude.Words.{checked_add_u64, u32_limit}
use hft_engine_rs.Prelude.Action.{
  Action, ◌>>=◌, ◌>>◌, done, refuse, require, reject_if, self, modify,
}

pub data SessionState : Type 0 where
  disconnected connecting logon active recovering logout failed : SessionState

pub data SessionEvent : Type 0 where
  connect logon_sent heartbeat_received logout_sent disconnect fail : SessionEvent
  logon_accepted : ℕ → SessionEvent
  command : ℕ → SessionEvent

pub data SessionError : Type 0 where
  invalid_transition : SessionState → String → SessionError
  gap : ℕ → ℕ → SessionError
  duplicate_sequence : ℕ → ℕ → SessionError
  not_active arithmetic_overflow : SessionError

pub record SessionConfig : Type 0 where
  pub logon_timeout_ticks : ℕ
  pub heartbeat_timeout_ticks : ℕ

unfoldable pub default_config : SessionConfig
default_config = record { logon_timeout_ticks = 100; heartbeat_timeout_ticks = 50 }

pub record Transition : Type 0 where
  pub state : SessionState
  pub deadline : Option ℕ

pub record SessionStateMachine : Type 0 where
  pub state : SessionState
  pub config : SessionConfig
  pub next_sequence : ℕ
  pub deadline : Option ℕ
  pub heartbeat_timeouts : ℕ

unfoldable pub new : SessionConfig → SessionStateMachine
new c = record {
  state = SessionState.disconnected;
  config = c;
  next_sequence = 1;
  deadline = none;
  heartbeat_timeouts = 0;
}

commands_in : SessionState → Bool
commands_in SessionState.active = true
commands_in SessionState.recovering = true
commands_in _ = false

unfoldable pub allows_commands : SessionStateMachine → Bool
unfolding commands_in
allows_commands m = commands_in m.state

-- A method on the machine.
abbrev pub Method : Type 0 → Type 0
Method = Action SessionStateMachine SessionError

snapshot : SessionStateMachine → Transition
snapshot m = record { state = m.state; deadline = m.deadline }

take_snapshot : Method Transition
unfolding snapshot
take_snapshot = do m ← self; done (snapshot m)

enter : SessionState → Option ℕ → Method Transition
unfolding take_snapshot
enter state deadline = do
  modify (λ m. record m { state = state; deadline = deadline })
  take_snapshot

arm : SessionState → ℕ → ℕ → Method Transition
unfolding take_snapshot
arm state timeout now = do
  deadline ← require (checked_add_u64 now timeout) SessionError.arithmetic_overflow
  modify (λ m. record m { state = state; deadline = some deadline })
  take_snapshot

reset : Method (Unit {0})
reset = modify (λ m. record m { next_sequence = 1; deadline = none; heartbeat_timeouts = 0 })

event_name : SessionEvent → String
event_name SessionEvent.connect = "connect"
event_name SessionEvent.logon_sent = "logon_sent"
event_name (SessionEvent.logon_accepted _) = "logon_accepted"
event_name (SessionEvent.command _) = "command"
event_name SessionEvent.heartbeat_received = "heartbeat_received"
event_name SessionEvent.logout_sent = "logout_sent"
event_name SessionEvent.disconnect = "disconnect"
event_name SessionEvent.fail = "fail"

-- The arm of `handle` for an accepted logon.
accept_logon : ℕ → ℕ → Method Transition
unfolding arm
accept_logon first now = do
  reject_if (first == 0) SessionError.arithmetic_overflow
  modify (λ m. record m { next_sequence = first; heartbeat_timeouts = 0 })
  m ← self
  arm SessionState.active m.config.heartbeat_timeout_ticks now

-- The arm of `handle` for a command in `Active` or `Recovering`.
accept_command : ℕ → ℕ → Method Transition
unfolding arm
accept_command received now = do
  m ← self
  reject_if (ltb received m.next_sequence)
      (SessionError.duplicate_sequence received m.next_sequence)
  reject_if (ltb m.next_sequence received) (SessionError.gap m.next_sequence received)
  next ← require (checked_add_u64 m.next_sequence 1) SessionError.arithmetic_overflow
  modify
      (λ s. record s { next_sequence = next; heartbeat_timeouts = 0; state = SessionState.active })
  arm SessionState.active m.config.heartbeat_timeout_ticks now

send_logon : ℕ → Method Transition
unfolding arm
send_logon now = do m ← self; arm SessionState.logon m.config.logon_timeout_ticks now

keep_alive : ℕ → Method Transition
unfolding arm
keep_alive now = do m ← self; arm SessionState.active m.config.heartbeat_timeout_ticks now

-- `self.reset()`, then the state with no deadline.
reset_to : SessionState → Method Transition
unfolding reset enter
reset_to state = do reset; enter state none

invalid : SessionState → SessionEvent → Method Transition
unfolding event_name
invalid state event = refuse (SessionError.invalid_transition state (event_name event))

-- The match of `handle`, its arms in the source's order.
dispatch : SessionState → SessionEvent → ℕ → Method Transition
unfolding enter send_logon accept_logon accept_command keep_alive reset_to invalid
dispatch SessionState.disconnected SessionEvent.connect now = enter SessionState.connecting none
dispatch SessionState.connecting SessionEvent.logon_sent now = send_logon now
dispatch SessionState.logon (SessionEvent.logon_accepted first) now = accept_logon first now
dispatch SessionState.active (SessionEvent.command received) now = accept_command received now
dispatch SessionState.recovering (SessionEvent.command received) now = accept_command received now
dispatch SessionState.active SessionEvent.heartbeat_received now = keep_alive now
dispatch SessionState.connecting SessionEvent.logout_sent now = enter SessionState.logout none
dispatch SessionState.logon SessionEvent.logout_sent now = enter SessionState.logout none
dispatch SessionState.active SessionEvent.logout_sent now = enter SessionState.logout none
dispatch SessionState.recovering SessionEvent.logout_sent now = enter SessionState.logout none
dispatch SessionState.failed SessionEvent.disconnect now =
    invalid SessionState.failed SessionEvent.disconnect
dispatch state SessionEvent.disconnect now = reset_to SessionState.disconnected
dispatch state SessionEvent.fail now = reset_to SessionState.failed
dispatch state event now = invalid state event

unfoldable pub handle : SessionEvent → ℕ → Method Transition
unfolding dispatch
handle event now m = dispatch m.state event now m

-- `heartbeat_timeouts += 1` of a `u32`, which wraps around in the release build.
count_timeout : Method (Unit {0})
count_timeout =
    modify (λ m. record m { heartbeat_timeouts = (m.heartbeat_timeouts + 1) % u32_limit })

-- The match of `tick` once the deadline is crossed.
expire : SessionState → ℕ → Method Transition
unfolding reset_to count_timeout take_snapshot
expire SessionState.logon now = reset_to SessionState.failed
expire SessionState.active now = do
  count_timeout
  m ← self
  deadline ←
      require (checked_add_u64 now m.config.heartbeat_timeout_ticks)
        SessionError.arithmetic_overflow
  modify (λ s. record s { state = SessionState.recovering; deadline = some deadline })
  take_snapshot
expire SessionState.recovering now = do count_timeout; reset_to SessionState.failed
expire _ now = take_snapshot

tick_at : Option ℕ → ℕ → Method Transition
unfolding expire take_snapshot
tick_at none now m = take_snapshot m
tick_at (some deadline) now m = elim (ltb now deadline) [
  | true ↦ take_snapshot m
  | false ↦ expire m.state now m
]

unfoldable pub tick : ℕ → Method Transition
unfolding tick_at
tick now m = tick_at m.deadline now m

-- What drives the machine: events and the passing of time.
pub data Input : Type 0 where
  event : SessionEvent → ℕ → Input
  time : ℕ → Input

unfoldable pub step : Input → Method Transition
unfolding handle tick
step (event e now) = handle e now
step (time now) = tick now
