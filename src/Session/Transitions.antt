-- ===== src/Session/Transitions.antt =====
-- crates/hft-session/src/lib.rs: which states may follow one another.
use hft_engine_rs.Prelude.{ℕ, ◌≡◌, Bool, true, false, List, [], ◌∷◌, ok, arith}
use hft_engine_rs.Session.{
  SessionState, SessionEvent, SessionStateMachine, Input, event, time, step, handle, tick,
  Transition,
}

-- The documented life cycle.
abbrev pub may_follow : SessionState → SessionState → Bool
may_follow SessionState.disconnected SessionState.disconnected = true
may_follow SessionState.disconnected SessionState.connecting = true
may_follow SessionState.disconnected SessionState.failed = true
may_follow SessionState.connecting SessionState.connecting = true
may_follow SessionState.connecting SessionState.logon = true
may_follow SessionState.connecting SessionState.logout = true
may_follow SessionState.connecting SessionState.disconnected = true
may_follow SessionState.connecting SessionState.failed = true
may_follow SessionState.logon SessionState.logon = true
may_follow SessionState.logon SessionState.active = true
may_follow SessionState.logon SessionState.logout = true
may_follow SessionState.logon SessionState.disconnected = true
may_follow SessionState.logon SessionState.failed = true
may_follow SessionState.active SessionState.active = true
may_follow SessionState.active SessionState.recovering = true
may_follow SessionState.active SessionState.logout = true
may_follow SessionState.active SessionState.disconnected = true
may_follow SessionState.active SessionState.failed = true
may_follow SessionState.recovering SessionState.recovering = true
may_follow SessionState.recovering SessionState.active = true
may_follow SessionState.recovering SessionState.logout = true
may_follow SessionState.recovering SessionState.disconnected = true
may_follow SessionState.recovering SessionState.failed = true
may_follow SessionState.logout SessionState.logout = true
may_follow SessionState.logout SessionState.disconnected = true
may_follow SessionState.logout SessionState.failed = true
may_follow SessionState.failed SessionState.failed = true
may_follow _ _ = false

handle-may_follow :
    (e : SessionEvent) (now : ℕ) (m : SessionStateMachine)
    → may_follow m.state (handle e now m).1.state ≡ true
unfolding handle
handle-may_follow e now m = ground arith

tick-may_follow :
    (now : ℕ) (m : SessionStateMachine) → may_follow m.state (tick now m).1.state ≡ true
unfolding tick
tick-may_follow now m = ground arith

step-may_follow :
    (i : Input) (m : SessionStateMachine) → may_follow m.state (step i m).1.state ≡ true
unfolding step
step-may_follow (event e now) m = handle-may_follow e now m
step-may_follow (time now) m = tick-may_follow now m

-- A history of inputs, each applied to the machine that the one before left, refused or not.
unfoldable pub run : List Input → SessionStateMachine → SessionStateMachine
run [] m = m
run (i ∷ is) m = run is (step i m).1

-- The states that a history passes through, the first one left out.
pub trail : List Input → SessionStateMachine → List SessionState
trail [] m = []
trail (i ∷ is) m = (step i m).1.state ∷ trail is (step i m).1

abbrev pub IsLegal : SessionState → List SessionState → Type 0
IsLegal s [] = Unit {0}
IsLegal s (t ∷ ts) = (may_follow s t ≡ true) × IsLegal t ts

-- Every history, with refused inputs and expired deadlines in it, moves along the life cycle only.
pub trail-IsLegal : (is : List Input) (m : SessionStateMachine) → IsLegal m.state (trail is m)
unfolding trail
trail-IsLegal [] m = tt
trail-IsLegal (i ∷ is) m = (step-may_follow i m, trail-IsLegal is (step i m).1)

step-failed :
    (i : Input) (m : SessionStateMachine)
    → m.state ≡ SessionState.failed
    → (step i m).1.state ≡ SessionState.failed
step-failed i m h = ground (arith, step-may_follow i m)

-- `Failed` is final: no event and no passing of time leads out of it.
pub run-failed :
    (is : List Input) (m : SessionStateMachine)
    → m.state ≡ SessionState.failed
    → (run is m).state ≡ SessionState.failed
unfolding run
run-failed [] m h = h
run-failed (i ∷ is) m h = run-failed is (step i m).1 (step-failed i m h)

-- What an accepted event reports is the state and the deadline that the machine then has.
pub handle_reports :
    (e : SessionEvent) (now : ℕ) (m : SessionStateMachine) {t : Transition}
    → (handle e now m).0 ≡ ok t
    → (t.state ≡ (handle e now m).1.state) × (t.deadline ≡ (handle e now m).1.deadline)
unfolding handle
handle_reports e now m h = ground arith
