-- ===== src/Lib.antt =====
-- The order-matching engine of this repository: a client's session delivers wire frames, which are
-- parsed into commands; the risk engine admits a command against its account's limits and reserves
-- exposure; the book matches or rests it; reports go back through a bounded buffer. The parts are
-- state machines without allocation or clocks, and each is modelled as functions on
-- its state, in the source's order of checks and writes.
--
-- Files and code. Paths are from the repository's root.
--   Prelude: shared names, lists over native numbers, signed integers, machine-word arithmetic, and
--     `Action`, the monad of a method that may reject. An action returns its result together with
--     the state it leaves, so what a method wrote before it failed is seen. `Action.Atomic` is the
--     predicate of methods that leave the state alone when they reject, `Action.Failure` those of
--     methods that never fail in one way, or change nothing where they do, `Action.Preserve` that of
--     methods that leave a part of the state alone, and `Action.Maintain` that of methods that keep a
--     property of the state on every outcome; each with its rules.
--   Types: crates/hft-types/src/lib.rs, commands, reports and reject reasons; Types/Reports is
--     `ReportBuffer` (new, clear, push, is_empty, remaining_capacity, iter).
--   Session: crates/hft-session/src/lib.rs, `SessionStateMachine`. `handle` is the match of the method
--     of that name with its arms in order (accept_logon, accept_command, keep_alive, reset_to and
--     enter are arms), `tick` the passing of time. `Transitions`, `Lifecycle`, `Sequencing` and
--     `Deadlines` hold the proofs on histories of inputs.
--   Session/Retransmit: crates/hft-session/src/retransmit.rs, `RetransmitBuffer` (retain,
--     confirm_through, since); the deque is a list.
--   Wire: crates/hft-wire/src/lib.rs, `parse_message`, the encoders and the owned decoders; a borrowed
--     message is the list of its bytes.
--   Risk: crates/hft-risk/src/lib.rs. Risk/Account is `AccountState`, `evaluate_limits` and
--     `exposure_after_fill`; Risk/ProbeIndex the open-addressed `ProbeIndex`; Risk/Engine the methods of
--     `RiskEngine` that reserve, settle, fill, adjust, restore and cancel; Risk/Registration is
--     `register_account`.
--   Book: crates/hft-book/src/lib.rs. Book/Levels is `LevelIndex`, Book/Location the packing of an
--     `OrderLocation` in `OrderIndex`, Book/Index the rest of `OrderIndex`, Book/Fifo the linked list
--     `PriceLevel`, Book/Plan the bounded `MatchPlan`, Book/OrderBook the `OrderBook` with its two sides.
--     Book/OrderBook/Match is `build_plan` (its two loops are walk_levels and walk_orders, the end of it is
--     conclude), and the modules below it hold the proofs: each step of the loops, the conservation of
--     quantity, price-time priority against a list of queues, and that planning ends.
--     Book/OrderBook/Change is `apply_plan`, `submit`, `cancel` and `replace`.
--     Book/OrderBook/Sides has the soundness of the two directories, with their pools of level slots, under
--     every method. Book/OrderBook/Holds says which queues the sides hold, the index's handles and the
--     links left aside, and what each step of `apply_plan` makes of them; Change/Settles puts it together
--     for `submit`.
--   Spsc: crates/hft-spsc/src/lib.rs, `SpscQueue`, with `push_impl`, `pop_impl` and `into_inner` as functions.
--     Spsc/Steps has the same code as steps, one for each load, store and access to a slot, of a producer
--     and a consumer that interleave; Spsc/Invariant, Producing and Consuming hold the invariant,
--     Spsc/Window which slots are initialised, Spsc/Interleaved what follows for every interleaving, and
--     Spsc/Push, Pop and Drain relate the functions to the steps.
--   Gateway: crates/hft-gateway/src/lib.rs, `Gateway`: process_frame, process_command and the three handlers,
--     on the models of the wire, the risk engine and the book.
--
-- Bounds and fuel. Numbers are natural numbers; checked arithmetic of a machine type is a test of the
-- result against the type's bound, and `+=` and `-=` wrap around, as they do in the release build.
-- The nested planes of the probe index are one list of slots. Its loops run for as many rounds as
-- the index has slots, which is the source's bound for insertion and lookup; the back shift has no
-- bound in the source, and after that many rounds each slot has been a candidate; an index without an
-- empty slot, on which the source does not end, is not one that the program makes. The walk through
-- a price level has one round for each slot, and that of a plan one more: a walk that has not ended by
-- then gives the outcome `diverged`. An `expect` that fails gives the outcome `panic`. The loop of
-- `into_inner` runs for the distance from the head to the tail. A load with Acquire gives any position that
-- the other endpoint has published since the one last seen, in the order of the stores; the positions wrap
-- around at 2^64. Array lengths, const generics in the source, are the
-- lengths of the lists. A read out of bounds, which would panic, gives a default where it is
-- written so in the file.
--
-- Not modelled: the export, the restoration and the digest of the book, of the risk engine
-- and of the gateway, frame reassembly,
-- routing, the event log, journal, recovery, replay, the reference model, and the programs around them
-- (command line, benchmarks, soak tests, foreign bindings); the formatting of errors.
pub mod Prelude
pub mod Types
pub mod Session
pub mod Wire
pub mod Risk
pub mod Book
pub mod Spsc
pub mod Gateway
