-- ===== src/Lib.antt =====
-- Watchtower turns a stream of contact-center events into alerts and notification records. This
-- library models the deterministic reducers at its core, written in Go under internal/, and proves
-- what they promise.
--
-- The program's parts, in the order in which a replay passes through them: the projection of events
-- to the live state of subjects, the evaluation of rules against that state, the condition reducer
-- (trigger and clear durations, episodes), the alert reducer (series and generations), the planner
-- of notification intents, and the delivery reducer (claims, attempts). PostgreSQL stores and a web
-- interface wrap the same reducers.
--
-- Which file models what:
--
-- Base            helpers: tests on numbers, lists, signed integers, byte strings, maps as
--                 association lists, instants, `sort.Slice` with a strict total order
-- Ids             canonicalParts and stableID, which internal/conditions/conditions.go,
--                 internal/alerts/alerts.go and internal/notifications/notifications.go each declare
-- Conditions      internal/conditions/conditions.go: Enums and Types are its data, Timers the
--                 canonical order (timers), Reducer the operations New, Apply, Advance, Fire, start,
--                 commit; the other children hold proofs
-- Alerts          internal/alerts/alerts.go: Types, and in Reducer the operations ApplyStart,
--                 ApplyClear, ApplyEpisode; the other children hold proofs
-- Notifications   internal/notifications/notifications.go: Planner (Plan, PlanTransition, IntentID)
--                 and Delivery (Ensure, Begin, Complete, Fail); the other children hold proofs
-- Events          internal/events/events.go: Types, Timestamps (strictTimestamp), Fields (walkJSON, str,
--                 uint and the other readers), Decode (Decode), Lines (splitPhysicalLine) and Stream
--                 (Stream); the other children hold proofs, with the encoding that they speak of
-- App             internal/app/contracts.go: Occurrence (AcceptedOccurrence and Validate), Request
--                 (NewEvaluationRequest, NewEvaluationResult) and Commit (NewSemanticCommit,
--                 uniqueIDs)
-- Projections     internal/projections/projections.go: Types, Live (newer, buildQueue,
--                 buildAgentState, buildAdherence) and Builder (Build, duplicate); the other
--                 children hold proofs
-- Rules           internal/rules: Types and Catalog (types.go), Validate and Definition (validate.go),
--                 Compile (Compile, canonicalIDs, HasTarget of compile.go), Evaluate (evaluate.go, and
--                 flatten of compile.go), Duration (ParseDuration, canonicalDurationString), Wire (the
--                 JSON form: Encode, Decode and Definitions for json.go and decode.go); the other
--                 children hold proofs
-- Json            trees of encoding/json and the integers that strconv reads, as far as they are used
-- Evaluation      internal/evaluation/runtime.go: Types, Activate (Activate), Clock (Advance,
--                 nextDue), Observe (Evaluate, validateRequest), Apply (Apply, validateResult); the
--                 other children hold proofs
--
-- Conventions. A method with a pointer receiver becomes a function from the reducer to the reducer
-- after the call and the results. A Go map is an association list with one entry for each key
-- (Base.Assoc), and a missing key reads as the zero value where the Go code reads it so. A uint8
-- enumeration has the source's constants and a constructor `other` for the values that name none; the
-- phases of a condition and the results of a predicate, which only the code itself makes, have the
-- constants only.
-- Generations, sequence numbers and attempt numbers are uint64 and wrap (`inc_u64`). Revisions and
-- durations are signed integers. A time is a count of nanoseconds (Base.Time) without a location,
-- which the code never reads, and adding a duration to it does not wrap. A mutex that a method holds
-- for its whole body makes the call one step.
--
-- Bounds. The loop of Advance runs on fuel, one round for each tracker: a round commits a pending
-- timer, and a commit leaves its tracker without one, so that Conditions.Settling finds no due timer
-- left. The loop of the runtime's Advance has one round for each pending timer of all rules: a round
-- takes one away, and Evaluation.Merge finds no due timer left. Decimal formatting of n has fuel
-- n + 1, more than the digits of n.
--
-- Not modelled: PostgreSQL storage, the web interface and the command line, which are input and
-- output around the reducers; the text level of JSON, which encoding/json reads and writes: decoding
-- starts from a tree whose fields stand in the order of the text, names are matched without regard to
-- the case of ASCII letters, invalid UTF-8 and the two letters outside ASCII that fold to k and s are
-- left out, and so is what a decoder leaves in a slice that a repeated field fills twice; time.Parse,
-- which is a parameter, like the text that encoding/json writes and the reading of a line as one JSON
-- value; accessors that return copies of a reducer's maps, sorted where the order
-- matters.
pub mod Alerts
pub mod App
pub mod Base
pub mod Conditions
pub mod Evaluation
pub mod Events
pub mod Ids
pub mod Json
pub mod Notifications
pub mod Projections
pub mod Rules
