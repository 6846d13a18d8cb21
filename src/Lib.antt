-- ===== src/Lib.antt =====
-- Verification of the AI arena: matches between AI players under a game master, played over a
-- JSON-RPC session per player, and the service that queues the runs of those matches.
--
-- The parts and the files that model them (paths from the root of the repository):
-- - Prelude, Json: what the other modules share. Lists, tests and integers over the native numbers,
--   Go maps as association lists, strings.TrimSpace, and the decoding of encoding/json on values
--   that are already parsed.
-- - Contract: gamemaster/types.go, the types that the platform and the games exchange;
--   Contract/Check: ValidateActionStatus.
-- - Protocol: gamemaster/protocol.go, the JSON-RPC envelopes, their validation and decoding;
--   Protocol/Wire: how the encoder writes them, and the proofs.
-- - Session: internal/platform/session/session.go. `call` is Session.call: it builds and sends the
--   request and then takes what its select receives, one event at a time, until it returns. The
--   state is the set of late request ids. Session/Calls and Session/Late hold the proofs.
-- - Standings: orders, sorting and places with ties, for the results of the games. Sorting is by
--   insertion; the orders of the games are total, so that every sort gives the same list. The entries
--   of a ranking are sorted by their trimmed bot ids: where two coincide, sort.Slice may give another
--   order than the model from 13 entries on, since it is insertion sort only up to 12.
-- - Janken: internal/games/janken/janken.go. Data has the state (Master) and New, Views what the
--   players and the snapshots see, Rules the winner of a round, Master the steps NextStep,
--   NormalizeAction and ApplyStep, Placing the Result. ApplyStep is `apply_step`, made of the
--   loop over the statuses (`tally_statuses`), the merge of the outcomes and the loop over the players (`settle`).
--   Outcomes, Tallying, Rounds, RoundResult, Matches, Places and Normal hold the proofs.
-- - Service: internal/platform/service. Records and Submissions are types.go with
--   ValidateTransition and ValidateSubmission; Store is the InMemoryQueueStore of store_memory.go,
--   one function per method, from the store before to the result and the store after. Soundness,
--   Preservation, Evolution, Lifecycle, Claims, Promotion and Recovery hold the proofs.
--   Worker is ProcessNext of worker.go, with the proofs in Quiet and Working; Commands is command.go
--   and run_commands.go, with the proofs in FollowUps; Ranking and RankingUpdates are ranking.go,
--   with the proofs in RankingOrder, RankingCounts and RankingOnce.
-- - Echo: internal/games/echo/echo.go. Data has the Config, the rulesets and New, Steps the methods
--   NextStep, NormalizeAction, ApplyStep and Result, Snapshots what the players, the exports and the
--   snapshots see and the loops that load them back, Replays NewFromSnapshot, applySnapshot and
--   SnapshotFromHistory. History, Restoring, Expected, Places and Normal hold the proofs.
-- - Json/Numbers: the decoding of int fields that the echo game needs.
-- - Match: internal/platform/match/match.go and the payloads of
--   internal/platform/contract/payloads.go; TerminalError is that of
--   internal/platform/artifacts/artifacts.go. Payloads has the payloads; World has the Runner and
--   what it calls, the game master, the sessions, the context and the observer, each a function of a
--   world that it changes, with the monad of the runner's errors; Events has appendEvent,
--   Turns the simultaneous and the sequential step with the events of their
--   turns, Running the initialization of the sessions and the decision loop, Finishing the shutdown
--   and the final capture, Runs the constructors, the record and Run. Hosted is the
--   session in the process of the master that
--   internal/platform/gamemaster/gamemaster.go keeps, and JankenRuns runs Janken through it. Traces,
--   StepTraces, EndTraces, RunTraces, Endings, Ends, Calm, CalmSteps and Progress hold the proofs;
--   Tellings and StepTellings have those on what the log tells a replay of the echo game.
--
-- The runner asks the game master for steps, has the players answer through their sessions, and
-- applies the statuses that the game master normalizes, recording each as an event, from which a
-- game rebuilds its state; a worker claims from the queue store the run of such a match and updates
-- its record until it is terminal.
--
-- Modelling. The methods of the queue store hold its mutex, so each is one step, and any
-- interleaving of callers is a list of operations. Clones are the values themselves. Time is a
-- number of nanoseconds and is given to each operation that reads the clock; a worker is given the
-- time of each of its calls of the queue store. Durations are numbers of nanoseconds too. Counters that start at
-- zero and grow by one are natural numbers. Loops are structural recursion, over the events of a
-- call, the statuses and players of a round, or the order of the queue. The loop of Run over the
-- steps of the match takes fuel, and one more than the number of rounds that the master has left is
-- enough. Numbers are written with at most 20 digits, which covers every int. The calls that a
-- simultaneous step makes in goroutines are one call, whose answers stand at the players' indices as
-- in the source. A nil slice is the empty one.
--
-- Not modelled: the processes and WASI hosts that run the players, HTTP and authentication, the
-- PostgreSQL and object stores, and the programs under cmd, which are input and output; of the rest,
-- the registry, the replay of session histories, bot ownership, match requests, the loop around a
-- worker, the snapshots of Janken that are loaded back, and the game masters behind JSON-RPC. The
-- clock and its deadlines, the hash that orders a shuffle, the quoting of strconv, the parsing of
-- durations and the texts of the errors of encoding/json are arguments. The runner and the
-- persister of a worker, and the ranking that it calls, are arguments. What others do to the queue
-- store while a worker runs a match is a list of operations, its own heartbeats among them.
pub mod Prelude
pub mod Json
pub mod Contract
pub mod Protocol
pub mod Standings
pub mod Session
pub mod Janken
pub mod Echo
pub mod Match
pub mod Service
