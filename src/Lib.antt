-- ===== src/Lib.antt =====
-- A model of the TypeScript SDK of DFSM, in sdks/typescript/src: durable state machines whose
-- transitions run user code under retry, circuit breaking and compensation, and whose transactions
-- are rows of a store.
--
-- A machine definition is checked and completed once (definition/ir.ts). For an event, the engine
-- (engine/statechart.ts) finds the active states that handle it and computes the next value; the
-- transition's function runs in a pipeline (policy/pipeline.ts) of context validation
-- (validation.ts), a retry loop with backoff (policy/retry.ts), a circuit breaker shared by key
-- (policy/circuit-breaker.ts) and a fallback, under a policy merged of four layers
-- (policy/merger.ts). A store (store/sqlite-store.ts or store/mongodb-store.ts, behind the
-- interface of store/store.ts) keeps transactions with a version, and the stack of their
-- compensations. The actor (runtime/actor.ts) drives all of it for one machine: it starts
-- transactions, runs events, unwinds compensations after a failure, calls effects, which may call
-- back into it, and recovers what is stuck.
--
--   Errors               errors.ts: `Thrown` has a constructor for each class; `Exec` is a call that
--                        changes a state and may throw
--   Validation           validation.ts
--   Policy               the policies of types.ts; children Merger, Backoff and Retry, Breaker with
--                        its Manager, and Pipeline, one to a file of policy/
--   Machine              the machine of definition/ir.ts and the resolution of targets; StateValue of
--                        types.ts; Finalize is `finalizeAndValidateMachineIR`
--   Engine               engine/statechart.ts: Enter (`enterSubtree`, `resolveInitialState`), Leaves
--                        (`getActiveLeafPaths`, exit effects), Match (`resolveTransitionsForEvent`),
--                        Apply (`applyTargetTransition`), Done (`findPendingOnDone`), Status
--   Store                the records of types.ts and store/store.ts; Contract is the interface
--                        `StateStore`; Sqlite is store/sqlite-store.ts, on two tables, and Mongo is
--                        store/mongodb-store.ts, on a collection of documents
--   Runtime              runtime/actor.ts: World is the actor's state, Compensation
--                        `unwindCompensationStack`, Effects `invokeSingleEffect`, Step and Cascade
--                        the loops of `executeTransitionOnSnapshot`, Transition the rest of it, Entry
--                        `transition` with `ensureReady`, Start `startTransaction`, Recovery the
--                        sweep, CleanUp `forceCleanUp`, Introspection the queries, Lifecycle
--                        `initialize` and the scheduler, Bindings `compileMachineBindings` with the
--                        lookups of runtime/registry.ts in Registry
--   Prelude              lists, texts with dot paths, objects as association lists
--   Examples             runs at concrete inputs
--
-- Functions keep their names, in snake_case. An object from names to values is a list in insertion
-- order. Times and counts are natural numbers without bound; a multiplier, a delay before rounding
-- and a random draw are exact fractions, where the source has floating-point numbers. The clock,
-- the random source, `sleep`, the user's functions, the schema library and the JSON values are
-- parameters. The methods of `SqliteStore` are functions on the rows of its two tables, each SQL
-- statement with the schema's primary key and cascade; those of `MongoStateStore` are functions on
-- documents, with `findOne` and `updateOne` as they are documented. In which order a query gives
-- rows with the same `updated_at` is open in SQLite and MongoDB, and an argument of the stores. A
-- creation, an update and a query of a store may fail; its reads of one row, marks, deletions and
-- counts do not.
--
-- An actor acts on its own fields and on a pair of the store's state and of all else that user code
-- may change; hooks, compensations and transition functions are actions on that pair, so that a
-- hook that calls its own actor is not covered. An effect's function is a program of such actions,
-- calls of `runEffect` and calls of `actor.transition` on its own transaction. Calls on the same
-- actor run one after another.
--
-- Every loop recurs on its data but three. The retry loop recurs on the rounds that it has left and
-- begins with `max(1, maxAttempts)` of them, one for each attempt that the source may make. The
-- cascade of `onDone` has the source's 20 rounds. Nested effects recur on the levels left, from
-- `maxEffectChainDepth` of them, the number that the source's guard allows. An awaited call splits
-- `execute` of the breaker, so that other calls may run between its stretches.
--
-- An actor that is not initialized yet initializes itself in `ensureReady`, with its first sweep:
-- that sweep runs on an actor that counts as initialized, so its effects initialize nothing again.
--
-- Not modelled: the defaults of the actor's constructor and its reports on the configuration, the
-- registry but for its lookups, the parser and the builder of definitions, the decorators, the
-- PostgreSQL store, and the SDKs in other languages.
pub mod Prelude
pub mod Errors
pub mod Validation
pub mod Policy
pub mod Machine
pub mod Engine
pub mod Store
pub mod Runtime
pub mod Examples
