-- ===== src/Lib.antt =====
-- nrdot-host: a host telemetry collector with its supervisor, its API server and its processors.
--
-- Parts that are modelled, with paths from the root of the repository:
--
-- * Cap, the processor nrcap (processors/nrcap), which bounds the number of label combinations of the
--   metrics that pass. Cap.Config is config.go, Cap.Tracker and Cap.Hash are tracker.go, Cap.Limiter is
--   limiter.go: Labels for the methods on labels, Strategies for the four strategies, Process for
--   ProcessMetrics as a whole. Cap.Metric has the telemetry. Cap.Env has all that comes from outside:
--   the clock, the random source, the hash, the order in which a range visits a map, and pdata's
--   RemoveIf, whose callback sees the slice as it stands. A panic is the result `none`.
-- * Restart, the restart strategies (nrdot-supervisor/pkg/restart) and what the supervisor does with
--   them (Restart.Supervisor for nrdot-supervisor/supervisor.go, startCollector and
--   handleCollectorFailure). What happens to the collector is an argument.
-- * RateLimit, the token buckets of the API server (nrdot-api-server/pkg/middleware/ratelimit.go).
-- * Auth, the store of API tokens and its middleware (nrdot-common/pkg/auth/store.go), and Jwt, the
--   signed tokens and theirs (nrdot-common/pkg/auth/jwt.go), with the library golang-jwt as a parameter.
-- * Security, the processor nrsecurity (processors/nrsecurity), which redacts attributes: Security.Config
--   is config.go, Security.Patterns patterns.go, Security.Redactor redactor.go, and Security.Processor
--   processor.go. Security.Value has the attributes. The package regexp and
--   strings.ToLower are parameters. Security.Rules says what is sensitive, without the code's tests.
-- * Engine, the configuration engine (nrdot-config-engine/engine_v2.go), with its history of versions,
--   and the hooks (Engine.Hooks for nrdot-config-engine/pkg/hooks/hook.go). The validator, the generator,
--   the YAML encoder and the hash are parameters. ApplyConfig takes the lock twice; it is one step here.
-- * Unified, the supervisor that holds the engine and the collector (nrdot-supervisor/supervisor_v2.go).
--   Unified.Process is the collector's process (nrdot-supervisor/collector.go), with the children of the
--   supervisor's process as the operating system has them: one that has ended stays until it is waited
--   for, and the end of the context that it was started with kills it. Unified.Reload is
--   nrdot-supervisor/reload_strategy.go and the requests. What the files, the process and the clock do is
--   an argument of each call, and calls are made one after the other.
-- * Transform, the processor nrtransform (processors/nrtransform), which adds metrics calculated from
--   others: Transform.Config is config.go, Transform.Calculator and Transform.Aggregation are
--   calculator.go, Transform.Transformer and Transform.Scope are transformer.go and processor.go, and
--   Transform.Metric has the telemetry. Floating-point numbers and the expressions are parameters.
-- * Manager, the first version of the configuration engine with its manager
--   (nrdot-config-engine/engine.go, manager.go, and handleFileChange of watcher.go): Manager.History is
--   about the history of versions. The schema validator, the generator, the files and the clock are
--   parameters.
-- * Enrich, the processor nrenrich (processors/nrenrich), which adds metadata to telemetry: enricher.go
--   and the part of config.go that it reads. Enrich.Attributes is about the attributes, Enrich.Cache about
--   the metadata and its age. What the providers answer is an argument of each call.
--
-- A Go method `DoThis` is the function `do_this`, from its arguments and the state to the new state and
-- its results. Methods that hold a lock from start to end are one step. Strings are lists of bytes, maps
-- are association lists, in the order in which a range visits them where it matters, and times and
-- durations are numbers of nanoseconds. The five kinds of data points of OpenTelemetry share one type,
-- so the copies of a loop for each kind are one function. Counters are not bounded: they count entries
-- in memory.
--
-- All loops are structural, but for the two sorts of tracker.go. Their rounds are counted by the
-- number of elements, as in the source, and both sorts are proved with that number.
--
-- The modules below a part that are not named above are proofs, and are named for what they prove.
-- Common has the shared types, maps (Common.Dict) and lemmas. Tests has the theorems at
-- concrete inputs.
--
-- Not modelled: the schema validators and the generators of configurations
-- (nrdot-config-engine/internal, nrdot-schema, nrdot-template-lib), which evaluate a JSON schema and
-- text templates with libraries and are parameters of both versions of the configuration engine; logging
-- and metrics of the program about itself, the select loop and the signals of the first supervisor,
-- timers, the HTTP server, requests to the supervisor at the same time, and all other components: the
-- shells of the processors, the watcher of configuration files but for what a change does,
-- autoconfiguration, discovery, the privileged helper and the command-line tools, much of which is input
-- and output or text templates.
pub mod Common
pub mod Cap
pub mod Restart
pub mod RateLimit
pub mod Auth
pub mod Security
pub mod Engine
pub mod Enrich
pub mod Manager
pub mod Unified
pub mod Transform
pub mod Jwt
mod Tests
