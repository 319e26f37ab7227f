-- ===== src/Lib.antt =====
-- Caelix: the core of the framework, which is its module system and provider lifecycle, and the
-- message transports of its microservices.
--
-- An application is a tree of modules. Each declares providers with their dependencies, controllers,
-- gateways, microservices, event handlers and exports. `preflight` validates the discovered graph and
-- returns the construction order; `initialize_graph` builds the providers in that order into the
-- container, with overrides in place of declared providers; `bootstrap_graph` runs the second hooks;
-- `shutdown_module` and the rollback of a failed start run the shutdown hooks.
--
-- The files, and what they model (paths from the root of the repository):
--   Prelude      lists, text and Boolean tests over native numbers
--   Errors       crates/caelix-core/src/exception.rs: exceptions, one `Message` for each text, results
--   Container    crates/caelix-core/src/container.rs: services, overrides, dependency scopes
--   Metadata     crates/caelix-core/src/module.rs: what a module declares, with its builders
--   Subjects     module.rs: `valid_microservice_pattern`, `microservice_patterns_intersect`
--   Discovery    module.rs: `discover_from`, which finds the modules that the root imports and puts
--                imports first
--   Graph        module.rs: `ModuleGraph`, `definitions`, `def`, `local_types`, `def_by_type`
--   Visibility   module.rs: the checks of `preflight` on types, exports, dependencies and handlers
--   Owners       module.rs: the checks of `preflight` on message subjects
--   Schedule     module.rs: `schedule`, the depth-first walk over dependencies
--   Preflight    module.rs: `preflight`; Preflight/Dispatch is on the handlers that transports look up
--   Lifecycle    module.rs: `initialize_graph`, `bootstrap_graph`, `rollback_graph`, `shutdown_module`
--   Startup      module.rs: `build_container_with_overrides`, `build_container_with_setup`,
--                `validate_module`
--   Throttle     crates/caelix-core/src/throttle.rs: `MemoryThrottleStore`, which counts requests of a
--                key in fixed windows, and `Throttle::check` on it; it stands alone
--   Cache        crates/caelix-core/src/cache.rs: `MemoryCacheStore`, which stands alone too
--   Maps         maps with text keys, which these two share
--   Messages     crates/caelix-microservices/src/lib.rs: envelopes, errors, subject tests and task
--                results, which the transports share, with the policy for events that failed;
--                Messages/Effects has the steps with effects in which both are written
--   Redis        crates/caelix-microservices/src/redis_transport.rs: options and names;
--                Redis/Broker the processing of stream entries, in Commands and Events;
--                Redis/Consumer the loops; Redis/Client requests and emitted events;
--                Redis/Runtime the start and the end of a run
--   Nats         crates/caelix-microservices/src/lib.rs: options and headers; Nats/Commands and
--                Nats/Events the processing of messages; Nats/Runtime `MicroserviceRuntime`
--
-- A `TypeId` is a number, a value behind `Arc<dyn Any>` its type and an identity. User code, which
-- is constructors, factories and hooks, is a function in a `ProviderDef`. The lifecycle changes a
-- `World`: the container, the handlers on the event bus, and a trace of the calls of user code. A
-- result is `done` or `fail`, or `panicked` for an index out of bounds and for a panic of user code,
-- either of which ends the whole run as unwinding does,
-- or `out_of_fuel`. The fuel of `schedule` is one more than the number of registrations, and that of
-- `order` in `discover_from` the number of modules found; `discover_from` takes the fuel of its walk,
-- for which any number beyond that of the module types is enough, since a walk enters a type once.
--
-- A transport acts on a broker, which is not its code: an `Environment` has the broker's answer to each
-- command, the clock, the heartbeats that come due, the handlers and the serializer, each as a function
-- of the effects so far, and a step adds its effects to that history. A handler returns. The loops run
-- on lists of what happens outside in each iteration. Dropping a request at its time limit, and the
-- cancellation token that handlers see, are left out.
--
-- Not modelled: the consumer loops and the client of NATS, how clients connect, the event bus behind
-- its table of handlers, configuration, timing and logging, poisoned locks, the other parts of the
-- framework (HTTP and Socket.IO runtimes, OpenAPI documents, macros, CLI).
mod Prelude
mod Maps
pub mod Errors
pub mod Container
pub mod Metadata
pub mod Messages
pub mod Redis
pub mod Nats
pub mod Subjects
pub mod Graph
pub mod Visibility
pub mod Owners
pub mod Schedule
pub mod Discovery
pub mod Preflight
pub mod Lifecycle
pub mod Startup
pub mod Throttle
pub mod Cache
mod Tests
