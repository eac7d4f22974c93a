-- ===== src/Lib.antt =====
-- Lunaship is a Go framework for services: a service is started from a configuration file, by
-- modules that are run in the order of their dependencies, and gets logging, profiling, tracing,
-- Redis, MySQL and Kafka from it. The files here model the parts that carry the framework's own
-- logic.
--
-- ModuleApi (module/api.go): Sort and Execute. ModuleApi/Names has the interface Module and
--   normalizeDependencies, ModuleApi/Graph the first two loops of Sort, ModuleApi/Kahn its last
--   loop, ModuleApi/Execute the function Execute. A Go map from names is a list of nodes that is
--   searched; the fields of a node that change are functions of the node's name; an Init function
--   is a function on a state that may fail. The loop of Sort has one round for each node and one
--   for the end: each round takes a node from the ready ones, and a node is made ready once.
-- ConfigParse (configparse/helpers.go): the list of problems, the checks that add to it, LookupPath
--   in ConfigParse/Lookup, OrderedKeys in ConfigParse/Keys.
-- Config (config/app_section.go, config/config.go, config/errors.go, mysql/app_config.go,
--   redis/config.go, kafka/config.go): the sections, their Normalize and Validate methods, and in
--   Config/Load the functions Load and LoadFromBytes, in Config/Custom the custom sections and the
--   global configuration. The TOML parser, mapstructure's Decode, the
--   file system, float64 and Unicode's lower case are parameters.
-- Infra (infra/pprof.go, infra/trace.go, infra/mask.go, infra/jwt.go, infra/metric.go,
--   infra/recover.go): Infra/Pprof has the manager's
--   state, Infra/Pprof/Start and Infra/Pprof/Stop its operations with the answers of the operating
--   system as arguments, Infra/Pprof/Handlers the HTTP handlers,
--   Infra/Pprof/Serve their registration and requests in sequence, Infra/Pprof/Race the steps of
--   overlapping calls: the compare-and-swap is one step, the body under the mutex another.
--   Infra/Tracing reads the configuration of the tracing from the environment, Infra/Tracing/Export
--   has the sampler and the exporter's options, Infra/Tracing/Init the functions that set the
--   globals; Infra/Mask is the masking of secrets, Infra/Server the server of the metrics and the
--   answer to a panic.
-- Trace (trace/trace.go): the package trace, whose text is that of infra/trace.go, as the functions
--   of Infra/Tracing on its own globals.
-- Redis (redis/lua.go, redis/hook.go, redis/redis.go): Redis/Lua is the script executor, a call
--   being one step, Redis/Lua/Concurrent the steps of calls and reloads that overlap, as its locks
--   allow it, with a call that nothing overlaps in Redis/Lua/Concurrent/Alone,
--   Redis/Hook the span and the log line of a command, Redis/Pipeline those of a pipeline and the addresses,
--   Redis/Client the global client behind its sync.Once; the redis client is a parameter.
-- Mysql (mysql/mysql.go, mysql/mysql_logger.go): the global database behind its sync.Once, and in
--   Mysql/Logger the logger of the statements; gorm is a parameter.
-- Kafka (kafka/instrumentation.go, kafka/metrics.go, kafka/producer.go, kafka/consumer.go):
--   Kafka/Headers are the header carriers, Kafka/Metadata and Kafka/Metrics what is recorded of a
--   message, Kafka/Instrumentation the start and the end of its span, Kafka/Producer and
--   Kafka/Consumer the producer and the handlers, Kafka/Producer/Race a Publish that a Close
--   overlaps, and Kafka/Group the consumer's Start: its
--   goroutine, its caller and the consumer group are interleaved as steps, and consumer.ready is
--   known by the number of channels made before it; Kafka/Group/Session is Setup,
--   Kafka/Group/Ends how Start ends, and
--   Kafka/Metrics/Collectors the collectors with their registration. The sarama client is a parameter.
-- Interceptor (interceptor/*.go, infra/jwt.go): Interceptor/Calls has the trace, metrics and log
--   wrappers, Interceptor/Calls/Stack puts them around a method, Interceptor/RateLimit refuses
--   calls, Interceptor/Counter is what is printed of the counters, and
--   Interceptor/Counter/Concurrent the increments of calls that run at once,
--   Interceptor/Counter/Served the wrappers that count a call. A call is a function
--   of its context, its request and the process, which it changes.
-- Log (log/required_fields_core.go, log/context.go, log/log.go): the fields of log entries, the
--   identity of the application, the trace that a context carries, and in Log/Levels and
--   Log/Setup the outputs that InitLog makes. zap is a parameter.
-- Service (service/setup.go): Service/Bootstrap has the modules that Run starts, which are values of
--   ModuleApi's Module; they load the configuration by Config's load, choose instances by
--   Service/Instance, and compute the settings of the libraries in Service/Settings.
--   Service/Clients starts Redis and Mysql on an instance, Service/Run is serve with the deferred
--   calls of Run. The libraries are parameters; Service/Wired fills those of this repository with the
--   models of their packages, so that what remains is the collector, Redis, the database and the
--   files.
-- Example (example/logs/dummy_service.go, example/logs/spot_model.go): the demonstration service.
-- Telemetry has what Kafka, Redis, Mysql and the interceptors hand to OpenTelemetry and zap. Utils
--   (utils/*.go) has the chains and retries, whose loop has one round for each retry.
-- Base has the shared types and lemmas, and Go's functions on strings, numbers and addresses. A
--   string is a text of Unicode characters, that is, a Go string that holds valid UTF-8.
--
-- Not modelled: what the HTTP servers do with a request other than the profiler's, and how a
-- goroutine is started, which are the runtime's; the registration of the counter of trace errors; and
-- the generated code and the set-up of the example.
pub mod Base
pub mod ModuleApi
pub mod Infra
pub mod ConfigParse
pub mod Config
pub mod Redis
pub mod Log
pub mod Service
pub mod Telemetry
pub mod Utils
pub mod Kafka
pub mod Interceptor
pub mod Mysql
pub mod Example
pub mod Trace
