-- ===== src/Lib.antt =====
-- The gateway of an LLM inference server: HTTP routes behind API keys that pass chat requests on to
-- vLLM, with limits kept in Redis, batch jobs run by workers, an audit of each request and a pipeline
-- of analytics.
--
-- The parts, and the files that model them (paths of the sources from the root of the repository):
--
-- - Common, Text, Json: Boolean tests, lists, dictionaries in order of insertion and the signed,
--   unbounded integers of Python; the methods of `str` that are used; JSON values.
-- - Errors: `AppError` (backend/core/errors.py), and a call that may raise as a function from a state
--   to a result and a state. What was written before a raise stays written. Errors.Ends has a rule
--   for each way to build a call; Errors.Parts runs a call on one of two states; Errors.Keeps is about
--   invariants; Errors.Object is the error object of the API.
-- - Redis: the protocol of backend/db/redis.py as an interface over an unknown state, with what the
--   commands are documented to do as laws; a command may also fail. Redis.Memory keeps the laws.
-- - Auth: the context of a caller and the models it may use, Auth.Keys, the state of a key, and
--   Auth.Create, its creation, are backend/services/auth/api_key_service.py with password_hashing.py
--   beside it; Auth.Middleware is backend/middlewares/auth.py.
-- - RateLimit: backend/services/rate_limit. Limiter is rate_limiter.py, Concurrency is
--   concurrency_limiter.py, Quota is quota_reserver.py and Admission is admission.py, which calls the
--   three in turn and hands out a lease.
-- - Batch: backend/services/batch. Status, Job, Store and Service are batch_service.py, Queue is
--   batch_queue.py, Scanner is recovery_scanner.py and Worker is batch_worker.py. The store and the
--   queue are interfaces with laws, over two states that a service holds as a pair; Store.Memory and
--   Queue.Memory are the implementations for tests and Queue.RedisQueue the one on Redis, with proofs
--   of the laws. Batch.Contract is what a store promises as an owner sees the jobs: Contract.Replay runs
--   operations on the jobs alone, Contract.Records and Batch.Postgres are two stores that keep it. In
--   Batch.Postgres, Row is backend/models/batch_job.py, Repository is
--   backend/repositories/batch_job_repository.py and Store is the store in batch_service.py, over a
--   database that is an interface with laws; Seen and Writes are what its rows and writes mean.
--   Worker.Drain has the loop of backend/workers/batch_worker.py for a number of rounds.
-- - Config: the models of backend/core/config.py, and backend/api/routes/models.py with
--   backend/schemas/model.py, which list them.
-- - Inference: Chat is backend/schemas/chat_completion.py, Tokens is
--   backend/services/inference/token_accounting.py and Audit is request_lifecycle.py beside it. In
--   Inference.Audit, Row is backend/models/request_audit.py, Service is usage_finalizer.py with
--   backend/repositories/request_audit_repository.py, over a database that is an interface, and
--   Written has the laws of the database and what the service writes. Ports collects what the
--   route and the worker call, with laws that count the calls of `admit` and `release`.
-- - Analytics: backend/services/analytics. Event is event_models.py, Collector is event_collector.py and
--   Flusher is clickhouse_flusher.py, over a client of ClickHouse that is an interface with a law; its
--   loop is a list of rounds, with the events that arrive in the pause after each.
-- - Vllm: backend/services/vllm. Stream is stream.py, a generator as the list of what it yields; Client
--   is client.py with errors.py, over a client of HTTP that is an interface; Runtime is runtime.py, whose
--   wait backend/scripts/wait_for_http.py repeats.
-- - Observability: backend/services/observability. Metrics is metrics.py, over an interface of
--   Prometheus. Sentry is sentry.py: Patterns has its three regular expressions and `re.sub`, Scrub what
--   is taken out of an event, Capture the reports, over an interface of Sentry.
-- - Middlewares: RequestId and ErrorHandler are backend/middlewares/request_id.py and error_handler.py,
--   and Stack puts the middlewares in the order of backend/main.py.
-- - Routes: ChatCompletions is `create_chat_completion`, and ChatStream is `_stream_response`, of
--   backend/api/routes/chat_completions.py, and BatchJobs is batch_jobs.py beside it.
--
-- A function keeps the name of the method that it models, and stands in the module of its class. A
-- mutable object of Python, such as a lease, is a value that a method returns as it is left, or a
-- handle into the state where a client only passes it on. Loops are recursion on the list that is
-- walked or on the attempts that are left. Fuel is used twice: for the digits of a number, where one
-- more than the number is enough, and for the rounds of a wait, where each takes at least a microsecond,
-- so that one more than the microseconds to wait are enough. Calls run one after the other: what
-- two tasks do between two awaits is outside the model.
--
-- Not modelled: the SQL of the repositories and the migration; the helpers of the tests that are
-- beside the services, but for the stores, queues and Redis in memory; the HTTP layer of FastAPI;
-- logging; the other settings and the start-up; the entry points of the workers and the scripts,
-- which are input and output. Of pydantic, the validation and the dumps of requests are
-- parameters, as are SHA-256, random tokens, `json.loads`, identifiers, clocks and the test of
-- `\w` outside ASCII. A float of JSON is known by its integer part and its truth value. Parsing an
-- integer from a text covers the digits of ASCII, and lower case its letters.
pub mod Common
pub mod Errors
pub mod Text
pub mod Json
pub mod Redis
pub mod Config
pub mod Auth
pub mod RateLimit
pub mod Batch
pub mod Inference
pub mod Analytics
pub mod Routes
pub mod Vllm
pub mod Observability
pub mod Middlewares
