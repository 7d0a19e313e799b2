-- ===== src/Lib.antt =====
-- A verification library for agentpause, a Python library that lets an agent stop before it runs
-- into a rate limit. It models the parts that decide, wait, retry and remember, and the adapters
-- that read the limits of a provider or of a local model, with their state, and proves what each
-- promises.
--
-- The parts, and the files that model them:
--   Risk         src/agentpause/risk.py: telemetry readings (`Budget`), the rule `decide`, the wait
--                until the window has refilled, the risk score.
--   Scheduler    src/agentpause/scheduler.py: sessions. Scheduler has the retry loop of `call` and
--                `acall`, Loop its `while True`, Planning the decision before a call
--                (`next_action`) with preventive compaction, money and the deadline of the run, Resume
--                opening, suspending and completing a session.
--   Estimator    src/agentpause/estimator.py: the estimate, its error, the quantile bound.
--   Forecast     src/agentpause/forecast.py: the simulation of the steps that remain.
--   Coordinator  src/agentpause/coordinator.py: agents that share one window.
--   Router       src/agentpause/router.py: the provider with the most headroom.
--   Fleet        src/agentpause/fleet.py: one step of an agent, through coordinator and router.
--   Fallback     src/agentpause/fallback.py: an ordered chain of backends.
--   Breaker      src/agentpause/breaker.py: the circuit breaker.
--   Refill       src/agentpause/refill.py: how a window refills, by vote.
--   Quota        src/agentpause/tools.py: a sliding window of tool calls.
--   Attention    src/agentpause/attention.py: the questions that a person can be asked.
--   State        src/agentpause/state.py, class Checkpoint: history, compaction, summaries, keys.
--   Store        src/agentpause/state.py, class StateStore: files, forks, bundles. Store/Spec is the table
--                of checkpoints that it implements.
--   Retry        src/agentpause/retry.py: the backoff.
--   Slots        src/agentpause/llamacpp_kv.py, class LlamaCppSlots: the client of a llama.cpp server.
--                Json has the bodies that it reads.
--   KvStore      src/agentpause/llamacpp_kv.py, class KVStateStore: checkpoints with a KV cache. Save,
--                Load and Fork have its operations, KvStore itself the collectors and the disk guard.
--   Local        src/agentpause/adapters/local_resources.py: the resources of a self-hosted model as
--                telemetry. Local has the composite and the deadline, Sources the context window and the
--                GPU, Price the prices, Facade the callable that calibrates itself.
--   Compat       src/agentpause/adapters/openai_compat.py: a provider's HTTP API as backend and telemetry.
--                Header has the headers, with `_parse_reset` of adapters/litellm.py, Serving the
--                callables of a scheduler, Registry the known providers.
--   LiteLlm      src/agentpause/adapters/litellm.py: any provider of LiteLLM, with the async twins.
--   Anthropic    src/agentpause/adapters/anthropic.py: the Messages API, with breakpoints for the cache.
--   Errors       src/agentpause/errors.py: the typed errors, and which of them are transient.
-- Prelude, Number, Text and World are what the parts share. A file below a part, such as
-- Store/Saves, has the part's theorems, and Tests has runs and instances of them.
--
-- How the parts meet: the scheduler asks Risk for its decision, takes an estimator as an interface
-- (`Estimating`), shrinks a Checkpoint and saves it through Store. Coordinator and Attention hand
-- budgets to the same `decide`, Forecast uses its refill arithmetic, and Router, Fallback and Breaker
-- are backends around backends. KvStore wraps Store, and Local reads the same server and wraps the
-- save of KvStore to calibrate the budgets that `decide` sees. Anthropic extends Compat, which feeds the
-- votes of Refill and hands its reading to `decide`, as LiteLlm does. A fleet's coordinator reads its
-- telemetry from the router's `budget`.
--
-- How the code is rendered:
--   * A method takes the object and the world and returns its result, the object and the world as
--     they are afterwards. Clocks, providers, telemetry, sleeping and random numbers are functions on
--     a world of any type, so the order of the calls is part of the model (World).
--   * An exception is a value of `Result`, with the error but without its message.
--   * Python's int is `ℤ`, or the native `ℕ` where it counts. Python's float is any type with the
--     operations of `Float` (Number). What a theorem needs of it is one of these hypotheses:
--     `IsOrdered`, an order without NaN; `IsMonotone`, rounding that keeps the order; `IsExact`, no
--     rounding, which holds for floats only as long as every result is exact; `Truncates`, `int` of a
--     number is its whole part. Number/Fixed has numbers of three decimals that satisfy all of them.
--     `int` of a NaN or an infinity raises: that is modelled where a body or a header is read
--     (`int_of_real`); elsewhere `int` (`trunc`) is of a number that the library computes itself, which
--     is taken to be finite.
--   * A string is a list of code points, a dict an association list in insertion order, a deque of
--     bounded length a list that drops from the left.
--   * JSON is a codec, and what can be written can be read back is a hypothesis (`IsFaithful`). A
--     directory maps paths to contents, and a write may fail at any of its steps (`Fault`).
--   * A server is a transport that may raise, over a state of any type and the names of the files in the
--     directory that it shares with the library. Its bodies are `Json`; what Python reads in a string
--     and writes for a value is `Reading`.
--   * Callbacks are lists of the calls made so far.
--   * Objects are values. `next_action` writes the deadline of the run into the Budget that telemetry
--     returned; the model has the written value and leaves telemetry alone, as the code does if
--     telemetry returns a new object each time.
--   * Loops are structural recursion: over the retries that are left, the backends, the routes, the
--     requests or the steps. Scheduler/Loop has the `while True` of a call as it is written, on fuel;
--     the default is 3 retries, and one pass more than the retries is enough.
--
-- Not modelled: the adapter of src/agentpause/adapters for LangGraph; the regression estimator; the
-- wiring of a fleet; log texts and `str`; creating directories. The HTTP transport, the completion
-- functions of LiteLLM, the parsing of RFC 3339 instants and the reader of a GPU's memory are
-- parameters.
pub mod Prelude
pub mod Number
pub mod Errors
pub mod Risk
pub mod Text
pub mod World
pub mod Breaker
pub mod Refill
pub mod Quota
pub mod Anthropic
pub mod Attention
pub mod State
pub mod Store
pub mod Retry
pub mod Fallback
pub mod Scheduler
pub mod Forecast
pub mod Coordinator
pub mod Router
pub mod Estimator
pub mod Fleet
pub mod Json
pub mod Slots
pub mod KvStore
pub mod LiteLlm
pub mod Local
pub mod Compat
