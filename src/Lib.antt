-- ===== src/Lib.antt =====
-- A model of netp2, a reverse proxy: routing, the HTTP/1.1 codec, the circuit breaker and the rate
-- limiter, the pool of upstream connections, the metrics, the configuration snapshots, and the runtime
-- and application that put them to work, with what makes each correct.
--
-- How the parts interact. Each worker of the gateway (src/runtime) has a thread with its own event
-- loop, accepts connections and handles them. A connection's bytes go to the codec
-- (include/netp2/protocol, src/protocol), which drives llhttp and fills a request context. Host and
-- target of the context go to the current route snapshot (include/netp2/routing, src/routing), which
-- names the upstream or says why there is none. Workers count what they do in metrics shards
-- (src/observability), which are summed when the text is exported. The resilience policies
-- (src/resilience) and the connection pool (src/upstream) belong to one thread each; the runtime does
-- not use them yet.
--
-- Base has what all models share: text as a list of byte codes with the operations of
-- `std::string_view`, decimal numbers, Boolean tests, lists measured by native numbers.
--
-- Routing: `RouteRule`, `RouteMatch` and `FailReason` as in the header.
--   Routing.Cidr is `ip_in_cidr`, Routing.Host `host_matches`, Routing.Segments `split_path`: the loop
--   runs on the length of the path as fuel, which is enough since each round moves `start`
--   (Routing.Segments compares it with an independent cut at slashes).
--   Routing.Trie has the trie as two data types, for nodes and for their maps of children, and the
--   loops of `finalize`, `sort_rules` and `find_longest_prefix_rules`. `std::sort` is the parameter
--   `StdSort`: any function that permutes a list and sorts it by priority.
--   Routing.Snapshot is `RouteSnapshot` with `add_rule`, `finalize`, `match` and `rule_count`.
-- Protocol: `RequestContext`, `ParseError` and its two tables. Protocol.Headers is how a header is
--   stored, with `std::stoull`; Protocol.Codec the callbacks; Protocol.Codec.Parsing `parse` and
--   `reset`; Protocol.Codec.Requests a whole request; Protocol.Codec.Reuse a codec that is used again.
--   llhttp is the parameter `Llhttp`: the callbacks that it makes for a buffer, its result, and that it reports a
--   failed callback by an error that is none of those of a request line.
-- Resilience.CircuitBreaker and Resilience.RateLimiter are the classes of these names. A reading of
--   `steady_clock` is an argument. Counters of the breaker wrap at 2^32. The tokens of the limiter are
--   doubles: Resilience.Doubles is the part of binary64 arithmetic that it needs, with its rounding.
--   `round` finds the last place on fuel, which is enough for all numbers up to the largest double.
-- Upstream is `UpstreamConnection` and `ConnectionPool`. What the network answers is an argument.
--   Upstream.Lending is the pool with its clients, who own what it lends: their calls in any order, each
--   borrowing cut at its wait for a new connection.
-- Observability.Metrics is `MetricsRegistry`, its shards, and `render_prometheus`. Counters wrap at 2^64.
--   Observability.Metrics.Concurrent is an export load by load, with what other threads count in between.
-- Runtime.Responses is `build_http_response` and `mock_upstream_call` of src/runtime/spine.cpp.
--   Runtime.Spine.Requests goes with a request from llhttp's callbacks to the bytes of the response.
--   Runtime.Spine is `RuntimeSpine`: what Boost.Asio answers is an argument, and so is what other
--   coroutines do to the worker's state while `handle_connection` waits. Runtime.Spine.Loop is the
--   accept loop, and Runtime.Spine.EventLoop the interleaving of all connections of a worker: each takes
--   turns, from one wait to the next, with the others, the accept loop and other threads. The route
--   snapshot is the one that Config's manager holds.
--   Runtime.Gateway is `GatewayRuntime`: a worker is its spine, its metrics shard, and whether its
--   accept loop is spawned, its event loop stopped, and its thread joinable.
--
-- Config is `ConfigSnapshotManager` (include/netp2/config/config_snapshot.h): any number of threads, one
--   shared access at a time in any order, over the reader-writer lock, the pointer and the reference
--   counts of the snapshots. Config.Invariant is what their moves keep.
-- App is `main` (src/app/main.cpp): from what the host answers, whether it serves, what it prints (App.Output), and
--   its exit code.
--
-- Each part's Tests module runs the model on small inputs. Not modelled: sockets, event loops and
-- threads themselves, and memory orders.
pub mod App
pub mod Base
pub mod Config
pub mod Observability
pub mod Protocol
pub mod Resilience
pub mod Routing
pub mod Runtime
pub mod Upstream
