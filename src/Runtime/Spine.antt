-- ===== src/Runtime/Spine.antt =====
-- src/runtime/spine.cpp: `RuntimeSpine`. What Boost.Asio answers (whether an executor is the spine's,
-- what a read or a write comes to) is an argument, and so is what other coroutines do while one waits.
-- The snapshot that `reload_route_config` is given is not null.
pub mod Routes
pub mod Answers
pub mod Requests
pub mod Handling
pub mod Loop
pub mod Accepting
pub mod EventLoop
use net.Base.{
  ℕ, suc, ◌+◌, ◌%◌, Text, codes, text_eq, Bool, true, false, not, ◌&&◌, if◌then◌else◌, List, [],
  ◌∷◌, length, Option, none, some, ℤ, pos,
}
use net.Routing.{RouteRule, RouteTarget}
use net.Routing.Trie.{StdSort}
use net.Routing.Snapshot.{RouteSnapshot, new_snapshot, add_rule, finalize, match}
use net.Protocol.{
  RequestContext, new_context, ParseError, success, parse_error_to_http_status,
  parse_error_to_string,
}
use net.Protocol.Codec.{Llhttp, default_config, is_success}
use net.Protocol.Codec.Parsing.{new_codec, parse}
use net.Observability.Metrics.{
  u64_mod, MetricsRegistry, TlsShard, record_accept, record_request, record_response,
  render_prometheus,
}
use net.Runtime.Responses.{
  build_http_response, mock_upstream_call, plain_text, not_found_body, method_not_allowed_body,
}

pub record SpineConfig : Type 0 where
  pub listen_address : Text
  pub listen_port : ℕ
  pub enable_reuse_port : Bool
  pub enable_executor_affinity_checks : Bool

pub record RuntimeSpine : Type 0 where
  pub config : SpineConfig
  pub is_open : Bool
  pub affinity_violation_count : ℕ
  pub route_config : RouteSnapshot

-- The default routes of the constructor.
abbrev pub rule_proxy : RouteRule
rule_proxy = record {
  host_pattern = codes "*";
  path_prefix = codes "/proxy/mock";
  allowed_client_cidrs = [];
  target = record { cluster_name = codes "mock-upstream"; path_rewrite = [] };
  priority = pos 10;
}

abbrev pub rule_root : RouteRule
rule_root = record {
  host_pattern = codes "*";
  path_prefix = codes "/";
  allowed_client_cidrs = [];
  target = record { cluster_name = codes "root-service"; path_rewrite = [] };
  priority = pos 100;
}

unfoldable pub default_snapshot : StdSort → RouteSnapshot
default_snapshot std = finalize std (add_rule rule_root (add_rule rule_proxy new_snapshot))

-- What the system says of the address, the option SO_REUSEPORT, and of binding and listening; a `false`
-- is an exception.
pub record Listening : Type 0 where
  pub address_ok : Bool
  pub reuse_port_ok : Bool
  pub bind_ok : Bool

unfoldable pub new_spine : StdSort → SpineConfig → Listening → Option RuntimeSpine
unfolding default_snapshot
new_spine std config answers =
    if not answers.address_ok
    then none
    else if config.enable_reuse_port && not answers.reuse_port_ok
    then none
    else if not answers.bind_ok
    then none
    else some (record {
      config = config;
      is_open = true;
      affinity_violation_count = 0;
      route_config = default_snapshot std;
    })

unfoldable pub reload_route_config : RouteSnapshot → RuntimeSpine → RuntimeSpine
reload_route_config snapshot s = record s { route_config = snapshot }

unfoldable pub stop : RuntimeSpine → RuntimeSpine
stop s = record s { is_open = false }

-- The port of the acceptor's endpoint, which is an argument; of a closed acceptor `local_endpoint`
-- throws.
unfoldable pub local_port : ℕ → RuntimeSpine → Option ℕ
local_port endpoint_port s = if s.is_open then some endpoint_port else none

-- Both affinity checks: whether the executor is the spine's own is what they are told.
pub check_executor_affinity : Bool → RuntimeSpine → RuntimeSpine × Bool
check_executor_affinity same s =
    if same
    then (s, true)
    else (record s { affinity_violation_count = (s.affinity_violation_count + 1) % u64_mod }, false)

-- What a worker's thread works on.
pub record World : Type 0 where
  pub spine : RuntimeSpine
  pub registry : MetricsRegistry

abbrev pub with_spine : World → RuntimeSpine → World
with_spine w s = record w { spine = s }

-- A response as its status and bytes.
abbrev pub Response : Type 0
Response = ℕ × Text

pub respond_routed : RouteSnapshot → RequestContext → Response
respond_routed routes ctx =
    if (match routes ctx.host ctx.target (codes "127.0.0.1")).matched
    then (200, build_http_response 200 (codes "OK") (mock_upstream_call ctx.target) plain_text)
    else (404, build_http_response 404 (codes "Not Found") not_found_body plain_text)

-- The branches of `handle_connection` behind the parser.
pub respond_to : World → RequestContext → ParseError → Response
unfolding respond_routed
respond_to w ctx parse_result =
    if not (is_success parse_result)
    then (
      parse_error_to_http_status parse_result,
      build_http_response (parse_error_to_http_status parse_result) (codes "Bad Request")
          (parse_error_to_string parse_result) plain_text,
    )
    else if not (text_eq ctx.method (codes "GET"))
    then (
      405,
      build_http_response 405 (codes "Method Not Allowed") method_not_allowed_body plain_text,
    )
    else if text_eq ctx.target (codes "/metrics")
    then (
      200,
      build_http_response 200 (codes "OK") (render_prometheus w.registry)
          (codes "text/plain; version=0.0.4; charset=utf-8"),
    )
    else respond_routed w.spine.route_config ctx

-- What a read comes to: bytes (at the end of the stream too, there may be none), or an error.
pub data ReadOutcome : Type 0 where
  received : Text → ReadOutcome
  failed : ReadOutcome

-- What a connection is told: the answers of its checks, reads and writes, and what other coroutines do
-- to the worker's state at each of its waits. The waits between the response and the write, of which
-- that for the mock upstream is one, are one wait here.
pub record Connection : Type 0 where
  pub socket_here : Bool
  pub coroutine_here : Bool
  pub during_read : World → World
  pub read_outcome : ReadOutcome
  pub during_post : World → World
  pub still_here : Bool
  pub during_write : World → World
  pub write_ok : Bool

-- The checks at the start of a connection.
unfoldable pub check_start : Connection → RuntimeSpine → RuntimeSpine × Bool
unfolding check_executor_affinity
check_start c s =
    let (s', ok) = check_executor_affinity c.socket_here s in
    if s.config.enable_executor_affinity_checks
    then (if ok then check_executor_affinity c.coroutine_here s' else (s', false))
    else (s, true)

-- The check before the write.
pub check_end : Connection → RuntimeSpine → RuntimeSpine × Bool
unfolding check_executor_affinity
check_end c s =
    if s.config.enable_executor_affinity_checks
    then check_executor_affinity c.still_here s
    else (s, true)

-- From the write on. With the state comes the response that was written, if one was.
pub write_response : TlsShard → Connection → World → Response → World × Option Response
write_response tls c w (status_code, payload) =
    let w' = c.during_write w in
    if c.write_ok
    then (
      record w' { registry = record_response status_code (length payload) tls w'.registry },
      some (status_code, payload),
    )
    else (w', none)

pub finish : TlsShard → Connection → World → Response → World × Option Response
unfolding check_end write_response
finish tls c w response =
    let (s, ok) = check_end c w.spine in
    if ok then write_response tls c (with_spine w s) response else (with_spine w s, none)

module _ (L : Llhttp) where
  -- The response to a request, by a new codec.
  unfoldable pub respond : World → Text → Response
  unfolding respond_to
  respond w request =
      let (codec, ctx, parse_result) = parse L (new_codec L default_config) request new_context in
      respond_to w ctx parse_result

  -- From the return of the read on.
  pub after_read : TlsShard → Connection → World → ReadOutcome → World × Option Response
  unfolding respond finish
  after_read tls c w failed = (w, none)
  after_read tls c w (received request) =
      let counted = record w { registry = record_request (length request) tls w.registry } in
      finish tls c (c.during_post counted) (respond counted request)

  pub handle_connection : TlsShard → Connection → World → World × Option Response
  unfolding check_start after_read
  handle_connection tls c w =
      let (s, ok) = check_start c w.spine in
      if ok
      then after_read tls c (c.during_read (with_spine w s)) c.read_outcome
      else (with_spine w s, none)
