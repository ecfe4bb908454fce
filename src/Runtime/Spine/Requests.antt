-- ===== src/Runtime/Spine/Requests.antt =====
-- From a whole request to the bytes of its response, with the default routes.
use net.Base.{
  ℕ, ◌≡◌, ◌≤◌, ap, ◌∙◌, Text, codes, text_eq, not, length, none, All, if◌then◌else◌, arith,
}
use net.Routing.Trie.{StdSort}
use net.Routing.Segments.{split_path}
use net.Routing.Snapshot.{RouteSnapshot, match}
use net.Protocol.{
  RequestContext, new_context, ParseError, parse_error_to_http_status, parse_error_to_string,
}
use net.Protocol.Codec.{Llhttp, default_config, is_success, parser_error}
use net.Protocol.Codec.Parsing.{new_codec, parse}
use net.Protocol.Codec.Assembly.{concat}
use net.Protocol.Codec.Messages.{HasValue, sizes}
use net.Protocol.Codec.Requests.{Request, events, verdict}
use net.Protocol.Codec.Requests.Parsed.{parse-request}
use net.Observability.Metrics.{MetricsRegistry, render_prometheus}
use net.Runtime.Responses.{
  build_http_response, mock_upstream_call, plain_text, not_found_body, method_not_allowed_body,
}
use net.Runtime.Spine.{World, Response, default_snapshot, respond_routed, respond_to, respond}
use net.Runtime.Spine.Routes.{has_default_route, default_snapshot-match}

-- A response by its status, reason, body and content type.
abbrev answer_with : ℕ → Text → Text → Text → Response
answer_with status_code reason body content_type =
    (status_code, build_http_response status_code reason body content_type)

-- The page of a target.
abbrev page : MetricsRegistry → Text → Response
page registry target =
    if text_eq target (codes "/metrics")
    then answer_with 200 (codes "OK") (render_prometheus registry)
        (codes "text/plain; version=0.0.4; charset=utf-8")
    else if has_default_route (split_path target)
    then answer_with 200 (codes "OK") (mock_upstream_call target) plain_text
    else answer_with 404 (codes "Not Found") not_found_body plain_text

-- What a client is answered, for what is wrong with its request, its method and its target.
abbrev pub answer : MetricsRegistry → ParseError → Text → Text → Response
answer registry e method target =
    if not (is_success e)
    then answer_with (parse_error_to_http_status e) (codes "Bad Request") (parse_error_to_string e)
        plain_text
    else if not (text_eq method (codes "GET"))
    then answer_with 405 (codes "Method Not Allowed") method_not_allowed_body plain_text
    else page registry target

respond_to-answer :
    (std : StdSort) (w : World) (ctx : RequestContext) (e : ParseError)
    → w.spine.route_config ≡ default_snapshot std
    → respond_to w ctx e ≡ answer w.registry e ctx.method ctx.target
unfolding respond_to respond_routed
respond_to-answer std w ctx e routes =
    ap
      (λ matched.
        if not (is_success e)
        then answer_with (parse_error_to_http_status e) (codes "Bad Request")
            (parse_error_to_string e) plain_text
        else if not (text_eq ctx.method (codes "GET"))
        then answer_with 405 (codes "Method Not Allowed") method_not_allowed_body plain_text
        else if text_eq ctx.target (codes "/metrics")
        then answer_with 200 (codes "OK") (render_prometheus w.registry)
            (codes "text/plain; version=0.0.4; charset=utf-8")
        else if matched
        then answer_with 200 (codes "OK") (mock_upstream_call ctx.target) plain_text
        else answer_with 404 (codes "Not Found") not_found_body plain_text)
      (ap (λ (r : RouteSnapshot). (match r ctx.host ctx.target (codes "127.0.0.1")).matched) routes
        ∙ default_snapshot-match std ctx.host ctx.target (codes "127.0.0.1"))

-- With the default routes, where llhttp accepts a request whose headers have names, and values that are
-- not empty, are at most 100 and of at most 8192 bytes: the response is that for the faults that its
-- host, Content-Length and body have, its method and its target. Without faults a GET has
-- the metrics for "/metrics", the mock upstream's page for a target without segments or under "proxy"
-- and "mock", and else status 404.
pub respond-request :
    (L : Llhttp) (std : StdSort) (w : World) (request : Text) (r : Request)
    → w.spine.route_config ≡ default_snapshot std
    → L.callbacks L.initial request ≡ events r
    → parser_error (L.result L.initial request) ≡ none
    → All HasValue r.headers
    → sizes r.headers ≤ 8192
    → length r.headers ≤ 100
    → let p = L.after L.initial request in
      respond L w request
      ≡ answer w.registry
          (verdict default_config (L.http_major p) (L.http_minor p) r)
          (L.method_name p)
          (concat r.urls)
unfolding respond
respond-request L std w request r routes calls accepted named fits few =
    let (context, verdict_eq) =
      parse-request L (new_codec L default_config) request new_context r calls accepted
        (omega arith) named fits few in
    let parsed = parse L (new_codec L default_config) request new_context in
    respond_to-answer std w parsed.1 parsed.2 routes ∙ λ t.
    answer w.registry (verdict_eq t) (context.its_method t) (context.its_target t)
