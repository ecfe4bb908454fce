-- ===== src/Protocol/Tests.antt =====
-- Runs of src/protocol/http1_codec.cpp, over a parser that knows a few requests.
use net.Base.{
  ◌≤◌, ◌≡◌, ◌≢◌, refl, true, if◌then◌else◌, List, [], ◌∷◌, Text, codes, text_eq, some, All, arith,
}
use net.Protocol.{
  RequestContext, new_context, ParseError, success, need_more_data, header_too_large,
  too_many_headers, content_length_mismatch, internal_error,
}
use net.Protocol.Headers.{lookup}
use net.Protocol.Codec.{
  Http1CodecConfig, default_config, Event, url, header_field, header_value, headers_complete,
  message_complete, Errno, hpe_ok, hpe_other, Llhttp,
}
use net.Protocol.Codec.Parsing.{new_codec, parse, reset}
use net.Protocol.Codec.Reuse.{Use, parses, resets, use_all, parse-reset}
use net.Protocol.Codec.Requests.{Request, events, verdict, IsContext}
use net.Protocol.Codec.Requests.Parsed.{parse-request}
use net.Protocol.Codec.Results.{parse_possible}
use net.Protocol.Codec.Assembly.{Header}
use net.Protocol.Codec.Messages.{all_events, sizes, HasValue, last_value}

abbrev host_header : Header
host_header = record {
  first = codes "Ho";
  more = codes "st" ∷ [];
  values = codes "example" ∷ codes ".com" ∷ [];
}

abbrev bare_header : Header
bare_header = record { first = codes "X-Empty"; more = []; values = [] }

abbrev request : Text
request = codes "GET / HTTP/1.1"

abbrev bare_request : Text
bare_request = codes "GET /bare HTTP/1.1"

abbrev post_text : Text
post_text = codes "POST /a/b HTTP/1.1"

-- A target and a body in two spans each, so that the length of the body is not that which is kept.
abbrev post : Request
post = record {
  urls = codes "/a" ∷ codes "/b" ∷ [];
  headers =
      host_header
      ∷ record { first = codes "Content-Length"; more = []; values = codes "5" ∷ [] }
      ∷ [];
  bodies = codes "he" ∷ codes "llo" ∷ [];
}

abbrev request_events : Text → List Event
request_events t =
    if text_eq t post_text
    then events post
    else if text_eq t request
    then url (codes "/") ∷ all_events (host_header ∷ []) (headers_complete ∷ message_complete ∷ [])
    else if text_eq t bare_request
    then url (codes "/bare")
      ∷ all_events (bare_header ∷ host_header ∷ []) (headers_complete ∷ message_complete ∷ [])
    else []

abbrev replay : Llhttp
replay = record {
  Parser = Unit {0};
  initial = tt;
  restart = λ p. p;
  callbacks = λ p t. request_events t;
  result = λ p t. hpe_ok;
  after = λ p t. p;
  after_abort = λ p t n. p;
  abort_result = λ p t n. hpe_other;
  abort_result-lem = λ p t n. refl;
  http_major = λ p. 1;
  http_minor = λ p. 1;
  method_name = λ p. codes "GET";
}

abbrev small_config : Http1CodecConfig
small_config = record { max_header_size = 10; max_headers = 100; require_host_header = true }

parsed : (parse replay (new_codec replay default_config) request new_context).2 ≡ success
unfolding parse text_eq
parsed = refl

parsed_host :
    (parse replay (new_codec replay default_config) request new_context).1.host
    ≡ codes "example.com"
unfolding parse text_eq
parsed_host = refl

-- The callback's `header_too_large` is not what `parse` returns.
too_large : (parse replay (new_codec replay small_config) request new_context).2 ≡ internal_error
unfolding parse text_eq
too_large = refl

merged_name :
    lookup
      (codes "x-emptyhost")
      (parse replay (new_codec replay default_config) bare_request new_context).1.headers
    ≡ some (codes "example.com")
unfolding parse lookup text_eq
merged_name = refl

parse_possible_example :
    ((parse replay (new_codec replay small_config) request new_context).2 ≢ need_more_data)
    × ((parse replay (new_codec replay small_config) request new_context).2 ≢ header_too_large)
    × ((parse replay (new_codec replay small_config) request new_context).2 ≢ too_many_headers)
parse_possible_example = parse_possible replay (new_codec replay small_config) request new_context

post-HasValue : All HasValue post.headers
unfolding net.Protocol.Codec.Assembly.concat
post-HasValue = ((λ e. cc, λ e. cc), ((λ e. cc, λ e. cc), tt))

post_fits : sizes post.headers ≤ 8192
unfolding net.Protocol.Codec.Assembly.concat
post_fits = omega arith

parse-request_example :
    let (_, parsed, error) = parse replay (new_codec replay default_config) post_text new_context in
    IsContext post (codes "GET") (codes "HTTP/1.1") parsed
    × (error ≡ verdict default_config 1 1 post)
unfolding net.Protocol.Codec.parser_error text_eq net.Base.to_string
parse-request_example =
    parse-request replay (new_codec replay default_config) post_text new_context post refl refl
      (omega arith) post-HasValue post_fits (omega arith)

-- The body's last span is shorter than the body.
split_body_refused : verdict default_config 1 1 post ≡ content_length_mismatch
unfolding verdict last_value text_eq net.Protocol.Headers.stoull net.Protocol.Headers.to_lower
    net.Protocol.Codec.Assembly.concat
split_body_refused = refl

-- A codec that has parsed a request without a host.
abbrev uses : List (Use replay)
uses = parses bare_request new_context ∷ resets ∷ parses (codes "x") new_context ∷ []

parse-reset_example :
    parse replay
      (reset replay (use_all replay (new_codec replay small_config) uses))
      request
      new_context
    ≡ parse replay (new_codec replay small_config) request new_context
parse-reset_example =
    parse-reset replay small_config uses request new_context new_context (λ p. refl) refl refl
