-- ===== src/Protocol/Codec/Requests/Parsed.antt =====
-- What `parse` of src/protocol/http1_codec.cpp makes of a whole request.
use net.Base.{
  to_string, ◌<◌, ◌≤◌, ◌≡◌, refl, ap, ◌∙◌, Text, codes, length, [], ◌∷◌, ◌++◌, none, arith, All,
}
use net.Protocol.{RequestContext}
use net.Protocol.Headers.{u64_mod, lookup}
use net.Protocol.Codec.{drive, Llhttp, parser_error, clear_context, prepare}
use net.Protocol.Codec.Parsing.{Codec, fill, conclude, executed, parse}
use net.Protocol.Codec.Assembly.{concat, at}
use net.Protocol.Codec.Messages.{sizes, store_all, HasValue, last_value, lookup-store_all}
use net.Protocol.Codec.Requests.{Request, events, last_span, host_of, length_of, verdict, IsContext}
use net.Protocol.Codec.Requests.Fields.{
  or_else-none, declared, host-store_all, declared-store_all, rest_of-store_all, length-store_all,
  validate-verdict,
}
use net.Protocol.Codec.Requests.Driving.{
  with_target, with_bodies, drive-events, body-with_bodies, head_of-with_bodies,
}

-- The context once the callbacks are through.
abbrev headed_in : Request → RequestContext → RequestContext
headed_in r ctx = store_all r.headers (with_target (concat r.urls) (clear_context ctx))

abbrev filled_in : Request → RequestContext → RequestContext
filled_in r ctx = with_bodies r.bodies (headed_in r ctx)

host-filled_in :
    (r : Request) (ctx : RequestContext) → (filled_in r ctx).host ≡ host_of r.headers []
unfolding with_target clear_context
host-filled_in r ctx =
    ap (λ (k : RequestContext). k.host) (head_of-with_bodies r.bodies (headed_in r ctx))
    ∙ host-store_all r.headers (with_target (concat r.urls) (clear_context ctx))

declared-filled_in :
    (r : Request) (ctx : RequestContext) → declared (filled_in r ctx) ≡ length_of r.headers
unfolding with_target clear_context
declared-filled_in r ctx =
    ap declared (head_of-with_bodies r.bodies (headed_in r ctx))
    ∙ declared-store_all r.headers (with_target (concat r.urls) (clear_context ctx))
    ∙ or_else-none (length_of r.headers)

body-filled_in :
    (r : Request) (ctx : RequestContext) → (filled_in r ctx).body ≡ last_span [] r.bodies
unfolding with_target clear_context
body-filled_in r ctx =
    body-with_bodies r.bodies (headed_in r ctx)
    ∙ ap (λ (k : Text × Text). last_span k.1 r.bodies)
        (rest_of-store_all r.headers (with_target (concat r.urls) (clear_context ctx)))

target-filled_in : (r : Request) (ctx : RequestContext) → (filled_in r ctx).target ≡ concat r.urls
unfolding with_target clear_context
target-filled_in r ctx =
    ap (λ (k : RequestContext). k.target) (head_of-with_bodies r.bodies (headed_in r ctx))
    ∙ ap (λ (k : Text × Text). k.0)
        (rest_of-store_all r.headers (with_target (concat r.urls) (clear_context ctx)))

lookup-filled_in :
    (key : Text) (r : Request) (ctx : RequestContext)
    → lookup key (filled_in r ctx).headers ≡ last_value key r.headers
unfolding with_target clear_context lookup
lookup-filled_in key r ctx =
    ap (λ (k : RequestContext). lookup key k.headers)
      (head_of-with_bodies r.bodies (headed_in r ctx))
    ∙ lookup-store_all key r.headers (with_target (concat r.urls) (clear_context ctx))
    ∙ or_else-none (last_value key r.headers)

module _ (L : Llhttp) where
  abbrev version_of : L.Parser → Text
  version_of p = codes "HTTP/" ++ to_string (L.http_major p) ++ b'.' ∷ to_string (L.http_minor p)

  parse-conclude :
      (c : Codec L) (buffer : Text) (ctx : RequestContext) (r : Request)
      → L.callbacks c.parser buffer ≡ events r
      → parser_error (L.result c.parser buffer) ≡ none
      → (word : c.impl.config.max_header_size < u64_mod) → All HasValue r.headers
      → sizes r.headers ≤ c.impl.config.max_header_size
      → length r.headers ≤ c.impl.config.max_headers
      → parse L c buffer ctx
        ≡ conclude L ctx
            (L.after c.parser buffer)
            (at c.impl.config word (filled_in r ctx) [] [] (sizes r.headers))
            none
  unfolding parse prepare executed with_target clear_context
  parse-conclude c buffer ctx r calls accepted word named fits few =
      let p = L.after c.parser buffer in
      ap (λ es. executed L c buffer ctx (drive 0 es (prepare ctx c.impl))) calls
      ∙ ap (executed L c buffer ctx) (
          drive-events c.impl.config word r (clear_context ctx) named fits (
            omega (
              arith,
              length-store_all r.headers (with_target (concat r.urls) (clear_context ctx)),
            )))
      ∙ ap (conclude L ctx p (at c.impl.config word (filled_in r ctx) [] [] (sizes r.headers)))
          accepted

  -- Where llhttp accepts a buffer with the callbacks of a request whose headers have names, and
  -- values that are not empty, and are within the limits, of which that of the size is below 2^64,
  -- `parse` gives the request's method, version, target, host and headers and the last span of its
  -- body, and as its error just what the host, the Content-Length and that body call for.
  pub parse-request :
      (c : Codec L) (buffer : Text) (ctx : RequestContext) (r : Request)
      → L.callbacks c.parser buffer ≡ events r
      → parser_error (L.result c.parser buffer) ≡ none
      → c.impl.config.max_header_size < u64_mod
      → All HasValue r.headers
      → sizes r.headers ≤ c.impl.config.max_header_size
      → length r.headers ≤ c.impl.config.max_headers
      → let (_, parsed, error) = parse L c buffer ctx in
        let p = L.after c.parser buffer in
        IsContext r (L.method_name p) (version_of p) parsed
        × (error ≡ verdict c.impl.config (L.http_major p) (L.http_minor p) r)
  unfolding conclude
  parse-request c buffer ctx r calls accepted word named fits few =
      let parsed = parse-conclude c buffer ctx r calls accepted word named fits few in
      let p = L.after c.parser buffer in
      rw parsed (
        record {
          its_method = refl;
          its_version = refl;
          its_target = target-filled_in r ctx;
          its_host = host-filled_in r ctx;
          its_body = body-filled_in r ctx;
          its_headers = λ key. lookup-filled_in key r ctx;
        },
        validate-verdict c.impl.config (L.http_major p) (L.http_minor p) r
            (fill L p (filled_in r ctx)) (host-filled_in r ctx) (declared-filled_in r ctx)
            (body-filled_in r ctx),
      )
