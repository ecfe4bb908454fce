-- ===== src/Protocol/Codec/Requests.antt =====
-- A whole request, as llhttp reports it to src/protocol/http1_codec.cpp.
pub mod Fields
pub mod Driving
pub mod Parsed
use net.Base.{
  ℕ, suc, to_string, ◌+◌, ◌<◌, ◌≤◌, ◌≡◌, refl, ap, ap₂, sym, ◌∙◌, Text, codes, text_eq, length,
  List, [], ◌∷◌, ◌++◌, append_assoc, append-nil, map, Option, none, some, Bool, true, false, not,
  ◌&&◌, ◌==◌, leb, is_empty, if◌then◌else◌, arith, All,
}
use net.Protocol.{RequestContext, ParseError, success, missing_host, content_length_mismatch}
use net.Protocol.Headers.{u64_mod, store_header, store_host, store_length, to_lower, lookup, stoull}
use net.Protocol.Headers.Table.{length-assign, headers-store_header}
use net.Protocol.Codec.{
  Http1CodecConfig, Impl, Event, message_begin, message_complete, headers_complete, url, body,
  proceed, on_event, drive, finished, Llhttp, parser_error, clear_context, prepare, validate,
}
use net.Protocol.Codec.Parsing.{Codec, fill, conclude, executed, parse}
use net.Protocol.Codec.Assembly.{
  Header, name, value, concat, at, GoesOn, GoesOn-step, GoesOn-trans, GoesOn-to,
}
use net.Protocol.Codec.Messages.{
  all_events, sizes, store_all, HasValue, headers-GoesOn, last_value, or_else, lookup-store_all,
}

-- A request as the spans of its target, its headers, and the spans of its body.
pub record Request : Type 0 where
  pub urls : List Text
  pub headers : List Header
  pub bodies : List Text

-- The callbacks that llhttp makes for it.
abbrev pub body_events : Request → List Event
body_events r = map body r.bodies ++ message_complete ∷ []

abbrev pub header_events : Request → List Event
header_events r = all_events r.headers (headers_complete ∷ body_events r)

abbrev pub events : Request → List Event
events r = message_begin ∷ (map url r.urls ++ header_events r)

abbrev pub last_span : Text → List Text → Text
last_span b [] = b
last_span b (c ∷ bs) = last_span c bs

abbrev pub host_of : List Header → Text → Text
host_of hs other = elim (last_value (codes "host") hs) [ some v ↦ v | none ↦ other ]

-- The last Content-Length that is a number.
unfoldable pub length_of : List Header → Option ℕ
length_of [] = none
length_of (h ∷ hs) =
    or_else (length_of hs)
      (if text_eq (to_lower (name h)) (codes "content-length") then stoull (value h) else none)

-- What is wrong with a request that llhttp accepts.
abbrev pub is_mismatch : Option ℕ → Text → Bool
is_mismatch none b = false
is_mismatch (some n) b = not (length b == n)

unfoldable pub verdict : Http1CodecConfig → ℕ → ℕ → Request → ParseError
unfolding length_of
verdict config major minor r =
    if config.require_host_header && major == 1 && leb 1 minor && is_empty (host_of r.headers [])
    then missing_host
    else if is_mismatch (length_of r.headers) (last_span [] r.bodies)
    then content_length_mismatch
    else success

-- The context of a request, for its method and version.
pub record IsContext (r : Request) (method version : Text) (ctx : RequestContext) : Type 0 where
  pub its_method : ctx.method ≡ method
  pub its_version : ctx.version ≡ version
  pub its_target : ctx.target ≡ concat r.urls
  pub its_host : ctx.host ≡ host_of r.headers []
  pub its_body : ctx.body ≡ last_span [] r.bodies
  pub its_headers : (key : Text) → lookup key ctx.headers ≡ last_value key r.headers
