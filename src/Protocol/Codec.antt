-- ===== src/Protocol/Codec.antt =====
-- src/protocol/http1_codec.cpp: `Http1Codec::Impl`, over the parser llhttp, which is not part of the
-- repository. Of llhttp the model takes what its interface documents: it makes a sequence of
-- callbacks, stops at the first that does not return 0, and then reports an error of its own.
pub mod Parsing
pub mod Results
pub mod Assembly
pub mod Messages
pub mod Reuse
pub mod Requests
use net.Base.{
  ℕ, suc, zero, ◌+◌, ◌%◌, ◌≡◌, Text, codes, to_string, Bool, true, false, not, ◌&&◌, leb, ltb, ◌==◌,
  is_empty, length, List, [], ◌∷◌, ◌++◌, Option, none, some, if◌then◌else◌,
}
use net.Protocol.{
  RequestContext, ParseError, success, invalid_request_line, missing_host, header_too_large,
  too_many_headers, content_length_mismatch, internal_error,
}
use net.Protocol.Headers.{u64_mod, store_header}

pub record Http1CodecConfig : Type 0 where
  pub max_header_size : ℕ
  pub max_headers : ℕ
  pub require_host_header : Bool

abbrev pub default_config : Http1CodecConfig
default_config = record { max_header_size = 8192; max_headers = 100; require_host_header = true }

-- The members of `Impl` but the parser; `ctx` is what `ctx_` points to.
pub record Impl : Type 0 where
  pub config : Http1CodecConfig
  pub ctx : Option RequestContext
  pub current_header_field : Text
  pub current_header_value : Text
  pub total_header_size : ℕ
  pub parse_error : ParseError

abbrev pub new_impl : Http1CodecConfig → Impl
new_impl config = record {
  config = config;
  ctx = none;
  current_header_field = [];
  current_header_value = [];
  total_header_size = 0;
  parse_error = success;
}

-- A callback of llhttp with its span.
pub data Event : Type 0 where
  message_begin headers_complete message_complete : Event
  url header_field header_value body : Text → Event

-- What a callback returns: 0 or -1.
pub data Returned : Type 0 where
  proceed abort : Returned

pub save_current_header : Impl → Impl
unfolding store_header
save_current_header i = elim i.ctx [
  | none ↦ i
  | some ctx ↦ record i {
    ctx = some (store_header i.current_header_field i.current_header_value ctx);
    current_header_field = [];
    current_header_value = [];
  }
]

-- The check of the size of the headers so far.
pub check_header_size : Impl → Impl × Returned
check_header_size i =
    if ltb i.config.max_header_size i.total_header_size
    then (record i { parse_error = header_too_large }, abort)
    else (i, proceed)

pub on_url : Text → Impl → Impl × Returned
on_url at i = elim i.ctx [
  | none ↦ (i, proceed)
  | some ctx ↦ (record i { ctx = some (record ctx { target = ctx.target ++ at }) }, proceed)
]

pub on_header_field : Text → Impl → Impl × Returned
unfolding save_current_header check_header_size
on_header_field at i =
    let saved = if is_empty i.current_header_value then i else save_current_header i in
    check_header_size (record saved {
      current_header_field = saved.current_header_field ++ at;
      total_header_size = (saved.total_header_size + length at) % u64_mod;
    })

pub on_header_value : Text → Impl → Impl × Returned
unfolding check_header_size
on_header_value at i = check_header_size (record i {
  current_header_value = i.current_header_value ++ at;
  total_header_size = (i.total_header_size + length at) % u64_mod;
})

pub on_headers_complete : Impl → Impl × Returned
unfolding save_current_header
on_headers_complete i =
    let saved = if is_empty i.current_header_field then i else save_current_header i in
    elim saved.ctx [
      | none ↦ (saved, proceed)
      | some ctx ↦
          if ltb saved.config.max_headers (length ctx.headers)
          then (record saved { parse_error = too_many_headers }, abort)
          else (saved, proceed)
    ]

pub on_body : Text → Impl → Impl × Returned
on_body at i = elim i.ctx [
  | none ↦ (i, proceed)
  | some ctx ↦ (record i { ctx = some (record ctx { body = at }) }, proceed)
]

pub on_event : Event → Impl → Impl × Returned
unfolding on_url on_header_field on_header_value on_headers_complete on_body
on_event message_begin i = (i, proceed)
on_event headers_complete i = on_headers_complete i
on_event message_complete i = (i, proceed)
on_event (url at) i = on_url at i
on_event (header_field at) i = on_header_field at i
on_event (header_value at) i = on_header_value at i
on_event (body at) i = on_body at i

-- The callbacks in turn, up to the first that aborts; with it the number of callbacks made before.
pub data Driven : Type 0 where
  finished : Impl → Driven
  aborted : ℕ → Impl → Driven

pub drive : ℕ → List Event → Impl → Driven
unfolding on_event
drive n [] i = finished i
drive n (e ∷ es) i =
    let (i', returned) = on_event e i in
    elim returned [ proceed ↦ drive (suc n) es i' | abort ↦ aborted n i' ]

-- `llhttp_errno_t`, as far as the codec tells its values apart.
pub data Errno : Type 0 where
  hpe_ok hpe_paused_upgrade hpe_invalid_method hpe_invalid_url hpe_invalid_version hpe_other : Errno

-- llhttp: its parser, the callbacks that it makes for a buffer as long as each returns 0, what it
-- reports then, and the parser that it leaves; and the parser that it leaves when a callback fails.
-- The error that it reports for a failed callback is none of those that it finds in a request line.
pub record Llhttp : Type 1 where
  pub Parser : Type 0
  pub initial : Parser
  pub restart : Parser → Parser
  pub callbacks : Parser → Text → List Event
  pub result : Parser → Text → Errno
  pub after : Parser → Text → Parser
  pub after_abort : Parser → Text → ℕ → Parser
  pub abort_result : Parser → Text → ℕ → Errno
  pub abort_result-lem : (p : Parser) (t : Text) (n : ℕ) → abort_result p t n ≡ hpe_other
  pub http_major : Parser → ℕ
  pub http_minor : Parser → ℕ
  pub method_name : Parser → Text

-- `err != HPE_OK && err != HPE_PAUSED_UPGRADE`, with the error code that it is turned into.
unfoldable pub parser_error : Errno → Option ParseError
parser_error hpe_ok = none
parser_error hpe_paused_upgrade = none
parser_error hpe_invalid_method = some invalid_request_line
parser_error hpe_invalid_url = some invalid_request_line
parser_error hpe_invalid_version = some invalid_request_line
parser_error hpe_other = some internal_error

-- The fields that `parse` clears; `client_endpoint` and `trace_parent` are kept.
pub clear_context : RequestContext → RequestContext
clear_context ctx = record ctx {
  method = [];
  target = [];
  version = [];
  host = [];
  headers = [];
  body = [];
  content_length = 0;
  has_content_length = false;
}

pub prepare : RequestContext → Impl → Impl
unfolding clear_context
prepare ctx i = record i {
  ctx = some (clear_context ctx);
  current_header_field = [];
  current_header_value = [];
  total_header_size = 0;
  parse_error = success;
}

abbrev pub is_success : ParseError → Bool
is_success success = true
is_success _ = false

-- The end of `parse`: what the context lacks.
pub validate : Http1CodecConfig → ℕ → ℕ → RequestContext → ParseError
validate config major minor ctx =
    if config.require_host_header && major == 1 && leb 1 minor && is_empty ctx.host
    then missing_host
    else if ctx.has_content_length && not (length ctx.body == ctx.content_length)
    then content_length_mismatch
    else success
