-- ===== src/Protocol/Codec/Parsing.antt =====
-- src/protocol/http1_codec.cpp: `parse` and `reset`, over llhttp.
use net.Base.{Text, codes, to_string, not, [], ◌∷◌, ◌++◌, Option, none, some, if◌then◌else◌}
use net.Protocol.{RequestContext, ParseError, success}
use net.Protocol.Codec.{
  Http1CodecConfig, Impl, new_impl, Driven, finished, aborted, drive, Llhttp, parser_error, prepare,
  is_success, validate,
}

module _ (L : Llhttp) where
  open L use {
    Parser, initial, restart, callbacks, result, after, after_abort, abort_result, http_major,
    http_minor, method_name,
  }

  pub record Codec : Type 0 where
    pub parser : Parser
    pub impl : Impl

  abbrev pub new_codec : Http1CodecConfig → Codec
  new_codec config = record { parser = initial; impl = new_impl config }

  abbrev pub context_of : RequestContext → Option RequestContext → RequestContext
  context_of ctx none = ctx
  context_of ctx (some ctx') = ctx'

  -- `version` and `method` from the parser.
  abbrev pub fill : Parser → RequestContext → RequestContext
  fill p ctx = record ctx {
    version = codes "HTTP/" ++ to_string (http_major p) ++ b'.' ∷ to_string (http_minor p);
    method = method_name p;
  }

  abbrev pub Parse : Type 0
  Parse = Codec × RequestContext × ParseError

  -- From the return of `llhttp_execute` on: its error, the error that a callback has kept, and the
  -- checks of the context.
  unfoldable pub conclude : RequestContext → Parser → Impl → Option ParseError → Parse
  unfolding validate
  conclude ctx p i (some e) = (record { parser = p; impl = i }, context_of ctx i.ctx, e)
  conclude ctx p i none =
      let filled = fill p (context_of ctx i.ctx) in
      if not (is_success i.parse_error)
      then (record { parser = p; impl = i }, context_of ctx i.ctx, i.parse_error)
      else (
        record { parser = p; impl = record i { ctx = some filled } },
        filled,
        validate i.config (http_major p) (http_minor p) filled,
      )

  unfoldable pub executed : Codec → Text → RequestContext → Driven → Parse
  unfolding conclude parser_error
  executed c buffer ctx (finished i) =
      conclude ctx (after c.parser buffer) i (parser_error (result c.parser buffer))
  executed c buffer ctx (aborted n i) =
      conclude ctx (after_abort c.parser buffer n) i (parser_error (abort_result c.parser buffer n))

  unfoldable pub parse : Codec → Text → RequestContext → Parse
  unfolding prepare drive executed
  parse c buffer ctx =
      executed c buffer ctx (drive 0 (callbacks c.parser buffer) (prepare ctx c.impl))

  unfoldable pub reset : Codec → Codec
  reset c = record {
    parser = restart c.parser;
    impl = record c.impl {
      current_header_field = [];
      current_header_value = [];
      total_header_size = 0;
      parse_error = success;
      ctx = none;
    };
  }
