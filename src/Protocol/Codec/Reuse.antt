-- ===== src/Protocol/Codec/Reuse.antt =====
-- A codec that is used again after `reset`.
use net.Base.{
  ℕ, suc, ◌≡◌, refl, ap, ap₂, ◌∙◌, Text, List, [], ◌∷◌, Option, none, some, Bool, true, false,
  is_empty, if◌then◌else◌, arith, Option-cases, inl, inr,
}
use net.Protocol.{RequestContext, ParseError}
use net.Protocol.Codec.{
  Http1CodecConfig, Impl, Returned, proceed, abort, Event, message_begin, headers_complete,
  message_complete, url, header_field, header_value, body, save_current_header, check_header_size,
  on_headers_complete, on_event, Driven, finished, aborted, drive, Llhttp, parser_error, prepare,
}
use net.Protocol.Codec.Parsing.{Codec, new_codec, context_of, conclude, executed, parse, reset}

abbrev is_some : Option RequestContext → Bool
is_some none = false
is_some (some ctx) = true

-- The configuration, and whether there is a context.
abbrev frame : Impl → Http1CodecConfig × Bool
frame i = (i.config, is_some i.ctx)

save_current_header-frame : (i : Impl) → frame (save_current_header i) ≡ frame i
unfolding save_current_header
save_current_header-frame i = elim (Option-cases i.ctx) [
  | inl missing ↦ rw (missing, save_current_header) (rw missing refl)
  | inr (ctx, there) ↦ rw (there, save_current_header) refl
]

saved-frame : (b : Bool) (i : Impl) → frame (if b then i else save_current_header i) ≡ frame i
saved-frame true i = refl
saved-frame false i = save_current_header-frame i

check_header_size-frame : (i : Impl) → frame (check_header_size i).0 ≡ frame i
unfolding check_header_size
check_header_size-frame i = ground arith

on_headers_complete-frame : (i : Impl) → frame (on_headers_complete i).0 ≡ frame i
unfolding on_headers_complete
on_headers_complete-frame i = ground (arith, saved-frame (is_empty i.current_header_field) i)

on_event-frame : (e : Event) (i : Impl) → frame (on_event e i).0 ≡ frame i
unfolding on_event
on_event-frame message_begin i = refl
on_event-frame headers_complete i = on_headers_complete-frame i
on_event-frame message_complete i = refl
on_event-frame (url at) i = ground arith
on_event-frame (header_field at) i =
    check_header_size-frame _ ∙ saved-frame (is_empty i.current_header_value) i
on_event-frame (header_value at) i = check_header_size-frame _
on_event-frame (body at) i = ground arith

abbrev impl_of : Driven → Impl
impl_of (finished i) = i
impl_of (aborted n i) = i

branch-frame :
    (i : Impl) (r : Returned) (n : ℕ) (d : Driven)
    → frame (impl_of d) ≡ frame i
    → frame (impl_of (elim r [ proceed ↦ d | abort ↦ aborted n i ])) ≡ frame i
branch-frame i proceed n d h = h
branch-frame i abort n d h = refl

drive-frame : (n : ℕ) (es : List Event) (i : Impl) → frame (impl_of (drive n es i)) ≡ frame i
unfolding drive
drive-frame n [] i = refl
drive-frame n (e ∷ es) i =
    branch-frame (on_event e i).0 (on_event e i).1 n _ (drive-frame (suc n) es (on_event e i).0)
    ∙ on_event-frame e i

module _ (L : Llhttp) where
  conclude-config :
      (ctx : RequestContext) (p : L.Parser) (i : Impl) (o : Option ParseError)
      → (conclude L ctx p i o).0.impl.config ≡ i.config
  unfolding conclude
  conclude-config ctx p i (some e) = refl
  conclude-config ctx p i none = ground arith

  executed-config :
      (c : Codec L) (buffer : Text) (ctx : RequestContext) (d : Driven)
      → (executed L c buffer ctx d).0.impl.config ≡ (impl_of d).config
  unfolding executed
  executed-config c buffer ctx (finished i) = conclude-config ctx _ i _
  executed-config c buffer ctx (aborted n i) = conclude-config ctx _ i _

  parse-config :
      (c : Codec L) (buffer : Text) (ctx : RequestContext)
      → (parse L c buffer ctx).0.impl.config ≡ c.impl.config
  unfolding parse prepare
  parse-config c buffer ctx =
      executed-config c buffer ctx _
      ∙ ap (λ (f : Http1CodecConfig × Bool). f.0)
          (drive-frame 0 (L.callbacks c.parser buffer) (prepare ctx c.impl))

  -- What a codec is used for: to parse a buffer into a context, or to be reset.
  pub data Use : Type 0 where
    parses : Text → RequestContext → Use
    resets : Use

  pub use_once : Codec L → Use → Codec L
  unfolding parse reset
  use_once c (parses buffer ctx) = (parse L c buffer ctx).0
  use_once c resets = reset L c

  pub use_all : Codec L → List Use → Codec L
  unfolding use_once
  use_all c [] = c
  use_all c (u ∷ us) = use_all (use_once c u) us

  use_once-config : (c : Codec L) (u : Use) → (use_once c u).impl.config ≡ c.impl.config
  unfolding use_once reset
  use_once-config c (parses buffer ctx) = parse-config c buffer ctx
  use_once-config c resets = refl

  use_all-config : (c : Codec L) (us : List Use) → (use_all c us).impl.config ≡ c.impl.config
  unfolding use_all
  use_all-config c [] = refl
  use_all-config c (u ∷ us) = use_all-config (use_once c u) us ∙ use_once-config c u

  reset-new_codec :
      (c : Codec L) (config : Http1CodecConfig)
      → L.restart c.parser ≡ L.initial
      → c.impl.config ≡ config
      → reset L c ≡ new_codec L config
  unfolding reset
  reset-new_codec c config p e = ap₂ (λ (q : L.Parser) (k : Http1CodecConfig). new_codec_of q k) p e
    where
      new_codec_of : L.Parser → Http1CodecConfig → Codec L
      new_codec_of q k = record (new_codec L k) { parser = q }

  same_context_of :
      (ctx ctx' : RequestContext) (o : Option RequestContext)
      → is_some o ≡ true
      → context_of L ctx o ≡ context_of L ctx' o
  same_context_of ctx ctx' none h = cc
  same_context_of ctx ctx' (some kept) h = refl

  conclude-context :
      (ctx ctx' : RequestContext) (p : L.Parser) (i : Impl) (o : Option ParseError)
      → is_some i.ctx ≡ true
      → conclude L ctx p i o ≡ conclude L ctx' p i o
  unfolding conclude
  conclude-context ctx ctx' p i (some e) h = rw (same_context_of ctx ctx' i.ctx h) refl
  conclude-context ctx ctx' p i none h = rw (same_context_of ctx ctx' i.ctx h) refl

  executed-context :
      (c : Codec L) (buffer : Text) (ctx ctx' : RequestContext) (d : Driven)
      → is_some (impl_of d).ctx ≡ true
      → executed L c buffer ctx d ≡ executed L c buffer ctx' d
  unfolding executed
  executed-context c buffer ctx ctx' (finished i) h =
      conclude-context ctx ctx' (L.after c.parser buffer) i
        (parser_error (L.result c.parser buffer)) h
  executed-context c buffer ctx ctx' (aborted n i) h =
      conclude-context ctx ctx' (L.after_abort c.parser buffer n) i
        (parser_error (L.abort_result c.parser buffer n)) h

  same_context :
      (c : Codec L) (buffer : Text) (ctx ctx' : RequestContext)
      → ctx.client_endpoint ≡ ctx'.client_endpoint
      → ctx.trace_parent ≡ ctx'.trace_parent
      → parse L c buffer ctx ≡ parse L c buffer ctx'
  unfolding parse prepare
  same_context c buffer ctx ctx' e t =
      executed-context c buffer ctx ctx' (driven ctx)
        (ap (λ (f : Http1CodecConfig × Bool). f.1) (drive-frame 0 events (prepare ctx c.impl)))
      ∙ ap (λ (i : Impl). executed L c buffer ctx' (drive 0 events i)) prepared
    where
      events : List Event
      events = L.callbacks c.parser buffer

      driven : RequestContext → Driven
      driven k = drive 0 events (prepare k c.impl)

      prepared : prepare ctx c.impl ≡ prepare ctx' c.impl
      prepared = ground (arith, e, t)

-- Where llhttp's reset gives the parser of a new codec: whatever a codec has been used for, after
-- `reset` it parses any buffer as a new codec of its configuration does, with the same context,
-- error and codec; what the context held before does not matter either, but for the client's
-- endpoint and the trace parent, which are kept.
pub parse-reset :
    (L : Llhttp) (config : Http1CodecConfig) (us : List (Use L)) (buffer : Text)
    (ctx ctx' : RequestContext)
    → ((p : L.Parser) → L.restart p ≡ L.initial)
    → ctx.client_endpoint ≡ ctx'.client_endpoint
    → ctx.trace_parent ≡ ctx'.trace_parent
    → parse L (reset L (use_all L (new_codec L config) us)) buffer ctx
      ≡ parse L (new_codec L config) buffer ctx'
parse-reset L config us buffer ctx ctx' restarts e t =
    ap (λ (c : Codec L). parse L c buffer ctx)
      (reset-new_codec L _ config (restarts _) (use_all-config L (new_codec L config) us))
    ∙ same_context L (new_codec L config) buffer ctx ctx' e t
