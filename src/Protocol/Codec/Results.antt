-- ===== src/Protocol/Codec/Results.antt =====
-- Which results `parse` can have, and what a success guarantees.
use net.Base.{
  ℕ, suc, ◌≤◌, ◌≡◌, ◌≢◌, refl, ◌⊎◌, Text, Bool, true, false, length, List, [], ◌∷◌, Option, none,
  some, arith,
}
use net.Protocol.{
  RequestContext, ParseError, success, need_more_data, header_too_large, too_many_headers,
}
use net.Protocol.Codec.{
  Impl, Http1CodecConfig, Event, message_begin, headers_complete, message_complete, url,
  header_field, header_value, body, Returned, proceed, abort, on_event, Driven, finished, aborted,
  drive, Errno, Llhttp, parser_error, prepare, validate,
}
use net.Protocol.Codec.Parsing.{Codec, executed, conclude, parse, fill, context_of}

-- The state between callbacks that return 0: no error is kept, and the headers so far are within the
-- size allowed.
pub record IsSound (config : Http1CodecConfig) (i : Impl) : Type 0 where
  pub no_error : i.parse_error ≡ success
  pub configured : i.config ≡ config
  pub size : i.total_header_size ≤ config.max_header_size

module _ (config : Http1CodecConfig) where
  on_event-IsSound :
      (e : Event) (i : Impl)
      → (on_event e i).1 ≡ proceed
      → IsSound config i
      → IsSound config (on_event e i).0
  unfolding on_event
  on_event-IsSound message_begin i h k = k
  on_event-IsSound headers_complete i h k = ground arith
  on_event-IsSound message_complete i h k = k
  on_event-IsSound (url at) i h k = ground arith
  on_event-IsSound (header_field at) i h k = ground arith
  on_event-IsSound (header_value at) i h k = ground arith
  on_event-IsSound (body at) i h k = ground arith

-- What holds of the state when all callbacks have returned 0.
abbrev Finishes : (Impl → Type 0) → Driven → Type 0
Finishes P (finished i) = P i
Finishes P (aborted n i) = Unit

module _ (P : Impl → Type 0)
    (keeps : (e : Event) (i : Impl) → (on_event e i).1 ≡ proceed → P i → P (on_event e i).0) where
  step-Finishes :
      (n : ℕ) (es : List Event) (r : Impl × Returned)
      → ((m : ℕ) (j : Impl) → P j → Finishes P (drive m es j))
      → (r.1 ≡ proceed → P r.0)
      → Finishes P (elim r.1 [ proceed ↦ drive (suc n) es r.0 | abort ↦ aborted n r.0 ])
  step-Finishes n es (j, proceed) rest h = rest (suc n) j (h refl)
  step-Finishes n es (j, abort) rest h = tt

  drive-Finishes : (n : ℕ) (es : List Event) (i : Impl) → P i → Finishes P (drive n es i)
  unfolding drive
  drive-Finishes n [] i h = h
  drive-Finishes n (e ∷ es) i h =
      step-Finishes n es (on_event e i) (λ m j k. drive-Finishes m es j k) (λ q. keeps e i q h)

abbrev is_possible : ParseError → Bool
is_possible need_more_data = false
is_possible header_too_large = false
is_possible too_many_headers = false
is_possible _ = true

validate-is_possible :
    (config : Http1CodecConfig) (major minor : ℕ) (ctx : RequestContext)
    → is_possible (validate config major minor ctx) ≡ true
unfolding validate
validate-is_possible config major minor ctx = ground arith

parser_error-is_possible :
    (err : Errno) (e : ParseError) → parser_error err ≡ some e → is_possible e ≡ true
unfolding parser_error
parser_error-is_possible err e h = ground arith

-- What a context that passes the last checks is known to hold.
pub record IsComplete (config : Http1CodecConfig) (major minor : ℕ) (ctx : RequestContext)
    : Type 0 where
  pub has_host : (config.require_host_header ≡ false) ⊎ (major ≢ 1) ⊎ (minor ≡ 0) ⊎ (ctx.host ≢ [])
  pub has_body : (ctx.has_content_length ≡ false) ⊎ (length ctx.body ≡ ctx.content_length)

ne_of_is_possible :
    (e : ParseError)
    → is_possible e ≡ true
    → (e ≢ need_more_data) × (e ≢ header_too_large) × (e ≢ too_many_headers)
ne_of_is_possible e h = (λ q. ground (arith, q), λ q. ground (arith, q), λ q. ground (arith, q))

module _ (L : Llhttp) where
  conclude-is_possible :
      (ctx : RequestContext) (p : L.Parser) (i : Impl) (err : Errno) (o : Option ParseError)
      → parser_error err ≡ o
      → i.parse_error ≡ success
      → is_possible (conclude L ctx p i o).2 ≡ true
  unfolding conclude
  conclude-is_possible ctx p i err (some x) e h = parser_error-is_possible err x e
  conclude-is_possible ctx p i err none e h = rw h (
      validate-is_possible i.config (L.http_major p) (L.http_minor p)
        (fill L p (context_of L ctx i.ctx)))

  -- What is known when the callbacks have finished, or one of them has failed.
  executed-is_possible :
      (c : Codec L) (buffer : Text) (ctx : RequestContext) (d : Driven)
      → Finishes (IsSound c.impl.config) d
      → is_possible (executed L c buffer ctx d).2 ≡ true
  unfolding executed
  executed-is_possible c buffer ctx (finished i) h =
      conclude-is_possible ctx (L.after c.parser buffer) i (L.result c.parser buffer) _ refl
        h.no_error
  executed-is_possible c buffer ctx (aborted n i) h = rw (L.abort_result-lem c.parser buffer n) refl

  drive-IsSound :
      (c : Codec L) (buffer : Text) (ctx : RequestContext)
      → Finishes
          (IsSound c.impl.config)
          (drive 0 (L.callbacks c.parser buffer) (prepare ctx c.impl))
  unfolding prepare
  drive-IsSound c buffer ctx =
      drive-Finishes (IsSound c.impl.config) (on_event-IsSound c.impl.config) 0
        (L.callbacks c.parser buffer) (prepare ctx c.impl) (ground arith)

  -- Whatever the input, `parse` never reports that it needs more data, that the headers are too large
  -- or that there are too many: a callback that finds one of the last two aborts llhttp, and the error
  -- of llhttp is looked at first.
  pub parse_possible :
      (c : Codec L) (buffer : Text) (ctx : RequestContext)
      → ((parse L c buffer ctx).2 ≢ need_more_data)
        × ((parse L c buffer ctx).2 ≢ header_too_large)
        × ((parse L c buffer ctx).2 ≢ too_many_headers)
  unfolding parse
  parse_possible c buffer ctx = ne_of_is_possible _ (
      executed-is_possible c buffer ctx (drive 0 (L.callbacks c.parser buffer) (prepare ctx c.impl))
        (drive-IsSound c buffer ctx))
