-- ===== src/Protocol/Codec/Requests/Fields.antt =====
-- What a request's headers leave in the context.
use net.Base.{
  ℕ, ◌+◌, ◌≤◌, ◌≡◌, refl, ap, ap₂, sym, ◌∙◌, Text, codes, text_eq, length, List, [], ◌∷◌, Option,
  none, some, not, ◌&&◌, ◌==◌, leb, is_empty, if◌then◌else◌, arith,
}
use net.Protocol.{RequestContext, success, missing_host, content_length_mismatch}
use net.Protocol.Headers.{store_header, to_lower, stoull}
use net.Protocol.Headers.Table.{length-assign, headers-store_header}
use net.Protocol.Codec.{Http1CodecConfig, validate}
use net.Protocol.Codec.Assembly.{Header, name, value}
use net.Protocol.Codec.Messages.{store_all, last_value, or_else}
use net.Protocol.Codec.Requests.{Request, last_span, host_of, length_of, is_mismatch, verdict}

pub or_else_assoc :
    {A : Type 0} (a b c : Option A) → or_else (or_else a b) c ≡ or_else a (or_else b c)
or_else_assoc none b c = refl
or_else_assoc (some x) b c = refl

pub or_else-none : {A : Type 0} (a : Option A) → or_else a none ≡ a
or_else-none none = refl
or_else-none (some x) = refl

abbrev pub declared : RequestContext → Option ℕ
declared ctx = if ctx.has_content_length then some ctx.content_length else none

pub declared-store_header :
    (n v : Text) (ctx : RequestContext)
    → declared (store_header n v ctx)
      ≡ or_else
          (if text_eq (to_lower n) (codes "content-length") then stoull v else none)
          (declared ctx)
unfolding store_header
declared-store_header n v ctx = ground arith

pub host-store_header :
    (n v : Text) (ctx : RequestContext)
    → (store_header n v ctx).host ≡ (if text_eq (to_lower n) (codes "host") then v else ctx.host)
unfolding store_header
host-store_header n v ctx = ground arith

abbrev pub rest_of : RequestContext → Text × Text
rest_of ctx = (ctx.target, ctx.body)

pub rest_of-store_header :
    (n v : Text) (ctx : RequestContext) → rest_of (store_header n v ctx) ≡ rest_of ctx
unfolding store_header
rest_of-store_header n v ctx = ground arith

pub declared-store_all :
    (hs : List Header) (ctx : RequestContext)
    → declared (store_all hs ctx) ≡ or_else (length_of hs) (declared ctx)
unfolding store_all length_of
declared-store_all [] ctx = refl
declared-store_all (h ∷ hs) ctx =
    declared-store_all hs (store_header (name h) (value h) ctx)
    ∙ ap (or_else (length_of hs)) (declared-store_header (name h) (value h) ctx)
    ∙ sym (or_else_assoc (length_of hs) _ (declared ctx))

pub host-store_all :
    (hs : List Header) (ctx : RequestContext) → (store_all hs ctx).host ≡ host_of hs ctx.host
unfolding store_all last_value
host-store_all [] ctx = refl
host-store_all (h ∷ hs) ctx =
    host-store_all hs (store_header (name h) (value h) ctx)
    ∙ ap (host_of hs) (host-store_header (name h) (value h) ctx)
    ∙ ground arith

pub rest_of-store_all :
    (hs : List Header) (ctx : RequestContext) → rest_of (store_all hs ctx) ≡ rest_of ctx
unfolding store_all
rest_of-store_all [] ctx = refl
rest_of-store_all (h ∷ hs) ctx =
    rest_of-store_all hs (store_header (name h) (value h) ctx)
    ∙ rest_of-store_header (name h) (value h) ctx

-- The table has no more entries than there are headers.
pub length-store_all :
    (hs : List Header) (ctx : RequestContext)
    → length (store_all hs ctx).headers ≤ length hs + length ctx.headers
unfolding store_all
length-store_all [] ctx = omega arith
length-store_all (h ∷ hs) ctx =
    let ctx' = store_header (name h) (value h) ctx in
    omega (
      arith,
      length-store_all hs ctx',
      ap length (headers-store_header (name h) (value h) ctx),
      length-assign (to_lower (name h)) (value h) ctx.headers,
    )

pub is_mismatch-declared :
    (ctx : RequestContext)
    → is_mismatch (declared ctx) ctx.body
      ≡ (ctx.has_content_length && not (length ctx.body == ctx.content_length))
is_mismatch-declared ctx = ground arith

-- The checks at the end, by what the headers and the body say.
pub validate-verdict :
    (config : Http1CodecConfig) (major minor : ℕ) (r : Request) (ctx : RequestContext)
    → ctx.host ≡ host_of r.headers []
    → declared ctx ≡ length_of r.headers
    → ctx.body ≡ last_span [] r.bodies
    → validate config major minor ctx ≡ verdict config major minor r
unfolding validate verdict
validate-verdict config major minor r ctx h d b =
    let wants = config.require_host_header && major == 1 && leb 1 minor in
    ap₂
      (λ host wrong.
        if wants && is_empty host
        then missing_host
        else if wrong
        then content_length_mismatch
        else success)
      h (sym (is_mismatch-declared ctx) ∙ ap₂ is_mismatch d b)
