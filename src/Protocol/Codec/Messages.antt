-- ===== src/Protocol/Codec/Messages.antt =====
-- What a whole message's headers leave in the request context.
use net.Base.{
  ℕ, suc, ◌+◌, ◌<◌, ◌≤◌, ◌≡◌, ◌≢◌, refl, ap, ◌∙◌, Text, length, List, [], ◌∷◌, Option, none, some,
  if◌then◌else◌, arith, All, text_eq,
}
use net.Protocol.{RequestContext}
use net.Protocol.Headers.{u64_mod, store_header, to_lower, lookup}
use net.Protocol.Headers.Table.{lookup-store_header}
use net.Protocol.Codec.{Http1CodecConfig, Event, headers_complete, proceed, on_event, drive}
use net.Protocol.Codec.Assembly.{
  Header, name, value, size, header_events, at, GoesOn, GoesOn-step, GoesOn-trans, GoesOn-to,
  first_header-GoesOn, next_header-GoesOn,
}

abbrev pub all_events : List Header → List Event → List Event
all_events [] es = es
all_events (h ∷ hs) es = header_events h (all_events hs es)

abbrev pub sizes : List Header → ℕ
sizes [] = 0
sizes (h ∷ hs) = size h + sizes hs

-- The headers stored one after the other.
unfoldable pub store_all : List Header → RequestContext → RequestContext
store_all [] ctx = ctx
store_all (h ∷ hs) ctx = store_all hs (store_header (name h) (value h) ctx)

-- A header has a name, and a value that is not empty.
abbrev pub HasValue : Header → Type 0
HasValue h = (name h ≢ []) × (value h ≢ [])

module _ (config : Http1CodecConfig) (word : config.max_header_size < u64_mod) where
  complete-step :
      (ctx : RequestContext) (f v : Text) (t : ℕ)
      → f ≢ []
      → length (store_header f v ctx).headers ≤ config.max_headers
      → on_event headers_complete (at config word ctx f v t)
        ≡ (at config word (store_header f v ctx) [] [] t, proceed)
  unfolding on_event
  complete-step ctx [] v t named few = absurd (named refl)
  complete-step ctx (c ∷ f) v t named few = ground arith

  no_headers :
      (ctx : RequestContext)
      → length ctx.headers ≤ config.max_headers
      → on_event headers_complete (at config word ctx [] [] 0)
        ≡ (at config word ctx [] [] 0, proceed)
  unfolding on_event
  no_headers ctx few = ground arith

  waiting-GoesOn :
      (n : ℕ) (hs : List Header) (es : List Event) (ctx : RequestContext) (f v : Text) (t : ℕ)
      → f ≢ []
      → v ≢ []
      → All HasValue hs
      → t + sizes hs ≤ config.max_header_size
      → length (store_all hs (store_header f v ctx)).headers ≤ config.max_headers
      → GoesOn n
          (all_events hs (headers_complete ∷ es))
          (at config word ctx f v t)
          es
          (at config word (store_all hs (store_header f v ctx)) [] [] (t + sizes hs))
  unfolding store_all
  waiting-GoesOn n [] es ctx f v t named some_value h fits few =
      GoesOn-step n headers_complete es es _ _ _ (complete-step ctx f v t named few) (
        suc n,
        ap (λ x. drive (suc n) es (at config word (store_header f v ctx) [] [] x)) (omega arith),
      )
  waiting-GoesOn n (h ∷ hs) es ctx f v t named some_value (k, ks) fits few =
      GoesOn-trans n _ _ es _ _ _
        (next_header-GoesOn config word n h _ ctx f v t some_value (omega arith))
        (λ m.
          GoesOn-to m _ es _ _ _
            (ap
              (λ x.
                at config word
                  (store_all hs (store_header (name h) (value h) (store_header f v ctx))) [] [] x)
              (omega arith))
            (waiting-GoesOn m hs es (store_header f v ctx) (name h) (value h) (t + size h) k.0 k.1
              ks (omega arith) few))

  -- A message whose headers have names, and values that are not empty, is stored header by header,
  -- however its names and values are cut into spans, if their size and their number are within the
  -- limits, and the limit of the size is below 2^64.
  pub headers-GoesOn :
      (n : ℕ) (hs : List Header) (es : List Event) (ctx : RequestContext)
      → All HasValue hs
      → sizes hs ≤ config.max_header_size
      → length (store_all hs ctx).headers ≤ config.max_headers
      → GoesOn n
          (all_events hs (headers_complete ∷ es))
          (at config word ctx [] [] 0)
          es
          (at config word (store_all hs ctx) [] [] (sizes hs))
  unfolding store_all
  headers-GoesOn n [] es ctx h fits few =
      GoesOn-step n headers_complete es es _ _ _ (no_headers ctx few) (suc n, refl)
  headers-GoesOn n (h ∷ hs) es ctx (k, ks) fits few =
      GoesOn-trans n _ _ es _ _ _ (first_header-GoesOn config word n h _ ctx 0 (omega arith)) (λ m.
        GoesOn-to m _ es _ _ _
          (ap (λ x. at config word (store_all hs (store_header (name h) (value h) ctx)) [] [] x)
            (omega arith))
          (waiting-GoesOn m hs es ctx (name h) (value h) (0 + size h) k.0 k.1 ks (omega arith) few))

-- The value of the last header whose name is the key, without regard to case.
unfoldable pub last_value : Text → List Header → Option Text
last_value key [] = none
last_value key (h ∷ hs) = elim (last_value key hs) [
  | some v ↦ some v
  | none ↦ if text_eq (to_lower (name h)) key then some (value h) else none
]

abbrev pub or_else {ℓ} : {A : Type ℓ} → Option A → Option A → Option A
or_else (some v) o = some v
or_else none o = o

-- After a message's headers the table has, under each key, the value of the last header of that name.
pub lookup-store_all :
    (key : Text) (hs : List Header) (ctx : RequestContext)
    → lookup key (store_all hs ctx).headers ≡ or_else (last_value key hs) (lookup key ctx.headers)
unfolding store_all last_value
lookup-store_all key [] ctx = refl
lookup-store_all key (h ∷ hs) ctx =
    lookup-store_all key hs (store_header (name h) (value h) ctx)
    ∙ ap (or_else (last_value key hs)) (lookup-store_header (name h) (value h) key ctx)
    ∙ ground arith
