-- ===== src/Protocol/Codec/Assembly.antt =====
-- How the callbacks put the spans of header names and values together.
use net.Base.{
  ℕ, suc, ◌+◌, ◌<◌, ◌≤◌, ◌≡◌, ◌≢◌, refl, ap, ap₂, ◌∙◌, Text, length, length-append, List, [], ◌∷◌,
  ◌++◌, append-nil, append_assoc, map, some, arith,
}
use net.Protocol.{RequestContext, success}
use net.Protocol.Headers.{u64_mod, store_header}
use net.Protocol.Codec.{
  Impl, Http1CodecConfig, Event, header_field, header_value, proceed, abort, on_event, aborted,
  drive,
}

unfoldable pub concat : List Text → Text
concat [] = []
concat (s ∷ ss) = s ++ concat ss

-- A header as the spans of its name, of which there is a first, and those of its value.
pub record Header : Type 0 where
  pub first : Text
  pub more : List Text
  pub values : List Text

abbrev pub name : Header → Text
name h = h.first ++ concat h.more

abbrev pub value : Header → Text
value h = concat h.values

abbrev pub header_events : Header → List Event → List Event
header_events h es =
    header_field h.first ∷ (map header_field h.more ++ (map header_value h.values ++ es))

abbrev pub size : Header → ℕ
size h = length h.first + length (concat h.more) + length (value h)

drive-proceed :
    (n : ℕ) (e : Event) (es : List Event) (i j : Impl)
    → on_event e i ≡ (j, proceed)
    → drive n (e ∷ es) i ≡ drive (suc n) es j
unfolding drive
drive-proceed n e es i j h =
    λ t. elim (h t).1 [ proceed ↦ drive (suc n) es (h t).0 | abort ↦ aborted n (h t).0 ]

-- The run over some callbacks goes on with the rest from a given state.
abbrev pub GoesOn : ℕ → List Event → Impl → List Event → Impl → Type 0
GoesOn n es i rest j = (m : ℕ) × (drive n es i ≡ drive m rest j)

pub GoesOn-step :
    (n : ℕ) (e : Event) (es rest : List Event) (i j k : Impl)
    → on_event e i ≡ (j, proceed)
    → GoesOn (suc n) es j rest k
    → GoesOn n (e ∷ es) i rest k
GoesOn-step n e es rest i j k h (m, more) = (m, drive-proceed n e es i j h ∙ more)

pub GoesOn-to :
    (n : ℕ) (es rest : List Event) (i j k : Impl)
    → j ≡ k
    → GoesOn n es i rest j
    → GoesOn n es i rest k
GoesOn-to n es rest i j k e g = rw e at g

pub GoesOn-trans :
    (n : ℕ) (es rest last : List Event) (i j k : Impl)
    → GoesOn n es i rest j
    → ((m : ℕ) → GoesOn m rest j last k)
    → GoesOn n es i last k
GoesOn-trans n es rest last i j k (m, first) g = ((g m).0, first ∙ (g m).1)

module _ (config : Http1CodecConfig) (word : config.max_header_size < u64_mod) where
  -- The state while a message's headers come in.
  abbrev pub at : RequestContext → Text → Text → ℕ → Impl
  at ctx field val total = record {
    config = config;
    ctx = some ctx;
    current_header_field = field;
    current_header_value = val;
    total_header_size = total;
    parse_error = success;
  }

  name-step :
      (ctx : RequestContext) (f s : Text) (t : ℕ)
      → t + length s ≤ config.max_header_size
      → on_event (header_field s) (at ctx f [] t) ≡ (at ctx (f ++ s) [] (t + length s), proceed)
  unfolding on_event
  name-step ctx f s t fits = ground arith

  value-step :
      (ctx : RequestContext) (f v s : Text) (t : ℕ)
      → t + length s ≤ config.max_header_size
      → on_event (header_value s) (at ctx f v t) ≡ (at ctx f (v ++ s) (t + length s), proceed)
  unfolding on_event
  value-step ctx f v s t fits = ground arith

  save-step :
      (ctx : RequestContext) (f v s : Text) (t : ℕ)
      → v ≢ []
      → t + length s ≤ config.max_header_size
      → on_event (header_field s) (at ctx f v t)
        ≡ (at (store_header f v ctx) s [] (t + length s), proceed)
  unfolding on_event
  save-step ctx f [] s t some_value fits = absurd (some_value refl)
  save-step ctx f (c ∷ v) s t some_value fits = ground arith

  names-GoesOn :
      (n : ℕ) (ss : List Text) (es : List Event) (ctx : RequestContext) (f : Text) (t : ℕ)
      → t + length (concat ss) ≤ config.max_header_size
      → GoesOn n
          (map header_field ss ++ es)
          (at ctx f [] t)
          es
          (at ctx (f ++ concat ss) [] (t + length (concat ss)))
  unfolding concat
  names-GoesOn n [] es ctx f t fits =
      (n, rw (append-nil f) (ap (λ x. drive n es (at ctx f [] x)) (omega arith)))
  names-GoesOn n (s ∷ ss) es ctx f t fits =
      let sum = length-append s (concat ss) in
      GoesOn-step n (header_field s) _ es _ _ _ (name-step ctx f s t (omega arith)) (
        GoesOn-to (suc n) _ es _ _ _
          (ap₂ (λ x y. at ctx x [] y) (append_assoc f s (concat ss)) (omega (arith, sum)))
          (names-GoesOn (suc n) ss es ctx (f ++ s) (t + length s) (omega (arith, sum))))

  values-GoesOn :
      (n : ℕ) (ss : List Text) (es : List Event) (ctx : RequestContext) (f v : Text) (t : ℕ)
      → t + length (concat ss) ≤ config.max_header_size
      → GoesOn n
          (map header_value ss ++ es)
          (at ctx f v t)
          es
          (at ctx f (v ++ concat ss) (t + length (concat ss)))
  unfolding concat
  values-GoesOn n [] es ctx f v t fits =
      (n, rw (append-nil v) (ap (λ x. drive n es (at ctx f v x)) (omega arith)))
  values-GoesOn n (s ∷ ss) es ctx f v t fits =
      let sum = length-append s (concat ss) in
      GoesOn-step n (header_value s) _ es _ _ _ (value-step ctx f v s t (omega arith)) (
        GoesOn-to (suc n) _ es _ _ _
          (ap₂ (λ x y. at ctx f x y) (append_assoc v s (concat ss)) (omega (arith, sum)))
          (values-GoesOn (suc n) ss es ctx f (v ++ s) (t + length s) (omega (arith, sum))))

  -- The spans of a header behind the first.
  pub rest_of_header-GoesOn :
      (n : ℕ) (h : Header) (es : List Event) (ctx : RequestContext) (t : ℕ)
      → t + size h ≤ config.max_header_size
      → GoesOn n
          (map header_field h.more ++ (map header_value h.values ++ es))
          (at ctx h.first [] (t + length h.first))
          es
          (at ctx (name h) (value h) (t + size h))
  rest_of_header-GoesOn n h es ctx t fits =
      GoesOn-trans n _ _ es _ _ _
        (names-GoesOn n h.more _ ctx h.first (t + length h.first) (omega arith))
        (λ m. GoesOn-to m _ es _ _ _ (ap (λ x. at ctx (name h) (value h) x) (omega arith)) (
          values-GoesOn m h.values es ctx (name h) [] (t + length h.first + length (concat h.more))
            (omega arith)))

  -- The spans of a header, from a state in which nothing waits to be stored.
  pub first_header-GoesOn :
      (n : ℕ) (h : Header) (es : List Event) (ctx : RequestContext) (t : ℕ)
      → t + size h ≤ config.max_header_size
      → GoesOn n (header_events h es) (at ctx [] [] t) es (at ctx (name h) (value h) (t + size h))
  first_header-GoesOn n h es ctx t fits =
      GoesOn-step n (header_field h.first) _ es _ _ _ (name-step ctx [] h.first t (omega arith))
        (rest_of_header-GoesOn (suc n) h es ctx t fits)

  -- The spans of a header, from a state in which one with a value waits.
  pub next_header-GoesOn :
      (n : ℕ) (h : Header) (es : List Event) (ctx : RequestContext) (f v : Text) (t : ℕ)
      → v ≢ []
      → t + size h ≤ config.max_header_size
      → GoesOn n
          (header_events h es)
          (at ctx f v t)
          es
          (at (store_header f v ctx) (name h) (value h) (t + size h))
  next_header-GoesOn n h es ctx f v t some_value fits =
      GoesOn-step n (header_field h.first) _ es _ _ _
        (save-step ctx f v h.first t some_value (omega arith))
        (rest_of_header-GoesOn (suc n) h es (store_header f v ctx) t fits)

  -- The spans of a header, from a state in which one without a value waits: its name is added to the
  -- one that waits.
  pub empty_header-GoesOn :
      (n : ℕ) (h : Header) (es : List Event) (ctx : RequestContext) (f : Text) (t : ℕ)
      → t + size h ≤ config.max_header_size
      → GoesOn n
          (header_events h es)
          (at ctx f [] t)
          es
          (at ctx (f ++ name h) (value h) (t + size h))
  empty_header-GoesOn n h es ctx f t fits =
      GoesOn-to n _ es _ _ _
        (ap₂ (λ x y. at ctx x (value h) y) (append_assoc f h.first (concat h.more)) (omega arith))
        (GoesOn-trans n _ _ es _ _ _
          (GoesOn-step n (header_field h.first) _ _ _ _ _ (name-step ctx f h.first t (omega arith))
            (names-GoesOn (suc n) h.more _ ctx (f ++ h.first) (t + length h.first) (omega arith)))
          (λ m.
            values-GoesOn m h.values es ctx (f ++ h.first ++ concat h.more) []
              (t + length h.first + length (concat h.more)) (omega arith)))
