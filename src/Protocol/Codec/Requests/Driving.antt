-- ===== src/Protocol/Codec/Requests/Driving.antt =====
-- The callbacks of a request go through, and what they leave.
use net.Base.{
  ℕ, suc, ◌<◌, ◌≤◌, ◌≡◌, refl, ap, sym, Text, length, List, [], ◌∷◌, ◌++◌, append_assoc, append-nil,
  map, All,
}
use net.Protocol.{RequestContext}
use net.Protocol.Headers.{u64_mod}
use net.Protocol.Codec.{
  Http1CodecConfig, Event, message_complete, url, body, on_event, drive, finished,
}
use net.Protocol.Codec.Assembly.{concat, at, GoesOn, GoesOn-step, GoesOn-trans, GoesOn-to}
use net.Protocol.Codec.Messages.{sizes, store_all, HasValue, headers-GoesOn}
use net.Protocol.Codec.Requests.{Request, body_events, header_events, events, last_span}

unfoldable pub with_target : Text → RequestContext → RequestContext
with_target s ctx = record ctx { target = ctx.target ++ s }

unfoldable pub with_bodies : List Text → RequestContext → RequestContext
with_bodies [] ctx = ctx
with_bodies (b ∷ bs) ctx = with_bodies bs (record ctx { body = b })

module _ (config : Http1CodecConfig) (word : config.max_header_size < u64_mod) where
  urls-GoesOn :
      (n : ℕ) (us : List Text) (es : List Event) (ctx : RequestContext)
      → GoesOn n
          (map url us ++ es)
          (at config word ctx [] [] 0)
          es
          (at config word (with_target (concat us) ctx) [] [] 0)
  unfolding concat with_target on_event
  urls-GoesOn n [] es ctx = (
    n,
    ap (λ s. drive n es (at config word (record ctx { target = s }) [] [] 0))
        (sym (append-nil ctx.target)),
  )
  urls-GoesOn n (u ∷ us) es ctx = GoesOn-step n (url u) _ es _ _ _ refl (
      GoesOn-to (suc n) _ es _ _ _
        (ap (λ s. at config word (record ctx { target = s }) [] [] 0)
          (append_assoc ctx.target u (concat us)))
        (urls-GoesOn (suc n) us es (with_target u ctx)))

  bodies-GoesOn :
      (n : ℕ) (bs : List Text) (es : List Event) (ctx : RequestContext) (t : ℕ)
      → GoesOn n
          (map body bs ++ es)
          (at config word ctx [] [] t)
          es
          (at config word (with_bodies bs ctx) [] [] t)
  unfolding with_bodies on_event
  bodies-GoesOn n [] es ctx t = (n, refl)
  bodies-GoesOn n (b ∷ bs) es ctx t =
      GoesOn-step n (body b) _ es _ _ _ refl
        (bodies-GoesOn (suc n) bs es (record ctx { body = b }) t)

  -- The callbacks of a request go through to their end.
  pub drive-events :
      (r : Request) (ctx : RequestContext)
      → All HasValue r.headers
      → sizes r.headers ≤ config.max_header_size
      → length (store_all r.headers (with_target (concat r.urls) ctx)).headers ≤ config.max_headers
      → drive 0 (events r) (at config word ctx [] [] 0)
        ≡ finished (
            at config word
              (with_bodies r.bodies (store_all r.headers (with_target (concat r.urls) ctx)))
              []
              []
              (sizes r.headers))
  unfolding drive on_event
  drive-events r ctx named fits few =
      let begun = at config word ctx [] [] 0 in
      let targeted = at config word (with_target (concat r.urls) ctx) [] [] 0 in
      let stored = store_all r.headers (with_target (concat r.urls) ctx) in
      let headed = at config word stored [] [] (sizes r.headers) in
      let done = at config word (with_bodies r.bodies stored) [] [] (sizes r.headers) in
      let complete = message_complete ∷ [] in
      (GoesOn-trans 1 (map url r.urls ++ header_events r) (header_events r) [] begun targeted done
        (urls-GoesOn 1 r.urls (header_events r) ctx)
        (λ m.
          GoesOn-trans m (header_events r) (body_events r) [] targeted headed done
            (headers-GoesOn config word m r.headers (body_events r)
              (with_target (concat r.urls) ctx) named fits few)
            (λ k.
              GoesOn-trans k (body_events r) complete [] headed done done
                (bodies-GoesOn k r.bodies complete stored (sizes r.headers))
                (λ p. GoesOn-step p message_complete [] [] done done done refl (suc p, refl))))).1

pub body-with_bodies :
    (bs : List Text) (ctx : RequestContext) → (with_bodies bs ctx).body ≡ last_span ctx.body bs
unfolding with_bodies
body-with_bodies [] ctx = refl
body-with_bodies (b ∷ bs) ctx = body-with_bodies bs (record ctx { body = b })

-- All that the body does not touch.
abbrev pub head_of : RequestContext → RequestContext
head_of ctx = record ctx { body = [] }

pub head_of-with_bodies :
    (bs : List Text) (ctx : RequestContext) → head_of (with_bodies bs ctx) ≡ head_of ctx
unfolding with_bodies
head_of-with_bodies [] ctx = refl
head_of-with_bodies (b ∷ bs) ctx = head_of-with_bodies bs (record ctx { body = b })
