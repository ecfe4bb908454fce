-- ===== src/Runtime/Spine/Handling.antt =====
-- When `handle_connection` of src/runtime/spine.cpp writes a response.
use net.Base.{
  ◌≡◌, refl, ap, ap₂, ◌∙◌, Bool, true, false, not, ◌&&◌, ◌||◌, if◌then◌else◌, Option, none, some,
  arith, length,
}
use net.Protocol.Codec.{Llhttp}
use net.Observability.Metrics.{TlsShard, record_request}
use net.Runtime.Spine.{
  SpineConfig, RuntimeSpine, World, with_spine, Response, ReadOutcome, received, failed, Connection,
  check_start, finish, respond, after_read, handle_connection,
}

-- What other coroutines do leaves the spine's configuration as it is.
abbrev pub KeepsConfig : (World → World) → Type 0
KeepsConfig f = (w : World) → (f w).spine.config ≡ w.spine.config

-- No affinity check fails, or none is made.
abbrev pub passes : SpineConfig → Connection → Bool
passes config c =
    not config.enable_executor_affinity_checks
    || (c.socket_here && c.coroutine_here && c.still_here)

abbrev pub is_received : ReadOutcome → Bool
is_received (received request) = true
is_received failed = false

abbrev pub is_some : Option Response → Bool
is_some none = false
is_some (some r) = true

abbrev starts : Bool → Connection → Bool
starts checks c = not checks || (c.socket_here && c.coroutine_here)

check_start-starts :
    (c : Connection) (s : RuntimeSpine)
    → ((check_start c s).1 ≡ starts s.config.enable_executor_affinity_checks c)
      × ((check_start c s).0.config ≡ s.config)
unfolding check_start
check_start-starts c s = (ground arith, ground arith)

finish-written :
    (tls : TlsShard) (c : Connection) (w : World) (r : Response)
    → is_some (finish tls c w r).1
      ≡ ((not w.spine.config.enable_executor_affinity_checks || c.still_here) && c.write_ok)
unfolding finish
finish-written tls c w r = ground arith

written-if :
    (b : Bool) (r : World × Option Response) (w : World)
    → is_some (if b then r else (w, none)).1 ≡ (b && is_some r.1)
written-if true r w = refl
written-if false r w = refl

checks_joined :
    (checks a b d r o : Bool)
    → ((not checks || (a && b)) && (r && ((not checks || d) && o)))
      ≡ ((not checks || (a && b && d)) && r && o)
checks_joined checks a b d r o = ground arith

module _ (L : Llhttp) where
  after_read-written :
      (tls : TlsShard) (c : Connection) (w : World) (o : ReadOutcome)
      → KeepsConfig c.during_post
      → is_some (after_read L tls c w o).1 ≡ (
          is_received o
          && ((not w.spine.config.enable_executor_affinity_checks || c.still_here) && c.write_ok))
  unfolding after_read
  after_read-written tls c w failed keeps = refl
  after_read-written tls c w (received request) keeps =
      let counted = record w { registry = record_request (length request) tls w.registry } in
      finish-written tls c (c.during_post counted) (respond L counted request)
      ∙ ap (λ config. (not config.enable_executor_affinity_checks || c.still_here) && c.write_ok)
          (keeps counted)

  -- A response is written exactly when all affinity checks pass, or are switched off, the read brings
  -- bytes or the end of the stream, and the write succeeds, whatever other coroutines do to the
  -- worker's state meanwhile, save that they keep the spine's configuration.
  pub handle_connection-written :
      (tls : TlsShard) (c : Connection) (w : World)
      → KeepsConfig c.during_read
      → KeepsConfig c.during_post
      → is_some (handle_connection L tls c w).1
        ≡ (passes w.spine.config c && is_received c.read_outcome && c.write_ok)
  unfolding handle_connection
  handle_connection-written tls c w keeps keeps' =
      let (s, ok) = check_start c w.spine in
      let (start, same) = check_start-starts c w.spine in
      written-if ok (after_read L tls c (c.during_read (with_spine w s)) c.read_outcome)
        (with_spine w s)
      ∙ ap₂ ◌&&◌ start (
          after_read-written tls c (c.during_read (with_spine w s)) c.read_outcome keeps'
          ∙ ap
              (λ config.
                is_received c.read_outcome
                && ((not config.enable_executor_affinity_checks || c.still_here) && c.write_ok))
              (keeps (with_spine w s) ∙ same))
      ∙ checks_joined w.spine.config.enable_executor_affinity_checks c.socket_here c.coroutine_here
          c.still_here (is_received c.read_outcome) c.write_ok
