-- ===== src/Runtime/Spine/EventLoop.antt =====
-- src/runtime/spine.cpp: the coroutines of one worker, whose thread runs one of them at a time,
-- from one wait to the next. `Handling` has one connection with the others as any change of the
-- worker's state; here all connections take turns.
pub mod Turns
pub mod Records
pub mod Totals
use net.Base.{
  ℕ, Bool, true, false, List, [], ◌∷◌, ◌++◌, length, get_elem?, set, Option, none, some, ◌≡◌,
  if◌then◌else◌,
}
use net.Routing.Snapshot.{RouteSnapshot}
use net.Protocol.Codec.{Llhttp}
use net.Observability.Metrics.{MetricsRegistry, TlsShard, record_request, record_response}
use net.Observability.Metrics.Recording.{Record, record_event}
use net.Runtime.Spine as Spine
use net.Runtime.Spine.{
  World, with_spine, reload_route_config, Response, ReadOutcome, received, failed, Connection,
  check_start, check_end, respond,
}
use net.Runtime.Spine.Loop.{AcceptOutcome, Accepted, spawned, ended, accept_step}

-- Where the coroutine of a connection waits, or how it has ended: with the number of bytes that it has
-- read, and its response.
pub data Task : Type 0 where
  starting : Task
  reading : Task
  posted : ℕ → Response → Task
  writing : ℕ → Response → Task
  unread : Task
  unwritten : ℕ → Task
  written : ℕ → Response → Task

-- What an accepted connection adds to the tasks.
abbrev pub new_task : Accepted → List Task
new_task spawned = starting ∷ []
new_task _ = []

abbrev pub goes_on : Accepted → Bool
goes_on ended = false
goes_on _ = true

module _ (L : Llhttp) (tls : TlsShard) where
  -- The turn after the read.
  pub after_read : World → ReadOutcome → World × Task
  after_read w failed = (w, unread)
  after_read w (received request) =
      let counted = record w { registry = record_request (length request) tls w.registry } in
      (counted, posted (length request) (respond L counted request))

  -- The turn after the write.
  pub after_write : Bool → World → ℕ → Response → World × Task
  after_write write_ok w n (status_code, payload) =
      if write_ok
      then (
        record w { registry = record_response status_code (length payload) tls w.registry },
        written n (status_code, payload),
      )
      else (w, unwritten n)

  -- One turn of `handle_connection`, with what the system answers.
  unfoldable pub turn : Connection → World → Task → World × Task
  unfolding after_read after_write
  turn c w starting =
      let (s, ok) = check_start c w.spine in (with_spine w s, if ok then reading else unread)
  turn c w reading = after_read w c.read_outcome
  turn c w (posted n r) =
      let (s, ok) = check_end c w.spine in (with_spine w s, if ok then writing n r else unwritten n)
  turn c w (writing n r) = after_write c.write_ok w n r
  turn c w t = (w, t)

  -- The worker's state, whether its accept loop still runs, the tasks of all connections that it has
  -- accepted, and what other threads have recorded, the latest first.
  pub record Loop : Type 0 where
    pub world : World
    pub is_accepting : Bool
    pub tasks : List Task
    pub elsewhere : List (TlsShard × Record)

  -- A turn of one connection or of the accept loop, and what other threads do in between: to reload the
  -- routes, to close the acceptor, and to record.
  pub data Step (l : Loop) : Loop → Type 0 where
    run_task :
        (i : ℕ) (c : Connection) {t : Task}
        → get_elem? l.tasks i ≡ some t
        → Step l
            (record l { world = (turn c l.world t).0; tasks = set l.tasks i (turn c l.world t).1 })
    run_accept :
        (o : AcceptOutcome)
        → l.is_accepting ≡ true
        → Step l (record l {
          world = (accept_step tls l.world o).0;
          is_accepting = goes_on (accept_step tls l.world o).1;
          tasks = l.tasks ++ new_task (accept_step tls l.world o).1;
        })
    reload :
        (snapshot : RouteSnapshot)
        → Step l
            (record l { world = with_spine l.world (reload_route_config snapshot l.world.spine) })
    close : Step l (record l { world = with_spine l.world (Spine.stop l.world.spine) })
    record_elsewhere :
        (e : TlsShard × Record)
        → Step l (record l {
          world = record l.world { registry = record_event l.world.registry e };
          elsewhere = e ∷ l.elsewhere;
        })

  -- What a worker whose state is `w` comes to once its accept loop runs.
  pub data Reach (w : World) : Loop → Type 0 where
    start : Reach w (record { world = w; is_accepting = true; tasks = []; elsewhere = [] })
    later : {l m : Loop} → Reach w l → Step l m → Reach w m
