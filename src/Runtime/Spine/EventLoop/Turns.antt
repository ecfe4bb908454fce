-- ===== src/Runtime/Spine/EventLoop/Turns.antt =====
-- The turns of a connection, one after the other, are `handle_connection`.
use net.Base.{Option, none, some}
use net.Protocol.Codec.{Llhttp}
use net.Observability.Metrics.{TlsShard}
use net.Runtime.Spine as Spine
use net.Runtime.Spine.{World, Response, Connection}
use net.Runtime.Spine.EventLoop.{Task, starting, unread, unwritten, written, turn}

-- What others do while a connection waits; nothing, once it has ended.
abbrev pub between : (World → World) → World × Task → World × Task
between f (w, unread) = (w, unread)
between f (w, unwritten n) = (w, unwritten n)
between f (w, written n r) = (w, written n r)
between f (w, t) = (f w, t)

abbrev pub response_of : Task → Option Response
response_of (written n r) = some r
response_of _ = none

abbrev pub outcome : World × Task → World × Option Response
outcome (w, t) = (w, response_of t)

module _ (L : Llhttp) (tls : TlsShard) (c : Connection) where
  abbrev pub next : World × Task → World × Task
  next (w, t) = turn L tls c w t

  -- The four turns of a connection, with what others do at its three waits.
  pub all_turns : World → World × Task
  all_turns w =
      let first = turn L tls c w starting in
      let second = next (between c.during_read first) in
      let third = next (between c.during_post second) in next (between c.during_write third)

  -- The turns after the read.
  last_turns : World × Task → World × Option Response
  last_turns x = outcome (next (between c.during_write (next (between c.during_post x))))
