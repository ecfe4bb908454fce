-- ===== src/Upstream/Lending.antt =====
-- src/upstream/connection_pool.cpp: a pool and the connections that it has lent, which are owned by
-- who borrowed them. A socket is known by its handle; one that `async_connect` hands out has a
-- handle that no socket has which is still there.
pub mod Ownership
pub mod Peers
use net.Base.{
  ℕ, ◌+◌, ◌≡◌, refl, ◌==◌, Text, if◌then◌else◌, List, [], ◌∷◌, ◌++◌, get_elem?, erase, total,
  Option, none, some,
}
use net.Upstream.{
  UpstreamConfig, UpstreamConnection, UpstreamError, Pools, ConnectionPool, new_pool,
  ConnectOutcome, connected, get_pool, set_pool, make_pool_key, pop_healthy, reuse_or_connect,
  create_new_connection, borrow_connection, return_connection, cleanup_idle_connections,
}

-- A connection that is lent, and for whom.
pub record Loan : Type 0 where
  pub host : Text
  pub port : ℕ
  pub conn : UpstreamConnection

-- `connecting` has the host and port of each borrowing that waits for a new connection.
pub record Lending : Type 0 where
  pub pool : ConnectionPool
  pub lent : List Loan
  pub connecting : List (Text × ℕ)

-- How often a handle occurs.
abbrev pub is_handle : ℕ → UpstreamConnection → ℕ
is_handle h conn = if conn.socket.handle == h then 1 else 0

abbrev pub in_pools : ℕ → Pools → ℕ
in_pools h = total (λ entry. total (is_handle h) entry.1)

abbrev pub in_lent : ℕ → List Loan → ℕ
in_lent h = total (λ loan. is_handle h loan.conn)

abbrev pub occurrences : ℕ → Lending → ℕ
occurrences h l = in_pools h l.pool.pools + in_lent h l.lent

-- What is known of a socket that the network connects: its handle is new, and its peer is the one
-- asked for.
abbrev pub IsNewFor : (ℕ → Text × ℕ) → Text → ℕ → Lending → ConnectOutcome → Type 0
IsNewFor peer host port l (connected socket) =
    (occurrences socket.handle l ≡ 0) × (peer socket.handle ≡ (host, port))
IsNewFor peer host port l _ = Unit

abbrev pub lend : Text → ℕ → Option UpstreamConnection → List Loan
lend host port none = []
lend host port (some conn) = record { host = host; port = port; conn = conn } ∷ []

-- `borrow_connection` up to its wait: the pool, and the connection that is reused, if one is.
unfoldable pub begin_borrow :
    (ℕ → ℕ) → Text → ℕ → ConnectionPool → ConnectionPool × Option UpstreamConnection
unfolding pop_healthy make_pool_key
begin_borrow clock host port p =
    let key = make_pool_key host port in
    let (left, conn) = pop_healthy clock p.config.idle_timeout (get_pool key p.pools) 0 in
    (record p { pools = set_pool key left p.pools }, conn)

pub borrow_connection-begin_borrow :
    (clock : ℕ → ℕ) (outcome : ConnectOutcome) (connected_at : ℕ) (host : Text) (port : ℕ)
    (p : ConnectionPool)
    → borrow_connection clock outcome connected_at host port p ≡ (
      (begin_borrow clock host port p).0,
      (reuse_or_connect (begin_borrow clock host port p).1 outcome connected_at).0,
      (reuse_or_connect (begin_borrow clock host port p).1 outcome connected_at).1,
    )
unfolding borrow_connection begin_borrow
borrow_connection-begin_borrow clock outcome connected_at host port p = refl

-- A borrowing that has found no connection waits.
abbrev pub waits : Text → ℕ → Option UpstreamConnection → List (Text × ℕ)
waits host port none = (host, port) ∷ []
waits host port (some conn) = []

-- The calls of the pool's clients, between the waits of their coroutines. A client may use, close
-- or keep the connection that it has borrowed, gives it back for the host and port that it borrowed
-- it for, or destroys it. `peer` says to whom a handle is connected.
pub data Step (peer : ℕ → Text × ℕ) (l : Lending) : Lending → Type 0 where
  borrow :
      (clock : ℕ → ℕ) (host : Text) (port : ℕ)
      → Step peer l (record {
        pool = (begin_borrow clock host port l.pool).0;
        lent = lend host port (begin_borrow clock host port l.pool).1 ++ l.lent;
        connecting = waits host port (begin_borrow clock host port l.pool).1 ++ l.connecting;
      })
  connect :
      (i : ℕ) (outcome : ConnectOutcome) (connected_at : ℕ) {host : Text} {port : ℕ}
      → get_elem? l.connecting i ≡ some (host, port)
      → IsNewFor peer host port l outcome
      → Step peer l (record l {
        lent = lend host port (create_new_connection outcome connected_at).0 ++ l.lent;
        connecting = erase l.connecting i;
      })
  give_back :
      (i now : ℕ) (used : UpstreamConnection) {loan : Loan}
      → get_elem? l.lent i ≡ some loan
      → used.socket.handle ≡ loan.conn.socket.handle
      → Step peer l (record l {
        pool = return_connection now loan.host loan.port (some used) l.pool;
        lent = erase l.lent i;
      })
  destroy : (i : ℕ) → Step peer l (record l { lent = erase l.lent i })
  clean :
      (clock : Text → ℕ → ℕ)
      → Step peer l (record l { pool = cleanup_idle_connections clock l.pool })

pub data Reach (peer : ℕ → Text × ℕ) (config : UpstreamConfig) : Lending → Type 0 where
  start : Reach peer config (record { pool = new_pool config; lent = []; connecting = [] })
  later : {l m : Lending} → Reach peer config l → Step peer l m → Reach peer config m
