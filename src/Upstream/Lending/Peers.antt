-- ===== src/Upstream/Lending/Peers.antt =====
-- Whom a connection that is lent is connected to.
use net.Base.{
  ℕ, true, ◌≡◌, sym, ap, ap₂, ◌∙◌, subst, suc, Text, text_eq, text_eq_iff, leb, List, [], ◌∷◌, ◌++◌,
  length, get_elem?, All, All-erase, All-get_elem?, Option, none, some, Bool-cases, inl, inr,
}
use net.Upstream.{
  UpstreamConfig, UpstreamConnection, Pools, ConnectionPool, ConnectOutcome, connected, timed_out,
  operation_aborted, other_system_error, other_exception, get_pool, set_pool, make_pool_key,
  check_health, is_healthy, pop_healthy, create_new_connection, push_back, return_connection,
  remove_unhealthy, cleanup_pools, cleanup_idle_connections,
}
use net.Upstream.Keys.{make_pool_key_injective}
use net.Upstream.Lending.{
  Loan, Lending, IsNewFor, lend, begin_borrow, Step, borrow, connect, give_back, destroy, clean,
  Reach, start, later,
}

module _ (peer : ℕ → Text × ℕ) where
  -- A connection of the pool of a key leads to the host and port that the key is made of.
  abbrev pub IsFor : Text → UpstreamConnection → Type 0
  IsFor key conn = make_pool_key (peer conn.socket.handle).0 (peer conn.socket.handle).1 ≡ key

  abbrev pub AreFiled : Pools → Type 0
  AreFiled = All (λ entry. All (IsFor entry.0) entry.1)

  abbrev pub Leads : Loan → Type 0
  Leads loan = peer loan.conn.socket.handle ≡ (loan.host, loan.port)

  All-IsFor :
      (k key : Text) (conns : List UpstreamConnection)
      → text_eq k key ≡ true
      → All (IsFor k) conns
      → All (IsFor key) conns
  All-IsFor k key conns e h = subst (λ j. All (IsFor j) conns) ((text_eq_iff k key).0 e) h

  get_pool-IsFor : (key : Text) (ps : Pools) → AreFiled ps → All (IsFor key) (get_pool key ps)
  unfolding get_pool
  get_pool-IsFor key [] h = tt
  get_pool-IsFor key ((k, conns) ∷ ps) h = elim (Bool-cases (text_eq k key)) [
    | inl same ↦ rw (same, get_pool) (All-IsFor k key conns same h.0)
    | inr other ↦ rw (other, get_pool) (get_pool-IsFor key ps h.1)
  ]

  set_pool-AreFiled :
      (key : Text) (conns : List UpstreamConnection) (ps : Pools)
      → All (IsFor key) conns
      → AreFiled ps
      → AreFiled (set_pool key conns ps)
  unfolding set_pool
  set_pool-AreFiled key conns [] c h = (c, tt)
  set_pool-AreFiled key conns ((k, old) ∷ ps) c h = elim (Bool-cases (text_eq k key)) [
    | inl same ↦
        rw (same, set_pool)
          (subst (λ j. All (IsFor j) conns) (sym ((text_eq_iff k key).0 same)) c, h.1)
    | inr other ↦ rw (other, set_pool) (h.0, set_pool-AreFiled key conns ps c h.1)
  ]

  abbrev Popped : Text → List UpstreamConnection × Option UpstreamConnection → Type 0
  Popped key (left, none) = All (IsFor key) left
  Popped key (left, some conn) = All (IsFor key) left × IsFor key conn

  pop_healthy-Popped :
      (key : Text) (clock : ℕ → ℕ) (idle : ℕ) (pool : List UpstreamConnection) (n : ℕ)
      → All (IsFor key) pool
      → Popped key (pop_healthy clock idle pool n)
  unfolding pop_healthy
  pop_healthy-Popped key clock idle [] n h = tt
  pop_healthy-Popped key clock idle (conn ∷ pool) n h =
      elim (Bool-cases (is_healthy (check_health (clock n) idle conn))) [
        | inl fit ↦ rw (fit, pop_healthy) (h.1, h.0)
        | inr unfit ↦ rw (unfit, pop_healthy) (pop_healthy-Popped key clock idle pool (suc n) h.1)
      ]

  push_back-AreFiled :
      (max : ℕ) (key : Text) (conn : UpstreamConnection) (ps : Pools)
      → IsFor key conn
      → AreFiled ps
      → AreFiled (push_back max key conn ps)
  unfolding push_back
  push_back-AreFiled max key conn ps c h = elim (Bool-cases (leb max (length (get_pool key ps)))) [
    | inl full ↦
        rw (full, push_back)
          (set_pool-AreFiled key (get_pool key ps) ps (get_pool-IsFor key ps h) h)
    | inr room ↦
        rw (room, push_back)
          (set_pool-AreFiled key (conn ∷ get_pool key ps) ps (c, get_pool-IsFor key ps h) h)
  ]

  return_connection-AreFiled :
      (now : ℕ) (host : Text) (port : ℕ) (conn : UpstreamConnection) (p : ConnectionPool)
      → IsFor (make_pool_key host port) conn
      → AreFiled p.pools
      → AreFiled (return_connection now host port (some conn) p).pools
  unfolding return_connection
  return_connection-AreFiled now host port conn p c h =
      elim (Bool-cases (is_healthy (check_health now p.config.idle_timeout conn))) [
        | inl fit ↦
            rw (fit, return_connection)
              (push_back-AreFiled p.config.max_connections_per_host (make_pool_key host port) conn
                p.pools c h)
        | inr unfit ↦ rw (unfit, return_connection) h
      ]

  remove_unhealthy-IsFor :
      (key : Text) (clock : ℕ → ℕ) (idle : ℕ) (pool : List UpstreamConnection) (n : ℕ)
      → All (IsFor key) pool
      → All (IsFor key) (remove_unhealthy clock idle pool n)
  unfolding remove_unhealthy
  remove_unhealthy-IsFor key clock idle [] n h = tt
  remove_unhealthy-IsFor key clock idle (conn ∷ pool) n h =
      elim (Bool-cases (is_healthy (check_health (clock n) idle conn))) [
        | inl fit ↦
            rw (fit, remove_unhealthy) (h.0, remove_unhealthy-IsFor key clock idle pool (suc n) h.1)
        | inr unfit ↦
            rw (unfit, remove_unhealthy) (remove_unhealthy-IsFor key clock idle pool (suc n) h.1)
      ]

  cleanup_pools-AreFiled :
      (clock : Text → ℕ → ℕ) (idle : ℕ) (ps : Pools)
      → AreFiled ps
      → AreFiled (cleanup_pools clock idle ps)
  unfolding cleanup_pools
  cleanup_pools-AreFiled clock idle [] h = tt
  cleanup_pools-AreFiled clock idle ((key, pool) ∷ ps) h = (
    remove_unhealthy-IsFor key (clock key) idle pool 0 h.0,
    cleanup_pools-AreFiled clock idle ps h.1,
  )

  clean-AreFiled :
      (clock : Text → ℕ → ℕ) (p : ConnectionPool)
      → AreFiled p.pools
      → AreFiled (cleanup_idle_connections clock p).pools
  unfolding cleanup_idle_connections
  clean-AreFiled clock p h = cleanup_pools-AreFiled clock p.config.idle_timeout p.pools h

  record Inv (l : Lending) : Type 0 where
    filed : AreFiled l.pool.pools
    leads : All Leads l.lent

  -- The key of a pool tells its host and port.
  Leads-of_IsFor :
      (host : Text) (port : ℕ) (conn : UpstreamConnection)
      → IsFor (make_pool_key host port) conn
      → Leads (record { host = host; port = port; conn = conn })
  Leads-of_IsFor host port conn e =
      let (h, p) = make_pool_key_injective _ host _ port e in ap₂ (λ (x : Text) (y : ℕ). (x, y)) h p

  borrow-Inv :
      (host : Text) (port : ℕ) (l : Lending) (waiting : List (Text × ℕ))
      (r : List UpstreamConnection × Option UpstreamConnection)
      → Popped (make_pool_key host port) r
      → Inv l
      → Inv (record l {
        pool = record l.pool { pools = set_pool (make_pool_key host port) r.0 l.pool.pools };
        lent = lend host port r.1 ++ l.lent;
        connecting = waiting;
      })
  borrow-Inv host port l waiting (left, none) h inv = record {
    filed = set_pool-AreFiled _ left l.pool.pools h inv.filed;
    leads = inv.leads;
  }
  borrow-Inv host port l waiting (left, some conn) h inv = record {
    filed = set_pool-AreFiled _ left l.pool.pools h.0 inv.filed;
    leads = (Leads-of_IsFor host port conn h.1, inv.leads);
  }

  created-Leads :
      (host : Text) (port : ℕ) (l : Lending) (outcome : ConnectOutcome) (now : ℕ)
      → IsNewFor peer host port l outcome
      → All Leads l.lent
      → All Leads (lend host port (create_new_connection outcome now).0 ++ l.lent)
  unfolding create_new_connection
  created-Leads host port l (connected socket) now new h = (new.1, h)
  created-Leads host port l timed_out now new h = h
  created-Leads host port l operation_aborted now new h = h
  created-Leads host port l other_system_error now new h = h
  created-Leads host port l other_exception now new h = h

  -- A connection that is given back, in whatever state, leads where the loan's did.
  given_back :
      (used : UpstreamConnection) (loan : Loan)
      → used.socket.handle ≡ loan.conn.socket.handle
      → Leads loan
      → IsFor (make_pool_key loan.host loan.port) used
  given_back used loan same h = ap (λ (a : Text × ℕ). make_pool_key a.0 a.1) (ap peer same ∙ h)

  Step-Inv : {l m : Lending} → Step peer l m → Inv l → Inv m
  unfolding begin_borrow
  Step-Inv {l = l} (borrow clock host port) inv =
      borrow-Inv host port l _ _
        (pop_healthy-Popped (make_pool_key host port) clock l.pool.config.idle_timeout _ 0
          (get_pool-IsFor (make_pool_key host port) l.pool.pools inv.filed))
        inv
  Step-Inv {l = l} (connect i outcome now {host} {port} at new) inv = record {
    filed = inv.filed;
    leads = created-Leads host port l outcome now new inv.leads;
  }
  Step-Inv {l = l} (give_back i now used {loan} at same) inv = record {
    filed =
        return_connection-AreFiled now loan.host loan.port used l.pool
          (given_back used loan same (All-get_elem? Leads l.lent i loan inv.leads at)) inv.filed;
    leads = All-erase Leads l.lent i inv.leads;
  }
  Step-Inv {l = l} (destroy i) inv = record {
    filed = inv.filed;
    leads = All-erase Leads l.lent i inv.leads;
  }
  Step-Inv {l = l} (clean clock) inv = record {
    filed = clean-AreFiled clock l.pool inv.filed;
    leads = inv.leads;
  }

  Reach-Inv : {config : UpstreamConfig} {l : Lending} → Reach peer config l → Inv l
  Reach-Inv start = record { filed = tt; leads = tt }
  Reach-Inv (later r st) = Step-Inv st (Reach-Inv r)

-- Whatever the clients of a pool call, in any order and with any waits in between, each connection
-- that is lent is connected to the host and port that it was borrowed for, if the network connects
-- each new socket to the host and port asked for and connections are given back for those they were
-- borrowed for.
pub lent_to_peer :
    {peer : ℕ → Text × ℕ} {config : UpstreamConfig} {l : Lending}
    → Reach peer config l
    → (i : ℕ) (x : Loan) → get_elem? l.lent i ≡ some x
    → peer x.conn.socket.handle ≡ (x.host, x.port)
lent_to_peer {peer} {l = l} r i x at =
    All-get_elem? (Leads peer) l.lent i x (Reach-Inv peer r).leads at
