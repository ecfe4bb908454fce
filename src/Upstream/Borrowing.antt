-- ===== src/Upstream/Borrowing.antt =====
-- What `borrow_connection` hands out.
use net.Base.{
  ◌⊎◌, text_eq, ℕ, suc, ◌+◌, ◌≡◌, ◌≢◌, ◌↔◌, subst, text_eq_refl, refl, sym, ap, ◌∙◌, Text,
  text_eq_iff, true, false, if◌then◌else◌, List, [], ◌∷◌, ◌++◌, length, arith, Option, none, some,
  Bool-cases, inl, inr,
}
use net.Upstream.{
  UpstreamConnection, UpstreamConfig, UpstreamError, success, pool_exhausted, ConnectOutcome,
  connected, Pools, ConnectionPool, get_pool, set_pool, pop_healthy, create_new_connection,
  borrow_connection, reuse_or_connect, make_pool_key, check_health, is_healthy, mark_used,
}
use net.Upstream.Pools.{get_pool-set_pool}

-- The connections, from the back of the pool on, are unhealthy at the readings from `n` on.
abbrev pub AllStale : (ℕ → ℕ) → ℕ → List UpstreamConnection → ℕ → Type 0
AllStale clock idle [] n = Unit {0}
AllStale clock idle (conn ∷ pool) n =
    (is_healthy (check_health (clock n) idle conn) ≡ false) × AllStale clock idle pool (suc n)

-- A pool is left without its stale connections, and without the first healthy one, if there is any.
pub data Pops (clock : ℕ → ℕ) (idle : ℕ) (pool : List UpstreamConnection) (n : ℕ)
    (r : List UpstreamConnection × Option UpstreamConnection) : Type 0 where
  reused :
      (stale : List UpstreamConnection) (conn : UpstreamConnection) (k : ℕ)
      → pool ≡ stale ++ conn ∷ r.0
      → AllStale clock idle stale n
      → k ≡ n + length stale
      → is_healthy (check_health (clock k) idle conn) ≡ true
      → r.1 ≡ some (mark_used (clock (suc k)) conn)
      → Pops clock idle pool n r
  emptied : AllStale clock idle pool n → r.0 ≡ [] → r.1 ≡ none → Pops clock idle pool n r

module _ (clock : ℕ → ℕ) (idle : ℕ) where
  pop_healthy-fit :
      (conn : UpstreamConnection) (pool : List UpstreamConnection) (n : ℕ)
      → is_healthy (check_health (clock n) idle conn) ≡ true
      → pop_healthy clock idle (conn ∷ pool) n ≡ (pool, some (mark_used (clock (suc n)) conn))
  unfolding pop_healthy
  pop_healthy-fit conn pool n fit = ground (arith, fit)

  pop_healthy-unfit :
      (conn : UpstreamConnection) (pool : List UpstreamConnection) (n : ℕ)
      → is_healthy (check_health (clock n) idle conn) ≡ false
      → pop_healthy clock idle (conn ∷ pool) n ≡ pop_healthy clock idle pool (suc n)
  unfolding pop_healthy
  pop_healthy-unfit conn pool n unfit = ground (arith, unfit)

  pop_healthy-nil : (n : ℕ) → pop_healthy clock idle [] n ≡ ([], none)
  unfolding pop_healthy
  pop_healthy-nil n = refl

  Pops-cons :
      (conn : UpstreamConnection) (pool : List UpstreamConnection) (n : ℕ)
      (r : List UpstreamConnection × Option UpstreamConnection)
      → is_healthy (check_health (clock n) idle conn) ≡ false
      → Pops clock idle pool (suc n) r
      → Pops clock idle (conn ∷ pool) n r
  Pops-cons conn pool n r unfit (reused stale found k e old place fit same) =
      reused (conn ∷ stale) found k (ap (◌∷◌ conn) e) (unfit, old) (omega arith) fit same
  Pops-cons conn pool n r unfit (emptied old left gone) = emptied (unfit, old) left gone

  pop_healthy-Pops :
      (pool : List UpstreamConnection) (n : ℕ)
      → Pops clock idle pool n (pop_healthy clock idle pool n)
  pop_healthy-Pops [] n = rw (pop_healthy-nil n) (emptied tt refl refl)
  pop_healthy-Pops (conn ∷ pool) n =
      elim (Bool-cases (is_healthy (check_health (clock n) idle conn))) [
        | inl fit ↦
            rw (pop_healthy-fit conn pool n fit) (reused [] conn n refl tt (omega arith) fit refl)
        | inr unfit ↦
            rw (pop_healthy-unfit conn pool n unfit)
              (Pops-cons conn pool n _ unfit (pop_healthy-Pops pool (suc n)))
      ]

-- What comes of a borrowing, for the pool of the key that it looks at.
pub data Borrows (clock : ℕ → ℕ) (outcome : ConnectOutcome) (connected_at : ℕ)
    (config : UpstreamConfig) (before after : List UpstreamConnection)
    (conn : Option UpstreamConnection) (error : UpstreamError) : Type 0 where
  from_pool :
      (stale : List UpstreamConnection) (found : UpstreamConnection) (k : ℕ)
      → before ≡ stale ++ found ∷ after
      → AllStale clock config.idle_timeout stale 0
      → k ≡ length stale
      → is_healthy (check_health (clock k) config.idle_timeout found) ≡ true
      → conn ≡ some (mark_used (clock (suc k)) found)
      → error ≡ success
      → Borrows clock outcome connected_at config before after conn error
  from_network :
      AllStale clock config.idle_timeout before 0
      → after ≡ []
      → (conn, error) ≡ create_new_connection outcome connected_at
      → Borrows clock outcome connected_at config before after conn error

Borrows-of-Pops :
    (clock : ℕ → ℕ) (outcome : ConnectOutcome) (connected_at : ℕ) (config : UpstreamConfig)
    (before : List UpstreamConnection) (r : List UpstreamConnection × Option UpstreamConnection)
    → Pops clock config.idle_timeout before 0 r
    → let (conn, error) = reuse_or_connect r.1 outcome connected_at in
      Borrows clock outcome connected_at config before r.0 conn error
unfolding reuse_or_connect
Borrows-of-Pops clock outcome connected_at config before r
      (reused stale found k e old place fit same) =
    rw same (from_pool stale found k e old (omega arith) fit refl refl)
Borrows-of-Pops clock outcome connected_at config before r (emptied old left gone) =
    rw gone (from_network old left refl)

get_pool-set_pool_self :
    (key : Text) (conns : List UpstreamConnection) (ps : Pools)
    → get_pool key (set_pool key conns ps) ≡ conns
get_pool-set_pool_self key conns ps =
    get_pool-set_pool key key conns ps
    ∙ ap (λ b. if b then conns else get_pool key ps) (text_eq_refl key)

other_pool :
    (key other : Text) (conns : List UpstreamConnection) (ps : Pools)
    → (key ≡ other) ⊎ (get_pool other (set_pool key conns ps) ≡ get_pool other ps)
other_pool key other conns ps = elim (Bool-cases (text_eq key other)) [
  | inl same ↦ inl ((text_eq_iff key other).0 same)
  | inr apart ↦ inr (
      get_pool-set_pool key other conns ps ∙ ap (λ b. if b then conns else get_pool other ps) apart)
]

-- A borrowing goes through the pool of its host and port from the back, drops what is stale, and hands
-- out the first healthy connection, marked as used; only if there is none it connects anew, and the
-- result is the network's. No other pool changes.
pub borrow_connection-Borrows :
    (clock : ℕ → ℕ) (outcome : ConnectOutcome) (connected_at : ℕ) (host : Text) (port : ℕ)
    (p : ConnectionPool) (other : Text)
    → let (q, conn, error) = borrow_connection clock outcome connected_at host port p in
      let key = make_pool_key host port in
      Borrows clock outcome connected_at p.config
        (get_pool key p.pools)
        (get_pool key q.pools)
        conn
        error
      × ((key ≡ other) ⊎ (get_pool other q.pools ≡ get_pool other p.pools))
      × (q.config ≡ p.config)
unfolding borrow_connection
borrow_connection-Borrows clock outcome connected_at host port p other =
    let key = make_pool_key host port in
    let idle = p.config.idle_timeout in
    let r = pop_healthy clock idle (get_pool key p.pools) 0 in
    let borrowed = reuse_or_connect r.1 outcome connected_at in
    (
      subst
          (λ after.
            Borrows clock outcome connected_at p.config (get_pool key p.pools) after borrowed.0
              borrowed.1)
          (sym (get_pool-set_pool_self key r.0 p.pools))
          (Borrows-of-Pops clock outcome connected_at p.config (get_pool key p.pools) r
            (pop_healthy-Pops clock idle (get_pool key p.pools) 0)),
      other_pool key other r.0 p.pools,
      refl,
    )

reuse_or_connect_error :
    (o : Option UpstreamConnection) (outcome : ConnectOutcome) (now : ℕ)
    → let r = reuse_or_connect o outcome now in
      (r.1 ≢ pool_exhausted) × ((r.0 ≡ none) ↔ (r.1 ≢ success))
unfolding reuse_or_connect
reuse_or_connect_error (some conn) outcome now = (λ e. cc, (λ e. cc, λ f. absurd (f refl)))
reuse_or_connect_error none (connected socket) now = (λ e. cc, (λ e. cc, λ f. absurd (f refl)))
reuse_or_connect_error none outcome now = (λ e. cc, (λ e f. cc, λ f. refl))

-- A connection comes back exactly with success, and no borrowing reports that a pool is exhausted,
-- however many connections are out.
pub borrow_connection_error :
    (clock : ℕ → ℕ) (outcome : ConnectOutcome) (connected_at : ℕ) (host : Text) (port : ℕ)
    (p : ConnectionPool)
    → let r = borrow_connection clock outcome connected_at host port p in
      (r.2 ≢ pool_exhausted) × ((r.1 ≡ none) ↔ (r.2 ≢ success))
unfolding borrow_connection
borrow_connection_error clock outcome connected_at host port p =
    reuse_or_connect_error _ outcome connected_at
