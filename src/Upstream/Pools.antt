-- ===== src/Upstream/Pools.antt =====
-- The map of pools: reading what was written, and the bound on the size of each pool.
use net.Base.{
  ℕ, suc, ◌≤◌, ◌≡◌, refl, Text, text_eq, text_eq_iff, if◌then◌else◌, List, [], ◌∷◌, length, arith,
  Bool-cases, inl, inr, leb, All, Option, none, some,
}
use net.Upstream.{
  UpstreamConfig, new_pool, is_healthy, check_health, UpstreamConnection, Pools, ConnectionPool,
  get_pool, set_pool, pop_healthy, borrow_connection, return_connection, push_back, ConnectOutcome,
  make_pool_key, remove_unhealthy, cleanup_pools, cleanup_idle_connections,
}

pub get_pool-set_pool :
    (k j : Text) (conns : List UpstreamConnection) (ps : Pools)
    → get_pool j (set_pool k conns ps) ≡ (if text_eq k j then conns else get_pool j ps)
unfolding get_pool set_pool
get_pool-set_pool k j conns [] = refl
get_pool-set_pool k j conns ((i, old) ∷ ps) =
    ground
      (arith, text_eq_iff k j, text_eq_iff i k, text_eq_iff i j, get_pool-set_pool k j conns ps)

-- No pool is larger than the configuration allows.
abbrev pub Within : ℕ → Pools → Type 0
Within max ps = All (λ entry. length entry.1 ≤ max) ps

abbrev pub IsBounded : ConnectionPool → Type 0
IsBounded p = Within p.config.max_connections_per_host p.pools

Within-get_pool :
    (max : ℕ) (key : Text) (ps : Pools) → Within max ps → length (get_pool key ps) ≤ max
unfolding get_pool
Within-get_pool max key [] h = omega arith
Within-get_pool max key ((k, conns) ∷ ps) h = ground (arith, Within-get_pool max key ps h.1)

Within-set_pool :
    (max : ℕ) (key : Text) (conns : List UpstreamConnection) (ps : Pools)
    → length conns ≤ max
    → Within max ps
    → Within max (set_pool key conns ps)
unfolding set_pool
Within-set_pool max key conns [] fits h = (fits, tt)
Within-set_pool max key conns ((k, old) ∷ ps) fits h =
    ground (arith, h.0, h.1, Within-set_pool max key conns ps fits h.1)

pop_healthy-length :
    (clock : ℕ → ℕ) (idle : ℕ) (pool : List UpstreamConnection) (n : ℕ)
    → length (pop_healthy clock idle pool n).0 ≤ length pool
unfolding pop_healthy
pop_healthy-length clock idle [] n = omega arith
pop_healthy-length clock idle (conn ∷ pool) n =
    ground (arith, pop_healthy-length clock idle pool (suc n))

pub borrow_connection-IsBounded :
    (clock : ℕ → ℕ) (outcome : ConnectOutcome) (connected_at : ℕ) (host : Text) (port : ℕ)
    (p : ConnectionPool)
    → IsBounded p
    → IsBounded (borrow_connection clock outcome connected_at host port p).0
unfolding borrow_connection
borrow_connection-IsBounded clock outcome connected_at host port p h =
    let key = make_pool_key host port in
    Within-set_pool p.config.max_connections_per_host key
      (pop_healthy clock p.config.idle_timeout (get_pool key p.pools) 0).0 p.pools
      (omega (
        arith,
        pop_healthy-length clock p.config.idle_timeout (get_pool key p.pools) 0,
        Within-get_pool p.config.max_connections_per_host key p.pools h,
      ))
      h

Within-push_back :
    (max : ℕ) (key : Text) (conn : UpstreamConnection) (ps : Pools)
    → Within max ps
    → Within max (push_back max key conn ps)
unfolding push_back
Within-push_back max key conn ps h = elim (Bool-cases (leb max (length (get_pool key ps)))) [
  | inl full ↦
      rw full (Within-set_pool max key (get_pool key ps) ps (Within-get_pool max key ps h) h)
  | inr room ↦
      rw room (Within-set_pool max key (conn ∷ get_pool key ps) ps (ground (arith, room)) h)
]

return_connection-IsBounded :
    (now : ℕ) (host : Text) (port : ℕ) (conn : Option UpstreamConnection) (p : ConnectionPool)
    → IsBounded p
    → IsBounded (return_connection now host port conn p)
unfolding return_connection
return_connection-IsBounded now host port none p h = h
return_connection-IsBounded now host port (some conn) p h =
    elim (Bool-cases (is_healthy (check_health now p.config.idle_timeout conn))) [
      | inl fit ↦
          rw (fit, return_connection)
            (Within-push_back p.config.max_connections_per_host (make_pool_key host port) conn
              p.pools h)
      | inr unfit ↦ rw (unfit, return_connection) h
    ]

remove_unhealthy-length :
    (clock : ℕ → ℕ) (idle : ℕ) (pool : List UpstreamConnection) (n : ℕ)
    → length (remove_unhealthy clock idle pool n) ≤ length pool
unfolding remove_unhealthy
remove_unhealthy-length clock idle [] n = omega arith
remove_unhealthy-length clock idle (conn ∷ pool) n =
    ground (arith, remove_unhealthy-length clock idle pool (suc n))

cleanup_pools-Within :
    (clock : Text → ℕ → ℕ) (idle max : ℕ) (ps : Pools)
    → Within max ps
    → Within max (cleanup_pools clock idle ps)
unfolding cleanup_pools
cleanup_pools-Within clock idle max [] h = tt
cleanup_pools-Within clock idle max ((key, pool) ∷ ps) h = (
  omega (arith, remove_unhealthy-length (clock key) idle pool 0, h.0),
  cleanup_pools-Within clock idle max ps h.1,
)

-- The calls of a client, each with what the clock and the network answer.
pub data Operation : Type 0 where
  borrows : (ℕ → ℕ) → ConnectOutcome → ℕ → Text → ℕ → Operation
  returns : ℕ → Text → ℕ → Option UpstreamConnection → Operation
  cleans : (Text → ℕ → ℕ) → Operation

pub operate : ConnectionPool → Operation → ConnectionPool
unfolding borrow_connection return_connection cleanup_idle_connections
operate p (borrows clock outcome connected_at host port) =
    (borrow_connection clock outcome connected_at host port p).0
operate p (returns now host port conn) = return_connection now host port conn p
operate p (cleans clock) = cleanup_idle_connections clock p

pub operate_all : ConnectionPool → List Operation → ConnectionPool
operate_all p [] = p
operate_all p (o ∷ os) = operate_all (operate p o) os

operate-IsBounded : (p : ConnectionPool) (o : Operation) → IsBounded p → IsBounded (operate p o)
unfolding operate
operate-IsBounded p (borrows clock outcome connected_at host port) h =
    borrow_connection-IsBounded clock outcome connected_at host port p h
operate-IsBounded p (returns now host port conn) h =
    return_connection-IsBounded now host port conn p h
operate-IsBounded p (cleans clock) h =
    cleanup_pools-Within clock p.config.idle_timeout p.config.max_connections_per_host p.pools h

operate_all-IsBounded :
    (p : ConnectionPool) (os : List Operation) → IsBounded p → IsBounded (operate_all p os)
unfolding operate_all
operate_all-IsBounded p [] h = h
operate_all-IsBounded p (o ∷ os) h =
    operate_all-IsBounded (operate p o) os (operate-IsBounded p o h)

-- From an empty pool on, no sequence of calls ever leaves more idle connections under one key than
-- the configuration allows.
pub operate_all-new_pool-IsBounded :
    (config : UpstreamConfig) (os : List Operation) → IsBounded (operate_all (new_pool config) os)
operate_all-new_pool-IsBounded config os = operate_all-IsBounded (new_pool config) os tt
