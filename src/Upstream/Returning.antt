-- ===== src/Upstream/Returning.antt =====
-- What `return_connection` and `cleanup_idle_connections` keep.
use net.Base.{
  ℕ, suc, ◌<◌, ◌≡◌, refl, sym, ap, ap₂, ◌∙◌, Text, text_eq, text_eq_iff, text_eq_refl, Bool, true,
  false, ◌&&◌, not, subst, if◌then◌else◌, List, [], ◌∷◌, ◌++◌, length, arith, leb, Option, none,
  some, Bool-cases, inl, inr,
}
use net.Upstream.{
  UpstreamConnection, UpstreamConfig, UpstreamError, ConnectOutcome, Pools, ConnectionPool,
  get_pool, return_connection, push_back, borrow_connection, make_pool_key, check_health,
  is_healthy, mark_used, remove_unhealthy, cleanup_pools, cleanup_idle_connections,
}
use net.Upstream.Pools.{get_pool-set_pool}
use net.Upstream.Borrowing.{Borrows, from_pool, from_network, AllStale, borrow_connection-Borrows}

get_pool-push_back :
    (max : ℕ) (key other : Text) (conn : UpstreamConnection) (ps : Pools)
    → get_pool other (push_back max key conn ps) ≡ (
        if text_eq key other
        then (if leb max (length (get_pool key ps))
            then get_pool key ps
            else conn ∷ get_pool key ps)
        else get_pool other ps)
unfolding push_back
get_pool-push_back max key other conn ps = ground (
  arith,
  get_pool-set_pool key other (get_pool key ps) ps,
  get_pool-set_pool key other (conn ∷ get_pool key ps) ps,
)

-- A returned connection is put at the back of the pool of its host and port if it is healthy and the
-- pool has room, and is dropped otherwise; no other pool changes.
pub return_connection_lem :
    (now : ℕ) (host : Text) (port : ℕ) (conn : UpstreamConnection) (p : ConnectionPool)
    (other : Text)
    → let key = make_pool_key host port in
      let pool = get_pool key p.pools in
      get_pool other (return_connection now host port (some conn) p).pools ≡ (
        if text_eq key other
          && is_healthy (check_health now p.config.idle_timeout conn)
          && not (leb p.config.max_connections_per_host (length pool))
        then conn ∷ pool
        else get_pool other p.pools)
unfolding return_connection
return_connection_lem now host port conn p other =
    let key = make_pool_key host port in
    ground (
      arith,
      get_pool-push_back p.config.max_connections_per_host key other conn p.pools,
      text_eq_iff key other,
    )

-- What a cleanup keeps: the healthy connections, in order.
abbrev pub healthy_from : (ℕ → ℕ) → ℕ → List UpstreamConnection → ℕ → List UpstreamConnection
healthy_from clock idle [] n = []
healthy_from clock idle (conn ∷ pool) n =
    (if is_healthy (check_health (clock n) idle conn) then conn ∷ [] else [])
    ++ healthy_from clock idle pool (suc n)

remove_unhealthy-eq_healthy_from :
    (clock : ℕ → ℕ) (idle : ℕ) (pool : List UpstreamConnection) (n : ℕ)
    → remove_unhealthy clock idle pool n ≡ healthy_from clock idle pool n
unfolding remove_unhealthy
remove_unhealthy-eq_healthy_from clock idle [] n = refl
remove_unhealthy-eq_healthy_from clock idle (conn ∷ pool) n =
    ground (arith, remove_unhealthy-eq_healthy_from clock idle pool (suc n))

cleanup_pools-get_pool :
    (clock : Text → ℕ → ℕ) (idle : ℕ) (ps : Pools) (key : Text)
    → get_pool key (cleanup_pools clock idle ps) ≡ healthy_from (clock key) idle (get_pool key ps) 0
unfolding cleanup_pools get_pool
cleanup_pools-get_pool clock idle [] key = refl
cleanup_pools-get_pool clock idle ((k, pool) ∷ ps) key = elim (Bool-cases (text_eq k key)) [
  | inl same ↦
      rw (same, get_pool)
        (rw (← (text_eq_iff k key).0 same) (remove_unhealthy-eq_healthy_from (clock k) idle pool 0))
  | inr other ↦ rw (other, get_pool) (cleanup_pools-get_pool clock idle ps key)
]

-- A cleanup leaves in every pool its healthy connections, in their order, and nothing else.
pub cleanup_idle_connections_lem :
    (clock : Text → ℕ → ℕ) (p : ConnectionPool) (key : Text)
    → get_pool key (cleanup_idle_connections clock p).pools
      ≡ healthy_from (clock key) p.config.idle_timeout (get_pool key p.pools) 0
unfolding cleanup_idle_connections
cleanup_idle_connections_lem clock p key =
    cleanup_pools-get_pool clock p.config.idle_timeout p.pools key

both_ways : {a b : Bool} → a ≡ b → a ≡ false → b ≡ true → ⊥
both_ways e f g = cc

-- If the connection at the back of a pool is healthy, it is the one that is borrowed.
Borrows-back :
    (clock : ℕ → ℕ) (outcome : ConnectOutcome) (connected_at : ℕ) (config : UpstreamConfig)
    (conn : UpstreamConnection) (pool before after : List UpstreamConnection)
    (borrowed : Option UpstreamConnection) (error : UpstreamError)
    → before ≡ conn ∷ pool
    → is_healthy (check_health (clock 0) config.idle_timeout conn) ≡ true
    → Borrows clock outcome connected_at config before after borrowed error
    → borrowed ≡ some (mark_used (clock 1) conn)
Borrows-back clock outcome connected_at config conn pool before after borrowed error e fit
      (from_pool [] found k shape old place healthy same fine) =
    let mine : found ≡ conn = cc in
    let first : k ≡ 0 = omega arith in
    same ∙ ap₂ (λ c j. some (mark_used (clock (suc j)) c)) mine first
Borrows-back clock outcome connected_at config conn pool before after borrowed error e fit
      (from_pool (x ∷ stale) found k shape old place healthy same fine) =
    let mine : x ≡ conn = cc in
    absurd (
      both_ways (ap (λ c. is_healthy (check_health (clock 0) config.idle_timeout c)) mine) old.0
        fit)
Borrows-back clock outcome connected_at config conn pool before after borrowed error e fit
      (from_network old left same) =
    let stale = subst (λ pool. AllStale clock config.idle_timeout pool 0) e old in
    absurd (both_ways refl stale.0 fit)

return_connection-config :
    (now : ℕ) (host : Text) (port : ℕ) (conn : Option UpstreamConnection) (p : ConnectionPool)
    → (return_connection now host port conn p).config ≡ p.config
unfolding return_connection
return_connection-config now host port none p = refl
return_connection-config now host port (some conn) p = ground arith

-- A connection that is given back and borrowed again at once is the one that comes back, if it is
-- healthy both times and there is room for it.
pub borrow-return :
    (now : ℕ) (clock : ℕ → ℕ) (outcome : ConnectOutcome) (connected_at : ℕ) (host : Text) (port : ℕ)
    (conn : UpstreamConnection) (p : ConnectionPool)
    → is_healthy (check_health now p.config.idle_timeout conn) ≡ true
    → is_healthy (check_health (clock 0) p.config.idle_timeout conn) ≡ true
    → length (get_pool (make_pool_key host port) p.pools) < p.config.max_connections_per_host
    → (borrow_connection clock outcome connected_at host port
        (return_connection now host port (some conn) p)).1
      ≡ some (mark_used (clock 1) conn)
borrow-return now clock outcome connected_at host port conn p fit again room =
    let key = make_pool_key host port in
    let q = return_connection now host port (some conn) p in
    let config_same : q.config ≡ p.config = return_connection-config now host port (some conn) p in
    let here : get_pool key q.pools ≡ conn ∷ get_pool key p.pools =
      return_connection_lem now host port conn p key ∙ kept in
    Borrows-back clock outcome connected_at q.config conn (get_pool key p.pools)
      (get_pool key q.pools) _ _ _ here
      (subst (λ c. is_healthy (check_health (clock 0) c.idle_timeout conn) ≡ true) (sym config_same)
        again)
      (borrow_connection-Borrows clock outcome connected_at host port q key).0
  where
    kept :
        (if text_eq (make_pool_key host port) (make_pool_key host port)
            && is_healthy (check_health now p.config.idle_timeout conn)
            && not (
                leb p.config.max_connections_per_host
                  (length (get_pool (make_pool_key host port) p.pools)))
          then conn ∷ get_pool (make_pool_key host port) p.pools
          else get_pool (make_pool_key host port) p.pools)
        ≡ conn ∷ get_pool (make_pool_key host port) p.pools
    kept = ground (arith, fit, room, text_eq_refl (make_pool_key host port))
