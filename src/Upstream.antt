-- ===== src/Upstream.antt =====
-- src/upstream/connection_pool.cpp. A reading of `steady_clock` is a number of nanoseconds. Sockets,
-- the resolver and `async_connect` are Boost.Asio's: of a socket the model keeps a handle and whether
-- it is open, and what an attempt to connect comes to is an argument.
pub mod Pools
pub mod Borrowing
pub mod Keys
pub mod Lending
pub mod Returning
mod Tests
use net.Base.{
  ℕ, suc, ◌+◌, ◌-◌, ◌/◌, Text, text_eq, to_string, Bool, true, false, ltb, leb, if◌then◌else◌, List,
  [], ◌∷◌, ◌++◌, length, Option, none, some,
}

-- Times out in milliseconds. The time out for connecting is not used by the source.
pub record UpstreamConfig : Type 0 where
  pub connect_timeout : ℕ
  pub idle_timeout : ℕ
  pub max_connections_per_host : ℕ

pub data ConnectionHealth : Type 0 where
  healthy unhealthy : ConnectionHealth

pub data UpstreamError : Type 0 where
  success connect_timeout all_unavailable pool_exhausted : UpstreamError

pub record Socket : Type 0 where
  pub handle : ℕ
  pub is_open : Bool

pub record UpstreamConnection : Type 0 where
  pub socket : Socket
  pub create_time : ℕ
  pub last_used_time : ℕ

pub new_connection : Socket → ℕ → UpstreamConnection
new_connection socket create_time = record {
  socket = socket;
  create_time = create_time;
  last_used_time = create_time;
}

-- `duration_cast<milliseconds>` of a difference of readings.
abbrev pub elapsed_ms : ℕ → ℕ → ℕ
elapsed_ms now since = (now - since) / 1_000_000

pub check_health : ℕ → ℕ → UpstreamConnection → ConnectionHealth
check_health now idle_timeout conn =
    if ltb idle_timeout (elapsed_ms now conn.last_used_time)
    then unhealthy
    else if conn.socket.is_open
    then healthy
    else unhealthy

abbrev pub is_healthy : ConnectionHealth → Bool
is_healthy healthy = true
is_healthy unhealthy = false

pub mark_used : ℕ → UpstreamConnection → UpstreamConnection
mark_used now conn = record conn { last_used_time = now }

-- `std::unordered_map<std::string, std::vector<...>>`; the head of a list is the back of the vector.
abbrev pub Pools : Type 0
Pools = List (Text × List UpstreamConnection)

pub record ConnectionPool : Type 0 where
  pub config : UpstreamConfig
  pub pools : Pools

abbrev pub new_pool : UpstreamConfig → ConnectionPool
new_pool config = record { config = config; pools = [] }

-- `pools_[key]` read: a missing key has an empty vector.
pub get_pool : Text → Pools → List UpstreamConnection
get_pool key [] = []
get_pool key ((k, conns) ∷ ps) = if text_eq k key then conns else get_pool key ps

-- `pools_[key]` written.
pub set_pool : Text → List UpstreamConnection → Pools → Pools
set_pool key conns [] = (key, conns) ∷ []
set_pool key conns ((k, old) ∷ ps) =
    if text_eq k key then (k, conns) ∷ ps else (k, old) ∷ set_pool key conns ps

pub make_pool_key : Text → ℕ → Text
make_pool_key host port = host ++ b':' ∷ to_string port

-- What resolving and connecting come to.
pub data ConnectOutcome : Type 0 where
  connected : Socket → ConnectOutcome
  timed_out operation_aborted other_system_error other_exception : ConnectOutcome

pub create_new_connection : ConnectOutcome → ℕ → Option UpstreamConnection × UpstreamError
unfolding new_connection
create_new_connection (connected socket) now = (some (new_connection socket now), success)
create_new_connection timed_out now = (none, connect_timeout)
create_new_connection operation_aborted now = (none, connect_timeout)
create_new_connection other_system_error now = (none, all_unavailable)
create_new_connection other_exception now = (none, all_unavailable)

-- The loop of `borrow_connection`: what is left of the pool, and the connection that is reused. The
-- clock is read again for each check, and for `mark_used`: `clock n` is the n-th reading.
pub pop_healthy :
    (ℕ → ℕ) → ℕ → List UpstreamConnection → ℕ → List UpstreamConnection × Option UpstreamConnection
unfolding check_health mark_used
pop_healthy clock idle_timeout [] n = ([], none)
pop_healthy clock idle_timeout (conn ∷ pool) n =
    let rest = pop_healthy clock idle_timeout pool (suc n) in
    if is_healthy (check_health (clock n) idle_timeout conn)
    then (pool, some (mark_used (clock (suc n)) conn))
    else rest

-- The end of `borrow_connection`: a connection of the pool, or a new one. The pool is not touched after
-- the coroutine waits for the new connection.
pub reuse_or_connect :
    Option UpstreamConnection → ConnectOutcome → ℕ → Option UpstreamConnection × UpstreamError
unfolding create_new_connection
reuse_or_connect (some conn) outcome now = (some conn, success)
reuse_or_connect none outcome now = create_new_connection outcome now

-- `connected_at` is the reading of the clock once the new connection stands.
pub borrow_connection :
    (ℕ → ℕ)
    → ConnectOutcome
    → ℕ
    → Text
    → ℕ
    → ConnectionPool
    → ConnectionPool × Option UpstreamConnection × UpstreamError
unfolding pop_healthy reuse_or_connect make_pool_key
borrow_connection clock outcome connected_at host port p =
    let key = make_pool_key host port in
    let (left, conn) = pop_healthy clock p.config.idle_timeout (get_pool key p.pools) 0 in
    let (borrowed, error) = reuse_or_connect conn outcome connected_at in
    (record p { pools = set_pool key left p.pools }, borrowed, error)

-- The end of `return_connection`, for a connection that is healthy.
pub push_back : ℕ → Text → UpstreamConnection → Pools → Pools
push_back max key conn ps =
    let pool = get_pool key ps in
    if leb max (length pool) then set_pool key pool ps else set_pool key (conn ∷ pool) ps

pub return_connection : ℕ → Text → ℕ → Option UpstreamConnection → ConnectionPool → ConnectionPool
unfolding push_back check_health make_pool_key
return_connection now host port none p = p
return_connection now host port (some conn) p =
    if is_healthy (check_health now p.config.idle_timeout conn)
    then (record p {
      pools = push_back p.config.max_connections_per_host (make_pool_key host port) conn p.pools;
    })
    else p

-- `std::remove_if` on one vector. `clock n` is the reading for the n-th connection from the back.
pub remove_unhealthy : (ℕ → ℕ) → ℕ → List UpstreamConnection → ℕ → List UpstreamConnection
unfolding check_health
remove_unhealthy clock idle_timeout [] n = []
remove_unhealthy clock idle_timeout (conn ∷ pool) n =
    let rest = remove_unhealthy clock idle_timeout pool (suc n) in
    if is_healthy (check_health (clock n) idle_timeout conn) then conn ∷ rest else rest

-- The loop over the vectors; `clock key` has the readings for the vector of a key.
pub cleanup_pools : (Text → ℕ → ℕ) → ℕ → Pools → Pools
unfolding remove_unhealthy
cleanup_pools clock idle_timeout [] = []
cleanup_pools clock idle_timeout ((key, pool) ∷ ps) =
    (key, remove_unhealthy (clock key) idle_timeout pool 0) ∷ cleanup_pools clock idle_timeout ps

pub cleanup_idle_connections : (Text → ℕ → ℕ) → ConnectionPool → ConnectionPool
unfolding cleanup_pools
cleanup_idle_connections clock p = record p {
  pools = cleanup_pools clock p.config.idle_timeout p.pools;
}
