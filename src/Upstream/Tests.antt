-- ===== src/Upstream/Tests.antt =====
-- Runs of src/upstream/connection_pool.cpp.
use net.Base.{
  ◌⊎◌, ℕ, ◌+◌, ◌*◌, ◌≡◌, ◌≢◌, ◌↔◌, refl, ◌<◌, Bool, true, false, ◌&&◌, not, leb, if◌then◌else◌,
  List, [], ◌∷◌, Text, codes, text_eq, length, Option, none, some, arith, total,
}
use net.Upstream.{
  UpstreamConfig, UpstreamError, success, all_unavailable, pool_exhausted, Socket,
  UpstreamConnection, ConnectionPool, new_pool, ConnectOutcome, set_pool, connected,
  other_system_error, get_pool, make_pool_key, borrow_connection, return_connection,
  cleanup_idle_connections, is_healthy, check_health, mark_used, create_new_connection,
}
use net.Upstream.Pools.{
  IsBounded, Operation, borrows, returns, cleans, operate_all, operate_all-new_pool-IsBounded,
}
use net.Upstream.Borrowing.{Borrows, borrow_connection-Borrows, borrow_connection_error}
use net.Upstream.Lending.{
  Loan, Lending, in_pools, begin_borrow, borrow, connect, Reach, start, later,
}
use net.Upstream.Lending.Ownership.{lent_once}
use net.Upstream.Lending.Peers.{lent_to_peer}
use net.Upstream.Returning.{borrow-return}

abbrev host : Text
host = codes "10.0.0.1"

-- Idle for at most a millisecond, one connection for each host.
abbrev config : UpstreamConfig
config = record { connect_timeout = 5; idle_timeout = 1; max_connections_per_host = 1 }

abbrev socket : ℕ → UpstreamConnection
socket n = record {
  socket = record { handle = n; is_open = true };
  create_time = 0;
  last_used_time = 0;
}

abbrev empty_pool : ConnectionPool
empty_pool = new_pool config

abbrev clock : ℕ → ℕ
clock n = 100 + n

abbrev pool_of_one : ConnectionPool
pool_of_one = return_connection 100 host 80 (some (socket 1)) empty_pool

second_is_dropped :
    length (
      get_pool
        (make_pool_key host 80)
        (return_connection 100 host 80 (some (socket 2)) pool_of_one).pools)
    ≡ 1
unfolding return_connection get_pool net.Upstream.set_pool text_eq net.Base.to_string
second_is_dropped = refl

stale_is_not_reused :
    (borrow_connection (λ n. 5_000_000) other_system_error 0 host 80 pool_of_one).1 ≡ none
unfolding return_connection borrow_connection get_pool net.Upstream.set_pool text_eq
    net.Base.to_string
stale_is_not_reused = refl

abbrev operations : List Operation
operations =
    returns 100 host 80 (some (socket 1))
    ∷ returns 100 host 80 (some (socket 2))
    ∷ borrows clock other_system_error 0 host 80
    ∷ cleans (λ key n. 5_000_000)
    ∷ []

operate_all-new_pool-IsBounded_example : IsBounded (operate_all (new_pool config) operations)
operate_all-new_pool-IsBounded_example = operate_all-new_pool-IsBounded config operations

borrow_connection-Borrows_example :
    let (q, conn, error) = borrow_connection clock other_system_error 0 host 80 pool_of_one in
    let key = make_pool_key host 80 in
    Borrows clock other_system_error 0 pool_of_one.config
      (get_pool key pool_of_one.pools)
      (get_pool key q.pools)
      conn
      error
    × ((key ≡ codes "other")
        ⊎ (get_pool (codes "other") q.pools ≡ get_pool (codes "other") pool_of_one.pools))
    × (q.config ≡ pool_of_one.config)
borrow_connection-Borrows_example =
    borrow_connection-Borrows clock other_system_error 0 host 80 pool_of_one (codes "other")

borrow_connection_error_example :
    let r = borrow_connection clock other_system_error 0 host 80 pool_of_one in
    (r.2 ≢ pool_exhausted) × ((r.1 ≡ none) ↔ (r.2 ≢ success))
borrow_connection_error_example =
    borrow_connection_error clock other_system_error 0 host 80 pool_of_one

is_fit : (now : ℕ) → now ≡ 100 → is_healthy (check_health now 1 (socket 1)) ≡ true
unfolding check_health
is_fit now e = rw e refl

has_room : length (get_pool (make_pool_key host 80) empty_pool.pools) < 1
unfolding get_pool
has_room = omega arith

borrow-return_example :
    (borrow_connection clock other_system_error 0 host 80
      (return_connection 100 host 80 (some (socket 1)) empty_pool)).1
    ≡ some (mark_used 101 (socket 1))
borrow-return_example =
    borrow-return 100 clock other_system_error 0 host 80 (socket 1) empty_pool (is_fit 100 refl)
      (is_fit 100 refl) has_room

-- Two borrowings find no connection and wait; both get one.
abbrev everyone : ℕ → Text × ℕ
everyone h = (host, 80)

abbrev plugged : ℕ → ConnectOutcome
plugged n = connected (record { handle = n; is_open = true })

both_wait : (l : Lending) × Reach everyone config l
both_wait = (_, later (later start (borrow clock host 80)) (borrow clock host 80))

two_lent : (l : Lending) × Reach everyone config l
unfolding both_wait total begin_borrow create_new_connection get_pool set_pool text_eq
    net.Base.to_string
two_lent = (
  _,
  later (later both_wait.1 (connect 0 (plugged 1) 7 refl (refl, refl)))
      (connect 0 (plugged 2) 8 refl (refl, refl)),
)

abbrev second_loan : Loan
second_loan = record {
  host = host;
  port = 80;
  conn = record {
    socket = record { handle = 2; is_open = true };
    create_time = 8;
    last_used_time = 8;
  };
}

abbrev first_loan : Loan
first_loan = record {
  host = host;
  port = 80;
  conn = record {
    socket = record { handle = 1; is_open = true };
    create_time = 7;
    last_used_time = 7;
  };
}

lent_once_example :
    ((◌≡◌ {A = ℕ} 0 1) ⊎ (second_loan.conn.socket.handle ≢ first_loan.conn.socket.handle))
    × (in_pools second_loan.conn.socket.handle two_lent.0.pool.pools ≡ 0)
unfolding two_lent
lent_once_example = lent_once two_lent.1 0 1 second_loan first_loan refl refl

lent_to_peer_example : everyone second_loan.conn.socket.handle ≡ (host, 80)
unfolding two_lent
lent_to_peer_example = lent_to_peer two_lent.1 0 second_loan refl
