-- ===== src/Upstream/Lending/Ownership.antt =====
-- A connection has one owner.
use net.Base.{
  ℕ, ◌+◌, ◌≤◌, ◌≡◌, ◌≢◌, suc, Text, text_eq, leb, List, [], ◌∷◌, ◌++◌, length, get_elem?, erase,
  total, total-erase, le-total, add-le-total, Option, none, some, Bool-cases, ℕ_discrete, subst,
  ==_refl, ◌⊎◌, zero, inl, inr, arith,
}
use net.Upstream.{
  UpstreamConfig, UpstreamConnection, Pools, ConnectionPool, ConnectOutcome, connected, timed_out,
  operation_aborted, other_system_error, other_exception, get_pool, set_pool, make_pool_key,
  check_health, is_healthy, pop_healthy, create_new_connection, push_back, return_connection,
  remove_unhealthy, cleanup_pools, cleanup_idle_connections,
}
use net.Upstream.Lending.{
  Loan, Lending, is_handle, in_pools, in_lent, occurrences, IsNewFor, lend, begin_borrow, Step,
  borrow, connect, give_back, destroy, clean, Reach, start, later,
}

in_pools-set_pool :
    (h : ℕ) (key : Text) (conns : List UpstreamConnection) (ps : Pools)
    → in_pools h (set_pool key conns ps) + total (is_handle h) (get_pool key ps)
      ≡ in_pools h ps + total (is_handle h) conns
unfolding total set_pool get_pool
in_pools-set_pool h key conns [] = omega arith
in_pools-set_pool h key conns ((k, old) ∷ ps) = elim (Bool-cases (text_eq k key)) [
  | inl same ↦ rw (same, set_pool, get_pool) (omega arith)
  | inr other ↦ rw (other, set_pool, get_pool) (omega (arith, in_pools-set_pool h key conns ps))
]

abbrev in_option : ℕ → Option UpstreamConnection → ℕ
in_option h none = 0
in_option h (some conn) = is_handle h conn

pop_healthy-occurrences :
    (h : ℕ) (clock : ℕ → ℕ) (idle : ℕ) (pool : List UpstreamConnection) (n : ℕ)
    → total (is_handle h) (pop_healthy clock idle pool n).0
        + in_option h (pop_healthy clock idle pool n).1
      ≤ total (is_handle h) pool
unfolding total pop_healthy
pop_healthy-occurrences h clock idle [] n = omega arith
pop_healthy-occurrences h clock idle (conn ∷ pool) n =
    elim (Bool-cases (is_healthy (check_health (clock n) idle conn))) [
      | inl fit ↦ rw (fit, pop_healthy) (omega arith)
      | inr unfit ↦
          rw (unfit, pop_healthy) (omega (arith, pop_healthy-occurrences h clock idle pool (suc n)))
    ]

push_back-occurrences :
    (h max : ℕ) (key : Text) (conn : UpstreamConnection) (ps : Pools)
    → in_pools h (push_back max key conn ps) ≤ in_pools h ps + is_handle h conn
unfolding total push_back
push_back-occurrences h max key conn ps = elim (Bool-cases (leb max (length (get_pool key ps)))) [
  | inl full ↦ rw (full, push_back) (omega (arith, in_pools-set_pool h key (get_pool key ps) ps))
  | inr room ↦
      rw (room, push_back) (omega (arith, in_pools-set_pool h key (conn ∷ get_pool key ps) ps))
]

return_connection-occurrences :
    (h now : ℕ) (host : Text) (port : ℕ) (conn : UpstreamConnection) (p : ConnectionPool)
    → in_pools h (return_connection now host port (some conn) p).pools
      ≤ in_pools h p.pools + is_handle h conn
unfolding return_connection
return_connection-occurrences h now host port conn p =
    elim (Bool-cases (is_healthy (check_health now p.config.idle_timeout conn))) [
      | inl fit ↦
          rw (fit, return_connection)
            (push_back-occurrences h p.config.max_connections_per_host (make_pool_key host port)
              conn p.pools)
      | inr unfit ↦ rw (unfit, return_connection) (omega arith)
    ]

remove_unhealthy-occurrences :
    (h : ℕ) (clock : ℕ → ℕ) (idle : ℕ) (pool : List UpstreamConnection) (n : ℕ)
    → total (is_handle h) (remove_unhealthy clock idle pool n) ≤ total (is_handle h) pool
unfolding total remove_unhealthy
remove_unhealthy-occurrences h clock idle [] n = omega arith
remove_unhealthy-occurrences h clock idle (conn ∷ pool) n =
    elim (Bool-cases (is_healthy (check_health (clock n) idle conn))) [
      | inl fit ↦
          rw (fit, remove_unhealthy)
            (omega (arith, remove_unhealthy-occurrences h clock idle pool (suc n)))
      | inr unfit ↦
          rw (unfit, remove_unhealthy)
            (omega (arith, remove_unhealthy-occurrences h clock idle pool (suc n)))
    ]

cleanup_pools-occurrences :
    (h : ℕ) (clock : Text → ℕ → ℕ) (idle : ℕ) (ps : Pools)
    → in_pools h (cleanup_pools clock idle ps) ≤ in_pools h ps
unfolding total cleanup_pools
cleanup_pools-occurrences h clock idle [] = omega arith
cleanup_pools-occurrences h clock idle ((key, pool) ∷ ps) = omega (
  arith,
  remove_unhealthy-occurrences h (clock key) idle pool 0,
  cleanup_pools-occurrences h clock idle ps,
)

clean-occurrences :
    (h : ℕ) (clock : Text → ℕ → ℕ) (p : ConnectionPool)
    → in_pools h (cleanup_idle_connections clock p).pools ≤ in_pools h p.pools
unfolding cleanup_idle_connections
clean-occurrences h clock p = cleanup_pools-occurrences h clock p.config.idle_timeout p.pools

in_lent-lend :
    (h : ℕ) (host : Text) (port : ℕ) (conn : Option UpstreamConnection) (ls : List Loan)
    → in_lent h (lend host port conn ++ ls) ≡ in_option h conn + in_lent h ls
unfolding total
in_lent-lend h host port none ls = omega arith
in_lent-lend h host port (some conn) ls = omega arith

begin_borrow-occurrences :
    (h : ℕ) (clock : ℕ → ℕ) (host : Text) (port : ℕ) (p : ConnectionPool)
    → in_pools h (begin_borrow clock host port p).0.pools
        + in_option h (begin_borrow clock host port p).1
      ≤ in_pools h p.pools
unfolding begin_borrow
begin_borrow-occurrences h clock host port p =
    let key = make_pool_key host port in
    omega (
      arith,
      in_pools-set_pool h key (pop_healthy clock p.config.idle_timeout (get_pool key p.pools) 0).0
          p.pools,
      pop_healthy-occurrences h clock p.config.idle_timeout (get_pool key p.pools) 0,
    )

-- A new connection has the handle of its socket alone, which did not occur before.
created-occurrences :
    (peer : ℕ → Text × ℕ) (h : ℕ) (host : Text) (port : ℕ) (l : Lending) (outcome : ConnectOutcome)
    (now : ℕ)
    → IsNewFor peer host port l outcome
    → occurrences h l ≤ 1
    → in_option h (create_new_connection outcome now).0 + occurrences h l ≤ 1
unfolding create_new_connection
created-occurrences peer h host port l (connected socket) now new few =
    elim (ℕ_discrete socket.handle h) [
      | yes e ↦ ground (arith, subst (λ (k : ℕ). occurrences k l ≡ 0) e new.0)
      | no n ↦ ground arith
    ]
created-occurrences peer h host port l timed_out now new few = omega arith
created-occurrences peer h host port l operation_aborted now new few = omega arith
created-occurrences peer h host port l other_system_error now new few = omega arith
created-occurrences peer h host port l other_exception now new few = omega arith

erase-occurrences : (h i : ℕ) (ls : List Loan) → in_lent h (erase ls i) ≤ in_lent h ls
unfolding total
erase-occurrences h i [] = omega arith
erase-occurrences h zero (x ∷ ls) = omega arith
erase-occurrences h (suc i) (x ∷ ls) = omega (arith, erase-occurrences h i ls)

same_handle :
    (h : ℕ) (a b : UpstreamConnection)
    → a.socket.handle ≡ b.socket.handle
    → is_handle h a ≡ is_handle h b
same_handle h a b e = ground (arith, e)

Step-occurrences :
    {peer : ℕ → Text × ℕ} {l m : Lending} (h : ℕ)
    → Step peer l m
    → occurrences h l ≤ 1
    → occurrences h m ≤ 1
Step-occurrences {l = l} h (borrow clock host port) few = omega (
  arith,
  begin_borrow-occurrences h clock host port l.pool,
  in_lent-lend h host port (begin_borrow clock host port l.pool).1 l.lent,
)
Step-occurrences {peer} {l} h (connect i outcome now {host} {port} at new) few = omega (
  arith,
  created-occurrences peer h host port l outcome now new few,
  in_lent-lend h host port (create_new_connection outcome now).0 l.lent,
)
Step-occurrences {l = l} h (give_back i now used {loan} at same) few = omega (
  arith,
  return_connection-occurrences h now loan.host loan.port used l.pool,
  total-erase (λ (x : Loan). is_handle h x.conn) l.lent i loan at,
  same_handle h used loan.conn same,
)
Step-occurrences {l = l} h (destroy i) few = omega (arith, erase-occurrences h i l.lent)
Step-occurrences {l = l} h (clean clock) few = omega (arith, clean-occurrences h clock l.pool)

Reach-occurrences :
    {peer : ℕ → Text × ℕ} {config : UpstreamConfig} {l : Lending} (h : ℕ)
    → Reach peer config l
    → occurrences h l ≤ 1
unfolding total
Reach-occurrences h start = omega arith
Reach-occurrences h (later r st) = Step-occurrences h st (Reach-occurrences h r)

own_handle : (conn : UpstreamConnection) → is_handle conn.socket.handle conn ≡ 1
own_handle conn = rw (==_refl conn.socket.handle)

-- Whatever the clients of a pool call, in any order and with any waits in between, a connection has
-- one owner: two loans are the same one or have different sockets, and the socket of a loan is not
-- in the pool. New sockets are assumed to have handles that no socket has which is still there.
pub lent_once :
    {peer : ℕ → Text × ℕ} {config : UpstreamConfig} {l : Lending}
    → Reach peer config l
    → (i j : ℕ) (x y : Loan) → get_elem? l.lent i ≡ some x
    → get_elem? l.lent j ≡ some y
    → ((i ≡ j) ⊎ (x.conn.socket.handle ≢ y.conn.socket.handle))
      × (in_pools x.conn.socket.handle l.pool.pools ≡ 0)
lent_once {l = l} r i j x y at_i at_j = (
  elim (ℕ_discrete i j) [
    | yes same ↦ inl same
    | no apart ↦ inr (λ e. absurd (
        omega (
          arith,
          few,
          own,
          same_handle x.conn.socket.handle x.conn y.conn e,
          add-le-total (λ (z : Loan). is_handle x.conn.socket.handle z.conn) l.lent i j x y apart
              at_i at_j,
        )))
  ],
  omega (
    arith,
    few,
    own,
    le-total (λ (z : Loan). is_handle x.conn.socket.handle z.conn) l.lent i x at_i,
  ),
)
  where
    few : occurrences x.conn.socket.handle l ≤ 1
    few = Reach-occurrences x.conn.socket.handle r

    own : is_handle x.conn.socket.handle x.conn ≡ 1
    own = own_handle x.conn
