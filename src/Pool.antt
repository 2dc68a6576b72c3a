-- ===== src/Pool.antt =====
-- internal/repo/postgres/postgres.go: opening and closing the connection pool. The functions of pgxpool are parameters.
use shelf_auth.Prelude.{
  ◌∷◌, [], String_eq, ℕ_eq, String, ℕ, List, if◌then◌else◌, is_empty, Option, some, ◌==◌, none,
}
use shelf_auth.Errors.{Result, ok, err, wrap, failure}
use shelf_auth.Platform.{Duration}

pub record PoolConfig : Type 0 where
  pub target : String
  pub max_conns : ℕ
  pub min_conns : ℕ
  pub health_check_period : Duration
  pub max_conn_idle_time : Duration
  pub max_conn_lifetime : Duration

pub record PoolLibrary : Type 0 where
  pub parse_config : String → Result PoolConfig
  pub new_with_config : PoolConfig → Result ℕ
  -- a ping with a timeout, by the number of the pool
  pub ping : ℕ → Duration → Result (Unit {0})

abbrev pub tuned : PoolConfig → PoolConfig
tuned c = record c {
  max_conns = 10;
  min_conns = 1;
  health_check_period = 30000000000;
  max_conn_idle_time = 300000000000;
  max_conn_lifetime = 3600000000000;
}

-- The result, and the pools that are left open.
abbrev pub check_ping : ℕ → Result (Unit {0}) → Result ℕ × List ℕ
check_ping pool (ok done) = (ok pool, pool ∷ [])
check_ping pool (err e) = (err (wrap "postgres: ping" e), [])

abbrev pub connect : PoolLibrary → Result ℕ → Result ℕ × List ℕ
connect lib (err e) = (err (wrap "postgres: new pool" e), [])
connect lib (ok pool) = check_ping pool (lib.ping pool 3000000000)

abbrev pub configure : PoolLibrary → Result PoolConfig → Result ℕ × List ℕ
configure lib (err e) = (err (wrap "postgres: parse config" e), [])
configure lib (ok cfg) = connect lib (lib.new_with_config (tuned cfg))

-- Open
unfoldable pub open_pool : PoolLibrary → String → Result ℕ × List ℕ
open_pool lib conn_string =
    if is_empty conn_string
    then (err (failure "postgres: empty connection string"), [])
    else configure lib (lib.parse_config conn_string)

-- Close of a handle, on the pools that are open.
unfoldable pub close_handle : Option ℕ → List ℕ → List ℕ
close_handle none open_pools = open_pools
close_handle (some pool) [] = []
close_handle (some pool) (x ∷ open_pools) =
    let rest = close_handle (some pool) open_pools in if x == pool then rest else x ∷ rest
