-- ===== src/Herd/Settings.antt =====
-- The settings of a pool in src/server.c, taken from its user, its database or the defaults, and
-- life_over of src/objects.c.
use pgbouncer.Base.{
  ℕ, ◌+◌, ◌-◌, ◌/◌, ◌%◌, ◌^◌, Bool, false, Option, none, some, ltb, leb, ◌==◌, if◌then◌else◌,
}
use pgbouncer.Herd.{World, Pool, User, Server, PoolMode, pool_inherit, pool_session}

abbrev or_else : Option ℕ → ℕ → ℕ
or_else none d = d
or_else (some n) d = n

abbrev setting : World → Pool → (User → Option ℕ) → Option ℕ
setting w pool f = elim pool.user_credentials [
  | none ↦ none
  | some u ↦ f (w.users (w.global_user u))
]

unfoldable pub pool_pool_size : World → ℕ → ℕ
pool_pool_size w p =
    let pool = w.pools p in
    or_else (setting w pool (λ user. user.pool_size))
      (or_else (w.databases pool.db).pool_size w.config.default_pool_size)

unfoldable pub pool_res_pool_size : World → ℕ → ℕ
pool_res_pool_size w p =
    let pool = w.pools p in
    or_else (setting w pool (λ user. user.res_pool_size))
      (or_else (w.databases pool.db).res_pool_size w.config.res_pool_size)

unfoldable pub pool_server_lifetime : World → ℕ → ℕ
pool_server_lifetime w p =
    let db = w.databases (w.pools p).db in
    if db.server_lifetime == 0 then w.config.server_lifetime else db.server_lifetime

unfoldable pub database_max_connections : World → ℕ → ℕ
database_max_connections w d =
    let db = w.databases d in
    if db.max_db_connections == 0 then w.config.max_db_connections else db.max_db_connections

unfoldable pub user_max_connections : World → ℕ → ℕ
user_max_connections w u =
    let user = w.users u in
    if user.max_user_connections == 0
    then w.config.max_user_connections
    else user.max_user_connections

inherit : PoolMode → PoolMode → PoolMode
inherit pool_inherit mode = mode
inherit mode _ = mode

-- `none` for a pool without credentials, whose pointer is followed.
unfoldable pub probably_wrong_pool_pool_mode : World → ℕ → Option PoolMode
unfolding inherit
probably_wrong_pool_pool_mode w p =
    let pool = w.pools p in
    elim pool.user_credentials [
      | none ↦ none
      | some u ↦ some (
          inherit (inherit (w.users (w.global_user u)).pool_mode (w.databases pool.db).pool_mode)
            w.config.pool_mode)
    ]

unfoldable pub connection_pool_mode : World → Server → Option PoolMode
unfolding probably_wrong_pool_pool_mode
connection_pool_mode w server =
    if server.replication
    then some pool_session
    else elim server.pool [ none ↦ none | some p ↦ probably_wrong_pool_pool_mode w p ]

-- Subtraction of times.
abbrev pub sub64 : ℕ → ℕ → ℕ
sub64 a b = (a + 2 ^ 64 - b) % 2 ^ 64

unfoldable pub life_over : World → ℕ → ℕ → Bool
unfolding pool_server_lifetime pool_pool_size
life_over w s p =
    let age = sub64 w.now (w.servers s).connect_time in
    let last_kill = sub64 w.now (w.pools p).last_lifetime_disconnect in
    let server_lifetime = pool_server_lifetime w p in
    let size = pool_pool_size w p in
    let lifetime_kill_gap = if ltb 0 size then server_lifetime / size else 0 in
    if ltb age server_lifetime then false else leb lifetime_kill_gap last_kill
