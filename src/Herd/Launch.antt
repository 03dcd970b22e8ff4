-- ===== src/Herd/Launch.antt =====
-- src/objects.c: launch_new_connection, which opens a connection to the server of a pool within
-- the limits of the pool, its database and its user. The allocation of the socket is a parameter,
-- and the connection is left to dns_connect, which looks the host up and opens the socket.
pub mod Evictions
pub mod Room
mod Fresh
pub mod Start
mod Tests
use pgbouncer.Base.{
  ℕ, zero, suc, ◌+◌, ◌*◌, Bool, true, false, not, ◌&&◌, List, [], ◌∷◌, Option, none, some, ltb, leb,
  if◌then◌else◌, ◌>>=◌,
}
use pgbouncer.Herd.Shelf.{set_at}
use pgbouncer.Herd.Links.Keeps.{connections}
use pgbouncer.Herd.Settings.{
  pool_pool_size, pool_res_pool_size, database_max_connections, user_max_connections, sub64,
}
use pgbouncer.Herd.Links.{Streams, set_pool, set_server}
use pgbouncer.Herd.Evict.{is_none, evict_connection, evict_pool_connection, evict_user_connection}
use pgbouncer.Herd.{
  leave_call, dns_connect, World, Client, waiting_client_list, waiting_cancel_req_list,
  new_server_list, sv_login, pool_server_count, change_server_state,
}

-- while (evict_if_needed && full) { if (!evict) break; }
pub evict_while : Bool → (World → Bool) → (World → Option (World × Bool)) → ℕ → World → Option World
evict_while evict_if_needed full evict zero w = none
evict_while evict_if_needed full evict (suc f) w =
    if evict_if_needed && full w
    then (evict w >>= λ r. elim r.1 [
      | true ↦ evict_while evict_if_needed full evict f r.0
      | false ↦ some r.0
    ])
    else some w

-- The evictions of one limit, and whether there is room afterwards. There are no more evictions
-- than connections.
pub relieve :
    Bool → (World → Bool) → (World → Option (World × Bool)) → World → Option (World × Bool)
unfolding evict_while
relieve evict_if_needed full evict w =
    evict_while evict_if_needed full evict (suc (connections w)) w >>= λ w1.
    some (w1, not (full w1))

pub then_if : Option (World × Bool) → (World → Option (World × Bool)) → Option (World × Bool)
then_if o f = o >>= λ r. elim r.1 [ true ↦ f r.0 | false ↦ some (r.0, false) ]

-- A limit of 0 is none.
abbrev pub relieve_limit :
    Bool → ℕ → (World → ℕ) → (World → Option (World × Bool)) → World → Option (World × Bool)
relieve_limit evict_if_needed zero used evict w = some (w, true)
relieve_limit evict_if_needed (suc n) used evict w =
    relieve evict_if_needed (λ w. leb (suc n) (used w)) evict w

abbrev pub db_used : ℕ → World → ℕ
db_used d w = (w.databases d).connection_count

abbrev pub user_used : ℕ → World → ℕ
user_used u w = (w.users u).connection_count

-- Whether the first client in the queue has waited long enough for the reserve.
pub may_use_reserve : World → ℕ → Client → Bool
may_use_reserve w p client =
    let reserve = pool_res_pool_size w p in
    let timeout = w.config.res_pool_timeout in
    ltb 0 timeout
    && (ltb 0 reserve
        && (leb timeout (sub64 w.now client.request_time)
            && ltb (pool_server_count w p) (pool_pool_size w p + reserve)))

module _ (streams : Streams) where
  -- The label allow_new: whether the database and the user have room.
  pub allow_new : World → ℕ → Bool → Option (World × Bool)
  unfolding relieve then_if
  allow_new w p evict_if_needed =
      let d = (w.pools p).db in
      then_if
        (relieve_limit evict_if_needed (database_max_connections w d) (db_used d)
          (λ w. evict_connection streams w d) w)
        λ w1. elim (w1.pools p).user_credentials [
          | none ↦ none
          | some k ↦
              let u = w1.global_user k in
              relieve_limit evict_if_needed (user_max_connections w1 u) (user_used u)
                (λ w. evict_user_connection streams w k) w1
        ]

  -- A client that needs a server of its own gets an idle one of the pool closed for it.
  pub make_room_for : World → ℕ → Bool → Client → Option (World × Bool)
  unfolding relieve then_if
  make_room_for w p evict_if_needed client =
      if client.replication && not client.auth_query
      then then_if
          (relieve evict_if_needed (λ w. leb (pool_pool_size w p) (pool_server_count w p))
            (λ w. evict_pool_connection streams w p) w)
          (λ w1. allow_new w1 p evict_if_needed)
      else some (w, false)

  -- A pool that has its size in connections, with the clients that wait for it.
  pub full_pool : World → ℕ → Bool → List ℕ → Option (World × Bool)
  unfolding allow_new make_room_for may_use_reserve
  full_pool w p evict_if_needed [] = some (w, false)
  full_pool w p evict_if_needed (c ∷ cs) =
      if may_use_reserve w p (w.clients c)
      then allow_new w p evict_if_needed
      else make_room_for w p evict_if_needed (w.clients c)

  -- Whether the limits let a connection be opened, after evictions.
  pub admit : World → ℕ → Bool → Option (World × Bool)
  unfolding allow_new full_pool
  admit w p evict_if_needed =
      let size = pool_pool_size w p in
      if ltb 0 size && (leb size (pool_server_count w p) && (w.pools p).welcome_msg_ready)
      then full_pool w p evict_if_needed (w.client_lists (waiting_client_list p))
      else allow_new w p evict_if_needed

-- One connection more of the pool's database and user.
pub count_up : World → ℕ → World
count_up w p = record w {
  databases =
      let d = (w.pools p).db in
      let db = w.databases d in
      set_at w.databases d (record db { connection_count = suc db.connection_count });
  users = elim (w.pools p).user_credentials [
    | none ↦ w.users
    | some k ↦
        let u = w.global_user k in
        let user = w.users u in
        set_at w.users u (record user { connection_count = suc user.connection_count })
  ];
}

module _ (slab_alloc : World → Option ℕ) where
  -- The label force_new. Without memory there is no connection.
  pub force_new : World → ℕ → Option World
  unfolding count_up
  force_new w p = elim (slab_alloc w) [
    | none ↦ some w
    | some s ↦
        let server = record (w.servers s) {
          pool = some p;
          connect_time = w.now;
          canceling_clients = [];
        } in
        let pool = record (w.pools p) { last_connect_time = w.now; last_active_time = w.now } in
        change_server_state (set_pool (set_server w s server) p pool) s sv_login >>= λ w1.
        some (leave_call (count_up w1 p) (dns_connect s))
  ]

module _ (streams : Streams) (slab_alloc : World → Option ℕ) where
  -- One attempt at a time, and none too soon after one that failed. A peer has a size only, a
  -- waiting cancel request doubles it.
  pub launch_new_connection : World → ℕ → Bool → Option World
  unfolding force_new admit
  launch_new_connection w p evict_if_needed =
      let pool = w.pools p in
      let server_count = pool_server_count w p in
      let size = pool_pool_size w p in
      if not (is_none (w.server_lists (new_server_list p)))
      then some w
      else if pool.last_connect_failed
          && ltb (sub64 w.now pool.last_connect_time) w.config.server_login_retry
      then some w
      else if (w.databases pool.db).is_peer
      then if ltb server_count size then force_new slab_alloc w p else some w
      else if not (is_none (w.client_lists (waiting_cancel_req_list p)))
          && ltb server_count (2 * size)
      then force_new slab_alloc w p
      else (admit streams w p evict_if_needed >>= λ r. elim r.1 [
        | true ↦ force_new slab_alloc r.0 p
        | false ↦ some r.0
      ])
