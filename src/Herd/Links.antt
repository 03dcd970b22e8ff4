-- ===== src/Herd/Links.antt =====
-- The links of src/objects.c between clients and servers: disconnect_client, disconnect_server and
-- release_server, which call one another, activate_client and what they are made of. `none` is a
-- null pointer followed, a state that is fatal to the process, or the fuel used up. The stream
-- buffer is a parameter. Left out are messages, statistics, copy_mode and the freeing of what a
-- socket owns; assertions are not compiled in.
pub mod Release
pub mod Sound
pub mod Steps
pub mod Cancels
pub mod Keeps
pub mod Closing
pub mod Disconnect
pub mod Waking
pub mod Loose
pub mod Releasing
pub mod Unlinking
pub mod Leaving
pub mod Detaching
pub mod Parting
pub mod Calls
pub mod Depth
pub mod Tests
use pgbouncer.Base.{
  ℕ, ◌-◌, ◌==◌, Bool, true, false, not, ◌||◌, ◌&&◌, List, [], ◌∷◌, Option, none, some, ltb,
  if◌then◌else◌, ◌>>=◌,
}
use pgbouncer.Herd.Shelf.{remove, set_at}
use pgbouncer.Herd.{
  World, Client, Server, Pool, Database, User, ClientState, ServerState, PoolMode, pool_session,
  pool_inherit, pool_tx, pool_stmt, cl_free, cl_justfree, cl_login, cl_waiting, cl_waiting_login,
  cl_active, cl_waiting_cancel, cl_active_cancel, sv_free, sv_justfree, sv_login, sv_being_canceled,
  sv_idle, sv_active, sv_active_cancel, sv_used, sv_tested, waiting_client_list,
  change_client_state, change_server_state,
}

-- What the stream buffer answers: whether everything was sent, and whether the reset query could
-- be.
pub record Streams : Type 0 where
  pub sbuf_is_empty : World → ℕ → Bool
  pub send_reset_query : World → ℕ → Bool

abbrev pub set_client : World → ℕ → Client → World
set_client w c client = record w { clients = set_at w.clients c client }

abbrev pub set_server : World → ℕ → Server → World
set_server w s server = record w { servers = set_at w.servers s server }

abbrev pub set_pool : World → ℕ → Pool → World
set_pool w p pool = record w { pools = set_at w.pools p pool }

abbrev pub set_database : World → ℕ → Database → World
set_database w d db = record w { databases = set_at w.databases d db }

abbrev pub set_user : World → ℕ → User → World
set_user w u user = record w { users = set_at w.users u user }

-- client->link = NULL; server->link = NULL
pub unlink : World → ℕ → ℕ → World
unlink w c s = record w {
  clients = set_at w.clients c (record (w.clients c) { link = none });
  servers = set_at w.servers s (record (w.servers s) { link = none });
}

-- A cancel request forgets the server that it cancels.
pub drop_cancel : World → ℕ → ℕ → World
drop_cancel w s c = record w {
  clients = set_at w.clients c (record (w.clients c) { canceled_server = none });
  servers =
      set_at w.servers s
        (record (w.servers s) { canceling_clients = remove c (w.servers s).canceling_clients });
}

-- The loops over a server's canceling clients, which drop those in some states.
pub drop_cancels : (ClientState → Bool) → World → ℕ → List ℕ → World
unfolding drop_cancel
drop_cancels drops w s [] = w
drop_cancels drops w s (c ∷ cs) =
    drop_cancels drops (if drops (w.clients c).state then drop_cancel w s c else w) s cs

pub any_state : ClientState → Bool
any_state _ = true

pub in_waiting_cancel : ClientState → Bool
in_waiting_cancel cl_waiting_cancel = true
in_waiting_cancel _ = false

-- One connection less of the pool's database and user. A count of 0 stays, where the int of the
-- source goes to -1.
pub count_down : World → ℕ → World
count_down w p = record w {
  databases =
      let d = (w.pools p).db in
      let db = w.databases d in
      set_at w.databases d (record db { connection_count = db.connection_count - 1 });
  users = elim (w.pools p).user_credentials [
    | none ↦ w.users
    | some k ↦
        let u = w.global_user k in
        let user = w.users u in
        set_at w.users u (record user { connection_count = user.connection_count - 1 })
  ];
}

-- The end of disconnect_server, once the server is not linked.
pub finish_disconnect : World → ℕ → Option World
unfolding drop_cancels any_state count_down change_server_state
finish_disconnect w s =
    let w1 = drop_cancels any_state w s (w.servers s).canceling_clients in
    (w1.servers s).pool >>= λ p. change_server_state (count_down w1 p) s sv_justfree

-- The three functions that call one another, with the socket that each is called with.
pub data Task : Type 0 where
  disconnect_client disconnect_server release_server : ℕ → Task

abbrev pub Runner : Type 0
Runner = World → Task → Option World

pub unlink_server : Runner → World → ℕ → Option World
unfolding unlink
unlink_server call w s = elim (w.servers s).link [
  | none ↦ some w
  | some c ↦ call (unlink w c s) (disconnect_client c)
]

-- A server that fails to log in marks its pool, unless it was only to carry a cancel request.
pub login_over : World → ℕ → ℕ → World
login_over w s p =
    let pool = w.pools p in
    set_pool w p (
      if (w.servers s).ready
      then record pool { last_connect_failed = false }
      else record pool { last_login_failed = true; last_connect_failed = true })

pub leave_login : Runner → World → ℕ → Option World
unfolding login_over unlink_server
leave_login call w s = (w.servers s).pool >>= λ p.
    (let w1 = login_over w s p in
      if (w.servers s).replication then unlink_server call w1 s else some w1)

-- The switch of disconnect_server.
pub detach_server : Runner → World → ℕ → ServerState → Option World
unfolding unlink_server leave_login
detach_server call w s sv_free = none
detach_server call w s sv_justfree = none
detach_server call w s sv_login = leave_login call w s
detach_server call w s sv_being_canceled = some w
detach_server call w s sv_idle = some w
detach_server call w s sv_active = unlink_server call w s
detach_server call w s sv_active_cancel = unlink_server call w s
detach_server call w s sv_used = some w
detach_server call w s sv_tested = some w

pub disconnect_server_with : Runner → World → ℕ → Option World
unfolding detach_server finish_disconnect
disconnect_server_with call w s =
    detach_server call w s (w.servers s).state >>= λ w1. finish_disconnect w1 s

-- One client less of its database and user, if it was counted.
pub uncount_client : World → ℕ → World
uncount_client w c =
    let client = w.clients c in
    record w {
      databases = elim client.db [
        | none ↦ w.databases
        | some d ↦
            let db = w.databases d in
            if client.contributes_db_client_count
            then set_at w.databases d
                (record db { client_connection_count = db.client_connection_count - 1 })
            else w.databases
      ];
      users = elim client.login_user_credentials [
        | none ↦ w.users
        | some k ↦
            let user = w.users (w.global_user k) in
            if client.user_connection_counted
            then set_at w.users (w.global_user k)
                (record user { client_connection_count = user.client_connection_count - 1 })
            else w.users
      ];
    }
