-- ===== src/Herd.antt =====
-- src/objects.c, with the pools of include/bouncer.h: the lists that client and server connections
-- stand on, and the moves between them. Connections and pools are named by numbers; a list is the
-- sequence of the connections on it. The state enumeration of the source is split in two, since
-- each function here is only ever passed states of one kind. `none` is a null pointer followed.
pub mod Sockets
pub mod Shelf
pub mod Settings
pub mod Links
pub mod Evict
pub mod Launch
pub mod Placement
pub mod Counts
pub mod Tests
use pgbouncer.Base.{
  ℕ, ◌+◌, ◌-◌, ◌*◌, ◌/◌, Bool, true, false, not, ◌||◌, List, [], ◌∷◌, Option, none, some, ltb, leb,
  if◌then◌else◌, ◌>>=◌, length, ℕ_discrete,
}
use Shelf.{take_off, put_on, set_at}
pub use Sockets.{
  ClientState, cl_free, cl_justfree, cl_login, cl_waiting, cl_waiting_login, cl_active,
  cl_waiting_cancel, cl_active_cancel, ServerState, sv_free, sv_justfree, sv_login,
  sv_being_canceled, sv_idle, sv_active, sv_active_cancel, sv_used, sv_tested, ClientList,
  justfree_client_list, login_client_list, active_client_list, waiting_client_list,
  active_cancel_req_list, waiting_cancel_req_list, ServerList, justfree_server_list,
  new_server_list, used_server_list, tested_server_list, being_canceled_server_list,
  idle_server_list, active_server_list, active_cancel_server_list, ClientList-discrete,
  ServerList-discrete, Client, Server, Pool, Database, User, Config, Call, sbuf_continue,
  dns_connect, World, leave_call, PoolMode, pool_inherit, pool_session, pool_tx, pool_stmt,
}

of_pool {ℓ} : {A : Type ℓ} → (ℕ → A) → Option ℕ → Option (Option A)
of_pool f none = none
of_pool f (some p) = some (some (f p))

-- The list that a connection is removed from, by its old state: the first switch; `some none` for
-- the free state, which has none.
pub left_client_list : ClientState → Option ℕ → Option (Option ClientList)
unfolding of_pool
left_client_list cl_free pool = some none
left_client_list cl_justfree pool = some (some justfree_client_list)
left_client_list cl_login pool = some (some login_client_list)
left_client_list cl_waiting pool = of_pool waiting_client_list pool
left_client_list cl_waiting_login pool = of_pool waiting_client_list pool
left_client_list cl_active pool = of_pool active_client_list pool
left_client_list cl_waiting_cancel pool = of_pool waiting_cancel_req_list pool
left_client_list cl_active_cancel pool = of_pool active_cancel_req_list pool

-- The list that it is put on, by its new state: the second switch.
pub client_list : ClientState → Option ℕ → Option (Option ClientList)
unfolding of_pool
client_list cl_free pool = some none
client_list cl_justfree pool = some (some justfree_client_list)
client_list cl_login pool = some (some login_client_list)
client_list cl_waiting pool = of_pool waiting_client_list pool
client_list cl_waiting_login pool = of_pool waiting_client_list pool
client_list cl_active pool = of_pool active_client_list pool
client_list cl_waiting_cancel pool = of_pool waiting_cancel_req_list pool
client_list cl_active_cancel pool = of_pool active_cancel_req_list pool

pub left_server_list : ServerState → Option ℕ → Option (Option ServerList)
unfolding of_pool
left_server_list sv_free pool = some none
left_server_list sv_justfree pool = some (some justfree_server_list)
left_server_list sv_login pool = of_pool new_server_list pool
left_server_list sv_being_canceled pool = of_pool being_canceled_server_list pool
left_server_list sv_idle pool = of_pool idle_server_list pool
left_server_list sv_active pool = of_pool active_server_list pool
left_server_list sv_active_cancel pool = of_pool active_cancel_server_list pool
left_server_list sv_used pool = of_pool used_server_list pool
left_server_list sv_tested pool = of_pool tested_server_list pool

pub server_list : ServerState → Option ℕ → Option (Option ServerList)
unfolding of_pool
server_list sv_free pool = some none
server_list sv_justfree pool = some (some justfree_server_list)
server_list sv_login pool = of_pool new_server_list pool
server_list sv_being_canceled pool = of_pool being_canceled_server_list pool
server_list sv_idle pool = of_pool idle_server_list pool
server_list sv_active pool = of_pool active_server_list pool
server_list sv_active_cancel pool = of_pool active_cancel_server_list pool
server_list sv_used pool = of_pool used_server_list pool
server_list sv_tested pool = of_pool tested_server_list pool

-- A client that logs in waits, and comes back, in a state of its own.
pub next_client_state : ClientState → ClientState → ClientState
next_client_state cl_login cl_waiting = cl_waiting_login
next_client_state cl_waiting_login cl_active = cl_login
next_client_state _ newstate = newstate

pub is_waiting : ClientState → Bool
is_waiting cl_waiting = true
is_waiting cl_waiting_login = true
is_waiting _ = false

-- The client's own fields: what leaving the old list and entering the new one sets.
moved_client : World → Client → ClientState → Client
unfolding is_waiting
moved_client w client state = record client {
  state = state;
  sent_wait_notification = if is_waiting client.state then false else client.sent_wait_notification;
  wait_start = if is_waiting state then w.now else client.wait_start;
}

pub move_client : World → ℕ → ClientState → Option ClientList → Option ClientList → World
unfolding moved_client
move_client w c state old new = record w {
  clients = set_at w.clients c (moved_client w (w.clients c) state);
  client_lists =
      put_on ClientList-discrete false (take_off ClientList-discrete w.client_lists old c) new c;
}

pub change_client_state : World → ℕ → ClientState → Option World
unfolding move_client
change_client_state w c newstate =
    let client = w.clients c in
    let state = next_client_state client.state newstate in
    left_client_list client.state client.pool >>= λ old.
    (client_list state client.pool >>= λ new. some (move_client w c state old new))

-- Used servers go to the front, and so do idle ones that are to be used again soon.
goes_first : World → Server → ServerState → Bool
goes_first w server sv_used = true
goes_first w server sv_idle = not (server.close_needed || w.config.server_round_robin)
goes_first w server _ = false

pub move_server : World → ℕ → ServerState → Option ServerList → Option ServerList → World
unfolding goes_first
move_server w s state old new = record w {
  servers = set_at w.servers s (record (w.servers s) { state = state });
  server_lists =
      put_on ServerList-discrete (goes_first w (w.servers s) state)
        (take_off ServerList-discrete w.server_lists old s) new s;
}

pub change_server_state : World → ℕ → ServerState → Option World
unfolding move_server
change_server_state w s newstate =
    let server = w.servers s in
    left_server_list server.state server.pool >>= λ old.
    (server_list newstate server.pool >>= λ new. some (move_server w s newstate old new))

abbrev pub is_live : ServerState → Bool
is_live sv_free = false
is_live sv_justfree = false
is_live _ = true

abbrev statlist_count : World → ServerList → ℕ
statlist_count w l = length (w.server_lists l)

abbrev pub pool_connected_server_count : World → ℕ → ℕ
pool_connected_server_count w p =
    statlist_count w (active_server_list p)
    + statlist_count w (being_canceled_server_list p)
    + statlist_count w (idle_server_list p)
    + statlist_count w (tested_server_list p)
    + statlist_count w (used_server_list p)

abbrev pub pool_server_count : World → ℕ → ℕ
pool_server_count w p =
    pool_connected_server_count w p
    + statlist_count w (new_server_list p)
    + statlist_count w (active_cancel_server_list p)
