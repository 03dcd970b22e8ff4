-- ===== src/Herd/Sockets.antt =====
-- The connections, pools, databases and users of include/bouncer.h, and the settings of
-- src/main.c that src/objects.c reads. Connections, pools and the others are named by numbers. A
-- setting that stands for itself when it is not negative is an Option; a limit of 0 is unset, as a
-- negative one is in the source.
use pgbouncer.Base.{◌∷◌, ℕ, Bool, List, Option, ℕ_discrete}

pub data ClientState : Type 0 where
  cl_free cl_justfree cl_login cl_waiting cl_waiting_login : ClientState
  cl_active cl_waiting_cancel cl_active_cancel : ClientState

pub data ServerState : Type 0 where
  sv_free sv_justfree sv_login sv_being_canceled sv_idle : ServerState
  sv_active sv_active_cancel sv_used sv_tested : ServerState

-- The lists, those of a pool with its number.
pub data ClientList : Type 0 where
  justfree_client_list login_client_list : ClientList
  active_client_list waiting_client_list : ℕ → ClientList
  active_cancel_req_list waiting_cancel_req_list : ℕ → ClientList

pub data ServerList : Type 0 where
  justfree_server_list : ServerList
  new_server_list used_server_list tested_server_list : ℕ → ServerList
  being_canceled_server_list idle_server_list : ℕ → ServerList
  active_server_list active_cancel_server_list : ℕ → ServerList

pub ClientList-discrete : Discrete ClientList
ClientList-discrete = hlevel ℕ_discrete

pub ServerList-discrete : Discrete ServerList
ServerList-discrete = hlevel ℕ_discrete

-- `outstanding_requests` is how many there are, `auth_query` is sending_auth_query.
pub record Client : Type 0 where
  pub state : ClientState
  pub pool : Option ℕ
  pub link : Option ℕ
  pub wait_start : ℕ
  pub request_time : ℕ
  pub sent_wait_notification : Bool
  pub replication : Bool
  pub auth_query : Bool
  pub canceled_server : Option ℕ
  pub db : Option ℕ
  pub contributes_db_client_count : Bool
  pub login_user_credentials : Option ℕ
  pub user_connection_counted : Bool

pub record Server : Type 0 where
  pub state : ServerState
  pub pool : Option ℕ
  pub link : Option ℕ
  pub close_needed : Bool
  pub ready : Bool
  pub setting_vars : Bool
  pub replication : Bool
  pub connect_time : ℕ
  pub request_time : ℕ
  pub outstanding_requests : ℕ
  pub canceling_clients : List ℕ

pub data PoolMode : Type 0 where
  pool_inherit pool_session pool_tx pool_stmt : PoolMode

-- `user_credentials` is `none` for the pool of a peer.
pub record Pool : Type 0 where
  pub db : ℕ
  pub user_credentials : Option ℕ
  pub welcome_msg_ready : Bool
  pub last_connect_failed : Bool
  pub last_login_failed : Bool
  pub last_connect_time : ℕ
  pub last_active_time : ℕ
  pub last_lifetime_disconnect : ℕ

-- `is_peer`: peer_id is not 0.
pub record Database : Type 0 where
  pub is_peer : Bool
  pub db_paused : Bool
  pub pool_mode : PoolMode
  pub pool_size : Option ℕ
  pub res_pool_size : Option ℕ
  pub max_db_connections : ℕ
  pub server_lifetime : ℕ
  pub connection_count : ℕ
  pub client_connection_count : ℕ

-- PgGlobalUser
pub record User : Type 0 where
  pub pool_mode : PoolMode
  pub pool_size : Option ℕ
  pub res_pool_size : Option ℕ
  pub max_user_connections : ℕ
  pub connection_count : ℕ
  pub client_connection_count : ℕ

-- The queries are there when they are not empty.
pub record Config : Type 0 where
  pub server_round_robin : Bool
  pub paused : Bool
  pub shutdown_wait_for_servers : Bool
  pub pool_mode : PoolMode
  pub default_pool_size : ℕ
  pub res_pool_size : ℕ
  pub res_pool_timeout : ℕ
  pub max_db_connections : ℕ
  pub max_user_connections : ℕ
  pub server_lifetime : ℕ
  pub server_login_retry : ℕ
  pub server_check_delay : ℕ
  pub has_check_query : Bool
  pub has_reset_query : Bool
  pub reset_query_always : Bool

-- Functions that an operation leaves a connection to: sbuf_continue of src/sbuf.c, which runs the
-- events of a client, and dns_connect of src/objects.c, which opens a server's socket.
pub data Call : Type 0 where
  sbuf_continue dns_connect : ℕ → Call

-- `now` is the cached time. `global_user` gives the user of credentials.
-- `calls` has the calls that an operation makes to functions that go on from there, the latest
-- first.
pub record World : Type 0 where
  pub clients : ℕ → Client
  pub servers : ℕ → Server
  pub pools : ℕ → Pool
  pub databases : ℕ → Database
  pub users : ℕ → User
  pub global_user : ℕ → ℕ
  pub client_lists : ClientList → List ℕ
  pub server_lists : ServerList → List ℕ
  pub pool_list : List ℕ
  pub peer_pool_list : List ℕ
  pub now : ℕ
  pub calls : List Call
  pub config : Config

abbrev pub leave_call : World → Call → World
leave_call w call = record w { calls = call ∷ w.calls }
