-- ===== src/Herd/Tests.antt =====
-- src/objects.c: a client that logs in to a pool, and a server that becomes idle in it.
use pgbouncer.Base.{◌+◌, ◌≡◌, refl, true, false, [], ◌∷◌, none, some}
use pgbouncer.Herd.Placement.{IsPlaced, change_client_state-IsPlaced, change_server_state-IsPlaced}
use pgbouncer.Herd.Counts.{counted, change_server_state-pool_server_count}
use pgbouncer.Herd.{
  left_client_list, left_server_list, World, Config, Client, Server, pool_tx, pool_inherit, cl_free,
  cl_login, cl_waiting, cl_waiting_login, sv_free, sv_login, sv_idle, login_client_list,
  waiting_client_list, new_server_list, idle_server_list, client_list, server_list,
  next_client_state, moved_client, move_client, move_server, change_client_state,
  change_server_state, pool_server_count,
}

abbrev pub settings : Config
settings = record {
  server_round_robin = false;
  paused = false;
  shutdown_wait_for_servers = false;
  pool_mode = pool_tx;
  default_pool_size = 20;
  res_pool_size = 0;
  res_pool_timeout = 5;
  max_db_connections = 0;
  max_user_connections = 0;
  server_lifetime = 3600;
  server_login_retry = 15;
  server_check_delay = 30;
  has_check_query = true;
  has_reset_query = true;
  reset_query_always = false;
}

abbrev pub free_client : Client
free_client = record {
  state = cl_free;
  pool = some 3;
  link = none;
  wait_start = 0;
  request_time = 0;
  sent_wait_notification = false;
  replication = false;
  auth_query = false;
  canceled_server = none;
  db = none;
  contributes_db_client_count = false;
  login_user_credentials = none;
  user_connection_counted = false;
}

abbrev pub free_server : Server
free_server = record {
  state = sv_free;
  pool = some 3;
  link = none;
  close_needed = false;
  ready = false;
  setting_vars = false;
  replication = false;
  connect_time = 0;
  request_time = 0;
  outstanding_requests = 0;
  canceling_clients = [];
}

-- Every connection is free, and belongs to pool 3 once it is used.
abbrev pub nobody : World
nobody = record {
  clients = λ c. free_client;
  servers = λ s. free_server;
  pools = λ p. record {
    db = 1;
    user_credentials = some 2;
    welcome_msg_ready = true;
    last_connect_failed = false;
    last_login_failed = false;
    last_connect_time = 0;
    last_active_time = 0;
    last_lifetime_disconnect = 0;
  };
  databases = λ d. record {
    is_peer = false;
    db_paused = false;
    pool_mode = pool_inherit;
    pool_size = none;
    res_pool_size = none;
    max_db_connections = 0;
    server_lifetime = 0;
    connection_count = 0;
    client_connection_count = 0;
  };
  users = λ u. record {
    pool_mode = pool_inherit;
    pool_size = none;
    res_pool_size = none;
    max_user_connections = 0;
    connection_count = 0;
    client_connection_count = 0;
  };
  global_user = λ k. k;
  client_lists = λ l. [];
  server_lists = λ l. [];
  pool_list = 3 ∷ [];
  peer_pool_list = [];
  now = 100;
  calls = [];
  config = settings;
}

nobody-IsPlaced : IsPlaced nobody
unfolding client_list server_list
nobody-IsPlaced = record { clients_placed = λ i l. refl; servers_placed = λ i l. refl }

abbrev logging_in : World
logging_in = move_client nobody 7 cl_login none (some login_client_list)

logging_in-IsPlaced : IsPlaced logging_in
unfolding change_client_state left_client_list client_list next_client_state
logging_in-IsPlaced =
    (change_client_state-IsPlaced nobody 7 cl_login logging_in nobody-IsPlaced refl).0

abbrev in_queue : World
in_queue =
    move_client logging_in 7 cl_waiting_login (some login_client_list)
      (some (waiting_client_list 3))

change_client_state-IsPlaced_example :
    IsPlaced in_queue
    × ((in_queue.clients 7).state ≡ next_client_state (logging_in.clients 7).state cl_waiting)
unfolding change_client_state left_client_list client_list next_client_state move_client
    moved_client
change_client_state-IsPlaced_example =
    change_client_state-IsPlaced logging_in 7 cl_waiting in_queue logging_in-IsPlaced refl

abbrev connecting : World
connecting = move_server nobody 9 sv_login none (some (new_server_list 3))

connecting-IsPlaced : IsPlaced connecting
unfolding change_server_state left_server_list server_list
connecting-IsPlaced =
    (change_server_state-IsPlaced nobody 9 sv_login connecting nobody-IsPlaced refl).0

abbrev connected : World
connected = move_server connecting 9 sv_idle (some (new_server_list 3)) (some (idle_server_list 3))

change_server_state-IsPlaced_example : IsPlaced connected × ((connected.servers 9).state ≡ sv_idle)
unfolding change_server_state left_server_list server_list move_server
change_server_state-IsPlaced_example =
    change_server_state-IsPlaced connecting 9 sv_idle connected connecting-IsPlaced refl

change_server_state-pool_server_count_example :
    pool_server_count connected 3
      + counted (connecting.servers 9).state (connecting.servers 9).pool 3
    ≡ pool_server_count connecting 3 + counted sv_idle (connecting.servers 9).pool 3
unfolding change_server_state left_server_list server_list move_server
change_server_state-pool_server_count_example =
    change_server_state-pool_server_count connecting 9 sv_idle connected 3 connecting-IsPlaced refl
