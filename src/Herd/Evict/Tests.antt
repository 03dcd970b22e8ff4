-- ===== src/Herd/Evict/Tests.antt =====
-- src/objects.c: an idle server that is evicted.
use mathlib.Core.Logic.{ite}
use pgbouncer.Base.{◌≡◌, refl, true, Option, [], ◌∷◌, some, arith}
use pgbouncer.Herd.Shelf.{set_at, set_at-all}
use pgbouncer.Herd.Tests.{nobody, free_server, settings}
use pgbouncer.Herd.Links.Sound.{IsSound}
use pgbouncer.Herd.Links.Tests.{quiet}
use pgbouncer.Herd.Evict.Candidates.{candidates}
use pgbouncer.Herd.Evict.Oldest.{Evicts, evict_connection-Evicts, evict_user_connection-Evicts}
use pgbouncer.Herd.Evict.{of_database, of_credentials, evict_connection, evict_user_connection}
use pgbouncer.Herd.{
  World, sv_idle, idle_server_list, ServerList, ServerList-discrete, client_list, server_list,
}

-- Server 9 is idle, the only connection of database 1 and user 2. Databases have one at most.
abbrev pub resting : World
resting = record nobody {
  servers =
      set_at (λ s. free_server) 9
        (record free_server { state = sv_idle; ready = true; request_time = 50 });
  server_lists = λ l. ite (ServerList-discrete l (idle_server_list 3)) (9 ∷ []) [];
  databases = set_at nobody.databases 1 (record (nobody.databases 1) { connection_count = 1 });
  users = set_at nobody.users 2 (record (nobody.users 2) { connection_count = 1 });
  config = record settings { max_db_connections = 1 };
}

pub resting-IsSound : IsSound resting
unfolding client_list server_list
resting-IsSound = record {
  placed = record { clients_placed = λ i l. ground arith; servers_placed = λ i l. ground arith };
  client_listed = λ c. (_, refl);
  server_listed =
      set_at-all
        (λ i server. (o : Option ServerList) × (server_list server.state server.pool ≡ some o))
        (λ s. free_server) 9 _ (_, refl) λ i. (_, refl);
  linked = λ c s. ground arith;
  matched = λ c s. ground arith;
  cancels = λ i l. ground arith;
  canceling = λ c s. ground arith;
  owned = λ s p h e. (2, refl);
  in_pools = λ s p. ground arith;
  db_counted = λ d. ground arith;
  user_counted = λ u. ground arith;
}

evict_connection-Evicts_example :
    Evicts resting resting-IsSound
      (candidates resting (of_database resting 1) (3 ∷ []))
      (evict_connection quiet resting 1)
evict_connection-Evicts_example = evict_connection-Evicts quiet resting resting-IsSound 1

evict_user_connection-Evicts_example :
    Evicts resting resting-IsSound
      (candidates resting (of_credentials resting 2) (3 ∷ []))
      (evict_user_connection quiet resting 2)
evict_user_connection-Evicts_example = evict_user_connection-Evicts quiet resting resting-IsSound 2
