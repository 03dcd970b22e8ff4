-- ===== src/Herd/Links/Tests.antt =====
-- src/objects.c: a client that leaves while it is linked to a server.
use mathlib.Core.Logic.{ite}
use pgbouncer.Base.{◌≡◌, refl, true, Option, [], ◌∷◌, some, arith}
use pgbouncer.Herd.Shelf.{set_at, set_at-all}
use pgbouncer.Herd.Placement.{IsPlaced}
use pgbouncer.Herd.Tests.{nobody, free_client, free_server}
use pgbouncer.Herd.Links.Sound.{IsSound}
use pgbouncer.Herd.Links.Depth.{run-IsSound, disconnect_client-Gone}
use pgbouncer.Herd.Links.Parting.{Gone}
use pgbouncer.Herd.Links.Release.{run}
use pgbouncer.Herd.Links.{Streams, disconnect_client}
use pgbouncer.Herd.{
  World, cl_active, sv_active, active_client_list, active_server_list, ClientList, ServerList,
  ClientList-discrete, ServerList-discrete, client_list, server_list,
}

-- Client 7 is linked to server 9, the only connection of database 1 and user 2.
abbrev serving : World
serving = record nobody {
  clients = set_at (λ c. free_client) 7 (record free_client { state = cl_active; link = some 9 });
  servers =
      set_at (λ s. free_server) 9
        (record free_server { state = sv_active; link = some 7; ready = true });
  client_lists = λ l. ite (ClientList-discrete l (active_client_list 3)) (7 ∷ []) [];
  server_lists = λ l. ite (ServerList-discrete l (active_server_list 3)) (9 ∷ []) [];
  databases = set_at nobody.databases 1 (record (nobody.databases 1) { connection_count = 1 });
  users = set_at nobody.users 2 (record (nobody.users 2) { connection_count = 1 });
}

serving-IsPlaced : IsPlaced serving
unfolding client_list server_list
serving-IsPlaced = record {
  clients_placed = λ i l. ground arith;
  servers_placed = λ i l. ground arith;
}

serving-IsSound : IsSound serving
unfolding client_list server_list
serving-IsSound = record {
  placed = serving-IsPlaced;
  client_listed =
      set_at-all
        (λ i client. (o : Option ClientList) × (client_list client.state client.pool ≡ some o))
        (λ c. free_client) 7 _ (_, refl) λ i. (_, refl);
  server_listed =
      set_at-all
        (λ i server. (o : Option ServerList) × (server_list server.state server.pool ≡ some o))
        (λ s. free_server) 9 _ (_, refl) λ i. (_, refl);
  linked = λ c s. ground arith;
  matched = λ c s. ground arith;
  cancels = λ i l. ground arith;
  canceling = λ c s. ground arith;
  owned = λ s p h e. (2, refl);
  in_pools = λ s p. ground arith;
  db_counted = λ d. ground arith;
  user_counted = λ u. ground arith;
}

abbrev pub quiet : Streams
quiet = record { sbuf_is_empty = λ w s. true; send_reset_query = λ w s. true }

run-IsSound_example :
    (w' : World) × (run quiet 4 serving (disconnect_client 7) ≡ some w') × IsSound w'
run-IsSound_example =
    run-IsSound quiet 4 serving (disconnect_client 7) (omega arith) serving-IsSound refl

disconnect_client-Gone_example :
    (w' : World) × (run quiet 3 serving (disconnect_client 7) ≡ some w') × Gone w' 7
disconnect_client-Gone_example =
    disconnect_client-Gone quiet 3 serving 7 (omega arith) serving-IsSound refl
