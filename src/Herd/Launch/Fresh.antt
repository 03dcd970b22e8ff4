-- ===== src/Herd/Launch/Fresh.antt =====
-- src/objects.c: the blank connection that launch_new_connection gives to a pool.
use pgbouncer.Base.{ℕ, ◌+◌, ◌≡◌, refl, ap, [], Option, none, some, arith, ◌==◌, if◌then◌else◌}
use pgbouncer.Herd.Counts.{counted, counted_live, change_server_state-pool_server_count}
use pgbouncer.Herd.Shelf.{count, set_at-all}
use pgbouncer.Herd.Placement.{IsPlaced, move_server-IsPlaced}
use pgbouncer.Herd.Links.Sound.{IsSound, at, total_one, owner, all_pools}
use pgbouncer.Herd.Links.Steps.{change_server_state-move}
use pgbouncer.Herd.Links.{set_server}
use pgbouncer.Herd.Launch.{count_up}
use pgbouncer.Herd.{
  World, ServerList, server_list, sv_free, sv_login, new_server_list, move_server,
  pool_server_count, change_server_state,
}

module _ (w : World) (v : IsSound w) (s p : ℕ) (free : (w.servers s).state ≡ sv_free)
    (unlinked : (w.servers s).link ≡ none) (once : count p (all_pools w) ≡ 1) where
  abbrev pub fresh : World
  fresh =
      set_server w s
        (record (w.servers s) { pool = some p; connect_time = w.now; canceling_clients = [] })

  fresh-IsPlaced : IsPlaced fresh
  unfolding server_list
  fresh-IsPlaced = record {
    clients_placed = v.placed.clients_placed;
    servers_placed = λ i l. ground (arith, v.placed.servers_placed i l, free);
  }

  still_free : (fresh.servers s).state ≡ sv_free
  still_free = ground (arith, free)

  at_free : server_list (fresh.servers s).state (fresh.servers s).pool ≡ some none
  unfolding server_list
  at_free = ground (arith, free)

  in_its_pool : (fresh.servers s).pool ≡ some p
  in_its_pool = ground arith

  at_login : server_list sv_login (fresh.servers s).pool ≡ some (some (new_server_list p))
  unfolding server_list
  at_login = ap (server_list sv_login) in_its_pool

  abbrev pub logging_in : World
  logging_in = move_server fresh s sv_login none (some (new_server_list p))

  pub fresh-change : change_server_state fresh s sv_login ≡ some logging_in
  fresh-change =
      change_server_state-move fresh s sv_login none (some (new_server_list p)) at_free at_login

  -- The pool has one server more, all others as many as before.
  one_more :
      (q : ℕ) → pool_server_count w q + (if p == q then 1 else 0) ≡ pool_server_count logging_in q
  one_more q = omega (
    arith,
    ap (λ pool. counted sv_login pool q) in_its_pool,
    counted_live sv_login p q refl,
    ap (λ state. counted state (fresh.servers s).pool q) still_free,
    change_server_state-pool_server_count fresh s sv_login logging_in q fresh-IsPlaced fresh-change,
  )

  pub started-IsSound : IsSound (count_up logging_in p)
  unfolding count_up move_server server_list
  started-IsSound = record {
    placed = record {
      clients_placed = v.placed.clients_placed;
      servers_placed =
          (move_server-IsPlaced fresh s sv_login none (some (new_server_list p)) fresh-IsPlaced
            at_free at_login).servers_placed;
    };
    client_listed = v.client_listed;
    server_listed =
        set_at-all
          (λ i server. (o : Option ServerList) × (server_list server.state server.pool ≡ some o))
          fresh.servers s _ (some (new_server_list p), at_login)
          (set_at-all
            (λ i server. (o : Option ServerList) × (server_list server.state server.pool ≡ some o))
            w.servers s _ (none, ap (λ state. server_list state (some p)) free) v.server_listed);
    linked = λ c i. ground (arith, v.linked c i);
    matched = λ c i. ground (arith, v.matched c i, v.linked c i, unlinked);
    cancels = λ i l. ground (arith, v.cancels i l, v.canceling i s, free);
    canceling = λ c i. ground (arith, v.canceling c i);
    owned = λ i q. ground (arith, v.owned i q);
    in_pools = λ i q. ground (arith, v.in_pools i q, once);
    db_counted = λ d. ground (
      arith,
      v.db_counted d,
      once,
      total_one (λ q. (w.pools q).db == d) (pool_server_count w) (pool_server_count logging_in) p
          (all_pools w) one_more,
    );
    user_counted = λ u. ground (
      arith,
      v.user_counted u,
      once,
      total_one (λ q. at (owner w q) u) (pool_server_count w) (pool_server_count logging_in) p
          (all_pools w) one_more,
    );
  }
