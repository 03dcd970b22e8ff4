-- ===== src/Herd/Links/Closing.antt =====
-- The end of disconnect_server in src/objects.c: what it keeps.
use pgbouncer.Base.{
  ℕ, ◌+◌, ◌≡◌, refl, ap, true, ◌∙◌, [], Option, none, some, arith, ◌==◌, if◌then◌else◌, ℕ_discrete,
  ◌>>=◌,
}
use pgbouncer.Herd.Counts.{counted, counted_live, change_server_state-pool_server_count}
use pgbouncer.Herd.Shelf.{here, count, set_at-all}
use pgbouncer.Herd.Placement.{IsPlaced, move_server-IsPlaced}
use pgbouncer.Herd.Links.Sound.{IsSound, at, is_ours, total_one, owner, all_pools}
use pgbouncer.Herd.Links.Keeps.{Closed, Gives, is_kept, Fewer, connections}
use pgbouncer.Herd.Links.Steps.{change_server_state-move, live_pool}
use pgbouncer.Herd.Links.Cancels.{
  drop_cancels-IsSound, drop_cancels-nil, drop_cancels-server, drop_cancels-client,
  drop_cancels-none, drop_cancels-same, canceling-Cancel,
}
use pgbouncer.Herd.Links.{drop_cancel, drop_cancels, any_state, count_down, finish_disconnect}
use pgbouncer.Herd.{
  World, ServerList, server_list, is_live, sv_justfree, justfree_server_list, move_server,
  is_waiting, pool_server_count, change_server_state,
}

module _ (w : World) (v : IsSound w) (s p : ℕ) (o : Option ServerList)
    (listed : server_list (w.servers s).state (w.servers s).pool ≡ some o)
    (in_pool : (w.servers s).pool ≡ some p) (live : is_live (w.servers s).state ≡ true) where
  abbrev gone : World
  gone = move_server (count_down w p) s sv_justfree o (some justfree_server_list)

  still-IsPlaced : IsPlaced (count_down w p)
  unfolding count_down
  still-IsPlaced = record {
    clients_placed = v.placed.clients_placed;
    servers_placed = v.placed.servers_placed;
  }

  one_less : (q : ℕ) → pool_server_count gone q + (if p == q then 1 else 0) ≡ pool_server_count w q
  unfolding count_down server_list
  one_less q = omega (
    arith,
    ap (λ pool. counted (w.servers s).state pool q) in_pool,
    ap (λ pool. counted sv_justfree pool q) in_pool,
    counted_live (w.servers s).state p q live,
    change_server_state-pool_server_count (count_down w p) s sv_justfree gone q still-IsPlaced (
        change_server_state-move (count_down w p) s sv_justfree o (some justfree_server_list) listed
          refl),
  )

  gone-IsSound : (w.servers s).link ≡ none → (w.servers s).canceling_clients ≡ [] → IsSound gone
  unfolding count_down move_server server_list
  gone-IsSound e1 e2 = record {
    placed =
        move_server-IsPlaced (count_down w p) s sv_justfree o (some justfree_server_list)
          still-IsPlaced listed refl;
    client_listed = v.client_listed;
    server_listed =
        set_at-all
          (λ i server. (o : Option ServerList) × (server_list server.state server.pool ≡ some o))
          w.servers s _ (some justfree_server_list, refl) v.server_listed;
    linked = λ c i. ground (arith, v.linked c i);
    matched = λ c i. ground (arith, v.matched c i, v.linked c i, e1);
    cancels = λ i.
        set_at-all
          (λ l server.
            count i server.canceling_clients ≡ here ℕ_discrete (w.clients i).canceled_server l)
          w.servers s _ (v.cancels i s) (v.cancels i);
    canceling = λ c i. ground (arith, v.canceling c i, v.cancels c s, e2);
    owned =
        set_at-all
          (λ i server.
            (p : ℕ)
            → is_ours server.state ≡ true
            → server.pool ≡ some p
            → (u : ℕ) × ((w.pools p).user_credentials ≡ some u))
          w.servers s _ (λ p h. cc) v.owned;
    in_pools = λ i q. ground (arith, v.in_pools i q);
    db_counted = λ d. ground (
      arith,
      v.db_counted d,
      v.in_pools s p,
      total_one (λ q. (w.pools q).db == d) (pool_server_count gone) (pool_server_count w) p
          (all_pools w) one_less,
    );
    user_counted = λ u. ground (
      arith,
      v.user_counted u,
      v.in_pools s p,
      total_one (λ q. at (owner w q) u) (pool_server_count gone) (pool_server_count w) p
          (all_pools w) one_less,
    );
  }

module _ (w : World) (v : IsSound w) (s : ℕ) (live : is_live (w.servers s).state ≡ true) where
  -- The server's end: it keeps the invariant, and all other sockets as they are.
  pub finish_disconnect-Gives :
      (w.servers s).link ≡ none → Gives (finish_disconnect w s) (Closed s w)
  unfolding finish_disconnect count_down move_server any_state server_list
  finish_disconnect-Gives e =
      let cs = (w.servers s).canceling_clients in
      let w1 = drop_cancels any_state w s cs in
      let h = canceling-Cancel w s v in
      let v1 = drop_cancels-IsSound any_state w s cs v h in
      let none_left = drop_cancels-nil any_state w s cs h refl (λ i _. refl) in
      let same_state =
        drop_cancels-server any_state (λ server. server.state) (λ _ _. refl) w s cs in
      let same_link = drop_cancels-server any_state (λ server. server.link) (λ _ _. refl) w s cs in
      let state_c = drop_cancels-client any_state (λ client. client.state) (λ _. refl) w s cs in
      let link_c = drop_cancels-client any_state (λ client. client.link) (λ _. refl) w s cs in
      let (o, listed) = v1.server_listed s in
      let live1 : is_live (w1.servers s).state ≡ true = ap is_live (same_state s) ∙ live in
      let (p, in_pool) = live_pool _ _ o live1 listed in
      (
        gone w1 v1 s p o listed in_pool live1,
        ap (λ pool. pool >>= λ q. change_server_state (count_down w1 q) s sv_justfree) in_pool
            ∙ change_server_state-move (count_down w1 p) s sv_justfree o (some justfree_server_list)
                listed refl,
        (
          gone-IsSound w1 v1 s p o listed in_pool live1 (same_link s ∙ e) none_left,
          record {
            clients = λ c h. (link_c c ∙ h.0, ap is_waiting (state_c c) ∙ h.1);
            requests = λ c _ h. drop_cancels-none any_state w s cs c h;
            servers = λ i h d. ground (arith, same_link i, ap is_kept (same_state i));
          },
          link_c,
          λ c h. drop_cancels-none any_state w s cs c h,
          ground arith,
        ),
      )

  -- There is one connection less, and no limit changes.
  pub finish_disconnect-Fewer : Gives (finish_disconnect w s) (Fewer w)
  unfolding finish_disconnect drop_cancel count_down move_server any_state server_list
  finish_disconnect-Fewer =
      let cs = (w.servers s).canceling_clients in
      let w1 = drop_cancels any_state w s cs in
      let v1 = drop_cancels-IsSound any_state w s cs v (canceling-Cancel w s v) in
      let same_state =
        drop_cancels-server any_state (λ server. server.state) (λ _ _. refl) w s cs in
      let (o, listed) = v1.server_listed s in
      let live1 : is_live (w1.servers s).state ≡ true = ap is_live (same_state s) ∙ live in
      let (p, in_pool) = live_pool _ _ o live1 listed in
      let pools = drop_cancels-same any_state (λ w. w.pools) (λ _ _ _. refl) w s cs in
      let databases = drop_cancels-same any_state (λ w. w.databases) (λ _ _ _. refl) w s cs in
      let users = drop_cancels-same any_state (λ w. w.users) (λ _ _ _. refl) w s cs in
      let config = drop_cancels-same any_state (λ w. w.config) (λ _ _ _. refl) w s cs in
      (
        gone w1 v1 s p o listed in_pool live1,
        ap (λ pool. pool >>= λ q. change_server_state (count_down w1 q) s sv_justfree) in_pool
            ∙ change_server_state-move (count_down w1 p) s sv_justfree o (some justfree_server_list)
                listed refl,
        record {
          fewer = omega (
            arith,
            v1.in_pools s p live1 in_pool,
            total_one (λ p. true) (pool_server_count (gone w1 v1 s p o listed in_pool live1))
                (pool_server_count w1) p (all_pools w1) (one_less w1 v1 s p o listed in_pool live1),
            drop_cancels-same any_state connections (λ _ _ _. refl) w s cs,
          );
          limits = record {
            pools = pools;
            global_user = drop_cancels-same any_state (λ w. w.global_user) (λ _ _ _. refl) w s cs;
            config = config;
            same_pools = drop_cancels-same any_state all_pools (λ _ _ _. refl) w s cs;
            db_max =
                λ d. ground arith ∙ ap (λ databases. (databases d).max_db_connections) databases;
            user_max = λ u. ground arith ∙ ap (λ users. (users u).max_user_connections) users;
            db_used =
                λ d. ground (arith, ap (λ databases. (databases d).connection_count) databases);
          };
        },
      )
