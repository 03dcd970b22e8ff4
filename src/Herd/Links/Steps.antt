-- ===== src/Herd/Links/Steps.antt =====
-- change_server_state and change_client_state of src/objects.c keep the invariant.
use pgbouncer.Base.{ℕ, ◌≡◌, ap, refl, true, ◌∙◌, Option, none, ℕ_discrete, some, arith}
use pgbouncer.Herd.Shelf.{here, count, set_at-all}
use pgbouncer.Herd.Counts.{counted, counted_live, change_server_state-pool_server_count}
use pgbouncer.Herd.Placement.{left_server_list_lem, move_server-IsPlaced, move_client-IsPlaced}
use pgbouncer.Herd.Links.Sound.{IsSound, at, matches, is_ours, is_cancel, total_eq, all_pools}
use pgbouncer.Herd.{
  World, ServerState, ServerList, server_list, move_server, change_server_state, sv_free,
  sv_justfree, sv_login, sv_being_canceled, sv_idle, sv_active, sv_active_cancel, sv_used,
  sv_tested, is_live, pool_server_count, ClientState, ClientList, client_list, moved_client,
  move_client,
}

pub live_pool :
    (state : ServerState) (pool : Option ℕ) (o : Option ServerList)
    → is_live state ≡ true
    → server_list state pool ≡ some o
    → (p : ℕ) × (pool ≡ some p)
unfolding server_list
live_pool sv_free none o h e = cc
live_pool sv_justfree none o h e = cc
live_pool state (some p) o h e = (p, refl)
live_pool state none o h e = cc

pub server_list-some :
    (state : ServerState) (p : ℕ) → (o : Option ServerList) × (server_list state (some p) ≡ some o)
unfolding server_list
server_list-some sv_free p = (_, refl)
server_list-some sv_justfree p = (_, refl)
server_list-some sv_login p = (_, refl)
server_list-some sv_being_canceled p = (_, refl)
server_list-some sv_idle p = (_, refl)
server_list-some sv_active p = (_, refl)
server_list-some sv_active_cancel p = (_, refl)
server_list-some sv_used p = (_, refl)
server_list-some sv_tested p = (_, refl)

pub change_server_state-move :
    (w : World) (s : ℕ) (new : ServerState) (o1 o2 : Option ServerList)
    → server_list (w.servers s).state (w.servers s).pool ≡ some o1
    → server_list new (w.servers s).pool ≡ some o2
    → change_server_state w s new ≡ some (move_server w s new o1 o2)
unfolding change_server_state
change_server_state-move w s new o1 o2 e1 e2 =
    rw (left_server_list_lem (w.servers s).state (w.servers s).pool, e1, e2) refl

module _ (w : World) (v : IsSound w) (s : ℕ) (new : ServerState) (o1 o2 : Option ServerList) where
  -- Between two states that are not free, no pool's count changes.
  live_count :
      server_list (w.servers s).state (w.servers s).pool ≡ some o1
      → server_list new (w.servers s).pool ≡ some o2
      → is_live (w.servers s).state ≡ true
      → is_live new ≡ true
      → (q : ℕ) → pool_server_count w q ≡ pool_server_count (move_server w s new o1 o2) q
  live_count e1 e2 l1 l2 q =
      let (p, e) = live_pool _ _ _ l1 e1 in
      omega (
        arith,
        ap (λ pool. counted (w.servers s).state pool q) e,
        ap (λ pool. counted new pool q) e,
        counted_live (w.servers s).state p q l1,
        counted_live new p q l2,
        change_server_state-pool_server_count w s new _ q v.placed
            (change_server_state-move w s new o1 o2 e1 e2),
      )

  pub move_server-IsSound :
      server_list (w.servers s).state (w.servers s).pool ≡ some o1
      → server_list new (w.servers s).pool ≡ some o2
      → is_live (w.servers s).state ≡ true
      → is_live new ≡ true
      → ((c : ℕ)
          → at (w.clients c).link s ≡ true
          → matches (w.clients c) (w.servers s) (w.clients c).state new ≡ true)
      → ((p : ℕ)
          → is_ours new ≡ true
          → (w.servers s).pool ≡ some p
          → (u : ℕ) × ((w.pools p).user_credentials ≡ some u))
      → IsSound (move_server w s new o1 o2)
  unfolding move_server
  move_server-IsSound e1 e2 l1 l2 fits own = record {
    placed = move_server-IsPlaced w s new o1 o2 v.placed e1 e2;
    client_listed = v.client_listed;
    server_listed =
        set_at-all
          (λ i server. (o : Option ServerList) × (server_list server.state server.pool ≡ some o))
          w.servers s _ (o2, e2) v.server_listed;
    linked = λ c i. ground (arith, v.linked c i);
    matched = λ c i. ground (arith, v.matched c i, fits c);
    cancels = λ i.
        set_at-all
          (λ l server.
            count i server.canceling_clients ≡ here ℕ_discrete (w.clients i).canceled_server l)
          w.servers s _ (v.cancels i s) (v.cancels i);
    canceling = λ c i. ground (arith, v.canceling c i);
    owned =
        set_at-all
          (λ i server.
            (p : ℕ)
            → is_ours server.state ≡ true
            → server.pool ≡ some p
            → (u : ℕ) × ((w.pools p).user_credentials ≡ some u))
          w.servers s _ own v.owned;
    in_pools = λ i p. ground (arith, v.in_pools i p);
    db_counted = λ d. v.db_counted d ∙ total_eq _ _ _ (all_pools w) (live_count e1 e2 l1 l2);
    user_counted = λ u. v.user_counted u ∙ total_eq _ _ _ (all_pools w) (live_count e1 e2 l1 l2);
  }

module _ (w : World) (v : IsSound w) (c : ℕ) (new : ClientState) (o1 o2 : Option ClientList) where
  pub move_client-IsSound :
      client_list (w.clients c).state (w.clients c).pool ≡ some o1
      → client_list new (w.clients c).pool ≡ some o2
      → ((s : ℕ)
          → at (w.clients c).link s ≡ true
          → matches (w.clients c) (w.servers s) new (w.servers s).state ≡ true)
      → ((s : ℕ) → at (w.clients c).canceled_server s ≡ true → is_cancel new ≡ true)
      → IsSound (move_client w c new o1 o2)
  unfolding move_client moved_client
  move_client-IsSound e1 e2 fits cans = record {
    placed = move_client-IsPlaced w c new o1 o2 v.placed e1 e2;
    client_listed =
        set_at-all
          (λ i client. (o : Option ClientList) × (client_list client.state client.pool ≡ some o))
          w.clients c _ (o2, e2) v.client_listed;
    server_listed = v.server_listed;
    linked = λ i s. ground (arith, v.linked i s);
    matched = λ i s. ground (arith, v.matched i s, fits s);
    cancels =
        set_at-all
          (λ i client.
            (l : ℕ)
            → count i (w.servers l).canceling_clients ≡ here ℕ_discrete client.canceled_server l)
          w.clients c _ (v.cancels c) v.cancels;
    canceling = λ i s. ground (arith, v.canceling i s, cans s);
    owned = v.owned;
    in_pools = v.in_pools;
    db_counted = v.db_counted;
    user_counted = v.user_counted;
  }
