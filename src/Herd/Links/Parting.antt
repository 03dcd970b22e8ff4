-- ===== src/Herd/Links/Parting.antt =====
-- disconnect_client of src/objects.c, for each state of the client.
use pgbouncer.Base.{ℕ, ◌≡◌, refl, ap, Bool, true, false, ◌∙◌, Option, none, some, arith, ◌>>=◌}
use pgbouncer.Herd.Links.Sound.{IsSound, at, is_cancel}
use pgbouncer.Herd.Links.Keeps.{Keeps, Keeps-trans, Gives}
use pgbouncer.Herd.Links.Steps.{move_client-IsSound}
use pgbouncer.Herd.Links.Waking.{change_client_state-move}
use pgbouncer.Herd.Links.Loose.{Closes}
use pgbouncer.Herd.Links.Detaching.{
  leave_server-Gives, leave_carrier-Gives, leave_canceled-Gives, leave_replication-Gives,
}
use pgbouncer.Herd.Links.Release.{
  leave_carrier, leave_canceled, detach_client, disconnect_client_with,
}
use pgbouncer.Herd.Links.{Streams, Runner, uncount_client}
use pgbouncer.Herd.{
  World, ClientState, cl_free, cl_justfree, cl_login, cl_waiting, cl_waiting_login, cl_active,
  cl_waiting_cancel, cl_active_cancel, is_waiting, next_client_state, move_client, moved_client,
  change_client_state, client_list, justfree_client_list, ClientList,
}
use pgbouncer.Herd.Links.Leaving.{Releases, Left, is_user}

-- What is left of a client: it is freed, with no link and no request.
pub record Gone (w : World) (c : ℕ) : Type 0 where
  pub freed : (w.clients c).state ≡ cl_justfree
  pub unlinked : (w.clients c).link ≡ none
  pub unasked : (w.clients c).canceled_server ≡ none

abbrev pub is_present : ClientState → Bool
is_present cl_free = false
is_present cl_justfree = false
is_present _ = true

uncount_client-IsSound : (w : World) (c : ℕ) → IsSound w → IsSound (uncount_client w c)
unfolding uncount_client
uncount_client-IsSound w c v = record {
  placed = record {
    clients_placed = v.placed.clients_placed;
    servers_placed = v.placed.servers_placed;
  };
  client_listed = v.client_listed;
  server_listed = v.server_listed;
  linked = v.linked;
  matched = v.matched;
  cancels = v.cancels;
  canceling = v.canceling;
  owned = v.owned;
  in_pools = v.in_pools;
  db_counted = λ d. ground (arith, v.db_counted d);
  user_counted = λ u. ground (arith, v.user_counted u);
}

next_justfree : (state : ClientState) → next_client_state state cl_justfree ≡ cl_justfree
unfolding next_client_state
next_justfree cl_login = refl
next_justfree cl_waiting_login = refl
next_justfree state = refl

justfree_move :
    (w : World) (c : ℕ) (o : Option ClientList)
    → client_list (w.clients c).state (w.clients c).pool ≡ some o
    → change_client_state w c cl_justfree
      ≡ some (move_client w c cl_justfree o (some justfree_client_list))
unfolding client_list
justfree_move w c o listed =
    let n = next_justfree (w.clients c).state in
    change_client_state-move w c cl_justfree o (some justfree_client_list) listed
      (ap (λ state. client_list state (w.clients c).pool) n)
    ∙ ap (λ state. some (move_client w c state o (some justfree_client_list))) n

module _ (streams : Streams) (call : Runner) (closes : Closes call) (releases : Releases call) where
  end_cancel :
      (w : World) (c : ℕ)
      → IsSound w
      → is_cancel (w.clients c).state ≡ true
      → Gives (leave_carrier streams call w c >>= λ w1. leave_canceled streams call w1 c) (Left w c)
  end_cancel w c v cancel =
      let (w1, e1, (v1, k1, u)) = leave_carrier-Gives streams call closes releases w c v cancel in
      let (w2, e2, (v2, k2, free, unasked)) =
        leave_canceled-Gives streams call closes releases w1 c v1 u in
      (
        w2,
        ap (λ o. o >>= λ w1. leave_canceled streams call w1 c) e1 ∙ e2,
        (v2, Keeps-trans (λ _. false) k1 k2, free, unasked),
      )

  detach_client-Gives :
      (w : World) (c : ℕ) (state : ClientState)
      → IsSound w
      → (w.clients c).state ≡ state
      → is_present state ≡ true
      → Gives (detach_client streams call w c state) (Left w c)
  unfolding detach_client is_waiting
  detach_client-Gives w c cl_free v e h = cc
  detach_client-Gives w c cl_justfree v e h = cc
  detach_client-Gives w c cl_login v e h =
      leave_server-Gives streams call closes releases w c v (ap is_user e)
  detach_client-Gives w c cl_active v e h =
      leave_server-Gives streams call closes releases w c v (ap is_user e)
  detach_client-Gives w c cl_waiting v e h =
      leave_replication-Gives streams call closes releases w c v (ap is_waiting e)
  detach_client-Gives w c cl_waiting_login v e h =
      leave_replication-Gives streams call closes releases w c v (ap is_waiting e)
  detach_client-Gives w c cl_waiting_cancel v e h = end_cancel w c v (ap is_cancel e)
  detach_client-Gives w c cl_active_cancel v e h = end_cancel w c v (ap is_cancel e)

  pub disconnect_client-Gives :
      (w : World) (c : ℕ)
      → IsSound w
      → is_present (w.clients c).state ≡ true
      → Gives
          (disconnect_client_with streams call w c)
          (λ w'. IsSound w' × Keeps (λ _. false) w w' × Gone w' c)
  unfolding disconnect_client_with uncount_client move_client moved_client is_waiting client_list
  disconnect_client-Gives w c v h =
      let w1 = uncount_client w c in
      let v1 = uncount_client-IsSound w c v in
      let (w2, e, (v2, k, free, unasked)) =
        detach_client-Gives w1 c (w.clients c).state v1 refl h in
      let (o, listed) = v2.client_listed c in
      let w3 = move_client w2 c cl_justfree o (some justfree_client_list) in
      (
        w3,
        ap (λ o. o >>= λ w2. change_client_state w2 c cl_justfree) e ∙ justfree_move w2 c o listed,
        (
          move_client-IsSound w2 v2 c cl_justfree o (some justfree_client_list) listed refl
              (λ s m. absurd (cc (ap (λ o. at o s) free, m)))
              λ s m. absurd (cc (ap (λ o. at o s) unasked, m)),
          record {
            clients = λ i u.
                let u2 = k.clients i (u.0, u.1) in (ground (arith, u2.0), ground (arith, u2.1));
            requests = λ i u r. ground (arith, k.requests i (u.0, u.1) r);
            servers = λ i a d. k.servers i a (d.0, d.1);
          },
          record {
            freed = ground arith;
            unlinked = ground (arith, free);
            unasked = ground (arith, unasked);
          },
        ),
      )
