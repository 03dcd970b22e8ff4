-- ===== src/Herd/Links/Release.antt =====
-- disconnect_client, release_server, reuse_on_release, reset_on_release and activate_client of
-- src/objects.c, and the recursion between them and disconnect_server, on fuel.
use pgbouncer.Base.{
  ℕ, zero, suc, ◌==◌, Bool, true, false, not, ◌||◌, ◌&&◌, List, [], ◌∷◌, Option, none, some, ltb,
  if◌then◌else◌, ◌>>=◌,
}
use pgbouncer.Herd.Settings.{connection_pool_mode, life_over}
use pgbouncer.Herd.Links.{
  Streams, Runner, disconnect_client, disconnect_server, release_server, set_pool, set_server,
  unlink, drop_cancel, drop_cancels, in_waiting_cancel, disconnect_server_with, uncount_client,
}
use pgbouncer.Herd.{
  leave_call, sbuf_continue, World, Server, ClientState, ServerState, PoolMode, pool_session,
  cl_free, cl_justfree, cl_login, cl_waiting, cl_waiting_login, cl_active, cl_waiting_cancel,
  cl_active_cancel, sv_free, sv_justfree, sv_login, sv_being_canceled, sv_idle, sv_active,
  sv_active_cancel, sv_used, sv_tested, waiting_client_list, change_client_state,
  change_server_state,
}

unfoldable pub is_being_canceled : ServerState → Bool
is_being_canceled sv_being_canceled = true
is_being_canceled _ = false

unfoldable pub is_login : ServerState → Bool
is_login sv_login = true
is_login _ = false

unfoldable pub is_gone : ServerState → Bool
is_gone sv_free = true
is_gone sv_justfree = true
is_gone _ = false

unfoldable pub is_session : PoolMode → Bool
is_session pool_session = true
is_session _ = false

abbrev pub is_nil : List ℕ → Bool
is_nil [] = true
is_nil (c ∷ cs) = false

unfoldable pub unlink_client : World → ℕ → World
unfolding unlink
unlink_client w s = elim (w.servers s).link [ none ↦ w | some c ↦ unlink w c s ]

-- Whether a server that its client has used is to be reset.
unfoldable pub needs_reset : World → Server → Option Bool
unfolding is_session
needs_reset w server =
    if not w.config.has_reset_query
    then some false
    else if w.config.reset_query_always
    then some true
    else (connection_pool_mode w server >>= λ mode. some (is_session mode))

unfoldable pub used_state : World → Bool → ServerState
used_state w true = sv_tested
used_state w false =
    if w.config.server_check_delay == 0 && w.config.has_check_query then sv_used else sv_idle

module _ (streams : Streams) (call : Runner) where
  -- An active client lets go of its server, which is closed unless it can be used again.
  unfoldable pub leave_server : World → ℕ → Option World
  unfolding unlink
  leave_server w c = elim (w.clients c).link [
    | none ↦ some w
    | some s ↦
        let server = w.servers s in
        if not server.ready || ltb 0 server.outstanding_requests || not (streams.sbuf_is_empty w s)
        then call (unlink w c s) (disconnect_server s)
        else call w (release_server s)
  ]

  -- A cancel request gives up the connection that it goes over.
  unfoldable pub leave_carrier : World → ℕ → Option World
  unfolding unlink
  leave_carrier w c = elim (w.clients c).link [
    | none ↦ some w
    | some s ↦
        let w1 = unlink w c s in
        call (set_server w1 s (record (w1.servers s) { ready = true })) (disconnect_server s)
  ]

  -- It lets go of the server that it cancels, which is released if it waited for no other.
  unfoldable pub leave_canceled : World → ℕ → Option World
  unfolding drop_cancel is_being_canceled
  leave_canceled w c = elim (w.clients c).canceled_server [
    | none ↦ some w
    | some s ↦
        let w1 = drop_cancel w s c in
        if is_being_canceled (w1.servers s).state && is_nil (w1.servers s).canceling_clients
        then call w1 (release_server s)
        else some w1
  ]

  unfoldable pub leave_replication : World → ℕ → Option World
  unfolding unlink
  leave_replication w c =
      if (w.clients c).replication
      then (elim (w.clients c).link [
        | none ↦ some w
        | some s ↦ call (unlink w c s) (disconnect_server s)
      ])
      else some w

  -- The switch of disconnect_client_sqlstate.
  unfoldable pub detach_client : World → ℕ → ClientState → Option World
  unfolding leave_server leave_carrier leave_canceled leave_replication
  detach_client w c cl_free = none
  detach_client w c cl_justfree = none
  detach_client w c cl_login = leave_server w c
  detach_client w c cl_waiting = leave_replication w c
  detach_client w c cl_waiting_login = leave_replication w c
  detach_client w c cl_active = leave_server w c
  detach_client w c cl_waiting_cancel = leave_carrier w c >>= λ w1. leave_canceled w1 c
  detach_client w c cl_active_cancel = leave_carrier w c >>= λ w1. leave_canceled w1 c

  unfoldable pub disconnect_client_with : World → ℕ → Option World
  unfolding detach_client uncount_client change_client_state
  disconnect_client_with w c =
      let w1 = uncount_client w c in
      detach_client w1 c (w1.clients c).state >>= λ w2. change_client_state w2 c cl_justfree

  unfoldable pub activate_client : World → ℕ → Option World
  unfolding change_client_state
  activate_client w c =
      change_client_state w c cl_active >>= λ w1. some (leave_call w1 (sbuf_continue c))

  unfoldable pub reuse_first : World → ℕ → List ℕ → Option (World × Bool)
  unfolding activate_client is_gone
  reuse_first w s [] = some (w, true)
  reuse_first w s (c ∷ cs) =
      if not (w.clients c).replication || (w.clients c).auth_query
      then (activate_client w c >>= λ w1. some (w1, not (is_gone (w1.servers s).state)))
      else some (w, true)

  -- The first waiting client gets the server that has become idle.
  unfoldable pub reuse_on_release : World → ℕ → Option (World × Bool)
  unfolding reuse_first
  reuse_on_release w s =
      (w.servers s).pool >>= λ p. reuse_first w s (w.client_lists (waiting_client_list p))

  unfoldable pub closed : World → ℕ → Bool → Option (World × Bool)
  closed w s r = call w (disconnect_server s) >>= λ w1. some (w1, r)

  unfoldable pub reset_on_release : World → ℕ → Option (World × Bool)
  unfolding closed
  reset_on_release w s = if streams.send_reset_query w s then some (w, true) else closed w s false

  -- A server whose life is over also marks the time in its pool.
  unfoldable pub closed_for_age : World → ℕ → ℕ → Option (World × Bool)
  closed_for_age w s p = call w (disconnect_server s) >>= λ w1.
      some (set_pool w1 p (record (w1.pools p) { last_lifetime_disconnect = w1.now }), false)

  -- A replication server stays with its client.
  unfoldable pub release_replication : World → ℕ → Option (World × Bool)
  unfolding activate_client closed
  release_replication w s = elim (w.servers s).link [
    | none ↦ closed w s false
    | some c ↦
        change_server_state w s sv_active >>= λ w1. (activate_client w1 c >>= λ w2. some (w2, true))
  ]

  unfoldable pub settle : World → ℕ → ServerState → Option (World × Bool)
  unfolding reuse_on_release reset_on_release
  settle w s sv_idle = reuse_on_release w s
  settle w s sv_tested = reset_on_release w s
  settle w s _ = some (w, true)

  -- What follows the switch of release_server, for the state to come to.
  unfoldable pub finish_release : World → ℕ → ℕ → ServerState → Option (World × Bool)
  unfolding closed closed_for_age release_replication settle drop_cancels in_waiting_cancel
  finish_release w s p newstate =
      let w1 = drop_cancels in_waiting_cancel w s (w.servers s).canceling_clients in
      let server = w1.servers s in
      if not (is_login server.state) && life_over w1 s p
      then closed_for_age w1 s p
      else if ltb 0 server.outstanding_requests
      then closed w1 s true
      else if server.close_needed
      then closed w1 s false
      else if not (is_nil server.canceling_clients)
      then (change_server_state w1 s sv_being_canceled >>= λ w2. some (w2, true))
      else if server.replication
      then release_replication w1 s
      else (change_server_state w1 s newstate >>= λ w2. settle w2 s newstate)

  unfoldable pub release_used : World → ℕ → ℕ → Option (World × Bool)
  unfolding unlink_client needs_reset used_state finish_release
  release_used w s p =
      let w1 = unlink_client w s in
      needs_reset w1 (w1.servers s) >>= λ reset. finish_release w1 s p (used_state w1 reset)

  -- The switch of release_server.
  unfoldable pub release_in : World → ℕ → ℕ → ServerState → Option (World × Bool)
  unfolding release_used finish_release
  release_in w s p sv_free = none
  release_in w s p sv_justfree = none
  release_in w s p sv_login =
      let pool = record (w.pools p) { last_login_failed = false; last_connect_failed = false } in
      finish_release (set_pool w p pool) s p sv_idle
  release_in w s p sv_being_canceled = release_used w s p
  release_in w s p sv_idle = none
  release_in w s p sv_active = release_used w s p
  release_in w s p sv_active_cancel = none
  release_in w s p sv_used = finish_release w s p sv_idle
  release_in w s p sv_tested = finish_release w s p sv_idle

  unfoldable pub release_server_with : World → ℕ → Option (World × Bool)
  unfolding release_in
  release_server_with w s = (w.servers s).pool >>= λ p. release_in w s p (w.servers s).state

-- The recursion, with fuel for its depth.
unfoldable pub run : Streams → ℕ → Runner
unfolding disconnect_client_with disconnect_server_with release_server_with
run streams zero w t = none
run streams (suc f) w (disconnect_client c) = disconnect_client_with streams (run streams f) w c
run streams (suc f) w (disconnect_server s) = disconnect_server_with (run streams f) w s
run streams (suc f) w (release_server s) =
    release_server_with streams (run streams f) w s >>= λ r. some r.0
