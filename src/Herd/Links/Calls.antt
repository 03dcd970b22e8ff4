-- ===== src/Herd/Links/Calls.antt =====
-- src/objects.c: calls of disconnect_client, disconnect_server and release_server one in another.
use pgbouncer.Base.{
  ℕ, suc, ◌≡◌, refl, ap, Bool, true, false, ◌∙◌, none, some, arith, ◌⊎◌, inl, inr, if◌then◌else◌,
  ◌>>=◌, Option-cases,
}
use pgbouncer.Herd.Links.Sound.{IsSound, matches}
use pgbouncer.Herd.Links.Keeps.{Keeps, Gives, Gives-bind, is_kept, Detached}
use pgbouncer.Herd.Links.Steps.{live_pool}
use pgbouncer.Herd.Links.Cancels.{unlink-IsSound}
use pgbouncer.Herd.Links.Closing.{finish_disconnect-Gives}
use pgbouncer.Herd.Links.Disconnect.{disconnect_unlinked, login_over-IsSound}
use pgbouncer.Herd.Links.Loose.{Closes, IsLoose}
use pgbouncer.Herd.Links.Unlinking.{linked_back, is_used_up, release_server-Answers}
use pgbouncer.Herd.Links.Leaving.{Releases, at_link}
use pgbouncer.Herd.Links.Parting.{Gone, is_present, disconnect_client-Gives}
use pgbouncer.Herd.Links.Release.{run}
use pgbouncer.Herd.Links.{
  Streams, Runner, Task, disconnect_client, disconnect_server, release_server, unlink, login_over,
  unlink_server, leave_login, detach_server, disconnect_server_with,
}
use pgbouncer.Herd.{
  World, Client, Server, ClientState, ServerState, cl_free, cl_justfree, sv_free, sv_justfree,
  sv_login, sv_active, sv_active_cancel, sv_used, sv_tested, is_live,
}

-- A server whose client is disconnected with it.
abbrev pub parts : ServerState → Bool → Bool
parts sv_active replication = true
parts sv_active_cancel replication = true
parts sv_login replication = replication
parts _ replication = false

-- A server that is released without a client.
abbrev pub is_alone : ServerState → Bool
is_alone sv_login = true
is_alone sv_used = true
is_alone sv_tested = true
is_alone _ = false

-- When each of the three functions may be called.
abbrev pub Callable : World → Task → Type 0
Callable w (disconnect_client c) = is_present (w.clients c).state ≡ true
Callable w (disconnect_server s) =
    (is_live (w.servers s).state ≡ true)
    × (((w.servers s).link ≡ none) ⊎ (parts (w.servers s).state (w.servers s).replication ≡ true))
Callable w (release_server s) =
    (p : ℕ) × ((w.servers s).pool ≡ some p)
    × ((is_used_up (w.servers s).state ≡ true)
        ⊎ ((is_alone (w.servers s).state ≡ true) × IsLoose w s p))

linked_present :
    (client : Client) (server : Server) (state : ClientState) (server_state : ServerState)
    → matches client server state server_state ≡ true
    → is_present state ≡ true
linked_present client server cl_free server_state m = cc
linked_present client server cl_justfree server_state m = cc
linked_present client server state server_state m = refl

kept_live : (state : ServerState) → is_kept state ≡ true → is_live state ≡ true
kept_live sv_free h = cc
kept_live sv_justfree h = cc
kept_live state h = refl

module _ (streams : Streams) where
  pub run-Closes : (f : ℕ) → Closes (run streams (suc f))
  unfolding run
  run-Closes f w s v live e = disconnect_unlinked w v s (run streams f) live e

  pub run-Releases : (f : ℕ) → Releases (run streams (suc (suc f)))
  unfolding run
  run-Releases f w s p v used in_pool =
      let (r, e, h) =
        release_server-Answers streams (run streams (suc f)) (run-Closes f) w s p v used in_pool in
      (r.0, ap (λ o. o >>= λ r. some r.0) e, h)

  pub run-disconnect_client :
      (f : ℕ) (w : World) (c : ℕ)
      → IsSound w
      → is_present (w.clients c).state ≡ true
      → Gives
          (run streams (suc (suc (suc f))) w (disconnect_client c))
          (λ w'. IsSound w' × Keeps (λ _. false) w w' × Gone w' c)
  unfolding run
  run-disconnect_client f =
      disconnect_client-Gives streams (run streams (suc (suc f))) (run-Closes (suc f))
        (run-Releases f)

  module _ (f : ℕ) (w : World) (s : ℕ) (v : IsSound w) where
    abbrev call : Runner
    call = run streams (suc (suc (suc f)))

    -- The client goes first, and leaves the server as it is.
    unlink_server-Gives :
        is_kept (w.servers s).state ≡ true
        → Gives (unlink_server call w s) (λ w'. IsSound w' × Detached w' s)
    unfolding unlink_server unlink
    unlink_server-Gives kept = elim (Option-cases (w.servers s).link) [
      | inl free ↦ rw (free, unlink_server) (w, refl, (v, (free, kept)))
      | inr (c, linked) ↦
          let e = linked_back w c s v linked in
          let present =
            linked_present (w.clients c) (w.servers s) _ _
              (v.matched c s (at_link (w.clients c).link s e)) in
          let (w', e', (v', k, _)) =
            run-disconnect_client f (unlink w c s) c (unlink-IsSound w c s v e)
              (ground (arith, present)) in
          rw (linked, unlink_server)
            (w', e', (v', k.servers s refl (ground arith, ground (arith, kept))))
    ]

  module _ (f : ℕ) (w : World) (s : ℕ) (v : IsSound w) where
    abbrev caller : Runner
    caller = run streams (suc (suc (suc f)))

    login_parts :
        (p : ℕ)
        → (w.servers s).pool ≡ some p
        → (w.servers s).state ≡ sv_login
        → (w.servers s).replication ≡ true
        → Gives (leave_login caller w s) (λ w'. IsSound w' × Detached w' s)
    unfolding leave_login login_over
    login_parts p in_pool state dedicated =
        let w1 = login_over w s p in
        let (w', e, h) =
          unlink_server-Gives f w1 s (login_over-IsSound w s p v) (ap is_kept state) in
        (
          w',
          ap
                (λ pool. pool >>= λ q.
                  (let w1 = login_over w s q in
                    if (w.servers s).replication then unlink_server caller w1 s else some w1))
                in_pool
              ∙ ap (λ b. if b then unlink_server caller w1 s else some w1) dedicated
              ∙ e,
          h,
        )

    detach_parts :
        (p : ℕ) (state : ServerState)
        → (w.servers s).pool ≡ some p
        → (w.servers s).state ≡ state
        → parts state (w.servers s).replication ≡ true
        → Gives (detach_server caller w s state) (λ w'. IsSound w' × Detached w' s)
    unfolding detach_server
    detach_parts p sv_active in_pool e h = unlink_server-Gives f w s v (ap is_kept e)
    detach_parts p sv_active_cancel in_pool e h = unlink_server-Gives f w s v (ap is_kept e)
    detach_parts p sv_login in_pool e h = login_parts p in_pool e h
    detach_parts p state in_pool e h = cc

    pub run-disconnect_server :
        Callable w (disconnect_server s) → Gives (disconnect_server_with caller w s) IsSound
    unfolding disconnect_server_with
    run-disconnect_server (live, inl free) =
        let (w', e, (v', _, _, _, _)) = disconnect_unlinked w v s caller live free in (w', e, v')
    run-disconnect_server (live, inr h) =
        let (o, listed) = v.server_listed s in
        let (p, in_pool) = live_pool _ _ o live listed in
        let (w1, e1, (v1, (free, kept))) = detach_parts p (w.servers s).state in_pool refl h in
        Gives-bind IsSound (detach_server caller w s (w.servers s).state) _ e1 (
          let (w', e, (v', _, _, _, _)) = finish_disconnect-Gives w1 v1 s (kept_live _ kept) free in
          (w', e, v'))
