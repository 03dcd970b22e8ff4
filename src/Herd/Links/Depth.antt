-- ===== src/Herd/Links/Depth.antt =====
-- disconnect_client, disconnect_server and release_server of src/objects.c: the depth to which they
-- call one another, and the invariant.
use pgbouncer.Base.{
  ℕ, suc, ◌≡◌, ◌-◌, ◌≤◌, refl, ap, subst, true, false, some, arith, inl, inr, ◌>>=◌,
}
use pgbouncer.Herd.Links.Sound.{IsSound}
use pgbouncer.Herd.Links.Keeps.{Gives, Answers, Answers-bind}
use pgbouncer.Herd.Links.Disconnect.{set_pool-IsSound}
use pgbouncer.Herd.Links.Loose.{IsLoose}
use pgbouncer.Herd.Links.Releasing.{finish_release-Answers}
use pgbouncer.Herd.Links.Parting.{Gone, is_present}
use pgbouncer.Herd.Links.Release.{run, release_server_with, release_in}
use pgbouncer.Herd.Links.{
  Streams, Task, disconnect_client, disconnect_server, release_server, set_pool,
}
use pgbouncer.Herd.{World, ServerState, sv_login, sv_idle, sv_used, sv_tested}
use pgbouncer.Herd.Links.Calls.{
  is_alone, Callable, run-Closes, run-Releases, run-disconnect_client, run-disconnect_server,
}

module _ (streams : Streams) where
  release_alone :
      (f : ℕ) (w : World) (s p : ℕ) (state : ServerState)
      → is_alone state ≡ true
      → IsLoose w s p
      → Answers (release_in streams (run streams (suc f)) w s p state) IsSound
  unfolding release_in
  release_alone f w s p sv_used h l =
      let (r, e, (v, _)) =
        finish_release-Answers streams (run streams (suc f)) (run-Closes streams f) w s p sv_idle l
          refl in
      (r, e, v)
  release_alone f w s p sv_tested h l =
      let (r, e, (v, _)) =
        finish_release-Answers streams (run streams (suc f)) (run-Closes streams f) w s p sv_idle l
          refl in
      (r, e, v)
  release_alone f w s p sv_login h l =
      let pool = record (w.pools p) { last_login_failed = false; last_connect_failed = false } in
      let (u, e) = l.credentials in
      let l1 : IsLoose (set_pool w p pool) s p = record {
        sound = set_pool-IsSound w p pool l.sound refl refl;
        live = l.live;
        unlinked = l.unlinked;
        in_pool = l.in_pool;
        credentials = (u, ground (arith, e));
      } in
      let (r, e1, (v, _)) =
        finish_release-Answers streams (run streams (suc f)) (run-Closes streams f)
          (set_pool w p pool) s p sv_idle l1 refl in
      (r, e1, v)
  release_alone f w s p state h l = cc

  run_deep :
      (f : ℕ) (w : World) (t : Task)
      → IsSound w
      → Callable w t
      → Gives (run streams (suc (suc (suc (suc f)))) w t) IsSound
  unfolding run release_server_with
  run_deep f w (disconnect_client c) v h =
      let (w', e, (v', _, _)) = run-disconnect_client streams (suc f) w c v h in (w', e, v')
  run_deep f w (disconnect_server s) v h = run-disconnect_server streams f w s v h
  run_deep f w (release_server s) v (p, in_pool, inl used) =
      let (w', e, (v', _)) = run-Releases streams (suc (suc f)) w s p v used in_pool in (w', e, v')
  run_deep f w (release_server s) v (p, in_pool, inr (alone, l)) =
      let (r, e, v') =
        Answers-bind IsSound (w.servers s).pool _ in_pool
          (release_alone (suc (suc f)) w s p (w.servers s).state alone l) in
      (r.0, ap (λ o. o >>= λ r. some r.0) e, v')

  -- In a world where every connection stands on the list of its state once, links run both ways
  -- between a client and a server in states that may be linked, cancel requests and the lists of
  -- canceling clients agree, pools of servers that have logged in have credentials, the pool of a
  -- server that is not free is listed once, and the connection counts of databases and users are
  -- the sums over the pools: a call of disconnect_client on a client that is not free, of
  -- disconnect_server on a live server that is unlinked or in a state whose link disconnect_server
  -- takes off, or of release_server on a server that is in use, or is used, tested or logging in,
  -- unlinked and in a pool with credentials, returns with fuel of at least 4 and leaves such a
  -- world, what sbuf_continue does for a client that was given a server aside.
  pub run-IsSound :
      (f : ℕ) (w : World) (t : Task)
      → 4 ≤ f
      → IsSound w
      → Callable w t
      → (w' : World) × (run streams f w t ≡ some w') × IsSound w'
  run-IsSound f w t enough v h =
      let e : suc (suc (suc (suc (f - 4)))) ≡ f = omega arith in
      subst (λ f. Gives (run streams f w t) IsSound) e (run_deep (f - 4) w t v h)

  -- In a sound world disconnect_client of a client that is not free returns with fuel of at least
  -- 3, and the client is just freed, without a link and without a server that it cancels, what
  -- sbuf_continue does for a client that was given a server aside.
  pub disconnect_client-Gone :
      (f : ℕ) (w : World) (c : ℕ)
      → 3 ≤ f
      → IsSound w
      → is_present (w.clients c).state ≡ true
      → (w' : World) × (run streams f w (disconnect_client c) ≡ some w') × Gone w' c
  disconnect_client-Gone f w c enough v h =
      let e : suc (suc (suc (f - 3))) ≡ f = omega arith in
      let (w', e', (_, _, gone)) = run-disconnect_client streams (f - 3) w c v h in
      (w', subst (λ f. run streams f w (disconnect_client c) ≡ some w') e e', gone)
