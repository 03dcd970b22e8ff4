-- ===== src/Herd/Launch/Start.antt =====
-- src/objects.c: the new connection that launch_new_connection opens.
use pgbouncer.Base.{
  ℕ, ◌≡◌, refl, ap, ◌∙◌, true, false, [], Option, none, some, arith, ◌>>=◌, Bool, Option-cases, ◌⊎◌,
  inl, inr, if_intro, not, ◌&&◌, ltb, ◌*◌,
}
use pgbouncer.Herd.Shelf.{count}
use pgbouncer.Herd.Links.Sound.{leave_call-IsSound, IsSound, all_pools}
use pgbouncer.Herd.Links.Keeps.{Gives}
use pgbouncer.Herd.Links.Disconnect.{set_pool-IsSound}
use pgbouncer.Herd.Links.{Streams, set_server, set_pool}
use pgbouncer.Herd.Launch.Room.{admit-IsRoomy}
use pgbouncer.Herd.Settings.{pool_pool_size, sub64}
use pgbouncer.Herd.Evict.{is_none}
use pgbouncer.Herd.Launch.{admit, count_up, force_new, launch_new_connection}
use pgbouncer.Herd.{
  leave_call, dns_connect, World, sv_free, sv_login, new_server_list, waiting_cancel_req_list,
  pool_server_count, change_server_state,
}
use pgbouncer.Herd.Launch.Fresh.{logging_in, fresh-change, started-IsSound}

-- What the allocator does: a socket from it is blank.
pub record Opens (slab_alloc : World → Option ℕ) : Type 0 where
  pub fresh :
      (w : World) (s : ℕ)
      → slab_alloc w ≡ some s
      → ((w.servers s).state ≡ sv_free) × ((w.servers s).link ≡ none)

module _ (streams : Streams) (slab_alloc : World → Option ℕ) (opens : Opens slab_alloc)
    (p : ℕ) where
  force_new-Gives :
      (w : World) → IsSound w → count p (all_pools w) ≡ 1 → Gives (force_new slab_alloc w p) IsSound
  unfolding force_new
  force_new-Gives w v once = elim (Option-cases (slab_alloc w)) [
    | inl full ↦ (w, ground (arith, full), v)
    | inr (s, e) ↦
        let (free, unlinked) = opens.fresh w s e in
        let pool = record (w.pools p) { last_connect_time = w.now; last_active_time = w.now } in
        let v1 = set_pool-IsSound w p pool v refl refl in
        let w1 = set_pool w p pool in
        (
          leave_call (count_up (logging_in w1 v1 s p free unlinked once) p) (dns_connect s),
          ap
                (λ o. elim o as (λ o. Option World) [
                  | none ↦ some w
                  | some s ↦
                      let server = record (w.servers s) {
                        pool = some p;
                        connect_time = w.now;
                        canceling_clients = [];
                      } in
                      change_server_state (set_pool (set_server w s server) p pool) s sv_login
                      >>= λ w1. some (leave_call (count_up w1 p) (dns_connect s))
                ])
                e
              ∙ ap (λ o. o >>= λ w1. some (leave_call (count_up w1 p) (dns_connect s)))
                  (fresh-change w1 v1 s p free unlinked once),
          leave_call-IsSound _ (dns_connect s) (started-IsSound w1 v1 s p free unlinked once),
        )
  ]

  admitted_or_not :
      (w : World) (need : Bool) (k : ℕ)
      → IsSound w
      → count p (all_pools w) ≡ 1
      → (w.pools p).user_credentials ≡ some k
      → Gives
          (admit streams w p need >>= λ r. elim r.1 as (λ b. Option World) [
            | true ↦ force_new slab_alloc r.0 p
            | false ↦ some r.0
          ])
          IsSound
  admitted_or_not w need k v once e =
      let (r, e1, v1, l, _) = admit-IsRoomy streams need p k w v e in
      let go : (b : Bool)
          → Gives
              (elim b as (λ b. Option World) [
                | true ↦ force_new slab_alloc r.0 p
                | false ↦ some r.0
              ])
              IsSound =
        λ b.
          elim b
            as (λ b.
              Gives
                (elim b as (λ b. Option World) [
                  | true ↦ force_new slab_alloc r.0 p
                  | false ↦ some r.0
                ])
                IsSound) [
                  | true ↦ force_new-Gives r.0 v1 (ap (count p) l.same_pools ∙ once)
                  | false ↦ (r.0, refl, v1)
                ] in
      let (w', e', v') = go r.1 in
      (
        w',
        ap
              (λ o. o >>= λ r. elim r.1 as (λ b. Option World) [
                | true ↦ force_new slab_alloc r.0 p
                | false ↦ some r.0
              ])
              e1
            ∙ e',
        v',
      )

  -- In a sound world, with an allocator that gives only free servers without a link,
  -- launch_new_connection for a pool that is listed once and is a peer's or has credentials
  -- returns, its loops of evictions ended, and leaves a sound world, with the connections counted
  -- that it closed and that it left to dns_connect to open.
  pub launch_new_connection-IsSound :
      (w : World) (evict_if_needed : Bool)
      → IsSound w
      → count p (all_pools w) ≡ 1
      → ((w.databases (w.pools p).db).is_peer ≡ true)
        ⊎ ((k : ℕ) × ((w.pools p).user_credentials ≡ some k))
      → (w' : World) × (launch_new_connection streams slab_alloc w p evict_if_needed ≡ some w')
        × IsSound w'
  unfolding launch_new_connection
  launch_new_connection-IsSound w need v once owned =
      let pool = w.pools p in
      let server_count = pool_server_count w p in
      let size = pool_pool_size w p in
      let P : Option World → Type 0 = λ o. Gives o IsSound in
      let stays : Gives (some w) IsSound = (w, refl, v) in
      if_intro P (not (is_none (w.server_lists (new_server_list p)))) _ _ (λ _. stays)
        λ _.
          if_intro P
            (pool.last_connect_failed
              && ltb (sub64 w.now pool.last_connect_time) w.config.server_login_retry)
            _ _ (λ _. stays)
            λ _.
              if_intro P (w.databases pool.db).is_peer _ _
                (λ _.
                  if_intro P (ltb server_count size) _ _ (λ _. force_new-Gives w v once) λ _. stays)
                λ ordinary.
                  if_intro P
                    (not (is_none (w.client_lists (waiting_cancel_req_list p)))
                      && ltb server_count (2 * size))
                    _ _ (λ _. force_new-Gives w v once)
                    λ _. elim owned [
                      | inl peer ↦ cc
                      | inr (k, e) ↦ admitted_or_not w need k v once e
                    ]
