-- ===== src/Herd/Links/Detaching.antt =====
-- The cases of disconnect_client in src/objects.c: how a client in each state lets go of its server.
use pgbouncer.Base.{
  ℕ, ◌≡◌, refl, ap, subst, Bool, true, false, ◌∙◌, ◌&&◌, none, some, arith, ◌==◌, inl, inr,
  if_intro, Bool-cases, Option-cases,
}
use pgbouncer.Herd.Links.Sound.{IsSound, at, is_cancel}
use pgbouncer.Herd.Links.Keeps.{Keeps, Keeps-refl, Keeps-trans, Gives, Unlinked}
use pgbouncer.Herd.Links.Steps.{live_pool}
use pgbouncer.Herd.Links.Cancels.{unlink-IsSound, set_ready-IsSound, drop_cancel-IsSound}
use pgbouncer.Herd.Links.Loose.{Closes}
use pgbouncer.Herd.Links.Unlinking.{linked_on, is_used_up}
use pgbouncer.Herd.Links.Release.{
  leave_server, leave_carrier, leave_canceled, leave_replication, is_being_canceled,
}
use pgbouncer.Herd.Links.{
  Streams, Runner, unlink, drop_cancel, disconnect_server, release_server, set_server,
}
use pgbouncer.Herd.{World, is_live, is_waiting}
use pgbouncer.Herd.Links.Leaving.{
  Releases, Left, none-at, is_user, user_matches, no_request, unlinked-Keeps, user_no_cancel,
  user_no_wait, cancel_no_wait, wait_no_cancel, canceled_used_up, unkept-Keeps, drop_cancel-Keeps,
  linked_matches, linked-is_live, unlink_same,
}
use pgbouncer.Herd.Links.Unlinking.{used_up, unlink_client-IsLoose}
use pgbouncer.Herd.Links.Waking.{sharing_unlinked}

both_first : (a b : Bool) → (a && b) ≡ true → a ≡ true
both_first a b h = ground arith

module _ (streams : Streams) (call : Runner) (closes : Closes call) (releases : Releases call) where
  -- The client is unlinked, and the server closed.
  closed-Left :
      (w : World) (c s : ℕ)
      → IsSound w
      → (w.clients c).link ≡ some s
      → (w.clients c).canceled_server ≡ none
      → Gives (call (unlink w c s) (disconnect_server s)) (Left w c)
  unfolding unlink
  closed-Left w c s v linked unasked =
      let (w', e, (v', k, links, requests, _)) =
        closes (unlink w c s) s (unlink-IsSound w c s v linked)
          (ground (arith, linked-is_live w v c s linked)) (ground arith) in
      (
        w',
        e,
        (
          v',
          unlinked-Keeps w c s w' (linked_on w c s v linked) k,
          links c ∙ ground arith,
          requests c (ground (arith, unasked)),
        ),
      )

  -- The server is released, which unlinks the client.
  released-Left :
      (w : World) (c s p : ℕ)
      → IsSound w
      → (w.clients c).link ≡ some s
      → (w.clients c).canceled_server ≡ none
      → is_waiting (w.clients c).state ≡ false
      → is_used_up (w.servers s).state ≡ true
      → (w.servers s).pool ≡ some p
      → Gives (call w (release_server s)) (Left w c)
  unfolding unlink
  released-Left w c s p v linked unasked awake used in_pool =
      let (w', e, (v', k)) = releases w s p v used in_pool in
      let k1 = subst (λ u. Keeps (λ i. i == s) u w') (unlink_same w v c s linked) k in
      let unlinked : Unlinked (unlink w c s) c = (ground arith, ground (arith, awake)) in
      (
        w',
        e,
        (
          v',
          unlinked-Keeps w c s w' (linked_on w c s v linked) k1,
          (k1.clients c unlinked).0,
          k1.requests c unlinked (ground (arith, unasked)),
        ),
      )

  pub leave_server-Gives :
      (w : World) (c : ℕ)
      → IsSound w
      → is_user (w.clients c).state ≡ true
      → Gives (leave_server streams call w c) (Left w c)
  unfolding leave_server
  leave_server-Gives w c v user =
      let unasked = no_request w c v (user_no_cancel _ user) in
      elim (Option-cases (w.clients c).link) [
        | inl free ↦
            rw (free, leave_server) (w, refl, (v, Keeps-refl (λ _. false) w, free, unasked))
        | inr (s, linked) ↦
            let active =
              user_matches (w.clients c) (w.servers s) _ _ user (linked_matches w v c s linked) in
            let (o, listed) = v.server_listed s in
            let (p, in_pool) = live_pool _ _ o (ap is_live active) listed in
            rw (linked, leave_server)
              (if_intro (λ o. Gives o (Left w c)) _ _ _ (λ _. closed-Left w c s v linked unasked)
                λ _.
                  released-Left w c s p v linked unasked (user_no_wait _ user)
                    (ap is_used_up active) in_pool)
      ]

  -- A cancel request parts with the connection that it goes over.
  pub leave_carrier-Gives :
      (w : World) (c : ℕ)
      → IsSound w
      → is_cancel (w.clients c).state ≡ true
      → Gives
          (leave_carrier streams call w c)
          (λ w'. IsSound w' × Keeps (λ _. false) w w' × Unlinked w' c)
  unfolding leave_carrier unlink
  leave_carrier-Gives w c v cancel =
      let awake = cancel_no_wait (w.clients c).state cancel in
      elim (Option-cases (w.clients c).link) [
        | inl free ↦
            rw (free, leave_carrier) (w, refl, (v, Keeps-refl (λ _. false) w, (free, awake)))
        | inr (s, linked) ↦
            let w1 = unlink w c s in
            let w2 = set_server w1 s (record (w1.servers s) { ready = true }) in
            let (w', e, (v', k, links, _, _)) =
              closes w2 s (set_ready-IsSound w1 s (unlink-IsSound w c s v linked))
                (ground (arith, linked-is_live w v c s linked)) (ground arith) in
            let k1 : Keeps (λ i. i == s) w1 w' = record {
              clients = k.clients;
              requests = k.requests;
              servers = λ i a d. k.servers i a (ground (arith, d));
            } in
            rw (linked, leave_carrier)
              (
                w',
                e,
                (
                  v',
                  unlinked-Keeps w c s w' (linked_on w c s v linked) k1,
                  k1.clients c (ground arith, ground (arith, awake)),
                ),
              )
      ]

  pub leave_canceled-Gives :
      (w : World) (c : ℕ)
      → IsSound w
      → Unlinked w c
      → Gives (leave_canceled streams call w c) (Left w c)
  unfolding leave_canceled drop_cancel
  leave_canceled-Gives w c v u = elim (Option-cases (w.clients c).canceled_server) [
    | inl unasked ↦
        rw (unasked, leave_canceled) (w, refl, (v, Keeps-refl (λ _. false) w, u.0, unasked))
    | inr (s, asks) ↦
        let w1 = drop_cancel w s c in
        let v1 = drop_cancel-IsSound w s c v asks in
        let k1 = drop_cancel-Keeps w s c in
        let unlinked : Unlinked w1 c = (ground (arith, u.0), ground (arith, u.1)) in
        let (o, listed) = v1.server_listed s in
        rw (asks, leave_canceled)
          (if_intro (λ o. Gives o (Left w c)) _ _ _
            (λ test.
              let waited : is_being_canceled (w1.servers s).state ≡ true = both_first _ _ test in
              let (used, unkept) = canceled_used_up (w1.servers s).state waited in
              let (p, in_pool) = live_pool _ _ o (used_up _ used).1 listed in
              let (w', e, (v', k)) = releases w1 s p v1 used in_pool in
              let k2 =
                unkept-Keeps w1 w' s unkept
                  (Keeps-trans (λ i. i == s) (unlink_client-IsLoose w1 s p v1 used in_pool).1 k) in
              (
                w',
                e,
                (
                  v',
                  Keeps-trans (λ _. false) k1 k2,
                  (k2.clients c unlinked).0,
                  k2.requests c unlinked (ground arith),
                ),
              ))
            λ _. (w1, refl, (v1, k1, unlinked.0, ground arith)))
  ]

  pub leave_replication-Gives :
      (w : World) (c : ℕ)
      → IsSound w
      → is_waiting (w.clients c).state ≡ true
      → Gives (leave_replication streams call w c) (Left w c)
  unfolding leave_replication
  leave_replication-Gives w c v waits =
      let unasked = no_request w c v (wait_no_cancel _ waits) in
      if_intro (λ o. Gives o (Left w c)) (w.clients c).replication _ _
        (λ _. elim (Option-cases (w.clients c).link) [
          | inl free ↦ rw free (w, refl, (v, Keeps-refl (λ _. false) w, free, unasked))
          | inr (s, linked) ↦ rw linked (closed-Left w c s v linked unasked)
        ])
        λ shared. (
          w,
          refl,
          (
            v,
            Keeps-refl (λ _. false) w,
            none-at (w.clients c).link λ s. elim (Bool-cases (at (w.clients c).link s)) [
              | inl e ↦ absurd (
                  cc (
                    sharing_unlinked (w.clients c) (w.servers s) (w.clients c).state
                        (w.servers s).state waits (ground (arith, shared)),
                    v.matched c s e,
                  ))
              | inr e ↦ e
            ],
            unasked,
          ),
        )
