-- ===== src/Herd/Links/Releasing.antt =====
-- release_server of src/objects.c for a server that is not linked, or no longer.
use pgbouncer.Base.{
  ℕ, ◌≡◌, refl, ap, Bool, true, false, not, ◌∙◌, ◌||◌, ◌&&◌, List, [], ◌∷◌, Option, some, ◌==◌,
  if_intro, ◌>>=◌, ltb,
}
use pgbouncer.Herd.Settings.{life_over}
use pgbouncer.Herd.Links.Sound.{IsSound}
use pgbouncer.Herd.Links.Keeps.{Keeps, Keeps-trans, Answers, Answers-bind, is_kept}
use pgbouncer.Herd.Links.Cancels.{
  drop_cancels-IsSound, drop_cancels-server, drop_cancels-client, drop_cancels-same,
  drop_cancels-none, canceling-Cancel,
}
use pgbouncer.Herd.Links.Waking.{first_waits, activate_client-Gives, sharing_unlinked}
use pgbouncer.Herd.Links.Release.{
  reuse_first, reuse_on_release, reset_on_release, release_replication, settle, finish_release,
  is_login, is_nil, is_gone,
}
use pgbouncer.Herd.Links.{Streams, Runner, drop_cancel, drop_cancels, in_waiting_cancel}
use pgbouncer.Herd.{
  World, ClientState, ServerState, sv_free, sv_justfree, sv_login, sv_being_canceled, sv_idle,
  sv_active, sv_active_cancel, sv_used, sv_tested, is_live, is_waiting, waiting_client_list,
}
use pgbouncer.Herd.Links.Loose.{
  Closes, Released, IsLoose, closed-Answers, closed_for_age-Answers, change-Answers, answered,
}

module _ (streams : Streams) (call : Runner) (closes : Closes call) where
  reuse_first-Answers :
      (w : World) (s p : ℕ) (cs : List ℕ)
      → IsSound w
      → w.client_lists (waiting_client_list p) ≡ cs
      → Answers (reuse_first streams call w s cs) (Released w s)
  unfolding reuse_first
  reuse_first-Answers w s p [] v e = answered streams call closes w s true v
  reuse_first-Answers w s p (c ∷ cs) v e =
      let waits : is_waiting (w.clients c).state ≡ true = first_waits w p c cs v e in
      if_intro (λ o. Answers o (Released w s))
        (not (w.clients c).replication || (w.clients c).auth_query) _ _
        (λ shared.
          let (w', e', h) =
            activate_client-Gives streams call (λ i. i == s) w c v waits
              (λ i h. absurd (
                cc (
                  sharing_unlinked (w.clients c) (w.servers i) (w.clients c).state
                      (w.servers i).state waits shared,
                  v.matched c i h,
                ))) in
          (
            (w', not (is_gone (w'.servers s).state)),
            ap (λ o. o >>= λ w1. some (w1, not (is_gone (w1.servers s).state))) e',
            h,
          ))
        λ _. answered streams call closes w s true v

  settle-Answers :
      (w : World) (s p : ℕ) (new : ServerState)
      → IsLoose w s p
      → Answers (settle streams call w s new) (Released w s)
  unfolding settle reuse_on_release reset_on_release
  settle-Answers w s p sv_idle l =
      Answers-bind _ (w.servers s).pool _ l.in_pool (reuse_first-Answers w s p _ l.sound refl)
  settle-Answers w s p sv_tested l =
      if_intro (λ o. Answers o (Released w s)) (streams.send_reset_query w s) _ _
        (λ _. answered streams call closes w s true l.sound)
        λ _. closed-Answers streams call closes w s p false l
  settle-Answers w s p sv_free l = answered streams call closes w s true l.sound
  settle-Answers w s p sv_justfree l = answered streams call closes w s true l.sound
  settle-Answers w s p sv_login l = answered streams call closes w s true l.sound
  settle-Answers w s p sv_being_canceled l = answered streams call closes w s true l.sound
  settle-Answers w s p sv_active l = answered streams call closes w s true l.sound
  settle-Answers w s p sv_active_cancel l = answered streams call closes w s true l.sound
  settle-Answers w s p sv_used l = answered streams call closes w s true l.sound

  release_replication-Answers :
      (w : World) (s p : ℕ)
      → IsLoose w s p
      → Answers (release_replication streams call w s) (Released w s)
  unfolding release_replication
  release_replication-Answers w s p l =
      rw (l.unlinked, release_replication) (closed-Answers streams call closes w s p false l)

  module _ (drops : ClientState → Bool) (w : World) (s p : ℕ) (l : IsLoose w s p) where
    abbrev dropped : World
    dropped = drop_cancels drops w s (w.servers s).canceling_clients

    dropped-IsLoose : IsLoose dropped s p
    unfolding drop_cancel
    dropped-IsLoose =
        let cs = (w.servers s).canceling_clients in
        record {
          sound = drop_cancels-IsSound drops w s cs l.sound (canceling-Cancel w s l.sound);
          live =
              ap is_live (drop_cancels-server drops (λ server. server.state) (λ _ _. refl) w s cs s)
              ∙ l.live;
          unlinked =
              drop_cancels-server drops (λ server. server.link) (λ _ _. refl) w s cs s ∙ l.unlinked;
          in_pool =
              drop_cancels-server drops (λ server. server.pool) (λ _ _. refl) w s cs s ∙ l.in_pool;
          credentials =
              let (u, e) = l.credentials in
              (
                u,
                drop_cancels-same drops (λ w. (w.pools p).user_credentials) (λ w s c. refl) w s cs
                    ∙ e,
              );
        }

    dropped-Keeps : Keeps (λ i. i == s) w dropped
    dropped-Keeps =
        let cs = (w.servers s).canceling_clients in
        record {
          clients = λ c h. (
            drop_cancels-client drops (λ client. client.link) (λ _. refl) w s cs c ∙ h.0,
            ap is_waiting (drop_cancels-client drops (λ client. client.state) (λ _. refl) w s cs c)
                ∙ h.1,
          );
          requests = λ c _ h. drop_cancels-none drops w s cs c h;
          servers = λ i a h. (
            drop_cancels-server drops (λ server. server.link) (λ _ _. refl) w s cs i ∙ h.0,
            ap is_kept (drop_cancels-server drops (λ server. server.state) (λ _ _. refl) w s cs i)
                ∙ h.1,
          );
        }

  pub after :
      (o : Option (World × Bool)) (w w1 : World) (s : ℕ)
      → Keeps (λ i. i == s) w w1
      → Answers o (Released w1 s)
      → Answers o (Released w s)
  after o w w1 s k (r, e, (v, k')) = (r, e, (v, Keeps-trans (λ i. i == s) k k'))

  pub finish_release-Answers :
      (w : World) (s p : ℕ) (new : ServerState)
      → IsLoose w s p
      → is_live new ≡ true
      → Answers (finish_release streams call w s p new) (Released w s)
  unfolding finish_release
  finish_release-Answers w s p new l live =
      let w1 = dropped in_waiting_cancel w s p l in
      let l1 = dropped-IsLoose in_waiting_cancel w s p l in
      let server = w1.servers s in
      let P = λ (o : Option (World × Bool)). Answers o (Released w1 s) in
      after _ w w1 s (dropped-Keeps in_waiting_cancel w s p l) (
        if_intro P (not (is_login server.state) && life_over w1 s p) _ _
          (λ _. closed_for_age-Answers streams call closes w1 s p l1)
          λ _.
            if_intro P (ltb 0 server.outstanding_requests) _ _
              (λ _. closed-Answers streams call closes w1 s p true l1)
              λ _.
                if_intro P server.close_needed _ _
                  (λ _. closed-Answers streams call closes w1 s p false l1)
                  λ _.
                    if_intro P (not (is_nil server.canceling_clients)) _ _
                      (λ _.
                        change-Answers streams call closes w1 s p sv_being_canceled _ l1 refl
                          λ w2 l2 _. answered streams call closes w2 s true l2.sound)
                      λ _.
                        if_intro P server.replication _ _
                          (λ _. release_replication-Answers w1 s p l1)
                          λ _.
                            change-Answers streams call closes w1 s p new _ l1 live
                              λ w2 l2 _. settle-Answers w2 s p new l2)
