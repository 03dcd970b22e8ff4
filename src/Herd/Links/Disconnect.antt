-- ===== src/Herd/Links/Disconnect.antt =====
-- disconnect_server of src/objects.c for a server that is not linked, and updates of pools.
use pgbouncer.Base.{
  ℕ, ◌≡◌, refl, ap, sym, true, ◌∙◌, Option, none, some, arith, ◌==◌, ◌⊎◌, inl, inr,
}
use pgbouncer.Herd.Shelf.{set_at, map-set_at, set_at_self}
use pgbouncer.Herd.Links.Sound.{IsSound, at, all_pools, total_sel}
use pgbouncer.Herd.Links.Keeps.{Closed, Fewer, Gives, Gives-bind, is_rest}
use pgbouncer.Herd.Links.Steps.{live_pool}
use pgbouncer.Herd.Links.Closing.{finish_disconnect-Gives, finish_disconnect-Fewer}
use pgbouncer.Herd.Links.{
  Runner, finish_disconnect, set_pool, login_over, unlink_server, leave_login, detach_server,
  disconnect_server_with,
}
use pgbouncer.Herd.{
  World, Pool, ServerState, is_live, sv_free, sv_justfree, sv_login, sv_being_canceled, sv_idle,
  sv_active, sv_active_cancel, sv_used, sv_tested,
}

-- A pool's marks and times matter to nothing else.
pub set_pool-IsSound :
    (w : World) (p : ℕ) (pool : Pool)
    → IsSound w
    → pool.db ≡ (w.pools p).db
    → pool.user_credentials ≡ (w.pools p).user_credentials
    → IsSound (set_pool w p pool)
set_pool-IsSound w p pool v e1 e2 =
    let same_db : (q : ℕ) → (set_at w.pools p pool q).db ≡ (w.pools q).db = λ q.
      sym (map-set_at (λ pool. pool.db) w.pools p pool e1 q)
      ∙ set_at_self (λ q. (w.pools q).db) p q in
    let same_user : (q : ℕ)
        → (set_at w.pools p pool q).user_credentials ≡ (w.pools q).user_credentials =
      λ q.
        sym (map-set_at (λ pool. pool.user_credentials) w.pools p pool e2 q)
        ∙ set_at_self (λ q. (w.pools q).user_credentials) p q in
    record {
      placed = record {
        clients_placed = v.placed.clients_placed;
        servers_placed = v.placed.servers_placed;
      };
      client_listed = v.client_listed;
      server_listed = v.server_listed;
      linked = v.linked;
      matched = v.matched;
      cancels = v.cancels;
      canceling = v.canceling;
      owned = λ s q o i. let (u, e) = v.owned s q o i in (u, same_user q ∙ e);
      in_pools = v.in_pools;
      db_counted = λ d.
          v.db_counted d
          ∙ total_sel _ _ _ (all_pools w) (λ q. ap (λ db. db == d) (sym (same_db q)));
      user_counted = λ u.
          v.user_counted u
          ∙ total_sel _ _ _ (all_pools w) λ q.
            ap
              (λ o.
                at (elim o as (λ _. Option ℕ) [ none ↦ none | some k ↦ some (w.global_user k) ]) u)
              (sym (same_user q));
    }

pub login_over-IsSound : (w : World) (s p : ℕ) → IsSound w → IsSound (login_over w s p)
unfolding login_over
login_over-IsSound w s p v = set_pool-IsSound w p _ v (ground arith) (ground arith)

module _ (w : World) (v : IsSound w) (s : ℕ) (call : Runner) where
  detach_unlinked :
      (state : ServerState) (p : ℕ)
      → (w.servers s).link ≡ none
      → (w.servers s).pool ≡ some p
      → is_live state ≡ true
      → (detach_server call w s state ≡ some w)
        ⊎ (detach_server call w s state ≡ some (login_over w s p))
  unfolding detach_server unlink_server leave_login login_over
  detach_unlinked sv_free p e in_pool h = cc
  detach_unlinked sv_justfree p e in_pool h = cc
  detach_unlinked sv_login p e in_pool h = inr (ground (arith, e, in_pool))
  detach_unlinked sv_being_canceled p e in_pool h = inl refl
  detach_unlinked sv_idle p e in_pool h = inl refl
  detach_unlinked sv_active p e in_pool h = inl (ground (arith, e))
  detach_unlinked sv_active_cancel p e in_pool h = inl (ground (arith, e))
  detach_unlinked sv_used p e in_pool h = inl refl
  detach_unlinked sv_tested p e in_pool h = inl refl

  pub disconnect_unlinked :
      is_live (w.servers s).state ≡ true
      → (w.servers s).link ≡ none
      → Gives (disconnect_server_with call w s) (Closed s w)
  unfolding disconnect_server_with
  disconnect_unlinked live e =
      let (o, listed) = v.server_listed s in
      let (p, in_pool) = live_pool _ _ o live listed in
      let over = detach_server call w s (w.servers s).state in
      elim (detach_unlinked (w.servers s).state p e in_pool live) [
        | inl same ↦
            Gives-bind _ over (λ w1. finish_disconnect w1 s) same
              (finish_disconnect-Gives w v s live e)
        | inr marked ↦
            Gives-bind _ over (λ w1. finish_disconnect w1 s) marked
              (let (w', e', (v', k, links, unasked, freed)) =
                  finish_disconnect-Gives (login_over w s p) (login_over-IsSound w s p v) s live
                    e in
                (
                  w',
                  e',
                  (
                    v',
                    record { clients = k.clients; requests = k.requests; servers = k.servers },
                    links,
                    unasked,
                    freed,
                  ),
                ))
      ]

  -- A server that rests is detached from nothing, and there is one connection less.
  detach_rest : (state : ServerState) → is_rest state ≡ true → detach_server call w s state ≡ some w
  unfolding detach_server
  detach_rest sv_idle h = refl
  detach_rest sv_used h = refl
  detach_rest sv_tested h = refl
  detach_rest state h = cc

  pub disconnect_rest-Fewer :
      is_rest (w.servers s).state ≡ true
      → is_live (w.servers s).state ≡ true
      → Gives (disconnect_server_with call w s) (Fewer w)
  unfolding disconnect_server_with
  disconnect_rest-Fewer rest live =
      Gives-bind _ (detach_server call w s (w.servers s).state) (λ w1. finish_disconnect w1 s)
        (detach_rest _ rest) (finish_disconnect-Fewer w v s live)
