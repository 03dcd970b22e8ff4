-- ===== src/Herd/Evict/Fewer.antt =====
-- src/objects.c: what evict_connection and its variants leave, for loops of evictions.
use mathlib.Core.Option.{some-injective}
use pgbouncer.Base.{
  ℕ, ◌≡◌, refl, sym, ap, ◌∙◌, subst, Bool, true, false, List, [], ◌∷◌, Option, none, some, ◌>>=◌,
  ◌⊎◌, inl, inr,
}
use pgbouncer.Herd.Links.Sound.{IsSound}
use pgbouncer.Herd.Links.Keeps.{Gives, Fewer}
use pgbouncer.Herd.Links.Disconnect.{disconnect_unlinked, disconnect_rest-Fewer}
use pgbouncer.Herd.Links.{Streams}
use pgbouncer.Herd.Links.Release.{run}
use pgbouncer.Herd.Evict.Candidates.{
  listed, best, best-Oldest, All, All-count, oldest_connection-best,
}
use pgbouncer.Herd.Evict.Oldest.{Rests, candidates-Rests, listed-Rests, rest_unlinked, resting_link}
use pgbouncer.Herd.Evict.{
  compare_connections_by_time, of_database, of_credentials, evict, evict_connection,
  evict_pool_connection, evict_user_connection,
}
use pgbouncer.Herd.{World, idle_server_list}

Gives-both :
    (P Q : World → Type 0) (o : Option World) → Gives o P → Gives o Q → Gives o (λ w. P w × Q w)
Gives-both P Q o (w, e, p) (w', e', q) = (w, e, (p, subst Q (some-injective _ _ (sym e' ∙ e)) q))

-- An eviction that found nobody, or closed a connection.
abbrev pub Evicted : World → Option (World × Bool) → Type 0
Evicted w o =
    (o ≡ some (w, false)) ⊎ ((w' : World) × (o ≡ some (w', true)) × IsSound w' × Fewer w w')

module _ (streams : Streams) (w : World) (v : IsSound w) where
  evict-Evicted :
      (o : Option ℕ) → ((s : ℕ) → o ≡ some s → Rests w v s) → Evicted w (evict streams w o)
  unfolding evict run
  evict-Evicted none h = inl refl
  evict-Evicted (some s) h =
      let rest = h s refl in
      let live =
        (rest_unlinked w v (w.clients 0) (w.servers s) (w.clients 0).state (w.servers s).state
          rest).0 in
      let (w', e, ((v', _, _, _, _), less)) =
        Gives-both _ _ _ (disconnect_unlinked w v s (run streams 3) live (resting_link w v s rest))
          (disconnect_rest-Fewer w v s (run streams 3) rest live) in
      inr (w', ap (λ o. o >>= λ w1. some (w1, true)) e, v', less)

  best-Rests : (ss : List ℕ) (s : ℕ) → best w none ss ≡ some s → All (Rests w v) ss → Rests w v s
  unfolding compare_connections_by_time
  best-Rests [] s e all = cc
  best-Rests (x ∷ xs) s e all =
      let (s', e', c, _) = best-Oldest w x xs in
      subst (Rests w v) (some-injective _ _ (sym e' ∙ e)) (All-count (Rests w v) s' (x ∷ xs) all c)

  pub evict_connection-Evicted : (d : ℕ) → Evicted w (evict_connection streams w d)
  unfolding evict_connection
  evict_connection-Evicted d = evict-Evicted _ (λ s e.
      best-Rests _ s (sym (oldest_connection-best w (of_database w d) none w.pool_list) ∙ e)
        (candidates-Rests w v (of_database w d) w.pool_list))

  pub evict_user_connection-Evicted : (k : ℕ) → Evicted w (evict_user_connection streams w k)
  unfolding evict_user_connection
  evict_user_connection-Evicted k = evict-Evicted _ (λ s e.
      best-Rests _ s (sym (oldest_connection-best w (of_credentials w k) none w.pool_list) ∙ e)
        (candidates-Rests w v (of_credentials w k) w.pool_list))

  pub evict_pool_connection-Evicted : (p : ℕ) → Evicted w (evict_pool_connection streams w p)
  unfolding evict_pool_connection compare_connections_by_time
  evict_pool_connection-Evicted p = evict-Evicted _ (λ s e.
      (subst (λ o. All (Rests w v) (listed o)) e (listed-Rests w v (idle_server_list p) refl)).0)
