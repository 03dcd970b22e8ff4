-- ===== src/Herd/Launch/Evictions.antt =====
-- src/objects.c: the loops of evictions in launch_new_connection, which each end.
use pgbouncer.Base.{ℕ, zero, suc, ◌<◌, refl, ◌∙◌, Bool, Option, arith, ◌&&◌, Bool-cases, inl, inr}
use pgbouncer.Herd.Links.Sound.{IsSound}
use pgbouncer.Herd.Links.Keeps.{Gives, Limits, connections}
use pgbouncer.Herd.Evict.Fewer.{Evicted}
use pgbouncer.Herd.Launch.{evict_while}
use pgbouncer.Herd.{World}

pub Limits-refl : (w : World) → Limits w w
Limits-refl w = record {
  pools = refl;
  global_user = refl;
  config = refl;
  same_pools = refl;
  db_max = λ d. refl;
  user_max = λ u. refl;
  db_used = λ d. omega arith;
}

pub Limits-trans : (w w1 w2 : World) → Limits w w1 → Limits w1 w2 → Limits w w2
Limits-trans w w1 w2 l k = record {
  pools = k.pools ∙ l.pools;
  global_user = k.global_user ∙ l.global_user;
  config = k.config ∙ l.config;
  same_pools = k.same_pools ∙ l.same_pools;
  db_max = λ d. k.db_max d ∙ l.db_max d;
  user_max = λ u. k.user_max u ∙ l.user_max u;
  db_used = λ d. omega (arith, k.db_used d, l.db_used d);
}

-- With more rounds than connections a loop of evictions ends.
pub evict_while_ends :
    (evict_if_needed : Bool) (full : World → Bool) (evictor : World → Option (World × Bool))
    → ((w : World) → IsSound w → Evicted w (evictor w))
    → (f : ℕ) (w : World) → IsSound w
    → connections w < f
    → Gives (evict_while evict_if_needed full evictor f w) (λ w'. IsSound w' × Limits w w')
unfolding evict_while
evict_while_ends need full evictor evicts zero w v h = elim h [ ]
evict_while_ends need full evictor evicts (suc f) w v h = elim (Bool-cases (need && full w)) [
  | inl e ↦ elim (evicts w v) [
    | inl e1 ↦ (w, ground (arith, e, e1), (v, Limits-refl w))
    | inr (w1, e1, v1, less) ↦
        let (w', e', (v', l)) =
          evict_while_ends need full evictor evicts f w1 v1 (omega (arith, less.fewer)) in
        (w', ground (arith, e, e1, e'), (v', Limits-trans w w1 w' less.limits l))
  ]
  | inr e ↦ (w, ground (arith, e), (v, Limits-refl w))
]
