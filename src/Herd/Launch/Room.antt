-- ===== src/Herd/Launch/Room.antt =====
-- src/objects.c: launch_new_connection ends, and where it goes on to a new connection, the
-- database and the user have room for it.
use pgbouncer.Base.{
  ℕ, zero, suc, ◌<◌, ◌≤◌, ◌≡◌, refl, ap, ◌∙◌, subst, Bool, true, false, not, List, [], ◌∷◌, Option,
  none, some, arith, ltb, leb, ◌&&◌, if_intro, ◌>>=◌, Bool-cases, ◌⊎◌, inl, inr,
}
use pgbouncer.Herd.Settings.{database_max_connections, user_max_connections, pool_pool_size}
use pgbouncer.Herd.Links.Sound.{IsSound}
use pgbouncer.Herd.Links.Keeps.{Limits, connections}
use pgbouncer.Herd.Links.{Streams}
use pgbouncer.Herd.Evict.{evict_user_connection}
use pgbouncer.Herd.Evict.Fewer.{
  Evicted, evict_connection-Evicted, evict_pool_connection-Evicted, evict_user_connection-Evicted,
}
use pgbouncer.Herd.Launch.Evictions.{evict_while_ends, Limits-refl, Limits-trans}
use pgbouncer.Herd.Launch.{
  relieve, then_if, relieve_limit, db_used, user_used, allow_new, make_room_for, may_use_reserve,
  full_pool, admit,
}
use pgbouncer.Herd.{World, Client, pool_server_count, waiting_client_list}

-- Whether a number is below a limit, if there is one.
abbrev pub Below : ℕ → ℕ → Type 0
Below max n = (max ≡ 0) ⊎ (n < max)

-- A decision and what holds after it, with more if it is to go on.
abbrev pub Decides : World → Option (World × Bool) → (World → Type 0) → Type 0
Decides w o P =
    (r : World × Bool) × (o ≡ some r) × IsSound r.0 × Limits w r.0 × (r.1 ≡ true → P r.0)

relieve-Decides :
    (need : Bool) (full : World → Bool) (evictor : World → Option (World × Bool)) (w : World)
    → ((w : World) → IsSound w → Evicted w (evictor w))
    → IsSound w
    → Decides w (relieve need full evictor w) (λ w'. full w' ≡ false)
unfolding relieve
relieve-Decides need full evictor w evicts v =
    let (w', e, (v', l)) =
      evict_while_ends need full evictor evicts (suc (connections w)) w v (omega arith) in
    (
      (w', not (full w')),
      ap (λ o. o >>= λ w1. some (w1, not (full w1))) e,
      v',
      l,
      λ h. ground arith,
    )

relieve_limit-Decides :
    (need : Bool) (max : ℕ) (used : World → ℕ) (evictor : World → Option (World × Bool)) (w : World)
    → ((w : World) → IsSound w → Evicted w (evictor w))
    → IsSound w
    → Decides w (relieve_limit need max used evictor w) (λ w'. Below max (used w'))
relieve_limit-Decides need zero used evictor w evicts v =
    ((w, true), refl, v, Limits-refl w, λ _. inl refl)
relieve_limit-Decides need (suc n) used evictor w evicts v =
    let (r, e, v', l, room) = relieve-Decides need (λ w. leb (suc n) (used w)) evictor w evicts v in
    (r, e, v', l, λ h. inr (ground (arith, room h)))

then_if-Decides :
    (w : World) (P Q : World → Type 0) (o : Option (World × Bool))
    (f : World → Option (World × Bool))
    → Decides w o P
    → ((w1 : World) → IsSound w1 → Limits w w1 → P w1 → Decides w1 (f w1) Q)
    → Decides w (then_if o f) Q
unfolding then_if
then_if-Decides w P Q o f (r, e, v, l, h) k = elim (Bool-cases r.1) [
  | inl go ↦
      let (r', e', v', l', h') = k r.0 v l (h go) in
      (r', ground (arith, e, go, e'), v', Limits-trans w r.0 r'.0 l l', h')
  | inr stop ↦ ((r.0, false), ground (arith, e, stop), v, l, λ x. cc)
]

-- Room in a pool's database and for its user, by the limits of the world at the start.
abbrev pub Room : World → ℕ → ℕ → World → Type 0
Room w p k w' =
    Below (database_max_connections w (w.pools p).db) (db_used (w.pools p).db w')
    × Below (user_max_connections w (w.global_user k)) (user_used (w.global_user k) w')

database_max-Limits :
    (w w' : World) (d : ℕ)
    → Limits w w'
    → database_max_connections w' d ≡ database_max_connections w d
unfolding database_max_connections
database_max-Limits w w' d l = rw l.config (rw (l.db_max d) refl)

user_max-Limits :
    (w w' : World) (u : ℕ) → Limits w w' → user_max_connections w' u ≡ user_max_connections w u
unfolding user_max_connections
user_max-Limits w w' u l = rw l.config (rw (l.user_max u) refl)

Below-le : (max m n : ℕ) → n ≤ m → Below max m → Below max n
Below-le max m n h (inl e) = inl e
Below-le max m n h (inr small) = inr (omega arith)

user_room-Limits :
    (w w1 w' : World) (k : ℕ)
    → Limits w w1
    → Below (user_max_connections w1 (w1.global_user k)) (user_used (w1.global_user k) w')
    → Below (user_max_connections w (w.global_user k)) (user_used (w.global_user k) w')
user_room-Limits w w1 w' k l h =
    subst (λ max. Below max (user_used (w.global_user k) w'))
      (user_max-Limits w w1 (w.global_user k) l)
      (subst (λ g. Below (user_max_connections w1 (g k)) (user_used (g k) w')) l.global_user h)

Room-Limits : (w w1 w' : World) (p k : ℕ) → Limits w w1 → Room w1 p k w' → Room w p k w'
Room-Limits w w1 w' p k l (h, h') = (
  subst (λ max. Below max (db_used (w.pools p).db w')) (database_max-Limits w w1 (w.pools p).db l)
      (subst (λ pools. Below (database_max_connections w1 (pools p).db) (db_used (pools p).db w'))
        l.pools h),
  user_room-Limits w w1 w' k l h',
)

module _ (streams : Streams) (need : Bool) (p k : ℕ) where
  user_Decides :
      (w : World)
      → IsSound w
      → Decides w
          (relieve_limit need
            (user_max_connections w (w.global_user k))
            (user_used (w.global_user k))
            (λ w. evict_user_connection streams w k)
            w)
          (λ w'. Below (user_max_connections w (w.global_user k)) (user_used (w.global_user k) w'))
  user_Decides w v =
      relieve_limit-Decides need _ (user_used (w.global_user k)) _ w
        (λ w v. evict_user_connection-Evicted streams w v k) v

  allow_new-Decides :
      (w : World)
      → IsSound w
      → (w.pools p).user_credentials ≡ some k
      → Decides w (allow_new streams w p need) (Room w p k)
  unfolding allow_new
  allow_new-Decides w v e =
      let d = (w.pools p).db in
      then_if-Decides w _ (Room w p k) _ _
        (relieve_limit-Decides need (database_max_connections w d) (db_used d) _ w
          (λ w v. evict_connection-Evicted streams w v d) v)
        λ w1 v1 l h.
          let e1 : (w1.pools p).user_credentials ≡ some k =
            ap (λ pools. (pools p).user_credentials) l.pools ∙ e in
          let (r, e2, v2, l2, below) = user_Decides w1 v1 in
          (
            r,
            ap
                  (λ o. elim o as (λ o. Option (World × Bool)) [
                    | none ↦ none
                    | some k ↦
                        let u = w1.global_user k in
                        relieve_limit need (user_max_connections w1 u) (user_used u)
                          (λ w. evict_user_connection streams w k) w1
                  ])
                  e1
                ∙ e2,
            v2,
            l2,
            λ go. (Below-le _ _ _ (l2.db_used d) h, user_room-Limits w w1 r.0 k l (below go)),
          )

  make_room_for-Decides :
      (w : World) (client : Client)
      → IsSound w
      → (w.pools p).user_credentials ≡ some k
      → Decides w (make_room_for streams w p need client) (Room w p k)
  unfolding make_room_for
  make_room_for-Decides w client v e =
      if_intro (λ o. Decides w o (Room w p k)) (client.replication && not client.auth_query) _ _
        (λ _.
          then_if-Decides w _ (Room w p k) _ _
            (relieve-Decides need (λ w. leb (pool_pool_size w p) (pool_server_count w p)) _ w
              (λ w v. evict_pool_connection-Evicted streams w v p) v)
            λ w1 v1 l _.
              let (r, e', v', l', room) =
                allow_new-Decides w1 v1 (ap (λ pools. (pools p).user_credentials) l.pools ∙ e) in
              (r, e', v', l', λ go. Room-Limits w w1 r.0 p k l (room go)))
        λ _. ((w, false), refl, v, Limits-refl w, λ x. cc)

  full_pool-Decides :
      (w : World) (cs : List ℕ)
      → IsSound w
      → (w.pools p).user_credentials ≡ some k
      → Decides w (full_pool streams w p need cs) (Room w p k)
  unfolding full_pool
  full_pool-Decides w [] v e = ((w, false), refl, v, Limits-refl w, λ x. cc)
  full_pool-Decides w (c ∷ cs) v e =
      if_intro (λ o. Decides w o (Room w p k)) (may_use_reserve w p (w.clients c)) _ _
        (λ _. allow_new-Decides w v e) λ _. make_room_for-Decides w (w.clients c) v e

  -- In a sound world, for a pool with credentials, the part of launch_new_connection that applies
  -- the pool's size and the limits ends, keeps the world sound, changes no limit and gives no
  -- database more connections; where it goes on to a new connection, the database and the user
  -- then have fewer connections than their limits, a limit of 0 being none.
  pub admit-IsRoomy :
      (w : World)
      → IsSound w
      → (w.pools p).user_credentials ≡ some k
      → (r : World × Bool) × (admit streams w p need ≡ some r)
        × IsSound r.0
        × Limits w r.0
        × (r.1 ≡ true → Room w p k r.0)
  unfolding admit
  admit-IsRoomy w v e =
      if_intro (λ o. Decides w o (Room w p k))
        (ltb 0 (pool_pool_size w p)
          && (leb (pool_pool_size w p) (pool_server_count w p) && (w.pools p).welcome_msg_ready))
        _ _ (λ _. full_pool-Decides w (w.client_lists (waiting_client_list p)) v e)
        λ _. allow_new-Decides w v e
