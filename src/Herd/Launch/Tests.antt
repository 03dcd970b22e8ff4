-- ===== src/Herd/Launch/Tests.antt =====
-- src/objects.c: a connection that is launched once an idle one is evicted.
use pgbouncer.Base.{ℕ, ◌≡◌, refl, subst, Bool, true, Option, none, some, inr, arith}
use pgbouncer.Herd.Links.Sound.{IsSound}
use pgbouncer.Herd.Links.Keeps.{Limits}
use pgbouncer.Herd.Links.Tests.{quiet}
use pgbouncer.Herd.Evict.Tests.{resting, resting-IsSound}
use pgbouncer.Herd.Launch.Room.{Room, admit-IsRoomy}
use pgbouncer.Herd.Launch.Start.{Opens, launch_new_connection-IsSound}
use pgbouncer.Herd.Launch.{admit, launch_new_connection}
use pgbouncer.Herd.{World, ServerState, sv_free}

-- An allocator that has one socket, number 5.
abbrev blank : ServerState → Option ℕ → Option ℕ
blank sv_free none = some 5
blank _ _ = none

abbrev spare : World → Option ℕ
spare w = blank (w.servers 5).state (w.servers 5).link

blank-free :
    (state : ServerState) (link : Option ℕ) (s : ℕ)
    → blank state link ≡ some s
    → (5 ≡ s) × (state ≡ sv_free) × (link ≡ none)
blank-free sv_free none s e = (ground (arith, e), refl, refl)
blank-free state link s e = cc

spare-Opens : Opens spare
spare-Opens = record {
  fresh = λ w s e.
      let (five, free, unlinked) = blank-free (w.servers 5).state (w.servers 5).link s e in
      subst (λ s. ((w.servers s).state ≡ sv_free) × ((w.servers s).link ≡ none)) five
        (free, unlinked);
}

admit-IsRoomy_example :
    (r : World × Bool) × (admit quiet resting 3 true ≡ some r)
    × IsSound r.0
    × Limits resting r.0
    × (r.1 ≡ true → Room resting 3 2 r.0)
admit-IsRoomy_example = admit-IsRoomy quiet true 3 2 resting resting-IsSound refl

launch_new_connection-IsSound_example :
    (w' : World) × (launch_new_connection quiet spare resting 3 true ≡ some w') × IsSound w'
launch_new_connection-IsSound_example =
    launch_new_connection-IsSound quiet spare spare-Opens 3 resting true resting-IsSound refl
      (inr (2, refl))
