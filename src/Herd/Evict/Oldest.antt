-- ===== src/Herd/Evict/Oldest.antt =====
-- src/objects.c: which server is evicted.
use pgbouncer.Base.{
  ℕ, ◌<◌, ◌≡◌, refl, sym, ap, ◌∙◌, subst, Bool, true, false, List, [], ◌∷◌, Option, none, some,
  arith, if◌then◌else◌, if_intro, ◌>>=◌, ==_refl, Option-cases, inl, inr,
}
use pgbouncer.Herd.Shelf.{count, here}
use pgbouncer.Herd.Placement.{flat}
use pgbouncer.Herd.Links.Sound.{IsSound, at, matches}
use pgbouncer.Herd.Links.Disconnect.{disconnect_unlinked}
use pgbouncer.Herd.Links.Keeps.{is_rest}
use pgbouncer.Herd.Links.{Streams}
use pgbouncer.Herd.Links.Release.{run}
use pgbouncer.Herd.Evict.{
  is_none, last_socket, compare_connections_by_time, of_database, of_credentials, evict,
  evict_connection, evict_user_connection,
}
use pgbouncer.Herd.{
  World, Client, Server, ClientState, ServerState, ServerList, sv_free, sv_justfree, sv_login,
  sv_being_canceled, sv_idle, sv_active, sv_active_cancel, sv_used, sv_tested, idle_server_list,
  used_server_list, tested_server_list, waiting_client_list, server_list, ServerList-discrete,
  is_live,
}
use pgbouncer.Herd.Evict.Candidates.{
  listed, ends, candidates, best, oldest_connection-best, All, All-append, All-count, Oldest,
  best-Oldest,
}

last_in : (xs : List ℕ) (s : ℕ) → last_socket xs ≡ some s → 0 < count s xs
unfolding last_socket
last_in [] s e = cc
last_in (x ∷ []) s e = ground (arith, e)
last_in (x ∷ y ∷ xs) s e = ground (arith, last_in (y ∷ xs) s e)

abbrev is_rest_list : ServerList → Bool
is_rest_list (idle_server_list p) = true
is_rest_list (used_server_list p) = true
is_rest_list (tested_server_list p) = true
is_rest_list _ = false

on_rest_list :
    (state : ServerState) (pool : Option ℕ) (l : ServerList)
    → is_rest_list l ≡ true
    → 0 < here ServerList-discrete (flat (server_list state pool)) l
    → is_rest state ≡ true
unfolding server_list
on_rest_list sv_idle pool l h c = refl
on_rest_list sv_used pool l h c = refl
on_rest_list sv_tested pool l h c = refl
on_rest_list sv_free pool l h c = ground arith
on_rest_list sv_justfree pool l h c = ground arith
on_rest_list sv_login none l h c = ground arith
on_rest_list sv_login (some p) l h c = ground arith
on_rest_list sv_being_canceled none l h c = ground arith
on_rest_list sv_being_canceled (some p) l h c = ground arith
on_rest_list sv_active none l h c = ground arith
on_rest_list sv_active (some p) l h c = ground arith
on_rest_list sv_active_cancel none l h c = ground arith
on_rest_list sv_active_cancel (some p) l h c = ground arith

module _ (w : World) (v : IsSound w) where
  abbrev pub Rests : ℕ → Type 0
  Rests s = is_rest (w.servers s).state ≡ true

  pub listed-Rests :
      (l : ServerList) → is_rest_list l ≡ true → All Rests (listed (last_socket (w.server_lists l)))
  listed-Rests l h = elim (Option-cases (last_socket (w.server_lists l))) [
    | inl e ↦ rw e tt
    | inr (s, e) ↦
        let c = last_in (w.server_lists l) s e in
        let d : 0
            < here ServerList-discrete (flat (server_list (w.servers s).state (w.servers s).pool))
                l =
          omega (arith, c, v.placed.servers_placed s l) in
        rw e (on_rest_list (w.servers s).state (w.servers s).pool l h d, tt)
  ]

  ends-Rests : (p : ℕ) → All Rests (ends w p)
  ends-Rests p =
      All-append Rests (listed (last_socket (w.server_lists (idle_server_list p)))) _
        (listed-Rests (idle_server_list p) refl)
        (if_intro (All Rests) (is_none (w.client_lists (waiting_client_list p))) _ _
          (λ _.
            All-append Rests (listed (last_socket (w.server_lists (used_server_list p)))) _
              (listed-Rests (used_server_list p) refl) (listed-Rests (tested_server_list p) refl))
          λ _. tt)

  pub candidates-Rests : (sel : ℕ → Bool) (ps : List ℕ) → All Rests (candidates w sel ps)
  candidates-Rests sel [] = tt
  candidates-Rests sel (p ∷ ps) =
      All-append Rests (if sel p then ends w p else []) (candidates w sel ps)
        (if_intro (All Rests) (sel p) (ends w p) [] (λ _. ends-Rests p) λ _. tt)
        (candidates-Rests sel ps)

  pub rest_unlinked :
      (client : Client) (server : Server) (state : ClientState) (server_state : ServerState)
      → is_rest server_state ≡ true
      → (is_live server_state ≡ true) × (matches client server state server_state ≡ false)
  rest_unlinked client server state sv_idle h = (refl, ground arith)
  rest_unlinked client server state sv_used h = (refl, ground arith)
  rest_unlinked client server state sv_tested h = (refl, ground arith)
  rest_unlinked client server state server_state h = cc

  pub resting_link : (s : ℕ) → Rests s → (w.servers s).link ≡ none
  resting_link s h = elim (Option-cases (w.servers s).link) [
    | inl e ↦ e
    | inr (c, e) ↦
        let linked : at (w.clients c).link s ≡ true =
          v.linked c s ∙ ap (λ o. at o c) e ∙ ==_refl c in
        absurd (
          cc (
            v.matched c s linked,
            (rest_unlinked (w.clients c) (w.servers s) (w.clients c).state (w.servers s).state h).1,
          ))
  ]

  -- What an eviction among some servers does: nothing if there are none, else it closes the one
  -- that has been unused for longest.
  pub data Evicts (ss : List ℕ) (o : Option (World × Bool)) : Type 0 where
    nothing : ss ≡ [] → o ≡ some (w, false) → Evicts ss o
    evicts :
        (s : ℕ) (w' : World)
        → o ≡ some (w', true)
        → 0 < count s ss
        → Oldest w s ss
        → IsSound w'
        → (w'.servers s).state ≡ sv_justfree
        → Evicts ss o

  evict-Evicts :
      (streams : Streams) (ss : List ℕ) (o : Option ℕ)
      → o ≡ best w none ss
      → All Rests ss
      → Evicts ss (evict streams w o)
  unfolding evict run compare_connections_by_time
  evict-Evicts streams [] o e all =
      subst (λ o. Evicts [] (evict streams w o)) (sym e) (nothing refl refl)
  evict-Evicts streams (x ∷ xs) o e all =
      let (s, e1, c, oldest) = best-Oldest w x xs in
      let rest = All-count Rests s (x ∷ xs) all c in
      let live =
        (rest_unlinked (w.clients 0) (w.servers s) (w.clients 0).state (w.servers s).state
          rest).0 in
      let (w', e2, (v', _, _, _, freed)) =
        disconnect_unlinked w v s (run streams 3) live (resting_link s rest) in
      subst (λ o. Evicts (x ∷ xs) (evict streams w o)) (sym (e ∙ e1))
        (evicts s w' (ap (λ o. o >>= λ w1. some (w1, true)) e2) c oldest v' freed)

-- In a sound world evict_connection of a database does nothing and reports false if none of its
-- pools has a candidate, which is the last server of the idle list and, unless a client waits, the
-- last of the used and of the tested list; otherwise it reports true, closes a candidate whose
-- request_time none of the others undercuts, and leaves a sound world in which that server is just
-- freed.
pub evict_connection-Evicts :
    (streams : Streams) (w : World) (v : IsSound w) (d : ℕ)
    → Evicts w v (candidates w (of_database w d) w.pool_list) (evict_connection streams w d)
unfolding evict_connection
evict_connection-Evicts streams w v d =
    evict-Evicts w v streams (candidates w (of_database w d) w.pool_list) _
      (oldest_connection-best w (of_database w d) none w.pool_list)
      (candidates-Rests w v (of_database w d) w.pool_list)

-- In a sound world evict_user_connection does nothing and reports false if no pool with the very
-- same credentials has a candidate; otherwise it reports true, closes a candidate whose
-- request_time none of the others undercuts, and leaves a sound world in which that server is just
-- freed.
pub evict_user_connection-Evicts :
    (streams : Streams) (w : World) (v : IsSound w) (k : ℕ)
    → Evicts w v (candidates w (of_credentials w k) w.pool_list) (evict_user_connection streams w k)
unfolding evict_user_connection
evict_user_connection-Evicts streams w v k =
    evict-Evicts w v streams (candidates w (of_credentials w k) w.pool_list) _
      (oldest_connection-best w (of_credentials w k) none w.pool_list)
      (candidates-Rests w v (of_credentials w k) w.pool_list)
