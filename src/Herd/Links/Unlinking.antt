-- ===== src/Herd/Links/Unlinking.antt =====
-- release_server of src/objects.c for a server that a client has used.
use pgbouncer.Base.{
  ℕ, ◌≡◌, refl, ap, sym, Bool, true, false, not, ◌∙◌, Option, none, some, arith, ◌==◌, ==_refl, inl,
  inr, if_intro, ◌>>=◌, Option-cases,
}
use pgbouncer.Herd.Settings.{connection_pool_mode, probably_wrong_pool_pool_mode}
use pgbouncer.Herd.Links.Sound.{IsSound, at, is_ours}
use pgbouncer.Herd.Links.Keeps.{Keeps, Keeps-refl, Answers, Answers-bind}
use pgbouncer.Herd.Links.Cancels.{unlink-IsSound}
use pgbouncer.Herd.Links.Loose.{Closes, Released, IsLoose}
use pgbouncer.Herd.Links.Releasing.{finish_release-Answers}
use pgbouncer.Herd.Links.Release.{
  needs_reset, used_state, is_session, unlink_client, release_used, release_in, release_server_with,
}
use pgbouncer.Herd.Links.{Streams, Runner, unlink}
use pgbouncer.Herd.{World, Server, ServerState, PoolMode, sv_being_canceled, sv_active, is_live}

pub at→eq : (o : Option ℕ) (i : ℕ) → at o i ≡ true → o ≡ some i
at→eq none i h = cc
at→eq (some x) i h = ground arith

-- A server's client is linked to it.
pub linked_back :
    (w : World) (c s : ℕ) → IsSound w → (w.servers s).link ≡ some c → (w.clients c).link ≡ some s
linked_back w c s v e = at→eq (w.clients c).link s (v.linked c s ∙ ap (λ o. at o c) e ∙ ==_refl c)

-- A client's server is linked to it.
pub linked_on :
    (w : World) (c s : ℕ) → IsSound w → (w.clients c).link ≡ some s → (w.servers s).link ≡ some c
linked_on w c s v e =
    at→eq (w.servers s).link c (sym (v.linked c s) ∙ ap (λ o. at o s) e ∙ ==_refl s)

-- Unlinking a server and its client touches no other socket.
pub unlink-Keeps :
    (w : World) (c s : ℕ) (about : ℕ → Bool) → about s ≡ true → Keeps about w (unlink w c s)
unfolding unlink
unlink-Keeps w c s about h = record {
  clients = λ i u. ground (arith, u);
  requests = λ i u e. ground (arith, e);
  servers = λ i a d. ground (arith, d);
}

-- The states of a server that a client has used.
abbrev pub is_used_up : ServerState → Bool
is_used_up sv_active = true
is_used_up sv_being_canceled = true
is_used_up _ = false

pub used_up :
    (state : ServerState)
    → is_used_up state ≡ true
    → (is_ours state ≡ true) × (is_live state ≡ true)
used_up sv_active h = (refl, refl)
used_up sv_being_canceled h = (refl, refl)
used_up state h = cc

used_state-live : (w : World) (b : Bool) → is_live (used_state w b) ≡ true
unfolding used_state
used_state-live w true = refl
used_state-live w false = ground arith

mode_total :
    (w : World) (server : Server) (p u : ℕ)
    → server.pool ≡ some p
    → (w.pools p).user_credentials ≡ some u
    → (m : PoolMode) × (connection_pool_mode w server ≡ some m)
unfolding connection_pool_mode probably_wrong_pool_pool_mode
mode_total w server p u e1 e2 =
    if_intro (λ o. (m : PoolMode) × (o ≡ some m)) server.replication _ _ (λ _. (_, refl))
      λ _. rw e1 (rw (e2, probably_wrong_pool_pool_mode) (_, refl))

needs_reset_total :
    (w : World) (s p u : ℕ)
    → (w.servers s).pool ≡ some p
    → (w.pools p).user_credentials ≡ some u
    → (b : Bool) × (needs_reset w (w.servers s) ≡ some b)
unfolding needs_reset connection_pool_mode probably_wrong_pool_pool_mode
needs_reset_total w s p u e1 e2 =
    let (m, e) = mode_total w (w.servers s) p u e1 e2 in
    let P = λ (o : Option Bool). (b : Bool) × (o ≡ some b) in
    if_intro P (not w.config.has_reset_query) _ _ (λ _. (_, refl))
      λ _.
        if_intro P w.config.reset_query_always _ _ (λ _. (_, refl))
          λ _. (is_session m, ap (λ o. o >>= λ mode. some (is_session mode)) e)

pub unlink_client-IsLoose :
    (w : World) (s p : ℕ)
    → IsSound w
    → is_used_up (w.servers s).state ≡ true
    → (w.servers s).pool ≡ some p
    → IsLoose (unlink_client w s) s p × Keeps (λ i. i == s) w (unlink_client w s)
unfolding unlink_client unlink
unlink_client-IsLoose w s p v h e = elim (Option-cases (w.servers s).link) [
  | inl free ↦
      let same : unlink_client w s ≡ w = rw (free, unlink_client) refl in
      rw same (
        record {
          sound = v;
          live = (used_up _ h).1;
          unlinked = free;
          in_pool = e;
          credentials = v.owned s p (used_up _ h).0 e;
        },
        Keeps-refl (λ i. i == s) w,
      )
  | inr (c, linked) ↦
      let same : unlink_client w s ≡ unlink w c s = rw (linked, unlink_client) refl in
      rw same (
        record {
          sound = unlink-IsSound w c s v (linked_back w c s v linked);
          live = ground (arith, (used_up _ h).1);
          unlinked = ground arith;
          in_pool = ground (arith, e);
          credentials = v.owned s p (used_up _ h).0 e;
        },
        unlink-Keeps w c s (λ i. i == s) (==_refl s),
      )
]

module _ (streams : Streams) (call : Runner) (closes : Closes call) where
  release_used-Answers :
      (w : World) (s p : ℕ)
      → IsSound w
      → is_used_up (w.servers s).state ≡ true
      → (w.servers s).pool ≡ some p
      → Answers (release_used streams call w s p) (Released (unlink_client w s) s)
  unfolding release_used
  release_used-Answers w s p v h e =
      let (l, _) = unlink_client-IsLoose w s p v h e in
      let w1 = unlink_client w s in
      let (u, creds) = l.credentials in
      let (b, e1) = needs_reset_total w1 s p u l.in_pool creds in
      Answers-bind _ (needs_reset w1 (w1.servers s)) _ e1
        (finish_release-Answers streams call closes w1 s p _ l (used_state-live w1 b))

  pub release_server-Answers :
      (w : World) (s p : ℕ)
      → IsSound w
      → is_used_up (w.servers s).state ≡ true
      → (w.servers s).pool ≡ some p
      → Answers (release_server_with streams call w s) (Released (unlink_client w s) s)
  unfolding release_server_with release_in
  release_server-Answers w s p v h e =
      Answers-bind _ (w.servers s).pool _ e
        (by_state (w.servers s).state h (release_used-Answers w s p v h e))
    where
      by_state :
          (state : ServerState)
          → is_used_up state ≡ true
          → Answers (release_used streams call w s p) (Released (unlink_client w s) s)
          → Answers (release_in streams call w s p state) (Released (unlink_client w s) s)
      by_state sv_active h a = a
      by_state sv_being_canceled h a = a
      by_state state h a = cc
