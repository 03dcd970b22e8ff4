-- ===== src/Herd/Links/Keeps.antt =====
-- What the functions of src/objects.c that call one another leave alone.
use pgbouncer.Base.{ℕ, suc, ◌≤◌, ◌≡◌, ap, ◌∙◌, Bool, true, false, Option, none, some, ◌>>=◌, ◌==◌}
use pgbouncer.Herd.Links.Sound.{IsSound, total, all_pools}
use pgbouncer.Herd.{
  World, pool_server_count, sv_idle, sv_used, sv_tested, ServerState, sv_justfree, sv_login,
  sv_active, sv_active_cancel, is_waiting,
}

-- A client that is neither linked nor waiting for a server.
abbrev pub Unlinked : World → ℕ → Type 0
Unlinked w c = ((w.clients c).link ≡ none) × (is_waiting (w.clients c).state ≡ false)

-- The states in which a server waits for nobody but its own peer.
abbrev pub is_kept : ServerState → Bool
is_kept sv_login = true
is_kept sv_active = true
is_kept sv_active_cancel = true
is_kept _ = false

-- The states in which a server is left when it is released.
abbrev pub is_rest : ServerState → Bool
is_rest sv_idle = true
is_rest sv_used = true
is_rest sv_tested = true
is_rest _ = false

abbrev pub Detached : World → ℕ → Type 0
Detached w s = ((w.servers s).link ≡ none) × (is_kept (w.servers s).state ≡ true)

-- What a run over some sockets leaves alone: clients that have no link and do not wait, with no
-- request of theirs, and servers that have no link, but those that it is about.
pub record Keeps (about : ℕ → Bool) (w w' : World) : Type 0 where
  pub clients : (c : ℕ) → Unlinked w c → Unlinked w' c
  pub requests :
      (c : ℕ)
      → Unlinked w c
      → (w.clients c).canceled_server ≡ none
      → (w'.clients c).canceled_server ≡ none
  pub servers : (s : ℕ) → about s ≡ false → Detached w s → Detached w' s

-- After the end of a server without a link: no client's link has changed, and nobody has a request
-- that had none. The server is freed.
abbrev pub Closed : ℕ → World → World → Type 0
Closed s w w' =
    IsSound w'
    × Keeps (λ i. i == s) w w'
    × ((c : ℕ) → (w'.clients c).link ≡ (w.clients c).link)
    × ((c : ℕ) → (w.clients c).canceled_server ≡ none → (w'.clients c).canceled_server ≡ none)
    × ((w'.servers s).state ≡ sv_justfree)

-- All connections to servers.
abbrev pub connections : World → ℕ
connections w = total (λ p. true) (pool_server_count w) (all_pools w)

-- The limits stay, and no database gets more connections.
pub record Limits (w w' : World) : Type 0 where
  pub pools : w'.pools ≡ w.pools
  pub global_user : w'.global_user ≡ w.global_user
  pub config : w'.config ≡ w.config
  pub same_pools : all_pools w' ≡ all_pools w
  pub db_max : (d : ℕ) → (w'.databases d).max_db_connections ≡ (w.databases d).max_db_connections
  pub user_max : (u : ℕ) → (w'.users u).max_user_connections ≡ (w.users u).max_user_connections
  pub db_used : (d : ℕ) → (w'.databases d).connection_count ≤ (w.databases d).connection_count

pub record Fewer (w w' : World) : Type 0 where
  pub fewer : suc (connections w') ≡ connections w
  pub limits : Limits w w'

-- A step that succeeds, with what holds after it.
abbrev pub Gives : Option World → (World → Type 0) → Type 0
Gives o P = (w : World) × (o ≡ some w) × P w

-- The same for a step with a result.
abbrev pub Answers : Option (World × Bool) → (World → Type 0) → Type 0
Answers o P = (r : World × Bool) × (o ≡ some r) × P r.0

pub Gives-bind :
    (P : World → Type 0) (o : Option World) (f : World → Option World) {w : World}
    → o ≡ some w
    → Gives (f w) P
    → Gives (o >>= f) P
Gives-bind P o f e (w', e', h) = (w', ap (λ o. o >>= f) e ∙ e', h)

pub Answers-bind {ℓ} :
    {A : Type ℓ} (P : World → Type 0) (o : Option A) (f : A → Option (World × Bool)) {a : A}
    → o ≡ some a
    → Answers (f a) P
    → Answers (o >>= f) P
Answers-bind P o f e (r, e', h) = (r, ap (λ o. o >>= f) e ∙ e', h)

pub Keeps-refl : (about : ℕ → Bool) (w : World) → Keeps about w w
Keeps-refl about w = record { clients = λ c h. h; requests = λ c u h. h; servers = λ s a h. h }

pub Keeps-trans :
    (about : ℕ → Bool) {u v w : World} → Keeps about u v → Keeps about v w → Keeps about u w
Keeps-trans about k l = record {
  clients = λ c h. l.clients c (k.clients c h);
  requests = λ c u h. l.requests c (k.clients c u) (k.requests c u h);
  servers = λ s a h. l.servers s a (k.servers s a h);
}
