-- ===== src/Herd/Links/Sound.antt =====
-- The invariant of src/objects.c over connections, pools, databases and users.
use pgbouncer.Base.{
  ℕ, ◌+◌, ◌≡◌, ap, ◌∙◌, Bool, true, false, not, ◌&&◌, List, [], ◌∷◌, ◌++◌, Option, none, some,
  arith, ◌==◌, if◌then◌else◌, ℕ_discrete,
}
use pgbouncer.Herd.Shelf.{Placed, count}
use pgbouncer.Herd.Placement.{IsPlaced}
use pgbouncer.Herd.{
  World, Call, leave_call, Client, Server, ClientState, ServerState, ClientList, ServerList,
  cl_login, cl_waiting, cl_waiting_login, cl_active, cl_waiting_cancel, cl_active_cancel, sv_free,
  sv_justfree, sv_login, sv_active, sv_active_cancel, client_list, server_list, pool_server_count,
  is_live,
}

-- Whether an optional number is this one.
abbrev pub at : Option ℕ → ℕ → Bool
at none i = false
at (some x) i = x == i

-- A client that gets a server of its own.
abbrev pub dedicated : Client → Bool
dedicated client = client.replication && not client.auth_query

-- The states in which a client and a server are linked.
abbrev pub matches : Client → Server → ClientState → ServerState → Bool
matches client server cl_login sv_active = true
matches client server cl_active sv_active = true
matches client server cl_waiting sv_active = dedicated client
matches client server cl_waiting_login sv_active = dedicated client
matches client server cl_waiting sv_login = dedicated client && server.replication
matches client server cl_waiting_login sv_login = dedicated client && server.replication
matches client server cl_waiting_cancel sv_login = true
matches client server cl_active_cancel sv_login = true
matches client server cl_active_cancel sv_active_cancel = true
matches client server _ _ = false

abbrev pub is_cancel : ClientState → Bool
is_cancel cl_waiting_cancel = true
is_cancel cl_active_cancel = true
is_cancel _ = false

-- The states of a server that has logged in, to be used by clients.
abbrev pub is_ours : ServerState → Bool
is_ours sv_free = false
is_ours sv_justfree = false
is_ours sv_login = false
is_ours sv_active_cancel = false
is_ours _ = true

-- The sizes of the selected pools, together.
abbrev pub total : (ℕ → Bool) → (ℕ → ℕ) → List ℕ → ℕ
total sel size [] = 0
total sel size (p ∷ ps) = (if sel p then size p else 0) + total sel size ps

abbrev pub all_pools : World → List ℕ
all_pools w = w.pool_list ++ w.peer_pool_list

-- The user whose connections a pool has.
abbrev pub owner : World → ℕ → Option ℕ
owner w p = elim (w.pools p).user_credentials [ none ↦ none | some k ↦ some (w.global_user k) ]

-- Every connection is on the list of its state. Links go both ways, between states that fit. A
-- cancel request and the server that it cancels know each other. A server that has logged in has
-- a pool with credentials. The connection counts are right.
pub record IsSound (w : World) : Type 0 where
  pub placed : IsPlaced w
  pub client_listed :
      (c : ℕ)
      → (o : Option ClientList) × (client_list (w.clients c).state (w.clients c).pool ≡ some o)
  pub server_listed :
      (s : ℕ)
      → (o : Option ServerList) × (server_list (w.servers s).state (w.servers s).pool ≡ some o)
  pub linked : (c s : ℕ) → at (w.clients c).link s ≡ at (w.servers s).link c
  pub matched :
      (c s : ℕ)
      → at (w.clients c).link s ≡ true
      → matches (w.clients c) (w.servers s) (w.clients c).state (w.servers s).state ≡ true
  pub cancels :
      Placed ℕ_discrete (λ c. (w.clients c).canceled_server) (λ s. (w.servers s).canceling_clients)
  pub canceling :
      (c s : ℕ)
      → at (w.clients c).canceled_server s ≡ true
      → (is_cancel (w.clients c).state ≡ true) × (is_live (w.servers s).state ≡ true)
  pub owned :
      (s p : ℕ)
      → is_ours (w.servers s).state ≡ true
      → (w.servers s).pool ≡ some p
      → (u : ℕ) × ((w.pools p).user_credentials ≡ some u)
  pub in_pools :
      (s p : ℕ)
      → is_live (w.servers s).state ≡ true
      → (w.servers s).pool ≡ some p
      → count p (all_pools w) ≡ 1
  pub db_counted :
      (d : ℕ)
      → (w.databases d).connection_count
        ≡ total (λ p. (w.pools p).db == d) (pool_server_count w) (all_pools w)
  pub user_counted :
      (u : ℕ)
      → (w.users u).connection_count
        ≡ total (λ p. at (owner w p) u) (pool_server_count w) (all_pools w)

-- Calls that are left to others do not count.
pub leave_call-IsSound : (w : World) (call : Call) → IsSound w → IsSound (leave_call w call)
leave_call-IsSound w call v = record {
  placed = record {
    clients_placed = v.placed.clients_placed;
    servers_placed = v.placed.servers_placed;
  };
  client_listed = v.client_listed;
  server_listed = v.server_listed;
  linked = v.linked;
  matched = v.matched;
  cancels = v.cancels;
  canceling = v.canceling;
  owned = v.owned;
  in_pools = v.in_pools;
  db_counted = v.db_counted;
  user_counted = v.user_counted;
}

module _ (sel : ℕ → Bool) where
  pub total_eq :
      (f g : ℕ → ℕ) (ps : List ℕ) → ((q : ℕ) → f q ≡ g q) → total sel f ps ≡ total sel g ps
  total_eq f g [] e = omega arith
  total_eq f g (p ∷ ps) e = ground (arith, e p, total_eq f g ps e)

  -- One size is larger by one, in a list that has its pool so many times.
  pub total_one :
      (f g : ℕ → ℕ) (p : ℕ) (ps : List ℕ)
      → ((q : ℕ) → f q + (if p == q then 1 else 0) ≡ g q)
      → total sel f ps + (if sel p then count p ps else 0) ≡ total sel g ps
  total_one f g p [] e = ground arith
  total_one f g p (q ∷ ps) e = ground (arith, e q, total_one f g p ps e)

pub total_sel :
    (sel sel' : ℕ → Bool) (f : ℕ → ℕ) (ps : List ℕ)
    → ((q : ℕ) → sel q ≡ sel' q)
    → total sel f ps ≡ total sel' f ps
total_sel sel sel' f [] e = omega arith
total_sel sel sel' f (p ∷ ps) e = ground (arith, e p, total_sel sel sel' f ps e)

-- No client is linked to a server without a link.
pub unlinked_at :
    (w : World) (s : ℕ)
    → IsSound w
    → (w.servers s).link ≡ none
    → (c : ℕ) → at (w.clients c).link s ≡ false
unlinked_at w s v e c = v.linked c s ∙ ap (λ o. at o c) e
