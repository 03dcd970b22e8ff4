-- ===== src/Herd/Links/Cancels.antt =====
-- Links and cancel requests of src/objects.c taken off: what keeps the invariant.
use pgbouncer.Base.{
  ℕ, ◌≤◌, ◌≡◌, refl, sym, Bool, true, false, ◌∙◌, List, [], ◌∷◌, none, some, arith, if◌then◌else◌,
  ℕ_discrete,
}
use pgbouncer.Herd.Shelf.{map-set_at, set_at_self, here, count, count-remove, remove, Placed}
use pgbouncer.Herd.Links.Sound.{IsSound, at, matches, is_cancel}
use pgbouncer.Herd.Links.{unlink, drop_cancel, drop_cancels, set_server}
use pgbouncer.Herd.{World, Client, Server, ClientState, is_live}

-- New records for some sockets, which stay on their lists.
module _ (w : World) (v : IsSound w) (clients : ℕ → Client) (servers : ℕ → Server)
    (same_client : (i : ℕ)
      → ((clients i).state ≡ (w.clients i).state) × ((clients i).pool ≡ (w.clients i).pool))
    (same_server : (i : ℕ)
      → ((servers i).state ≡ (w.servers i).state) × ((servers i).pool ≡ (w.servers i).pool)) where
  relink-IsSound :
      ((c s : ℕ) → at (clients c).link s ≡ at (servers s).link c)
      → ((c s : ℕ)
          → at (clients c).link s ≡ true
          → matches (clients c) (servers s) (clients c).state (servers s).state ≡ true)
      → Placed ℕ_discrete (λ c. (clients c).canceled_server) (λ s. (servers s).canceling_clients)
      → ((c s : ℕ)
          → at (clients c).canceled_server s ≡ true
          → (is_cancel (clients c).state ≡ true) × (is_live (servers s).state ≡ true))
      → IsSound (record w { clients = clients; servers = servers })
  relink-IsSound links fits cans live = record {
    placed = record {
      clients_placed =
          λ i l. rw ((same_client i).0, (same_client i).1) (v.placed.clients_placed i l);
      servers_placed =
          λ i l. rw ((same_server i).0, (same_server i).1) (v.placed.servers_placed i l);
    };
    client_listed = λ i. rw ((same_client i).0, (same_client i).1) (v.client_listed i);
    server_listed = λ i. rw ((same_server i).0, (same_server i).1) (v.server_listed i);
    linked = links;
    matched = fits;
    cancels = cans;
    canceling = live;
    owned = λ i p. rw ((same_server i).0, (same_server i).1) (v.owned i p);
    in_pools = λ i p. rw ((same_server i).0, (same_server i).1) (v.in_pools i p);
    db_counted = v.db_counted;
    user_counted = v.user_counted;
  }

pub unlink-IsSound :
    (w : World) (c s : ℕ) → IsSound w → (w.clients c).link ≡ some s → IsSound (unlink w c s)
unfolding unlink
unlink-IsSound w c s v e =
    relink-IsSound w v _ _ (λ i. ground arith) (λ i. ground arith)
      (λ i k. ground (arith, v.linked i k, v.linked c k, v.linked i s, e))
      (λ i k. ground (arith, v.matched i k)) (λ i k. ground (arith, v.cancels i k))
      λ i k. ground (arith, v.canceling i k)

pub set_ready-IsSound :
    (w : World) (s : ℕ)
    → IsSound w
    → IsSound (set_server w s (record (w.servers s) { ready = true }))
set_ready-IsSound w s v =
    relink-IsSound w v w.clients _ (λ i. (refl, refl)) (λ i. ground arith)
      (λ i k. ground (arith, v.linked i k)) (λ i k. ground (arith, v.matched i k))
      (λ i k. ground (arith, v.cancels i k)) λ i k. ground (arith, v.canceling i k)

pub drop_cancel-IsSound :
    (w : World) (s c : ℕ)
    → IsSound w
    → (w.clients c).canceled_server ≡ some s
    → IsSound (drop_cancel w s c)
unfolding drop_cancel
drop_cancel-IsSound w s c v e =
    relink-IsSound w v _ _ (λ i. ground arith) (λ i. ground arith)
      (λ i k. ground (arith, v.linked i k)) (λ i k. ground (arith, v.matched i k))
      (λ i k. ground (
        arith,
        v.cancels i k,
        v.cancels c k,
        v.cancels i s,
        e,
        count-remove i c (w.servers s).canceling_clients,
      ))
      λ i k. ground (arith, v.canceling i k)

-- The requests are those of the server, each once.
abbrev pub Cancel : World → ℕ → List ℕ → Type 0
Cancel w s cs = (i : ℕ) → count i cs ≤ here ℕ_discrete (w.clients i).canceled_server s

Cancel-drop :
    (w : World) (s c : ℕ) (cs : List ℕ) → Cancel w s (c ∷ cs) → Cancel (drop_cancel w s c) s cs
unfolding drop_cancel
Cancel-drop w s c cs h i = ground (arith, h i)

canceling-drop :
    (w : World) (s c : ℕ) (cs : List ℕ)
    → (w.servers s).canceling_clients ≡ c ∷ cs
    → ((drop_cancel w s c).servers s).canceling_clients ≡ cs
unfolding drop_cancel remove
canceling-drop w s c cs e = ground (arith, e)

pub canceling-Cancel : (w : World) (s : ℕ) → IsSound w → Cancel w s (w.servers s).canceling_clients
canceling-Cancel w s v i = omega (arith, v.cancels i s)

module _ (drops : ClientState → Bool) where
  all_after :
      (w : World) (s c : ℕ)
      → ((i : ℕ) → at (w.clients i).canceled_server s ≡ true → drops (w.clients i).state ≡ true)
      → (i : ℕ) → at ((drop_cancel w s c).clients i).canceled_server s ≡ true
      → drops ((drop_cancel w s c).clients i).state ≡ true
  unfolding drop_cancel
  all_after w s c all i = ground (arith, all i)

  pub drop_cancels-IsSound :
      (w : World) (s : ℕ) (cs : List ℕ)
      → IsSound w
      → Cancel w s cs
      → IsSound (drop_cancels drops w s cs)
  unfolding drop_cancels
  drop_cancels-IsSound w s [] v h = v
  drop_cancels-IsSound w s (c ∷ cs) v h =
      let e : (w.clients c).canceled_server ≡ some s = ground (arith, h c) in
      let go : (b : Bool) → IsSound (drop_cancels drops (if b then drop_cancel w s c else w) s cs) =
        λ b.
          elim b as (λ b. IsSound (drop_cancels drops (if b then drop_cancel w s c else w) s cs)) [
            | true ↦
                drop_cancels-IsSound (drop_cancel w s c) s cs (drop_cancel-IsSound w s c v e)
                  (Cancel-drop w s c cs h)
            | false ↦ drop_cancels-IsSound w s cs v (λ i. ground (arith, h i))
          ] in
      go (drops (w.clients c).state)

  -- What no dropped request changes, the loop does not change.
  pub drop_cancels-same {ℓ} :
      {X : Type ℓ} (f : World → X)
      → ((w : World) (s c : ℕ) → f (drop_cancel w s c) ≡ f w)
      → (w : World) (s : ℕ) (cs : List ℕ) → f (drop_cancels drops w s cs) ≡ f w
  unfolding drop_cancels
  drop_cancels-same f h w s [] = refl
  drop_cancels-same f h w s (c ∷ cs) =
      let go : (b : Bool) → f (drop_cancels drops (if b then drop_cancel w s c else w) s cs) ≡ f w =
        λ b.
          elim b as (λ b. f (drop_cancels drops (if b then drop_cancel w s c else w) s cs) ≡ f w) [
            | true ↦ drop_cancels-same f h (drop_cancel w s c) s cs ∙ h w s c
            | false ↦ drop_cancels-same f h w s cs
          ] in
      go (drops (w.clients c).state)

  -- No field but those of cancel requests changes.
  pub drop_cancels-server {ℓ} :
      {X : Type ℓ} (g : Server → X)
      → ((server : Server) (cs : List ℕ) → g (record server { canceling_clients = cs }) ≡ g server)
      → (w : World) (s : ℕ) (cs : List ℕ) (i : ℕ)
      → g ((drop_cancels drops w s cs).servers i) ≡ g (w.servers i)
  unfolding drop_cancel
  drop_cancels-server g h w s cs i =
      drop_cancels-same (λ w. g (w.servers i))
        (λ w s c.
          sym (map-set_at g w.servers s _ (h (w.servers s) _) i)
          ∙ set_at_self (λ k. g (w.servers k)) s i)
        w s cs

  pub drop_cancels-client {ℓ} :
      {X : Type ℓ} (g : Client → X)
      → ((client : Client) → g (record client { canceled_server = none }) ≡ g client)
      → (w : World) (s : ℕ) (cs : List ℕ) (i : ℕ)
      → g ((drop_cancels drops w s cs).clients i) ≡ g (w.clients i)
  unfolding drop_cancel
  drop_cancels-client g h w s cs i =
      drop_cancels-same (λ w. g (w.clients i))
        (λ w s c.
          sym (map-set_at g w.clients c _ (h (w.clients c)) i)
          ∙ set_at_self (λ k. g (w.clients k)) c i)
        w s cs

  pub drop_cancels-none :
      (w : World) (s : ℕ) (cs : List ℕ) (i : ℕ)
      → (w.clients i).canceled_server ≡ none
      → ((drop_cancels drops w s cs).clients i).canceled_server ≡ none
  unfolding drop_cancels drop_cancel
  drop_cancels-none w s [] i e = e
  drop_cancels-none w s (c ∷ cs) i e =
      drop_cancels-none (if drops (w.clients c).state then drop_cancel w s c else w) s cs i
        (ground (arith, e))

  -- Where every request for the server is dropped, none is left.
  pub drop_cancels-nil :
      (w : World) (s : ℕ) (cs : List ℕ)
      → Cancel w s cs
      → (w.servers s).canceling_clients ≡ cs
      → ((i : ℕ) → at (w.clients i).canceled_server s ≡ true → drops (w.clients i).state ≡ true)
      → ((drop_cancels drops w s cs).servers s).canceling_clients ≡ []
  unfolding drop_cancels
  drop_cancels-nil w s [] h e all = e
  drop_cancels-nil w s (c ∷ cs) h e all =
      let dropped : drops (w.clients c).state ≡ true = all c (ground (arith, h c)) in
      rw (dropped, drop_cancels)
        (drop_cancels-nil (drop_cancel w s c) s cs (Cancel-drop w s c cs h)
          (canceling-drop w s c cs e) (all_after w s c all))
