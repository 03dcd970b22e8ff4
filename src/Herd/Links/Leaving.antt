-- ===== src/Herd/Links/Leaving.antt =====
-- disconnect_client of src/objects.c: what it keeps.
use pgbouncer.Base.{
  ℕ, ◌≡◌, refl, ap, Bool, true, false, ◌∙◌, Option, none, some, arith, ◌==◌, ==_refl, inl, inr,
  Bool-cases,
}
use pgbouncer.Herd.Links.Sound.{IsSound, at, matches, is_cancel}
use pgbouncer.Herd.Links.Keeps.{Keeps, Gives, is_kept}
use pgbouncer.Herd.Links.Loose.{Released}
use pgbouncer.Herd.Links.Unlinking.{linked_on, is_used_up}
use pgbouncer.Herd.Links.Release.{unlink_client, is_being_canceled}
use pgbouncer.Herd.Links.{Runner, unlink, drop_cancel, release_server}
use pgbouncer.Herd.{
  World, Client, Server, ClientState, ServerState, cl_login, cl_waiting, cl_waiting_login,
  cl_active, cl_waiting_cancel, cl_active_cancel, sv_free, sv_justfree, sv_being_canceled,
  sv_active, is_live, is_waiting,
}

-- What is needed of the release of a server that a client has used.
abbrev pub Releases : Runner → Type 0
Releases call =
    (w : World) (s p : ℕ)
    → IsSound w
    → is_used_up (w.servers s).state ≡ true
    → (w.servers s).pool ≡ some p
    → Gives (call w (release_server s)) (Released (unlink_client w s) s)

-- The client has let go of everything.
abbrev pub Left : World → ℕ → World → Type 0
Left w c w' =
    IsSound w'
    × Keeps (λ _. false) w w'
    × ((w'.clients c).link ≡ none)
    × ((w'.clients c).canceled_server ≡ none)

pub none-at : (o : Option ℕ) → ((i : ℕ) → at o i ≡ false) → o ≡ none
none-at none h = refl
none-at (some x) h = cc (h x, ==_refl x)

abbrev pub is_user : ClientState → Bool
is_user cl_active = true
is_user cl_login = true
is_user _ = false

pub user_matches :
    (client : Client) (server : Server) (state : ClientState) (server_state : ServerState)
    → is_user state ≡ true
    → matches client server state server_state ≡ true
    → server_state ≡ sv_active
user_matches client server cl_active sv_active h m = refl
user_matches client server cl_login sv_active h m = refl
user_matches client server state server_state h m = cc

-- No request is made by a client in another state.
pub no_request :
    (w : World) (c : ℕ)
    → IsSound w
    → is_cancel (w.clients c).state ≡ false
    → (w.clients c).canceled_server ≡ none
no_request w c v h = none-at (w.clients c).canceled_server λ s.
    elim (Bool-cases (at (w.clients c).canceled_server s)) [
      | inl e ↦ absurd (cc ((v.canceling c s e).0, h))
      | inr e ↦ e
    ]

pub linked_live :
    (client : Client) (server : Server) (state : ClientState) (server_state : ServerState)
    → matches client server state server_state ≡ true
    → is_live server_state ≡ true
linked_live client server state sv_free m = ground arith
linked_live client server state sv_justfree m = ground arith
linked_live client server state server_state m = refl

-- A step over the servers that a client was linked to leaves the others alone.
pub unlinked-Keeps :
    (w : World) (c s : ℕ) (w' : World)
    → (w.servers s).link ≡ some c
    → Keeps (λ i. i == s) (unlink w c s) w'
    → Keeps (λ _. false) w w'
unfolding unlink
unlinked-Keeps w c s w' e k = record {
  clients = λ i h. k.clients i (ground (arith, h));
  requests = λ i h r. k.requests i (ground (arith, h)) (ground (arith, r));
  servers = λ i _ d. elim (Bool-cases (i == s)) [
    | inl same ↦
        let e' : i ≡ s = ground arith in absurd (cc (ap (λ k. (w.servers k).link) e', d.0, e))
    | inr other ↦ k.servers i other (ground (arith, d))
  ];
}

pub user_no_cancel : (state : ClientState) → is_user state ≡ true → is_cancel state ≡ false
user_no_cancel cl_active h = refl
user_no_cancel cl_login h = refl
user_no_cancel state h = cc

pub user_no_wait : (state : ClientState) → is_user state ≡ true → is_waiting state ≡ false
unfolding is_waiting
user_no_wait cl_active h = refl
user_no_wait cl_login h = refl
user_no_wait state h = cc

pub cancel_no_wait : (state : ClientState) → is_cancel state ≡ true → is_waiting state ≡ false
unfolding is_waiting
cancel_no_wait cl_waiting_cancel h = refl
cancel_no_wait cl_active_cancel h = refl
cancel_no_wait state h = cc

pub wait_no_cancel : (state : ClientState) → is_waiting state ≡ true → is_cancel state ≡ false
unfolding is_waiting
wait_no_cancel cl_waiting h = refl
wait_no_cancel cl_waiting_login h = refl
wait_no_cancel state h = cc

pub canceled_used_up :
    (state : ServerState)
    → is_being_canceled state ≡ true
    → (is_used_up state ≡ true) × (is_kept state ≡ false)
unfolding is_being_canceled
canceled_used_up sv_being_canceled h = (refl, refl)
canceled_used_up state h = cc

pub at_link : (o : Option ℕ) (s : ℕ) → o ≡ some s → at o s ≡ true
at_link o s e = ap (λ o. at o s) e ∙ ==_refl s

-- A run about a server that waits for nobody.
pub unkept-Keeps :
    (w w' : World) (s : ℕ)
    → is_kept (w.servers s).state ≡ false
    → Keeps (λ i. i == s) w w'
    → Keeps (λ _. false) w w'
unkept-Keeps w w' s h k = record {
  clients = k.clients;
  requests = k.requests;
  servers = λ i _ d. elim (Bool-cases (i == s)) [
    | inl same ↦
        let e' : i ≡ s = ground arith in
        absurd (cc (ap (λ k. is_kept (w.servers k).state) e', d.1, h))
    | inr other ↦ k.servers i other d
  ];
}

pub drop_cancel-Keeps : (w : World) (s c : ℕ) → Keeps (λ _. false) w (drop_cancel w s c)
unfolding drop_cancel
drop_cancel-Keeps w s c = record {
  clients = λ i u. ground (arith, u);
  requests = λ i u e. ground (arith, e);
  servers = λ i a d. ground (arith, d);
}

module _ (w : World) (v : IsSound w) (c s : ℕ) (linked : (w.clients c).link ≡ some s) where
  pub linked_matches :
      matches (w.clients c) (w.servers s) (w.clients c).state (w.servers s).state ≡ true
  linked_matches = v.matched c s (at_link (w.clients c).link s linked)

  pub linked-is_live : is_live (w.servers s).state ≡ true
  linked-is_live = linked_live (w.clients c) (w.servers s) _ _ linked_matches

  pub unlink_same : unlink_client w s ≡ unlink w c s
  unfolding unlink_client
  unlink_same = rw (linked_on w c s v linked, unlink_client) refl
