-- ===== src/Herd/Links/Waking.antt =====
-- activate_client of src/objects.c.
use pgbouncer.Base.{
  ℕ, ◌≡◌, refl, ap, Bool, true, false, not, ◌||◌, Option, none, some, arith, ◌==◌, ◌<◌, List, ◌∷◌,
  inl, inr, Bool-cases,
}
use pgbouncer.Herd.Shelf.{here, count}
use pgbouncer.Herd.Placement.{flat, left_client_list_lem}
use pgbouncer.Herd.Links.Sound.{leave_call-IsSound, IsSound, at, is_cancel, matches}
use pgbouncer.Herd.Links.Keeps.{Keeps, Gives, Gives-bind}
use pgbouncer.Herd.Links.Steps.{move_client-IsSound}
use pgbouncer.Herd.Links.Release.{activate_client}
use pgbouncer.Herd.Links.{Streams, Runner}
use pgbouncer.Herd.{
  leave_call, sbuf_continue, World, Client, Server, ClientState, ServerState, cl_free, cl_justfree,
  cl_login, cl_waiting, cl_waiting_login, cl_active, cl_waiting_cancel, cl_active_cancel, sv_active,
  ClientList, ClientList-discrete, waiting_client_list, client_list, is_waiting, next_client_state,
  moved_client, move_client, change_client_state,
}

pub change_client_state-move :
    (w : World) (c : ℕ) (new : ClientState) (o1 o2 : Option ClientList)
    → client_list (w.clients c).state (w.clients c).pool ≡ some o1
    → client_list (next_client_state (w.clients c).state new) (w.clients c).pool ≡ some o2
    → change_client_state w c new
      ≡ some (move_client w c (next_client_state (w.clients c).state new) o1 o2)
unfolding change_client_state
change_client_state-move w c new o1 o2 e1 e2 =
    rw (left_client_list_lem (w.clients c).state (w.clients c).pool, e1, e2) refl

awake_list :
    (state : ClientState) (pool : Option ℕ) (o : Option ClientList)
    → is_waiting state ≡ true
    → client_list state pool ≡ some o
    → (o' : Option ClientList) × (client_list (next_client_state state cl_active) pool ≡ some o')
unfolding is_waiting client_list next_client_state
awake_list cl_waiting none o h e = cc
awake_list cl_waiting (some p) o h e = (_, refl)
awake_list cl_waiting_login pool o h e = (_, refl)
awake_list cl_free pool o h e = cc
awake_list cl_justfree pool o h e = cc
awake_list cl_login pool o h e = cc
awake_list cl_active pool o h e = cc
awake_list cl_waiting_cancel pool o h e = cc
awake_list cl_active_cancel pool o h e = cc

awake_matches :
    (client : Client) (server : Server) (state : ClientState)
    → is_waiting state ≡ true
    → matches client server (next_client_state state cl_active) sv_active ≡ true
unfolding is_waiting next_client_state
awake_matches client server cl_waiting h = refl
awake_matches client server cl_waiting_login h = refl
awake_matches client server cl_free h = cc
awake_matches client server cl_justfree h = cc
awake_matches client server cl_login h = cc
awake_matches client server cl_active h = cc
awake_matches client server cl_waiting_cancel h = cc
awake_matches client server cl_active_cancel h = cc

waiting_no_cancel :
    (state new : ClientState)
    → is_waiting state ≡ true
    → is_cancel state ≡ true
    → is_cancel new ≡ true
unfolding is_waiting
waiting_no_cancel cl_waiting new h k = cc
waiting_no_cancel cl_waiting_login new h k = cc
waiting_no_cancel state new h k = cc

-- A waiting client that shares its server is not linked yet.
pub sharing_unlinked :
    (client : Client) (server : Server) (state : ClientState) (server_state : ServerState)
    → is_waiting state ≡ true
    → (not client.replication || client.auth_query) ≡ true
    → matches client server state server_state ≡ false
unfolding is_waiting
sharing_unlinked client server cl_waiting server_state h k = ground arith
sharing_unlinked client server cl_waiting_login server_state h k = ground arith
sharing_unlinked client server state server_state h k = cc

-- A client on a list of waiting clients waits.
on_waiting :
    (state : ClientState) (pool : Option ℕ) (p : ℕ)
    → 0 < here ClientList-discrete (flat (client_list state pool)) (waiting_client_list p)
    → is_waiting state ≡ true
unfolding is_waiting client_list
on_waiting cl_waiting pool p h = refl
on_waiting cl_waiting_login pool p h = refl
on_waiting cl_free pool p h = ground arith
on_waiting cl_justfree pool p h = ground arith
on_waiting cl_login pool p h = ground arith
on_waiting cl_active none p h = ground arith
on_waiting cl_active (some q) p h = ground arith
on_waiting cl_waiting_cancel none p h = ground arith
on_waiting cl_waiting_cancel (some q) p h = ground arith
on_waiting cl_active_cancel none p h = ground arith
on_waiting cl_active_cancel (some q) p h = ground arith

pub first_waits :
    (w : World) (p c : ℕ) (cs : List ℕ)
    → IsSound w
    → w.client_lists (waiting_client_list p) ≡ c ∷ cs
    → is_waiting (w.clients c).state ≡ true
first_waits w p c cs v e =
    on_waiting (w.clients c).state (w.clients c).pool p
      (omega (arith, v.placed.clients_placed c (waiting_client_list p), ap (count c) e, first c cs))
  where
    first : (c : ℕ) (cs : List ℕ) → 0 < count c (c ∷ cs)
    first c cs = ground arith

other_client :
    (w : World) (c i : ℕ)
    → is_waiting (w.clients c).state ≡ true
    → is_waiting (w.clients i).state ≡ false
    → (i == c) ≡ false
other_client w c i h k = elim (Bool-cases (i == c)) [
  | inl same ↦
      let e : i ≡ c = ground arith in absurd (cc (ap (λ k. is_waiting (w.clients k).state) e, h, k))
  | inr other ↦ other
]

module _ (streams : Streams) (call : Runner) (about : ℕ → Bool) where
  pub activate_client-Gives :
      (w : World) (c : ℕ)
      → IsSound w
      → is_waiting (w.clients c).state ≡ true
      → ((s : ℕ) → at (w.clients c).link s ≡ true → (w.servers s).state ≡ sv_active)
      → Gives (activate_client streams call w c) (λ w'. IsSound w' × Keeps about w w')
  unfolding activate_client move_client moved_client
  activate_client-Gives w c v waits active =
      let state = (w.clients c).state in
      let new = next_client_state state cl_active in
      let (o1, e1) = v.client_listed c in
      let (o2, e2) = awake_list state (w.clients c).pool o1 waits e1 in
      let w1 = move_client w c new o1 o2 in
      let v1 : IsSound w1 =
        move_client-IsSound w v c new o1 o2 e1 e2
          (λ s h. rw (active s h) (awake_matches (w.clients c) (w.servers s) state waits))
          (λ s h. waiting_no_cancel state new waits (v.canceling c s h).0) in
      Gives-bind _ (change_client_state w c cl_active) _
        (change_client_state-move w c cl_active o1 o2 e1 e2)
        (
          leave_call w1 (sbuf_continue c),
          refl,
          (
            leave_call-IsSound w1 (sbuf_continue c) v1,
            record {
              clients = λ i h. let other = other_client w c i waits h.1 in rw other h;
              requests = λ i h e. let other = other_client w c i waits h.1 in rw other e;
              servers = λ s h d. d;
            },
          ),
        )
