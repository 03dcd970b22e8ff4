-- ===== src/Herd/Placement.antt =====
-- change_client_state and change_server_state of src/objects.c: which list each connection is on.
use mathlib.Core.Option.{some-injective}
use pgbouncer.Base.{ℕ, ◌≡◌, ap, ◌∙◌, false, Option, none, some, >>=-eq-some, subst, refl, sym}
use pgbouncer.Herd.Shelf.{Placed, move-Placed, map-set_at, set_at-same, here}
use pgbouncer.Herd.{
  left_client_list, left_server_list, cl_free, cl_justfree, cl_login, cl_waiting, cl_waiting_login,
  cl_active, cl_waiting_cancel, cl_active_cancel, sv_free, sv_justfree, sv_login, sv_being_canceled,
  sv_idle, sv_active, sv_active_cancel, sv_used, sv_tested, ClientState, ServerState, ClientList,
  ServerList, ClientList-discrete, ServerList-discrete, World, client_list, server_list,
  next_client_state, moved_client, move_client, move_server, change_client_state, goes_first,
  change_server_state,
}

abbrev pub flat {ℓ} : {A : Type ℓ} → Option (Option A) → Option A
flat none = none
flat (some o) = o

abbrev pub client_place : World → ℕ → Option ClientList
client_place w c = flat (client_list (w.clients c).state (w.clients c).pool)

abbrev pub server_place : World → ℕ → Option ServerList
server_place w s = flat (server_list (w.servers s).state (w.servers s).pool)

pub record IsPlaced (w : World) : Type 0 where
  pub clients_placed : Placed ClientList-discrete (client_place w) w.client_lists
  pub servers_placed : Placed ServerList-discrete (server_place w) w.server_lists

-- A connection leaves the list that it was put on.
pub left_client_list_lem :
    (state : ClientState) (pool : Option ℕ) → left_client_list state pool ≡ client_list state pool
unfolding left_client_list client_list
left_client_list_lem cl_free pool = refl
left_client_list_lem cl_justfree pool = refl
left_client_list_lem cl_login pool = refl
left_client_list_lem cl_waiting pool = refl
left_client_list_lem cl_waiting_login pool = refl
left_client_list_lem cl_active pool = refl
left_client_list_lem cl_waiting_cancel pool = refl
left_client_list_lem cl_active_cancel pool = refl

pub left_server_list_lem :
    (state : ServerState) (pool : Option ℕ) → left_server_list state pool ≡ server_list state pool
unfolding left_server_list server_list
left_server_list_lem sv_free pool = refl
left_server_list_lem sv_justfree pool = refl
left_server_list_lem sv_login pool = refl
left_server_list_lem sv_being_canceled pool = refl
left_server_list_lem sv_idle pool = refl
left_server_list_lem sv_active pool = refl
left_server_list_lem sv_active_cancel pool = refl
left_server_list_lem sv_used pool = refl
left_server_list_lem sv_tested pool = refl

pub move_client-IsPlaced :
    (w : World) (c : ℕ) (state : ClientState) (old new : Option ClientList)
    → IsPlaced w
    → client_list (w.clients c).state (w.clients c).pool ≡ some old
    → client_list state (w.clients c).pool ≡ some new
    → IsPlaced (move_client w c state old new)
unfolding move_client moved_client
move_client-IsPlaced w c state old new v e1 e3 = record {
  clients_placed = λ i l.
      move-Placed ClientList-discrete false (client_place w) w.client_lists c old new (ap flat e1)
        v.clients_placed i l
      ∙ ap (λ o. here ClientList-discrete o l)
          (map-set_at (λ client. flat (client_list client.state client.pool)) w.clients c
            (moved_client w (w.clients c) state) (ap flat e3) i);
  servers_placed = v.servers_placed;
}

-- Where every connection stands on the list of its state exactly once, a change_client_state that
-- succeeds keeps that, and leaves the client in the new state or in the login variant of it.
pub change_client_state-IsPlaced :
    (w : World) (c : ℕ) (newstate : ClientState) (w' : World)
    → IsPlaced w
    → change_client_state w c newstate ≡ some w'
    → IsPlaced w' × ((w'.clients c).state ≡ next_client_state (w.clients c).state newstate)
unfolding change_client_state move_client moved_client
change_client_state-IsPlaced w c newstate w' v e =
    let client = w.clients c in
    let state = next_client_state client.state newstate in
    let (old, e0, e2) = >>=-eq-some (left_client_list client.state client.pool) _ e in
    let e1 = sym (left_client_list_lem client.state client.pool) ∙ e0 in
    let (new, e3, e4) = >>=-eq-some (client_list state client.pool) _ e2 in
    subst (λ x. IsPlaced x × ((x.clients c).state ≡ next_client_state (w.clients c).state newstate))
      (some-injective _ _ e4)
      (
        move_client-IsPlaced w c _ old new v e1 e3,
        ap (λ client. client.state) (set_at-same w.clients c _),
      )

pub move_server-IsPlaced :
    (w : World) (s : ℕ) (state : ServerState) (old new : Option ServerList)
    → IsPlaced w
    → server_list (w.servers s).state (w.servers s).pool ≡ some old
    → server_list state (w.servers s).pool ≡ some new
    → IsPlaced (move_server w s state old new)
unfolding move_server
move_server-IsPlaced w s state old new v e1 e3 = record {
  clients_placed = v.clients_placed;
  servers_placed = λ i l.
      move-Placed ServerList-discrete (goes_first w (w.servers s) state) (server_place w)
        w.server_lists s old new (ap flat e1) v.servers_placed i l
      ∙ ap (λ o. here ServerList-discrete o l)
          (map-set_at (λ server. flat (server_list server.state server.pool)) w.servers s
            (record (w.servers s) { state = state }) (ap flat e3) i);
}

-- Where every connection stands on the list of its state exactly once, a change_server_state that
-- succeeds keeps that, and leaves the server in the new state.
pub change_server_state-IsPlaced :
    (w : World) (s : ℕ) (newstate : ServerState) (w' : World)
    → IsPlaced w
    → change_server_state w s newstate ≡ some w'
    → IsPlaced w' × ((w'.servers s).state ≡ newstate)
unfolding change_server_state move_server
change_server_state-IsPlaced w s newstate w' v e =
    let server = w.servers s in
    let (old, e0, e2) = >>=-eq-some (left_server_list server.state server.pool) _ e in
    let e1 = sym (left_server_list_lem server.state server.pool) ∙ e0 in
    let (new, e3, e4) = >>=-eq-some (server_list newstate server.pool) _ e2 in
    subst (λ x. IsPlaced x × ((x.servers s).state ≡ newstate)) (some-injective _ _ e4)
      (
        move_server-IsPlaced w s newstate old new v e1 e3,
        ap (λ server. server.state) (set_at-same w.servers s _),
      )
