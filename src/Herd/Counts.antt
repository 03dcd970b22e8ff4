-- ===== src/Herd/Counts.antt =====
-- pool_server_count of src/objects.c across change_server_state.
use mathlib.Core.Option.{some-injective}
use pgbouncer.Base.{
  ℕ, sym, ◌+◌, ◌≡◌, refl, sym, ap, ◌∙◌, true, subst, Option, none, some, arith, length, ◌==◌,
  if◌then◌else◌, >>=-eq-some,
}
use pgbouncer.Herd.Shelf.{here, length-move, put_on, take_off}
use pgbouncer.Herd.Placement.{left_server_list_lem, flat, server_place, IsPlaced}
use pgbouncer.Herd.{
  left_server_list, ServerState, sv_free, sv_justfree, sv_login, sv_being_canceled, sv_idle,
  sv_active, sv_active_cancel, sv_used, sv_tested, ServerList, new_server_list, used_server_list,
  tested_server_list, being_canceled_server_list, idle_server_list, active_server_list,
  active_cancel_server_list, ServerList-discrete, World, server_list, move_server,
  change_server_state, goes_first, pool_server_count, is_live,
}

-- One server in a state counts once for its own pool, unless it is free.
abbrev pub counted : ServerState → Option ℕ → ℕ → ℕ
counted sv_free pool p = 0
counted sv_justfree pool p = 0
counted _ none p = 0
counted _ (some q) p = if q == p then 1 else 0

abbrev here_sum : Option ServerList → ℕ → ℕ
here_sum o p =
    here ServerList-discrete o (active_server_list p)
    + here ServerList-discrete o (being_canceled_server_list p)
    + here ServerList-discrete o (idle_server_list p)
    + here ServerList-discrete o (tested_server_list p)
    + here ServerList-discrete o (used_server_list p)
    + here ServerList-discrete o (new_server_list p)
    + here ServerList-discrete o (active_cancel_server_list p)

-- The server's list is among the seven exactly when the server counts.
here_sum-counted :
    (state : ServerState) (pool : Option ℕ) (o : Option ServerList) (p : ℕ)
    → server_list state pool ≡ some o
    → here_sum o p ≡ counted state pool p
unfolding server_list
here_sum-counted sv_free pool o p e = ground arith
here_sum-counted sv_justfree pool o p e = ground arith
here_sum-counted sv_login none o p e = ground arith
here_sum-counted sv_login (some q) o p e = ground arith
here_sum-counted sv_being_canceled none o p e = ground arith
here_sum-counted sv_being_canceled (some q) o p e = ground arith
here_sum-counted sv_idle none o p e = ground arith
here_sum-counted sv_idle (some q) o p e = ground arith
here_sum-counted sv_active none o p e = ground arith
here_sum-counted sv_active (some q) o p e = ground arith
here_sum-counted sv_active_cancel none o p e = ground arith
here_sum-counted sv_active_cancel (some q) o p e = ground arith
here_sum-counted sv_used none o p e = ground arith
here_sum-counted sv_used (some q) o p e = ground arith
here_sum-counted sv_tested none o p e = ground arith
here_sum-counted sv_tested (some q) o p e = ground arith

-- A server that is not free counts once for its pool.
pub counted_live :
    (state : ServerState) (q p : ℕ)
    → is_live state ≡ true
    → counted state (some q) p ≡ (if q == p then 1 else 0)
counted_live sv_free q p h = cc
counted_live sv_justfree q p h = cc
counted_live state q p h = refl

-- Where every connection stands on the list of its state exactly once, a change_server_state that
-- succeeds changes pool_server_count of any pool by the share of the new state less that of the
-- old one: one for the server's own pool unless free or just freed.
pub change_server_state-pool_server_count :
    (w : World) (s : ℕ) (newstate : ServerState) (w' : World) (p : ℕ)
    → IsPlaced w
    → change_server_state w s newstate ≡ some w'
    → pool_server_count w' p + counted (w.servers s).state (w.servers s).pool p
      ≡ pool_server_count w p + counted newstate (w.servers s).pool p
unfolding change_server_state move_server
change_server_state-pool_server_count w s newstate w' p v e =
    let server = w.servers s in
    let front = goes_first w server newstate in
    let (old, e0, e2) = >>=-eq-some (left_server_list server.state server.pool) _ e in
    let e1 = sym (left_server_list_lem server.state server.pool) ∙ e0 in
    let (new, e3, e4) = >>=-eq-some (server_list newstate server.pool) _ e2 in
    subst
      (λ x.
        pool_server_count x p + counted server.state server.pool p
        ≡ pool_server_count w p + counted newstate server.pool p)
      (some-injective _ _ e4)
      (let grows : (l : ServerList)
            → length (
                  put_on ServerList-discrete front
                    (take_off ServerList-discrete w.server_lists old s) new s l)
                + here ServerList-discrete old l
              ≡ length (w.server_lists l) + here ServerList-discrete new l =
          λ l.
            length-move ServerList-discrete front (server_place w) w.server_lists s old new l
              (ap flat e1) v.servers_placed in
        omega (
          arith,
          here_sum-counted _ _ old p e1,
          here_sum-counted _ _ new p e3,
          grows (active_server_list p),
          grows (being_canceled_server_list p),
          grows (idle_server_list p),
          grows (tested_server_list p),
          grows (used_server_list p),
          grows (new_server_list p),
          grows (active_cancel_server_list p),
        ))
