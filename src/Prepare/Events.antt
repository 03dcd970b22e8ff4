-- ===== src/Prepare/Events.antt =====
-- handle_parse_command of src/prepare.c, and any of the four handlers.
use pgbouncer.Base.{
  ℕ, ◌+◌, ◌%◌, ◌^◌, ◌≤◌, ◌<◌, ◌≡◌, refl, sym, ◌∙◌, inl, inr, Bool, false, ◌&&◌, Option, some, arith,
  Bytes, Option-cases, if_intro, subst,
}
use mathlib.Core.Option.{some-injective}
use pgbouncer.Prepare.Ids.{
  Below-weaken, holds-Below, Known-weaken, Known-snoc, Known-incref, find_query-Known, Named-weaken,
  Named-snoc,
}
use pgbouncer.Prepare.Session.{
  Kept, Kept-trans, add_outstanding_request-Unmoved, register_new-Ready, register_new-Kept,
}
use pgbouncer.Prepare.{
  Link, parse, ra_forward, ra_fake, holds, find_query, find_client, send, name_statement,
  get_prepared_statement, add_outstanding_request, parse_on_server, handle_parse_command,
  handle_bind_command, handle_describe_command, handle_close_statement_command,
}
use pgbouncer.Prepare.Handlers.{
  Valid, requested-Valid, Ready-Valid, bind-Valid, describe-Valid, close-Valid,
}

parse_on_server-Valid :
    (max_prepared id : ℕ) (found : Bool) (st : Link)
    → 1 ≤ max_prepared
    → Valid max_prepared st
    → id ≤ st.next_unique_query_id
    → (found ≡ false → holds id st.server_prepared_statements ≡ false)
    → Valid max_prepared (parse_on_server max_prepared id found st)
unfolding parse_on_server send
parse_on_server-Valid max_prepared id found st h v l new =
    if_intro (Valid max_prepared) (found && holds id st.server_prepared_statements) _ _
      (λ _. requested-Valid max_prepared st b'P' ra_fake v)
      λ miss.
        let mid = add_outstanding_request (send st (parse id)) b'P' ra_forward in
        let u = add_outstanding_request-Unmoved (send st (parse id)) b'P' ra_forward in
        let k : Kept st mid = record {
          clients_kept = u.kept.clients_kept;
          next_kept = u.kept.next_kept;
          known_kept = u.kept.known_kept;
        } in
        let absent : holds id st.server_prepared_statements ≡ false = ground (arith, new, miss) in
        Ready-Valid max_prepared id st _ (Kept-trans k (register_new-Kept max_prepared mid id))
          (register_new-Ready max_prepared st.next_unique_query_id id st.to_server mid h
            u.to_server_kept (rw u.server_prepared_statements_kept v.in_step)
            (rw u.server_prepared_statements_kept absent)
            (rw u.server_prepared_statements_kept v.below) l)
          v.known v.named

-- A new id is one ahead of all that are in use.
got-Valid :
    (max_prepared : ℕ) (st : Link) (query : Bytes)
    → st.next_unique_query_id + 1 < 2 ^ 64
    → Valid max_prepared st
    → let g = get_prepared_statement st query in
      Valid max_prepared g.2
      × (g.0 ≤ g.2.next_unique_query_id)
      × (g.1 ≡ false → holds g.0 g.2.server_prepared_statements ≡ false)
      × (g.2.next_unique_query_id ≤ st.next_unique_query_id + 1)
      × (g.2.client_prepared_statements ≡ st.client_prepared_statements)
unfolding get_prepared_statement
got-Valid max_prepared st query wrap v =
    let n = st.next_unique_query_id in
    elim (Option-cases (find_query query st.prepared_statements)) [
      | inr (id, e) ↦
          rw (e, get_prepared_statement)
            (
              v,
              find_query-Known n id query st.prepared_statements v.known e,
              λ f. cc,
              omega arith,
              refl,
            )
      | inl e ↦
          let up : (n + 1) % 2 ^ 64 ≡ n + 1 = omega arith in
          rw (e, get_prepared_statement, up)
            (
              record {
                in_step = v.in_step;
                bounded = v.bounded;
                below = Below-weaken n (n + 1) st.server_prepared_statements (omega arith) v.below;
                known =
                    Known-snoc (n + 1) _ st.prepared_statements
                      (Known-weaken n (n + 1) st.prepared_statements (omega arith) v.known)
                      (omega arith);
                named = Named-weaken n (n + 1) st.client_prepared_statements (omega arith) v.named;
              },
              omega arith,
              λ _. holds-Below n (n + 1) st.server_prepared_statements v.below (omega arith),
              omega arith,
              refl,
            )
    ]

named-Valid :
    (max_prepared id : ℕ) (st : Link) (name : Bytes)
    → Valid max_prepared st
    → id ≤ st.next_unique_query_id
    → Valid max_prepared (name_statement st name id)
unfolding name_statement
named-Valid max_prepared id st name v l = record {
  in_step = v.in_step;
  bounded = v.bounded;
  below = v.below;
  known = Known-incref st.next_unique_query_id id st.prepared_statements v.known;
  named = Named-snoc st.next_unique_query_id (name, id) st.client_prepared_statements v.named l;
}

parse-Valid :
    (max_prepared : ℕ) (st : Link) (name query : Bytes) (st' : Link)
    → 1 ≤ max_prepared
    → st.next_unique_query_id + 1 < 2 ^ 64
    → Valid max_prepared st
    → handle_parse_command max_prepared st name query ≡ some st'
    → Valid max_prepared st'
unfolding handle_parse_command name_statement
parse-Valid max_prepared st name query st' h wrap v e =
    let g = get_prepared_statement st query in
    let (w, l, new, _, _) = got-Valid max_prepared st query wrap v in
    elim (Option-cases (find_client name st.client_prepared_statements)) [
      | inr (id, used) ↦ cc (rw (used, handle_parse_command) at e)
      | inl free ↦
          let e' : handle_parse_command max_prepared st name query
              ≡ some (parse_on_server max_prepared g.0 g.1 (name_statement g.2 name g.0)) =
            rw (free, handle_parse_command) refl in
          subst (Valid max_prepared) (some-injective _ _ (sym e' ∙ e)) (
            parse_on_server-Valid max_prepared g.0 g.1 (name_statement g.2 name g.0) h
              (named-Valid max_prepared g.0 g.2 name w l) l new)
    ]

-- A packet of the client that names a statement.
pub data Event : Type 0 where
  on_parse : Bytes → Bytes → Event
  on_bind on_describe : Bytes → Event
  on_close : Bytes → Bool → Event

unfoldable pub handle : ℕ → Link → Event → Option Link
handle max_prepared st (on_parse name query) = handle_parse_command max_prepared st name query
handle max_prepared st (on_bind name) = handle_bind_command max_prepared st name
handle max_prepared st (on_describe name) = handle_describe_command max_prepared st name
handle max_prepared st (on_close name sbuf_idle) =
    some (handle_close_statement_command st name sbuf_idle)

-- Take a link on which the server has accepted every packet sent to it and has prepared exactly
-- the statements of its cache, with the cache within max_prepared_statements, which is at least
-- one, and no id ahead of the last one given out, which is below the 64-bit limit: any of the
-- handlers of Parse, Bind, Describe and Close packets, unless it disconnects the client, leaves
-- such a link, so that the server is never sent a Parse for a statement that it has or a Bind or
-- Describe for one that it has not.
pub handle-Valid :
    (max_prepared : ℕ) (st : Link) (event : Event) (st' : Link)
    → 1 ≤ max_prepared
    → st.next_unique_query_id + 1 < 2 ^ 64
    → Valid max_prepared st
    → handle max_prepared st event ≡ some st'
    → Valid max_prepared st'
unfolding handle
handle-Valid max_prepared st (on_parse name query) st' h wrap v e =
    parse-Valid max_prepared st name query st' h wrap v e
handle-Valid max_prepared st (on_bind name) st' h wrap v e =
    bind-Valid max_prepared st name st' h v e
handle-Valid max_prepared st (on_describe name) st' h wrap v e =
    describe-Valid max_prepared st name st' h v e
handle-Valid max_prepared st (on_close name sbuf_idle) st' h wrap v e =
    subst (Valid max_prepared) (some-injective _ _ e) (close-Valid max_prepared st name sbuf_idle v)
