-- ===== src/Prepare/Handlers.antt =====
-- The handlers of src/prepare.c, in any order.
use pgbouncer.Base.{
  ℕ, ◌≤◌, ◌≡◌, inl, inr, Bool, true, ◌&&◌, [], ◌∷◌, ◌++◌, some, arith, Bytes, Option-cases,
  if_intro, >>=-eq-some, length, subst,
}
use mathlib.Core.Option.{some-injective}
use pgbouncer.Prepare.Caches.{holds-append, Synced, Synced-bind, Synced-describe}
use pgbouncer.Prepare.Ids.{Below, Known, Known-decref, Named, Named-delete, find_client-Named}
use pgbouncer.Prepare.Session.{
  InStep, Ready, Kept, add_outstanding_request-Unmoved, ensure-Ready, ensure-Kept,
}
use pgbouncer.Prepare.{
  Link, Message, bind, describe, ResponseAction, ra_forward, ra_fake, holds, find_client, send,
  no_requests, add_outstanding_request, ensure_statement_is_prepared_on_server, handle_bind_command,
  handle_describe_command, close_client, handle_close_statement_command,
}

-- The server is in step with its cache, the cache keeps its bound, and no id is ahead of the last one
-- given out.
pub record Valid (max_prepared : ℕ) (st : Link) : Type 0 where
  pub in_step : InStep st
  pub bounded : length st.server_prepared_statements ≤ max_prepared
  pub below : Below st.next_unique_query_id st.server_prepared_statements
  pub known : Known st.next_unique_query_id st.prepared_statements
  pub named : Named st.next_unique_query_id st.client_prepared_statements

pub Ready-Valid :
    (max_prepared id : ℕ) (st st' : Link)
    → Kept st st'
    → Ready max_prepared st.next_unique_query_id id st'
    → Known st.next_unique_query_id st.prepared_statements
    → Named st.next_unique_query_id st.client_prepared_statements
    → Valid max_prepared st'
Ready-Valid max_prepared id st st' k r kn na = record {
  in_step = r.in_step;
  bounded = r.bounded;
  below = rw k.next_kept r.below;
  known = rw k.next_kept (k.known_kept st.next_unique_query_id kn);
  named = rw (k.next_kept, k.clients_kept) na;
}

pub requested-Valid :
    (max_prepared : ℕ) (st : Link) (type : ℕ) (action : ResponseAction)
    → Valid max_prepared st
    → Valid max_prepared (add_outstanding_request st type action)
requested-Valid max_prepared st type action v =
    let u = add_outstanding_request-Unmoved st type action in
    let k = u.kept in
    record {
      in_step = rw (u.to_server_kept, u.server_prepared_statements_kept) v.in_step;
      bounded = rw u.server_prepared_statements_kept v.bounded;
      below = rw (k.next_kept, u.server_prepared_statements_kept) v.below;
      known = rw k.next_kept (k.known_kept st.next_unique_query_id v.known);
      named = rw (k.next_kept, k.clients_kept) v.named;
    }

-- A packet that names a statement in the cache.
sent-Valid :
    (max_prepared : ℕ) (st : Link) (m : Message)
    → Synced (st.to_server ++ (m ∷ [])) st.server_prepared_statements
    → Valid max_prepared st
    → Valid max_prepared (send st m)
unfolding send
sent-Valid max_prepared st m s v = record {
  in_step = s;
  bounded = v.bounded;
  below = v.below;
  known = v.known;
  named = v.named;
}

pub recent-holds :
    (max_prepared newest id : ℕ) (st : Link)
    → Ready max_prepared newest id st
    → holds id st.server_prepared_statements ≡ true
recent-holds max_prepared newest id st r =
    rw (r.most_recent) (ground (arith, holds-append id id r.older))

-- What handle_bind_command and handle_describe_command do before they send their packet.
ready_to_send :
    (max_prepared id type : ℕ) (st : Link)
    → 1 ≤ max_prepared
    → Valid max_prepared st
    → id ≤ st.next_unique_query_id
    → let st' =
        add_outstanding_request
          (ensure_statement_is_prepared_on_server max_prepared st id)
          type
          ra_forward in
      Valid max_prepared st' × (holds id st'.server_prepared_statements ≡ true)
ready_to_send max_prepared id type st h v l =
    let mid = ensure_statement_is_prepared_on_server max_prepared st id in
    let r =
      ensure-Ready max_prepared st.next_unique_query_id st id h v.in_step v.bounded v.below l in
    let w = Ready-Valid max_prepared id st mid (ensure-Kept max_prepared st id) r v.known v.named in
    let u = add_outstanding_request-Unmoved mid type ra_forward in
    (
      requested-Valid max_prepared mid type ra_forward w,
      rw u.server_prepared_statements_kept
          (recent-holds max_prepared st.next_unique_query_id id mid r),
    )

pub bind-Valid :
    (max_prepared : ℕ) (st : Link) (name : Bytes) (st' : Link)
    → 1 ≤ max_prepared
    → Valid max_prepared st
    → handle_bind_command max_prepared st name ≡ some st'
    → Valid max_prepared st'
unfolding handle_bind_command
bind-Valid max_prepared st name st' h v e =
    let (id, e1, e2) = >>=-eq-some (find_client name st.client_prepared_statements) _ e in
    let l =
      find_client-Named st.next_unique_query_id id name st.client_prepared_statements v.named e1 in
    let (w, here) = ready_to_send max_prepared id b'B' st h v l in
    subst (Valid max_prepared) (some-injective _ _ e2)
      (sent-Valid max_prepared _ (bind id) (Synced-bind _ _ id w.in_step here) w)

pub describe-Valid :
    (max_prepared : ℕ) (st : Link) (name : Bytes) (st' : Link)
    → 1 ≤ max_prepared
    → Valid max_prepared st
    → handle_describe_command max_prepared st name ≡ some st'
    → Valid max_prepared st'
unfolding handle_describe_command
describe-Valid max_prepared st name st' h v e =
    let (id, e1, e2) = >>=-eq-some (find_client name st.client_prepared_statements) _ e in
    let l =
      find_client-Named st.next_unique_query_id id name st.client_prepared_statements v.named e1 in
    let (w, here) = ready_to_send max_prepared id b'D' st h v l in
    subst (Valid max_prepared) (some-injective _ _ e2)
      (sent-Valid max_prepared _ (describe id) (Synced-describe _ _ id w.in_step here) w)

dropped-Valid :
    (max_prepared : ℕ) (st : Link) (name : Bytes)
    → Valid max_prepared st
    → Valid max_prepared (close_client st name)
unfolding close_client
dropped-Valid max_prepared st name v =
    elim (Option-cases (find_client name st.client_prepared_statements)) [
      | inl e ↦ rw (e, close_client) v
      | inr (id, e) ↦
          rw (e, close_client)
            (record {
              in_step = v.in_step;
              bounded = v.bounded;
              below = v.below;
              known = Known-decref st.next_unique_query_id id st.prepared_statements v.known;
              named =
                  Named-delete st.next_unique_query_id name st.client_prepared_statements v.named;
            })
    ]

pub close-Valid :
    (max_prepared : ℕ) (st : Link) (name : Bytes) (sbuf_idle : Bool)
    → Valid max_prepared st
    → Valid max_prepared (handle_close_statement_command st name sbuf_idle)
unfolding handle_close_statement_command
close-Valid max_prepared st name sbuf_idle v =
    let w = dropped-Valid max_prepared st name v in
    if_intro (Valid max_prepared)
      (no_requests (close_client st name).outstanding_requests && sbuf_idle) _ _
      (λ _. record {
        in_step = w.in_step;
        bounded = w.bounded;
        below = w.below;
        known = w.known;
        named = w.named;
      })
      λ _. requested-Valid max_prepared (close_client st name) b'C' ra_fake w
