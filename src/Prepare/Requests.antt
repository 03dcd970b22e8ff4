-- ===== src/Prepare/Requests.antt =====
-- The queue of outstanding requests of src/objects.c, when a response arrives and when the server
-- reports an error.
use pgbouncer.Base.{
  ℕ, ◌≡◌, refl, sym, ap, ◌∙◌, Bool, true, false, not, ◌&&◌, ◌||◌, List, [], ◌∷◌, ◌++◌, map,
  append_assoc, append-nil, Option, none, some, ltb, leb, ◌==◌, ==_refl, if◌then◌else◌, if_intro,
  length,
}
use pgbouncer.Prepare.{
  Link, OutstandingRequest, ra_skip, holds, delete, decref, is_fake, on_last,
  add_outstanding_request, send, close_evicted, evict,
}

unfoldable pub unregister_prepared_statement : Link → ℕ → Link
unfolding holds delete decref
unregister_prepared_statement st id =
    if holds id st.server_prepared_statements
    then record st {
      server_prepared_statements = delete id st.server_prepared_statements;
      prepared_statements = decref id st.prepared_statements;
    }
    else st

add_prepared_statement : Link → ℕ → Link
add_prepared_statement st id = record st {
  server_prepared_statements = st.server_prepared_statements ++ (id ∷ []);
}

free_request : OutstandingRequest → Link → Link
unfolding decref
free_request r st = elim r.server_ps [
  | none ↦ st
  | some id ↦ record st { prepared_statements = decref id st.prepared_statements }
]

pop_first : List ℕ → Link → List OutstandingRequest → Option (Bool × Link)
unfolding free_request holds is_fake
pop_first types st [] = none
pop_first types st (r ∷ rs) =
    if is_fake r.action || not (holds r.type types)
    then none
    else some (
      elim r.action [ ra_skip ↦ true | _ ↦ false ],
      free_request r (record st { outstanding_requests = rs }),
    )

-- Whether the response is to be skipped, and the state without the request; `none` where the first
-- request is of no such type.
unfoldable pub pop_outstanding_request : Link → List ℕ → Option (Bool × Link)
unfolding pop_first
pop_outstanding_request st types = pop_first types st st.outstanding_requests

-- What an outstanding request has done to the server's cache is taken back.
unfoldable pub undo_request : Link → OutstandingRequest → Link
unfolding unregister_prepared_statement add_prepared_statement
undo_request st r =
    if r.type == b'P' && ltb 0 r.server_ps_query_id
    then unregister_prepared_statement st r.server_ps_query_id
    else elim r.server_ps [
      | none ↦ st
      | some id ↦ if r.type == b'C' then add_prepared_statement st id else st
    ]

unfoldable pub clear_requests : List ℕ → List OutstandingRequest → Link → Link
unfolding undo_request holds
clear_requests types [] st = st
clear_requests types (r ∷ rs) st =
    let st1 = record (undo_request st r) { outstanding_requests = rs } in
    let rest = clear_requests types rs st1 in if holds r.type types then st1 else rest

unfoldable pub clear_outstanding_requests_until : Link → List ℕ → Link
unfolding clear_requests
clear_outstanding_requests_until st types = clear_requests types st.outstanding_requests st

abbrev pub close_request : ℕ → OutstandingRequest
close_request id = record {
  type = b'C';
  action = ra_skip;
  server_ps = some id;
  server_ps_query_id = 0;
}

on_last-append :
    (f : OutstandingRequest → OutstandingRequest) (rs : List OutstandingRequest)
    (r : OutstandingRequest)
    → on_last f (rs ++ (r ∷ [])) ≡ rs ++ (f r ∷ [])
unfolding on_last
on_last-append f [] r = refl
on_last-append f (q ∷ []) r = refl
on_last-append f (q ∷ p ∷ rs) r = ap (◌∷◌ q) (on_last-append f (p ∷ rs) r)

-- What the loop of register_prepared_statement has taken off the front of the cache, with a request
-- to close each.
pub record Evicted (st st' : Link) : Type 0 where
  pub closed : List ℕ
  pub split : st.server_prepared_statements ≡ closed ++ st'.server_prepared_statements
  pub requests : st'.outstanding_requests ≡ st.outstanding_requests ++ map close_request closed

close_evicted-queue :
    (current : ℕ) (rest : List ℕ) (st : Link)
    → st.server_prepared_statements ≡ current ∷ rest
    → ((close_evicted current st).server_prepared_statements ≡ rest)
      × ((close_evicted current st).outstanding_requests
          ≡ st.outstanding_requests ++ (close_request current ∷ []))
unfolding close_evicted send add_outstanding_request is_fake delete
close_evicted-queue current rest st e =
    (rw (e, ==_refl current) refl, on_last-append _ st.outstanding_requests _)

pub evict-Evicted :
    (max_prepared : ℕ) (xs : List ℕ) (st : Link)
    → st.server_prepared_statements ≡ xs
    → Evicted st (evict max_prepared xs st)
unfolding evict
evict-Evicted max_prepared [] st e = record {
  closed = [];
  split = refl;
  requests = sym (append-nil st.outstanding_requests);
}
evict-Evicted max_prepared (x ∷ xs) st e =
    if_intro (Evicted st) (leb (length st.server_prepared_statements) max_prepared) _ _
      (λ _. record {
        closed = [];
        split = refl;
        requests = sym (append-nil st.outstanding_requests);
      })
      λ _.
        let (e1, e2) = close_evicted-queue x xs st e in
        let r = evict-Evicted max_prepared xs (close_evicted x st) e1 in
        record {
          closed = x ∷ r.closed;
          split = e ∙ ap (◌∷◌ x) (sym e1 ∙ r.split);
          requests =
              r.requests
              ∙ (ap (λ q. q ++ map close_request r.closed) e2
                  ∙ append_assoc st.outstanding_requests (close_request x ∷ [])
                      (map close_request r.closed));
        }

pub clear_requests-closed :
    (types closed : List ℕ) (st : Link)
    → holds b'C' types ≡ false
    → (clear_requests types (map close_request closed) st).server_prepared_statements
      ≡ st.server_prepared_statements ++ closed
unfolding clear_requests undo_request add_prepared_statement
clear_requests-closed types [] st h = sym (append-nil st.server_prepared_statements)
clear_requests-closed types (c ∷ cs) st h = rw h (
    clear_requests-closed types cs
      (record st {
        outstanding_requests = map close_request cs;
        server_prepared_statements = st.server_prepared_statements ++ (c ∷ []);
      })
      h
    ∙ append_assoc st.server_prepared_statements (c ∷ []) cs)
