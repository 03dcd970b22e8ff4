-- ===== src/Prepare/Rollback.antt =====
-- clear_outstanding_requests_until of src/objects.c after
-- ensure_statement_is_prepared_on_server of src/prepare.c.
use pgbouncer.Base.{
  ℕ, ◌≤◌, ◌<◌, ◌≡◌, refl, sym, ap, ◌∙◌, Bool, true, false, not, ◌&&◌, ◌||◌, List, [], ◌∷◌, ◌++◌,
  map, none, arith, ltb, ◌==◌, ==_iff, if_intro, subst,
}
use pgbouncer.Prepare.Caches.{Unique, Unique-snoc, holds-delete, holds-append}
use pgbouncer.Prepare.Session.{ensure-Ready}
use pgbouncer.Prepare.Handlers.{Valid, recent-holds}
use pgbouncer.Prepare.Requests.{
  close_request, evict-Evicted, clear_requests, clear_requests-closed,
  clear_outstanding_requests_until, undo_request, unregister_prepared_statement,
}
use pgbouncer.Prepare.{
  Link, OutstandingRequest, parse, ra_skip, holds, delete, incref, decref, is_fake, on_last, send,
  add_outstanding_request, evict, register_prepared_statement, register_new,
  ensure_statement_is_prepared_on_server,
}

holds-both : (i : ℕ) (xs ys : List ℕ) → holds i (xs ++ ys) ≡ holds i xs || holds i ys
unfolding holds
holds-both i [] ys = refl
holds-both i (x ∷ xs) ys = ground (arith, holds-both i xs ys)

Unique-right : (xs ys : List ℕ) → Unique (xs ++ ys) → Unique ys
Unique-right [] ys u = u
Unique-right (x ∷ xs) ys u = Unique-right xs ys u.1

Unique-apart : (i : ℕ) (xs ys : List ℕ) → Unique (xs ++ ys) → holds i ys ≡ true → holds i xs ≡ false
unfolding holds
Unique-apart i [] ys u h = refl
Unique-apart i (x ∷ xs) ys u h =
    ground (arith, Unique-apart i xs ys u.1 h, holds-both x xs ys, u.0, h)

abbrev parse_request : ℕ → OutstandingRequest
parse_request id = record {
  type = b'P';
  action = ra_skip;
  server_ps = none;
  server_ps_query_id = id;
}

cleared :
    (id : ℕ) (types closed : List ℕ) (st : Link)
    → 0 < id
    → holds b'P' types ≡ false
    → holds b'C' types ≡ false
    → holds id st.server_prepared_statements ≡ true
    → (clear_requests types
        (parse_request id ∷ map close_request closed)
        st).server_prepared_statements
      ≡ delete id st.server_prepared_statements ++ closed
unfolding clear_requests undo_request unregister_prepared_statement
cleared id types closed st pos p c here =
    let first : ltb 0 id ≡ true = ground arith in
    rw (p, first, here)
      (clear_requests-closed types closed
        (record st {
          outstanding_requests = map close_request closed;
          server_prepared_statements = delete id st.server_prepared_statements;
          prepared_statements = decref id st.prepared_statements;
        })
        c)

put_back :
    (b closed rest cache : Bool)
    → cache || b ≡ closed || rest
    → (b ≡ true → closed ≡ false)
    → (b ≡ true → cache ≡ false)
    → (rest && not b) || closed ≡ cache
put_back true closed rest cache e h k = ground arith
put_back false true rest cache e h k = ground arith
put_back false false true cache e h k = ground arith
put_back false false false cache e h k = ground arith

-- The statement is taken out again, and those closed for it are put back.
undone :
    (max_prepared : ℕ) (cache : List ℕ) (st : Link) (id : ℕ) (types : List ℕ) (i : ℕ)
    → 0 < id
    → st.server_prepared_statements ≡ cache ++ (id ∷ [])
    → st.outstanding_requests ≡ parse_request id ∷ []
    → Unique cache
    → holds id cache ≡ false
    → holds b'P' types ≡ false
    → holds b'C' types ≡ false
    → let st' = evict max_prepared st.server_prepared_statements st in
      holds id st'.server_prepared_statements ≡ true
      → holds i (clear_outstanding_requests_until st' types).server_prepared_statements
        ≡ holds i cache
unfolding clear_outstanding_requests_until
undone max_prepared cache st id types i pos e queue u new p c here =
    let st' = evict max_prepared st.server_prepared_statements st in
    let rest = st'.server_prepared_statements in
    let ev = evict-Evicted max_prepared st.server_prepared_statements st refl in
    let closed = ev.closed in
    let all : cache ++ (id ∷ []) ≡ closed ++ rest = sym e ∙ ev.split in
    let apart : Unique (closed ++ rest) = subst Unique all (Unique-snoc id cache u new) in
    let requests : st'.outstanding_requests ≡ parse_request id ∷ map close_request closed =
      ev.requests ∙ ap (λ q. q ++ map close_request closed) queue in
    let same : holds i cache || id == i ≡ holds i closed || holds i rest =
      sym (holds-append i id cache) ∙ (ap (holds i) all ∙ holds-both i closed rest) in
    let not_closed : holds id closed ≡ false = Unique-apart id closed rest apart here in
    ap (λ q. holds i (clear_requests types q st').server_prepared_statements) requests
    ∙ (ap (holds i) (cleared id types closed st' pos p c here)
        ∙ (holds-both i (delete id rest) closed
            ∙ (ap (λ b. b || holds i closed)
                  (holds-delete i id rest (Unique-right closed rest apart))
                ∙ put_back (id == i) (holds i closed) (holds i rest) (holds i cache) same
                    (λ b. subst (λ k. holds k closed ≡ false) ((==_iff id i).0 b) not_closed)
                    (λ b. subst (λ k. holds k cache ≡ false) ((==_iff id i).0 b) new))))

-- The link as the loop of register_prepared_statement finds it.
abbrev registering : Link → ℕ → Link
registering st id =
    let asked = send (add_outstanding_request st b'P' ra_skip) (parse id) in
    record asked {
      prepared_statements = incref id asked.prepared_statements;
      outstanding_requests =
          on_last (λ r. record r { server_ps_query_id = id }) asked.outstanding_requests;
      server_prepared_statements = asked.server_prepared_statements ++ (id ∷ []);
    }

-- On a link whose server has accepted every packet and has prepared exactly what its cache holds,
-- within a bound of at least one, with no outstanding request and with no id ahead of the last one
-- given out: where ensure_statement_is_prepared_on_server prepares a statement that the cache does
-- not hold, with an id above zero that was given out, and the server then fails, so that
-- clear_outstanding_requests_until clears the queue up to responses that are neither to Parse nor
-- to Close, the cache holds again exactly the statements that it held before: the new one is taken
-- out and those closed for it are put back.
pub clear-ensure :
    (max_prepared : ℕ) (st : Link) (id : ℕ) (types : List ℕ) (i : ℕ)
    → 1 ≤ max_prepared
    → 0 < id
    → id ≤ st.next_unique_query_id
    → Valid max_prepared st
    → st.outstanding_requests ≡ []
    → holds id st.server_prepared_statements ≡ false
    → holds b'P' types ≡ false
    → holds b'C' types ≡ false
    → let st' = ensure_statement_is_prepared_on_server max_prepared st id in
      holds i (clear_outstanding_requests_until st' types).server_prepared_statements
      ≡ holds i st.server_prepared_statements
unfolding ensure_statement_is_prepared_on_server clear_outstanding_requests_until register_new
    register_prepared_statement add_outstanding_request is_fake send on_last
clear-ensure max_prepared st id types i h pos l v quiet new p c =
    let st' = ensure_statement_is_prepared_on_server max_prepared st id in
    let r =
      ensure-Ready max_prepared st.next_unique_query_id st id h v.in_step v.bounded v.below l in
    let here = recent-holds max_prepared st.next_unique_query_id id st' r in
    if_intro
      (λ s.
        holds id s.server_prepared_statements ≡ true
        → holds i (clear_outstanding_requests_until s types).server_prepared_statements
          ≡ holds i st.server_prepared_statements)
      (holds id st.server_prepared_statements) _ _ (λ old. cc)
      (λ _.
        undone max_prepared st.server_prepared_statements (registering st id) id types i pos refl
          (ap
            (λ q.
              on_last (λ r. record r { server_ps_query_id = id })
                (q
                  ++ (record {
                    type = b'P';
                    action = ra_skip;
                    server_ps = none;
                    server_ps_query_id = 0;
                  }
                      ∷ [])))
            quiet)
          v.in_step.unique new p c)
      here
