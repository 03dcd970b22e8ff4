-- ===== src/Prepare/Session.antt =====
-- register_prepared_statement and ensure_statement_is_prepared_on_server of src/prepare.c against the
-- session of the server.
use pgbouncer.Base.{
  ℕ, ◌≤◌, ◌≡◌, refl, ap, ◌∙◌, true, false, ◌&&◌, List, [], ◌∷◌, ◌++◌, arith, leb, ◌==◌, ==_refl,
  ==_iff, tests, if_intro, length, length-append,
}
use pgbouncer.Prepare.Caches.{length-delete, Synced, Synced-parse, Synced-close, Synced-recent}
use pgbouncer.Prepare.Ids.{Below, Below-snoc, Below-delete, Known, Known-incref}
use pgbouncer.Prepare.{
  Link, Message, parse, close, ResponseAction, ra_skip, holds, delete, is_fake, no_requests,
  add_outstanding_request, send, close_evicted, evict, register_prepared_statement, register_new,
  ensure_statement_is_prepared_on_server,
}

-- The cache of the link and the packets sent on it.
abbrev pub InStep : Link → Type 0
InStep st = Synced st.to_server st.server_prepared_statements

-- The statement is the last to be evicted, and the cache is within its bound. `newest` bounds the
-- ids in it.
pub record Ready (max_prepared newest id : ℕ) (st : Link) : Type 0 where
  pub in_step : InStep st
  pub bounded : length st.server_prepared_statements ≤ max_prepared
  pub below : Below newest st.server_prepared_statements
  pub older : List ℕ
  pub most_recent : st.server_prepared_statements ≡ older ++ (id ∷ [])

-- The client's statements and the ids given out are left alone.
pub record Kept (st st' : Link) : Type 0 where
  pub clients_kept : st'.client_prepared_statements ≡ st.client_prepared_statements
  pub next_kept : st'.next_unique_query_id ≡ st.next_unique_query_id
  pub known_kept : (n : ℕ) → Known n st.prepared_statements → Known n st'.prepared_statements

pub unchanged : {st : Link} → Kept st st
unchanged = record { clients_kept = refl; next_kept = refl; known_kept = λ n k. k }

pub Kept-trans : {st st1 st2 : Link} → Kept st st1 → Kept st1 st2 → Kept st st2
Kept-trans p q = record {
  clients_kept = q.clients_kept ∙ p.clients_kept;
  next_kept = q.next_kept ∙ p.next_kept;
  known_kept = λ n k. q.known_kept n (p.known_kept n k);
}

-- What a request leaves alone.
pub record Unmoved (st st' : Link) : Type 0 where
  pub to_server_kept : st'.to_server ≡ st.to_server
  pub server_prepared_statements_kept :
      st'.server_prepared_statements ≡ st.server_prepared_statements
  pub kept : Kept st st'

pub add_outstanding_request-Unmoved :
    (st : Link) (type : ℕ) (action : ResponseAction)
    → Unmoved st (add_outstanding_request st type action)
unfolding add_outstanding_request
add_outstanding_request-Unmoved st type action =
    if_intro (Unmoved st) (is_fake action && no_requests st.outstanding_requests) _ _
      (λ _. record {
        to_server_kept = refl;
        server_prepared_statements_kept = refl;
        kept = record { clients_kept = refl; next_kept = refl; known_kept = λ n k. k };
      })
      λ _. record {
        to_server_kept = refl;
        server_prepared_statements_kept = refl;
        kept = record { clients_kept = refl; next_kept = refl; known_kept = λ n k. k };
      }

close_evicted-Kept : (current : ℕ) (st : Link) → Kept st (close_evicted current st)
unfolding close_evicted send
close_evicted-Kept current st =
    let k = (add_outstanding_request-Unmoved (send st (close current)) b'C' ra_skip).kept in
    record { clients_kept = k.clients_kept; next_kept = k.next_kept; known_kept = k.known_kept }

evict-Kept : (max_prepared : ℕ) (xs : List ℕ) (st : Link) → Kept st (evict max_prepared xs st)
unfolding evict
evict-Kept max_prepared [] st = record {
  clients_kept = refl;
  next_kept = refl;
  known_kept = λ n k. k;
}
evict-Kept max_prepared (x ∷ xs) st =
    if_intro (Kept st) (leb (length st.server_prepared_statements) max_prepared) _ _
      (λ _. record { clients_kept = refl; next_kept = refl; known_kept = λ n k. k })
      λ _. Kept-trans (close_evicted-Kept x st) (evict-Kept max_prepared xs (close_evicted x st))

pub register_new-Kept :
    (max_prepared : ℕ) (st : Link) (id : ℕ) → Kept st (register_new max_prepared st id)
unfolding register_new register_prepared_statement
register_new-Kept max_prepared st id =
    let k = evict-Kept max_prepared (st.server_prepared_statements ++ (id ∷ [])) _ in
    record {
      clients_kept = k.clients_kept;
      next_kept = k.next_kept;
      known_kept = λ n h. k.known_kept n (Known-incref n id st.prepared_statements h);
    }

close_evicted_lem :
    (current : ℕ) (rest : List ℕ) (st : Link)
    → st.server_prepared_statements ≡ current ∷ rest
    → InStep st
    → ((close_evicted current st).server_prepared_statements ≡ rest)
      × InStep (close_evicted current st)
unfolding close_evicted send delete
close_evicted_lem current rest st e s =
    let u = add_outstanding_request-Unmoved (send st (close current)) b'C' ra_skip in
    (
      rw (u.server_prepared_statements_kept, e, ==_refl current),
      rw (u.to_server_kept, u.server_prepared_statements_kept)
          (Synced-close st.to_server st.server_prepared_statements current s),
    )

evict-Ready :
    (max_prepared newest id : ℕ) (xs : List ℕ) (st : Link)
    → 1 ≤ max_prepared
    → st.server_prepared_statements ≡ xs ++ (id ∷ [])
    → Below newest (xs ++ (id ∷ []))
    → InStep st
    → Ready max_prepared newest id (evict max_prepared (xs ++ (id ∷ [])) st)
unfolding evict
evict-Ready max_prepared newest id [] st h e b s =
    if_intro (Ready max_prepared newest id)
      (leb (length st.server_prepared_statements) max_prepared) _ _
      (λ fits. record {
        in_step = s;
        bounded = omega tests;
        below = rw e b;
        older = [];
        most_recent = e;
      })
      λ full. absurd (omega (tests, ap length e))
evict-Ready max_prepared newest id (x ∷ xs) st h e b s =
    if_intro (Ready max_prepared newest id)
      (leb (length st.server_prepared_statements) max_prepared) _ _
      (λ fits. record {
        in_step = s;
        bounded = omega tests;
        below = rw e b;
        older = x ∷ xs;
        most_recent = e;
      })
      λ full.
        let (e', s') = close_evicted_lem x (xs ++ (id ∷ [])) st e s in
        evict-Ready max_prepared newest id xs (close_evicted x st) h e' b.1 s'

-- A new statement, whose Parse packet has been sent, is registered.
pub register_new-Ready :
    (max_prepared newest id : ℕ) (sent : List Message) (st : Link)
    → 1 ≤ max_prepared
    → st.to_server ≡ sent ++ (parse id ∷ [])
    → Synced sent st.server_prepared_statements
    → holds id st.server_prepared_statements ≡ false
    → Below newest st.server_prepared_statements
    → id ≤ newest
    → Ready max_prepared newest id (register_new max_prepared st id)
unfolding register_new register_prepared_statement
register_new-Ready max_prepared newest id sent st h e s new b l =
    evict-Ready max_prepared newest id st.server_prepared_statements _ h refl
      (Below-snoc newest id st.server_prepared_statements b l)
      (rw e (Synced-parse sent st.server_prepared_statements id s new))

only_one : (id : ℕ) (xs : List ℕ) → holds id xs ≡ true → length xs ≡ 1 → xs ≡ id ∷ []
unfolding holds
only_one id [] h l = cc
only_one id (x ∷ []) h l = ap (λ k. k ∷ []) ((==_iff x id).0 (ground arith))
only_one id (x ∷ y ∷ ys) h l = absurd (omega arith)

-- On a link whose server has accepted every packet and has prepared exactly what its cache holds,
-- with the cache within a bound of at least one, ensure_statement_is_prepared_on_server keeps all
-- of that and leaves the statement the most recent one in the cache, whether it was there or was
-- parsed anew with the oldest ones closed for it; ids in the cache stay below any bound that they
-- and the statement's own id keep.
pub ensure-Ready :
    (max_prepared newest : ℕ) (st : Link) (id : ℕ)
    → 1 ≤ max_prepared
    → InStep st
    → length st.server_prepared_statements ≤ max_prepared
    → Below newest st.server_prepared_statements
    → id ≤ newest
    → Ready max_prepared newest id (ensure_statement_is_prepared_on_server max_prepared st id)
unfolding ensure_statement_is_prepared_on_server send
ensure-Ready max_prepared newest st id h s b w l =
    let cache = st.server_prepared_statements in
    if_intro (Ready max_prepared newest id) (holds id cache) _ _
      (λ old.
        if_intro (Ready max_prepared newest id) (length cache == 1) _ _
          (λ one. record {
            in_step = s;
            bounded = b;
            below = w;
            older = [];
            most_recent = only_one id cache old ((==_iff (length cache) 1).0 one);
          })
          λ _. record {
            in_step = Synced-recent st.to_server cache id s old;
            bounded =
                omega
                  (arith, length-append (delete id cache) (id ∷ []), length-delete id cache old);
            below = Below-snoc newest id (delete id cache) (Below-delete newest id cache w) l;
            older = delete id cache;
            most_recent = refl;
          })
      λ new.
        let u = add_outstanding_request-Unmoved st b'P' ra_skip in
        register_new-Ready max_prepared newest id st.to_server _ h
          (ap (λ ms. ms ++ (parse id ∷ [])) u.to_server_kept)
          (rw u.server_prepared_statements_kept s) (rw u.server_prepared_statements_kept new)
          (rw u.server_prepared_statements_kept w) l

pub ensure-Kept :
    (max_prepared : ℕ) (st : Link) (id : ℕ)
    → Kept st (ensure_statement_is_prepared_on_server max_prepared st id)
unfolding ensure_statement_is_prepared_on_server send
ensure-Kept max_prepared st id =
    let cache = st.server_prepared_statements in
    if_intro (Kept st) (holds id cache) _ _
      (λ _. if_intro (Kept st) (length cache == 1) _ _ (λ _. unchanged) λ _. reordered)
      λ _. Kept-trans requested (register_new-Kept max_prepared _ id)
  where
    reordered : Kept st (record st {
      server_prepared_statements = delete id st.server_prepared_statements ++ (id ∷ []);
    })
    reordered = record { clients_kept = refl; next_kept = refl; known_kept = λ n k. k }

    requested : Kept st (send (add_outstanding_request st b'P' ra_skip) (parse id))
    requested =
        let k = (add_outstanding_request-Unmoved st b'P' ra_skip).kept in
        record { clients_kept = k.clients_kept; next_kept = k.next_kept; known_kept = k.known_kept }
