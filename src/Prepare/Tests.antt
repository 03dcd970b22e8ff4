-- ===== src/Prepare/Tests.antt =====
-- src/prepare.c: a client with one named statement on a server with room for two.
use pgbouncer.Base.{
  ◌≡◌, refl, [], ◌∷◌, none, some, arith, text, str_eq, true, false, ◌==◌, if◌then◌else◌,
}
use pgbouncer.Prepare.Caches.{Synced, run}
use pgbouncer.Prepare.Session.{Ready, ensure-Ready}
use pgbouncer.Prepare.Handlers.{Valid}
use pgbouncer.Prepare.Events.{on_bind, handle, handle-Valid}
use pgbouncer.Prepare.Requests.{clear_outstanding_requests_until}
use pgbouncer.Prepare.Rollback.{clear-ensure}
use pgbouncer.Prepare.{
  Link, parse, bind, close, ra_skip, ra_forward, holds, find_client,
  ensure_statement_is_prepared_on_server, handle_bind_command,
}

-- Three statements are known, two of them prepared on the server; the client's is not.
abbrev two_prepared : Link
two_prepared = record {
  prepared_statements =
      record { query_id = 1; use_count = 1; query_and_parameters = text "select 1" }
      ∷ record { query_id = 2; use_count = 1; query_and_parameters = text "select 2" }
      ∷ record { query_id = 3; use_count = 1; query_and_parameters = text "select 3" }
      ∷ [];
  next_unique_query_id = 3;
  client_prepared_statements = (text "three", 3) ∷ [];
  server_prepared_statements = 1 ∷ 2 ∷ [];
  outstanding_requests = [];
  to_server = parse 1 ∷ parse 2 ∷ [];
  to_client = [];
}

two_prepared-Synced : Synced two_prepared.to_server two_prepared.server_prepared_statements
unfolding run holds
two_prepared-Synced = record {
  session = λ i. if i == 2 then true else if i == 1 then true else false;
  accepted = refl;
  agrees = λ i. ground arith;
  unique = (refl, (refl, tt));
}

two_prepared-Valid : Valid 2 two_prepared
two_prepared-Valid = record {
  in_step = two_prepared-Synced;
  bounded = omega arith;
  below = (omega arith, (omega arith, tt));
  known = (omega arith, (omega arith, (omega arith, tt)));
  named = (omega arith, tt);
}

-- The state after a Bind: the first statement is closed for the third.
abbrev after_bind : Link
after_bind = record two_prepared {
  prepared_statements =
      record { query_id = 1; use_count = 1; query_and_parameters = text "select 1" }
      ∷ record { query_id = 2; use_count = 1; query_and_parameters = text "select 2" }
      ∷ record { query_id = 3; use_count = 2; query_and_parameters = text "select 3" }
      ∷ [];
  server_prepared_statements = 2 ∷ 3 ∷ [];
  outstanding_requests =
      record { type = b'P'; action = ra_skip; server_ps = none; server_ps_query_id = 3 }
      ∷ record { type = b'C'; action = ra_skip; server_ps = some 1; server_ps_query_id = 0 }
      ∷ record { type = b'B'; action = ra_forward; server_ps = none; server_ps_query_id = 0 }
      ∷ [];
  to_server = parse 1 ∷ parse 2 ∷ parse 3 ∷ close 1 ∷ bind 3 ∷ [];
}

ensure-Ready_example : Ready 2 3 3 (ensure_statement_is_prepared_on_server 2 two_prepared 3)
ensure-Ready_example =
    ensure-Ready 2 3 two_prepared 3 (omega arith) two_prepared-Synced (omega arith)
      (omega arith, (omega arith, tt)) (omega arith)

handle-Valid_example : Valid 2 after_bind
unfolding handle handle_bind_command ensure_statement_is_prepared_on_server find_client str_eq
handle-Valid_example =
    handle-Valid 2 two_prepared (on_bind (text "three")) after_bind (omega arith) (omega arith)
      two_prepared-Valid refl

clear-ensure_example :
    holds 1
      (clear_outstanding_requests_until
        (ensure_statement_is_prepared_on_server 2 two_prepared 3)
        (b'S' ∷ [])).server_prepared_statements
    ≡ holds 1 two_prepared.server_prepared_statements
unfolding holds
clear-ensure_example =
    clear-ensure 2 two_prepared 3 (b'S' ∷ []) 1 (omega arith) (omega arith) (omega arith)
      two_prepared-Valid refl refl refl refl
