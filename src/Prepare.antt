-- ===== src/Prepare.antt =====
-- src/prepare.c, and the outstanding requests of src/objects.c: named prepared statements of clients
-- mapped to statements of the pooler's own on a server. The state is that of one linked client and
-- server with the global statements. A statement is named by its query_id, from which its name on
-- the server is printed. Running out of memory is not modelled.
pub mod Caches
pub mod Ids
pub mod Session
pub mod Handlers
pub mod Events
pub mod Requests
pub mod Rollback
mod Tests
use pgbouncer.Base.{
  ℕ, ◌+◌, ◌-◌, ◌%◌, ◌^◌, Bool, true, false, ◌&&◌, ◌||◌, List, [], ◌∷◌, ◌++◌, Option, none, some,
  Bytes, ltb, leb, ◌==◌, if◌then◌else◌, ◌>>=◌, length, str_eq, sub32,
}

pub record PreparedStatement : Type 0 where
  pub query_id : ℕ
  pub use_count : ℕ
  pub query_and_parameters : Bytes

pub data ResponseAction : Type 0 where
  ra_forward ra_skip ra_fake : ResponseAction

-- `type` is the character of the request; a query_id of 0 is none.
pub record OutstandingRequest : Type 0 where
  pub type : ℕ
  pub action : ResponseAction
  pub server_ps : Option ℕ
  pub server_ps_query_id : ℕ

-- The packets that are sent to the server, with the statement that they name.
pub data Message : Type 0 where
  parse bind describe close : ℕ → Message

-- The hash tables are lists in their order of insertion; `to_client` has the types of the responses
-- that the pooler makes up itself.
pub record Link : Type 0 where
  pub prepared_statements : List PreparedStatement
  pub next_unique_query_id : ℕ
  pub client_prepared_statements : List (Bytes × ℕ)
  pub server_prepared_statements : List ℕ
  pub outstanding_requests : List OutstandingRequest
  pub to_server : List Message
  pub to_client : List ℕ

pub holds : ℕ → List ℕ → Bool
holds id [] = false
holds id (x ∷ xs) = x == id || holds id xs

pub delete : ℕ → List ℕ → List ℕ
delete id [] = []
delete id (x ∷ xs) = if x == id then xs else x ∷ delete id xs

pub incref : ℕ → List PreparedStatement → List PreparedStatement
incref id [] = []
incref id (p ∷ ps) =
    if p.query_id == id
    then record p { use_count = (p.use_count + 1) % 2 ^ 32 } ∷ ps
    else p ∷ incref id ps

-- `--use_count == 0` frees the statement.
pub decref : ℕ → List PreparedStatement → List PreparedStatement
decref id [] = []
decref id (p ∷ ps) =
    if p.query_id == id
    then (if p.use_count == 1 then ps else record p { use_count = sub32 p.use_count 1 } ∷ ps)
    else p ∷ decref id ps

pub find_query : Bytes → List PreparedStatement → Option ℕ
find_query query [] = none
find_query query (p ∷ ps) =
    if str_eq p.query_and_parameters query then some p.query_id else find_query query ps

-- The statement, whether it was found, and the state with it.
pub get_prepared_statement : Link → Bytes → ℕ × Bool × Link
unfolding find_query
get_prepared_statement st query = elim (find_query query st.prepared_statements) [
  | some id ↦ (id, true, st)
  | none ↦
      let id = (st.next_unique_query_id + 1) % 2 ^ 64 in
      (
        id,
        false,
        record st {
          next_unique_query_id = id;
          prepared_statements =
              st.prepared_statements
              ++ (record { query_id = id; use_count = 0; query_and_parameters = query } ∷ []);
        },
      )
]

pub find_client : Bytes → List (Bytes × ℕ) → Option ℕ
find_client name [] = none
find_client name (c ∷ cs) = if str_eq c.0 name then some c.1 else find_client name cs

pub delete_client : Bytes → List (Bytes × ℕ) → List (Bytes × ℕ)
delete_client name [] = []
delete_client name (c ∷ cs) = if str_eq c.0 name then cs else c ∷ delete_client name cs

pub no_requests : List OutstandingRequest → Bool
no_requests [] = true
no_requests (r ∷ rs) = false

pub is_fake : ResponseAction → Bool
is_fake ra_fake = true
is_fake _ = false

pub add_outstanding_request : Link → ℕ → ResponseAction → Link
unfolding is_fake no_requests
add_outstanding_request st type action =
    if is_fake action && no_requests st.outstanding_requests
    then record st { to_client = st.to_client ++ (type ∷ []) }
    else record st {
      outstanding_requests =
          st.outstanding_requests
          ++ (record { type = type; action = action; server_ps = none; server_ps_query_id = 0 }
              ∷ []);
    }

-- statlist_last, changed in place.
pub on_last :
    (OutstandingRequest → OutstandingRequest) → List OutstandingRequest → List OutstandingRequest
on_last f [] = []
on_last f (r ∷ []) = f r ∷ []
on_last f (r ∷ q ∷ rs) = r ∷ on_last f (q ∷ rs)

pub send : Link → Message → Link
send st m = record st { to_server = st.to_server ++ (m ∷ []) }

-- One round of the loop of register_prepared_statement.
pub close_evicted : ℕ → Link → Link
unfolding delete on_last send add_outstanding_request
close_evicted current st =
    let st1 = add_outstanding_request (send st (close current)) b'C' ra_skip in
    record st1 {
      outstanding_requests =
          on_last (λ r. record r { server_ps = some current }) st1.outstanding_requests;
      server_prepared_statements = delete current st1.server_prepared_statements;
    }

pub evict : ℕ → List ℕ → Link → Link
unfolding close_evicted
evict max_prepared [] st = st
evict max_prepared (current ∷ rest) st =
    let next = evict max_prepared rest (close_evicted current st) in
    if leb (length st.server_prepared_statements) max_prepared then st else next

pub register_prepared_statement : ℕ → Link → ℕ → Link
unfolding evict on_last
register_prepared_statement max_prepared st id =
    let st1 = record st {
      outstanding_requests =
          on_last (λ r. record r { server_ps_query_id = id }) st.outstanding_requests;
      server_prepared_statements = st.server_prepared_statements ++ (id ∷ []);
    } in
    evict max_prepared st1.server_prepared_statements st1

-- create_server_prepared_statement and register_prepared_statement.
pub register_new : ℕ → Link → ℕ → Link
unfolding register_prepared_statement incref
register_new max_prepared st id =
    register_prepared_statement max_prepared
      (record st { prepared_statements = incref id st.prepared_statements }) id

pub ensure_statement_is_prepared_on_server : ℕ → Link → ℕ → Link
unfolding register_new holds delete
ensure_statement_is_prepared_on_server max_prepared st id =
    if holds id st.server_prepared_statements
    then (if length st.server_prepared_statements == 1 then st else record st {
      server_prepared_statements = delete id st.server_prepared_statements ++ (id ∷ []);
    })
    else register_new max_prepared (send (add_outstanding_request st b'P' ra_skip) (parse id)) id

-- The rest of handle_parse_command, with the statement registered on the client.
pub parse_on_server : ℕ → ℕ → Bool → Link → Link
unfolding register_new holds
parse_on_server max_prepared id found st =
    if found && holds id st.server_prepared_statements
    then add_outstanding_request st b'P' ra_fake
    else register_new max_prepared (add_outstanding_request (send st (parse id)) b'P' ra_forward) id

-- create_client_prepared_statement, and the statement in the client's hash table.
pub name_statement : Link → Bytes → ℕ → Link
unfolding incref
name_statement st name id = record st {
  prepared_statements = incref id st.prepared_statements;
  client_prepared_statements = st.client_prepared_statements ++ ((name, id) ∷ []);
}

-- `none` where the client is disconnected, here since the name is in use.
pub handle_parse_command : ℕ → Link → Bytes → Bytes → Option Link
unfolding get_prepared_statement parse_on_server find_client name_statement
handle_parse_command max_prepared st name query =
    elim (find_client name st.client_prepared_statements) [
      | some _ ↦ none
      | none ↦
          let (id, found, st1) = get_prepared_statement st query in
          some (parse_on_server max_prepared id found (name_statement st1 name id))
    ]

-- The client is disconnected where it has no statement of the name.
pub handle_bind_command : ℕ → Link → Bytes → Option Link
unfolding find_client
handle_bind_command max_prepared st name = find_client name st.client_prepared_statements >>= λ id.
    some (
      send
        (add_outstanding_request (ensure_statement_is_prepared_on_server max_prepared st id) b'B'
          ra_forward)
        (bind id))

pub handle_describe_command : ℕ → Link → Bytes → Option Link
unfolding find_client
handle_describe_command max_prepared st name =
    find_client name st.client_prepared_statements >>= λ id. some (
      send
        (add_outstanding_request (ensure_statement_is_prepared_on_server max_prepared st id) b'D'
          ra_forward)
        (describe id))

pub close_client : Link → Bytes → Link
unfolding find_client delete_client decref
close_client st name = elim (find_client name st.client_prepared_statements) [
  | none ↦ st
  | some id ↦ record st {
    client_prepared_statements = delete_client name st.client_prepared_statements;
    prepared_statements = decref id st.prepared_statements;
  }
]

-- `sbuf_idle`: the server's stream buffer holds nothing for the client.
pub handle_close_statement_command : Link → Bytes → Bool → Link
unfolding close_client no_requests
handle_close_statement_command st name sbuf_idle =
    let st1 = close_client st name in
    if no_requests st1.outstanding_requests && sbuf_idle
    then record st1 { to_client = st1.to_client ++ (b'C' ∷ []) }
    else add_outstanding_request st1 b'C' ra_fake
