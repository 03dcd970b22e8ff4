-- ===== src/Varcache.antt =====
-- src/varcache.c: the server parameters that each side of a connection has, and the queries that
-- bring a server to its client's. A cache is a slot for each index of the lookup table. Values are
-- compared by content: the string pool of libusual keeps one copy of each, so two pointers to
-- values are equal exactly when the values are.
pub mod Canonical
pub mod Lookup
pub mod Apply
mod Tests
use pgbouncer.Base.{
  ℕ, ◌+◌, ◌≡◌, Bool, true, false, ◌&&◌, List, [], ◌∷◌, ◌++◌, map, Option, none, some, Bytes, ltb,
  ◌==◌, if◌then◌else◌, ◌>>=◌, length, text, str_eq, str_case_eq,
}
use pgbouncer.Pktbuf.Memory.{Allocator}
use pgbouncer.Pktbuf.{PktBuf, start_packet, put_bytes, put_char, finish_packet}

-- An entry of lookup_map. uthash keeps entries in the order of insertion.
pub record VarLookup : Type 0 where
  pub name : Bytes
  pub idx : ℕ

-- var_list, by index; `none` is a null pointer.
abbrev pub VarCache : Type 0
VarCache = ℕ → Option Bytes

-- cache->var_list[idx] = value
pub put : VarCache → ℕ → Option Bytes → VarCache
put cache i v j = if j == i then v else cache j

-- HASH_FIND_STR under the case-insensitive comparison of uthash_lowercase.h.
pub hash_find : Bytes → List VarLookup → Option VarLookup
hash_find key [] = none
hash_find key (e ∷ es) = if str_case_eq e.name key then some e else hash_find key es

pub record LookupMap : Type 0 where
  pub entries : List VarLookup
  pub num_vars : ℕ

add_entry : LookupMap → Bytes → LookupMap
add_entry m name = record {
  entries = m.entries ++ (record { name = name; idx = m.num_vars } ∷ []);
  num_vars = m.num_vars + 1;
}

-- init_var_lookup_from_config, on the words that parse_word_list gives.
pub init_from_config : List Bytes → LookupMap → LookupMap
unfolding add_entry
init_from_config [] m = m
init_from_config (w ∷ ws) m =
    init_from_config ws (elim (hash_find w m.entries) [ some _ ↦ m | none ↦ add_entry m w ])

abbrev pub static_names : List Bytes
static_names =
    text "DateStyle"
    ∷ text "client_encoding"
    ∷ text "TimeZone"
    ∷ text "standard_conforming_strings"
    ∷ text "application_name"
    ∷ text "default_transaction_read_only"
    ∷ text "IntervalStyle"
    ∷ text "search_path"
    ∷ text "scram_iterations"
    ∷ text "session_authorization"
    ∷ []

-- The loop over `names`: no search, each name gets the next index.
add_static : List Bytes → LookupMap → LookupMap
unfolding add_entry
add_static [] m = m
add_static (n ∷ ns) m = add_static ns (add_entry m n)

pub init_var_lookup : List Bytes → LookupMap
unfolding init_from_config add_static
init_var_lookup words =
    init_from_config words (add_static static_names (record { entries = []; num_vars = 0 }))

-- The result says whether the key is tracked and now has a value.
pub varcache_set : List VarLookup → VarCache → Bytes → Option Bytes → Bool × VarCache
varcache_set map cache key value = elim (hash_find key map) [
  | none ↦ (false, cache)
  | some lk ↦ elim value [
    | none ↦ (false, put cache lk.idx none)
    | some v ↦ (true, put (put cache lk.idx none) lk.idx (some v))
  ]
]

pub opt_eq : Option Bytes → Option Bytes → Bool
opt_eq none none = true
opt_eq none (some y) = false
opt_eq (some x) none = false
opt_eq (some x) (some y) = str_eq x y

pub variable_is_guc_list_quote : Bytes → Bool
variable_is_guc_list_quote key = str_case_eq (text "search_path") key

-- pg_quote_literal of libusual into the 128 bytes of `qbuf`; `none` where it does not fit.
module _ (quote_literal : Bytes → Option Bytes) where
  -- The text of a value in a SET, `none` if it cannot be written.
  pub quoted_value : Bytes → Bytes → Option Bytes
  quoted_value key cval =
      if variable_is_guc_list_quote key
      then some (if str_eq cval (text "\"\"") then text "''" else cval)
      else quote_literal cval

  -- apply_var: the statement that it adds to the query, if it adds one.
  pub apply_var : Bytes → Option Bytes → Option Bytes → Option Bytes
  apply_var key cval sval = if opt_eq cval sval then none else elim cval [
    | none ↦ some (text "RESET " ++ (key ++ text ";"))
    | some v ↦
        quoted_value key v >>= λ tmp. some (text "SET " ++ (key ++ (text "=" ++ (tmp ++ text ";"))))
  ]

  -- The statements of varcache_apply, in the order of the table.
  pub apply_vars : List VarLookup → VarCache → VarCache → List Bytes
  apply_vars [] server client = []
  apply_vars (lk ∷ lks) server client =
      let rest = apply_vars lks server client in
      elim (apply_var lk.name (client lk.idx) (server lk.idx)) [ none ↦ rest | some s ↦ s ∷ rest ]

module _ (heap : Allocator) where
  put_all : PktBuf → List Bytes → Option PktBuf
  put_all b [] = some b
  put_all b (s ∷ ss) = put_bytes heap b s >>= λ b'. put_all b' ss

  fill_query : List Bytes → PktBuf → Option PktBuf
  fill_query stmts b = do b1 ← put_all b stmts; put_char heap b1 0

  -- The packet of varcache_apply: without changes it is dropped unfinished.
  pub put_query : List Bytes → PktBuf → Option (Bool × PktBuf)
  put_query [] pkt = start_packet heap pkt b'Q' >>= λ b. some (false, b)
  put_query (s ∷ ss) pkt = do
    b1 ← start_packet heap pkt b'Q'
    b2 ← fill_query (s ∷ ss) b1
    some (true, finish_packet b2)

-- varcache_apply up to the send: whether there are changes, and the packet with the query.
module _ (heap : Allocator) (quote_literal : Bytes → Option Bytes) where
  pub varcache_apply : List VarLookup → PktBuf → VarCache → VarCache → Option (Bool × PktBuf)
  unfolding put_query
  varcache_apply map pkt server client =
      put_query heap (apply_vars quote_literal map server client) pkt

-- One round of varcache_set_canonical: the pool's, the server's and the client's value, to the
-- server's and the client's new one.
pub canonical_value : Option Bytes → Option Bytes → Option Bytes → Option Bytes × Option Bytes
canonical_value none server_val client_val =
    if opt_eq client_val server_val then (server_val, client_val) else (client_val, client_val)
canonical_value (some o) (some s) (some c) =
    if str_eq c s then (some s, some c) else (some s, some s)
canonical_value (some o) none (some c) = (some c, some c)
canonical_value (some o) (some s) none = (none, none)
canonical_value (some o) none none = (none, none)

pub varcache_set_canonical : List VarLookup → VarCache → VarCache → VarCache → VarCache × VarCache
varcache_set_canonical [] orig server client = (server, client)
varcache_set_canonical (lk ∷ lks) orig server client =
    let (s, c) = canonical_value (orig lk.idx) (server lk.idx) (client lk.idx) in
    varcache_set_canonical lks orig (put server lk.idx s) (put client lk.idx c)

pub varcache_fill_unset : List VarLookup → VarCache → VarCache → VarCache
varcache_fill_unset [] src dst = dst
varcache_fill_unset (lk ∷ lks) src dst =
    varcache_fill_unset lks src
      (elim (dst lk.idx) [ none ↦ put dst lk.idx (src lk.idx) | some _ ↦ dst ])

-- The slots below num_var_cached are emptied.
pub varcache_clean : ℕ → VarCache → VarCache
varcache_clean num_var_cached cache j = if ltb j num_var_cached then none else cache j

-- varcache_apply_startup and varcache_add_params: the names and values that are set, in order.
pub set_params : List VarLookup → VarCache → List (Bytes × Bytes)
set_params [] vars = []
set_params (lk ∷ lks) vars =
    let rest = set_params lks vars in
    elim (vars lk.idx) [ none ↦ rest | some val ↦ (lk.name, val) ∷ rest ]
