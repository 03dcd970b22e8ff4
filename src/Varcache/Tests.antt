-- ===== src/Varcache/Tests.antt =====
-- src/varcache.c: a client with a TimeZone of its own, on a server that reports none.
use pgbouncer.Base.{
  ◌≡◌, ◌↔◌, refl, List, [], ◌∷◌, ◌++◌, Option, none, some, Bytes, zero, suc, str_case_eq, str_eq,
  ltb, if◌then◌else◌, length, text,
}
use pgbouncer.Pktbuf.Tests.{clearing_heap, small_buf, small_buf-IsValid}
use pgbouncer.Varcache.Canonical.{All, set_canonical_agrees, set_canonical-client_unreported}
use pgbouncer.Varcache.Lookup.{IsTable, init_var_lookup-IsTable}
use pgbouncer.Varcache.Apply.{
  apply_vars-set_canonical, apply_vars-nil_iff, Settled, Queried, varcache_apply-Queried,
}
use pgbouncer.Varcache.{
  VarLookup, VarCache, apply_var, quoted_value, opt_eq, apply_vars, canonical_value,
  varcache_set_canonical, varcache_apply, init_var_lookup, variable_is_guc_list_quote,
}

abbrev table : List VarLookup
table =
    record { name = text "TimeZone"; idx = 0 } ∷ record { name = text "search_path"; idx = 1 } ∷ []

abbrev in_utc : VarCache
in_utc zero = some (text "UTC")
in_utc _ = some (text "public")

abbrev empty_cache : VarCache
empty_cache i = none

abbrev only_path : VarCache
only_path (suc zero) = some (text "public")
only_path _ = none

set_canonical_agrees_example :
    let r = varcache_set_canonical table empty_cache only_path in_utc in
    All (λ lk. r.0 lk.idx ≡ r.1 lk.idx) table
set_canonical_agrees_example = set_canonical_agrees table empty_cache only_path in_utc

set_canonical-client_unreported_example :
    (varcache_set_canonical table only_path empty_cache in_utc).1 0 ≡ some (text "UTC")
set_canonical-client_unreported_example =
    set_canonical-client_unreported table only_path empty_cache in_utc 0 refl

init_var_lookup-IsTable_example : IsTable (init_var_lookup (text "timezone" ∷ text "role" ∷ []))
init_var_lookup-IsTable_example = init_var_lookup-IsTable (text "timezone" ∷ text "role" ∷ [])

-- Quotes around the value: of no use for values with quotes of their own.
abbrev plain_quotes : Bytes → Option Bytes
plain_quotes v = some (b'\'' ∷ (v ++ (b'\'' ∷ [])))

-- The same into 128 bytes with the final zero.
abbrev bounded_quotes : Bytes → Option Bytes
bounded_quotes v = if ltb 125 (length v) then none else some (b'\'' ∷ (v ++ (b'\'' ∷ [])))

apply_vars-set_canonical_example :
    let r = varcache_set_canonical table empty_cache only_path in_utc in
    apply_vars plain_quotes table r.0 r.1 ≡ []
apply_vars-set_canonical_example =
    apply_vars-set_canonical plain_quotes table empty_cache only_path in_utc

apply_vars-nil_iff_example :
    (apply_vars bounded_quotes table only_path in_utc ≡ [])
    ↔ All (Settled bounded_quotes only_path in_utc) table
apply_vars-nil_iff_example = apply_vars-nil_iff bounded_quotes table only_path in_utc

abbrev long_value : Bytes
long_value =
    text
      "aaaaaaaaaaaaaaaaaaaaaaaaaaaaaaaaaaaaaaaaaaaaaaaaaaaaaaaaaaaaaaaaaaaaaaaaaaaaaaaaaaaaaaaaaaaaaaaaaaaaaaaaaaaaaaaaaaaaaaaaaaaaaaaaaa"

-- A value that does not fit is not sent, and is recorded as the server's all the same.
unsent_value :
    (apply_var bounded_quotes (text "application_name") (some long_value) none ≡ none)
    × ((canonical_value none none (some long_value)).0 ≡ some long_value)
unfolding apply_var quoted_value canonical_value variable_is_guc_list_quote str_case_eq str_eq
    opt_eq
unsent_value = (refl, refl)

varcache_apply-Queried_example :
    Queried clearing_heap small_buf
      (apply_vars plain_quotes table only_path in_utc)
      (varcache_apply clearing_heap plain_quotes table small_buf only_path in_utc)
varcache_apply-Queried_example =
    varcache_apply-Queried clearing_heap plain_quotes table small_buf only_path in_utc
      small_buf-IsValid
