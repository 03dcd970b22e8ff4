-- ===== src/Varcache/Lookup.antt =====
-- init_var_lookup of src/varcache.c: the table of the tracked parameters.
use pgbouncer.Base.{
  ℕ, suc, ◌+◌, ◌≡◌, refl, false, List, [], ◌∷◌, ◌++◌, none, arith, Bytes, inl, inr, Bool-cases,
  Option-cases, str_case_eq, str_eq, length, length-append,
}
use pgbouncer.Varcache.{
  VarLookup, LookupMap, hash_find, add_entry, init_from_config, add_static, static_names,
  init_var_lookup,
}
use pgbouncer.Varcache.Canonical.{All}

-- The entries' indices are k, k + 1, ...
abbrev pub Indexed : ℕ → List VarLookup → Type 0
Indexed k [] = Unit {0}
Indexed k (e ∷ es) = (e.idx ≡ k) × Indexed (suc k) es

-- No two entries have the same name, in whatever case.
abbrev pub Distinct : List VarLookup → Type 0
Distinct [] = Unit {0}
Distinct (e ∷ es) = All (λ f. str_case_eq e.name f.name ≡ false) es × Distinct es

pub record IsTable (m : LookupMap) : Type 0 where
  pub indexed : Indexed 0 m.entries
  pub counted : m.num_vars ≡ length m.entries
  pub distinct : Distinct m.entries

Indexed-snoc :
    (k : ℕ) (es : List VarLookup) (e : VarLookup)
    → Indexed k es
    → e.idx ≡ k + length es
    → Indexed k (es ++ (e ∷ []))
Indexed-snoc k [] e h i = (omega arith, tt)
Indexed-snoc k (x ∷ es) e h i = (h.0, Indexed-snoc (suc k) es e h.1 (omega arith))

All-snoc :
    (P : VarLookup → Type 0) (es : List VarLookup) (e : VarLookup)
    → All P es
    → P e
    → All P (es ++ (e ∷ []))
All-snoc P [] e h p = (p, tt)
All-snoc P (x ∷ es) e h p = (h.0, All-snoc P es e h.1 p)

Distinct-snoc :
    (es : List VarLookup) (e : VarLookup)
    → Distinct es
    → hash_find e.name es ≡ none
    → Distinct (es ++ (e ∷ []))
unfolding hash_find
Distinct-snoc [] e h n = (tt, tt)
Distinct-snoc (x ∷ es) e h n = elim (Bool-cases (str_case_eq x.name e.name)) [
  | inl hit ↦ ground (arith, hit)
  | inr miss ↦ (All-snoc _ es e h.0 miss, Distinct-snoc es e h.1 (rw miss at n))
]

add_entry-IsTable :
    (m : LookupMap) (name : Bytes)
    → IsTable m
    → hash_find name m.entries ≡ none
    → IsTable (add_entry m name)
unfolding add_entry
add_entry-IsTable m name t n =
    let e : VarLookup = record { name = name; idx = m.num_vars } in
    record {
      indexed = Indexed-snoc 0 m.entries e t.indexed (omega (arith, t.counted));
      counted = omega (arith, length-append m.entries (e ∷ []), t.counted);
      distinct = Distinct-snoc m.entries e t.distinct n;
    }

init_from_config-IsTable :
    (ws : List Bytes) (m : LookupMap) → IsTable m → IsTable (init_from_config ws m)
unfolding init_from_config
init_from_config-IsTable [] m t = t
init_from_config-IsTable (w ∷ ws) m t = elim (Option-cases (hash_find w m.entries)) [
  | inl new ↦ rw new (init_from_config-IsTable ws _ (add_entry-IsTable m w t new))
  | inr (e, old) ↦ rw old (init_from_config-IsTable ws m t)
]

static_table : LookupMap
unfolding add_static
static_table = add_static static_names (record { entries = []; num_vars = 0 })

static_table-IsTable : IsTable static_table
unfolding static_table str_case_eq str_eq
static_table-IsTable = record { indexed = omega arith; counted = refl; distinct = ground arith }

-- Whatever words track_extra_parameters holds, init_var_lookup gives a table with one entry for a
-- name, in whatever case, and with the slots from 0 up to num_var_cached in order.
pub init_var_lookup-IsTable : (words : List Bytes) → IsTable (init_var_lookup words)
unfolding init_var_lookup static_table
init_var_lookup-IsTable words = init_from_config-IsTable words static_table static_table-IsTable
