-- ===== src/Hba/Tests.antt =====
-- src/hba.c on a few lines.
use pgbouncer.Base.{
  ◌<◌, ◌≤◌, ◌≡◌, ◌⊎◌, refl, ◌||◌, Bool, true, false, List, [], ◌∷◌, ◌++◌, Option, none, some, arith,
  Bytes, length, text, str_eq,
}
use pgbouncer.Hba.Token.{
  tok_string, tok_ident, tok_comma, TokParser, tok_eq, next_token, skip_spaces, token_at,
  read_ident,
}
use pgbouncer.Hba.Token.Laws.{next_token-pos, next_token-quote}
use pgbouncer.Hba.StrSet.{CbTree, StrSet, IsValid, strset_contains, strset_add, strset_contains-add}
use pgbouncer.Hba.Names.{HbaName, no_names, Parsed, names_loop}
use pgbouncer.Hba.Names.Termination.{names_loop_total}
use pgbouncer.Hba.Names.Quoted.{more, at_string, add_names, last_name, names_loop-quoted}
use pgbouncer.Hba.Address.{af_inet, HbaAddress, PgAddr, bad_mask, bad_bytes, address_match}
use pgbouncer.Hba.Address.Masks.{address_match-bad_mask}
use pgbouncer.Hba.Ident.{add_mapping, parse_ident_user}
use pgbouncer.Hba.Rules.{HbaRule, rule_host, rule_hostssl, auth_reject, auth_md5}
use pgbouncer.Hba.Match.{Connection, replication_none, hba_eval}
use pgbouncer.Hba.Match.Sound.{NoneAllows, Allows, hba_eval_lem}

abbrev spaced : TokParser
spaced = record { pos = text "  \"my \"\"db\"\",all\", x"; cur_tok = tok_ident; buf = text "host" }

next_token-quote_example :
    next_token spaced
    ≡ record { pos = text ", x"; cur_tok = tok_string; buf = text "my \"db\",all" }
next_token-quote_example =
    next_token-quote spaced (text "  ") (text "my \"db\",all") (text ", x") refl (refl, (refl, tt))
      (λ e. cc) refl

next_token-pos_example :
    (length (next_token spaced).pos ≤ length spaced.pos)
    × (tok_eq (next_token spaced).cur_tok tok_comma ≡ true
        → length (next_token spaced).pos < length spaced.pos)
next_token-pos_example = next_token-pos spaced refl

-- A set of strings as a list of them, for the tree.
abbrev list_has : List Bytes → Bytes → Bool
list_has [] k = false
list_has (x ∷ xs) k = str_eq x k || list_has xs k

abbrev list_tree : CbTree
list_tree = record {
  Tree = List Bytes;
  create = [];
  insert = λ t k. k ∷ t;
  contains = list_has;
  contains-create = λ k. refl;
  contains-insert = λ t k j. refl;
}

-- Ten strings: the next one goes to the tree.
abbrev full_set : StrSet list_tree
full_set = record {
  count = 10;
  nodes =
      text "a"
      ∷ text "b"
      ∷ text "c"
      ∷ text "d"
      ∷ text "e"
      ∷ text "f"
      ∷ text "g"
      ∷ text "h"
      ∷ text "i"
      ∷ text "j"
      ∷ [];
  cbtree = none;
}

strset_contains-add_example :
    IsValid list_tree (strset_add list_tree full_set (text "k"))
    × (strset_contains list_tree (strset_add list_tree full_set (text "k")) (text "c")
        ≡ str_eq (text "k") (text "c") || strset_contains list_tree full_set (text "c"))
strset_contains-add_example =
    strset_contains-add list_tree full_set (text "k") (text "c") (λ h. absurd (omega arith))

-- No file can be read: every one of them is refused.
abbrev no_files : Bytes → HbaName → Option (Bool × HbaName)
no_files fn h = some (false, h)

abbrev same_dir : Bytes → Bytes
same_dir fn = text "."

names_loop_total_example :
    (r : Parsed) × (names_loop same_dir no_files 40 true [] no_names spaced ≡ some r)
names_loop_total_example =
    names_loop_total same_dir no_files (λ fn h. ((false, h), refl)) 40 true [] no_names spaced
      (omega arith)

names_loop-quoted_example :
    names_loop same_dir no_files 2 true [] no_names
      (at_string (text "all") (more (text "a b" ∷ []) (text " md5")))
    ≡ some (
      true,
      add_names no_names (text "all" ∷ text "a b" ∷ []),
      next_token (at_string (last_name (text "all") (text "a b" ∷ [])) (text " md5")),
    )
unfolding skip_spaces
names_loop-quoted_example =
    names_loop-quoted same_dir no_files 2 (text "a b" ∷ []) true [] no_names (text "all")
      (text " md5") (omega arith) (λ e. cc) (λ e. cc)

-- 10.0.0.1/8
abbrev stray_bit : HbaAddress
stray_bit = record {
  address_all = false;
  family = af_inet;
  addr = 10 ∷ 0 ∷ 0 ∷ 1 ∷ [];
  mask = 255 ∷ 0 ∷ 0 ∷ 0 ∷ [];
}

abbrev peer : PgAddr
peer = record { sa_family = af_inet; bytes = 10 ∷ 0 ∷ 0 ∷ 1 ∷ [] }

address_match-bad_mask_example : address_match stray_bit peer ≡ false
unfolding bad_mask bad_bytes
address_match-bad_mask_example =
    address_match-bad_mask stray_bit peer refl
      (omega arith, (omega arith, (omega arith, (omega arith, tt))))
      (omega arith, (omega arith, (omega arith, (omega arith, tt)))) refl refl

-- `all junk` at the end of a line.
abbrev junk_line : TokParser
junk_line = record { pos = text " junk"; cur_tok = tok_ident; buf = text "all" }

-- The line is accepted, with the mapping that `all` alone makes.
all_swallows_token :
    let r = parse_ident_user [] (text "map") (text "sys") junk_line in
    (r.0 ≡ true)
    × (r.1
        ≡ add_mapping []
            (text "map")
            (record { system_user_name = text "sys"; postgres_user_name = none }))
unfolding next_token token_at skip_spaces read_ident str_eq parse_ident_user
all_swallows_token = (refl, refl)

abbrev tls_only : HbaRule
tls_only = record {
  rule_type = rule_hostssl;
  rule_method = auth_md5;
  address = record stray_bit { address_all = true };
  db_name = record no_names { name_all = true };
  user_name = record no_names { name_set = some (text "bob" ∷ []) };
  identmap = none;
  hba_linenr = 1;
  auth_options = none;
}

abbrev reject_rest : HbaRule
reject_rest = record tls_only {
  rule_type = rule_host;
  rule_method = auth_reject;
  user_name = record no_names { name_all = true };
  hba_linenr = 2;
}

abbrev plain_bob : Connection
plain_bob = record {
  addr = peer;
  is_tls = false;
  replication = replication_none;
  dbname = text "app";
  username = text "bob";
}

hba_eval_lem_example :
    ((hba_eval (tls_only ∷ reject_rest ∷ []) plain_bob ≡ none)
      × NoneAllows (tls_only ∷ reject_rest ∷ []) plain_bob)
    ⊎ ((pre post : List HbaRule) × (r : HbaRule) × (hba_eval (tls_only ∷ reject_rest ∷ []) plain_bob
          ≡ some r)
        × (tls_only ∷ reject_rest ∷ [] ≡ pre ++ (r ∷ post))
        × NoneAllows pre plain_bob
        × Allows r plain_bob)
hba_eval_lem_example = hba_eval_lem (tls_only ∷ reject_rest ∷ []) plain_bob
