-- ===== src/Hba/Rules.antt =====
-- The rules of src/hba.c: parse_line and hba_load_rules.
use pgbouncer.Base.{
  ℕ, ◌+◌, Bool, true, false, List, [], ◌∷◌, Option, none, some, Bytes, ◌==◌, if◌then◌else◌, ◌>>=◌,
  text, str_eq,
}
use pgbouncer.Hba.Token.{
  tok_ident, tok_eol, TokParser, next_token, check_kw, eat_all, expect, tok_eq, parse_from_string,
  init_parser,
}
use pgbouncer.Hba.Names.{HbaName, no_names, parse_names}
use pgbouncer.Hba.Ident.{IdentMap}
use pgbouncer.Hba.Address.{af_unix, HbaAddress, no_address, Libc, parse_addr, parse_nmask}

pub data RuleType : Type 0 where
  rule_local rule_host rule_hostssl rule_hostnossl : RuleType

pub data AuthType : Type 0 where
  auth_trust auth_reject auth_md5 auth_plain auth_peer auth_cert auth_scram_sha_256 auth_ldap :
      AuthType

pub record HbaRule : Type 0 where
  pub rule_type : RuleType
  pub rule_method : AuthType
  pub address : HbaAddress
  pub db_name : HbaName
  pub user_name : HbaName
  pub identmap : Option Bytes
  pub hba_linenr : ℕ
  pub auth_options : Option Bytes

rule_type_of : TokParser → Option RuleType
rule_type_of tp =
    if check_kw tp (text "local")
    then some rule_local
    else if check_kw tp (text "host")
    then some rule_host
    else if check_kw tp (text "hostssl")
    then some rule_hostssl
    else if check_kw tp (text "hostnossl")
    then some rule_hostnossl
    else none

-- The methods whose keyword is eaten; ldap is only looked at.
method_of : TokParser → Option AuthType
method_of tp =
    if check_kw tp (text "trust")
    then some auth_trust
    else if check_kw tp (text "reject")
    then some auth_reject
    else if check_kw tp (text "md5")
    then some auth_md5
    else if check_kw tp (text "password")
    then some auth_plain
    else if check_kw tp (text "peer")
    then some auth_peer
    else if check_kw tp (text "cert")
    then some auth_cert
    else if check_kw tp (text "scram-sha-256")
    then some auth_scram_sha_256
    else none

-- The method with the text of its options and the parser behind it.
parse_method : TokParser → Option (AuthType × Option Bytes × TokParser)
unfolding method_of
parse_method tp = elim (method_of tp) [
  | some m ↦ some (m, none, next_token tp)
  | none ↦ if check_kw tp (text "ldap") then some (auth_ldap, some tp.pos, eat_all tp) else none
]

-- strchr(s, '/') with the slash overwritten: what stands before it, and behind it if it is there.
split_slash : Bytes → Bytes × Option Bytes
split_slash [] = ([], none)
split_slash (c ∷ cs) =
    let (w, rest) = split_slash cs in if c == b'/' then ([], some cs) else (c ∷ w, rest)

-- The text behind "map=".
strip_map : Bytes → Option Bytes
strip_map (m ∷ a ∷ p ∷ e ∷ val) =
    if str_eq (m ∷ a ∷ p ∷ e ∷ []) (text "map=") then some val else none
strip_map _ = none

-- match_map
has_map : List IdentMap → Bytes → Bool
has_map [] name = false
has_map (im ∷ ims) name = if str_eq im.map_name name then true else has_map ims name

-- The name of the rule's ident map, `none` for a line that is refused. Without an ident file there
-- is no map to find.
parse_map_definition : Option (List IdentMap) → TokParser → Option (Option Bytes × TokParser)
unfolding strip_map has_map
parse_map_definition ident tp = elim (expect tp tok_ident) [
  | none ↦ some (none, tp)
  | some str ↦ elim (strip_map str) [
    | none ↦ none
    | some val ↦ elim ident [
      | none ↦ none
      | some maps ↦ if has_map maps val then some (some val, next_token tp) else none
    ]
  ]
]

module _ (c : Libc) where
  -- The address with a mask in the same token, or in the next one.
  parse_masked : TokParser → Bytes → Option (HbaAddress × TokParser)
  unfolding split_slash
  parse_masked tp buf =
      let (addr, nmask) = split_slash buf in
      parse_addr c no_address addr >>= λ a. (elim nmask [
        | some n ↦ parse_nmask c a n >>= λ a'. some (a', next_token tp)
        | none ↦
            let tp1 = next_token tp in
            expect tp1 tok_ident >>= λ mask.
            (c.inet_pton a.family mask >>= λ m. some (record a { mask = m }, next_token tp1))
      ])

  parse_address : RuleType → TokParser → Option (HbaAddress × TokParser)
  unfolding parse_masked
  parse_address rtype tp = elim rtype [
    | rule_local ↦ some (record no_address { family = af_unix }, tp)
    | _ ↦
        if check_kw tp (text "all")
        then some (record no_address { address_all = true }, next_token tp)
        else expect tp tok_ident >>= λ buf. parse_masked tp buf
  ]

  -- The part of a line behind the names: the rule, if it is accepted.
  pub finish_line :
      Option (List IdentMap) → ℕ → RuleType → HbaName → HbaName → TokParser → Option HbaRule
  unfolding parse_address parse_method parse_map_definition
  finish_line ident linenr rtype db user tp = do
    at ← parse_address rtype tp
    m ← parse_method at.1
    im ← parse_map_definition ident m.2
    if tok_eq (im.1).cur_tok tok_eol
        then some (record {
          rule_type = rtype;
          rule_method = m.0;
          address = at.0;
          db_name = db;
          user_name = user;
          identmap = im.0;
          hba_linenr = linenr;
          auth_options = m.1;
        })
        else none

module _ (c : Libc) (dirname : Bytes → Bytes) (files : Bytes → Option (List Bytes))
    (depth : ℕ) where
  -- Both lists of names are parsed as database names, as the source does. The outer `none` is fuel
  -- used up; `some none` is a refused line, `some (some none)` one that holds no rule.
  pub parse_rule :
      Option (List IdentMap) → ℕ → Bytes → RuleType → TokParser → Option (Option HbaRule)
  unfolding finish_line
  parse_rule ident linenr parent rtype tp =
      parse_names dirname files depth true parent no_names tp >>= λ db.
      (if db.0
        then (parse_names dirname files depth true parent no_names db.2 >>= λ user.
            some (if user.0 then finish_line c ident linenr rtype db.1 user.1 user.2 else none))
        else some none)

  pub parse_line : Option (List IdentMap) → ℕ → Bytes → TokParser → Option (Option HbaRule)
  unfolding parse_rule rule_type_of
  parse_line ident linenr parent tp = elim (rule_type_of tp) [
    | some rtype ↦ parse_rule ident linenr parent rtype (next_token tp)
    | none ↦ some none
  ]

  -- hba_load_rules: a line that is refused is skipped. The parser keeps nothing that the next line
  -- reads.
  pub load_rules : Option (List IdentMap) → Bytes → ℕ → List Bytes → Option (List HbaRule)
  unfolding parse_line
  load_rules ident fn linenr [] = some []
  load_rules ident fn linenr (ln ∷ lns) =
      let rest = load_rules ident fn (linenr + 1) lns in
      parse_line ident linenr fn (parse_from_string init_parser ln) >>= λ r. (elim r [
        | none ↦ rest
        | some rule ↦ rest >>= λ rules. some (rule ∷ rules)
      ])
