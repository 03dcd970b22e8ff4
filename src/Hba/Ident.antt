-- ===== src/Hba/Ident.antt =====
-- The ident map of src/hba.c: parse_ident_line and the maps that it fills.
use pgbouncer.Base.{
  Bool, true, false, List, [], ◌∷◌, ◌++◌, Option, none, some, Bytes, if◌then◌else◌, text, str_eq,
}
use pgbouncer.Hba.Token.{
  tok_string, tok_ident, tok_eol, TokParser, next_token, check_kw, tok_eq, expect,
  parse_from_string, init_parser,
}

-- `postgres_user_name` is `none` where the flag NAME_ALL is set.
pub record Mapping : Type 0 where
  pub system_user_name : Bytes
  pub postgres_user_name : Option Bytes

pub record IdentMap : Type 0 where
  pub map_name : Bytes
  pub mappings : List Mapping

-- find_ident_map, and the mapping at the end of the map that it finds, or of a new one.
unfoldable pub add_mapping : List IdentMap → Bytes → Mapping → List IdentMap
add_mapping [] name m = record { map_name = name; mappings = m ∷ [] } ∷ []
add_mapping (im ∷ ims) name m =
    if str_eq im.map_name name
    then record im { mappings = im.mappings ++ (m ∷ []) } ∷ ims
    else im ∷ add_mapping ims name m

-- A name, either kind of token.
abbrev pub expect_name : TokParser → Option Bytes
expect_name tp = elim (expect tp tok_ident) [ some s ↦ some s | none ↦ expect tp tok_string ]

-- parse_ident_name: `some none` for the keyword all, whose token is then behind the parser.
unfoldable pub parse_ident_name : TokParser → Option (Option Bytes × TokParser)
parse_ident_name tp =
    if check_kw tp (text "all")
    then some (none, next_token tp)
    else elim (expect_name tp) [ some s ↦ some (some s, tp) | none ↦ none ]

-- From the token behind the system user on.
unfoldable pub parse_ident_user :
    List IdentMap → Bytes → Bytes → TokParser → Bool × List IdentMap × TokParser
unfolding parse_ident_name
parse_ident_user maps name system tp = elim (parse_ident_name tp) [
  | none ↦ (false, maps, tp)
  | some (user, tp1) ↦
      let tp2 = next_token tp1 in
      if tok_eq tp2.cur_tok tok_eol
      then (
        true,
        add_mapping maps name (record { system_user_name = system; postgres_user_name = user }),
        next_token tp2,
      )
      else (false, maps, tp2)
]

-- Whether the line was accepted, the maps and the parser. A refused line leaves the maps alone.
unfoldable pub parse_ident_line : List IdentMap → TokParser → Bool × List IdentMap × TokParser
unfolding parse_ident_user
parse_ident_line maps tp =
    if tok_eq tp.cur_tok tok_eol then (true, maps, next_token tp) else elim (expect tp tok_ident) [
      | none ↦ (false, maps, tp)
      | some name ↦ elim (expect_name (next_token tp)) [
        | none ↦ (false, maps, next_token tp)
        | some system ↦ parse_ident_user maps name system (next_token (next_token tp))
      ]
    ]

-- ident_load_map on the lines of its file: a line that is refused is skipped.
unfoldable pub load_lines : TokParser → List IdentMap → List Bytes → List IdentMap
load_lines tp maps [] = maps
load_lines tp maps (ln ∷ lns) =
    let (done, maps', tp') = parse_ident_line maps (parse_from_string tp ln) in
    load_lines tp' maps' lns

abbrev pub ident_load_map : List Bytes → List IdentMap
ident_load_map lines = load_lines init_parser [] lines
