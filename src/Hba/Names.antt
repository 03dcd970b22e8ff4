-- ===== src/Hba/Names.antt =====
-- The lists of database and user names of src/hba.c: parse_names and the files that a name refers
-- to. The reading of a file and libc's dirname are parameters. `none` is a parse that has used up
-- its fuel: an unbounded chain of files that include one another.
pub mod Termination
pub mod Quoted
use pgbouncer.Base.{
  ℕ, zero, suc, ◌+◌, Bool, true, false, ◌&&◌, ◌||◌, List, [], ◌∷◌, ◌++◌, Option, none, some, Bytes,
  length, ◌==◌, if◌then◌else◌, ◌>>=◌, text, str_eq,
}
use pgbouncer.Hba.Token.{
  TokType, tok_string, tok_ident, tok_comma, TokParser, next_token, check_kw, eat, tok_eq,
  parse_from_string, init_parser,
}

-- The bits of `flags`, and the set with its strings in the order of insertion (module StrSet).
pub record HbaName : Type 0 where
  pub name_all : Bool
  pub name_sameuser : Bool
  pub name_replication : Bool
  pub name_set : Option (List Bytes)

abbrev pub no_names : HbaName
no_names = record {
  name_all = false;
  name_sameuser = false;
  name_replication = false;
  name_set = none;
}

unfoldable pub contains : List Bytes → Bytes → Bool
contains [] name = false
contains (n ∷ ns) name = str_eq n name || contains ns name

-- strset_new on the first name, and strset_add.
unfoldable pub add_name : HbaName → Bytes → HbaName
add_name h tok = elim h.name_set [
  | none ↦ record h { name_set = some (tok ∷ []) }
  | some ns ↦ if contains ns tok then h else record h { name_set = some (ns ++ (tok ∷ [])) }
]

ends_in_slash : Bytes → Bool
ends_in_slash [] = false
ends_in_slash (c ∷ []) = c == b'/'
ends_in_slash (c ∷ d ∷ ds) = ends_in_slash (d ∷ ds)

starts_with_slash : Bytes → Bool
starts_with_slash [] = false
starts_with_slash (c ∷ cs) = c == b'/'

path_join : Bytes → Bytes → Bytes
unfolding ends_in_slash starts_with_slash
path_join p1 p2 =
    if starts_with_slash p2 || (str_eq p1 [] || str_eq p1 (text "."))
    then p2
    else if ends_in_slash p1
    then p1 ++ p2
    else p1 ++ (b'/' ∷ p2)

path_join_dirname : (Bytes → Bytes) → Bytes → Bytes → Bytes
unfolding path_join
path_join_dirname dirname parent fn =
    if starts_with_slash fn then fn else path_join (dirname parent) fn

-- What a parse of names comes to: whether it was accepted, the names so far, the parser.
abbrev pub Parsed : Type 0
Parsed = Bool × HbaName × TokParser

module _ (dirname : Bytes → Bytes) (namefile : Bytes → HbaName → Option (Bool × HbaName)) where
  -- A name that begins with @ is a file of names.
  include_file : HbaName → TokParser → Bytes → Option Parsed
  include_file h tp fn =
      namefile fn h >>= λ r. (some (if r.0 then (true, r.1, next_token tp) else (false, r.1, tp)))

  ident_name : HbaName → TokParser → Bytes → Bytes → Option Parsed
  ident_name h tp parent [] = some (true, add_name h [], next_token tp)
  ident_name h tp parent (c ∷ cs) =
      if c == b'+'
      then some (false, h, tp)
      else if c == b'@'
      then include_file h tp (path_join_dirname dirname parent cs)
      else some (true, add_name h (c ∷ cs), next_token tp)

  plain_name : HbaName → TokParser → Bytes → Option Parsed
  plain_name h tp parent = elim tp.cur_tok [
    | tok_ident ↦ ident_name h tp parent tp.buf
    | tok_string ↦ some (true, add_name h tp.buf, next_token tp)
    | _ ↦ some (false, h, tp)
  ]

  -- One round of the loop of parse_names, up to eat_comma.
  pub parse_name : Bool → Bytes → HbaName → TokParser → Option Parsed
  unfolding plain_name ident_name include_file path_join_dirname
  parse_name is_db parent h tp =
      if check_kw tp (text "all")
      then some (true, record h { name_all = true }, next_token tp)
      else if is_db && check_kw tp (text "sameuser")
      then some (true, record h { name_sameuser = true }, next_token tp)
      else if is_db && check_kw tp (text "samerole")
      then some (false, h, next_token tp)
      else if is_db && check_kw tp (text "samegroup")
      then some (false, h, next_token tp)
      else if is_db && check_kw tp (text "replication")
      then some (true, record h { name_replication = true }, next_token tp)
      else plain_name h tp parent

  pub names_loop : ℕ → Bool → Bytes → HbaName → TokParser → Option Parsed
  names_loop zero is_db parent h tp = none
  names_loop (suc f) is_db parent h tp = parse_name is_db parent h tp >>= λ r.
      let (ate, tp') = eat r.2 tok_comma in
      let rest = names_loop f is_db parent r.1 tp' in if r.0 && ate then rest else some r

-- The lines of a file of names, until one is refused.
read_names :
    (HbaName → TokParser → Option Parsed)
    → TokParser
    → List Bytes
    → HbaName
    → Option (Bool × HbaName)
read_names parse tp [] h = some (true, h)
read_names parse tp (ln ∷ lns) h = parse h (parse_from_string tp ln) >>= λ r.
    let rest = read_names parse r.2 lns r.1 in if r.0 then rest else some (false, r.1)

module _ (dirname : Bytes → Bytes) (files : Bytes → Option (List Bytes)) where
  -- Fuel for a line: each round of the loop takes at least a comma off it.
  abbrev pub parse_names_with :
      (Bytes → HbaName → Option (Bool × HbaName))
      → Bool
      → Bytes
      → HbaName
      → TokParser
      → Option Parsed
  parse_names_with namefile is_db parent h tp =
      names_loop dirname namefile (suc (length tp.pos)) is_db parent h tp

  -- `depth` bounds how deep files include one another.
  pub parse_namefile : ℕ → Bool → Bytes → HbaName → Option (Bool × HbaName)
  unfolding read_names
  parse_namefile zero is_db fn h = none
  parse_namefile (suc depth) is_db fn h = elim (files fn) [
    | none ↦ some (false, h)
    | some lines ↦
        read_names (parse_names_with (parse_namefile depth is_db) is_db fn) init_parser lines h
  ]

  pub parse_names : ℕ → Bool → Bytes → HbaName → TokParser → Option Parsed
  parse_names depth is_db parent h tp =
      parse_names_with (parse_namefile depth is_db) is_db parent h tp
