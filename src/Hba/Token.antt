-- ===== src/Hba/Token.antt =====
-- The tokens of src/hba.c: next_token and the functions that look at the current token.
pub mod Laws
use pgbouncer.Base.{
  ℕ, ◌+◌, ◌≡◌, Bool, true, false, ◌&&◌, ◌||◌, List, [], ◌∷◌, Option, none, some, Bytes, leb, ◌==◌,
  if◌then◌else◌, ◌>>=◌, str_eq,
}
use mathlib.Core.Option

pub data TokType : Type 0 where
  tok_string tok_ident tok_comma tok_fail tok_eol : TokType

-- `pos` is the rest of the line, empty for the null pointer at its end; `buf` is the text of the
-- last string or identifier, to which cur_tok_str points while it is current.
pub record TokParser : Type 0 where
  pub pos : Bytes
  pub cur_tok : TokType
  pub buf : Bytes

-- isspace
abbrev pub is_space : ℕ → Bool
is_space c = c == b' ' || (leb 9 c && leb c 13)

unfoldable pub skip_spaces : Bytes → Bytes
skip_spaces [] = []
skip_spaces (c ∷ cs) = if is_space c then skip_spaces cs else c ∷ cs

-- The text of a quoted string up to its closing quote, and what follows; a doubled quote stands
-- for one. The search for the end and the copy are two loops in the source.
unfoldable pub read_quoted : Bytes → Option (Bytes × Bytes)
read_quoted [] = none
read_quoted (c ∷ []) = if c == b'"' then some ([], []) else none
read_quoted (c ∷ d ∷ ds) =
    let escaped = Option.map (λ (r : Bytes × Bytes). (b'"' ∷ r.0, r.1)) (read_quoted ds) in
    let plain = Option.map (λ (r : Bytes × Bytes). (c ∷ r.0, r.1)) (read_quoted (d ∷ ds)) in
    if c == b'"' then (if d == b'"' then escaped else some ([], d ∷ ds)) else plain

abbrev pub ends_ident : ℕ → Bool
ends_ident c = c == b',' || (c == b'#' || (c == b'"' || is_space c))

-- The characters of an identifier behind its first.
unfoldable pub read_ident : Bytes → Bytes × Bytes
read_ident [] = ([], [])
read_ident (c ∷ cs) =
    let (w, rest) = read_ident cs in if ends_ident c then ([], c ∷ cs) else (c ∷ w, rest)

-- The token that begins at a character that is no space.
unfoldable pub token_at : TokParser → Bytes → TokParser
token_at p [] = record p { pos = []; cur_tok = tok_eol }
token_at p (c ∷ cs) =
    if c == b'#'
    then record p { pos = []; cur_tok = tok_eol }
    else if c == b','
    then record p { pos = cs; cur_tok = tok_comma }
    else if c == b'"'
    then elim (read_quoted cs) [
      | none ↦ record p { pos = c ∷ cs; cur_tok = tok_fail }
      | some (s, rest) ↦ record { pos = rest; cur_tok = tok_string; buf = s }
    ]
    else (let (w, rest) = read_ident cs in record { pos = rest; cur_tok = tok_ident; buf = c ∷ w })

abbrev pub tok_eq : TokType → TokType → Bool
tok_eq tok_string tok_string = true
tok_eq tok_ident tok_ident = true
tok_eq tok_comma tok_comma = true
tok_eq tok_fail tok_fail = true
tok_eq tok_eol tok_eol = true
tok_eq _ _ = false

unfoldable pub next_token : TokParser → TokParser
next_token p = if tok_eq p.cur_tok tok_eol then p else token_at p (skip_spaces p.pos)

abbrev pub eat_all : TokParser → TokParser
eat_all p = record p { cur_tok = tok_eol }

-- Whether the token was of the type, and the parser behind it if so.
abbrev pub eat : TokParser → TokType → Bool × TokParser
eat p ttype = if tok_eq p.cur_tok ttype then (true, next_token p) else (false, p)

abbrev pub check_kw : TokParser → Bytes → Bool
check_kw p kw = tok_eq p.cur_tok tok_ident && str_eq kw p.buf

abbrev pub eat_kw : TokParser → Bytes → Bool × TokParser
eat_kw p kw = if check_kw p kw then (true, next_token p) else (false, p)

abbrev pub expect : TokParser → TokType → Option Bytes
expect p ttype = if tok_eq p.cur_tok ttype then some p.buf else none

-- init_parser and parse_from_string on a line; the buffer keeps the last token of the line before.
unfoldable pub parse_from_string : TokParser → Bytes → TokParser
unfolding next_token token_at
parse_from_string p str = next_token (record p { pos = str; cur_tok = tok_comma })

abbrev pub init_parser : TokParser
init_parser = record { pos = []; cur_tok = tok_string; buf = [] }
