-- ===== src/Hba/Names/Quoted.antt =====
-- parse_names of src/hba.c on lists of names in quotes.
use pgbouncer.Base.{
  ℕ, zero, suc, ◌<◌, ◌≡◌, ◌≢◌, refl, Bool, true, false, List, [], ◌∷◌, ◌++◌, Option, some, arith,
  Bytes, length,
}
use pgbouncer.Hba.Token.{
  tok_string, tok_comma, TokParser, next_token, token_at, skip_spaces, tok_eq,
}
use pgbouncer.Hba.Token.Laws.{quote, NoQuote, next_token-quote}
use pgbouncer.Hba.Names.{HbaName, parse_name, plain_name, names_loop, add_name}

-- The further names of a list, and what follows it.
abbrev pub more : List Bytes → Bytes → Bytes
more [] rest = rest
more (w ∷ ws) rest = b',' ∷ b'"' ∷ (quote w ++ (b'"' ∷ more ws rest))

-- The parser that has just read the string `w`.
abbrev pub at_string : Bytes → Bytes → TokParser
at_string w pos = record { pos = pos; cur_tok = tok_string; buf = w }

abbrev pub add_names : HbaName → List Bytes → HbaName
add_names h [] = h
add_names h (w ∷ ws) = add_names (add_name h w) ws

abbrev pub last_name : Bytes → List Bytes → Bytes
last_name w [] = w
last_name w (v ∷ vs) = last_name v vs

abbrev pub NotComma : Bytes → Type 0
NotComma [] = Unit {0}
NotComma (c ∷ cs) = c ≢ b','

module _ (dirname : Bytes → Bytes) (namefile : Bytes → HbaName → Option (Bool × HbaName)) where
  parse_name-string :
      (is_db : Bool) (parent : Bytes) (h : HbaName) (w pos : Bytes)
      → parse_name dirname namefile is_db parent h (at_string w pos)
        ≡ some (true, add_name h w, next_token (at_string w pos))
  unfolding parse_name plain_name
  parse_name-string true parent h w pos = refl
  parse_name-string false parent h w pos = refl

  next_token-comma :
      (w pos : Bytes)
      → next_token (at_string w (b',' ∷ pos)) ≡ record { pos = pos; cur_tok = tok_comma; buf = w }
  unfolding next_token token_at skip_spaces
  next_token-comma w pos = refl

  token_at-NotComma :
      (p : TokParser) (s : Bytes) → NotComma s → tok_eq (token_at p s).cur_tok tok_comma ≡ false
  unfolding token_at
  token_at-NotComma p [] n = refl
  token_at-NotComma p (c ∷ cs) n = ground arith

  NoQuote-more : (ws : List Bytes) (rest : Bytes) → NoQuote rest → NoQuote (more ws rest)
  NoQuote-more [] rest n = n
  NoQuote-more (w ∷ ws) rest n = omega arith

  -- With fuel for the names, the loop of parse_names on a list of quoted names with commas between
  -- them, after which neither a quote nor a comma follows, accepts it and adds exactly those names
  -- in order, whatever the names hold.
  pub names_loop-quoted :
      (f : ℕ) (ws : List Bytes) (is_db : Bool) (parent : Bytes) (h : HbaName) (w rest : Bytes)
      → length ws < f
      → NoQuote rest
      → NotComma (skip_spaces rest)
      → names_loop dirname namefile f is_db parent h (at_string w (more ws rest))
        ≡ some (true, add_names h (w ∷ ws), next_token (at_string (last_name w ws) rest))
  unfolding names_loop
  names_loop-quoted zero ws is_db parent h w rest lt n c = absurd (omega arith)
  names_loop-quoted (suc f) [] is_db parent h w rest lt n c =
      rw (parse_name-string is_db parent h w rest) (rw (not_comma w rest c))
    where
      not_comma :
          (w rest : Bytes)
          → NotComma (skip_spaces rest)
          → tok_eq (next_token (at_string w rest)).cur_tok tok_comma ≡ false
      not_comma w rest c =
          unfold next_token in token_at-NotComma (at_string w rest) (skip_spaces rest) c
  names_loop-quoted (suc f) (v ∷ vs) is_db parent h w rest lt n c =
      rw
        (
          parse_name-string is_db parent h w (more (v ∷ vs) rest),
          next_token-comma,
          next_token-quote
              (record {
                pos = b'"' ∷ (quote v ++ (b'"' ∷ more vs rest));
                cur_tok = tok_comma;
                buf = w;
              })
              [] v (more vs rest) refl tt (NoQuote-more vs rest n) refl,
        )
        (names_loop-quoted f vs is_db parent (add_name h w) v rest (omega arith) n c)
