-- ===== src/Hba/Names/Termination.antt =====
-- The loop of parse_names in src/hba.c, and the line that it takes tokens off.
use pgbouncer.Base.{
  ℕ, zero, suc, ◌≤◌, ◌<◌, ◌≡◌, refl, inl, inr, Bool, true, false, ◌&&◌, [], ◌∷◌, Option, some,
  arith, Bytes, length, ◌==◌, Bool-cases, if_intro, text,
}
use pgbouncer.Hba.Token.{
  TokType, tok_string, tok_ident, tok_comma, tok_fail, tok_eol, TokParser, next_token, check_kw,
  eat, tok_eq,
}
use pgbouncer.Hba.Token.Laws.{next_token-pos}
use pgbouncer.Hba.Names.{
  HbaName, Parsed, include_file, ident_name, plain_name, parse_name, names_loop, path_join_dirname,
  add_name,
}

-- A round returns, and if it is accepted before a comma it has moved on in the line.
abbrev Ahead : ℕ → Option Parsed → Type 0
Ahead n r =
    (p : Parsed) × (r ≡ some p)
    × (p.0 ≡ true → tok_eq (p.2).cur_tok tok_comma ≡ true → length (p.2).pos < n)

-- The token that a round looks at is no end of line.
moved :
    (tp : TokParser)
    → tok_eq tp.cur_tok tok_eol ≡ false
    → tok_eq (next_token tp).cur_tok tok_comma ≡ true
    → length (next_token tp).pos < length tp.pos
moved tp live comma = (next_token-pos tp live).1 comma

taken :
    (h : HbaName) (tp : TokParser)
    → tok_eq tp.cur_tok tok_eol ≡ false
    → Ahead (length tp.pos) (some (true, h, next_token tp))
taken h tp live = ((true, h, next_token tp), refl, λ _ comma. moved tp live comma)

refused : (n : ℕ) (h : HbaName) (tp : TokParser) → Ahead n (some (false, h, tp))
refused n h tp = ((false, h, tp), refl, λ e. cc)

keyword_live :
    (tp : TokParser) (kw : Bytes) → check_kw tp kw ≡ true → tok_eq tp.cur_tok tok_eol ≡ false
keyword_live tp kw h = go tp.cur_tok refl
  where
    go : (t : TokType) → tp.cur_tok ≡ t → tok_eq tp.cur_tok tok_eol ≡ false
    go tok_eol e = ground arith
    go tok_ident e = ground arith
    go tok_string e = ground arith
    go tok_comma e = ground arith
    go tok_fail e = ground arith

comma_live :
    (tp : TokParser) → tok_eq tp.cur_tok tok_comma ≡ true → tok_eq tp.cur_tok tok_eol ≡ false
comma_live tp h = go tp.cur_tok refl
  where
    go : (t : TokType) → tp.cur_tok ≡ t → tok_eq tp.cur_tok tok_eol ≡ false
    go tok_eol e = ground arith
    go tok_ident e = ground arith
    go tok_string e = ground arith
    go tok_comma e = ground arith
    go tok_fail e = ground arith

eat-comma :
    (tp : TokParser)
    → (eat tp tok_comma).0 ≡ true
    → (tok_eq tp.cur_tok tok_comma ≡ true) × (length (eat tp tok_comma).1.pos ≤ length tp.pos)
eat-comma tp h = elim (Bool-cases (tok_eq tp.cur_tok tok_comma)) [
  | inl e ↦ (e, rw e (next_token-pos tp (comma_live tp e)).0)
  | inr e ↦ cc (rw e at h)
]

module _ (dirname : Bytes → Bytes) (namefile : Bytes → HbaName → Option (Bool × HbaName))
    (reads : (fn : Bytes) (h : HbaName) → (r : Bool × HbaName) × (namefile fn h ≡ some r)) where
  include_file-Ahead :
      (h : HbaName) (tp : TokParser) (fn : Bytes)
      → tok_eq tp.cur_tok tok_eol ≡ false
      → Ahead (length tp.pos) (include_file dirname namefile h tp fn)
  unfolding include_file
  include_file-Ahead h tp fn live =
      let (r, e) = reads fn h in
      rw e (
        if_intro (λ p. Ahead (length tp.pos) (some p)) r.0 _ _ (λ _. taken r.1 tp live)
          λ _. refused _ r.1 tp)

  ident_name-Ahead :
      (h : HbaName) (tp : TokParser) (parent buf : Bytes)
      → tok_eq tp.cur_tok tok_eol ≡ false
      → Ahead (length tp.pos) (ident_name dirname namefile h tp parent buf)
  unfolding ident_name
  ident_name-Ahead h tp parent [] live = taken _ tp live
  ident_name-Ahead h tp parent (c ∷ cs) live =
      if_intro (Ahead (length tp.pos)) (c == b'+') _ _ (λ _. refused _ h tp)
        λ _.
          if_intro (Ahead (length tp.pos)) (c == b'@') _ _
            (λ _. include_file-Ahead h tp (path_join_dirname dirname parent cs) live)
            λ _. taken _ tp live

  plain_name-Ahead :
      (h : HbaName) (tp : TokParser) (parent : Bytes)
      → Ahead (length tp.pos) (plain_name dirname namefile h tp parent)
  unfolding plain_name
  plain_name-Ahead h tp parent = go tp.cur_tok refl
    where
      go :
          (t : TokType)
          → tp.cur_tok ≡ t
          → Ahead (length tp.pos) (elim t [
            | tok_ident ↦ ident_name dirname namefile h tp parent tp.buf
            | tok_string ↦ some (true, add_name h tp.buf, next_token tp)
            | _ ↦ some (false, h, tp)
          ])
      go tok_ident e = ident_name-Ahead h tp parent tp.buf (rw e)
      go tok_string e = taken _ tp (rw e)
      go tok_comma e = refused _ h tp
      go tok_fail e = refused _ h tp
      go tok_eol e = refused _ h tp

  parse_name-Ahead :
      (is_db : Bool) (parent : Bytes) (h : HbaName) (tp : TokParser)
      → Ahead (length tp.pos) (parse_name dirname namefile is_db parent h tp)
  unfolding parse_name
  parse_name-Ahead is_db parent h tp =
      if_intro (Ahead (length tp.pos)) (check_kw tp (text "all")) _ _
        (λ k. taken _ tp (keyword_live tp (text "all") k))
        λ _.
          if_intro (Ahead (length tp.pos)) (is_db && check_kw tp (text "sameuser")) _ _
            (λ k. taken _ tp (keyword_live tp (text "sameuser") (ground arith)))
            λ _.
              if_intro (Ahead (length tp.pos)) (is_db && check_kw tp (text "samerole")) _ _
                (λ _. refused _ h _)
                λ _.
                  if_intro (Ahead (length tp.pos)) (is_db && check_kw tp (text "samegroup")) _ _
                    (λ _. refused _ h _)
                    λ _.
                      if_intro (Ahead (length tp.pos)) (is_db && check_kw tp (text "replication")) _
                        _ (λ k. taken _ tp (keyword_live tp (text "replication") (ground arith)))
                        λ _. plain_name-Ahead h tp parent

  -- With more fuel than the line has characters left, the loop of parse_names returns, provided
  -- that the parse of every included file does.
  pub names_loop_total :
      (f : ℕ) (is_db : Bool) (parent : Bytes) (h : HbaName) (tp : TokParser)
      → length tp.pos < f
      → (r : Parsed) × (names_loop dirname namefile f is_db parent h tp ≡ some r)
  unfolding names_loop
  names_loop_total zero is_db parent h tp lt = absurd (omega arith)
  names_loop_total (suc f) is_db parent h tp lt =
      let (p, e, ahead) = parse_name-Ahead is_db parent h tp in
      rw e (
        if_intro (λ o. (r : Parsed) × (o ≡ some r)) (p.0 && (eat p.2 tok_comma).0) _ _
          (λ both.
            let ok : p.0 ≡ true = ground arith in
            let (comma, le) = eat-comma p.2 (ground arith) in
            names_loop_total f is_db parent p.1 (eat p.2 tok_comma).1
              (omega (arith, ahead ok comma, le)))
          λ _. (p, refl))
