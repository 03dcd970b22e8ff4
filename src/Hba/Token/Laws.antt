-- ===== src/Hba/Token/Laws.antt =====
-- next_token of src/hba.c: where it leaves the line, and strings in quotes.
use pgbouncer.Base.{
  ℕ, suc, ◌≤◌, ◌<◌, ◌≡◌, ◌≢◌, refl, true, false, [], ◌∷◌, ◌++◌, Option, none, some, arith, Bytes,
  length, ◌==◌, if◌then◌else◌, if_intro, ℕ_discrete, ==_ne,
}
use mathlib.Core.Option
use pgbouncer.Hba.Token.{
  tok_string, tok_comma, tok_fail, tok_eol, TokParser, is_space, skip_spaces, read_quoted,
  read_ident, token_at, tok_eq, next_token,
}

length-skip_spaces : (s : Bytes) → length (skip_spaces s) ≤ length s
unfolding skip_spaces
length-skip_spaces [] = omega arith
length-skip_spaces (c ∷ cs) = ground (arith, length-skip_spaces cs)

-- What is left behind a quoted string is shorter than the line.
abbrev pub Shorter : ℕ → Option (Bytes × Bytes) → Type 0
Shorter n none = Unit {0}
Shorter n (some (w, rest)) = length rest < n

Shorter-map :
    (m n x : ℕ) (r : Option (Bytes × Bytes))
    → m ≤ n
    → Shorter m r
    → Shorter n (Option.map (λ (r : Bytes × Bytes). (x ∷ r.0, r.1)) r)
Shorter-map m n x none h k = tt
Shorter-map m n x (some (w, rest)) h k = omega arith

pub read_quoted-Shorter : (s : Bytes) → Shorter (length s) (read_quoted s)
unfolding read_quoted
read_quoted-Shorter [] = tt
read_quoted-Shorter (c ∷ []) = if_intro (Shorter 1) (c == b'"') _ _ (λ _. omega arith) λ _. tt
read_quoted-Shorter (c ∷ d ∷ ds) =
    if_intro (Shorter (length (c ∷ d ∷ ds))) (c == b'"') _ _
      (λ _.
        if_intro (Shorter (length (c ∷ d ∷ ds))) (d == b'"') _ _
          (λ _.
            Shorter-map (length ds) _ b'"' (read_quoted ds) (omega arith) (read_quoted-Shorter ds))
          λ _. omega arith)
      λ _.
        Shorter-map (length (d ∷ ds)) _ c (read_quoted (d ∷ ds)) (omega arith)
          (read_quoted-Shorter (d ∷ ds))

length-read_ident : (s : Bytes) → length (read_ident s).1 ≤ length s
unfolding read_ident
length-read_ident [] = omega arith
length-read_ident (c ∷ cs) = ground (arith, length-read_ident cs)

-- How a token begins: doubling the quotes of a name.
abbrev pub quote : Bytes → Bytes
quote [] = []
quote (c ∷ cs) = if c == b'"' then b'"' ∷ b'"' ∷ quote cs else c ∷ quote cs

-- What may follow a closing quote.
abbrev pub NoQuote : Bytes → Type 0
NoQuote [] = Unit {0}
NoQuote (c ∷ cs) = c ≢ b'"'

read_quoted-plain :
    (c : ℕ) (s w rest : Bytes)
    → c ≢ b'"'
    → read_quoted s ≡ some (w, rest)
    → read_quoted (c ∷ s) ≡ some (c ∷ w, rest)
unfolding read_quoted
read_quoted-plain c [] w rest n e = cc
read_quoted-plain c (d ∷ ds) w rest n e = rw (==_ne c b'"' n, e)

read_quoted-escaped :
    (s w rest : Bytes)
    → read_quoted s ≡ some (w, rest)
    → read_quoted (b'"' ∷ b'"' ∷ s) ≡ some (b'"' ∷ w, rest)
unfolding read_quoted
read_quoted-escaped s w rest e = rw e

read_quoted-end : (rest : Bytes) → NoQuote rest → read_quoted (b'"' ∷ rest) ≡ some ([], rest)
unfolding read_quoted
read_quoted-end [] n = refl
read_quoted-end (c ∷ cs) n = rw (==_ne c b'"' n)

abbrev pub AllSpaces : Bytes → Type 0
AllSpaces [] = Unit {0}
AllSpaces (c ∷ cs) = (is_space c ≡ true) × AllSpaces cs

skip_spaces-append :
    (spaces s : Bytes) → AllSpaces spaces → skip_spaces (spaces ++ (b'"' ∷ s)) ≡ b'"' ∷ s
unfolding skip_spaces
skip_spaces-append [] s h = refl
skip_spaces-append (c ∷ cs) s h = rw h.0 (skip_spaces-append cs s h.1)

read_quoted-quote :
    (w rest : Bytes) → NoQuote rest → read_quoted (quote w ++ (b'"' ∷ rest)) ≡ some (w, rest)
read_quoted-quote [] rest n = read_quoted-end rest n
read_quoted-quote (c ∷ cs) rest n = elim (ℕ_discrete c b'"') [
  | yes q ↦ rw q (read_quoted-escaped _ cs rest (read_quoted-quote cs rest n))
  | no p ↦ rw (==_ne c b'"' p) (read_quoted-plain c _ cs rest p (read_quoted-quote cs rest n))
]

-- A token takes nothing back, and a comma is taken off the line.
abbrev Forward : ℕ → TokParser → Type 0
Forward n p = (length p.pos ≤ n) × (tok_eq p.cur_tok tok_comma ≡ true → length p.pos < n)

token_at-Forward : (p : TokParser) (s : Bytes) → Forward (length s) (token_at p s)
unfolding token_at
token_at-Forward p [] = (omega arith, λ e. cc)
token_at-Forward p (c ∷ cs) =
    if_intro (Forward (suc (length cs))) (c == b'#') _ _ (λ _. (omega arith, λ e. omega arith))
      λ _.
        if_intro (Forward (suc (length cs))) (c == b',') _ _ (λ _. (omega arith, λ e. omega arith))
          λ _.
            if_intro (Forward (suc (length cs))) (c == b'"') _ _
              (λ _. quoted (read_quoted cs) (read_quoted-Shorter cs))
              λ _. (omega (arith, length-read_ident cs), λ e. cc)
  where
    quoted :
        (r : Option (Bytes × Bytes))
        → Shorter (length cs) r
        → Forward (suc (length cs)) (elim r [
          | none ↦ record p { pos = c ∷ cs; cur_tok = tok_fail }
          | some (s, rest) ↦ record { pos = rest; cur_tok = tok_string; buf = s }
        ])
    quoted none h = (omega arith, λ e. cc)
    quoted (some (s, rest)) h = (omega arith, λ e. cc)

-- next_token before the end of a line never moves back in it, and reads a comma by moving on.
pub next_token-pos :
    (p : TokParser)
    → tok_eq p.cur_tok tok_eol ≡ false
    → (length (next_token p).pos ≤ length p.pos)
      × (tok_eq (next_token p).cur_tok tok_comma ≡ true → length (next_token p).pos < length p.pos)
unfolding next_token
next_token-pos p live =
    let (le, lt) = token_at-Forward p (skip_spaces p.pos) in
    rw live
      (omega (arith, length-skip_spaces p.pos), λ e. omega (arith, lt e, length-skip_spaces p.pos))

-- next_token before the end of a line, behind any spaces, reads a name written in quotes, its own
-- quotes doubled, back as it is, provided that no further quote follows the closing one.
pub next_token-quote :
    (p : TokParser) (spaces w rest : Bytes)
    → tok_eq p.cur_tok tok_eol ≡ false
    → AllSpaces spaces
    → NoQuote rest
    → p.pos ≡ spaces ++ (b'"' ∷ (quote w ++ (b'"' ∷ rest)))
    → next_token p ≡ record { pos = rest; cur_tok = tok_string; buf = w }
unfolding next_token token_at
next_token-quote p spaces w rest live sp n e =
    rw (live, e, skip_spaces-append spaces _ sp, read_quoted-quote w rest n)
