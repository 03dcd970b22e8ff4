-- ===== src/Prepare/Caches.antt =====
-- The cache of src/prepare.c for a server, as a list, and the session of the server itself: the
-- statements that PostgreSQL has prepared after the packets sent to it, if it accepts each of them.
use pgbouncer.Base.{
  ℕ, ◌+◌, ◌≡◌, refl, ap, ◌∙◌, Bool, true, false, not, ◌&&◌, ◌||◌, List, [], ◌∷◌, ◌++◌, Option, none,
  some, arith, ◌==◌, if◌then◌else◌, if_intro, ◌>>=◌, >>=-eq-some, length,
}
use mathlib.Core.Option.{some-injective}
use pgbouncer.Prepare.{Message, parse, bind, describe, close, holds, delete}

abbrev pub Unique : List ℕ → Type 0
Unique [] = Unit {0}
Unique (x ∷ xs) = (holds x xs ≡ false) × Unique xs

pub holds-append : (i x : ℕ) (xs : List ℕ) → holds i (xs ++ (x ∷ [])) ≡ holds i xs || x == i
unfolding holds
holds-append i x [] = ground arith
holds-append i x (y ∷ ys) = ground (arith, holds-append i x ys)

pub holds-delete :
    (i c : ℕ) (xs : List ℕ) → Unique xs → holds i (delete c xs) ≡ holds i xs && not (c == i)
unfolding holds delete
holds-delete i c [] u = refl
holds-delete i c (y ∷ ys) u = ground (arith, holds-delete i c ys u.1, u.0)

pub Unique-delete : (c : ℕ) (xs : List ℕ) → Unique xs → Unique (delete c xs)
unfolding holds delete
Unique-delete c [] u = tt
Unique-delete c (y ∷ ys) u =
    if_intro Unique (y == c) _ _ (λ _. u.1)
      λ _. (ground (arith, holds-delete y c ys u.1, u.0), Unique-delete c ys u.1)

pub Unique-snoc : (x : ℕ) (xs : List ℕ) → Unique xs → holds x xs ≡ false → Unique (xs ++ (x ∷ []))
unfolding holds
Unique-snoc x [] u h = (refl, tt)
Unique-snoc x (y ∷ ys) u h =
    (ground (arith, holds-append y x ys, u.0, h), Unique-snoc x ys u.1 (ground (arith, h)))

pub length-delete : (c : ℕ) (xs : List ℕ) → holds c xs ≡ true → length (delete c xs) + 1 ≡ length xs
unfolding holds delete
length-delete c [] h = cc
length-delete c (y ∷ ys) h = ground (arith, length-delete c ys, h)

-- What the server does with a packet; `none` is an error.
abbrev pub accept : Message → (ℕ → Bool) → Option (ℕ → Bool)
accept (parse id) p = if p id then none else some (λ i. if i == id then true else p i)
accept (bind id) p = if p id then some p else none
accept (describe id) p = if p id then some p else none
accept (close id) p = some (λ i. if i == id then false else p i)

unfoldable pub run : List Message → (ℕ → Bool) → Option (ℕ → Bool)
run [] p = some p
run (m ∷ ms) p = accept m p >>= λ q. run ms q

bind-some : (o : Option (ℕ → Bool)) → (o >>= λ q. some q) ≡ o
bind-some none = refl
bind-some (some q) = refl

run-snoc :
    (ms : List Message) (m : Message) (p q : ℕ → Bool)
    → run ms p ≡ some q
    → run (ms ++ (m ∷ [])) p ≡ accept m q
unfolding run
run-snoc [] m p q e = bind-some (accept m p) ∙ ap (accept m) (some-injective _ _ e)
run-snoc (n ∷ ns) m p q e =
    let (r, e1, e2) = >>=-eq-some (accept n p) _ e in rw e1 (run-snoc ns m r q e2)

abbrev pub none_prepared : ℕ → Bool
none_prepared i = false

-- The server has accepted every packet, and has prepared exactly what the cache holds.
pub record Synced (sent : List Message) (cache : List ℕ) : Type 0 where
  pub session : ℕ → Bool
  pub accepted : run sent none_prepared ≡ some session
  pub agrees : (i : ℕ) → session i ≡ holds i cache
  pub unique : Unique cache

pub Synced-parse :
    (sent : List Message) (cache : List ℕ) (id : ℕ)
    → Synced sent cache
    → holds id cache ≡ false
    → Synced (sent ++ (parse id ∷ [])) (cache ++ (id ∷ []))
Synced-parse sent cache id s h = record {
  session = λ i. if i == id then true else s.session i;
  accepted =
      run-snoc sent (parse id) none_prepared s.session s.accepted ∙ ground (arith, s.agrees id);
  agrees = λ i. ground (arith, s.agrees i, holds-append i id cache);
  unique = Unique-snoc id cache s.unique h;
}

pub Synced-close :
    (sent : List Message) (cache : List ℕ) (id : ℕ)
    → Synced sent cache
    → Synced (sent ++ (close id ∷ [])) (delete id cache)
Synced-close sent cache id s = record {
  session = λ i. if i == id then false else s.session i;
  accepted = run-snoc sent (close id) none_prepared s.session s.accepted;
  agrees = λ i. ground (arith, s.agrees i, holds-delete i id cache s.unique);
  unique = Unique-delete id cache s.unique;
}

pub Synced-bind :
    (sent : List Message) (cache : List ℕ) (id : ℕ)
    → Synced sent cache
    → holds id cache ≡ true
    → Synced (sent ++ (bind id ∷ [])) cache
Synced-bind sent cache id s h = record {
  session = s.session;
  accepted =
      run-snoc sent (bind id) none_prepared s.session s.accepted ∙ ground (arith, s.agrees id);
  agrees = s.agrees;
  unique = s.unique;
}

pub Synced-describe :
    (sent : List Message) (cache : List ℕ) (id : ℕ)
    → Synced sent cache
    → holds id cache ≡ true
    → Synced (sent ++ (describe id ∷ [])) cache
Synced-describe sent cache id s h = record {
  session = s.session;
  accepted =
      run-snoc sent (describe id) none_prepared s.session s.accepted ∙ ground (arith, s.agrees id);
  agrees = s.agrees;
  unique = s.unique;
}

-- A statement moved to the end of the cache.
pub Synced-recent :
    (sent : List Message) (cache : List ℕ) (id : ℕ)
    → Synced sent cache
    → holds id cache ≡ true
    → Synced sent (delete id cache ++ (id ∷ []))
Synced-recent sent cache id s h = record {
  session = s.session;
  accepted = s.accepted;
  agrees = λ i.
      ground (
        arith,
        s.agrees i,
        holds-append i id (delete id cache),
        holds-delete i id cache s.unique,
        h,
      );
  unique =
      Unique-snoc id (delete id cache) (Unique-delete id cache s.unique)
        (ground (arith, holds-delete id id cache s.unique));
}
