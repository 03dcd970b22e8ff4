-- ===== src/Varcache/Canonical.antt =====
-- varcache_set_canonical of src/varcache.c, slot by slot.
use pgbouncer.Base.{
  ℕ, ◌≡◌, ◌≢◌, refl, sym, ap, ◌∙◌, true, List, [], ◌∷◌, Option, none, some, arith, Bytes,
  ℕ_discrete, ==_refl, ==_ne, str_eq→eq, eq→str_eq,
}
use pgbouncer.Varcache.{VarLookup, VarCache, put, opt_eq, canonical_value, varcache_set_canonical}

pub put_self : (cache : VarCache) (i : ℕ) (v : Option Bytes) → put cache i v i ≡ v
unfolding put
put_self cache i v = rw (==_refl i)

pub put_ne : (cache : VarCache) (i j : ℕ) (v : Option Bytes) → j ≢ i → put cache i v j ≡ cache j
unfolding put
put_ne cache i j v h = rw (==_ne j i h)

put_at : (cache : VarCache) (i j : ℕ) (v : Option Bytes) → j ≡ i → put cache i v j ≡ v
put_at cache i j v e = rw e (put_self cache i v)

pub opt_eq→eq : (a b : Option Bytes) → opt_eq a b ≡ true → a ≡ b
unfolding opt_eq
opt_eq→eq none none h = refl
opt_eq→eq none (some y) h = cc
opt_eq→eq (some x) none h = cc
opt_eq→eq (some x) (some y) h = ap some (str_eq→eq x y h)

pub eq→opt_eq : (a b : Option Bytes) → a ≡ b → opt_eq a b ≡ true
unfolding opt_eq
eq→opt_eq none none e = refl
eq→opt_eq none (some y) e = cc
eq→opt_eq (some x) none e = cc
eq→opt_eq (some x) (some y) e = eq→str_eq x y (cc)

canonical_value_agrees :
    (o s c : Option Bytes) → (canonical_value o s c).0 ≡ (canonical_value o s c).1
unfolding canonical_value
canonical_value_agrees none s c = ground (arith, opt_eq→eq c s)
canonical_value_agrees (some o) (some s) (some c) = ground (arith, str_eq→eq c s)
canonical_value_agrees (some o) none (some c) = refl
canonical_value_agrees (some o) (some s) none = refl
canonical_value_agrees (some o) none none = refl

abbrev pub All {ℓ} : {A : Type ℓ} → (A → Type 0) → List A → Type 0
All P [] = Unit
All P (x ∷ xs) = P x × All P xs

-- A slot on which both sides agree stays so.
keeps_agreement :
    (lks : List VarLookup) (orig server client : VarCache) (j : ℕ)
    → server j ≡ client j
    → let r = varcache_set_canonical lks orig server client in r.0 j ≡ r.1 j
unfolding varcache_set_canonical
keeps_agreement [] orig server client j e = e
keeps_agreement (lk ∷ lks) orig server client j e =
    let v = canonical_value (orig lk.idx) (server lk.idx) (client lk.idx) in
    keeps_agreement lks orig (put server lk.idx v.0) (put client lk.idx v.1) j
      (elim (ℕ_discrete j lk.idx) [
        | yes here ↦
            rw (here, put_self, put_self)
              (canonical_value_agrees (orig lk.idx) (server lk.idx) (client lk.idx))
        | no there ↦ rw (put_ne server lk.idx j v.0 there, put_ne client lk.idx j v.1 there) e
      ])

-- After varcache_set_canonical server and client have the same value of every tracked parameter.
pub set_canonical_agrees :
    (lks : List VarLookup) (orig server client : VarCache)
    → let r = varcache_set_canonical lks orig server client in
      All (λ lk. r.0 lk.idx ≡ r.1 lk.idx) lks
unfolding varcache_set_canonical
set_canonical_agrees [] orig server client = tt
set_canonical_agrees (lk ∷ lks) orig server client =
    let v = canonical_value (orig lk.idx) (server lk.idx) (client lk.idx) in
    (
      keeps_agreement lks orig (put server lk.idx v.0) (put client lk.idx v.1) lk.idx (
          rw (put_self, put_self)
            (canonical_value_agrees (orig lk.idx) (server lk.idx) (client lk.idx))),
      set_canonical_agrees lks orig (put server lk.idx v.0) (put client lk.idx v.1),
    )

canonical_value_unreported : (s c : Option Bytes) → (canonical_value none s c).1 ≡ c
unfolding canonical_value
canonical_value_unreported s c = ground arith

-- varcache_set_canonical never changes the client's value of a parameter that the pool's server
-- did not report.
pub set_canonical-client_unreported :
    (lks : List VarLookup) (orig server client : VarCache) (j : ℕ)
    → orig j ≡ none
    → (varcache_set_canonical lks orig server client).1 j ≡ client j
unfolding varcache_set_canonical
set_canonical-client_unreported [] orig server client j e = refl
set_canonical-client_unreported (lk ∷ lks) orig server client j e =
    let v = canonical_value (orig lk.idx) (server lk.idx) (client lk.idx) in
    set_canonical-client_unreported lks orig (put server lk.idx v.0) (put client lk.idx v.1) j e
    ∙ elim (ℕ_discrete j lk.idx) [
      | yes here ↦
          put_at client lk.idx j v.1 here
          ∙ (ap (λ o. (canonical_value o (server lk.idx) (client lk.idx)).1)
                (ap orig (sym here) ∙ e)
              ∙ (canonical_value_unreported (server lk.idx) (client lk.idx) ∙ ap client (sym here)))
      | no there ↦ put_ne client lk.idx j v.1 there
    ]
