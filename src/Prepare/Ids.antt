-- ===== src/Prepare/Ids.antt =====
-- Bounds on the query_ids in the tables of src/prepare.c.
use pgbouncer.Base.{
  ℕ, ◌≤◌, ◌<◌, ◌≡◌, refl, Bytes, str_eq, false, List, [], ◌∷◌, ◌++◌, some, arith, ◌==◌, if_intro,
}
use pgbouncer.Prepare.{
  PreparedStatement, holds, delete, incref, decref, find_query, find_client, delete_client,
}

-- Every id is at most `n`: in a cache, among the global statements, among a client's.
abbrev pub Below : ℕ → List ℕ → Type 0
Below n [] = Unit {0}
Below n (x ∷ xs) = (x ≤ n) × Below n xs

abbrev pub Known : ℕ → List PreparedStatement → Type 0
Known n [] = Unit {0}
Known n (p ∷ ps) = (p.query_id ≤ n) × Known n ps

abbrev pub Named : ℕ → List (Bytes × ℕ) → Type 0
Named n [] = Unit {0}
Named n (c ∷ cs) = (c.1 ≤ n) × Named n cs

pub Below-snoc : (n x : ℕ) (xs : List ℕ) → Below n xs → x ≤ n → Below n (xs ++ (x ∷ []))
Below-snoc n x [] b l = (l, tt)
Below-snoc n x (y ∷ ys) b l = (b.0, Below-snoc n x ys b.1 l)

pub Below-delete : (n x : ℕ) (xs : List ℕ) → Below n xs → Below n (delete x xs)
unfolding delete
Below-delete n x [] b = tt
Below-delete n x (y ∷ ys) b =
    if_intro (Below n) (y == x) _ _ (λ _. b.1) λ _. (b.0, Below-delete n x ys b.1)

pub Below-weaken : (n m : ℕ) (xs : List ℕ) → n ≤ m → Below n xs → Below m xs
Below-weaken n m [] h b = tt
Below-weaken n m (x ∷ xs) h b = (omega (arith, b.0), Below-weaken n m xs h b.1)

pub holds-Below : (n x : ℕ) (xs : List ℕ) → Below n xs → n < x → holds x xs ≡ false
unfolding holds
holds-Below n x [] b h = refl
holds-Below n x (y ∷ ys) b h = ground (arith, holds-Below n x ys, b.0, b.1)

pub Known-weaken : (n m : ℕ) (ps : List PreparedStatement) → n ≤ m → Known n ps → Known m ps
Known-weaken n m [] h b = tt
Known-weaken n m (p ∷ ps) h b = (omega (arith, b.0), Known-weaken n m ps h b.1)

pub Known-snoc :
    (n : ℕ) (p : PreparedStatement) (ps : List PreparedStatement)
    → Known n ps
    → p.query_id ≤ n
    → Known n (ps ++ (p ∷ []))
Known-snoc n p [] b l = (l, tt)
Known-snoc n p (q ∷ qs) b l = (b.0, Known-snoc n p qs b.1 l)

pub Known-incref : (n id : ℕ) (ps : List PreparedStatement) → Known n ps → Known n (incref id ps)
unfolding incref
Known-incref n id [] b = tt
Known-incref n id (p ∷ ps) b =
    if_intro (Known n) (p.query_id == id) _ _ (λ _. (b.0, b.1)) λ _. (b.0, Known-incref n id ps b.1)

pub Known-decref : (n id : ℕ) (ps : List PreparedStatement) → Known n ps → Known n (decref id ps)
unfolding decref
Known-decref n id [] b = tt
Known-decref n id (p ∷ ps) b =
    if_intro (Known n) (p.query_id == id) _ _
      (λ _. if_intro (Known n) (p.use_count == 1) _ _ (λ _. b.1) λ _. (b.0, b.1))
      λ _. (b.0, Known-decref n id ps b.1)

pub find_query-Known :
    (n id : ℕ) (query : Bytes) (ps : List PreparedStatement)
    → Known n ps
    → find_query query ps ≡ some id
    → id ≤ n
unfolding find_query
find_query-Known n id query [] b e = cc
find_query-Known n id query (p ∷ ps) b e = ground (arith, find_query-Known n id query ps b.1, b.0)

pub Named-weaken : (n m : ℕ) (cs : List (Bytes × ℕ)) → n ≤ m → Named n cs → Named m cs
Named-weaken n m [] h b = tt
Named-weaken n m (c ∷ cs) h b = (omega (arith, b.0), Named-weaken n m cs h b.1)

pub Named-snoc :
    (n : ℕ) (c : Bytes × ℕ) (cs : List (Bytes × ℕ))
    → Named n cs
    → c.1 ≤ n
    → Named n (cs ++ (c ∷ []))
Named-snoc n c [] b l = (l, tt)
Named-snoc n c (d ∷ ds) b l = (b.0, Named-snoc n c ds b.1 l)

pub Named-delete :
    (n : ℕ) (name : Bytes) (cs : List (Bytes × ℕ)) → Named n cs → Named n (delete_client name cs)
unfolding delete_client
Named-delete n name [] b = tt
Named-delete n name (c ∷ cs) b =
    if_intro (Named n) (str_eq c.0 name) _ _ (λ _. b.1) λ _. (b.0, Named-delete n name cs b.1)

pub find_client-Named :
    (n id : ℕ) (name : Bytes) (cs : List (Bytes × ℕ))
    → Named n cs
    → find_client name cs ≡ some id
    → id ≤ n
unfolding find_client
find_client-Named n id name [] b e = cc
find_client-Named n id name (c ∷ cs) b e = ground (arith, find_client-Named n id name cs b.1, b.0)
