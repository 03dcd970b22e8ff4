-- ===== src/Hba/Match/Sound.antt =====
-- hba_eval of src/hba.c against a description of which connections a rule allows.
use pgbouncer.Base.{
  ◌≡◌, ◌≢◌, refl, ◌∙◌, ap, ◌⊎◌, inl, inr, ◌↔◌, true, false, List, [], ◌∷◌, ◌++◌, none, some, arith,
  Bytes, Bool-cases, Option-cases, ◌&&◌, str_eq, str_eq→eq, eq→str_eq,
}
use pgbouncer.Hba.Names.{HbaName, contains}
use pgbouncer.Hba.Match.Within.{
  ByAddress, address_match-ByAddress, ByAddress-address_match, contains-Member, Member-contains,
}
use pgbouncer.Hba.Rules.{RuleType, rule_local, rule_host, rule_hostssl, rule_hostnossl, HbaRule}
use pgbouncer.Hba.Match.{
  ReplicationType, replication_none, replication_logical, replication_physical, Connection, is_unix,
  name_match, transport_match, db_match, rule_match, hba_eval,
}

-- A local rule is for Unix sockets; the others want the address, hostssl TLS, hostnossl none.
pub data ByTransport (r : HbaRule) (k : Connection) : Type 0 where
  by_socket : is_unix k ≡ true → r.rule_type ≡ rule_local → ByTransport r k
  by_host :
      is_unix k ≡ false
      → ByAddress r.address k.addr
      → (r.rule_type ≡ rule_host)
        ⊎ ((r.rule_type ≡ rule_hostssl) × (k.is_tls ≡ true))
        ⊎ ((r.rule_type ≡ rule_hostnossl) × (k.is_tls ≡ false))
      → ByTransport r k

pub data Names (h : HbaName) (name pair : Bytes) : Type 0 where
  by_all : h.name_all ≡ true → Names h name pair
  by_same : h.name_sameuser ≡ true → name ≡ pair → Names h name pair
  by_set : (pre post : List Bytes) → h.name_set ≡ some (pre ++ (name ∷ post)) → Names h name pair

-- For physical replication the keyword alone decides on the database.
pub data ByDatabase (r : HbaRule) (k : Connection) : Type 0 where
  by_replication :
      k.replication ≡ replication_physical → r.db_name.name_replication ≡ true → ByDatabase r k
  by_name :
      k.replication ≢ replication_physical → Names r.db_name k.dbname k.username → ByDatabase r k

pub record Allows (r : HbaRule) (k : Connection) : Type 0 where
  pub transport : ByTransport r k
  pub database : ByDatabase r k
  pub user : Names r.user_name k.username k.dbname

transport-ByTransport :
    (r : HbaRule) (k : Connection) (t : RuleType)
    → r.rule_type ≡ t
    → transport_match r k ≡ true
    → ByTransport r k
unfolding transport_match
transport-ByTransport r k rule_local e h = by_socket (ground arith) e
transport-ByTransport r k rule_host e h =
    by_host (ground arith) (address_match-ByAddress r.address k.addr (ground arith)) (inl e)
transport-ByTransport r k rule_hostssl e h =
    by_host (ground arith) (address_match-ByAddress r.address k.addr (ground arith))
      (inr (inl (e, ground arith)))
transport-ByTransport r k rule_hostnossl e h =
    by_host (ground arith) (address_match-ByAddress r.address k.addr (ground arith))
      (inr (inr (e, ground arith)))

ByTransport-transport :
    (r : HbaRule) (k : Connection) → ByTransport r k → transport_match r k ≡ true
unfolding transport_match
ByTransport-transport r k (by_socket u e) = ground arith
ByTransport-transport r k (by_host u a t) =
    let m = ByAddress-address_match r.address k.addr a in ground arith

name_match-Names :
    (h : HbaName) (name pair : Bytes) → name_match h name pair ≡ true → Names h name pair
unfolding name_match
name_match-Names h name pair m = elim (Bool-cases h.name_all) [
  | inl a ↦ by_all a
  | inr a ↦ elim (Bool-cases (h.name_sameuser && str_eq name pair)) [
    | inl b ↦ by_same (ground arith) (ground (arith, str_eq→eq name pair))
    | inr b ↦ elim (Option-cases h.name_set) [
      | inl e ↦ ground arith
      | inr (ns, e) ↦
          let c : contains ns name ≡ true = ground arith in
          let (pre, post, l) = contains-Member ns name c in by_set pre post (e ∙ ap some l)
    ]
  ]
]

Names-name_match :
    (h : HbaName) (name pair : Bytes) → Names h name pair → name_match h name pair ≡ true
unfolding name_match
Names-name_match h name pair (by_all a) = ground arith
Names-name_match h name pair (by_same a e) = ground (arith, eq→str_eq name pair e)
Names-name_match h name pair (by_set pre post e) =
    let c = Member-contains pre post name in ground arith

db_match-ByDatabase : (r : HbaRule) (k : Connection) → db_match r k ≡ true → ByDatabase r k
unfolding db_match
db_match-ByDatabase r k m = go k.replication refl
  where
    go : (p : ReplicationType) → k.replication ≡ p → ByDatabase r k
    go replication_none e =
        by_name (λ h. cc) (name_match-Names r.db_name k.dbname k.username (ground arith))
    go replication_logical e =
        by_name (λ h. cc) (name_match-Names r.db_name k.dbname k.username (ground arith))
    go replication_physical e = by_replication e (ground arith)

ByDatabase-db_match : (r : HbaRule) (k : Connection) → ByDatabase r k → db_match r k ≡ true
unfolding db_match
ByDatabase-db_match r k (by_replication e f) = ground arith
ByDatabase-db_match r k (by_name n h) =
    ground (arith, n, Names-name_match r.db_name k.dbname k.username h)

-- The test that hba_eval makes of a rule decides whether the rule allows the connection.
rule_match_iff : (r : HbaRule) (k : Connection) → (rule_match r k ≡ true) ↔ Allows r k
rule_match_iff r k = (
  λ m. record {
    transport = transport-ByTransport r k r.rule_type refl (ground arith);
    database = db_match-ByDatabase r k (ground arith);
    user = name_match-Names r.user_name k.username k.dbname (ground arith);
  },
  λ a. ground (
    arith,
    ByTransport-transport r k a.transport,
    ByDatabase-db_match r k a.database,
    Names-name_match r.user_name k.username k.dbname a.user,
  ),
)

abbrev pub NoneAllows : List HbaRule → Connection → Type 0
NoneAllows [] k = Unit {0}
NoneAllows (r ∷ rs) k = (¬ Allows r k) × NoneAllows rs k

refused : (r : HbaRule) (k : Connection) → rule_match r k ≡ false → ¬ Allows r k
refused r k e a = let t : rule_match r k ≡ true = (rule_match_iff r k).1 a in cc

-- hba_eval returns the first rule of the file that allows the connection, by an independent
-- description of what a rule allows (transport and TLS, an address that the mask takes to the
-- rule's network, a database and a user on the lists of names, or physical replication), and
-- returns no rule only if none of them allows it.
pub hba_eval_lem :
    (rules : List HbaRule) (k : Connection)
    → ((hba_eval rules k ≡ none) × NoneAllows rules k)
      ⊎ ((pre post : List HbaRule) × (r : HbaRule) × (hba_eval rules k ≡ some r)
          × (rules ≡ pre ++ (r ∷ post))
          × NoneAllows pre k
          × Allows r k)
unfolding hba_eval
hba_eval_lem [] k = inl (refl, tt)
hba_eval_lem (r ∷ rs) k = elim (Bool-cases (rule_match r k)) [
  | inl hit ↦ inr ([], rs, r, rw hit, refl, tt, (rule_match_iff r k).0 hit)
  | inr miss ↦ elim (hba_eval_lem rs k) [
    | inl (e, n) ↦ inl (rw miss e, (refused r k miss, n))
    | inr (pre, post, q, e, l, n, a) ↦
        inr (r ∷ pre, post, q, rw miss e, ap (◌∷◌ r) l, (refused r k miss, n), a)
  ]
]
