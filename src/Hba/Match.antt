-- ===== src/Hba/Match.antt =====
-- hba_eval of src/hba.c: the rule that decides for a connection.
pub mod Within
pub mod Sound
use pgbouncer.Base.{
  ℕ, ◌≡◌, Bool, true, false, not, ◌&&◌, List, [], ◌∷◌, Option, none, some, Bytes, if◌then◌else◌,
  str_eq,
}
use pgbouncer.Hba.Names.{HbaName, contains}
use pgbouncer.Hba.Address.{Family, af_unix, PgAddr, family_eq, address_match}
use pgbouncer.Hba.Rules.{RuleType, rule_local, rule_host, rule_hostssl, rule_hostnossl, HbaRule}

pub data ReplicationType : Type 0 where
  replication_none replication_logical replication_physical : ReplicationType

unfoldable pub name_match : HbaName → Bytes → Bytes → Bool
name_match h name pair =
    if h.name_all
    then true
    else if h.name_sameuser && str_eq name pair
    then true
    else elim h.name_set [ some ns ↦ contains ns name | none ↦ false ]

-- The arguments of hba_eval.
pub record Connection : Type 0 where
  pub addr : PgAddr
  pub is_tls : Bool
  pub replication : ReplicationType
  pub dbname : Bytes
  pub username : Bytes

abbrev pub is_unix : Connection → Bool
is_unix k = family_eq k.addr.sa_family af_unix

-- The first `if` chain: the type of the rule against the transport, and the address.
unfoldable pub transport_match : HbaRule → Connection → Bool
transport_match rule k =
    if is_unix k
    then elim rule.rule_type [ rule_local ↦ true | _ ↦ false ]
    else elim rule.rule_type [
      | rule_local ↦ false
      | rule_hostssl ↦ if k.is_tls then address_match rule.address k.addr else false
      | rule_hostnossl ↦ if k.is_tls then false else address_match rule.address k.addr
      | rule_host ↦ address_match rule.address k.addr
    ]

unfoldable pub db_match : HbaRule → Connection → Bool
db_match rule k = elim k.replication [
  | replication_physical ↦ rule.db_name.name_replication
  | _ ↦ name_match rule.db_name k.dbname k.username
]

abbrev pub rule_match : HbaRule → Connection → Bool
rule_match rule k =
    if transport_match rule k
    then (if db_match rule k then name_match rule.user_name k.username k.dbname else false)
    else false

unfoldable pub hba_eval : List HbaRule → Connection → Option HbaRule
hba_eval [] k = none
hba_eval (rule ∷ rules) k = if rule_match rule k then some rule else hba_eval rules k
