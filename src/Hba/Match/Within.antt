-- ===== src/Hba/Match/Within.antt =====
-- Which addresses and names src/hba.c takes for those of a rule, described by themselves.
use Prim.Native.Nat.{bit_and}
use pgbouncer.Base.{
  ℕ, ◌≡◌, refl, ap, subst, inl, inr, true, false, List, [], ◌∷◌, ◌++◌, arith, Bytes, Bool-cases,
  ==_iff, str_eq, str_eq→eq, eq→str_eq,
}
use pgbouncer.Hba.Names.{contains}
use pgbouncer.Hba.Address.{
  Family, af_unspec, af_unix, af_inet, af_inet6, HbaAddress, PgAddr, family_eq, masked_eq,
  match_inet4, match_inet6, address_match,
}

-- Each byte of the address, cut by the mask, is the byte of the network.
pub data Within : Bytes → Bytes → Bytes → Type 0 where
  no_bytes : {masks nets : Bytes} → Within [] masks nets
  byte :
      (src mask : ℕ) {srcs masks nets : Bytes}
      → Within srcs masks nets
      → Within (src ∷ srcs) (mask ∷ masks) (bit_and src mask ∷ nets)

-- A rule for all addresses, or a network of the family of the address.
pub data ByAddress (a : HbaAddress) (p : PgAddr) : Type 0 where
  by_any : a.address_all ≡ true → ByAddress a p
  by_net4 :
      a.family ≡ af_inet → p.sa_family ≡ af_inet → Within p.bytes a.mask a.addr → ByAddress a p
  by_net6 :
      a.family ≡ af_inet6 → p.sa_family ≡ af_inet6 → Within p.bytes a.mask a.addr → ByAddress a p

masked_eq-Within : (ss ms bs : Bytes) → masked_eq ss ms bs ≡ true → Within ss ms bs
unfolding masked_eq
masked_eq-Within [] ms bs e = no_bytes
masked_eq-Within (s ∷ ss) (m ∷ ms) (b ∷ bs) e =
    let same : bit_and s m ≡ b = (==_iff (bit_and s m) b).0 (ground arith) in
    subst (λ x. Within (s ∷ ss) (m ∷ ms) (x ∷ bs)) same
      (byte s m (masked_eq-Within ss ms bs (ground arith)))
masked_eq-Within (s ∷ ss) [] bs e = ground arith
masked_eq-Within (s ∷ ss) (m ∷ ms) [] e = ground arith

Within-masked_eq : (ss ms bs : Bytes) → Within ss ms bs → masked_eq ss ms bs ≡ true
unfolding masked_eq
Within-masked_eq _ _ _ no_bytes = refl
Within-masked_eq _ _ _ (byte s m {srcs = ss} {masks = ms} {nets = bs} w) =
    let same = (==_iff (bit_and s m) (bit_and s m)).1 refl in
    let rest = Within-masked_eq ss ms bs w in rw (same, rest) refl

family_eq-inet : (f : Family) → family_eq f af_inet ≡ true → f ≡ af_inet
family_eq-inet af_inet e = refl
family_eq-inet af_unspec e = ground arith
family_eq-inet af_unix e = ground arith
family_eq-inet af_inet6 e = ground arith

family_eq-inet6 : (f : Family) → family_eq f af_inet6 ≡ true → f ≡ af_inet6
family_eq-inet6 af_inet6 e = refl
family_eq-inet6 af_unspec e = ground arith
family_eq-inet6 af_unix e = ground arith
family_eq-inet6 af_inet e = ground arith

pub address_match-ByAddress :
    (a : HbaAddress) (p : PgAddr) → address_match a p ≡ true → ByAddress a p
unfolding address_match match_inet4 match_inet6
address_match-ByAddress a p e = elim (Bool-cases a.address_all) [
  | inl all ↦ by_any all
  | inr some_net ↦ go some_net a.family refl
]
  where
    go : a.address_all ≡ false → (f : Family) → a.family ≡ f → ByAddress a p
    go n af_inet h =
        by_net4 h (family_eq-inet p.sa_family (ground arith))
          (masked_eq-Within p.bytes a.mask a.addr (ground arith))
    go n af_inet6 h =
        by_net6 h (family_eq-inet6 p.sa_family (ground arith))
          (masked_eq-Within p.bytes a.mask a.addr (ground arith))
    go n af_unspec h = ground arith
    go n af_unix h = ground arith

pub ByAddress-address_match :
    (a : HbaAddress) (p : PgAddr) → ByAddress a p → address_match a p ≡ true
unfolding address_match match_inet4 match_inet6
ByAddress-address_match a p (by_any all) = rw all refl
ByAddress-address_match a p (by_net4 f g w) =
    let m = Within-masked_eq p.bytes a.mask a.addr w in ground arith
ByAddress-address_match a p (by_net6 f g w) =
    let m = Within-masked_eq p.bytes a.mask a.addr w in ground arith

pub contains-Member :
    (ns : List Bytes) (name : Bytes)
    → contains ns name ≡ true
    → (pre post : List Bytes) × (ns ≡ pre ++ (name ∷ post))
unfolding contains
contains-Member (n ∷ ns) name e = elim (Bool-cases (str_eq n name)) [
  | inl same ↦ ([], ns, ap (λ x. x ∷ ns) (str_eq→eq n name same))
  | inr other ↦
      let (pre, post, l) = contains-Member ns name (ground arith) in (n ∷ pre, post, ap (◌∷◌ n) l)
]
contains-Member [] name e = ground arith

pub Member-contains :
    (pre post : List Bytes) (name : Bytes) → contains (pre ++ (name ∷ post)) name ≡ true
unfolding contains
Member-contains [] post name = rw (eq→str_eq name name refl) refl
Member-contains (n ∷ pre) post name = let rest = Member-contains pre post name in ground arith
