-- ===== src/Hba/Address.antt =====
-- The addresses of rules in src/hba.c. inet_pton and strtoul are parameters.
pub mod Masks
use Prim.Native.Nat.{bit_and, bit_xor}
use pgbouncer.Base.{
  ℕ, zero, suc, ◌+◌, ◌-◌, ◌*◌, ◌/◌, ◌%◌, ◌^◌, ◌≤◌, ◌<◌, ◌≡◌, refl, Bool, true, false, not, ◌&&◌,
  ◌||◌, List, [], ◌∷◌, Option, none, some, arith, Bytes, ltb, ◌==◌, if◌then◌else◌, ◌>>=◌,
  Bool-cases, ==_iff, inl, inr,
}

pub data Family : Type 0 where
  af_unspec af_unix af_inet af_inet6 : Family

-- `addr` and `mask` are the 4 or 16 bytes that the family uses.
pub record HbaAddress : Type 0 where
  pub address_all : Bool
  pub family : Family
  pub addr : Bytes
  pub mask : Bytes

abbrev pub no_address : HbaAddress
no_address = record { address_all = false; family = af_unspec; addr = []; mask = [] }

abbrev pub address_bytes : Family → ℕ
address_bytes af_inet = 4
address_bytes _ = 16

-- inet_pton(family, text), and strtoul(text, &end, 10): the value, the rest, and whether errno is
-- set.
pub record Libc : Type 0 where
  pub inet_pton : Family → Bytes → Option Bytes
  pub strtoul : Bytes → ℕ × Bytes × Bool

unfoldable pub parse_addr : Libc → HbaAddress → Bytes → Option HbaAddress
parse_addr c a addr = elim (c.inet_pton af_inet6 addr) [
  | some b ↦ some (record a { family = af_inet6; addr = b })
  | none ↦ elim (c.inet_pton af_inet addr) [
    | some b ↦ some (record a { family = af_inet; addr = b })
    | none ↦ none
  ]
]

-- Byte `i` of a mask of `bits` ones.
abbrev pub mask_byte : ℕ → ℕ → ℕ
mask_byte bits i =
    if ltb i (bits / 8)
    then 255
    else if i == bits / 8 && not (bits % 8 == 0)
    then 255 * 2 ^ (8 - bits % 8) % 256
    else 0

unfoldable pub mask_from : ℕ → ℕ → ℕ → Bytes
mask_from bits i zero = []
mask_from bits i (suc n) = mask_byte bits i ∷ mask_from bits (i + 1) n

abbrev pub family_eq : Family → Family → Bool
family_eq af_unspec af_unspec = true
family_eq af_unix af_unix = true
family_eq af_inet af_inet = true
family_eq af_inet6 af_inet6 = true
family_eq _ _ = false

unfoldable pub parse_nmask : Libc → HbaAddress → Bytes → Option HbaAddress
unfolding mask_from
parse_nmask c a nmask =
    let (bits, end, erred) = c.strtoul nmask in
    let rest : Bool = elim end [ [] ↦ false | _ ∷ _ ↦ true ] in
    if erred || rest
    then none
    else if family_eq a.family af_inet && ltb 32 bits
    then none
    else if family_eq a.family af_inet6 && ltb 128 bits
    then none
    else some (record a { mask = mask_from bits 0 (address_bytes a.family) })

-- A bit of the address outside the mask.
unfoldable pub bad_bytes : Bytes → Bytes → Bool
bad_bytes [] ms = false
bad_bytes (b ∷ bs) [] = false
bad_bytes (b ∷ bs) (m ∷ ms) = not (bit_and b (bit_xor 255 m) == 0) || bad_bytes bs ms

unfoldable pub bad_mask : HbaAddress → Bool
bad_mask a = bad_bytes a.addr a.mask

-- (src & mask) == base, byte by byte; the source compares words of four.
unfoldable pub masked_eq : Bytes → Bytes → Bytes → Bool
masked_eq [] ms bs = true
masked_eq (s ∷ ss) (m ∷ ms) (b ∷ bs) = bit_and s m == b && masked_eq ss ms bs
masked_eq (s ∷ ss) _ _ = false

-- PgAddr: the family and the bytes of the peer's address.
pub record PgAddr : Type 0 where
  pub sa_family : Family
  pub bytes : Bytes

unfoldable pub match_inet4 : HbaAddress → PgAddr → Bool
match_inet4 a addr =
    if family_eq addr.sa_family af_inet then masked_eq addr.bytes a.mask a.addr else false

unfoldable pub match_inet6 : HbaAddress → PgAddr → Bool
match_inet6 a addr =
    if family_eq addr.sa_family af_inet6 then masked_eq addr.bytes a.mask a.addr else false

unfoldable pub address_match : HbaAddress → PgAddr → Bool
address_match a addr =
    if a.address_all
    then true
    else elim a.family [ af_inet ↦ match_inet4 a addr | af_inet6 ↦ match_inet6 a addr | _ ↦ false ]
