-- ===== src/Hba/Address/Masks.antt =====
-- The masks of src/hba.c, and addresses with bits outside them.
use Prim.Native.Nat.{bit_and, bit_xor}
use pgbouncer.Base.{
  ℕ, zero, suc, ◌<◌, ◌≡◌, refl, inl, inr, Bool, true, false, if◌then◌else◌, [], ◌∷◌, arith, Bytes,
  length, ◌==◌, ==_iff, Bool-cases, subst,
}
use pgbouncer.Hba.Address.{
  bad_bytes, masked_eq, HbaAddress, PgAddr, bad_mask, match_inet4, match_inet6, address_match,
}

-- What a mask lets through of a source byte has no bit outside the mask.
abbrev inside : ℕ → ℕ → Bool
inside src mask = bit_and (bit_and src mask) (bit_xor 255 mask) == 0

-- That, tried out for one source byte and the masks below a number, and for all source bytes below
-- a number.
row_holds : ℕ → ℕ → Bool
row_holds src zero = true
row_holds src (suc mask) = if inside src mask then row_holds src mask else false

table_holds : ℕ → ℕ → Bool
unfolding row_holds
table_holds masks zero = true
table_holds masks (suc src) = if row_holds src masks then table_holds masks src else false

row_holds-inside :
    (src mask bound : ℕ) → mask < bound → row_holds src bound ≡ true → inside src mask ≡ true
unfolding row_holds
row_holds-inside src mask zero lt h = absurd (omega arith)
row_holds-inside src mask (suc bound) lt h = ground (arith, row_holds-inside src mask bound, h)

table_holds-row :
    (masks src bound : ℕ)
    → src < bound
    → table_holds masks bound ≡ true
    → row_holds src masks ≡ true
unfolding table_holds
table_holds-row masks src zero lt h = absurd (omega arith)
table_holds-row masks src (suc bound) lt h = ground (arith, table_holds-row masks src bound, h)

bytes_table : table_holds 256 256 ≡ true
unfolding table_holds row_holds
bytes_table = refl

and_outside : (src mask : ℕ) → src < 256 → mask < 256 → inside src mask ≡ true
and_outside src mask h k =
    row_holds-inside src mask 256 k (table_holds-row 256 src 256 h bytes_table)

abbrev pub AreBytes : Bytes → Type 0
AreBytes [] = Unit {0}
AreBytes (x ∷ xs) = (x < 256) × AreBytes xs

masked_eq-bad :
    (ss ms bs : Bytes)
    → AreBytes ss
    → AreBytes ms
    → length ss ≡ length bs
    → bad_bytes bs ms ≡ true
    → masked_eq ss ms bs ≡ false
unfolding bad_bytes masked_eq
masked_eq-bad [] ms [] hs hm l bad = cc
masked_eq-bad [] ms (b ∷ bs) hs hm l bad = absurd (omega arith)
masked_eq-bad (s ∷ ss) ms [] hs hm l bad = absurd (omega arith)
masked_eq-bad (s ∷ ss) [] (b ∷ bs) hs hm l bad = refl
masked_eq-bad (s ∷ ss) (m ∷ ms) (b ∷ bs) hs hm l bad = elim (Bool-cases (bit_and s m == b)) [
  | inr differ ↦ rw differ
  | inl same ↦
      let e : bit_and s m ≡ b = (==_iff (bit_and s m) b).0 same in
      let o : (bit_and b (bit_xor 255 m) == 0) ≡ true =
        subst (λ x. (bit_and x (bit_xor 255 m) == 0) ≡ true) e (and_outside s m hs.0 hm.0) in
      rw same (masked_eq-bad ss ms bs hs.1 hm.1 (omega arith) (rw o at bad))
]

-- A rule's address with bits outside its mask, the case that the parser warns about, matches no
-- peer with an address of the same length.
pub address_match-bad_mask :
    (a : HbaAddress) (p : PgAddr)
    → a.address_all ≡ false
    → AreBytes a.mask
    → AreBytes p.bytes
    → length p.bytes ≡ length a.addr
    → bad_mask a ≡ true
    → address_match a p ≡ false
unfolding address_match match_inet4 match_inet6 bad_mask
address_match-bad_mask a p all hm hp l bad =
    ground (arith, masked_eq-bad p.bytes a.mask a.addr hp hm l bad)
