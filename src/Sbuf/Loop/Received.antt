-- ===== src/Sbuf/Loop/Received.antt =====
-- src/sbuf.c: received bytes in the buffer.
use pgbouncer.Base.{
  ℕ, zero, suc, ◌+◌, ◌%◌, ◌^◌, ◌≤◌, ◌≡◌, refl, sym, ap, ◌∙◌, Bytes, [], ◌∷◌, ◌++◌, arith, length,
  take, drop, length-take, append-nil, take-take, take-append_le,
}
use pgbouncer.Pktbuf.Memory.{poke, length-poke, take-poke}
use pgbouncer.Iobuf.{IoBuf}
use pgbouncer.Iobuf.Segments.{IsSane, pending, unparsed}
use pgbouncer.Sbuf.Owed.{drop-append_le}
use pgbouncer.Sbuf.Loop.{received}

drop_whole : (n : ℕ) (bs : Bytes) → drop n (take n bs) ≡ []
drop_whole zero bs = refl
drop_whole (suc n) [] = refl
drop_whole (suc n) (b ∷ bs) = drop_whole n bs

pub got_split :
    (n m : ℕ) (bs : Bytes) → take n (take m bs) ++ drop (length (take n (take m bs))) bs ≡ bs
got_split zero m bs = refl
got_split (suc n) zero bs = refl
got_split (suc n) (suc m) [] = refl
got_split (suc n) (suc m) (b ∷ bs) = ap (◌∷◌ b) (got_split n m bs)

pub received_lem :
    (cap : ℕ) (io : IoBuf) (bs : Bytes)
    → IsSane cap io
    → io.recv_pos + length bs ≤ cap
    → IsSane cap (received io bs)
      × (pending (received io bs) ≡ pending io)
      × (unparsed (received io bs) ≡ unparsed io ++ bs)
received_lem cap io bs v fits =
    let n = length bs in
    let e : (io.recv_pos + n) % 2 ^ 32 ≡ io.recv_pos + n = omega (arith, v.small) in
    let room : io.recv_pos + n ≤ length io.buf = omega (arith, v.allocated) in
    let written : take (io.recv_pos + n) (poke io.buf io.recv_pos bs)
        ≡ take io.recv_pos io.buf ++ bs =
      take-poke io.buf io.recv_pos bs (io.recv_pos + n) (omega arith) room
      ∙ ap (λ x. take io.recv_pos io.buf ++ bs ++ x) (drop_whole (io.recv_pos + n) io.buf)
      ∙ append-nil (take io.recv_pos io.buf ++ bs) in
    let before : take io.parse_pos (poke io.buf io.recv_pos bs) ≡ take io.parse_pos io.buf =
      sym (
        take-take io.parse_pos (io.recv_pos + n) (poke io.buf io.recv_pos bs)
          (omega (arith, v.parse_le_recv)))
      ∙ ap (take io.parse_pos) written
      ∙ take-append_le io.parse_pos (take io.recv_pos io.buf) bs
          (omega (arith, length-take io.recv_pos io.buf, v.parse_le_recv))
      ∙ take-take io.parse_pos io.recv_pos io.buf v.parse_le_recv in
    rw e (
      record {
        done_le_parse = v.done_le_parse;
        parse_le_recv = omega (arith, v.parse_le_recv);
        recv_le_cap = fits;
        allocated = length-poke io.buf io.recv_pos bs ∙ v.allocated;
        small = v.small;
      },
      ap (drop io.done_pos) before,
      ap (drop io.parse_pos) written
          ∙ drop-append_le io.parse_pos (take io.recv_pos io.buf) bs
              (omega (arith, length-take io.recv_pos io.buf, v.parse_le_recv)),
    )
