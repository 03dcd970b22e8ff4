-- ===== src/Iobuf/Segments.antt =====
-- include/iobuf.h: the buffer as two byte strings, what is parsed and to be sent, and what is
-- received and to be parsed.
use pgbouncer.Base.{
  ℕ, ◌+◌, ◌-◌, ◌%◌, ◌^◌, ◌≤◌, ◌<◌, ◌≡◌, refl, ap, sym, ◌∙◌, true, [], ◌++◌, arith, Bytes, length,
  take, drop, slice, slice-append, length-slice, take-slice, take_all, slice_empty, ◌&&◌, drop-drop,
  drop-take_self, ltb, leb, ◌==◌, if_intro, tests, sub32,
}
use pgbouncer.Pktbuf.Memory.{poke, length-poke, take-poke_start}
use pgbouncer.Iobuf.{
  IoBuf, sane, amount_parse, parse_all, parse_limit, tag_send, tag_skip, try_resync,
}

pub record IsSane (cap : ℕ) (io : IoBuf) : Type 0 where
  pub done_le_parse : io.done_pos ≤ io.parse_pos
  pub parse_le_recv : io.parse_pos ≤ io.recv_pos
  pub recv_le_cap : io.recv_pos ≤ cap
  pub allocated : length io.buf ≡ cap
  pub small : cap < 2 ^ 31

abbrev pub pending : IoBuf → Bytes
pending io = slice io.buf io.done_pos io.parse_pos

abbrev pub unparsed : IoBuf → Bytes
unparsed io = slice io.buf io.parse_pos io.recv_pos

-- The check that the code makes, iobuf_sane, is the order of the three positions.
pub IsSane-sane : (cap : ℕ) (io : IoBuf) → IsSane cap io → sane cap io ≡ true
unfolding sane
IsSane-sane cap io v = ground arith

-- iobuf_tag_send of no more than is unparsed keeps a sane buffer sane and moves that many unparsed
-- bytes to the end of the pending ones.
pub tag_send_lem :
    (cap len : ℕ) (io : IoBuf)
    → IsSane cap io
    → len ≤ amount_parse io
    → IsSane cap (tag_send io len)
      × (pending (tag_send io len) ≡ pending io ++ take len (unparsed io))
      × (unparsed (tag_send io len) ≡ drop len (unparsed io))
unfolding tag_send amount_parse
tag_send_lem cap len io v h =
    let e : (io.parse_pos + len) % 2 ^ 32 ≡ io.parse_pos + len = omega arith in
    let k : io.parse_pos + len ≤ io.recv_pos = omega arith in
    rw e (
      record {
        done_le_parse = omega arith;
        parse_le_recv = k;
        recv_le_cap = v.recv_le_cap;
        allocated = v.allocated;
        small = v.small;
      },
      rw (take-slice len io.parse_pos io.recv_pos io.buf k) (
          sym (
            slice-append io.done_pos io.parse_pos (io.parse_pos + len) io.buf v.done_le_parse
              (omega arith))),
      sym (drop-drop len io.parse_pos (take io.recv_pos io.buf)),
    )

-- iobuf_tag_skip with nothing pending, of no more than is unparsed, keeps a sane buffer sane,
-- leaves nothing pending and drops that many unparsed bytes.
pub tag_skip_lem :
    (cap len : ℕ) (io : IoBuf)
    → IsSane cap io
    → io.parse_pos ≡ io.done_pos
    → len ≤ amount_parse io
    → IsSane cap (tag_skip io len)
      × (pending (tag_skip io len) ≡ [])
      × (unparsed (tag_skip io len) ≡ drop len (unparsed io))
unfolding tag_skip amount_parse
tag_skip_lem cap len io v d h =
    let e : (io.parse_pos + len) % 2 ^ 32 ≡ io.parse_pos + len = omega arith in
    let k : io.parse_pos + len ≤ io.recv_pos = omega arith in
    rw e (
      record {
        done_le_parse = omega arith;
        parse_le_recv = k;
        recv_le_cap = v.recv_le_cap;
        allocated = v.allocated;
        small = v.small;
      },
      drop-take_self (io.parse_pos + len) io.buf,
      sym (drop-drop len io.parse_pos (take io.recv_pos io.buf)),
    )

-- On a sane buffer iobuf_parse_all hands out all of the unparsed bytes, iobuf_parse_limit the
-- first of them up to the limit.
pub parse_lem :
    (cap limit : ℕ) (io : IoBuf)
    → IsSane cap io
    → (parse_all io ≡ unparsed io) × (parse_limit io limit ≡ take limit (unparsed io))
unfolding parse_all parse_limit amount_parse
parse_lem cap limit io v =
    let e : io.parse_pos + sub32 io.recv_pos io.parse_pos ≡ io.recv_pos = omega arith in
    (
      ap (slice io.buf io.parse_pos) e,
      if_intro
          (λ avail. slice io.buf io.parse_pos (io.parse_pos + avail) ≡ take limit (unparsed io))
          (ltb limit (sub32 io.recv_pos io.parse_pos)) _ _
          (λ more. sym (take-slice limit io.parse_pos io.recv_pos io.buf (omega tests)))
          λ all.
            ap (slice io.buf io.parse_pos) e
            ∙ sym (
                take_all limit (unparsed io) (
                  omega (
                    tests,
                    length-slice io.parse_pos io.recv_pos io.buf v.parse_le_recv (omega arith),
                  ))),
    )

abbrev pub Resynced : ℕ → IoBuf → IoBuf → Type 0
Resynced cap io io' = IsSane cap io' × (pending io' ≡ pending io) × (unparsed io' ≡ unparsed io)

rewound-Resynced :
    (cap : ℕ) (io : IoBuf)
    → IsSane cap io
    → io.recv_pos ≡ io.done_pos
    → Resynced cap io (record io { recv_pos = 0; parse_pos = 0; done_pos = 0 })
rewound-Resynced cap io v e = (
  record {
    done_le_parse = omega arith;
    parse_le_recv = omega arith;
    recv_le_cap = omega arith;
    allocated = v.allocated;
    small = v.small;
  },
  sym (slice_empty io.done_pos io.parse_pos io.buf (omega arith)),
  sym (slice_empty io.parse_pos io.recv_pos io.buf (omega arith)),
)

abbrev moved : IoBuf → Bytes → IoBuf
moved io live = record io {
  buf = poke io.buf 0 live;
  parse_pos = sub32 io.parse_pos io.done_pos;
  recv_pos = sub32 io.recv_pos io.done_pos;
  done_pos = 0;
}

moved-Resynced :
    (cap : ℕ) (io : IoBuf) (live : Bytes)
    → IsSane cap io
    → live ≡ slice io.buf io.done_pos io.recv_pos
    → Resynced cap io (moved io live)
moved-Resynced cap io live v e =
    let len : length live ≡ io.recv_pos - io.done_pos =
      rw e
        (length-slice io.done_pos io.recv_pos io.buf (omega arith) (omega (arith, v.allocated))) in
    let d : sub32 io.parse_pos io.done_pos ≡ io.parse_pos - io.done_pos = omega arith in
    let n : sub32 io.recv_pos io.done_pos ≡ io.recv_pos - io.done_pos = omega arith in
    let fits : length live ≤ length io.buf = omega arith in
    (
      record {
        done_le_parse = omega arith;
        parse_le_recv = omega arith;
        recv_le_cap = omega arith;
        allocated = length-poke io.buf 0 live ∙ v.allocated;
        small = v.small;
      },
      take-poke_start io.buf live (sub32 io.parse_pos io.done_pos) (omega arith) fits
          ∙ rw
              (
                e,
                take-slice (sub32 io.parse_pos io.done_pos) io.done_pos io.recv_pos io.buf
                    (omega arith),
              )
              (ap (slice io.buf io.done_pos) (omega arith)),
      ap (drop (sub32 io.parse_pos io.done_pos)) (
            take-poke_start io.buf live (sub32 io.recv_pos io.done_pos) (omega arith) fits
            ∙ take_all (sub32 io.recv_pos io.done_pos) live (omega arith))
          ∙ rw (e, drop-drop (sub32 io.parse_pos io.done_pos) io.done_pos (take io.recv_pos io.buf))
              (ap (λ k. slice io.buf k io.recv_pos) (omega arith)),
    )

-- iobuf_try_resync on a sane buffer keeps it sane and loses no byte, pending or unparsed, whether
-- it rewinds, moves the live bytes or leaves the buffer alone.
pub try_resync_lem :
    (cap small_pkt : ℕ) (io : IoBuf) → IsSane cap io → Resynced cap io (try_resync io small_pkt)
unfolding try_resync
try_resync_lem cap small_pkt io v =
    if_intro (Resynced cap io) (sub32 io.recv_pos io.done_pos == 0) _ _
      (λ none_left.
        if_intro (Resynced cap io) (ltb 0 io.recv_pos) _ _
          (λ _.
            rewound-Resynced cap io v
              (ground (arith, v.done_le_parse, v.parse_le_recv, v.recv_le_cap, v.small)))
          λ _. (v, refl, refl))
      λ some_left.
        if_intro (Resynced cap io)
          (leb (sub32 io.recv_pos io.done_pos) small_pkt && ltb 0 io.done_pos) _ _
          (λ few. moved-Resynced cap io _ v (ap (slice io.buf io.done_pos) (omega arith)))
          λ _. (v, refl, refl)
