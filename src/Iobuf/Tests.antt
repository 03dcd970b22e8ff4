-- ===== src/Iobuf/Tests.antt =====
-- include/iobuf.h: a buffer of eight bytes, the second to fourth pending, two more unparsed.
use pgbouncer.Base.{refl, [], ◌∷◌, arith}
use pgbouncer.Iobuf.Segments.{IsSane, Resynced, try_resync_lem}
use pgbouncer.Iobuf.{IoBuf, try_resync}

abbrev half_parsed : IoBuf
half_parsed = record {
  done_pos = 1;
  parse_pos = 4;
  recv_pos = 6;
  buf = 10 ∷ 11 ∷ 12 ∷ 13 ∷ 14 ∷ 15 ∷ 16 ∷ 17 ∷ [];
}

half_parsed-IsSane : IsSane 8 half_parsed
half_parsed-IsSane = record {
  done_le_parse = omega arith;
  parse_le_recv = omega arith;
  recv_le_cap = omega arith;
  allocated = refl;
  small = omega arith;
}

try_resync_lem_example : Resynced 8 half_parsed (try_resync half_parsed 5)
try_resync_lem_example = try_resync_lem 8 5 half_parsed half_parsed-IsSane
