-- ===== src/Iobuf.antt =====
-- include/iobuf.h: the temporary buffer of one read. Positions are unsigned ints; `cap` is
-- cf_sbuf_len. The Asserts are hypotheses of the theorems that need them.
pub mod Segments
mod Tests
use pgbouncer.Base.{
  ℕ, ◌+◌, ◌-◌, ◌%◌, ◌^◌, Bool, true, false, ◌&&◌, Bytes, ltb, leb, ◌==◌, if◌then◌else◌, min, slice,
  sub32,
}
use pgbouncer.Pktbuf.Memory.{poke}

pub record IoBuf : Type 0 where
  pub done_pos : ℕ
  pub parse_pos : ℕ
  pub recv_pos : ℕ
  pub buf : Bytes

pub sane : ℕ → IoBuf → Bool
sane cap io = leb io.done_pos io.parse_pos && (leb io.parse_pos io.recv_pos && leb io.recv_pos cap)

unfoldable pub is_empty : IoBuf → Bool
is_empty io = io.done_pos == io.recv_pos

pub amount_pending : IoBuf → ℕ
amount_pending io = sub32 io.parse_pos io.done_pos

unfoldable pub amount_parse : IoBuf → ℕ
amount_parse io = sub32 io.recv_pos io.parse_pos

unfoldable pub amount_recv : ℕ → IoBuf → ℕ
amount_recv cap io = sub32 cap io.recv_pos

-- What the mbuf reader is given: the bytes from parse_pos on.
unfoldable pub parse_all : IoBuf → Bytes
unfolding amount_parse
parse_all io = slice io.buf io.parse_pos (io.parse_pos + amount_parse io)

unfoldable pub parse_limit : IoBuf → ℕ → Bytes
unfolding amount_parse
parse_limit io limit =
    let avail = if ltb limit (amount_parse io) then limit else amount_parse io in
    slice io.buf io.parse_pos (io.parse_pos + avail)

unfoldable pub tag_send : IoBuf → ℕ → IoBuf
tag_send io len = record io { parse_pos = (io.parse_pos + len) % 2 ^ 32 }

unfoldable pub tag_skip : IoBuf → ℕ → IoBuf
tag_skip io len =
    let pos = (io.parse_pos + len) % 2 ^ 32 in record io { parse_pos = pos; done_pos = pos }

-- memmove of the live bytes to the front, when they are few.
unfoldable pub try_resync : IoBuf → ℕ → IoBuf
try_resync io small_pkt =
    let avail = sub32 io.recv_pos io.done_pos in
    if avail == 0
    then (if ltb 0 io.recv_pos then record io { recv_pos = 0; parse_pos = 0; done_pos = 0 } else io)
    else if leb avail small_pkt && ltb 0 io.done_pos
    then record io {
      buf = poke io.buf 0 (slice io.buf io.done_pos (io.done_pos + avail));
      parse_pos = sub32 io.parse_pos io.done_pos;
      recv_pos = avail;
      done_pos = 0;
    }
    else io

unfoldable pub reset : IoBuf → IoBuf
reset io = record io { recv_pos = 0; parse_pos = 0; done_pos = 0 }
