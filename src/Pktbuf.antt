-- ===== src/Pktbuf.antt =====
-- src/pktbuf.c and include/pktbuf.h: the writer of PostgreSQL packets over a buffer that grows
-- (pktbuf_dynamic) or a fixed one (pktbuf_static). An operation returns the buffer afterwards, and
-- `none` if it would not return. `int` values are kept as naturals with INT_MAX written out;
-- event handling and sending are not modelled.
pub mod Memory
pub mod Room
pub mod Writes
pub mod Packets
pub mod Frames
pub mod Generic
pub mod Fields
pub mod Rows
pub mod Delivery
pub mod Tests
use pgbouncer.Base.{
  ℕ, zero, suc, ◌+◌, ◌-◌, ◌*◌, ◌/◌, ◌%◌, ◌^◌, Bool, true, false, List, [], ◌∷◌, ◌++◌, Option, none,
  some, Bytes, length, ltb, leb, ◌==◌, if◌then◌else◌, ◌>>=◌,
}
use Memory.{Allocator, poke}

abbrev pub int_max : ℕ
int_max = 2 ^ 31 - 1

pub record PktBuf : Type 0 where
  pub buf : Bytes
  pub buf_len : ℕ
  pub write_pos : ℕ
  pub pktlen_pos : ℕ
  pub send_pos : ℕ
  pub failed : Bool
  pub sending : Bool
  pub fixed_buf : Bool

-- pktbuf_dynamic, on the memory that malloc(start_len) returned.
pub pktbuf_dynamic : Bytes → PktBuf
pktbuf_dynamic m = record {
  buf = m;
  buf_len = length m;
  write_pos = 0;
  pktlen_pos = 0;
  send_pos = 0;
  failed = false;
  sending = false;
  fixed_buf = false;
}

-- pktbuf_static, on the caller's array.
pub pktbuf_static : Bytes → PktBuf
pktbuf_static m = record {
  buf = m;
  buf_len = length m;
  write_pos = 0;
  pktlen_pos = 0;
  send_pos = 0;
  failed = false;
  sending = false;
  fixed_buf = true;
}

pub pktbuf_reset : PktBuf → PktBuf
pktbuf_reset pkt = record pkt {
  failed = false;
  write_pos = 0;
  pktlen_pos = 0;
  send_pos = 0;
  sending = false;
}

-- The doubling loop of make_room, on fuel; `none` is a loop that has not ended.
grow_len : ℕ → ℕ → ℕ → Option ℕ
grow_len zero newlen need = none
grow_len (suc f) newlen need =
    let rest = if ltb int_max (newlen * 2) then some need else grow_len f (newlen * 2) need in
    if ltb newlen need then rest else some newlen

-- The store that follows make_room in each operation: `d` at write_pos, which moves past it.
abbrev store : Bytes → PktBuf → PktBuf
store d b =
    if b.failed
    then b
    else record b { buf = poke b.buf b.write_pos d; write_pos = b.write_pos + length d }

abbrev mark_length : PktBuf → PktBuf
mark_length b = record b { pktlen_pos = b.write_pos }

-- The length is computed as an unsigned int.
pub finish_packet : PktBuf → PktBuf
finish_packet b =
    let len = (b.write_pos + 2 ^ 32 - b.pktlen_pos) % 2 ^ 32 in
    if b.failed then b else record b {
      buf =
          poke b.buf b.pktlen_pos
            (len / 2 ^ 24 % 256 ∷ len / 2 ^ 16 % 256 ∷ len / 2 ^ 8 % 256 ∷ len % 256 ∷ []);
      pktlen_pos = 0;
    }

module _ (heap : Allocator) where
  -- The last steps of make_room.
  reallocate : PktBuf → ℕ → PktBuf
  reallocate b newlen = elim (heap.realloc b.buf newlen) [
    | none ↦ record b { failed = true }
    | some ptr ↦ record b { buf = ptr; buf_len = newlen }
  ]

  -- Thirty-two rounds take any positive length past INT_MAX.
  pub make_room : PktBuf → ℕ → Option PktBuf
  make_room b len =
      let need = b.write_pos + len in
      if leb need b.buf_len
      then some b
      else if b.failed
      then some b
      else if b.fixed_buf
      then some (record b { failed = true })
      else if ltb int_max need
      then some (record b { failed = true })
      else grow_len 32 b.buf_len need >>= λ newlen. some (reallocate b newlen)

  pub put_char : PktBuf → ℕ → Option PktBuf
  put_char b val = do b' ← make_room b 1; some (store (val % 256 ∷ []) b')

  -- It asks for four bytes and writes two.
  pub put_uint16 : PktBuf → ℕ → Option PktBuf
  put_uint16 b val = do b' ← make_room b 4; some (store (val / 2 ^ 8 % 256 ∷ val % 256 ∷ []) b')

  pub put_uint32 : PktBuf → ℕ → Option PktBuf
  put_uint32 b val = do
    b' ← make_room b 4
    some (store (val / 2 ^ 24 % 256 ∷ val / 2 ^ 16 % 256 ∷ val / 2 ^ 8 % 256 ∷ val % 256 ∷ []) b')

  pub put_uint64 : PktBuf → ℕ → Option PktBuf
  put_uint64 b val = do b' ← put_uint32 b (val / 2 ^ 32); put_uint32 b' (val % 2 ^ 32)

  pub put_bytes : PktBuf → Bytes → Option PktBuf
  put_bytes b d = elim d [
    | [] ↦ some b
    | x ∷ xs ↦ make_room b (length (x ∷ xs)) >>= λ b'. some (store (x ∷ xs) b')
  ]

  -- A C string goes out with its terminating zero. It is shorter than INT_MAX, since strlen is cut
  -- to an int in the source.
  pub put_string : PktBuf → Bytes → Option PktBuf
  put_string b str = put_bytes b (str ++ 0 ∷ [])

  pub start_packet : PktBuf → ℕ → Option PktBuf
  start_packet b type =
      if b.failed
      then some b
      else if ltb type 256
      then (put_char b type >>= λ b'. put_uint32 (mark_length b') 0)
      else (put_uint32 (mark_length b) 0 >>= λ b'. put_uint32 b' type)
