-- ===== src/Pktbuf/Delivery.antt =====
-- src/pktbuf.c: pktbuf_write_ExtQuery on a buffer that grows and an allocator that does not fail.
use pgbouncer.Base.{
  ℕ, ◌+◌, ◌≤◌, ◌≡◌, ◌≢◌, false, List, ◌++◌, Option, none, some, arith, Bytes, length,
}
use pgbouncer.Pktbuf.Memory.{Allocator}
use pgbouncer.Pktbuf.Room.{IsValid, contents, Fails, was_failed, no_room, too_long, no_memory}
use pgbouncer.Pktbuf.Frames.{Sends, sent, gave_up}
use pgbouncer.Pktbuf.Rows.{ext_query, write_ext_query-Sends}
use pgbouncer.Pktbuf.Packets.{write_ext_query}
use pgbouncer.Pktbuf.{PktBuf, int_max}

-- It returns, and the whole of `p` is in the buffer.
abbrev pub Delivers : PktBuf → Bytes → Option PktBuf → Type 0
Delivers b p r =
    (b' : PktBuf) × (r ≡ some b') × (b'.failed ≡ false) × (contents b' ≡ contents b ++ p)

module _ (heap : Allocator) (total : (m : Bytes) (k : ℕ) → heap.realloc m k ≢ none) (b : PktBuf)
    (ok : b.failed ≡ false) (dynamic : b.fixed_buf ≡ false) where
  never-Fails : (n : ℕ) → b.write_pos + n ≤ int_max → ¬ Fails heap b n
  never-Fails n h (was_failed bad) = cc
  never-Fails n h (no_room fixed k) = cc
  never-Fails n h (too_long k) = omega arith
  never-Fails n h (no_memory m k e) = total m k e

  Sends-Delivers :
      (p : Bytes) (r : Option PktBuf)
      → b.write_pos + (length p + 2) ≤ int_max
      → Sends heap b p r
      → Delivers b p r
  Sends-Delivers p r h (b', e, sent v _ ok' c) = (b', e, ok', c)
  Sends-Delivers p r h (b', e, gave_up v bad why) = absurd (never-Fails (length p + 2) h why)

  -- On a growing buffer that has not failed, with an allocator that always succeeds, an extended
  -- query whose packets stay below INT_MAX with two bytes to spare is written in full.
  pub write_ext_query-Delivers :
      (query : Bytes) (args : List Bytes)
      → IsValid b
      → b.write_pos + (length (ext_query query args) + 2) ≤ int_max
      → Delivers b (ext_query query args) (write_ext_query heap b query args)
  write_ext_query-Delivers query args v h =
      Sends-Delivers (ext_query query args) _ h (write_ext_query-Sends heap b query args v)
