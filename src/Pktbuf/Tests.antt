-- ===== src/Pktbuf/Tests.antt =====
-- src/pktbuf.c: the writers on small buffers.
use pgbouncer.Base.{
  ℕ, zero, suc, ◌+◌, ◌≡◌, refl, ◌∙◌, inr, false, List, [], ◌∷◌, ◌++◌, none, some, arith, Bytes,
  length, length-append, take, length-take, take-take, take-append_le, text,
}
use pgbouncer.Pktbuf.Memory.{Allocator}
use pgbouncer.Pktbuf.Room.{IsValid, Roomy, make_room_lem}
use pgbouncer.Pktbuf.Frames.{encode_all, frame, Sends}
use pgbouncer.Pktbuf.Generic.{write_generic-Sends}
use pgbouncer.Pktbuf.Rows.{ext_query, write_data_row-Sends, write_ext_query-Sends}
use pgbouncer.Pktbuf.Fields.{
  row_bytes, HexText, no_bytes, byte, decimal, letter, null_text, hex_text, no_columns, column,
}
use pgbouncer.Pktbuf.Writes.{be16}
use pgbouncer.Pktbuf.Delivery.{Delivers, write_ext_query-Delivers}
use pgbouncer.Pktbuf.Packets.{
  string, ColumnType, int4, bytea, Datum, string_value, bytes_value, Printer, write_generic,
  write_data_row, write_ext_query,
}
use pgbouncer.Pktbuf.{PktBuf, make_room}

abbrev pub zeros : ℕ → Bytes
zeros zero = []
zeros (suc n) = 0 ∷ zeros n

pub length-zeros : (n : ℕ) → length (zeros n) ≡ n
length-zeros zero = refl
length-zeros (suc n) = omega (arith, length-zeros n)

-- A realloc that never fails and clears what it adds.
abbrev pub clearing_heap : Allocator
clearing_heap = record {
  realloc = λ m n. some (take n (m ++ zeros n));
  length-realloc = λ m n m' e.
      let e' : m' ≡ take n (m ++ zeros n) = cc in
      rw e'
        (omega (arith, length-take n (m ++ zeros n), length-append m (zeros n), length-zeros n));
  take-realloc = λ m n w m' e h k.
      let e' : m' ≡ take n (m ++ zeros n) = cc in
      rw e' (take-take w n (m ++ zeros n) k ∙ take-append_le w m (zeros n) h);
}

-- A buffer of eight bytes with one written.
abbrev pub small_buf : PktBuf
small_buf = record {
  buf = 7 ∷ zeros 7;
  buf_len = 8;
  write_pos = 1;
  pktlen_pos = 0;
  send_pos = 0;
  failed = false;
  sending = false;
  fixed_buf = false;
}

pub small_buf-IsValid : IsValid small_buf
small_buf-IsValid = record {
  allocated = refl;
  written = omega arith;
  small = omega arith;
  grows = inr (omega arith);
}

make_room_lem_example : Roomy clearing_heap small_buf 9 (make_room clearing_heap small_buf 9)
make_room_lem_example = make_room_lem clearing_heap small_buf 9 small_buf-IsValid

write_generic-Sends_example :
    Sends clearing_heap small_buf
      (frame b'S' (encode_all (string (text "TimeZone") ∷ string (text "UTC") ∷ [])))
      (write_generic clearing_heap small_buf b'S'
        (string (text "TimeZone") ∷ string (text "UTC") ∷ []))
write_generic-Sends_example =
    write_generic-Sends clearing_heap small_buf b'S'
      (string (text "TimeZone") ∷ string (text "UTC") ∷ []) small_buf-IsValid

abbrev columns : List (Bytes × ColumnType)
columns = (text "id", int4) ∷ (text "key", bytea) ∷ []

abbrev printer : Printer
printer = record {
  print_int = λ n. (b'0' + n) ∷ [];
  print_uint64 = λ n. (b'0' + n) ∷ [];
  print_time = λ n. (b'0' + n) ∷ [];
}

abbrev row : List Datum
row = string_value none ∷ bytes_value (some (1 ∷ 171 ∷ [])) ∷ []

abbrev two_hex : HexText (1 ∷ 171 ∷ []) (text "01ab")
two_hex =
    byte 0 1 _ _ (decimal 0 (omega arith)) (decimal 1 (omega arith))
      (byte 10 11 _ _ (letter 0 (omega arith)) (letter 1 (omega arith)) no_bytes)

write_data_row-Sends_example :
    Sends clearing_heap small_buf
      (frame b'D' (be16 2 ++ row_bytes (none ∷ some (text "\\x01ab") ∷ [])))
      (write_data_row clearing_heap printer small_buf row)
write_data_row-Sends_example =
    write_data_row-Sends clearing_heap printer small_buf row (none ∷ some (text "\\x01ab") ∷ [])
      (column _ _ null_text (column _ _ (hex_text _ _ (omega arith) two_hex) no_columns))
      small_buf-IsValid

abbrev query : Bytes
query = text "select $1"

write_ext_query-Sends_example :
    Sends clearing_heap small_buf
      (ext_query query (text "a" ∷ []))
      (write_ext_query clearing_heap small_buf query (text "a" ∷ []))
write_ext_query-Sends_example =
    write_ext_query-Sends clearing_heap small_buf query (text "a" ∷ []) small_buf-IsValid

write_ext_query-Delivers_example :
    Delivers small_buf
      (ext_query query (text "a" ∷ []))
      (write_ext_query clearing_heap small_buf query (text "a" ∷ []))
write_ext_query-Delivers_example =
    write_ext_query-Delivers clearing_heap (λ m k e. cc) small_buf refl refl query (text "a" ∷ [])
      small_buf-IsValid (omega arith)
