-- ===== src/Pktbuf/Packets.antt =====
-- src/pktbuf.c: the writers of whole packets, over the operations of the parent module.
use pgbouncer.Base.{
  ℕ, ◌+◌, ◌-◌, ◌*◌, ◌/◌, ◌%◌, ◌^◌, List, [], ◌∷◌, Option, none, some, Bytes, length, ltb,
  if◌then◌else◌, ◌>>=◌,
}
use pgbouncer.Pktbuf.Memory.{Allocator}
use pgbouncer.Pktbuf.{
  PktBuf, put_char, put_uint16, put_uint32, put_uint64, put_bytes, put_string, start_packet,
  finish_packet,
}

-- One directive of a pktdesc string with its argument: c, h, i, q, s, b.
pub data Arg : Type 0 where
  char uint16 uint32 uint64 : ℕ → Arg
  string bytes : Bytes → Arg

-- The types of result columns, tupdesc i, q, s, b, N, T. The code stops the process at any other.
pub data ColumnType : Type 0 where
  int4 int8 text bytea numeric date : ColumnType

-- The argument of one column of a DataRow. A null pointer, or a negative length of a bytea, is
-- `none`.
pub data Datum : Type 0 where
  int_value : ℕ → Datum
  uint64_value : ℕ → Datum
  string_value : Option Bytes → Datum
  bytes_value : Option Bytes → Datum
  time_value : ℕ → Datum

-- What snprintf("%d"), snprintf("%" PRIu64) and format_time_s print.
pub record Printer : Type 0 where
  pub print_int : ℕ → Bytes
  pub print_uint64 : ℕ → Bytes
  pub print_time : ℕ → Bytes

abbrev pub hex_digit : ℕ → ℕ
hex_digit n = if ltb n 10 then b'0' + n else b'a' + n - 10

-- sprintf("%02x") of each byte.
unfoldable pub hex : Bytes → Bytes
hex [] = []
hex (x ∷ xs) = hex_digit (x / 16) ∷ hex_digit (x % 16) ∷ hex xs

-- The text of a column, `some none` for a null. The process stops at a bytea that does not fit the
-- hundred bytes of `tmp`.
unfoldable pub datum_text : Printer → Datum → Option (Option Bytes)
unfolding hex
datum_text p (int_value n) = some (some (p.print_int n))
datum_text p (uint64_value n) = some (some (p.print_uint64 n))
datum_text p (string_value v) = some v
datum_text p (bytes_value none) = some none
datum_text p (bytes_value (some v)) =
    if ltb 100 (2 + length v * 2 + 1) then none else some (some (b'\\' ∷ b'x' ∷ hex v))
datum_text p (time_value n) = some (some (p.print_time n))

abbrev pub type_oid : ColumnType → ℕ
type_oid int4 = 23
type_oid int8 = 20
type_oid text = 25
type_oid bytea = 17
type_oid numeric = 1700
type_oid date = 25

-- The type's size as a uint16_t, 65535 for -1.
abbrev pub type_size : ColumnType → ℕ
type_size int4 = 4
type_size int8 = 8
type_size _ = 2 ^ 16 - 1

-- name, reloid, colnr, oid, typsize, typmod, fmt
abbrev pub column_args : Bytes × ColumnType → List Arg
column_args (name, t) =
    string name
    ∷ uint32 0
    ∷ uint16 0
    ∷ uint32 (type_oid t)
    ∷ uint16 (type_size t)
    ∷ uint32 (2 ^ 32 - 1)
    ∷ uint16 0
    ∷ []

abbrev pub value_args : Option Bytes → List Arg
value_args (some v) = uint32 (length v) ∷ bytes v ∷ []
value_args none = uint32 (2 ^ 32 - 1) ∷ []

module _ (heap : Allocator) where
  unfoldable pub put_arg : PktBuf → Arg → Option PktBuf
  put_arg b (char v) = put_char heap b v
  put_arg b (uint16 v) = put_uint16 heap b v
  put_arg b (uint32 v) = put_uint32 heap b v
  put_arg b (uint64 v) = put_uint64 heap b v
  put_arg b (string v) = put_string heap b v
  put_arg b (bytes v) = put_bytes heap b v

  unfoldable pub put_args : PktBuf → List Arg → Option PktBuf
  put_args b [] = some b
  put_args b (a ∷ as') = put_arg b a >>= λ b'. put_args b' as'

  unfoldable pub write_generic : PktBuf → ℕ → List Arg → Option PktBuf
  write_generic b type args = do
    b1 ← start_packet heap b type
    b2 ← put_args b1 args
    some (finish_packet b2)

  unfoldable pub put_columns : PktBuf → List (Bytes × ColumnType) → Option PktBuf
  put_columns b [] = some b
  put_columns b (c ∷ cs) = put_args b (column_args c) >>= λ b'. put_columns b' cs

  -- Between pktbuf_start_packet and pktbuf_finish_packet.
  unfoldable pub fill_row_description : List (Bytes × ColumnType) → PktBuf → Option PktBuf
  fill_row_description columns b = do
    b1 ← put_uint16 heap b (length columns)
    put_columns b1 columns

  unfoldable pub write_row_description : PktBuf → List (Bytes × ColumnType) → Option PktBuf
  write_row_description b columns = do
    b1 ← start_packet heap b b'T'
    b2 ← fill_row_description columns b1
    some (finish_packet b2)

  unfoldable pub put_data : Printer → PktBuf → List Datum → Option PktBuf
  put_data p b [] = some b
  put_data p b (d ∷ ds) =
      datum_text p d >>= λ val. (put_args b (value_args val) >>= λ b'. put_data p b' ds)

  unfoldable pub fill_data_row : Printer → List Datum → PktBuf → Option PktBuf
  fill_data_row p row b = do b1 ← put_uint16 heap b (length row); put_data p b1 row

  unfoldable pub write_data_row : Printer → PktBuf → List Datum → Option PktBuf
  write_data_row p b row = do
    b1 ← start_packet heap b b'D'
    b2 ← fill_data_row p row b1
    some (finish_packet b2)

  unfoldable pub put_params : PktBuf → List Bytes → Option PktBuf
  put_params b [] = some b
  put_params b (v ∷ vs) = put_args b (uint32 (length v) ∷ bytes v ∷ []) >>= λ b'. put_params b' vs

  unfoldable pub fill_bind : List Bytes → PktBuf → Option PktBuf
  fill_bind args b = do
    b1 ← put_args b (char 0 ∷ char 0 ∷ uint16 0 ∷ uint16 (length args) ∷ [])
    b2 ← put_params b1 args
    put_uint16 heap b2 0

  unfoldable pub write_bind : PktBuf → List Bytes → Option PktBuf
  write_bind b args = do
    b1 ← start_packet heap b b'B'
    b2 ← fill_bind args b1
    some (finish_packet b2)

  -- Parse, Bind, Describe, Execute, Sync.
  unfoldable pub write_ext_query : PktBuf → Bytes → List Bytes → Option PktBuf
  write_ext_query b query args = do
    b1 ← write_generic b b'P' (char 0 ∷ string query ∷ uint16 0 ∷ [])
    b2 ← write_bind b1 args
    b3 ← write_generic b2 b'D' (char b'P' ∷ char 0 ∷ [])
    b4 ← write_generic b3 b'E' (char 0 ∷ uint32 0 ∷ [])
    write_generic b4 b'S' []
