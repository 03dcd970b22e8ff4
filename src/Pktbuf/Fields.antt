-- ===== src/Pktbuf/Fields.antt =====
-- The fields of result rows of src/pktbuf.c, written out, and the texts of values.
use pgbouncer.Base.{
  ℕ, ◌+◌, ◌*◌, ◌/◌, ◌%◌, ◌<◌, ◌≤◌, ◌≡◌, refl, ap, false, List, [], ◌∷◌, ◌++◌, append-nil, Option,
  none, some, arith, Bytes, length, ltb,
}
use pgbouncer.Pktbuf.Writes.{be32}
use pgbouncer.Pktbuf.Frames.{encode_all}
use pgbouncer.Pktbuf.Packets.{
  ColumnType, int4, int8, text, bytea, numeric, date, Datum, int_value, uint64_value, string_value,
  bytes_value, time_value, Printer, hex_digit, hex, datum_text, column_args, value_args,
}

-- The oid and the size of a type as PostgreSQL's catalog has them, in the bytes of a field.
abbrev pub catalog : ColumnType → Bytes
catalog int4 = 0 ∷ 0 ∷ 0 ∷ 23 ∷ 0 ∷ 4 ∷ []
catalog int8 = 0 ∷ 0 ∷ 0 ∷ 20 ∷ 0 ∷ 8 ∷ []
catalog text = 0 ∷ 0 ∷ 0 ∷ 25 ∷ 255 ∷ 255 ∷ []
catalog bytea = 0 ∷ 0 ∷ 0 ∷ 17 ∷ 255 ∷ 255 ∷ []
catalog numeric = 0 ∷ 0 ∷ 6 ∷ 164 ∷ 255 ∷ 255 ∷ []
catalog date = 0 ∷ 0 ∷ 0 ∷ 25 ∷ 255 ∷ 255 ∷ []

-- A field of a RowDescription: the name with its zero, table oid 0, column 0, type oid and size,
-- modifier -1, text format.
abbrev pub field_bytes : Bytes × ColumnType → Bytes
field_bytes (name, t) =
    (name ++ 0 ∷ [])
    ++ ((0 ∷ 0 ∷ 0 ∷ 0 ∷ 0 ∷ 0 ∷ []) ++ (catalog t ++ (255 ∷ 255 ∷ 255 ∷ 255 ∷ 0 ∷ 0 ∷ [])))

abbrev pub field_list_bytes : List (Bytes × ColumnType) → Bytes
field_list_bytes [] = []
field_list_bytes (c ∷ cs) = field_bytes c ++ field_list_bytes cs

-- A column of a DataRow: length -1 for a null, else the length and the text.
abbrev pub column_bytes : Option Bytes → Bytes
column_bytes none = 255 ∷ 255 ∷ 255 ∷ 255 ∷ []
column_bytes (some v) = be32 (length v) ++ v

abbrev pub row_bytes : List (Option Bytes) → Bytes
row_bytes [] = []
row_bytes (v ∷ vs) = column_bytes v ++ row_bytes vs

pub data Digit : ℕ → ℕ → Type 0 where
  decimal : (n : ℕ) → n < 10 → Digit n (b'0' + n)
  letter : (n : ℕ) → n < 6 → Digit (10 + n) (b'a' + n)

-- Two lower-case digits for each byte, the high one first.
pub data HexText : Bytes → Bytes → Type 0 where
  no_bytes : HexText [] []
  byte :
      (high low h l : ℕ) {xs ts : Bytes}
      → Digit high h
      → Digit low l
      → HexText xs ts
      → HexText ((high * 16 + low) ∷ xs) (h ∷ l ∷ ts)

-- The text of a value, `none` for a null. A bytea has room for 48 bytes.
pub data Prints (p : Printer) : Datum → Option Bytes → Type 0 where
  int_text : (n : ℕ) → Prints p (int_value n) (some (p.print_int n))
  uint64_text : (n : ℕ) → Prints p (uint64_value n) (some (p.print_uint64 n))
  time_text : (n : ℕ) → Prints p (time_value n) (some (p.print_time n))
  null_text : Prints p (string_value none) none
  string_text : (v : Bytes) → Prints p (string_value (some v)) (some v)
  null_bytes : Prints p (bytes_value none) none
  hex_text :
      (v t : Bytes)
      → length v ≤ 48
      → HexText v t
      → Prints p (bytes_value (some v)) (some (b'\\' ∷ b'x' ∷ t))

pub data PrintsRow (p : Printer) : List Datum → List (Option Bytes) → Type 0 where
  no_columns : PrintsRow p [] []
  column :
      (d : Datum) (v : Option Bytes) {ds : List Datum} {vs : List (Option Bytes)}
      → Prints p d v
      → PrintsRow p ds vs
      → PrintsRow p (d ∷ ds) (v ∷ vs)

pub column_args-field_bytes : (c : Bytes × ColumnType) → encode_all (column_args c) ≡ field_bytes c
column_args-field_bytes (name, int4) = refl
column_args-field_bytes (name, int8) = refl
column_args-field_bytes (name, text) = refl
column_args-field_bytes (name, bytea) = refl
column_args-field_bytes (name, numeric) = refl
column_args-field_bytes (name, date) = refl

pub value_args-column_bytes : (v : Option Bytes) → encode_all (value_args v) ≡ column_bytes v
value_args-column_bytes none = refl
value_args-column_bytes (some v) = ap (λ t. be32 (length v) ++ t) (append-nil v)

hex_digit-Digit : (n d : ℕ) → Digit n d → hex_digit n ≡ d
hex_digit-Digit _ _ (decimal n h) = ground arith
hex_digit-Digit _ _ (letter n h) = ground arith

Digit-lt : (n d : ℕ) → Digit n d → n < 16
Digit-lt _ _ (decimal n h) = omega arith
Digit-lt _ _ (letter n h) = omega arith

hex-HexText : (v t : Bytes) → HexText v t → hex v ≡ t
unfolding hex
hex-HexText _ _ no_bytes = refl
hex-HexText _ _ (byte x y h l {xs} {ts} hx hy r) =
    let lx = Digit-lt x h hx in
    let ly = Digit-lt y l hy in
    let ex : (x * 16 + y) / 16 ≡ x = omega arith in
    let ey : (x * 16 + y) % 16 ≡ y = omega arith in
    rw (ex, ey, hex_digit-Digit x h hx, hex_digit-Digit y l hy, hex-HexText xs ts r) refl

pub Prints-datum_text :
    (p : Printer) (d : Datum) (v : Option Bytes) → Prints p d v → datum_text p d ≡ some v
unfolding datum_text
Prints-datum_text p _ _ (int_text n) = refl
Prints-datum_text p _ _ (uint64_text n) = refl
Prints-datum_text p _ _ (time_text n) = refl
Prints-datum_text p _ _ null_text = refl
Prints-datum_text p _ _ (string_text v) = refl
Prints-datum_text p _ _ null_bytes = refl
Prints-datum_text p _ _ (hex_text v t l h) =
    let e = hex-HexText v t h in
    let fits : ltb 100 (2 + length v * 2 + 1) ≡ false = ground arith in rw (fits, e) refl
