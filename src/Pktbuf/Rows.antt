-- ===== src/Pktbuf/Rows.antt =====
-- src/pktbuf.c: result rows and the extended query protocol.
use pgbouncer.Base.{refl, List, [], ◌∷◌, ◌++◌, Option, Bytes, length, ◌>>=◌, subst}
use pgbouncer.Pktbuf.Memory.{Allocator}
use pgbouncer.Pktbuf.Room.{IsValid}
use pgbouncer.Pktbuf.Writes.{
  be16, Writes, Appends-trans, Writes-bind, nothing-Writes, put_uint16-Writes,
}
use pgbouncer.Pktbuf.Frames.{encode_all, frame, Sends, Puts, Puts-Sends}
use pgbouncer.Pktbuf.Generic.{put_args-Writes, packet-Puts, write_generic-Puts}
use pgbouncer.Pktbuf.Packets.{
  char, uint16, uint32, string, bytes, Datum, put_args, Printer, value_args, put_data, put_params,
  fill_data_row, fill_bind, write_bind, write_data_row, write_ext_query,
}
use pgbouncer.Pktbuf.Fields.{
  column_bytes, row_bytes, PrintsRow, no_columns, column, value_args-column_bytes,
  Prints-datum_text,
}
use pgbouncer.Pktbuf.{PktBuf}

abbrev pub encode_params : List Bytes → Bytes
encode_params [] = []
encode_params (v ∷ vs) = encode_all (uint32 (length v) ∷ bytes v ∷ []) ++ encode_params vs

abbrev pub bind_payload : List Bytes → Bytes
bind_payload args =
    encode_all (char 0 ∷ char 0 ∷ uint16 0 ∷ uint16 (length args) ∷ [])
    ++ (encode_params args ++ be16 0)

-- The five packets of pktbuf_write_ExtQuery.
abbrev pub ext_query : Bytes → List Bytes → Bytes
ext_query query args =
    frame b'P' (encode_all (char 0 ∷ string query ∷ uint16 0 ∷ []))
    ++ (frame b'B' (bind_payload args)
        ++ (frame b'D' (encode_all (char b'P' ∷ char 0 ∷ []))
            ++ (frame b'E' (encode_all (char 0 ∷ uint32 0 ∷ [])) ++ frame b'S' [])))

module _ (heap : Allocator) where
  put_params-Writes :
      (b : PktBuf) (vs : List Bytes)
      → IsValid b
      → Writes heap b (encode_params vs) (put_params heap b vs)
  unfolding put_params
  put_params-Writes b [] v = nothing-Writes heap b v
  put_params-Writes b (x ∷ xs) v =
      Writes-bind heap (encode_all (uint32 (length x) ∷ bytes x ∷ [])) (encode_params xs) _ _
        (put_args-Writes heap b (uint32 (length x) ∷ bytes x ∷ []) v)
        λ e w. put_params-Writes e xs w

  put_data-Writes :
      (p : Printer) (ds : List Datum) (vs : List (Option Bytes)) (b : PktBuf)
      → PrintsRow p ds vs
      → IsValid b
      → Writes heap b (row_bytes vs) (put_data heap p b ds)
  unfolding put_data
  put_data-Writes p _ _ b no_columns v = nothing-Writes heap b v
  put_data-Writes p _ _ b (column d x {ds} {vs} t ts) v = rw (Prints-datum_text p d x t) (
      Writes-bind heap (column_bytes x) (row_bytes vs) _ _
        (subst (λ u. Writes heap b u (put_args heap b (value_args x))) (value_args-column_bytes x)
          (put_args-Writes heap b (value_args x) v))
        λ c w. put_data-Writes p ds vs c ts w)

  -- pktbuf_write_DataRow on a valid buffer and a row whose bytea values have at most 48 bytes,
  -- which print as two hexadecimal digits for each, returns; either it appends one packet with the
  -- number of columns, then four bytes of 255 for a null and the length and the text for another
  -- value, or it leaves the buffer failed, and then that was failed before, is fixed and too
  -- small, would pass INT_MAX, or realloc failed.
  pub write_data_row-Sends :
      (p : Printer) (b : PktBuf) (ds : List Datum) (vs : List (Option Bytes))
      → PrintsRow p ds vs
      → IsValid b
      → Sends heap b (frame b'D' (be16 (length ds) ++ row_bytes vs)) (write_data_row heap p b ds)
  unfolding write_data_row fill_data_row
  write_data_row-Sends p b ds vs e v =
      Puts-Sends heap (frame b'D' (be16 (length ds) ++ row_bytes vs)) (
        packet-Puts heap b b'D' (be16 (length ds) ++ row_bytes vs) (fill_data_row heap p ds) v
          λ c w.
            Writes-bind heap (be16 (length ds)) (row_bytes vs) _ _
              (put_uint16-Writes heap c (length ds) w) λ d x. put_data-Writes p ds vs d e x)

  -- Packets written in a row follow one another.
  Puts-bind :
      {b : PktBuf} (p q : Bytes) (r : Option PktBuf) (k : PktBuf → Option PktBuf)
      → Puts heap b p r
      → ((c : PktBuf) → IsValid c → Puts heap c q (k c))
      → Puts heap b (p ++ q) (r >>= k)
  Puts-bind {b} p q r k (c, e, x) next =
      let (z, e', y) = next c x.valid in rw (e, e') (z, refl, Appends-trans heap p q x y)

  write_bind-Puts :
      (b : PktBuf) (args : List Bytes)
      → IsValid b
      → Puts heap b (frame b'B' (bind_payload args)) (write_bind heap b args)
  unfolding write_bind fill_bind
  write_bind-Puts b args v =
      packet-Puts heap b b'B' (bind_payload args) (fill_bind heap args) v λ c w.
        Writes-bind heap _ (encode_params args ++ be16 0) _ _ (put_args-Writes heap c _ w) λ d x.
          Writes-bind heap (encode_params args) (be16 0) _ _ (put_params-Writes d args x)
            λ e y. put_uint16-Writes heap e 0 y

  -- pktbuf_write_ExtQuery on a valid buffer returns; either it appends a Parse, a Bind with every
  -- argument, a Describe, an Execute and a Sync packet, in that order, or it leaves the buffer
  -- failed, and then that was failed before, is fixed and too small, would pass INT_MAX, or
  -- realloc failed.
  pub write_ext_query-Sends :
      (b : PktBuf) (query : Bytes) (args : List Bytes)
      → IsValid b
      → Sends heap b (ext_query query args) (write_ext_query heap b query args)
  unfolding write_ext_query
  write_ext_query-Sends b query args v = Puts-Sends heap (ext_query query args) (
      Puts-bind _ _ _ _ (write_generic-Puts heap b b'P' _ v) λ c w.
        Puts-bind _ _ _ _ (write_bind-Puts c args w) λ d x.
          Puts-bind _ _ _ _ (write_generic-Puts heap d b'D' _ x) λ e y.
            Puts-bind _ _ _ _ (write_generic-Puts heap e b'E' _ y)
              λ f z. write_generic-Puts heap f b'S' [] z)
