-- ===== src/Wire/Tests.antt =====
-- src/proto.c and src/messages.c over a message buffer that is its unread bytes.
use pgbouncer.Base.{
  ℕ, zero, suc, ◌+◌, ◌*◌, ◌^◌, ◌≡◌, refl, ap, ◌∙◌, true, Option, none, some, [], ◌∷◌, ◌++◌, arith,
  Bytes, length, take, drop, leb, if◌then◌else◌, take-append_add, drop-append_add, text, append-nil,
  length-append,
}
use pgbouncer.Pktbuf.Frames.{frame, encode_all}
use pgbouncer.Wire.Reader.{Mbuf, Reads, Nonzero}
use pgbouncer.Wire.Header.{Cut, get_header-Cut}
use pgbouncer.Wire.Messages.{
  ps_handle, unmarshalled, inspect_describe_or_close_packet, unmarshall_parse_packet,
  unmarshall_close_packet, is_close_named_statement_packet,
}
use pgbouncer.Wire.Messages.Parse.{
  parse_args, query_part, read-parse_packet, inspect-unmarshall_close_packet,
}
use pgbouncer.Wire.{PktHdr, get_header}

abbrev next_byte : Bytes → Option (ℕ × Bytes)
next_byte [] = none
next_byte (c ∷ cs) = some (c, cs)

abbrev next_uint16 : Bytes → Option (ℕ × Bytes)
next_uint16 (a ∷ b ∷ cs) = some (a * 2 ^ 8 + b, cs)
next_uint16 _ = none

abbrev next_uint32 : Bytes → Option (ℕ × Bytes)
next_uint32 (a ∷ b ∷ c ∷ d ∷ cs) = some (a * 2 ^ 24 + b * 2 ^ 16 + c * 2 ^ 8 + d, cs)
next_uint32 _ = none

abbrev before : ℕ → Option (Bytes × Bytes) → Option (Bytes × Bytes)
before c none = none
before c (some (s, rest)) = some (c ∷ s, rest)

abbrev next_string : Bytes → Option (Bytes × Bytes)
next_string [] = none
next_string (zero ∷ cs) = some ([], cs)
next_string (suc c ∷ cs) = before (suc c) (next_string cs)

abbrev next_bytes : Bytes → ℕ → Option (Bytes × Bytes)
next_bytes cs n = if leb n (length cs) then some (take n cs, drop n cs) else none

abbrev flat : Mbuf Bytes
flat = record {
  unread = λ cs. cs;
  written = length;
  get_byte = next_byte;
  get_uint16be = next_uint16;
  get_uint32be = next_uint32;
  get_string = next_string;
  get_bytes = next_bytes;
  slice = next_bytes;
}

scan : (s bs : Bytes) → Nonzero s → next_string (s ++ 0 ∷ bs) ≡ some (s, bs)
scan [] bs h = refl
scan (zero ∷ s) bs h = absurd (omega (arith, h.0))
scan (suc c ∷ s) bs h = ap (before (suc c)) (scan s bs h.1)

no_scan : (s : Bytes) → Nonzero s → next_string s ≡ none
no_scan [] h = refl
no_scan (zero ∷ s) h = absurd (omega (arith, h.0))
no_scan (suc c ∷ s) h = ap (before (suc c)) (no_scan s h.1)

split : (d bs : Bytes) (n : ℕ) → length d ≡ n → next_bytes (d ++ bs) n ≡ some (d, bs)
split d bs n e =
    let enough : leb n (length (d ++ bs)) ≡ true = ground (arith, length-append d bs, e) in
    let t : take n (d ++ bs) ≡ d = take-append_add 0 d bs (omega (arith, e)) ∙ append-nil d in
    let r : drop n (d ++ bs) ≡ bs = drop-append_add 0 d bs (omega (arith, e)) in
    rw enough (rw (t, r) refl)

flat-Reads : Reads flat
flat-Reads = record {
  byte = λ m c bs e. (bs, ap next_byte e, refl);
  uint16 = λ m a b bs e. (bs, ap next_uint16 e, refl);
  uint32 = λ m a b c d bs e. (bs, ap next_uint32 e, refl);
  string = λ m s bs e h. (bs, ap next_string e ∙ scan s bs h, refl);
  no_string = no_scan;
  bytes = λ m d bs n e l. (bs, ap (λ m. next_bytes m n) e ∙ split d bs n l, refl);
  slice = λ m d bs n e l. ((d, bs), ap (λ m. next_bytes m n) e ∙ split d bs n l, refl, refl, l);
}

-- A Parse packet of one parameter, and the start of the next packet.
abbrev two_packets : Bytes
two_packets =
    frame b'P' (encode_all (parse_args (text "s1") (text "select") 1 (0 ∷ 0 ∷ 0 ∷ 23 ∷ [])))
    ++ b'S' ∷ []

read-parse_packet_example :
    (left : Bytes) × (pkt : PktHdr Bytes) × (get_header flat 1000 two_packets ≡ some (left, pkt))
    × (pkt.type ≡ b'P')
    × (left ≡ b'S' ∷ [])
    × (unmarshall_parse_packet flat pkt
        ≡ unmarshalled (record {
          len = 21;
          name = text "s1";
          query_and_parameters_len = 13;
          query_and_parameters = query_part (text "select") 1 (0 ∷ 0 ∷ 0 ∷ 23 ∷ []);
        }))
read-parse_packet_example =
    read-parse_packet flat flat-Reads 1000 two_packets (text "s1") (text "select")
      (0 ∷ 0 ∷ 0 ∷ 23 ∷ []) (b'S' ∷ []) 1 (omega arith, (omega arith, tt))
      (omega arith, (omega arith, (omega arith, (omega arith, (omega arith, (omega arith, tt))))))
      (omega arith) refl (omega arith) (omega arith) refl

-- A row description whose last bytes have not come yet.
get_header-Cut_example :
    Cut flat flat-Reads 1000
      (b'T' ∷ 0 ∷ 0 ∷ 0 ∷ 9 ∷ 7 ∷ 8 ∷ [])
      b'T'
      10
      5
      (b'T' ∷ 0 ∷ 0 ∷ 0 ∷ 9 ∷ [])
      (7 ∷ 8 ∷ [])
      (get_header flat 1000 (b'T' ∷ 0 ∷ 0 ∷ 0 ∷ 9 ∷ 7 ∷ 8 ∷ []))
get_header-Cut_example =
    get_header-Cut flat flat-Reads 1000 (b'T' ∷ 0 ∷ 0 ∷ 0 ∷ 9 ∷ 7 ∷ 8 ∷ []) b'T' 5 (7 ∷ 8 ∷ [])
      (omega arith) (omega arith) (omega arith) refl

abbrev close_header : PktHdr Bytes
close_header = record { type = b'C'; len = 4; body = b'S' ∷ b's' ∷ b'1' ∷ 0 ∷ [] }

inspect-unmarshall_close_packet_example :
    inspect_describe_or_close_packet flat close_header ≡ ps_handle
unfolding is_close_named_statement_packet unmarshall_close_packet
inspect-unmarshall_close_packet_example =
    inspect-unmarshall_close_packet flat flat-Reads close_header
      (record { type = b'S'; name = text "s1" }) close_parsed
  where
    close_parsed :
        unmarshall_close_packet flat close_header
        ≡ unmarshalled (record { type = b'S'; name = text "s1" })
    close_parsed = refl
