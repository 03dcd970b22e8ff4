-- ===== src/Wire/Messages/Parse.antt =====
-- src/messages.c: Parse packets as the packet writer of src/pktbuf.c makes them, and what the
-- inspection of a packet says of the one that is parsed.
use pgbouncer.Base.{
  ℕ, ◌+◌, ◌*◌, ◌%◌, ◌/◌, ◌^◌, ◌≤◌, ◌<◌, ◌≡◌, refl, sym, ap, ◌∙◌, some, List, [], ◌∷◌, ◌++◌,
  append_assoc, append-nil, arith, Bytes, length, take, length-append, if◌then◌else◌, take_all,
  drop-append_add, take-append_add,
}
use pgbouncer.Pktbuf.Writes.{be16}
use pgbouncer.Pktbuf.Frames.{frame, encode_all}
use pgbouncer.Pktbuf.Packets.{Arg, uint16, string, bytes}
use pgbouncer.Wire.Reader.{Mbuf, Reads, Nonzero}
use pgbouncer.Wire.Header.{get_header-Cut}
use pgbouncer.Wire.Messages.{
  ps_ignore, ps_handle, PgClosePacket, unmarshalled, is_empty, action, named,
  inspect_describe_or_close_packet, unmarshall_parse_packet, unmarshall_close_packet,
  is_close_named_statement_packet,
}
use pgbouncer.Wire.{PktHdr, get_header}

-- The fields of a Parse packet for `n` parameter types.
abbrev pub parse_args : Bytes → Bytes → ℕ → Bytes → List Arg
parse_args name query n types = string name ∷ string query ∷ uint16 n ∷ bytes types ∷ []

-- What goes from the query on to a server.
abbrev pub query_part : Bytes → ℕ → Bytes → Bytes
query_part query n types = query ++ 0 ∷ (be16 n ++ types)

fields :
    (name query types : Bytes) (n : ℕ)
    → encode_all (parse_args name query n types) ≡ name ++ 0 ∷ query_part query n types
fields name query types n = simp (append_assoc, append-nil)

module _ {M : Type 0} (mbuf : Mbuf M) (reads : Reads mbuf) where
  unmarshall_fields :
      (pkt : PktHdr M) (name query types : Bytes) (n : ℕ)
      → Nonzero name
      → Nonzero query
      → n < 2 ^ 16
      → length types ≡ n * 4
      → mbuf.unread pkt.body ≡ name ++ 0 ∷ query_part query n types
      → unmarshall_parse_packet mbuf pkt
        ≡ unmarshalled (record {
          len = pkt.len;
          name = name;
          query_and_parameters_len = length (query_part query n types);
          query_and_parameters = query_part query n types;
        })
  unfolding unmarshall_parse_packet
  unmarshall_fields pkt name query types n h1 h2 small sized e =
      let (m1, e1, u1) = reads.string pkt.body name (query_part query n types) e h1 in
      let (m2, e2, u2) = reads.string m1 query (be16 n ++ types) u1 h2 in
      let (m3, e3, u3) = reads.uint16 m2 _ _ types u2 in
      let count : n / 2 ^ 8 % 256 * 2 ^ 8 + n % 256 ≡ n = omega arith in
      let (m4, e4, _) = reads.bytes m3 types [] (n * 4) (u3 ∙ sym (append-nil types)) sized in
      let total : length query + 1 + 2 + n * 4 ≡ length (query_part query n types) =
        omega (arith, length-append query (0 ∷ (be16 n ++ types)), sized) in
      let text : take (length query + 1 + 2 + n * 4) (mbuf.unread m1) ≡ query_part query n types =
        ap (take (length query + 1 + 2 + n * 4)) u1
        ∙ take_all (length query + 1 + 2 + n * 4) (query_part query n types)
            (omega (arith, total)) in
      rw (e1, unmarshall_parse_packet) (rw e2 (rw e3 (rw count (rw e4 (rw (text, total) refl)))))

  -- A Parse packet that is framed the way the packet writer frames it, with a name and a query
  -- without zero bytes, fewer than 2 ^ 16 parameter types and a length within max_packet_size, is
  -- read back: get_header cuts it off with its type and leaves the bytes behind it unread, and
  -- unmarshall_parse_packet of it gives the length, the name and the query with the parameter
  -- types.
  pub read-parse_packet :
      (max_packet_size : ℕ) (input : M) (name query types rest : Bytes) (n : ℕ)
      → Nonzero name
      → Nonzero query
      → n < 2 ^ 16
      → length types ≡ n * 4
      → length (encode_all (parse_args name query n types)) + 5 ≤ max_packet_size
      → max_packet_size < 2 ^ 32
      → mbuf.unread input ≡ frame b'P' (encode_all (parse_args name query n types)) ++ rest
      → (left : M) × (pkt : PktHdr M) × (get_header mbuf max_packet_size input ≡ some (left, pkt))
        × (pkt.type ≡ b'P')
        × (mbuf.unread left ≡ rest)
        × (unmarshall_parse_packet mbuf pkt
            ≡ unmarshalled (record {
              len = length (encode_all (parse_args name query n types)) + 5;
              name = name;
              query_and_parameters_len = length (query_part query n types);
              query_and_parameters = query_part query n types;
            }))
  read-parse_packet max_packet_size input name query types rest n h1 h2 small sized fits bound e =
      let payload = encode_all (parse_args name query n types) in
      let cut =
        get_header-Cut mbuf reads max_packet_size input b'P' (length payload) (payload ++ rest)
          (omega arith) fits bound e in
      (
        cut.left,
        cut.packet,
        cut.taken,
        cut.its_type,
        cut.unread_left ∙ drop-append_add 0 payload rest (omega arith),
        unmarshall_fields cut.packet name query types n h1 h2 small sized (
              cut.its_body
              ∙ take-append_add 0 payload rest (omega arith)
              ∙ append-nil payload
              ∙ fields name query types n)
            ∙ ap
                (λ len. unmarshalled (record {
                  len = len;
                  name = name;
                  query_and_parameters_len = length (query_part query n types);
                  query_and_parameters = query_part query n types;
                }))
                cut.its_len,
      )

  -- For a Close packet that unmarshall_close_packet accepts, inspect_describe_or_close_packet says
  -- that it is to be handled exactly when is_close_named_statement_packet holds of what was read,
  -- and else that it is to be ignored.
  pub inspect-unmarshall_close_packet :
      (pkt : PktHdr M) (close_packet : PgClosePacket)
      → unmarshall_close_packet mbuf pkt ≡ unmarshalled close_packet
      → inspect_describe_or_close_packet mbuf pkt
        ≡ (if is_close_named_statement_packet close_packet then ps_handle else ps_ignore)
  unfolding unmarshall_close_packet inspect_describe_or_close_packet named action
      is_close_named_statement_packet is_empty
  inspect-unmarshall_close_packet pkt close_packet e = ground arith
