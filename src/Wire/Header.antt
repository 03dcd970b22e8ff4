-- ===== src/Wire/Header.antt =====
-- get_header of src/proto.c on what the packet writer of src/pktbuf.c makes.
use pgbouncer.Base.{
  ℕ, ◌+◌, ◌-◌, ◌*◌, ◌%◌, ◌/◌, ◌^◌, ◌≤◌, ◌<◌, ◌≡◌, refl, sym, ap, ◌∙◌, true, false, not, Option,
  some, ◌∷◌, ◌++◌, arith, Bytes, length, take, drop, append_assoc, length-append, length-take,
  take-append-drop, ltb, ◌==◌, min,
}
use pgbouncer.Pktbuf.Writes.{be32}
use pgbouncer.Wire.Reader.{Mbuf, Reads}
use pgbouncer.Wire.{PktHdr, cut_packet, get_header, mbuf_avail}

module _ {M : Type 0} (mbuf : Mbuf M) (reads : Reads mbuf) (max_packet_size : ℕ) where
  -- The packet that is taken off the input, and the rest of it.
  pub record Cut (input : M) (type len got : ℕ) (header rest : Bytes) (o : Option (M × PktHdr M))
      : Type 0 where
    pub left : M
    pub packet : PktHdr M
    pub taken : o ≡ some (left, packet)
    pub its_type : packet.type ≡ type
    pub its_len : packet.len ≡ len
    pub its_body : mbuf.unread packet.body ≡ take (len - got) rest
    pub unread_left : mbuf.unread left ≡ drop (len - got) rest

  cut_packet-Cut :
      (input : M) (type len got : ℕ) (header rest : Bytes)
      → mbuf.unread input ≡ header ++ rest
      → length header ≡ got
      → got ≤ len
      → len ≤ max_packet_size
      → Cut input type len got header rest (cut_packet mbuf max_packet_size input type len got)
  unfolding cut_packet mbuf_avail
  cut_packet-Cut input type len got header rest e l small big =
      let n = min len (length (mbuf.unread input)) in
      let d = header ++ take (len - got) rest in
      let whole : mbuf.unread input ≡ d ++ drop (len - got) rest =
        e
        ∙ ap (◌++◌ header) (sym (take-append-drop (len - got) rest))
        ∙ sym (append_assoc header (take (len - got) rest) (drop (len - got) rest)) in
      let sized : length d ≡ n = omega (
        arith,
        length-append header (take (len - got) rest),
        length-take (len - got) rest,
        length-append header rest,
        ap length e,
        l,
        small,
      ) in
      let (parts, e1, e2, e3, _) = reads.slice input d (drop (len - got) rest) n whole sized in
      let (body, e4, e5) = reads.bytes parts.0 header (take (len - got) rest) got e2 l in
      record {
        left = parts.1;
        packet = record { type = type; len = len; body = body };
        taken = ground (arith, e1, e4);
        its_type = refl;
        its_len = refl;
        its_body = e5;
        unread_left = e3;
      }

  -- get_header of input that begins with the header of a packet, a type byte that is not 0 and a
  -- length word within max_packet_size, which is below 2 ^ 32, gives that type and the length with
  -- the type byte, the body as far as the input has it, and leaves what is behind the packet
  -- unread.
  pub get_header-Cut :
      (input : M) (type n : ℕ) (rest : Bytes)
      → 0 < type
      → n + 5 ≤ max_packet_size
      → max_packet_size < 2 ^ 32
      → mbuf.unread input ≡ type ∷ be32 (4 + n) ++ rest
      → Cut input type (n + 5) 5 (type ∷ be32 (4 + n)) rest (get_header mbuf max_packet_size input)
  unfolding get_header mbuf_avail
  get_header-Cut input type n rest h small big e =
      let (m1, e1, u1) = reads.byte input type _ e in
      let (m2, e2, _) = reads.uint32 m1 _ _ _ _ rest u1 in
      let len : (((4 + n) / 2 ^ 24 % 256 * 2 ^ 24
                + (4 + n) / 2 ^ 16 % 256 * 2 ^ 16
                + (4 + n) / 2 ^ 8 % 256 * 2 ^ 8
                + (4 + n) % 256)
              + 1)
            % 2 ^ 32
          ≡ n + 5 =
        omega arith in
      let cut =
        cut_packet-Cut input type (n + 5) 5 (type ∷ be32 (4 + n)) rest e refl (omega arith) small in
      let enough : ltb (length (mbuf.unread input)) 5 ≡ false = ground (arith, ap length e) in
      let typed : not (type == 0) ≡ true = ground arith in
      rw (enough, get_header) (rw e1 (rw typed (rw e2 (rw len cut))))
