-- ===== src/Wire.antt =====
-- get_header of src/proto.c and struct PktHdr of include/proto.h, over the message buffer of
-- libusual, which is a parameter. `none` is a `false` of the source: no whole header, or not one.
pub mod Reader
pub mod Messages
pub mod Header
mod Tests
use pgbouncer.Base.{
  ℕ, ◌+◌, ◌-◌, ◌%◌, ◌^◌, Bool, true, false, not, ◌&&◌, ◌||◌, Option, none, some, ◌==◌, ltb, leb,
  if◌then◌else◌, ◌>>=◌, length, min,
}
use Reader.{Mbuf}

-- `type` is a packet's type byte, or one of the codes below.
pub record PktHdr (M : Type 0) : Type 0 where
  pub type : ℕ
  pub len : ℕ
  pub body : M

abbrev pub pkt_startup_v2 : ℕ
pkt_startup_v2 = 0x20000

abbrev pub pkt_startup_v3 : ℕ
pkt_startup_v3 = 0x30000

abbrev pub pkt_startup_v3_unsupported : ℕ
pkt_startup_v3_unsupported = 0x30001

abbrev pub pkt_startup_v4 : ℕ
pkt_startup_v4 = 0x40000

abbrev pub pkt_cancel : ℕ
pkt_cancel = 80877102

abbrev pub pkt_sslreq : ℕ
pkt_sslreq = 80877103

abbrev pub pkt_gssencreq : ℕ
pkt_gssencreq = 80877104

abbrev pub new_header_len : ℕ
new_header_len = 5

abbrev pub old_header_len : ℕ
old_header_len = 8

-- The packet's type for the code of a special packet.
pub special_type : ℕ → Option ℕ
special_type code =
    if code == pkt_cancel
    then some pkt_cancel
    else if code == pkt_sslreq
    then some pkt_sslreq
    else if code == pkt_gssencreq
    then some pkt_gssencreq
    else if leb pkt_startup_v3 code && ltb code pkt_startup_v3_unsupported
    then some pkt_startup_v3
    else if leb pkt_startup_v3_unsupported code && ltb code pkt_startup_v4
    then some pkt_startup_v3_unsupported
    else if code == pkt_startup_v2
    then some pkt_startup_v2
    else none

module _ {M : Type 0} (mbuf : Mbuf M) (max_packet_size : ℕ) where
  pub mbuf_avail : M → ℕ
  mbuf_avail m = length (mbuf.unread m)

  -- The packet of a type and a length, as far as it is there, and what follows it.
  pub cut_packet : M → ℕ → ℕ → ℕ → Option (M × PktHdr M)
  unfolding mbuf_avail
  cut_packet input type len got =
      if ltb len got || ltb max_packet_size len
      then none
      else (mbuf.slice input (min len (mbuf_avail input)) >>= λ parts.
          (mbuf.get_bytes parts.0 got >>= λ header.
          some (parts.1, record { type = type; len = len; body = header.1 })))

  -- A special packet, whose first byte was 0.
  pub get_special_header : M → M → Option (M × PktHdr M)
  unfolding mbuf_avail
  get_special_header input hdr = mbuf.get_byte hdr >>= λ b.
      if not (b.0 == 0)
      then none
      else if ltb (mbuf_avail b.1) (old_header_len - 2)
      then none
      else (mbuf.get_uint16be b.1 >>= λ len.
          (mbuf.get_uint32be len.1 >>= λ code.
          (special_type code.0 >>= λ type. cut_packet input type len.0 old_header_len)))

  pub get_header : M → Option (M × PktHdr M)
  unfolding mbuf_avail
  get_header input =
      if ltb (mbuf_avail input) new_header_len
      then none
      else (mbuf.get_byte input >>= λ type.
          (if not (type.0 == 0)
            then (mbuf.get_uint32be type.1 >>= λ len.
                cut_packet input type.0 ((len.0 + 1) % 2 ^ 32) new_header_len)
            else get_special_header input type.1))

-- incomplete_pkt of include/proto.h
unfoldable pub incomplete_pkt : {M : Type 0} → Mbuf M → PktHdr M → Bool
incomplete_pkt mbuf pkt = not (mbuf.written pkt.body == pkt.len)
