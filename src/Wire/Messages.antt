-- ===== src/Wire/Messages.antt =====
-- src/messages.c and include/messages.h: the parsers of Parse, Bind, Describe and Close packets. A
-- client whose packet is broken is disconnected.
pub mod Parse
use pgbouncer.Base.{
  ℕ, ◌+◌, ◌*◌, ◌%◌, ◌^◌, Bool, true, false, not, ◌&&◌, List, [], ◌∷◌, Option, none, some, ◌==◌,
  if◌then◌else◌, Bytes, length, take,
}
use pgbouncer.Wire.Reader.{Mbuf}
use pgbouncer.Wire.{PktHdr, incomplete_pkt}

pub data PreparedStatementAction : Type 0 where
  ps_ignore ps_handle ps_handle_full_packet ps_inspect_failed : PreparedStatementAction

-- The pointer into the packet is the bytes that it points to, as many as its length says.
pub record PgParsePacket : Type 0 where
  pub len : ℕ
  pub name : Bytes
  pub query_and_parameters_len : ℕ
  pub query_and_parameters : Bytes

pub record PgBindPacket : Type 0 where
  pub len : ℕ
  pub portal : Bytes
  pub name : Bytes

pub record PgDescribePacket : Type 0 where
  pub type : ℕ
  pub name : Bytes

pub record PgClosePacket : Type 0 where
  pub type : ℕ
  pub name : Bytes

-- A packet; `broken`: the client is disconnected; `partial`: the packet is not all there.
pub data Unmarshalled (A : Type 0) : Type 0 where
  unmarshalled : A → Unmarshalled A
  broken partial : Unmarshalled A

-- A chain of reads, which fails as a whole.
infixl 5 ◌>>?◌
abbrev pub ◌>>?◌ : {A B : Type 0} → Option A → (A → Unmarshalled B) → Unmarshalled B
none >>? f = broken
some a >>? f = f a

-- *statement is 0
pub is_empty : Bytes → Bool
is_empty [] = true
is_empty (c ∷ cs) = false

pub action : Bytes → PreparedStatementAction → PreparedStatementAction
unfolding is_empty
action statement found = if is_empty statement then ps_ignore else found

module _ {M : Type 0} (mbuf : Mbuf M) where
  pub named : M → PreparedStatementAction → PreparedStatementAction
  unfolding action
  named m found = elim (mbuf.get_string m) [
    | none ↦ ps_inspect_failed
    | some (statement, rest) ↦ action statement found
  ]

  pub inspect_parse_packet : PktHdr M → PreparedStatementAction
  unfolding named
  inspect_parse_packet pkt = named pkt.body ps_handle_full_packet

  pub inspect_bind_packet : PktHdr M → PreparedStatementAction
  unfolding named
  inspect_bind_packet pkt = elim (mbuf.get_string pkt.body) [
    | none ↦ ps_inspect_failed
    | some (portal, rest) ↦ named rest ps_handle
  ]

  pub inspect_describe_or_close_packet : PktHdr M → PreparedStatementAction
  unfolding named
  inspect_describe_or_close_packet pkt = elim (mbuf.get_byte pkt.body) [
    | none ↦ ps_inspect_failed
    | some (describe, rest) ↦ if not (describe == b'S') then ps_ignore else named rest ps_handle
  ]

  pub unmarshall_parse_packet : PktHdr M → Unmarshalled PgParsePacket
  unmarshall_parse_packet pkt = mbuf.get_string pkt.body >>? λ statement.
      mbuf.get_string statement.1 >>? λ query. mbuf.get_uint16be query.1 >>? λ num_parameters.
      let parameters_length = num_parameters.0 * 4 in
      mbuf.get_bytes num_parameters.1 parameters_length >>? λ parameter_types_bytes.
      let total = length query.0 + 1 + 2 + parameters_length in
      unmarshalled (record {
        len = pkt.len;
        name = statement.0;
        query_and_parameters_len = total;
        query_and_parameters = take total (mbuf.unread statement.1);
      })

  pub unmarshall_bind_packet : PktHdr M → Unmarshalled PgBindPacket
  unmarshall_bind_packet pkt = mbuf.get_string pkt.body >>? λ portal.
      mbuf.get_string portal.1 >>? λ statement.
      unmarshalled (record { len = pkt.len; portal = portal.0; name = statement.0 })

  pub unmarshall_describe_packet : PktHdr M → Unmarshalled PgDescribePacket
  unfolding incomplete_pkt
  unmarshall_describe_packet pkt =
      if incomplete_pkt mbuf pkt
      then partial
      else (mbuf.get_byte pkt.body >>? λ describe. mbuf.get_string describe.1 >>? λ statement.
          unmarshalled (record { type = describe.0; name = statement.0 }))

  unfoldable pub unmarshall_close_packet : PktHdr M → Unmarshalled PgClosePacket
  unfolding incomplete_pkt
  unmarshall_close_packet pkt =
      if incomplete_pkt mbuf pkt
      then partial
      else (mbuf.get_byte pkt.body >>? λ type.
          mbuf.get_string type.1 >>? λ name. unmarshalled (record { type = type.0; name = name.0 }))

unfoldable pub is_close_named_statement_packet : PgClosePacket → Bool
unfolding is_empty
is_close_named_statement_packet close_packet =
    close_packet.type == b'S' && not (is_empty close_packet.name)
