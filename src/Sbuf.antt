-- ===== src/Sbuf.antt =====
-- src/sbuf.c: a stream buffer reads packets from its socket, has the protocol handler decide what
-- becomes of each, and sends what is to be forwarded to the destination's socket.
pub mod Forward
pub mod Sending
pub mod Owed
pub mod Packets
pub mod Contract
pub mod Prepared
pub mod Session
pub mod Responses
pub mod Loop
pub mod Tests
use pgbouncer.Base.{
  ℕ, zero, suc, ◌+◌, ◌-◌, Bool, true, false, not, ◌&&◌, ◌||◌, Bytes, List, [], ◌∷◌, ◌++◌, Option,
  none, some, ltb, leb, ◌==◌, if◌then◌else◌, length, take, drop, slice,
}
use pgbouncer.Pktbuf.Memory.{poke}
use pgbouncer.Iobuf.{
  IoBuf, is_empty, amount_pending, amount_parse, amount_recv, parse_all, parse_limit, tag_send,
  tag_skip, try_resync, reset,
}

pub data PktAction : Type 0 where
  act_unset act_send act_skip act_call : PktAction

pub data WaitType : Type 0 where
  w_none w_connect w_recv w_send w_once : WaitType

pub data SbufEvent : Type 0 where
  ev_read ev_recv_failed ev_send_failed ev_connect_failed ev_connect_ok ev_flush ev_pkt_callback
        ev_tls_ready :
      SbufEvent

-- What a send on the destination's socket answers: how much it took, that it is full, or an error.
pub data Answer : Type 0 where
  took : ℕ → Answer
  would_block broken : Answer

-- `sock` and `dst_sock` tell whether the sockets are open, `extra_packets` is what is unread of
-- that buffer. `sent` is what the destination's socket has taken so far, `answers` what it will
-- answer until the next event, `handler` what the protocol handler keeps for itself.
pub record Sbuf (P : Type 0) : Type 0 where
  pub wait_type : WaitType
  pub pkt_action : PktAction
  pub sock : Bool
  pub pkt_remain : ℕ
  pub skip_remain : ℕ
  pub extra_packets : Bytes
  pub extra_packet_queue_after : Bool
  pub dst_sock : Bool
  pub io : Option IoBuf
  pub sent : Bytes
  pub answers : List Answer
  pub handler : P

-- libevent's answers to event_initialized, event_del and event_add, the slab that gives a buffer,
-- and the protocol handler, which is given the event and bytes to read and says whether processing
-- can go on.
pub record Host (P : Type 0) : Type 0 where
  pub event_initialized : Sbuf P → Bool
  pub event_del : Sbuf P → Bool
  pub event_add : Sbuf P → Bool
  pub slab_alloc : Sbuf P → Option IoBuf
  pub proto_cb : Sbuf P → SbufEvent → Bytes → Sbuf P × Bool

abbrev pub sbuf_small_pkt : ℕ
sbuf_small_pkt = 64

abbrev pub pending_bytes : Option IoBuf → Bytes
pending_bytes none = []
pending_bytes (some io) = slice io.buf io.done_pos io.parse_pos

module _ {P : Type 0} where
  abbrev pub set_io : Sbuf P → IoBuf → Sbuf P
  set_io st io = record st { io = some io }

  abbrev pub sent_from_io : ℕ → Sbuf P → Sbuf P
  sent_from_io n st = elim st.io [
    | none ↦ st
    | some io ↦ record st {
      io = some (record io { done_pos = io.done_pos + n });
      sent = st.sent ++ take n (pending_bytes (some io));
    }
  ]

  abbrev pub sent_from_extra : ℕ → Sbuf P → Sbuf P
  sent_from_extra n st = record st {
    extra_packets = drop n st.extra_packets;
    sent = st.sent ++ take n st.extra_packets;
  }

  -- A destination is given by whether its socket is open.
  pub sbuf_prepare_send : Bool → ℕ → Sbuf P → Sbuf P
  sbuf_prepare_send dst amount st = record st {
    pkt_action = act_send;
    pkt_remain = amount;
    dst_sock = dst;
  }

  pub sbuf_prepare_skip : ℕ → Sbuf P → Sbuf P
  sbuf_prepare_skip amount st = record st {
    pkt_action = act_skip;
    skip_remain = amount;
    pkt_remain = amount;
  }

  pub sbuf_prepare_skip_then_send_leftover : Bool → ℕ → ℕ → Sbuf P → Sbuf P
  sbuf_prepare_skip_then_send_leftover dst skip_amount total_amount st = record st {
    pkt_action = act_skip;
    pkt_remain = total_amount;
    skip_remain = skip_amount;
    dst_sock = dst;
  }

  pub sbuf_prepare_fetch : ℕ → Sbuf P → Sbuf P
  sbuf_prepare_fetch amount st = record st {
    pkt_action = act_call;
    skip_remain = amount;
    pkt_remain = amount;
  }

  -- The bytes of a packet that was written in full.
  pub sbuf_queue_packet : Bool → Bytes → Sbuf P → Sbuf P
  sbuf_queue_packet dst pkt st = record st {
    dst_sock = dst;
    extra_packets = st.extra_packets ++ pkt;
  }

  pub sbuf_is_empty : Sbuf P → Bool
  sbuf_is_empty st = elim st.io [ none ↦ true | some io ↦ is_empty io ] && (st.pkt_remain == 0)

  pub sbuf_is_recv_active : Sbuf P → Bool
  sbuf_is_recv_active st = elim st.wait_type [
    | w_recv ↦ st.sock && elim st.io [ none ↦ false | some io ↦ true ]
    | w_none ↦ false
    | w_connect ↦ false
    | w_send ↦ false
    | w_once ↦ false
  ]

  pub sbuf_close : Sbuf P → Sbuf P
  sbuf_close st = record st {
    dst_sock = false;
    sock = false;
    pkt_remain = 0;
    pkt_action = act_unset;
    wait_type = w_none;
    io = none;
    extra_packets = [];
  }

module _ {P : Type 0} (host : Host P) where
  pub sbuf_call_proto : Sbuf P → SbufEvent → Sbuf P × Bool
  sbuf_call_proto st ev_read =
      host.proto_cb st ev_read (elim st.io [ none ↦ [] | some io ↦ parse_all io ])
  sbuf_call_proto st ev_pkt_callback =
      host.proto_cb st ev_pkt_callback
        (elim st.io [ none ↦ [] | some io ↦ parse_limit io st.pkt_remain ])
  sbuf_call_proto st event = host.proto_cb st event []

  -- Waits for the destination to be writable again.
  pub sbuf_queue_send : Sbuf P → Sbuf P × Bool
  sbuf_queue_send st =
      let st1 = record st { wait_type = w_none } in
      if not (host.event_del st)
      then (st1, false)
      else if not (host.event_add st1)
      then (st1, false)
      else (record st { wait_type = w_send }, true)

  send_failed : Sbuf P → Sbuf P × Bool
  unfolding sbuf_call_proto
  send_failed st = ((sbuf_call_proto st ev_send_failed).0, false)

  blocked : Sbuf P → Sbuf P × Bool
  unfolding sbuf_queue_send send_failed
  blocked st = let (st1, ok) = sbuf_queue_send st in if ok then (st1, false) else send_failed st1

  -- The loop of both sbuf_send_pending functions: all that waits, until the destination is full.
  pub send_from : (Sbuf P → Bytes) → (ℕ → Sbuf P → Sbuf P) → List Answer → Sbuf P → Sbuf P × Bool
  unfolding send_failed blocked
  send_from waiting advance [] st =
      if length (waiting st) == 0
      then (st, true)
      else if not st.dst_sock
      then send_failed st
      else blocked st
  send_from waiting advance (took n ∷ later) st =
      let avail = length (waiting st) in
      let taken = if ltb n avail then n else avail in
      let rest = send_from waiting advance later (advance taken (record st { answers = later })) in
      if avail == 0 then (st, true) else if not st.dst_sock then send_failed st else rest
  send_from waiting advance (would_block ∷ later) st =
      if length (waiting st) == 0
      then (st, true)
      else if not st.dst_sock
      then send_failed st
      else blocked (record st { answers = later })
  send_from waiting advance (broken ∷ later) st =
      if length (waiting st) == 0
      then (st, true)
      else if not st.dst_sock
      then send_failed st
      else send_failed (record st { answers = later })

  pub sbuf_send_pending_iobuf : Sbuf P → Sbuf P × Bool
  unfolding send_from
  sbuf_send_pending_iobuf st = send_from (λ st. pending_bytes st.io) sent_from_io st.answers st

  pub sbuf_send_pending_extra_packets : Sbuf P → Sbuf P × Bool
  unfolding send_from
  sbuf_send_pending_extra_packets st =
      send_from (λ st. st.extra_packets) sent_from_extra st.answers st
