-- ===== src/Sbuf/Packets.antt =====
-- src/sbuf.c: sbuf_process_pending, the loop over packets.
pub mod Flushing
mod Consume
pub mod Start
pub mod Rounds
pub mod Parts
pub mod Ends
pub mod Process
use pgbouncer.Base.{
  ℕ, zero, suc, ◌+◌, ◌-◌, ◌^◌, Bool, true, false, not, ◌&&◌, ◌||◌, Bytes, List, [], ◌∷◌, ◌++◌,
  Option, none, some, ltb, leb, ◌==◌, if◌then◌else◌, length, take, drop, slice,
}
use pgbouncer.Pktbuf.Memory.{poke}
use pgbouncer.Iobuf.{
  IoBuf, is_empty, amount_pending, amount_parse, amount_recv, parse_all, parse_limit, tag_send,
  tag_skip, try_resync, reset,
}
use pgbouncer.Sbuf.{
  Sbuf, Host, PktAction, act_unset, act_send, act_skip, act_call, ev_read, ev_pkt_callback,
  sbuf_small_pkt, set_io, sbuf_is_recv_active, sbuf_call_proto, sbuf_send_pending_iobuf,
  sbuf_send_pending_extra_packets,
}

-- What a round of the loop over packets comes to: the next round, waiting for more data, or the
-- end because the stream is closed or the destination is full.
pub data Turn (P : Type 0) : Type 0 where
  goes_on need_more_data gives_up : Sbuf P → Turn P

unfoldable pub skips : PktAction → Bool
skips act_skip = true
skips act_call = true
skips act_unset = false
skips act_send = false

unfoldable pub calls : PktAction → Bool
calls act_call = true
calls act_unset = false
calls act_send = false
calls act_skip = false

-- The part of a packet that is there is tagged to be sent, or skipped.
pub consume_io : PktAction → ℕ → ℕ → IoBuf → IoBuf × ℕ
unfolding tag_send tag_skip
consume_io act_unset skip_remain avail io = (io, skip_remain)
consume_io act_send skip_remain avail io = (tag_send io avail, skip_remain)
consume_io action skip_remain avail io =
    if leb avail skip_remain then (tag_skip io avail, skip_remain - avail) else (
      tag_send (if skip_remain == 0 then io else tag_skip io skip_remain) (avail - skip_remain),
      0,
    )

module _ {P : Type 0} where
  -- A callback that goes on may have closed the stream.
  pub open_or_closed : Sbuf P → Turn P
  open_or_closed st = elim st.io [ none ↦ gives_up st | some io ↦ goes_on st ]

  abbrev pub then_turn : Turn P → (Sbuf P → Turn P) → Turn P
  then_turn (goes_on st) f = f st
  then_turn (need_more_data st) f = need_more_data st
  then_turn (gives_up st) f = gives_up st

  -- No more than the packet has left.
  abbrev pub part_length : ℕ → Sbuf P → ℕ
  part_length unparsed st = if ltb st.pkt_remain unparsed then st.pkt_remain else unparsed

  -- The case of the switch is that of `action`, and `avail` bytes are taken; the callback before
  -- it may have changed pkt_action, skip_remain and pkt_remain, which is 32 bits wide.
  pub consume : PktAction → ℕ → Sbuf P → Turn P
  unfolding consume_io
  consume action avail st = elim st.io [
    | none ↦ gives_up st
    | some io ↦
        let part = consume_io action st.skip_remain avail io in
        let remain =
          if ltb st.pkt_remain avail
          then st.pkt_remain + 2 ^ 32 - avail
          else st.pkt_remain - avail in
        goes_on (record st { io = some part.0; skip_remain = part.1; pkt_remain = remain })
  ]

module _ {P : Type 0} (host : Host P) where
  -- The extra packets of an earlier packet go out first, behind it if they are to.
  pub flush_extra : Sbuf P → Sbuf P × Bool
  unfolding sbuf_send_pending_iobuf sbuf_send_pending_extra_packets
  flush_extra st =
      if length st.extra_packets == 0
      then (st, true)
      else if st.extra_packet_queue_after
      then (let (st1, ok) = sbuf_send_pending_iobuf host st in
          if ok then sbuf_send_pending_extra_packets host st1 else (st1, false))
      else sbuf_send_pending_extra_packets host st

  pub start_packet : Sbuf P → Turn P
  unfolding sbuf_call_proto open_or_closed
  start_packet st =
      if st.pkt_remain == 0
      then (let (st1, ok) = sbuf_call_proto host st ev_read in
          if ok then open_or_closed st1 else need_more_data st1)
      else goes_on st

  -- Pending bytes are sent before bytes are skipped.
  pub send_before_skip : Sbuf P → Turn P
  unfolding sbuf_send_pending_iobuf
  send_before_skip st =
      if skips st.pkt_action
      then (let (st1, ok) = sbuf_send_pending_iobuf host st in
          if ok then goes_on st1 else gives_up st1)
      else goes_on st

  pub part_callback : Sbuf P → Turn P
  unfolding sbuf_call_proto open_or_closed
  part_callback st =
      if calls st.pkt_action
      then (let (st1, ok) = sbuf_call_proto host st ev_pkt_callback in
          if ok then open_or_closed st1 else need_more_data st1)
      else goes_on st

  pub take_part : ℕ → Sbuf P → Turn P
  unfolding start_packet send_before_skip part_callback consume
  take_part unparsed st = then_turn (start_packet st) λ st1. then_turn (send_before_skip st1) λ st2.
      then_turn (part_callback st2) λ st3. consume st2.pkt_action (part_length unparsed st2) st3

  -- Extra packets of a callback that is to be repeated are dropped. What can be sent is sent, and
  -- a full buffer is made room in.
  pub wait_for_more : ℕ → Sbuf P → Sbuf P
  unfolding sbuf_is_recv_active sbuf_send_pending_iobuf try_resync
  wait_for_more cf_sbuf_len st =
      let st1 = record st { extra_packets = [] } in
      if not (sbuf_is_recv_active st1)
      then st1
      else (let (st2, ok) = sbuf_send_pending_iobuf host st1 in
          if not ok then st2 else elim st2.io [
            | none ↦ st2
            | some io ↦
                if io.recv_pos == cf_sbuf_len then set_io st2 (try_resync io cf_sbuf_len) else st2
          ])

  -- The loop of sbuf_process_pending; `none` is a null pointer or the fuel used up. A buffer that
  -- was full at the start leaves a last small part to the next recv.
  pub process_loop : ℕ → ℕ → Bool → Sbuf P → Option (Sbuf P × Bool)
  unfolding flush_extra take_part wait_for_more sbuf_send_pending_iobuf amount_parse
  process_loop cf_sbuf_len zero full st = none
  process_loop cf_sbuf_len (suc f) full st =
      let (st1, ok) = flush_extra st in
      if not ok then some (st1, false) else elim st1.io [
        | none ↦ none
        | some io ↦
            let avail = amount_parse io in
            if avail == 0 || (full && leb avail sbuf_small_pkt)
            then some (sbuf_send_pending_iobuf host st1)
            else elim (take_part avail st1) [
              | goes_on st2 ↦ process_loop cf_sbuf_len f full st2
              | need_more_data st2 ↦ some (wait_for_more cf_sbuf_len st2, false)
              | gives_up st2 ↦ some (st2, false)
            ]
      ]

  -- Every round takes a byte at least.
  unfoldable pub sbuf_process_pending : ℕ → Sbuf P → Option (Sbuf P × Bool)
  unfolding process_loop amount_recv amount_parse
  sbuf_process_pending cf_sbuf_len st = elim st.io [
    | none ↦ none
    | some io ↦
        process_loop cf_sbuf_len (suc (amount_parse io)) (amount_recv cf_sbuf_len io == 0) st
  ]
