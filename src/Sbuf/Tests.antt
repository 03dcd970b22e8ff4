-- ===== src/Sbuf/Tests.antt =====
-- src/sbuf.c: a stream whose packets begin with a byte that tells how many follow; a packet of one
-- byte is replaced by a packet of the handler's own.
use pgbouncer.Base.{
  zero, suc, ◌<◌, ◌≡◌, refl, sym, ap, Bool, true, false, Bytes, [], ◌∷◌, ◌++◌, Option, none, some,
  arith, length, ◌⊎◌, inl, inr, ◌==◌,
}
use pgbouncer.Iobuf.{IoBuf, amount_recv, parse_all}
use pgbouncer.Sbuf.Forward.{Plan, mixed, IsFraming}
use pgbouncer.Sbuf.Sending.{unparsed_bytes, is_open, Stopped, Sends-refl}
use pgbouncer.Sbuf.Owed.{Fits, Good}
use pgbouncer.Sbuf.Prepared.{prepare_send-Accepted, replaced-Accepted}
use pgbouncer.Sbuf.Contract.{Answered, Serves}
use pgbouncer.Sbuf.Packets.Ends.{Drained}
use pgbouncer.Sbuf.Packets.Process.{sbuf_process_pending-Good}
use pgbouncer.Sbuf.Packets.{sbuf_process_pending, skips, calls}
use pgbouncer.Sbuf.{
  Sbuf, Host, SbufEvent, ev_read, ev_recv_failed, ev_send_failed, ev_connect_failed, ev_connect_ok,
  ev_flush, ev_pkt_callback, ev_tls_ready, act_unset, act_send, act_skip, w_recv, took,
  sbuf_prepare_send, sbuf_prepare_skip_then_send_leftover, sbuf_queue_packet, sbuf_close,
  pending_bytes,
}

abbrev by_length : Unit {0} → Bytes → Option (Plan (Unit {0}))
by_length h [] = none
by_length h (zero ∷ bs) =
    some
      (record { total = 1; action = act_skip; skip = 1; extra = 9 ∷ []; after = true; next = tt })
by_length h (suc n ∷ bs) = some (record {
  total = suc (suc n);
  action = act_send;
  skip = 0;
  extra = [];
  after = true;
  next = tt;
})

by_length-IsFraming : IsFraming by_length
by_length-IsFraming = record { no_packet = λ h. refl; progress = far; stable = same }
  where
    far : (h : Unit {0}) (bs : Bytes) (p : Plan (Unit {0})) → by_length h bs ≡ some p → 0 < p.total
    far h [] p e = cc
    far h (zero ∷ bs) p e =
        let k : 1 ≡ p.total = ap (λ o. elim o [ none ↦ 1 | some p ↦ p.total ]) e in omega arith
    far h (suc n ∷ bs) p e =
        let k : suc (suc n) ≡ p.total =
          ap (λ o. elim o [ none ↦ suc (suc n) | some p ↦ p.total ]) e in
        omega arith

    same :
        (h : Unit {0}) (bs cs : Bytes) (p : Plan (Unit {0}))
        → by_length h bs ≡ some p
        → by_length h (bs ++ cs) ≡ some p
    same h [] cs p e = cc
    same h (zero ∷ bs) cs p e = e
    same h (suc n ∷ bs) cs p e = e

abbrev start : Bytes → Sbuf (Unit {0}) → Sbuf (Unit {0}) × Bool
start [] st = (st, false)
start (zero ∷ bs) st = (
  sbuf_queue_packet true (9 ∷ []) (
      sbuf_prepare_skip_then_send_leftover true 1 1
        (record st { extra_packet_queue_after = true })),
  true,
)
start (suc n ∷ bs) st =
    (sbuf_prepare_send true (suc (suc n)) (record st { extra_packet_queue_after = true }), true)

abbrev handle : Sbuf (Unit {0}) → SbufEvent → Bytes → Sbuf (Unit {0}) × Bool
handle st ev_read bs = start bs st
handle st ev_send_failed bs = (sbuf_close st, false)
handle st ev_recv_failed bs = (sbuf_close st, false)
handle st ev_connect_failed bs = (sbuf_close st, false)
handle st ev_connect_ok bs = (st, true)
handle st ev_flush bs = (st, true)
handle st ev_pkt_callback bs = (st, true)
handle st ev_tls_ready bs = (st, true)

abbrev three_packets : IoBuf
three_packets = record {
  done_pos = 0;
  parse_pos = 0;
  recv_pos = 7;
  buf = 2 ∷ 5 ∷ 6 ∷ 0 ∷ 1 ∷ 4 ∷ 3 ∷ 0 ∷ [];
}

abbrev host : Host (Unit {0})
host = record {
  event_initialized = λ st. true;
  event_del = λ st. true;
  event_add = λ st. true;
  slab_alloc = λ st. some (record three_packets { recv_pos = 3 });
  proto_cb = handle;
}

starts-Answered :
    (bs : Bytes) (st : Sbuf (Unit {0}))
    → unparsed_bytes st.io ≡ bs
    → Fits 8 st
    → st.extra_packets ≡ []
    → is_open st.io ≡ true
    → 0 < length bs
    → Answered by_length 8 st (start bs st)
starts-Answered [] st e v none_left opened some_there = absurd (omega arith)
starts-Answered (zero ∷ bs) st e v none_left opened some_there = inl (
    replaced-Accepted by_length 8 st v.sane opened none_left
      (record { total = 1; action = act_skip; skip = 1; extra = 9 ∷ []; after = true; next = tt })
      (ap (by_length tt) e) (omega arith) true refl (inr (refl, omega arith)))
starts-Answered (suc n ∷ bs) st e v none_left opened some_there = inl (
    prepare_send-Accepted by_length 8 st v.sane opened none_left
      (record {
        total = suc (suc n);
        action = act_send;
        skip = 0;
        extra = [];
        after = true;
        next = tt;
      })
      (ap (by_length tt) e) (omega arith) true refl refl)

closed : (st : Sbuf (Unit {0})) → Stopped 8 st (sbuf_close st)
unfolding sbuf_close
closed st = inr (record {
  shut = refl;
  freed = refl;
  lost = mixed st.extra_packet_queue_after st.extra_packets (pending_bytes st.io);
  part = refl;
})

host-Serves : Serves by_length 8 host
unfolding sbuf_close
host-Serves = record {
  small = omega arith;
  allocates = λ st io e. sym (ap (λ o. elim o [ none ↦ 8 | some io ↦ length io.buf ]) e);
  fails = closed;
  recv_fails = closed;
  flushes = λ st. inl (Sends-refl 8 st);
  reads = λ st v between none_left opened some_there.
      starts-Answered (unparsed_bytes st.io) st refl v none_left opened some_there;
}

abbrev busy : Sbuf (Unit {0})
busy = record {
  wait_type = w_recv;
  pkt_action = act_unset;
  sock = true;
  pkt_remain = 0;
  skip_remain = 0;
  extra_packets = [];
  extra_packet_queue_after = false;
  dst_sock = true;
  io = some three_packets;
  sent = [];
  answers = took 2 ∷ took 4 ∷ took 4 ∷ took 1 ∷ took 5 ∷ [];
  handler = tt;
}

busy-Fits : Fits 8 busy
busy-Fits = record {
  sane = record {
    done_le_parse = omega arith;
    parse_le_recv = omega arith;
    recv_le_cap = omega arith;
    allocated = refl;
    small = omega arith;
  };
  in_order = λ e. inl refl;
  plain = λ some_left. absurd (omega arith);
}

-- Two packets and the handler's own are forwarded, and the first byte of another.
busy_sent :
    elim (sbuf_process_pending host 8 busy) [ none ↦ [] | some r ↦ r.0.sent ]
    ≡ (2 ∷ 5 ∷ 6 ∷ 9 ∷ 1 ∷ 4 ∷ 3 ∷ [])
unfolding sbuf_process_pending parse_all sbuf_prepare_send skips calls sbuf_queue_packet
    sbuf_prepare_skip_then_send_leftover
busy_sent = refl

-- A handler that queues a packet behind a packet of which it has only a part.
abbrev hasty : Host (Unit {0})
hasty = record host {
  proto_cb = λ st event bs. (
    sbuf_queue_packet true (9 ∷ [])
        (sbuf_prepare_send true 3 (record st { extra_packet_queue_after = true })),
    true,
  );
}

-- It gets in behind the part.
queued_inside :
    elim (sbuf_process_pending hasty 8
      (record busy { io = some (record three_packets { recv_pos = 2 }) })) [
        | none ↦ []
        | some r ↦ r.0.pkt_remain ∷ r.0.sent
      ]
    ≡ (1 ∷ 2 ∷ 5 ∷ 9 ∷ [])
unfolding sbuf_process_pending parse_all sbuf_prepare_send skips calls sbuf_queue_packet
queued_inside = refl

sbuf_process_pending-Good_example :
    (st' : Sbuf (Unit {0})) × (ok : Bool) × (sbuf_process_pending host 8 busy ≡ some (st', ok))
    × Good by_length 8 busy st'
    × ((ok ≡ false) ⊎ Drained (amount_recv 8 three_packets == 0) st')
sbuf_process_pending-Good_example =
    sbuf_process_pending-Good by_length 8 host by_length-IsFraming host-Serves busy three_packets
      refl busy-Fits
