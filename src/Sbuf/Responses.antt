-- ===== src/Sbuf/Responses.antt =====
-- A handler for the stream of src/sbuf.c that keeps the contract: the packets of a server go as
-- its session says.
use pgbouncer.Base.{
  ℕ, ◌^◌, ◌<◌, ◌∙◌, ◌≡◌, refl, sym, ap, Bool, true, false, Bytes, [], Option, none, some, arith,
  length, inl, inr, if◌then◌else◌, if_intro,
}
use pgbouncer.Sbuf.Session.{Session, header, waits, answered, header_enough, header_length}
use pgbouncer.Sbuf.Forward.{Plan, mixed, IsFraming}
use pgbouncer.Sbuf.Sending.{unparsed_bytes, is_open, Stopped, Sends-refl}
use pgbouncer.Sbuf.Owed.{Fits}
use pgbouncer.Sbuf.Prepared.{prepare_send-Accepted, prepare_skip-Accepted}
use pgbouncer.Sbuf.Contract.{Answered, Serves}
use pgbouncer.Sbuf.{
  Sbuf, Host, SbufEvent, ev_read, ev_recv_failed, ev_send_failed, ev_connect_failed, ev_connect_ok,
  ev_flush, ev_pkt_callback, ev_tls_ready, act_send, act_skip, sbuf_prepare_send, sbuf_prepare_skip,
  sbuf_close, pending_bytes,
}

abbrev plan_of : ℕ → Bool × Session → Plan Session
plan_of len (true, session) = record {
  total = len;
  action = act_skip;
  skip = len;
  extra = [];
  after = true;
  next = session;
}
plan_of len (false, session) = record {
  total = len;
  action = act_send;
  skip = 0;
  extra = [];
  after = true;
  next = session;
}

abbrev planned : Session → Option (ℕ × ℕ) → Option (Plan Session)
planned session none = none
planned session (some (type, len)) = some (plan_of len (answered session type))

abbrev pub responses : Session → Bytes → Option (Plan Session)
responses session bs = planned session (header bs)

plan_total : (len : ℕ) (r : Bool × Session) → (plan_of len r).total ≡ len
plan_total len (true, session) = refl
plan_total len (false, session) = refl

planned-some :
    (session : Session) (o : Option (ℕ × ℕ)) (p : Plan Session)
    → planned session o ≡ some p
    → (r : ℕ × ℕ) × (o ≡ some r) × (p.total ≡ r.1)
planned-some session none p e = cc
planned-some session (some (type, len)) p e =
    let same : plan_of len (answered session type) ≡ p =
      ap (λ o. elim o [ none ↦ plan_of len (answered session type) | some p ↦ p ]) e in
    ((type, len), refl, sym (ap (λ p. p.total) same) ∙ plan_total len (answered session type))

pub responses-IsFraming : IsFraming responses
responses-IsFraming = record {
  no_packet = λ session. refl;
  progress = λ session bs p e.
      let (r, h, t) = planned-some session (header bs) p e in
      omega (arith, header_length bs r h, t);
  stable = λ session bs cs p e.
      let (r, h, t) = planned-some session (header bs) p e in
      ap (planned session) (header_enough bs cs r h ∙ sym h) ∙ e;
}

-- Less than a header waits for more, a bad one closes the connection.
abbrev pass_on : ℕ → Bool × Session → Sbuf Session → Sbuf Session
pass_on len (true, session) st =
    sbuf_prepare_skip len (record st { extra_packet_queue_after = true; handler = session })
pass_on len (false, session) st =
    sbuf_prepare_send true len (record st { extra_packet_queue_after = true; handler = session })

abbrev read_response : Option (ℕ × ℕ) → Bytes → Sbuf Session → Sbuf Session × Bool
read_response none bs st = if waits bs then (st, false) else (sbuf_close st, false)
read_response (some (type, len)) bs st = (pass_on len (answered st.handler type) st, true)

abbrev server_proto : Sbuf Session → SbufEvent → Bytes → Sbuf Session × Bool
server_proto st ev_read bs = read_response (header bs) bs st
server_proto st ev_send_failed bs = (sbuf_close st, false)
server_proto st ev_recv_failed bs = (sbuf_close st, false)
server_proto st ev_connect_failed bs = (sbuf_close st, false)
server_proto st ev_connect_ok bs = (st, true)
server_proto st ev_flush bs = (st, true)
server_proto st ev_pkt_callback bs = (st, true)
server_proto st ev_tls_ready bs = (st, true)

abbrev pub responses_host : Bytes → Host Session
responses_host buf = record {
  event_initialized = λ st. true;
  event_del = λ st. true;
  event_add = λ st. true;
  slab_alloc = λ st. some (record { done_pos = 0; parse_pos = 0; recv_pos = 0; buf = buf });
  proto_cb = server_proto;
}

closed : (cap : ℕ) (st : Sbuf Session) → Stopped cap st (sbuf_close st)
unfolding sbuf_close
closed cap st = inr (record {
  shut = refl;
  freed = refl;
  lost = mixed st.extra_packet_queue_after st.extra_packets (pending_bytes st.io);
  part = refl;
})

module _ (cap : ℕ) (st : Sbuf Session) (v : Fits cap st) (between : st.pkt_remain ≡ 0)
    (none_left : st.extra_packets ≡ []) (opened : is_open st.io ≡ true) where
  pass_on-Answered :
      (len : ℕ) (r : Bool × Session)
      → 0 < len
      → responses st.handler (unparsed_bytes st.io) ≡ some (plan_of len r)
      → Answered responses cap st (pass_on len r st, true)
  pass_on-Answered len (true, session) h e = inl (
      prepare_skip-Accepted responses cap st v.sane opened none_left (plan_of len (true, session)) e
        h true refl refl refl)
  pass_on-Answered len (false, session) h e = inl (
      prepare_send-Accepted responses cap st v.sane opened none_left (plan_of len (false, session))
        e h true refl refl)

  -- Nothing is done to the stream.
  wait-Answered : Answered responses cap st (st, false)
  wait-Answered = inl (record {
    sane = v.sane;
    between = between;
    same_handler = refl;
    same_unparsed = refl;
    same_sent = refl;
  })

  stop-Answered : Answered responses cap st (sbuf_close st, false)
  unfolding sbuf_close
  stop-Answered = inr (record {
    shut = refl;
    freed = refl;
    lost = mixed st.extra_packet_queue_after st.extra_packets (pending_bytes st.io);
    part = refl;
  })

  read_response-Answered :
      (o : Option (ℕ × ℕ))
      → header (unparsed_bytes st.io) ≡ o
      → Answered responses cap st (read_response o (unparsed_bytes st.io) st)
  read_response-Answered none e =
      if_intro (Answered responses cap st) (waits (unparsed_bytes st.io)) _ _ (λ _. wait-Answered)
        λ _. stop-Answered
  read_response-Answered (some (type, len)) e =
      pass_on-Answered len (answered st.handler type)
        (header_length (unparsed_bytes st.io) (type, len) e) (ap (planned st.handler) e)

-- The handler keeps the contract.
pub responses-Serves :
    (buf : Bytes) → length buf < 2 ^ 31 → Serves responses (length buf) (responses_host buf)
responses-Serves buf small = record {
  small = small;
  allocates = λ st io e. sym (ap (λ o. elim o [ none ↦ length buf | some io ↦ length io.buf ]) e);
  fails = closed (length buf);
  recv_fails = closed (length buf);
  flushes = λ st. inl (Sends-refl (length buf) st);
  reads = λ st v between none_left opened some_there.
      read_response-Answered (length buf) st v between none_left opened
        (header (unparsed_bytes st.io)) refl;
}
