-- ===== src/Sbuf/Loop/Events.antt =====
-- src/sbuf.c: the events of a stream, in any order.
use pgbouncer.Base.{
  ℕ, zero, suc, ◌<◌, ◌≡◌, refl, sym, ap, ◌∙◌, subst, Bool, true, false, not, Bytes, List, [], ◌∷◌,
  ◌++◌, Option, none, some, arith, take, drop, append-nil, if_intro, inl, inr,
}
use pgbouncer.Sbuf.Forward.{kept, mixed, Plan, IsFraming, forwards, forwards_nil}
use pgbouncer.Sbuf.Sending.{unparsed_bytes, AllSane}
use pgbouncer.Sbuf.Owed.{kept-nil, body, Fits, owed}
use pgbouncer.Sbuf.Contract.{Serves, between-owed}
use pgbouncer.Sbuf.Loop.Wakeups.{SocketEvent, on_event, run_events}
use pgbouncer.Sbuf.Loop.Callbacks.{RanBy, ThenRan, callback-Ran}
use pgbouncer.Sbuf.Loop.Arrivals.{Held}
use pgbouncer.Sbuf.Loop.{Peer}
use pgbouncer.Sbuf.{pending_bytes, Sbuf, Host}

-- A stream that has neither received nor sent anything.
pub record Fresh {P : Type 0} (st : Sbuf P) : Type 0 where
  pub between : st.pkt_remain ≡ 0
  pub none_extra : st.extra_packets ≡ []
  pub none_sent : st.sent ≡ []
  pub no_buffer : st.io ≡ none

-- All that came is received, parsed and sent.
pub record Idle {P : Type 0} (peer : Peer) (st : Sbuf P) : Type 0 where
  pub none_coming : peer.incoming ≡ []
  pub none_unparsed : unparsed_bytes st.io ≡ []
  pub none_pending : pending_bytes st.io ≡ []
  pub none_extra : st.extra_packets ≡ []

drop_none : (n : ℕ) → drop {A = ℕ} n [] ≡ []
drop_none zero = refl
drop_none (suc n) = refl

take_none : (n : ℕ) → take {A = ℕ} n [] ≡ []
take_none zero = refl
take_none (suc n) = refl

mixed_none : (after : Bool) → mixed after [] [] ≡ []
mixed_none true = refl
mixed_none false = refl

module _ {P : Type 0} (decide : P → Bytes → Option (Plan P)) (cap : ℕ) (host : Host P)
    (framing : IsFraming decide) (serves : Serves decide cap host) where
  Idle-owed : (peer : Peer) (st : Sbuf P) → Idle peer st → owed decide st peer.incoming ≡ st.sent
  Idle-owed peer st k =
      let none_left : body st [] ≡ [] =
        ap (kept st.pkt_action st.skip_remain) (take_none st.pkt_remain)
        ∙ kept-nil st.pkt_action st.skip_remain in
      rw
        (
          k.none_coming,
          k.none_unparsed,
          k.none_pending,
          k.none_extra,
          none_left,
          drop_none st.pkt_remain,
          mixed_none st.extra_packet_queue_after,
          forwards_nil decide st.handler,
        )
        (append-nil st.sent)

  Fresh-Fits : (st : Sbuf P) → Fresh st → Fits cap st
  Fresh-Fits st k = record {
    sane = subst (AllSane cap) (sym k.no_buffer) tt;
    in_order = λ _. inl k.none_extra;
    plain = λ some_left. absurd (omega (arith, some_left, k.between));
  }

  Fresh-owed :
      (st : Sbuf P) (x : Bytes) → Fresh st → owed decide st x ≡ forwards decide st.handler x
  Fresh-owed st x k =
      between-owed decide cap st x k.between k.none_extra ∙ rw (k.none_sent, k.no_buffer) refl

  closed_run :
      (max : ℕ) (evs : List SocketEvent) (peer : Peer) (st : Sbuf P)
      → st.sock ≡ false
      → run_events host cap max evs peer st ≡ some (peer, st)
  unfolding run_events on_event
  closed_run max [] peer st e = refl
  closed_run max (ev ∷ evs) peer st e =
      if_intro
        (λ (o : Option (Peer × Sbuf P)).
          elim o [ none ↦ none | some r ↦ run_events host cap max evs r.0 r.1 ] ≡ some (peer, st))
        (not st.sock) _ _ (λ _. closed_run max evs peer st e)
        λ h. let contra : true ≡ false = sym (ap not e) ∙ h in cc

  module _ (max : ℕ) (bounded : 0 < max) where
    abbrev HeldRun : Sbuf P → Bytes → Option (Peer × Sbuf P) → Type 0
    HeldRun = RanBy decide cap host framing serves max bounded

    on_event-Ran :
        (ev : SocketEvent) (peer : Peer) (st : Sbuf P)
        → Fits cap st
        → HeldRun st peer.incoming (on_event host cap max ev peer st)
    unfolding on_event
    on_event-Ran ev peer st v =
        let st1 : Sbuf P = record st { answers = ev.answers } in
        let w : Fits cap st1 = record { sane = v.sane; in_order = v.in_order; plain = v.plain } in
        if_intro (HeldRun st peer.incoming) (not st.sock) _ _ (λ _. inl (v, refl))
          λ _.
            ThenRan decide cap host framing serves max bounded st st1 peer.incoming peer.incoming _
              (w, refl)
              (callback-Ran decide cap host framing serves max bounded ev.wakeup
                (record peer { arrivals = ev.arrivals }) st1 w)

    then_run :
        (evs : List SocketEvent) (st : Sbuf P) (x : Bytes) (o : Option (Peer × Sbuf P))
        → ((peer1 : Peer) (st1 : Sbuf P)
            → Fits cap st1
            → HeldRun st1 peer1.incoming (run_events host cap max evs peer1 st1))
        → HeldRun st x o
        → HeldRun st x (elim o [ none ↦ none | some r ↦ run_events host cap max evs r.0 r.1 ])
    then_run evs st x none h never = elim never [ ]
    then_run evs st x (some (peer1, st1)) h (inl k) =
        ThenRan decide cap host framing serves max bounded st st1 x peer1.incoming _ k
          (h peer1 st1 k.0)
    then_run evs st x (some (peer1, st1)) h (inr k) =
        rw (closed_run max evs peer1 st1 k.shut) (inr k)

    run_events-Ran :
        (evs : List SocketEvent) (peer : Peer) (st : Sbuf P)
        → Fits cap st
        → HeldRun st peer.incoming (run_events host cap max evs peer st)
    unfolding run_events
    run_events-Ran [] peer st v = inl (v, refl)
    run_events-Ran (ev ∷ evs) peer st v =
        then_run evs st peer.incoming (on_event host cap max ev peer st) (run_events-Ran evs)
          (on_event-Ran ev peer st v)

    abbrev Delivered : Bytes → Option (Peer × Sbuf P) → Type 0
    Delivered out o =
        (peer' : Peer) × (st' : Sbuf P) × (o ≡ some (peer', st'))
        × ((lost : Bytes) × (st'.sent ++ lost ≡ out))

    delivered :
        (st : Sbuf P) (x : Bytes) (o : Option (Peer × Sbuf P))
        → Fresh st
        → HeldRun st x o
        → Delivered (forwards decide st.handler x) o
    delivered st x none k never = elim never [ ]
    delivered st x (some (peer', st')) k (inl (v, e)) =
        let input = unparsed_bytes st'.io ++ peer'.incoming in
        let later =
          mixed st'.extra_packet_queue_after st'.extra_packets
            (pending_bytes st'.io ++ body st' input)
          ++ forwards decide st'.handler (drop st'.pkt_remain input) in
        (peer', st', refl, (later, e ∙ Fresh-owed st x k))
    delivered st x (some (peer', st')) k (inr c) =
        (peer', st', refl, (c.lost, c.part ∙ Fresh-owed st x k))

    -- For a bounded loop count and a fresh stream, where buffers have cf_sbuf_len bytes, below 2 ^
    -- 31, and the handler decides at the start of a packet by its own state, which it changes only
    -- when it takes a packet, and by the bytes there, where the decision needs a byte and more
    -- bytes do not change it, takes at least a byte, sets the packet up as decided, sends it or
    -- skips a part of it, never fetching it part by part (ACT_CALL), queues packets before it only
    -- with nothing pending and behind it only when all of it is there or is skipped, or asks for
    -- more or closes the stream, and at other events closes the stream or leaves its bytes alone:
    -- whatever events come, and however the sockets split what is received and sent, are full,
    -- fail or end, every run of the callbacks returns, and what the destination has got is the
    -- beginning of what the handler's decisions make of the input, packet by packet with the
    -- handler's own packets at their places.
    pub run_events-Delivered :
        (evs : List SocketEvent) (peer : Peer) (st : Sbuf P)
        → Fresh st
        → (peer' : Peer) × (st' : Sbuf P) × (run_events host cap max evs peer st
            ≡ some (peer', st'))
          × ((lost : Bytes) × (st'.sent ++ lost ≡ forwards decide st.handler peer.incoming))
    run_events-Delivered evs peer st k =
        delivered st peer.incoming (run_events host cap max evs peer st) k
          (run_events-Ran evs peer st (Fresh-Fits st k))

    all_delivered :
        (st st' : Sbuf P) (x : Bytes) (peer' : Peer)
        → Fresh st
        → st'.sock ≡ true
        → Idle peer' st'
        → Held decide cap st x st' peer'.incoming
        → st'.sent ≡ forwards decide st.handler x
    all_delivered st st' x peer' k opened idle (inl (v, e)) =
        sym (Idle-owed peer' st' idle) ∙ e ∙ Fresh-owed st x k
    all_delivered st st' x peer' k opened idle (inr c) =
        let contra : false ≡ true = sym c.shut ∙ opened in cc

    -- For a bounded loop count and a fresh stream, where buffers have cf_sbuf_len bytes, below 2 ^
    -- 31, and the handler decides at the start of a packet by its own state, which it changes only
    -- when it takes a packet, and by the bytes there, where the decision needs a byte and more
    -- bytes do not change it, takes at least a byte, sets the packet up as decided, sends it or
    -- skips a part of it, never fetching it part by part (ACT_CALL), queues packets before it only
    -- with nothing pending and behind it only when all of it is there or is skipped, or asks for
    -- more or closes the stream, and at other events closes the stream or leaves its bytes alone:
    -- after a run of events that leaves the stream open with all of the input received and parsed,
    -- nothing pending and no extra packets, the destination has got exactly what the handler's
    -- decisions make of the whole input.
    pub run_events-Idle :
        (evs : List SocketEvent) (peer peer' : Peer) (st st' : Sbuf P)
        → Fresh st
        → run_events host cap max evs peer st ≡ some (peer', st')
        → st'.sock ≡ true
        → Idle peer' st'
        → st'.sent ≡ forwards decide st.handler peer.incoming
    run_events-Idle evs peer peer' st st' k e opened idle =
        all_delivered st st' peer.incoming peer' k opened idle
          (subst (HeldRun st peer.incoming) e (run_events-Ran evs peer st (Fresh-Fits st k)))
