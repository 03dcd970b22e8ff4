-- ===== src/Sbuf/Sending.antt =====
-- src/sbuf.c: what the sending of pending bytes and of extra packets leaves.
use pgbouncer.Base.{
  ℕ, ◌≤◌, ◌≡◌, refl, ◌∙◌, Bool, true, false, not, Bytes, List, [], ◌∷◌, ◌++◌, Option, none, some,
  arith, length, if◌then◌else◌, if_intro, ◌⊎◌, inl, inr, ◌==◌, ltb, ◌<◌,
}
use pgbouncer.Iobuf.{IoBuf}
use pgbouncer.Iobuf.Segments.{IsSane, unparsed}
use pgbouncer.Sbuf.Forward.{mixed}
use pgbouncer.Sbuf.{
  Sbuf, Host, WaitType, Answer, took, would_block, broken, w_none, w_send, ev_send_failed,
  pending_bytes, sbuf_call_proto, sbuf_queue_send, send_failed, blocked, send_from,
}

abbrev pub unparsed_bytes : Option IoBuf → Bytes
unparsed_bytes none = []
unparsed_bytes (some io) = unparsed io

abbrev pub is_open : Option IoBuf → Bool
is_open none = false
is_open (some io) = true

abbrev pub AllSane : ℕ → Option IoBuf → Type 0
AllSane cap none = Unit {0}
AllSane cap (some io) = IsSane cap io

module _ {P : Type 0} where
  -- What the destination has, and what it is to get before anything else.
  abbrev pub flow : Sbuf P → Bytes
  flow st = st.sent ++ mixed st.extra_packet_queue_after st.extra_packets (pending_bytes st.io)

  -- The stream has only sent some of what was waiting.
  pub record Sends (cap : ℕ) (st st' : Sbuf P) : Type 0 where
    pub same_flow : flow st' ≡ flow st
    pub same_unparsed : unparsed_bytes st'.io ≡ unparsed_bytes st.io
    pub same_open : is_open st'.io ≡ is_open st.io
    pub same_action : st'.pkt_action ≡ st.pkt_action
    pub same_remain : st'.pkt_remain ≡ st.pkt_remain
    pub same_skip : st'.skip_remain ≡ st.skip_remain
    pub same_handler : st'.handler ≡ st.handler
    pub same_after : st'.extra_packet_queue_after ≡ st.extra_packet_queue_after
    pub no_more_extra : st.extra_packets ≡ [] → st'.extra_packets ≡ []
    pub no_more_pending : pending_bytes st.io ≡ [] → pending_bytes st'.io ≡ []
    pub still_sane : AllSane cap st.io → AllSane cap st'.io

  -- What the stream waits for, and what the destination will answer, do not count.
  waits-Sends :
      (cap : ℕ) (st : Sbuf P) (w : WaitType) (answers : List Answer)
      → Sends cap st (record st { wait_type = w; answers = answers })
  waits-Sends cap st w answers = record {
    same_flow = refl;
    same_unparsed = refl;
    same_open = refl;
    same_action = refl;
    same_remain = refl;
    same_skip = refl;
    same_handler = refl;
    same_after = refl;
    no_more_extra = λ e. e;
    no_more_pending = λ e. e;
    still_sane = λ s. s;
  }

  pub Sends-refl : (cap : ℕ) (st : Sbuf P) → Sends cap st st
  Sends-refl cap st = waits-Sends cap st st.wait_type st.answers

  pub Sends-trans : (cap : ℕ) (a b c : Sbuf P) → Sends cap a b → Sends cap b c → Sends cap a c
  Sends-trans cap a b c h k = record {
    same_flow = k.same_flow ∙ h.same_flow;
    same_unparsed = k.same_unparsed ∙ h.same_unparsed;
    same_open = k.same_open ∙ h.same_open;
    same_action = k.same_action ∙ h.same_action;
    same_remain = k.same_remain ∙ h.same_remain;
    same_skip = k.same_skip ∙ h.same_skip;
    same_handler = k.same_handler ∙ h.same_handler;
    same_after = k.same_after ∙ h.same_after;
    no_more_extra = λ e. k.no_more_extra (h.no_more_extra e);
    no_more_pending = λ e. k.no_more_pending (h.no_more_pending e);
    still_sane = λ s. k.still_sane (h.still_sane s);
  }

  -- The stream was closed, after it had sent a part of what was waiting.
  pub record Closed (st st' : Sbuf P) : Type 0 where
    pub shut : st'.sock ≡ false
    pub freed : st'.io ≡ none
    pub lost : Bytes
    pub part : st'.sent ++ lost ≡ flow st

  pub Sends-Closed : (cap : ℕ) (a b c : Sbuf P) → Sends cap a b → Closed b c → Closed a c
  Sends-Closed cap a b c h k = record {
    shut = k.shut;
    freed = k.freed;
    lost = k.lost;
    part = k.part ∙ h.same_flow;
  }

  abbrev pub Stopped : ℕ → Sbuf P → Sbuf P → Type 0
  Stopped cap st st' = Sends cap st st' ⊎ Closed st st'

  pub Sends-Stopped : (cap : ℕ) (a b c : Sbuf P) → Sends cap a b → Stopped cap b c → Stopped cap a c
  Sends-Stopped cap a b c h (inl k) = inl (Sends-trans cap a b c h k)
  Sends-Stopped cap a b c h (inr k) = inr (Sends-Closed cap a b c h k)

  -- All was sent, or sending stopped.
  abbrev pub Sent : ℕ → (Sbuf P → Type 0) → Sbuf P → Sbuf P × Bool → Type 0
  Sent cap Done st (st', true) = Sends cap st st' × Done st'
  Sent cap Done st (st', false) = Stopped cap st st'

  -- What is sent from: some bytes of the state, and how it moves on when a number of them is sent,
  -- in the states in which it is their turn.
  pub record Source (cap : ℕ) (waiting : Sbuf P → Bytes) (advance : ℕ → Sbuf P → Sbuf P)
      (Turn : Sbuf P → Type 0) : Type 0 where
    pub moves :
        (st : Sbuf P) (n : ℕ) → Turn st → n ≤ length (waiting st) → Sends cap st (advance n st)
    pub still : (st : Sbuf P) (n : ℕ) → Turn st → n ≤ length (waiting st) → Turn (advance n st)
    pub answered :
        (st : Sbuf P) (later : List Answer) → Turn st → Turn (record st { answers = later })
    pub same_waiting :
        (st : Sbuf P) (later : List Answer) → waiting (record st { answers = later }) ≡ waiting st

  pub Sent-true :
      (cap : ℕ) (Done : Sbuf P → Type 0) (st : Sbuf P) (r : Sbuf P × Bool)
      → Sent cap Done st r
      → r.1 ≡ true
      → Sends cap st r.0 × Done r.0
  Sent-true cap Done st (st', true) h e = h
  Sent-true cap Done st (st', false) h e = cc

  pub Sent-false :
      (cap : ℕ) (Done : Sbuf P → Type 0) (st : Sbuf P) (r : Sbuf P × Bool)
      → Sent cap Done st r
      → r.1 ≡ false
      → Stopped cap st r.0
  Sent-false cap Done st (st', true) h e = cc
  Sent-false cap Done st (st', false) h e = h

  pub Sent-first :
      (cap : ℕ) (Done : Sbuf P → Type 0) (a b : Sbuf P) (r : Sbuf P × Bool)
      → Sends cap a b
      → Sent cap Done b r
      → Sent cap Done a r
  Sent-first cap Done a b (c, true) h (k, done) = (Sends-trans cap a b c h k, done)
  Sent-first cap Done a b (c, false) h k = Sends-Stopped cap a b c h k

-- A handler that is told of a failed send closes the stream, or leaves it as it is.
abbrev pub HandlesFailure : {P : Type 0} → ℕ → Host P → Type 0
HandlesFailure {P} cap host = (st : Sbuf P) → Stopped cap st (host.proto_cb st ev_send_failed []).0

module _ {P : Type 0} (cap : ℕ) (host : Host P) (fails : HandlesFailure cap host) where
  send_failed-Stopped : (st : Sbuf P) → Stopped cap st (send_failed host st).0
  unfolding send_failed sbuf_call_proto
  send_failed-Stopped st = fails st

  queue_send-Sends : (st : Sbuf P) → Sends cap st (sbuf_queue_send host st).0
  unfolding sbuf_queue_send
  queue_send-Sends st =
      if_intro (λ (r : Sbuf P × Bool). Sends cap st r.0) (not (host.event_del st)) _ _
        (λ _. waits-Sends cap st w_none st.answers)
        λ _.
          if_intro (λ (r : Sbuf P × Bool). Sends cap st r.0)
            (not (host.event_add (record st { wait_type = w_none }))) _ _
            (λ _. waits-Sends cap st w_none st.answers) λ _. waits-Sends cap st w_send st.answers

  blocked_lem : (Done : Sbuf P → Type 0) (st : Sbuf P) → Sent cap Done st (blocked host st)
  unfolding blocked send_failed
  blocked_lem Done st =
      if_intro (Sent cap Done st) (sbuf_queue_send host st).1 _ _ (λ _. inl (queue_send-Sends st))
        λ _.
          Sends-Stopped cap st _ _ (queue_send-Sends st)
            (send_failed-Stopped (sbuf_queue_send host st).0)

  module _ (waiting : Sbuf P → Bytes) (advance : ℕ → Sbuf P → Sbuf P) (Turn : Sbuf P → Type 0)
      (source : Source cap waiting advance Turn) where
    abbrev pub AllSent : Sbuf P → Type 0
    AllSent st = (length (waiting st) ≡ 0) × Turn st

    -- One answer: nothing is left, the destination is closed, or what the answer leads to.
    one_answer :
        (st : Sbuf P) (r : Sbuf P × Bool)
        → Turn st
        → (0 < length (waiting st) → Sent cap AllSent st r)
        → Sent cap AllSent st (
            if length (waiting st) == 0
            then (st, true)
            else if not st.dst_sock
            then send_failed host st
            else r)
    unfolding send_failed
    one_answer st r turn k =
        if_intro (Sent cap AllSent st) (length (waiting st) == 0) _ _
          (λ e. (Sends-refl cap st, (ground arith, turn)))
          λ some_left.
            if_intro (Sent cap AllSent st) (not st.dst_sock) _ _ (λ _. send_failed-Stopped st)
              λ _. k (ground arith)

    pub send_from_lem :
        (answers : List Answer) (st : Sbuf P)
        → Turn st
        → Sent cap AllSent st (send_from host waiting advance answers st)
    unfolding send_from send_failed
    send_from_lem [] st turn = one_answer st _ turn (λ _. blocked_lem AllSent st)
    send_from_lem (took n ∷ later) st turn = one_answer st _ turn (λ _.
        let taken = if ltb n (length (waiting st)) then n else length (waiting st) in
        let st1 = record st { answers = later } in
        let fits : taken ≤ length (waiting st1) =
          rw (source.same_waiting st later) (ground arith) in
        Sent-first cap AllSent st (advance taken st1) _
          (Sends-trans cap st st1 _ (waits-Sends cap st st.wait_type later)
            (source.moves st1 taken (source.answered st later turn) fits))
          (send_from_lem later (advance taken st1)
            (source.still st1 taken (source.answered st later turn) fits)))
    send_from_lem (would_block ∷ later) st turn = one_answer st _ turn (λ _.
        Sent-first cap AllSent st (record st { answers = later }) _
          (waits-Sends cap st st.wait_type later)
          (blocked_lem AllSent (record st { answers = later })))
    send_from_lem (broken ∷ later) st turn = one_answer st _ turn (λ _.
        Sent-first cap AllSent st (record st { answers = later })
          (send_failed host (record st { answers = later })) (waits-Sends cap st st.wait_type later)
          (send_failed-Stopped (record st { answers = later })))
