-- ===== src/Sbuf/Contract.antt =====
-- src/sbuf.c: what the protocol handler is to keep to when it is shown the start of a packet.
use pgbouncer.Base.{
  ℕ, ◌^◌, ◌≤◌, ◌<◌, ◌≡◌, refl, sym, ap, ◌∙◌, Bool, true, false, Bytes, [], ◌++◌, Option, some,
  length, drop, append_assoc, append-nil, ◌⊎◌, inl, inr,
}
use pgbouncer.Iobuf.{IoBuf}
use pgbouncer.Sbuf.Forward.{Plan, mixed, forwards}
use pgbouncer.Sbuf.Sending.{unparsed_bytes, is_open, AllSane, Closed, Stopped, HandlesFailure}
use pgbouncer.Sbuf.Owed.{body, Quiet, Fits, body-Quiet, owed, Good}
use pgbouncer.Sbuf.Packets.{Turn, goes_on, need_more_data, gives_up}
use pgbouncer.Sbuf.{
  Sbuf, Host, act_send, act_skip, ev_read, ev_recv_failed, ev_flush, pending_bytes,
}

mixed-nil : (after : Bool) (bs : Bytes) → mixed after [] bs ≡ bs
mixed-nil true bs = append-nil bs
mixed-nil false bs = refl

-- What is before a packet comes out before it and the extra packets.
mixed-append :
    (after : Bool) (x p k : Bytes)
    → (x ≡ []) ⊎ ((p ≡ []) ⊎ (after ≡ true))
    → mixed after x (p ++ k) ≡ p ++ mixed after x k
mixed-append true x p k h = append_assoc p k x
mixed-append false x p k (inl e) = rw e refl
mixed-append false x p k (inr (inl e)) = rw e refl
mixed-append false x p k (inr (inr e)) = cc

module _ {P : Type 0} where
  -- Extra packets that go before the packet are queued when nothing is pending. Those that go
  -- behind it are queued when all of it is there, or it is skipped.
  abbrev pub InOrder : Sbuf P → Type 0
  InOrder st =
      (st.extra_packets ≡ [])
      ⊎ (((pending_bytes st.io ≡ []) × (st.extra_packet_queue_after ≡ false))
          ⊎ ((st.extra_packet_queue_after ≡ true)
              × (Quiet st
                  ⊎ ((st.pkt_action ≡ act_send)
                      × (st.pkt_remain ≤ length (unparsed_bytes st.io))))))

  -- The stream in a packet.
  pub record Mid (cap : ℕ) (st : Sbuf P) : Type 0 where
    pub sane : AllSane cap st.io
    pub opened : is_open st.io ≡ true
    pub started : 0 < st.pkt_remain
    pub plain : (st.pkt_action ≡ act_send) ⊎ (st.pkt_action ≡ act_skip)
    pub in_order : InOrder st

  -- The stream in a packet, with the bytes of `st` unparsed.
  abbrev pub Begun : ℕ → Sbuf P → Sbuf P → Type 0
  Begun cap st st' = (unparsed_bytes st'.io ≡ unparsed_bytes st.io) × Mid cap st'

  module _ (decide : P → Bytes → Option (Plan P)) where
    -- The handler has taken a packet: it has set it up as decided, and has sent at most what was
    -- pending.
    pub record Accepted (cap : ℕ) (st st' : Sbuf P) : Type 0 where
      pub plan : Plan P
      pub decided : decide st.handler (unparsed_bytes st.io) ≡ some plan
      pub mid : Mid cap st'
      pub same_unparsed : unparsed_bytes st'.io ≡ unparsed_bytes st.io
      pub same_sent : st'.sent ++ pending_bytes st'.io ≡ st.sent ++ pending_bytes st.io
      pub action_set : st'.pkt_action ≡ plan.action
      pub remain_set : st'.pkt_remain ≡ plan.total
      pub skip_set : plan.action ≡ act_skip → st'.skip_remain ≡ plan.skip
      pub next_set : st'.handler ≡ plan.next
      pub extra_set : st'.extra_packets ≡ plan.extra
      pub after_set : st'.extra_packet_queue_after ≡ plan.after

    -- The handler wants more data: it has sent at most what was pending.
    pub record Refused (cap : ℕ) (st st' : Sbuf P) : Type 0 where
      pub sane : AllSane cap st'.io
      pub between : st'.pkt_remain ≡ 0
      pub same_handler : st'.handler ≡ st.handler
      pub same_unparsed : unparsed_bytes st'.io ≡ unparsed_bytes st.io
      pub same_sent : st'.sent ++ pending_bytes st'.io ≡ st.sent ++ pending_bytes st.io

    abbrev pub Answered : ℕ → Sbuf P → Sbuf P × Bool → Type 0
    Answered cap st (st', true) = Accepted cap st st' ⊎ Closed st st'
    Answered cap st (st', false) = Refused cap st st' ⊎ Closed st st'

    -- The start of a packet is shown to a handler, which takes it as decided, wants more of it or
    -- closes the stream. At other events it closes the stream or leaves its bytes alone.
    pub record Serves (cap : ℕ) (host : Host P) : Type 0 where
      pub small : cap < 2 ^ 31
      pub allocates :
          (st : Sbuf P) (io : IoBuf) → host.slab_alloc st ≡ some io → length io.buf ≡ cap
      pub fails : HandlesFailure cap host
      pub recv_fails : (st : Sbuf P) → Stopped cap st (host.proto_cb st ev_recv_failed []).0
      pub flushes : (st : Sbuf P) → Stopped cap st (host.proto_cb st ev_flush []).0
      pub reads :
          (st : Sbuf P)
          → Fits cap st
          → st.pkt_remain ≡ 0
          → st.extra_packets ≡ []
          → is_open st.io ≡ true
          → 0 < length (unparsed_bytes st.io)
          → Answered cap st (host.proto_cb st ev_read (unparsed_bytes st.io))

    -- What a part of a round comes to, with the state it goes on with and what is owed kept.
    abbrev pub Turned : (Sbuf P → Type 0) → ℕ → Sbuf P → Turn P → Type 0
    Turned Next cap st (goes_on st') =
        ((rest : Bytes) → owed decide st' rest ≡ owed decide st rest) × Next st'
    Turned Next cap st (need_more_data st') = Good decide cap st (record st' { extra_packets = [] })
    Turned Next cap st (gives_up st') = Good decide cap st st'

  pub Mid-owed :
      (decide : P → Bytes → Option (Plan P)) (cap : ℕ) (st : Sbuf P) (rest : Bytes)
      → InOrder st
      → owed decide st rest
        ≡ (st.sent ++ pending_bytes st.io)
          ++ (mixed st.extra_packet_queue_after st.extra_packets
                (body st (unparsed_bytes st.io ++ rest))
              ++ forwards decide st.handler (drop st.pkt_remain (unparsed_bytes st.io ++ rest)))
  Mid-owed decide cap st rest h =
      let input = unparsed_bytes st.io ++ rest in
      let p = pending_bytes st.io in
      let m = mixed st.extra_packet_queue_after st.extra_packets (body st input) in
      let later = forwards decide st.handler (drop st.pkt_remain input) in
      ap (λ x. st.sent ++ (x ++ later))
        (mixed-append st.extra_packet_queue_after st.extra_packets p (body st input) (elim h [
          | inl e ↦ inl e
          | inr (inl (e, _)) ↦ inr (inl e)
          | inr (inr (e, _)) ↦ inr (inr e)
        ]))
      ∙ ap (λ x. st.sent ++ x) (append_assoc p m later)
      ∙ sym (append_assoc st.sent p (m ++ later))

  pub between-owed :
      (decide : P → Bytes → Option (Plan P)) (cap : ℕ) (st : Sbuf P) (rest : Bytes)
      → st.pkt_remain ≡ 0
      → st.extra_packets ≡ []
      → owed decide st rest
        ≡ (st.sent ++ pending_bytes st.io)
          ++ forwards decide st.handler (unparsed_bytes st.io ++ rest)
  between-owed decide cap st rest e none_left =
      let input = unparsed_bytes st.io ++ rest in
      let nothing : mixed st.extra_packet_queue_after st.extra_packets (body st input) ≡ [] =
        ap (λ x. mixed st.extra_packet_queue_after x (body st input)) none_left
        ∙ mixed-nil st.extra_packet_queue_after (body st input)
        ∙ body-Quiet st input (inl e) in
      Mid-owed decide cap st rest (inl none_left)
      ∙ ap
          (λ b.
            (st.sent ++ pending_bytes st.io)
            ++ (b ++ forwards decide st.handler (drop st.pkt_remain input)))
          nothing
      ∙ ap (λ n. (st.sent ++ pending_bytes st.io) ++ forwards decide st.handler (drop n input)) e
