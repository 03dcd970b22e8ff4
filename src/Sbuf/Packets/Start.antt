-- ===== src/Sbuf/Packets/Start.antt =====
-- src/sbuf.c: the start of a round of the loop over packets, where the handler is shown a packet.
use pgbouncer.Base.{
  ℕ, ◌<◌, ◌≡◌, refl, sym, ap, ◌∙◌, subst, Bool, true, false, Bytes, [], ◌++◌, Option, none, some,
  arith, length, take, drop, if◌then◌else◌, if_intro, inl, inr, ◌==◌,
}
use pgbouncer.Iobuf.{IoBuf}
use pgbouncer.Iobuf.Segments.{parse_lem}
use pgbouncer.Sbuf.Forward.{Plan, kept, mixed, packet_out, IsFraming, forwards-packet}
use pgbouncer.Sbuf.Sending.{unparsed_bytes, is_open}
use pgbouncer.Sbuf.Owed.{body, Fits, owed, Ended, Good, Closed-Ended}
use pgbouncer.Sbuf.Contract.{
  Mid, Begun, Accepted, Refused, Answered, Serves, Turned, Mid-owed, between-owed,
}
use pgbouncer.Sbuf.Packets.{Turn, goes_on, need_more_data, gives_up, open_or_closed, start_packet}
use pgbouncer.Sbuf.{
  Sbuf, Host, act_send, act_skip, act_call, act_unset, ev_read, pending_bytes, sbuf_call_proto,
  PktAction,
}

kept_same :
    (a b : PktAction) (n m : ℕ) (bs : Bytes)
    → a ≡ b
    → (b ≡ act_skip → n ≡ m)
    → kept a n bs ≡ kept b m bs
kept_same a act_send n m bs e h = ap (λ a. kept a n bs) e
kept_same a act_skip n m bs e h = ap (λ a. kept a n bs) e ∙ ap (λ k. drop k bs) (h refl)
kept_same a act_call n m bs e h = ap (λ a. kept a n bs) e
kept_same a act_unset n m bs e h = ap (λ a. kept a n bs) e

module _ {P : Type 0} (decide : P → Bytes → Option (Plan P)) (cap : ℕ) (host : Host P)
    (framing : IsFraming decide) (serves : Serves decide cap host) where
  Accepted-owed :
      (st st' : Sbuf P) (rest : Bytes)
      → st.pkt_remain ≡ 0
      → st.extra_packets ≡ []
      → Accepted decide cap st st'
      → owed decide st' rest ≡ owed decide st rest
  Accepted-owed st st' rest e none_left k =
      let input = unparsed_bytes st.io ++ rest in
      let out : mixed st'.extra_packet_queue_after st'.extra_packets
            (body st' (unparsed_bytes st'.io ++ rest))
          ≡ packet_out k.plan input =
        rw (k.same_unparsed, k.remain_set, k.extra_set, k.after_set)
          (ap (mixed k.plan.after k.plan.extra) (
            kept_same st'.pkt_action k.plan.action st'.skip_remain k.plan.skip
              (take k.plan.total input) k.action_set k.skip_set)) in
      let later : drop st'.pkt_remain (unparsed_bytes st'.io ++ rest) ≡ drop k.plan.total input =
        rw (k.same_unparsed, k.remain_set) refl in
      Mid-owed decide cap st' rest k.mid.in_order
      ∙ rw (out, later, k.next_set, k.same_sent)
          (ap (λ x. (st.sent ++ pending_bytes st.io) ++ x)
            (sym (
              forwards-packet decide framing st.handler input k.plan
                (framing.stable st.handler (unparsed_bytes st.io) rest k.plan k.decided))))
      ∙ sym (between-owed decide cap st rest e none_left)

  Refused-Good :
      (st st' : Sbuf P)
      → st.pkt_remain ≡ 0
      → st.extra_packets ≡ []
      → Refused decide cap st st'
      → Good decide cap st (record st' { extra_packets = [] })
  Refused-Good st st' e none_left k = inl (
    record {
      sane = k.sane;
      in_order = λ _. inl refl;
      plain = λ some_left. absurd (omega (arith, some_left, k.between));
    },
    λ rest.
        between-owed decide cap (record st' { extra_packets = [] }) rest k.between refl
        ∙ rw (k.same_sent, k.same_unparsed, k.same_handler) refl
        ∙ sym (between-owed decide cap st rest e none_left),
  )

  -- Extra packets do not count any more.
  Ended-dropped :
      (st st' : Sbuf P) → Ended decide st st' → Ended decide st (record st' { extra_packets = [] })
  Ended-dropped st st' k = record { shut = k.shut; freed = k.freed; part = k.part }

  absurd_open : {A : Type 0} → (st : Sbuf P) → st.io ≡ none → is_open st.io ≡ true → A
  absurd_open st e opened = let contra : false ≡ true = sym (ap is_open e) ∙ opened in cc

  shown :
      (o : Option IoBuf) (st : Sbuf P)
      → Fits cap (record st { io = o })
      → st.pkt_remain ≡ 0
      → st.extra_packets ≡ []
      → is_open o ≡ true
      → 0 < length (unparsed_bytes o)
      → Answered decide cap
          (record st { io = o })
          (sbuf_call_proto host (record st { io = o }) ev_read)
  unfolding sbuf_call_proto
  shown none st v e none_left opened some_there = cc
  shown (some io) st v e none_left opened some_there =
      let st1 = record st { io = some io } in
      subst (λ bs. Answered decide cap st1 (host.proto_cb st1 ev_read bs))
        (sym (parse_lem cap 0 io v.sane).0) (serves.reads st1 v e none_left opened some_there)

  opened_turn :
      (T : Turn P → Type 0) (o : Option IoBuf) (st : Sbuf P)
      → (is_open o ≡ true → T (goes_on (record st { io = o })))
      → (o ≡ none → T (gives_up (record st { io = o })))
      → T (open_or_closed (record st { io = o }))
  unfolding open_or_closed
  opened_turn T none st h k = k refl
  opened_turn T (some io) st h k = h refl

  read_turn :
      (st : Sbuf P) (r : Sbuf P × Bool)
      → Fits cap st
      → st.pkt_remain ≡ 0
      → st.extra_packets ≡ []
      → Answered decide cap st r
      → Turned decide (Begun cap st) cap st (if r.1 then open_or_closed r.0 else need_more_data r.0)
  read_turn st (st', true) v e none_left (inl k) =
      opened_turn (Turned decide (Begun cap st) cap st) st'.io st'
        (λ _. (λ rest. Accepted-owed st st' rest e none_left k, (k.same_unparsed, k.mid)))
        λ closed. absurd_open st' closed k.mid.opened
  read_turn st (st', true) v e none_left (inr k) =
      opened_turn (Turned decide (Begun cap st) cap st) st'.io st'
        (λ opened. absurd_open st' k.freed opened) λ _. inr (Closed-Ended decide cap st st' v k)
  read_turn st (st', false) v e none_left (inl k) = Refused-Good st st' e none_left k
  read_turn st (st', false) v e none_left (inr k) =
      inr (Ended-dropped st st' (Closed-Ended decide cap st st' v k))

  continued-Mid :
      (st : Sbuf P)
      → Fits cap st
      → st.extra_packets ≡ []
      → is_open st.io ≡ true
      → 0 < st.pkt_remain
      → Mid cap st
  continued-Mid st v none_left opened started = record {
    sane = v.sane;
    opened = opened;
    started = started;
    plain = v.plain started;
    in_order = inl none_left;
  }

  pub start_packet-Turned :
      (st : Sbuf P)
      → Fits cap st
      → st.extra_packets ≡ []
      → is_open st.io ≡ true
      → 0 < length (unparsed_bytes st.io)
      → Turned decide (Begun cap st) cap st (start_packet host st)
  unfolding start_packet open_or_closed
  start_packet-Turned st v none_left opened some_there =
      if_intro (Turned decide (Begun cap st) cap st) (st.pkt_remain == 0) _ _
        (λ e.
          let between : st.pkt_remain ≡ 0 = ground arith in
          read_turn st (sbuf_call_proto host st ev_read) v between none_left
            (shown st.io st v between none_left opened some_there))
        λ ne. (λ rest. refl, (refl, continued-Mid st v none_left opened (ground arith)))
