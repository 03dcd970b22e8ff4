-- ===== src/Sbuf/Packets/Rounds.antt =====
-- src/sbuf.c: a round of the loop over packets up to where the part of the packet is taken.
use pgbouncer.Base.{
  ℕ, ◌≡◌, refl, sym, ap, ◌∙◌, Bool, true, false, Bytes, [], Option, length, if◌then◌else◌, if_intro,
  ◌⊎◌, inl, inr,
}
use pgbouncer.Sbuf.Forward.{Plan}
use pgbouncer.Sbuf.Sending.{Sent, HandlesFailure}
use pgbouncer.Sbuf.Packets.Flushing.{
  IoTurn, send_pending_iobuf-Sent, send_pending_iobuf-nothing, nil_of_length,
}
use pgbouncer.Sbuf.Owed.{Fits, owed, Good, Sends-Steps, Stopped-Good}
use pgbouncer.Sbuf.Contract.{InOrder, Mid, Begun, Turned}
use pgbouncer.Sbuf.Packets.{
  Turn, goes_on, need_more_data, gives_up, skips, calls, send_before_skip, part_callback, then_turn,
}
use pgbouncer.Sbuf.{
  Sbuf, Host, act_send, act_skip, pending_bytes, sbuf_send_pending_iobuf, PktAction,
}

skipping : (a : PktAction) → (a ≡ act_send) ⊎ (a ≡ act_skip) → skips a ≡ true → a ≡ act_skip
unfolding skips
skipping a (inl e) h = let contra : false ≡ true = sym (ap skips e) ∙ h in cc
skipping a (inr e) h = e

not_called : (a : PktAction) → (a ≡ act_send) ⊎ (a ≡ act_skip) → calls a ≡ false
unfolding calls
not_called a (inl e) = ap calls e
not_called a (inr e) = ap calls e

module _ {P : Type 0} (decide : P → Bytes → Option (Plan P)) (cap : ℕ) where
  pub Good-first :
      (a b c : Sbuf P)
      → ((rest : Bytes) → owed decide b rest ≡ owed decide a rest)
      → Good decide cap b c
      → Good decide cap a c
  Good-first a b c h (inl (v, k)) = inl (v, λ rest. k rest ∙ h rest)
  Good-first a b c h (inr k) = inr (record {
    shut = k.shut;
    freed = k.freed;
    part = λ rest. let (lost, e) = k.part rest in (lost, e ∙ h rest);
  })

  pub then_turn-Turned :
      (A B : Sbuf P → Type 0) (st : Sbuf P) (t : Turn P) (f : Sbuf P → Turn P)
      → Turned decide A cap st t
      → ((st1 : Sbuf P) → A st1 → Turned decide B cap st1 (f st1))
      → Turned decide B cap st (then_turn t f)
  then_turn-Turned A B st (goes_on st1) f (h, a) k = later (f st1) (k st1 a)
    where
      later : (t : Turn P) → Turned decide B cap st1 t → Turned decide B cap st t
      later (goes_on st2) (h2, b) = (λ rest. h2 rest ∙ h rest, b)
      later (need_more_data st2) g = Good-first st st1 (record st2 { extra_packets = [] }) h g
      later (gives_up st2) g = Good-first st st1 st2 h g
  then_turn-Turned A B st (need_more_data st1) f g k = g
  then_turn-Turned A B st (gives_up st1) f g k = g

  skipped-Fits : (st : Sbuf P) → Mid cap st → st.pkt_action ≡ act_skip → Fits cap st
  skipped-Fits st m e = record {
    sane = m.sane;
    in_order = λ behind. elim m.in_order [
      | inl none_left ↦ inl none_left
      | inr (inl (_, before)) ↦ cc
      | inr (inr (_, inl quiet)) ↦ inr quiet
      | inr (inr (_, inr (sends, _))) ↦ cc
    ];
    plain = λ _. m.plain;
  }

  -- The stream is in a packet with the bytes of `st` unparsed, and nothing is pending if some are
  -- skipped.
  abbrev pub Ready : Sbuf P → Sbuf P → Type 0
  Ready st st' = Begun cap st st' × (st'.pkt_action ≡ act_skip → pending_bytes st'.io ≡ [])

  sent-InOrder :
      (st : Sbuf P) (after : Bool)
      → st.extra_packet_queue_after ≡ after
      → Fits cap st
      → pending_bytes st.io ≡ []
      → InOrder st
  sent-InOrder st false e v done = inr (inl (done, e))
  sent-InOrder st true e v done = elim (v.in_order e) [
    | inl none_left ↦ inl none_left
    | inr quiet ↦ inr (inr (e, inl quiet))
  ]

  module _ (host : Host P) (fails : HandlesFailure cap host) where
    pending_first :
        (st0 st : Sbuf P)
        → Begun cap st0 st
        → st.pkt_action ≡ act_skip
        → IoTurn cap st
        → (r : Sbuf P × Bool)
        → Sent cap (λ st'. (length (pending_bytes st'.io) ≡ 0) × IoTurn cap st') st r
        → Turned decide (Ready st0) cap st (if r.1 then goes_on r.0 else gives_up r.0)
    pending_first st0 st (u, m) skip turn (st', false) h =
        Stopped-Good decide cap st st' (skipped-Fits st m skip) h
    pending_first st0 st (u, m) skip turn (st', true) (sends, (done, _)) =
        let (v, same) = Sends-Steps decide cap st st' (skipped-Fits st m skip) sends in
        let none_pending = nil_of_length (pending_bytes st'.io) done in
        (
          same,
          (
            (
              sends.same_unparsed ∙ u,
              record {
                sane = v.sane;
                opened = sends.same_open ∙ m.opened;
                started = rw sends.same_remain m.started;
                plain = rw sends.same_action m.plain;
                in_order = sent-InOrder st' st'.extra_packet_queue_after refl v none_pending;
              },
            ),
            λ _. none_pending,
          ),
        )

    pub send_before_skip-Turned :
        (st0 st : Sbuf P)
        → Begun cap st0 st
        → Turned decide (Ready st0) cap st (send_before_skip host st)
    unfolding send_before_skip skips
    send_before_skip-Turned st0 st (u, m) =
        let T : Turn P → Type 0 = Turned decide (Ready st0) cap st in
        let r = sbuf_send_pending_iobuf host st in
        let sent = λ (skip : st.pkt_action ≡ act_skip) (turn : IoTurn cap st).
          pending_first st0 st (u, m) skip turn r
            (send_pending_iobuf-Sent cap host fails st turn) in
        if_intro T (skips st.pkt_action) _ _
          (λ some_skipped.
            let skip = skipping st.pkt_action m.plain some_skipped in
            elim m.in_order [
              | inl none_left ↦ sent skip (inl none_left, m.sane)
              | inr (inl (none_pending, _)) ↦
                  rw (send_pending_iobuf-nothing cap host fails st none_pending)
                    (λ rest. refl, ((u, m), λ _. none_pending))
              | inr (inr (behind, _)) ↦ sent skip (inr behind, m.sane)
            ])
          λ none_skipped. (
            λ rest. refl,
            ((u, m), λ skip. let contra : true ≡ false = sym (ap skips skip) ∙ none_skipped in cc),
          )

  -- No part of a packet that is sent or skipped is shown to the handler.
  pub part_callback-plain :
      (host : Host P) (st : Sbuf P) → Mid cap st → part_callback host st ≡ goes_on st
  unfolding part_callback
  part_callback-plain host st m = rw (not_called st.pkt_action m.plain) refl
