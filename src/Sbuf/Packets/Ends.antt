-- ===== src/Sbuf/Packets/Ends.antt =====
-- src/sbuf.c: the ends of the loop over packets, where more data is needed or all that is there is
-- done.
use pgbouncer.Base.{
  ℕ, ◌≤◌, ◌≡◌, refl, ◌∙◌, subst, Bool, true, false, Bytes, [], Option, none, some, length,
  if◌then◌else◌, if_intro, ◌⊎◌, inl, inr, ◌==◌, not,
}
use pgbouncer.Iobuf.{try_resync, IoBuf}
use pgbouncer.Iobuf.Segments.{try_resync_lem}
use pgbouncer.Sbuf.Forward.{Plan}
use pgbouncer.Sbuf.Sending.{unparsed_bytes, is_open, AllSane, Sent, HandlesFailure}
use pgbouncer.Sbuf.Packets.Flushing.{IoTurn, send_pending_iobuf-Sent, nil_of_length}
use pgbouncer.Sbuf.Owed.{Steps-Good, Fits, Steps, Good, Sends-Steps, Stopped-Good}
use pgbouncer.Sbuf.Packets.{wait_for_more}
use pgbouncer.Sbuf.{
  WaitType, w_none, w_connect, w_recv, w_send, w_once, sbuf_is_recv_active, set_io, sbuf_small_pkt,
  Sbuf, Host, pending_bytes, sbuf_send_pending_iobuf,
}

pub closed-recv : {P : Type 0} → (st : Sbuf P) → st.sock ≡ false → sbuf_is_recv_active st ≡ false
unfolding sbuf_is_recv_active
closed-recv st e = rw e (waits st.wait_type)
  where
    waits :
        (w : WaitType)
        → elim w [
          | w_recv ↦ false
          | w_none ↦ false
          | w_connect ↦ false
          | w_send ↦ false
          | w_once ↦ false
        ]
          ≡ false
    waits w_recv = refl
    waits w_none = refl
    waits w_connect = refl
    waits w_send = refl
    waits w_once = refl

module _ {P : Type 0} where
  -- Nothing waits to be sent, and what is unparsed is nothing, or little in a buffer that was full.
  pub record Drained (full : Bool) (st : Sbuf P) : Type 0 where
    pub still_open : is_open st.io ≡ true
    pub nothing_pending : pending_bytes st.io ≡ []
    pub nothing_extra : st.extra_packets ≡ []
    pub few :
        (unparsed_bytes st.io ≡ [])
        ⊎ ((full ≡ true) × (length (unparsed_bytes st.io) ≤ sbuf_small_pkt))

module _ {P : Type 0} (decide : P → Bytes → Option (Plan P)) (cap : ℕ) where
  resynced_turn :
      (o : Option IoBuf) (st : Sbuf P)
      → st.io ≡ o
      → Fits cap st
      → st.extra_packets ≡ []
      → Good decide cap st (elim o [
        | none ↦ st
        | some io ↦ if io.recv_pos == cap then set_io st (try_resync io cap) else st
      ])
  resynced_turn none st e v none_left = inl (v, λ rest. refl)
  resynced_turn (some io) st e v none_left =
      let (sane, p, u) = try_resync_lem cap cap io (subst (AllSane cap) e v.sane) in
      if_intro (Good decide cap st) (io.recv_pos == cap) _ _
        (λ _. inl (
          record { sane = sane; in_order = λ _. inl none_left; plain = v.plain },
          λ rest. rw (p, u, e) refl,
        ))
        λ _. inl (v, λ rest. refl)

  abbrev pub Finished : Bool → Sbuf P → Option (Sbuf P × Bool) → Type 0
  Finished full st none = ⊥
  Finished full st (some (st', ok)) = Good decide cap st st' × (ok ≡ true → Drained full st')

  pub later_Finished :
      (full : Bool) (a b : Sbuf P) (o : Option (Sbuf P × Bool))
      → Steps decide cap a b
      → Finished full b o
      → Finished full a o
  later_Finished full a b none h never = elim never [ ]
  later_Finished full a b (some (c, ok)) h (good, done) = (Steps-Good decide cap a b c h good, done)

  module _ (host : Host P) (fails : HandlesFailure cap host) where
    then_resync :
        (st : Sbuf P) (r : Sbuf P × Bool)
        → Fits cap st
        → st.extra_packets ≡ []
        → Sent cap (λ st'. (length (pending_bytes st'.io) ≡ 0) × IoTurn cap st') st r
        → Good decide cap st (
            if not r.1 then r.0 else elim r.0.io [
              | none ↦ r.0
              | some io ↦ if io.recv_pos == cap then set_io r.0 (try_resync io cap) else r.0
            ])
    then_resync st (st', false) v none_left h = Stopped-Good decide cap st st' v h
    then_resync st (st', true) v none_left (sends, _) =
        let steps = Sends-Steps decide cap st st' v sends in
        Steps-Good decide cap st st' _ steps
          (resynced_turn st'.io st' refl steps.0 (sends.no_more_extra none_left))

    waits-Good :
        (st : Sbuf P)
        → Fits cap (record st { extra_packets = [] })
        → Good decide cap (record st { extra_packets = [] }) (wait_for_more host cap st)
    unfolding wait_for_more
    waits-Good st v =
        let st1 : Sbuf P = record st { extra_packets = [] } in
        if_intro (Good decide cap st1) (not (sbuf_is_recv_active st1)) _ _
          (λ _. inl (v, λ rest. refl))
          λ _.
            then_resync st1 (sbuf_send_pending_iobuf host st1) v refl
              (send_pending_iobuf-Sent cap host fails st1 (inl refl, v.sane))

    pub waited-Good :
        (st st' : Sbuf P)
        → Good decide cap st (record st' { extra_packets = [] })
        → Good decide cap st (wait_for_more host cap st')
    unfolding wait_for_more
    waited-Good st st' (inl k) =
        Steps-Good decide cap st (record st' { extra_packets = [] }) _ k (waits-Good st' k.0)
    waited-Good st st' (inr k) = rw (closed-recv (record st' { extra_packets = [] }) k.shut) (inr k)

    pub drained :
        (full : Bool) (st : Sbuf P) (r : Sbuf P × Bool)
        → Fits cap st
        → is_open st.io ≡ true
        → st.extra_packets ≡ []
        → (unparsed_bytes st.io ≡ [])
          ⊎ ((full ≡ true) × (length (unparsed_bytes st.io) ≤ sbuf_small_pkt))
        → Sent cap (λ st'. (length (pending_bytes st'.io) ≡ 0) × IoTurn cap st') st r
        → Finished full st (some r)
    drained full st (st', false) v opened none_left few h =
        (Stopped-Good decide cap st st' v h, λ ok. cc)
    drained full st (st', true) v opened none_left few (sends, (done, _)) = (
      inl (Sends-Steps decide cap st st' v sends),
      λ _. record {
        still_open = sends.same_open ∙ opened;
        nothing_pending = nil_of_length (pending_bytes st'.io) done;
        nothing_extra = sends.no_more_extra none_left;
        few = rw sends.same_unparsed few;
      },
    )
