-- ===== src/Sbuf/Packets/Process.antt =====
-- src/sbuf.c: sbuf_process_pending, from a state of the stream on.
use pgbouncer.Base.{
  ℕ, zero, suc, ◌≤◌, ◌<◌, ◌≡◌, refl, sym, ap, ◌∙◌, subst, Bool, true, false, Bytes, [], Option,
  none, some, arith, length, if◌then◌else◌, if_intro, ◌⊎◌, inl, inr, ◌==◌, leb, not, ◌&&◌, ◌||◌,
}
use pgbouncer.Iobuf.{amount_recv, IoBuf, amount_parse}
use pgbouncer.Sbuf.Forward.{Plan, IsFraming}
use pgbouncer.Sbuf.Sending.{unparsed_bytes, is_open, AllSane, Sent-true, Sent-false}
use pgbouncer.Sbuf.Packets.Flushing.{flush_extra-Sent, send_pending_iobuf-Sent, nil_of_length}
use pgbouncer.Sbuf.Owed.{Fits, Good, Sends-Steps, Stopped-Good}
use pgbouncer.Sbuf.Contract.{Serves, Turned}
use pgbouncer.Sbuf.Packets.Parts.{Shorter, take_part-Turned}
use pgbouncer.Sbuf.Packets.Ends.{waited-Good, drained, Drained, Finished, later_Finished}
use pgbouncer.Sbuf.Packets.Consume.{amount-unparsed}
use pgbouncer.Sbuf.Packets.{
  wait_for_more, process_loop, sbuf_process_pending, flush_extra, Turn, goes_on, need_more_data,
  gives_up, take_part,
}
use pgbouncer.Sbuf.{sbuf_small_pkt, Sbuf, Host, sbuf_send_pending_iobuf}

few_left :
    (avail : ℕ) (full : Bool) (o : Option IoBuf)
    → avail ≡ length (unparsed_bytes o)
    → (avail == 0 || (full && leb avail sbuf_small_pkt)) ≡ true
    → (unparsed_bytes o ≡ []) ⊎ ((full ≡ true) × (length (unparsed_bytes o) ≤ sbuf_small_pkt))
few_left avail false o e h = inl (nil_of_length (unparsed_bytes o) (ground arith))
few_left avail true o e h = inr (refl, ground arith)

module _ {P : Type 0} (decide : P → Bytes → Option (Plan P)) (cap : ℕ) (host : Host P)
    (framing : IsFraming decide) (serves : Serves decide cap host) where
  Sure : ℕ → Bool → Type 0
  Sure f full =
      (st : Sbuf P)
      → Fits cap st
      → is_open st.io ≡ true
      → length (unparsed_bytes st.io) < f
      → Finished decide cap full st (process_loop host cap f full st)

  round_Finished :
      (f : ℕ) (full : Bool) (st : Sbuf P) (t : Turn P)
      → Sure f full
      → length (unparsed_bytes st.io) < suc f
      → Turned decide (Shorter decide cap st) cap st t
      → Finished decide cap full st (elim t [
        | goes_on st2 ↦ process_loop host cap f full st2
        | need_more_data st2 ↦ some (wait_for_more host cap st2, false)
        | gives_up st2 ↦ some (st2, false)
      ])
  unfolding Sure
  round_Finished f full st (goes_on st2) sure h (same, (v, opened, less)) =
      later_Finished decide cap full st st2 (process_loop host cap f full st2) (v, same)
        (sure st2 v opened (omega arith))
  round_Finished f full st (need_more_data st2) sure h good =
      (waited-Good decide cap host serves.fails st st2 good, λ ok. cc)
  round_Finished f full st (gives_up st2) sure h good = (good, λ ok. cc)

  flushed_Finished :
      (f : ℕ) (full : Bool) (st : Sbuf P)
      → Sure f full
      → Fits cap st
      → is_open st.io ≡ true
      → st.extra_packets ≡ []
      → length (unparsed_bytes st.io) < suc f
      → (o : Option IoBuf) → st.io ≡ o
      → Finished decide cap full st (elim o [
        | none ↦ none
        | some io ↦
            let avail = amount_parse io in
            if avail == 0 || (full && leb avail sbuf_small_pkt)
            then some (sbuf_send_pending_iobuf host st)
            else elim (take_part host avail st) [
              | goes_on st2 ↦ process_loop host cap f full st2
              | need_more_data st2 ↦ some (wait_for_more host cap st2, false)
              | gives_up st2 ↦ some (st2, false)
            ]
      ])
  flushed_Finished f full st sure v opened none_left h none e =
      let contra : false ≡ true = sym (ap is_open e) ∙ opened in cc
  flushed_Finished f full st sure v opened none_left h (some io) e =
      let avail = amount_parse io in
      let unparsed_there : avail ≡ length (unparsed_bytes st.io) =
        amount-unparsed cap io (subst (AllSane cap) e v.sane)
        ∙ ap (λ o. length (unparsed_bytes o)) (sym e) in
      if_intro (Finished decide cap full st) (avail == 0 || (full && leb avail sbuf_small_pkt)) _ _
        (λ few.
          drained decide cap host serves.fails full st (sbuf_send_pending_iobuf host st) v opened
            none_left (few_left avail full st.io unparsed_there few)
            (send_pending_iobuf-Sent cap host serves.fails st (inl none_left, v.sane)))
        λ more. round_Finished f full st (take_part host avail st) sure h (
          take_part-Turned decide cap host framing serves st avail v none_left opened (ground arith)
            unparsed_there)

  loop_Finished : (f : ℕ) (full : Bool) → Sure f full
  unfolding Sure process_loop
  loop_Finished zero full st v opened h = absurd (omega arith)
  loop_Finished (suc f) full st v opened h =
      let r = flush_extra host st in
      let Done : Sbuf P → Type 0 = λ st'. (st'.extra_packets ≡ []) × AllSane cap st'.io in
      let flushed = flush_extra-Sent cap host serves.fails st v.sane in
      if_intro (Finished decide cap full st) (not r.1) _ _
        (λ not_ok. (
          Stopped-Good decide cap st r.0 v
              (Sent-false cap Done st r flushed (ground (arith, not_ok))),
          λ ok. cc,
        ))
        λ all_ok.
          let (sends, (none_left, _)) = Sent-true cap Done st r flushed (ground (arith, all_ok)) in
          let steps = Sends-Steps decide cap st r.0 v sends in
          later_Finished decide cap full st r.0 _ steps (
            flushed_Finished f full r.0 (loop_Finished f full) steps.0 (sends.same_open ∙ opened)
              none_left (rw sends.same_unparsed h) r.0.io refl)

  finished :
      (full : Bool) (st : Sbuf P) (o : Option (Sbuf P × Bool))
      → Finished decide cap full st o
      → (st' : Sbuf P) × (ok : Bool) × (o ≡ some (st', ok))
        × Good decide cap st st'
        × (ok ≡ true → Drained full st')
  finished full st none never = elim never [ ]
  finished full st (some (st', ok)) (good, done) = (st', ok, refl, good, done)

  pub process_pending_lem :
      (st : Sbuf P) (io : IoBuf)
      → st.io ≡ some io
      → Fits cap st
      → (st' : Sbuf P) × (ok : Bool) × (sbuf_process_pending host cap st ≡ some (st', ok))
        × Good decide cap st st'
        × (ok ≡ true → Drained (amount_recv cap io == 0) st')
  unfolding sbuf_process_pending Sure
  process_pending_lem st io e v =
      let full = amount_recv cap io == 0 in
      let here : length (unparsed_bytes st.io) < suc (amount_parse io) =
        rw (e, amount-unparsed cap io (subst (AllSane cap) e v.sane)) (omega arith) in
      finished full st (sbuf_process_pending host cap st) (
        subst (Finished decide cap full st)
          (sym (
            ap
              (λ o. elim o [
                | none ↦ none
                | some io ↦
                    process_loop host cap (suc (amount_parse io)) (amount_recv cap io == 0) st
              ])
              e))
          (loop_Finished (suc (amount_parse io)) full st v (ap is_open e) here))

  some-Drained :
      (full : Bool) (st' : Sbuf P) (ok : Bool)
      → (ok ≡ true → Drained full st')
      → (ok ≡ false) ⊎ Drained full st'
  some-Drained full st' true done = inr (done refl)
  some-Drained full st' false done = inl refl

  -- On a stream with a sane buffer, where buffers have cf_sbuf_len bytes, below 2 ^ 31, and the
  -- handler decides at the start of a packet by its own state, which it changes only when it takes
  -- a packet, and by the bytes there, where the decision needs a byte and more bytes do not change
  -- it, takes at least a byte, sets the packet up as decided, sends it or skips a part of it,
  -- never fetching it part by part (ACT_CALL), queues packets before it only with nothing pending
  -- and behind it only when all of it is there or is skipped, or asks for more or closes the
  -- stream, and at other events closes the stream or leaves its bytes alone: sbuf_process_pending
  -- returns; it leaves what the destination has and is yet to get the same for every input to
  -- come, or closes the stream with a part of that sent; and it reports false, or leaves nothing
  -- pending, no extra packets and nothing unparsed but at most SBUF_SMALL_PKT bytes of a buffer
  -- that was full.
  pub sbuf_process_pending-Good :
      (st : Sbuf P) (io : IoBuf)
      → st.io ≡ some io
      → Fits cap st
      → (st' : Sbuf P) × (ok : Bool) × (sbuf_process_pending host cap st ≡ some (st', ok))
        × Good decide cap st st'
        × ((ok ≡ false) ⊎ Drained (amount_recv cap io == 0) st')
  sbuf_process_pending-Good st io e v =
      let (st', ok, p, good, done) = process_pending_lem st io e v in
      (st', ok, p, good, some-Drained (amount_recv cap io == 0) st' ok done)
