-- ===== src/Sbuf/Packets/Parts.antt =====
-- src/sbuf.c: a round of the loop over packets, where the part of the packet is taken.
use pgbouncer.Base.{
  ℕ, ◌-◌, ◌≤◌, ◌<◌, ◌≡◌, refl, sym, ap, ◌∙◌, subst, true, false, Bytes, [], ◌++◌, Option, none,
  some, arith, length, take, drop, length-drop, if◌then◌else◌, ◌⊎◌, inl, inr, ltb,
}
use pgbouncer.Iobuf.{IoBuf}
use pgbouncer.Iobuf.Segments.{pending, unparsed}
use pgbouncer.Sbuf.Forward.{Plan, kept, mixed, forwards, IsFraming}
use pgbouncer.Sbuf.Sending.{unparsed_bytes, is_open}
use pgbouncer.Sbuf.Owed.{drop-part, Quiet, Fits}
use pgbouncer.Sbuf.Contract.{Mid, Begun, Serves, Turned}
use pgbouncer.Sbuf.Packets.Rounds.{
  Ready, then_turn-Turned, send_before_skip-Turned, part_callback-plain,
}
use pgbouncer.Sbuf.Packets.Start.{start_packet-Turned}
use pgbouncer.Sbuf.Packets.Consume.{Taken, consume_io-Taken}
use pgbouncer.Sbuf.Packets.{
  goes_on, start_packet, send_before_skip, consume, consume_io, part_length, take_part,
}
use pgbouncer.Sbuf.{Sbuf, Host, act_skip, pending_bytes}

module _ {P : Type 0} (decide : P → Bytes → Option (Plan P)) (cap : ℕ) where
  -- The stream goes on with fewer bytes unparsed.
  abbrev pub Shorter : Sbuf P → Sbuf P → Type 0
  Shorter st st' =
      Fits cap st'
      × (is_open st'.io ≡ true)
      × (length (unparsed_bytes st'.io) < length (unparsed_bytes st.io))

  module _ (io : IoBuf) (st : Sbuf P) (m : Mid cap (record st { io = some io })) where
    part_in_order :
        (n : ℕ) (r : IoBuf × ℕ)
        → (st.pkt_remain ≤ length (unparsed io) → n ≡ st.pkt_remain)
        → Taken cap st.pkt_action st.skip_remain st.pkt_remain n io r
        → st.extra_packet_queue_after ≡ true
        → (st.extra_packets ≡ [])
          ⊎ Quiet (record st { io = some r.0; skip_remain = r.1; pkt_remain = st.pkt_remain - n })
    part_in_order n r all t behind = elim m.in_order [
      | inl none_left ↦ inl none_left
      | inr (inl (_, before)) ↦ let contra : true ≡ false = sym behind ∙ before in cc
      | inr (inr (_, inl (inl none_left))) ↦ absurd (omega (arith, m.started, none_left))
      | inr (inr (_, inl (inr (skip, rest_skipped)))) ↦
          inr (inr (skip, t.all_skipped skip rest_skipped))
      | inr (inr (_, inr (_, there))) ↦ inr (inl (omega (arith, all there)))
    ]

    part_turn :
        (n : ℕ) (r : IoBuf × ℕ)
        → 0 < n
        → n ≤ length (unparsed io)
        → n ≤ st.pkt_remain
        → (st.pkt_remain ≤ length (unparsed io) → n ≡ st.pkt_remain)
        → Taken cap st.pkt_action st.skip_remain st.pkt_remain n io r
        → Turned decide
            (Shorter (record st { io = some io }))
            cap
            (record st { io = some io })
            (goes_on
              (record st { io = some r.0; skip_remain = r.1; pkt_remain = st.pkt_remain - n }))
    part_turn n r some_taken fits part all t = (
      λ rest.
          let after = st.extra_packet_queue_after in
          let out =
            λ (later : Bytes) (b : Bytes). st.sent ++ (mixed after st.extra_packets b ++ later) in
          let d = drop-part (unparsed io) rest st.pkt_remain n fits part in
          rw t.less (
            ap
              (out (
                forwards decide st.handler
                  (drop (st.pkt_remain - n) (drop n (unparsed io) ++ rest))))
              (t.comes_out rest)
            ∙ ap
                (λ bs. out (forwards decide st.handler bs) (
                  pending io
                  ++ kept st.pkt_action st.skip_remain (take st.pkt_remain (unparsed io ++ rest))))
                (sym d)),
      (
        record { sane = t.still_sane; in_order = part_in_order n r all t; plain = λ _. m.plain },
        refl,
        rw t.less (omega (arith, length-drop n (unparsed io))),
      ),
    )

  consume_turn :
      (o : Option IoBuf) (st : Sbuf P) (avail : ℕ)
      → 0 < avail
      → avail ≡ length (unparsed_bytes o)
      → Mid cap (record st { io = o })
      → (st.pkt_action ≡ act_skip → pending_bytes o ≡ [])
      → Turned decide
          (Shorter (record st { io = o }))
          cap
          (record st { io = o })
          (consume st.pkt_action (part_length avail st) (record st { io = o }))
  unfolding consume
  consume_turn none st avail some_there e m nothing = let contra : false ≡ true = m.opened in cc
  consume_turn (some io) st avail some_there e m nothing =
      let n = if ltb st.pkt_remain avail then st.pkt_remain else avail in
      let fits : n ≤ length (unparsed io) = ground arith in
      let part : n ≤ st.pkt_remain = ground arith in
      let taken =
        part_turn io st m n (consume_io st.pkt_action st.skip_remain n io)
          (ground (arith, m.started)) fits part (λ there. ground arith)
          (consume_io-Taken cap st.skip_remain st.pkt_remain n io m.sane fits part st.pkt_action
            m.plain nothing) in
      let exact : ltb st.pkt_remain n ≡ false = ground arith in rw exact taken

  consume-Turned :
      (st0 st : Sbuf P) (avail : ℕ)
      → 0 < avail
      → avail ≡ length (unparsed_bytes st0.io)
      → Ready decide cap st0 st
      → Turned decide (Shorter st0) cap st (consume st.pkt_action (part_length avail st) st)
  consume-Turned st0 st avail some_there e ((u, m), nothing) =
      subst
        (λ bs.
          Turned decide
            (λ st'.
              Fits cap st' × (is_open st'.io ≡ true) × (length (unparsed_bytes st'.io) < length bs))
            cap st (consume st.pkt_action (part_length avail st) st))
        u (consume_turn st.io st avail some_there (e ∙ ap length (sym u)) m nothing)

  module _ (host : Host P) (framing : IsFraming decide) (serves : Serves decide cap host) where
    pub take_part-Turned :
        (st : Sbuf P) (avail : ℕ)
        → Fits cap st
        → st.extra_packets ≡ []
        → is_open st.io ≡ true
        → 0 < avail
        → avail ≡ length (unparsed_bytes st.io)
        → Turned decide (Shorter st) cap st (take_part host avail st)
    unfolding take_part
    take_part-Turned st avail v none_left opened some_there e =
        then_turn-Turned decide cap (Begun cap st) (Shorter st) st (start_packet host st) _
          (start_packet-Turned decide cap host framing serves st v none_left opened
            (subst (λ n. 0 < n) e some_there))
          λ st1 begun.
            then_turn-Turned decide cap (Ready decide cap st) (Shorter st) st1
              (send_before_skip host st1) _
              (send_before_skip-Turned decide cap host serves.fails st st1 begun)
              λ st2 ready.
                rw (part_callback-plain decide cap host st2 ready.0.1)
                  (consume-Turned st st2 avail some_there e ready)
