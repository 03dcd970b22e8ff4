-- ===== src/Sbuf/Loop/Arrivals.antt =====
-- src/sbuf.c: what the socket still has for the stream, and what of it is received.
use pgbouncer.Base.{
  ℕ, ◌≤◌, ◌≡◌, refl, sym, ap, ◌∙◌, subst, Bool, true, false, ◌&&◌, Bytes, List, [], ◌∷◌, ◌++◌,
  Option, none, some, arith, length, take, drop, length-take, append_assoc, if◌then◌else◌, if_intro,
  ◌⊎◌, inl, inr, ◌==◌, ltb, slice_empty,
}
use pgbouncer.Iobuf.{IoBuf, is_empty, amount_recv, try_resync, reset}
use pgbouncer.Iobuf.Segments.{IsSane, unparsed, try_resync_lem}
use pgbouncer.Sbuf.Forward.{Plan}
use pgbouncer.Sbuf.Sending.{unparsed_bytes, is_open, AllSane, Stopped}
use pgbouncer.Sbuf.Owed.{Fits, owed, Good, Stopped-Good}
use pgbouncer.Sbuf.Contract.{Serves}
use pgbouncer.Sbuf.Loop.{
  Arrival, arrived, not_yet, failed, Peer, received, sbuf_try_resync, recv_failed, sbuf_actual_recv,
  allocate_iobuf,
}
use pgbouncer.Sbuf.{
  Sbuf, Host, pending_bytes, sbuf_small_pkt, sbuf_call_proto, ev_recv_failed, set_io,
}
use pgbouncer.Sbuf.Loop.Received.{got_split, received_lem}

module _ {P : Type 0} (decide : P → Bytes → Option (Plan P)) (cap : ℕ) where
  -- The stream with `y` to come has the debt of the stream with `x` to come.
  abbrev pub Kept : Sbuf P → Bytes → Sbuf P → Bytes → Type 0
  Kept st x st' y = Fits cap st' × (owed decide st' y ≡ owed decide st x)

  -- The stream was closed when the destination had a part of what is owed.
  pub record Cut (st : Sbuf P) (x : Bytes) (st' : Sbuf P) : Type 0 where
    pub shut : st'.sock ≡ false
    pub freed : st'.io ≡ none
    pub lost : Bytes
    pub part : st'.sent ++ lost ≡ owed decide st x

  abbrev pub Held : Sbuf P → Bytes → Sbuf P → Bytes → Type 0
  Held st x st' y = Kept st x st' y ⊎ Cut st x st'

  pub Held-first : (a b c : Sbuf P) (x y z : Bytes) → Kept a x b y → Held b y c z → Held a x c z
  Held-first a b c x y z (v, h) (inl (w, k)) = inl (w, k ∙ h)
  Held-first a b c x y z (v, h) (inr k) =
      inr (record { shut = k.shut; freed = k.freed; lost = k.lost; part = k.part ∙ h })

  pub Good-Held : (st st' : Sbuf P) (x : Bytes) → Good decide cap st st' → Held st x st' x
  Good-Held st st' x (inl (v, h)) = inl (v, h x)
  Good-Held st st' x (inr k) =
      inr (record { shut = k.shut; freed = k.freed; lost = (k.part x).0; part = (k.part x).1 })

  pub Stopped-Held :
      (st st' : Sbuf P) (x : Bytes) → Fits cap st → Stopped cap st st' → Held st x st' x
  Stopped-Held st st' x v h = Good-Held st st' x (Stopped-Good decide cap st st' v h)

  -- Another buffer with the same bytes in it and to come.
  buffered :
      (st : Sbuf P) (o : Option IoBuf) (x y : Bytes)
      → Fits cap st
      → AllSane cap o
      → pending_bytes o ≡ pending_bytes st.io
      → unparsed_bytes o ++ y ≡ unparsed_bytes st.io ++ x
      → Kept st x (record st { io = o }) y
  buffered st o x y v sane p u =
      (record { sane = sane; in_order = v.in_order; plain = v.plain }, rw (p, u) refl)

  pub try_resync-Kept :
      (release : Bool) (o : Option IoBuf) (st : Sbuf P) (x : Bytes)
      → Fits cap (record st { io = o })
      → Kept (record st { io = o }) x (sbuf_try_resync release (record st { io = o })) x
  unfolding sbuf_try_resync is_empty
  try_resync-Kept release none st x v = (v, refl)
  try_resync-Kept release (some io) st x v =
      let s : IsSane cap io = v.sane in
      let (sane, p, u) = try_resync_lem cap sbuf_small_pkt io s in
      if_intro (λ st'. Kept (record st { io = some io }) x st' x)
        (release && (io.done_pos == io.recv_pos)) _ _
        (λ empty.
          let e : io.done_pos ≡ io.recv_pos = ground (arith, empty) in
          buffered (record st { io = some io }) none x x v tt
            (sym (slice_empty io.done_pos io.parse_pos io.buf (omega (arith, s.parse_le_recv))))
            (ap (λ u. u ++ x)
              (sym (slice_empty io.parse_pos io.recv_pos io.buf (omega (arith, s.done_le_parse))))))
        λ _.
          buffered (record st { io = some io }) (some (try_resync io sbuf_small_pkt)) x x v sane p
            (ap (λ u. u ++ x) u)

  -- A recv that the loop goes on after has kept what is owed.
  abbrev pub Fetched : Sbuf P → Bytes → Peer × Sbuf P × Bool → Type 0
  Fetched st x (peer, st', true) = Kept st x st' peer.incoming × (is_open st'.io ≡ true)
  Fetched st x (peer, st', false) = Held st x st' peer.incoming

  module _ (host : Host P) (serves : Serves decide cap host) where
    failed_Fetched :
        (peer : Peer) (st : Sbuf P) (x : Bytes)
        → Fits cap st
        → x ≡ peer.incoming
        → Fetched st x (recv_failed host peer st)
    unfolding recv_failed sbuf_call_proto
    failed_Fetched peer st x v e = rw e (
        Stopped-Held st (host.proto_cb st ev_recv_failed []).0 peer.incoming v
          (serves.recv_fails st))

    got_Kept :
        (st : Sbuf P) (io : IoBuf) (bs x y : Bytes)
        → st.io ≡ some io
        → Fits cap st
        → length bs ≤ amount_recv cap io
        → bs ++ y ≡ x
        → Kept st x (set_io st (received io bs)) y
    unfolding amount_recv
    got_Kept st io bs x y e v h split =
        let s : IsSane cap io = subst (AllSane cap) e v.sane in
        let (sane, p, u) = received_lem cap io bs s (omega (arith, s.recv_le_cap, s.small)) in
        buffered st (some (received io bs)) x y v sane (p ∙ ap pending_bytes (sym e)) (
          ap (λ u. u ++ y) u
          ∙ append_assoc (unparsed io) bs y
          ∙ ap (λ r. unparsed io ++ r) split
          ∙ ap (λ o. unparsed_bytes o ++ x) (sym e))

    pub actual_recv-Fetched :
        (len : ℕ) (io : IoBuf) (arrivals : List Arrival) (peer : Peer) (st : Sbuf P)
        → st.io ≡ some io
        → Fits cap st
        → Fetched st peer.incoming (sbuf_actual_recv host cap len io arrivals peer st)
    unfolding sbuf_actual_recv recv_failed
    actual_recv-Fetched len io [] peer st e v = ((v, refl), ap is_open e)
    actual_recv-Fetched len io (not_yet ∷ later) peer st e v = ((v, refl), ap is_open e)
    actual_recv-Fetched len io (failed ∷ later) peer st e v =
        failed_Fetched (record peer { arrivals = later; tls_pending = false }) st peer.incoming v
          refl
    actual_recv-Fetched len io (arrived n more ∷ later) peer st e v =
        let avail = amount_recv cap io in
        let m = if ltb avail len then avail else len in
        let got = take n (take m peer.incoming) in
        let few : length got ≤ avail =
          ground (arith, length-take n (take m peer.incoming), length-take m peer.incoming) in
        let split = got_split n m peer.incoming in
        if_intro (Fetched st peer.incoming) (length got == 0) _ _
          (λ none_got.
            failed_Fetched
              (record peer {
                incoming = drop (length got) peer.incoming;
                arrivals = later;
                tls_pending = more;
              })
              st peer.incoming v
              (ap (λ n. drop n peer.incoming)
                (let none_there : 0 ≡ length got = ground (arith, none_got) in none_there)))
          λ _.
            (got_Kept st io got peer.incoming (drop (length got) peer.incoming) e v few split, refl)

    -- A buffer is there, or there is no memory for one.
    abbrev pub Allocated : Sbuf P → Bytes → Sbuf P × Bool → Type 0
    Allocated st x (st', true) = Kept st x st' x × (is_open st'.io ≡ true)
    Allocated st x (st', false) = Held st x st' x

    new_buffer :
        (o : Option IoBuf) (st : Sbuf P) (x : Bytes)
        → st.io ≡ none
        → host.slab_alloc st ≡ o
        → Fits cap st
        → Allocated st x (elim o [
          | none ↦ ((sbuf_call_proto host st ev_recv_failed).0, false)
          | some io ↦ (set_io st (reset io), true)
        ])
    unfolding sbuf_call_proto reset
    new_buffer none st x e a v =
        Stopped-Held st (host.proto_cb st ev_recv_failed []).0 x v (serves.recv_fails st)
    new_buffer (some io) st x e a v =
        let sane : IsSane cap (reset io) = record {
          done_le_parse = omega arith;
          parse_le_recv = omega arith;
          recv_le_cap = omega arith;
          allocated = serves.allocates st io a;
          small = serves.small;
        } in
        (
          buffered st (some (reset io)) x x v sane (sym (ap pending_bytes e))
              (ap (λ o. unparsed_bytes o ++ x) (sym e)),
          refl,
        )

    pub allocate_iobuf-Allocated :
        (o : Option IoBuf) (st : Sbuf P) (x : Bytes)
        → Fits cap (record st { io = o })
        → Allocated (record st { io = o }) x (allocate_iobuf host (record st { io = o }))
    unfolding allocate_iobuf
    allocate_iobuf-Allocated (some io) st x v = ((v, refl), refl)
    allocate_iobuf-Allocated none st x v =
        let st1 : Sbuf P = record st { io = none } in
        new_buffer (host.slab_alloc st1) st1 x refl refl v
