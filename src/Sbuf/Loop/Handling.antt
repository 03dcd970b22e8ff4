-- ===== src/Sbuf/Loop/Handling.antt =====
-- src/sbuf.c: what the main loop does around the loop over packets.
use pgbouncer.Base.{
  ℕ, ◌≡◌, refl, sym, ap, ◌∙◌, Bool, true, false, not, ◌&&◌, ◌||◌, Bytes, Option, none, some, arith,
  if◌then◌else◌, if_intro, inl, inr,
}
use pgbouncer.Iobuf.{IoBuf}
use pgbouncer.Sbuf.Forward.{Plan, IsFraming}
use pgbouncer.Sbuf.Sending.{is_open}
use pgbouncer.Sbuf.Owed.{Fits, Good}
use pgbouncer.Sbuf.Contract.{Serves}
use pgbouncer.Sbuf.Packets.Ends.{Drained, closed-recv}
use pgbouncer.Sbuf.Loop.Arrivals.{Kept, Held, Held-first, Good-Held, Stopped-Held, try_resync-Kept}
use pgbouncer.Sbuf.Loop.{
  sbuf_try_resync, has_room, sbuf_wait_for_data, sbuf_wait_for_data_forced, sbuf_event_remove,
  finish, yield_socket, waits_recv,
}
use pgbouncer.Sbuf.{
  Sbuf, Host, WaitType, w_none, w_recv, w_once, sbuf_is_empty, sbuf_is_recv_active, sbuf_call_proto,
}

has_room-open :
    {P : Type 0}
    → (cap : ℕ) (o : Option IoBuf) (st : Sbuf P) → has_room cap (record st { io = o }) ≡ true
    → is_open o ≡ true
unfolding has_room
has_room-open cap none st h = cc
has_room-open cap (some io) st h = refl

module _ {P : Type 0} (decide : P → Bytes → Option (Plan P)) (cap : ℕ) (host : Host P)
    (framing : IsFraming decide) (serves : Serves decide cap host) where
  -- Waiting for another event is not seen in what is owed.
  pub waits-Kept :
      (st : Sbuf P) (w : WaitType) (x : Bytes)
      → Fits cap st
      → Kept decide cap st x (record st { wait_type = w }) x
  waits-Kept st w x v = (record { sane = v.sane; in_order = v.in_order; plain = v.plain }, refl)

  pub then_Held :
      (a b c : Sbuf P) (x y : Bytes)
      → Kept decide cap a x b x
      → (Fits cap b → Held decide cap b x c y)
      → Held decide cap a x c y
  then_Held a b c x y k h = Held-first decide cap a b c x x y k (h k.0)

  finish-Held : (st : Sbuf P) (x : Bytes) → Fits cap st → Held decide cap st x (finish host st) x
  unfolding finish sbuf_call_proto
  finish-Held st x v =
      let st1 = sbuf_try_resync true st in
      then_Held st st1 (finish host st) x x (try_resync-Kept decide cap true st.io st x v) λ w.
        if_intro (λ st'. Held decide cap st1 x st' x) (sbuf_is_empty st1) _ _
          (λ _. Stopped-Held decide cap st1 _ x w (serves.flushes st1)) λ _. inl (w, refl)

  wait_forced-Kept :
      (st : Sbuf P) (x : Bytes)
      → Fits cap st
      → Kept decide cap st x (sbuf_wait_for_data_forced host st).0 x
  unfolding sbuf_wait_for_data_forced sbuf_event_remove
  wait_forced-Kept st x v =
      let K : Sbuf P × Bool → Type 0 = λ r. Kept decide cap st x r.0 x in
      let (st1, ok) = sbuf_event_remove host st in
      if_intro K (not st.sock) _ _ (λ _. (v, refl))
        λ _.
          if_intro K (not ok) _ _ (λ _. waits-Kept st w_none x v)
            λ _.
              if_intro K (not (host.event_add st1)) _ _ (λ _. waits-Kept st w_none x v)
                λ _. waits-Kept st w_once x v

  pub wait-Kept :
      (st : Sbuf P) (x : Bytes)
      → Fits cap st
      → Kept decide cap st x (sbuf_wait_for_data host st).0 x
  unfolding sbuf_wait_for_data sbuf_event_remove
  wait-Kept st x v =
      let K : Sbuf P × Bool → Type 0 = λ r. Kept decide cap st x r.0 x in
      let (st1, ok) = sbuf_event_remove host st in
      if_intro K (not ok) _ _ (λ _. waits-Kept st w_none x v)
        λ _.
          if_intro K (not (host.event_add st1)) _ _ (λ _. waits-Kept st w_none x v)
            λ _. waits-Kept st w_recv x v

  pub yield_socket-Held :
      (st : Sbuf P) (x : Bytes) → Fits cap st → Held decide cap st x (yield_socket host st) x
  unfolding yield_socket sbuf_call_proto
  yield_socket-Held st x v =
      let H : Sbuf P → Type 0 = λ st'. Held decide cap st x st' x in
      let r = sbuf_wait_for_data_forced host st in
      let waited = wait_forced-Kept st x v in
      if_intro H (not st.sock || not (waits_recv st.wait_type)) _ _ (λ _. inl (v, refl))
        λ _.
          if_intro H (not r.1) _ _
            (λ _.
              then_Held st r.0 _ x x waited
                λ w. Stopped-Held decide cap r.0 _ x w (serves.recv_fails r.0))
            λ _. inl waited

  pub closed_yields : (st : Sbuf P) → st.sock ≡ false → yield_socket host st ≡ st
  unfolding yield_socket
  closed_yields st e = rw e refl

  -- The loop goes back with an open buffer and the debt kept.
  abbrev pub Handled : Sbuf P → Bytes → Option (Bool × Sbuf P) → Type 0
  Handled st x none = ⊥
  Handled st x (some (true, st')) = Kept decide cap st x st' x × (is_open st'.io ≡ true)
  Handled st x (some (false, st')) = Held decide cap st x st' x

  done_Handled :
      (o : Option IoBuf) (st st1 : Sbuf P) (x : Bytes)
      → Kept decide cap st x st1 x
      → is_open st1.io ≡ true
      → is_open o ≡ true
      → Handled st x (elim o [
        | none ↦ none
        | some io ↦
            if not (has_room cap st1) then some (true, st1) else some (false, finish host st1)
      ])
  done_Handled none st st1 x k opened oo = let contra : false ≡ true = oo in cc
  done_Handled (some io) st st1 x k opened oo =
      if_intro (Handled st x) (not (has_room cap st1)) _ _ (λ _. (k, opened))
        λ _. then_Held st st1 (finish host st1) x x k (finish-Held st1 x)

  more_Handled :
      (tls_pending : Bool) (st st1 : Sbuf P) (x : Bytes) (b : Bool)
      → b ≡ (sbuf_is_recv_active st1 && (has_room cap st1 && tls_pending))
      → Held decide cap st x st1 x
      → Handled st x (some (b, st1))
  more_Handled tls_pending st st1 x false e h = h
  more_Handled tls_pending st st1 x true e (inl k) =
      (k, has_room-open cap st1.io st1 (ground (arith, e)))
  more_Handled tls_pending st st1 x true e (inr k) =
      let closed = closed-recv st1 k.shut in absurd (ground (arith, e, closed))

  pub processed_Handled :
      (tls_pending full : Bool) (st : Sbuf P) (x : Bytes) (r : Sbuf P × Bool)
      → Good decide cap st r.0
      → (r.1 ≡ true → Drained full r.0)
      → Handled st x (
          if not r.1
          then some (sbuf_is_recv_active r.0 && (has_room cap r.0 && tls_pending), r.0)
          else elim r.0.io [
            | none ↦ none
            | some io ↦
                if not (has_room cap r.0) then some (true, r.0) else some (false, finish host r.0)
          ])
  processed_Handled tls_pending full st x (st1, false) good done =
      more_Handled tls_pending st st1 x _ refl (Good-Held decide cap st st1 x good)
  processed_Handled tls_pending full st x (st1, true) (inl (w, h)) done =
      done_Handled st1.io st st1 x (w, h x) (done refl).still_open (done refl).still_open
  processed_Handled tls_pending full st x (st1, true) (inr k) done =
      let contra : false ≡ true = sym (ap is_open k.freed) ∙ (done refl).still_open in cc
