-- ===== src/Sbuf/Loop/Callbacks.antt =====
-- src/sbuf.c: the callbacks of the events of a stream.
use pgbouncer.Base.{
  ℕ, suc, ◌+◌, ◌<◌, ◌≡◌, refl, Bool, true, false, not, Bytes, Option, none, some, arith, length,
  if◌then◌else◌, if_intro, inl,
}
use pgbouncer.Sbuf.Forward.{Plan, IsFraming}
use pgbouncer.Sbuf.Sending.{is_open, Stopped}
use pgbouncer.Sbuf.Owed.{Fits}
use pgbouncer.Sbuf.Contract.{Serves}
use pgbouncer.Sbuf.Loop.Turns.{Ran, handle_data-Handled, then_Ran, again_Ran}
use pgbouncer.Sbuf.Loop.Handling.{then_Held, wait-Kept, waits-Kept}
use pgbouncer.Sbuf.Loop.Stream.{recv_loop-Ran}
use pgbouncer.Sbuf.Loop.Arrivals.{Kept, Stopped-Held, Allocated, allocate_iobuf-Allocated}
use pgbouncer.Sbuf.Loop.{
  Peer, sbuf_wait_for_data, allocate_iobuf, handle_data, recv_loop, sbuf_main_loop,
}
use pgbouncer.Sbuf.{SbufEvent, Sbuf, Host, w_none, sbuf_call_proto, ev_recv_failed, ev_send_failed}
use pgbouncer.Sbuf.Loop.Wakeups.{
  sbuf_recv_cb, sbuf_recv_forced_cb, sbuf_send_cb, sbuf_continue, Wakeup, readable, woken, writable,
  resumed, callback,
}

module _ {P : Type 0} (decide : P → Bytes → Option (Plan P)) (cap : ℕ) (host : Host P)
    (framing : IsFraming decide) (serves : Serves decide cap host) (max : ℕ)
    (bounded : 0 < max) where
  abbrev pub RanBy : Sbuf P → Bytes → Option (Peer × Sbuf P) → Type 0
  RanBy = Ran decide cap host framing serves

  abbrev pub ThenRan :
      (a b : Sbuf P) (x y : Bytes) (o : Option (Peer × Sbuf P))
      → Kept decide cap a x b y
      → RanBy b y o
      → RanBy a x o
  ThenRan = then_Ran decide cap host framing serves

  main_loop-Ran :
      (skip_recv : Bool) (peer : Peer) (st : Sbuf P)
      → Fits cap st
      → RanBy st peer.incoming (sbuf_main_loop host cap max skip_recv peer st)
  unfolding sbuf_main_loop
  main_loop-Ran skip_recv peer st v =
      let x = peer.incoming in
      let fuel = suc (max + length peer.arrivals) in
      let loops = λ (st' : Sbuf P) (w : Fits cap st') (opened : is_open st'.io ≡ true).
        recv_loop-Ran decide cap host framing serves max bounded fuel 0 (omega arith) (omega arith)
          peer st' w opened in
      if_intro (RanBy st x) (not st.sock) _ _ (λ _. inl (v, refl))
        λ _.
          allocated skip_recv peer st (allocate_iobuf host st) loops
            (allocate_iobuf-Allocated decide cap host serves st.io st x v)
    where
      allocated :
          (skip_recv : Bool) (peer : Peer) (st : Sbuf P) (r : Sbuf P × Bool)
          → (let fuel = suc (max + length peer.arrivals) in
              (st' : Sbuf P)
              → Fits cap st'
              → is_open st'.io ≡ true
              → RanBy st' peer.incoming (recv_loop host cap max fuel 0 peer st'))
          → Allocated decide cap host serves st peer.incoming r
          → RanBy st peer.incoming (
              let (st1, ok) = r in
              let fuel = suc (max + length peer.arrivals) in
              if not ok
              then some (peer, st1)
              else if skip_recv
              then elim (handle_data host cap peer.tls_pending st1) [
                | none ↦ none
                | some (again, st2) ↦ elim again [
                  | true ↦ recv_loop host cap max fuel 0 peer st2
                  | false ↦ some (peer, st2)
                ]
              ]
              else recv_loop host cap max fuel 0 peer st1)
      allocated skip_recv peer st (st1, false) loops held = held
      allocated false peer st (st1, true) loops (k, opened) =
          ThenRan st st1 peer.incoming peer.incoming _ k (loops st1 k.0 opened)
      allocated true peer st (st1, true) loops (k, opened) =
          ThenRan st st1 peer.incoming peer.incoming _ k (
            again_Ran decide cap host framing serves
              (λ n. recv_loop host cap max (suc (max + length peer.arrivals)) n) st1 peer 0 _ loops
              (handle_data-Handled decide cap host framing serves peer.tls_pending st1.io st1
                peer.incoming refl opened k.0))

  -- After a wait for data that may fail, the loop or the handler goes on.
  resumed_Ran :
      (skip_recv : Bool) (peer : Peer) (st : Sbuf P) (event : SbufEvent)
      → Fits cap st
      → ((st : Sbuf P) → Stopped cap st (sbuf_call_proto host st event).0)
      → let (st1, ok) = sbuf_wait_for_data host st in
        RanBy st peer.incoming (
          if ok
          then sbuf_main_loop host cap max skip_recv peer st1
          else some (peer, (sbuf_call_proto host st1 event).0))
  resumed_Ran skip_recv peer st event v stops =
      let r = sbuf_wait_for_data host st in
      let waited = wait-Kept decide cap host framing serves st peer.incoming v in
      if_intro (RanBy st peer.incoming) r.1 _ _
        (λ _.
          ThenRan st r.0 peer.incoming peer.incoming _ waited
            (main_loop-Ran skip_recv peer r.0 waited.0))
        λ _.
          then_Held decide cap host framing serves st r.0 _ peer.incoming peer.incoming waited
            λ w. Stopped-Held decide cap r.0 _ peer.incoming w (stops r.0)

  pub callback-Ran :
      (wakeup : Wakeup) (peer : Peer) (st : Sbuf P)
      → Fits cap st
      → RanBy st peer.incoming (callback host cap max wakeup peer st)
  unfolding callback sbuf_recv_cb sbuf_recv_forced_cb sbuf_send_cb sbuf_continue sbuf_call_proto
  callback-Ran readable peer st v = main_loop-Ran false peer st v
  callback-Ran woken peer st v =
      let none_kept = waits-Kept decide cap host framing serves st w_none peer.incoming v in
      ThenRan st _ peer.incoming peer.incoming _ none_kept (
        resumed_Ran false peer (record st { wait_type = w_none }) ev_recv_failed none_kept.0
          serves.recv_fails)
  callback-Ran writable peer st v =
      let none_kept = waits-Kept decide cap host framing serves st w_none peer.incoming v in
      if_intro (RanBy st peer.incoming) (not st.sock) _ _ (λ _. inl (v, refl))
        λ _. ThenRan st _ peer.incoming peer.incoming _ none_kept (
          resumed_Ran true peer (record st { wait_type = w_none }) ev_send_failed none_kept.0
            serves.fails)
  callback-Ran resumed peer st v = resumed_Ran false peer st ev_recv_failed v serves.recv_fails
