-- ===== src/Sbuf/Loop/Stream.antt =====
-- src/sbuf.c: the rounds of the main loop, one after another.
use pgbouncer.Base.{
  ℕ, zero, suc, ◌+◌, ◌≤◌, ◌<◌, ◌≡◌, refl, sym, ap, ◌∙◌, Bool, true, false, not, ◌&&◌, Bytes, Option,
  none, some, arith, if◌then◌else◌, if_intro, ltb, leb,
}
use pgbouncer.Iobuf.{IoBuf, amount_recv}
use pgbouncer.Sbuf.Forward.{Plan, IsFraming}
use pgbouncer.Sbuf.Sending.{is_open}
use pgbouncer.Sbuf.Owed.{Fits}
use pgbouncer.Sbuf.Contract.{Serves}
use pgbouncer.Sbuf.Loop.Turns.{Ran, handle_data-Handled, then_Ran, yielded_Ran, again_Ran}
use pgbouncer.Sbuf.Loop.Arrivals.{try_resync-Kept, Fetched, actual_recv-Fetched}
use pgbouncer.Sbuf.Loop.{Peer, sbuf_try_resync, sbuf_actual_recv, handle_data, recv_loop}
use pgbouncer.Sbuf.{Sbuf, Host}

resynced_open :
    {P : Type 0}
    → (o : Option IoBuf) (st : Sbuf P)
    → is_open (sbuf_try_resync false (record st { io = o })).io ≡ is_open o
unfolding sbuf_try_resync
resynced_open none st = refl
resynced_open (some io) st = refl

module _ {P : Type 0} (decide : P → Bytes → Option (Plan P)) (cap : ℕ) (host : Host P)
    (framing : IsFraming decide) (serves : Serves decide cap host) (max : ℕ)
    (bounded : 0 < max) where
  abbrev pub RanBy : Sbuf P → Bytes → Option (Peer × Sbuf P) → Type 0
  RanBy = Ran decide cap host framing serves

  abbrev pub Sure : ℕ → ℕ → Type 0
  Sure f loopcnt =
      (peer : Peer) (st : Sbuf P)
      → Fits cap st
      → is_open st.io ≡ true
      → RanBy st peer.incoming (recv_loop host cap max f loopcnt peer st)

  fetched_Ran :
      (f loopcnt : ℕ) (st : Sbuf P) (x : Bytes) (r : Peer × Sbuf P × Bool)
      → Sure f (suc loopcnt)
      → Fetched decide cap st x r
      → RanBy st x (
          let (peer1, st2, ok) = r in
          if not ok then some (peer1, st2) else elim (handle_data host cap peer1.tls_pending st2) [
            | none ↦ none
            | some (again, st3) ↦ elim again [
              | true ↦ recv_loop host cap max f (suc loopcnt) peer1 st3
              | false ↦ some (peer1, st3)
            ]
          ])
  fetched_Ran f loopcnt st x (peer1, st2, false) sure h = h
  fetched_Ran f loopcnt st x (peer1, st2, true) sure (k, opened) =
      then_Ran decide cap host framing serves st st2 x peer1.incoming _ k (
        again_Ran decide cap host framing serves (recv_loop host cap max f) st2 peer1 (suc loopcnt)
          _ (sure peer1)
          (handle_data-Handled decide cap host framing serves peer1.tls_pending st2.io st2
            peer1.incoming refl opened k.0))

  receive_Ran :
      (f loopcnt : ℕ) (peer : Peer) (o : Option IoBuf) (st : Sbuf P)
      → Sure f (suc loopcnt)
      → st.io ≡ o
      → Fits cap st
      → is_open st.io ≡ true
      → RanBy st peer.incoming (elim o [
        | none ↦ none
        | some io ↦
            let free = amount_recv cap io in
            let (peer1, st2, ok) =
              if ltb 0 free
              then sbuf_actual_recv host cap free io peer.arrivals peer st
              else (peer, st, true) in
            if not ok
            then some (peer1, st2)
            else elim (handle_data host cap peer1.tls_pending st2) [
              | none ↦ none
              | some (again, st3) ↦ elim again [
                | true ↦ recv_loop host cap max f (suc loopcnt) peer1 st3
                | false ↦ some (peer1, st3)
              ]
            ]
      ])
  receive_Ran f loopcnt peer none st sure e v opened =
      let contra : false ≡ true = sym (ap is_open e) ∙ opened in cc
  receive_Ran f loopcnt peer (some io) st sure e v opened =
      let free = amount_recv cap io in
      fetched_Ran f loopcnt st peer.incoming
        (if ltb 0 free
          then sbuf_actual_recv host cap free io peer.arrivals peer st
          else (peer, st, true))
        sure
        (if_intro (Fetched decide cap st peer.incoming) (ltb 0 free) _ _
          (λ _. actual_recv-Fetched decide cap host serves free io peer.arrivals peer st e v)
          λ _. ((v, refl), opened))

  pub recv_loop-Ran : (f loopcnt : ℕ) → max < f + loopcnt → loopcnt ≤ max → Sure f loopcnt
  unfolding recv_loop
  recv_loop-Ran zero loopcnt h k peer st v opened = absurd (omega arith)
  recv_loop-Ran (suc f) loopcnt h k peer st v opened =
      let st1 = sbuf_try_resync false st in
      let kept = try_resync-Kept decide cap false st.io st peer.incoming v in
      let opened1 : is_open st1.io ≡ true = resynced_open st.io st ∙ opened in
      then_Ran decide cap host framing serves st st1 peer.incoming peer.incoming _ kept (
        if_intro (RanBy st1 peer.incoming) (ltb 0 max && leb max loopcnt) _ _
          (λ _. yielded_Ran decide cap host framing serves st1 peer kept.0 opened1)
          λ e.
            receive_Ran f loopcnt peer st1.io st1
              (recv_loop-Ran f (suc loopcnt) (omega arith) (ground (arith, e, bounded))) refl kept.0
              opened1)
