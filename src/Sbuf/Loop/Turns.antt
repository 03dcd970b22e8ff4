-- ===== src/Sbuf/Loop/Turns.antt =====
-- src/sbuf.c: what the rounds of the main loop come to.
use pgbouncer.Base.{
  ℕ, ◌≡◌, refl, sym, subst, Bool, true, false, not, ◌&&◌, Bytes, Option, none, some, if◌then◌else◌,
  inl, inr, ◌==◌,
}
use pgbouncer.Iobuf.{IoBuf, amount_recv}
use pgbouncer.Sbuf.Forward.{Plan, IsFraming}
use pgbouncer.Sbuf.Sending.{is_open}
use pgbouncer.Sbuf.Owed.{Fits}
use pgbouncer.Sbuf.Contract.{Serves}
use pgbouncer.Sbuf.Packets.Process.{process_pending_lem}
use pgbouncer.Sbuf.Loop.Handling.{
  Handled, processed_Handled, yield_socket-Held, closed_yields, then_Held,
}
use pgbouncer.Sbuf.Loop.Arrivals.{Kept, Held, Held-first, Good-Held}
use pgbouncer.Sbuf.Loop.{Peer, has_room, finish, yield_socket, handle_data}
use pgbouncer.Sbuf.Packets.{sbuf_process_pending}
use pgbouncer.Sbuf.{Sbuf, Host, sbuf_is_recv_active}

module _ {P : Type 0} (decide : P → Bytes → Option (Plan P)) (cap : ℕ) (host : Host P)
    (framing : IsFraming decide) (serves : Serves decide cap host) where
  abbrev pub HandledBy : Sbuf P → Bytes → Option (Bool × Sbuf P) → Type 0
  HandledBy = Handled decide cap host framing serves

  pub handle_data-Handled :
      (tls_pending : Bool) (o : Option IoBuf) (st : Sbuf P) (x : Bytes)
      → st.io ≡ o
      → is_open o ≡ true
      → Fits cap st
      → HandledBy st x (handle_data host cap tls_pending st)
  unfolding handle_data
  handle_data-Handled tls_pending none st x e opened v = let contra : false ≡ true = opened in cc
  handle_data-Handled tls_pending (some io) st x e opened v =
      let (st1, ok, p, good, done) = process_pending_lem decide cap host framing serves st io e v in
      subst
        (λ o. HandledBy st x (elim o [
          | none ↦ none
          | some (st1, ok) ↦
              if not ok
              then some (sbuf_is_recv_active st1 && (has_room cap st1 && tls_pending), st1)
              else elim st1.io [
                | none ↦ none
                | some io ↦
                    if not (has_room cap st1)
                    then some (true, st1)
                    else some (false, finish host st1)
              ]
        ]))
        (sym p)
        (processed_Handled decide cap host framing serves tls_pending (amount_recv cap io == 0) st x
          (st1, ok) good done)

  -- A run of the loop ends, with the debt kept or the stream closed.
  abbrev pub Ran : Sbuf P → Bytes → Option (Peer × Sbuf P) → Type 0
  Ran st x none = ⊥
  Ran st x (some (peer, st')) = Held decide cap st x st' peer.incoming

  pub then_Ran :
      (a b : Sbuf P) (x y : Bytes) (o : Option (Peer × Sbuf P))
      → Kept decide cap a x b y
      → Ran b y o
      → Ran a x o
  then_Ran a b x y none k never = elim never [ ]
  then_Ran a b x y (some (peer, c)) k h = Held-first decide cap a b c x y peer.incoming k h

  pub yielded_Ran :
      (st : Sbuf P) (peer : Peer)
      → Fits cap st
      → is_open st.io ≡ true
      → Ran st peer.incoming (elim (sbuf_process_pending host cap st) [
        | none ↦ none
        | some r ↦ some (peer, yield_socket host r.0)
      ])
  yielded_Ran st peer v opened = on st.io refl opened
    where
      after :
          (st1 : Sbuf P)
          → Held decide cap st peer.incoming st1 peer.incoming
          → Held decide cap st peer.incoming (yield_socket host st1) peer.incoming
      after st1 (inl k) =
          then_Held decide cap host framing serves st st1 _ peer.incoming peer.incoming k
            (yield_socket-Held decide cap host framing serves st1 peer.incoming)
      after st1 (inr k) = rw (closed_yields decide cap host framing serves st1 k.shut) (inr k)

      on :
          (o : Option IoBuf)
          → st.io ≡ o
          → is_open o ≡ true
          → Ran st peer.incoming (elim (sbuf_process_pending host cap st) [
            | none ↦ none
            | some r ↦ some (peer, yield_socket host r.0)
          ])
      on none e opened = let contra : false ≡ true = opened in cc
      on (some io) e opened =
          let (st1, ok, p, good, done) =
            process_pending_lem decide cap host framing serves st io e v in
          subst
            (λ o.
              Ran st peer.incoming
                (elim o [ none ↦ none | some r ↦ some (peer, yield_socket host r.0) ]))
            (sym p) (after st1 (Good-Held decide cap st st1 peer.incoming good))

  pub again_Ran :
      (f : ℕ → Peer → Sbuf P → Option (Peer × Sbuf P)) (st : Sbuf P) (peer : Peer) (n : ℕ)
      (o : Option (Bool × Sbuf P))
      → ((st' : Sbuf P)
          → Fits cap st'
          → is_open st'.io ≡ true
          → Ran st' peer.incoming (f n peer st'))
      → HandledBy st peer.incoming o
      → Ran st peer.incoming (elim o [
        | none ↦ none
        | some (again, st3) ↦ elim again [ true ↦ f n peer st3 | false ↦ some (peer, st3) ]
      ])
  again_Ran f st peer n none h never = elim never [ ]
  again_Ran f st peer n (some (true, st')) h (k, opened) =
      then_Ran st st' peer.incoming peer.incoming (f n peer st') k (h st' k.0 opened)
  again_Ran f st peer n (some (false, st')) h held = held
