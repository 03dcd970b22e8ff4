-- ===== src/Sbuf/Loop/Wakeups.antt =====
-- src/sbuf.c: the events that run the main loop, one after another.
use pgbouncer.Base.{ℕ, true, false, not, List, [], ◌∷◌, Option, none, some, if◌then◌else◌}
use pgbouncer.Sbuf.Loop.{Peer, Arrival, sbuf_wait_for_data, sbuf_main_loop}
use pgbouncer.Sbuf.{Sbuf, Host, Answer, w_none, ev_recv_failed, ev_send_failed, sbuf_call_proto}

-- A socket of the stream can be read, wakes up as it was told to, or can be written again, or the
-- stream is resumed.
pub data Wakeup : Type 0 where
  readable woken writable resumed : Wakeup

-- An event, with what the sockets answer until the next.
pub record SocketEvent : Type 0 where
  pub wakeup : Wakeup
  pub arrivals : List Arrival
  pub answers : List Answer

module _ {P : Type 0} (host : Host P) (cap max : ℕ) where
  unfoldable pub sbuf_recv_cb : Peer → Sbuf P → Option (Peer × Sbuf P)
  unfolding sbuf_main_loop
  sbuf_recv_cb peer st = sbuf_main_loop host cap max false peer st

  unfoldable pub sbuf_continue : Peer → Sbuf P → Option (Peer × Sbuf P)
  unfolding sbuf_wait_for_data sbuf_main_loop sbuf_call_proto
  sbuf_continue peer st =
      let (st1, ok) = sbuf_wait_for_data host st in
      if ok
      then sbuf_main_loop host cap max false peer st1
      else some (peer, (sbuf_call_proto host st1 ev_recv_failed).0)

  unfoldable pub sbuf_recv_forced_cb : Peer → Sbuf P → Option (Peer × Sbuf P)
  unfolding sbuf_wait_for_data sbuf_recv_cb sbuf_call_proto
  sbuf_recv_forced_cb peer st =
      let (st1, ok) = sbuf_wait_for_data host (record st { wait_type = w_none }) in
      if ok then sbuf_recv_cb peer st1 else some (peer, (sbuf_call_proto host st1 ev_recv_failed).0)

  unfoldable pub sbuf_send_cb : Peer → Sbuf P → Option (Peer × Sbuf P)
  unfolding sbuf_wait_for_data sbuf_main_loop sbuf_call_proto
  sbuf_send_cb peer st =
      if not st.sock
      then some (peer, st)
      else (let (st1, ok) = sbuf_wait_for_data host (record st { wait_type = w_none }) in
          if ok
          then sbuf_main_loop host cap max true peer st1
          else some (peer, (sbuf_call_proto host st1 ev_send_failed).0))

  unfoldable pub callback : Wakeup → Peer → Sbuf P → Option (Peer × Sbuf P)
  unfolding sbuf_recv_cb sbuf_recv_forced_cb sbuf_send_cb sbuf_continue
  callback readable peer st = sbuf_recv_cb peer st
  callback woken peer st = sbuf_recv_forced_cb peer st
  callback writable peer st = sbuf_send_cb peer st
  callback resumed peer st = sbuf_continue peer st

  -- There are no events for a closed stream.
  unfoldable pub on_event : SocketEvent → Peer → Sbuf P → Option (Peer × Sbuf P)
  unfolding callback
  on_event ev peer st =
      if not st.sock
      then some (peer, st)
      else callback ev.wakeup (record peer { arrivals = ev.arrivals })
          (record st { answers = ev.answers })

  unfoldable pub run_events : List SocketEvent → Peer → Sbuf P → Option (Peer × Sbuf P)
  unfolding on_event
  run_events [] peer st = some (peer, st)
  run_events (ev ∷ evs) peer st = elim (on_event ev peer st) [
    | none ↦ none
    | some r ↦ run_events evs r.0 r.1
  ]
