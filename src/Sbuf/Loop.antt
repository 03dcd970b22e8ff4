-- ===== src/Sbuf/Loop.antt =====
-- src/sbuf.c: the main loop, which receives, parses and sends, and the events that run it.
mod Received
pub mod Arrivals
pub mod Handling
pub mod Turns
pub mod Stream
pub mod Wakeups
pub mod Callbacks
pub mod Events
mod Tests
use pgbouncer.Base.{
  ℕ, zero, suc, ◌+◌, ◌-◌, ◌%◌, ◌^◌, Bool, true, false, not, ◌&&◌, ◌||◌, Bytes, List, [], ◌∷◌,
  Option, none, some, ltb, leb, ◌==◌, if◌then◌else◌, length, take, drop,
}
use pgbouncer.Pktbuf.Memory.{poke}
use pgbouncer.Iobuf.{IoBuf, is_empty, amount_recv, try_resync, reset}
use pgbouncer.Sbuf.Packets.{sbuf_process_pending}
use pgbouncer.Sbuf.{
  Sbuf, Host, Answer, WaitType, w_none, w_connect, w_recv, w_send, w_once, ev_recv_failed,
  ev_send_failed, ev_flush, sbuf_small_pkt, set_io, sbuf_is_empty, sbuf_is_recv_active,
  sbuf_call_proto, sbuf_send_pending_iobuf,
}

-- What a recv answers: a number of bytes, and whether TLS then holds more, no data for now, or an
-- error.
pub data Arrival : Type 0 where
  arrived : ℕ → Bool → Arrival
  not_yet failed : Arrival

-- What the socket still has for the stream, and how it will come.
pub record Peer : Type 0 where
  pub incoming : Bytes
  pub arrivals : List Arrival
  pub tls_pending : Bool

abbrev pub received : IoBuf → Bytes → IoBuf
received io bs = record io {
  buf = poke io.buf io.recv_pos bs;
  recv_pos = (io.recv_pos + length bs) % 2 ^ 32;
}

abbrev pub waits_recv : WaitType → Bool
waits_recv w_recv = true
waits_recv w_none = false
waits_recv w_connect = false
waits_recv w_send = false
waits_recv w_once = false

module _ {P : Type 0} where
  pub sbuf_try_resync : Bool → Sbuf P → Sbuf P
  unfolding is_empty try_resync
  sbuf_try_resync release st = elim st.io [
    | none ↦ st
    | some io ↦
        if release && is_empty io
        then record st { io = none }
        else set_io st (try_resync io sbuf_small_pkt)
  ]

  -- Room in the buffer, if there is one.
  pub has_room : ℕ → Sbuf P → Bool
  unfolding amount_recv
  has_room cf_sbuf_len st = elim st.io [
    | none ↦ false
    | some io ↦ ltb 0 (amount_recv cf_sbuf_len io)
  ]

module _ {P : Type 0} (host : Host P) where
  pub sbuf_event_remove : Sbuf P → Sbuf P × Bool
  sbuf_event_remove st = (
    record st { wait_type = w_none },
    if not (host.event_initialized st) then true else host.event_del st,
  )

  pub sbuf_wait_for_data : Sbuf P → Sbuf P × Bool
  unfolding sbuf_event_remove
  sbuf_wait_for_data st =
      let (st1, ok) = sbuf_event_remove st in
      if not ok
      then (st1, false)
      else if not (host.event_add st1)
      then (st1, false)
      else (record st1 { wait_type = w_recv }, true)

  pub sbuf_wait_for_data_forced : Sbuf P → Sbuf P × Bool
  unfolding sbuf_event_remove
  sbuf_wait_for_data_forced st =
      if not st.sock
      then (st, false)
      else (let (st1, ok) = sbuf_event_remove st in
          if not ok
          then (st1, false)
          else if not (host.event_add st1)
          then (st1, false)
          else (record st1 { wait_type = w_once }, true))

  pub sbuf_pause : Sbuf P → Sbuf P × Bool
  sbuf_pause st =
      if not (host.event_del st) then (st, false) else (record st { wait_type = w_none }, true)

  pub sbuf_flush : Sbuf P → Sbuf P × Bool
  unfolding sbuf_send_pending_iobuf
  sbuf_flush st = elim st.io [ none ↦ (st, true) | some io ↦ sbuf_send_pending_iobuf host st ]

  recv_failed : Peer → Sbuf P → Peer × Sbuf P × Bool
  unfolding sbuf_call_proto
  recv_failed peer st = (peer, (sbuf_call_proto host st ev_recv_failed).0, false)

  -- No bytes at all is the end of the stream.
  pub sbuf_actual_recv : ℕ → ℕ → IoBuf → List Arrival → Peer → Sbuf P → Peer × Sbuf P × Bool
  unfolding recv_failed amount_recv
  sbuf_actual_recv cf_sbuf_len len io [] peer st = (record peer { tls_pending = false }, st, true)
  sbuf_actual_recv cf_sbuf_len len io (not_yet ∷ later) peer st =
      (record peer { arrivals = later; tls_pending = false }, st, true)
  sbuf_actual_recv cf_sbuf_len len io (failed ∷ later) peer st =
      recv_failed (record peer { arrivals = later; tls_pending = false }) st
  sbuf_actual_recv cf_sbuf_len len io (arrived n more ∷ later) peer st =
      let avail = amount_recv cf_sbuf_len io in
      let got = take n (take (if ltb avail len then avail else len) peer.incoming) in
      let peer1 = record peer {
        incoming = drop (length got) peer.incoming;
        arrivals = later;
        tls_pending = more;
      } in
      if length got == 0 then recv_failed peer1 st else (peer1, set_io st (received io got), true)

  pub allocate_iobuf : Sbuf P → Sbuf P × Bool
  unfolding sbuf_call_proto reset
  allocate_iobuf st = elim st.io [
    | some io ↦ (st, true)
    | none ↦ elim (host.slab_alloc st) [
      | none ↦ ((sbuf_call_proto host st ev_recv_failed).0, false)
      | some io ↦ (set_io st (reset io), true)
    ]
  ]

  -- The buffer is cleaned, and the handler is told when all is sent.
  pub finish : Sbuf P → Sbuf P
  unfolding sbuf_try_resync sbuf_is_empty sbuf_call_proto
  finish st =
      let st1 = sbuf_try_resync true st in
      if sbuf_is_empty st1 then (sbuf_call_proto host st1 ev_flush).0 else st1

  -- After the loop count is reached the socket is to wake up again at once.
  pub yield_socket : Sbuf P → Sbuf P
  unfolding sbuf_wait_for_data_forced sbuf_call_proto
  yield_socket st =
      if not st.sock || not (waits_recv st.wait_type)
      then st
      else (let (st1, ok) = sbuf_wait_for_data_forced st in
          if not ok then (sbuf_call_proto host st1 ev_recv_failed).0 else st1)

  module _ (cf_sbuf_len : ℕ) where
    -- From the label skip_recv on, with whether the loop goes back to try_more.
    pub handle_data : Bool → Sbuf P → Option (Bool × Sbuf P)
    unfolding sbuf_process_pending sbuf_is_recv_active has_room finish
    handle_data tls_pending st = elim (sbuf_process_pending host cf_sbuf_len st) [
      | none ↦ none
      | some (st1, ok) ↦
          if not ok
          then some (sbuf_is_recv_active st1 && (has_room cf_sbuf_len st1 && tls_pending), st1)
          else elim st1.io [
            | none ↦ none
            | some io ↦
                if not (has_room cf_sbuf_len st1)
                then some (true, st1)
                else some (false, finish st1)
          ]
    ]

    module _ (cf_sbuf_loopcnt : ℕ) where
      -- The label try_more; `none` is a null pointer or the fuel used up.
      pub recv_loop : ℕ → ℕ → Peer → Sbuf P → Option (Peer × Sbuf P)
      unfolding sbuf_try_resync sbuf_process_pending yield_socket amount_recv sbuf_actual_recv
          handle_data
      recv_loop zero loopcnt peer st = none
      recv_loop (suc f) loopcnt peer st =
          let st1 = sbuf_try_resync false st in
          if ltb 0 cf_sbuf_loopcnt && leb cf_sbuf_loopcnt loopcnt
          then (elim (sbuf_process_pending host cf_sbuf_len st1) [
            | none ↦ none
            | some r ↦ some (peer, yield_socket r.0)
          ])
          else (elim st1.io [
            | none ↦ none
            | some io ↦
                let free = amount_recv cf_sbuf_len io in
                let (peer1, st2, ok) =
                  if ltb 0 free
                  then sbuf_actual_recv cf_sbuf_len free io peer.arrivals peer st1
                  else (peer, st1, true) in
                if not ok then some (peer1, st2) else elim (handle_data peer1.tls_pending st2) [
                  | none ↦ none
                  | some (again, st3) ↦ elim again [
                    | true ↦ recv_loop f (suc loopcnt) peer1 st3
                    | false ↦ some (peer1, st3)
                  ]
                ]
          ])

      -- A bounded loop makes cf_sbuf_loopcnt rounds and the one that yields.
      pub sbuf_main_loop : Bool → Peer → Sbuf P → Option (Peer × Sbuf P)
      unfolding allocate_iobuf handle_data recv_loop
      sbuf_main_loop skip_recv peer st =
          if not st.sock
          then some (peer, st)
          else (let (st1, ok) = allocate_iobuf st in
              let fuel = suc (cf_sbuf_loopcnt + length peer.arrivals) in
              if not ok
              then some (peer, st1)
              else if skip_recv
              then elim (handle_data peer.tls_pending st1) [
                | none ↦ none
                | some (again, st2) ↦ elim again [
                  | true ↦ recv_loop fuel 0 peer st2
                  | false ↦ some (peer, st2)
                ]
              ]
              else recv_loop fuel 0 peer st1)
