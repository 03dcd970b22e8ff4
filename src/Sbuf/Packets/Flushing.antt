-- ===== src/Sbuf/Packets/Flushing.antt =====
-- src/sbuf.c: sbuf_send_pending_iobuf, sbuf_send_pending_extra_packets and the two together.
use pgbouncer.Base.{
  ℕ, zero, suc, ◌+◌, ◌≤◌, ◌≡◌, refl, sym, ap, ◌∙◌, Bool, true, false, Bytes, [], ◌∷◌, ◌++◌, Option,
  none, some, arith, length, take, drop, take-append-drop, append_assoc, if_intro, List, ◌⊎◌, inl,
  inr, ◌==◌, slice, drop-drop, length-slice, take,
}
use pgbouncer.Iobuf.{IoBuf}
use pgbouncer.Iobuf.Segments.{pending}
use pgbouncer.Sbuf.Forward.{mixed}
use pgbouncer.Sbuf.Sending.{
  AllSane, Sends, Sends-refl, Sent, HandlesFailure, Source, Sent-true, Sent-false, Sent-first,
  send_from_lem,
}
use pgbouncer.Sbuf.Packets.{flush_extra}
use pgbouncer.Sbuf.{
  Sbuf, Host, Answer, took, would_block, broken, pending_bytes, sent_from_io, sent_from_extra,
  send_from, sbuf_send_pending_iobuf, sbuf_send_pending_extra_packets,
}

split_first : (s p q : Bytes) (n : ℕ) → (s ++ take n p) ++ (drop n p ++ q) ≡ s ++ (p ++ q)
split_first s p q n =
    append_assoc s (take n p) (drop n p ++ q)
    ∙ ap (λ r. s ++ r)
        (sym (append_assoc (take n p) (drop n p) q) ∙ ap (λ r. r ++ q) (take-append-drop n p))

split_all : (s p : Bytes) (n : ℕ) → (s ++ take n p) ++ drop n p ≡ s ++ p
split_all s p n = append_assoc s (take n p) (drop n p) ∙ ap (λ r. s ++ r) (take-append-drop n p)

mixed-take :
    (after : Bool) (x p s : Bytes) (n : ℕ)
    → (x ≡ []) ⊎ (after ≡ true)
    → (s ++ take n p) ++ mixed after x (drop n p) ≡ s ++ mixed after x p
mixed-take true x p s n h = split_first s p x n
mixed-take false x p s n (inl e) = rw e (split_all s p n)
mixed-take false x p s n (inr e) = cc

mixed-drop :
    (after : Bool) (x p s : Bytes) (n : ℕ)
    → (p ≡ []) ⊎ (after ≡ false)
    → (s ++ take n x) ++ mixed after (drop n x) p ≡ s ++ mixed after x p
mixed-drop false x p s n h = split_first s x p n
mixed-drop true x p s n (inl e) = rw e (split_all s x n)
mixed-drop true x p s n (inr e) = cc

drop-nil : (n : ℕ) (bs : Bytes) → bs ≡ [] → drop n bs ≡ []
drop-nil n bs e = rw e (drop_nil n)
  where
    drop_nil : (n : ℕ) → drop {A = ℕ} n [] ≡ []
    drop_nil zero = refl
    drop_nil (suc n) = refl

pub nil_of_length : (bs : Bytes) → length bs ≡ 0 → bs ≡ []
nil_of_length [] e = refl
nil_of_length (b ∷ bs) e = absurd (omega arith)

module _ {P : Type 0} (cap : ℕ) where
  -- Pending bytes may be sent when no extra packet is to go before them.
  abbrev pub IoTurn : Sbuf P → Type 0
  IoTurn st = ((st.extra_packets ≡ []) ⊎ (st.extra_packet_queue_after ≡ true)) × AllSane cap st.io

  abbrev pub ExtraTurn : Sbuf P → Type 0
  ExtraTurn st =
      ((pending_bytes st.io ≡ []) ⊎ (st.extra_packet_queue_after ≡ false)) × AllSane cap st.io

  io_moves :
      (o : Option IoBuf) (st : Sbuf P) (n : ℕ)
      → IoTurn (record st { io = o })
      → n ≤ length (pending_bytes o)
      → Sends cap (record st { io = o }) (sent_from_io n (record st { io = o }))
  io_moves none st n turn h = Sends-refl cap (record st { io = none })
  io_moves (some io) st n (turn, sane) h =
      let e : slice io.buf (io.done_pos + n) io.parse_pos ≡ drop n (pending io) =
        sym (drop-drop n io.done_pos (take io.parse_pos io.buf)) in
      record {
        same_flow =
            ap
              (λ p.
                (st.sent ++ take n (pending io))
                ++ mixed st.extra_packet_queue_after st.extra_packets p)
              e
            ∙ mixed-take st.extra_packet_queue_after st.extra_packets (pending io) st.sent n turn;
        same_unparsed = refl;
        same_open = refl;
        same_action = refl;
        same_remain = refl;
        same_skip = refl;
        same_handler = refl;
        same_after = refl;
        no_more_extra = λ e. e;
        no_more_pending = λ nil. e ∙ drop-nil n (pending io) nil;
        still_sane = λ s. record {
          done_le_parse = omega (
            arith,
            length-slice io.done_pos io.parse_pos io.buf s.done_le_parse
                (omega (arith, s.parse_le_recv, s.recv_le_cap, s.allocated)),
            s.done_le_parse,
          );
          parse_le_recv = s.parse_le_recv;
          recv_le_cap = s.recv_le_cap;
          allocated = s.allocated;
          small = s.small;
        };
      }

  io_still :
      (o : Option IoBuf) (st : Sbuf P) (n : ℕ)
      → IoTurn (record st { io = o })
      → n ≤ length (pending_bytes o)
      → IoTurn (sent_from_io n (record st { io = o }))
  io_still none st n turn h = turn
  io_still (some io) st n (turn, sane) h =
      (turn, (io_moves (some io) st n (turn, sane) h).still_sane sane)

  io_Source : Source cap (λ st. pending_bytes st.io) sent_from_io IoTurn
  io_Source = record {
    moves = λ st. io_moves st.io st;
    still = λ st. io_still st.io st;
    answered = λ st later turn. turn;
    same_waiting = λ st later. refl;
  }

  extra_Source : Source cap (λ st. st.extra_packets) sent_from_extra ExtraTurn
  extra_Source = record {
    moves = λ st n turn h. record {
      same_flow =
          mixed-drop st.extra_packet_queue_after st.extra_packets (pending_bytes st.io) st.sent n
            turn.0;
      same_unparsed = refl;
      same_open = refl;
      same_action = refl;
      same_remain = refl;
      same_skip = refl;
      same_handler = refl;
      same_after = refl;
      no_more_extra = drop-nil n st.extra_packets;
      no_more_pending = λ e. e;
      still_sane = λ s. s;
    };
    still = λ st n turn h. turn;
    answered = λ st later turn. turn;
    same_waiting = λ st later. refl;
  }

module _ {P : Type 0} (cap : ℕ) (host : Host P) (fails : HandlesFailure cap host) where
  pub send_pending_iobuf-Sent :
      (st : Sbuf P)
      → IoTurn cap st
      → Sent cap
          (λ st'. (length (pending_bytes st'.io) ≡ 0) × IoTurn cap st')
          st
          (sbuf_send_pending_iobuf host st)
  unfolding sbuf_send_pending_iobuf
  send_pending_iobuf-Sent st turn =
      send_from_lem cap host fails (λ st. pending_bytes st.io) sent_from_io (IoTurn cap)
        (io_Source cap) st.answers st turn

  send_pending_extra_packets-Sent :
      (st : Sbuf P)
      → ExtraTurn cap st
      → Sent cap
          (λ st'. (length st'.extra_packets ≡ 0) × ExtraTurn cap st')
          st
          (sbuf_send_pending_extra_packets host st)
  unfolding sbuf_send_pending_extra_packets
  send_pending_extra_packets-Sent st turn =
      send_from_lem cap host fails (λ st. st.extra_packets) sent_from_extra (ExtraTurn cap)
        (extra_Source cap) st.answers st turn

  extra_done :
      (st : Sbuf P) (r : Sbuf P × Bool)
      → Sent cap (λ st'. (length st'.extra_packets ≡ 0) × ExtraTurn cap st') st r
      → Sent cap (λ st'. (st'.extra_packets ≡ []) × AllSane cap st'.io) st r
  extra_done st (st', true) (sends, (done, turn)) =
      (sends, (nil_of_length st'.extra_packets done, turn.1))
  extra_done st (st', false) h = h

  -- Extra packets that are to go behind the pending bytes wait for those.
  pub flush_extra-Sent :
      (st : Sbuf P)
      → AllSane cap st.io
      → Sent cap (λ st'. (st'.extra_packets ≡ []) × AllSane cap st'.io) st (flush_extra host st)
  unfolding flush_extra
  flush_extra-Sent st sane =
      let Done : Sbuf P → Type 0 = λ st'. (st'.extra_packets ≡ []) × AllSane cap st'.io in
      let extra = λ (st1 : Sbuf P) (turn : ExtraTurn cap st1).
        extra_done st1 (sbuf_send_pending_extra_packets host st1)
          (send_pending_extra_packets-Sent st1 turn) in
      if_intro (Sent cap Done st) (length st.extra_packets == 0) _ _
        (λ e. (Sends-refl cap st, (nil_of_length st.extra_packets (ground arith), sane)))
        λ _.
          if_intro (Sent cap Done st) st.extra_packet_queue_after _ _
            (λ behind.
              let Waited : Sbuf P → Type 0 =
                λ st'. (length (pending_bytes st'.io) ≡ 0) × IoTurn cap st' in
              let io = send_pending_iobuf-Sent st (inr behind, sane) in
              let r = sbuf_send_pending_iobuf host st in
              if_intro (Sent cap Done st) r.1 _ _
                (λ ok.
                  let (sends, (done, turn)) = Sent-true cap Waited st r io ok in
                  Sent-first cap Done st r.0 _ sends
                    (extra r.0 (inl (nil_of_length (pending_bytes r.0.io) done), turn.1)))
                λ not_ok. Sent-false cap Waited st r io not_ok)
            λ before. extra st (inr before, sane)

  none_pending :
      (answers : List Answer) (st : Sbuf P)
      → length (pending_bytes st.io) ≡ 0
      → send_from host (λ st. pending_bytes st.io) sent_from_io answers st ≡ (st, true)
  unfolding send_from
  none_pending [] st e = rw e refl
  none_pending (took n ∷ later) st e = rw e refl
  none_pending (would_block ∷ later) st e = rw e refl
  none_pending (broken ∷ later) st e = rw e refl

  pub send_pending_iobuf-nothing :
      (st : Sbuf P) → pending_bytes st.io ≡ [] → sbuf_send_pending_iobuf host st ≡ (st, true)
  unfolding sbuf_send_pending_iobuf
  send_pending_iobuf-nothing st e = none_pending st.answers st (ap length e)
