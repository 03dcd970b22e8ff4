-- ===== src/Sbuf/Packets/Consume.antt =====
-- src/sbuf.c: tagging the part of a packet that is there, in the buffer of the stream.
use pgbouncer.Base.{
  ℕ, ◌-◌, ◌≤◌, ◌<◌, ◌≡◌, sym, ap, ◌∙◌, Bytes, [], ◌++◌, arith, length, take, drop, length-drop,
  append_assoc, if◌then◌else◌, if_intro, ◌⊎◌, inl, inr, leb, ◌==◌, length-slice, drop-drop, tests,
}
use pgbouncer.Iobuf.{IoBuf, amount_parse, tag_send, tag_skip}
use pgbouncer.Iobuf.Segments.{IsSane, pending, unparsed, tag_send_lem, tag_skip_lem}
use pgbouncer.Sbuf.Forward.{kept}
use pgbouncer.Sbuf.Owed.{take-part, skip-part, skip-less}
use pgbouncer.Sbuf.Packets.{consume_io}
use pgbouncer.Sbuf.{PktAction, act_send, act_skip}

pub amount-unparsed :
    (cap : ℕ) (io : IoBuf) → IsSane cap io → amount_parse io ≡ length (unparsed io)
unfolding amount_parse
amount-unparsed cap io v = omega (
  arith,
  length-slice io.parse_pos io.recv_pos io.buf v.parse_le_recv
      (omega (arith, v.recv_le_cap, v.allocated)),
  v.parse_le_recv,
  v.recv_le_cap,
  v.small,
)

nothing_pending :
    (cap : ℕ) (io : IoBuf) → IsSane cap io → pending io ≡ [] → io.parse_pos ≡ io.done_pos
nothing_pending cap io v e = omega (
  arith,
  length-slice io.done_pos io.parse_pos io.buf v.done_le_parse
      (omega (arith, v.parse_le_recv, v.recv_le_cap, v.allocated)),
  ap length e,
  v.done_le_parse,
)

-- `n` of the `remain` bytes left of a packet are taken: what was pending and is kept of the packet
-- comes out as it was to.
pub record Taken (cap : ℕ) (action : PktAction) (skip remain n : ℕ) (io : IoBuf) (r : IoBuf × ℕ)
    : Type 0 where
  pub still_sane : IsSane cap r.0
  pub less : unparsed r.0 ≡ drop n (unparsed io)
  pub comes_out :
      (rest : Bytes)
      → pending r.0 ++ kept action r.1 (take (remain - n) (drop n (unparsed io) ++ rest))
        ≡ pending io ++ kept action skip (take remain (unparsed io ++ rest))
  pub all_skipped : action ≡ act_skip → remain ≤ skip → remain - n ≤ r.1

module _ (cap skip remain n : ℕ) (io : IoBuf) (v : IsSane cap io) (fits : n ≤ length (unparsed io))
    (part : n ≤ remain) where
  there : n ≤ amount_parse io
  there = omega (arith, amount-unparsed cap io v, fits)

  send-Taken : Taken cap act_send skip remain n io (consume_io act_send skip n io)
  unfolding consume_io
  send-Taken =
      let (s, p, u) = tag_send_lem cap n io v there in
      record {
        still_sane = s;
        less = u;
        comes_out = λ rest.
            ap (λ p. p ++ take (remain - n) (drop n (unparsed io) ++ rest)) p
            ∙ append_assoc (pending io) (take n (unparsed io))
                (take (remain - n) (drop n (unparsed io) ++ rest))
            ∙ ap (λ b. pending io ++ b) (sym (take-part (unparsed io) rest remain n fits part));
        all_skipped = λ e h. cc;
      }

  module _ (none_pending : pending io ≡ []) where
    all-Taken : n ≤ skip → Taken cap act_skip skip remain n io (tag_skip io n, skip - n)
    all-Taken h =
        let (s, p, u) = tag_skip_lem cap n io v (nothing_pending cap io v none_pending) there in
        record {
          still_sane = s;
          less = u;
          comes_out = λ rest.
              ap (λ p. p ++ drop (skip - n) (take (remain - n) (drop n (unparsed io) ++ rest)))
                (p ∙ sym none_pending)
              ∙ ap (λ b. pending io ++ b)
                  (sym (skip-part (unparsed io) rest remain n fits part skip h));
          all_skipped = λ e k. omega arith;
        }

    -- The first bytes are skipped and the others of the part are sent.
    leftover-Taken :
        (io1 : IoBuf)
        → skip < n
        → IsSane cap io1 × (pending io1 ≡ []) × (unparsed io1 ≡ drop skip (unparsed io))
        → Taken cap act_skip skip remain n io (tag_send io1 (n - skip), 0)
    leftover-Taken io1 h (v1, p1, u1) =
        let enough : n - skip ≤ amount_parse io1 =
          omega (arith, amount-unparsed cap io1 v1, ap length u1, length-drop skip (unparsed io)) in
        let (s, p, u) = tag_send_lem cap (n - skip) io1 v1 enough in
        record {
          still_sane = s;
          less =
              u
              ∙ ap (drop (n - skip)) u1
              ∙ drop-drop (n - skip) skip (unparsed io)
              ∙ ap (λ k. drop k (unparsed io)) (omega arith);
          comes_out = λ rest.
              let later = take (remain - n) (drop n (unparsed io) ++ rest) in
              ap (λ p. p ++ later) p
              ∙ rw (p1, u1, none_pending)
                  (sym (skip-less (unparsed io) rest remain n fits part skip (omega arith)));
          all_skipped = λ e k. omega arith;
        }

    skip-Taken : Taken cap act_skip skip remain n io (consume_io act_skip skip n io)
    unfolding consume_io
    skip-Taken =
        if_intro (Taken cap act_skip skip remain n io) (leb n skip) _ _
          (λ h. all-Taken (omega tests))
          λ more. leftover-Taken (if skip == 0 then io else tag_skip io skip) (ground arith) (
            if_intro
              (λ io1.
                IsSane cap io1 × (pending io1 ≡ []) × (unparsed io1 ≡ drop skip (unparsed io)))
              (skip == 0) io (tag_skip io skip)
              (λ e.
                let none_skipped : 0 ≡ skip = ground arith in
                (v, none_pending, ap (λ k. drop k (unparsed io)) none_skipped))
              λ _.
                tag_skip_lem cap skip io v (nothing_pending cap io v none_pending)
                  (ground (arith, there)))

  pub consume_io-Taken :
      (action : PktAction)
      → ((action ≡ act_send) ⊎ (action ≡ act_skip))
      → (action ≡ act_skip → pending io ≡ [])
      → Taken cap action skip remain n io (consume_io action skip n io)
  unfolding consume_io
  consume_io-Taken action (inl e) h = rw e send-Taken
  consume_io-Taken action (inr e) h = rw e (skip-Taken (h e))
