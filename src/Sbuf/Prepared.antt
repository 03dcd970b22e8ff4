-- ===== src/Sbuf/Prepared.antt =====
-- src/sbuf.c: the functions by which a handler sets up a packet, and the contract.
use pgbouncer.Base.{
  ℕ, ◌≤◌, ◌<◌, ◌≡◌, refl, sym, ap, ◌∙◌, Bool, true, false, Bytes, [], ◌++◌, Option, some, ◌⊎◌, inl,
  inr,
}
use pgbouncer.Sbuf.Forward.{Plan}
use pgbouncer.Sbuf.Sending.{unparsed_bytes, is_open, AllSane}
use pgbouncer.Sbuf.Contract.{Accepted}
use pgbouncer.Sbuf.{
  Sbuf, act_send, act_skip, pending_bytes, sbuf_prepare_send, sbuf_prepare_skip_then_send_leftover,
  sbuf_queue_packet, sbuf_prepare_skip,
}

module _ {P : Type 0} (decide : P → Bytes → Option (Plan P)) (cap : ℕ) (st : Sbuf P)
    (sane : AllSane cap st.io) (opened : is_open st.io ≡ true) (none_left : st.extra_packets ≡ [])
    (p : Plan P) (decided : decide st.handler (unparsed_bytes st.io) ≡ some p)
    (some_there : 0 < p.total) (dst : Bool) where
  -- The place of the handler's own packets and its new state may be set first.
  abbrev pub placed : Sbuf P
  placed = record st { extra_packet_queue_after = p.after; handler = p.next }

  -- A packet is sent as it is.
  pub prepare_send-Accepted :
      p.action ≡ act_send
      → p.extra ≡ []
      → Accepted decide cap st (sbuf_prepare_send dst p.total placed)
  unfolding sbuf_prepare_send
  prepare_send-Accepted sends none_extra = record {
    plan = p;
    decided = decided;
    mid = record {
      sane = sane;
      opened = opened;
      started = some_there;
      plain = inl refl;
      in_order = inl none_left;
    };
    same_unparsed = refl;
    same_sent = refl;
    action_set = sym sends;
    remain_set = refl;
    next_set = refl;
    skip_set = λ e. let contra : act_send ≡ act_skip = sym sends ∙ e in cc;
    extra_set = none_left ∙ sym none_extra;
    after_set = refl;
  }

  -- A packet is skipped.
  pub prepare_skip-Accepted :
      p.action ≡ act_skip
      → p.skip ≡ p.total
      → p.extra ≡ []
      → Accepted decide cap st (sbuf_prepare_skip p.total placed)
  unfolding sbuf_prepare_skip
  prepare_skip-Accepted skips whole none_extra = record {
    plan = p;
    decided = decided;
    mid = record {
      sane = sane;
      opened = opened;
      started = some_there;
      plain = inr refl;
      in_order = inl none_left;
    };
    same_unparsed = refl;
    same_sent = refl;
    action_set = sym skips;
    remain_set = refl;
    next_set = refl;
    skip_set = λ _. sym whole;
    extra_set = none_left ∙ sym none_extra;
    after_set = refl;
  }

  -- The start of a packet is replaced by a packet of the handler's own, which goes before the rest
  -- with nothing pending, or behind when there is no rest.
  pub replaced-Accepted :
      p.action ≡ act_skip
      → ((pending_bytes st.io ≡ []) × (p.after ≡ false)) ⊎ ((p.after ≡ true) × (p.total ≤ p.skip))
      → Accepted decide cap st (
          sbuf_queue_packet dst p.extra
            (sbuf_prepare_skip_then_send_leftover dst p.skip p.total placed))
  unfolding sbuf_queue_packet sbuf_prepare_skip_then_send_leftover
  replaced-Accepted skips place = record {
    plan = p;
    decided = decided;
    mid = record {
      sane = sane;
      opened = opened;
      started = some_there;
      plain = inr refl;
      in_order = elim place [
        | inl (nothing, before) ↦ inr (inl (nothing, before))
        | inr (behind, all) ↦ inr (inr (behind, inl (inr (refl, all))))
      ];
    };
    same_unparsed = refl;
    same_sent = refl;
    action_set = sym skips;
    remain_set = refl;
    next_set = refl;
    skip_set = λ _. refl;
    extra_set = ap (λ x. x ++ p.extra) none_left;
    after_set = refl;
  }
