-- ===== src/Sbuf/Owed.antt =====
-- src/sbuf.c: what the destination is to get of a stream, from a state of the buffer on.
use pgbouncer.Base.{
  ℕ, zero, suc, ◌+◌, ◌-◌, ◌≤◌, ◌<◌, ◌≡◌, refl, sym, ap, ◌∙◌, subst, Bool, true, false, Bytes, [],
  ◌∷◌, ◌++◌, Option, none, arith, length, take, drop, length-take, take-append-drop, append_assoc,
  append-nil, take-append_add, drop-append_add, take-drop, ◌⊎◌, inl, inr,
}
use pgbouncer.Sbuf.Forward.{Plan, kept, mixed, forwards}
use pgbouncer.Sbuf.Sending.{unparsed_bytes, AllSane, flow, Sends, Closed, Stopped}
use pgbouncer.Sbuf.{PktAction, Sbuf, act_send, act_skip, act_call, act_unset, pending_bytes}

pub drop-append_le : (n : ℕ) (xs ys : Bytes) → n ≤ length xs → drop n (xs ++ ys) ≡ drop n xs ++ ys
drop-append_le zero xs ys h = refl
drop-append_le (suc n) [] ys h = absurd (omega arith)
drop-append_le (suc n) (x ∷ xs) ys h = drop-append_le n xs ys (omega arith)

pub kept-nil : (action : PktAction) (skip : ℕ) → kept action skip [] ≡ []
kept-nil act_send skip = refl
kept-nil act_skip zero = refl
kept-nil act_skip (suc skip) = refl
kept-nil act_call skip = refl
kept-nil act_unset skip = refl

drop_past : (n : ℕ) (bs : Bytes) → length bs ≤ n → drop n bs ≡ []
drop_past zero [] h = refl
drop_past (suc n) [] h = refl
drop_past zero (b ∷ bs) h = absurd (omega arith)
drop_past (suc n) (b ∷ bs) h = drop_past n bs (omega arith)

-- Sending leaves what is owed as it is, when what is left of a packet is not to go before the
-- extra packets.
owed_flow :
    (after : Bool) (x p k : Bytes)
    → (after ≡ true → (x ≡ []) ⊎ (k ≡ []))
    → mixed after x (p ++ k) ≡ mixed after x p ++ k
owed_flow false x p k h = sym (append_assoc x p k)
owed_flow true x p k h = elim (h refl) [
  | inl e ↦ rw e (append-nil (p ++ k) ∙ ap (λ q. q ++ k) (sym (append-nil p)))
  | inr e ↦ rw e (ap (λ q. q ++ x) (append-nil p) ∙ sym (append-nil (p ++ x)))
]

-- A packet of `remain` bytes of which `n` are taken, where no more than `remain` and than there
-- are.
module _ (u rest : Bytes) (remain n : ℕ) (fits : n ≤ length u) (part : n ≤ remain) where
  taken_length : length (take n u) ≡ n
  taken_length = omega (arith, length-take n u)

  whole : u ++ rest ≡ take n u ++ (drop n u ++ rest)
  whole = ap (λ u. u ++ rest) (sym (take-append-drop n u)) ∙ append_assoc (take n u) (drop n u) rest

  pub take-part : take remain (u ++ rest) ≡ take n u ++ take (remain - n) (drop n u ++ rest)
  take-part =
      ap (take remain) whole
      ∙ take-append_add (remain - n) (take n u) (drop n u ++ rest) (omega (arith, taken_length))

  pub drop-part : drop remain (u ++ rest) ≡ drop (remain - n) (drop n u ++ rest)
  drop-part =
      ap (drop remain) whole
      ∙ drop-append_add (remain - n) (take n u) (drop n u ++ rest) (omega (arith, taken_length))

  -- What is kept of a packet whose first bytes are skipped, when all of the part is among them.
  pub skip-part :
      (skip : ℕ)
      → n ≤ skip
      → drop skip (take remain (u ++ rest)) ≡ drop (skip - n) (take (remain - n) (drop n u ++ rest))
  skip-part skip h =
      ap (drop skip) take-part
      ∙ drop-append_add (skip - n) (take n u) (take (remain - n) (drop n u ++ rest))
          (omega (arith, taken_length))

  pub skip-less :
      (skip : ℕ)
      → skip ≤ n
      → drop skip (take remain (u ++ rest))
        ≡ take (n - skip) (drop skip u) ++ take (remain - n) (drop n u ++ rest)
  skip-less skip h =
      ap (drop skip) take-part
      ∙ drop-append_le skip (take n u) _ (omega (arith, taken_length))
      ∙ ap (λ a. a ++ take (remain - n) (drop n u ++ rest))
          (let e : skip + (n - skip) ≡ n = omega arith in
            ap (λ k. drop skip (take k u)) (sym e) ∙ sym (take-drop (n - skip) skip u))

module _ {P : Type 0} where
  abbrev pub body : Sbuf P → Bytes → Bytes
  body st input = kept st.pkt_action st.skip_remain (take st.pkt_remain input)

  -- Nothing is left of the packet that would be sent.
  abbrev pub Quiet : Sbuf P → Type 0
  Quiet st = (st.pkt_remain ≡ 0) ⊎ ((st.pkt_action ≡ act_skip) × (st.pkt_remain ≤ st.skip_remain))

  pub record Fits (cap : ℕ) (st : Sbuf P) : Type 0 where
    pub sane : AllSane cap st.io
    pub in_order : st.extra_packet_queue_after ≡ true → (st.extra_packets ≡ []) ⊎ Quiet st
    pub plain : 0 < st.pkt_remain → (st.pkt_action ≡ act_send) ⊎ (st.pkt_action ≡ act_skip)

  pub body-Quiet : (st : Sbuf P) (input : Bytes) → Quiet st → body st input ≡ []
  body-Quiet st input (inl e) =
      ap (λ n. kept st.pkt_action st.skip_remain (take n input)) e
      ∙ kept-nil st.pkt_action st.skip_remain
  body-Quiet st input (inr (e, h)) =
      ap (λ action. kept action st.skip_remain (take st.pkt_remain input)) e
      ∙ drop_past st.skip_remain (take st.pkt_remain input)
          (omega (arith, length-take st.pkt_remain input))

module _ {P : Type 0} (decide : P → Bytes → Option (Plan P)) where
  -- The destination has `sent`. It gets the extra packets with what is pending and what is left of
  -- the packet, then what the rest of the input comes to.
  abbrev pub owed : Sbuf P → Bytes → Bytes
  owed st rest =
      let input = unparsed_bytes st.io ++ rest in
      st.sent
      ++ (mixed st.extra_packet_queue_after st.extra_packets (pending_bytes st.io ++ body st input)
          ++ forwards decide st.handler (drop st.pkt_remain input))

  pub owed-flow :
      (st : Sbuf P) (rest : Bytes)
      → (st.extra_packet_queue_after ≡ true
          → (st.extra_packets ≡ []) ⊎ (body st (unparsed_bytes st.io ++ rest) ≡ []))
      → owed st rest
        ≡ flow st
          ++ (body st (unparsed_bytes st.io ++ rest)
              ++ forwards decide st.handler (drop st.pkt_remain (unparsed_bytes st.io ++ rest)))
  owed-flow st rest h =
      let input = unparsed_bytes st.io ++ rest in
      let later = forwards decide st.handler (drop st.pkt_remain input) in
      let m = mixed st.extra_packet_queue_after st.extra_packets (pending_bytes st.io) in
      ap (λ x. st.sent ++ (x ++ later))
        (owed_flow st.extra_packet_queue_after st.extra_packets (pending_bytes st.io)
          (body st input) h)
      ∙ ap (λ x. st.sent ++ x) (append_assoc m (body st input) later)
      ∙ sym (append_assoc st.sent m (body st input ++ later))

  -- The stream goes on with the same debt.
  abbrev pub Steps : ℕ → Sbuf P → Sbuf P → Type 0
  Steps cap st st' = Fits cap st' × ((rest : Bytes) → owed st' rest ≡ owed st rest)

  -- The stream is closed, and the destination has got a part of what it was to get.
  pub record Ended (st st' : Sbuf P) : Type 0 where
    pub shut : st'.sock ≡ false
    pub freed : st'.io ≡ none
    pub part : (rest : Bytes) → (lost : Bytes) × (st'.sent ++ lost ≡ owed st rest)

  abbrev pub Good : ℕ → Sbuf P → Sbuf P → Type 0
  Good cap st st' = Steps cap st st' ⊎ Ended st st'

  pub Steps-trans : (cap : ℕ) (a b c : Sbuf P) → Steps cap a b → Steps cap b c → Steps cap a c
  Steps-trans cap a b c (v, h) (w, k) = (w, λ rest. k rest ∙ h rest)

  pub Steps-Good : (cap : ℕ) (a b c : Sbuf P) → Steps cap a b → Good cap b c → Good cap a c
  Steps-Good cap a b c h (inl k) = inl (Steps-trans cap a b c h k)
  Steps-Good cap a b c h (inr k) = inr (record {
    shut = k.shut;
    freed = k.freed;
    part = λ rest. let (lost, e) = k.part rest in (lost, e ∙ h.1 rest);
  })

  order_kept :
      (cap : ℕ) (st : Sbuf P) (input : Bytes)
      → Fits cap st
      → st.extra_packet_queue_after ≡ true
      → (st.extra_packets ≡ []) ⊎ (body st input ≡ [])
  order_kept cap st input v e = elim (v.in_order e) [
    | inl none_left ↦ inl none_left
    | inr quiet ↦ inr (body-Quiet st input quiet)
  ]

  Sends-Quiet : (cap : ℕ) (st st' : Sbuf P) → Sends cap st st' → Quiet st → Quiet st'
  Sends-Quiet cap st st' h (inl e) = inl (h.same_remain ∙ e)
  Sends-Quiet cap st st' h (inr (e, le)) =
      inr (h.same_action ∙ e, rw (h.same_remain, h.same_skip) le)

  Sends-Fits : (cap : ℕ) (st st' : Sbuf P) → Fits cap st → Sends cap st st' → Fits cap st'
  Sends-Fits cap st st' v h = record {
    sane = h.still_sane v.sane;
    in_order = λ e. elim (v.in_order (sym h.same_after ∙ e)) [
      | inl none_left ↦ inl (h.no_more_extra none_left)
      | inr quiet ↦ inr (Sends-Quiet cap st st' h quiet)
    ];
    plain = λ some_left. rw h.same_action (v.plain (subst (λ n. 0 < n) h.same_remain some_left));
  }

  pub Sends-Steps : (cap : ℕ) (st st' : Sbuf P) → Fits cap st → Sends cap st st' → Steps cap st st'
  Sends-Steps cap st st' v h =
      let w = Sends-Fits cap st st' v h in
      (
        w,
        λ rest.
            owed-flow st' rest (order_kept cap st' (unparsed_bytes st'.io ++ rest) w)
            ∙ rw
                (
                  h.same_flow, h.same_handler, h.same_unparsed, h.same_action, h.same_remain,
                  h.same_skip,
                )
                refl
            ∙ sym (owed-flow st rest (order_kept cap st (unparsed_bytes st.io ++ rest) v)),
      )

  pub Closed-Ended : (cap : ℕ) (st st' : Sbuf P) → Fits cap st → Closed st st' → Ended st st'
  Closed-Ended cap st st' v k = record {
    shut = k.shut;
    freed = k.freed;
    part = λ rest.
        let input = unparsed_bytes st.io ++ rest in
        let later = body st input ++ forwards decide st.handler (drop st.pkt_remain input) in
        (
          k.lost ++ later,
          sym (append_assoc st'.sent k.lost later)
              ∙ ap (λ x. x ++ later) k.part
              ∙ sym (owed-flow st rest (order_kept cap st input v)),
        );
  }

  pub Stopped-Good :
      (cap : ℕ) (st st' : Sbuf P) → Fits cap st → Stopped cap st st' → Good cap st st'
  Stopped-Good cap st st' v (inl h) = inl (Sends-Steps cap st st' v h)
  Stopped-Good cap st st' v (inr k) = inr (Closed-Ended cap st st' v k)
