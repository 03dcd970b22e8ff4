-- ===== src/Sbuf/Forward.antt =====
-- src/sbuf.c: what a stream is to be turned into, packet by packet, whatever parts it arrives in.
use pgbouncer.Base.{
  ℕ, zero, suc, ◌≤◌, ◌<◌, ◌≡◌, refl, sym, ap, ◌∙◌, Bool, true, false, Bytes, [], ◌∷◌, ◌++◌, Option,
  none, some, arith, length, take, drop, length-drop, Option-cases, inl, inr,
}
use pgbouncer.Sbuf.{PktAction, act_send, act_skip, act_call, act_unset}

-- What the handler decides at the start of a packet: its length, how much of it is skipped, if any
-- is, the packets of its own before or behind it, and its own state from then on.
pub record Plan (P : Type 0) : Type 0 where
  pub total : ℕ
  pub action : PktAction
  pub skip : ℕ
  pub extra : Bytes
  pub after : Bool
  pub next : P

-- What is forwarded of the bytes left of a packet.
abbrev pub kept : PktAction → ℕ → Bytes → Bytes
kept act_send skip bs = bs
kept act_skip skip bs = drop skip bs
kept act_call skip bs = []
kept act_unset skip bs = []

abbrev pub mixed : Bool → Bytes → Bytes → Bytes
mixed true extra bs = bs ++ extra
mixed false extra bs = extra ++ bs

abbrev pub packet_out : {P : Type 0} → Plan P → Bytes → Bytes
packet_out p bs = mixed p.after p.extra (kept p.action p.skip (take p.total bs))

-- How a stream is cut into packets: the decision needs the handler's state and the start of a
-- packet only.
pub record IsFraming {P : Type 0} (decide : P → Bytes → Option (Plan P)) : Type 0 where
  pub no_packet : (h : P) → decide h [] ≡ none
  pub progress : (h : P) (bs : Bytes) (p : Plan P) → decide h bs ≡ some p → 0 < p.total
  pub stable :
      (h : P) (bs cs : Bytes) (p : Plan P) → decide h bs ≡ some p → decide h (bs ++ cs) ≡ some p

abbrev packet_then : {P : Type 0} → (P → Bytes → Bytes) → Bytes → Option (Plan P) → Bytes
packet_then later bs none = []
packet_then later bs (some p) = packet_out p bs ++ later p.next (drop p.total bs)

module _ {P : Type 0} (decide : P → Bytes → Option (Plan P)) where
  pub forward : ℕ → P → Bytes → Bytes
  forward zero h bs = []
  forward (suc n) h bs = packet_then (forward n) bs (decide h bs)

  -- All that comes out for an input, as far as it goes, from a state of the handler on.
  pub forwards : P → Bytes → Bytes
  unfolding forward
  forwards h bs = forward (length bs) h bs

  pub forwards_nil : (h : P) → forwards h [] ≡ []
  unfolding forwards forward
  forwards_nil h = refl

  module _ (framing : IsFraming decide) where
    fuel_enough :
        (n m : ℕ) (s : P) (bs : Bytes)
        → length bs ≤ n
        → length bs ≤ m
        → forward n s bs ≡ forward m s bs
    unfolding forward
    fuel_enough zero zero s bs h k = refl
    fuel_enough zero (suc m) s [] h k = sym (ap (packet_then (forward m) []) (framing.no_packet s))
    fuel_enough zero (suc m) s (b ∷ bs) h k = absurd (omega arith)
    fuel_enough (suc n) zero s [] h k = ap (packet_then (forward n) []) (framing.no_packet s)
    fuel_enough (suc n) zero s (b ∷ bs) h k = absurd (omega arith)
    fuel_enough (suc n) (suc m) s bs h k = elim (Option-cases (decide s bs)) [
      | inl e ↦ ap (packet_then (forward n) bs) e ∙ sym (ap (packet_then (forward m) bs) e)
      | inr (p, e) ↦
          let step =
            fuel_enough n m p.next (drop p.total bs)
              (omega (arith, length-drop p.total bs, framing.progress s bs p e))
              (omega (arith, length-drop p.total bs, framing.progress s bs p e)) in
          ap (packet_then (forward n) bs) e
          ∙ ap (λ out. packet_out p bs ++ out) step
          ∙ sym (ap (packet_then (forward m) bs) e)
    ]

    pub forwards-packet :
        (s : P) (bs : Bytes) (p : Plan P)
        → decide s bs ≡ some p
        → forwards s bs ≡ packet_out p bs ++ forwards p.next (drop p.total bs)
    unfolding forwards forward
    forwards-packet s bs p e =
        fuel_enough (length bs) (suc (length bs)) s bs (omega arith) (omega arith)
        ∙ ap (packet_then (forward (length bs)) bs) e
        ∙ ap (λ out. packet_out p bs ++ out)
            (fuel_enough (length bs) (length (drop p.total bs)) p.next (drop p.total bs)
              (omega (arith, length-drop p.total bs)) (omega arith))
