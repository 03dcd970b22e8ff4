-- ===== src/Varcache/Apply.antt =====
-- varcache_apply of src/varcache.c: which statements are sent, and the packet that holds them.
use pgbouncer.Base.{
  ◌≡◌, ◌≢◌, refl, ◌↔◌, sym, ◌⊎◌, inl, inr, Bool, true, false, List, [], ◌∷◌, ◌++◌, Option, none,
  some, arith, Bytes, Bool-cases, Option-cases,
}
use pgbouncer.Pktbuf.Memory.{Allocator}
use pgbouncer.Pktbuf.Room.{IsValid}
use pgbouncer.Pktbuf.Writes.{Writes, Writes-bind, nothing-Writes, put_bytes-Writes, put_char-Writes}
use pgbouncer.Pktbuf.Frames.{frame, Emits, Appends-Emits, Open-append, finish_packet-Appends}
use pgbouncer.Pktbuf.Generic.{start_packet-Opens}
use pgbouncer.Pktbuf.{PktBuf, finish_packet}
use pgbouncer.Varcache.{
  VarLookup, VarCache, opt_eq, apply_var, apply_vars, quoted_value, put_all, fill_query, put_query,
  varcache_apply, varcache_set_canonical, variable_is_guc_list_quote,
}
use pgbouncer.Varcache.Canonical.{All, opt_eq→eq, eq→opt_eq, set_canonical_agrees}

module _ (quote_literal : Bytes → Option Bytes) where
  apply_var_agree :
      (key : Bytes) (c s : Option Bytes) → c ≡ s → apply_var quote_literal key c s ≡ none
  unfolding apply_var
  apply_var_agree key c s e = rw (eq→opt_eq c s e)

  apply_vars_agree :
      (lks : List VarLookup) (server client : VarCache)
      → All (λ lk. server lk.idx ≡ client lk.idx) lks
      → apply_vars quote_literal lks server client ≡ []
  unfolding apply_vars
  apply_vars_agree [] server client e = refl
  apply_vars_agree (lk ∷ lks) server client e =
      rw (apply_var_agree lk.name (client lk.idx) (server lk.idx) (sym e.0), apply_vars)
        (apply_vars_agree lks server client e.1)

  -- A server and a client that varcache_set_canonical has gone over need no further statement from
  -- varcache_apply.
  pub apply_vars-set_canonical :
      (lks : List VarLookup) (orig server client : VarCache)
      → let r = varcache_set_canonical lks orig server client in
        apply_vars quote_literal lks r.0 r.1 ≡ []
  apply_vars-set_canonical lks orig server client =
      apply_vars_agree lks _ _ (set_canonical_agrees lks orig server client)

  -- A value of a parameter that is no quoted list, where pg_quote_literal fails.
  pub data Unquotable (key : Bytes) : Option Bytes → Type 0 where
    too_long :
        (v : Bytes)
        → variable_is_guc_list_quote key ≡ false
        → quote_literal v ≡ none
        → Unquotable key (some v)

  -- What leaves a parameter without a statement.
  abbrev pub Settled : VarCache → VarCache → VarLookup → Type 0
  Settled server client lk = (client lk.idx ≡ server lk.idx) ⊎ Unquotable lk.name (client lk.idx)

  apply_var-none :
      (key : Bytes) (c s : Option Bytes)
      → apply_var quote_literal key c s ≡ none
      → (c ≡ s) ⊎ Unquotable key c
  unfolding apply_var quoted_value
  apply_var-none key none s h = elim (Bool-cases (opt_eq none s)) [
    | inl e ↦ inl (opt_eq→eq none s e)
    | inr e ↦ cc (rw e at h)
  ]
  apply_var-none key (some v) s h = elim (Bool-cases (opt_eq (some v) s)) [
    | inl e ↦ inl (opt_eq→eq (some v) s e)
    | inr e ↦ elim (Bool-cases (variable_is_guc_list_quote key)) [
      | inl k ↦ ground arith
      | inr k ↦ elim (Option-cases (quote_literal v)) [
        | inl q ↦ inr (too_long v k q)
        | inr (q, e') ↦ ground arith
      ]
    ]
  ]

  none-apply_var :
      (key : Bytes) (c s : Option Bytes)
      → (c ≡ s) ⊎ Unquotable key c
      → apply_var quote_literal key c s ≡ none
  unfolding apply_var quoted_value
  none-apply_var key c s (inl e) = apply_var_agree key c s e
  none-apply_var key _ s (inr (too_long v k q)) = elim (Bool-cases (opt_eq (some v) s)) [
    | inl e ↦ rw e refl
    | inr e ↦ rw (e, k, q) refl
  ]

  -- varcache_apply has no statement to send exactly when for every tracked parameter the server
  -- has the client's value, or that is a value of a parameter other than search_path that
  -- pg_quote_literal fails on.
  pub apply_vars-nil_iff :
      (lks : List VarLookup) (server client : VarCache)
      → (apply_vars quote_literal lks server client ≡ []) ↔ All (Settled server client) lks
  unfolding apply_vars
  apply_vars-nil_iff lks server client = (settled lks, nothing lks)
    where
      settled :
          (ks : List VarLookup)
          → apply_vars quote_literal ks server client ≡ []
          → All (Settled server client) ks
      settled [] h = tt
      settled (lk ∷ ks) h =
          let a = apply_var quote_literal lk.name (client lk.idx) (server lk.idx) in
          elim (Option-cases a) [
            | inl e ↦ (
              apply_var-none lk.name (client lk.idx) (server lk.idx) e,
              settled ks (ground (arith, e)),
            )
            | inr (s, e) ↦ ground (arith, e)
          ]

      nothing :
          (ks : List VarLookup)
          → All (Settled server client) ks
          → apply_vars quote_literal ks server client ≡ []
      nothing [] h = refl
      nothing (lk ∷ ks) h =
          rw (none-apply_var lk.name (client lk.idx) (server lk.idx) h.0, apply_vars)
            (nothing ks h.1)

abbrev pub concat : List Bytes → Bytes
concat [] = []
concat (s ∷ ss) = s ++ concat ss

module _ (heap : Allocator) where
  put_all-Writes :
      (b : PktBuf) (ss : List Bytes) → IsValid b → Writes heap b (concat ss) (put_all heap b ss)
  unfolding put_all
  put_all-Writes b [] v = nothing-Writes heap b v
  put_all-Writes b (s ∷ ss) v =
      Writes-bind heap s (concat ss) _ _ (put_bytes-Writes heap b s v) λ c w. put_all-Writes c ss w

  fill_query-Writes :
      (b : PktBuf) (ss : List Bytes)
      → IsValid b
      → Writes heap b (concat ss ++ (0 ∷ [])) (fill_query heap ss b)
  unfolding fill_query
  fill_query-Writes b ss v =
      Writes-bind heap (concat ss) (0 ∷ []) _ _ (put_all-Writes b ss v)
        λ c w. put_char-Writes heap c 0 w

  abbrev pub Queried : PktBuf → List Bytes → Option (Bool × PktBuf) → Type 0
  Queried pkt ss r =
      (b : PktBuf) × (((ss ≡ []) × (r ≡ some (false, b)))
        ⊎ ((ss ≢ [])
            × (r ≡ some (true, b))
            × Emits heap pkt (frame b'Q' (concat ss ++ (0 ∷ []))) b))

  put_query-Queried :
      (pkt : PktBuf) (ss : List Bytes) → IsValid pkt → Queried pkt ss (put_query heap ss pkt)
  unfolding put_query
  put_query-Queried pkt [] v =
      let (c, e, o) = start_packet-Opens heap pkt b'Q' v in rw e (c, inl (refl, refl))
  put_query-Queried pkt (s ∷ ss) v =
      let (c, e, o) = start_packet-Opens heap pkt b'Q' v in
      let (z, e', p, m) = fill_query-Writes c (s ∷ ss) o.appends.valid in
      rw (e, e')
        (
          finish_packet z,
          inr (
            (λ k. cc),
            refl,
            Appends-Emits heap (frame b'Q' (concat (s ∷ ss) ++ (0 ∷ []))) (
                finish_packet-Appends heap (b'Q' ∷ []) (concat (s ∷ ss) ++ (0 ∷ []))
                  (Open-append heap (b'Q' ∷ []) [] (concat (s ∷ ss) ++ (0 ∷ [])) o p m)),
          ),
        )

  -- varcache_apply on a valid buffer returns; it reports changes exactly when there are
  -- statements, and then either the buffer has one more Query packet with all of them in order, or
  -- it leaves the buffer failed, and then that was failed before, is fixed and too small, would
  -- pass INT_MAX, or realloc failed.
  pub varcache_apply-Queried :
      (quote_literal : Bytes → Option Bytes) (lks : List VarLookup) (pkt : PktBuf)
      (server client : VarCache)
      → IsValid pkt
      → Queried pkt
          (apply_vars quote_literal lks server client)
          (varcache_apply heap quote_literal lks pkt server client)
  unfolding varcache_apply
  varcache_apply-Queried quote_literal lks pkt server client v =
      put_query-Queried pkt (apply_vars quote_literal lks server client) v
