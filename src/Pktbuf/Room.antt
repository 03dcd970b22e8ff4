-- ===== src/Pktbuf/Room.antt =====
-- make_room of src/pktbuf.c.
use pgbouncer.Base.{
  ℕ, zero, suc, ◌+◌, ◌*◌, ◌≤◌, ◌<◌, ◌≡◌, refl, ◌⊎◌, inl, inr, true, false, Option, none, some,
  arith, Bytes, length, take, Bool-cases, Option-cases, tests, if_intro, ltb, leb, ◌>>=◌,
}
use pgbouncer.Pktbuf.Memory.{Allocator}
use pgbouncer.Pktbuf.{PktBuf, int_max, grow_len, reallocate, make_room}

-- The representation invariant. A growing buffer of no bytes would be doubled for ever.
pub record IsValid (b : PktBuf) : Type 0 where
  pub allocated : length b.buf ≡ b.buf_len
  pub written : b.write_pos ≤ b.buf_len
  pub small : b.buf_len ≤ int_max
  pub grows : (b.fixed_buf ≡ true) ⊎ (0 < b.buf_len)

abbrev pub contents : PktBuf → Bytes
contents b = take b.write_pos b.buf

abbrev doubled : ℕ → ℕ → ℕ
doubled zero n = n
doubled (suc f) n = doubled f (n * 2)

-- What the loop ends with: enough room, and a length that an int holds.
abbrev Grown : ℕ → ℕ → Option ℕ → Type 0
Grown newlen need o = (r : ℕ) × (o ≡ some r) × (need ≤ r) × (newlen ≤ r) × (r ≤ int_max)

grow_len-Grown :
    (f newlen need : ℕ)
    → newlen ≤ int_max
    → need ≤ int_max
    → need ≤ doubled f newlen
    → Grown newlen need (grow_len (suc f) newlen need)
unfolding grow_len
grow_len-Grown zero newlen need h k e = (newlen, ground arith, e, omega arith, h)
grow_len-Grown (suc f) newlen need h k e = elim (Bool-cases (ltb newlen need)) [
  | inr stop ↦ rw stop (newlen, refl, omega tests, omega arith, h)
  | inl go ↦ rw go (elim (Bool-cases (ltb int_max (newlen * 2))) [
    | inl over ↦ rw over (need, refl, omega arith, omega tests, k)
    | inr fits ↦ rw fits (
        let (r, e', a, b, c) = grow_len-Grown f (newlen * 2) need (omega tests) k e in
        (r, e', a, omega arith, c))
  ])
]

-- Why an operation that needs `n` more bytes leaves the buffer failed.
pub data Fails (heap : Allocator) (b : PktBuf) (n : ℕ) : Type 0 where
  was_failed : b.failed ≡ true → Fails heap b n
  no_room : b.fixed_buf ≡ true → b.buf_len < b.write_pos + n → Fails heap b n
  too_long : int_max < b.write_pos + n → Fails heap b n
  no_memory : (m : Bytes) (k : ℕ) → heap.realloc m k ≡ none → Fails heap b n

-- The same contents with `n` free bytes behind them, or a failed buffer and the reason.
pub record Room (heap : Allocator) (b : PktBuf) (n : ℕ) (b' : PktBuf) : Type 0 where
  pub valid : IsValid b'
  pub contents_kept : contents b' ≡ contents b
  pub write_pos_kept : b'.write_pos ≡ b.write_pos
  pub pktlen_pos_kept : b'.pktlen_pos ≡ b.pktlen_pos
  pub fixed_buf_kept : b'.fixed_buf ≡ b.fixed_buf
  pub buf_len_grows : b.buf_len ≤ b'.buf_len
  pub outcome :
      ((b.failed ≡ false) × (b'.failed ≡ false) × (b'.write_pos + n ≤ b'.buf_len))
      ⊎ ((b'.failed ≡ true) × Fails heap b n)

module _ (heap : Allocator) where
  reallocate-Room :
      (b : PktBuf) (n newlen : ℕ)
      → IsValid b
      → b.failed ≡ false
      → b.fixed_buf ≡ false
      → b.write_pos + n ≤ newlen
      → b.buf_len ≤ newlen
      → newlen ≤ int_max
      → Room heap b n (reallocate heap b newlen)
  unfolding reallocate
  reallocate-Room b n newlen v ok dyn room grown small =
      elim (Option-cases (heap.realloc b.buf newlen)) [
        | inl e ↦
            rw (e, reallocate)
              (record {
                valid = record {
                  allocated = v.allocated;
                  written = v.written;
                  small = v.small;
                  grows = v.grows;
                };
                contents_kept = refl;
                write_pos_kept = refl;
                pktlen_pos_kept = refl;
                fixed_buf_kept = refl;
                buf_len_grows = omega arith;
                outcome = inr (refl, no_memory b.buf newlen e);
              })
        | inr (m, e) ↦
            rw (e, reallocate)
              (record {
                valid = record {
                  allocated = heap.length-realloc b.buf newlen m e;
                  written = ground arith;
                  small = small;
                  grows = ground (arith, v.grows);
                };
                contents_kept =
                    heap.take-realloc b.buf newlen b.write_pos m e
                      (ground (arith, v.allocated, v.written)) (ground (arith, v.written));
                write_pos_kept = refl;
                pktlen_pos_kept = refl;
                fixed_buf_kept = refl;
                buf_len_grows = grown;
                outcome = inl (ok, ok, room);
              })
      ]

  keep-Room :
      (b : PktBuf) (n : ℕ)
      → IsValid b
      → (b.write_pos + n ≤ b.buf_len) ⊎ (b.failed ≡ true)
      → Room heap b n b
  keep-Room b n v fits = record {
    valid = v;
    contents_kept = refl;
    write_pos_kept = refl;
    pktlen_pos_kept = refl;
    fixed_buf_kept = refl;
    buf_len_grows = omega arith;
    outcome = elim (Bool-cases b.failed) [
      | inl bad ↦ inr (bad, was_failed bad)
      | inr ok ↦ inl (ok, ok, elim fits [ inl h ↦ h | inr bad ↦ cc ])
    ];
  }

  fail-Room :
      (b : PktBuf) (n : ℕ) → IsValid b → Fails heap b n → Room heap b n (record b { failed = true })
  fail-Room b n v why = record {
    valid = record {
      allocated = v.allocated;
      written = v.written;
      small = v.small;
      grows = v.grows;
    };
    contents_kept = refl;
    write_pos_kept = refl;
    pktlen_pos_kept = refl;
    fixed_buf_kept = refl;
    buf_len_grows = omega arith;
    outcome = inr (refl, why);
  }

  abbrev pub Roomy : PktBuf → ℕ → Option PktBuf → Type 0
  Roomy b n r = (b' : PktBuf) × (r ≡ some b') × Room heap b n b'

  grown-Roomy :
      (b : PktBuf) (n : ℕ)
      → IsValid b
      → b.failed ≡ false
      → b.fixed_buf ≡ false
      → b.buf_len < b.write_pos + n
      → b.write_pos + n ≤ int_max
      → Roomy b n
          (grow_len 32 b.buf_len (b.write_pos + n) >>= λ newlen. some (reallocate heap b newlen))
  grown-Roomy b n v ok dyn full small =
      let pos : 0 < b.buf_len = elim v.grows [ inl fixed ↦ cc | inr p ↦ p ] in
      let (r, e, room, grown, fits) =
        grow_len-Grown 31 b.buf_len (b.write_pos + n) v.small small (omega arith) in
      rw e (reallocate heap b r, refl, reallocate-Room b n r v ok dyn room grown fits)

  -- make_room on a valid buffer returns a valid one with the same contents and the room asked for
  -- below INT_MAX, or it leaves the buffer failed, and then that was failed before, is fixed and
  -- too small, would pass INT_MAX, or realloc failed.
  pub make_room_lem : (b : PktBuf) (n : ℕ) → IsValid b → Roomy b n (make_room heap b n)
  unfolding make_room
  make_room_lem b n v =
      if_intro (Roomy b n) (leb (b.write_pos + n) b.buf_len) _ _
        (λ fits. (b, refl, keep-Room b n v (inl (omega tests))))
        λ full.
          if_intro (Roomy b n) b.failed _ _ (λ bad. (b, refl, keep-Room b n v (inr bad)))
            λ ok.
              if_intro (Roomy b n) b.fixed_buf _ _
                (λ fixed. (_, refl, fail-Room b n v (no_room fixed (omega tests))))
                λ dyn.
                  if_intro (Roomy b n) (ltb int_max (b.write_pos + n)) _ _
                    (λ big. (_, refl, fail-Room b n v (too_long (omega tests))))
                    λ small. grown-Roomy b n v ok dyn (omega tests) (omega tests)
