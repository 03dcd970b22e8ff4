-- ===== src/Pktbuf/Writes.antt =====
-- The bytes that the operations of src/pktbuf.c write.
use pgbouncer.Base.{
  ℕ, ◌+◌, ◌/◌, ◌%◌, ◌^◌, ◌≤◌, ◌≡◌, refl, sym, ap, ◌∙◌, true, false, [], ◌∷◌, ◌++◌, append_assoc,
  append-nil, Option, some, arith, Bytes, length, take, drop-take_self, length-append, inl, inr,
  Bool-cases, if_intro, ◌>>=◌,
}
use pgbouncer.Pktbuf.Memory.{Allocator, poke, length-poke, take-poke}
use pgbouncer.Pktbuf.Room.{
  IsValid, contents, Fails, was_failed, no_room, too_long, no_memory, Room, make_room_lem,
}
use pgbouncer.Pktbuf.{
  PktBuf, make_room, store, put_char, put_uint16, put_uint32, put_uint64, put_bytes, put_string,
}

abbrev pub be16 : ℕ → Bytes
be16 v = v / 2 ^ 8 % 256 ∷ v % 256 ∷ []

abbrev pub be32 : ℕ → Bytes
be32 v = v / 2 ^ 24 % 256 ∷ v / 2 ^ 16 % 256 ∷ v / 2 ^ 8 % 256 ∷ v % 256 ∷ []

-- `b'` is `b` with `d` appended, or has failed, and then for a reason. Two bytes of slack are for
-- pktbuf_put_uint16, which asks for more than it writes.
pub record Appends (heap : Allocator) (b : PktBuf) (d : Bytes) (b' : PktBuf) : Type 0 where
  pub valid : IsValid b'
  pub body : b'.failed ≡ false → (b.failed ≡ false) × (contents b' ≡ contents b ++ d)
  pub write_pos_moved : b'.failed ≡ false → b'.write_pos ≡ b.write_pos + length d
  pub fixed_buf_kept : b'.fixed_buf ≡ b.fixed_buf
  pub buf_len_grows : b.buf_len ≤ b'.buf_len
  pub why : b'.failed ≡ true → Fails heap b (length d + 2)

-- An operation that returns, with such a buffer and the packet's mark where it was.
abbrev pub Writes : Allocator → PktBuf → Bytes → Option PktBuf → Type 0
Writes heap b d r =
    (b' : PktBuf) × (r ≡ some b') × Appends heap b d b' × (b'.pktlen_pos ≡ b.pktlen_pos)

module _ (heap : Allocator) where
  pub Fails-more : (b : PktBuf) (m n : ℕ) → m ≤ n → Fails heap b m → Fails heap b n
  Fails-more b m n h (was_failed f) = was_failed f
  Fails-more b m n h (no_room f k) = no_room f (omega arith)
  Fails-more b m n h (too_long k) = too_long (omega arith)
  Fails-more b m n h (no_memory a k e) = no_memory a k e

  abbrev Stored : PktBuf → Bytes → PktBuf → Type 0
  Stored b d b' = Appends heap b d b' × (b'.pktlen_pos ≡ b.pktlen_pos)

  store-Appends :
      (b b' : PktBuf) (d : Bytes) (n : ℕ)
      → Room heap b n b'
      → length d ≤ n
      → n ≤ length d + 2
      → Stored b d (store d b')
  store-Appends b b' d n r h slack = if_intro (Stored b d) b'.failed _ _ bad good
    where
      bad : b'.failed ≡ true → Stored b d b'
      bad f = (
        record {
          valid = r.valid;
          body = λ k. cc;
          write_pos_moved = λ k. cc;
          fixed_buf_kept = r.fixed_buf_kept;
          buf_len_grows = r.buf_len_grows;
          why = λ _. elim r.outcome [
            | inl (_, ok, _) ↦ cc
            | inr (_, reason) ↦ Fails-more b n (length d + 2) slack reason
          ];
        },
        r.pktlen_pos_kept,
      )

      space : b'.failed ≡ false → (b.failed ≡ false) × (b'.write_pos + n ≤ b'.buf_len)
      space f = elim r.outcome [ inl (ok, _, room) ↦ (ok, room) | inr (bad, _) ↦ cc ]

      good :
          b'.failed ≡ false
          → Stored b d
              (record b' { buf = poke b'.buf b'.write_pos d; write_pos = b'.write_pos + length d })
      good f =
          let (ok, room) = space f in
          (
            record {
              valid = record {
                allocated = length-poke b'.buf b'.write_pos d ∙ r.valid.allocated;
                written = omega arith;
                small = r.valid.small;
                grows = r.valid.grows;
              };
              body = λ _. (ok, appended room);
              write_pos_moved = λ _. rw (r.write_pos_kept);
              fixed_buf_kept = r.fixed_buf_kept;
              buf_len_grows = r.buf_len_grows;
              why = λ k. cc;
            },
            r.pktlen_pos_kept,
          )
        where
          appended :
              b'.write_pos + n ≤ b'.buf_len
              → take (b'.write_pos + length d) (poke b'.buf b'.write_pos d) ≡ contents b ++ d
          appended room =
              rw
                (
                  take-poke b'.buf b'.write_pos d (b'.write_pos + length d) (omega arith)
                      (omega (arith, r.valid.allocated)),
                  drop-take_self (b'.write_pos + length d) b'.buf,
                  append-nil,
                )
                (ap (λ c. c ++ d) r.contents_kept)

  -- make_room, then the store, as each operation makes them.
  stored-Writes :
      (b : PktBuf) (d : Bytes) (n : ℕ)
      → IsValid b
      → length d ≤ n
      → n ≤ length d + 2
      → Writes heap b d (make_room heap b n >>= λ b'. some (store d b'))
  stored-Writes b d n v h slack =
      let (b', e, r) = make_room_lem heap b n v in
      let (a, m) = store-Appends b b' d n r h slack in rw e (store d b', refl, a, m)

  -- Two operations in a row append their bytes in that order.
  pub Appends-trans :
      {b c e : PktBuf} (d d' : Bytes)
      → Appends heap b d c
      → Appends heap c d' e
      → Appends heap b (d ++ d') e
  Appends-trans {b} {c} {e} d d' p q = record {
    valid = q.valid;
    body = λ f.
        let (g, y) = q.body f in
        let (g', x) = p.body g in (g', y ∙ (ap (λ k. k ++ d') x ∙ append_assoc (contents b) d d'));
    write_pos_moved =
        λ f. omega (arith, q.write_pos_moved f, p.write_pos_moved (q.body f).0, length-append d d');
    fixed_buf_kept = q.fixed_buf_kept ∙ p.fixed_buf_kept;
    buf_len_grows = omega (arith, p.buf_len_grows, q.buf_len_grows);
    why = λ f. elim (Bool-cases c.failed) [
      | inl bad ↦ Fails-more b _ _ (omega (arith, length-append d d')) (p.why bad)
      | inr ok ↦ later ok (q.why f)
    ];
  }
    where
      later : c.failed ≡ false → Fails heap c (length d' + 2) → Fails heap b (length (d ++ d') + 2)
      later ok (was_failed bad) = cc
      later ok (no_room fixed k) =
          no_room (sym p.fixed_buf_kept ∙ fixed)
            (omega (arith, p.write_pos_moved ok, length-append d d', p.buf_len_grows))
      later ok (too_long k) = too_long (omega (arith, p.write_pos_moved ok, length-append d d'))
      later ok (no_memory m k e) = no_memory m k e

  pub Writes-bind :
      {b : PktBuf} (d d' : Bytes) (r : Option PktBuf) (k : PktBuf → Option PktBuf)
      → Writes heap b d r
      → ((c : PktBuf) → IsValid c → Writes heap c d' (k c))
      → Writes heap b (d ++ d') (r >>= k)
  Writes-bind d d' r k (c, e, p, m) next =
      let (z, e', q, m') = next c p.valid in rw (e, e') (z, refl, Appends-trans d d' p q, m' ∙ m)

  pub put_char-Writes :
      (b : PktBuf) (val : ℕ) → IsValid b → Writes heap b (val % 256 ∷ []) (put_char heap b val)
  unfolding put_char
  put_char-Writes b val v = stored-Writes b _ 1 v (omega arith) (omega arith)

  pub put_uint16-Writes :
      (b : PktBuf) (val : ℕ) → IsValid b → Writes heap b (be16 val) (put_uint16 heap b val)
  unfolding put_uint16
  put_uint16-Writes b val v = stored-Writes b _ 4 v (omega arith) (omega arith)

  pub put_uint32-Writes :
      (b : PktBuf) (val : ℕ) → IsValid b → Writes heap b (be32 val) (put_uint32 heap b val)
  unfolding put_uint32
  put_uint32-Writes b val v = stored-Writes b _ 4 v (omega arith) (omega arith)

  pub put_uint64-Writes :
      (b : PktBuf) (val : ℕ)
      → IsValid b
      → Writes heap b (be32 (val / 2 ^ 32) ++ be32 (val % 2 ^ 32)) (put_uint64 heap b val)
  unfolding put_uint64
  put_uint64-Writes b val v =
      Writes-bind (be32 (val / 2 ^ 32)) (be32 (val % 2 ^ 32)) _ _
        (put_uint32-Writes b (val / 2 ^ 32) v) λ c w. put_uint32-Writes c (val % 2 ^ 32) w

  pub nothing-Writes : (b : PktBuf) → IsValid b → Writes heap b [] (some b)
  nothing-Writes b v = (
    b,
    refl,
    record {
      valid = v;
      body = λ f. (f, sym (append-nil (contents b)));
      write_pos_moved = λ _. omega arith;
      fixed_buf_kept = refl;
      buf_len_grows = omega arith;
      why = was_failed;
    },
    refl,
  )

  pub put_bytes-Writes : (b : PktBuf) (d : Bytes) → IsValid b → Writes heap b d (put_bytes heap b d)
  unfolding put_bytes
  put_bytes-Writes b [] v = nothing-Writes b v
  put_bytes-Writes b (x ∷ xs) v =
      stored-Writes b (x ∷ xs) (length (x ∷ xs)) v (omega arith) (omega arith)

  pub put_string-Writes :
      (b : PktBuf) (str : Bytes) → IsValid b → Writes heap b (str ++ 0 ∷ []) (put_string heap b str)
  unfolding put_string
  put_string-Writes b str v = put_bytes-Writes b (str ++ 0 ∷ []) v
