-- ===== src/Pktbuf/Generic.antt =====
-- src/pktbuf.c: pktbuf_start_packet, and packets of fields up to pktbuf_write_generic.
use pgbouncer.Base.{
  ℕ, subst, ◌%◌, ◌≡◌, refl, sym, ap, ◌∙◌, inl, inr, true, false, List, [], ◌∷◌, ◌++◌, Option, some,
  arith, Bytes, length, ltb, if_intro, Bool-cases, ◌>>=◌,
}
use pgbouncer.Pktbuf.Memory.{Allocator}
use mathlib.Core.Option.{some-injective}
use pgbouncer.Pktbuf.Room.{IsValid, was_failed, no_room, too_long, no_memory}
use pgbouncer.Pktbuf.Writes.{
  be32, Appends, Appends-trans, Writes, Writes-bind, nothing-Writes, put_char-Writes,
  put_uint16-Writes, put_uint32-Writes, put_uint64-Writes, put_bytes-Writes, put_string-Writes,
}
use pgbouncer.Pktbuf.Packets.{
  Arg, char, uint16, uint32, uint64, string, bytes, put_arg, put_args, write_generic,
}
use pgbouncer.Pktbuf.{PktBuf, start_packet, finish_packet, mark_length, put_char, put_uint32}
use pgbouncer.Pktbuf.Frames.{
  encode, encode_all, type_byte, type_code, frame, Sends, Puts, Puts-Sends, Opens, Open-append,
  Opens-bind, length-contents, finish-Puts,
}

module _ (heap : Allocator) where
  put_arg-Writes : (b : PktBuf) (a : Arg) → IsValid b → Writes heap b (encode a) (put_arg heap b a)
  unfolding put_arg
  put_arg-Writes b (char n) v = put_char-Writes heap b n v
  put_arg-Writes b (uint16 n) v = put_uint16-Writes heap b n v
  put_arg-Writes b (uint32 n) v = put_uint32-Writes heap b n v
  put_arg-Writes b (uint64 n) v = put_uint64-Writes heap b n v
  put_arg-Writes b (string s) v = put_string-Writes heap b s v
  put_arg-Writes b (bytes s) v = put_bytes-Writes heap b s v

  pub put_args-Writes :
      (b : PktBuf) (as' : List Arg)
      → IsValid b
      → Writes heap b (encode_all as') (put_args heap b as')
  unfolding put_args
  put_args-Writes b [] v = nothing-Writes heap b v
  put_args-Writes b (a ∷ as') v =
      Writes-bind heap (encode a) (encode_all as') _ _ (put_arg-Writes b a v)
        λ c w. put_args-Writes c as' w

  -- The length word of an opened packet is written where pktlen_pos points.
  length_word-Opens :
      (b c : PktBuf) (head : Bytes)
      → Appends heap b head c
      → Opens heap b head [] (put_uint32 heap (mark_length c) 0)
  length_word-Opens b c head a =
      let v = a.valid in
      let (e, r, p, m) = put_uint32-Writes heap (mark_length c) 0 (record {
        allocated = v.allocated;
        written = v.written;
        small = v.small;
        grows = v.grows;
      }) in
      (
        e,
        r,
        record {
          appends = Appends-trans heap head (be32 0) a (unmark p);
          mark = λ f. m ∙ (sym (length-contents c v) ∙ ap length (a.body (p.body f).0).1);
        },
      )
    where
      unmark : {d : Bytes} {e : PktBuf} → Appends heap (mark_length c) d e → Appends heap c d e
      unmark p = record {
        valid = p.valid;
        body = p.body;
        write_pos_moved = p.write_pos_moved;
        fixed_buf_kept = p.fixed_buf_kept;
        buf_len_grows = p.buf_len_grows;
        why = λ f. elim (p.why f) [
          | was_failed g ↦ was_failed g
          | no_room g h ↦ no_room g h
          | too_long h ↦ too_long h
          | no_memory m k e ↦ no_memory m k e
        ];
      }

  -- start_packet begins a packet of either kind.
  pub start_packet-Opens :
      (b : PktBuf) (type : ℕ)
      → IsValid b
      → Opens heap b (type_byte type) (type_code type) (start_packet heap b type)
  unfolding start_packet
  start_packet-Opens b type v = elim (Bool-cases (ltb type 256)) [
    | inl new ↦ rw new (
        if_intro (Opens heap b (type % 256 ∷ []) []) b.failed _ _ (broken (type % 256 ∷ []) [])
          λ ok. new_style ok)
    | inr old ↦ rw old (
        if_intro (Opens heap b [] (be32 type)) b.failed _ _ (broken [] (be32 type))
          λ ok. old_style ok)
  ]
    where
      broken : (head tail : Bytes) → b.failed ≡ true → Opens heap b head tail (some b)
      broken head tail bad = (
        b,
        refl,
        record {
          appends = record {
            valid = v;
            body = λ f. cc;
            write_pos_moved = λ f. cc;
            fixed_buf_kept = refl;
            buf_len_grows = omega arith;
            why = was_failed;
          };
          mark = λ f. cc;
        },
      )

      new_style :
          b.failed ≡ false
          → Opens heap b
              (type % 256 ∷ [])
              []
              (put_char heap b type >>= λ b'. put_uint32 heap (mark_length b') 0)
      new_style ok =
          let (c, e, p, _) = put_char-Writes heap b type v in
          rw e (length_word-Opens b c (type % 256 ∷ []) p)

      old_style :
          b.failed ≡ false
          → Opens heap b []
              (be32 type)
              (put_uint32 heap (mark_length b) 0 >>= λ b'. put_uint32 heap b' type)
      old_style ok =
          let (b', e, p, _) = nothing-Writes heap b v in
          let same : b' ≡ b = some-injective _ _ (sym e) in
          Opens-bind heap [] [] (be32 type) _ _
            (length_word-Opens b b [] (subst (λ x. Appends heap b [] x) same p))
            λ c w. put_uint32-Writes heap c type w

  -- A packet of fields: begun, filled, finished.
  pub packet-Puts :
      (b : PktBuf) (type : ℕ) (payload : Bytes) (fill : PktBuf → Option PktBuf)
      → IsValid b
      → ((c : PktBuf) → IsValid c → Writes heap c payload (fill c))
      → Puts heap b
          (frame type payload)
          (start_packet heap b type >>= λ c. (fill c >>= λ e. some (finish_packet e)))
  packet-Puts b type payload fill v fills =
      let (c, e, o) = start_packet-Opens b type v in
      let (z, e', p, m) = fills c o.appends.valid in
      rw (e, e')
        (finish-Puts heap (type_byte type) (type_code type ++ payload) (some z)
          (z, refl, Open-append heap (type_byte type) (type_code type) payload o p m))

  pub write_generic-Puts :
      (b : PktBuf) (type : ℕ) (args : List Arg)
      → IsValid b
      → Puts heap b (frame type (encode_all args)) (write_generic heap b type args)
  unfolding write_generic
  write_generic-Puts b type args v =
      packet-Puts b type (encode_all args) (λ c. put_args heap c args) v
        λ c w. put_args-Writes c args w

  -- pktbuf_write_generic on a valid buffer returns; either it appends exactly one packet, with its
  -- type, its own length and the arguments in network order, or it leaves the buffer failed, and
  -- then that was failed before, is fixed and too small, would pass INT_MAX, or realloc failed.
  pub write_generic-Sends :
      (b : PktBuf) (type : ℕ) (args : List Arg)
      → IsValid b
      → Sends heap b (frame type (encode_all args)) (write_generic heap b type args)
  write_generic-Sends b type args v =
      Puts-Sends heap (frame type (encode_all args)) (write_generic-Puts b type args v)
