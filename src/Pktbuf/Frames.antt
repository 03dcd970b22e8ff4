-- ===== src/Pktbuf/Frames.antt =====
-- The bytes of a packet of src/pktbuf.c, and a buffer with a packet begun.
use pgbouncer.Base.{
  ℕ, subst, ◌+◌, ◌-◌, ◌/◌, ◌%◌, ◌^◌, ◌≡◌, refl, sym, ap, ◌∙◌, inl, inr, true, false, List, [], ◌∷◌,
  ◌++◌, append_assoc, Option, some, arith, Bytes, length, length-append, length-take, ltb, if_intro,
  Bool-cases, if◌then◌else◌, ◌>>=◌,
}
use pgbouncer.Pktbuf.Memory.{Allocator, poke, length-poke, poke-append}
use pgbouncer.Pktbuf.Room.{IsValid, contents, Fails}
use pgbouncer.Pktbuf.Writes.{be16, be32, Appends, Appends-trans, Fails-more, Writes}
use pgbouncer.Pktbuf.Packets.{Arg, char, uint16, uint32, uint64, string, bytes}
use pgbouncer.Pktbuf.{PktBuf, finish_packet}

abbrev pub encode : Arg → Bytes
encode (char v) = v % 256 ∷ []
encode (uint16 v) = be16 v
encode (uint32 v) = be32 v
encode (uint64 v) = be32 (v / 2 ^ 32) ++ be32 (v % 2 ^ 32)
encode (string v) = v ++ 0 ∷ []
encode (bytes v) = v

abbrev pub encode_all : List Arg → Bytes
encode_all [] = []
encode_all (a ∷ as') = encode a ++ encode_all as'

-- What stands before the length word, and behind it before the payload.
abbrev pub type_byte : ℕ → Bytes
type_byte type = if ltb type 256 then type % 256 ∷ [] else []

abbrev pub type_code : ℕ → Bytes
type_code type = if ltb type 256 then [] else be32 type

-- A packet: a type byte, a length that counts itself and what follows, the payload; or, for the
-- types of the startup phase, the length, a code and the payload.
abbrev pub frame : ℕ → Bytes → Bytes
frame type payload =
    type_byte type ++ (be32 (4 + length (type_code type ++ payload)) ++ (type_code type ++ payload))

-- What an operation that should append `p` does: it appends the whole of it, or gives up with the
-- buffer failed, for one of the reasons of Fails.
pub data Emits (heap : Allocator) (b : PktBuf) (p : Bytes) (b' : PktBuf) : Type 0 where
  sent :
      IsValid b'
      → b.failed ≡ false
      → b'.failed ≡ false
      → contents b' ≡ contents b ++ p
      → Emits heap b p b'
  gave_up : IsValid b' → b'.failed ≡ true → Fails heap b (length p + 2) → Emits heap b p b'

-- It returns, and does that.
abbrev pub Sends : Allocator → PktBuf → Bytes → Option PktBuf → Type 0
Sends heap b p r = (b' : PktBuf) × (r ≡ some b') × Emits heap b p b'

abbrev pub Puts : Allocator → PktBuf → Bytes → Option PktBuf → Type 0
Puts heap b p r = (b' : PktBuf) × (r ≡ some b') × Appends heap b p b'

pub Appends-Emits :
    (heap : Allocator) {b : PktBuf} (p : Bytes) {b' : PktBuf}
    → Appends heap b p b'
    → Emits heap b p b'
Appends-Emits heap p {b'} a = elim (Bool-cases b'.failed) [
  | inl bad ↦ gave_up a.valid bad (a.why bad)
  | inr ok ↦ let (ok', e) = a.body ok in sent a.valid ok' ok e
]

pub Puts-Sends :
    (heap : Allocator) {b : PktBuf} (p : Bytes) {r : Option PktBuf}
    → Puts heap b p r
    → Sends heap b p r
Puts-Sends heap p (b', e, a) = (b', e, Appends-Emits heap p a)

-- A packet begun: the length word is still zero, and pktlen_pos points at it.
pub record Open (heap : Allocator) (b : PktBuf) (head tail : Bytes) (c : PktBuf) : Type 0 where
  pub appends : Appends heap b (head ++ (be32 0 ++ tail)) c
  pub mark : c.failed ≡ false → c.pktlen_pos ≡ length (contents b ++ head)

abbrev pub Opens : Allocator → PktBuf → Bytes → Bytes → Option PktBuf → Type 0
Opens heap b head tail r = (c : PktBuf) × (r ≡ some c) × Open heap b head tail c

pub Open-append :
    (heap : Allocator) {b c e : PktBuf} (head tail d : Bytes)
    → Open heap b head tail c
    → Appends heap c d e
    → e.pktlen_pos ≡ c.pktlen_pos
    → Open heap b head (tail ++ d) e
Open-append heap {b} {c} {e} head tail d o p m = record {
  appends =
      subst (λ k. Appends heap b k e) (append_assoc head (be32 0 ++ tail) d)
        (Appends-trans heap (head ++ (be32 0 ++ tail)) d o.appends p);
  mark = λ f. m ∙ o.mark (p.body f).0;
}

pub Opens-bind :
    (heap : Allocator) {b : PktBuf} (head tail d : Bytes) (r : Option PktBuf)
    (k : PktBuf → Option PktBuf)
    → Opens heap b head tail r
    → ((c : PktBuf) → IsValid c → Writes heap c d (k c))
    → Opens heap b head (tail ++ d) (r >>= k)
Opens-bind heap head tail d r k (c, e, o) next =
    let (z, e', q, m) = next c o.appends.valid in
    rw (e, e') (z, refl, Open-append heap head tail d o q m)

pub length-contents : (b : PktBuf) → IsValid b → length (contents b) ≡ b.write_pos
length-contents b v = omega (arith, length-take b.write_pos b.buf, v.allocated, v.written)

abbrev packet_length : PktBuf → ℕ
packet_length c = (c.write_pos + 2 ^ 32 - c.pktlen_pos) % 2 ^ 32

packet_length-Open :
    (heap : Allocator) {b c : PktBuf} (head tail : Bytes)
    → Open heap b head tail c
    → c.failed ≡ false
    → packet_length c ≡ 4 + length tail
packet_length-Open heap {b} {c} head tail o f =
    let (_, x) = o.appends.body f in
    omega (
      arith,
      length-contents c o.appends.valid,
      ap length x,
      length-append (contents b) (head ++ (be32 0 ++ tail)),
      length-append head (be32 0 ++ tail),
      length-append (contents b) head,
      o.mark f,
      o.appends.valid.small,
      o.appends.valid.written,
    )

-- The packet with its length filled in is as long as it was.
length-finished :
    (head tail : Bytes) (n : ℕ)
    → length (head ++ (be32 n ++ tail)) ≡ length (head ++ (be32 0 ++ tail))
length-finished head tail n =
    omega (arith, length-append head (be32 n ++ tail), length-append head (be32 0 ++ tail))

finished-Appends :
    (heap : Allocator) {b c : PktBuf} (head tail : Bytes)
    → Open heap b head tail c
    → c.failed ≡ false
    → (n : ℕ) → n ≡ 4 + length tail
    → Appends heap b
        (head ++ (be32 (4 + length tail) ++ tail))
        (record c { buf = poke c.buf c.pktlen_pos (be32 n); pktlen_pos = 0 })
finished-Appends heap {b} {c} head tail o f n e =
    let a = o.appends in
    let (g, x) = a.body f in
    record {
      valid = record {
        allocated = length-poke c.buf c.pktlen_pos (be32 n) ∙ a.valid.allocated;
        written = a.valid.written;
        small = a.valid.small;
        grows = a.valid.grows;
      };
      body = λ _. (
        g,
        rw (o.mark f, e)
            (poke-append c.buf (contents b ++ head) (be32 0) tail (be32 (4 + length tail))
                c.write_pos (x ∙ sym (append_assoc (contents b) head (be32 0 ++ tail))) refl
              ∙ append_assoc (contents b) head _),
      );
      write_pos_moved =
          λ _. omega (arith, a.write_pos_moved f, length-finished head tail (4 + length tail));
      fixed_buf_kept = a.fixed_buf_kept;
      buf_len_grows = a.buf_len_grows;
      why = λ k. cc;
    }

pub finish_packet-Appends :
    (heap : Allocator) {b c : PktBuf} (head tail : Bytes)
    → Open heap b head tail c
    → Appends heap b (head ++ (be32 (4 + length tail) ++ tail)) (finish_packet c)
unfolding finish_packet
finish_packet-Appends heap {b} {c} head tail o =
    if_intro (Appends heap b (head ++ (be32 (4 + length tail) ++ tail))) c.failed _ _ broken λ ok.
      finished-Appends heap head tail o ok (packet_length c)
        (packet_length-Open heap head tail o ok)
  where
    broken : c.failed ≡ true → Appends heap b (head ++ (be32 (4 + length tail) ++ tail)) c
    broken bad = record {
      valid = o.appends.valid;
      body = λ g. cc;
      write_pos_moved = λ g. cc;
      fixed_buf_kept = o.appends.fixed_buf_kept;
      buf_len_grows = o.appends.buf_len_grows;
      why = λ _.
          Fails-more heap b _ _ (omega (arith, length-finished head tail (4 + length tail)))
            (o.appends.why bad);
    }

pub finish-Puts :
    (heap : Allocator) {b : PktBuf} (head tail : Bytes) (r : Option PktBuf)
    → Opens heap b head tail r
    → Puts heap b (head ++ (be32 (4 + length tail) ++ tail)) (r >>= λ c. some (finish_packet c))
finish-Puts heap head tail r (c, e, o) =
    rw e (finish_packet c, refl, finish_packet-Appends heap head tail o)
