-- ===== src/Wire/Reader.antt =====
-- The message buffer of libusual (struct MBuf), as src/proto.c and src/messages.c use it to read.
use pgbouncer.Base.{ℕ, ◌+◌, ◌*◌, ◌<◌, ◌^◌, ◌≡◌, Option, none, some, [], ◌∷◌, ◌++◌, Bytes, length}

-- What is still to be read, how many bytes the buffer holds, and the reading of a prefix. Each
-- operation gives what it read and the buffer behind that, or nothing.
pub record Mbuf (M : Type 0) : Type 0 where
  pub unread : M → Bytes
  pub written : M → ℕ
  pub get_byte : M → Option (ℕ × M)
  pub get_uint16be : M → Option (ℕ × M)
  pub get_uint32be : M → Option (ℕ × M)
  pub get_string : M → Option (Bytes × M)
  pub get_bytes : M → ℕ → Option (Bytes × M)
  pub slice : M → ℕ → Option (M × M)

-- The bytes of a C string.
abbrev pub Nonzero : Bytes → Type 0
Nonzero [] = Unit {0}
Nonzero (c ∷ cs) = (0 < c) × Nonzero cs

-- What libusual says of it: the integers are big-endian, a string ends with its first 0.
pub record Reads {M : Type 0} (mbuf : Mbuf M) : Type 0 where
  pub byte :
      (m : M) (c : ℕ) (bs : Bytes)
      → mbuf.unread m ≡ c ∷ bs
      → (m' : M) × (mbuf.get_byte m ≡ some (c, m')) × (mbuf.unread m' ≡ bs)
  pub uint16 :
      (m : M) (a b : ℕ) (bs : Bytes)
      → mbuf.unread m ≡ a ∷ b ∷ bs
      → (m' : M) × (mbuf.get_uint16be m ≡ some (a * 2 ^ 8 + b, m')) × (mbuf.unread m' ≡ bs)
  pub uint32 :
      (m : M) (a b c d : ℕ) (bs : Bytes)
      → mbuf.unread m ≡ a ∷ b ∷ c ∷ d ∷ bs
      → (m' : M) × (mbuf.get_uint32be m ≡ some (a * 2 ^ 24 + b * 2 ^ 16 + c * 2 ^ 8 + d, m'))
        × (mbuf.unread m' ≡ bs)
  pub string :
      (m : M) (s bs : Bytes)
      → mbuf.unread m ≡ s ++ 0 ∷ bs
      → Nonzero s
      → (m' : M) × (mbuf.get_string m ≡ some (s, m')) × (mbuf.unread m' ≡ bs)
  pub no_string : (m : M) → Nonzero (mbuf.unread m) → mbuf.get_string m ≡ none
  pub bytes :
      (m : M) (d bs : Bytes) (n : ℕ)
      → mbuf.unread m ≡ d ++ bs
      → length d ≡ n
      → (m' : M) × (mbuf.get_bytes m n ≡ some (d, m')) × (mbuf.unread m' ≡ bs)
  -- A part, which holds `d` alone, and the rest.
  pub slice :
      (m : M) (d bs : Bytes) (n : ℕ)
      → mbuf.unread m ≡ d ++ bs
      → length d ≡ n
      → (parts : M × M) × (mbuf.slice m n ≡ some parts)
        × (mbuf.unread parts.0 ≡ d)
        × (mbuf.unread parts.1 ≡ bs)
        × (mbuf.written parts.0 ≡ n)
