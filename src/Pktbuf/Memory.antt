-- ===== src/Pktbuf/Memory.antt =====
-- Memory as the packet writer sees it: bytes at an address, and the allocator that the C library
-- provides (realloc is not the program's own code).
use pgbouncer.Base.{
  ℕ, zero, suc, ◌+◌, ◌≤◌, ◌≡◌, refl, ap, [], ◌∷◌, ◌++◌, Option, some, arith, Bytes, length, take,
  drop,
}

-- memcpy to `mem + i`, and stores through a byte pointer. A byte past the end of the allocation is
-- not written: the laws below hold only where the whole of `d` fits.
unfoldable pub poke : Bytes → ℕ → Bytes → Bytes
poke [] i d = []
poke (m ∷ ms) (suc i) d = m ∷ poke ms i d
poke (m ∷ ms) zero [] = m ∷ ms
poke (m ∷ ms) zero (x ∷ d) = x ∷ poke ms zero d

pub length-poke : (m : Bytes) (i : ℕ) (d : Bytes) → length (poke m i d) ≡ length m
unfolding poke
length-poke [] i d = refl
length-poke (m ∷ ms) (suc i) d = ap suc (length-poke ms i d)
length-poke (m ∷ ms) zero [] = refl
length-poke (m ∷ ms) zero (x ∷ d) = ap suc (length-poke ms zero d)

-- What a reader of the first `w` bytes sees after a write of `d` at `i`, inside them or at their end.
pub take-poke :
    (m : Bytes) (i : ℕ) (d : Bytes) (w : ℕ)
    → i + length d ≤ w
    → i + length d ≤ length m
    → take w (poke m i d) ≡ take i m ++ d ++ drop (i + length d) (take w m)
unfolding poke
take-poke [] zero [] w h k = refl
take-poke [] zero (x ∷ d) w h k = absurd (omega arith)
take-poke [] (suc i) d w h k = absurd (omega arith)
take-poke (m ∷ ms) (suc i) d zero h k = absurd (omega arith)
take-poke (m ∷ ms) (suc i) d (suc w) h k =
    let e : suc i + length d ≡ suc (i + length d) = omega arith in
    rw e (ap (◌∷◌ m) (take-poke ms i d w (omega arith) (omega arith)))
take-poke (m ∷ ms) zero [] w h k = refl
take-poke (m ∷ ms) zero (x ∷ d) zero h k = absurd (omega arith)
take-poke (m ∷ ms) zero (x ∷ d) (suc w) h k =
    let e : 0 + suc (length d) ≡ suc (0 + length d) = omega arith in
    rw e (ap (◌∷◌ x) (take-poke ms zero d w (omega arith) (omega arith)))

-- A write of `d` at the start.
pub take-poke_start :
    (m d : Bytes) (j : ℕ) → j ≤ length d → length d ≤ length m → take j (poke m 0 d) ≡ take j d
unfolding poke
take-poke_start [] [] j h k = refl
take-poke_start [] (x ∷ d) j h k = absurd (omega arith)
take-poke_start (m ∷ ms) [] zero h k = refl
take-poke_start (m ∷ ms) [] (suc j) h k = absurd (omega arith)
take-poke_start (m ∷ ms) (x ∷ d) zero h k = refl
take-poke_start (m ∷ ms) (x ∷ d) (suc j) h k =
    ap (◌∷◌ x) (take-poke_start ms d j (omega arith) (omega arith))

-- A write of `d` over `old`, of the same size, behind the bytes `pre`.
pub poke-append :
    (m pre old post d : Bytes) (w : ℕ)
    → take w m ≡ pre ++ (old ++ post)
    → length d ≡ length old
    → take w (poke m (length pre) d) ≡ pre ++ (d ++ post)
unfolding poke
poke-append [] pre [] post [] w e h = e
poke-append [] pre [] post (x ∷ d) w e h = absurd (omega arith)
poke-append [] [] (o ∷ old) post d zero e h = cc
poke-append [] [] (o ∷ old) post d (suc w) e h = cc
poke-append [] (p ∷ pre) (o ∷ old) post d zero e h = cc
poke-append [] (p ∷ pre) (o ∷ old) post d (suc w) e h = cc
poke-append (m ∷ ms) [] [] post [] w e h = e
poke-append (m ∷ ms) [] [] post (x ∷ d) w e h = absurd (omega arith)
poke-append (m ∷ ms) [] (o ∷ old) post [] w e h = absurd (omega arith)
poke-append (m ∷ ms) [] (o ∷ old) post (x ∷ d) zero e h = cc
poke-append (m ∷ ms) [] (o ∷ old) post (x ∷ d) (suc w) e h =
    ap (◌∷◌ x) (poke-append ms [] old post d w (ground arith) (omega arith))
poke-append (m ∷ ms) (p ∷ pre) old post d zero e h = cc
poke-append (m ∷ ms) (p ∷ pre) old post d (suc w) e h =
    let rest : take w ms ≡ pre ++ (old ++ post) = cc in cc (poke-append ms pre old post d w rest h)

-- realloc(ptr, n) with n not below the old size: it fails, or gives n bytes that start with the
-- old ones. `none` is a null pointer.
pub record Allocator : Type 0 where
  pub realloc : Bytes → ℕ → Option Bytes
  pub length-realloc : (m : Bytes) (n : ℕ) (m' : Bytes) → realloc m n ≡ some m' → length m' ≡ n
  pub take-realloc :
      (m : Bytes) (n w : ℕ) (m' : Bytes)
      → realloc m n ≡ some m'
      → w ≤ length m
      → w ≤ n
      → take w m' ≡ take w m
