-- ===== src/Base/Lists.antt =====
-- Lists measured and indexed by native numbers, under the library's names.
use Prim.Native.Nat.{ℕ, zero, suc, ◌+◌, ◌-◌, ◌≤◌, min}
use mathlib.Core.Path.{◌≡◌, refl, ap, ◌∙◌}
use mathlib.Core.List.{List, [], ◌∷◌, ◌++◌}
use native.Mathlib.Omega.{arith}

module _ {ℓ} {A : Type ℓ} where
  abbrev pub length : List A → ℕ
  length [] = 0
  length (x ∷ xs) = suc (length xs)

  abbrev pub take : ℕ → List A → List A
  take zero xs = []
  take (suc n) [] = []
  take (suc n) (x ∷ xs) = x ∷ take n xs

  abbrev pub drop : ℕ → List A → List A
  drop zero xs = xs
  drop (suc n) [] = []
  drop (suc n) (x ∷ xs) = drop n xs

  pub length-append : (xs ys : List A) → length (xs ++ ys) ≡ length xs + length ys
  length-append [] ys = omega arith
  length-append (x ∷ xs) ys = omega (arith, length-append xs ys)

module _ {ℓ} {A : Type ℓ} where
  pub take-append-drop : (n : ℕ) (xs : List A) → take n xs ++ drop n xs ≡ xs
  take-append-drop zero xs = refl
  take-append-drop (suc n) [] = refl
  take-append-drop (suc n) (x ∷ xs) = rw (take-append-drop n xs)

  pub length-take : (n : ℕ) (xs : List A) → length (take n xs) ≡ min n (length xs)
  length-take zero xs = omega arith
  length-take (suc n) [] = omega arith
  length-take (suc n) (x ∷ xs) = omega (arith, length-take n xs)

  pub length-drop : (n : ℕ) (xs : List A) → length (drop n xs) ≡ length xs - n
  length-drop zero xs = omega arith
  length-drop (suc n) [] = omega arith
  length-drop (suc n) (x ∷ xs) = omega (arith, length-drop n xs)

  -- Taking within, or past, the first of two lists.
  pub take-append_le : (n : ℕ) (xs ys : List A) → n ≤ length xs → take n (xs ++ ys) ≡ take n xs
  take-append_le zero xs ys h = refl
  take-append_le (suc n) [] ys h = absurd (omega arith)
  take-append_le (suc n) (x ∷ xs) ys h = ap (◌∷◌ x) (take-append_le n xs ys (omega arith))

  pub take-append_add :
      (n : ℕ) (xs ys : List A) {m : ℕ} → m ≡ length xs + n → take m (xs ++ ys) ≡ xs ++ take n ys
  take-append_add n [] ys {m} e = let e' : m ≡ n = omega arith in rw e'
  take-append_add n (x ∷ xs) ys {m = zero} e = absurd (omega arith)
  take-append_add n (x ∷ xs) ys {m = suc m} e = ap (◌∷◌ x) (take-append_add n xs ys (omega arith))

  pub take_all : (n : ℕ) (xs : List A) → length xs ≤ n → take n xs ≡ xs
  take_all zero [] h = refl
  take_all zero (x ∷ xs) h = absurd (omega arith)
  take_all (suc n) [] h = refl
  take_all (suc n) (x ∷ xs) h = ap (◌∷◌ x) (take_all n xs (omega arith))

  pub take-take : (m n : ℕ) (xs : List A) → m ≤ n → take m (take n xs) ≡ take m xs
  take-take zero n xs h = refl
  take-take (suc m) zero xs h = absurd (omega arith)
  take-take (suc m) (suc n) [] h = refl
  take-take (suc m) (suc n) (x ∷ xs) h = ap (◌∷◌ x) (take-take m n xs (omega arith))

  pub drop-take_self : (n : ℕ) (xs : List A) → drop n (take n xs) ≡ []
  drop-take_self zero xs = refl
  drop-take_self (suc n) [] = refl
  drop-take_self (suc n) (x ∷ xs) = drop-take_self n xs

  pub drop-append_add :
      (n : ℕ) (xs ys : List A) {m : ℕ} → m ≡ length xs + n → drop m (xs ++ ys) ≡ drop n ys
  drop-append_add n [] ys {m} e = let e' : m ≡ n = omega arith in rw e'
  drop-append_add n (x ∷ xs) ys {m = zero} e = absurd (omega arith)
  drop-append_add n (x ∷ xs) ys {m = suc m} e = drop-append_add n xs ys (omega arith)

  -- The elements from `i` up to `j`.
  abbrev pub slice : List A → ℕ → ℕ → List A
  slice xs i j = drop i (take j xs)

  pub slice-append :
      (i j k : ℕ) (xs : List A) → i ≤ j → j ≤ k → slice xs i j ++ slice xs j k ≡ slice xs i k
  slice-append zero zero k xs h g = refl
  slice-append zero (suc j) zero xs h g = absurd (omega arith)
  slice-append zero (suc j) (suc k) [] h g = refl
  slice-append zero (suc j) (suc k) (x ∷ xs) h g =
      ap (◌∷◌ x) (slice-append zero j k xs (omega arith) (omega arith))
  slice-append (suc i) zero k xs h g = absurd (omega arith)
  slice-append (suc i) (suc j) zero xs h g = absurd (omega arith)
  slice-append (suc i) (suc j) (suc k) [] h g = refl
  slice-append (suc i) (suc j) (suc k) (x ∷ xs) h g =
      slice-append i j k xs (omega arith) (omega arith)

  pub length-slice : (i j : ℕ) (xs : List A) → i ≤ j → j ≤ length xs → length (slice xs i j) ≡ j - i
  length-slice i j xs h g = omega (arith, length-drop i (take j xs), length-take j xs)

  pub take-drop : (n j : ℕ) (xs : List A) → take n (drop j xs) ≡ drop j (take (j + n) xs)
  take-drop n zero xs = let e : 0 + n ≡ n = omega arith in rw e
  take-drop n (suc j) [] = let e : suc j + n ≡ suc (j + n) = omega arith in rw e (take_nil n)
    where
      take_nil : (n : ℕ) → take {A = A} n [] ≡ []
      take_nil zero = refl
      take_nil (suc n) = refl
  take-drop n (suc j) (x ∷ xs) =
      let e : suc j + n ≡ suc (j + n) = omega arith in rw e (take-drop n j xs)

  pub drop-drop : (n j : ℕ) (xs : List A) → drop n (drop j xs) ≡ drop (j + n) xs
  drop-drop n zero xs = let e : 0 + n ≡ n = omega arith in rw e
  drop-drop zero (suc j) [] = let e : suc j + 0 ≡ suc j = omega arith in rw e
  drop-drop (suc n) (suc j) [] = let e : suc j + suc n ≡ suc (j + suc n) = omega arith in rw e
  drop-drop n (suc j) (x ∷ xs) =
      let e : suc j + n ≡ suc (j + n) = omega arith in rw e (drop-drop n j xs)

  pub take-slice :
      (n i j : ℕ) (xs : List A) → i + n ≤ j → take n (slice xs i j) ≡ slice xs i (i + n)
  take-slice n i j xs h = take-drop n i (take j xs) ∙ ap (drop i) (take-take (i + n) j xs h)

  pub slice_empty : (i j : ℕ) (xs : List A) → j ≤ i → slice xs i j ≡ []
  slice_empty i zero xs h = drop_nil i
    where
      drop_nil : (n : ℕ) → drop {A = A} n [] ≡ []
      drop_nil zero = refl
      drop_nil (suc n) = refl
  slice_empty zero (suc j) xs h = absurd (omega arith)
  slice_empty (suc i) (suc j) [] h = refl
  slice_empty (suc i) (suc j) (x ∷ xs) h = slice_empty i j xs (omega arith)
