-- ===== src/Herd/Shelf.antt =====
-- Named lists of sockets, as the StatLists of src/objects.c: a socket is taken off one and put on
-- another. `L` names the lists.
use mathlib.Core.Logic.{ite}
use pgbouncer.Base.{
  ℕ, ◌+◌, ◌-◌, ◌<◌, ◌≡◌, refl, sym, ap, ◌∙◌, Bool, true, false, List, [], ◌∷◌, ◌++◌, Option, none,
  some, arith, ◌==◌, ==_refl, if◌then◌else◌, length, Bool-cases, inl, inr, subst,
}

-- statlist_remove of an element that is on the list at most once.
unfoldable pub remove : ℕ → List ℕ → List ℕ
remove c [] = []
remove c (x ∷ xs) = if x == c then xs else x ∷ remove c xs

abbrev pub count : ℕ → List ℕ → ℕ
count i [] = 0
count i (x ∷ xs) = (if x == i then 1 else 0) + count i xs

-- A function changed at one socket.
abbrev pub set_at {ℓ} : {A : Type ℓ} → (ℕ → A) → ℕ → A → ℕ → A
set_at f c a i = if i == c then a else f i

-- A function changed at one socket, through another function.
pub map-set_at {ℓ κ} :
    {A : Type ℓ} {B : Type κ} (p : A → B) (f : ℕ → A) (c : ℕ) (a : A) {b : B}
    → p a ≡ b
    → (i : ℕ) → set_at (λ k. p (f k)) c b i ≡ p (set_at f c a i)
map-set_at p f c a {b} e i =
    let go : (t : Bool) → (if t then b else p (f i)) ≡ p (if t then a else f i) = λ t.
      elim t as (λ t. (if t then b else p (f i)) ≡ p (if t then a else f i)) [
        | true ↦ sym e
        | false ↦ refl
      ] in
    go (i == c)

pub set_at_self {ℓ} : {A : Type ℓ} (f : ℕ → A) (c i : ℕ) → set_at f c (f c) i ≡ f i
set_at_self f c i = elim (Bool-cases (i == c)) [
  | inl e ↦ let e' : i ≡ c = ground arith in rw e (ap f (sym e'))
  | inr e ↦ rw e refl
]

pub set_at-same {ℓ} : {A : Type ℓ} (f : ℕ → A) (c : ℕ) (a : A) → set_at f c a c ≡ a
set_at-same f c a = rw (==_refl c)

-- What holds of the new value, and everywhere else of the old ones.
pub set_at-all {ℓ κ} :
    {A : Type ℓ} (P : ℕ → A → Type κ) (f : ℕ → A) (c : ℕ) (a : A)
    → P c a
    → ((i : ℕ) → P i (f i))
    → (i : ℕ) → P i (set_at f c a i)
set_at-all P f c a h k i = elim (Bool-cases (i == c)) [
  | inl e ↦ let e' : i ≡ c = ground arith in rw e (subst (λ j. P j a) (sym e') h)
  | inr e ↦ rw e (k i)
]

pub count-remove :
    (i c : ℕ) (xs : List ℕ) → count i (remove c xs) ≡ count i xs - (if i == c then 1 else 0)
unfolding remove
count-remove i c [] = ground arith
count-remove i c (x ∷ xs) = ground (arith, count-remove i c xs)

count-append :
    (i c : ℕ) (xs : List ℕ) → count i (xs ++ (c ∷ [])) ≡ count i xs + (if i == c then 1 else 0)
count-append i c [] = ground arith
count-append i c (x ∷ xs) = ground (arith, count-append i c xs)

length-remove : (c : ℕ) (xs : List ℕ) → 0 < count c xs → length (remove c xs) + 1 ≡ length xs
unfolding remove
length-remove c [] h = absurd (omega arith)
length-remove c (x ∷ xs) h = ground (arith, length-remove c xs)

length-snoc : (c : ℕ) (xs : List ℕ) → length (xs ++ (c ∷ [])) ≡ length xs + 1
length-snoc c [] = omega arith
length-snoc c (x ∷ xs) = omega (arith, length-snoc c xs)

module _ {L : Type 0} (same : Discrete L) where
  abbrev pub Shelves : Type 0
  Shelves = L → List ℕ

  abbrev pub set_list : Shelves → L → List ℕ → Shelves
  set_list s l xs k = ite (same k l) xs (s k)

  abbrev pub take_off : Shelves → Option L → ℕ → Shelves
  take_off s none c = s
  take_off s (some l) c = set_list s l (remove c (s l))

  abbrev pub append_to : Shelves → Option L → ℕ → Shelves
  append_to s none c = s
  append_to s (some l) c = set_list s l (s l ++ (c ∷ []))

  abbrev pub prepend_to : Shelves → Option L → ℕ → Shelves
  prepend_to s none c = s
  prepend_to s (some l) c = set_list s l (c ∷ s l)

  abbrev pub here : Option L → L → ℕ
  here none l = 0
  here (some k) l = ite (same l k) 1 0

  -- Every socket is on the list that `place` gives, once, and on no other.
  abbrev pub Placed : (ℕ → Option L) → Shelves → Type 0
  Placed place s = (i : ℕ) (l : L) → count i (s l) ≡ here (place i) l

  take_off-Placed :
      (place : ℕ → Option L) (s : Shelves) (c : ℕ) (o : Option L)
      → place c ≡ o
      → Placed place s
      → Placed (set_at place c none) (take_off s o c)
  take_off-Placed place s c none e p i l = ground (arith, p i l, e)
  take_off-Placed place s c (some k) e p i l =
      ground (arith, p i l, p c l, p i k, e, count-remove i c (s l))

  append_to-Placed :
      (place : ℕ → Option L) (s : Shelves) (c : ℕ) (o : Option L)
      → place c ≡ none
      → Placed place s
      → Placed (set_at place c o) (append_to s o c)
  append_to-Placed place s c none e p i l = ground (arith, p i l, e)
  append_to-Placed place s c (some k) e p i l =
      ground (arith, p i l, p c l, p i k, e, count-append i c (s l))

  prepend_to-Placed :
      (place : ℕ → Option L) (s : Shelves) (c : ℕ) (o : Option L)
      → place c ≡ none
      → Placed place s
      → Placed (set_at place c o) (prepend_to s o c)
  prepend_to-Placed place s c none e p i l = ground (arith, p i l, e)
  prepend_to-Placed place s c (some k) e p i l = ground (arith, p i l, p c l, p i k, e)

  -- Where a socket is put back: at the end, or at the front.
  abbrev pub put_on : Bool → Shelves → Option L → ℕ → Shelves
  put_on front s o c = if front then prepend_to s o c else append_to s o c

  set_at_twice :
      (place : ℕ → Option L) (c : ℕ) (o : Option L) (i : ℕ)
      → set_at (set_at place c none) c o i ≡ set_at place c o i
  set_at_twice place c o i = ground arith

  -- Off one list and on another: every socket is still exactly where it belongs.
  pub move-Placed :
      (front : Bool) (place : ℕ → Option L) (s : Shelves) (c : ℕ) (old new : Option L)
      → place c ≡ old
      → Placed place s
      → Placed (set_at place c new) (put_on front (take_off s old c) new c)
  move-Placed true place s c old new e p i l =
      prepend_to-Placed (set_at place c none) (take_off s old c) c new (set_at-same place c none)
        (take_off-Placed place s c old e p) i l
      ∙ ap (λ o. here o l) (set_at_twice place c new i)
  move-Placed false place s c old new e p i l =
      append_to-Placed (set_at place c none) (take_off s old c) c new (set_at-same place c none)
        (take_off-Placed place s c old e p) i l
      ∙ ap (λ o. here o l) (set_at_twice place c new i)

  length-take_off :
      (place : ℕ → Option L) (s : Shelves) (c : ℕ) (old : Option L) (l : L)
      → place c ≡ old
      → Placed place s
      → length (take_off s old c l) + here old l ≡ length (s l)
  length-take_off place s c none l e p = omega arith
  length-take_off place s c (some k) l e p = ground (arith, p c l, e, length-remove c (s l))

  length-put_on :
      (front : Bool) (s : Shelves) (c : ℕ) (new : Option L) (l : L)
      → length (put_on front s new c l) ≡ length (s l) + here new l
  length-put_on front s c none l = ground arith
  length-put_on front s c (some k) l = ground (arith, length-snoc c (s l))

  -- How a move changes the lengths of the lists.
  pub length-move :
      (front : Bool) (place : ℕ → Option L) (s : Shelves) (c : ℕ) (old new : Option L) (l : L)
      → place c ≡ old
      → Placed place s
      → length (put_on front (take_off s old c) new c l) + here old l ≡ length (s l) + here new l
  length-move front place s c old new l e p =
      omega
        (arith, length-take_off place s c old l e p, length-put_on front (take_off s old c) c new l)
