-- ===== src/Hba/StrSet.antt =====
-- The StrSet of src/hba.c: an array of ten strings, then a crit-bit tree as well (libusual's
-- cbtree, taken as a parameter).
use pgbouncer.Base.{
  ℕ, ◌+◌, ◌<◌, ◌≡◌, refl, inl, inr, Bool, true, false, ◌||◌, List, [], ◌∷◌, ◌++◌, Option, none,
  some, arith, Bytes, ltb, if◌then◌else◌, if_intro, Bool-cases, tests, str_eq, str_eq→eq,
}

-- cbtree_create, cbtree_insert, cbtree_lookup, with strings for keys.
pub record CbTree : Type 1 where
  pub Tree : Type 0
  pub create : Tree
  pub insert : Tree → Bytes → Tree
  pub contains : Tree → Bytes → Bool
  pub contains-create : (k : Bytes) → contains create k ≡ false
  pub contains-insert :
      (t : Tree) (k j : Bytes) → contains (insert t k) j ≡ str_eq k j || contains t j

module _ (cb : CbTree) where
  open cb use {Tree, create, insert, contains, contains-create, contains-insert}

  -- `alloc` stays at ten. A string added when the array is full goes to the tree alone.
  pub record StrSet : Type 0 where
    pub count : ℕ
    pub nodes : List Bytes
    pub cbtree : Option Tree

  pub strset_new : StrSet
  strset_new = record { count = 0; nodes = []; cbtree = none }

  find_node : List Bytes → Bytes → Bool
  find_node [] str = false
  find_node (n ∷ ns) str = str_eq n str || find_node ns str

  pub strset_contains : StrSet → Bytes → Bool
  unfolding find_node
  strset_contains set str = elim set.cbtree [
    | some t ↦ contains t str
    | none ↦ find_node set.nodes str
  ]

  insert_all : Tree → List Bytes → Tree
  insert_all t [] = t
  insert_all t (n ∷ ns) = insert_all (insert t n) ns

  -- The tree as it is, or made from the array.
  the_tree : StrSet → Tree
  unfolding insert_all
  the_tree set = elim set.cbtree [ some t ↦ t | none ↦ insert_all create set.nodes ]

  pub strset_add : StrSet → Bytes → StrSet
  unfolding the_tree
  strset_add set str =
      if strset_contains set str
      then set
      else if ltb set.count 10
      then record set { nodes = set.nodes ++ (str ∷ []); count = set.count + 1 }
      else record set { cbtree = some (insert (the_tree set) str); count = set.count + 1 }

  -- The tree is made when the array is full, never before.
  abbrev pub IsValid : StrSet → Type 0
  IsValid set = set.count < 10 → set.cbtree ≡ none

  find_node-append :
      (ns : List Bytes) (str k : Bytes)
      → find_node (ns ++ (str ∷ [])) k ≡ str_eq str k || find_node ns k
  unfolding find_node
  find_node-append [] str k = ground arith
  find_node-append (n ∷ ns) str k = ground (arith, find_node-append ns str k)

  contains-insert_all :
      (ns : List Bytes) (t : Tree) (k : Bytes)
      → contains (insert_all t ns) k ≡ find_node ns k || contains t k
  unfolding insert_all find_node
  contains-insert_all [] t k = refl
  contains-insert_all (n ∷ ns) t k =
      ground (arith, contains-insert_all ns (insert t n) k, contains-insert t n k)

  contains-the_tree : (set : StrSet) (k : Bytes) → contains (the_tree set) k ≡ strset_contains set k
  unfolding the_tree strset_contains
  contains-the_tree set k =
      ground (arith, contains-insert_all set.nodes create k, contains-create k)

  abbrev Added : StrSet → Bytes → Bytes → StrSet → Type 0
  Added set str k s' = IsValid s' × (strset_contains s' k ≡ str_eq str k || strset_contains set k)

  present :
      (set : StrSet) (str k : Bytes)
      → strset_contains set str ≡ true
      → strset_contains set k ≡ str_eq str k || strset_contains set k
  present set str k old = elim (Bool-cases (str_eq str k)) [
    | inl same ↦ let e : str ≡ k = str_eq→eq str k same in ground (arith, same, e, old)
    | inr other ↦ rw other
  ]

  in_array :
      (set : StrSet) (str k : Bytes)
      → set.cbtree ≡ none
      → strset_contains (record set { nodes = set.nodes ++ (str ∷ []); count = set.count + 1 }) k
        ≡ str_eq str k || strset_contains set k
  unfolding strset_contains
  in_array set str k e = ground (arith, find_node-append set.nodes str k)

  in_tree :
      (set : StrSet) (str k : Bytes)
      → contains (insert (the_tree set) str) k ≡ str_eq str k || strset_contains set k
  in_tree set str k = rw (contains-insert, contains-the_tree)

  -- Where the tree of a set is made only when its array is full, strset_add keeps that, and a
  -- string is in the set afterwards exactly if it is the one added or was there before, also where
  -- the set changes over to the tree.
  pub strset_contains-add :
      (set : StrSet) (str k : Bytes)
      → IsValid set
      → IsValid (strset_add set str)
        × (strset_contains (strset_add set str) k ≡ str_eq str k || strset_contains set k)
  unfolding strset_add strset_contains
  strset_contains-add set str k v =
      if_intro (Added set str k) (strset_contains set str) _ _ (λ old. (v, present set str k old))
        λ _.
          if_intro (Added set str k) (ltb set.count 10) _ _
            (λ room. (λ _. v (omega tests), in_array set str k (v (omega tests))))
            λ full. (λ h. absurd (omega tests), in_tree set str k)
