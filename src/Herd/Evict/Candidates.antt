-- ===== src/Herd/Evict/Candidates.antt =====
-- src/objects.c: which servers evict_connection and its variants choose from.
use pgbouncer.Base.{
  ℕ, ◌≤◌, ◌<◌, ◌≡◌, refl, sym, ap, ◌∙◌, subst, Bool, true, false, List, [], ◌∷◌, ◌++◌, Option, none,
  some, arith, ltb, ◌==◌, if◌then◌else◌, Bool-cases, inl, inr,
}
use pgbouncer.Herd.Shelf.{count}
use pgbouncer.Herd.Evict.{
  is_none, last_socket, compare_connections_by_time, oldest_of_pool, oldest_connection,
}
use pgbouncer.Herd.{
  World, idle_server_list, used_server_list, tested_server_list, waiting_client_list,
}

abbrev pub listed : Option ℕ → List ℕ
listed none = []
listed (some s) = s ∷ []

-- The servers of a pool that may be evicted: the last on the list of idle ones, and those of the
-- lists of used and of tested ones if no client waits.
abbrev pub ends : World → ℕ → List ℕ
ends w p =
    listed (last_socket (w.server_lists (idle_server_list p)))
    ++ (if is_none (w.client_lists (waiting_client_list p))
        then listed (last_socket (w.server_lists (used_server_list p)))
          ++ listed (last_socket (w.server_lists (tested_server_list p)))
        else [])

-- Those of the selected pools.
abbrev pub candidates : World → (ℕ → Bool) → List ℕ → List ℕ
candidates w sel [] = []
candidates w sel (p ∷ ps) = (if sel p then ends w p else []) ++ candidates w sel ps

abbrev pub best : World → Option ℕ → List ℕ → Option ℕ
best w o [] = o
best w o (s ∷ ss) = best w (compare_connections_by_time w o (some s)) ss

best-append :
    (w : World) (o : Option ℕ) (xs ys : List ℕ) → best w o (xs ++ ys) ≡ best w (best w o xs) ys
best-append w o [] ys = refl
best-append w o (x ∷ xs) ys = best-append w (compare_connections_by_time w o (some x)) xs ys

best-listed : (w : World) (o s : Option ℕ) → best w o (listed s) ≡ compare_connections_by_time w o s
unfolding compare_connections_by_time
best-listed w none none = refl
best-listed w (some l) none = refl
best-listed w o (some s) = refl

oldest_of_pool-best :
    (w : World) (o : Option ℕ) (p : ℕ) → oldest_of_pool w o p ≡ best w o (ends w p)
unfolding oldest_of_pool
oldest_of_pool-best w o p =
    let idle = last_socket (w.server_lists (idle_server_list p)) in
    let used = last_socket (w.server_lists (used_server_list p)) in
    let tested = last_socket (w.server_lists (tested_server_list p)) in
    let go : (b : Bool)
        → (if b
            then compare_connections_by_time w
                (compare_connections_by_time w (compare_connections_by_time w o idle) used) tested
            else compare_connections_by_time w o idle)
          ≡ best w (compare_connections_by_time w o idle)
              (if b then listed used ++ listed tested else []) =
      λ b.
        elim b
          as (λ b.
            (if b
              then compare_connections_by_time w
                  (compare_connections_by_time w (compare_connections_by_time w o idle) used) tested
              else compare_connections_by_time w o idle)
            ≡ best w (compare_connections_by_time w o idle)
                (if b then listed used ++ listed tested else [])) [
                  | true ↦ sym (
                      best-append w (compare_connections_by_time w o idle) (listed used)
                        (listed tested)
                      ∙ ap (λ o. best w o (listed tested))
                          (best-listed w (compare_connections_by_time w o idle) used)
                      ∙ best-listed w _ tested)
                  | false ↦ refl
                ] in
    let others : List ℕ =
      if is_none (w.client_lists (waiting_client_list p))
      then listed used ++ listed tested
      else [] in
    go (is_none (w.client_lists (waiting_client_list p)))
    ∙ sym (best-append w o (listed idle) others ∙ ap (λ o. best w o others) (best-listed w o idle))

pub oldest_connection-best :
    (w : World) (sel : ℕ → Bool) (o : Option ℕ) (ps : List ℕ)
    → oldest_connection w sel o ps ≡ best w o (candidates w sel ps)
unfolding oldest_connection
oldest_connection-best w sel o [] = refl
oldest_connection-best w sel o (p ∷ ps) =
    let go : (b : Bool)
        → oldest_connection w sel (if b then oldest_of_pool w o p else o) ps
          ≡ best w o ((if b then ends w p else []) ++ candidates w sel ps) =
      λ b.
        elim b
          as (λ b.
            oldest_connection w sel (if b then oldest_of_pool w o p else o) ps
            ≡ best w o ((if b then ends w p else []) ++ candidates w sel ps)) [
              | true ↦
                  oldest_connection-best w sel (oldest_of_pool w o p) ps
                  ∙ ap (λ o. best w o (candidates w sel ps)) (oldest_of_pool-best w o p)
                  ∙ sym (best-append w o (ends w p) (candidates w sel ps))
              | false ↦ oldest_connection-best w sel o ps
            ] in
    go (sel p)

-- What holds of every server of a list.
abbrev pub All : (ℕ → Type 0) → List ℕ → Type 0
All P [] = Unit {0}
All P (s ∷ ss) = P s × All P ss

pub All-append : (P : ℕ → Type 0) (xs ys : List ℕ) → All P xs → All P ys → All P (xs ++ ys)
All-append P [] ys h k = k
All-append P (x ∷ xs) ys h k = (h.0, All-append P xs ys h.1 k)

pub All-count : (P : ℕ → Type 0) (s : ℕ) (ss : List ℕ) → All P ss → 0 < count s ss → P s
All-count P s [] h c = absurd (omega arith)
All-count P s (x ∷ ss) h c = elim (Bool-cases (x == s)) [
  | inl e ↦ let e' : x ≡ s = ground arith in subst P e' h.0
  | inr e ↦ All-count P s ss h.1 (ground arith)
]

-- No server of the list has been unused for longer.
abbrev pub Oldest : World → ℕ → List ℕ → Type 0
Oldest w s ss = All (λ t. (w.servers s).request_time ≤ (w.servers t).request_time) ss

pub best-Oldest :
    (w : World) (l : ℕ) (ss : List ℕ)
    → (s : ℕ) × (best w (some l) ss ≡ some s) × (0 < count s (l ∷ ss)) × Oldest w s (l ∷ ss)
unfolding compare_connections_by_time
best-Oldest w l [] = (l, refl, ground arith, (omega arith, tt))
best-Oldest w l (x ∷ ss) =
    elim (Bool-cases (ltb (w.servers l).request_time (w.servers x).request_time)) [
      | inl e ↦
          let (s, e1, c, (le, all)) = best-Oldest w l ss in
          (s, rw e e1, ground (arith, c), (le, (ground arith, all)))
      | inr e ↦
          let (s, e1, c, (le, all)) = best-Oldest w x ss in
          (s, rw e e1, ground (arith, c), (ground arith, (le, all)))
    ]
