-- ===== src/Herd/Evict.antt =====
-- src/objects.c: evict_connection, evict_pool_connection and evict_user_connection, which close an
-- unused server to make room for a new one.
pub mod Candidates
pub mod Oldest
pub mod Fewer
pub mod Tests
use pgbouncer.Base.{
  ℕ, Bool, true, false, List, [], ◌∷◌, Option, none, some, ltb, ◌==◌, if◌then◌else◌, ◌>>=◌,
}
use pgbouncer.Herd.Links.{Streams, disconnect_server}
use pgbouncer.Herd.Links.Release.{run}
use pgbouncer.Herd.{
  World, idle_server_list, used_server_list, tested_server_list, waiting_client_list,
}

pub is_none : List ℕ → Bool
is_none [] = true
is_none (x ∷ xs) = false

pub last_socket : List ℕ → Option ℕ
last_socket [] = none
last_socket (x ∷ []) = some x
last_socket (x ∷ y ∷ xs) = last_socket (y ∷ xs)

pub compare_connections_by_time : World → Option ℕ → Option ℕ → Option ℕ
compare_connections_by_time w none rhs = rhs
compare_connections_by_time w (some l) none = some l
compare_connections_by_time w (some l) (some r) =
    if ltb (w.servers l).request_time (w.servers r).request_time then some l else some r

-- The body of the loops over the pools.
pub oldest_of_pool : World → Option ℕ → ℕ → Option ℕ
oldest_of_pool w oldest p =
    let idle =
      compare_connections_by_time w oldest (last_socket (w.server_lists (idle_server_list p))) in
    if is_none (w.client_lists (waiting_client_list p))
    then compare_connections_by_time w
        (compare_connections_by_time w idle (last_socket (w.server_lists (used_server_list p))))
        (last_socket (w.server_lists (tested_server_list p)))
    else idle

pub oldest_connection : World → (ℕ → Bool) → Option ℕ → List ℕ → Option ℕ
unfolding oldest_of_pool
oldest_connection w sel oldest [] = oldest
oldest_connection w sel oldest (p ∷ ps) =
    oldest_connection w sel (if sel p then oldest_of_pool w oldest p else oldest) ps

abbrev pub of_database : World → ℕ → ℕ → Bool
of_database w d p = (w.pools p).db == d

-- Only the pools with these very credentials, not all of their user.
abbrev pub of_credentials : World → ℕ → ℕ → Bool
of_credentials w k p = elim (w.pools p).user_credentials [ none ↦ false | some k' ↦ k' == k ]

module _ (streams : Streams) where
  -- The calls of disconnect_server nest no deeper than 4.
  pub evict : World → Option ℕ → Option (World × Bool)
  evict w none = some (w, false)
  evict w (some s) = run streams 4 w (disconnect_server s) >>= λ w1. some (w1, true)

  pub evict_connection : World → ℕ → Option (World × Bool)
  unfolding evict oldest_connection
  evict_connection w d = evict w (oldest_connection w (of_database w d) none w.pool_list)

  pub evict_pool_connection : World → ℕ → Option (World × Bool)
  unfolding evict compare_connections_by_time last_socket
  evict_pool_connection w p =
      evict w
        (compare_connections_by_time w none (last_socket (w.server_lists (idle_server_list p))))

  pub evict_user_connection : World → ℕ → Option (World × Bool)
  unfolding evict oldest_connection
  evict_user_connection w k = evict w (oldest_connection w (of_credentials w k) none w.pool_list)
