-- ===== src/Herd/Links/Loose.antt =====
-- release_server of src/objects.c: servers without a link, and the change of their state.
use mathlib.Core.Option.{some-injective}
use pgbouncer.Base.{
  ℕ, ◌≡◌, refl, ap, sym, subst, Bool, true, false, ◌∙◌, Option, none, some, arith, ◌==◌, ◌>>=◌,
}
use pgbouncer.Herd.Links.Sound.{unlinked_at, IsSound}
use pgbouncer.Herd.Links.Keeps.{Closed, Keeps, Keeps-refl, Gives, Answers, Answers-bind}
use pgbouncer.Herd.Links.Steps.{change_server_state-move, move_server-IsSound, server_list-some}
use pgbouncer.Herd.Links.Disconnect.{set_pool-IsSound}
use pgbouncer.Herd.Links.Release.{closed, closed_for_age}
use pgbouncer.Herd.Links.{Streams, Runner, disconnect_server, set_pool}
use pgbouncer.Herd.{World, ServerState, server_list, is_live, move_server, change_server_state}

-- What is needed of the closing of a server that is not linked.
abbrev pub Closes : Runner → Type 0
Closes call =
    (w : World) (s : ℕ)
    → IsSound w
    → is_live (w.servers s).state ≡ true
    → (w.servers s).link ≡ none
    → Gives (call w (disconnect_server s)) (Closed s w)

abbrev pub Released : World → ℕ → World → Type 0
Released w s w' = IsSound w' × Keeps (λ i. i == s) w w'

-- A server that may be put in another state: it has a pool with credentials and no link.
pub record IsLoose (w : World) (s p : ℕ) : Type 0 where
  pub sound : IsSound w
  pub live : is_live (w.servers s).state ≡ true
  pub unlinked : (w.servers s).link ≡ none
  pub in_pool : (w.servers s).pool ≡ some p
  pub credentials : (u : ℕ) × ((w.pools p).user_credentials ≡ some u)

module _ (streams : Streams) (call : Runner) (closes : Closes call) where
  pub closed-Answers :
      (w : World) (s p : ℕ) (r : Bool)
      → IsLoose w s p
      → Answers (closed streams call w s r) (Released w s)
  unfolding closed
  closed-Answers w s p r l =
      let (w', e, (v, k, _, _, _)) = closes w s l.sound l.live l.unlinked in
      ((w', r), ap (λ o. o >>= λ w1. some (w1, r)) e, (v, k))

  pub closed_for_age-Answers :
      (w : World) (s p : ℕ)
      → IsLoose w s p
      → Answers (closed_for_age streams call w s p) (Released w s)
  unfolding closed_for_age
  closed_for_age-Answers w s p l =
      let (w', e, (v, k, _, _, _)) = closes w s l.sound l.live l.unlinked in
      let pool = record (w'.pools p) { last_lifetime_disconnect = w'.now } in
      (
        (set_pool w' p pool, false),
        ap
            (λ o. o >>= λ w1.
              some
                (set_pool w1 p (record (w1.pools p) { last_lifetime_disconnect = w1.now }), false))
            e,
        (
          set_pool-IsSound w' p pool v refl refl,
          record { clients = k.clients; requests = k.requests; servers = k.servers },
        ),
      )

  -- A server without a link goes to another state.
  pub change-Answers :
      (w : World) (s p : ℕ) (new : ServerState) (f : World → Option (World × Bool))
      → IsLoose w s p
      → is_live new ≡ true
      → ((w1 : World)
          → IsLoose w1 s p
          → ((w1.servers s).state ≡ new)
          → Answers (f w1) (Released w1 s))
      → Answers (change_server_state w s new >>= f) (Released w s)
  unfolding move_server
  change-Answers w s p new f l live next =
      let (o1, e1) = l.sound.server_listed s in
      let (o2, e2') = server_list-some new p in
      let e2 : server_list new (w.servers s).pool ≡ some o2 =
        ap (server_list new) l.in_pool ∙ e2' in
      let w1 = move_server w s new o1 o2 in
      let loose : IsLoose w1 s p = record {
        sound =
            move_server-IsSound w l.sound s new o1 o2 e1 e2 l.live live
              (λ c h. absurd (cc (unlinked_at w s l.sound l.unlinked c, h)))
              λ q _ e.
                subst (λ q. (u : ℕ) × ((w.pools q).user_credentials ≡ some u))
                  (some-injective _ _ (sym l.in_pool ∙ e)) l.credentials;
        live = ground (arith, live);
        unlinked = ground (arith, l.unlinked);
        in_pool = ground (arith, l.in_pool);
        credentials = l.credentials;
      } in
      Answers-bind _ (change_server_state w s new) f (change_server_state-move w s new o1 o2 e1 e2)
        (let (r, e, (v, k)) = next w1 loose (ground arith) in
          (
            r,
            e,
            (
              v,
              record {
                clients = k.clients;
                requests = k.requests;
                servers = λ i h d. k.servers i h (rw h d);
              },
            ),
          ))

  pub answered : (w : World) (s : ℕ) (r : Bool) → IsSound w → Answers (some (w, r)) (Released w s)
  answered w s r v = ((w, r), refl, (v, Keeps-refl (λ i. i == s) w))
