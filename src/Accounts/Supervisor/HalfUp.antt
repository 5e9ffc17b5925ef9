-- ===== src/Accounts/Supervisor/HalfUp.antt =====
-- internal/accounts/supervisor.go: a start whose backend connects and whose session is not saved.
use agent_gm.Prelude.{◌≡◌, refl, ◌∙◌, ◌&&◌, true, false, none, some, String}
use agent_gm.Prelude.Rows.{first_where, update_where, first-update_where, first-where_holds}
use agent_gm.Accounts.Supervisor.{
  Supervised, Supervisor, StartEnv, up, save_fails, save_failed, is_named, running_count, capped,
  set_one, set_running, set_client, start, start_found, bring_up, after_connecting, after_saving,
  persist_session, stop, stopped,
}

up_fleet : String → Supervisor → Supervisor
unfolding update_where
up_fleet id s = set_one id (set_client true) (set_one id (set_running true) s)

start-up_fleet :
    (env : StartEnv) (id : String) (s : Supervisor) (a : Supervised)
    → first_where (is_named id) s.fleet ≡ some a
    → a.running ≡ false
    → capped s.max_concurrent (running_count s.fleet) ≡ false
    → env.prepare_fails ≡ false
    → env.connecting ≡ up
    → env.saving ≡ save_fails
    → start env id s ≡ (some save_failed, up_fleet id s)
unfolding start start_found bring_up after_connecting after_saving persist_session up_fleet
start-up_fleet env id s a found rests free ready connects fails =
    rw (found, rests, free, ready, connects, fails) refl

abbrev marked_up : Supervised → Supervised
marked_up a = record a { running = true; has_client = true }

up_fleet-found :
    (id : String) (s : Supervisor) (a : Supervised)
    → first_where (is_named id) s.fleet ≡ some a
    → first_where (is_named id) (up_fleet id s).fleet ≡ some (marked_up a)
unfolding up_fleet
up_fleet-found id s a found =
    let named = first-where_holds (is_named id) s.fleet a found in
    let first =
      first-update_where (is_named id) (is_named id) (set_running true) s.fleet (λ x. refl) in
    let second =
      first-update_where (is_named id) (is_named id) (set_client true)
        (update_where (is_named id) (set_running true) s.fleet) (λ x. refl) in
    rw (second, first, found, named, named) refl

again :
    (env : StartEnv) (id : String) (s : Supervisor) (a : Supervised)
    → first_where (is_named id) s.fleet ≡ some a
    → a.running ≡ true
    → start env id s ≡ (none, s)
unfolding start start_found
again env id s a found runs = rw (found, runs) refl

stop-found :
    (id : String) (s : Supervisor) (a : Supervised)
    → first_where (is_named id) s.fleet ≡ some a
    → a.running ≡ true
    → first_where (is_named id) (stop id s).fleet ≡ some (stopped a)
unfolding stop
stop-found id s a found runs =
    let named = first-where_holds (is_named id) s.fleet a found in
    first-update_where (is_named id) (λ x. is_named id x && x.running) stopped s.fleet (λ x. refl)
    ∙ rw (found, named, runs) refl

-- A start of an account at rest that finds a slot free, connects and then cannot save the session returns that error with the
-- account left running, with its client and without its goroutine, and no state is written or
-- announced. A start of it directly after that returns no error and does nothing; a stop directly
-- after it leaves the account neither running nor with a client.
pub start-half_up :
    (env env' : StartEnv) (id : String) (s : Supervisor) (a : Supervised)
    → first_where (is_named id) s.fleet ≡ some a
    → a.running ≡ false
    → a.looping ≡ false
    → capped s.max_concurrent (running_count s.fleet) ≡ false
    → env.prepare_fails ≡ false
    → env.connecting ≡ up
    → env.saving ≡ save_fails
    → (a' : Supervised) × ((start env id s).0 ≡ some save_failed)
      × (first_where (is_named id) (start env id s).1.fleet ≡ some a')
      × (a'.running ≡ true)
      × (a'.has_client ≡ true)
      × (a'.looping ≡ false)
      × ((start env id s).1.rows ≡ s.rows)
      × ((start env id s).1.announced ≡ s.announced)
      × (start env' id (start env id s).1 ≡ (none, (start env id s).1))
      × ((down : Supervised) × (first_where (is_named id) (stop id (start env id s).1).fleet
            ≡ some down)
          × (down.running ≡ false)
          × (down.has_client ≡ false))
unfolding up_fleet
start-half_up env env' id s a found rests quiet free ready connects fails =
    let e = start-up_fleet env id s a found rests free ready connects fails in
    let there = up_fleet-found id s a found in
    rw e (
      marked_up a,
      refl,
      there,
      refl,
      refl,
      quiet,
      refl,
      refl,
      again env' id (up_fleet id s) (marked_up a) there refl,
      (stopped (marked_up a), stop-found id (up_fleet id s) (marked_up a) there refl, refl, refl),
    )
