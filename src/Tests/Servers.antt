-- ===== src/Tests/Servers.antt =====
-- The theorems about gns3/gns3-service/src/ and backend/sessions/monitor_registry.py.
use onlinetlabs.Base.{
  ℕ, ◌≡◌, refl, true, false, ◌||◌, not, none, some, [], ◌∷◌, arith, contains, ◌++◌, if◌then◌else◌,
  ◌==◌,
}
use onlinetlabs.Gns3.{Books}
use onlinetlabs.Gns3.Sessions.{CreateReplies, ResetReplies, DeleteReplies, create_session}
use onlinetlabs.Gns3.Sessions.Creation.{
  is_done, all_return, left, made_user, users_before, added, is_written, create_session_lem,
}
use onlinetlabs.Gns3.Sessions.Backing.{
  creates, resets, deletes, IsBacked, serve_all, serve_all-IsBacked,
}
use onlinetlabs.Gns3.Gate.{
  Stage, fresh, Gate, Reach, here, next, IsFresh, enters, acquires, inside, finds_own, deletes,
  expires,
}
use onlinetlabs.Gns3.Gate.Held.{gate-exclusive, CanMove, gate-CanMove}
use onlinetlabs.Registry.{Registry, StartReplies, start, stop_all, put}
use onlinetlabs.Registry.Pairing.{starts, stops, run_calls, IsPaired, run_calls_lem}

abbrev pub no_books : Books
no_books = record { users = []; projects = []; acls = []; rows = []; followed = [] }

-- A launch in which everything returns.
abbrev pub launch : ℕ → ℕ → ℕ → CreateReplies
launch k u p = record {
  session_id = k;
  project = some p;
  orphan = some none;
  orphan_deleted = true;
  user = some u;
  opened = true;
  project_acl = true;
  list_acl = true;
  token = some 99;
  committed = true;
  refreshed = true;
  proxy_started = true;
  project_deleted = true;
  user_deleted = true;
}

-- The user cannot be made: the project of the task is left, though its deletion would return.
project_left : (create_session (record (launch 1 7 8) { user = none }) no_books).1.projects ≡ 8 ∷ []
unfolding create_session
project_left = refl

-- The project cannot be made: the user is left.
user_left : (create_session (record (launch 1 7 8) { project = none }) no_books).1.users ≡ 7 ∷ []
unfolding create_session
user_left = refl

create_session_lem_example :
    let r = record (launch 1 7 8) { list_acl = false } in
    let (o, b') = create_session r no_books in
    (is_done o ≡ all_return r)
    × (b'.users ≡ left r r.user_deleted (made_user r) (users_before r no_books))
    × (b'.projects ≡ left r r.project_deleted r.project [])
    × (b'.rows ≡ [] ++ added (is_written r) r.session_id (made_user r) r.project)
create_session_lem_example =
    create_session_lem (record (launch 1 7 8) { list_acl = false }) no_books

abbrev pub resetting : ResetReplies
resetting = record {
  project = some 9;
  opened = true;
  project_acl = true;
  committed = true;
  proxy_stopped = true;
  proxy_started = true;
  old_deleted = true;
}

abbrev pub deleting_all : DeleteReplies
deleting_all = record {
  proxy_stopped = true;
  user_deleted = true;
  project_deleted = false;
  committed = true;
}

serve_all-IsBacked_example :
    IsBacked (
      serve_all
        (creates (launch 1 7 8) ∷ resets resetting 1 ∷ deletes deleting_all 1 ∷ [])
        no_books)
serve_all-IsBacked_example =
    serve_all-IsBacked (creates (launch 1 7 8) ∷ resets resetting 1 ∷ deletes deleting_all 1 ∷ [])
      no_books ((refl, tt), (tt, (refl, tt))) (λ k. (omega arith, omega arith))

abbrev pub free_gate : Gate
free_gate = record { lock = none; local = λ _. none; stage = λ _. fresh }

free_gate-IsFresh : IsFresh free_gate
free_gate-IsFresh = (refl, λ _. refl, λ _. refl)

gate-exclusive_example : ◌≡◌ {A = ℕ} 3 3
gate-exclusive_example =
    gate-exclusive (λ i. i) true free_gate _ free_gate-IsFresh
      (next (next here (enters 3 refl refl)) (acquires 3 refl refl)) 3 3 refl refl refl

gate-CanMove_example :
    CanMove
      (λ i. i)
      true
      (record {
        lock = some 3;
        local = λ k. if 3 == k then some 3 else none;
        stage = λ i. if 3 == i then inside true else (if 3 == i then Stage.waiting else fresh);
      })
gate-CanMove_example =
    gate-CanMove (λ i. i) free_gate _ free_gate-IsFresh
      (next (next here (enters 3 refl refl)) (acquires 3 refl refl)) 4 (λ h. cc)

abbrev pub no_monitors : Registry
no_monitors = record { monitors = []; observers = [] }

abbrev pub all_start : StartReplies
all_start = record { observes = true; arm_resolved = true; monitor_started = true }

run_calls_lem_example :
    let r' = run_calls (starts all_start 1 ∷ starts all_start 2 ∷ stops 1 ∷ []) no_monitors in
    let (returned, r'') = start (record all_start { monitor_started = false }) 3 r' in
    let (all_returned, emptied) = stop_all (λ _. true) r' in
    IsPaired r'
    × ((returned || not (contains 3 r''.observers)) ≡ true)
    × (r''.monitors ≡ (if returned then put 3 r'.monitors else r'.monitors))
    × (all_returned ≡ true)
    × (contains 2 emptied.monitors ≡ false)
    × (contains 2 emptied.observers ≡ false)
run_calls_lem_example =
    run_calls_lem (starts all_start 1 ∷ starts all_start 2 ∷ stops 1 ∷ []) no_monitors (λ j h. h)
      (record all_start { monitor_started = false }) 3 2

-- Three replicas, where the first outlives its lock between the read and the deletion of its
-- release: the second takes the lock, the first deletes it, and the third enters beside the second.
two_inside :
    (g : Gate) × Reach (λ i. i) false free_gate g
    × (g.stage 2 ≡ inside true)
    × (g.stage 3 ≡ inside true)
two_inside =
    let start_1 = next (next here (enters 1 refl refl)) (acquires 1 refl refl) in
    let read_1 = next start_1 (finds_own 1 refl refl) in
    let lost_1 = next read_1 (expires refl) in
    let in_2 = next (next lost_1 (enters 2 refl refl)) (acquires 2 refl refl) in
    let deleted_2 = next in_2 (deletes 1 refl) in
    let in_3 = next (next deleted_2 (enters 3 refl refl)) (acquires 3 refl refl) in
    (_, in_3, refl, refl)
