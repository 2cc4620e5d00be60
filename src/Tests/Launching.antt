-- ===== src/Tests/Launching.antt =====
-- The theorems about backend/sessions/: learner 1 and lab 7, which has one slot.
use onlinetlabs.Base.{
  ◌-◌, ◌≡◌, refl, true, false, not, ◌&&◌, ◌||◌, some, none, [], ◌∷◌, arith, if◌then◌else◌, is_some,
}
use onlinetlabs.Redis.{active_key, total_key, counter_key_eq}
use onlinetlabs.Queue.{has_free_slot}
use onlinetlabs.Consent.{granted}
use onlinetlabs.Sessions.{
  Session, Rows, finalized, Meta, active, ended, error, provisioning_row, create_provisioning_row,
  finalize_session_row, finalize_found, finalize_fields, get_active_session, get_owned_session,
  count_active_sessions, update_row,
}
use onlinetlabs.Lifecycle.{World, ended_fields, end_lab}
use onlinetlabs.Lifecycle.Transactions.{
  Reach, here, next, creates, finalizes, ends, IsConsistent, Reach-IsConsistent,
}
use onlinetlabs.Lifecycle.Ends.{end_lab_lem, finalize_session_row-ended}
use onlinetlabs.Launch.{LaunchEnv, ready, launch_endpoint}
use onlinetlabs.Launch.Slots.{counts_lab, keeps_slot, launch_endpoint-slots}
use onlinetlabs.Tests.Fixtures.{Memory, memory, empty, two_slots, put_counter}

abbrev project : Meta
project = record { gns3_service_session_id = 3; gns3_project_id = 4 }

abbrev environment : LaunchEnv
environment = record {
  study_decision = some granted;
  lab = ready;
  postgres = true;
  max_per_user = 2;
  max_duration = 3600;
  locale = 0;
  now = 100;
  fresh_id = 5;
  provisioned = some project;
  ticket_ok = true;
  acquire_ok = true;
  dequeue_ok = true;
  release_ok = true;
  before_lookup = λ rows. rows;
  before_insert = λ rows. rows;
  while_provisioning = λ rows. rows;
}

abbrev nothing_yet : World Memory
nothing_yet = record { rows = []; slots = empty }

-- The session is committed and the slot given back, since no ticket can be issued.
abbrev no_ticket : LaunchEnv
no_ticket = record environment { ticket_ok = false }

launch_endpoint-slots_example :
    let (w', response) = launch_endpoint memory two_slots nothing_yet 1 7 no_ticket in
    w'.slots.counters (active_key 7) ≡ (
      if is_some no_ticket.study_decision
        && not (is_some (get_active_session [] 1 7))
        && no_ticket.acquire_ok
        && has_free_slot memory two_slots empty 7
        && keeps_slot no_ticket response
        && counts_lab 7 (active_key 7)
      then 1
      else 0)
launch_endpoint-slots_example =
    launch_endpoint-slots memory two_slots nothing_yet 1 7 no_ticket (active_key 7)

abbrev first_row : Session
first_row = provisioning_row 5 1 7 0 100 3600

abbrev launched_row : Session
launched_row = finalize_fields active (some project) first_row

-- A launch, its activation, and its end.
lifetime : Reach [] (update_row 5 (ended_fields ended 300) (launched_row ∷ []))
unfolding create_provisioning_row finalize_session_row finalize_found count_active_sessions
lifetime =
    next
      (next (next here (creates true 2 5 1 7 0 100 3600 {s = first_row} refl refl))
        (finalizes 5 active (some project) {s = launched_row} refl))
      (ends 5 ended 300 refl)

Reach-IsConsistent_example :
    IsConsistent (update_row 5 (ended_fields ended 300) (launched_row ∷ []))
Reach-IsConsistent_example =
    Reach-IsConsistent lifetime
      (record { unique_ids = λ id. omega arith; one_live = λ user lab. omega arith })

-- A launch that failed: its slot is given back, and its row has no end.
abbrev failed_row : Session
failed_row = finalize_fields error none first_row

abbrev one_failed : World Memory
one_failed = record {
  rows = failed_row ∷ [];
  slots = put_counter (put_counter empty (active_key 7) 1) total_key 1;
}

end_lab_lem_example :
    (end_lab memory two_slots (end_lab memory two_slots one_failed 5 1 300 true).0 5 1 400 true
      ≡ end_lab memory two_slots one_failed 5 1 300 true)
    × (get_owned_session one_failed.rows 5 1 ≡ some failed_row
        → failed_row.ended_at ≡ none
        → let (w', found) = end_lab memory two_slots one_failed 5 1 300 true in
          (get_owned_session w'.rows 5 1 ≡ some (ended_fields ended 300 failed_row))
          × (w'.slots.counters total_key ≡ (
              if counter_key_eq (active_key 7) total_key || counter_key_eq total_key total_key
              then 1 - 1
              else 1)))
end_lab_lem_example =
    end_lab_lem memory two_slots one_failed 5 1 300 400 true true failed_row total_key

-- The row of a launch that the reaper has ended while it was provisioning.
abbrev reaped_row : Session
reaped_row = ended_fields ended 200 first_row

abbrev one_reaped : World Memory
one_reaped = record { rows = reaped_row ∷ []; slots = empty }

finalize_session_row-ended_example :
    (after : Rows) × (after_row : Session) × (finalize_session_row
        (reaped_row ∷ [])
        5
        active
        (some project)
      ≡ finalized after after_row)
    × (get_owned_session after 5 1 ≡ some after_row)
    × (after_row.status ≡ active)
    × (after_row.ended_at ≡ some 200)
    × ((end_lab memory two_slots (record one_reaped { rows = after }) 5 1 300 true).0
        ≡ record one_reaped { rows = after })
    × (is_some (get_active_session after 1 7) ≡ true)
unfolding get_owned_session
finalize_session_row-ended_example =
    finalize_session_row-ended memory two_slots one_reaped 5 1 (some project) reaped_row 300 true
      refl refl refl refl
