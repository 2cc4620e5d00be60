-- ===== src/Tests/Answers.antt =====
-- The theorems about backend/validation/checks/vpcs.py and backend/experiment/.
use onlinetlabs.Base.{
  ℕ, ◌≡◌, refl, true, false, Bool, ◌||◌, ◌&&◌, not, Option, none, some, [], ◌∷◌, ◌++◌, map, ◌≤◌,
  ◌⊎◌, if◌then◌else◌, ◌==◌, or_else,
}
use onlinetlabs.Vpcs.{
  Text, Answers, Shown, equals, read_from, read_show_ip, vpcs_show_ip, ip_in_subnet,
  vpcs_ip_in_subnet,
}
use onlinetlabs.Vpcs.Patterns.{Expected, pattern_text, matches, compare_by}
use onlinetlabs.Vpcs.Patterns.Reading.{ge, text_of, meaning, value_from, matches-text_of}
use onlinetlabs.Vpcs.Pinging.{vpcs_ping}
use onlinetlabs.Vpcs.Verdicts.{is_asked, is_seen, reads_as, address_checks_lem}
use onlinetlabs.Experiment.Metrics.{Event, error, max_consecutive_errors}
use onlinetlabs.Experiment.Metrics.Runs.{IsJust, max_consecutive_errors_lem}

abbrev pub unread : Shown
unread = record { ip = []; gateway = [] }

abbrev pub address : Shown
address = record { ip = 49 ∷ 47 ∷ 56 ∷ []; gateway = 50 ∷ [] }

-- The first connection raises, the second shows nothing twice, the third answers at last.
abbrev pub slow_console : ℕ → Option Answers
slow_console attempt =
    if attempt == 0
    then none
    else some (record { first = unread; second = if attempt == 2 then address else unread })

slow_console_read : read_show_ip slow_console ≡ some address
unfolding read_from
slow_console_read = refl

abbrev pub any_network : Text → Text → Option Bool
any_network a subnet = some true

address_checks_lem_example :
    let shown = vpcs_show_ip (some (80 ∷ [])) (some 5000) slow_console (some address.ip) none in
    let inside =
      vpcs_ip_in_subnet any_network (some (80 ∷ [])) (some 5000) slow_console none none in
    let asked = is_asked (some (80 ∷ [])) (some 5000) in
    (shown.observed ≡ (not asked || is_seen slow_console))
    × (inside.observed ≡ (not asked || is_seen slow_console))
    × (shown.ok ≡ (
        asked
        && reads_as
            (λ s. equals (some address.ip) s.ip && equals none s.gateway)
            (read_show_ip slow_console)))
    × (inside.ok ≡ (
        asked
        && reads_as
            (λ s. ip_in_subnet any_network s.ip (or_else none []) && equals none s.gateway)
            (read_show_ip slow_console)))
address_checks_lem_example =
    address_checks_lem any_network (some (80 ∷ [])) (some 5000) slow_console (some address.ip) none
      none

-- A failed connection is a judgement on the answer, not an unobserved check.
no_connection_observed :
    (vpcs_ping (some (80 ∷ [])) (some (81 ∷ [])) (some 5000) none Expected.other none).observed
    ≡ true
unfolding vpcs_ping
no_connection_observed = refl

-- `" >= 12 "`
matches-text_of_example :
    matches
      (some 15)
      (pattern_text ((32 ∷ []) ++ (text_of ge ++ ((32 ∷ []) ++ (49 ∷ 50 ∷ [] ++ (32 ∷ []))))))
    ≡ compare_by (meaning ge) 15 (value_from 0 (49 ∷ 50 ∷ []))
matches-text_of_example =
    matches-text_of 15 ge (32 ∷ []) (32 ∷ []) (32 ∷ []) 49 (50 ∷ []) refl refl refl refl

abbrev pub failing : ℕ → Event
failing m = record { event_type = error; message = some m; success = false }

-- One error alone is no repetition.
one_error : max_consecutive_errors (failing 1 ∷ failing 2 ∷ []) ≡ 0
unfolding max_consecutive_errors
one_error = refl

max_consecutive_errors_lem_example :
    let errors = failing 1 ∷ failing 2 ∷ failing 2 ∷ failing 1 ∷ [] in
    let best = max_consecutive_errors errors in
    IsJust 0 (map (λ e. e.message) errors) best × ((2 ≤ 1) ⊎ (2 ≤ best))
max_consecutive_errors_lem_example =
    max_consecutive_errors_lem (failing 1 ∷ failing 2 ∷ failing 2 ∷ failing 1 ∷ []) 2
      (some 1 ∷ [], 2, some 1 ∷ [], refl)
