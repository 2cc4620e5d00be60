-- ===== src/Capture/Drain.antt =====
-- The rounds of a drain of gns3/gns3-service/src/console_capture.py.
use onlinetlabs.Base.{ℕ, ◌+◌, ◌≡◌, ◌≢◌, List, [], ◌∷◌, length}
use onlinetlabs.Capture.{Capture, cancelled, Finish, returned, Round}

-- A round whose commits are not cancelled.
abbrev pub IsSettling : Round → Type 0
IsSettling round = (round.fate.chunks ≢ cancelled) × (round.fate.commands ≢ cancelled)

-- How many items are submitted while a drain awaits.
abbrev pub arrivals : List Round → ℕ
arrivals [] = 0
arrivals (round ∷ rounds) = length round.meanwhile + arrivals rounds

-- A drain that has emptied the backlog.
abbrev pub IsEmptied : Capture × Finish → Type 0
IsEmptied r = (r.1 ≡ returned) × (r.0.queue ≡ []) × (r.0.in_flight ≡ [])
