-- ===== src/Collector/Window.antt =====
-- How far apart backend/analytics/runtime/collector.py stores two events of one key.
use onlinetlabs.Base.{
  ℕ, zero, suc, ◌≡◌, refl, sym, ap, ◌∙◌, false, Option, none, some, List, [], ◌∷◌, ◌++◌, map, take,
  contains, Bool-cases, inl, inr,
}
use onlinetlabs.Collector.{
  UserAction, LogEntry, ErrorEntry, EventType, action_event, log_event, error_event, ActionName,
  log, BehavioralEvent, Collector, is_new, take_actions, take_logs, fetch_actions, fetch_logs,
  fetch_errors, poll_cycle, Cycle, normalize_user_action, normalize_log_entry,
  normalize_error_entry, action_key, log_key, resolve_type,
}

-- Of keys, the newest first: none is among the `n` before it.
abbrev pub IsSpaced : ℕ → List ℕ → Type 0
IsSpaced n [] = Unit
IsSpaced n (k ∷ older) = (contains k (take n older) ≡ false) × IsSpaced n older

take_less : (n : ℕ) (xs : List ℕ) → take n (take (suc n) xs) ≡ take n xs
take_less zero xs = refl
take_less (suc n) [] = refl
take_less (suc n) (x ∷ xs) = ap (λ r. x ∷ r) (take_less n xs)

take_none : (n : ℕ) → take {A = ℕ} n [] ≡ []
take_none zero = refl
take_none (suc n) = refl

-- To keep the newest `n`, the newest `n` of before are enough.
take-cons-take : (n k : ℕ) (xs : List ℕ) → take n (k ∷ take n xs) ≡ take n (k ∷ xs)
take-cons-take zero k xs = refl
take-cons-take (suc n) k xs = ap (λ r. k ∷ r) (take_less n xs)

module _ (digest : ℕ → ActionName → Option ℕ → ℕ) (dedup_max_size : ℕ) where
  -- The keys of events of one kind, put before those of older events.
  abbrev pub note_key : EventType → BehavioralEvent → List ℕ → List ℕ
  note_key action_event e older = digest e.timestamp e.action e.component_id ∷ older
  note_key log_event e older = digest e.timestamp log e.component_id ∷ older
  note_key error_event e older = older

  -- The keys of the actions and log entries among events, the newest first.
  unfoldable pub note_keys : List BehavioralEvent → List ℕ → List ℕ
  note_keys [] older = older
  note_keys (e ∷ es) older = note_keys es (note_key e.event_type e older)

  -- The events of all cycles, in their order.
  unfoldable pub collected : List Cycle → Collector → List BehavioralEvent
  collected [] k = []
  collected (c ∷ cs) k =
      let (events, after) = poll_cycle digest dedup_max_size c k in events ++ collected cs after

  -- The collector has seen the newest of the keys, and these are spaced.
  abbrev IsFollowing : Collector → List ℕ → Type 0
  IsFollowing k keys = (k.seen ≡ take dedup_max_size keys) × IsSpaced dedup_max_size keys

  note_keys-append :
      (xs ys : List BehavioralEvent) (older : List ℕ)
      → note_keys (xs ++ ys) older ≡ note_keys ys (note_keys xs older)
  unfolding note_keys
  note_keys-append [] ys older = refl
  note_keys-append (x ∷ xs) ys older = note_keys-append xs ys (note_key x.event_type x older)

  IsFollowing-new :
      (key : ℕ) (k : Collector) (keys : List ℕ) (types : List (ℕ × ℕ))
      → IsFollowing k keys
      → contains key k.seen ≡ false
      → IsFollowing
          (record k { seen = take dedup_max_size (key ∷ k.seen); component_types = types })
          (key ∷ keys)
  IsFollowing-new key k keys types (seen, spaced) new = (
    ap (λ s. take dedup_max_size (key ∷ s)) seen ∙ take-cons-take dedup_max_size key keys,
    (ap (contains key) (sym seen) ∙ new, spaced),
  )

  take_actions-IsFollowing :
      (component_type : ℕ → Option ℕ) (entries : List UserAction) (k : Collector) (keys : List ℕ)
      → IsFollowing k keys
      → let (events, after) = take_actions digest dedup_max_size component_type entries k in
        IsFollowing after (note_keys events keys)
  unfolding take_actions is_new note_keys normalize_user_action
  take_actions-IsFollowing component_type [] k keys h = h
  take_actions-IsFollowing component_type (a ∷ rest) k keys h =
      elim (Bool-cases (contains (action_key digest dedup_max_size a) k.seen)) [
        | inl e ↦ rw e (take_actions-IsFollowing component_type rest k keys h)
        | inr e ↦ rw e (
            take_actions-IsFollowing component_type rest _ _ (
              IsFollowing-new _ k keys
                (resolve_type component_type a.component_id k.component_types) h e))
      ]

  take_logs-IsFollowing :
      (entries : List LogEntry) (k : Collector) (keys : List ℕ)
      → IsFollowing k keys
      → let (events, after) = take_logs digest dedup_max_size entries k in
        IsFollowing after (note_keys events keys)
  unfolding take_logs is_new note_keys normalize_log_entry
  take_logs-IsFollowing [] k keys h = h
  take_logs-IsFollowing (l ∷ rest) k keys h =
      elim (Bool-cases (contains (log_key digest dedup_max_size l) k.seen)) [
        | inl e ↦ rw e (take_logs-IsFollowing rest k keys h)
        | inr e ↦
            rw e (take_logs-IsFollowing rest _ _ (IsFollowing-new _ k keys k.component_types h e))
      ]

  note_keys-errors :
      (errors : List ErrorEntry) (keys : List ℕ)
      → note_keys (map normalize_error_entry errors) keys ≡ keys
  unfolding note_keys normalize_error_entry
  note_keys-errors [] keys = refl
  note_keys-errors (e ∷ es) keys = note_keys-errors es keys

  fetch_actions-IsFollowing :
      (component_type : ℕ → Option ℕ) (answer : Option (List UserAction)) (k : Collector)
      (keys : List ℕ)
      → IsFollowing k keys
      → let (events, after) = fetch_actions digest dedup_max_size component_type answer k in
        IsFollowing after (note_keys events keys)
  unfolding fetch_actions note_keys
  fetch_actions-IsFollowing component_type none k keys h = h
  fetch_actions-IsFollowing component_type (some entries) k keys h =
      take_actions-IsFollowing component_type entries k keys h

  fetch_logs-IsFollowing :
      (answer : Option (List LogEntry)) (k : Collector) (keys : List ℕ)
      → IsFollowing k keys
      → let (events, after) = fetch_logs digest dedup_max_size answer k in
        IsFollowing after (note_keys events keys)
  unfolding fetch_logs note_keys
  fetch_logs-IsFollowing none k keys h = h
  fetch_logs-IsFollowing (some entries) k keys h = take_logs-IsFollowing entries k keys h

  fetch_errors-IsFollowing :
      (now : ℕ) (answer : Option (List ErrorEntry)) (k : Collector) (keys : List ℕ)
      → IsFollowing k keys
      → let (events, after) = fetch_errors digest dedup_max_size now answer k in
        IsFollowing after (note_keys events keys)
  unfolding fetch_errors note_keys
  fetch_errors-IsFollowing now none k keys h = h
  fetch_errors-IsFollowing now (some entries) k keys h = rw (note_keys-errors entries keys) h

  poll_cycle-IsFollowing :
      (c : Cycle) (k : Collector) (keys : List ℕ)
      → IsFollowing k keys
      → let (events, after) = poll_cycle digest dedup_max_size c k in
        IsFollowing after (note_keys events keys)
  unfolding poll_cycle
  poll_cycle-IsFollowing c k keys h =
      let (actions, k1) = fetch_actions digest dedup_max_size c.component_type c.actions k in
      let (logs, k2) = fetch_logs digest dedup_max_size c.logs k1 in
      let answer = c.errors k2.last_error_poll in
      let errors = (fetch_errors digest dedup_max_size c.now answer k2).0 in
      let h1 = fetch_actions-IsFollowing c.component_type c.actions k keys h in
      let h2 = fetch_logs-IsFollowing c.logs k1 (note_keys actions keys) h1 in
      let h3 =
        fetch_errors-IsFollowing c.now answer k2 (note_keys logs (note_keys actions keys)) h2 in
      let parts : note_keys (actions ++ logs ++ errors) keys
          ≡ note_keys errors (note_keys logs (note_keys actions keys)) =
        note_keys-append (actions ++ logs) errors keys
        ∙ ap (note_keys errors) (note_keys-append actions logs keys) in
      rw parts h3

  collected-IsFollowing :
      (cs : List Cycle) (k : Collector) (keys : List ℕ)
      → IsFollowing k keys
      → IsSpaced dedup_max_size (note_keys (collected cs k) keys)
  unfolding collected note_keys
  collected-IsFollowing [] k keys h = h.1
  collected-IsFollowing (c ∷ cs) k keys h =
      let (events, after) = poll_cycle digest dedup_max_size c k in
      rw (note_keys-append events (collected cs after) keys)
        (collected-IsFollowing cs after (note_keys events keys) (poll_cycle-IsFollowing c k keys h))

  -- Whatever the server answers, and whichever calls fail, a collector that starts with nothing
  -- collects no action or log entry whose key is among those of the `dedup_max_size` actions and log
  -- entries it has collected before it.
  collected-IsSpaced :
      (cs : List Cycle) (types : List (ℕ × ℕ)) (polled : Option ℕ)
      → IsSpaced dedup_max_size (
          note_keys
            (collected cs (record { seen = []; component_types = types; last_error_poll = polled }))
            [])
  collected-IsSpaced cs types polled =
      collected-IsFollowing cs _ [] (sym (take_none dedup_max_size), tt)
