-- ===== src/Collector/Again.antt =====
-- What backend/analytics/runtime/collector.py collects of entries that a server answers twice, and what
-- becomes of them when the first write fails.
use onlinetlabs.Base.{
  ℕ, zero, suc, ◌+◌, ◌≤◌, ◌≡◌, refl, ap, ◌∙◌, arith, true, Option, none, some, List, [], ◌∷◌, take,
  length, contains, ==_refl, ◌||◌, Bool-cases, inl, inr, All, All-weaken,
}
use onlinetlabs.Collector.{
  UserAction, LogEntry, ErrorEntry, ActionName, BehavioralEvent, Collector, is_new, take_actions,
  take_logs, fetch_actions, fetch_logs, fetch_errors, poll_cycle, persist, poll_loop, Cycle,
  action_key, log_key, resolve_type,
}

take_all : (n : ℕ) (xs : List ℕ) → length xs ≤ n → take n xs ≡ xs
take_all zero [] le = refl
take_all zero (x ∷ xs) le = absurd (omega arith)
take_all (suc n) [] le = refl
take_all (suc n) (x ∷ xs) le = ap (λ r. x ∷ r) (take_all n xs (omega arith))

contains-cons : (x k : ℕ) (xs : List ℕ) → contains x xs ≡ true → contains x (k ∷ xs) ≡ true
contains-cons x k xs h = ground (arith)

contains_head : (k : ℕ) (xs : List ℕ) → contains k (k ∷ xs) ≡ true
contains_head k xs = ap (λ b. b || contains k xs) (==_refl k)

grows : (b s r a : ℕ) → s ≡ suc b → a ≤ s + r → a ≤ b + suc r
grows b s r a e le = omega arith

fits : (s b r n : ℕ) → s ≡ suc b → b + suc r ≤ n → s + r ≤ n
fits s b r n e le = omega arith

both : (s a b l n : ℕ) → s ≤ b + a → b + (a + l) ≤ n → s + l ≤ n
both s a b l n short le = omega arith

-- Along a list of entries the keys seen grow by at most one each, none is forgotten, and every entry's
-- key is seen in the end.
record IsCovering {A : Type 0} (key : A → ℕ) (entries : List A) (before after : List ℕ)
    : Type 0 where
  is_short : length after ≤ length before + length entries
  keeps : (x : ℕ) → contains x before ≡ true → contains x after ≡ true
  has_all : All (λ a. contains (key a) after ≡ true) entries

module _ {A : Type 0} (key : A → ℕ) (a : A) (rest : List A) (before after : List ℕ) where
  IsCovering-old :
      contains (key a) before ≡ true
      → IsCovering key rest before after
      → IsCovering key (a ∷ rest) before after
  IsCovering-old h c = record {
    is_short = omega (arith, c.is_short);
    keeps = c.keeps;
    has_all = (c.keeps (key a) h, c.has_all);
  }

  IsCovering-new :
      (seen : List ℕ)
      → seen ≡ key a ∷ before
      → IsCovering key rest seen after
      → IsCovering key (a ∷ rest) before after
  IsCovering-new seen e c = record {
    is_short = grows (length before) (length seen) (length rest) _ (ap length e) c.is_short;
    keeps = λ x h. c.keeps x (ap (contains x) e ∙ contains-cons x (key a) before h);
    has_all = (c.keeps (key a) (ap (contains (key a)) e ∙ contains_head (key a) before), c.has_all);
  }

module _ (digest : ℕ → ActionName → Option ℕ → ℕ) (dedup_max_size : ℕ) where
  take_actions-IsCovering :
      (component_type : ℕ → Option ℕ) (entries : List UserAction) (k : Collector)
      → length k.seen + length entries ≤ dedup_max_size
      → IsCovering
          (action_key digest dedup_max_size)
          entries
          k.seen
          (take_actions digest dedup_max_size component_type entries k).1.seen
  unfolding take_actions is_new
  take_actions-IsCovering component_type [] k le = record {
    is_short = omega arith;
    keeps = λ x h. h;
    has_all = tt;
  }
  take_actions-IsCovering component_type (a ∷ rest) k le =
      let key = action_key digest dedup_max_size in
      elim (Bool-cases (contains (key a) k.seen)) [
        | inl e ↦ rw e (
            IsCovering-old key a rest k.seen _ e
              (take_actions-IsCovering component_type rest k (omega arith)))
        | inr e ↦
            let full = take_all dedup_max_size (key a ∷ k.seen) (omega arith) in
            rw e (
              IsCovering-new key a rest k.seen _ _ full (
                take_actions-IsCovering component_type rest
                  (record k {
                    seen = take dedup_max_size (key a ∷ k.seen);
                    component_types = resolve_type component_type a.component_id k.component_types;
                  })
                  (fits _ (length k.seen) (length rest) dedup_max_size (ap length full) le)))
      ]

  take_logs-IsCovering :
      (entries : List LogEntry) (k : Collector)
      → length k.seen + length entries ≤ dedup_max_size
      → IsCovering
          (log_key digest dedup_max_size)
          entries
          k.seen
          (take_logs digest dedup_max_size entries k).1.seen
  unfolding take_logs is_new
  take_logs-IsCovering [] k le = record { is_short = omega arith; keeps = λ x h. h; has_all = tt }
  take_logs-IsCovering (l ∷ rest) k le =
      let key = log_key digest dedup_max_size in
      elim (Bool-cases (contains (key l) k.seen)) [
        | inl e ↦
            rw e (IsCovering-old key l rest k.seen _ e (take_logs-IsCovering rest k (omega arith)))
        | inr e ↦
            let full = take_all dedup_max_size (key l ∷ k.seen) (omega arith) in
            rw e (
              IsCovering-new key l rest k.seen _ _ full (
                take_logs-IsCovering rest (record k { seen = take dedup_max_size (key l ∷ k.seen) })
                  (fits _ (length k.seen) (length rest) dedup_max_size (ap length full) le)))
      ]

  take_actions_seen :
      (component_type : ℕ → Option ℕ) (entries : List UserAction) (k : Collector)
      → All (λ a. contains (action_key digest dedup_max_size a) k.seen ≡ true) entries
      → take_actions digest dedup_max_size component_type entries k ≡ ([], k)
  unfolding take_actions is_new
  take_actions_seen component_type [] k h = refl
  take_actions_seen component_type (a ∷ rest) k h =
      rw h.0 (take_actions_seen component_type rest k h.1)

  take_logs_seen :
      (entries : List LogEntry) (k : Collector)
      → All (λ l. contains (log_key digest dedup_max_size l) k.seen ≡ true) entries
      → take_logs digest dedup_max_size entries k ≡ ([], k)
  unfolding take_logs is_new
  take_logs_seen [] k h = refl
  take_logs_seen (l ∷ rest) k h = rw h.0 (take_logs_seen rest k h.1)

  fetch_errors_seen :
      (now : ℕ) (answer : Option (List ErrorEntry)) (k : Collector)
      → (fetch_errors digest dedup_max_size now answer k).1.seen ≡ k.seen
  unfolding fetch_errors
  fetch_errors_seen now none k = refl
  fetch_errors_seen now (some entries) k = refl

  -- A cycle whose server answers these actions and log entries.
  abbrev pub answering : List UserAction → List LogEntry → Cycle → Cycle
  answering actions logs c = record c { actions = some actions; logs = some logs }

  module _ (actions : List UserAction) (logs : List LogEntry) where
    poll_cycle_seen :
        (c : Cycle) (k : Collector)
        → All (λ a. contains (action_key digest dedup_max_size a) k.seen ≡ true) actions
        → All (λ l. contains (log_key digest dedup_max_size l) k.seen ≡ true) logs
        → poll_cycle digest dedup_max_size (answering actions logs c) k
          ≡ fetch_errors digest dedup_max_size c.now (c.errors k.last_error_poll) k
    unfolding poll_cycle fetch_actions fetch_logs
    poll_cycle_seen c k old_actions old_logs =
        rw (take_actions_seen c.component_type actions k old_actions)
          (rw (take_logs_seen logs k old_logs) refl)

    poll_cycle-covers :
        (c : Cycle) (k : Collector)
        → length k.seen + (length actions + length logs) ≤ dedup_max_size
        → let after = (poll_cycle digest dedup_max_size (answering actions logs c) k).1 in
          All (λ a. contains (action_key digest dedup_max_size a) after.seen ≡ true) actions
          × All (λ l. contains (log_key digest dedup_max_size l) after.seen ≡ true) logs
    unfolding poll_cycle fetch_actions fetch_logs
    poll_cycle-covers c k le =
        let k1 = (take_actions digest dedup_max_size c.component_type actions k).1 in
        let k2 = (take_logs digest dedup_max_size logs k1).1 in
        let first = take_actions-IsCovering c.component_type actions k (omega arith) in
        let second = take_logs-IsCovering logs k1 (both _ _ _ _ _ first.is_short le) in
        let same = fetch_errors_seen c.now (c.errors k2.last_error_poll) k2 in
        rw same (
          All-weaken _ _ (λ a h. second.keeps (action_key digest dedup_max_size a) h) actions
              first.has_all,
          second.has_all,
        )

  -- Two cycles in a row that are answered the same actions and log entries, no more than fit among
  -- the keys seen: the second one stores only what its own call for errors gave. The actions and
  -- log entries are stored at most once, and not at all when the write of the first cycle failed.
  pub poll_loop-again :
      (first second : Cycle) (actions : List UserAction) (logs : List LogEntry) (k : Collector)
      (table : List BehavioralEvent)
      → length k.seen + (length actions + length logs) ≤ dedup_max_size
      → let (events, after) = poll_cycle digest dedup_max_size (answering actions logs first) k in
        let errors = second.errors after.last_error_poll in
        (poll_loop digest dedup_max_size
          (answering actions logs first ∷ answering actions logs second ∷ [])
          k
          table).1
        ≡ persist digest dedup_max_size second.is_saved
            (fetch_errors digest dedup_max_size second.now errors after).0
            (persist digest dedup_max_size first.is_saved events table)
  unfolding poll_loop
  poll_loop-again first second actions logs k table le =
      let (events, after) = poll_cycle digest dedup_max_size (answering actions logs first) k in
      let (old_actions, old_logs) = poll_cycle-covers actions logs first k le in
      ap
        (λ (r : List BehavioralEvent × Collector).
          persist digest dedup_max_size second.is_saved r.0
            (persist digest dedup_max_size first.is_saved events table))
        (poll_cycle_seen actions logs second after old_actions old_logs)
