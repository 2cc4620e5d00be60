-- ===== src/Registry/Pairing.antt =====
-- Calls of backend/sessions/monitor_registry.py one after another: the monitors and the observers.
use onlinetlabs.Base.{
  ℕ, ◌≡◌, refl, ap, ◌∙◌, sym, subst, Bool, true, false, not, ◌&&◌, ◌||◌, List, [], ◌∷◌, ◌++◌, arith,
  ◌==◌, if◌then◌else◌, contains,
}
use onlinetlabs.Registry.{
  Registry, StartReplies, and_then, pop, put, start, stop, stop_observer, stop_monitors,
  stop_observers, stop_all,
}

contains-pop : (j k : ℕ) (ks : List ℕ) → contains j (pop k ks) ≡ (contains j ks && not (j == k))
contains-pop j k [] = refl
contains-pop j k (x ∷ ks) = ground (arith, contains-pop j k ks)

contains_concat : (j k : ℕ) (ks : List ℕ) → contains j (ks ++ k ∷ []) ≡ (contains j ks || (k == j))
contains_concat j k [] = ground arith
contains_concat j k (x ∷ ks) = ground (arith, contains_concat j k ks)

contains-put : (j k : ℕ) (ks : List ℕ) → contains j (put k ks) ≡ (contains j ks || (k == j))
contains-put j k ks = ground (arith, contains_concat j k ks)

-- Every session with an observer has a monitor.
abbrev pub IsPaired : Registry → Type 0
IsPaired r = (j : ℕ) → contains j r.observers ≡ true → contains j r.monitors ≡ true

start-IsPaired : (s : StartReplies) (k : ℕ) (r : Registry) → IsPaired r → IsPaired (start s k r).1
unfolding start
start-IsPaired s k r v j h = ground (
  arith,
  v j,
  contains-put j k r.observers,
  contains-put j k r.monitors,
  contains-pop j k r.observers,
  contains-pop j k (put k r.observers),
)

stop-IsPaired : (k : ℕ) (r : Registry) → IsPaired r → IsPaired (stop true k r).1
unfolding stop
stop-IsPaired k r v j h =
    ground (arith, v j, contains-pop j k r.observers, contains-pop j k r.monitors)

pub data Op : Type 0 where
  starts : StartReplies → ℕ → Op
  stops : ℕ → Op

-- A call, where `stop_session` of a monitor returns.
unfoldable pub call : Op → Registry → Bool × Registry
call (starts s k) r = start s k r
call (stops k) r = stop true k r

unfoldable pub run_calls : List Op → Registry → Registry
run_calls [] r = r
run_calls (op ∷ ops) r = run_calls ops (call op r).1

call-IsPaired : (op : Op) (r : Registry) → IsPaired r → IsPaired (call op r).1
unfolding call
call-IsPaired (starts s k) r v = start-IsPaired s k r v
call-IsPaired (stops k) r v = stop-IsPaired k r v

run_calls-IsPaired : (ops : List Op) (r : Registry) → IsPaired r → IsPaired (run_calls ops r)
unfolding run_calls
run_calls-IsPaired [] r v = v
run_calls-IsPaired (op ∷ ops) r v = run_calls-IsPaired ops (call op r).1 (call-IsPaired op r v)

start_lem :
    (s : StartReplies) (k : ℕ) (r : Registry)
    → let (returned, r') = start s k r in
      ((returned || not (contains k r'.observers)) ≡ true)
      × (r'.monitors ≡ (if returned then put k r.monitors else r.monitors))
unfolding start
start_lem s k r = (
  ground (arith, contains-pop k k r.observers, contains-pop k k (put k r.observers)),
  ground arith,
)

-- The keys of a list popped one after the other.
abbrev pub pop_all : List ℕ → List ℕ → List ℕ
pop_all [] xs = xs
pop_all (k ∷ ks) xs = pop_all ks (pop k xs)

contains-pop_all :
    (j : ℕ) (ks xs : List ℕ) → contains j (pop_all ks xs) ≡ (contains j xs && not (contains j ks))
contains-pop_all j [] xs = ground arith
contains-pop_all j (k ∷ ks) xs =
    ground (arith, contains-pop_all j ks (pop k xs), contains-pop j k xs)

stop_observers-pop_all :
    (ks : List ℕ) (r : Registry)
    → stop_observers ks r ≡ record r { observers = pop_all ks r.observers }
unfolding stop_observers
stop_observers-pop_all [] r = refl
stop_observers-pop_all (k ∷ ks) r = stop_observers-pop_all ks (stop_observer k r)

stop_returns :
    (k : ℕ) (r : Registry)
    → stop true k r ≡ (true, record { monitors = pop k r.monitors; observers = pop k r.observers })
unfolding stop
stop_returns k r = ground arith

stop_monitors-pop_all :
    (ks : List ℕ) (r : Registry)
    → stop_monitors (λ _. true) ks r
      ≡ (true, record { monitors = pop_all ks r.monitors; observers = pop_all ks r.observers })
unfolding stop_monitors
stop_monitors-pop_all [] r = refl
stop_monitors-pop_all (k ∷ ks) r =
    ap (λ x. and_then x (stop_monitors (λ _. true) ks)) (stop_returns k r)
    ∙ stop_monitors-pop_all ks
        (record { monitors = pop k r.monitors; observers = pop k r.observers })

stop_all_lem :
    (r : Registry) (j : ℕ)
    → let (returned, r') = stop_all (λ _. true) r in
      (returned ≡ true) × (contains j r'.monitors ≡ false) × (contains j r'.observers ≡ false)
unfolding stop_all
stop_all_lem r j =
    subst Emptied (sym (result ∙ ap (λ x. (true, x)) (stop_observers-pop_all left stopped))) (
      refl,
      ground (arith, contains-pop_all j r.monitors r.monitors),
      ground (arith, contains-pop_all j left left),
    )
  where
    left : List ℕ
    left = pop_all r.monitors r.observers

    stopped : Registry
    stopped = record { monitors = pop_all r.monitors r.monitors; observers = left }

    Emptied : Bool × Registry → Type 0
    Emptied (returned, r') =
        (returned ≡ true) × (contains j r'.monitors ≡ false) × (contains j r'.observers ≡ false)

    result : stop_all (λ _. true) r ≡ (true, stop_observers left stopped)
    result =
        ap (λ x. and_then x (λ r'. (true, stop_observers r'.observers r')))
          (stop_monitors-pop_all r.monitors r)

-- Through any calls of `start` and `stop`, whichever calls of a start raise, and where a monitor's
-- own `stop_session` returns: every session with an observer has a monitor, if it was so before;
-- a start that raises leaves no observer of its session, and the monitors are as they were, with
-- the session put among them exactly if the start returns; and `stop_all` returns and leaves no
-- session with a monitor or an observer.
pub run_calls_lem :
    (ops : List Op) (r : Registry)
    → IsPaired r
    → (s : StartReplies) (k j : ℕ)
    → let r' = run_calls ops r in
      let (returned, r'') = start s k r' in
      let (all_returned, emptied) = stop_all (λ _. true) r' in
      IsPaired r'
      × ((returned || not (contains k r''.observers)) ≡ true)
      × (r''.monitors ≡ (if returned then put k r'.monitors else r'.monitors))
      × (all_returned ≡ true)
      × (contains j emptied.monitors ≡ false)
      × (contains j emptied.observers ≡ false)
run_calls_lem ops r v s k j =
    let (a, b) = start_lem s k (run_calls ops r) in
    let (c, d, e) = stop_all_lem (run_calls ops r) j in (run_calls-IsPaired ops r v, a, b, c, d, e)
