-- ===== src/Progress/Attempts.antt =====
-- The numbers of the attempts of `record_step_attempt` in backend/progress/service.py.
use onlinetlabs.Base.{
  if◌then◌else◌, ℕ, zero, suc, any, is_some, ltb, ◌+◌, ◌≤◌, ◌<◌, ◌≡◌, refl, sym, ap, ap₂, ◌∙◌,
  arith, Bool, true, false, ◌||◌, List, [], ◌∷◌, ◌++◌, append_assoc, append-nil, length,
  length-append, if-true, if-false, ◌==◌, ==_iff, Bool-cases, inl, inr,
}
use onlinetlabs.Progress.{StepAttempt, numbers, maximum, next_number, is_taken, attempt_loop}

-- The numbers n+1, n+2 and so on, as many as asked for.
unfoldable pub counting : ℕ → ℕ → List ℕ
counting n zero = []
counting n (suc k) = suc n ∷ counting (suc n) k

-- The attempts of every step are numbered 1, 2, 3 and so on, in the order of their rows.
abbrev pub IsNumbered : List StepAttempt → Type 0
IsNumbered rows = (step : ℕ) → numbers step rows ≡ counting 0 (length (numbers step rows))

numbers-append :
    (step : ℕ) (xs ys : List StepAttempt)
    → numbers step (xs ++ ys) ≡ numbers step xs ++ numbers step ys
unfolding numbers
numbers-append step [] ys = refl
numbers-append step (x ∷ xs) ys = ground (arith, numbers-append step xs ys)

suc_add : (j k : ℕ) → suc j + k ≡ suc (j + k)
suc_add j k = omega arith

counting-append : (n j k : ℕ) → counting n (j + k) ≡ counting n j ++ counting (n + j) k
unfolding counting
counting-append n zero k = ap₂ counting (omega arith) (omega arith)
counting-append n (suc j) k =
    ap (counting n) (suc_add j k)
    ∙ ap (λ r. suc n ∷ r)
        (counting-append (suc n) j k ∙ ap (λ i. counting (suc n) j ++ counting i k) (omega arith))

-- What comes before in a counting is itself one.
counting_prefix :
    (n : ℕ) (xs ys : List ℕ)
    → xs ++ ys ≡ counting n (length xs + length ys)
    → xs ≡ counting n (length xs)
unfolding counting
counting_prefix n [] ys e = refl
counting_prefix n (x ∷ xs) ys e =
    let from : x ∷ (xs ++ ys) ≡ suc n ∷ counting (suc n) (length xs + length ys) =
      e ∙ ap (counting n) (suc_add (length xs) (length ys)) in
    let tails : xs ++ ys ≡ counting (suc n) (length xs + length ys) = cc in
    let heads : x ≡ suc n = cc in ap₂ (◌∷◌) heads (counting_prefix (suc n) xs ys tails)

maximum-counting : (n k : ℕ) → maximum (counting n (suc k)) ≡ n + suc k
unfolding maximum counting
maximum-counting n zero = ground (arith)
maximum-counting n (suc k) = ground (arith, maximum-counting (suc n) k)

is_taken-counting_below : (m n k : ℕ) → m ≤ n → is_taken m (counting n k) ≡ false
unfolding is_taken counting
is_taken-counting_below m n zero le = refl
is_taken-counting_below m n (suc k) le = ground (arith, is_taken-counting_below m (suc n) k)

is_taken-counting_above : (m n k : ℕ) → n + k < m → is_taken m (counting n k) ≡ false
unfolding is_taken counting
is_taken-counting_above m n zero le = refl
is_taken-counting_above m n (suc k) le = ground (arith, is_taken-counting_above m (suc n) k)

is_taken-append :
    (m : ℕ) (xs ys : List ℕ) → is_taken m (xs ++ ys) ≡ (is_taken m xs || is_taken m ys)
unfolding is_taken
is_taken-append m [] ys = refl
is_taken-append m (x ∷ xs) ys = ground (arith, is_taken-append m xs ys)

zero_add : (n : ℕ) → 0 + n ≡ n
zero_add n = omega arith

add_zero : (n : ℕ) → n + 0 ≡ n
add_zero n = omega arith

starts : (n m : ℕ) → is_taken (suc n) (counting n (suc m)) ≡ ltb 0 (suc m)
unfolding counting is_taken
starts n m = ground (arith)

-- Of a counting that goes on after n, n+1 is a part exactly when it does go on.
is_taken-counting : (n m : ℕ) → is_taken (suc n) (counting 0 (n + m)) ≡ ltb 0 m
unfolding counting is_taken
is_taken-counting n zero = is_taken-counting_above (suc n) 0 (n + 0) (omega arith)
is_taken-counting n (suc m) =
    ap (is_taken (suc n))
      (counting-append 0 n (suc m) ∙ ap (λ i. counting 0 n ++ counting i (suc m)) (zero_add n))
    ∙ is_taken-append (suc n) (counting 0 n) (counting n (suc m))
    ∙ ap₂ (λ x y. x || y) (is_taken-counting_above (suc n) 0 n (omega arith)) (starts n m)

next_number-counting : (k : ℕ) → suc (maximum (counting 0 k)) ≡ suc k
unfolding counting maximum
next_number-counting zero = refl
next_number-counting (suc k) = ap suc (maximum-counting 0 k ∙ zero_add (suc k))

next_number-IsNumbered :
    (step : ℕ) (rows : List StepAttempt)
    → IsNumbered rows
    → next_number step rows ≡ suc (length (numbers step rows))
next_number-IsNumbered step rows numbered =
    ap (λ ns. suc (maximum ns)) (numbered step) ∙ next_number-counting (length (numbers step rows))

length-numbers-append :
    (step : ℕ) (xs ys : List StepAttempt)
    → length (numbers step (xs ++ ys)) ≡ length (numbers step xs) + length (numbers step ys)
length-numbers-append step xs ys =
    ap length (numbers-append step xs ys) ∙ length-append (numbers step xs) (numbers step ys)

IsNumbered-prefix : (xs ys : List StepAttempt) → IsNumbered (xs ++ ys) → IsNumbered xs
IsNumbered-prefix xs ys numbered step = counting_prefix 0 (numbers step xs) (numbers step ys) (
    sym (numbers-append step xs ys)
    ∙ numbered step
    ∙ ap (counting 0) (length-numbers-append step xs ys))

-- The number that a try takes is gone exactly when another attempt of the step came between.
is_taken-next_number :
    (step : ℕ) (rows others : List StepAttempt)
    → IsNumbered (rows ++ others)
    → is_taken (next_number step rows) (numbers step (rows ++ others))
      ≡ ltb 0 (length (numbers step others))
is_taken-next_number step rows others numbered =
    ap₂ is_taken (next_number-IsNumbered step rows (IsNumbered-prefix rows others numbered))
      (numbered step ∙ ap (counting 0) (length-numbers-append step rows others))
    ∙ is_taken-counting (length (numbers step rows)) (length (numbers step others))

numbers-own :
    (step : ℕ) (a : StepAttempt) (rows : List StepAttempt)
    → (a.step == step) ≡ true
    → numbers step (rows ++ a ∷ []) ≡ numbers step rows ++ a.attempt_number ∷ []
unfolding numbers
numbers-own step a rows e =
    numbers-append step rows (a ∷ []) ∙ ap (λ r. numbers step rows ++ r) (if-true _ _ _ e)

numbers-other :
    (step : ℕ) (a : StepAttempt) (rows : List StepAttempt)
    → (a.step == step) ≡ false
    → numbers step (rows ++ a ∷ []) ≡ numbers step rows
unfolding numbers
numbers-other step a rows e =
    numbers-append step rows (a ∷ [])
    ∙ ap (λ r. numbers step rows ++ r) (if-false _ _ _ e)
    ∙ append-nil (numbers step rows)

length-counting : (n k : ℕ) → length (counting n k) ≡ k
unfolding counting
length-counting n zero = refl
length-counting n (suc k) = ap suc (length-counting (suc n) k)

counted : (ns : List ℕ) (k : ℕ) → ns ≡ counting 0 k → ns ≡ counting 0 (length ns)
counted ns k e = e ∙ ap (counting 0) (sym (ap length e ∙ length-counting 0 k))

counting_snoc : (k : ℕ) → counting 0 k ++ suc k ∷ [] ≡ counting 0 (k + 1)
unfolding counting
counting_snoc k = sym (counting-append 0 k 1 ∙ ap (λ i. counting 0 k ++ counting i 1) (zero_add k))

-- A row with the next number of its step keeps the table numbered.
IsNumbered-append :
    (a : StepAttempt) (rows : List StepAttempt)
    → IsNumbered rows
    → a.attempt_number ≡ suc (length (numbers a.step rows))
    → IsNumbered (rows ++ a ∷ [])
IsNumbered-append a rows numbered e step = elim (Bool-cases (a.step == step)) [
  | inl own ↦
      let same = ==_iff a.step step in
      counted _ (length (numbers step rows) + 1) (
        numbers-own step a rows own
        ∙ ap₂ (λ r x. r ++ x ∷ []) (numbered step)
            (e ∙ ap (λ s. suc (length (numbers s rows))) (same.0 own))
        ∙ counting_snoc (length (numbers step rows)))
  | inr other ↦
      counted _ (length (numbers step rows)) (numbers-other step a rows other ∙ numbered step)
]

IsNumbered-along : (xs ys : List StepAttempt) → xs ≡ ys → IsNumbered xs → IsNumbered ys
IsNumbered-along xs ys e numbered = rw (sym e) numbered

busy : (n : ℕ) → ltb 0 n ≡ true → (n == 0) ≡ false
busy n e = ground (arith)

idle : (n : ℕ) → ltb 0 n ≡ false → n ≡ 0
idle n e = ground (arith)

-- The attempts that others commit during all tries.
unfoldable pub all_others : List (List StepAttempt) → List StepAttempt
all_others [] = []
all_others (others ∷ later) = others ++ all_others later

-- Whether in some try no attempt of the step came between.
abbrev pub has_quiet_try : ℕ → List (List StepAttempt) → Bool
has_quiet_try step tries = any (λ others. length (numbers step others) == 0) tries

-- A call, where the table of attempts is numbered 1, 2, 3 and so on for every step, with the
-- attempts that others commit during its tries: the table it leaves is numbered like that too; it
-- gives an attempt exactly when in one of its tries no attempt of the step came between; and where
-- it gives none it has added none.
pub attempt_loop-IsNumbered :
    (step result : ℕ) (tries : List (List StepAttempt)) (rows : List StepAttempt)
    → IsNumbered (rows ++ all_others tries)
    → let (after, made) = attempt_loop step result tries rows in
      IsNumbered after
      × (is_some made ≡ has_quiet_try step tries)
      × ((if has_quiet_try step tries then after else rows ++ all_others tries) ≡ after)
unfolding attempt_loop all_others
attempt_loop-IsNumbered step result [] rows numbered =
    (IsNumbered-along (rows ++ []) rows (append-nil rows) numbered, refl, append-nil rows)
attempt_loop-IsNumbered step result (others ∷ later) rows numbered =
    let mid : IsNumbered (rows ++ others ++ all_others later) =
      IsNumbered-along _ _ (sym (append_assoc rows others (all_others later))) numbered in
    let now = IsNumbered-prefix (rows ++ others) (all_others later) mid in
    let taken = is_taken-next_number step rows others now in
    let rest = has_quiet_try step later in
    elim (Bool-cases (is_taken (next_number step rows) (numbers step (rows ++ others)))) [
      | inl e ↦
          let (ih, quiet, left) = attempt_loop-IsNumbered step result later (rows ++ others) mid in
          let reached = (attempt_loop step result later (rows ++ others)).0 in
          rw e (
            ih,
            quiet ∙ sym (ap (λ b. b || rest) (busy _ (sym taken ∙ e))),
            ap (λ b. if b || rest then reached else rows ++ all_others (others ∷ later))
                  (busy _ (sym taken ∙ e))
                ∙ ap (λ x. if rest then reached else x)
                    (sym (append_assoc rows others (all_others later)))
                ∙ left,
          )
      | inr e ↦
          let attempt : StepAttempt = record {
            step = step;
            attempt_number = next_number step rows;
            result = result;
          } in
          let none_between = idle _ (sym taken ∙ e) in
          rw e (
            IsNumbered-append attempt (rows ++ others) now (
                next_number-IsNumbered step rows (IsNumbered-prefix rows others now)
                ∙ ap suc (
                    sym (
                      length-numbers-append step rows others
                      ∙ ap (λ n. length (numbers step rows) + n) none_between
                      ∙ add_zero (length (numbers step rows))))),
            sym (ap (λ b. b || rest) (ap (λ n. n == 0) none_between)),
            ap
                (λ b.
                  if b || rest
                  then rows ++ others ++ attempt ∷ []
                  else rows ++ all_others (others ∷ later))
                (ap (λ n. n == 0) none_between),
          )
    ]
