-- ===== src/Vpcs/Patterns.antt =====
-- backend/validation/checks/vpcs.py: `_matches`, a number against an expectation. White space is
-- that of ASCII, and so are the digits.
pub mod Reading
use onlinetlabs.Base.{
  ℕ, zero, suc, ◌+◌, ◌-◌, ◌*◌, ◌≡◌, refl, Bool, true, false, not, ◌&&◌, ◌||◌, List, [], ◌∷◌, ◌++◌,
  Option, none, some, ltb, leb, ◌==◌, if◌then◌else◌, all, arith, length,
}
use onlinetlabs.Vpcs.{Text}

pub data Expected : Type 0 where
  number : ℕ → Expected
  pattern_text : Text → Expected
  -- absent, or neither an int nor a string
  other : Expected

pub data Operator : Type 0 where
  at_least at_most equal above below : Operator

abbrev pub is_space : ℕ → Bool
is_space c = (leb 9 c && leb c 13) || (leb 28 c && leb c 32)

abbrev pub is_digit : ℕ → Bool
is_digit c = leb 48 c && leb c 57

unfoldable pub skip_spaces : Text → Text
skip_spaces [] = []
skip_spaces (c ∷ s) = let rest = skip_spaces s in if is_space c then rest else c ∷ s

-- The operator at the head of a text, and the rest; `=` where there is none.
unfoldable pub operator_of : Text → Operator × Text
operator_of [] = (equal, [])
operator_of (c ∷ []) =
    if c == 62
    then (above, [])
    else (if c == 60 then (below, []) else (if c == 61 then (equal, []) else (equal, c ∷ [])))
operator_of (c ∷ d ∷ s) =
    if c == 62
    then (if d == 61 then (at_least, s) else (above, d ∷ s))
    else (if c == 60
        then (if d == 61 then (at_most, s) else (below, d ∷ s))
        else (if c == 61
            then (if d == 61 then (equal, s) else (equal, d ∷ s))
            else (equal, c ∷ d ∷ s)))

-- The number that the digits at the head of a text add to a number, and the rest.
unfoldable pub digits_from : ℕ → Text → ℕ × Text
digits_from n [] = (n, [])
digits_from n (c ∷ s) = elim (is_digit c) [
  | true ↦ digits_from (n * 10 + (c - 48)) s
  | false ↦ (n, c ∷ s)
]

abbrev pub starts_with_digit : Text → Bool
starts_with_digit [] = false
starts_with_digit (c ∷ _) = is_digit c

-- What is matched after the operator: white space, digits, and white space to the end.
abbrev pub compare_end : Operator → Text → ℕ × Text → Option (Operator × ℕ)
compare_end op u (n, rest) = if starts_with_digit u && all is_space rest then some (op, n) else none

abbrev pub compare_after : Operator × Text → Option (Operator × ℕ)
compare_after (op, t) = compare_end op (skip_spaces t) (digits_from 0 (skip_spaces t))

-- `_COMPARE_RE.match`
unfoldable pub parse_compare : Text → Option (Operator × ℕ)
unfolding skip_spaces operator_of digits_from
parse_compare s = compare_after (operator_of (skip_spaces s))

abbrev pub compare_by : Operator → ℕ → ℕ → Bool
compare_by at_least a n = leb n a
compare_by at_most a n = leb a n
compare_by equal a n = a == n
compare_by above a n = ltb n a
compare_by below a n = ltb a n

abbrev pub compare_parsed : ℕ → Option (Operator × ℕ) → Bool
compare_parsed a none = false
compare_parsed a (some (op, n)) = compare_by op a n

unfoldable pub matches : Option ℕ → Expected → Bool
matches none e = false
matches (some a) (number n) = a == n
matches (some a) (pattern_text s) = compare_parsed a (parse_compare s)
matches (some a) other = false
